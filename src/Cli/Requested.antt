-- ===== src/Cli/Requested.antt =====
-- What `knock_descriptor` of spa-client/src/main.rs sends, and what its success shows.
use spa_device.Prelude.{
  ℕ, ◌%◌, ◌^◌, ◌≡◌, ap, sym, ◌∙◌, subst, true, Bool-cases, List, [], ◌∷◌, length, Option, some, ok,
  ok_or, bind_step, Result-cases, inl, inr,
}
use spa_device.Prelude.Text.{codes}
use spa_device.Wire.{Suite, gate_id_len}
use spa_device.Crypto.{Primitives, Agreement, Signing}
use spa_device.Crypto.Client.{Pkcs8, from_pkcs8, seal}
use spa_device.Client.File.{io, format, parse_suite, trim, Hex, hexd}
use spa_device.Client.Knocker.{
  Knocker, Answers, from_crypto, new_request, send_udp, seal_now, new_knocker, send_knock,
}
use spa_device.Cli.Keygen.{from_crypto-ok}
use spa_device.Cli.Confirm.{Probing}
use spa_device.Cli.Descriptor.{
  Json, gate_id_arr, Inputs, key_path, field, chosen_ports, Prepared, prepare, confirm_first,
  knock_descriptor,
}
use spa_device.Cli.Wanted.{
  ok_inj, some_of_ok, some_of_read, Says, Wanted, field-Says, chosen_ports-Wanted, gate_id_arr-ok,
  KeyFile, key_path-KeyFile,
}
use spa_device.Cli.Answered.{FirstAnswers, confirm_first-FirstAnswers}

-- What the command knocks with, as the descriptor, the key file and the arguments say.
pub record IsRequested (J : Type 0) ⦃json : Json J⦄ ⦃hex : Hex⦄ {E D : Type 0}
    ⦃signing : Signing E D⦄ ⦃aws : Primitives⦄ ⦃pkcs8 : Pkcs8 E D⦄ (inputs : Inputs)
    (descriptor client_key : List ℕ) (given : Option (List ℕ)) (p : Prepared E D) : Type 0 where
  pub text : List ℕ
  pub read : inputs.file descriptor ≡ some text
  pub d : J
  pub parsed : json.json_from_str text ≡ some d
  pub suite_name : List ℕ
  pub suite : Suite
  pub suite_said : Says d (codes "suite") suite_name
  pub suite_read : parse_suite suite_name ≡ ok suite
  pub pubkey_hex : List ℕ
  pub pubkey_said : Says d (codes "gate_pubkey_hex") pubkey_hex
  pub pubkey_read : hexd pubkey_hex ≡ ok p.knocker.gate_pubkey
  pub id_hex : List ℕ
  pub id_said : Says d (codes "gate_id_hex") id_hex
  pub id_read : hexd id_hex ≡ ok p.knocker.gate_id
  pub id_size : length p.knocker.gate_id ≡ gate_id_len
  pub address_said : Says d (codes "address") p.address
  pub key_hex : List ℕ
  pub key_file : KeyFile inputs client_key key_hex
  pub doc : List ℕ
  pub key_read : hexd (trim key_hex) ≡ ok doc
  pub client : from_pkcs8 suite doc ≡ ok p.knocker.client
  pub ports : Wanted d given p.ports

new_knocker-ok :
    {E D : Type 0} ⦃signing : Signing E D⦄ ⦃aws : Primitives⦄ ⦃pkcs8 : Pkcs8 E D⦄ (suite : Suite)
    (gate_pubkey gate_id doc : List ℕ) (k : Knocker E D)
    → new_knocker suite gate_pubkey gate_id doc ≡ ok k
    → (gate_pubkey ≡ k.gate_pubkey) × (gate_id ≡ k.gate_id) × (from_pkcs8 suite doc ≡ ok k.client)
unfolding new_knocker
new_knocker-ok {E = E} {D = D} suite gate_pubkey gate_id doc k h =
    bind_step (from_crypto (from_pkcs8 suite doc)) _ h λ client e h. (
      ap (λ (n : Knocker E D). n.gate_pubkey) (ok_inj h),
      ap (λ (n : Knocker E D). n.gate_id) (ok_inj h),
      from_crypto-ok _ e ∙ ap (λ (n : Knocker E D). ok n.client) (ok_inj h),
    )

module _ (J : Type 0) ⦃json : Json J⦄ ⦃hex : Hex⦄ (E D : Type 0) ⦃signing : Signing E D⦄
    ⦃aws : Primitives⦄ ⦃pkcs8 : Pkcs8 E D⦄ where
  prepare-IsRequested :
      (inputs : Inputs) (descriptor client_key : List ℕ) (given : Option (List ℕ))
      (p : Prepared E D)
      → prepare J E D inputs descriptor client_key given ≡ ok p
      → IsRequested J inputs descriptor client_key given p
  unfolding prepare
  prepare-IsRequested inputs descriptor client_key given p h =
      bind_step (ok_or io (inputs.file descriptor)) _ h λ text e0 h.
        bind_step (ok_or format (json.json_from_str text)) _ h λ d e1 h.
          bind_step (field d (codes "suite")) _ h λ suite_name e2 h.
            bind_step (parse_suite suite_name) _ h λ suite e3 h.
              bind_step (field d (codes "gate_pubkey_hex")) _ h λ pubkey_hex e4 h.
                bind_step (hexd pubkey_hex) _ h λ gate_pubkey e5 h.
                  bind_step (field d (codes "gate_id_hex")) _ h λ id_hex e6 h.
                    bind_step (gate_id_arr id_hex) _ h λ gate_id e7 h.
                      bind_step (field d (codes "address")) _ h λ address e8 h.
                        bind_step (ok_or format (json.get d (codes "knock_port"))) _ h λ v e9 h.
                          bind_step (ok_or format (json.as_u64 v)) _ h λ knock_port e10 h.
                            bind_step (ok_or io (inputs.file (key_path inputs client_key))) _ h
                              λ key_hex e11 h. bind_step (hexd (trim key_hex)) _ h λ doc e12 h.
                                bind_step (chosen_ports d given) _ h λ wanted e13 h.
                                  bind_step (new_knocker suite gate_pubkey gate_id doc) _ h
                                    λ k e14 h.
                                      let (pubkey_is, id_is, client_is) =
                                        new_knocker-ok suite gate_pubkey gate_id doc k e14 in
                                      let (id_read, id_size) = gate_id_arr-ok id_hex gate_id e7 in
                                      subst
                                        (λ (q : Prepared E D).
                                          IsRequested J inputs descriptor client_key given q)
                                        (ok_inj h)
                                        (record {
                                          text = text;
                                          read = some_of_read _ e0;
                                          d = d;
                                          parsed = some_of_ok _ e1;
                                          suite_name = suite_name;
                                          suite = suite;
                                          suite_said = field-Says d _ suite_name e2;
                                          suite_read = e3;
                                          pubkey_hex = pubkey_hex;
                                          pubkey_said = field-Says d _ pubkey_hex e4;
                                          pubkey_read = e5 ∙ ap ok pubkey_is;
                                          id_hex = id_hex;
                                          id_said = field-Says d _ id_hex e6;
                                          id_read = id_read ∙ ap ok id_is;
                                          id_size = ap (length {0}) (sym id_is) ∙ id_size;
                                          address_said = field-Says d _ address e8;
                                          key_hex = key_hex;
                                          key_file =
                                              key_path-KeyFile inputs client_key key_hex
                                                (some_of_read _ e11);
                                          doc = doc;
                                          key_read = e12;
                                          client = client_is;
                                          ports = chosen_ports-Wanted d given wanted e13;
                                        })

  module _ {P : Type 0} ⦃dh : Agreement P⦄ where
    send_udp-ok :
        (answers : Answers P) (sent packet : List ℕ)
        → send_udp answers sent ≡ ok packet
        → (answers.can_send ≡ true) × (sent ≡ packet)
    unfolding send_udp
    send_udp-ok answers sent packet h = elim (Bool-cases answers.can_send) [
      | inl can ↦ (can, ok_inj (rw can at h))
      | inr cannot ↦ cc (rw cannot at h)
    ]

    -- A datagram is a knock that the client's key sealed to the gate, with a nonce and a time that were
    -- drawn for it, and it could be sent.
    pub record IsSent (p : Prepared E D) (answers : Answers P) (packet : List ℕ) : Type 0 where
      pub nonce : List ℕ
      pub drawn : answers.nonce ≡ some nonce
      pub nanos : ℕ
      pub clock : answers.since_epoch ≡ some nanos
      pub sealed :
          seal p.knocker.client p.knocker.gate_pubkey
            (record {
              gate_id = p.knocker.gate_id;
              ports = p.ports;
              nonce = nonce;
              timestamp_nanos = nanos % 2 ^ 64;
            })
            answers.seed
            answers.drawn
          ≡ ok packet
      pub could_send : answers.can_send ≡ true

    send_knock-IsSent :
        (p : Prepared E D) (answers : Answers P) (packet : List ℕ)
        → send_knock p.knocker answers p.ports ≡ ok packet
        → IsSent p answers packet
    unfolding send_knock seal_now new_request send_udp
    send_knock-IsSent p answers packet h =
        bind_step (seal_now p.knocker answers p.ports) _ h λ sent e h.
          let (can, same) = send_udp-ok answers sent packet h in
          bind_step (new_request answers p.knocker.gate_id p.ports) _ e λ req e0 e.
            bind_step (ok_or format answers.nonce) _ e0 λ nonce e1 e0.
              bind_step (ok_or format answers.since_epoch) _ e0 λ nanos e2 e0. record {
                nonce = nonce;
                drawn = some_of_ok _ e1;
                nanos = nanos;
                clock = some_of_ok _ e2;
                sealed =
                    ap
                      (λ q.
                        seal p.knocker.client p.knocker.gate_pubkey q answers.seed answers.drawn)
                      (ok_inj e0)
                    ∙ from_crypto-ok _ e
                    ∙ ap ok same;
                could_send = can;
              }

    -- What a success shows.
    pub record IsConfirmed (inputs : Inputs) (answers : Answers P) (env : Probing)
        (descriptor client_key : List ℕ) (given : Option (List ℕ)) (sent : List (List ℕ))
        : Type 0 where
      pub p : Prepared E D
      pub requested : IsRequested J inputs descriptor client_key given p
      pub packet : List ℕ
      pub knock : IsSent p answers packet
      pub sent_once : sent ≡ packet ∷ []
      pub confirmed : confirm_first env p.address p.ports ≡ some (ok tt)
      pub answered : FirstAnswers env p.address p.ports

    -- If the command succeeds, it has sent one datagram, a knock that was sealed with the client's key
    -- file to the gate key and the gate id of the descriptor, an id of 16 bytes, and that asks for the
    -- ports of the list that was given, part by part, or else for those of the descriptor, all of
    -- them `u16`. And `confirm_open` has confirmed the first of them, if there is one, at the address
    -- of the descriptor: unless SPA_KNOCK_NO_CONFIRM is set, the address was resolved, and one of the
    -- probes connected or was refused.
    pub knock_descriptor-IsConfirmed :
        (inputs : Inputs) (answers : Answers P) (env : Probing) (descriptor client_key : List ℕ)
        (given : Option (List ℕ)) (sent : List (List ℕ))
        → knock_descriptor J E D inputs answers env descriptor client_key given
          ≡ (some (ok tt), sent)
        → IsConfirmed inputs answers env descriptor client_key given sent
    unfolding knock_descriptor
    knock_descriptor-IsConfirmed inputs answers env descriptor client_key given sent h =
        elim (Result-cases (prepare J E D inputs descriptor client_key given)) [
          | inr (e, bad) ↦ cc (rw (knock_descriptor, bad) at h)
          | inl (p, good) ↦ elim (Result-cases (send_knock p.knocker answers p.ports)) [
            | inr (e, bad) ↦ cc (rw (knock_descriptor, good, bad) at h)
            | inl (packet, ready) ↦
                let ends : (confirm_first env p.address p.ports, packet ∷ [])
                    ≡ (some (ok tt), sent) =
                  rw (knock_descriptor, good, ready) at h in
                record {
                  p = p;
                  requested = prepare-IsRequested inputs descriptor client_key given p good;
                  packet = packet;
                  knock = send_knock-IsSent p answers packet ready;
                  sent_once = cc ends;
                  confirmed = cc ends;
                  answered = confirm_first-FirstAnswers env p.address p.ports (cc ends);
                }
          ]
        ]
