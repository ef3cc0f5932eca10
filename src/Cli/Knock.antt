-- ===== src/Cli/Knock.antt =====
-- `knock` of spa-client/src/main.rs after `keygen`: the gate whose key was generated opens the datagram.
use spa_device.Prelude.{
  ℕ, ◌≡◌, ◌^◌, ◌%◌, ◌<◌, refl, ap, ◌∙◌, sym, subst, true, List, [], ◌∷◌, ◌++◌, Option, none, some,
  ok, ok_or, bind_step, All, ℕ_eq, List_eq, arith,
}
use spa_device.Prelude.Bytes.{IsArray}
use spa_device.Prelude.Text.{HexEncode, codes}
use spa_device.Wire.{Suite, fips, modern, nonce_len}
use spa_device.Core.{Opened}
use spa_device.Crypto.{Primitives, Agreement, Signing, verify_signature}
use spa_device.Crypto.Gate.{open_packet}
use spa_device.Crypto.Client.{ClientKey, KnockRequest, Pkcs8, from_key_pairs, from_signer, seal}
use spa_device.Crypto.Envelope.{ok_or-eq-ok}
use spa_device.Crypto.Laws.{LawfulPrimitives, LawfulAgreement, LawfulSigning, DrawsKeys}
use spa_device.Crypto.Knock.{IsRequest, signed, open-seal}
use spa_device.Files.{FileSystem}
use spa_device.Client.File.{format, Hex}
use spa_device.Client.Knocker.{Knocker, Answers, new_request, seal_now, send_udp, send_knock}
use spa_device.Cli.Main.{knock_command}
use spa_device.Cli.Reread.{LawfulHex}
use spa_device.Cli.Keygen.{IsReread, from_crypto-ok}

-- The random generator fills the nonce.
abbrev pub FillsNonce : {P : Type 0} → Answers P → Type 0
FillsNonce a = (n : List ℕ) → a.nonce ≡ some n → IsArray nonce_len n

pub new_request-IsRequest :
    {P : Type 0} (a : Answers P) (gate_id ports : List ℕ) (req : KnockRequest)
    → FillsNonce a
    → IsArray 16 gate_id
    → All (λ p. p < 256 ^ 2) ports
    → new_request a gate_id ports ≡ ok req
    → IsRequest req × (req.ports ≡ ports) × (req.gate_id ≡ gate_id)
unfolding new_request
new_request-IsRequest a gate_id ports req filled id small h =
    bind_step (ok_or format a.nonce) _ h λ nonce e1 h.
      bind_step (ok_or format a.since_epoch) _ h λ nanos e2 h.
        let made : record {
          gate_id = gate_id;
          ports = ports;
          nonce = nonce;
          timestamp_nanos = nanos % 2 ^ 64;
        }
            ≡ req =
          cc h in
        subst (λ (r : KnockRequest). IsRequest r × (r.ports ≡ ports) × (r.gate_id ≡ gate_id)) made
          (
            record {
              nonce = filled nonce (ok_or-eq-ok _ _ e1);
              timestamp = omega arith;
              gate_id = id;
              ports = small;
            },
            refl,
            refl,
          )

module _ {E D : Type 0} ⦃signing : Signing E D⦄ ⦃aws : Primitives⦄ where
  from_key_pairs-suite :
      (suite : Suite) (e : Option E) (d : Option D) (client : ClientKey E D)
      → from_key_pairs suite e d ≡ ok client
      → client.suite ≡ suite
  unfolding from_key_pairs from_signer
  from_key_pairs-suite fips (some kp) d client h = cc h
  from_key_pairs-suite fips none d client h = cc h
  from_key_pairs-suite modern e (some kp) client h = cc h
  from_key_pairs-suite modern e none client h = cc h

  -- What `send_knock` sends is the sealed request.
  send_knock-sealed :
      {P : Type 0} ⦃dh : Agreement P⦄ (k : Knocker E D) (a : Answers P) (ports packet : List ℕ)
      → send_knock k a ports ≡ ok packet
      → (req : KnockRequest) × (new_request a k.gate_id ports ≡ ok req)
        × (seal k.client k.gate_pubkey req a.seed a.drawn ≡ ok packet)
  unfolding send_knock seal_now send_udp
  send_knock-sealed k a ports packet h = bind_step (seal_now k a ports) _ h λ p e1 h.
      bind_step (new_request a k.gate_id ports) _ e1 λ req e2 sealed.
        let sent : p ≡ packet = ground (arith, h) in
        (
          req,
          e2,
          from_crypto-ok (seal k.client k.gate_pubkey req a.seed a.drawn) sealed ∙ ap ok sent,
        )

  module _ ⦃encoder : HexEncode⦄ ⦃decoder : Hex⦄ (hex : LawfulHex encoder decoder)
      (lawful : LawfulPrimitives aws) (signs : LawfulSigning aws signing) ⦃pkcs8 : Pkcs8 E D⦄
      (P : Type 0) ⦃dh : Agreement P⦄ (agrees : LawfulAgreement dh) {F : Type 0}
      ⦃fs : FileSystem F⦄ where
    -- After `keygen`, a datagram that `knock` sends with the knock file is opened by the gate that was
    -- generated: it asks for the default port, for this gate, under the thumbprint of the client that
    -- was generated, and its signature verifies under the client's public key; the random generator
    -- filling the nonce.
    pub knock_command-opens :
        (prefix suite_name : List ℕ) (fill : ℕ → Option (List ℕ)) (e : Option E) (d : Option D)
        (id_bytes : Option (List ℕ)) (f : F)
        (made : IsReread hex P prefix suite_name fill e d id_bytes f) (answers : Answers P)
        (packet : List ℕ)
        → DrawsKeys answers.drawn
        → FillsNonce answers
        → knock_command E D (fs.read f (prefix ++ codes ".knock")) answers ≡ ok packet
        → (o : Opened) × (open_packet made.gate.0 packet ≡ ok o)
          × (o.auth.ports ≡ 9999 ∷ [])
          × (o.auth.gate_id ≡ made.gate_id)
          × (o.auth.key_thumbprint ≡ made.client.thumbprint)
          × (verify_signature made.suite made.client.public o.signing_bytes o.auth.signature ≡ true)
    unfolding knock_command
    knock_command-opens prefix suite_name fill e d id_bytes f made answers packet draws filled h =
        let k : Knocker E D = record {
          gate_pubkey = made.gate.0.public;
          gate_id = made.gate_id;
          client = made.client;
        } in
        let sent : send_knock k answers (9999 ∷ []) ≡ ok packet =
          rw (knock_command, made.reread) at h in
        let (req, requested, sealed) = send_knock-sealed k answers (9999 ∷ []) packet sent in
        let (r, ports, id) =
          new_request-IsRequest answers made.gate_id (9999 ∷ []) req filled made.id_array
            (omega arith, tt) requested in
        let same =
          from_key_pairs-suite made.suite e d made.client made.client_made ∙ sym made.gate_suite in
        let (region, mac, s, opens, verified) =
          open-seal lawful signs agrees made.gate.0 answers.drawn req answers.seed made.suite e d
            made.client packet made.gate_key draws r made.client_made same sealed in
        (
          record { auth = signed req made.client.thumbprint mac; signing_bytes = region },
          opens,
          ports,
          id,
          refl,
          subst (λ c. verify_signature c made.client.public region mac ≡ true) made.gate_suite
              verified,
        )
