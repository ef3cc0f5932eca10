-- ===== src/Gated/Provided.antt =====
-- The anchor and the id with which the daemon of spa-gated/src/main.rs starts: those of the
-- configuration come first, then those that the control plane tells.
use spa_device.Prelude.{
  ℕ, ◌≡◌, sym, subst, inl, inr, List, length, Option, none, some, ok, map_err, Option-cases,
  Result-cases, ap, ◌∙◌, not, ◌==◌, if_step, arith,
}
use spa_device.Prelude.Text.{HexEncode}
use spa_device.Files.{FileSystem, lift, io_step}
use spa_device.Wire.{gate_id_len}
use spa_device.Crypto.{Agreement}
use spa_device.Crypto.Gate.{GateKeypair, from_raw_private}
use spa_device.Crypto.Envelope.{map_err-eq-ok}
use spa_device.Gated.Config.{Formats, ControlPlane, Config}
use spa_device.Gated.Fetch.{Http, Provisioned, register_identity}
use spa_device.Gated.Loaded.{IfSome}
use spa_device.Gated.Provision.{
  no_key, control_plane_error, Host, on_files, parse_gate_id, or_fetched_anchor, or_fetched_id,
  fetch_first, self_provision,
}

abbrev pub IsGateId : Option (List ℕ) → Type 0
IsGateId id = IfSome (λ (x : List ℕ). length x ≡ gate_id_len) id

module _ ⦃formats : Formats⦄ where
  -- What is configured is used; else the bytes of the digits that were told, and nothing without them.
  abbrev OrTold : Option (List ℕ) → Option (List ℕ) → Option (List ℕ) → Type 0
  OrTold (some x) told used = used ≡ some x
  OrTold none none used = used ≡ none
  OrTold none (some digits) used =
      (x : List ℕ) × (formats.hex_decode digits ≡ some x) × (used ≡ some x)

  parse_gate_id-ok :
      (digits id : List ℕ)
      → parse_gate_id digits ≡ ok id
      → (formats.hex_decode digits ≡ some id) × (length id ≡ gate_id_len)
  unfolding parse_gate_id
  parse_gate_id-ok digits id h = elim (Option-cases (formats.hex_decode digits)) [
    | inl bad ↦ cc (rw (parse_gate_id, bad) at h)
    | inr (bytes, good) ↦
        if_step (not (length bytes == gate_id_len)) _ _ (rw (parse_gate_id, good) at h) λ size e.
          let same : bytes ≡ id = cc e in
          (good ∙ ap some same, ap (length {0}) (sym same) ∙ ground (arith, size))
  ]

  module _ {F : Type 0} where
    or_fetched_anchor-OrTold :
        (configured fetched r : Option (List ℕ)) (host : Host F)
        → (or_fetched_anchor configured fetched host).0 ≡ ok r
        → OrTold configured fetched r
    unfolding or_fetched_anchor
    or_fetched_anchor-OrTold (some x) fetched r host h = let kept : some x ≡ r = cc h in sym kept
    or_fetched_anchor-OrTold none none r host h = let kept : none ≡ r = cc h in sym kept
    or_fetched_anchor-OrTold none (some digits) r host h =
        elim (Option-cases (formats.hex_decode digits)) [
          | inl bad ↦ cc (rw bad at h)
          | inr (x, good) ↦ let kept : some x ≡ r = cc (rw good at h) in (x, good, sym kept)
        ]

    or_fetched_id-OrTold :
        (configured fetched r : Option (List ℕ)) (host : Host F)
        → IsGateId configured
        → (or_fetched_id configured fetched host).0 ≡ ok r
        → OrTold configured fetched r × IsGateId r
    unfolding or_fetched_id
    or_fetched_id-OrTold (some x) fetched r host sized h =
        let kept : some x ≡ r = cc h in (sym kept, subst IsGateId kept sized)
    or_fetched_id-OrTold none none r host sized h =
        let kept : none ≡ r = cc h in (sym kept, subst IsGateId kept tt)
    or_fetched_id-OrTold none (some digits) r host sized h =
        elim (Result-cases (parse_gate_id digits)) [
          | inr (e, bad) ↦ cc (rw bad at h)
          | inl (id, good) ↦
              let kept : some id ≡ r = cc (rw good at h) in
              let (decoded, size) = parse_gate_id-ok digits id good in
              ((id, decoded, sym kept), subst IsGateId kept size)
        ]

    module _ ⦃fs : FileSystem F⦄ ⦃http : Http⦄ (P : Type 0) ⦃dh : Agreement P⦄
        ⦃hex : HexEncode⦄ where
      -- The control plane was told the gate's public key and the knock port, and its answer stands in
      -- for what is not configured.
      pub record IsTold (cfg : Config) (f : F) (cp : ControlPlane)
          (r : Option (List ℕ) × Option (List ℕ)) : Type 0 where
        pub gate : GateKeypair P
        pub keyed : from_raw_private cfg.suite cfg.gate_private ≡ ok gate
        pub told : Provisioned
        pub asked : register_identity f cp (hex.encode_hex gate.public) cfg.knock_port ≡ ok told
        pub anchor : OrTold cfg.config_anchor told.config_anchor r.0
        pub gate_id : OrTold cfg.gate_id told.gate_id r.1

      -- Where the anchor and the id are from, without a control plane and with one.
      abbrev pub Origin :
          Config → F → Option ControlPlane → Option (List ℕ) × Option (List ℕ) → Type 0
      Origin cfg f none r = r ≡ (cfg.config_anchor, cfg.gate_id)
      Origin cfg f (some cp) r = IsTold cfg f cp r

      pub self_provision-Origin :
          (cfg : Config) (r : Option (List ℕ) × Option (List ℕ)) (host host' : Host F)
          → IsGateId cfg.gate_id
          → self_provision P cfg host ≡ (ok r, host')
          → Origin cfg host.files cfg.control_plane r × IsGateId r.1
      unfolding self_provision
      self_provision-Origin cfg r host host' sized h = elim (Option-cases cfg.control_plane) [
        | inl none_is ↦
            let given : (cfg.config_anchor, cfg.gate_id) ≡ r = cc (rw none_is at h) in
            (rw none_is (sym given), subst (λ q. IsGateId q.1) given sized)
        | inr (cp, is) ↦
            io_step (lift (map_err no_key (from_raw_private {P = P} cfg.suite cfg.gate_private))) _
              host (rw is at h)
              λ gate e1 h.
                io_step
                  (on_files control_plane_error
                    (λ f. (register_identity f cp (hex.encode_hex gate.public) cfg.knock_port, f)))
                  _ _ h
                  λ told e2 h.
                    io_step (or_fetched_anchor cfg.config_anchor told.config_anchor) _ _ h
                      λ anchor e4 h.
                        io_step (or_fetched_id cfg.gate_id told.gate_id) _ _ h λ gate_id e5 h.
                          io_step (fetch_first cp cfg.bundle_path) _ _ h λ v e6 h.
                            let given : (anchor, gate_id) ≡ r = cc h in
                            let (id_is, size) =
                              or_fetched_id-OrTold cfg.gate_id told.gate_id gate_id _ sized e5 in
                            rw (is, ← given)
                              (
                                record {
                                  gate = gate;
                                  keyed = map_err-eq-ok _ _ e1;
                                  told = told;
                                  asked = map_err-eq-ok _ _ e2;
                                  anchor =
                                      or_fetched_anchor-OrTold cfg.config_anchor told.config_anchor
                                        anchor _ e4;
                                  gate_id = id_is;
                                },
                                size,
                              )
      ]
