-- ===== src/Gated/Provision.antt =====
-- spa-gated/src/main.rs: what the daemon asks the control plane when it starts, with the events that it
-- logs; and `parse_gate_id`.
use spa_device.Prelude.{
  ℕ, not, ◌==◌, if◌then◌else◌, List, [], ◌∷◌, ◌++◌, length, Option, none, some, Result, ok, err,
  ok_or, map_err,
}
use spa_device.Prelude.Text.{codes, HexEncode}
use spa_device.Files.{FileSystem, Io, pure, lift, ◌>>=◌, ◌>>◌}
use spa_device.Wire.{gate_id_len}
use spa_device.Crypto.{Agreement}
use spa_device.Crypto.Gate.{from_raw_private}
use spa_device.Gated.Config.{Formats, ControlPlane, Config}
use spa_device.Gated.Fetch.{Http, register_identity, fetch_bundle}
use spa_device.Gated.Audit.{AuditEvent, audit_control_plane}

pub data StartError : Type 0 where
  bad_config no_socket no_key control_plane_error bad_anchor bad_gate_id no_gate_id : StartError
  bad_bundle no_program map_full no_floor : StartError

-- The files, the log, and what the clock reads for each event of the log.
pub record Host (F : Type 0) : Type 0 where
  pub files : F
  pub log : List AuditEvent
  pub unix : ℕ → Option ℕ

module _ {F : Type 0} where
  -- An event is logged with the time of its call.
  abbrev pub note : (Option ℕ → AuditEvent) → Io (Host F) StartError (Unit {0})
  note event host =
      (ok tt, record host { log = host.log ++ event (host.unix (length host.log)) ∷ [] })

  -- A call that works on the files, its error as one of the start.
  abbrev pub on_files : {A E : Type 0} → StartError → Io F E A → Io (Host F) StartError A
  on_files e io host = (map_err e (io host.files).0, record host { files = (io host.files).1 })

module _ ⦃formats : Formats⦄ where
  unfoldable pub parse_gate_id : List ℕ → Result (List ℕ) StartError
  parse_gate_id digits = elim (formats.hex_decode digits) [
    | none ↦ err bad_gate_id
    | some bytes ↦ if not (length bytes == gate_id_len) then err bad_gate_id else ok bytes
  ]

  module _ {F : Type 0} where
    -- `if anchor.is_none() { if let Some(a) = &provisioned.config_anchor { … } }`
    unfoldable pub or_fetched_anchor :
        Option (List ℕ) → Option (List ℕ) → Io (Host F) StartError (Option (List ℕ))
    or_fetched_anchor (some anchor) fetched = pure (some anchor)
    or_fetched_anchor none none = pure none
    or_fetched_anchor none (some digits) = do
      anchor ← lift (ok_or bad_anchor (formats.hex_decode digits))
      note (λ unix. audit_control_plane unix (codes "anchor-fetched") digits)
      pure (some anchor)

    unfoldable pub or_fetched_id :
        Option (List ℕ) → Option (List ℕ) → Io (Host F) StartError (Option (List ℕ))
    unfolding parse_gate_id
    or_fetched_id (some id) fetched = pure (some id)
    or_fetched_id none none = pure none
    or_fetched_id none (some digits) = do
      id ← lift (parse_gate_id digits)
      note (λ unix. audit_control_plane unix (codes "gate-id-fetched") digits)
      pure (some id)

    module _ ⦃fs : FileSystem F⦄ ⦃http : Http⦄ where
      unfoldable pub fetch_first :
          ControlPlane → Option (List ℕ) → Io (Host F) StartError (Unit {0})
      unfolding fetch_bundle
      fetch_first cp none = pure tt
      fetch_first cp (some bpath) = do
        changed ← on_files control_plane_error (fetch_bundle cp bpath)
        note (λ unix. audit_control_plane unix (codes "bundle-fetched") bpath)

      -- The anchor and the id of the gate after the control plane was asked, if it is configured.
      unfoldable pub self_provision :
          (P : Type 0) ⦃dh : Agreement P⦄ ⦃hex : HexEncode⦄
          → Config
          → Io (Host F) StartError (Option (List ℕ) × Option (List ℕ))
      unfolding or_fetched_anchor or_fetched_id fetch_first register_identity
      self_provision P ⦃hex = hex⦄ cfg = elim cfg.control_plane [
        | none ↦ pure (cfg.config_anchor, cfg.gate_id)
        | some cp ↦ do
          gate ← lift (map_err no_key (from_raw_private {P = P} cfg.suite cfg.gate_private))
          let pubkey_hex = hex.encode_hex gate.public
          provisioned ←
              on_files control_plane_error
                (λ f. (register_identity f cp pubkey_hex cfg.knock_port, f))
          note (λ unix. audit_control_plane unix (codes "registered") pubkey_hex)
          anchor ← or_fetched_anchor cfg.config_anchor provisioned.config_anchor
          gate_id ← or_fetched_id cfg.gate_id provisioned.gate_id
          fetch_first cp cfg.bundle_path
          pure (anchor, gate_id)
      ]
