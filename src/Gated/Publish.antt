-- ===== src/Gated/Publish.antt =====
-- A signed bundle in `load_verify` of spa-gated/src/bundle.rs and in `watch_bundle` of
-- spa-gated/src/main.rs: what it takes to be applied.
use spa_device.Prelude.{
  ℕ, ◌≡◌, ◌<◌, refl, false, true, List, ◌++◌, length, take, drop, take-append, drop-append,
  length-append, subst, ltb, leb, Option, some, ok, arith,
}
use spa_device.Bpf.{BpfMap}
use spa_device.Wire.{modern}
use spa_device.Crypto.{Primitives, verify_signature}
use spa_device.Gated.Config.{Formats, parse_clients, parse_tokens}
use spa_device.Gated.Bundle.{bundle_sig_len, Bundle, RawBundle, BundleFormat, load_verify}
use spa_device.Gated.Watch.{Watcher, same_mtime, apply_bundle, reload, watch_round}

module _ ⦃aws : Primitives⦄ ⦃formats : Formats⦄ ⦃toml : BundleFormat⦄ where
  -- The payload is a bundle.
  pub record IsPayload (body : List ℕ) (b : Bundle) : Type 0 where
    pub raw : RawBundle
    pub parsed : toml.bundle_from_toml body ≡ some raw
    pub clients : parse_clients raw.client ≡ ok b.clients
    pub tokens : parse_tokens raw.token ≡ ok b.tokens
    pub generation : raw.generation ≡ b.generation
    pub ports : raw.protected_ports ≡ b.protected_ports

  front : (sig body : List ℕ) (n : ℕ) → length sig ≡ n → take n (sig ++ body) ≡ sig
  front sig body n h = subst (λ (k : ℕ). take k (sig ++ body) ≡ sig) h (take-append sig body)

  back : (sig body : List ℕ) (n : ℕ) → length sig ≡ n → drop n (sig ++ body) ≡ body
  back sig body n h = subst (λ (k : ℕ). drop k (sig ++ body) ≡ body) h (drop-append sig body)

  pub load_verify-signed :
      (anchor sig body : List ℕ) (b : Bundle)
      → length sig ≡ bundle_sig_len
      → verify_signature modern anchor body sig ≡ true
      → IsPayload body b
      → load_verify (some (sig ++ body)) anchor ≡ ok b
  unfolding load_verify
  load_verify-signed anchor sig body b size verified p =
      let long : ltb (length (sig ++ body)) bundle_sig_len ≡ false =
        ground (arith, length-append sig body, size) in
      rw
        (
          long,
          front sig body bundle_sig_len size,
          back sig body bundle_sig_len size,
          verified,
          p.parsed,
          p.clients,
          p.tokens,
          p.generation,
          p.ports,
        )
        refl

  module _ {Q : Type 0} ⦃map : BpfMap Q ℕ ℕ⦄ where
    reload-newer :
        (w : Watcher Q) (file : Option (List ℕ)) (b : Bundle)
        → load_verify file w.anchor ≡ ok b
        → w.applied_gen < b.generation
        → reload w file ≡ apply_bundle w b
    unfolding reload
    reload-newer w file b loaded newer =
        let later : leb b.generation w.applied_gen ≡ false = ground arith in
        rw (reload, loaded, later) refl

    -- A file of a new modification time whose bundle is newer than the one in force is applied.
    pub watch_round-newer :
        (w : Watcher Q) (t : ℕ) (file : Option (List ℕ)) (b : Bundle)
        → same_mtime t w.last_mtime ≡ false
        → load_verify file w.anchor ≡ ok b
        → w.applied_gen < b.generation
        → watch_round w (record { mtime = some t; file = file })
          ≡ apply_bundle (record w { last_mtime = some t }) b
    unfolding watch_round
    watch_round-newer w t file b changed loaded newer =
        rw changed (reload-newer (record w { last_mtime = some t }) file b loaded newer)
