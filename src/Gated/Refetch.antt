-- ===== src/Gated/Refetch.antt =====
-- The thread of spa-gated/src/main.rs that fetches the bundle every 20 seconds: one round of it, and
-- what the watcher makes of the file that it leaves.
use spa_device.Prelude.{
  ℕ, ◌≡◌, ◌<◌, ap, ◌∙◌, true, false, Bool, List, [], ◌∷◌, ◌++◌, length, Option, some, Result, ok,
  err, ℕ_eq, List_eq,
}
use spa_device.Prelude.Text.{codes}
use spa_device.Files.{FileSystem, LawfulFiles}
use spa_device.Bpf.{BpfMap}
use spa_device.Wire.{modern}
use spa_device.Crypto.{Primitives, verify_signature}
use spa_device.Gated.Config.{Formats, ControlPlane}
use spa_device.Gated.Bundle.{bundle_sig_len, Bundle, BundleFormat}
use spa_device.Gated.Watch.{Watcher, same_mtime, apply_bundle, watch_round}
use spa_device.Gated.Publish.{IsPayload, load_verify-signed, watch_round-newer}
use spa_device.Gated.Fetch.{Http, get, FetchError, ask, fetch_bundle}
use spa_device.Gated.Fetched.{Fetched, changed, unchanged, fails, fetch_bundle-Fetched}
use spa_device.Gated.Audit.{AuditEvent, audit_control_plane}
use spa_device.Gated.Provision.{Host}

-- `e.to_string()`
pub record ErrorText : Type 0 where
  pub to_string : FetchError → List ℕ

module _ ⦃texts : ErrorText⦄ where
  -- The events of a round, by the result of its fetch.
  abbrev pub fetch_events : Option ℕ → List ℕ → Result Bool FetchError → List AuditEvent
  fetch_events unix bpath (ok true) = audit_control_plane unix (codes "bundle-fetched") bpath ∷ []
  fetch_events unix bpath (ok false) = []
  fetch_events unix bpath (err e) =
      audit_control_plane unix (codes "fetch-error") (texts.to_string e) ∷ []

module _ {F : Type 0} ⦃fs : FileSystem F⦄ ⦃http : Http⦄ where
  unfoldable pub refetch : ⦃texts : ErrorText⦄ → ControlPlane → List ℕ → Host F → Host F
  unfolding fetch_bundle
  refetch cp bpath host =
      let fetched = fetch_bundle cp bpath host.files in
      record host {
        files = fetched.1;
        log = host.log ++ fetch_events (host.unix (length host.log)) bpath fetched.0;
      }

  -- Without an error, the file holds what the control plane answered.
  stored :
      (cp : ControlPlane) (bpath bytes : List ℕ) (f : F) (new : Bool)
      (r : Result Bool FetchError × F)
      → Fetched cp bpath f r
      → ask f cp get (codes "/api/gate/bundle") ≡ ok bytes
      → r.0 ≡ ok new
      → fs.read r.1 bpath ≡ some bytes
  stored cp bpath bytes f new _ (changed bytes' g answered differs kept) answer h =
      let same : bytes' ≡ bytes = cc (answered, answer) in kept ∙ ap some same
  stored cp bpath bytes f new _ (unchanged bytes' answered kept) answer h =
      let same : bytes' ≡ bytes = cc (answered, answer) in kept ∙ ap some same
  stored cp bpath bytes f new _ (fails e g cut) answer h = cc h

  module _ (files : LawfulFiles fs) ⦃texts : ErrorText⦄ ⦃aws : Primitives⦄ ⦃formats : Formats⦄
      ⦃toml : BundleFormat⦄ {Q : Type 0} ⦃map : BpfMap Q ℕ ℕ⦄ where
    -- A bundle that the control plane answers, signed under the anchor of the watcher and newer than
    -- the one in force, is applied after a round of the thread that fetches it without an error: in the
    -- watcher's round in which the file has a new modification time.
    pub refetch-applied :
        (cp : ControlPlane) (bpath sig body : List ℕ) (host : Host F) (new : Bool) (b : Bundle)
        (w : Watcher Q) (t : ℕ)
        → ask host.files cp get (codes "/api/gate/bundle") ≡ ok (sig ++ body)
        → (fetch_bundle cp bpath host.files).0 ≡ ok new
        → length sig ≡ bundle_sig_len
        → verify_signature modern w.anchor body sig ≡ true
        → IsPayload body b
        → same_mtime t w.last_mtime ≡ false
        → w.applied_gen < b.generation
        → watch_round w
            (record { mtime = some t; file = fs.read (refetch cp bpath host).files bpath })
          ≡ apply_bundle (record w { last_mtime = some t }) b
    unfolding refetch
    refetch-applied cp bpath sig body host new b w t answer fetched size verified p later newer =
        let kept =
          stored cp bpath (sig ++ body) host.files new (fetch_bundle cp bpath host.files)
            (fetch_bundle-Fetched files cp bpath host.files) answer fetched in
        rw kept (
          watch_round-newer w t (some (sig ++ body)) b later
            (load_verify-signed w.anchor sig body b size verified p) newer)
