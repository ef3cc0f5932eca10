-- ===== src/Gated/Fetched.antt =====
-- `fetch_bundle` of spa-gated/src/cp.rs is atomic: wherever it is interrupted, the bundle file is the
-- old one or the new one; and what its result says.
use spa_device.Prelude.{
  ℕ, ◌≡◌, ◌≢◌, ◌⊎◌, inl, inr, refl, ap, Bool, true, false, List, Option, none, some, Result, ok,
  err, Result-cases, Bool-cases, ℕ_eq, List_eq, list_eq_iff, arith,
}
use spa_device.Prelude.Text.{codes}
use spa_device.Files.{FileSystem, LawfulFiles, pure, ◌>>=◌}
use spa_device.Gated.Config.{ControlPlane}
use spa_device.Gated.Fetch.{
  Http, get, FetchError, fetch_plan, run_effects, ask, same_content, fetch_bundle,
}
use spa_device.Gated.Atomic.{Crash, run_effects-Crash, plan-Crash, plan_done}

module _ {F : Type 0} ⦃fs : FileSystem F⦄ where
  module _ ⦃http : Http⦄ where
    -- The states in which the function leaves the files if it is cut off.
    pub data Interrupted (cp : ControlPlane) (dest : List ℕ) (f : F) : F → Type 0 where
      untouched : Interrupted cp dest f f
      within :
          (bytes : List ℕ) (g : F)
          → ask f cp get (codes "/api/gate/bundle") ≡ ok bytes
          → Crash (fetch_plan dest bytes) f g
          → Interrupted cp dest f g

    -- What the result says of the files.
    pub data Fetched (cp : ControlPlane) (dest : List ℕ) (f : F)
        : Result Bool FetchError × F → Type 0 where
      changed :
          (bytes : List ℕ) (g : F)
          → ask f cp get (codes "/api/gate/bundle") ≡ ok bytes
          → fs.read f dest ≢ some bytes
          → fs.read g dest ≡ some bytes
          → Fetched cp dest f (ok true, g)
      unchanged :
          (bytes : List ℕ)
          → ask f cp get (codes "/api/gate/bundle") ≡ ok bytes
          → fs.read f dest ≡ some bytes
          → Fetched cp dest f (ok false, f)
      fails : (e : FetchError) (g : F) → Interrupted cp dest f g → Fetched cp dest f (err e, g)

    module _ (files : LawfulFiles fs) (cp : ControlPlane) (dest : List ℕ) (f : F) where
      -- If the bundle is fetched over a file, then wherever the function is cut off, also in the midst of a
      -- write, the file is as it was or holds the whole bundle that the control plane answered.
      pub fetch_bundle-atomic :
          (g : F)
          → Interrupted cp dest f g
          → (fs.read g dest ≡ fs.read f dest)
            ⊎ ((bytes : List ℕ) × (ask f cp get (codes "/api/gate/bundle") ≡ ok bytes)
                × (fs.read g dest ≡ some bytes))
      fetch_bundle-atomic g untouched = inl refl
      fetch_bundle-atomic g (within bytes _ answered crash) =
          elim (plan-Crash files dest bytes f g crash) [
            | inl old ↦ inl old
            | inr new ↦ inr (bytes, answered, new)
          ]

      same_content-eq :
          (o : Option (List ℕ)) (bytes : List ℕ) → same_content o bytes ≡ true → o ≡ some bytes
      same_content-eq none bytes h = cc h
      same_content-eq (some old) bytes h = ap some ((list_eq_iff old bytes).0 h)

      same_content-ne :
          (o : Option (List ℕ)) (bytes : List ℕ) → same_content o bytes ≡ false → o ≢ some bytes
      same_content-ne none bytes h same = cc same
      same_content-ne (some old) bytes h same = ground (arith, list_eq_iff old bytes, h, same)

      plan_result :
          (bytes : List ℕ)
          → ask f cp get (codes "/api/gate/bundle") ≡ ok bytes
          → same_content (fs.read f dest) bytes ≡ false
          → Fetched cp dest f ((run_effects (fetch_plan dest bytes) >>= λ _. pure true) f)
      plan_result bytes answered differs =
          elim (Result-cases (run_effects (fetch_plan dest bytes) f).0) [
            | inl (done, good) ↦ rw good (
                changed bytes _ answered (same_content-ne (fs.read f dest) bytes differs)
                  (plan_done files dest bytes f good))
            | inr (e, bad) ↦
                rw bad (
                  fails e _ (within bytes _ answered (run_effects-Crash (fetch_plan dest bytes) f)))
          ]

      -- `true`: the bytes of the control plane were new, and are stored. `false`: they are what the file
      -- holds, and nothing was done. An error: the files are as an interruption may leave them.
      pub fetch_bundle-Fetched : Fetched cp dest f (fetch_bundle cp dest f)
      unfolding fetch_bundle
      fetch_bundle-Fetched = elim (Result-cases (ask f cp get (codes "/api/gate/bundle"))) [
        | inr (e, bad) ↦ rw bad (fails e f untouched)
        | inl (bytes, answered) ↦ elim (Bool-cases (same_content (fs.read f dest) bytes)) [
          | inl same ↦
              rw (answered, same)
                (unchanged bytes answered (same_content-eq (fs.read f dest) bytes same))
          | inr differs ↦ rw (answered, differs) (plan_result bytes answered differs)
        ]
      ]
