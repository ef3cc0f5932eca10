-- ===== src/Gated/Atomic.antt =====
-- `fetch_bundle` of spa-gated/src/cp.rs is atomic: wherever it is interrupted, the bundle file is the
-- old one or the new one: the steps on the files.
use spa_device.Prelude.{
  ℕ, ◌≡◌, ◌⊎◌, inl, inr, refl, ap, ◌∙◌, false, List, [], ◌∷◌, length, length-append, take, some, ok,
  Option-cases, Bool-cases, ℕ_eq, List_eq, list_eq, list_eq_iff, eq_refl, arith,
}
use spa_device.Prelude.Text.{codes}
use spa_device.Files.{FileSystem, LawfulFiles}
use spa_device.Gated.Fetch.{
  Effect, create_dirs, write_to, rename_to, tmp_path, parent, fetch_plan, effect, run_effects,
}

tmp_path_other : (dest : List ℕ) → list_eq (tmp_path dest) dest ≡ false
tmp_path_other dest = elim (Bool-cases (list_eq (tmp_path dest) dest)) [
  | inr other ↦ other
  | inl same ↦ absurd (
      omega (
        arith,
        ap (length {0}) ((list_eq_iff (tmp_path dest) dest).0 same),
        length-append dest (codes ".tmp"),
      ))
]

module _ {F : Type 0} ⦃fs : FileSystem F⦄ where
  -- The states in which steps that are cut off leave the files: a write may be cut off in the midst of
  -- its content.
  pub data Crash : List Effect → F → F → Type 0 where
    now : (es : List Effect) (f : F) → Crash es f f
    torn :
        (path content : List ℕ) (n : ℕ) (es : List Effect) (f g : F)
        → fs.write f path (take n content) ≡ some g
        → Crash (write_to path content ∷ es) f g
    later :
        (e : Effect) (es : List Effect) (f g h : F)
        → effect e f ≡ some g
        → Crash es g h
        → Crash (e ∷ es) f h

  -- Steps that run to their end, or fail, leave such a state too.
  pub run_effects-Crash : (es : List Effect) (f : F) → Crash es f (run_effects es f).1
  unfolding run_effects
  run_effects-Crash [] f = now [] f
  run_effects-Crash (e ∷ es) f = elim (Option-cases (effect e f)) [
    | inl failed ↦ rw (run_effects, failed) (now (e ∷ es) f)
    | inr (g, done) ↦ rw (run_effects, done) (later e es f g _ done (run_effects-Crash es g))
  ]

  first_step :
      (e : Effect) (es : List Effect) (f : F)
      → (run_effects (e ∷ es) f).0 ≡ ok tt
      → (g : F) × (effect e f ≡ some g) × (run_effects (e ∷ es) f ≡ run_effects es g)
  unfolding run_effects
  first_step e es f h = elim (Option-cases (effect e f)) [
    | inl failed ↦ cc (rw (failed, run_effects) at h)
    | inr (g, done) ↦ (g, done, rw (run_effects, done) refl)
  ]

  module _ (files : LawfulFiles fs) (dest bytes : List ℕ) where
    -- The bundle file is the old one, or the new one whole.
    abbrev pub OldOrNew : F → F → Type 0
    OldOrNew f g = (fs.read g dest ≡ fs.read f dest) ⊎ (fs.read g dest ≡ some bytes)

    rename-Crash :
        (f g : F)
        → fs.read f (tmp_path dest) ≡ some bytes
        → Crash (rename_to (tmp_path dest) dest ∷ []) f g
        → OldOrNew f g
    rename-Crash f g stored (now _ _) = inl refl
    rename-Crash f g stored (later _ _ _ h _ done (now _ _)) =
        inr (files.read-rename f h (tmp_path dest) dest bytes stored done)

    other_write :
        (f g : F) (content : List ℕ)
        → fs.write f (tmp_path dest) content ≡ some g
        → fs.read g dest ≡ fs.read f dest
    other_write f g content wrote =
        files.read-write f g (tmp_path dest) content wrote dest ∙ rw (tmp_path_other dest) refl

    from_old : (f h g : F) → fs.read h dest ≡ fs.read f dest → OldOrNew h g → OldOrNew f g
    from_old f h g same (inl old) = inl (old ∙ same)
    from_old f h g same (inr new) = inr new

    store-Crash :
        (f g : F)
        → Crash (write_to (tmp_path dest) bytes ∷ rename_to (tmp_path dest) dest ∷ []) f g
        → OldOrNew f g
    store-Crash f g (now _ _) = inl refl
    store-Crash f g (torn _ _ n _ _ _ cut) = inl (other_write f g (take n bytes) cut)
    store-Crash f g (later _ _ _ h _ done rest) = from_old f h g (other_write f h bytes done) (
        rename-Crash h g
          (files.read-write f h (tmp_path dest) bytes done (tmp_path dest)
            ∙ rw (eq_refl (tmp_path dest)) refl)
          rest)

    dir-Crash :
        (f g : F) (dir : List ℕ)
        → Crash
            (create_dirs dir ∷ write_to (tmp_path dest) bytes ∷ rename_to (tmp_path dest) dest ∷ [])
            f
            g
        → OldOrNew f g
    dir-Crash f g dir (now _ _) = inl refl
    dir-Crash f g dir (later _ _ _ h _ done rest) =
        from_old f h g (files.read-create_dir_all f h dir done dest) (store-Crash h g rest)

    pub plan-Crash : (f g : F) → Crash (fetch_plan dest bytes) f g → OldOrNew f g
    unfolding fetch_plan
    plan-Crash f g crash = elim (Option-cases (parent dest)) [
      | inl none_there ↦ store-Crash f g (rw (none_there, fetch_plan) at crash)
      | inr (dir, there) ↦ dir-Crash f g dir (rw (there, fetch_plan) at crash)
    ]

    abbrev pub Stores : List Effect → F → Type 0
    Stores es f = (run_effects es f).0 ≡ ok tt → fs.read (run_effects es f).1 dest ≡ some bytes

    -- A plan that runs to its end stores the bytes.
    store_done :
        (f : F) → Stores (write_to (tmp_path dest) bytes ∷ rename_to (tmp_path dest) dest ∷ []) f
    store_done f h =
        let (g, wrote, same) = first_step (write_to (tmp_path dest) bytes) _ f h in
        let (k, moved, same') = first_step (rename_to (tmp_path dest) dest) [] g (rw same at h) in
        rw (same, same')
          (unfold run_effects in
            files.read-rename g k (tmp_path dest) dest bytes
              (files.read-write f g (tmp_path dest) bytes wrote (tmp_path dest)
                ∙ rw (eq_refl (tmp_path dest)) refl)
              moved)

    dir_done :
        (f : F) (dir : List ℕ)
        → Stores
            (create_dirs dir ∷ write_to (tmp_path dest) bytes ∷ rename_to (tmp_path dest) dest ∷ [])
            f
    dir_done f dir h =
        let (g, made, same) = first_step (create_dirs dir) _ f h in
        rw same (store_done g (rw same at h))

    pub plan_done : (f : F) → Stores (fetch_plan dest bytes) f
    unfolding fetch_plan
    plan_done f = elim (Option-cases (parent dest)) [
      | inl none_there ↦ rw (none_there, fetch_plan) (store_done f)
      | inr (dir, there) ↦ rw (there, fetch_plan) (dir_done f dir)
    ]
