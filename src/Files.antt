-- ===== src/Files.antt =====
-- The file system that spa-client/src/main.rs and spa-gated/src/cp.rs use, which is not part of the
-- repository: an interface over its states, and its laws. Two paths name the same file only if they
-- are the same text.
pub mod Table
use spa_device.Prelude.{
  ℕ, ◌≡◌, refl, ◌∙◌, List, Option, none, some, Result, ok, err, if◌then◌else◌, ℕ_eq, List_eq,
  list_eq, eq_refl, arith,
}

-- `fs::read`, `fs::write`, `fs::rename` and `fs::create_dir_all`; `none` is an error.
pub record FileSystem (F : Type 0) : Type 0 where
  pub read : F → List ℕ → Option (List ℕ)
  pub write : F → List ℕ → List ℕ → Option F
  pub rename : F → List ℕ → List ℕ → Option F
  pub create_dir_all : F → List ℕ → Option F

-- A write is read back; a renamed file is the old one under the new name; a new directory
-- changes no file; and all other files stay as they are.
pub record LawfulFiles {F : Type 0} (fs : FileSystem F) : Type 0 where
  pub read-write :
      (f g : F) (path content : List ℕ)
      → fs.write f path content ≡ some g
      → (q : List ℕ) → fs.read g q ≡ (if list_eq path q then some content else fs.read f q)
  pub read-rename :
      (f g : F) (from to content : List ℕ)
      → fs.read f from ≡ some content
      → fs.rename f from to ≡ some g
      → fs.read g to ≡ some content
  pub read-create_dir_all :
      (f g : F) (path : List ℕ)
      → fs.create_dir_all f path ≡ some g
      → (q : List ℕ) → fs.read g q ≡ fs.read f q

-- A command that may fail, with what it has done to the files; the state is kept on an error.
abbrev pub Io : Type 0 → Type 0 → Type 0 → Type 0
Io F E A = F → Result A E × F

module _ {F E : Type 0} where
  abbrev pub pure : {A : Type 0} → A → Io F E A
  pure a f = (ok a, f)

  -- The `?` operator on a value that touches no file.
  abbrev pub lift : {A : Type 0} → Result A E → Io F E A
  lift r f = (r, f)

  abbrev pub go_on : {A B : Type 0} → Result A E → F → (A → Io F E B) → Result B E × F
  go_on (ok a) f k = k a f
  go_on (err e) f k = (err e, f)

  infixl 5 ◌>>=◌ ◌>>◌
  abbrev pub ◌>>=◌ : {A B : Type 0} → Io F E A → (A → Io F E B) → Io F E B
  ◌>>=◌ m k f = go_on (m f).0 (m f).1 k

  abbrev pub ◌>>◌ : {B : Type 0} → Io F E (Unit {0}) → Io F E B → Io F E B
  m >> k = m >>= λ _. k

  abbrev pub written : E → Option F → F → Result (Unit {0}) E × F
  written e none f = (err e, f)
  written e (some g) f = (ok tt, g)

  -- `fs::write(path, content)?`
  abbrev pub write_file : ⦃fs : FileSystem F⦄ → E → List ℕ → List ℕ → Io F E (Unit {0})
  write_file ⦃fs⦄ e path content f = written e (fs.write f path content) f

  go_on_step {κ} :
      {A B : Type 0} {Q : Type κ} (r : Result A E) (f : F) (k : A → Io F E B) {b : B} {g : F}
      → go_on r f k ≡ (ok b, g)
      → ((a : A) → r ≡ ok a → k a f ≡ (ok b, g) → Q)
      → Q
  go_on_step (ok a) f k h next = next a refl h
  go_on_step (err e) f k h next = cc h

  -- What follows a step that succeeds may use it.
  pub io_step {κ} :
      {A B : Type 0} {Q : Type κ} (m : Io F E A) (k : A → Io F E B) (f : F) {b : B} {g : F}
      → (m >>= k) f ≡ (ok b, g)
      → ((a : A) → (m f).0 ≡ ok a → k a (m f).1 ≡ (ok b, g) → Q)
      → Q
  io_step m k f h next = go_on_step (m f).0 (m f).1 k h next

  written_step {κ} :
      {B : Type 0} {Q : Type κ} (e : E) (o : Option F) (k : Unit {0} → Io F E B) (f : F) {b : B}
      {g : F}
      → go_on (written e o f).0 (written e o f).1 k ≡ (ok b, g)
      → ((f' : F) → o ≡ some f' → k tt f' ≡ (ok b, g) → Q)
      → Q
  written_step e none k f h next = cc h
  written_step e (some f') k f h next = next f' refl h

  -- The same for a write.
  pub write_step {κ} :
      ⦃fs : FileSystem F⦄ {B : Type 0} {Q : Type κ} (e : E) (path content : List ℕ)
      (k : Unit {0} → Io F E B) (f : F) {b : B} {g : F}
      → (write_file e path content >>= k) f ≡ (ok b, g)
      → ((f' : F) → fs.write f path content ≡ some f' → k tt f' ≡ (ok b, g) → Q)
      → Q
  write_step ⦃fs⦄ e path content k f h next = written_step e (fs.write f path content) k f h next

  pub write_file-ok :
      ⦃fs : FileSystem F⦄ (e : E) (path content : List ℕ) (f g : F)
      → write_file e path content f ≡ (ok tt, g)
      → fs.write f path content ≡ some g
  write_file-ok ⦃fs⦄ e path content f g h = ground (arith, h)

-- A file that was written is there to be read.
pub read-write_file :
    {F : Type 0} ⦃fs : FileSystem F⦄ (files : LawfulFiles fs) (path content : List ℕ) (f g : F)
    → fs.write f path content ≡ some g
    → fs.read g path ≡ some content
read-write_file files path content f g h =
    files.read-write f g path content h path ∙ rw (eq_refl path) refl
