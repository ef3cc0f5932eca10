-- ===== src/Prelude/Bytes.antt =====
-- Byte strings and `to_be_bytes` / `from_be_bytes`.
use Prim.Native.Nat.{ℕ, zero, suc, ◌+◌, ◌*◌, ◌/◌, ◌%◌, ◌^◌, ◌<◌}
use mathlib.Core.Path.{◌≡◌, refl, ap, subst, ◌∙◌}
use mathlib.Core.List.{List, [], ◌∷◌, ◌++◌, append-nil, append_assoc}
use native.Mathlib.Nat.{pow-suc, add-zero}
use native.Mathlib.Omega.{arith}
use spa_device.Prelude.Lists.{length, length-append, All, All-append}

abbrev pub IsByte : ℕ → Type 0
IsByte b = b < 256

-- `[u8; n]`.
pub record IsArray (n : ℕ) (a : List ℕ) : Type 0 where
  pub size : length a ≡ n
  pub bytes : All IsByte a

-- The `n` bytes of `v`, most significant first; higher bits of `v` are dropped.
abbrev pub to_be_bytes : ℕ → ℕ → List ℕ
to_be_bytes zero v = []
to_be_bytes (suc n) v = to_be_bytes n (v / 256) ++ (v % 256) ∷ []

abbrev pub be_loop : ℕ → List ℕ → ℕ
be_loop acc [] = acc
be_loop acc (b ∷ bs) = be_loop (acc * 256 + b) bs

unfoldable pub from_be_bytes : List ℕ → ℕ
from_be_bytes = be_loop 0

pub length-to_be_bytes : (n v : ℕ) → length (to_be_bytes n v) ≡ n
length-to_be_bytes zero v = refl
length-to_be_bytes (suc n) v = omega (
  arith,
  length-append (to_be_bytes n (v / 256)) ((v % 256) ∷ []),
  length-to_be_bytes n (v / 256),
)

pub to_be_bytes-IsByte : (n v : ℕ) → All IsByte (to_be_bytes n v)
to_be_bytes-IsByte zero v = tt
to_be_bytes-IsByte (suc n) v =
    All-append IsByte (to_be_bytes n (v / 256)) _ (to_be_bytes-IsByte n (v / 256)) (omega arith)

be_loop-append :
    (acc : ℕ) (xs : List ℕ) (b : ℕ) → be_loop acc (xs ++ b ∷ []) ≡ be_loop acc xs * 256 + b
be_loop-append acc [] b = refl
be_loop-append acc (x ∷ xs) b = be_loop-append (acc * 256 + x) xs b

be_loop-to_be_bytes : (n v : ℕ) → v < 256 ^ n → be_loop 0 (to_be_bytes n v) ≡ v
be_loop-to_be_bytes zero v h = omega arith
be_loop-to_be_bytes (suc n) v h =
    let below : v / 256 < 256 ^ n = omega (arith, pow-suc 256 n) in
    rw (be_loop-append 0 (to_be_bytes n (v / 256)) (v % 256))
      (omega (arith, be_loop-to_be_bytes n (v / 256) below))

-- A number below `256 ^ n` is read back.
pub from-to_be_bytes : (n v : ℕ) → v < 256 ^ n → from_be_bytes (to_be_bytes n v) ≡ v
unfolding from_be_bytes
from-to_be_bytes = be_loop-to_be_bytes

-- What a loop has read is written back, in front of it the accumulator.
to_be_bytes-be_loop :
    (acc n : ℕ) (xs : List ℕ)
    → All IsByte xs
    → to_be_bytes (n + length xs) (be_loop acc xs) ≡ to_be_bytes n acc ++ xs
to_be_bytes-be_loop acc n [] h = rw (append-nil, add-zero)
to_be_bytes-be_loop acc n (x ∷ xs) h =
    let high : (acc * 256 + x) / 256 ≡ acc = omega arith in
    let low : (acc * 256 + x) % 256 ≡ x = omega arith in
    ap (λ (k : ℕ). to_be_bytes k (be_loop (acc * 256 + x) xs)) {x = n + suc (length xs)}
      {y = suc n + length xs} (omega arith)
    ∙ to_be_bytes-be_loop (acc * 256 + x) (suc n) xs h.1
    ∙ rw (high, low, append_assoc)

-- Bytes are written back as they were.
pub to-from_be_bytes : (n : ℕ) (xs : List ℕ) → IsArray n xs → to_be_bytes n (from_be_bytes xs) ≡ xs
unfolding from_be_bytes
to-from_be_bytes n xs h =
    ap (λ (k : ℕ). to_be_bytes k (be_loop 0 xs)) {x = n} {y = 0 + length xs} (omega (arith, h.size))
    ∙ to_be_bytes-be_loop 0 0 xs h.bytes

be_loop-lt :
    (acc n : ℕ) (xs : List ℕ)
    → All IsByte xs
    → acc < 256 ^ n
    → be_loop acc xs < 256 ^ (n + length xs)
be_loop-lt acc n [] h lt = rw add-zero lt
be_loop-lt acc n (x ∷ xs) h lt =
    subst (λ (k : ℕ). be_loop (acc * 256 + x) xs < 256 ^ k) {x = suc n + length xs}
      {y = n + suc (length xs)} (omega arith)
      (be_loop-lt (acc * 256 + x) (suc n) xs h.1 (omega (arith, pow-suc 256 n)))

pub from_be_bytes-lt : (n : ℕ) (xs : List ℕ) → IsArray n xs → from_be_bytes xs < 256 ^ n
unfolding from_be_bytes
from_be_bytes-lt n xs h =
    subst (λ (k : ℕ). be_loop 0 xs < 256 ^ k) {x = 0 + length xs} {y = n} (omega (arith, h.size))
      (be_loop-lt 0 0 xs h.bytes (omega arith))
