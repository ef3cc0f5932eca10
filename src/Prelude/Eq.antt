-- ===== src/Prelude/Eq.antt =====
-- Rust's `PartialEq` and `Eq` as an interface: a test with its meaning.
use Prim.Native.Nat.{ℕ}
use mathlib.Core.Path.{◌≡◌, refl}
use mathlib.Core.Logic.{◌↔◌, ◌⊎◌}
use mathlib.Core.Bool.{Bool, true, false, ◌&&◌, ◌||◌}
use mathlib.Core.List.{List, [], ◌∷◌}
use native.Mathlib.Omega.{arith}
use spa_device.Prelude.Tests.{◌==◌, ==_iff}

pub record PartialEq {ℓ} (A : Type ℓ) : Type ℓ where
  pub eq : A → A → Bool
  pub eq_iff : (a b : A) → (eq a b ≡ true) ↔ (a ≡ b)

instance abbrev pub ℕ_eq : PartialEq ℕ
ℕ_eq = record { eq = ◌==◌; eq_iff = ==_iff }

abbrev pub list_eq {ℓ} : {A : Type ℓ} ⦃e : PartialEq A⦄ → List A → List A → Bool
list_eq [] [] = true
list_eq [] (y ∷ ys) = false
list_eq (x ∷ xs) [] = false
list_eq ⦃e⦄ (x ∷ xs) (y ∷ ys) = e.eq x y && list_eq xs ys

pub list_eq_iff {ℓ} :
    {A : Type ℓ} ⦃e : PartialEq A⦄ (xs ys : List A) → (list_eq xs ys ≡ true) ↔ (xs ≡ ys)
list_eq_iff [] [] = (λ h. refl, λ h. refl)
list_eq_iff [] (y ∷ ys) = (λ h. cc, λ h. cc)
list_eq_iff (x ∷ xs) [] = (λ h. cc, λ h. cc)
list_eq_iff ⦃e⦄ (x ∷ xs) (y ∷ ys) = ground (arith, e.eq_iff x y, list_eq_iff xs ys)

instance abbrev pub List_eq {ℓ} : {A : Type ℓ} ⦃e : PartialEq A⦄ → PartialEq (List A)
List_eq = record { eq = list_eq; eq_iff = list_eq_iff }

-- `slice.contains(&x)`.
abbrev pub contains {ℓ} : {A : Type ℓ} ⦃e : PartialEq A⦄ → List A → A → Bool
contains [] a = false
contains ⦃e⦄ (x ∷ xs) a = e.eq x a || contains xs a

module _ {ℓ} {A : Type ℓ} ⦃e : PartialEq A⦄ where
  pub eq_refl : (a : A) → e.eq a a ≡ true
  eq_refl a = (e.eq_iff a a).1 refl

-- Membership, by recursion.
abbrev pub IsIn : ℕ → List ℕ → Type 0
IsIn p [] = ⊥
IsIn p (x ∷ xs) = (x ≡ p) ⊎ IsIn p xs

pub contains_iff : (xs : List ℕ) (p : ℕ) → (contains xs p ≡ true) ↔ IsIn p xs
contains_iff [] p = (λ h. cc, λ h. absurd h)
contains_iff (x ∷ xs) p = ground (arith, contains_iff xs p, ==_iff x p)
