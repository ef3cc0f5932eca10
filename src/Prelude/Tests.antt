-- ===== src/Prelude/Tests.antt =====
-- Boolean tests on the native numbers, the conditional, and Rust's `Result`.
use Prim.Native.Nat.{ℕ, ◌<◌, compare, Ordering}
use mathlib.Core.Path.{◌≡◌, refl}
use mathlib.Core.Logic.{◌↔◌, ◌⊎◌, inl, inr}
use mathlib.Core.Bool.{Bool, true, false}
use mathlib.Core.Option.{Option, none, some}
use native.Mathlib.Omega.{arith}

abbrev pub ltb : ℕ → ℕ → Bool
ltb a b = elim (compare a b) [ Ordering.lt ↦ true | _ ↦ false ]

abbrev pub leb : ℕ → ℕ → Bool
leb a b = elim (compare a b) [ Ordering.gt ↦ false | _ ↦ true ]

infix 50 ◌==◌
abbrev pub ◌==◌ : ℕ → ℕ → Bool
a == b = elim (compare a b) [ Ordering.eq ↦ true | _ ↦ false ]

infix 1 if◌then◌else◌
abbrev pub if◌then◌else◌ {ℓ} : {A : Type ℓ} → Bool → A → A → A
if true then x else y = x
if false then x else y = y

pub ltb→lt : (a b : ℕ) → ltb a b ≡ true → a < b
ltb→lt a b h = ground arith

pub ==_iff : (a b : ℕ) → ((a == b) ≡ true) ↔ (a ≡ b)
==_iff a b = ground arith

-- To split on a computed value and keep the equation.
pub Bool-cases : (b : Bool) → (b ≡ true) ⊎ (b ≡ false)
Bool-cases true = inl refl
Bool-cases false = inr refl

pub Option-cases {ℓ} : {A : Type ℓ} (o : Option A) → (o ≡ none) ⊎ ((a : A) × (o ≡ some a))
Option-cases none = inl refl
Option-cases (some a) = inr (a, refl)

pub data Result {ℓ} (A E : Type ℓ) : Type ℓ where
  ok : A → Result A E
  err : E → Result A E

-- The `?` operator.
infixl 5 ◌>>=◌
abbrev pub ◌>>=◌ {ℓ} : {A B E : Type ℓ} → Result A E → (A → Result B E) → Result B E
ok a >>= f = f a
err e >>= f = err e

module _ {ℓ} {A E : Type ℓ} where
  pub Result-cases : (r : Result A E) → ((a : A) × (r ≡ ok a)) ⊎ ((e : E) × (r ≡ err e))
  Result-cases (ok a) = inl (a, refl)
  Result-cases (err e) = inr (e, refl)

  abbrev pub ok_or : E → Option A → Result A E
  ok_or e none = err e
  ok_or e (some a) = ok a

-- `map_err(|_| e)`.
abbrev pub map_err {ℓ} : {A E F : Type ℓ} → F → Result A E → Result A F
map_err f (ok a) = ok a
map_err f (err e) = err f

-- A successful chain succeeds at each step.
pub bind-eq-ok {ℓ} :
    {A B E : Type ℓ} (m : Result A E) (f : A → Result B E) {b : B}
    → (m >>= f) ≡ ok b
    → (a : A) × (m ≡ ok a) × (f a ≡ ok b)
bind-eq-ok (ok a) f h = (a, refl, h)
bind-eq-ok (err e) f h = cc

pub if-eq-ok {ℓ} :
    {B E : Type ℓ} (c : Bool) (e : E) (m : Result B E) {b : B}
    → (if c then err e else m) ≡ ok b
    → (c ≡ false) × (m ≡ ok b)
if-eq-ok true e m h = cc
if-eq-ok false e m h = (refl, h)

-- The same as a rule: what follows may use each step.
pub bind_step {ℓ κ} :
    {A B E : Type ℓ} {Q : Type κ} (m : Result A E) (f : A → Result B E) {b : B}
    → (m >>= f) ≡ ok b
    → ((a : A) → m ≡ ok a → f a ≡ ok b → Q)
    → Q
bind_step (ok a) f h k = k a refl h
bind_step (err e) f h k = cc

pub if_step {ℓ κ} :
    {B E : Type ℓ} {Q : Type κ} (c : Bool) (e : E) (m : Result B E) {b : B}
    → (if c then err e else m) ≡ ok b
    → (c ≡ false → m ≡ ok b → Q)
    → Q
if_step true e m h k = cc
if_step false e m h k = k refl h
