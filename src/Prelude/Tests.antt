-- ===== src/Prelude/Tests.antt =====
-- Boolean tests on the native numbers, the conditional, and equality tests as an interface.
use Prim.Native.Nat.{ℕ, ◌≤◌, ◌<◌, compare, Ordering}
use mathlib.Core.Path.{◌≡◌, refl}
use mathlib.Core.Logic.{◌↔◌, ◌⊎◌, inl, inr, ◌≢◌}
use mathlib.Core.Bool.{Bool, true, false}
use mathlib.Core.Option.{Option, none, some}
use native.Mathlib.Omega.{arith}

abbrev pub ltb : ℕ → ℕ → Bool
ltb a b = elim (compare a b) [ Ordering.lt ↦ true | _ ↦ false ]

abbrev pub leb : ℕ → ℕ → Bool
leb a b = elim (compare a b) [ Ordering.gt ↦ false | _ ↦ true ]

abbrev pub nat_eq : ℕ → ℕ → Bool
nat_eq a b = elim (compare a b) [ Ordering.eq ↦ true | _ ↦ false ]

infix 1 if◌then◌else◌
abbrev pub if◌then◌else◌ {ℓ} : {A : Type ℓ} → Bool → A → A → A
if true then x else y = x
if false then x else y = y

pub nat_eq_iff : (a b : ℕ) → (nat_eq a b ≡ true) ↔ (a ≡ b)
nat_eq_iff a b = ground arith

pub ltb→lt : (a b : ℕ) → ltb a b ≡ true → a < b
ltb→lt a b h = ground arith

pub lt→ltb : (a b : ℕ) → a < b → ltb a b ≡ true
lt→ltb a b h = ground arith

pub leb→le : (a b : ℕ) → leb a b ≡ true → a ≤ b
leb→le a b h = ground arith

pub le→leb : (a b : ℕ) → a ≤ b → leb a b ≡ true
le→leb a b h = ground arith

-- To split on a computed value and keep the equation.
pub Bool-cases : (b : Bool) → (b ≡ true) ⊎ (b ≡ false)
Bool-cases true = inl refl
Bool-cases false = inr refl

-- The branch that a test takes to a result.
pub chosen {ℓ} :
    {A : Type ℓ} (b : Bool) (x y z : A)
    → (if b then x else y) ≡ z
    → ((b ≡ true) × (x ≡ z)) ⊎ ((b ≡ false) × (y ≡ z))
chosen true x y z e = inl (refl, e)
chosen false x y z e = inr (refl, e)

pub Option-cases {ℓ} : {A : Type ℓ} (o : Option A) → (o ≡ none) ⊎ ((a : A) × (o ≡ some a))
Option-cases none = inl refl
Option-cases (some a) = inr (a, refl)

abbrev pub is_some {ℓ} : {A : Type ℓ} → Option A → Bool
is_some none = false
is_some (some a) = true

-- A type whose values the program compares with `==`, or uses as keys of a map.
pub record Comparable {ℓ} (A : Type ℓ) : Type ℓ where
  pub same : A → A → Bool
  pub same_iff : (a b : A) → (same a b ≡ true) ↔ (a ≡ b)

infix 50 ◌==◌
abbrev pub ◌==◌ {ℓ} : {A : Type ℓ} ⦃e : Comparable A⦄ → A → A → Bool
◌==◌ ⦃e⦄ = e.same

pub ==_refl {ℓ} : {A : Type ℓ} ⦃e : Comparable A⦄ (a : A) → (a == a) ≡ true
==_refl ⦃e⦄ a = (e.same_iff a a).1 refl

pub ==→eq {ℓ} : {A : Type ℓ} ⦃e : Comparable A⦄ (a b : A) → (a == b) ≡ true → a ≡ b
==→eq ⦃e⦄ a b h = (e.same_iff a b).0 h

pub ne→== {ℓ} : {A : Type ℓ} ⦃e : Comparable A⦄ (a b : A) → a ≢ b → (a == b) ≡ false
ne→== a b h = elim (Bool-cases (a == b)) [ inl t ↦ absurd (h (==→eq a b t)) | inr f ↦ f ]

pub ==→ne {ℓ} : {A : Type ℓ} ⦃e : Comparable A⦄ (a b : A) → (a == b) ≡ false → a ≢ b
==→ne a b f p = let t : (a == b) ≡ true = rw p (==_refl b) in cc

instance abbrev pub eq_nat : Comparable ℕ
eq_nat = record { same = nat_eq; same_iff = nat_eq_iff }

-- `P` of the value that an option has, if it has one.
abbrev pub IfSome {ℓ κ} : {A : Type ℓ} → (A → Type κ) → Option A → Type κ
IfSome P none = Unit
IfSome P (some a) = P a

module _ {ℓ κ} {B : Type ℓ} (P : B → Type κ) where
  pub IfSome-bind {μ} :
      {A : Type μ} (o : Option A) (f : A → Option B)
      → ((a : A) → o ≡ some a → IfSome P (f a))
      → IfSome P (elim o as (λ _. Option B) [ none ↦ none | some a ↦ f a ])
  IfSome-bind none f h = tt
  IfSome-bind (some a) f h = h a refl

  pub IfSome-if :
      (t : Bool) (o q : Option B) → IfSome P o → IfSome P q → IfSome P (if t then o else q)
  IfSome-if true o q h k = h
  IfSome-if false o q h k = k

  pub IfSome-any : (o : Option B) → ((b : B) → P b) → IfSome P o
  IfSome-any none h = tt
  IfSome-any (some b) h = h b

  pub IfSome-get : (o : Option B) (b : B) → IfSome P o → o ≡ some b → P b
  IfSome-get o b h e = rw e at h

-- What holds of both results of a split holds of what the split gives.
module _ {ℓ κ} {B : Type ℓ} (P : B → Type κ) where
  pub by_option {μ} :
      {A : Type μ} (o : Option A) (b : B) (f : A → B)
      → P b
      → ((a : A) → o ≡ some a → P (f a))
      → P (elim o as (λ _. B) [ none ↦ b | some a ↦ f a ])
  by_option none b f h k = h
  by_option (some a) b f h k = k a refl

  pub by_test : (t : Bool) (a b : B) → P a → P b → P (if t then a else b)
  by_test true a b h k = h
  by_test false a b h k = k
