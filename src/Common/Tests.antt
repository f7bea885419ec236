-- ===== src/Common/Tests.antt =====
-- Boolean tests on numbers, the conditional, equality of keys, and case lemmas.
use Prim.Native.Nat.{ℕ, compare, Ordering}
use Prim.Native.String.{String}
use mathlib.Core.Path.{◌≡◌, refl, ap}
use mathlib.Core.Logic.{◌↔◌, ◌⊎◌, inl, inr}
use mathlib.Core.Bool.{Bool, true, false}
use mathlib.Core.Option.{Option, none, some}
use native.Mathlib.Omega.{arith}
use text.Mathlib.Text.{◌==◌ as text_eq}
use text.Mathlib.TextEquality.{eq_iff}

abbrev pub ltb : ℕ → ℕ → Bool
ltb a b = elim (compare a b) [ Ordering.lt ↦ true | _ ↦ false ]

abbrev pub leb : ℕ → ℕ → Bool
leb a b = elim (compare a b) [ Ordering.gt ↦ false | _ ↦ true ]

abbrev pub nat_beq : ℕ → ℕ → Bool
nat_beq a b = elim (compare a b) [ Ordering.eq ↦ true | _ ↦ false ]

infix 1 if◌then◌else◌
abbrev pub if◌then◌else◌ {ℓ} : {A : Type ℓ} → Bool → A → A → A
if true then x else y = x
if false then x else y = y

pub nat_beq_iff : (a b : ℕ) → (nat_beq a b ≡ true) ↔ (a ≡ b)
nat_beq_iff a b = ground arith

-- Go's `comparable`: a Boolean test that holds of equal values and of no others.
pub record Comparable {ℓ} (T : Type ℓ) : Type ℓ where
  pub same : T → T → Bool
  pub same_refl : (x : T) → same x x ≡ true
  pub same_only : (x y : T) → same x y ≡ true → x ≡ y

infix 50 ◌==◌
abbrev pub ◌==◌ {ℓ} : {T : Type ℓ} ⦃c : Comparable T⦄ → T → T → Bool
◌==◌ ⦃c⦄ x y = c.same x y

pub beq_iff {ℓ} : {T : Type ℓ} ⦃c : Comparable T⦄ (x y : T) → (x == y ≡ true) ↔ (x ≡ y)
beq_iff ⦃c⦄ x y = (c.same_only x y, λ e. rw e (c.same_refl y))

instance abbrev pub string_comparable : Comparable String
string_comparable = record {
  same_only = λ x y. (eq_iff x y).0;
  same = text_eq;
  same_refl = λ x. (eq_iff x x).1 refl;
}

instance abbrev pub nat_comparable : Comparable ℕ
nat_comparable = record {
  same_only = λ x y. (nat_beq_iff x y).0;
  same = nat_beq;
  same_refl = λ x. (nat_beq_iff x x).1 refl;
}

pub Bool-cases : (b : Bool) → (b ≡ true) ⊎ (b ≡ false)
Bool-cases true = inl refl
Bool-cases false = inr refl

pub Option-cases {ℓ} : {A : Type ℓ} (o : Option A) → (o ≡ none) ⊎ ((a : A) × (o ≡ some a))
Option-cases none = inl refl
Option-cases (some a) = inr (a, refl)

module _ {ℓ} {T : Type ℓ} ⦃c : Comparable T⦄ where
  pub beq_refl : (x : T) → (x == x) ≡ true
  beq_refl x = c.same_refl x

  pub beq_sym : (x y : T) → (x == y) ≡ (y == x)
  beq_sym x y = ground (arith, beq_iff x y, beq_iff y x)

-- Two elements that stand in one place are one.
pub the_one {ℓ} : {A : Type ℓ} (x y : A) → some x ≡ some y → x ≡ y
the_one x y e = ap (λ o. elim o [ none ↦ x | some z ↦ z ]) e
