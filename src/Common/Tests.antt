-- ===== src/Common/Tests.antt =====
-- Boolean tests on the native numbers, and the conditional.
use Prim.Native.Nat.{ℕ, compare, Ordering}
use mathlib.Core.Path.{◌≡◌, refl}
use mathlib.Core.Logic.{◌↔◌, ◌⊎◌, inl, inr}
use mathlib.Core.Bool.{Bool, true, false, false≢true, ◌&&◌, ◌||◌}
use mathlib.Core.Option.{Option, none, some}

-- These compute to `compare`, which `ground` and `grind` read with no lemma listed.
abbrev pub ltb : ℕ → ℕ → Bool
ltb a b = elim (compare a b) [ Ordering.lt ↦ true | _ ↦ false ]

abbrev pub leb : ℕ → ℕ → Bool
leb a b = elim (compare a b) [ Ordering.gt ↦ false | _ ↦ true ]

infix 50 ◌==◌
abbrev pub ◌==◌ : ℕ → ℕ → Bool
a == b = elim (compare a b) [ Ordering.eq ↦ true | _ ↦ false ]

infix 1 if◌then◌else◌
abbrev pub if◌then◌else◌ {ℓ} : {A : Type ℓ} → Bool → A → A → A
if true then x else y = x
if false then x else y = y

-- To split on a computed value and keep the equation.
pub Bool-cases : (b : Bool) → (b ≡ true) ⊎ (b ≡ false)
Bool-cases true = inl refl
Bool-cases false = inr refl

pub Option-cases {ℓ} : {A : Type ℓ} (o : Option A) → (o ≡ none) ⊎ ((a : A) × (o ≡ some a))
Option-cases none = inl refl
Option-cases (some a) = inr (a, refl)

-- A test that is made of tests decides the statement that is made of theirs.
pub and_iff {ℓ κ} :
    (p q : Bool) {A : Type ℓ} {B : Type κ}
    → (p ≡ true) ↔ A
    → (q ≡ true) ↔ B
    → ((p && q) ≡ true) ↔ (A × B)
and_iff true true a b = (λ h. (a.0 refl, b.0 refl), λ h. refl)
and_iff true false a b = (λ h. absurd (false≢true h), λ (x, y). b.1 y)
and_iff false q a b = (λ h. absurd (false≢true h), λ (x, y). a.1 x)

pub or_iff {ℓ κ} :
    (p q : Bool) {A : Type ℓ} {B : Type κ}
    → (p ≡ true) ↔ A
    → (q ≡ true) ↔ B
    → ((p || q) ≡ true) ↔ (A ⊎ B)
or_iff true q a b = (λ h. inl (a.0 refl), λ h. refl)
or_iff false q a b =
    (λ h. inr (b.0 h), λ h. elim h [ inl x ↦ absurd (false≢true (a.1 x)) | inr y ↦ b.1 y ])
