-- ===== src/Common/Tests.antt =====
-- Tests on native numbers, and the conditional.
use Prim.Native.Nat.{ℕ, zero, suc, ◌+◌, ◌≤◌, ◌<◌, compare, Ordering}
use mathlib.Core.Path.{◌≡◌, refl}
use mathlib.Core.Logic.{◌⊎◌, inl, inr}
use mathlib.Core.Bool.{Bool, true, false, ◌&&◌}
use mathlib.Core.Option.{Option, none, some}
use native.Mathlib.Omega.{arith}

abbrev pub ltb : ℕ → ℕ → Bool
ltb a b = elim (compare a b) [ Ordering.lt ↦ true | _ ↦ false ]

abbrev pub leb : ℕ → ℕ → Bool
leb a b = elim (compare a b) [ Ordering.gt ↦ false | _ ↦ true ]

infix 50 ◌==◌
abbrev pub ◌==◌ : ℕ → ℕ → Bool
a == b = elim (compare a b) [ Ordering.eq ↦ true | _ ↦ false ]

infix 1 if◌then◌else◌
abbrev pub if◌then◌else◌ {ℓ} : {A : Type ℓ} → Bool → A → A → A
if true then x else y = x
if false then x else y = y

pub ==→≡ : (a b : ℕ) → (a == b) ≡ true → a ≡ b
==→≡ a b h = ground arith

pub ==_refl : (a : ℕ) → (a == a) ≡ true
==_refl a = ground arith

pub Bool-cases : (b : Bool) → (b ≡ true) ⊎ (b ≡ false)
Bool-cases true = inl refl
Bool-cases false = inr refl

pub Option-cases {ℓ} : {A : Type ℓ} → (o : Option A) → (o ≡ none) ⊎ ((a : A) × (o ≡ some a))
Option-cases none = inl refl
Option-cases (some a) = inr (a, refl)

-- The test holds from `lo` on for `n` numbers, checked upwards.
unfoldable pub passes : (ℕ → Bool) → ℕ → ℕ → Bool
passes test lo zero = true
passes test lo (suc n) = let later = passes test (lo + 1) n in test lo && later

passes-at :
    (test : ℕ → Bool) (lo n : ℕ)
    → passes test lo n ≡ true
    → (k : ℕ) → lo ≤ k
    → k < lo + n
    → test k ≡ true
unfolding passes
passes-at test lo zero ok k from to = absurd (omega arith)
passes-at test lo (suc n) ok k from to =
    let later : passes test (lo + 1) n ≡ true → lo + 1 ≤ k → k < lo + 1 + n → test k ≡ true =
      λ ok'. passes-at test (lo + 1) n ok' k in
    ground (arith, later)

-- A test that holds for the first `n` numbers holds at each of them.
pub passes_each : (test : ℕ → Bool) (n k : ℕ) → k < n → passes test 0 n ≡ true → test k ≡ true
passes_each test n k small ok = passes-at test 0 n ok k (omega arith) (omega arith)

-- An equation that holds at every number below `n`, by evaluation.
pub eq_below :
    (n : ℕ) (f g : ℕ → ℕ) → passes (λ i. f i == g i) 0 n ≡ true → (x : ℕ) → x < n → f x ≡ g x
eq_below n f g ok x small = ==→≡ _ _ (passes_each (λ i. f i == g i) n x small ok)
