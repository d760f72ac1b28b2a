-- ===== src/Common/Logic.antt =====
-- Exclusive or on bits. A `dmr_bit` holds 0 or 1 and is modelled as a Bool.
use mathlib.Core.Path.{◌≡◌, refl}
use mathlib.Core.Bool.{Bool, true, false}

infixl 40 ◌⊕◌
abbrev pub ◌⊕◌ : Bool → Bool → Bool
true ⊕ true = false
true ⊕ false = true
false ⊕ b = b

pub xor_cancel : (a b : Bool) → (a ⊕ b) ⊕ b ≡ a
xor_cancel true true = refl
xor_cancel true false = refl
xor_cancel false true = refl
xor_cancel false false = refl
