-- ===== src/Common/Tables.antt =====
-- Bit arrays read and written through a table of indices, and counted loops.
use Prim.Native.Nat.{ℕ, zero, suc, ◌+◌}
use mathlib.Core.Bool.{Bool, false}
use mathlib.Core.List.{List, [], ◌∷◌}
use mathlib.Core.Path.{◌≡◌, refl, ◌∙◌}
use cc2obp.Common.Lists.{get_or, set, length, length-set}
use cc2obp.Common.Logic.{◌⊕◌}

-- `out[k] = in[table[k]]`.
unfoldable pub gather : List ℕ → List Bool → List Bool
gather [] d = []
gather (p ∷ ps) d = get_or d p false ∷ gather ps d

-- `out[table[k]] = in[k]`.
unfoldable pub scatter : List ℕ → List Bool → List Bool → List Bool
scatter [] xs out = out
scatter (p ∷ ps) [] out = out
scatter (p ∷ ps) (b ∷ xs) out = scatter ps xs (set out p b)

-- The exclusive or of the entries that the table names.
unfoldable pub xor_at : List ℕ → List Bool → Bool
xor_at [] d = false
xor_at (p ∷ ps) d = get_or d p false ⊕ xor_at ps d

-- `for (i = lo; i < lo + n; i++) s = body(i, s)`.
unfoldable pub for_range {ℓ} : {S : Type ℓ} → ℕ → ℕ → (ℕ → S → S) → S → S
for_range zero lo body s = s
for_range (suc n) lo body s = for_range n (lo + 1) body (body lo s)

-- Inserts `v` before entry `pos`, and moves the later entries up by one.
unfoldable pub bit_insert : ℕ → Bool → List Bool → List Bool
bit_insert zero v buf = v ∷ buf
bit_insert (suc pos) v [] = v ∷ []
bit_insert (suc pos) v (b ∷ buf) = b ∷ bit_insert pos v buf

pub length-scatter : (ps : List ℕ) (xs out : List Bool) → length (scatter ps xs out) ≡ length out
unfolding scatter
length-scatter [] xs out = refl
length-scatter (p ∷ ps) [] out = refl
length-scatter (p ∷ ps) (b ∷ xs) out = length-scatter ps xs (set out p b) ∙ length-set out p b
