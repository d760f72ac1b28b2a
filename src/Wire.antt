-- ===== src/Wire.antt =====
-- The big-endian readers and writers of translate.c and cccc/cccc_link.c, and the comparison of bytes.
use mathlib.Core.Path.{subst}
use cc2obp.Common.{
  ℕ, ◌+◌, ◌*◌, ◌/◌, ◌%◌, ◌≡◌, ◌≢◌, refl, ap₂, ==_refl, Bool, true, false, ◌&&◌, List, [], ◌∷◌, ◌++◌,
  arith, ◌==◌, get_or,
}

abbrev pub at : List ℕ → ℕ → ℕ
at p i = get_or p i 0

-- `p[0] << 24 | p[1] << 16 | p[2] << 8 | p[3]`: the bytes do not overlap, so `|` is a sum.
unfoldable pub rd32 : List ℕ → ℕ
rd32 p = at p 0 * 16777216 + at p 1 * 65536 + at p 2 * 256 + at p 3

unfoldable pub rd24 : List ℕ → ℕ
rd24 p = at p 0 * 65536 + at p 1 * 256 + at p 2

unfoldable pub rd16 : List ℕ → ℕ
rd16 p = at p 0 * 256 + at p 1

unfoldable pub wr32 : ℕ → List ℕ
wr32 v = v / 16777216 % 256 ∷ v / 65536 % 256 ∷ v / 256 % 256 ∷ v % 256 ∷ []

unfoldable pub wr24 : ℕ → List ℕ
wr24 v = v / 65536 % 256 ∷ v / 256 % 256 ∷ v % 256 ∷ []

unfoldable pub wr16 : ℕ → List ℕ
wr16 v = v / 256 % 256 ∷ v % 256 ∷ []

-- `memcmp(a, b, n) == 0` on arrays of one length.
unfoldable pub same_bytes : List ℕ → List ℕ → Bool
same_bytes [] [] = true
same_bytes [] (y ∷ ys) = false
same_bytes (x ∷ xs) [] = false
same_bytes (x ∷ xs) (y ∷ ys) = x == y && same_bytes xs ys

-- Lists that pass are equal, and equal lists pass.
pub same_bytes→≡ : (xs ys : List ℕ) → same_bytes xs ys ≡ true → xs ≡ ys
unfolding same_bytes
same_bytes→≡ [] [] h = refl
same_bytes→≡ [] (y ∷ ys) h = ground arith
same_bytes→≡ (x ∷ xs) [] h = ground arith
same_bytes→≡ (x ∷ xs) (y ∷ ys) h = ap₂ ◌∷◌ (ground arith) (same_bytes→≡ xs ys (ground arith))

pub same_bytes_refl : (xs : List ℕ) → same_bytes xs xs ≡ true
unfolding same_bytes
same_bytes_refl [] = refl
same_bytes_refl (x ∷ xs) = rw (==_refl x, same_bytes_refl xs) refl

-- Lists that do not pass differ.
pub same_bytes→≢ : (xs ys : List ℕ) → same_bytes xs ys ≡ false → xs ≢ ys
same_bytes→≢ xs ys h q =
    let same : same_bytes xs ys ≡ true =
      subst (λ zs. same_bytes xs zs ≡ true) q (same_bytes_refl xs) in
    ground arith

-- What is written is read back, modulo the width of the field.
pub rd32-wr32 : (v : ℕ) (rest : List ℕ) → rd32 (wr32 v ++ rest) ≡ v % 4294967296
unfolding rd32 wr32
rd32-wr32 v rest = omega arith

pub rd24-wr24 : (v : ℕ) (rest : List ℕ) → rd24 (wr24 v ++ rest) ≡ v % 16777216
unfolding rd24 wr24
rd24-wr24 v rest = omega arith

pub rd16-wr16 : (v : ℕ) (rest : List ℕ) → rd16 (wr16 v ++ rest) ≡ v % 65536
unfolding rd16 wr16
rd16-wr16 v rest = omega arith
