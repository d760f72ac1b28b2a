-- ===== src/Cccc/Text/Numbers.antt =====
-- The C library's numbers: `strtoul` and `atoi` on a text of digits.
use cc2obp.Common.{ℕ, ◌<◌, ◌≡◌, refl, ◌≢◌, false, List, [], ◌∷◌, arith, All}
use cc2obp.Cccc.Text.{skip_spaces, read_sign, skip_0x, strtoul, long_to_int, atoi}
use cc2obp.Cccc.Text.Digits.{IsDigit, value}

-- A text of digits that is not empty is read from its first character on.
skip_spaces-digits : (c : ℕ) (cs : List ℕ) → IsDigit c → skip_spaces (c ∷ cs) ≡ c ∷ cs
unfolding skip_spaces
skip_spaces-digits c cs h = ground arith

read_sign-digits : (c : ℕ) (cs : List ℕ) → IsDigit c → read_sign (c ∷ cs) ≡ (false, c ∷ cs)
unfolding read_sign
read_sign-digits c cs h = ground arith

pub skip_0x_ten : (s : List ℕ) → skip_0x 10 s ≡ s
unfolding skip_0x
skip_0x_ten [] = refl
skip_0x_ten (z ∷ []) = refl
skip_0x_ten (z ∷ x ∷ []) = refl
skip_0x_ten (z ∷ x ∷ d ∷ cs) = refl

pub strtoul-digits :
    (s : List ℕ) → All IsDigit s → s ≢ [] → value s < 4294967296 → strtoul 10 s ≡ value s
unfolding strtoul value
strtoul-digits [] h ne small = absurd (ne refl)
strtoul-digits (c ∷ cs) (h, hs) ne small =
    rw (skip_spaces-digits c cs h)
      (rw (read_sign-digits c cs h) (rw (skip_0x_ten (c ∷ cs)) (ground arith)))

pub atoi-digits : (s : List ℕ) → All IsDigit s → s ≢ [] → value s < 4294967296 → atoi s ≡ value s
unfolding atoi value long_to_int
atoi-digits [] h ne small = absurd (ne refl)
atoi-digits (c ∷ cs) (h, hs) ne small =
    rw (skip_spaces-digits c cs h) (rw (read_sign-digits c cs h) (ground arith))
