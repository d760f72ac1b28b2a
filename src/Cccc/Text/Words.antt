-- ===== src/Cccc/Text/Words.antt =====
-- The C library's searches and words, on texts that are put together from pieces.
use cc2obp.Common.{
  ℕ, zero, suc, ◌≤◌, ◌≡◌, refl, ◌≢◌, false, List, [], ◌∷◌, ◌++◌, arith, ◌==◌, length, All,
}
use cc2obp.Cccc.Text.{is_space, skip_spaces, take_word, scan_word, starts_with, strstr}
use cc2obp.Cccc.Text.Digits.{IsDigit}

-- The search passes a piece in which the first character of the pattern does not stand.
pub strstr_past :
    (p : ℕ) (pat xs ys : List ℕ)
    → All (λ c. (p == c) ≡ false) xs
    → strstr (p ∷ pat) (xs ++ ys) ≡ strstr (p ∷ pat) ys
unfolding strstr starts_with
strstr_past p pat [] ys h = refl
strstr_past p pat (c ∷ cs) ys (h, hs) = rw h (strstr_past p pat cs ys hs)

take_word-piece :
    (n : ℕ) (w rest : List ℕ)
    → All (λ c. is_space c ≡ false) w
    → length w ≤ n
    → take_word n (w ++ b' ' ∷ rest) ≡ (w, b' ' ∷ rest)
unfolding take_word
take_word-piece zero [] rest h fits = refl
take_word-piece (suc n) [] rest h fits = refl
take_word-piece zero (c ∷ cs) rest h fits = absurd (omega arith)
take_word-piece (suc n) (c ∷ cs) rest (h, hs) fits =
    rw (take_word-piece n cs rest hs (omega arith)) (rw h refl)

-- A word with a space behind it, and perhaps one in front.
pub scan_word-piece :
    (n : ℕ) (w rest : List ℕ)
    → All (λ c. is_space c ≡ false) w
    → w ≢ []
    → length w ≤ n
    → (scan_word n (w ++ b' ' ∷ rest) ≡ (w, b' ' ∷ rest))
      × (scan_word n (b' ' ∷ (w ++ b' ' ∷ rest)) ≡ (w, b' ' ∷ rest))
unfolding scan_word skip_spaces
scan_word-piece n [] rest h ne fits = absurd (ne refl)
scan_word-piece n (c ∷ cs) rest (h, hs) ne fits =
    let taken = take_word-piece n (c ∷ cs) rest (h, hs) fits in (rw h taken, rw h taken)

pub All-weaken : (P Q : ℕ → Type 0) (xs : List ℕ) → ((c : ℕ) → P c → Q c) → All P xs → All Q xs
All-weaken P Q [] f h = tt
All-weaken P Q (x ∷ xs) f h = (f x h.0, All-weaken P Q xs f h.1)

pub digits-no-spaces : (xs : List ℕ) → All IsDigit xs → All (λ c. is_space c ≡ false) xs
digits-no-spaces xs h = All-weaken IsDigit (λ c. is_space c ≡ false) xs (λ c d. ground arith) h
