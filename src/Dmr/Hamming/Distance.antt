-- ===== src/Dmr/Hamming/Distance.antt =====
-- How far apart code words are: the codes are linear, so the least weight decides.
use cc2obp.Common.{
  ℕ, zero, suc, ◌≤◌, ◌≡◌, refl, sym, ap, ap₂, ◌∙◌, ◌≢◌, inl, inr, Bool, true, false, ◌&&◌, ◌||◌,
  List, [], ◌∷◌, ◌++◌, arith, leb, ◌==◌, ==→≡, Bool-cases, length, get_or, ◌⊕◌, xor_at,
}
use cc2obp.Dmr.Hamming.{checks, sets_15113, sets_1393, sets_16114, ham_15113, ham_1393, ham_16114}

-- The bitwise exclusive or, and the number of bits that are set.
unfoldable pub xor_bits : List Bool → List Bool → List Bool
xor_bits [] ys = []
xor_bits (x ∷ xs) [] = x ∷ xs
xor_bits (x ∷ xs) (y ∷ ys) = (x ⊕ y) ∷ xor_bits xs ys

unfoldable pub weight : List Bool → ℕ
weight [] = 0
weight (true ∷ xs) = suc (weight xs)
weight (false ∷ xs) = weight xs

-- In how many places two words differ.
unfoldable pub distance : List Bool → List Bool → ℕ
unfolding xor_bits weight
distance xs ys = weight (xor_bits xs ys)

xor_swap : (a b c d : Bool) → (a ⊕ b) ⊕ (c ⊕ d) ≡ (a ⊕ c) ⊕ (b ⊕ d)
xor_swap true true true true = refl
xor_swap true true true false = refl
xor_swap true true false true = refl
xor_swap true true false false = refl
xor_swap true false true true = refl
xor_swap true false true false = refl
xor_swap true false false true = refl
xor_swap true false false false = refl
xor_swap false true true true = refl
xor_swap false true true false = refl
xor_swap false true false true = refl
xor_swap false true false false = refl
xor_swap false false true true = refl
xor_swap false false true false = refl
xor_swap false false false true = refl
xor_swap false false false false = refl

get_or-xor_bits :
    (xs ys : List Bool) (i : ℕ)
    → length xs ≡ length ys
    → get_or (xor_bits xs ys) i false ≡ get_or xs i false ⊕ get_or ys i false
unfolding xor_bits
get_or-xor_bits [] [] i h = refl
get_or-xor_bits [] (y ∷ ys) i h = absurd (omega arith)
get_or-xor_bits (x ∷ xs) [] i h = absurd (omega arith)
get_or-xor_bits (x ∷ xs) (y ∷ ys) zero h = refl
get_or-xor_bits (x ∷ xs) (y ∷ ys) (suc i) h = get_or-xor_bits xs ys i (omega arith)

module _ (xs ys : List Bool) (same : length xs ≡ length ys) where
  xor_at-xor_bits : (ps : List ℕ) → xor_at ps (xor_bits xs ys) ≡ xor_at ps xs ⊕ xor_at ps ys
  unfolding xor_at
  xor_at-xor_bits [] = refl
  xor_at-xor_bits (p ∷ ps) =
      rw (get_or-xor_bits xs ys p same, xor_at-xor_bits ps)
        (xor_swap (get_or xs p false) (get_or ys p false) (xor_at ps xs) (xor_at ps ys))

  checks-xor_bits :
      (sets : List (List ℕ))
      → checks sets (xor_bits xs ys) ≡ xor_bits (checks sets xs) (checks sets ys)
  unfolding checks xor_bits
  checks-xor_bits [] = refl
  checks-xor_bits (ps ∷ sets) = ap₂ ◌∷◌ (xor_at-xor_bits ps) (checks-xor_bits sets)

xor_bits-append :
    (xs ys us vs : List Bool)
    → length xs ≡ length ys
    → xor_bits (xs ++ us) (ys ++ vs) ≡ xor_bits xs ys ++ xor_bits us vs
unfolding xor_bits
xor_bits-append [] [] us vs h = refl
xor_bits-append [] (y ∷ ys) us vs h = absurd (omega arith)
xor_bits-append (x ∷ xs) [] us vs h = absurd (omega arith)
xor_bits-append (x ∷ xs) (y ∷ ys) us vs h =
    ap (λ t. (x ⊕ y) ∷ t) (xor_bits-append xs ys us vs (omega arith))

length-xor_bits : (xs ys : List Bool) → length (xor_bits xs ys) ≡ length xs
unfolding xor_bits
length-xor_bits [] ys = refl
length-xor_bits (x ∷ xs) [] = refl
length-xor_bits (x ∷ xs) (y ∷ ys) = ap suc (length-xor_bits xs ys)

eq_of_weight : (xs ys : List Bool) → length xs ≡ length ys → weight (xor_bits xs ys) ≡ 0 → xs ≡ ys
unfolding weight xor_bits
eq_of_weight [] [] h e = refl
eq_of_weight [] (y ∷ ys) h e = absurd (omega arith)
eq_of_weight (x ∷ xs) [] h e = absurd (omega arith)
eq_of_weight (true ∷ xs) (true ∷ ys) h e = ap (λ t. true ∷ t) (eq_of_weight xs ys (omega arith) e)
eq_of_weight (true ∷ xs) (false ∷ ys) h e = absurd (omega arith)
eq_of_weight (false ∷ xs) (true ∷ ys) h e = absurd (omega arith)
eq_of_weight (false ∷ xs) (false ∷ ys) h e =
    ap (λ t. false ∷ t) (eq_of_weight xs ys (omega arith) e)

-- Every word of `n` bits passes the test.
all_words : ℕ → (List Bool → Bool) → Bool
all_words zero p = p []
all_words (suc n) p = all_words n (λ w. p (true ∷ w)) && all_words n (λ w. p (false ∷ w))

all_words_sound :
    (n : ℕ) (p : List Bool → Bool) (w : List Bool)
    → all_words n p ≡ true
    → length w ≡ n
    → p w ≡ true
unfolding all_words
all_words_sound zero p [] h e = h
all_words_sound zero p (b ∷ w) h e = absurd (omega arith)
all_words_sound (suc n) p [] h e = absurd (omega arith)
all_words_sound (suc n) p (true ∷ w) h e =
    all_words_sound n (λ w. p (true ∷ w)) w (ground arith) (omega arith)
all_words_sound (suc n) p (false ∷ w) h e =
    all_words_sound n (λ w. p (false ∷ w)) w (ground arith) (omega arith)

-- A nonzero word has a code word of weight `m` or more.
abbrev heavy : List (List ℕ) → ℕ → List Bool → Bool
heavy sets m w = weight w == 0 || leb m (weight (w ++ checks sets w))

distance_of_heavy :
    (sets : List (List ℕ)) (n m : ℕ) (xs ys : List Bool)
    → all_words n (heavy sets m) ≡ true
    → length xs ≡ n
    → length ys ≡ n
    → xs ≢ ys
    → m ≤ distance (xs ++ checks sets xs) (ys ++ checks sets ys)
unfolding distance
distance_of_heavy sets n m xs ys table hx hy differ = rw split bound
  where
    same : length xs ≡ length ys
    same = hx ∙ sym hy

    z : List Bool
    z = xor_bits xs ys

    split : xor_bits (xs ++ checks sets xs) (ys ++ checks sets ys) ≡ z ++ checks sets z
    split =
        xor_bits-append xs ys (checks sets xs) (checks sets ys) same
        ∙ ap (λ t. z ++ t) (sym (checks-xor_bits xs ys same sets))

    passes : heavy sets m z ≡ true
    passes = all_words_sound n (heavy sets m) z table (length-xor_bits xs ys ∙ hx)

    bound : m ≤ weight (z ++ checks sets z)
    bound = elim (Bool-cases (weight z == 0)) [
      | inl e ↦ absurd (differ (eq_of_weight xs ys same (==→≡ _ _ e)))
      | inr e ↦ ground (arith, passes)
    ]

abbrev pub codeword : (List Bool → List Bool) → List Bool → List Bool
codeword ham d = d ++ ham d

-- Code words of Hamming(15,11,3) of different data differ in at least three places.
pub ham_15113-distance :
    (d e : List Bool)
    → length d ≡ 11
    → length e ≡ 11
    → d ≢ e
    → 3 ≤ distance (codeword ham_15113 d) (codeword ham_15113 e)
unfolding ham_15113
ham_15113-distance d e = distance_of_heavy sets_15113 11 3 d e table
  where
    table : all_words 11 (heavy sets_15113 3) ≡ true
    table = unfold all_words weight in refl

-- Code words of Hamming(13,9,3) of different data differ in at least three places.
pub ham_1393-distance :
    (d e : List Bool)
    → length d ≡ 9
    → length e ≡ 9
    → d ≢ e
    → 3 ≤ distance (codeword ham_1393 d) (codeword ham_1393 e)
unfolding ham_1393
ham_1393-distance d e = distance_of_heavy sets_1393 9 3 d e table
  where
    table : all_words 9 (heavy sets_1393 3) ≡ true
    table = unfold all_words weight in refl

-- Code words of Hamming(16,11,4) of different data differ in at least four places.
pub ham_16114-distance :
    (d e : List Bool)
    → length d ≡ 11
    → length e ≡ 11
    → d ≢ e
    → 4 ≤ distance (codeword ham_16114 d) (codeword ham_16114 e)
unfolding ham_16114
ham_16114-distance d e = distance_of_heavy sets_16114 11 4 d e table
  where
    table : all_words 11 (heavy sets_16114 4) ≡ true
    table = unfold all_words weight in refl

-- Code words of different data differ in at least three places for Hamming(15,11,3), in four for
-- Hamming(16,11,4), and in three for Hamming(13,9,3).
pub ham-distance :
    (d e x y : List Bool)
    → length d ≡ 11
    → length e ≡ 11
    → d ≢ e
    → length x ≡ 9
    → length y ≡ 9
    → x ≢ y
    → (3 ≤ distance (codeword ham_15113 d) (codeword ham_15113 e))
      × (4 ≤ distance (codeword ham_16114 d) (codeword ham_16114 e))
      × (3 ≤ distance (codeword ham_1393 x) (codeword ham_1393 y))
ham-distance d e x y hd he de hx hy xy = (
  ham_15113-distance d e hd he de,
  ham_16114-distance d e hd he de,
  ham_1393-distance x y hx hy xy,
)
