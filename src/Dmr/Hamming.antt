-- ===== src/Dmr/Hamming.antt =====
-- dmr/hamming.c: the check bits of the Hamming codes, each an exclusive or of data bits.
pub mod Distance
use cc2obp.Common.{ℕ, Bool, List, [], ◌∷◌, xor_at}

-- The check bits: one for each set of data positions.
unfoldable pub checks : List (List ℕ) → List Bool → List Bool
unfolding xor_at
checks [] d = []
checks (ps ∷ sets) d = xor_at ps d ∷ checks sets d

abbrev pub sets_15113 : List (List ℕ)
sets_15113 =
    (0 ∷ 1 ∷ 2 ∷ 3 ∷ 5 ∷ 7 ∷ 8 ∷ [])
    ∷ (1 ∷ 2 ∷ 3 ∷ 4 ∷ 6 ∷ 8 ∷ 9 ∷ [])
    ∷ (2 ∷ 3 ∷ 4 ∷ 5 ∷ 7 ∷ 9 ∷ 10 ∷ [])
    ∷ (0 ∷ 1 ∷ 2 ∷ 4 ∷ 6 ∷ 7 ∷ 10 ∷ [])
    ∷ []

abbrev pub sets_1393 : List (List ℕ)
sets_1393 =
    (0 ∷ 1 ∷ 3 ∷ 5 ∷ 6 ∷ [])
    ∷ (0 ∷ 1 ∷ 2 ∷ 4 ∷ 6 ∷ 7 ∷ [])
    ∷ (0 ∷ 1 ∷ 2 ∷ 3 ∷ 5 ∷ 7 ∷ 8 ∷ [])
    ∷ (0 ∷ 2 ∷ 4 ∷ 5 ∷ 8 ∷ [])
    ∷ []

abbrev pub sets_16114 : List (List ℕ)
sets_16114 =
    (0 ∷ 1 ∷ 2 ∷ 3 ∷ 5 ∷ 7 ∷ 8 ∷ [])
    ∷ (1 ∷ 2 ∷ 3 ∷ 4 ∷ 6 ∷ 8 ∷ 9 ∷ [])
    ∷ (2 ∷ 3 ∷ 4 ∷ 5 ∷ 7 ∷ 9 ∷ 10 ∷ [])
    ∷ (0 ∷ 1 ∷ 2 ∷ 4 ∷ 6 ∷ 7 ∷ 10 ∷ [])
    ∷ (0 ∷ 2 ∷ 5 ∷ 6 ∷ 8 ∷ 9 ∷ 10 ∷ [])
    ∷ []

unfoldable pub ham_15113 : List Bool → List Bool
unfolding checks
ham_15113 d = checks sets_15113 d

unfoldable pub ham_1393 : List Bool → List Bool
unfolding checks
ham_1393 d = checks sets_1393 d

unfoldable pub ham_16114 : List Bool → List Bool
unfolding checks
ham_16114 d = checks sets_16114 d
