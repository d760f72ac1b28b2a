-- ===== src/Dmr/Ambe.antt =====
-- dmr/ambe.c: 49 raw AMBE bits to a 72-bit frame with error protection, and back.
pub mod Rows
pub mod RoundTrip
use cc2obp.Common.{
  ℕ, zero, suc, ◌+◌, ◌-◌, ◌*◌, ◌/◌, ◌%◌, Bool, false, List, [], ◌∷◌, ◌++◌, ◌==◌, ◌⊕◌, get_or, set,
  tabulate, replicate,
}
use cc2obp.Dmr.Bits.{bit_val}
use cc2obp.Dmr.Golay.{golay2312, parity}

-- The interleave schedule: bit `2 i` is cell `(r_w i, r_x i)`, bit `2 i + 1` is `(r_y i, r_z i)`.
abbrev r_w : List ℕ
r_w =
    0 ∷ 1 ∷ 0 ∷ 1 ∷ 0 ∷ 1 ∷ 0 ∷ 1 ∷ 0 ∷ 1 ∷ 0 ∷ 1 ∷ 0 ∷ 1 ∷ 0 ∷ 1 ∷ 0 ∷ 1 ∷ 0 ∷ 1 ∷ 0 ∷ 1 ∷ 0 ∷ 2
    ∷ 0 ∷ 2 ∷ 0 ∷ 2 ∷ 0 ∷ 2 ∷ 0 ∷ 2 ∷ 0 ∷ 2 ∷ 0 ∷ 2 ∷ []

abbrev r_x : List ℕ
r_x =
    23 ∷ 10 ∷ 22 ∷ 9 ∷ 21 ∷ 8 ∷ 20 ∷ 7 ∷ 19 ∷ 6 ∷ 18 ∷ 5 ∷ 17 ∷ 4 ∷ 16 ∷ 3 ∷ 15 ∷ 2 ∷ 14 ∷ 1 ∷ 13
    ∷ 0 ∷ 12 ∷ 10 ∷ 11 ∷ 9 ∷ 10 ∷ 8 ∷ 9 ∷ 7 ∷ 8 ∷ 6 ∷ 7 ∷ 5 ∷ 6 ∷ 4 ∷ []

abbrev r_y : List ℕ
r_y =
    0 ∷ 2 ∷ 0 ∷ 2 ∷ 0 ∷ 2 ∷ 0 ∷ 2 ∷ 0 ∷ 3 ∷ 0 ∷ 3 ∷ 1 ∷ 3 ∷ 1 ∷ 3 ∷ 1 ∷ 3 ∷ 1 ∷ 3 ∷ 1 ∷ 3 ∷ 1 ∷ 3
    ∷ 1 ∷ 3 ∷ 1 ∷ 3 ∷ 1 ∷ 3 ∷ 1 ∷ 3 ∷ 1 ∷ 3 ∷ 1 ∷ 3 ∷ []

abbrev r_z : List ℕ
r_z =
    5 ∷ 3 ∷ 4 ∷ 2 ∷ 3 ∷ 1 ∷ 2 ∷ 0 ∷ 1 ∷ 13 ∷ 0 ∷ 12 ∷ 22 ∷ 11 ∷ 21 ∷ 10 ∷ 20 ∷ 9 ∷ 19 ∷ 8 ∷ 18 ∷ 7
    ∷ 17 ∷ 6 ∷ 16 ∷ 5 ∷ 15 ∷ 4 ∷ 14 ∷ 3 ∷ 13 ∷ 2 ∷ 12 ∷ 1 ∷ 11 ∷ 0 ∷ []

-- `int ambe_fr[4][24]`.
abbrev pub Frames : Type 0
Frames = List (List Bool)

abbrev cell : Frames → ℕ → ℕ → Bool
cell fr r c = get_or (get_or fr r []) c false

abbrev set_cell : Frames → ℕ → ℕ → Bool → Frames
set_cell fr r c b = set fr r (set (get_or fr r []) c b)

-- `for (i = lo + n - 1; i >= lo; i--) tmp = (tmp << 1) | d[i]`.
unfoldable pub shift_in : List Bool → ℕ → ℕ → ℕ → ℕ
shift_in d lo zero tmp = tmp
shift_in d lo (suc n) tmp = shift_in d lo n (tmp * 2 + bit_val (get_or d (lo + n) false))

-- `for (i = n - 1; i >= 0; i--) { row[i] = tmp & 1; tmp >>= 1; }`, before the cells of `row`.
unfoldable pub shift_out : ℕ → ℕ → List Bool → List Bool
shift_out zero tmp row = row
shift_out (suc n) tmp row = shift_out n (tmp / 2) ((tmp % 2 == 1) ∷ row)

-- The pseudo-random sequence: round `k` gives the bit for cell `n - k` of the second row.
unfoldable pub noise : ℕ → ℕ → List Bool → List Bool
noise zero pr bits = bits
noise (suc n) pr bits = let v = (173 * pr + 13849) % 65536 in noise n v ((v / 32768 == 1) ∷ bits)

unfoldable pub xor_row : List Bool → List Bool → List Bool
xor_row [] mask = []
xor_row (b ∷ row) [] = b ∷ row
xor_row (b ∷ row) (m ∷ mask) = (b ⊕ m) ∷ xor_row row mask

unfoldable pub demodulate : Frames → Frames
unfolding shift_in noise xor_row
demodulate fr =
    let foo = shift_in (get_or fr 0 []) 12 12 0 in
    set fr 1 (xor_row (get_or fr 1 []) (noise 23 (16 * foo) []))

with_parity : ℕ → ℕ
with_parity cw = parity cw * 8388608 + cw

unfoldable pub frames_from_49 : List Bool → Frames
unfolding shift_in shift_out with_parity
frames_from_49 d =
    shift_out 24 (with_parity (golay2312 (shift_in d 0 12 0))) []
    ∷ shift_out 23 (golay2312 (shift_in d 12 12 0)) (false ∷ [])
    ∷ (tabulate 11 (λ j. get_or d (34 - j) false) ++ replicate 13 false)
    ∷ (tabulate 14 (λ j. get_or d (48 - j) false) ++ replicate 10 false)
    ∷ []

unfoldable pub ecc_extract_49 : Frames → List Bool
ecc_extract_49 fr =
    tabulate 12 (λ n. cell fr 0 (23 - n))
    ++ (tabulate 12 (λ n. cell fr 1 (22 - n))
        ++ (tabulate 11 (λ n. cell fr 2 (10 - n)) ++ tabulate 14 (λ n. cell fr 3 (13 - n))))

-- Rounds left, and the round.
unfoldable pub interleave : ℕ → ℕ → Frames → List Bool
interleave zero i fr = []
interleave (suc n) i fr =
    cell fr (get_or r_w i 0) (get_or r_x i 0)
    ∷ cell fr (get_or r_y i 0) (get_or r_z i 0)
    ∷ interleave n (i + 1) fr

unfoldable pub deinterleave : ℕ → ℕ → List Bool → Frames → Frames
deinterleave zero i bits fr = fr
deinterleave (suc n) i bits fr =
    let fr = set_cell fr (get_or r_w i 0) (get_or r_x i 0) (get_or bits (2 * i) false) in
    let fr = set_cell fr (get_or r_y i 0) (get_or r_z i 0) (get_or bits (2 * i + 1) false) in
    deinterleave n (i + 1) bits fr

unfoldable pub ambe_49_to_72 : List Bool → List Bool
ambe_49_to_72 d = interleave 36 0 (demodulate (frames_from_49 d))

unfoldable pub ambe_72_to_49 : List Bool → List Bool
ambe_72_to_49 bits =
    ecc_extract_49 (demodulate (deinterleave 36 0 bits (replicate 4 (replicate 24 false))))
