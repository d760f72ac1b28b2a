-- ===== src/Dmr/Ambe/Rows.antt =====
-- The rows of a frame, one at a time.
use cc2obp.Common.{
  ℕ, zero, suc, ◌+◌, ◌*◌, ◌/◌, ◌%◌, ◌<◌, ◌≡◌, refl, Bool, false, List, [], ◌∷◌, ◌++◌, arith, get_or,
  replicate, tabulate, xor_cancel,
}
use cc2obp.Dmr.Bits.{bit_val, bit_val-lt, bit-bit_val}
use cc2obp.Dmr.Ambe.{xor_row, interleave, deinterleave, Frames, shift_in, shift_out}

-- Masking a row twice gives it back.
pub xor_row_twice : (row mask : List Bool) → xor_row (xor_row row mask) mask ≡ row
unfolding xor_row
xor_row_twice [] mask = refl
xor_row_twice (b ∷ row) [] = refl
xor_row_twice (b ∷ row) (m ∷ mask) = λ i. xor_cancel b m i ∷ xor_row_twice row mask i

abbrev pub frame_of : (f g h k : ℕ → Bool) → Frames
frame_of f g h k =
    tabulate 24 f
    ∷ (tabulate 23 g ++ replicate 1 false)
    ∷ (tabulate 11 h ++ replicate 13 false)
    ∷ (tabulate 14 k ++ replicate 10 false)
    ∷ []

-- The schedule meets each of the 72 cells in use once, so the two interleavers are inverse.
pub deinterleave-interleave :
    (f g h k : ℕ → Bool)
    → deinterleave 36 0 (interleave 36 0 (frame_of f g h k)) (replicate 4 (replicate 24 false))
      ≡ frame_of f g h k
unfolding interleave deinterleave
deinterleave-interleave f g h k = refl

-- Entries `lo` to `lo + k - 1` of `d`, the highest first, before `row`.
abbrev pub down : List Bool → ℕ → ℕ → List Bool → List Bool
down d lo zero row = row
down d lo (suc k) row = down d (lo + 1) k (get_or d lo false ∷ row)

shift_in-suc :
    (d : List Bool) (lo k tmp : ℕ)
    → shift_in d lo (suc k) tmp ≡ shift_in d (lo + 1) k tmp * 2 + bit_val (get_or d lo false)
unfolding shift_in
shift_in-suc d lo zero tmp = let e : lo + 0 ≡ lo = omega arith in rw e
shift_in-suc d lo (suc k) tmp =
    let e : lo + 1 + k ≡ lo + suc k = omega arith in
    rw e (shift_in-suc d lo k (tmp * 2 + bit_val (get_or d (lo + suc k) false)))

shift_out-suc :
    (n t : ℕ) (b : Bool) (row : List Bool)
    → shift_out (suc n) (t * 2 + bit_val b) row ≡ shift_out n t (b ∷ row)
unfolding shift_out
shift_out-suc n t b row =
    let e : (t * 2 + bit_val b) / 2 ≡ t = omega (arith, bit_val-lt b) in
    let f : (t * 2 + bit_val b) % 2 ≡ bit_val b = omega (arith, bit_val-lt b) in
    rw (e, f, bit-bit_val b)

-- What went into a number comes out of it, above what stood there before.
pub shift_out-shift_in :
    (d : List Bool) (k n lo tmp : ℕ) (row : List Bool)
    → shift_out (k + n) (shift_in d lo k tmp) row ≡ shift_out n tmp (down d lo k row)
shift_out-shift_in d zero n lo tmp row =
    let e : 0 + n ≡ n = omega arith in rw e (unfold shift_in in refl)
shift_out-shift_in d (suc k) n lo tmp row =
    let e : suc k + n ≡ suc (k + n) = omega arith in
    rw (e, shift_in-suc d lo k tmp, shift_out-suc (k + n))
      (shift_out-shift_in d k n (lo + 1) tmp (get_or d lo false ∷ row))

-- A number put in above twelve bits.
pub shift_in_above :
    (d : List Bool) (lo hi : ℕ) → hi * 4096 + shift_in d lo 12 0 ≡ shift_in d lo 12 hi
unfolding shift_in
shift_in_above d lo hi = omega arith

pub shift_in-lt : (d : List Bool) (lo : ℕ) → shift_in d lo 12 0 < 4096
unfolding shift_in
shift_in-lt d lo = omega (arith, bit_val-lt)
