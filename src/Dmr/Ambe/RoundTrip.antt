-- ===== src/Dmr/Ambe/RoundTrip.antt =====
-- The conversion there and back.
use cc2obp.Common.{
  sym, ap, ◌∙◌, length, eq-tabulate, ℕ, ◌+◌, ◌-◌, ◌*◌, ◌%◌, ◌≡◌, refl, sym, ap, ◌∙◌, Bool, false,
  List, [], ◌∷◌, ◌++◌, arith, length, get_or, replicate, tabulate, eq-tabulate,
}
use cc2obp.Dmr.Golay.{golay2312, golay_loop, parity}
use cc2obp.Dmr.Ambe.Rows.{
  xor_row_twice, frame_of, deinterleave-interleave, shift_out-shift_in, shift_in_above, shift_in-lt,
  down,
}
use cc2obp.Dmr.Ambe.{
  Frames, shift_in, shift_out, noise, xor_row, demodulate, with_parity, frames_from_49,
  ecc_extract_49, interleave, deinterleave, ambe_49_to_72, ambe_72_to_49,
}

-- The number that stands above the twelve data bits of a row.
check0 : List Bool → ℕ
check0 d =
    let cw = golay2312 (shift_in d 0 12 0) in
    parity cw * 2048 + golay_loop 12 (shift_in d 0 12 0 % 4096)

check1 : List Bool → ℕ
check1 d = golay_loop 12 (shift_in d 12 12 0 % 4096)

row0_of : List Bool → List Bool
row0_of d = shift_out 12 (check0 d) (down d 0 12 [])

row1_of : List Bool → List Bool
row1_of d = shift_out 11 (check1 d) (down d 12 12 (false ∷ []))

shift_out-row :
    (d : List Bool) (lo n hi : ℕ) (row : List Bool)
    → shift_out (12 + n) (hi * 4096 + shift_in d lo 12 0) row ≡ shift_out n hi (down d lo 12 row)
shift_out-row d lo n hi row = rw (shift_in_above d lo hi) (shift_out-shift_in d 12 n lo hi row)

row0_lem :
    (d : List Bool) → shift_out 24 (with_parity (golay2312 (shift_in d 0 12 0))) [] ≡ row0_of d
unfolding row0_of check0
row0_lem d =
    let v = shift_in d 0 12 0 in
    let e : with_parity (golay2312 v)
        ≡ (parity (golay2312 v) * 2048 + golay_loop 12 (v % 4096)) * 4096 + v =
      unfold with_parity golay2312 in omega (arith, shift_in-lt d 0) in
    rw e (shift_out-row d 0 12 _ [])

row1_lem : (d : List Bool) → shift_out 23 (golay2312 (shift_in d 12 12 0)) (false ∷ []) ≡ row1_of d
unfolding row1_of check1
row1_lem d =
    let v = shift_in d 12 12 0 in
    let e : golay2312 v ≡ golay_loop 12 (v % 4096) * 4096 + v =
      unfold golay2312 in omega (arith, shift_in-lt d 12) in
    rw e (shift_out-row d 12 11 _ (false ∷ []))

abbrev rows_of : List Bool → List Bool → List Bool → Frames
rows_of r0 r1 d =
    r0
    ∷ r1
    ∷ (tabulate 11 (λ j. get_or d (34 - j) false) ++ replicate 13 false)
    ∷ (tabulate 14 (λ j. get_or d (48 - j) false) ++ replicate 10 false)
    ∷ []

frames_rows : (d : List Bool) → frames_from_49 d ≡ rows_of (row0_of d) (row1_of d) d
unfolding frames_from_49
frames_rows d = λ i. rows_of (row0_lem d i) (row1_lem d i) d

mask_of : List Bool → List Bool
mask_of r0 = noise 23 (16 * shift_in r0 12 12 0) []

demodulate_rows :
    (r0 r1 d : List Bool) → demodulate (rows_of r0 r1 d) ≡ rows_of r0 (xor_row r1 (mask_of r0)) d
unfolding demodulate mask_of
demodulate_rows r0 r1 d = refl

-- A frame that is on the air has its rows in full.
sent_rows :
    (d : List Bool)
    → rows_of (row0_of d) (xor_row (row1_of d) (mask_of (row0_of d))) d
      ≡ frame_of
          (λ i. get_or (row0_of d) i false)
          (λ i. get_or (xor_row (row1_of d) (mask_of (row0_of d))) i false)
          (λ j. get_or d (34 - j) false)
          (λ j. get_or d (48 - j) false)
unfolding row0_of row1_of shift_out xor_row mask_of noise
sent_rows d = refl

abbrev zero_frames : Frames
zero_frames = replicate 4 (replicate 24 false)

deinterleave_sent :
    (d : List Bool)
    → deinterleave 36 0 (ambe_49_to_72 d) zero_frames
      ≡ rows_of (row0_of d) (xor_row (row1_of d) (mask_of (row0_of d))) d
unfolding ambe_49_to_72
deinterleave_sent d =
    rw (frames_rows d, demodulate_rows (row0_of d) (row1_of d) d, sent_rows d)
      (deinterleave-interleave (λ i. get_or (row0_of d) i false)
        (λ i. get_or (xor_row (row1_of d) (mask_of (row0_of d))) i false)
        (λ j. get_or d (34 - j) false) (λ j. get_or d (48 - j) false))

demodulate_sent :
    (d : List Bool)
    → demodulate (deinterleave 36 0 (ambe_49_to_72 d) zero_frames)
      ≡ rows_of (row0_of d) (row1_of d) d
demodulate_sent d =
    ap demodulate (deinterleave_sent d)
    ∙ (demodulate_rows (row0_of d) (xor_row (row1_of d) (mask_of (row0_of d))) d
        ∙ ap (λ r. rows_of (row0_of d) r d) (xor_row_twice (row1_of d) (mask_of (row0_of d))))

extract_rows :
    (d : List Bool)
    → ecc_extract_49 (rows_of (row0_of d) (row1_of d) d) ≡ tabulate 49 (λ i. get_or d i false)
unfolding ecc_extract_49 row0_of row1_of shift_out
extract_rows d = refl

-- Every 49-bit AMBE frame comes back from its 72-bit form: the data bits of the first two rows survive the
-- Golay extension, the pseudo-random mask cancels, and the interleave schedule loses no cell.
pub ambe_72_to_49-ambe_49_to_72 :
    (d : List Bool) → length d ≡ 49 → ambe_72_to_49 (ambe_49_to_72 d) ≡ d
unfolding ambe_72_to_49
ambe_72_to_49-ambe_49_to_72 d h =
    ap ecc_extract_49 (demodulate_sent d) ∙ (extract_rows d ∙ sym (eq-tabulate 49 d false h))

pub length-ambe_49_to_72 : (d : List Bool) → length (ambe_49_to_72 d) ≡ 72
unfolding ambe_49_to_72 interleave
length-ambe_49_to_72 d = refl
