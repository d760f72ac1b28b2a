-- ===== src/Dmr/Bptc/Decode.antt =====
-- What the decoder gets back, and the rows and columns that the encoder builds.
use cc2obp.Common.{
  ℕ, zero, suc, ◌+◌, ◌*◌, ◌≡◌, refl, sym, ap, ◌∙◌, Bool, false, List, ◌++◌, length, get_or, take,
  tabulate, eq-tabulate, gather, scatter,
}
use mathlib.Core.Path.{subst}
use cc2obp.Dmr.Bits.{
  bytes_to_bits, bits_to_bytes, IsBytes, bits_to_bytes-bytes_to_bits, length-bytes_to_bits,
}
use cc2obp.Dmr.Hamming.{ham_15113, ham_1393}
use cc2obp.Dmr.Rs129.{rs129_lc_encode, rs129_encode}
use cc2obp.Dmr.Bptc.Tables.{decode_lc_idx}
use cc2obp.Dmr.Bptc.{
  encode_matrix, bptc_encode_19696, interleave_19696, bptc_encode_lc, bptc_decode_full_lc,
}

picked :
    (bits : List Bool)
    → length bits ≡ 96
    → gather decode_lc_idx (interleave_19696 (encode_matrix bits)) ≡ take 72 bits
picked bits h =
    subst (λ t. gather decode_lc_idx (interleave_19696 (encode_matrix t)) ≡ take 72 t)
      (sym (eq-tabulate 96 bits false h))
      (unfold gather interleave_19696 scatter encode_matrix in refl)

module _ (lc : List ℕ) (is_term : Bool) (nine : length lc ≡ 9) where
  abbrev sent : List ℕ
  sent = take 9 lc ++ rs129_lc_encode lc is_term

  sent-lengths : (length sent ≡ 12) × (take 72 (bytes_to_bits sent) ≡ bytes_to_bits lc)
  sent-lengths =
      subst
        (λ t.
          (length (take 9 t ++ rs129_lc_encode lc is_term) ≡ 12)
          × (take 72 (bytes_to_bits (take 9 t ++ rs129_lc_encode lc is_term)) ≡ bytes_to_bits t))
        (sym (eq-tabulate 9 lc 0 nine))
        (unfold rs129_lc_encode rs129_encode bytes_to_bits in (refl, refl))

  -- The decoder picks the nine bytes of the link control word out of its code word, for a voice
  -- header and for a terminator.
  pub bptc_decode_full_lc-bptc_encode_lc :
      IsBytes lc → bptc_decode_full_lc (bptc_encode_lc lc is_term) ≡ lc
  unfolding bptc_decode_full_lc bptc_encode_lc bptc_encode_19696
  bptc_decode_full_lc-bptc_encode_lc bytes =
      ap bits_to_bytes (
        picked (bytes_to_bits sent) (length-bytes_to_bits sent ∙ ap (λ t. 8 * t) sent-lengths.0)
        ∙ sent-lengths.1)
      ∙ bits_to_bytes-bytes_to_bits lc bytes

-- Entries `lo`, `lo + step`, ... of the matrix.
abbrev line : List Bool → ℕ → ℕ → ℕ → List Bool
line m lo step n = tabulate n (λ k. get_or m (lo + k * step) false)

-- The first `r` rows hold their own check bits.
abbrev pub RowsHold : List Bool → ℕ → Type 0
RowsHold m zero = Unit
RowsHold m (suc r) =
    (ham_15113 (line m (r * 15 + 1) 1 11) ≡ line m (r * 15 + 12) 1 4) × RowsHold m r

-- The first `c` columns hold their own check bits.
abbrev pub ColumnsHold : List Bool → ℕ → Type 0
ColumnsHold m zero = Unit
ColumnsHold m (suc c) = (ham_1393 (line m (c + 1) 15 9) ≡ line m (c + 136) 15 4) × ColumnsHold m c

matrix_rows : (f : ℕ → Bool) → RowsHold (encode_matrix (tabulate 96 f)) 9
unfolding encode_matrix
matrix_rows f = (refl, (refl, (refl, (refl, (refl, (refl, (refl, (refl, (refl, tt)))))))))

matrix_columns : (f : ℕ → Bool) → ColumnsHold (encode_matrix (tabulate 96 f)) 15
unfolding encode_matrix
matrix_columns f = (
  refl,
  (
    refl,
    (
      refl,
      (
        refl,
        (refl, (refl, (refl, (refl, (refl, (refl, (refl, (refl, (refl, (refl, (refl, tt))))))))))),
      ),
    ),
  ),
)

-- In the matrix that the encoder builds from twelve bytes, each of the nine data rows ends in its
-- Hamming(15,11) checks, and each of the fifteen columns in its Hamming(13,9) checks.
pub bptc_encode_19696_product :
    (data12 : List ℕ)
    → length data12 ≡ 12
    → RowsHold (bptc_encode_19696 data12) 9 × ColumnsHold (bptc_encode_19696 data12) 15
unfolding bptc_encode_19696
bptc_encode_19696_product data12 h =
    subst (λ t. RowsHold (encode_matrix t) 9 × ColumnsHold (encode_matrix t) 15)
      (sym (
        eq-tabulate 96 (bytes_to_bits data12) false
          (length-bytes_to_bits data12 ∙ ap (λ t. 8 * t) h)))
      (matrix_rows bit, matrix_columns bit)
  where
    bit : ℕ → Bool
    bit i = get_or (bytes_to_bits data12) i false
