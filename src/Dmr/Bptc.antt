-- ===== src/Dmr/Bptc.antt =====
-- dmr/bptc.c: the BPTC(196,96) code of a full link control word.
pub mod Tables
pub mod Decode
use cc2obp.Common.{
  ℕ, ◌+◌, ◌-◌, ◌*◌, Bool, false, List, [], ◌∷◌, ◌++◌, length, get_or, set, take, replicate,
  tabulate, gather, scatter, for_range, bit_insert,
}
use cc2obp.Dmr.Bits.{bytes_to_bits, bits_to_bytes}
use cc2obp.Dmr.Hamming.{ham_15113, ham_1393}
use cc2obp.Dmr.Rs129.{rs129_lc_encode}
use Tables.{index_181, decode_lc_idx}

-- Inserts `bits` at `pos` and after.
unfoldable pub insert_all : ℕ → List Bool → List Bool → List Bool
unfolding bit_insert
insert_all pos [] buf = buf
insert_all pos (b ∷ bits) buf = insert_all (pos + 1) bits (bit_insert pos b buf)

-- The check bits of row `index` go in behind its eleven data bits.
unfoldable pub row_checks : ℕ → List Bool → List Bool
unfolding insert_all ham_15113
row_checks index buf =
    let spos = index * 15 + 1 in
    insert_all (spos + 11) (ham_15113 (tabulate 11 (λ k. get_or buf (spos + k) false))) buf

-- Writes `bits` at `pos`, `pos + 15`, and so on.
unfoldable pub set_column : ℕ → List Bool → List Bool → List Bool
set_column pos [] buf = buf
set_column pos (b ∷ bits) buf = set_column (pos + 15) bits (set buf pos b)

unfoldable pub column_checks : ℕ → List Bool → List Bool
unfolding set_column ham_1393
column_checks col buf =
    set_column (136 + col)
      (ham_1393 (tabulate 9 (λ index. get_or buf (col + 1 + index * 15) false))) buf

-- 96 bits to the 196 bits of the matrix, in row order.
unfoldable pub encode_matrix : List Bool → List Bool
unfolding for_range bit_insert row_checks column_checks
encode_matrix bits =
    let buf = for_range 4 0 (λ _ buf. bit_insert 0 false buf) bits in
    let buf = for_range 9 0 row_checks buf in
    let buf = buf ++ replicate (196 - length buf) false in for_range 15 0 column_checks buf

unfoldable pub bptc_encode_19696 : List ℕ → List Bool
bptc_encode_19696 data12 = encode_matrix (bytes_to_bits data12)

unfoldable pub interleave_19696 : List Bool → List Bool
interleave_19696 bits = scatter index_181 bits (replicate 196 false)

unfoldable pub bptc_encode_lc : List ℕ → Bool → List Bool
bptc_encode_lc lc is_term =
    interleave_19696 (bptc_encode_19696 (take 9 lc ++ rs129_lc_encode lc is_term))

unfoldable pub bptc_decode_full_lc : List Bool → List ℕ
bptc_decode_full_lc bits = bits_to_bytes (gather decode_lc_idx bits)
