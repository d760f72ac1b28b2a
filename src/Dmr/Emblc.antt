-- ===== src/Dmr/Emblc.antt =====
-- dmr/bptc.c, dmr_encode_emblc: the embedded link control of bursts B to E.
pub mod Matrix
use cc2obp.Common.{
  ℕ, ◌+◌, ◌*◌, Bool, false, List, [], ◌∷◌, get_or, take, tabulate, ◌⊕◌, gather, for_range,
  bit_insert,
}
use cc2obp.Dmr.Bits.{bytes_to_bits, bits_to_bytes, bit_at}
use cc2obp.Dmr.Crc.{csum5}
use cc2obp.Dmr.Hamming.{ham_16114}
use cc2obp.Dmr.Bptc.{insert_all}

abbrev pub emblc_idx : List (List ℕ)
emblc_idx =
    (0 ∷ 16 ∷ 32 ∷ 48 ∷ 64 ∷ 80 ∷ 96 ∷ 112 ∷ 1 ∷ 17 ∷ 33 ∷ 49 ∷ 65 ∷ 81 ∷ 97 ∷ 113 ∷ 2 ∷ 18 ∷ 34
      ∷ 50 ∷ 66 ∷ 82 ∷ 98 ∷ 114 ∷ 3 ∷ 19 ∷ 35 ∷ 51 ∷ 67 ∷ 83 ∷ 99 ∷ 115 ∷ [])
    ∷ (4 ∷ 20 ∷ 36 ∷ 52 ∷ 68 ∷ 84 ∷ 100 ∷ 116 ∷ 5 ∷ 21 ∷ 37 ∷ 53 ∷ 69 ∷ 85 ∷ 101 ∷ 117 ∷ 6 ∷ 22 ∷ 38
        ∷ 54 ∷ 70 ∷ 86 ∷ 102 ∷ 118 ∷ 7 ∷ 23 ∷ 39 ∷ 55 ∷ 71 ∷ 87 ∷ 103 ∷ 119 ∷ [])
    ∷ (8 ∷ 24 ∷ 40 ∷ 56 ∷ 72 ∷ 88 ∷ 104 ∷ 120 ∷ 9 ∷ 24 ∷ 41 ∷ 57 ∷ 73 ∷ 89 ∷ 105 ∷ 121 ∷ 10 ∷ 26
        ∷ 42 ∷ 58 ∷ 74 ∷ 90 ∷ 106 ∷ 122 ∷ 11 ∷ 27 ∷ 43 ∷ 59 ∷ 75 ∷ 91 ∷ 107 ∷ 123 ∷ [])
    ∷ (12 ∷ 28 ∷ 44 ∷ 60 ∷ 76 ∷ 92 ∷ 108 ∷ 124 ∷ 13 ∷ 29 ∷ 45 ∷ 61 ∷ 77 ∷ 93 ∷ 109 ∷ 125 ∷ 14 ∷ 30
        ∷ 46 ∷ 62 ∷ 78 ∷ 94 ∷ 110 ∷ 126 ∷ 15 ∷ 31 ∷ 47 ∷ 63 ∷ 79 ∷ 95 ∷ 111 ∷ 127 ∷ [])
    ∷ []

-- The checksum bits, the highest first, at the ends of rows 2 to 6 of the data.
unfoldable pub insert_csum : ℕ → List Bool → List Bool
unfolding bit_insert
insert_csum cs buf =
    let buf = bit_insert 32 (bit_at cs 4) buf in
    let buf = bit_insert 43 (bit_at cs 3) buf in
    let buf = bit_insert 54 (bit_at cs 2) buf in
    let buf = bit_insert 65 (bit_at cs 1) buf in bit_insert 76 (bit_at cs 0) buf

unfoldable pub emb_row_checks : ℕ → List Bool → List Bool
unfolding insert_all ham_16114
emb_row_checks row buf =
    let index = row * 16 in
    insert_all (index + 11) (ham_16114 (tabulate 11 (λ k. get_or buf (index + k) false))) buf

unfoldable pub emb_column_parity : ℕ → List Bool → List Bool
unfolding bit_insert
emb_column_parity index buf =
    let at = λ (k : ℕ). get_or buf k false in
    let v : Bool =
      at index
      ⊕ at (index + 16)
      ⊕ at (index + 32)
      ⊕ at (index + 48)
      ⊕ at (index + 64)
      ⊕ at (index + 80)
      ⊕ at (index + 96) in
    bit_insert (index + 112) v buf

-- 77 bits to the 128 bits of the matrix, in row order.
unfoldable pub emb_matrix : List Bool → List Bool
unfolding for_range emb_row_checks emb_column_parity
emb_matrix buf = let buf = for_range 7 0 emb_row_checks buf in for_range 16 0 emb_column_parity buf

unfoldable pub emb_segments : List (List ℕ) → List Bool → List (List ℕ)
emb_segments [] buf = []
emb_segments (idx ∷ rest) buf = bits_to_bytes (gather idx buf) ∷ emb_segments rest buf

unfoldable pub encode_emblc : List ℕ → List (List ℕ)
encode_emblc lc =
    emb_segments emblc_idx (emb_matrix (insert_csum (csum5 lc) (bytes_to_bits (take 9 lc))))
