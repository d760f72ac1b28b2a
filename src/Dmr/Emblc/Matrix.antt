-- ===== src/Dmr/Emblc/Matrix.antt =====
-- The matrix of the embedded link control, and which of its cells go on the air.
use cc2obp.Common.{
  ℕ, zero, suc, ◌+◌, ◌*◌, ◌≡◌, refl, sym, ap, ap₂, ◌∙◌, Bool, false, List, [], ◌∷◌, ◌++◌, length,
  get_or, set, take, replicate, tabulate, eq-tabulate, All, ◌⊕◌, gather, scatter,
}
use mathlib.Core.Path.{subst}
use cc2obp.Dmr.Bits.{bytes_to_bits, bytes_to_bits-bits_to_bytes}
use cc2obp.Dmr.Crc.{csum5}
use cc2obp.Dmr.Hamming.{ham_16114}
use cc2obp.Dmr.Crc.{csum5}
use mathlib.Core.Path.{subst}
use cc2obp.Dmr.Emblc.{emblc_idx, insert_csum, emb_matrix, emb_segments, encode_emblc}

-- The matrix that is built for a link control word.
pub matrix_of : List ℕ → List Bool
matrix_of lc = emb_matrix (insert_csum (csum5 lc) (bytes_to_bits (take 9 lc)))

abbrev line : List Bool → ℕ → ℕ → ℕ → List Bool
line m lo step n = tabulate n (λ k. get_or m (lo + k * step) false)

abbrev pub EmbRowsHold : List Bool → ℕ → Type 0
EmbRowsHold m zero = Unit
EmbRowsHold m (suc r) =
    (ham_16114 (line m (r * 16) 1 11) ≡ line m (r * 16 + 11) 1 5) × EmbRowsHold m r

-- The first seven cells of column `c` add up to its eighth.
abbrev pub EmbColumnsHold : List Bool → ℕ → Type 0
EmbColumnsHold m zero = Unit
EmbColumnsHold m (suc c) =
    (get_or m c false
        ⊕ get_or m (c + 16) false
        ⊕ get_or m (c + 32) false
        ⊕ get_or m (c + 48) false
        ⊕ get_or m (c + 64) false
        ⊕ get_or m (c + 80) false
        ⊕ get_or m (c + 96) false
      ≡ get_or m (c + 112) false)
    × EmbColumnsHold m c

matrix_rows : (cs : ℕ) (f : ℕ → Bool) → EmbRowsHold (emb_matrix (insert_csum cs (tabulate 72 f))) 7
unfolding emb_matrix insert_csum
matrix_rows cs f = (refl, (refl, (refl, (refl, (refl, (refl, (refl, tt)))))))

matrix_columns :
    (cs : ℕ) (f : ℕ → Bool) → EmbColumnsHold (emb_matrix (insert_csum cs (tabulate 72 f))) 16
unfolding emb_matrix insert_csum
matrix_columns cs f = (
  refl,
  (
    refl,
    (
      refl,
      (
        refl,
        (
          refl,
          (
            refl,
            (refl, (refl, (refl, (refl, (refl, (refl, (refl, (refl, (refl, (refl, tt)))))))))),
          ),
        ),
      ),
    ),
  ),
)

length_cells : (cs : ℕ) (f : ℕ → Bool) → length (emb_matrix (insert_csum cs (tabulate 72 f))) ≡ 128
unfolding emb_matrix insert_csum
length_cells cs f = refl

-- Four fragments back in the places that the table gives them.
abbrev flat_idx : List (List ℕ) → List ℕ
flat_idx [] = []
flat_idx (idx ∷ rest) = idx ++ flat_idx rest

unfoldable pub received_bits : List (List ℕ) → List Bool
received_bits [] = []
received_bits (v ∷ vs) = bytes_to_bits v ++ received_bits vs

unfoldable pub received_cells : List (List ℕ) → List Bool
received_cells fragments =
    scatter (flat_idx emblc_idx) (received_bits fragments) (replicate 128 false)

gather-append : (ps qs : List ℕ) (m : List Bool) → gather (ps ++ qs) m ≡ gather ps m ++ gather qs m
unfolding gather
gather-append [] qs m = refl
gather-append (p ∷ ps) qs m = ap (λ t. get_or m p false ∷ t) (gather-append ps qs m)

length-gather : (ps : List ℕ) (m : List Bool) → length (gather ps m) ≡ length ps
unfolding gather
length-gather [] m = refl
length-gather (p ∷ ps) m = ap suc (length-gather ps m)

received_segments :
    (idxs : List (List ℕ)) (m : List Bool)
    → All (λ idx. length idx ≡ 32) idxs
    → received_bits (emb_segments idxs m) ≡ gather (flat_idx idxs) m
unfolding received_bits emb_segments
received_segments [] m h = unfold gather in refl
received_segments (idx ∷ idxs) m h =
    ap₂ ◌++◌ (bytes_to_bits-bits_to_bytes 4 (gather idx m) (length-gather idx m ∙ h.0))
      (received_segments idxs m h.1)
    ∙ sym (gather-append idx (flat_idx idxs) m)

sent_cells :
    (m : List Bool)
    → length m ≡ 128
    → scatter (flat_idx emblc_idx) (gather (flat_idx emblc_idx) m) (replicate 128 false)
      ≡ set m 25 false
sent_cells m h =
    subst
      (λ t.
        scatter (flat_idx emblc_idx) (gather (flat_idx emblc_idx) t) (replicate 128 false)
        ≡ set t 25 false)
      (sym (eq-tabulate 128 m false h)) (unfold scatter gather in refl)

module _ (lc : List ℕ) (nine : length lc ≡ 9) where
  whole : bytes_to_bits (take 9 lc) ≡ tabulate 72 (λ i. get_or (bytes_to_bits lc) i false)
  whole =
      subst (λ t. bytes_to_bits (take 9 t) ≡ tabulate 72 (λ i. get_or (bytes_to_bits t) i false))
        (sym (eq-tabulate 9 lc 0 nine)) (unfold bytes_to_bits in refl)

  -- For every nine-byte link control word the matrix is a product code: each of its seven rows ends
  -- in its Hamming(16,11,4) checks, and each of its sixteen columns in its parity.
  pub matrix_of_product : EmbRowsHold (matrix_of lc) 7 × EmbColumnsHold (matrix_of lc) 16
  unfolding matrix_of
  matrix_of_product = rw whole (matrix_rows (csum5 lc) bit, matrix_columns (csum5 lc) bit)
    where
      bit : ℕ → Bool
      bit i = get_or (bytes_to_bits lc) i false

  -- The four fragments carry every cell of the matrix but cell 25, whose place in them holds cell 24
  -- a second time: a receiver has 127 of the 128 cells, and cell 25 has no influence on what is sent.
  pub received_cells-encode_emblc : received_cells (encode_emblc lc) ≡ set (matrix_of lc) 25 false
  unfolding received_cells encode_emblc matrix_of
  received_cells-encode_emblc =
      ap (λ t. scatter (flat_idx emblc_idx) t (replicate 128 false))
        (received_segments emblc_idx (matrix_of lc) (refl, (refl, (refl, (refl, tt)))))
      ∙ sent_cells (matrix_of lc)
          (rw whole (length_cells (csum5 lc) (λ i. get_or (bytes_to_bits lc) i false)))
