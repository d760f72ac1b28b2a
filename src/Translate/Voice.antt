-- ===== src/Translate/Voice.antt =====
-- translate.c: the voice of a call passes both ways unchanged.
use cc2obp.Common.{
  ℕ, zero, suc, ◌+◌, ◌/◌, ◌%◌, ◌<◌, ◌≡◌, refl, ap, ◌∙◌, Bool, false, List, [], ◌∷◌, ◌++◌, arith,
  length, get_or, take, drop, replicate, length-append, eq-tabulate, take-all, gather,
  length-scatter,
}
use cc2obp.Dmr.Bits.{
  bytes_to_bits, bits_to_bytes, bytes_from, IsBytes, bytes_to_bits-bits_to_bytes,
  length-bits_to_bytes, length-bytes_to_bits,
}
use cc2obp.Dmr.Const.{emb_headers}
use cc2obp.Dmr.Emblc.{encode_emblc, emb_segments}
use cc2obp.Dmr.Ambe.{ambe_49_to_72, ambe_72_to_49}
use cc2obp.Dmr.Ambe.RoundTrip.{ambe_72_to_49-ambe_49_to_72, length-ambe_49_to_72}
use cc2obp.Cccc.Ambe.{pack21, pack_unit, unpack21, unpack_unit, unpack_units}
use cc2obp.Cccc.Ambe.RoundTrip.{pack21-unpack21, length-pack_unit}
use cc2obp.Translate.Burst.{build_embed, voice_burst, extract_ambe}
use cc2obp.Translate.Incoming.{cc_voice_payload}

-- The bits of a burst.
abbrev laid_out : List Bool → List Bool → List Bool → List Bool → List Bool
laid_out a1 a2 a3 embed =
    take 72 a1 ++ (take 36 a2 ++ (take 48 embed ++ (take 36 (drop 36 a2) ++ take 72 a3)))

-- A burst is 33 bytes, and holds its frames and the middle field in their places.
module _ (a1 a2 a3 embed : List Bool) (h1 : length a1 ≡ 72) (h2 : length a2 ≡ 72)
    (h3 : length a3 ≡ 72) (he : length embed ≡ 48) where
  laid_out-fields :
      (length (laid_out a1 a2 a3 embed) ≡ 264)
      × (take 72 (laid_out a1 a2 a3 embed) ≡ a1)
      × (take 36 (drop 72 (laid_out a1 a2 a3 embed)) ++ take 36 (drop 156 (laid_out a1 a2 a3 embed))
          ≡ a2)
      × (take 72 (drop 192 (laid_out a1 a2 a3 embed)) ≡ a3)
  laid_out-fields =
      rw
        (
          eq-tabulate 72 a1 false h1,
          eq-tabulate 72 a2 false h2,
          eq-tabulate 72 a3 false h3,
          eq-tabulate 48 embed false he,
        )
        (refl, refl, refl, refl)

-- The three frames of a burst come out of it, whatever its middle field is.
extract_ambe-voice_burst :
    (a1 a2 a3 embed : List Bool)
    → length a1 ≡ 72
    → length a2 ≡ 72
    → length a3 ≡ 72
    → length embed ≡ 48
    → extract_ambe (voice_burst a1 a2 a3 embed)
      ≡ ambe_72_to_49 a1 ∷ ambe_72_to_49 a2 ∷ ambe_72_to_49 a3 ∷ []
unfolding extract_ambe voice_burst
extract_ambe-voice_burst a1 a2 a3 embed h1 h2 h3 he =
    let (whole, one, two, three) = laid_out-fields a1 a2 a3 embed h1 h2 h3 he in
    rw
      (
        take-all 33 (bits_to_bytes (laid_out a1 a2 a3 embed))
            (length-bits_to_bytes (laid_out a1 a2 a3 embed) ∙ ap (λ n. (n + 7) / 8) whole),
        bytes_to_bits-bits_to_bytes 33 (laid_out a1 a2 a3 embed) whole,
        one,
        two,
        three,
      )
      refl

-- Every embedded link control has four fragments of four bytes.
abbrev IsFragments : List (List ℕ) → Type 0
IsFragments emb = (k : ℕ) → k < 4 → length (get_or emb k []) ≡ 4

encode_emblc-IsFragments : (lc : List ℕ) → IsFragments (encode_emblc lc)
unfolding encode_emblc emb_segments gather bits_to_bytes bytes_from
encode_emblc-IsFragments lc zero h = refl
encode_emblc-IsFragments lc (suc zero) h = refl
encode_emblc-IsFragments lc (suc (suc zero)) h = refl
encode_emblc-IsFragments lc (suc (suc (suc zero))) h = refl
encode_emblc-IsFragments lc (suc (suc (suc (suc k)))) h = absurd (omega arith)

fragment_field :
    (xs : List ℕ) (end : List Bool)
    → length xs ≡ 4
    → length end ≡ 8
    → length (bytes_to_bits (take 4 xs) ++ end) ≡ 40
fragment_field xs end four eight =
    rw (take-all 4 xs four)
      (omega (arith, length-append (bytes_to_bits xs) end, length-bytes_to_bits xs))

length-build_embed :
    (emb : List (List ℕ)) (pos : ℕ) → IsFragments emb → pos < 6 → length (build_embed emb pos) ≡ 48
unfolding build_embed
length-build_embed emb zero four h = refl
length-build_embed emb (suc zero) four h = omega (
  arith,
  fragment_field (get_or emb 0 []) (drop 8 (get_or emb_headers 0 [])) (four 0 (omega arith)) refl,
)
length-build_embed emb (suc (suc zero)) four h = omega (
  arith,
  fragment_field (get_or emb 1 []) (drop 8 (get_or emb_headers 1 [])) (four 1 (omega arith)) refl,
)
length-build_embed emb (suc (suc (suc zero))) four h = omega (
  arith,
  fragment_field (get_or emb 2 []) (drop 8 (get_or emb_headers 2 [])) (four 2 (omega arith)) refl,
)
length-build_embed emb (suc (suc (suc (suc zero)))) four h = omega (
  arith,
  fragment_field (get_or emb 3 []) (drop 8 (get_or emb_headers 3 [])) (four 3 (omega arith)) refl,
)
length-build_embed emb (suc (suc (suc (suc (suc zero))))) four h = refl
length-build_embed emb (suc (suc (suc (suc (suc (suc pos)))))) four h = absurd (omega arith)

length-unpack_unit : (unit : List ℕ) → length (unpack_unit unit) ≡ 49
unfolding unpack_unit
length-unpack_unit unit = length-scatter _ _ (replicate 49 false)

-- The three frames in a burst that carries a CC-CC payload are the frames of that payload, at each
-- of the six positions and for the embedded link control of every word.
pub extract_ambe-cc_voice_payload :
    (lc : List ℕ) (pos : ℕ) (ambe21 : List ℕ)
    → pos < 6
    → extract_ambe (cc_voice_payload (encode_emblc lc) pos ambe21) ≡ unpack21 ambe21
unfolding cc_voice_payload unpack21 unpack_units
extract_ambe-cc_voice_payload lc pos ambe21 h =
    extract_ambe-voice_burst _ _ _ _ (length-ambe_49_to_72 _) (length-ambe_49_to_72 _)
      (length-ambe_49_to_72 _)
      (length-build_embed (encode_emblc lc) pos (encode_emblc-IsFragments lc) h)
    ∙ rw
        (
          ambe_72_to_49-ambe_49_to_72 (unpack_unit ambe21) (length-unpack_unit ambe21),
          ambe_72_to_49-ambe_49_to_72 (unpack_unit (drop 7 ambe21))
              (length-unpack_unit (drop 7 ambe21)),
          ambe_72_to_49-ambe_49_to_72 (unpack_unit (drop 7 (drop 7 ambe21)))
              (length-unpack_unit (drop 7 (drop 7 ambe21))),
        )
        refl

pub length-cc_voice_payload :
    (lc : List ℕ) (pos : ℕ) (ambe21 : List ℕ)
    → pos < 6
    → length (cc_voice_payload (encode_emblc lc) pos ambe21) ≡ 33
unfolding cc_voice_payload voice_burst
length-cc_voice_payload lc pos ambe21 h =
    let a1 = ambe_49_to_72 (get_or (unpack21 ambe21) 0 []) in
    let a2 = ambe_49_to_72 (get_or (unpack21 ambe21) 1 []) in
    let a3 = ambe_49_to_72 (get_or (unpack21 ambe21) 2 []) in
    let embed = build_embed (encode_emblc lc) pos in
    let fields =
      laid_out-fields a1 a2 a3 embed (length-ambe_49_to_72 _) (length-ambe_49_to_72 _)
        (length-ambe_49_to_72 _)
        (length-build_embed (encode_emblc lc) pos (encode_emblc-IsFragments lc) h) in
    length-bits_to_bytes (laid_out a1 a2 a3 embed) ∙ ap (λ n. (n + 7) / 8) fields.0

pub length-pack21-extract_ambe :
    (payload33 : List ℕ) → length (pack21 (extract_ambe payload33)) ≡ 21
unfolding pack21 extract_ambe
length-pack21-extract_ambe payload33 =
    let burst = bytes_to_bits (take 33 payload33) in
    length_three (ambe_72_to_49 (take 72 burst))
      (ambe_72_to_49 (take 36 (drop 72 burst) ++ take 36 (drop 156 burst)))
      (ambe_72_to_49 (take 72 (drop 192 burst)))
  where
    length_three :
        (a b c : List Bool) → length (pack_unit a ++ (pack_unit b ++ (pack_unit c ++ []))) ≡ 21
    length_three a b c = omega (
      arith,
      length-append (pack_unit a) (pack_unit b ++ (pack_unit c ++ [])),
      length-append (pack_unit b) (pack_unit c ++ []),
      length-append (pack_unit c) [],
      length-pack_unit a,
      length-pack_unit b,
      length-pack_unit c,
    )

-- A voice payload of CC-CC that goes over OpenBridge and back into CC-CC arrives byte for byte: the
-- payload has 21 bytes, and the last seven bits of each of its three units are clear.
pub voice_transparent :
    (lc : List ℕ) (pos : ℕ) (ambe21 : List ℕ)
    → pos < 6
    → length ambe21 ≡ 21
    → IsBytes ambe21
    → get_or ambe21 6 0 % 128 ≡ 0
    → get_or ambe21 13 0 % 128 ≡ 0
    → get_or ambe21 20 0 % 128 ≡ 0
    → pack21 (extract_ambe (cc_voice_payload (encode_emblc lc) pos ambe21)) ≡ ambe21
voice_transparent lc pos ambe21 h n bytes p q r =
    rw (extract_ambe-cc_voice_payload lc pos ambe21 h) (pack21-unpack21 ambe21 n bytes p q r)
