-- ===== src/Examples/Codes.antt =====
-- The codes of the DMR layer on concrete words.
use cc2obp.Common.{
  ℕ, ◌%◌, ◌≤◌, ◌≡◌, refl, ap, ◌≢◌, Bool, true, false, List, [], ◌∷◌, ◌++◌, arith, ltb, length,
  get_or, set, take, drop, replicate, tabulate,
}
use cc2obp.Dmr.Bits.{bytes_to_bits}
use cc2obp.Dmr.Hamming.{ham_15113, ham_1393, ham_16114}
use cc2obp.Dmr.Hamming.Distance.{distance, codeword, ham-distance}
use cc2obp.Dmr.Rs129.{log_mult}
use cc2obp.Dmr.Rs129.Field.{IsProduct, log_mult-power}
use cc2obp.Dmr.Bptc.{bptc_encode_lc, bptc_decode_full_lc, bptc_encode_19696}
use cc2obp.Dmr.Bptc.Decode.{
  RowsHold, ColumnsHold, bptc_decode_full_lc-bptc_encode_lc, bptc_encode_19696_product,
}
use cc2obp.Dmr.Emblc.{encode_emblc}
use cc2obp.Dmr.Emblc.Matrix.{
  matrix_of, received_cells, EmbRowsHold, EmbColumnsHold, matrix_of_product,
  received_cells-encode_emblc,
}
use cc2obp.Dmr.Ambe.{ambe_49_to_72, ambe_72_to_49}
use cc2obp.Dmr.Ambe.RoundTrip.{ambe_72_to_49-ambe_49_to_72}
use cc2obp.Dmr.Const.{bs_data_sync}
use cc2obp.Cccc.Ambe.{pack21, unpack21}
use cc2obp.Cccc.Ambe.RoundTrip.{unpack21-pack21, pack21-unpack21}
use cc2obp.Wire.{rd24}
use cc2obp.Translate.Burst.{build_head_term_payload, extract_ambe}
use cc2obp.Translate.Incoming.{call_lc, cc_voice_payload}
use cc2obp.Translate.Voice.{voice_transparent}
use cc2obp.Translate.Header.{full_lc_of, build_head_term_payload-call_lc}
use cc2obp.Examples.Data.{speech, speech-IsBytes, are_bytes-All}

abbrev word : List ℕ
word = 0 ∷ 0 ∷ 0 ∷ 0 ∷ 12 ∷ 28 ∷ 48 ∷ 57 ∷ 255 ∷ []

abbrev sound : List Bool
sound = tabulate 49 (λ i. ltb (i % 3) 2)

abbrev silence : List Bool
silence = replicate 49 false

ambe_72_to_49-ambe_49_to_72_example : ambe_72_to_49 (ambe_49_to_72 sound) ≡ sound
ambe_72_to_49-ambe_49_to_72_example = ambe_72_to_49-ambe_49_to_72 sound refl

unpack21-pack21_example :
    unpack21 (pack21 (sound ∷ silence ∷ sound ∷ [])) ≡ sound ∷ silence ∷ sound ∷ []
unpack21-pack21_example = unpack21-pack21 sound silence sound refl refl refl

pack21-unpack21_example : pack21 (unpack21 speech) ≡ speech
pack21-unpack21_example = pack21-unpack21 speech refl speech-IsBytes refl refl refl

voice_transparent_example :
    pack21 (extract_ambe (cc_voice_payload (encode_emblc word) 3 speech)) ≡ speech
voice_transparent_example =
    voice_transparent word 3 speech (omega arith) refl speech-IsBytes refl refl refl

bptc_decode_full_lc-bptc_encode_lc_example : bptc_decode_full_lc (bptc_encode_lc word true) ≡ word
bptc_decode_full_lc-bptc_encode_lc_example =
    bptc_decode_full_lc-bptc_encode_lc word true refl (are_bytes-All word refl)

bptc_encode_19696_product_example :
    RowsHold (bptc_encode_19696 (word ++ 1 ∷ 2 ∷ 3 ∷ [])) 9
    × ColumnsHold (bptc_encode_19696 (word ++ 1 ∷ 2 ∷ 3 ∷ [])) 15
bptc_encode_19696_product_example = bptc_encode_19696_product (word ++ 1 ∷ 2 ∷ 3 ∷ []) refl

matrix_of_product_example : EmbRowsHold (matrix_of word) 7 × EmbColumnsHold (matrix_of word) 16
matrix_of_product_example = matrix_of_product word refl

received_cells-encode_emblc_example :
    received_cells (encode_emblc word) ≡ set (matrix_of word) 25 false
received_cells-encode_emblc_example = received_cells-encode_emblc word refl

build_head_term_payload-call_lc_example :
    let payload33 = build_head_term_payload (call_lc 3100 1234567) true in
    let got = bptc_decode_full_lc (full_lc_of payload33) in
    (got ≡ call_lc 3100 1234567)
    × (rd24 (drop 3 got) ≡ 3100)
    × (rd24 (drop 6 got) ≡ 1234567)
    × (length payload33 ≡ 33)
    × (take 48 (drop 108 (bytes_to_bits payload33)) ≡ bs_data_sync)
build_head_term_payload-call_lc_example = build_head_term_payload-call_lc 3100 1234567 true

abbrev eleven_off : List Bool
eleven_off = replicate 11 false

abbrev eleven_on : List Bool
eleven_on = true ∷ replicate 10 false

apart : {xs ys : List Bool} → get_or xs 0 false ≡ false → get_or ys 0 false ≡ true → xs ≢ ys
apart p q e = let r = ap (λ t. get_or t 0 false) e in ground arith

ham-distance_example :
    (3 ≤ distance (codeword ham_15113 eleven_off) (codeword ham_15113 eleven_on))
    × (4 ≤ distance (codeword ham_16114 eleven_off) (codeword ham_16114 eleven_on))
    × (3
        ≤ distance
            (codeword ham_1393 (replicate 9 false))
            (codeword ham_1393 (true ∷ replicate 8 false)))
ham-distance_example =
    ham-distance eleven_off eleven_on (replicate 9 false) (true ∷ replicate 8 false) refl refl
      (apart refl refl) refl refl (apart refl refl)

log_mult-power_example : IsProduct 7 200 (log_mult 7 200)
log_mult-power_example = log_mult-power 7 200 (omega arith) (omega arith)
