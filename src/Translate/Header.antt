-- ===== src/Translate/Header.antt =====
-- translate.c: what a receiver reads in the header and the terminator of a call.
use cc2obp.Common.{
  ℕ, ◌+◌, ◌/◌, ◌%◌, ◌≡◌, refl, ap, ◌∙◌, Bool, true, false, List, [], ◌++◌, arith, if◌then◌else◌,
  length, take, drop, replicate, eq-tabulate, length-scatter,
}
use cc2obp.Dmr.Bits.{bytes_to_bits, IsBytes, bytes_to_bits-bits_to_bytes, length-bits_to_bytes}
use cc2obp.Dmr.Const.{bs_data_sync, slot_type_vhead, slot_type_vterm}
use cc2obp.Dmr.Bptc.{bptc_encode_lc, bptc_decode_full_lc, interleave_19696}
use cc2obp.Dmr.Bptc.Decode.{bptc_decode_full_lc-bptc_encode_lc}
use cc2obp.Wire.{wr24, rd24, rd24-wr24}
use cc2obp.Translate.Burst.{build_head_term_payload}
use cc2obp.Translate.Incoming.{call_lc}

-- The bits of the full link control in a burst of a header or a terminator.
abbrev pub full_lc_of : List ℕ → List Bool
full_lc_of payload33 =
    let burst = bytes_to_bits payload33 in take 98 burst ++ take 98 (drop 166 burst)

length-bptc_encode_lc : (lc : List ℕ) (is_term : Bool) → length (bptc_encode_lc lc is_term) ≡ 196
unfolding bptc_encode_lc interleave_19696
length-bptc_encode_lc lc is_term = length-scatter _ _ (replicate 196 false)

pub length-call_lc : (tgid rf_src : ℕ) → length (call_lc tgid rf_src) ≡ 9
unfolding call_lc wr24
length-call_lc tgid rf_src = refl

call_lc-IsBytes : (tgid rf_src : ℕ) → IsBytes (call_lc tgid rf_src)
unfolding call_lc wr24
call_lc-IsBytes tgid rf_src = (
  omega arith,
  (
    omega arith,
    (
      omega arith,
      (omega arith, (omega arith, (omega arith, (omega arith, (omega arith, (omega arith, tt)))))),
    ),
  ),
)

-- The bits of a header burst or a terminator burst.
abbrev head_bits : List Bool → List Bool → List Bool
head_bits full_lc slot_type =
    take 98 full_lc
    ++ (take 10 slot_type
        ++ (bs_data_sync ++ (take 10 (drop 10 slot_type) ++ take 98 (drop 98 full_lc))))

head_bits-fields :
    (full_lc slot_type : List Bool)
    → length full_lc ≡ 196
    → length slot_type ≡ 20
    → (length (head_bits full_lc slot_type) ≡ 264)
      × (take 98 (head_bits full_lc slot_type) ++ take 98 (drop 166 (head_bits full_lc slot_type))
          ≡ full_lc)
      × (take 48 (drop 108 (head_bits full_lc slot_type)) ≡ bs_data_sync)
head_bits-fields full_lc slot_type h k =
    rw (eq-tabulate 196 full_lc false h, eq-tabulate 20 slot_type false k) (refl, refl, refl)

abbrev slot_type_of : Bool → List Bool
slot_type_of is_term = if is_term then slot_type_vterm else slot_type_vhead

length-slot_type_of : (is_term : Bool) → length (slot_type_of is_term) ≡ 20
length-slot_type_of true = refl
length-slot_type_of false = refl

module _ (lc : List ℕ) (is_term : Bool) where
  abbrev bits_of : List Bool
  bits_of = head_bits (bptc_encode_lc lc is_term) (slot_type_of is_term)

  head_fields :
      (length bits_of ≡ 264)
      × (take 98 bits_of ++ take 98 (drop 166 bits_of) ≡ bptc_encode_lc lc is_term)
      × (take 48 (drop 108 bits_of) ≡ bs_data_sync)
  head_fields =
      head_bits-fields (bptc_encode_lc lc is_term) (slot_type_of is_term)
        (length-bptc_encode_lc lc is_term) (length-slot_type_of is_term)

  payload_bits : bytes_to_bits (build_head_term_payload lc is_term) ≡ bits_of
  unfolding build_head_term_payload
  payload_bits = bytes_to_bits-bits_to_bytes 33 bits_of head_fields.0

  pub length-payload : length (build_head_term_payload lc is_term) ≡ 33
  unfolding build_head_term_payload
  length-payload = length-bits_to_bytes bits_of ∙ ap (λ n. (n + 7) / 8) head_fields.0

  decoded :
      length lc ≡ 9
      → IsBytes lc
      → bptc_decode_full_lc (full_lc_of (build_head_term_payload lc is_term)) ≡ lc
  decoded nine bytes =
      ap (λ t. bptc_decode_full_lc (take 98 t ++ take 98 (drop 166 t))) payload_bits
      ∙ ap bptc_decode_full_lc head_fields.1
      ∙ bptc_decode_full_lc-bptc_encode_lc lc is_term nine bytes

rd24-call_lc_tgid : (tgid rf_src : ℕ) → rd24 (drop 3 (call_lc tgid rf_src)) ≡ tgid % 16777216
unfolding call_lc wr24
rd24-call_lc_tgid tgid rf_src = unfold wr24 in rd24-wr24 tgid (wr24 rf_src)

rd24-call_lc_src : (tgid rf_src : ℕ) → rd24 (drop 6 (call_lc tgid rf_src)) ≡ rf_src % 16777216
unfolding call_lc wr24
rd24-call_lc_src tgid rf_src = rd24-wr24 rf_src []

-- A receiver that decodes the header or the terminator of a call gets the link control of the call,
-- and in it the talkgroup and the source, each modulo 2 ^ 24; the burst carries the data sync.
pub build_head_term_payload-call_lc :
    (tgid rf_src : ℕ) (is_term : Bool)
    → let payload33 = build_head_term_payload (call_lc tgid rf_src) is_term in
      let got = bptc_decode_full_lc (full_lc_of payload33) in
      (got ≡ call_lc tgid rf_src)
      × (rd24 (drop 3 got) ≡ tgid % 16777216)
      × (rd24 (drop 6 got) ≡ rf_src % 16777216)
      × (length payload33 ≡ 33)
      × (take 48 (drop 108 (bytes_to_bits payload33)) ≡ bs_data_sync)
build_head_term_payload-call_lc tgid rf_src is_term =
    let got =
      decoded (call_lc tgid rf_src) is_term (length-call_lc tgid rf_src)
        (call_lc-IsBytes tgid rf_src) in
    (
      got,
      ap (λ t. rd24 (drop 3 t)) got ∙ rd24-call_lc_tgid tgid rf_src,
      ap (λ t. rd24 (drop 6 t)) got ∙ rd24-call_lc_src tgid rf_src,
      length-payload (call_lc tgid rf_src) is_term,
      ap (λ t. take 48 (drop 108 t)) (payload_bits (call_lc tgid rf_src) is_term)
          ∙ (head_fields (call_lc tgid rf_src) is_term).2,
    )
