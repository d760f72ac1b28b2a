-- ===== src/Translate/Burst.antt =====
-- translate.c: the 33-byte bursts.
use cc2obp.Common.{
  ℕ, ◌-◌, Bool, false, List, [], ◌∷◌, ◌++◌, leb, ◌==◌, if◌then◌else◌, get_or, take, drop, replicate,
}
use cc2obp.Dmr.Bits.{bits_to_bytes, bytes_to_bits}
use cc2obp.Dmr.Const.{bs_voice_sync, bs_data_sync, emb_headers, slot_type_vhead, slot_type_vterm}
use cc2obp.Dmr.Bptc.{bptc_encode_lc}
use cc2obp.Dmr.Ambe.{ambe_72_to_49}

-- The link control word of a voice header or terminator.
unfoldable pub build_head_term_payload : List ℕ → Bool → List ℕ
build_head_term_payload lc is_term =
    let full_lc = bptc_encode_lc lc is_term in
    let slot_type = if is_term then slot_type_vterm else slot_type_vhead in
    bits_to_bytes (
      take 98 full_lc
      ++ (take 10 slot_type
          ++ (bs_data_sync ++ (take 10 (drop 10 slot_type) ++ take 98 (drop 98 full_lc)))))

-- Sync for position 0, EMB header and fragment for 1 to 4, an empty fragment for 5.
unfoldable pub build_embed : List (List ℕ) → ℕ → List Bool
build_embed emb pos =
    let header = get_or emb_headers (pos - 1) [] in
    if pos == 0
    then bs_voice_sync
    else take 8 header
      ++ ((if leb pos 4
            then bytes_to_bits (take 4 (get_or emb (pos - 1) []))
            else replicate 32 false)
          ++ take 8 (drop 8 header))

-- Three AMBE frames of 72 bits around the 48 bits of the middle field.
unfoldable pub voice_burst : List Bool → List Bool → List Bool → List Bool → List ℕ
voice_burst a1 a2 a3 embed =
    bits_to_bytes
      (take 72 a1 ++ (take 36 a2 ++ (take 48 embed ++ (take 36 (drop 36 a2) ++ take 72 a3))))

-- The three AMBE frames of a burst.
unfoldable pub extract_ambe : List ℕ → List (List Bool)
extract_ambe payload33 =
    let burst = bytes_to_bits (take 33 payload33) in
    ambe_72_to_49 (take 72 burst)
    ∷ ambe_72_to_49 (take 36 (drop 72 burst) ++ take 36 (drop 156 burst))
    ∷ ambe_72_to_49 (take 72 (drop 192 burst))
    ∷ []
