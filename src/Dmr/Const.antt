-- ===== src/Dmr/Const.antt =====
-- dmr/dmr_const.c: the constant bit fields of a burst.
use cc2obp.Common.{ℕ, Bool, true, false, List, [], ◌∷◌}

-- 0x75 5F D7 DF 75 F7
abbrev pub bs_voice_sync : List Bool
bs_voice_sync =
    false ∷ true ∷ true ∷ true ∷ false ∷ true ∷ false ∷ true ∷ false ∷ true ∷ false ∷ true ∷ true
    ∷ true ∷ true ∷ true ∷ true ∷ true ∷ false ∷ true ∷ false ∷ true ∷ true ∷ true ∷ true ∷ true
    ∷ false ∷ true ∷ true ∷ true ∷ true ∷ true ∷ false ∷ true ∷ true ∷ true ∷ false ∷ true ∷ false
    ∷ true ∷ true ∷ true ∷ true ∷ true ∷ false ∷ true ∷ true ∷ true ∷ []

-- 0xDF F5 7D 75 DF 5D
abbrev pub bs_data_sync : List Bool
bs_data_sync =
    true ∷ true ∷ false ∷ true ∷ true ∷ true ∷ true ∷ true ∷ true ∷ true ∷ true ∷ true ∷ false
    ∷ true ∷ false ∷ true ∷ false ∷ true ∷ true ∷ true ∷ true ∷ true ∷ false ∷ true ∷ false ∷ true
    ∷ true ∷ true ∷ false ∷ true ∷ false ∷ true ∷ true ∷ true ∷ false ∷ true ∷ true ∷ true ∷ true
    ∷ true ∷ false ∷ true ∷ false ∷ true ∷ true ∷ true ∷ false ∷ true ∷ []

-- The EMB headers of bursts B to F.
abbrev pub emb_headers : List (List Bool)
emb_headers =
    (false ∷ false ∷ false ∷ true ∷ false ∷ false ∷ true ∷ true ∷ true ∷ false ∷ false ∷ true
      ∷ false ∷ false ∷ false ∷ true ∷ [])
    ∷ (false ∷ false ∷ false ∷ true ∷ false ∷ true ∷ true ∷ true ∷ false ∷ true ∷ true ∷ true
        ∷ false ∷ true ∷ false ∷ false ∷ [])
    ∷ (false ∷ false ∷ false ∷ true ∷ false ∷ true ∷ true ∷ true ∷ false ∷ true ∷ true ∷ true
        ∷ false ∷ true ∷ false ∷ false ∷ [])
    ∷ (false ∷ false ∷ false ∷ true ∷ false ∷ true ∷ false ∷ true ∷ false ∷ false ∷ false ∷ false
        ∷ false ∷ true ∷ true ∷ true ∷ [])
    ∷ (false ∷ false ∷ false ∷ true ∷ false ∷ false ∷ false ∷ true ∷ true ∷ true ∷ true ∷ false
        ∷ false ∷ false ∷ true ∷ false ∷ [])
    ∷ []

abbrev pub slot_type_vhead : List Bool
slot_type_vhead =
    false ∷ false ∷ false ∷ true ∷ false ∷ false ∷ false ∷ true ∷ true ∷ false ∷ true ∷ true ∷ true
    ∷ false ∷ false ∷ false ∷ true ∷ true ∷ false ∷ false ∷ []

abbrev pub slot_type_vterm : List Bool
slot_type_vterm =
    false ∷ false ∷ false ∷ true ∷ false ∷ false ∷ true ∷ false ∷ true ∷ false ∷ true ∷ false
    ∷ false ∷ true ∷ false ∷ true ∷ true ∷ false ∷ false ∷ true ∷ []

abbrev pub lc_opt : List ℕ
lc_opt = 0 ∷ 0 ∷ 0 ∷ []
