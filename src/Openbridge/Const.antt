-- ===== src/Openbridge/Const.antt =====
-- openbridge/obp_const.h: the layout of a DMRD frame and its flags byte.
use cc2obp.Common.{ℕ, List, [], ◌∷◌}

abbrev pub dmrd_body_len : ℕ
dmrd_body_len = 53

abbrev pub hmac_len : ℕ
hmac_len = 20

abbrev pub dmrd_pkt_len : ℕ
dmrd_pkt_len = 73

abbrev pub src_off : ℕ
src_off = 5

abbrev pub dst_off : ℕ
dst_off = 8

abbrev pub netid_off : ℕ
netid_off = 11

abbrev pub flags_off : ℕ
flags_off = 15

abbrev pub stream_off : ℕ
stream_off = 16

abbrev pub payload_off : ℕ
payload_off = 20

abbrev pub flag_slot2 : ℕ
flag_slot2 = 0x80

abbrev pub flag_call_unit : ℕ
flag_call_unit = 0x40

abbrev pub frametype_mask : ℕ
frametype_mask = 0x30

abbrev pub frametype_voice : ℕ
frametype_voice = 0

abbrev pub frametype_voicesync : ℕ
frametype_voicesync = 0x10

abbrev pub frametype_datasync : ℕ
frametype_datasync = 0x20

abbrev pub dtype_mask : ℕ
dtype_mask = 0x0F

abbrev pub slt_vhead : ℕ
slt_vhead = 1

abbrev pub slt_vterm : ℕ
slt_vterm = 2

abbrev pub vcsbk_mask : ℕ
vcsbk_mask = 0x23

-- "DMRD".
abbrev pub dmrd_tag : List ℕ
dmrd_tag = b'D' ∷ b'M' ∷ b'R' ∷ b'D' ∷ []
