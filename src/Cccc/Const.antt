-- ===== src/Cccc/Const.antt =====
-- cccc/cccc_const.h: the ports, the layout of the packets and the fixed texts of CC-CC, and the
-- delays of cccc/cccc_link.c. A time is a number of nanoseconds.
use Prim.Native.Char.{code}
use Prim.Native.String.{String}
use cc2obp.Common.{ℕ, List, [], ◌∷◌}

-- The character codes of an ASCII text.
abbrev pub codes : String → List ℕ
codes String.[] = []
codes (String.◌∷◌ c s) = code c ∷ codes s

abbrev pub rtp_hdr_len : ℕ
rtp_hdr_len = 12

abbrev pub rtp_pkt_len : ℕ
rtp_pkt_len = 33

abbrev pub rtp_vpxcc : ℕ
rtp_vpxcc = 128

abbrev pub rtp_pt_voice : ℕ
rtp_pt_voice = 94

abbrev pub rtp_marker_bit : ℕ
rtp_marker_bit = 128

abbrev pub keepalive_len : ℕ
keepalive_len = 16

abbrev pub rtp_pt_keepalive : ℕ
rtp_pt_keepalive = 127

abbrev pub keepalive_payload : ℕ
keepalive_payload = 100

abbrev pub question_nfields : ℕ
question_nfields = 8

abbrev pub answer_nfields : ℕ
answer_nfields = 7

abbrev pub conntype_server_inbound : List ℕ
conntype_server_inbound = codes "Server Inbound"

abbrev pub codec_ambe : List ℕ
codec_ambe = codes "AMBE"

abbrev pub ms_per_frame : ℕ
ms_per_frame = 60

abbrev pub reconnect_delay : ℕ
reconnect_delay = 5000000000

abbrev pub pending_timeout : ℕ
pending_timeout = 5000000000

abbrev pub max_pending : ℕ
max_pending = 32

abbrev pub rxbuf_cap : ℕ
rxbuf_cap = 2048
