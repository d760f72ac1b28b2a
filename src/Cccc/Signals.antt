-- ===== src/Cccc/Signals.antt =====
-- cccc/cccc_link.c: the texts of the handshake and of the call signals.
pub mod Pieces
pub mod RoundTrip
use cc2obp.Common.{
  ℕ, ◌-◌, ◌/◌, Bool, true, false, ◌||◌, Option, none, some, List, [], ◌∷◌, ltb, leb, ◌==◌,
  if◌then◌else◌, length, get_or, take, drop, concat,
}
use cc2obp.Cccc.Const.{codes, conntype_server_inbound, codec_ambe, ms_per_frame}
use cc2obp.Cccc.Text.{
  scan_word, strtoul, atoi, scan_int, starts_with, strstr, print_dec, print_hex, print_int,
}

-- Each of these is shorter than the buffer that `snprintf` is given.
unfoldable pub build_question : ℕ → ℕ → List ℕ → List ℕ → List ℕ → List ℕ → List ℕ → List ℕ
unfolding print_hex print_int
build_question sync_source lid channel sitename mac coderev os = concat (
    print_hex sync_source
    ∷ (b'\n' ∷ [])
    ∷ print_int 0 lid
    ∷ (b' ' ∷ b'\n' ∷ [])
    ∷ channel
    ∷ (b'\n' ∷ [])
    ∷ sitename
    ∷ (b'\n' ∷ [])
    ∷ conntype_server_inbound
    ∷ (b'\n' ∷ [])
    ∷ mac
    ∷ (b'\n' ∷ [])
    ∷ coderev
    ∷ (b'\n' ∷ [])
    ∷ os
    ∷ (b'\n' ∷ [])
    ∷ [])

-- The time of day, seconds and microseconds, is given as it is printed.
unfoldable pub build_answer : List ℕ → List ℕ → List ℕ → List ℕ → List ℕ
unfolding print_int
build_answer time_of_day sitename os version = concat (
    codec_ambe
    ∷ (b'\n' ∷ [])
    ∷ print_int 0 ms_per_frame
    ∷ (b'\n' ∷ [])
    ∷ time_of_day
    ∷ (b'\n' ∷ [])
    ∷ version
    ∷ (b'\n' ∷ [])
    ∷ sitename
    ∷ (b'\n' ∷ [])
    ∷ (b'0' ∷ b'\n' ∷ [])
    ∷ os
    ∷ (b'\n' ∷ [])
    ∷ [])

unfoldable pub build_bon : ℕ → ℕ → ℕ → ℕ → ℕ → ℕ → ℕ → List ℕ
unfolding print_int print_dec
build_bon lid user radio peer src_lid tgid call_type = concat (
    codes "B01"
    ∷ print_int 2 lid
    ∷ print_int 3 user
    ∷ (b' ' ∷ [])
    ∷ print_dec radio
    ∷ (b' ' ∷ [])
    ∷ print_dec peer
    ∷ codes " 0.0 radioid="
    ∷ print_dec radio
    ∷ codes " peerid="
    ∷ print_dec peer
    ∷ codes " Bee=B01"
    ∷ print_int 2 src_lid
    ∷ print_int 3 tgid
    ∷ (call_type ∷ b'\n' ∷ [])
    ∷ [])

-- The signal strength is a whole number of 0 or more: its one caller gives 0.
unfoldable pub build_boff : ℕ → ℕ → ℕ → ℕ → List ℕ
unfolding print_int print_dec
build_boff lid lost total rssi = concat (
    codes "B"
    ∷ print_int 2 lid
    ∷ codes "00000  LOSS="
    ∷ print_int 0 lost
    ∷ codes "/"
    ∷ print_int 0 total
    ∷ codes " RSSI="
    ∷ print_dec rssi
    ∷ (b'\n' ∷ [])
    ∷ [])

-- What `parse_bon` writes through its pointers.
pub record Bon : Type 0 where
  pub radio : ℕ
  pub peer : ℕ
  pub src_lid : ℕ
  pub tgid : ℕ
  pub call_type : ℕ

abbrev pub is_line_end : ℕ → Bool
is_line_end c = c == b'\r' || c == b'\n' || c == b' '

-- Line ends and spaces are cut off the end.
unfoldable pub trim_end : List ℕ → List ℕ
trim_end [] = []
trim_end (c ∷ cs) = keep (trim_end cs)
  where
    keep : List ℕ → List ℕ
    keep [] = if is_line_end c then [] else c ∷ []
    keep (d ∷ ds) = c ∷ d ∷ ds

abbrev pub is_empty : List ℕ → Bool
is_empty [] = true
is_empty (_ ∷ _) = false

-- The part behind `Bee=B01`: two digits, the talkgroup, and a letter.
unfoldable pub parse_bee : ℕ → ℕ → List ℕ → Option Bon
parse_bee radio peer p =
    let q = trim_end p in
    let plen = length q in
    if ltb plen 3
    then none
    else some (record {
      radio = radio;
      peer = peer;
      src_lid = atoi (take 2 q);
      tgid = atoi (take (if leb 16 (plen - 3) then 15 else plen - 3) (drop 2 p));
      call_type = get_or q (plen - 1) 0;
    })

unfoldable pub parse_bon : List ℕ → Option Bon
parse_bon line = elim (strstr (codes "Bee=") line) [
  | none ↦ none
  | some bee ↦
      let (tok0, rest0) = scan_word 63 line in
      let (tok1, rest1) = scan_word 31 rest0 in
      let (tok2, rest2) = scan_word 31 rest1 in
      let p = drop 4 bee in
      if is_empty tok0 || is_empty tok1 || is_empty tok2
      then none
      else if starts_with (codes "B01") p
      then parse_bee (strtoul 10 tok1) (strtoul 10 tok2) (drop 3 p)
      else none
]

-- The frames that were lost, of how many.
unfoldable pub parse_boff : List ℕ → Option (ℕ × ℕ)
unfolding strstr scan_int
parse_boff line = elim (strstr (codes "LOSS=") line) [
  | none ↦ none
  | some loss ↦ elim (scan_int (drop 5 loss)) [
    | none ↦ none
    | some (lost, rest) ↦
        if get_or rest 0 0 == b'/'
        then elim (scan_int (drop 1 rest)) [ none ↦ none | some (total, _) ↦ some (lost, total) ]
        else none
  ]
]
