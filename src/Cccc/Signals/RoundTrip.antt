-- ===== src/Cccc/Signals/RoundTrip.antt =====
-- cccc/cccc_link.c: the call signal that `build_bon` writes is the one that `parse_bon` reads.
use cc2obp.Common.{
  ℕ, ◌<◌, ◌≡◌, refl, sym, ap, ◌∙◌, false, some, List, [], ◌∷◌, ◌++◌, arith, length-append,
  append_assoc, All, All-append,
}
use cc2obp.Cccc.Const.{codes}
use cc2obp.Cccc.Text.{is_space, scan_word, strtoul, starts_with, strstr, print_dec, print_int}
use cc2obp.Cccc.Text.Digits.{
  print_dec_ne, print_dec-IsDigit, print_int-IsDigit, length-print_dec, length-print_int,
  length-print_int_two,
}
use cc2obp.Cccc.Text.Words.{scan_word-piece, digits-no-spaces}
use cc2obp.Cccc.Signals.{build_bon, is_line_end, parse_bee, parse_bon}
use cc2obp.Cccc.Signals.Pieces.{
  bon_pieces, joined, joined-append, strstr_past-All, digits-no-b, text-no-b, not_empty,
  parse_bee_pieces, radio_read, int_read,
}

module _ (lid user radio peer src_lid tgid call_type : ℕ) (lid_int : lid < 2147483648)
    (user_int : user < 2147483648) (radio_int : radio < 4294967296) (peer_int : peer < 4294967296)
    (src_two : src_lid < 100) (tgid_int : tgid < 2147483648)
    (letter : is_line_end call_type ≡ false) where
  abbrev pub bon_line : List ℕ
  bon_line = joined (bon_pieces lid user radio peer src_lid tgid) (call_type ∷ [])

  abbrev bee_text : List ℕ
  bee_text = print_int 2 src_lid ++ (print_int 3 tgid ++ call_type ∷ [])

  pub found : strstr (codes "Bee=") bon_line ≡ some (codes "Bee=B01" ++ bee_text)
  unfolding strstr starts_with
  found =
      strstr_past-All b'B' (codes "ee=")
        (codes "01"
          ∷ print_int 2 lid
          ∷ print_int 3 user
          ∷ (b' ' ∷ [])
          ∷ print_dec radio
          ∷ (b' ' ∷ [])
          ∷ print_dec peer
          ∷ codes " 0.0 radioid="
          ∷ print_dec radio
          ∷ codes " peerid="
          ∷ print_dec peer
          ∷ (b' ' ∷ [])
          ∷ [])
        (codes "Bee=B01" ++ bee_text)
        (
          text-no-b (codes "01") refl,
          (
            digits-no-b (print_int 2 lid) (print_int-IsDigit 2 lid lid_int),
            (
              digits-no-b (print_int 3 user) (print_int-IsDigit 3 user user_int),
              (
                text-no-b (codes " ") refl,
                (
                  digits-no-b (print_dec radio) (print_dec-IsDigit radio),
                  (
                    text-no-b (codes " ") refl,
                    (
                      digits-no-b (print_dec peer) (print_dec-IsDigit peer),
                      (
                        text-no-b (codes " 0.0 radioid=") refl,
                        (
                          digits-no-b (print_dec radio) (print_dec-IsDigit radio),
                          (
                            text-no-b (codes " peerid=") refl,
                            (
                              digits-no-b (print_dec peer) (print_dec-IsDigit peer),
                              (text-no-b (codes " ") refl, tt),
                            ),
                          ),
                        ),
                      ),
                    ),
                  ),
                ),
              ),
            ),
          ),
        )

  -- What stands behind the first word, behind the second, and behind the third.
  abbrev behind_second : List ℕ
  behind_second =
      b' '
      ∷ (print_dec peer
          ++ (codes " 0.0 radioid="
              ++ (print_dec radio
                  ++ (codes " peerid=" ++ (print_dec peer ++ (codes " Bee=B01" ++ bee_text))))))

  abbrev head_word : List ℕ
  head_word = codes "B01" ++ (print_int 2 lid ++ print_int 3 user)

  first_word : scan_word 63 bon_line ≡ (head_word, b' ' ∷ (print_dec radio ++ behind_second))
  first_word =
      ap (λ t. scan_word 63 (codes "B01" ++ t))
        (sym (
          append_assoc (print_int 2 lid) (print_int 3 user)
            (b' ' ∷ (print_dec radio ++ behind_second))))
      ∙ (scan_word-piece 63 head_word (print_dec radio ++ behind_second) no_spaces
          (λ e. ground arith)
          (rw (length-append (print_int 2 lid) (print_int 3 user)) (
            let a = length-print_int 2 lid lid_int in
            let b = length-print_int 3 user user_int in omega arith))).0
    where
      no_spaces : All (λ c. is_space c ≡ false) head_word
      no_spaces = (
        refl,
        (
          refl,
          (
            refl,
            All-append (λ c. is_space c ≡ false) (print_int 2 lid) (print_int 3 user)
                (digits-no-spaces (print_int 2 lid) (print_int-IsDigit 2 lid lid_int))
                (digits-no-spaces (print_int 3 user) (print_int-IsDigit 3 user user_int)),
          ),
        ),
      )

  second_word :
      scan_word 31 (b' ' ∷ (print_dec radio ++ behind_second)) ≡ (print_dec radio, behind_second)
  second_word =
      (scan_word-piece 31 (print_dec radio) _
        (digits-no-spaces (print_dec radio) (print_dec-IsDigit radio)) (print_dec_ne radio)
        (let a = length-print_dec radio in omega arith)).1

  third_word : (scan_word 31 behind_second).0 ≡ print_dec peer
  third_word =
      ap (λ r. r.0)
        (scan_word-piece 31 (print_dec peer) _
          (digits-no-spaces (print_dec peer) (print_dec-IsDigit peer)) (print_dec_ne peer)
          (let a = length-print_dec peer in omega arith)).1

  pub parse_bon_line :
      parse_bon bon_line
      ≡ some (record {
        radio = radio;
        peer = peer;
        src_lid = src_lid;
        tgid = tgid;
        call_type = call_type;
      })
  unfolding parse_bon starts_with
  parse_bon_line =
      rw (found, parse_bon)
        (rw first_word (
          rw second_word (
            rw third_word (
              rw (not_empty (print_dec radio) (print_dec_ne radio))
                (rw (not_empty (print_dec peer) (print_dec_ne peer)) (parsed))))))
    where
      parsed :
          parse_bee (strtoul 10 (print_dec radio)) (strtoul 10 (print_dec peer)) bee_text
          ≡ some (record {
            radio = radio;
            peer = peer;
            src_lid = src_lid;
            tgid = tgid;
            call_type = call_type;
          })
      parsed = rw (radio_read radio radio_int) (
          rw (radio_read peer peer_int) (
            parse_bee_pieces radio peer call_type (print_int 2 src_lid) (print_int 3 tgid)
              (length-print_int_two src_lid src_two)
              (let a = length-print_int 3 tgid tgid_int in omega arith) letter
            ∙ rw (int_read 2 src_lid (omega arith)) (rw (int_read 3 tgid tgid_int) refl)))

  pub build_bon-line : build_bon lid user radio peer src_lid tgid call_type ≡ bon_line ++ b'\n' ∷ []
  unfolding build_bon
  build_bon-line =
      joined-append (bon_pieces lid user radio peer src_lid tgid) (call_type ∷ []) (b'\n' ∷ [])
