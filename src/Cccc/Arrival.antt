-- ===== src/Cccc/Arrival.antt =====
-- cccc/cccc_link.c: a call signal from the link that sends it to the link that gets it.
use cc2obp.Common.{
  ℕ, ◌+◌, ◌≤◌, ◌<◌, ◌≡◌, refl, sym, ap, ◌∙◌, ◌≢◌, Bool, true, false, not, ◌&&◌, ◌||◌, List, [], ◌∷◌,
  ◌++◌, arith, ◌==◌, length, length-append, All, All-append,
}
use cc2obp.Cccc.Const.{codes, rxbuf_cap}
use cc2obp.Cccc.Text.{print_dec, print_int}
use cc2obp.Cccc.Text.Digits.{
  IsDigit, print_dec-IsDigit, print_int-IsDigit, length-print_dec, length-print_int,
}
use cc2obp.Cccc.Text.Words.{All-weaken}
use cc2obp.Cccc.Lines.{feed_bytes}
use cc2obp.Cccc.Lines.Chunks.{IsPlain, feed_line}
use cc2obp.Cccc.Signals.{Bon, build_bon, is_line_end}
use cc2obp.Cccc.Signals.Pieces.{bon_pieces, joined}
use cc2obp.Cccc.Signals.RoundTrip.{bon_line, found, parse_bon_line, build_bon-line}
use cc2obp.Cccc.Link.{
  CcLink, Env, Action, tcp_send, tr_bon, lst_up, ◌then_do◌, lcfg, link_on_line,
  dispatch_established_line, feed_link, cccc_send_bon,
}
use cc2obp.Cccc.Connect.{received, on_link_tcp_readable}

digits-IsPlain : (xs : List ℕ) → All IsDigit xs → All IsPlain xs
digits-IsPlain xs h = All-weaken IsDigit IsPlain xs (λ c d. ground arith) h

abbrev is_plain : List ℕ → Bool
is_plain [] = true
is_plain (c ∷ cs) = not (c == 0 || (c == b'\n' || c == b'\r')) && is_plain cs

text-IsPlain : (xs : List ℕ) → is_plain xs ≡ true → All IsPlain xs
text-IsPlain [] h = tt
text-IsPlain (c ∷ cs) h = let ih = text-IsPlain cs in (ground arith, ih (ground arith))

joined-IsPlain :
    (pieces : List (List ℕ)) (ys : List ℕ)
    → All (All IsPlain) pieces
    → All IsPlain ys
    → All IsPlain (joined pieces ys)
joined-IsPlain [] ys h k = k
joined-IsPlain (xs ∷ more) ys (h, hs) k = All-append IsPlain xs _ h (joined-IsPlain more ys hs k)

abbrev total : List (List ℕ) → ℕ
total [] = 0
total (xs ∷ more) = length xs + total more

length-joined :
    (pieces : List (List ℕ)) (ys : List ℕ) → length (joined pieces ys) ≡ total pieces + length ys
length-joined [] ys = omega arith
length-joined (xs ∷ more) ys =
    let ih = length-joined more ys in rw (length-append xs (joined more ys)) (omega arith)

line_up :
    (e : Env) (i : ℕ) (lk : CcLink) (line : List ℕ)
    → lk.state ≡ lst_up
    → link_on_line e i line lk ≡ dispatch_established_line e i line lk
unfolding link_on_line
line_up e i lk line h = ground arith

-- An established link that gets a whole line does what the line says.
line_arrives :
    (e : Env) (i : ℕ) (lk : CcLink) (line : List ℕ) (bon : Bon)
    → lk.state ≡ lst_up
    → lk.rxbuf ≡ []
    → All IsPlain line
    → length line + 2 ≤ 2047
    → dispatch_established_line e i line lk ≡ (lk, tr_bon i bon ∷ [])
    → on_link_tcp_readable e i (received (line ++ b'\n' ∷ [])) lk ≡ (lk, tr_bon i bon ∷ [])
unfolding on_link_tcp_readable feed_link
line_arrives e i lk line bon up empty plain short said =
    ap finish
      (begun ∙ feed_line rxbuf_cap on_line line false (lk, []) plain (omega arith) ∙ dispatched)
    ∙ ap (λ rx. (record lk { rxbuf = rx }, tr_bon i bon ∷ [])) (sym empty)
  where
    on_line : List ℕ → CcLink × List Action → CcLink × List Action
    on_line l st = st then_do link_on_line e i l

    finish : List ℕ × (CcLink × List Action) → CcLink × List Action
    finish st = (record (st.1.0) { rxbuf = st.0 }, st.1.1)

    begun :
        feed_bytes rxbuf_cap on_line (line ++ b'\n' ∷ []) (lk.rxbuf, (lk, []))
        ≡ feed_bytes rxbuf_cap on_line (line ++ b'\n' ∷ []) ([], (lk, []))
    begun = ap (λ rx. feed_bytes rxbuf_cap on_line (line ++ b'\n' ∷ []) (rx, (lk, []))) empty

    add : CcLink × List Action → List ℕ × (CcLink × List Action)
    add r = ([], (r.0, [] ++ r.1))

    dispatched : add (link_on_line e i line lk) ≡ ([], (lk, tr_bon i bon ∷ []))
    dispatched = ap add (line_up e i lk line up ∙ said)

-- A sender's link, and the link at the other end.
module _ (e e' : Env) (i i' : ℕ) (lk lk' : CcLink) (user radio peer src_lid tgid call_type : ℕ)
    (lid_int : (lcfg e i).cc_lid < 2147483648) (user_int : user < 2147483648)
    (radio_int : radio < 4294967296) (peer_int : peer < 4294967296) (src_two : src_lid < 100)
    (tgid_int : tgid < 2147483648) (letter : is_line_end call_type ≡ false)
    (some_letter : call_type ≢ 0) where
  abbrev line : List ℕ
  line =
      bon_line (lcfg e i).cc_lid user radio peer src_lid tgid call_type lid_int user_int radio_int
        peer_int src_two tgid_int letter

  line-IsPlain : All IsPlain line
  line-IsPlain =
      joined-IsPlain (bon_pieces (lcfg e i).cc_lid user radio peer src_lid tgid) (call_type ∷ [])
        (
          text-IsPlain (codes "B01") refl,
          (
            digits-IsPlain (print_int 2 (lcfg e i).cc_lid)
                (print_int-IsDigit 2 (lcfg e i).cc_lid lid_int),
            (
              digits-IsPlain (print_int 3 user) (print_int-IsDigit 3 user user_int),
              (
                text-IsPlain (codes " ") refl,
                (
                  digits-IsPlain (print_dec radio) (print_dec-IsDigit radio),
                  (
                    text-IsPlain (codes " ") refl,
                    (
                      digits-IsPlain (print_dec peer) (print_dec-IsDigit peer),
                      (
                        text-IsPlain (codes " 0.0 radioid=") refl,
                        (
                          digits-IsPlain (print_dec radio) (print_dec-IsDigit radio),
                          (
                            text-IsPlain (codes " peerid=") refl,
                            (
                              digits-IsPlain (print_dec peer) (print_dec-IsDigit peer),
                              (
                                text-IsPlain (codes " Bee=B01") refl,
                                (
                                  digits-IsPlain (print_int 2 src_lid)
                                      (print_int-IsDigit 2 src_lid (omega arith)),
                                  (
                                    digits-IsPlain (print_int 3 tgid)
                                        (print_int-IsDigit 3 tgid tgid_int),
                                    tt,
                                  ),
                                ),
                              ),
                            ),
                          ),
                        ),
                      ),
                    ),
                  ),
                ),
              ),
            ),
          ),
        )
        (ground arith, tt)

  line_short : length line ≤ 130
  line_short =
      let a = length-print_int 2 (lcfg e i).cc_lid lid_int in
      let b = length-print_int 3 user user_int in
      let c = length-print_dec radio in
      let d = length-print_dec peer in
      let f = length-print_int 2 src_lid (omega arith) in
      let g = length-print_int 3 tgid tgid_int in
      let n =
        length-joined (bon_pieces (lcfg e i).cc_lid user radio peer src_lid tgid)
          (call_type ∷ []) in
      omega arith

  dispatched : dispatch_established_line e' i' line lk' ≡ (
    lk',
    tr_bon i' (record {
      radio = radio;
      peer = peer;
      src_lid = src_lid;
      tgid = tgid;
      call_type = call_type;
    })
        ∷ [],
  )
  unfolding dispatch_established_line
  dispatched =
      rw
        (
          found (lcfg e i).cc_lid user radio peer src_lid tgid call_type lid_int user_int radio_int
              peer_int src_two tgid_int letter,
          dispatch_established_line,
        )
        (rw
          (parse_bon_line (lcfg e i).cc_lid user radio peer src_lid tgid call_type lid_int user_int
            radio_int peer_int src_two tgid_int letter)
          refl)

  -- The B-on that `cccc_send_bon` writes for a link that is up, once `recv` gives it to a link that is up and
  -- has no part of a line, hands translate.c there the same radio, peer, identifier of the source
  -- link, talkgroup and type of call, and leaves that link as it was. The identifier of the source link is below
  -- 100, the numbers fit their types, and the type of call is no zero, space or line end.
  pub cccc_send_bon-arrives :
      lk.state ≡ lst_up
      → lk'.state ≡ lst_up
      → lk'.rxbuf ≡ []
      → let bytes = build_bon (lcfg e i).cc_lid user radio peer src_lid tgid call_type in
        (cccc_send_bon e i user radio peer src_lid tgid call_type lk
          ≡ (lk, tcp_send lk.fd bytes ∷ []))
        × (on_link_tcp_readable e' i' (received bytes) lk' ≡ (
          lk',
          tr_bon i' (record {
            radio = radio;
            peer = peer;
            src_lid = src_lid;
            tgid = tgid;
            call_type = call_type;
          })
              ∷ [],
        ))
  unfolding cccc_send_bon
  cccc_send_bon-arrives up up' empty = (
    rw up refl,
    ap (λ bytes. on_link_tcp_readable e' i' (received bytes) lk')
          (build_bon-line (lcfg e i).cc_lid user radio peer src_lid tgid call_type lid_int user_int
            radio_int peer_int src_two tgid_int letter)
        ∙ line_arrives e' i' lk' line _ up' empty line-IsPlain (omega (arith, line_short))
            dispatched,
  )
