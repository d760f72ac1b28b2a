-- ===== src/Cccc/Sound/Handlers.antt =====
-- cccc/cccc_link.c: each handler keeps its link sound, and tells translate.c no lie.
use cc2obp.Common.{
  ℕ, ◌≡◌, refl, sym, ◌⊎◌, inl, inr, Bool, true, false, Option, none, List, [], ◌∷◌, ◌++◌, arith,
  ltb, if◌then◌else◌, Option-cases, length, take,
}
use cc2obp.Cccc.Const.{codes, answer_nfields, rxbuf_cap}
use cc2obp.Cccc.Text.{strstr}
use cc2obp.Cccc.Signals.{Bon, parse_bon, parse_boff}
use cc2obp.Cccc.Lines.{feed_bytes-keeps}
use mathlib.Core.Path.{subst}
use cc2obp.Cccc.Link.{
  CcLink, Env, tr_bon, tr_boff, LinkState, lst_connecting, lst_handshaking, lst_up, lst_down,
  ◌then_do◌, udp_send_to_link, schedule_reconnect, teardown_link_connection, arm_keepalive,
  keepalive_cb, finish_outbound_handshake, dispatch_established_line, link_on_line, feed_link,
  cccc_send_bon, cccc_send_boff, cccc_send_voice,
}
use cc2obp.Cccc.Connect.{
  Recv, received, nothing_yet, closed, on_link_tcp_readable, cccc_start_outbound_connect,
  reconnect_cb, connect_failed, connected, accept_question, start_link, drop_link, reconcile_link,
  stop_link,
}
use cc2obp.Cccc.Traffic.{is_some}
use cc2obp.Cccc.Steps.{is_connecting}
use cc2obp.Cccc.Sound.{dials, IsSound, tell, tell_all, Tells, Fine, then_do-Fine}

state_cases :
    (st : LinkState)
    → (st ≡ lst_up) ⊎ (st ≡ lst_handshaking) ⊎ (st ≡ lst_connecting) ⊎ (st ≡ lst_down)
state_cases lst_up = inl refl
state_cases lst_handshaking = inr (inl refl)
state_cases lst_connecting = inr (inr (inl refl))
state_cases lst_down = inr (inr (inr refl))

module _ (e : Env) (i j : ℕ) (u : Bool) where
  abbrev outb : Bool
  outb = dials e i

  pub teardown-Fine :
      (lk : CcLink) → IsSound outb lk → Fine outb i j u lk (teardown_link_connection e i lk)
  unfolding teardown_link_connection schedule_reconnect tell_all tell
  teardown-Fine lk s = ground arith

  -- From a link that is sound but for its keepalive timer, as the timer's own callback has it.
  pub keepalive_cb-Fine : (lk : CcLink) → IsSound outb lk → Fine outb i j u lk (keepalive_cb e i lk)
  unfolding keepalive_cb teardown_link_connection schedule_reconnect udp_send_to_link tell_all tell
  keepalive_cb-Fine lk s = ground arith

  finish-Fine :
      (lk : CcLink)
      → IsSound outb lk
      → lk.state ≡ lst_handshaking
      → Fine outb i j u lk (finish_outbound_handshake e i lk)
  unfolding finish_outbound_handshake arm_keepalive teardown_link_connection schedule_reconnect
      tell_all tell
  finish-Fine lk s h = ground arith

  pub unchanged : (lk : CcLink) → IsSound outb lk → Fine outb i j u lk (lk, [])
  unfolding tell_all
  unchanged lk s = (s, (λ has. (has, refl)), refl)

  -- A line of an established connection is at most one call signal.
  dispatched :
      (lk : CcLink) (line : List ℕ)
      → (dispatch_established_line e i line lk ≡ (lk, []))
        ⊎ ((bon : Bon) × (dispatch_established_line e i line lk ≡ (lk, tr_bon i bon ∷ [])))
        ⊎ ((lost : ℕ) × (total : ℕ) × (dispatch_established_line e i line lk
              ≡ (lk, tr_boff i lost total ∷ [])))
  unfolding dispatch_established_line
  dispatched lk line = elim (Option-cases (strstr (codes "Bee=") line)) [
    | inr (_, bee) ↦ elim (Option-cases (parse_bon line)) [
      | inl bad ↦ inl (ground arith)
      | inr (bon, good) ↦ inr (inl (bon, ground arith))
    ]
    | inl no_bee ↦ elim (Option-cases (strstr (codes "LOSS=") line)) [
      | inl neither ↦ inl (ground arith)
      | inr (_, loss) ↦ elim (Option-cases (parse_boff line)) [
        | inl bad ↦ inl (ground arith)
        | inr ((lost, total), good) ↦ inr (inr (lost, total, ground arith))
      ]
    ]
  ]

  dispatch-Fine :
      (lk : CcLink) (line : List ℕ)
      → IsSound outb lk
      → lk.state ≡ lst_up
      → Fine outb i j u lk (dispatch_established_line e i line lk)
  unfolding tell_all tell
  dispatch-Fine lk line s h = elim (dispatched lk line) [
    | inl quiet ↦ subst (Fine outb i j u lk) (sym quiet) (unchanged lk s)
    | inr (inl (bon, e')) ↦
        subst (Fine outb i j u lk) (sym e') (s, (λ has. (has, refl)), ground arith)
    | inr (inr (lost, total, e')) ↦
        subst (Fine outb i j u lk) (sym e') (s, (λ has. (has, refl)), ground arith)
  ]

  start_connect-Fine :
      (lk : CcLink)
      → IsSound outb lk
      → outb ≡ true
      → lk.state ≡ lst_down
      → lk.active ≡ true
      → Fine outb i j u lk (cccc_start_outbound_connect e i (record lk { reconnect_timer = none }))
  unfolding cccc_start_outbound_connect schedule_reconnect tell_all tell
  start_connect-Fine lk s o d a = ground arith

  pub reconnect_cb-Fine :
      (lk : CcLink)
      → IsSound outb lk
      → is_some lk.reconnect_timer ≡ true
      → Fine outb i j u lk (reconnect_cb e i lk)
  unfolding reconnect_cb cccc_start_outbound_connect schedule_reconnect tell_all tell
  reconnect_cb-Fine lk s o = ground arith

  pub connect_failed-Fine :
      (lk : CcLink)
      → IsSound outb lk
      → is_connecting lk.state ≡ true
      → Fine outb i j u lk (connect_failed e i lk)
  unfolding connect_failed schedule_reconnect tell_all tell
  connect_failed-Fine lk s o = ground arith

  pub start_link-Fine :
      (lk : CcLink)
      → IsSound outb lk
      → lk.active ≡ false
      → lk.state ≡ lst_down
      → Fine outb i j u lk (start_link e i lk)
  unfolding start_link cccc_start_outbound_connect schedule_reconnect tell_all tell
  start_link-Fine lk s a d = ground arith

  pub reconcile_link-Fine :
      (lk : CcLink) → IsSound outb lk → Fine outb i j u lk (reconcile_link e i lk)
  unfolding reconcile_link drop_link teardown_link_connection cccc_start_outbound_connect
      schedule_reconnect tell_all tell
  reconcile_link-Fine lk s = ground arith

  pub stop_link-Fine : (lk : CcLink) → IsSound outb lk → Fine outb i j u lk (stop_link e i lk)
  unfolding stop_link drop_link teardown_link_connection schedule_reconnect tell_all tell
  stop_link-Fine lk s = ground arith

  abbrev with_field : CcLink → List ℕ → CcLink
  with_field lk line = record lk {
    hslines =
        if ltb (length lk.hslines) answer_nfields
        then lk.hslines ++ take 255 line ∷ []
        else lk.hslines;
  }

  line_up :
      (lk : CcLink) (line : List ℕ)
      → lk.state ≡ lst_up
      → link_on_line e i line lk ≡ dispatch_established_line e i line lk
  unfolding link_on_line
  line_up lk line h = ground arith

  line_stray :
      (lk : CcLink) (line : List ℕ)
      → (lk.state ≡ lst_connecting) ⊎ (lk.state ≡ lst_down)
      → link_on_line e i line lk ≡ (lk, [])
  unfolding link_on_line
  line_stray lk line h = ground arith

  line_shaking :
      (lk : CcLink) (line : List ℕ)
      → lk.state ≡ lst_handshaking
      → (link_on_line e i line lk ≡ finish_outbound_handshake e i (with_field lk line))
        ⊎ (link_on_line e i line lk ≡ (with_field lk line, []))
  unfolding link_on_line
  line_shaking lk line h = ground arith

  link_on_line-Fine :
      (lk : CcLink) (line : List ℕ)
      → IsSound outb lk
      → Fine outb i j u lk (link_on_line e i line lk)
  unfolding tell_all
  link_on_line-Fine lk line s = elim (state_cases lk.state) [
    | inl up ↦ subst (Fine outb i j u lk) (sym (line_up lk line up)) (dispatch-Fine lk line s up)
    | inr (inl shaking) ↦ elim (line_shaking lk line shaking) [
      | inl last ↦
          subst (Fine outb i j u lk) (sym last) (finish-Fine (with_field lk line) s shaking)
      | inr early ↦ subst (Fine outb i j u lk) (sym early) (s, (λ has. (has, refl)), refl)
    ]
    | inr (inr (inl waits)) ↦
        subst (Fine outb i j u lk) (sym (line_stray lk line (inl waits))) (unchanged lk s)
    | inr (inr (inr down)) ↦
        subst (Fine outb i j u lk) (sym (line_stray lk line (inr down))) (unchanged lk s)
  ]

  feed_link-Fine :
      (lk : CcLink) (bytes : List ℕ) → IsSound outb lk → Fine outb i j u lk (feed_link e i bytes lk)
  unfolding feed_link
  feed_link-Fine lk bytes s =
      feed_bytes-keeps rxbuf_cap (λ line st. st then_do link_on_line e i line) (Fine outb i j u lk)
        (λ line st fine.
          then_do-Fine outb i j u lk st (link_on_line e i line) fine (link_on_line-Fine st.0 line))
        bytes (lk.rxbuf, (lk, [])) (unchanged lk s)

  pub readable-Fine :
      (lk : CcLink) (r : Recv)
      → IsSound outb lk
      → Fine outb i j u lk (on_link_tcp_readable e i r lk)
  unfolding on_link_tcp_readable
  readable-Fine lk (received bytes) s = feed_link-Fine lk bytes s
  readable-Fine lk nothing_yet s = unchanged lk s
  readable-Fine lk closed s = teardown-Fine lk s

  pub cccc_send_bon-Fine :
      (lk : CcLink) (user radio_id peer_id src_lid tgid call_type : ℕ)
      → IsSound outb lk
      → Fine outb i j u lk (cccc_send_bon e i user radio_id peer_id src_lid tgid call_type lk)
  unfolding cccc_send_bon tell_all tell
  cccc_send_bon-Fine lk user radio_id peer_id src_lid tgid call_type s = ground arith

  pub cccc_send_boff-Fine :
      (lk : CcLink) (lost total rssi : ℕ)
      → IsSound outb lk
      → Fine outb i j u lk (cccc_send_boff e i lost total rssi lk)
  unfolding cccc_send_boff tell_all tell
  cccc_send_boff-Fine lk lost total rssi s = ground arith

  pub cccc_send_voice-Fine :
      (lk : CcLink) (seq timestamp : ℕ) (marker : Bool) (ambe21 : List ℕ)
      → IsSound outb lk
      → Fine outb i j u lk (cccc_send_voice e i seq timestamp marker ambe21 lk)
  unfolding cccc_send_voice udp_send_to_link tell_all tell
  cccc_send_voice-Fine lk seq timestamp marker ambe21 s = ground arith

  -- A connection that takes a sync source of its own: all but that it keeps the old one.
  pub connected-Sound :
      (lk : CcLink) (ssrc : ℕ)
      → IsSound outb lk
      → is_connecting lk.state ≡ true
      → IsSound outb (connected e i ssrc lk).0 × Tells i j u lk (connected e i ssrc lk)
  unfolding connected tell_all tell
  connected-Sound lk ssrc s c = ground arith

  pub accept_question-Sound :
      (lk : CcLink) (time_of_day : List ℕ) (fd : Option ℕ) (ssrc : ℕ)
      → IsSound outb lk
      → outb ≡ false
      → IsSound outb (accept_question e i time_of_day fd ssrc lk).0
        × Tells i j u lk (accept_question e i time_of_day fd ssrc lk)
  unfolding accept_question arm_keepalive teardown_link_connection schedule_reconnect tell_all tell
  accept_question-Sound lk time_of_day fd ssrc s o = ground arith
