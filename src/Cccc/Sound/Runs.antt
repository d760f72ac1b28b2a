-- ===== src/Cccc/Sound/Runs.antt =====
-- cccc/cccc_link.c: any sequence of events.
use cc2obp.Common.{
  ℕ, zero, suc, ◌+◌, ◌%◌, ◌<◌, ◌≡◌, refl, Bool, true, false, Option, none, some, List, [], ◌++◌,
  arith, if◌then◌else◌,
}
use cc2obp.Cccc.Const.{max_pending}
use cc2obp.Cccc.Link.{
  Env, Action, closes, is_up, keepalive_cb, cccc_send_bon, cccc_send_boff, cccc_send_voice,
}
use cc2obp.Cccc.Connect.{reconnect_cb, on_link_tcp_readable, reconcile_link, stop_link}
use cc2obp.Cccc.Mux.{CcMux, PendingConn, put, on_link, each_link}
use cc2obp.Cccc.Pending.{n_link, free_pending}
use cc2obp.Cccc.Traffic.{cccc_mux_reconcile, stop_pending, cccc_mux_stop, counted_send_bon}
use cc2obp.Cccc.Steps.{
  Input, connections, pending_readable, pending_due, link_readable, connect_writable, reconnect_due,
  keepalive_due, voice_datagram, trial_datagram, call_bon, call_boff, call_voice, reconcile, stop,
  is_expected, react, step,
}
use cc2obp.Cccc.Sound.{tell_all, Fine, dials}
use cc2obp.Cccc.Sound.Handlers.{
  keepalive_cb-Fine, readable-Fine, reconnect_cb-Fine, reconcile_link-Fine, stop_link-Fine,
  cccc_send_bon-Fine, cccc_send_boff-Fine, cccc_send_voice-Fine,
}
use cc2obp.Cccc.Sound.Table.{
  AllSound, IsUnique, IsGood, up_at, IsGood-then, IsGood-nil, on_link-IsGood, each_link-IsGood,
}
use cc2obp.Cccc.Sound.Asked.{
  tell-closes, free_pending-told, on_pending_readable-IsGood, pending_timeout_cb-IsGood,
  on_listen_readable-IsGood,
}
use cc2obp.Cccc.Sound.Sockets.{
  on_voice_readable-IsGood, on_trial_readable-IsGood, on_connect_writable-IsGood,
}

stop_pending-IsGood :
    (e : Env) (n k : ℕ) (mx : CcMux)
    → AllSound e mx
    → IsUnique (n_link e) mx
    → IsGood e mx (stop_pending e n k mx)
unfolding stop_pending
stop_pending-IsGood e zero k mx s q = IsGood-nil e mx s q
stop_pending-IsGood e (suc n) k mx s q =
    IsGood-then e mx (next, one.1) (stop_pending e n (k + 1) next)
      (s, q, one-told (mx.pending k).in_use) (stop_pending-IsGood e n (k + 1) next s q)
  where
    freed : Bool → PendingConn × List Action
    freed b = if b then free_pending true (mx.pending k) else (mx.pending k, [])

    one : PendingConn × List Action
    one = freed (mx.pending k).in_use

    next : CcMux
    next = record mx { pending = put mx.pending k one.0 }

    one-told : (b : Bool) (j : ℕ) → tell_all j (up_at mx j) (freed b).1 ≡ some (up_at mx j)
    one-told true j = free_pending-told true (mx.pending k) j (up_at mx j)
    one-told false j = tell-closes j (up_at mx j) none

module _ (e : Env) (mx : CcMux) (s : AllSound e mx) (q : IsUnique (n_link e) mx) where
  reconcile-IsGood : IsGood e mx (cccc_mux_reconcile e mx)
  unfolding cccc_mux_reconcile
  reconcile-IsGood =
      each_link-IsGood e (reconcile_link e) (λ _. Unit {0}) (n_link e) 0 mx
        (λ i j u lk _ sound. reconcile_link-Fine e i j u lk sound) (omega arith) (λ _ _. tt) s q

  stop-IsGood : IsGood e mx (cccc_mux_stop e mx)
  unfolding cccc_mux_stop
  stop-IsGood =
      let (s1, q1, t1) =
        each_link-IsGood e (stop_link e) (λ _. Unit {0}) (n_link e) 0 mx
          (λ i j u lk _ sound. stop_link-Fine e i j u lk sound) (omega arith) (λ _ _. tt) s q in
      let g = stop_pending-IsGood e max_pending 0 links_down.0 s1 q1 in
      close_one mx2.listen_fd _ (
        close_one mx2.trial_fd _
          (close_one mx2.voice_fd _ (IsGood-then e mx links_down slots_free (s1, q1, t1) g)))
    where
      links_down : CcMux × List Action
      links_down = each_link (stop_link e) (n_link e) 0 mx

      slots_free : CcMux × List Action
      slots_free = stop_pending e max_pending 0 links_down.0

      mx2 : CcMux
      mx2 = slots_free.0

      close_one :
          (fd : Option ℕ) (acts : List Action)
          → IsGood e mx (mx2, acts)
          → IsGood e mx (mx2, acts ++ closes fd)
      close_one fd acts g =
          IsGood-then e mx (mx2, acts) (mx2, closes fd) g
            (g.0, g.1, λ j. tell-closes j (up_at mx2 j) fd)

  counted_send_bon-IsGood :
      (i radio_id peer_id src_lid tgid call_type : ℕ)
      → i < n_link e
      → IsGood e mx (counted_send_bon e i radio_id peer_id src_lid tgid call_type mx)
  unfolding counted_send_bon
  counted_send_bon-IsGood i radio_id peer_id src_lid tgid call_type small =
      counted (is_up (mx.links i).state)
    where
      user : ℕ
      user = (mx.user_ctr i + 1) % 1000

      counter : Bool → CcMux
      counter b = if b then record mx { user_ctr = put mx.user_ctr i user } else mx

      fine :
          (j : ℕ) (u : Bool)
          → Fine
              (dials e i)
              i
              j
              u
              (mx.links i)
              (cccc_send_bon e i user radio_id peer_id src_lid tgid call_type (mx.links i))
      fine j u =
          cccc_send_bon-Fine e i j u (mx.links i) user radio_id peer_id src_lid tgid call_type
            (s i small)

      counted :
          (b : Bool)
          → IsGood e mx (
              on_link i
                (cccc_send_bon e i user radio_id peer_id src_lid tgid call_type)
                (counter b))
      counted true =
          on_link-IsGood e i (counter true)
            (cccc_send_bon e i user radio_id peer_id src_lid tgid call_type) s q fine
      counted false =
          on_link-IsGood e i mx (cccc_send_bon e i user radio_id peer_id src_lid tgid call_type) s q
            fine

  react-IsGood : (input : Input) → is_expected e mx input ≡ true → IsGood e mx (react e input mx)
  unfolding react is_expected
  react-IsGood (connections accepted) h = on_listen_readable-IsGood e accepted mx s q
  react-IsGood (pending_readable k time_of_day r) h =
      on_pending_readable-IsGood e time_of_day k r mx s q
  react-IsGood (pending_due k) h = pending_timeout_cb-IsGood e [] k mx s q
  react-IsGood (link_readable i r) h =
      let small : i < n_link e = ground arith in
      on_link-IsGood e i mx (on_link_tcp_readable e i r) s q
        λ j u. readable-Fine e i j u (mx.links i) r (s i small)
  react-IsGood (connect_writable i ok draws) h =
      on_connect_writable-IsGood e mx s q i ok draws (ground arith) (ground arith)
  react-IsGood (reconnect_due i) h =
      let small : i < n_link e = ground arith in
      on_link-IsGood e i mx (reconnect_cb e i) s q
        λ j u. reconnect_cb-Fine e i j u (mx.links i) (s i small) (ground arith)
  react-IsGood (keepalive_due i) h =
      let small : i < n_link e = ground arith in
      on_link-IsGood e i mx (keepalive_cb e i) s q
        λ j u. keepalive_cb-Fine e i j u (mx.links i) (s i small)
  react-IsGood (voice_datagram buf src_ip src_port) h =
      on_voice_readable-IsGood e mx s q buf src_ip src_port
  react-IsGood (trial_datagram buf src_ip src_port) h =
      on_trial_readable-IsGood e mx s q buf src_ip src_port
  react-IsGood (call_bon i radio_id peer_id src_lid tgid call_type) h =
      counted_send_bon-IsGood i radio_id peer_id src_lid tgid call_type (ground arith)
  react-IsGood (call_boff i lost total rssi) h =
      let small : i < n_link e = ground arith in
      on_link-IsGood e i mx (cccc_send_boff e i lost total rssi) s q
        λ j u. cccc_send_boff-Fine e i j u (mx.links i) lost total rssi (s i small)
  react-IsGood (call_voice i seq timestamp marker ambe21) h =
      let small : i < n_link e = ground arith in
      on_link-IsGood e i mx (cccc_send_voice e i seq timestamp marker ambe21) s q
        λ j u. cccc_send_voice-Fine e i j u (mx.links i) seq timestamp marker ambe21 (s i small)
  react-IsGood reconcile h = reconcile-IsGood
  react-IsGood stop h = stop-IsGood

  pub step-IsGood : (input : Input) → IsGood e mx (step e input mx)
  unfolding step
  step-IsGood input = expected (is_expected e mx input) refl
    where
      expected :
          (b : Bool)
          → is_expected e mx input ≡ b
          → IsGood e mx (if b then react e input mx else (mx, []))
      expected true h = react-IsGood input h
      expected false h = IsGood-nil e mx s q
