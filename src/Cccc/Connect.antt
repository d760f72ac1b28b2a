-- ===== src/Cccc/Connect.antt =====
-- cccc/cccc_link.c: how the connection of one link begins and ends.
use cc2obp.Common.{ℕ, true, false, not, ◌&&◌, Option, none, some, List, [], ◌∷◌, if◌then◌else◌}
use cc2obp.Cccc.Signals.{build_question, build_answer}
use cc2obp.Cccc.Link.{
  lst_down, lst_connecting, lst_handshaking, lst_up, is_down, Env, Handler, tcp_send, tr_link_up,
  ◌then_do◌, silent, closes, is_outbound, lcfg, schedule_reconnect, teardown_link_connection,
  arm_keepalive, feed_link,
}

-- What `recv` gives: some bytes, nothing yet, or the end of the connection or an error.
pub data Recv : Type 0 where
  received : (bytes : List ℕ) → Recv
  nothing_yet : Recv
  closed : Recv

module _ (e : Env) (i : ℕ) where
  unfoldable pub on_link_tcp_readable : Recv → Handler
  unfolding teardown_link_connection feed_link
  on_link_tcp_readable (received bytes) lk = feed_link e i bytes lk
  on_link_tcp_readable nothing_yet lk = (lk, [])
  on_link_tcp_readable closed lk = teardown_link_connection e i lk

  unfoldable pub cccc_start_outbound_connect : Handler
  unfolding schedule_reconnect
  cccc_start_outbound_connect lk0 =
      let lk = record lk0 { rxbuf = []; hslines = []; has_sync_source = false; fd = e.connect i } in
      elim (e.connect i) [
        | none ↦ if lk.active then schedule_reconnect e i lk else (lk, [])
        | some _ ↦ (record lk { state = lst_connecting }, [])
      ]

  -- The reconnect timer of the link is due.
  unfoldable pub reconnect_cb : Handler
  unfolding cccc_start_outbound_connect
  reconnect_cb lk0 =
      let lk = record lk0 { reconnect_timer = none } in
      if lk.active then cccc_start_outbound_connect lk else (lk, [])

  -- `on_connect_writable` when the connection has failed.
  unfoldable pub connect_failed : Handler
  unfolding schedule_reconnect
  connect_failed lk0 =
      let lk = record lk0 { fd = none; state = lst_down } in
      (lk, closes lk0.fd) then_do (if lk.active then schedule_reconnect e i else silent)

  -- `on_connect_writable` when it has succeeded, with the sync source that was minted.
  unfoldable pub connected : ℕ → Handler
  unfolding build_question
  connected ssrc lk = (
    record lk { state = lst_handshaking; sync_source = ssrc; has_sync_source = true },
    tcp_send lk.fd (
          build_question ssrc (lcfg e i).cc_lid (lcfg e i).cc_channel_name e.cfg.cc_site_name
            e.cfg.cc_mac_address e.cfg.cc_code_revision e.cfg.cc_os_version)
        ∷ [],
  )

  -- The second half of `handle_question_complete`: the connection `fd` becomes that of the link.
  unfoldable pub accept_question : List ℕ → Option ℕ → ℕ → Handler
  unfolding teardown_link_connection arm_keepalive build_answer
  accept_question time_of_day fd ssrc lk =
      (if is_down lk.state then (lk, []) else teardown_link_connection e i lk)
      then_do (λ l. (
        record l {
          fd = fd;
          rxbuf = [];
          hslines = [];
          sync_source = ssrc;
          has_sync_source = true;
          state = lst_up;
        },
        tcp_send fd
              (build_answer time_of_day e.cfg.cc_site_name e.cfg.cc_os_version e.cfg.cc_version)
            ∷ [],
      ))
      then_do arm_keepalive e i
      then_do λ l. (l, tr_link_up i ∷ [])

  -- The bodies of the loops of `cccc_mux_start`, `cccc_mux_reconcile` and `cccc_mux_stop`.
  unfoldable pub start_link : Handler
  unfolding cccc_start_outbound_connect
  start_link lk0 =
      let enabled = (lcfg e i).enabled in
      let lk = record lk0 { active = enabled } in
      if is_outbound (lcfg e i) && enabled then cccc_start_outbound_connect lk else (lk, [])

  -- A link with a connection, or on the way to one, is torn down.
  unfoldable pub drop_link : Handler
  unfolding teardown_link_connection
  drop_link lk = if is_down lk.state then (lk, []) else teardown_link_connection e i lk

  unfoldable pub reconcile_link : Handler
  unfolding cccc_start_outbound_connect drop_link
  reconcile_link lk =
      let enabled = (lcfg e i).enabled in
      if is_outbound (lcfg e i)
      then if enabled && not lk.active
        then cccc_start_outbound_connect (record lk { active = true })
        else if not enabled && lk.active
        then drop_link (record lk { active = false; reconnect_timer = none })
        else (lk, [])
      else let lk' = record lk { active = enabled } in if enabled then (lk', []) else drop_link lk'

  unfoldable pub stop_link : Handler
  unfolding drop_link
  stop_link lk = drop_link (record lk { active = false; reconnect_timer = none })
