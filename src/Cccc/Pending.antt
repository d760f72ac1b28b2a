-- ===== src/Cccc/Pending.antt =====
-- cccc/cccc_link.c: the inbound connections, from their acceptance to the end of their Question.
use cc2obp.Common.{
  ℕ, zero, suc, ◌+◌, Bool, true, false, not, ◌&&◌, Option, none, some, List, [], ◌∷◌, ◌++◌, ltb,
  ◌==◌, if◌then◌else◌, length, get_or, take,
}
use cc2obp.Wire.{same_bytes}
use cc2obp.Config.{Config, LinkConfig, link_at}
use cc2obp.Cccc.Const.{question_nfields, pending_timeout, max_pending, rxbuf_cap}
use cc2obp.Cccc.Text.{strtoul, atoi}
use cc2obp.Cccc.Lines.{feed_bytes}
use cc2obp.Cccc.Link.{Env, Action, close_fd, closes, is_outbound}
use cc2obp.Cccc.Connect.{Recv, received, nothing_yet, closed, accept_question}
use cc2obp.Cccc.Mux.{PendingConn, CcMux, put, no_pending, find_link_by_ssrc, on_link}

-- The first slot of the table, from slot `k` on, that is free, of `n`.
unfoldable pub free_slot : ℕ → ℕ → CcMux → Option ℕ
free_slot zero k mx = none
free_slot (suc n) k mx =
    let later = free_slot n (k + 1) mx in if (mx.pending k).in_use then later else some k

unfoldable pub free_pending : Bool → PendingConn → PendingConn × List Action
free_pending also_close p = (
  record p { timeout_timer = none; in_use = false; fd = none },
  (if also_close then closes p.fd else []),
)

-- An inbound link that is enabled, at the address that asks, with this identifier.
abbrev pub is_asked_for : List ℕ → ℕ → LinkConfig → Bool
is_asked_for src_ip lid l =
    not (is_outbound l) && l.enabled && same_bytes l.cc_remote_ip src_ip && l.cc_lid == lid

unfoldable pub match_question : Config → List ℕ → ℕ → ℕ → ℕ → Option ℕ
unfolding same_bytes
match_question cfg src_ip lid zero i = none
match_question cfg src_ip lid (suc n) i =
    let later = match_question cfg src_ip lid n (i + 1) in
    if is_asked_for src_ip lid (link_at cfg i) then some i else later

module _ (e : Env) where
  abbrev pub n_link : ℕ
  n_link = length e.cfg.link

  -- What is done about slot `k` and about the links.
  abbrev pub with_pending : ℕ → PendingConn × List Action → CcMux → CcMux × List Action
  with_pending k r mx = (record mx { pending = put mx.pending k r.0 }, r.1)

  -- The connection of slot `k` becomes that of link `i`.
  unfoldable pub establish : List ℕ → ℕ → ℕ → ℕ → CcMux → CcMux × List Action
  unfolding accept_question free_pending
  establish time_of_day k ssrc i mx =
      let p = mx.pending k in
      let (mx', acts) = on_link i (accept_question e i time_of_day p.fd ssrc) mx in
      (record mx' { pending = put mx'.pending k (free_pending false p).0 }, acts)

  unfoldable pub handle_question_complete : List ℕ → ℕ → CcMux → CcMux × List Action
  handle_question_complete time_of_day k mx0 =
      let p = record (mx0.pending k) { timeout_timer = none } in
      let mx = record mx0 { pending = put mx0.pending k p } in
      let ssrc = strtoul 16 (get_or p.qlines 0 []) in
      let lid = atoi (get_or p.qlines 1 []) in
      elim (match_question e.cfg p.src_ip lid n_link 0) [
        | none ↦ with_pending k (free_pending true p) mx
        | some i ↦ elim (find_link_by_ssrc ssrc n_link 0 mx) [
          | none ↦ establish time_of_day k ssrc i mx
          | some j ↦
              if j == i
              then establish time_of_day k ssrc i mx
              else with_pending k (free_pending true p) mx
        ]
      ]

  -- A field of the Question is kept up to 255 bytes.
  unfoldable pub pending_on_line : List ℕ → ℕ → List ℕ → CcMux → CcMux × List Action
  pending_on_line time_of_day k line mx0 =
      let p0 = mx0.pending k in
      let p =
        if ltb (length p0.qlines) question_nfields
        then record p0 { qlines = p0.qlines ++ take 255 line ∷ [] }
        else p0 in
      let mx = record mx0 { pending = put mx0.pending k p } in
      if length p.qlines == question_nfields
      then handle_question_complete time_of_day k mx
      else (mx, [])

  abbrev pub then_line : List ℕ → ℕ → List ℕ → CcMux × List Action → CcMux × List Action
  then_line time_of_day k line (mx, acts) =
      let (mx', more) = pending_on_line time_of_day k line mx in (mx', acts ++ more)

  unfoldable pub on_pending_readable : List ℕ → ℕ → Recv → CcMux → CcMux × List Action
  on_pending_readable time_of_day k (received bytes) mx =
      let (rx, (mx', acts)) =
        feed_bytes rxbuf_cap (then_line time_of_day k) bytes ((mx.pending k).rxbuf, (mx, [])) in
      (record mx' { pending = put mx'.pending k (record (mx'.pending k) { rxbuf = rx }) }, acts)
  on_pending_readable time_of_day k nothing_yet mx = (mx, [])
  on_pending_readable time_of_day k closed mx = with_pending k (free_pending true (mx.pending k)) mx

  unfoldable pub pending_timeout_cb : ℕ → CcMux → CcMux × List Action
  pending_timeout_cb k mx = with_pending k (free_pending true (mx.pending k)) mx

  abbrev pub fresh_pending : ℕ → List ℕ → PendingConn
  fresh_pending cfd ip = record no_pending {
    in_use = true;
    fd = some cfd;
    src_ip = ip;
    timeout_timer = some (e.now + pending_timeout);
  }

  -- One turn of the loop of `on_listen_readable`: a connection is accepted.
  unfoldable pub accept_one : ℕ → List ℕ → CcMux → CcMux × List Action
  accept_one cfd ip mx = elim (free_slot max_pending 0 mx) [
    | none ↦ (mx, close_fd cfd ∷ [])
    | some k ↦ (record mx { pending = put mx.pending k (fresh_pending cfd ip) }, [])
  ]

  unfoldable pub on_listen_readable : List (ℕ × List ℕ) → CcMux → CcMux × List Action
  unfolding accept_one
  on_listen_readable [] mx = (mx, [])
  on_listen_readable ((cfd, ip) ∷ more) mx =
      let r = accept_one cfd ip mx in
      let rest = on_listen_readable more r.0 in (rest.0, r.1 ++ rest.1)
