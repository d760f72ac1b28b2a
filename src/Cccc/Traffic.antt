-- ===== src/Cccc/Traffic.antt =====
-- cccc/cccc_link.c: the two shared UDP sockets, the calls of translate.c and main.c, and one event
-- after another.
use cc2obp.Common.{
  ℕ, zero, suc, ◌+◌, ◌%◌, Bool, true, false, ◌&&◌, Option, none, some, List, [], ◌∷◌, ◌++◌, ltb,
  leb, ◌==◌, if◌then◌else◌, length, get_or, drop,
}
use cc2obp.Wire.{rd32, rd16, same_bytes}
use cc2obp.Config.{Config, link_at}
use cc2obp.Cccc.Const.{
  max_pending, keepalive_len, rtp_pt_keepalive, rtp_pkt_len, rtp_pt_voice, rtp_hdr_len,
}
use cc2obp.Cccc.Link.{Env, Action, udp_sendto, tr_voice, closes, is_up, cccc_send_bon}
use cc2obp.Cccc.Connect.{connect_failed, connected, start_link, reconcile_link, stop_link}
use cc2obp.Cccc.Mux.{CcMux, put, find_link_by_ssrc, mint_sync_source, on_link, each_link}
use cc2obp.Cccc.Pending.{n_link, free_pending}

abbrev pub is_some {ℓ} : {A : Type ℓ} → Option A → Bool
is_some none = false
is_some (some _) = true

module _ (e : Env) where
  -- A keepalive of a known link from its own address is answered with itself.
  unfoldable pub keepalive_received : List ℕ → List ℕ → ℕ → CcMux → CcMux × List Action
  keepalive_received buf src_ip src_port mx =
      elim (find_link_by_ssrc (rd32 (drop 8 buf)) (n_link e) 0 mx) [
        | none ↦ (mx, [])
        | some i ↦
            if same_bytes src_ip (link_at e.cfg i).cc_remote_ip
            then on_link i
                (λ lk.
                  (record lk { last_keepalive_recv = e.now }, udp_sendto src_ip src_port buf ∷ []))
                mx
            else (mx, [])
      ]

  unfoldable pub voice_received : List ℕ → List ℕ → CcMux → CcMux × List Action
  voice_received buf src_ip mx = elim (find_link_by_ssrc (rd32 (drop 8 buf)) (n_link e) 0 mx) [
    | none ↦ (mx, [])
    | some i ↦
        if same_bytes src_ip (link_at e.cfg i).cc_remote_ip
        then (
          mx,
          tr_voice i (rd16 (drop 2 buf)) (rd32 (drop 4 buf)) (leb 128 (get_or buf 1 0))
                (drop rtp_hdr_len buf)
              ∷ [],
        )
        else (mx, [])
  ]

  -- `buf` is what one datagram holds, up to 256 bytes of it.
  unfoldable pub on_voice_readable : List ℕ → List ℕ → ℕ → CcMux → CcMux × List Action
  unfolding keepalive_received voice_received
  on_voice_readable buf src_ip src_port mx =
      let pt = get_or buf 1 0 % 128 in
      if ltb (length buf) 2
      then (mx, [])
      else if length buf == keepalive_len && pt == rtp_pt_keepalive
      then keepalive_received buf src_ip src_port mx
      else if length buf == rtp_pkt_len && pt == rtp_pt_voice
      then voice_received buf src_ip mx
      else (mx, [])

  -- `buf` is what one datagram holds, up to 2048 bytes of it.
  unfoldable pub on_trial_readable : List ℕ → List ℕ → ℕ → CcMux → CcMux × List Action
  on_trial_readable [] src_ip src_port mx = (mx, [])
  on_trial_readable buf src_ip src_port mx = (mx, udp_sendto src_ip src_port buf ∷ [])

  -- The connection of the link is there, or has failed. The numbers are those that `rand32` gives;
  -- as long as none of them is free, the loop of `mint_sync_source` has not ended.
  unfoldable pub on_connect_writable : ℕ → Bool → List ℕ → CcMux → CcMux × List Action
  unfolding connect_failed connected mint_sync_source
  on_connect_writable i true draws mx = elim (mint_sync_source (n_link e) draws mx) [
    | none ↦ (mx, [])
    | some ssrc ↦ on_link i (connected e i ssrc) mx
  ]
  on_connect_writable i false draws mx = on_link i (connect_failed e i) mx

  -- What the system gives for each socket; the function returns -1 at the first that it refuses.
  unfoldable pub cccc_mux_start :
      Option ℕ → Option ℕ → Option ℕ → CcMux → Bool × (CcMux × List Action)
  unfolding each_link start_link
  cccc_mux_start none trial listen mx = (false, (record mx { voice_fd = none }, []))
  cccc_mux_start (some v) none listen mx =
      (false, (record mx { voice_fd = some v; trial_fd = none }, []))
  cccc_mux_start (some v) (some t) none mx =
      (false, (record mx { voice_fd = some v; trial_fd = some t; listen_fd = none }, []))
  cccc_mux_start (some v) (some t) (some l) mx = (
    true,
    each_link (start_link e) (n_link e) 0
        (record mx { voice_fd = some v; trial_fd = some t; listen_fd = some l }),
  )

  unfoldable pub cccc_mux_reconcile : CcMux → CcMux × List Action
  unfolding each_link reconcile_link
  cccc_mux_reconcile mx = each_link (reconcile_link e) (n_link e) 0 mx

  -- The connections in use, of `n` slots from slot `k` on, are closed.
  unfoldable pub stop_pending : ℕ → ℕ → CcMux → CcMux × List Action
  unfolding free_pending
  stop_pending zero k mx = (mx, [])
  stop_pending (suc n) k mx =
      let r =
        if (mx.pending k).in_use then free_pending true (mx.pending k) else (mx.pending k, []) in
      let rest = stop_pending n (k + 1) (record mx { pending = put mx.pending k r.0 }) in
      (rest.0, r.1 ++ rest.1)

  unfoldable pub cccc_mux_stop : CcMux → CcMux × List Action
  unfolding each_link stop_link stop_pending
  cccc_mux_stop mx =
      let (mx1, acts1) = each_link (stop_link e) (n_link e) 0 mx in
      let (mx2, acts2) = stop_pending max_pending 0 mx1 in
      (
        record mx2 { voice_fd = none; trial_fd = none; listen_fd = none },
        acts1 ++ acts2 ++ closes mx2.voice_fd ++ closes mx2.trial_fd ++ closes mx2.listen_fd,
      )

  -- The counter of the link moves on before the text is built, if the link is up.
  unfoldable pub counted_send_bon : ℕ → ℕ → ℕ → ℕ → ℕ → ℕ → CcMux → CcMux × List Action
  unfolding cccc_send_bon
  counted_send_bon i radio_id peer_id src_lid tgid call_type mx =
      let user = (mx.user_ctr i + 1) % 1000 in
      let mx' =
        if is_up (mx.links i).state then record mx { user_ctr = put mx.user_ctr i user } else mx in
      on_link i (cccc_send_bon e i user radio_id peer_id src_lid tgid call_type) mx'

unfoldable pub cccc_link_is_up : Config → CcMux → ℕ → Bool
cccc_link_is_up cfg mx i = ltb i (length cfg.link) && is_up (mx.links i).state
