-- ===== src/Translate/Handlers.antt =====
-- translate.c: the handlers of one link, in the order of the source.
use cc2obp.Common.{
  ℕ, ◌+◌, ◌-◌, ◌*◌, ◌/◌, ◌%◌, Bool, true, false, not, ◌&&◌, none, some, List, [], ◌∷◌, ◌++◌,
  if◌then◌else◌, take,
}
use cc2obp.Wire.{wr24, wr32, same_bytes}
use cc2obp.Config.{LinkConfig, link_at}
use cc2obp.Cccc.Ambe.{pack21}
use cc2obp.Openbridge.Const.{dmrd_tag, frametype_datasync, slt_vhead, slt_vterm}
use cc2obp.Openbridge.Mux.{obp_peer_is_enabled}
use cc2obp.Translate.Burst.{build_head_term_payload, extract_ambe}
use cc2obp.Translate.{
  from_obp, Env, Slot, send_bon, send_boff, send_voice, send_dmrd, log_drop, Handler, zero_call,
  in_cc_call, in_obp_call, with_call, with_has_call, with_logged, update, ◌then_do◌, silent,
}

abbrev pub slot_ns : ℕ
slot_ns = 60000000

-- `(int)(elapsed / 0.060 + 0.5)`.
unfoldable pub slot_index : ℕ → ℕ → ℕ
slot_index now start = (2 * (now - start) + slot_ns) / (2 * slot_ns)

module _ (e : Env) (i : ℕ) where
  abbrev pub lcfg : LinkConfig
  lcfg = link_at e.cfg i

  -- `lcfg->openbridge_idx >= 0 && obp_peer_is_enabled(...)`.
  abbrev pub peer_ok : Bool
  peer_ok = elim (link_at e.cfg i).openbridge_idx [
    | none ↦ false
    | some p ↦ obp_peer_is_enabled e.cfg e.ob p
  ]

  -- The return value of `obp_gate_open`, and what it does when it returns 0.
  unfoldable pub obp_gate_open : Bool
  obp_gate_open = (link_at e.cfg i).cross_connect_active && peer_ok

  unfoldable pub obp_gate_closed : Handler
  obp_gate_closed s =
      if s.lr.cx_drop_logged then (s, []) else (with_logged s true, log_drop i peer_ok ∷ [])

  -- The 53 bytes of a DMRD frame.
  unfoldable pub dmrd_body : Slot → ℕ → ℕ → List ℕ → List ℕ
  dmrd_body s p flags payload33 =
      dmrd_tag
      ++ (s.ctr p % 256 ∷ wr24 s.lr.call.rf_src
          ++ (wr24 (link_at e.cfg i).tgid
              ++ (wr32 s.lr.call.cc_peer_id
                  ++ (flags ∷ take 4 s.lr.call.stream_id ++ take 33 payload33))))

  unfoldable pub send_dmrd_frame : ℕ → List ℕ → Handler
  send_dmrd_frame flags payload33 s = elim (link_at e.cfg i).openbridge_idx [
    | none ↦ (s, [])
    | some p ↦ (
      record s { ctr = update s.ctr p (s.ctr p + 1) },
      send_dmrd i p (dmrd_body s p flags payload33) ∷ [],
    )
  ]

  unfoldable pub send_obp_voice_head : Handler
  unfolding send_dmrd_frame
  send_obp_voice_head s =
      send_dmrd_frame (frametype_datasync + slt_vhead) (build_head_term_payload s.lr.call.lc false)
        s

  unfoldable pub send_obp_voice_term : Handler
  unfolding send_dmrd_frame
  send_obp_voice_term s =
      send_dmrd_frame (frametype_datasync + slt_vterm) (build_head_term_payload s.lr.call.lc true) s

  unfoldable pub end_obp_origin_call : Handler
  end_obp_origin_call s =
      let total = if s.lr.call.cc_sent_first then s.lr.call.cc_seq + 1 else 0 in
      if in_obp_call s then (with_has_call s false, send_boff i 0 total ∷ []) else (s, [])

  unfoldable pub end_cc_origin_call : Handler
  unfolding send_obp_voice_term
  end_cc_origin_call s =
      if in_cc_call s
      then send_obp_voice_term s then_do (λ t. silent (with_has_call t false))
      else (s, [])

  -- The end of `handle_obp_voice_head`: the new call, and the B-on for it.
  unfoldable pub start_obp_call : ℕ → ℕ → List ℕ → Handler
  start_obp_call peer_id rf_src stream s =
      let call = record zero_call {
        origin = from_obp;
        rf_src = rf_src;
        peer_id = peer_id;
        stream_id = stream;
        call_start_time = e.now;
        last_activity = e.now;
      } in
      (
        with_has_call (with_call s call) true,
        send_bon i rf_src peer_id (link_at e.cfg i).cc_lid (link_at e.cfg i).tgid ∷ [],
      )

  unfoldable pub handle_obp_voice_head : ℕ → ℕ → List ℕ → Handler
  unfolding end_obp_origin_call start_obp_call
  handle_obp_voice_head peer_id rf_src stream s =
      if in_obp_call s
      then (if same_bytes stream s.lr.call.stream_id
          then (s, [])
          else end_obp_origin_call s then_do start_obp_call peer_id rf_src stream)
      else if in_cc_call s
      then (s, [])
      else start_obp_call peer_id rf_src stream s

  -- The end of `handle_obp_voice_burst`: one RTP packet, numbered by the wall clock.
  unfoldable pub relay_obp_burst : List ℕ → Handler
  relay_obp_burst payload33 s =
      let slot = slot_index e.now s.lr.call.call_start_time in
      let call = record s.lr.call { last_activity = e.now; cc_sent_first = true; cc_seq = slot } in
      (
        with_call s call,
        send_voice i (slot % 65536) (480 * (slot % 4294967296) % 4294967296)
              (not s.lr.call.cc_sent_first) (pack21 (extract_ambe payload33))
            ∷ [],
      )

  unfoldable pub handle_obp_voice_burst : List ℕ → List ℕ → Handler
  unfolding relay_obp_burst
  handle_obp_voice_burst payload33 stream s =
      if in_obp_call s && same_bytes stream s.lr.call.stream_id
      then relay_obp_burst payload33 s
      else (s, [])

  unfoldable pub handle_obp_voice_term : List ℕ → Handler
  unfolding end_obp_origin_call
  handle_obp_voice_term stream s =
      if in_obp_call s && same_bytes stream s.lr.call.stream_id
      then end_obp_origin_call s
      else (s, [])
