-- ===== src/Translate/Incoming.antt =====
-- translate.c: what a link does when CC-CC or OpenBridge calls in.
use Prim.Native.Nat.{bit_and}
use cc2obp.Common.{
  ℕ, ◌+◌, ◌%◌, Bool, true, false, not, ◌&&◌, ◌||◌, List, [], ◌++◌, ltb, ◌==◌, if◌then◌else◌, get_or,
  take, drop,
}
use cc2obp.Wire.{wr24, rd24, rd32}
use cc2obp.Config.{link_at}
use cc2obp.Dmr.Const.{lc_opt}
use cc2obp.Dmr.Emblc.{encode_emblc}
use cc2obp.Dmr.Ambe.{ambe_49_to_72}
use cc2obp.Cccc.Ambe.{unpack21}
use cc2obp.Openbridge.Const.{
  frametype_voice, frametype_voicesync, frametype_datasync, frametype_mask, dtype_mask, slt_vhead,
  slt_vterm, flag_call_unit, vcsbk_mask, src_off, netid_off, flags_off, stream_off, payload_off,
}
use cc2obp.Translate.Burst.{build_embed, voice_burst}
use cc2obp.Translate.Handlers.{
  obp_gate_open, obp_gate_closed, send_dmrd_frame, send_obp_voice_head, send_obp_voice_term,
  end_obp_origin_call, end_cc_origin_call, handle_obp_voice_head, handle_obp_voice_burst,
  handle_obp_voice_term,
}
use cc2obp.Translate.{
  from_cc, Env, Handler, zero_call, in_cc_call, in_obp_call, with_call, with_has_call, with_logged,
  ◌then_do◌, silent,
}

-- opt(3) + tgid(3) + rf_src(3).
unfoldable pub call_lc : ℕ → ℕ → List ℕ
call_lc tgid rf_src = lc_opt ++ (wr24 tgid ++ wr24 rf_src)

unfoldable pub is_head : ℕ → Bool
is_head flags =
    bit_and flags frametype_mask == frametype_datasync && bit_and flags dtype_mask == slt_vhead

unfoldable pub is_term : ℕ → Bool
is_term flags =
    bit_and flags frametype_mask == frametype_datasync && bit_and flags dtype_mask == slt_vterm

-- Unit calls and CSBK or data frames are out of scope.
unfoldable pub is_dropped : ℕ → Bool
is_dropped flags = not (bit_and flags flag_call_unit == 0) || bit_and flags vcsbk_mask == vcsbk_mask

-- The burst for one CC-CC voice payload at position `pos`.
unfoldable pub cc_voice_payload : List (List ℕ) → ℕ → List ℕ → List ℕ
cc_voice_payload emb pos ambe21 =
    let ambe49 = unpack21 ambe21 in
    voice_burst (ambe_49_to_72 (get_or ambe49 0 [])) (ambe_49_to_72 (get_or ambe49 1 []))
      (ambe_49_to_72 (get_or ambe49 2 [])) (build_embed emb pos)

unfoldable pub voice_flags : ℕ → ℕ
voice_flags pos = if pos == 0 then frametype_voicesync else frametype_voice + pos

module _ (e : Env) (i : ℕ) where
  -- The end of `translator_cccc_bon`: the new call, and the voice header for it.
  unfoldable pub start_cc_call : ℕ → ℕ → Handler
  start_cc_call radio_id peer_id s =
      let lc = call_lc (link_at e.cfg i).tgid radio_id in
      let call = record zero_call {
        origin = from_cc;
        rf_src = radio_id;
        cc_peer_id = peer_id;
        stream_id = take 4 e.random;
        lc = lc;
        emb = encode_emblc lc;
        call_start_time = e.now;
        last_activity = e.now;
      } in
      send_obp_voice_head e i (with_has_call (with_call s call) true)

  unfoldable pub translator_cccc_bon : ℕ → ℕ → Handler
  unfolding start_cc_call
  translator_cccc_bon radio_id peer_id s =
      let t = with_logged s false in
      if not (link_at e.cfg i).enabled
      then (s, [])
      else if not (obp_gate_open e i)
      then obp_gate_closed e i t
      else if in_cc_call t || in_obp_call t
      then (t, [])
      else start_cc_call radio_id peer_id t

  -- One voice payload as a burst at the call's next position.
  unfoldable pub relay_cc_voice : List ℕ → Handler
  relay_cc_voice ambe21 s =
      let t = with_call s (record s.lr.call { last_activity = e.now }) in
      let pos = s.lr.call.obp_seq_pos % 6 in
      send_dmrd_frame e i (voice_flags pos) (cc_voice_payload s.lr.call.emb pos ambe21) t
      then_do (λ u.
          silent (with_call u (record u.lr.call { obp_seq_pos = u.lr.call.obp_seq_pos + 1 })))

  unfoldable pub translator_cccc_voice : List ℕ → Handler
  unfolding relay_cc_voice
  translator_cccc_voice ambe21 s =
      if in_cc_call s && (link_at e.cfg i).cross_connect_active
      then relay_cc_voice ambe21 s
      else (s, [])

  unfoldable pub translator_cccc_boff : Handler
  translator_cccc_boff s = end_cc_origin_call e i s

  unfoldable pub translator_cccc_link_up : Handler
  translator_cccc_link_up s = (with_logged s false, [])

  unfoldable pub translator_cccc_link_down : Handler
  translator_cccc_link_down s =
      (if in_cc_call s then send_obp_voice_term e i s else (s, []))
      then_do (λ t. silent (with_logged (with_has_call t false) false))

  -- The end of `translator_obp_dmrd_received`: the gate and the kinds of frame.
  unfoldable pub dmrd_open : List ℕ → List ℕ → Handler
  dmrd_open body stream s =
      let flags = get_or body flags_off 0 in
      if not (obp_gate_open e i)
      then obp_gate_closed e i s
      else if is_head flags
      then handle_obp_voice_head e i (rd32 (drop netid_off body)) (rd24 (drop src_off body)) stream
          s
      else if is_term flags
      then handle_obp_voice_term e i stream s
      else handle_obp_voice_burst e i (take 33 (drop payload_off body)) stream s

  -- The same, once the link is found; a header is a new attempt.
  unfoldable pub link_dmrd_received : List ℕ → Handler
  link_dmrd_received body s =
      if not (link_at e.cfg i).enabled
      then (s, [])
      else dmrd_open body (take 4 (drop stream_off body))
          (if is_head (get_or body flags_off 0) then with_logged s false else s)

  -- The body of the loop of `translator_tick`: five seconds without activity end a call.
  unfoldable pub link_tick : Handler
  link_tick s =
      if not s.lr.has_call
      then (s, [])
      else if ltb (s.lr.call.last_activity + 5000000000) e.now
      then (if in_obp_call s then end_obp_origin_call e i s else end_cc_origin_call e i s)
      else (s, [])
