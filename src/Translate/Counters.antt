-- ===== src/Translate/Counters.antt =====
-- translate.c: the sequence numbers of the frames to one peer.
pub mod Runs
use mathlib.Core.Path.{subst}
use cc2obp.Common.{
  ℕ, ◌+◌, ◌%◌, ◌≡◌, refl, inl, inr, Bool, true, false, not, Option, none, some, List, [], ◌∷◌,
  arith, ltb, ◌==◌, if◌then◌else◌, Bool-cases, get_or,
}
use cc2obp.Wire.{wr24, wr32, rd24, rd32, rd24-wr24, rd32-wr32}
use cc2obp.Config.{LinkConfig, link_at}
use cc2obp.Openbridge.Const.{
  dmrd_tag, src_off, dst_off, netid_off, flags_off, stream_off, payload_off,
}
use cc2obp.Translate.Handlers.{
  obp_gate_open, obp_gate_closed, dmrd_body, send_dmrd_frame, send_obp_voice_head,
  send_obp_voice_term, end_obp_origin_call, end_cc_origin_call, start_obp_call,
  handle_obp_voice_head, relay_obp_burst, handle_obp_voice_burst, handle_obp_voice_term, slot_index,
  slot_ns,
}
use cc2obp.Wire.{same_bytes}
use cc2obp.Translate.Incoming.{
  call_lc, is_head, is_term, is_dropped, cc_voice_payload, voice_flags, start_cc_call,
  translator_cccc_bon, relay_cc_voice, translator_cccc_voice, translator_cccc_boff,
  translator_cccc_link_up, translator_cccc_link_down, dmrd_open, link_dmrd_received, link_tick,
}
use cc2obp.Translate.Steps.{
  on_link, is_link_for, find_link, translator_obp_dmrd_received, tick_links, translator_tick,
  translator_new, Event, link_up, link_down, bon, boff, voice, dmrd, tick, step, run,
}
use cc2obp.Translate.{
  CallOrigin, no_origin, from_cc, from_obp, CallState, LinkRuntime, Translator, Env, Slot, Handler,
  Action, send_bon, send_boff, send_voice, send_dmrd, log_drop, in_cc_call, in_obp_call, with_call,
  with_has_call, with_logged, update, is_cc, is_obp, ◌then_do◌, silent,
}

-- The counter of peer `p` after these actions, from `c` before them; `none` once a frame to the
-- peer does not carry the low byte of the counter.
unfoldable pub count_all : ℕ → ℕ → List Action → Option ℕ
count_all p c [] = some c
count_all p c (send_dmrd _ q body ∷ rest) =
    let other = count_all p c rest in
    let next = count_all p (c + 1) rest in
    if q == p then (if get_or body 4 0 == c % 256 then next else none) else other
count_all p c (send_bon _ _ _ _ _ ∷ rest) = count_all p c rest
count_all p c (send_boff _ _ _ ∷ rest) = count_all p c rest
count_all p c (send_voice _ _ _ _ _ ∷ rest) = count_all p c rest
count_all p c (log_drop _ _ ∷ rest) = count_all p c rest

abbrev pub Counts : ℕ → ℕ → Slot × List Action → Type 0
Counts p c r = count_all p c r.1 ≡ some (r.0.ctr p)

module _ (e : Env) (i p : ℕ) where
  end_obp-Counts : (s : Slot) → Counts p (s.ctr p) (end_obp_origin_call e i s)
  unfolding end_obp_origin_call count_all
  end_obp-Counts s = ground arith

  end_cc-Counts : (s : Slot) → Counts p (s.ctr p) (end_cc_origin_call e i s)
  unfolding end_cc_origin_call count_all dmrd_body
  end_cc-Counts s = ground arith

  start_obp-Counts :
      (s : Slot) (peer_id rf_src : ℕ) (stream : List ℕ)
      → Counts p (s.ctr p) (start_obp_call e i peer_id rf_src stream s)
  unfolding start_obp_call count_all
  start_obp-Counts s peer_id rf_src stream = refl

  closed-Counts : (s : Slot) → Counts p (s.ctr p) (obp_gate_closed e i s)
  unfolding obp_gate_closed count_all
  closed-Counts s = ground arith

  obp_head-Counts :
      (s : Slot) (peer_id rf_src : ℕ) (stream : List ℕ)
      → Counts p (s.ctr p) (handle_obp_voice_head e i peer_id rf_src stream s)
  unfolding handle_obp_voice_head count_all
  obp_head-Counts s peer_id rf_src stream = ground arith

  obp_burst-Counts :
      (s : Slot) (payload33 stream : List ℕ)
      → Counts p (s.ctr p) (handle_obp_voice_burst e i payload33 stream s)
  unfolding handle_obp_voice_burst count_all
  obp_burst-Counts s payload33 stream = ground arith

  obp_term-Counts :
      (s : Slot) (stream : List ℕ) → Counts p (s.ctr p) (handle_obp_voice_term e i stream s)
  unfolding handle_obp_voice_term count_all
  obp_term-Counts s stream = ground arith

  pub bon-Counts :
      (s : Slot) (radio_id peer_id : ℕ)
      → Counts p (s.ctr p) (translator_cccc_bon e i radio_id peer_id s)
  unfolding translator_cccc_bon obp_gate_closed send_obp_voice_head count_all dmrd_body
  bon-Counts s radio_id peer_id = ground arith

  pub voice-Counts :
      (s : Slot) (ambe21 : List ℕ) → Counts p (s.ctr p) (translator_cccc_voice e i ambe21 s)
  unfolding translator_cccc_voice relay_cc_voice send_dmrd_frame count_all dmrd_body
  voice-Counts s ambe21 = ground arith

  pub down-Counts : (s : Slot) → Counts p (s.ctr p) (translator_cccc_link_down e i s)
  unfolding translator_cccc_link_down send_obp_voice_term count_all dmrd_body
  down-Counts s = ground arith

  Counts-if :
      (b : Bool) (c : ℕ) (x y : Slot × List Action)
      → Counts p c x
      → Counts p c y
      → Counts p c (if b then x else y)
  Counts-if true c x y h k = h
  Counts-if false c x y h k = k

  Counts-silent : (s : Slot) → Counts p (s.ctr p) (s, [])
  unfolding count_all
  Counts-silent s = refl

  open-Counts : (s : Slot) (body stream : List ℕ) → Counts p (s.ctr p) (dmrd_open e i body stream s)
  unfolding dmrd_open
  open-Counts s body stream = Counts-if (not (obp_gate_open e i)) (s.ctr p) _ _ (closed-Counts s) (
      Counts-if (is_head (get_or body flags_off 0)) (s.ctr p) _ _ (obp_head-Counts s _ _ stream) (
        Counts-if (is_term (get_or body flags_off 0)) (s.ctr p) _ _ (obp_term-Counts s stream)
          (obp_burst-Counts s _ stream)))

  pub dmrd-Counts : (s : Slot) (body : List ℕ) → Counts p (s.ctr p) (link_dmrd_received e i body s)
  unfolding link_dmrd_received
  dmrd-Counts s body =
      Counts-if (not (link_at e.cfg i).enabled) (s.ctr p) _ _ (Counts-silent s)
        (elim (Bool-cases (is_head (get_or body flags_off 0))) [
          | inl h ↦ rw h (open-Counts (with_logged s false) body _)
          | inr h ↦ rw h (open-Counts s body _)
        ])

  pub tick-Counts : (s : Slot) → Counts p (s.ctr p) (link_tick e i s)
  unfolding link_tick
  tick-Counts s = Counts-if (not s.lr.has_call) (s.ctr p) _ _ (Counts-silent s) (
      Counts-if (ltb (s.lr.call.last_activity + 5000000000) e.now) (s.ctr p) _ _
        (Counts-if (in_obp_call s) (s.ctr p) _ _ (end_obp-Counts s) (end_cc-Counts s))
        (Counts-silent s))

  pub boff-Counts : (s : Slot) → Counts p (s.ctr p) (translator_cccc_boff e i s)
  unfolding translator_cccc_boff
  boff-Counts s = end_cc-Counts s

  pub up-Counts : (s : Slot) → Counts p (s.ctr p) (translator_cccc_link_up e i s)
  unfolding translator_cccc_link_up count_all
  up-Counts s = refl
