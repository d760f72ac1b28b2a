-- ===== src/Translate/Phases.antt =====
-- What a link sends obeys one protocol: calls open, run and close in turn.
use cc2obp.Common.{
  ℕ, ◌+◌, ◌%◌, ◌≡◌, refl, inl, inr, Bool, true, false, not, ◌&&◌, ◌||◌, Option, none, some, List,
  [], ◌∷◌, arith, ltb, ◌==◌, if◌then◌else◌, Bool-cases, get_or,
}
use cc2obp.Wire.{wr24, wr32}
use cc2obp.Config.{link_at}
use cc2obp.Openbridge.Const.{flags_off}
use cc2obp.Translate.Handlers.{
  obp_gate_open, obp_gate_closed, send_dmrd_frame, send_obp_voice_head, send_obp_voice_term,
  dmrd_body, end_obp_origin_call, end_cc_origin_call, handle_obp_voice_head, handle_obp_voice_burst,
  start_obp_call, handle_obp_voice_term,
}
use cc2obp.Translate.Incoming.{
  voice_flags, relay_cc_voice, translator_cccc_bon, translator_cccc_voice, translator_cccc_boff,
  translator_cccc_link_up, translator_cccc_link_down, link_dmrd_received, link_tick, is_head,
  is_term, dmrd_open,
}
use cc2obp.Translate.{
  CallOrigin, no_origin, from_cc, from_obp, CallState, LinkRuntime, Env, Slot, Handler, Action,
  send_bon, send_boff, send_voice, send_dmrd, log_drop, in_obp_call, with_logged,
}

-- The specification: a link is idle, or carries a call from CC-CC whose next burst has a position
-- from 0 to 5, or carries a call from OpenBridge that has sent its first packet or not.
pub data Phase : Type 0 where
  idle : Phase
  cc_call : (pos : ℕ) → Phase
  obp_call : (started : Bool) → Phase

abbrev pub phase_of : CallOrigin → CallState → Phase
phase_of no_origin c = idle
phase_of from_cc c = cc_call (c.obp_seq_pos % 6)
phase_of from_obp c = obp_call c.cc_sent_first

abbrev pub phase : LinkRuntime → Phase
phase lr = if lr.has_call then phase_of lr.call.origin lr.call else idle

abbrev pub flags_of : List ℕ → ℕ
flags_of body = get_or body flags_off 0

-- The move of the specification for an action, `none` where the protocol forbids it.
unfoldable pub move : Phase → Action → Option Phase
move ph (log_drop _ _) = some ph
move idle (send_bon _ _ _ _ _) = some (obp_call false)
move idle (send_boff _ _ _) = none
move idle (send_voice _ _ _ _ _) = none
move idle (send_dmrd _ _ body) = if flags_of body == 0x21 then some (cc_call 0) else none
move (cc_call pos) (send_bon _ _ _ _ _) = none
move (cc_call pos) (send_boff _ _ _) = none
move (cc_call pos) (send_voice _ _ _ _ _) = none
move (cc_call pos) (send_dmrd _ _ body) =
    if flags_of body == 0x22
    then some idle
    else if flags_of body == (if pos == 0 then 0x10 else pos)
    then some (cc_call ((pos + 1) % 6))
    else none
move (obp_call started) (send_bon _ _ _ _ _) = none
move (obp_call started) (send_boff _ lost total) =
    if lost == 0 && (started || total == 0) then some idle else none
move (obp_call started) (send_voice _ _ _ marker _) =
    if marker && not started || not marker && started then some (obp_call true) else none
move (obp_call started) (send_dmrd _ _ _) = none

-- The link that an action is for.
abbrev pub owner : Action → ℕ
owner (send_bon i _ _ _ _) = i
owner (send_boff i _ _) = i
owner (send_voice i _ _ _ _) = i
owner (send_dmrd i _ _) = i
owner (log_drop i _) = i

-- Every action is for link `i`, and each is a move of the specification.
unfoldable pub observe_all : ℕ → Phase → List Action → Option Phase
unfolding move
observe_all i ph [] = some ph
observe_all i ph (a ∷ rest) =
    let next = move ph a in
    if owner a == i then elim next [ none ↦ none | some ph' ↦ observe_all i ph' rest ] else none

-- When the CC-CC side of a link is gone, a call from OpenBridge ends with it and says nothing.
abbrev pub lose : Phase → Phase
lose (obp_call started) = idle
lose ph = ph

-- The link's peer is resolved: what `config_load` does for a system that has an entry.
abbrev pub IsResolved : Env → ℕ → Type 0
IsResolved e i = (p : ℕ) × ((link_at e.cfg i).openbridge_idx ≡ some p)

-- A handler sends what the protocol allows, and leaves the link in the phase that it ends in.
abbrev pub Ends : ℕ → Phase → Slot × List Action → Type 0
Ends i ph r = observe_all i ph r.1 ≡ some (phase r.0.lr)

abbrev pub Follows : ℕ → Handler → Slot → Type 0
Follows i h s = Ends i (phase s.lr) (h s)

Ends-if :
    (i : ℕ) (b : Bool) (ph : Phase) (x y : Slot × List Action)
    → Ends i ph x
    → Ends i ph y
    → Ends i ph (if b then x else y)
Ends-if i true ph x y h k = h
Ends-if i false ph x y h k = k

Ends-silent : (i : ℕ) (s : Slot) → Ends i (phase s.lr) (s, [])
unfolding observe_all
Ends-silent i s = refl

module _ (e : Env) (i : ℕ) (known : IsResolved e i) where
  end_obp-Follows : (s : Slot) → Follows i (end_obp_origin_call e i) s
  unfolding end_obp_origin_call observe_all
  end_obp-Follows s = ground arith

  end_cc-Follows : (s : Slot) → Follows i (end_cc_origin_call e i) s
  unfolding end_cc_origin_call observe_all dmrd_body wr24 wr32
  end_cc-Follows s = ground arith

  start_obp-Follows :
      (s : Slot) (peer_id rf_src : ℕ) (stream : List ℕ)
      → phase s.lr ≡ idle
      → Follows i (start_obp_call e i peer_id rf_src stream) s
  unfolding start_obp_call observe_all
  start_obp-Follows s peer_id rf_src stream h = ground arith

  obp_head-Follows :
      (s : Slot) (peer_id rf_src : ℕ) (stream : List ℕ)
      → Follows i (handle_obp_voice_head e i peer_id rf_src stream) s
  unfolding handle_obp_voice_head observe_all
  obp_head-Follows s peer_id rf_src stream = ground arith

  obp_burst-Follows :
      (s : Slot) (payload33 stream : List ℕ)
      → Follows i (handle_obp_voice_burst e i payload33 stream) s
  unfolding handle_obp_voice_burst observe_all
  obp_burst-Follows s payload33 stream = ground arith

  obp_term-Follows : (s : Slot) (stream : List ℕ) → Follows i (handle_obp_voice_term e i stream) s
  unfolding handle_obp_voice_term observe_all
  obp_term-Follows s stream = ground arith

  closed-Follows : (s : Slot) → Follows i (obp_gate_closed e i) s
  unfolding obp_gate_closed observe_all
  closed-Follows s = ground arith

  pub bon-Follows :
      (s : Slot) (radio_id peer_id : ℕ) → Follows i (translator_cccc_bon e i radio_id peer_id) s
  unfolding translator_cccc_bon obp_gate_closed observe_all dmrd_body wr24 wr32 send_obp_voice_head
  bon-Follows s radio_id peer_id = ground arith

  pub voice-Follows : (s : Slot) (ambe21 : List ℕ) → Follows i (translator_cccc_voice e i ambe21) s
  unfolding translator_cccc_voice relay_cc_voice voice_flags send_dmrd_frame observe_all dmrd_body
      wr24 wr32
  voice-Follows s ambe21 = ground arith

  -- The attempt boundary of a header does not touch the phase.
  dmrd_open-Follows :
      (t : Slot) (body stream : List ℕ) → Ends i (phase t.lr) (dmrd_open e i body stream t)
  unfolding dmrd_open
  dmrd_open-Follows t body stream =
      Ends-if i (not (obp_gate_open e i)) (phase t.lr) _ _ (closed-Follows t) (
        Ends-if i (is_head (flags_of body)) (phase t.lr) _ _ (obp_head-Follows t _ _ stream) (
          Ends-if i (is_term (flags_of body)) (phase t.lr) _ _ (obp_term-Follows t stream)
            (obp_burst-Follows t _ stream)))

  pub dmrd-Follows : (s : Slot) (body : List ℕ) → Follows i (link_dmrd_received e i body) s
  unfolding link_dmrd_received
  dmrd-Follows s body =
      Ends-if i (not (link_at e.cfg i).enabled) (phase s.lr) _ _ (Ends-silent i s)
        (elim (Bool-cases (is_head (flags_of body))) [
          | inl h ↦ rw h (dmrd_open-Follows (with_logged s false) body _)
          | inr h ↦ rw h (dmrd_open-Follows s body _)
        ])

  pub tick-Follows : (s : Slot) → Follows i (link_tick e i) s
  unfolding link_tick
  tick-Follows s = Ends-if i (not s.lr.has_call) (phase s.lr) _ _ (Ends-silent i s) (
      Ends-if i (ltb (s.lr.call.last_activity + 5000000000) e.now) (phase s.lr) _ _
        (Ends-if i (in_obp_call s) (phase s.lr) _ _ (end_obp-Follows s) (end_cc-Follows s))
        (Ends-silent i s))

  pub boff-Follows : (s : Slot) → Follows i (translator_cccc_boff e i) s
  unfolding translator_cccc_boff
  boff-Follows s = end_cc-Follows s

  pub up-Follows : (s : Slot) → Follows i (translator_cccc_link_up e i) s
  unfolding translator_cccc_link_up observe_all
  up-Follows s = refl

  pub down-Ends : (s : Slot) → Ends i (lose (phase s.lr)) (translator_cccc_link_down e i s)
  unfolding translator_cccc_link_down send_obp_voice_term observe_all dmrd_body wr24 wr32
  down-Ends s = ground arith
