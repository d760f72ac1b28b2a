-- ===== src/Translate/Calls.antt =====
-- translate.c: who holds a link, and what a call attempt or a frame of another call does to it.
use cc2obp.Common.{
  ℕ, ◌≡◌, refl, inl, inr, Bool, true, false, not, ◌&&◌, ◌||◌, List, arith, if◌then◌else◌,
  Bool-cases, get_or, take, drop, All,
}
use cc2obp.Config.{link_at}
use cc2obp.Openbridge.Const.{flags_off, stream_off, payload_off}
use cc2obp.Translate.Handlers.{
  obp_gate_open, obp_gate_closed, handle_obp_voice_head, handle_obp_voice_burst,
  handle_obp_voice_term,
}
use cc2obp.Wire.{same_bytes}
use cc2obp.Translate.Incoming.{is_head, is_term, translator_cccc_bon, dmrd_open, link_dmrd_received}
use cc2obp.Translate.{Env, Slot, Action, log_drop, in_cc_call, in_obp_call, with_logged}

-- The call and the counters are as before.
abbrev pub SameCall : Slot → Slot → Type 0
SameCall s t = (t.lr.has_call ≡ s.lr.has_call) × (t.lr.call ≡ s.lr.call) × (t.ctr ≡ s.ctr)

abbrev pub is_log : Action → Bool
is_log (log_drop _ _) = true
is_log _ = false

-- Nothing goes out but a line in the log.
abbrev pub Undisturbed : Slot → Slot × List Action → Type 0
Undisturbed s r = SameCall s r.0 × All (λ a. is_log a ≡ true) r.1

-- The call on the link is from OpenBridge and has this stream.
abbrev pub owns : List ℕ → Slot → Bool
owns stream s = in_obp_call s && same_bytes stream s.lr.call.stream_id

if-Undisturbed :
    (b : Bool) (s : Slot) (x y : Slot × List Action)
    → (b ≡ true → Undisturbed s x)
    → (b ≡ false → Undisturbed s y)
    → Undisturbed s (if b then x else y)
if-Undisturbed true s x y h k = h refl
if-Undisturbed false s x y h k = k refl

module _ (e : Env) (i : ℕ) where
  closed-Undisturbed : (s : Slot) → Undisturbed s (obp_gate_closed e i s)
  unfolding obp_gate_closed
  closed-Undisturbed s =
      if-Undisturbed s.lr.cx_drop_logged s _ _ (λ _. ((refl, refl, refl), tt))
        (λ _. ((refl, refl, refl), (refl, tt)))

  -- A B-on on a link that has a call, from either side, leaves the call and the counters as they
  -- are, and nothing but a log line comes of it.
  pub bon_contention :
      (s : Slot) (radio_id peer_id : ℕ)
      → (in_cc_call s || in_obp_call s) ≡ true
      → Undisturbed s (translator_cccc_bon e i radio_id peer_id s)
  unfolding translator_cccc_bon
  bon_contention s radio_id peer_id busy =
      if-Undisturbed (not (link_at e.cfg i).enabled) s _ _ (λ _. ((refl, refl, refl), tt))
        (λ _.
          if-Undisturbed (not (obp_gate_open e i)) s _ _
            (λ _. closed-Undisturbed (with_logged s false)) (λ _. rw busy ((refl, refl, refl), tt)))

  -- The link is not to act on this frame.
  abbrev pub IsForeign : List ℕ → Slot → Type 0
  IsForeign body s =
      let stream = take 4 (drop stream_off body) in
      (if is_head (get_or body flags_off 0)
        then owns stream s || in_cc_call s
        else not (owns stream s))
      ≡ true

  head-Undisturbed :
      (s : Slot) (peer_id rf_src : ℕ) (stream : List ℕ)
      → (owns stream s || in_cc_call s) ≡ true
      → Undisturbed s (handle_obp_voice_head e i peer_id rf_src stream s)
  unfolding handle_obp_voice_head
  head-Undisturbed s peer_id rf_src stream held =
      if-Undisturbed (in_obp_call s) s _ _
        (λ up.
          if-Undisturbed (same_bytes stream s.lr.call.stream_id) s _ _
            (λ _. ((refl, refl, refl), tt)) (λ differ. absurd (ground arith)))
        (λ down.
          if-Undisturbed (in_cc_call s) s _ _ (λ _. ((refl, refl, refl), tt))
            (λ free. absurd (ground arith)))

  other-Undisturbed :
      (s : Slot) (body stream : List ℕ)
      → owns stream s ≡ false
      → Undisturbed s (handle_obp_voice_term e i stream s)
        × Undisturbed s (handle_obp_voice_burst e i (take 33 (drop payload_off body)) stream s)
  unfolding handle_obp_voice_term handle_obp_voice_burst
  other-Undisturbed s body stream stray =
      rw stray (((refl, refl, refl), tt), ((refl, refl, refl), tt))

  -- A DMRD frame that the call on the link does not admit leaves the call and the counters as they
  -- are, and nothing but a log line comes of it: a voice header while a call from CC-CC is up, or
  -- again for the stream that is up, and any other frame without a call from OpenBridge of its stream.
  pub dmrd_contention :
      (s : Slot) (body : List ℕ) → IsForeign body s → Undisturbed s (link_dmrd_received e i body s)
  unfolding link_dmrd_received dmrd_open
  dmrd_contention s body foreign =
      if-Undisturbed (not (link_at e.cfg i).enabled) s _ _ (λ _. ((refl, refl, refl), tt))
        (λ _. elim (Bool-cases (is_head (get_or body flags_off 0))) [
          | inl head ↦ rw head (
              if-Undisturbed (not (obp_gate_open e i)) s _ _
                (λ _. closed-Undisturbed (with_logged s false))
                (λ _. head-Undisturbed (with_logged s false) _ _ stream (held head)))
          | inr later ↦ rw later (
              if-Undisturbed (not (obp_gate_open e i)) s _ _ (λ _. closed-Undisturbed s)
                (λ _.
                  if-Undisturbed (is_term (get_or body flags_off 0)) s _ _
                    (λ _. (other-Undisturbed s body stream (stray later)).0)
                    (λ _. (other-Undisturbed s body stream (stray later)).1)))
        ])
    where
      stream : List ℕ
      stream = take 4 (drop stream_off body)

      held : is_head (get_or body flags_off 0) ≡ true → (owns stream s || in_cc_call s) ≡ true
      held head = ground (arith, foreign)

      stray : is_head (get_or body flags_off 0) ≡ false → owns stream s ≡ false
      stray later = ground (arith, foreign)
