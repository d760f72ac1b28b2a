-- ===== src/Translate/Links.antt =====
-- translate.c: what a link remembers of a call, and the sizes of what it sends.
pub mod Runs
use cc2obp.Common.{
  ℕ, ◌+◌, ◌%◌, ◌≡◌, refl, ap, ◌∙◌, ◌⊎◌, inl, inr, Bool, true, false, not, ◌&&◌, ◌||◌, Option, none,
  some, List, [], ◌∷◌, ◌++◌, arith, ltb, if◌then◌else◌, Bool-cases, length, get_or, take, drop,
  eq-tabulate, take-all, All,
}
use cc2obp.Config.{link_at}
use cc2obp.Openbridge.Const.{flags_off, stream_off}
use cc2obp.Translate.Handlers.{
  obp_gate_open, obp_gate_closed, dmrd_body, send_dmrd_frame, send_obp_voice_head,
  send_obp_voice_term, end_obp_origin_call, end_cc_origin_call, start_obp_call,
  handle_obp_voice_head, relay_obp_burst, handle_obp_voice_burst, handle_obp_voice_term,
}
use cc2obp.Wire.{same_bytes}
use cc2obp.Translate.Incoming.{
  is_head, is_term, cc_voice_payload, voice_flags, start_cc_call, translator_cccc_bon,
  relay_cc_voice, translator_cccc_voice, translator_cccc_boff, translator_cccc_link_up,
  translator_cccc_link_down, dmrd_open, link_dmrd_received, link_tick,
}
use cc2obp.Translate.{
  from_cc, from_obp, LinkRuntime, Env, Slot, Handler, Action, send_voice, send_dmrd, in_cc_call,
  in_obp_call, with_call, with_has_call, with_logged, update, ◌then_do◌, silent,
}
use cc2obp.Dmr.Emblc.{encode_emblc}
use cc2obp.Translate.Frames.{dmrd_body-fields}
use cc2obp.Translate.Voice.{length-cc_voice_payload, length-pack21-extract_ambe}
use cc2obp.Translate.Header.{length-payload, length-call_lc}

-- A link has four bytes of stream identifier, and its call, if it has one, is from OpenBridge, or
-- is from CC-CC and holds the fragments of its own link control.
abbrev pub IsWellFormed : LinkRuntime → Type 0
IsWellFormed lr =
    (length lr.call.stream_id ≡ 4)
    × ((lr.has_call ≡ false)
        ⊎ (lr.call.origin ≡ from_obp)
        ⊎ ((lr.call.origin ≡ from_cc)
            × (length lr.call.lc ≡ 9)
            × (lr.call.emb ≡ encode_emblc lr.call.lc)))

-- A DMRD frame has 53 bytes, and a voice payload 21.
abbrev pub IsSized : Action → Type 0
IsSized (send_dmrd _ _ body) = length body ≡ 53
IsSized (send_voice _ _ _ _ ambe21) = length ambe21 ≡ 21
IsSized _ = Unit

abbrev pub IsGood : Slot × List Action → Type 0
IsGood r = IsWellFormed r.0.lr × All IsSized r.1

All-append : (xs ys : List Action) → All IsSized xs → All IsSized ys → All IsSized (xs ++ ys)
All-append [] ys h k = k
All-append (x ∷ xs) ys h k = (h.0, All-append xs ys h.1 k)

then_do-IsGood :
    (r : Slot × List Action) (h : Handler)
    → IsGood r
    → (IsWellFormed r.0.lr → IsGood (h r.0))
    → IsGood (r then_do h)
then_do-IsGood r h good next = let later = next good.0 in (later.0, All-append r.1 _ good.1 later.1)

if-IsGood :
    (b : Bool) (x y : Slot × List Action)
    → (b ≡ true → IsGood x)
    → (b ≡ false → IsGood y)
    → IsGood (if b then x else y)
if-IsGood true x y h k = h refl
if-IsGood false x y h k = k refl

stream_length : (body : List ℕ) → length body ≡ 53 → length (take 4 (drop stream_off body)) ≡ 4
stream_length body long = rw (eq-tabulate 53 body 0 long) refl

-- A call from CC-CC holds its own fragments.
own :
    (s : Slot) → IsWellFormed s.lr → in_cc_call s ≡ true → s.lr.call.emb ≡ encode_emblc s.lr.call.lc
own s w h = ground arith

module _ (e : Env) (i : ℕ) where
  frame-IsGood :
      (s : Slot) (flags : ℕ) (payload33 : List ℕ)
      → length payload33 ≡ 33
      → IsWellFormed s.lr
      → IsGood (send_dmrd_frame e i flags payload33 s)
  unfolding send_dmrd_frame
  frame-IsGood s flags payload33 long w = to_peer (link_at e.cfg i).openbridge_idx
    where
      to_peer :
          (found : Option ℕ)
          → IsGood (elim found [
            | none ↦ (s, [])
            | some p ↦ (
              record s { ctr = update s.ctr p (s.ctr p + 1) },
              send_dmrd i p (dmrd_body e i s p flags payload33) ∷ [],
            )
          ])
      to_peer none = (w, tt)
      to_peer (some p) = (w, ((dmrd_body-fields e i s p flags payload33 w.0 long).0, tt))

  head-IsGood : (s : Slot) → IsWellFormed s.lr → IsGood (send_obp_voice_head e i s)
  unfolding send_obp_voice_head
  head-IsGood s w = frame-IsGood s _ _ (length-payload s.lr.call.lc false) w

  term-IsGood : (s : Slot) → IsWellFormed s.lr → IsGood (send_obp_voice_term e i s)
  unfolding send_obp_voice_term
  term-IsGood s w = frame-IsGood s _ _ (length-payload s.lr.call.lc true) w

  end_obp-IsGood : (s : Slot) → IsWellFormed s.lr → IsGood (end_obp_origin_call e i s)
  unfolding end_obp_origin_call
  end_obp-IsGood s w =
      if-IsGood (in_obp_call s) _ _ (λ _. ((w.0, inl refl), (tt, tt))) (λ _. (w, tt))

  end_cc-IsGood : (s : Slot) → IsWellFormed s.lr → IsGood (end_cc_origin_call e i s)
  unfolding end_cc_origin_call
  end_cc-IsGood s w =
      if-IsGood (in_cc_call s) _ _
        (λ _.
          then_do-IsGood (send_obp_voice_term e i s) (λ t. silent (with_has_call t false))
            (term-IsGood s w) (λ v. ((v.0, inl refl), tt)))
        (λ _. (w, tt))

  start_obp-IsGood :
      (s : Slot) (peer_id rf_src : ℕ) (stream : List ℕ)
      → length stream ≡ 4
      → IsGood (start_obp_call e i peer_id rf_src stream s)
  unfolding start_obp_call
  start_obp-IsGood s peer_id rf_src stream four = ((four, inr (inl refl)), (tt, tt))

  obp_head-IsGood :
      (s : Slot) (peer_id rf_src : ℕ) (stream : List ℕ)
      → length stream ≡ 4
      → IsWellFormed s.lr
      → IsGood (handle_obp_voice_head e i peer_id rf_src stream s)
  unfolding handle_obp_voice_head
  obp_head-IsGood s peer_id rf_src stream four w =
      if-IsGood (in_obp_call s) _ _
        (λ _.
          if-IsGood (same_bytes stream s.lr.call.stream_id) _ _ (λ _. (w, tt))
            (λ _.
              then_do-IsGood (end_obp_origin_call e i s) (start_obp_call e i peer_id rf_src stream)
                (end_obp-IsGood s w)
                (λ _. start_obp-IsGood (end_obp_origin_call e i s).0 peer_id rf_src stream four)))
        (λ _.
          if-IsGood (in_cc_call s) _ _ (λ _. (w, tt))
            (λ _. start_obp-IsGood s peer_id rf_src stream four))

  obp_burst-IsGood :
      (s : Slot) (payload33 stream : List ℕ)
      → IsWellFormed s.lr
      → IsGood (handle_obp_voice_burst e i payload33 stream s)
  unfolding handle_obp_voice_burst relay_obp_burst
  obp_burst-IsGood s payload33 stream w =
      if-IsGood (in_obp_call s && same_bytes stream s.lr.call.stream_id) _ _
        (λ _. (w, (length-pack21-extract_ambe payload33, tt))) (λ _. (w, tt))

  obp_term-IsGood :
      (s : Slot) (stream : List ℕ) → IsWellFormed s.lr → IsGood (handle_obp_voice_term e i stream s)
  unfolding handle_obp_voice_term
  obp_term-IsGood s stream w =
      if-IsGood (in_obp_call s && same_bytes stream s.lr.call.stream_id) _ _
        (λ _. end_obp-IsGood s w) (λ _. (w, tt))

  closed-IsGood : (s : Slot) → IsWellFormed s.lr → IsGood (obp_gate_closed e i s)
  unfolding obp_gate_closed
  closed-IsGood s w = if-IsGood s.lr.cx_drop_logged _ _ (λ _. (w, tt)) (λ _. (w, (tt, tt)))

  pub bon-IsGood :
      (s : Slot) (radio_id peer_id : ℕ)
      → length e.random ≡ 4
      → IsWellFormed s.lr
      → IsGood (translator_cccc_bon e i radio_id peer_id s)
  unfolding translator_cccc_bon start_cc_call
  bon-IsGood s radio_id peer_id four w =
      if-IsGood (not (link_at e.cfg i).enabled) _ _ (λ _. (w, tt))
        (λ _.
          if-IsGood (not (obp_gate_open e i)) _ _ (λ _. closed-IsGood (with_logged s false) w)
            (λ _.
              if-IsGood (in_cc_call s || in_obp_call s) _ _ (λ _. (w, tt))
                (λ _. head-IsGood _ (
                  ap length (take-all 4 e.random four) ∙ four,
                  inr (inr (refl, length-call_lc _ radio_id, refl)),
                ))))

  pub down-IsGood : (s : Slot) → IsWellFormed s.lr → IsGood (translator_cccc_link_down e i s)
  unfolding translator_cccc_link_down
  down-IsGood s w =
      then_do-IsGood (if in_cc_call s then send_obp_voice_term e i s else (s, []))
        (λ t. silent (with_logged (with_has_call t false) false))
        (if-IsGood (in_cc_call s) _ _ (λ _. term-IsGood s w) (λ _. (w, tt)))
        (λ v. ((v.0, inl refl), tt))

  open-IsGood :
      (s : Slot) (body stream : List ℕ)
      → length stream ≡ 4
      → IsWellFormed s.lr
      → IsGood (dmrd_open e i body stream s)
  unfolding dmrd_open
  open-IsGood s body stream four w =
      if-IsGood (not (obp_gate_open e i)) _ _ (λ _. closed-IsGood s w)
        (λ _.
          if-IsGood (is_head (get_or body flags_off 0)) _ _
            (λ _. obp_head-IsGood s _ _ stream four w)
            (λ _.
              if-IsGood (is_term (get_or body flags_off 0)) _ _ (λ _. obp_term-IsGood s stream w)
                (λ _. obp_burst-IsGood s _ stream w)))

  pub dmrd-IsGood :
      (s : Slot) (body : List ℕ)
      → length body ≡ 53
      → IsWellFormed s.lr
      → IsGood (link_dmrd_received e i body s)
  unfolding link_dmrd_received
  dmrd-IsGood s body long w =
      if-IsGood (not (link_at e.cfg i).enabled) _ _ (λ _. (w, tt))
        (λ _. elim (Bool-cases (is_head (get_or body flags_off 0))) [
          | inl h ↦ rw h (open-IsGood (with_logged s false) body _ (stream_length body long) w)
          | inr h ↦ rw h (open-IsGood s body _ (stream_length body long) w)
        ])

  pub tick-IsGood : (s : Slot) → IsWellFormed s.lr → IsGood (link_tick e i s)
  unfolding link_tick
  tick-IsGood s w =
      if-IsGood (not s.lr.has_call) _ _ (λ _. (w, tt))
        (λ _.
          if-IsGood (ltb (s.lr.call.last_activity + 5000000000) e.now) _ _
            (λ _. if-IsGood (in_obp_call s) _ _ (λ _. end_obp-IsGood s w) (λ _. end_cc-IsGood s w))
            (λ _. (w, tt)))

  pub boff-IsGood : (s : Slot) → IsWellFormed s.lr → IsGood (translator_cccc_boff e i s)
  unfolding translator_cccc_boff
  boff-IsGood s w = end_cc-IsGood s w

  pub up-IsGood : (s : Slot) → IsWellFormed s.lr → IsGood (translator_cccc_link_up e i s)
  unfolding translator_cccc_link_up
  up-IsGood s w = (w, tt)

  pub voice-IsGood :
      (s : Slot) (ambe21 : List ℕ) → IsWellFormed s.lr → IsGood (translator_cccc_voice e i ambe21 s)
  unfolding translator_cccc_voice relay_cc_voice
  voice-IsGood s ambe21 w =
      if-IsGood (in_cc_call s && (link_at e.cfg i).cross_connect_active) _ _
        (λ h.
          then_do-IsGood
            (send_dmrd_frame e i (voice_flags pos) (cc_voice_payload s.lr.call.emb pos ambe21) t)
            (λ u.
              silent (with_call u (record u.lr.call { obp_seq_pos = u.lr.call.obp_seq_pos + 1 })))
            (frame-IsGood t _ _ (sized (own s w (in_cc h))) w) (λ v. (v, tt)))
        (λ _. (w, tt))
    where
      t : Slot
      t = with_call s (record s.lr.call { last_activity = e.now })

      pos : ℕ
      pos = s.lr.call.obp_seq_pos % 6

      in_cc : (in_cc_call s && (link_at e.cfg i).cross_connect_active) ≡ true → in_cc_call s ≡ true
      in_cc h = ground arith

      sized :
          s.lr.call.emb ≡ encode_emblc s.lr.call.lc
          → length (cc_voice_payload s.lr.call.emb pos ambe21) ≡ 33
      sized q = rw q (length-cc_voice_payload s.lr.call.lc pos ambe21 (omega arith))
