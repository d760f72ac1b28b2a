-- ===== src/Translate/Protocol/Runs.antt =====
-- The translator's steps, one after another: each keeps every link in step with the protocol.
use mathlib.Core.Path.{subst}
use cc2obp.Common.{
  ℕ, zero, suc, ◌+◌, ◌≤◌, ◌<◌, ◌≡◌, refl, sym, ap, ◌∙◌, ◌⊎◌, inl, inr, true, false, Option, none,
  some, List, [], ◌∷◌, arith, ◌==◌, if◌then◌else◌, ==→≡, Bool-cases, length, get_or, drop, All,
}
use cc2obp.Wire.{rd24}
use cc2obp.Openbridge.Const.{dst_off, flags_off}
use cc2obp.Translate.Phases.{
  Phase, idle, phase, observe_all, lose, IsResolved, Ends, bon-Follows, voice-Follows, dmrd-Follows,
  tick-Follows, boff-Follows, up-Follows, down-Ends,
}
use cc2obp.Translate.Incoming.{
  is_dropped, link_tick, link_dmrd_received, translator_cccc_bon, translator_cccc_voice,
  translator_cccc_boff, translator_cccc_link_up, translator_cccc_link_down,
}
use cc2obp.Translate.Steps.{
  on_link, find_link, translator_obp_dmrd_received, tick_links, translator_tick, translator_new,
  Event, link_up, link_down, bon, boff, voice, dmrd, tick, step, run,
}
use cc2obp.Translate.{Translator, Env, Handler, Action}
use cc2obp.Translate.Protocol.{
  actions_of, slot_of, enter, trace, watch, InTable, IsReady, actions_of-append, observe_all-append,
  find_link-bound, on_link-observed,
}

-- A step leaves link `j` in the phase that its actions for `j` lead to from `ph`.
abbrev pub Stands : ℕ → Phase → Translator × List Action → Type 0
Stands j ph r = observe_all j ph (actions_of j r.1) ≡ some (phase (r.0.link j))

-- A handler that follows the protocol from the phase of its link.
on_link-Stands :
    (i j : ℕ) (h : Handler) (tr : Translator)
    → Ends i (phase (tr.link i)) (h (slot_of tr i))
    → Stands j (phase (tr.link j)) (on_link i h tr)
on_link-Stands i j h tr ends =
    subst (λ ph. Stands j ph (on_link i h tr)) (same_phase (Bool-cases (j == i)))
      (on_link-observed i j h tr (phase (tr.link i)) ends)
  where
    same_phase :
        ((j == i) ≡ true) ⊎ ((j == i) ≡ false)
        → (if j == i then phase (tr.link i) else phase (tr.link j)) ≡ phase (tr.link j)
    same_phase (inl same) = rw same (ap (λ x. phase (tr.link x)) (sym (==→≡ j i same)))
    same_phase (inr other) = rw other refl

module _ (e : Env) (known : (i : ℕ) → i < length e.cfg.link → IsResolved e i) (j : ℕ) where
  tick_links-Stands :
      (n k : ℕ) (tr : Translator)
      → k + n ≤ length e.cfg.link
      → Stands j (phase (tr.link j)) (tick_links e n k tr)
  unfolding tick_links observe_all actions_of
  tick_links-Stands zero k tr le = refl
  tick_links-Stands (suc n) k tr le =
      let r = on_link k (link_tick e k) tr in
      let first =
        on_link-Stands k j (link_tick e k) tr
          (tick-Follows e k (known k (omega arith)) (slot_of tr k)) in
      let rest = tick_links-Stands n (k + 1) r.0 (omega arith) in
      rw (actions_of-append j r.1 (tick_links e n (k + 1) r.0).1)
        (observe_all-append j _ _ (actions_of j r.1) _ first ∙ rest)

  dmrd-Stands :
      (p : ℕ) (body : List ℕ) (tr : Translator)
      → Stands j (phase (tr.link j)) (translator_obp_dmrd_received e p body tr)
  unfolding translator_obp_dmrd_received observe_all actions_of
  dmrd-Stands p body tr = elim (Bool-cases (is_dropped (get_or body flags_off 0))) [
    | inl gone ↦ rw gone refl
    | inr kept ↦ rw kept (found-Stands (find_link p (rd24 (drop dst_off body)) 0 e.cfg.link) refl)
  ]
    where
      bound :
          (i : ℕ)
          → find_link p (rd24 (drop dst_off body)) 0 e.cfg.link ≡ some i
          → i < length e.cfg.link
      bound i h =
          let lt = find_link-bound p (rd24 (drop dst_off body)) 0 i e.cfg.link h in omega arith

      found-Stands :
          (found : Option ℕ)
          → find_link p (rd24 (drop dst_off body)) 0 e.cfg.link ≡ found
          → Stands j
              (phase (tr.link j))
              (elim found [ none ↦ (tr, []) | some i ↦ on_link i (link_dmrd_received e i body) tr ])
      found-Stands none h = refl
      found-Stands (some i) h =
          on_link-Stands i j (link_dmrd_received e i body) tr
            (dmrd-Follows e i (known i (bound i h)) (slot_of tr i) body)

  step-Stands :
      (ev : Event) (tr : Translator)
      → InTable e ev
      → Stands j (enter j ev (phase (tr.link j))) (step e ev tr)
  unfolding step translator_tick
  step-Stands (link_up i) tr lt =
      on_link-Stands i j (translator_cccc_link_up e i) tr
        (up-Follows e i (known i lt) (slot_of tr i))
  step-Stands (link_down i) tr lt =
      subst (λ ph. Stands j ph (on_link i (translator_cccc_link_down e i) tr))
        (lost (Bool-cases (j == i)))
        (on_link-observed i j (translator_cccc_link_down e i) tr (lose (phase (tr.link i)))
          (down-Ends e i (known i lt) (slot_of tr i)))
    where
      lost :
          ((j == i) ≡ true) ⊎ ((j == i) ≡ false)
          → (if j == i then lose (phase (tr.link i)) else phase (tr.link j))
            ≡ (if j == i then lose (phase (tr.link j)) else phase (tr.link j))
      lost (inl same) = rw same (ap (λ x. lose (phase (tr.link x))) (sym (==→≡ j i same)))
      lost (inr other) = rw other refl
  step-Stands (bon i radio_id peer_id) tr lt =
      on_link-Stands i j (translator_cccc_bon e i radio_id peer_id) tr
        (bon-Follows e i (known i lt) (slot_of tr i) radio_id peer_id)
  step-Stands (boff i) tr lt =
      on_link-Stands i j (translator_cccc_boff e i) tr
        (boff-Follows e i (known i lt) (slot_of tr i))
  step-Stands (voice i ambe21) tr lt =
      on_link-Stands i j (translator_cccc_voice e i ambe21) tr
        (voice-Follows e i (known i lt) (slot_of tr i) ambe21)
  step-Stands (dmrd p body) tr lt = dmrd-Stands p body tr
  step-Stands tick tr lt = tick_links-Stands (length e.cfg.link) 0 tr (omega arith)

watch-trace :
    (j : ℕ) (evs : List (Env × Event)) (tr : Translator)
    → All IsReady evs
    → watch j (phase (tr.link j)) (trace evs tr) ≡ some (phase ((run evs tr).0.link j))
unfolding watch trace run
watch-trace j [] tr ready = refl
watch-trace j ((e, ev) ∷ evs) tr ready =
    let (known, lt) = ready.0 in
    rw (step-Stands e known j ev tr lt, watch, trace) (watch-trace j evs (step e ev tr).0 ready.1)

-- In any run of the translator from its start, what it sends on each link `j` is a word of the
-- protocol: a B-on, then voice packets of which the first and no other carries the marker, then a
-- B-off; or a voice header, then bursts whose positions count from 0 to 5 and begin again, then a
-- terminator. Only the loss of the CC-CC side ends a call from OpenBridge without a B-off. The run
-- stays inside the table, and each link has a resolved peer.
pub run_protocol :
    (j : ℕ) (evs : List (Env × Event))
    → All IsReady evs
    → watch j idle (trace evs translator_new) ≡ some (phase ((run evs translator_new).0.link j))
unfolding translator_new
run_protocol j evs ready = watch-trace j evs translator_new ready
