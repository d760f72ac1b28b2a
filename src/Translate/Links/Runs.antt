-- ===== src/Translate/Links/Runs.antt =====
-- Every link stays well formed through any run, and what is sent has its size.
use cc2obp.Common.{
  ℕ, zero, suc, ◌+◌, ◌≡◌, refl, inl, inr, Option, none, some, List, [], ◌∷◌, ◌==◌, Bool-cases,
  length, get_or, drop, All,
}
use cc2obp.Wire.{rd24}
use cc2obp.Openbridge.Const.{dst_off, flags_off}
use cc2obp.Translate.Incoming.{
  is_dropped, translator_cccc_bon, translator_cccc_voice, translator_cccc_boff,
  translator_cccc_link_up, translator_cccc_link_down, link_dmrd_received, link_tick,
}
use cc2obp.Translate.Steps.{
  on_link, find_link, translator_obp_dmrd_received, tick_links, translator_tick, translator_new,
  Event, link_up, link_down, bon, boff, voice, dmrd, tick, step, run,
}
use cc2obp.Translate.{Translator, Env, Slot, Handler, Action}
use cc2obp.Translate.Links.{
  IsWellFormed, IsSized, IsGood, All-append, bon-IsGood, down-IsGood, dmrd-IsGood, tick-IsGood,
  boff-IsGood, up-IsGood, voice-IsGood,
}

-- `rand4` yields four bytes, and obp_link.c passes on bodies of 53 bytes.
abbrev pub IsSizedEvent : Env × Event → Type 0
IsSizedEvent (e, dmrd _ body) = (length e.random ≡ 4) × (length body ≡ 53)
IsSizedEvent (e, _) = length e.random ≡ 4

abbrev pub AllWellFormed : Translator → Type 0
AllWellFormed tr = (j : ℕ) → IsWellFormed (tr.link j)

abbrev Sound : Translator × List Action → Type 0
Sound r = AllWellFormed r.0 × All IsSized r.1

on_link-Sound :
    (i : ℕ) (h : Handler) (tr : Translator)
    → AllWellFormed tr
    → ((s : Slot) → IsWellFormed s.lr → IsGood (h s))
    → Sound (on_link i h tr)
unfolding on_link
on_link-Sound i h tr w good =
    let r = good (record { lr = tr.link i; ctr = tr.obp_seq_ctr }) (w i) in
    (λ j. elim (Bool-cases (j == i)) [ inl same ↦ rw same r.0 | inr other ↦ rw other (w j) ], r.1)

tick_links-Sound :
    (e : Env) (n k : ℕ) (tr : Translator) → AllWellFormed tr → Sound (tick_links e n k tr)
unfolding tick_links
tick_links-Sound e zero k tr w = (w, tt)
tick_links-Sound e (suc n) k tr w =
    let first = on_link-Sound k (link_tick e k) tr w (tick-IsGood e k) in
    let rest = tick_links-Sound e n (k + 1) (on_link k (link_tick e k) tr).0 first.0 in
    (rest.0, All-append (on_link k (link_tick e k) tr).1 _ first.1 rest.1)

dmrd-Sound :
    (e : Env) (p : ℕ) (body : List ℕ) (tr : Translator)
    → length body ≡ 53
    → AllWellFormed tr
    → Sound (translator_obp_dmrd_received e p body tr)
unfolding translator_obp_dmrd_received
dmrd-Sound e p body tr long w = elim (Bool-cases (is_dropped (get_or body flags_off 0))) [
  | inl gone ↦ rw gone (w, tt)
  | inr kept ↦ rw kept (found-Sound (find_link p (rd24 (drop dst_off body)) 0 e.cfg.link))
]
  where
    found-Sound :
        (found : Option ℕ)
        → Sound
            (elim found [ none ↦ (tr, []) | some i ↦ on_link i (link_dmrd_received e i body) tr ])
    found-Sound none = (w, tt)
    found-Sound (some i) =
        on_link-Sound i (link_dmrd_received e i body) tr w (λ s v. dmrd-IsGood e i s body long v)

step-Sound :
    (e : Env) (ev : Event) (tr : Translator)
    → IsSizedEvent (e, ev)
    → AllWellFormed tr
    → Sound (step e ev tr)
unfolding step translator_tick
step-Sound e (link_up i) tr z w = on_link-Sound i (translator_cccc_link_up e i) tr w (up-IsGood e i)
step-Sound e (link_down i) tr z w =
    on_link-Sound i (translator_cccc_link_down e i) tr w (down-IsGood e i)
step-Sound e (bon i radio_id peer_id) tr z w =
    on_link-Sound i (translator_cccc_bon e i radio_id peer_id) tr w
      (λ s v. bon-IsGood e i s radio_id peer_id z v)
step-Sound e (boff i) tr z w = on_link-Sound i (translator_cccc_boff e i) tr w (boff-IsGood e i)
step-Sound e (voice i ambe21) tr z w =
    on_link-Sound i (translator_cccc_voice e i ambe21) tr w (λ s v. voice-IsGood e i s ambe21 v)
step-Sound e (dmrd p body) tr z w = dmrd-Sound e p body tr z.1 w
step-Sound e tick tr z w = tick_links-Sound e (length e.cfg.link) 0 tr w

run-Sound :
    (evs : List (Env × Event)) (tr : Translator)
    → All IsSizedEvent evs
    → AllWellFormed tr
    → Sound (run evs tr)
unfolding run
run-Sound [] tr z w = (w, tt)
run-Sound ((e, ev) ∷ evs) tr z w =
    let first = step-Sound e ev tr z.0 w in
    let rest = run-Sound evs (step e ev tr).0 z.1 first.0 in
    (rest.0, All-append (step e ev tr).1 _ first.1 rest.1)

-- In any run from the start, with bodies of 53 bytes coming in and four random bytes at each event:
-- every link holds a stream identifier of four bytes, no call, or a call from OpenBridge, or a call
-- from CC-CC with the fragments of its own nine-byte link control; every DMRD frame that goes out
-- has 53 bytes, and every voice payload 21, whatever the payloads that came in.
pub run-IsWellFormed :
    (j : ℕ) (evs : List (Env × Event))
    → All IsSizedEvent evs
    → IsWellFormed ((run evs translator_new).0.link j) × All IsSized (run evs translator_new).1
unfolding translator_new
run-IsWellFormed j evs z =
    let sound = run-Sound evs translator_new z (λ _. (refl, inl refl)) in (sound.0 j, sound.1)
