-- ===== src/Translate/Counters/Runs.antt =====
-- The frames to one peer are numbered in turn through any run.
use mathlib.Core.Option.{some-injective}
use cc2obp.Common.{
  ℕ, zero, suc, ◌+◌, ◌%◌, ◌≡◌, refl, ap, ap₂, ◌∙◌, ◌⊎◌, inl, inr, true, false, Option, none, some,
  List, [], ◌∷◌, ◌++◌, arith, ◌==◌, if◌then◌else◌, Bool-cases, length, get_or, drop,
}
use cc2obp.Wire.{rd24}
use cc2obp.Openbridge.Const.{dst_off, flags_off}
use cc2obp.Translate.Incoming.{
  is_dropped, translator_cccc_bon, translator_cccc_voice, translator_cccc_boff,
  translator_cccc_link_up, translator_cccc_link_down, link_dmrd_received, link_tick,
}
use cc2obp.Translate.Steps.{
  on_link, find_link, translator_obp_dmrd_received, tick_links, translator_tick, translator_new,
  Event, link_up, link_down, bon, boff, voice, dmrd, tick, step, run,
}
use cc2obp.Translate.{
  Translator, Env, Slot, Handler, Action, send_bon, send_boff, send_voice, send_dmrd, log_drop,
}
use cc2obp.Translate.Counters.{
  count_all, Counts, bon-Counts, voice-Counts, down-Counts, dmrd-Counts, tick-Counts, boff-Counts,
  up-Counts,
}

-- The sequence bytes of the frames to peer `p`, in order.
unfoldable pub numbers : ℕ → List Action → List ℕ
numbers p [] = []
numbers p (send_dmrd _ q body ∷ rest) =
    let later = numbers p rest in if q == p then get_or body 4 0 ∷ later else later
numbers p (send_bon _ _ _ _ _ ∷ rest) = numbers p rest
numbers p (send_boff _ _ _ ∷ rest) = numbers p rest
numbers p (send_voice _ _ _ _ _ ∷ rest) = numbers p rest
numbers p (log_drop _ _ ∷ rest) = numbers p rest

-- `n` bytes that count from `c`.
unfoldable pub counting : ℕ → ℕ → List ℕ
counting c zero = []
counting c (suc n) = c % 256 ∷ counting (c + 1) n

count_all-append :
    (p c c' : ℕ) (xs ys : List Action)
    → count_all p c xs ≡ some c'
    → count_all p c (xs ++ ys) ≡ count_all p c' ys
unfolding count_all
count_all-append p c c' [] ys h = ap (λ t. count_all p t ys) (some-injective c c' h)
count_all-append p c c' (send_dmrd j q body ∷ xs) ys h =
    let ih = count_all-append p (c + 1) c' xs ys in
    let ih' = count_all-append p c c' xs ys in ground arith
count_all-append p c c' (send_bon _ _ _ _ _ ∷ xs) ys h = count_all-append p c c' xs ys h
count_all-append p c c' (send_boff _ _ _ ∷ xs) ys h = count_all-append p c c' xs ys h
count_all-append p c c' (send_voice _ _ _ _ _ ∷ xs) ys h = count_all-append p c c' xs ys h
count_all-append p c c' (log_drop _ _ ∷ xs) ys h = count_all-append p c c' xs ys h

module _ (e : Env) (p : ℕ) where
  abbrev Numbered : Translator → Translator × List Action → Type 0
  Numbered tr r = count_all p (tr.obp_seq_ctr p) r.1 ≡ some (r.0.obp_seq_ctr p)

  on_link-Numbered :
      (i : ℕ) (h : Handler) (tr : Translator)
      → ((s : Slot) → Counts p (s.ctr p) (h s))
      → Numbered tr (on_link i h tr)
  unfolding on_link
  on_link-Numbered i h tr counts = counts (record { lr = tr.link i; ctr = tr.obp_seq_ctr })

  tick_links-Numbered : (n k : ℕ) (tr : Translator) → Numbered tr (tick_links e n k tr)
  unfolding tick_links count_all
  tick_links-Numbered zero k tr = refl
  tick_links-Numbered (suc n) k tr =
      let r = on_link k (link_tick e k) tr in
      count_all-append p _ _ r.1 _ (on_link-Numbered k (link_tick e k) tr (tick-Counts e k p))
      ∙ tick_links-Numbered n (k + 1) r.0

  dmrd-Numbered :
      (q : ℕ) (body : List ℕ) (tr : Translator)
      → Numbered tr (translator_obp_dmrd_received e q body tr)
  unfolding translator_obp_dmrd_received count_all
  dmrd-Numbered q body tr = elim (Bool-cases (is_dropped (get_or body flags_off 0))) [
    | inl gone ↦ rw gone refl
    | inr kept ↦ rw kept (found-Numbered (find_link q (rd24 (drop dst_off body)) 0 e.cfg.link))
  ]
    where
      found-Numbered :
          (found : Option ℕ)
          → Numbered tr
              (elim found [ none ↦ (tr, []) | some i ↦ on_link i (link_dmrd_received e i body) tr ])
      found-Numbered none = refl
      found-Numbered (some i) =
          on_link-Numbered i (link_dmrd_received e i body) tr (λ s. dmrd-Counts e i p s body)

  step-Numbered : (ev : Event) (tr : Translator) → Numbered tr (step e ev tr)
  unfolding step translator_tick
  step-Numbered (link_up i) tr =
      on_link-Numbered i (translator_cccc_link_up e i) tr (up-Counts e i p)
  step-Numbered (link_down i) tr =
      on_link-Numbered i (translator_cccc_link_down e i) tr (down-Counts e i p)
  step-Numbered (bon i radio_id peer_id) tr =
      on_link-Numbered i (translator_cccc_bon e i radio_id peer_id) tr
        (λ s. bon-Counts e i p s radio_id peer_id)
  step-Numbered (boff i) tr = on_link-Numbered i (translator_cccc_boff e i) tr (boff-Counts e i p)
  step-Numbered (voice i ambe21) tr =
      on_link-Numbered i (translator_cccc_voice e i ambe21) tr (λ s. voice-Counts e i p s ambe21)
  step-Numbered (dmrd q body) tr = dmrd-Numbered q body tr
  step-Numbered tick tr = tick_links-Numbered (length e.cfg.link) 0 tr

run-counted :
    (p : ℕ) (evs : List (Env × Event)) (tr : Translator)
    → count_all p (tr.obp_seq_ctr p) (run evs tr).1 ≡ some ((run evs tr).0.obp_seq_ctr p)
unfolding run count_all
run-counted p [] tr = refl
run-counted p ((e, ev) ∷ evs) tr =
    count_all-append p _ _ (step e ev tr).1 _ (step-Numbered e p ev tr)
    ∙ run-counted p evs (step e ev tr).0

-- A frame to the peer carries the counter and advances it; a frame to another does not matter.
count_all-cons :
    (p c c' j q : ℕ) (body : List ℕ) (acts : List Action)
    → count_all p c (send_dmrd j q body ∷ acts) ≡ some c'
    → ((q == p) ≡ true) × (get_or body 4 0 ≡ c % 256) × (count_all p (c + 1) acts ≡ some c')
      ⊎ ((q == p) ≡ false) × (count_all p c acts ≡ some c')
unfolding count_all
count_all-cons p c c' j q body acts h = ground arith

numbers-counted :
    (p c c' : ℕ) (acts : List Action)
    → count_all p c acts ≡ some c'
    → (numbers p acts ≡ counting c (length (numbers p acts))) × (c' ≡ c + length (numbers p acts))
unfolding count_all numbers counting
numbers-counted p c c' [] h = (refl, let q = some-injective c c' h in omega arith)
numbers-counted p c c' (send_dmrd j q body ∷ acts) h =
    elim (count_all-cons p c c' j q body acts h) [
      | inl (here, byte, counted) ↦
          let (bytes, total) = numbers-counted p (c + 1) c' acts counted in
          rw here (ap₂ ◌∷◌ byte bytes, omega arith)
      | inr (there, passed) ↦ rw there (numbers-counted p c c' acts passed)
    ]
numbers-counted p c c' (send_bon _ _ _ _ _ ∷ acts) h = numbers-counted p c c' acts h
numbers-counted p c c' (send_boff _ _ _ ∷ acts) h = numbers-counted p c c' acts h
numbers-counted p c c' (send_voice _ _ _ _ _ ∷ acts) h = numbers-counted p c c' acts h
numbers-counted p c c' (log_drop _ _ ∷ acts) h = numbers-counted p c c' acts h

-- In any run of the translator from its start, the frames to a peer carry the sequence bytes 0, 1,
-- 2, and so on modulo 256, whichever links they are for, and the counter of the peer is their number.
pub run-numbers :
    (p : ℕ) (evs : List (Env × Event))
    → let r = run evs translator_new in
      (numbers p r.1 ≡ counting 0 (length (numbers p r.1)))
      × (r.0.obp_seq_ctr p ≡ length (numbers p r.1))
unfolding translator_new
run-numbers p evs =
    let (bytes, total) =
      numbers-counted p 0 _ (run evs translator_new).1 (run-counted p evs translator_new) in
    (bytes, omega arith)
