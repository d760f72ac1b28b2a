-- ===== src/Translate/Protocol.antt =====
-- Every link obeys the protocol of Translate.Phases through any run of the translator.
pub mod Runs
use mathlib.Core.Path.{subst}
use mathlib.Core.Option.{some-injective}
use cc2obp.Common.{
  ℕ, ◌+◌, ◌<◌, ◌≡◌, refl, sym, ap, inl, inr, true, false, Option, none, some, List, [], ◌∷◌, ◌++◌,
  arith, ◌==◌, if◌then◌else◌, ==→≡, Bool-cases, length,
}
use cc2obp.Config.{LinkConfig}
use cc2obp.Translate.Phases.{
  Phase, idle, phase, move, owner, observe_all, lose, IsResolved, Ends, bon-Follows, voice-Follows,
  dmrd-Follows, tick-Follows, boff-Follows, up-Follows, down-Ends,
}
use cc2obp.Translate.Incoming.{
  is_dropped, link_tick, link_dmrd_received, translator_cccc_bon, translator_cccc_voice,
  translator_cccc_boff, translator_cccc_link_up, translator_cccc_link_down,
}
use cc2obp.Translate.Steps.{
  on_link, is_link_for, find_link, translator_obp_dmrd_received, tick_links, translator_tick,
  translator_new, Event, link_up, link_down, bon, boff, voice, dmrd, tick, step, run,
}
use cc2obp.Translate.{Translator, Env, Slot, Handler, Action}

-- The actions for one link.
unfoldable pub actions_of : ℕ → List Action → List Action
actions_of j [] = []
actions_of j (a ∷ rest) = let kept = actions_of j rest in if owner a == j then a ∷ kept else kept

abbrev pub slot_of : Translator → ℕ → Slot
slot_of tr i = record { lr = tr.link i; ctr = tr.obp_seq_ctr }

-- Where the protocol stands for link `j` once an event arrives, before the answer to it.
abbrev pub enter : ℕ → Event → Phase → Phase
enter j (link_down i) ph = if j == i then lose ph else ph
enter j _ ph = ph

-- What the translator sends in answer to each event.
unfoldable pub trace : List (Env × Event) → Translator → List (Event × List Action)
trace [] tr = []
trace ((e, ev) ∷ evs) tr = (ev, (step e ev tr).1) ∷ trace evs (step e ev tr).0

-- The phases of link `j` along a trace, `none` once an action breaks the protocol.
unfoldable pub watch : ℕ → Phase → List (Event × List Action) → Option Phase
unfolding observe_all actions_of
watch j ph [] = some ph
watch j ph ((ev, acts) ∷ rest) = elim (observe_all j (enter j ev ph) (actions_of j acts)) [
  | none ↦ none
  | some ph' ↦ watch j ph' rest
]

-- Every link has a peer, and the event is for a link of the table.
abbrev pub InTable : Env → Event → Type 0
InTable e (link_up i) = i < length e.cfg.link
InTable e (link_down i) = i < length e.cfg.link
InTable e (bon i _ _) = i < length e.cfg.link
InTable e (boff i) = i < length e.cfg.link
InTable e (voice i _) = i < length e.cfg.link
InTable e (dmrd _ _) = Unit
InTable e tick = Unit

abbrev pub IsReady : Env × Event → Type 0
IsReady (e, ev) = ((i : ℕ) → i < length e.cfg.link → IsResolved e i) × InTable e ev

-- A list that obeys the protocol begins with an action of the link that is a move.
observe_all-cons :
    (i : ℕ) (ph ph' : Phase) (a : Action) (rest : List Action)
    → observe_all i ph (a ∷ rest) ≡ some ph'
    → ((owner a == i) ≡ true)
      × ((mid : Phase) × (move ph a ≡ some mid) × (observe_all i mid rest ≡ some ph'))
unfolding observe_all
observe_all-cons i ph ph' a rest h = ground arith

actions_of_self :
    (i : ℕ) (ph ph' : Phase) (acts : List Action)
    → observe_all i ph acts ≡ some ph'
    → actions_of i acts ≡ acts
unfolding actions_of
actions_of_self i ph ph' [] h = refl
actions_of_self i ph ph' (a ∷ rest) h =
    let (own, (mid, _, h')) = observe_all-cons i ph ph' a rest h in
    rw own (ap (λ xs. a ∷ xs) (actions_of_self i mid ph' rest h'))

actions_of-other :
    (i j : ℕ) (ph ph' : Phase) (acts : List Action)
    → observe_all i ph acts ≡ some ph'
    → (j == i) ≡ false
    → actions_of j acts ≡ []
unfolding actions_of
actions_of-other i j ph ph' [] h k = refl
actions_of-other i j ph ph' (a ∷ rest) h k =
    let (own, (mid, _, h')) = observe_all-cons i ph ph' a rest h in
    let ih = actions_of-other i j mid ph' rest h' k in ground arith

pub actions_of-append :
    (j : ℕ) (xs ys : List Action) → actions_of j (xs ++ ys) ≡ actions_of j xs ++ actions_of j ys
unfolding actions_of
actions_of-append j [] ys = refl
actions_of-append j (a ∷ xs) ys =
    rw (actions_of-append j xs ys)
      (elim (Bool-cases (owner a == j)) [ inl h ↦ rw h refl | inr h ↦ rw h refl ])

pub observe_all-append :
    (j : ℕ) (ph ph' : Phase) (xs ys : List Action)
    → observe_all j ph xs ≡ some ph'
    → observe_all j ph (xs ++ ys) ≡ observe_all j ph' ys
unfolding observe_all
observe_all-append j ph ph' [] ys h = ap (λ p. observe_all j p ys) (some-injective ph ph' h)
observe_all-append j ph ph' (a ∷ xs) ys h =
    let (own, (mid, moved, h')) = observe_all-cons j ph ph' a xs h in
    rw own (rw moved (observe_all-append j mid ph' xs ys h'))

pub find_link-bound :
    (p dst k i : ℕ) (ls : List LinkConfig) → find_link p dst k ls ≡ some i → i < k + length ls
unfolding find_link
find_link-bound p dst k i [] h = ground arith
find_link-bound p dst k i (l ∷ ls) h = let ih = find_link-bound p dst (k + 1) i ls in ground arith

-- A handler of link `i` moves link `i` as it does alone, and no other link.
pub on_link-observed :
    (i j : ℕ) (h : Handler) (tr : Translator) (ph : Phase)
    → Ends i ph (h (slot_of tr i))
    → observe_all j (if j == i then ph else phase (tr.link j)) (actions_of j (on_link i h tr).1)
      ≡ some (phase ((on_link i h tr).0.link j))
unfolding on_link observe_all
on_link-observed i j h tr ph ends = elim (Bool-cases (j == i)) [
  | inl same ↦ rw same (
      subst
        (λ x.
          observe_all x ph (actions_of x (h (slot_of tr i)).1)
          ≡ some (phase (h (slot_of tr i)).0.lr))
        (sym (==→≡ j i same)) (rw (actions_of_self i ph _ _ ends) ends))
  | inr other ↦ rw other (rw (actions_of-other i j ph _ _ ends other) refl)
]
