-- ===== src/Eventloop/Timers.antt =====
-- eventloop.c: the timers that are due.
use mathlib.Core.Path.{subst}
use mathlib.Core.Option.{some-injective}
use cc2obp.Common.{
  ℕ, zero, suc, ◌+◌, ◌≤◌, ◌<◌, ◌≡◌, refl, sym, ◌∙◌, ◌⊎◌, inl, inr, Bool, true, false, ◌&&◌, Option,
  none, some, List, [], ◌∷◌, arith, ltb, ◌==◌, if◌then◌else◌, ==_refl, Bool-cases, Option-cases,
}
use cc2obp.Eventloop.{EvTimer, EvLoop, is_due, pick_due, switch_off, fire_timers}

if_true {ℓ} : {A : Type ℓ} → (b : Bool) (x y : A) → b ≡ true → (if b then x else y) ≡ x
if_true b x y h = rw h refl

if_false {ℓ} : {A : Type ℓ} → (b : Bool) (x y : A) → b ≡ false → (if b then x else y) ≡ y
if_false b x y h = rw h refl

module _ {C : Type 0} where
  abbrev pub count_due : ℕ → List (EvTimer C) → ℕ
  count_due now [] = 0
  count_due now (t ∷ ts) = (if is_due now t then 1 else 0) + count_due now ts

  -- The timer is in the list.
  abbrev pub IsIn : EvTimer C → List (EvTimer C) → Type 0
  IsIn f [] = ⊥
  IsIn f (t ∷ ts) = (f ≡ t) ⊎ IsIn f ts

  -- Switching a timer off makes no other due.
  switch_off-count_due :
      (now id : ℕ) (ts : List (EvTimer C)) → count_due now (switch_off id ts) ≤ count_due now ts
  unfolding switch_off
  switch_off-count_due now id [] = omega arith
  switch_off-count_due now id (t ∷ ts) = let ih = switch_off-count_due now id ts in ground arith

  -- Switching one off that is due leaves fewer.
  switch_off-fewer :
      (now : ℕ) (f : EvTimer C) (ts : List (EvTimer C))
      → IsIn f ts
      → is_due now f ≡ true
      → count_due now (switch_off f.id ts) < count_due now ts
  unfolding switch_off
  switch_off-fewer now f [] h due = absurd h
  switch_off-fewer now f (t ∷ ts) (inl e) due =
      let rest = switch_off-count_due now f.id ts in
      let due' : is_due now t ≡ true = subst (λ x. is_due now x ≡ true) e due in
      let same : (t.id == f.id) ≡ true = subst (λ x. (x.id == f.id) ≡ true) e (==_refl f.id) in
      rw same (rw due' (omega arith))
  switch_off-fewer now f (t ∷ ts) (inr h) due =
      let ih = switch_off-fewer now f ts h due in ground arith

  -- The timer that is picked is the one found before, or a timer of the list that is due.
  pick_due-some :
      (now : ℕ) (fire : Option (EvTimer C)) (f : EvTimer C) (ts : List (EvTimer C))
      → pick_due now fire ts ≡ some f
      → (fire ≡ some f) ⊎ (IsIn f ts × (is_due now f ≡ true))
  unfolding pick_due
  pick_due-some now fire f [] h = inl h
  pick_due-some now none f (t ∷ ts) h = elim (Bool-cases (is_due now t)) [
    | inl due ↦ elim (pick_due-some now (some t) f ts (rw due at h)) [
      | inl e ↦
          let same = some-injective t f e in
          inr (inl (sym same), subst (λ x. is_due now x ≡ true) same due)
      | inr (there, d) ↦ inr (inr there, d)
    ]
    | inr not_due ↦ elim (pick_due-some now none f ts (rw not_due at h)) [
      | inl e ↦ inl e
      | inr (there, d) ↦ inr (inr there, d)
    ]
  ]
  pick_due-some now (some g) f (t ∷ ts) h = elim (Bool-cases (is_due now t && ltb t.when g.when)) [
    | inl due ↦ elim (pick_due-some now (some t) f ts (rw due at h)) [
      | inl e ↦
          let same = some-injective t f e in
          inr (inl (sym same), subst (λ x. is_due now x ≡ true) same (ground arith))
      | inr (there, d) ↦ inr (inr there, d)
    ]
    | inr not_due ↦ elim (pick_due-some now (some g) f ts (rw not_due at h)) [
      | inl e ↦ inl e
      | inr (there, d) ↦ inr (inr there, d)
    ]
  ]

  pick_due-none :
      (now : ℕ) (fire : Option (EvTimer C)) (ts : List (EvTimer C))
      → pick_due now fire ts ≡ none
      → (fire ≡ none) × (count_due now ts ≡ 0)
  unfolding pick_due
  pick_due-none now fire [] h = (h, refl)
  pick_due-none now none (t ∷ ts) h = elim (Bool-cases (is_due now t)) [
    | inl due ↦ absurd (let ih = pick_due-none now (some t) ts (rw due at h) in ground arith)
    | inr not_due ↦ let ih = pick_due-none now none ts (rw not_due at h) in (refl, ground arith)
  ]
  pick_due-none now (some g) (t ∷ ts) h =
      absurd (elim (Bool-cases (is_due now t && ltb t.when g.when)) [
        | inl due ↦ let ih = pick_due-none now (some t) ts (rw due at h) in ground arith
        | inr not_due ↦ let ih = pick_due-none now (some g) ts (rw not_due at h) in ground arith
      ])

module _ {C W : Type 0} (call : C → EvLoop C → W → EvLoop C × W) (now : ℕ)
    (quiet : (c : C) (l : EvLoop C) (w : W)
      → count_due now (call c l w).0.timers ≤ count_due now l.timers) where
  fired :
      (t : EvTimer C) (ts : List (EvTimer C))
      → pick_due now none ts ≡ some t
      → count_due now (switch_off t.id ts) < count_due now ts
  fired t ts h = elim (pick_due-some now none t ts h) [
    | inl e ↦ absurd (ground arith)
    | inr (there, due) ↦ switch_off-fewer now t ts there due
  ]

  -- The loop that fires timers ends after at most as many callbacks as there are timers due when
  -- it begins, with the loop stopped or no timer due. No callback makes more timers due than there
  -- were: what it arms is due later.
  pub fire_timers-ends :
      (fuel : ℕ) (l : EvLoop C) (w : W)
      → count_due now l.timers ≤ fuel
      → (r : EvLoop C × W) × (fire_timers call fuel now l w ≡ some r)
        × ((r.0.running ≡ false) ⊎ (count_due now r.0.timers ≡ 0))
  unfolding fire_timers
  fire_timers-ends zero l w enough = elim (Option-cases (pick_due now none l.timers)) [
    | inl idle ↦ ((l, w), rw (idle, fire_timers) refl, inr (pick_due-none now none l.timers idle).1)
    | inr (t, due) ↦ absurd (let less = fired t l.timers due in omega arith)
  ]
  fire_timers-ends (suc fuel) l w enough = elim (Option-cases (pick_due now none l.timers)) [
    | inl idle ↦ ((l, w), rw (idle, fire_timers) refl, inr (pick_due-none now none l.timers idle).1)
    | inr (t, due) ↦
        let called = call t.cb (record l { timers = switch_off t.id l.timers }) w in
        let less = fired t l.timers due in
        let no_more = quiet t.cb (record l { timers = switch_off t.id l.timers }) w in
        elim (Bool-cases called.0.running) [
          | inl goes_on ↦
              let (r, e, ends) = fire_timers-ends fuel called.0 called.1 (omega arith) in
              (r, rw (due, fire_timers) (if_true called.0.running _ _ goes_on ∙ e), ends)
          | inr stopped ↦
              (called, rw (due, fire_timers) (if_false called.0.running _ _ stopped), inl stopped)
        ]
  ]
