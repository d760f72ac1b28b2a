-- ===== src/Cccc/Silence.antt =====
-- cccc/cccc_link.c: a link that hears no keepalive.
use cc2obp.Common.{
  ℕ, ◌+◌, ◌-◌, ◌*◌, ◌≤◌, ◌<◌, ◌≡◌, ◌⊎◌, inl, inr, Bool, true, false, ◌&&◌, Option, none, some, List,
  [], ◌∷◌, arith, ltb, Bool-cases, length,
}
use cc2obp.Cccc.Link.{
  keepalive_interval, link_timeout, CcLink, Env, Handler, Action, lst_up, lst_down, ◌then_do◌,
  teardown_link_connection, schedule_reconnect, keepalive_cb, udp_send_to_link,
}
use cc2obp.Cccc.Traffic.{is_some}
use cc2obp.Cccc.Sound.{IsSound, tell_all, Tells, Fine, dials, then_do-Fine}
use cc2obp.Cccc.Sound.Handlers.{unchanged, keepalive_cb-Fine}

-- The timer is set off this late.
unfoldable pub keepalive_due : Env → ℕ → ℕ → Handler
keepalive_due e i late lk = elim lk.keepalive_timer [
  | none ↦ (lk, [])
  | some due ↦ keepalive_cb (record e { now = due + late }) i lk
]

-- The timer is set off again and again, each time as late as given, and nothing else happens.
unfoldable pub keepalives : Env → ℕ → List ℕ → Handler
unfolding keepalive_due
keepalives e i [] lk = (lk, [])
keepalives e i (late ∷ more) lk = keepalive_due e i late lk then_do keepalives e i more

-- The link is down, with no timer to set off.
abbrev IsDead : CcLink → Type 0
IsDead lk = (lk.state ≡ lst_down) × (lk.keepalive_timer ≡ none)

module _ (e : Env) (i : ℕ) where
  -- The link is up and last heard `gap` or more before its timer is due.
  abbrev IsWaiting : ℕ → CcLink → Type 0
  IsWaiting gap lk =
      (lk.state ≡ lst_up)
      × (gap ≤ link_timeout e.cfg + keepalive_interval e.cfg)
      × ((due : ℕ) × (lk.keepalive_timer ≡ some due) × (lk.last_keepalive_recv + gap ≤ due))

  IsDead-stays : (delays : List ℕ) (lk : CcLink) → IsDead lk → IsDead (keepalives e i delays lk).0
  unfolding keepalives
  IsDead-stays [] lk dead = dead
  IsDead-stays (late ∷ more) lk (down, off) =
      rw (off, keepalive_due) (IsDead-stays more lk (down, off))

  abbrev interval : ℕ
  interval = keepalive_interval e.cfg

  ticked :
      (late gap due : ℕ) (lk : CcLink)
      → lk.state ≡ lst_up
      → lk.last_keepalive_recv + gap ≤ due
      → IsDead (keepalive_cb (record e { now = due + late }) i lk).0
        ⊎ IsWaiting (gap + interval) (keepalive_cb (record e { now = due + late }) i lk).0
  unfolding keepalive_cb teardown_link_connection schedule_reconnect udp_send_to_link
  ticked late gap due lk up from =
      elim (Bool-cases (ltb (link_timeout e.cfg) (due + late - lk.last_keepalive_recv))) [
        | inl over ↦ inl (ground arith)
        | inr within ↦
            inr (ground arith, ground arith, (due + late + interval, ground arith, ground arith))
      ]

  silent-IsDead :
      (delays : List ℕ) (gap : ℕ) (lk : CcLink)
      → IsWaiting gap lk
      → link_timeout e.cfg + interval < gap + length delays * interval
      → IsDead (keepalives e i delays lk).0
  unfolding keepalives
  silent-IsDead [] gap lk (up, fits, _) long = absurd (omega arith)
  silent-IsDead (late ∷ more) gap lk (up, fits, (due, set_off, from)) long =
      rw (set_off, keepalive_due)
        (elim (ticked late gap due lk up from) [
          | inl dead ↦ IsDead-stays more _ dead
          | inr waits ↦ silent-IsDead more (gap + interval) _ waits (omega arith)
        ])

  keepalive_due-Fine :
      (j : ℕ) (u : Bool) (late : ℕ) (lk : CcLink)
      → IsSound (dials e i) lk
      → Fine (dials e i) i j u lk (keepalive_due e i late lk)
  unfolding keepalive_due
  keepalive_due-Fine j u late lk s = set_off lk.keepalive_timer
    where
      set_off :
          (o : Option ℕ)
          → Fine (dials e i) i j u lk (elim o [
            | none ↦ (lk, [])
            | some due ↦ keepalive_cb (record e { now = due + late }) i lk
          ])
      set_off none = unchanged e i j u lk s
      set_off (some due) = keepalive_cb-Fine (record e { now = due + late }) i j u lk s

  told_own :
      (lk : CcLink) (r : CcLink × List Action)
      → Tells i i true lk r
      → lk.state ≡ lst_up
      → r.0.state ≡ lst_down
      → tell_all i true r.1 ≡ some false
  told_own lk r told up down = ground arith

  keepalives-Fine :
      (j : ℕ) (u : Bool) (delays : List ℕ) (lk : CcLink)
      → IsSound (dials e i) lk
      → Fine (dials e i) i j u lk (keepalives e i delays lk)
  unfolding keepalives
  keepalives-Fine j u [] lk s = unchanged e i j u lk s
  keepalives-Fine j u (late ∷ more) lk s =
      then_do-Fine (dials e i) i j u lk (keepalive_due e i late lk) (keepalives e i more)
        (keepalive_due-Fine j u late lk s)
        λ s'. keepalives-Fine j u more (keepalive_due e i late lk).0 s'

  -- A link that is up and hears no keepalive goes down, at the latest when its keepalive timer
  -- has been set off so many times that the intervals between add up to more than the timeout, however late
  -- each time: translate.c is told so once, and an outbound link that should be trying has its
  -- reconnect timer set. The link is sound, and heard its last keepalive an interval or more
  -- before the timer is due.
  pub keepalives-silent :
      (delays : List ℕ) (due : ℕ) (lk : CcLink)
      → IsSound (dials e i) lk
      → lk.state ≡ lst_up
      → lk.keepalive_timer ≡ some due
      → lk.last_keepalive_recv + keepalive_interval e.cfg ≤ due
      → link_timeout e.cfg < length delays * keepalive_interval e.cfg
      → ((keepalives e i delays lk).0.state ≡ lst_down)
        × (tell_all i true (keepalives e i delays lk).1 ≡ some false)
        × (is_some (keepalives e i delays lk).0.reconnect_timer
            ≡ (dials e i && (keepalives e i delays lk).0.active))
  keepalives-silent delays due lk s up armed from long =
      let (down, _) =
        silent-IsDead delays interval lk (up, omega arith, (due, armed, from)) (omega arith) in
      let (s', _, told) = keepalives-Fine i true delays lk s in
      (down, told_own lk (keepalives e i delays lk) told up down, ground arith)
