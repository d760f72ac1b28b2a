-- ===== src/Eventloop.antt =====
-- eventloop.c: the descriptors that are watched, the timers, and one pass of the loop. A callback with
-- its argument is a value of `C`. What it does to the loop and to the rest of the program, a `W`, is a
-- parameter, and so is what `poll` gives.
pub mod Table
pub mod Timers
use cc2obp.Common.{
  ℕ, zero, suc, ◌+◌, ◌-◌, ◌/◌, Bool, true, false, not, ◌&&◌, Option, none, some, List, [], ◌∷◌,
  ◌++◌, ltb, leb, ◌==◌, if◌then◌else◌, length, drop,
}

abbrev pub max_fds : ℕ
max_fds = 256

pub record Watch (C : Type 0) : Type 0 where
  pub fd : ℕ
  pub cb : C

-- `id` stands for the address of the timer.
pub record EvTimer (C : Type 0) : Type 0 where
  pub id : ℕ
  pub when : ℕ
  pub cb : C
  pub active : Bool

-- The lengths of `fds` and of `wfds` are `nfds` and `nwfds`; the next timer gets the address `next_id`.
pub record EvLoop (C : Type 0) : Type 0 where
  pub fds : List (Watch C)
  pub wfds : List (Watch C)
  pub timers : List (EvTimer C)
  pub next_id : ℕ
  pub running : Bool

module _ {C : Type 0} where
  unfoldable pub ev_new : EvLoop C
  ev_new = record { fds = []; wfds = []; timers = []; next_id = 0; running = false }

  -- The entry of the descriptor is overwritten, if it has one.
  unfoldable pub overwrite : ℕ → C → List (Watch C) → Option (List (Watch C))
  overwrite fd cb [] = none
  overwrite fd cb (w ∷ ws) =
      let later = overwrite fd cb ws in
      if w.fd == fd
      then some (record w { cb = cb } ∷ ws)
      else elim later [ none ↦ none | some ws' ↦ some (w ∷ ws') ]

  unfoldable pub add_watch : ℕ → C → List (Watch C) → List (Watch C)
  unfolding overwrite
  add_watch fd cb ws = elim (overwrite fd cb ws) [
    | some ws' ↦ ws'
    | none ↦ if ltb (length ws) max_fds then ws ++ record { fd = fd; cb = cb } ∷ [] else ws
  ]

  -- In front of the entries the last of which is at their front already.
  unfoldable pub put_behind : Watch C → List (Watch C) → List (Watch C)
  put_behind w [] = w ∷ []
  put_behind w (l ∷ front) = l ∷ w ∷ front

  -- The last entry goes to the front.
  unfoldable pub last_first : List (Watch C) → List (Watch C)
  unfolding put_behind
  last_first [] = []
  last_first (w ∷ ws) = put_behind w (last_first ws)

  -- The last entry takes the place of the first one of the descriptor.
  unfoldable pub del_watch : ℕ → List (Watch C) → List (Watch C)
  unfolding last_first
  del_watch fd [] = []
  del_watch fd (w ∷ ws) =
      let later = del_watch fd ws in if w.fd == fd then last_first ws else w ∷ later

  unfoldable pub ev_add_fd : ℕ → C → EvLoop C → EvLoop C
  unfolding add_watch
  ev_add_fd fd cb l = record l { fds = add_watch fd cb l.fds }

  unfoldable pub ev_del_fd : ℕ → EvLoop C → EvLoop C
  unfolding del_watch
  ev_del_fd fd l = record l { fds = del_watch fd l.fds }

  unfoldable pub ev_add_fd_write : ℕ → C → EvLoop C → EvLoop C
  unfolding add_watch
  ev_add_fd_write fd cb l = record l { wfds = add_watch fd cb l.wfds }

  unfoldable pub ev_del_fd_write : ℕ → EvLoop C → EvLoop C
  unfolding del_watch
  ev_del_fd_write fd l = record l { wfds = del_watch fd l.wfds }

  -- The loop with the timer in front, and the address of the timer.
  unfoldable pub ev_timer_at : ℕ → C → EvLoop C → EvLoop C × ℕ
  ev_timer_at when cb l =
      let t : EvTimer C = record { id = l.next_id; when = when; cb = cb; active = true } in
      (record l { timers = t ∷ l.timers; next_id = l.next_id + 1 }, l.next_id)

  unfoldable pub ev_timer_after : ℕ → ℕ → C → EvLoop C → EvLoop C × ℕ
  unfolding ev_timer_at
  ev_timer_after now delay cb l = ev_timer_at (now + delay) cb l

  unfoldable pub switch_off : ℕ → List (EvTimer C) → List (EvTimer C)
  switch_off id [] = []
  switch_off id (t ∷ ts) =
      let later = switch_off id ts in
      if t.id == id then record t { active = false } ∷ later else t ∷ later

  unfoldable pub ev_timer_cancel : ℕ → EvLoop C → EvLoop C
  unfolding switch_off
  ev_timer_cancel id l = record l { timers = switch_off id l.timers }

  unfoldable pub reap : List (EvTimer C) → List (EvTimer C)
  reap [] = []
  reap (t ∷ ts) = let later = reap ts in if t.active then t ∷ later else later

  unfoldable pub reap_inactive : EvLoop C → EvLoop C
  unfolding reap
  reap_inactive l = record l { timers = reap l.timers }

  -- The time of the soonest active timer, with the one found so far.
  unfoldable pub soonest : Option ℕ → List (EvTimer C) → Option ℕ
  soonest next [] = next
  soonest next (t ∷ ts) = soonest (if t.active && is_sooner next then some t.when else next) ts
    where
      is_sooner : Option ℕ → Bool
      is_sooner none = true
      is_sooner (some n) = ltb t.when n

  -- Whole milliseconds up to the soonest timer; `none` is the -1 that waits without end.
  unfoldable pub poll_timeout : ℕ → List (EvTimer C) → Option ℕ
  unfolding soonest
  poll_timeout now ts = elim (soonest none ts) [
    | none ↦ none
    | some next ↦ some ((next - now) / 1000000)
  ]

  abbrev pub is_due : ℕ → EvTimer C → Bool
  is_due now t = t.active && leb t.when now

  -- The timer to fire: the first of the soonest that are due, with the one found so far.
  unfoldable pub pick_due : ℕ → Option (EvTimer C) → List (EvTimer C) → Option (EvTimer C)
  pick_due now fire [] = fire
  pick_due now fire (t ∷ ts) =
      pick_due now (if is_due now t && is_sooner fire then some t else fire) ts
    where
      is_sooner : Option (EvTimer C) → Bool
      is_sooner none = true
      is_sooner (some f) = ltb t.when f.when

  unfoldable pub ev_stop : EvLoop C → EvLoop C
  ev_stop l = record l { running = false }

-- What `poll` gives: a signal, a failure, or for each entry, those of `fds` first, if it is ready.
pub data Poll : Type 0 where
  interrupted failed : Poll
  polled : (ready : List Bool) → Poll

module _ {C W : Type 0} (call : C → EvLoop C → W → EvLoop C × W) where
  -- The loop that fires the timers that are due; `none` if the fuel does not reach.
  unfoldable pub fire_timers : ℕ → ℕ → EvLoop C → W → Option (EvLoop C × W)
  unfolding pick_due switch_off
  fire_timers zero now l w = elim (pick_due now none l.timers) [
    | none ↦ some (l, w)
    | some _ ↦ none
  ]
  fire_timers (suc fuel) now l w = elim (pick_due now none l.timers) [
    | none ↦ some (l, w)
    | some t ↦
        let (l', w') = call t.cb (record l { timers = switch_off t.id l.timers }) w in
        if l'.running then fire_timers fuel now l' w' else some (l', w')
  ]

  -- Entry `idx` is called if it is still that of the descriptor.
  unfoldable pub call_entry : Bool → ℕ → ℕ → EvLoop C → W → EvLoop C × W
  call_entry writes idx fd l w = entry idx (if writes then l.wfds else l.fds)
    where
      entry : ℕ → List (Watch C) → EvLoop C × W
      entry k [] = (l, w)
      entry zero (v ∷ vs) = if v.fd == fd then call v.cb l w else (l, w)
      entry (suc k) (v ∷ vs) = entry k vs

  -- The entries that were polled, from entry `idx` on, with what `poll` said of each.
  unfoldable pub call_ready : Bool → ℕ → List (Watch C) → List Bool → EvLoop C → W → EvLoop C × W
  unfolding call_entry
  call_ready writes idx [] ready l w = (l, w)
  call_ready writes idx (v ∷ vs) [] l w = (l, w)
  call_ready writes idx (v ∷ vs) (b ∷ ready) l w =
      let r = if b && l.running then call_entry writes idx v.fd l w else (l, w) in
      call_ready writes (idx + 1) vs ready r.0 r.1

  -- One turn of `ev_run`, and whether the loop goes on. `now` is the time after the call of `poll`.
  unfoldable pub turn : ℕ → ℕ → Poll → EvLoop C → W → Option (Bool × (EvLoop C × W))
  unfolding reap_inactive fire_timers call_ready
  turn fuel now interrupted l w = some (l.running, (reap_inactive l, w))
  turn fuel now failed l w = some (false, (reap_inactive l, w))
  turn fuel now (polled ready) l0 w =
      let l = reap_inactive l0 in
      elim (fire_timers fuel now l w) [
        | none ↦ none
        | some (l1, w1) ↦
            let (l2, w2) = call_ready false 0 l.fds ready (reap_inactive l1) w1 in
            let (l3, w3) = call_ready true 0 l.wfds (drop (length l.fds) ready) l2 w2 in
            some (l3.running, (l3, w3))
      ]
