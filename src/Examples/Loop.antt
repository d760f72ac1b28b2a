-- ===== src/Examples/Loop.antt =====
-- A loop with three timers, two of which are due, and a table of two descriptors.
use cc2obp.Common.{ℕ, ◌≤◌, ◌≡◌, refl, ◌⊎◌, inl, true, false, some, List, [], ◌∷◌, arith}
use cc2obp.Eventloop.{Watch, EvTimer, EvLoop, ev_timer_after, add_watch, del_watch, fire_timers}
use cc2obp.Eventloop.Table.{lookup, IsDistinct, watch-finite_map}
use cc2obp.Eventloop.Timers.{count_due, fire_timers-ends}

-- A callback is a number, which is noted; it sets a timer for a time later by ten.
abbrev note : ℕ → EvLoop ℕ → List ℕ → EvLoop ℕ × List ℕ
note c l w = ((ev_timer_after 100 10 c l).0, c ∷ w)

abbrev waiting : ℕ → ℕ → EvTimer ℕ
waiting id when = record { id = id; when = when; cb = id; active = true }

abbrev two_due : EvLoop ℕ
two_due = record {
  fds = [];
  wfds = [];
  timers = waiting 2 99 ∷ waiting 1 120 ∷ waiting 0 80 ∷ [];
  next_id = 3;
  running = true;
}

abbrev off : EvTimer ℕ → EvTimer ℕ
off t = record t { active = false }

abbrev waiting_again : ℕ → ℕ → EvTimer ℕ
waiting_again id c = record { id = id; when = 110; cb = c; active = true }

-- The sooner timer comes first.
in_order :
    fire_timers note 2 100 two_due []
    ≡ some (
      record two_due {
        timers =
            waiting_again 4 2
            ∷ waiting_again 3 0
            ∷ off (waiting 2 99)
            ∷ waiting 1 120
            ∷ off (waiting 0 80)
            ∷ [];
        next_id = 5;
      },
      2 ∷ 0 ∷ [],
    )
unfolding fire_timers ev_timer_after
in_order = refl

note-quiet :
    (c : ℕ) (l : EvLoop ℕ) (w : List ℕ)
    → count_due 100 (note c l w).0.timers ≤ count_due 100 l.timers
unfolding ev_timer_after
note-quiet c l w = omega arith

fire_timers-ends_example :
    (r : EvLoop ℕ × List ℕ) × (fire_timers note 2 100 two_due [] ≡ some r)
    × ((r.0.running ≡ false) ⊎ (count_due 100 r.0.timers ≡ 0))
fire_timers-ends_example = fire_timers-ends note 100 note-quiet 2 two_due [] (omega arith)

abbrev two_fds : List (Watch ℕ)
two_fds = record { fd = 4; cb = 40 } ∷ record { fd = 5; cb = 50 } ∷ []

watch-finite_map_example :
    ((lookup 5 (add_watch 4 44 two_fds) ≡ some 50) × IsDistinct (add_watch 4 44 two_fds))
    × ((lookup 5 (del_watch 4 two_fds) ≡ some 50) × IsDistinct (del_watch 4 two_fds))
watch-finite_map_example = watch-finite_map 4 5 44 two_fds (refl, (refl, tt)) (inl (omega arith))
