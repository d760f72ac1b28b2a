-- ===== src/Eventloop/Table.antt =====
-- eventloop.c: a table of descriptors is a finite map.
use mathlib.Core.Path.{subst}
use mathlib.Core.Option.{some-injective}
use cc2obp.Common.{
  ℕ, ◌<◌, ◌≡◌, refl, sym, ap, ◌∙◌, ◌≢◌, ◌⊎◌, inl, inr, true, false, Option, none, some, List, [],
  ◌∷◌, ◌++◌, arith, ltb, ◌==◌, if◌then◌else◌, Bool-cases, Option-cases, length,
}
use cc2obp.Eventloop.{Watch, max_fds, overwrite, add_watch, put_behind, last_first, del_watch}

module _ {C : Type 0} where
  -- The callback of a descriptor.
  abbrev pub lookup : ℕ → List (Watch C) → Option C
  lookup fd [] = none
  lookup fd (w ∷ ws) = if w.fd == fd then some w.cb else lookup fd ws

  -- No descriptor has two entries.
  abbrev pub IsDistinct : List (Watch C) → Type 0
  IsDistinct [] = Unit
  IsDistinct (w ∷ ws) = (lookup w.fd ws ≡ none) × IsDistinct ws

  -- The table has room, or has an entry of the descriptor.
  abbrev pub HasRoom : ℕ → List (Watch C) → Type 0
  HasRoom fd ws = (length ws < max_fds) ⊎ (lookup fd ws ≢ none)

  overwrite-none :
      (fd : ℕ) (cb : C) (ws : List (Watch C)) → overwrite fd cb ws ≡ none → lookup fd ws ≡ none
  unfolding overwrite
  overwrite-none fd cb [] h = refl
  overwrite-none fd cb (w ∷ ws) h = let ih = overwrite-none fd cb ws in ground arith

  overwrite-some :
      (fd x : ℕ) (cb : C) (ws ws' : List (Watch C))
      → overwrite fd cb ws ≡ some ws'
      → lookup x ws' ≡ (if fd == x then some cb else lookup x ws)
  unfolding overwrite
  overwrite-some fd x cb [] ws' h = ground arith
  overwrite-some fd x cb (w ∷ ws) ws' h = elim (Option-cases (overwrite fd cb ws)) [
    | inl absent ↦ ground arith
    | inr (vs, there) ↦ let ih = overwrite-some fd x cb ws vs there in ground arith
  ]

  lookup-append :
      (fd x : ℕ) (cb : C) (ws : List (Watch C))
      → lookup fd ws ≡ none
      → lookup x (ws ++ record { fd = fd; cb = cb } ∷ [])
        ≡ (if fd == x then some cb else lookup x ws)
  lookup-append fd x cb [] h = refl
  lookup-append fd x cb (w ∷ ws) h = let ih = lookup-append fd x cb ws in ground arith

  put_behind-IsDistinct :
      (x : ℕ) (w : Watch C) (ws : List (Watch C))
      → lookup w.fd ws ≡ none
      → IsDistinct ws
      → (lookup x (put_behind w ws) ≡ lookup x (w ∷ ws)) × IsDistinct (put_behind w ws)
  unfolding put_behind
  put_behind-IsDistinct x w [] fresh h = (refl, (refl, tt))
  put_behind-IsDistinct x w (l ∷ front) fresh h =
      (ground arith, (ground arith, (ground arith, h.1)))

  last_first-IsDistinct :
      (x : ℕ) (ws : List (Watch C))
      → IsDistinct ws
      → (lookup x (last_first ws) ≡ lookup x ws) × IsDistinct (last_first ws)
  unfolding last_first
  last_first-IsDistinct x [] h = (refl, tt)
  last_first-IsDistinct x (w ∷ ws) (fresh, hs) =
      let (at_x, hs') = last_first-IsDistinct x ws hs in
      let (at_w, _) = last_first-IsDistinct w.fd ws hs in
      let (moved, kept) = put_behind-IsDistinct x w (last_first ws) (at_w ∙ fresh) hs' in
      (moved ∙ ap (λ o. if w.fd == x then some w.cb else o) at_x, kept)

  del_watch-map :
      (fd x : ℕ) (ws : List (Watch C))
      → IsDistinct ws
      → (lookup x (del_watch fd ws) ≡ (if fd == x then none else lookup x ws))
        × IsDistinct (del_watch fd ws)
  unfolding del_watch
  del_watch-map fd x [] h = (ground arith, tt)
  del_watch-map fd x (w ∷ ws) (fresh, hs) = elim (Bool-cases (w.fd == fd)) [
    | inl here ↦ let (at_x, hs') = last_first-IsDistinct x ws hs in rw here (ground arith, hs')
    | inr there ↦
        let (at_x, hs') = del_watch-map fd x ws hs in
        let (at_w, _) = del_watch-map fd w.fd ws hs in rw there (ground arith, (ground arith, hs'))
  ]

  overwrite-IsDistinct :
      (fd : ℕ) (cb : C) (ws ws' : List (Watch C))
      → overwrite fd cb ws ≡ some ws'
      → IsDistinct ws
      → IsDistinct ws'
  unfolding overwrite
  overwrite-IsDistinct fd cb [] ws' e h = ground arith
  overwrite-IsDistinct fd cb (w ∷ ws) ws' e (fresh, hs) = elim (Bool-cases (w.fd == fd)) [
    | inl here ↦ subst IsDistinct (some-injective _ ws' (sym (at_front here) ∙ e)) (fresh, hs)
    | inr apart ↦ elim (Option-cases (overwrite fd cb ws)) [
      | inl absent ↦ absurd (ground arith)
      | inr (vs, there) ↦
          let at_w = overwrite-some fd w.fd cb ws vs there in
          let kept : IsDistinct (w ∷ vs) =
            (ground arith, overwrite-IsDistinct fd cb ws vs there hs) in
          subst IsDistinct (some-injective (w ∷ vs) ws' (sym (behind vs apart there) ∙ e)) kept
    ]
  ]
    where
      at_front : (w.fd == fd) ≡ true → overwrite fd cb (w ∷ ws) ≡ some (record w { cb = cb } ∷ ws)
      at_front h = rw (h, overwrite) refl

      behind :
          (vs : List (Watch C))
          → (w.fd == fd) ≡ false
          → overwrite fd cb ws ≡ some vs
          → overwrite fd cb (w ∷ ws) ≡ some (w ∷ vs)
      behind vs h k = rw (h, overwrite) (rw k refl)

  append-IsDistinct :
      (fd : ℕ) (cb : C) (ws : List (Watch C))
      → lookup fd ws ≡ none
      → IsDistinct ws
      → IsDistinct (ws ++ record { fd = fd; cb = cb } ∷ [])
  append-IsDistinct fd cb [] e h = (refl, tt)
  append-IsDistinct fd cb (w ∷ ws) e (fresh, hs) =
      let at_w = lookup-append fd w.fd cb ws in
      (ground arith, append-IsDistinct fd cb ws (ground arith) hs)

  add_watch-map :
      (fd x : ℕ) (cb : C) (ws : List (Watch C))
      → IsDistinct ws
      → HasRoom fd ws
      → (lookup x (add_watch fd cb ws) ≡ (if fd == x then some cb else lookup x ws))
        × IsDistinct (add_watch fd cb ws)
  unfolding add_watch
  add_watch-map fd x cb ws h room = elim (Option-cases (overwrite fd cb ws)) [
    | inr (ws', there) ↦
        rw (there, add_watch)
          (overwrite-some fd x cb ws ws' there, overwrite-IsDistinct fd cb ws ws' there h)
    | inl absent ↦
        let fresh = overwrite-none fd cb ws absent in
        let fits : ltb (length ws) max_fds ≡ true = ground arith in
        rw (absent, add_watch)
          (rw fits (lookup-append fd x cb ws fresh, append-IsDistinct fd cb ws fresh h))
  ]

  -- A table of descriptors is a finite map. After an entry is added, its descriptor has the new
  -- callback and every other descriptor what it had; after one is deleted, its descriptor has none
  -- and every other what it had; and no descriptor has two entries. The table has no two entries of a
  -- descriptor, and has room for one more or an entry of the one that is added.
  pub watch-finite_map :
      (fd x : ℕ) (cb : C) (ws : List (Watch C))
      → IsDistinct ws
      → HasRoom fd ws
      → ((lookup x (add_watch fd cb ws) ≡ (if fd == x then some cb else lookup x ws))
          × IsDistinct (add_watch fd cb ws))
        × ((lookup x (del_watch fd ws) ≡ (if fd == x then none else lookup x ws))
            × IsDistinct (del_watch fd ws))
  watch-finite_map fd x cb ws h room = (add_watch-map fd x cb ws h room, del_watch-map fd x ws h)
