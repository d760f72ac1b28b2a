-- ===== src/Cccc/Refusal.antt =====
-- cccc/cccc_link.c: the Questions that are refused, and the sync sources that are minted.
use mathlib.Core.Path.{subst}
use cc2obp.Common.{
  ℕ, zero, suc, ◌+◌, ◌≤◌, ◌<◌, ◌≡◌, refl, sym, ap, inl, inr, true, false, Option, none, some, List,
  [], ◌∷◌, ◌++◌, arith, ◌==◌, Option-cases, get_or, All,
}
use cc2obp.Config.{link_at}
use cc2obp.Cccc.Text.{strtoul, atoi}
use cc2obp.Cccc.Link.{Env, Action, closes}
use cc2obp.Cccc.Mux.{CcMux, PendingConn, put, find_link_by_ssrc, mint_sync_source}
use cc2obp.Cccc.Pending.{
  n_link, free_pending, with_pending, is_asked_for, match_question, handle_question_complete,
}
use cc2obp.Cccc.Sound.Lookup.{
  holds, find_link_by_ssrc-none, find_link_by_ssrc-some, match_question-some,
}
use cc2obp.Cccc.Sound.Table.{IsUnique, put_self}

module _ (e : Env) (time_of_day : List ℕ) (k : ℕ) (mx : CcMux) where
  abbrev pub asker : PendingConn
  asker = mx.pending k

  -- The sync source and the identifier that the Question asks for.
  abbrev pub asked_ssrc : ℕ
  asked_ssrc = strtoul 16 (get_or asker.qlines 0 [])

  abbrev pub asked_lid : ℕ
  asked_lid = atoi (get_or asker.qlines 1 [])

  abbrev pub answer : CcMux × List Action
  answer = handle_question_complete e time_of_day k mx

  abbrev pub IsRefused : CcMux × List Action → Type 0
  IsRefused r = (r.0.links ≡ mx.links) × (r.1 ≡ closes asker.fd) × ((r.0.pending k).in_use ≡ false)

  abbrev cleared : CcMux
  cleared = record mx { pending = put mx.pending k (record asker { timeout_timer = none }) }

  abbrev refused : CcMux × List Action
  refused = with_pending e k (free_pending true (record asker { timeout_timer = none })) cleared

  refused-IsRefused : IsRefused refused
  unfolding free_pending
  refused-IsRefused = (refl, refl, ap (λ p. p.in_use) (put_self cleared.pending k _))

  -- A Question is refused if each link that it asks for, inbound, enabled, at that address and with that
  -- identifier, would take the sync source of another link, so also if there is none: no link changes, the
  -- connection is closed with nothing sent, and its slot is free. No two links hold the same sync
  -- source.
  pub handle_question_complete-IsRefused :
      IsUnique (n_link e) mx
      → ((i : ℕ)
          → i < n_link e
          → is_asked_for asker.src_ip asked_lid (link_at e.cfg i) ≡ true
          → (j : ℕ) × (j < n_link e) × (holds mx asked_ssrc j ≡ true) × ((j == i) ≡ false))
      → IsRefused answer
  unfolding handle_question_complete
  handle_question_complete-IsRefused q taken = elim (Option-cases matched) [
    | inl unmatched ↦ subst IsRefused (sym (no_match unmatched)) refused-IsRefused
    | inr (i, e1) ↦
        let (_, small, asked) =
          match_question-some e.cfg asker.src_ip asked_lid (n_link e) 0 i e1 in
        let (j, small', held, other) = taken i (omega arith) asked in
        elim (Option-cases found) [
          | inl free ↦ absurd (
              let none_holds =
                find_link_by_ssrc-none asked_ssrc (n_link e) 0 j cleared free (omega arith)
                  (omega arith) in
              ground arith)
          | inr (j', e2) ↦
              let (_, small2, held') =
                find_link_by_ssrc-some asked_ssrc (n_link e) 0 j' cleared e2 in
              let same : j' ≡ j =
                q j' j (omega arith) small' (ground arith) (ground arith) (ground arith) in
              subst IsRefused
                (sym (collides i j' e1 e2 (subst (λ x. (x == i) ≡ false) (sym same) other)))
                refused-IsRefused
        ]
  ]
    where
      matched : Option ℕ
      matched = match_question e.cfg asker.src_ip asked_lid (n_link e) 0

      found : Option ℕ
      found = find_link_by_ssrc asked_ssrc (n_link e) 0 cleared

      no_match : matched ≡ none → answer ≡ refused
      no_match h = rw (h, handle_question_complete) refl

      collides : (i j : ℕ) → matched ≡ some i → found ≡ some j → (j == i) ≡ false → answer ≡ refused
      collides i j h g o = rw (h, handle_question_complete) (rw g (rw o refl))

find_link_by_ssrc-free :
    (ssrc n k : ℕ) (mx : CcMux)
    → ((j : ℕ) → k ≤ j → j < k + n → holds mx ssrc j ≡ false)
    → find_link_by_ssrc ssrc n k mx ≡ none
unfolding find_link_by_ssrc
find_link_by_ssrc-free ssrc zero k mx free = refl
find_link_by_ssrc-free ssrc (suc n) k mx free =
    let first = free k (omega arith) (omega arith) in
    let ih =
      find_link_by_ssrc-free ssrc n (k + 1) mx (λ j from to. free j (omega arith) (omega arith)) in
    rw first ih

-- The loop of `mint_sync_source` ends at the first number drawn that no link holds.
pub mint_sync_source-ends :
    (n ssrc : ℕ) (before after : List ℕ) (mx : CcMux)
    → All (λ s. (j : ℕ) × (j < n) × (holds mx s j ≡ true)) before
    → ((j : ℕ) → j < n → holds mx ssrc j ≡ false)
    → mint_sync_source n (before ++ ssrc ∷ after) mx ≡ some ssrc
unfolding mint_sync_source
mint_sync_source-ends n ssrc [] after mx h free =
    rw (find_link_by_ssrc-free ssrc n 0 mx (λ j _ small. free j (omega arith)), mint_sync_source)
      refl
mint_sync_source-ends n ssrc (s ∷ before) after mx ((j, small, held), hs) free =
    elim (Option-cases (find_link_by_ssrc s n 0 mx)) [
      | inl none_holds ↦ absurd (
          let f = find_link_by_ssrc-none s n 0 j mx none_holds (omega arith) (omega arith) in
          ground arith)
      | inr (i, e1) ↦
          rw (e1, mint_sync_source) (mint_sync_source-ends n ssrc before after mx hs free)
    ]
