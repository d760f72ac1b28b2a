-- ===== src/Cccc/Sound/Asked.antt =====
-- cccc/cccc_link.c: the inbound connections, up to the link that a Question brings up.
use mathlib.Core.Path.{subst}
use cc2obp.Common.{
  ℕ, ◌<◌, ◌≡◌, refl, sym, ap, ◌∙◌, inl, inr, Bool, true, false, Option, none, some, List, [], ◌∷◌,
  ◌++◌, arith, ltb, ◌==◌, if◌then◌else◌, ==→≡, Bool-cases, Option-cases, length, get_or, take,
}
use cc2obp.Cccc.Const.{rxbuf_cap, question_nfields, max_pending}
use cc2obp.Cccc.Text.{strtoul, atoi}
use cc2obp.Cccc.Lines.{feed_bytes-keeps}
use cc2obp.Cccc.Link.{CcLink, Env, Action, closes, close_fd, arm_keepalive}
use cc2obp.Cccc.Connect.{accept_question, Recv, received, nothing_yet, closed}
use cc2obp.Cccc.Mux.{CcMux, PendingConn, put, find_link_by_ssrc}
use cc2obp.Cccc.Pending.{
  n_link, free_pending, free_slot, with_pending, match_question, establish,
  handle_question_complete, pending_on_line, then_line, on_pending_readable, pending_timeout_cb,
  fresh_pending, accept_one, on_listen_readable,
}
use cc2obp.Cccc.Sound.{tell, tell_all, dials}
use cc2obp.Cccc.Sound.Handlers.{accept_question-Sound}
use cc2obp.Cccc.Sound.Lookup.{find_link_by_ssrc-none, find_link_by_ssrc-some, match_question-some}
use cc2obp.Cccc.Sound.Table.{
  AllSound, IsUnique, IsGood, IsFree, up_at, IsGood-then, IsGood-nil, placed-IsGood,
}

pub tell-closes : (j : ℕ) (u : Bool) (fd : Option ℕ) → tell_all j u (closes fd) ≡ some u
unfolding tell_all tell
tell-closes j u none = refl
tell-closes j u (some fd) = refl

pub free_pending-told :
    (b : Bool) (p : PendingConn) (j : ℕ) (u : Bool) → tell_all j u (free_pending b p).1 ≡ some u
unfolding free_pending tell_all
free_pending-told true p j u = tell-closes j u p.fd
free_pending-told false p j u = refl

accept_question-source :
    (e : Env) (i : ℕ) (time_of_day : List ℕ) (fd : Option ℕ) (ssrc : ℕ) (lk : CcLink)
    → (accept_question e i time_of_day fd ssrc lk).0.sync_source ≡ ssrc
unfolding accept_question arm_keepalive
accept_question-source e i time_of_day fd ssrc lk = refl

-- A source that no link holds, or this one, is free for it.
pub IsFree-none :
    (e : Env) (i : ℕ) (mx : CcMux) (ssrc : ℕ)
    → find_link_by_ssrc ssrc (n_link e) 0 mx ≡ none
    → IsFree e i mx ssrc
IsFree-none e i mx ssrc h k small has same = absurd (
    let free = find_link_by_ssrc-none ssrc (n_link e) 0 k mx h (omega arith) (omega arith) in
    ground arith)

IsFree-own :
    (e : Env) (i : ℕ) (mx : CcMux) (ssrc : ℕ)
    → IsUnique (n_link e) mx
    → find_link_by_ssrc ssrc (n_link e) 0 mx ≡ some i
    → IsFree e i mx ssrc
IsFree-own e i mx ssrc q h k small has same =
    let (_, small', held) = find_link_by_ssrc-some ssrc (n_link e) 0 i mx h in
    q k i small (omega arith) has (ground arith) (same ∙ sym (ground arith))

module _ (e : Env) (time_of_day : List ℕ) where
  establish-IsGood :
      (k ssrc i : ℕ) (mx : CcMux)
      → AllSound e mx
      → IsUnique (n_link e) mx
      → i < n_link e
      → dials e i ≡ false
      → IsFree e i mx ssrc
      → IsGood e mx (establish e time_of_day k ssrc i mx)
  unfolding establish
  establish-IsGood k ssrc i mx s q small inbound free =
      placed-IsGood e i mx (accept_question e i time_of_day (mx.pending k).fd ssrc) ssrc s q free
        (accept_question-source e i time_of_day (mx.pending k).fd ssrc (mx.links i))
        λ j u.
          accept_question-Sound e i j u (mx.links i) time_of_day (mx.pending k).fd ssrc (s i small)
            inbound

  -- Closing a connection that has not asked changes no link.
  refused-IsGood :
      (b : Bool) (k : ℕ) (p : PendingConn) (mx : CcMux)
      → AllSound e mx
      → IsUnique (n_link e) mx
      → IsGood e mx (with_pending e k (free_pending b p) mx)
  refused-IsGood b k p mx s q = (s, q, λ j. free_pending-told b p j (up_at mx j))

  handle_question-IsGood :
      (k : ℕ) (mx : CcMux)
      → AllSound e mx
      → IsUnique (n_link e) mx
      → IsGood e mx (handle_question_complete e time_of_day k mx)
  unfolding handle_question_complete
  handle_question-IsGood k mx0 s q = elim (Option-cases matched) [
    | inl unmatched ↦
        subst (IsGood e mx) (sym (no_match unmatched)) (refused-IsGood true k p mx s q)
    | inr (i, e1) ↦
        let (_, small, asked) = match_question-some e.cfg p.src_ip lid (n_link e) 0 i e1 in
        elim (Option-cases found) [
          | inl fresh ↦ subst (IsGood e mx) (sym (no_holder i e1 fresh)) (
              establish-IsGood k ssrc i mx s q (omega arith) (ground arith)
                (IsFree-none e i mx ssrc fresh))
          | inr (j, e2) ↦ elim (Bool-cases (j == i)) [
            | inl own ↦ subst (IsGood e mx) (sym (own_holder i j e1 e2 own)) (
                establish-IsGood k ssrc i mx s q (omega arith) (ground arith)
                  (IsFree-own e i mx ssrc q (e2 ∙ ap some (==→≡ j i own))))
            | inr other ↦
                subst (IsGood e mx) (sym (other_holder i j e1 e2 other))
                  (refused-IsGood true k p mx s q)
          ]
        ]
  ]
    where
      p : PendingConn
      p = record (mx0.pending k) { timeout_timer = none }

      mx : CcMux
      mx = record mx0 { pending = put mx0.pending k p }

      ssrc : ℕ
      ssrc = strtoul 16 (get_or p.qlines 0 [])

      lid : ℕ
      lid = atoi (get_or p.qlines 1 [])

      matched : Option ℕ
      matched = match_question e.cfg p.src_ip lid (n_link e) 0

      found : Option ℕ
      found = find_link_by_ssrc ssrc (n_link e) 0 mx

      result : CcMux × List Action
      result = handle_question_complete e time_of_day k mx0

      refused : CcMux × List Action
      refused = with_pending e k (free_pending true p) mx

      no_match : matched ≡ none → result ≡ refused
      no_match h = rw (h, handle_question_complete) refl

      no_holder :
          (i : ℕ) → matched ≡ some i → found ≡ none → result ≡ establish e time_of_day k ssrc i mx
      no_holder i h g = rw (h, handle_question_complete) (rw g refl)

      own_holder :
          (i j : ℕ)
          → matched ≡ some i
          → found ≡ some j
          → (j == i) ≡ true
          → result ≡ establish e time_of_day k ssrc i mx
      own_holder i j h g o = rw (h, handle_question_complete) (rw g (rw o refl))

      other_holder :
          (i j : ℕ) → matched ≡ some i → found ≡ some j → (j == i) ≡ false → result ≡ refused
      other_holder i j h g o = rw (h, handle_question_complete) (rw g (rw o refl))

  pending_on_line-IsGood :
      (k : ℕ) (line : List ℕ) (mx : CcMux)
      → AllSound e mx
      → IsUnique (n_link e) mx
      → IsGood e mx (pending_on_line e time_of_day k line mx)
  unfolding pending_on_line
  pending_on_line-IsGood k line mx0 s q = either (length p.qlines == question_nfields)
    where
      p : PendingConn
      p =
          if ltb (length (mx0.pending k).qlines) question_nfields
          then record (mx0.pending k) { qlines = (mx0.pending k).qlines ++ take 255 line ∷ [] }
          else mx0.pending k

      mx : CcMux
      mx = record mx0 { pending = put mx0.pending k p }

      either :
          (b : Bool)
          → IsGood e mx0 (if b then handle_question_complete e time_of_day k mx else (mx, []))
      either true = handle_question-IsGood k mx s q
      either false = IsGood-nil e mx s q

  pub on_pending_readable-IsGood :
      (k : ℕ) (r : Recv) (mx : CcMux)
      → AllSound e mx
      → IsUnique (n_link e) mx
      → IsGood e mx (on_pending_readable e time_of_day k r mx)
  unfolding on_pending_readable
  on_pending_readable-IsGood k nothing_yet mx s q = IsGood-nil e mx s q
  on_pending_readable-IsGood k closed mx s q = refused-IsGood true k (mx.pending k) mx s q
  on_pending_readable-IsGood k (received bytes) mx s q =
      feed_bytes-keeps rxbuf_cap (then_line e time_of_day k) (IsGood e mx)
        (λ line st good.
          IsGood-then e mx st (pending_on_line e time_of_day k line st.0) good
            (pending_on_line-IsGood k line st.0 good.0 good.1))
        bytes ((mx.pending k).rxbuf, (mx, [])) (IsGood-nil e mx s q)

  pub pending_timeout_cb-IsGood :
      (k : ℕ) (mx : CcMux)
      → AllSound e mx
      → IsUnique (n_link e) mx
      → IsGood e mx (pending_timeout_cb e k mx)
  unfolding pending_timeout_cb
  pending_timeout_cb-IsGood k mx s q = refused-IsGood true k (mx.pending k) mx s q

accept_one-IsGood :
    (e : Env) (cfd : ℕ) (ip : List ℕ) (mx : CcMux)
    → AllSound e mx
    → IsUnique (n_link e) mx
    → IsGood e mx (accept_one e cfd ip mx)
unfolding accept_one
accept_one-IsGood e cfd ip mx s q = elim (Option-cases (free_slot max_pending 0 mx)) [
  | inl full ↦
      subst (IsGood e mx) (sym (when_full full)) (s, q, λ j. tell-closes j (up_at mx j) (some cfd))
  | inr (k, free) ↦ subst (IsGood e mx) (sym (when_free k free)) (IsGood-nil e (slotted k) s q)
]
  where
    slotted : ℕ → CcMux
    slotted k = record mx { pending = put mx.pending k (fresh_pending e cfd ip) }

    when_full : free_slot max_pending 0 mx ≡ none → accept_one e cfd ip mx ≡ (mx, close_fd cfd ∷ [])
    when_full h = rw (h, accept_one) refl

    when_free :
        (k : ℕ) → free_slot max_pending 0 mx ≡ some k → accept_one e cfd ip mx ≡ (slotted k, [])
    when_free k h = rw (h, accept_one) refl

pub on_listen_readable-IsGood :
    (e : Env) (accepted : List (ℕ × List ℕ)) (mx : CcMux)
    → AllSound e mx
    → IsUnique (n_link e) mx
    → IsGood e mx (on_listen_readable e accepted mx)
unfolding on_listen_readable
on_listen_readable-IsGood e [] mx s q = IsGood-nil e mx s q
on_listen_readable-IsGood e ((cfd, ip) ∷ more) mx s q =
    let one = accept_one-IsGood e cfd ip mx s q in
    let first = accept_one e cfd ip mx in
    IsGood-then e mx first (on_listen_readable e more first.0) one
      (on_listen_readable-IsGood e more (accept_one e cfd ip mx).0 one.0 one.1)
