-- ===== src/Translate/Gate.antt =====
-- translate.c, obp_gate_open: what comes out of a closed gate.
use mathlib.Core.Path.{subst}
use cc2obp.Common.{
  ℕ, ◌≡◌, refl, sym, ap, ◌∙◌, inl, inr, Bool, true, false, List, [], ◌∷◌, if◌then◌else◌, Bool-cases,
  get_or, All, not, ◌&&◌, ◌⊎◌, Option, none, some, ◌≤◌, length, arith,
}
use cc2obp.Config.{link_at}
use cc2obp.Openbridge.Mux.{obp_peer_is_enabled}
use cc2obp.Openbridge.Const.{flags_off}
use cc2obp.Translate.Handlers.{obp_gate_open, obp_gate_closed}
use cc2obp.Translate.Incoming.{is_head, dmrd_open, link_dmrd_received}
use cc2obp.Translate.{Env, Slot, Handler, Action, log_drop, with_logged, ◌then_do◌}
use cc2obp.Translate.Handlers.{peer_ok}
use cc2obp.Translate.Calls.{SameCall}

-- DMRD frames that come in for one link, one after another.
unfoldable pub receive_all : Env → ℕ → List (List ℕ) → Handler
unfolding link_dmrd_received
receive_all e i [] s = (s, [])
receive_all e i (body ∷ bodies) s = link_dmrd_received e i body s then_do receive_all e i bodies

abbrev NoHead : List ℕ → Type 0
NoHead body = is_head (get_or body flags_off 0) ≡ false

-- No peer, or one that is not in the table or not active.
abbrev pub IsDown : Env → Option ℕ → Type 0
IsDown e idx =
    (idx ≡ none)
    ⊎ ((p : ℕ) × (idx ≡ some p) × ((length e.cfg.openbridge ≤ p) ⊎ (e.ob.active p ≡ false)))

-- The link's toggle is off, or its peer is down.
abbrev pub IsClosed : Env → ℕ → Type 0
IsClosed e i =
    ((link_at e.cfg i).cross_connect_active ≡ false) ⊎ IsDown e (link_at e.cfg i).openbridge_idx

peer_down :
    (e : Env) (p : ℕ)
    → (length e.cfg.openbridge ≤ p) ⊎ (e.ob.active p ≡ false)
    → obp_peer_is_enabled e.cfg e.ob p ≡ false
unfolding obp_peer_is_enabled
peer_down e p (inl outside) = ground arith
peer_down e p (inr down) = ground arith

IsDown-peer_ok :
    (e : Env) (idx : Option ℕ)
    → IsDown e idx
    → (elim idx [ none ↦ false | some p ↦ obp_peer_is_enabled e.cfg e.ob p ]) ≡ false
IsDown-peer_ok e none down = refl
IsDown-peer_ok e (some q) (inl alone) = absurd (ground arith)
IsDown-peer_ok e (some q) (inr (p, peer, down)) =
    let same : q ≡ p = ground arith in rw same (peer_down e p down)

and_false : (a b : Bool) → b ≡ false → (a && b) ≡ false
and_false a b h = ground arith

IsClosed-obp_gate_open : (e : Env) (i : ℕ) → IsClosed e i → obp_gate_open e i ≡ false
unfolding obp_gate_open
IsClosed-obp_gate_open e i (inl off) = rw off refl
IsClosed-obp_gate_open e i (inr down) =
    and_false _ _ (IsDown-peer_ok e (link_at e.cfg i).openbridge_idx down)

-- The attempt has had its line already, and no header begins a new one.
abbrev pub has_line : List ℕ → Slot → Bool
has_line body s = not (is_head (get_or body flags_off 0)) && s.lr.cx_drop_logged

module _ (e : Env) (i : ℕ) (closed : IsClosed e i) (on : (link_at e.cfg i).enabled ≡ true) where
  -- A frame is dropped, and a header first clears the flag of the log.
  closed_frame :
      (s : Slot) (body : List ℕ)
      → link_dmrd_received e i body s ≡ obp_gate_closed e i (with_logged s (has_line body s))
  unfolding link_dmrd_received dmrd_open
  closed_frame s body = elim (Bool-cases (is_head (get_or body flags_off 0))) [
    | inl head ↦ rw (on, head, IsClosed-obp_gate_open e i closed) refl
    | inr later ↦ rw (on, later, IsClosed-obp_gate_open e i closed) refl
  ]

  closed-logged : (s : Slot) → obp_gate_closed e i (with_logged s true) ≡ (with_logged s true, [])
  unfolding obp_gate_closed
  closed-logged s = refl

  closed-new :
      (s : Slot)
      → obp_gate_closed e i (with_logged s false)
        ≡ (with_logged s true, log_drop i (peer_ok e i) ∷ [])
  unfolding obp_gate_closed
  closed-new s = refl

  receive-closed :
      (s : Slot) (body : List ℕ) (bodies : List (List ℕ)) (r : Slot × List Action)
      → obp_gate_closed e i (with_logged s (has_line body s)) ≡ r
      → receive_all e i (body ∷ bodies) s ≡ r then_do receive_all e i bodies
  unfolding receive_all
  receive-closed s body bodies r q =
      ap (λ t. t then_do receive_all e i bodies) (closed_frame s body ∙ q)

  logged-silent :
      (s : Slot) (bodies : List (List ℕ))
      → All NoHead bodies
      → receive_all e i bodies (with_logged s true) ≡ (with_logged s true, [])
  unfolding receive_all
  logged-silent s [] all = refl
  logged-silent s (body ∷ bodies) all =
      receive-closed (with_logged s true) body bodies (with_logged s true, [])
        (rw all.0 (closed-logged s))
      ∙ logged-silent s bodies all.1

  -- Frames of one attempt that come to an enabled link are dropped, header included, if the link's
  -- toggle is off, it has no peer, or its peer is not in the table or not active: the call and the
  -- counters stay, and nothing goes out but one line in the log. There is no line if the attempt has had
  -- its line and does not begin here with a header. The frames are one or more, and none but the
  -- first is a voice header, which begins an attempt.
  pub gate_logs_once :
      (s : Slot) (body : List ℕ) (bodies : List (List ℕ))
      → All NoHead bodies
      → let r = receive_all e i (body ∷ bodies) s in
        (r.1 ≡ (if has_line body s then [] else log_drop i (peer_ok e i) ∷ []))
        × (r.0.lr.cx_drop_logged ≡ true)
        × SameCall s r.0
  gate_logs_once s body bodies all = elim (Bool-cases (has_line body s)) [
    | inl old ↦
        done (with_logged s true, [])
          (receive-closed s body bodies (with_logged s true, []) (rw old (closed-logged s))
            ∙ logged-silent s bodies all)
          (
            sym (ap (λ (b : Bool). if b then [] else log_drop i (peer_ok e i) ∷ []) old),
            refl,
            (refl, refl, refl),
          )
    | inr new ↦
        done (with_logged s true, log_drop i (peer_ok e i) ∷ [])
          (receive-closed s body bodies (with_logged s true, log_drop i (peer_ok e i) ∷ [])
              (rw new (closed-new s))
            ∙ ap (λ r. (r.0, log_drop i (peer_ok e i) ∷ r.1)) (logged-silent s bodies all))
          (
            sym (ap (λ (b : Bool). if b then [] else log_drop i (peer_ok e i) ∷ []) new),
            refl,
            (refl, refl, refl),
          )
  ]
    where
      Once : Slot × List Action → Type 0
      Once r =
          (r.1 ≡ (if has_line body s then [] else log_drop i (peer_ok e i) ∷ []))
          × (r.0.lr.cx_drop_logged ≡ true)
          × SameCall s r.0

      done :
          (r : Slot × List Action)
          → receive_all e i (body ∷ bodies) s ≡ r
          → Once r
          → Once (receive_all e i (body ∷ bodies) s)
      done r q once = subst Once (sym q) once
