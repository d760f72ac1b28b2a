-- ===== src/Cccc/Sound.antt =====
-- cccc/cccc_link.c: what holds of each link between two events, and what translate.c is told.
pub mod Handlers
pub mod Table
pub mod Lookup
pub mod Asked
pub mod Sockets
pub mod Runs
pub mod Life
use cc2obp.Common.{
  ℕ, ◌+◌, ◌-◌, ◌/◌, ◌≡◌, ◌∙◌, inl, inr, Bool, true, false, not, ◌&&◌, ◌||◌, Option, none, some,
  List, [], ◌∷◌, ◌++◌, arith, ◌==◌, if◌then◌else◌, Option-cases, set,
}
use cc2obp.Config.{LinkConfig, link_at}
use cc2obp.Cccc.Const.{codes, answer_nfields, rxbuf_cap}
use cc2obp.Cccc.Text.{strstr}
use cc2obp.Cccc.Signals.{Bon, parse_bon, parse_boff}
use cc2obp.Cccc.Lines.{feed_bytes-keeps}
use mathlib.Core.Path.{subst}
use cc2obp.Cccc.Link.{
  CcLink, Env, Handler, Action, tcp_send, udp_sendto, close_fd, tr_link_up, tr_link_down, tr_bon,
  tr_boff, tr_voice, LinkState, lst_connecting, lst_handshaking, lst_up, lst_down, is_up, is_down,
  is_outbound, ◌then_do◌, lcfg, closes, udp_send_to_link, schedule_reconnect,
  teardown_link_connection, arm_keepalive, keepalive_cb, finish_outbound_handshake,
  dispatch_established_line, link_on_line, feed_link, cccc_send_bon, cccc_send_boff,
  cccc_send_voice,
}
use cc2obp.Cccc.Connect.{
  Recv, received, nothing_yet, closed, on_link_tcp_readable, cccc_start_outbound_connect,
  reconnect_cb, connect_failed, connected, accept_question, start_link, drop_link, reconcile_link,
  stop_link,
}
use cc2obp.Cccc.Traffic.{is_some}
use cc2obp.Cccc.Steps.{is_connecting, is_bound}

-- The keepalive timer is set exactly while the link is up, and the link holds a sync source exactly
-- from the handshake on. An outbound link that should be trying is on its way, or has its
-- reconnect timer set, never both; one that should not is down. An inbound link never dials.
abbrev pub IsSound : Bool → CcLink → Type 0
IsSound outb lk =
    (is_some lk.keepalive_timer ≡ is_up lk.state)
    × (lk.has_sync_source ≡ is_bound lk.state)
    × (is_some lk.reconnect_timer ≡ (outb && (lk.active && is_down lk.state)))
    × ((outb && (not lk.active && not (is_down lk.state))) ≡ false)
    × ((not outb && (is_connecting lk.state || (is_bound lk.state && not (is_up lk.state))))
        ≡ false)

-- Whether translate.c takes link `j` for up, after an action: `none` if a link that is up is told
-- to come up, or one that is not is told to go down or is handed a call signal.
unfoldable pub tell : ℕ → Bool → Action → Option Bool
tell j up (tr_link_up i) = if i == j then if up then none else some true else some up
tell j up (tr_link_down i) = if i == j then if up then some false else none else some up
tell j up (tr_bon i _) = if i == j then if up then some up else none else some up
tell j up (tr_boff i _ _) = if i == j then if up then some up else none else some up
tell j up (tr_voice _ _ _ _ _) = some up
tell j up (tcp_send _ _) = some up
tell j up (udp_sendto _ _ _) = some up
tell j up (close_fd _) = some up

unfoldable pub tell_all : ℕ → Bool → List Action → Option Bool
unfolding tell
tell_all j up [] = some up
tell_all j up (a ∷ rest) = elim (tell j up a) [ none ↦ none | some up' ↦ tell_all j up' rest ]

pub tell_all-append :
    (j : ℕ) (up up' : Bool) (xs ys : List Action)
    → tell_all j up xs ≡ some up'
    → tell_all j up (xs ++ ys) ≡ tell_all j up' ys
unfolding tell_all
tell_all-append j up up' [] ys h = ground arith
tell_all-append j up up' (a ∷ xs) ys h = elim (Option-cases (tell j up a)) [
  | inl e ↦ ground arith
  | inr (mid, e) ↦ let ih = tell_all-append j mid up' xs ys in ground arith
]

-- A sync source is not changed.
abbrev pub Keeps : CcLink → CcLink → Type 0
Keeps lk lk' =
    lk'.has_sync_source ≡ true → (lk.has_sync_source ≡ true) × (lk'.sync_source ≡ lk.sync_source)

-- Link `j` as translate.c has it, if link `i` is this one and the others are as given.
abbrev pub seen : ℕ → ℕ → Bool → CcLink → Bool
seen i j u lk = if i == j then is_up lk.state else u

abbrev pub Tells : ℕ → ℕ → Bool → CcLink → CcLink × List Action → Type 0
Tells i j u lk r = tell_all j (seen i j u lk) r.1 ≡ some (seen i j u r.0)

abbrev pub Fine : Bool → ℕ → ℕ → Bool → CcLink → CcLink × List Action → Type 0
Fine outb i j u lk r = IsSound outb r.0 × Keeps lk r.0 × Tells i j u lk r

pub then_do-Fine :
    (outb : Bool) (i j : ℕ) (u : Bool) (lk : CcLink) (r : CcLink × List Action) (h : Handler)
    → Fine outb i j u lk r
    → (IsSound outb r.0 → Fine outb i j u r.0 (h r.0))
    → Fine outb i j u lk (r then_do h)
then_do-Fine outb i j u lk r h (s, k, t) next =
    let (s', k', t') = next s in
    (
      s',
      (λ has. let (a, b) = k' has in let (c, d) = k a in (c, b ∙ d)),
      tell_all-append j (seen i j u lk) (seen i j u r.0) r.1 _ t ∙ t',
    )

-- Whether the link is one that this side dials.
abbrev pub dials : Env → ℕ → Bool
dials e i = is_outbound (link_at e.cfg i)
