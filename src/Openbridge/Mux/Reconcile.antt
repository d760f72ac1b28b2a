-- ===== src/Openbridge/Mux/Reconcile.antt =====
-- openbridge/obp_link.c: the sockets follow the configuration.
use mathlib.Core.Path.{subst}
use cc2obp.Common.{
  ℕ, zero, suc, ◌+◌, ◌≤◌, ◌<◌, ◌≡◌, refl, sym, ap, ◌∙◌, ◌⊎◌, inl, inr, Bool, false, ◌&&◌, ◌||◌,
  arith, ◌==◌, ==→≡, Bool-cases, length, for_range,
}
use cc2obp.Config.{Config, peer_at}
use cc2obp.Openbridge.Mux.{ObpMux, reconcile_peer, obp_mux_reconcile}

-- What a peer should be after a reconciliation: up if it is enabled and was up or can be bound.
abbrev pub wanted : (ℕ → Bool) → Config → ObpMux → ℕ → Bool
wanted can_bind cfg mx i =
    (peer_at cfg i).enabled && (mx.active i || can_bind (peer_at cfg i).bind_port)

module _ (can_bind : ℕ → Bool) (cfg : Config) where
  reconcile_peer_self :
      (i : ℕ) (mx : ObpMux)
      → mx.bound i ≡ mx.active i
      → ((reconcile_peer can_bind cfg i mx).active i ≡ wanted can_bind cfg mx i)
        × ((reconcile_peer can_bind cfg i mx).bound i ≡ wanted can_bind cfg mx i)
  unfolding reconcile_peer
  reconcile_peer_self i mx same = ground arith

  reconcile_peer-other :
      (i j : ℕ) (mx : ObpMux)
      → (j == i) ≡ false
      → ((reconcile_peer can_bind cfg i mx).active j ≡ mx.active j)
        × ((reconcile_peer can_bind cfg i mx).bound j ≡ mx.bound j)
  unfolding reconcile_peer
  reconcile_peer-other i j mx other = ground arith

  abbrev loop : ℕ → ℕ → ObpMux → ObpMux
  loop n lo mx = for_range n lo (reconcile_peer can_bind cfg) mx

  loop-outside :
      (n lo j : ℕ) (mx : ObpMux)
      → j < lo ⊎ lo + n ≤ j
      → ((loop n lo mx).active j ≡ mx.active j) × ((loop n lo mx).bound j ≡ mx.bound j)
  unfolding for_range
  loop-outside zero lo j mx out = (refl, refl)
  loop-outside (suc n) lo j mx out =
      let (a, b) = loop-outside n (lo + 1) j (reconcile_peer can_bind cfg lo mx) (ground arith) in
      let (c, d) = reconcile_peer-other lo j mx (ground arith) in (a ∙ c, b ∙ d)

  loop-inside :
      (n lo j : ℕ) (mx : ObpMux)
      → mx.bound j ≡ mx.active j
      → lo ≤ j
      → j < lo + n
      → ((loop n lo mx).active j ≡ wanted can_bind cfg mx j)
        × ((loop n lo mx).bound j ≡ wanted can_bind cfg mx j)
  unfolding for_range
  loop-inside zero lo j mx same from to = absurd (omega arith)
  loop-inside (suc n) lo j mx same from to = elim (Bool-cases (j == lo)) [
    | inl here ↦
        let (a, b) = loop-outside n (lo + 1) j next (inl (let q = ==→≡ j lo here in omega arith)) in
        let (c, d) =
          subst
            (λ i.
              ((reconcile_peer can_bind cfg i mx).active j ≡ wanted can_bind cfg mx j)
              × ((reconcile_peer can_bind cfg i mx).bound j ≡ wanted can_bind cfg mx j))
            (==→≡ j lo here) (reconcile_peer_self j mx same) in
        (a ∙ c, b ∙ d)
    | inr there ↦
        let (c, d) = reconcile_peer-other lo j mx there in
        let (a, b) =
          loop-inside n (lo + 1) j next (d ∙ (same ∙ sym c)) (ground arith) (omega arith) in
        let w : wanted can_bind cfg next j ≡ wanted can_bind cfg mx j =
          ap (λ up. (peer_at cfg j).enabled && (up || can_bind (peer_at cfg j).bind_port)) c in
        (a ∙ w, b ∙ w)
  ]
    where
      next : ObpMux
      next = reconcile_peer can_bind cfg lo mx

  -- After a reconciliation a peer is active, and its socket bound, exactly if it is enabled and was
  -- active before or its port can be bound. The peer was bound exactly if it was active.
  pub obp_mux_reconcile-wanted :
      (mx : ObpMux) (j : ℕ)
      → mx.bound j ≡ mx.active j
      → j < length cfg.openbridge
      → ((obp_mux_reconcile can_bind cfg mx).active j ≡ wanted can_bind cfg mx j)
        × ((obp_mux_reconcile can_bind cfg mx).bound j ≡ wanted can_bind cfg mx j)
  unfolding obp_mux_reconcile
  obp_mux_reconcile-wanted mx j same small =
      loop-inside (length cfg.openbridge) 0 j mx same (omega arith) (omega arith)
