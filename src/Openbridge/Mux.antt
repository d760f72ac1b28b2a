-- ===== src/Openbridge/Mux.antt =====
-- openbridge/obp_link.c: the sockets of the peers. Whether the system binds a port is an argument.
pub mod Reconcile
use cc2obp.Common.{ℕ, Bool, true, false, not, ◌&&◌, ltb, ◌==◌, if◌then◌else◌, length, for_range}
use cc2obp.Config.{Config, ObpPeerConfig, peer_at}

-- A socket that is bound, by peer, and what was enabled when it was last bound.
pub record ObpMux : Type 0 where
  pub bound : ℕ → Bool
  pub active : ℕ → Bool

abbrev pub put : (ℕ → Bool) → ℕ → Bool → ℕ → Bool
put f i v j = if j == i then v else f j

unfoldable pub obp_peer_is_enabled : Config → ObpMux → ℕ → Bool
obp_peer_is_enabled cfg mx p = ltb p (length cfg.openbridge) && mx.active p

unfoldable pub obp_mux_new : ObpMux
obp_mux_new = record { bound = λ _. false; active = λ _. false }

unfoldable pub unbind_peer : ℕ → ObpMux → ObpMux
unbind_peer idx mx = record { bound = put mx.bound idx false; active = put mx.active idx false }

module _ (can_bind : ℕ → Bool) (cfg : Config) where
  unfoldable pub bind_peer : ℕ → ObpMux → ObpMux
  bind_peer idx mx =
      if can_bind (peer_at cfg idx).bind_port
      then record { bound = put mx.bound idx true; active = put mx.active idx true }
      else record mx { bound = put mx.bound idx false }

  unfoldable pub start_peer : ℕ → ObpMux → ObpMux
  unfolding bind_peer
  start_peer i mx = if (peer_at cfg i).enabled then bind_peer i mx else mx

  unfoldable pub obp_mux_start : ObpMux → ObpMux
  unfolding for_range start_peer
  obp_mux_start mx = for_range (length cfg.openbridge) 0 start_peer mx

  unfoldable pub reconcile_peer : ℕ → ObpMux → ObpMux
  unfolding bind_peer unbind_peer
  reconcile_peer i mx =
      let enabled = (peer_at cfg i).enabled in
      if enabled && not (mx.active i)
      then bind_peer i mx
      else if not enabled && mx.active i
      then unbind_peer i mx
      else mx

  unfoldable pub obp_mux_reconcile : ObpMux → ObpMux
  unfolding for_range reconcile_peer
  obp_mux_reconcile mx = for_range (length cfg.openbridge) 0 reconcile_peer mx

unfoldable pub stop_peer : ℕ → ObpMux → ObpMux
unfolding unbind_peer
stop_peer i mx = if mx.active i then unbind_peer i mx else mx

unfoldable pub obp_mux_stop : Config → ObpMux → ObpMux
unfolding for_range stop_peer
obp_mux_stop cfg mx = for_range (length cfg.openbridge) 0 stop_peer mx
