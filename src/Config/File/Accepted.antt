-- ===== src/Config/File/Accepted.antt =====
-- config.c: what a configuration holds that config_load accepts.
use mathlib.Core.Path.{subst}
use cc2obp.Common.{
  ℕ, zero, suc, ◌≤◌, ◌≡◌, refl, Bool, true, false, ◌||◌, none, some, List, [], ◌∷◌, All, arith,
  concat, length, take, if◌then◌else◌,
}
use cc2obp.Config.{ObpPeerConfig, LinkConfig, Config}
use cc2obp.Cccc.Const.{codes}
use cc2obp.Config.Fields.{Section, get_int}
use cc2obp.Config.Load.{Errors, load_peer, load_link}
use cc2obp.Config.Load.Valid.{
  concat-AllNone, IsValid, load_peer-IsValidPeer, IsValidPeer, load_link-IsValid,
}
use cc2obp.Config.Reload.{has_clash}
use cc2obp.Config.File.{
  Toml, cfg_max_openbridge, cfg_max_links, some_error, has_errors, load_all, peers_clash,
  load_openbridge, load_links, load_global, config_load,
}

abbrev pub IsWithin : ℕ → ℕ → ℕ → Type 0
IsWithin low high n = (low ≤ n) × (n ≤ high)

interval-IsWithin :
    (t : Section)
    → (get_int t (codes "cc_keepalive_interval") false 10 1 (some 300)).1 ≡ []
    → IsWithin 1 300 (get_int t (codes "cc_keepalive_interval") false 10 1 (some 300)).0
unfolding get_int
interval-IsWithin t h = ground arith

timeout-IsWithin :
    (t : Section)
    → (get_int t (codes "cc_link_timeout") false 35 1 (some 3600)).1 ≡ []
    → IsWithin 1 3600 (get_int t (codes "cc_link_timeout") false 35 1 (some 3600)).0
unfolding get_int
timeout-IsWithin t h = ground arith

load_global-IsWithin :
    (t : Section)
    → concat (load_global t).1 ≡ []
    → IsWithin 1 300 (load_global t).0.cc_keepalive_interval
      × IsWithin 1 3600 (load_global t).0.cc_link_timeout
unfolding load_global
load_global-IsWithin t h =
    let (_, (_, (_, (_, (_, (_, (interval, (timeout, _)))))))) =
      concat-AllNone (load_global t).1 h in
    (interval-IsWithin t interval, timeout-IsWithin t timeout)

-- Only the branch without errors gives a value.
accepted :
    {A : Type 0}
    → (bad : Bool) (a b : A) → (if bad then none else some a) ≡ some b
    → (bad ≡ false) × (a ≡ b)
accepted true a b h = absurd (ground arith)
accepted false a b h = (refl, cc)

or_false : (a b : Bool) → (a || b) ≡ false → (a ≡ false) × (b ≡ false)
or_false a b h = ground arith

some_error-none : (es : Errors) → some_error es ≡ false → es ≡ []
some_error-none [] h = refl
some_error-none (_ ∷ _) h = absurd (ground arith)

module _ {A : Type 0} (load : Section → A × List Errors) where
  load_all-All :
      (P : A → Type 0)
      → ((t : Section) → concat (load t).1 ≡ [] → P (load t).0)
      → (ts : List Section) → (load_all load ts).1 ≡ false
      → All P (load_all load ts).0
  load_all-All P holds [] h = tt
  load_all-All P holds (t ∷ ts) h =
      let (first, rest) = or_false (has_errors (load t).1) (load_all load ts).1 h in
      (holds t (some_error-none (concat (load t).1) first), load_all-All P holds ts rest)

  load_all-length : (n : ℕ) (ts : List Section) → length (load_all load (take n ts)).0 ≤ n
  load_all-length zero ts = omega arith
  load_all-length (suc n) [] = omega arith
  load_all-length (suc n) (t ∷ ts) = let shorter = load_all-length n ts in omega arith

module _ (is_valid_ipv4 : List ℕ → Bool) where
  -- The peers are valid and do not clash, and at most 32.
  abbrev ArePeers : List ObpPeerConfig → Type 0
  ArePeers os =
      All (IsValidPeer is_valid_ipv4) os
      × (peers_clash os ≡ false)
      × (length os ≤ cfg_max_openbridge)

  -- The links are valid and do not clash, and at most 128.
  abbrev AreLinks : List ObpPeerConfig → List LinkConfig → Type 0
  AreLinks peers ls =
      All (IsValid is_valid_ipv4 peers) ls × (has_clash ls ≡ false) × (length ls ≤ cfg_max_links)

  load_openbridge-ArePeers :
      (ts : List Section)
      → (load_openbridge is_valid_ipv4 ts).1 ≡ false
      → ArePeers (load_openbridge is_valid_ipv4 ts).0
  unfolding load_openbridge
  load_openbridge-ArePeers ts h =
      let (h1, apart) = or_false _ _ h in
      let (_, good) = or_false _ _ h1 in
      (
        load_all-All (load_peer is_valid_ipv4) (IsValidPeer is_valid_ipv4)
            (load_peer-IsValidPeer is_valid_ipv4) (take cfg_max_openbridge ts) good,
        apart,
        load_all-length (load_peer is_valid_ipv4) cfg_max_openbridge ts,
      )

  load_links-AreLinks :
      (peers : List ObpPeerConfig) (ts : List Section)
      → (load_links is_valid_ipv4 peers ts).1 ≡ false
      → AreLinks peers (load_links is_valid_ipv4 peers ts).0
  unfolding load_links
  load_links-AreLinks peers ts h =
      let (h1, apart) = or_false _ _ h in
      let (_, good) = or_false _ _ h1 in
      (
        load_all-All (load_link is_valid_ipv4 peers) (IsValid is_valid_ipv4 peers)
            (load_link-IsValid is_valid_ipv4 peers) (take cfg_max_links ts) good,
        apart,
        load_all-length (load_link is_valid_ipv4 peers) cfg_max_links ts,
      )

  abbrev pub IsAccepted : Config → Type 0
  IsAccepted cfg =
      ArePeers cfg.openbridge
      × AreLinks cfg.openbridge cfg.link
      × IsWithin 1 300 cfg.cc_keepalive_interval
      × IsWithin 1 3600 cfg.cc_link_timeout

  -- A file that is accepted gives at most 32 peers and 128 links, of which no two clash. Each peer has
  -- two ports from 1 to 65535, and each link one for voice and, if it is outbound, one to dial; their
  -- addresses are valid or empty, and a link that names a system has the index of the first peer
  -- of that name. The keepalive interval is from 1 to 300 seconds, and the timeout from 1 to 3600.
  pub config_load-IsAccepted :
      (f : Toml) (cfg : Config) → config_load is_valid_ipv4 (some f) ≡ some cfg → IsAccepted cfg
  unfolding config_load
  config_load-IsAccepted f cfg h =
      let (clean, same) = accepted _ _ cfg h in
      let (h1, links) = or_false _ _ clean in
      let (fields, peers) = or_false _ _ h1 in
      let (interval, timeout) = load_global-IsWithin f.global (some_error-none _ fields) in
      let ports = load_openbridge-ArePeers f.openbridge peers in
      let rows = load_links-AreLinks (load_openbridge is_valid_ipv4 f.openbridge).0 f.link links in
      subst IsAccepted same (ports, rows, interval, timeout)
