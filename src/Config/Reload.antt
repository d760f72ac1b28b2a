-- ===== src/Config/Reload.antt =====
-- config.c: the reload of the toggles, and the rules on pairs of links. `strcmp` is `same_bytes`,
-- since a name here is what comes before the terminating zero.
pub mod Toggles
use cc2obp.Common.{
  ℕ, Bool, true, false, not, ◌&&◌, ◌||◌, Option, none, some, List, [], ◌∷◌, ◌==◌, if◌then◌else◌,
  length,
}
use cc2obp.Wire.{same_bytes}
use cc2obp.Config.{CcRole, inbound, outbound, ObpPeerConfig, LinkConfig, Config}

-- The toggle of the first entry of the file with this name; the entry's own if there is none.
unfoldable pub reload_peer : ObpPeerConfig → List ObpPeerConfig → ObpPeerConfig
reload_peer o [] = o
reload_peer o (f ∷ fs) =
    let later = reload_peer o fs in
    if same_bytes o.name f.name then record o { enabled = f.enabled } else later

unfoldable pub reload_link : LinkConfig → List LinkConfig → LinkConfig
reload_link l [] = l
reload_link l (f ∷ fs) =
    let later = reload_link l fs in
    if same_bytes l.name f.name
    then record l { enabled = f.enabled; cross_connect_active = f.cross_connect_active }
    else later

abbrev pub reload_peers : List ObpPeerConfig → List ObpPeerConfig → List ObpPeerConfig
reload_peers [] fs = []
reload_peers (o ∷ os) fs = reload_peer o fs ∷ reload_peers os fs

abbrev pub reload_links : List LinkConfig → List LinkConfig → List LinkConfig
reload_links [] fs = []
reload_links (l ∷ ls) fs = reload_link l fs ∷ reload_links ls fs

-- The file as `config_load` reads it, `none` if it refuses it. The result is the configuration after
-- the call, and whether the call returns 0.
unfoldable pub config_reload_toggles : Option Config → Config → Config × Bool
config_reload_toggles none cfg = (cfg, false)
config_reload_toggles (some fresh) cfg = (
  record cfg {
    openbridge = reload_peers cfg.openbridge fresh.openbridge;
    link = reload_links cfg.link fresh.link;
  },
  true,
)

-- `for (i ...) for (j = i + 1 ...) if (clash(i, j)) ...`.
any_later : {A : Type 0} → (A → A → Bool) → A → List A → Bool
any_later clash l [] = false
any_later clash l (m ∷ ms) = clash l m || any_later clash l ms

unfoldable pub any_pair : {A : Type 0} → (A → A → Bool) → List A → Bool
unfolding any_later
any_pair clash [] = false
any_pair clash (l ∷ ls) = any_later clash l ls || any_pair clash ls

abbrev pub is_inbound : CcRole → Bool
is_inbound inbound = true
is_inbound outbound = false

same_name : LinkConfig → LinkConfig → Bool
same_name l m = not (length l.name == 0) && same_bytes l.name m.name

abbrev pub same_index : Option ℕ → Option ℕ → Bool
same_index none q = false
same_index (some p) none = false
same_index (some p) (some q) = p == q

same_system : LinkConfig → LinkConfig → Bool
same_system l m = same_index l.openbridge_idx m.openbridge_idx && l.tgid == m.tgid

same_inbound : LinkConfig → LinkConfig → Bool
same_inbound l m =
    is_inbound l.cc_role
    && is_inbound m.cc_role
    && same_bytes l.cc_remote_ip m.cc_remote_ip
    && l.cc_lid == m.cc_lid

-- What `load_links` refuses.
unfoldable pub has_clash : List LinkConfig → Bool
unfolding any_pair same_name same_system same_inbound
has_clash ls = any_pair same_name ls || any_pair same_system ls || any_pair same_inbound ls
