-- ===== src/Config/File.antt =====
-- config.c: config_load. The tables of the file are an argument, as toml.c has parsed them; `none` is a
-- file that it refuses. The texts of the errors are left out: what counts is if there is one.
pub mod Accepted
use cc2obp.Common.{
  ℕ, Bool, true, false, not, ◌&&◌, ◌||◌, Option, none, some, List, [], ◌∷◌, ltb, ◌==◌, length,
  if◌then◌else◌, concat, take,
}
use cc2obp.Wire.{same_bytes}
use cc2obp.Cccc.Const.{codes}
use cc2obp.Config.{ObpPeerConfig, LinkConfig, Config}
use cc2obp.Config.Fields.{Section, get_str, get_choice, get_int}
use cc2obp.Config.Load.{Errors, no_text, load_peer, load_link}
use cc2obp.Config.Reload.{any_pair, has_clash}

pub record Toml : Type 0 where
  pub global : Section
  pub openbridge : List Section
  pub link : List Section

abbrev pub cfg_max_openbridge : ℕ
cfg_max_openbridge = 32

abbrev pub cfg_max_links : ℕ
cfg_max_links = 128

abbrev pub some_error : Errors → Bool
some_error [] = false
some_error (_ ∷ _) = true

-- Whether `adderr` was called.
abbrev pub has_errors : List Errors → Bool
has_errors es = some_error (concat es)

-- The entries that are loaded, and whether one has an error.
abbrev pub load_all : {A : Type 0} → (Section → A × List Errors) → List Section → List A × Bool
load_all load [] = ([], false)
load_all load (t ∷ ts) =
    let first = load t in
    let rest = load_all load ts in (first.0 ∷ rest.0, has_errors first.1 || rest.1)

unfoldable pub same_peer : ObpPeerConfig → ObpPeerConfig → Bool
same_peer o q = not (no_text o.name) && same_bytes o.name q.name

unfoldable pub same_bind_port : ObpPeerConfig → ObpPeerConfig → Bool
same_bind_port o q = o.enabled && q.enabled && o.bind_port == q.bind_port

abbrev pub peers_clash : List ObpPeerConfig → Bool
peers_clash os = any_pair same_peer os || any_pair same_bind_port os

-- The section [global], with no entries yet.
unfoldable pub load_global : Section → Config × List Errors
unfolding get_choice get_str get_int
load_global t =
    let level =
      get_choice t (codes "log_level") false
        (codes "DEBUG" ∷ codes "INFO" ∷ codes "WARNING" ∷ codes "ERROR" ∷ []) in
    let site = get_str t (codes "cc_site_name") false (codes "cc2obp") 128 in
    let mac = get_str t (codes "cc_mac_address") false (codes "000000000000") 32 in
    let revision = get_str t (codes "cc_code_revision") false (codes "10252") 32 in
    let version = get_str t (codes "cc_version") false (codes "cc2obp") 128 in
    let os_version = get_str t (codes "cc_os_version") false (codes "Linux") 128 in
    let interval = get_int t (codes "cc_keepalive_interval") false 10 1 (some 300) in
    let timeout = get_int t (codes "cc_link_timeout") false 35 1 (some 3600) in
    (
      record {
        cc_site_name = site.0;
        cc_mac_address = mac.0;
        cc_code_revision = revision.0;
        cc_version = version.0;
        cc_os_version = os_version.0;
        cc_keepalive_interval = interval.0;
        cc_link_timeout = timeout.0;
        openbridge = [];
        link = [];
      },
      level.1 ∷ site.1 ∷ mac.1 ∷ revision.1 ∷ version.1 ∷ os_version.1 ∷ interval.1 ∷ timeout.1
          ∷ [],
    )

module _ (is_valid_ipv4 : List ℕ → Bool) where
  unfoldable pub load_openbridge : List Section → List ObpPeerConfig × Bool
  unfolding load_peer any_pair same_peer same_bind_port
  load_openbridge ts =
      let (os, bad) = load_all (load_peer is_valid_ipv4) (take cfg_max_openbridge ts) in
      (os, ltb cfg_max_openbridge (length ts) || bad || peers_clash os)

  unfoldable pub load_links : List ObpPeerConfig → List Section → List LinkConfig × Bool
  unfolding load_link has_clash
  load_links peers ts =
      let (ls, bad) = load_all (load_link is_valid_ipv4 peers) (take cfg_max_links ts) in
      (ls, ltb cfg_max_links (length ts) || bad || has_clash ls)

  -- `none` is a call that returns -1.
  unfoldable pub config_load : Option Toml → Option Config
  unfolding load_global load_openbridge load_links
  config_load none = none
  config_load (some f) =
      let global = load_global f.global in
      let peers = load_openbridge f.openbridge in
      let links = load_links peers.0 f.link in
      if has_errors global.1 || peers.1 || links.1
      then none
      else some (record global.0 { openbridge = peers.0; link = links.0 })
