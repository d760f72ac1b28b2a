-- ===== src/Config.antt =====
-- config.h: the validated configuration. Text is a list of character codes. An `int` field holds
-- the number, which `config_load` wants to be 0 or more, and is taken to be below 2 ^ 31; an index
-- of -1 is `none`. The level of the log is left out.
pub mod Reload
pub mod Fields
pub mod Load
pub mod File
use cc2obp.Common.{ℕ, Bool, false, Option, none, List, [], get_or}

pub data CcRole : Type 0 where
  outbound inbound : CcRole

pub record ObpPeerConfig : Type 0 where
  pub name : List ℕ
  pub enabled : Bool
  pub peer_ip : List ℕ
  pub peer_port : ℕ
  pub bind_port : ℕ
  pub network_id : ℕ
  pub passphrase : List ℕ
  pub preserve_source_peer : Bool

pub record LinkConfig : Type 0 where
  pub name : List ℕ
  pub enabled : Bool
  pub cross_connect_active : Bool
  pub tgid : ℕ
  pub openbridge_system : List ℕ
  pub openbridge_idx : Option ℕ
  pub cc_role : CcRole
  pub cc_lid : ℕ
  pub cc_remote_ip : List ℕ
  pub cc_remote_port : Option ℕ
  pub cc_remote_voice_port : ℕ
  pub cc_channel_name : List ℕ

pub record Config : Type 0 where
  pub cc_site_name : List ℕ
  pub cc_mac_address : List ℕ
  pub cc_code_revision : List ℕ
  pub cc_version : List ℕ
  pub cc_os_version : List ℕ
  pub cc_keepalive_interval : ℕ
  pub cc_link_timeout : ℕ
  pub openbridge : List ObpPeerConfig
  pub link : List LinkConfig

-- An entry that `memset` has cleared, with no peer resolved: what lies past the entries in use.
abbrev pub no_link : LinkConfig
no_link = record {
  name = [];
  enabled = false;
  cross_connect_active = false;
  tgid = 0;
  openbridge_system = [];
  openbridge_idx = none;
  cc_role = outbound;
  cc_lid = 0;
  cc_remote_ip = [];
  cc_remote_port = none;
  cc_remote_voice_port = 0;
  cc_channel_name = [];
}

abbrev pub no_peer : ObpPeerConfig
no_peer = record {
  name = [];
  enabled = false;
  peer_ip = [];
  peer_port = 0;
  bind_port = 0;
  network_id = 0;
  passphrase = [];
  preserve_source_peer = false;
}

abbrev pub link_at : Config → ℕ → LinkConfig
link_at cfg i = get_or cfg.link i no_link

abbrev pub peer_at : Config → ℕ → ObpPeerConfig
peer_at cfg i = get_or cfg.openbridge i no_peer
