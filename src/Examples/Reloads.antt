-- ===== src/Examples/Reloads.antt =====
-- A reload that turns the first link of `two_links` off, and a file with a peer and an inbound link.
use cc2obp.Common.{◌≡◌, refl, true, false, ◌||◌, some, none, [], ◌∷◌, if◌then◌else◌}
use cc2obp.Wire.{same_bytes}
use cc2obp.Cccc.Const.{codes}
use cc2obp.Config.{Config, inbound, no_peer, no_link}
use cc2obp.Config.Fields.{Section, toml_string, toml_int}
use cc2obp.Config.File.{Toml, config_load}
use cc2obp.Config.File.Accepted.{IsAccepted, config_load-IsAccepted}
use cc2obp.Config.Reload.{config_reload_toggles}
use cc2obp.Config.Reload.Toggles.{IsReload, config_reload_toggles-IsReload}
use cc2obp.Examples.Data.{two_links, link_a, link_b}

abbrev file : Config
file = record two_links { link = record link_a { enabled = false; name = 65 ∷ [] } ∷ [] }

abbrev running : Config
running = record two_links {
  link = record link_a { name = 65 ∷ [] } ∷ record link_b { name = 66 ∷ [] } ∷ [];
}

config_reload_toggles-IsReload_example :
    IsReload (some file) running (config_reload_toggles (some file) running)
config_reload_toggles-IsReload_example = config_reload_toggles-IsReload (some file) running

-- The keys of an inbound link to the peer A.
abbrev inbound_keys : Section
inbound_keys key =
    if same_bytes key (codes "name") || same_bytes key (codes "openbridge_system")
    then some (toml_string (codes " A "))
    else if same_bytes key (codes "cc_role")
    then some (toml_string (codes "inbound"))
    else if same_bytes key (codes "cc_remote_ip")
    then some (toml_string (codes "10.0.0.1"))
    else if same_bytes key (codes "cc_remote_voice_port")
    then some (toml_int false 7000)
    else if same_bytes key (codes "tgid") || same_bytes key (codes "cc_lid")
    then some (toml_int false 3100)
    else none

-- The keys of the peer A.
abbrev peer_keys : Section
peer_keys key =
    if same_bytes key (codes "name")
    then some (toml_string (codes "A"))
    else if same_bytes key (codes "peer_ip")
    then some (toml_string (codes "10.0.0.2"))
    else if same_bytes key (codes "peer_port") || same_bytes key (codes "bind_port")
    then some (toml_int false 62035)
    else if same_bytes key (codes "network_id")
    then some (toml_int false 3100)
    else if same_bytes key (codes "passphrase")
    then some (toml_string (codes "secret"))
    else none

abbrev toml_file : Toml
toml_file = record { global = λ _. none; openbridge = peer_keys ∷ []; link = inbound_keys ∷ [] }

abbrev loaded : Config
loaded = record {
  cc_site_name = codes "cc2obp";
  cc_mac_address = codes "000000000000";
  cc_code_revision = codes "10252";
  cc_version = codes "cc2obp";
  cc_os_version = codes "Linux";
  cc_keepalive_interval = 10;
  cc_link_timeout = 35;
  openbridge =
      record no_peer {
        name = codes "A";
        enabled = true;
        peer_ip = codes "10.0.0.2";
        peer_port = 62035;
        bind_port = 62035;
        network_id = 3100;
        passphrase = codes "secret";
      }
      ∷ [];
  link =
      record no_link {
        name = codes "A";
        enabled = true;
        cross_connect_active = true;
        tgid = 3100;
        openbridge_system = codes "A";
        openbridge_idx = some 0;
        cc_role = inbound;
        cc_lid = 3100;
        cc_remote_ip = codes "10.0.0.1";
        cc_remote_voice_port = 7000;
      }
      ∷ [];
}

toml_file-loads : config_load (λ _. true) (some toml_file) ≡ some loaded
unfolding config_load same_bytes
toml_file-loads = refl

config_load-IsAccepted_example : IsAccepted (λ _. true) loaded
config_load-IsAccepted_example = config_load-IsAccepted (λ _. true) toml_file loaded toml_file-loads
