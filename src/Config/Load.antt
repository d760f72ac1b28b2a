-- ===== src/Config/Load.antt =====
-- config.c: an entry of `[[openbridge]]` and one of `[[link]]`. Whether the system takes a text for an IPv4
-- address is an argument.
pub mod Valid
use cc2obp.Common.{
  ℕ, zero, suc, ◌+◌, ◌-◌, Bool, true, false, not, ◌&&◌, Option, none, some, List, [], ◌∷◌,
  if◌then◌else◌,
}
use cc2obp.Wire.{same_bytes}
use cc2obp.Cccc.Const.{codes}
use cc2obp.Config.{CcRole, outbound, inbound, ObpPeerConfig, LinkConfig}
use cc2obp.Config.Fields.{
  Section, Read, Reason, invalid_address, no_such_system, get_str, get_choice, get_int, get_bool,
}

abbrev pub Errors : Type 0
Errors = List (List ℕ × Reason)

abbrev pub no_text : List ℕ → Bool
no_text [] = true
no_text (_ ∷ _) = false

-- The first peer with this name, from index `i` on.
unfoldable pub find_openbridge : List ℕ → ℕ → List ObpPeerConfig → Option ℕ
find_openbridge name i [] = none
find_openbridge name i (o ∷ os) =
    let later = find_openbridge name (i + 1) os in if same_bytes o.name name then some i else later

abbrev pub absent_of : Option ℕ → Bool
absent_of none = true
absent_of (some _) = false

-- The port of the remote end is read for an outbound link only.
abbrev pub read_remote_port : Section → CcRole → Read (Option ℕ)
read_remote_port t inbound = (none, [])
read_remote_port t outbound =
    let port = get_int t (codes "cc_remote_port") true 0 1 (some 65535) in (some port.0, port.1)

abbrev pub role_of : ℕ → CcRole
role_of zero = outbound
role_of (suc _) = inbound

abbrev pub is_outbound_role : CcRole → Bool
is_outbound_role outbound = true
is_outbound_role inbound = false

abbrev pub system_errors : List ℕ → Option ℕ → Errors
system_errors system idx =
    if not (no_text system) && absent_of idx
    then (codes "openbridge_system", no_such_system) ∷ []
    else []

module _ (is_valid_ipv4 : List ℕ → Bool) where
  -- An address that is not empty must be valid.
  abbrev pub check_address : List ℕ → List ℕ → Errors
  check_address key ip =
      if not (no_text ip) && not (is_valid_ipv4 ip) then (key, invalid_address) ∷ [] else []

  -- The errors are those of each step in turn.
  unfoldable pub load_peer : Section → ObpPeerConfig × List Errors
  unfolding get_str get_bool get_int
  load_peer t =
      let name = get_str t (codes "name") true [] 64 in
      let enabled = get_bool t (codes "enabled") false true in
      let peer_ip = get_str t (codes "peer_ip") true [] 64 in
      let peer_port = get_int t (codes "peer_port") true 0 1 (some 65535) in
      let bind_port = get_int t (codes "bind_port") true 0 1 (some 65535) in
      let network_id = get_int t (codes "network_id") true 0 0 none in
      let preserve = get_bool t (codes "preserve_source_peer") false false in
      let passphrase = get_str t (codes "passphrase") true [] 256 in
      (
        record {
          name = name.0;
          enabled = enabled.0;
          peer_ip = peer_ip.0;
          peer_port = peer_port.0;
          bind_port = bind_port.0;
          network_id = network_id.0;
          passphrase = passphrase.0;
          preserve_source_peer = preserve.0;
        },
        name.1
            ∷ enabled.1
            ∷ peer_ip.1
            ∷ check_address (codes "peer_ip") peer_ip.0
            ∷ peer_port.1
            ∷ bind_port.1
            ∷ network_id.1
            ∷ preserve.1
            ∷ passphrase.1
            ∷ [],
      )

  unfoldable pub load_link : List ObpPeerConfig → Section → LinkConfig × List Errors
  unfolding get_str get_bool get_int get_choice find_openbridge
  load_link peers t =
      let name = get_str t (codes "name") true [] 64 in
      let enabled = get_bool t (codes "enabled") false true in
      let active = get_bool t (codes "cross_connect_active") false true in
      let tgid = get_int t (codes "tgid") true 0 0 none in
      let system = get_str t (codes "openbridge_system") true [] 64 in
      let idx = find_openbridge system.0 0 peers in
      let choice = get_choice t (codes "cc_role") true (codes "OUTBOUND" ∷ codes "INBOUND" ∷ []) in
      let role = role_of choice.0 in
      let lid = get_int t (codes "cc_lid") true 0 0 none in
      let remote_ip = get_str t (codes "cc_remote_ip") true [] 64 in
      let remote_port = read_remote_port t role in
      let voice_port = get_int t (codes "cc_remote_voice_port") true 0 1 (some 65535) in
      let channel = get_str t (codes "cc_channel_name") (is_outbound_role role) [] 128 in
      (
        record {
          name = name.0;
          enabled = enabled.0;
          cross_connect_active = active.0;
          tgid = tgid.0;
          openbridge_system = system.0;
          openbridge_idx = idx;
          cc_role = role;
          cc_lid = lid.0;
          cc_remote_ip = remote_ip.0;
          cc_remote_port = remote_port.0;
          cc_remote_voice_port = voice_port.0;
          cc_channel_name = channel.0;
        },
        name.1
            ∷ enabled.1
            ∷ active.1
            ∷ tgid.1
            ∷ system.1
            ∷ system_errors system.0 idx
            ∷ choice.1
            ∷ lid.1
            ∷ remote_ip.1
            ∷ check_address (codes "cc_remote_ip") remote_ip.0
            ∷ remote_port.1
            ∷ voice_port.1
            ∷ channel.1
            ∷ [],
      )
