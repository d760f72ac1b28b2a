-- ===== src/Examples/Signing.antt =====
-- A frame that one side signs, at the other side.
use cc2obp.Common.{◌≡◌, refl, true, some, [], ◌∷◌, arith}
use cc2obp.Config.{Config, no_peer, peer_at}
use cc2obp.Openbridge.Datagrams.{Datagram, own_body, obp_send_dmrd, on_obp_readable}
use cc2obp.Openbridge.Datagrams.Accepted.{on_obp_readable-obp_send_dmrd}
use cc2obp.Examples.Data.{two_links, all_up, frame}

abbrev near : Config
near = record two_links {
  openbridge =
      record no_peer { enabled = true; passphrase = 107 ∷ 101 ∷ 121 ∷ []; network_id = 310999 }
      ∷ [];
}

abbrev far_side : Config
far_side = record two_links {
  openbridge =
      record no_peer {
        enabled = true;
        passphrase = 107 ∷ 101 ∷ 121 ∷ [];
        peer_ip = 49 ∷ [];
        peer_port = 62;
      }
      ∷ [];
}

on_obp_readable-obp_send_dmrd_example :
    (dg : Datagram) × (obp_send_dmrd near all_up 0 (frame 0x10) ≡ some dg)
    × (on_obp_readable far_side 0 (record dg { ip = 49 ∷ []; port = 62 })
        ≡ some (own_body (peer_at near 0) (frame 0x10)))
on_obp_readable-obp_send_dmrd_example =
    on_obp_readable-obp_send_dmrd near far_side all_up 0 0 (frame 0x10) (omega arith) refl refl refl
      refl refl
