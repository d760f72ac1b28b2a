-- ===== src/Examples/Digests.antt =====
-- Published digests, by evaluation, and the theorems on digests and datagrams at concrete inputs.
use Prim.Native.Nat.{bit_and}
use cc2obp.Common.{◌≡◌, refl, true, [], ◌∷◌, ◌++◌, arith, length, get_or, take, drop, replicate}
use cc2obp.Wire.{wr32, rd32, same_bytes}
use cc2obp.Config.{Config, no_peer}
use cc2obp.Crypto.{sha1, sha1_init, sha1_update, sha1_final, hmac_sha1, pad_zeros, len_bytes}
use cc2obp.Crypto.Streaming.{sha1_update-append}
use cc2obp.Crypto.Padding.{pad_zeros-fills}
use cc2obp.Openbridge.Const.{dmrd_tag, flags_off, flag_slot2}
use cc2obp.Openbridge.Mux.{obp_mux_new, obp_mux_reconcile}
use cc2obp.Openbridge.Mux.Reconcile.{obp_mux_reconcile-wanted}
use cc2obp.Openbridge.Datagrams.{Datagram, ct_eq, on_obp_readable}
use cc2obp.Openbridge.Datagrams.Authentic.{on_obp_readable_authentic}
use cc2obp.Examples.Data.{two_links, frame, are_bytes-All}

abc_digest :
    sha1 (97 ∷ 98 ∷ 99 ∷ [])
    ≡ 0xA9 ∷ 0x99 ∷ 0x3E ∷ 0x36 ∷ 0x47 ∷ 0x06 ∷ 0x81 ∷ 0x6A ∷ 0xBA ∷ 0x3E ∷ 0x25 ∷ 0x71 ∷ 0x78
      ∷ 0x50 ∷ 0xC2 ∷ 0x6C ∷ 0x9C ∷ 0xD0 ∷ 0xD8 ∷ 0x9D ∷ []
unfolding sha1 sha1_update wr32 rd32
abc_digest = refl

-- Key "Jefe", message "what do ya want for nothing?".
jefe_digest :
    hmac_sha1 (74 ∷ 101 ∷ 102 ∷ 101 ∷ []) (
      119 ∷ 104 ∷ 97 ∷ 116 ∷ 32 ∷ 100 ∷ 111 ∷ 32 ∷ 121 ∷ 97 ∷ 32 ∷ 119 ∷ 97 ∷ 110 ∷ 116 ∷ 32 ∷ 102
      ∷ 111 ∷ 114 ∷ 32 ∷ 110 ∷ 111 ∷ 116 ∷ 104 ∷ 105 ∷ 110 ∷ 103 ∷ 63 ∷ [])
    ≡ 0xEF ∷ 0xFC ∷ 0xDF ∷ 0x6A ∷ 0xE5 ∷ 0xEB ∷ 0x2F ∷ 0xA2 ∷ 0xD2 ∷ 0x74 ∷ 0x16 ∷ 0xD5 ∷ 0xF1
      ∷ 0x84 ∷ 0xDF ∷ 0x9C ∷ 0x25 ∷ 0x9A ∷ 0x7C ∷ 0x79 ∷ []
unfolding hmac_sha1 sha1_update sha1_final wr32 rd32
jefe_digest = refl

sha1_update-append_example :
    sha1_update (replicate 70 7) (sha1_update (replicate 60 9) sha1_init)
    ≡ sha1_update (replicate 60 9 ++ replicate 70 7) sha1_init
sha1_update-append_example =
    sha1_update-append (replicate 60 9) (replicate 70 7) sha1_init (omega arith)

pad_zeros-fills_example :
    (length (pad_zeros 64 sha1_init).buf ≡ 56)
    × (length (sha1_update (len_bytes 0) (pad_zeros 64 sha1_init)).buf ≡ 0)
pad_zeros-fills_example = pad_zeros-fills sha1_init (omega arith)

-- A peer with the passphrase "key".
abbrev signing : Config
signing = record two_links {
  openbridge =
      record no_peer {
        enabled = true;
        passphrase = 107 ∷ 101 ∷ 121 ∷ [];
        peer_ip = 49 ∷ [];
        peer_port = 62;
      }
      ∷ [];
}

abbrev signed : Datagram
signed = record {
  bytes = frame 0x10 ++ hmac_sha1 (107 ∷ 101 ∷ 121 ∷ []) (frame 0x10);
  ip = 49 ∷ [];
  port = 62;
}

on_obp_readable_authentic_example :
    (length signed.bytes ≡ 73)
    × (take 4 signed.bytes ≡ dmrd_tag)
    × (signed.ip ≡ 49 ∷ [])
    × (signed.port ≡ 62)
    × (bit_and (get_or signed.bytes flags_off 0) flag_slot2 ≡ 0)
    × (frame 0x10 ≡ take 53 signed.bytes)
    × (take 20 (drop 53 signed.bytes) ≡ hmac_sha1 (107 ∷ 101 ∷ 121 ∷ []) (frame 0x10))
unfolding hmac_sha1 sha1_update sha1_final wr32 rd32 on_obp_readable ct_eq same_bytes
on_obp_readable_authentic_example =
    on_obp_readable_authentic signing 0 signed (frame 0x10) (are_bytes-All signed.bytes refl) refl

obp_mux_reconcile-wanted_example :
    ((obp_mux_reconcile (λ _. true) signing obp_mux_new).active 0 ≡ true)
    × ((obp_mux_reconcile (λ _. true) signing obp_mux_new).bound 0 ≡ true)
unfolding obp_mux_new
obp_mux_reconcile-wanted_example =
    obp_mux_reconcile-wanted (λ _. true) signing obp_mux_new 0 refl (omega arith)
