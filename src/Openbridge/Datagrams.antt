-- ===== src/Openbridge/Datagrams.antt =====
-- openbridge/obp_link.c: frames signed on the way out, and checked on the way in.
pub mod Authentic
pub mod Accepted
use Prim.Native.Nat.{bit_and, bit_or, bit_xor}
use cc2obp.Common.{
  ℕ, ◌+◌, Bool, not, ◌&&◌, ◌||◌, Option, none, some, List, [], ◌∷◌, ◌++◌, ltb, ◌==◌, if◌then◌else◌,
  length, get_or, take, drop,
}
use cc2obp.Wire.{wr32, same_bytes}
use cc2obp.Config.{Config, ObpPeerConfig, peer_at}
use cc2obp.Crypto.{hmac_sha1}
use cc2obp.Openbridge.Const.{
  dmrd_body_len, hmac_len, dmrd_pkt_len, netid_off, flags_off, flag_slot2, dmrd_tag,
}
use cc2obp.Openbridge.Mux.{ObpMux}

-- A datagram and the address of its other end.
pub record Datagram : Type 0 where
  pub bytes : List ℕ
  pub ip : List ℕ
  pub port : ℕ

-- `diff |= a[i] ^ b[i]` over two arrays of one length.
unfoldable pub diff_from : ℕ → List ℕ → List ℕ → ℕ
diff_from diff [] bs = diff
diff_from diff (a ∷ as') [] = diff
diff_from diff (a ∷ as') (b ∷ bs) = diff_from (bit_or diff (bit_xor a b)) as' bs

unfoldable pub ct_eq : List ℕ → List ℕ → Bool
unfolding diff_from
ct_eq as' bs = diff_from 0 as' bs == 0

-- The body with our network id in it, unless the peer is to see the source peer.
unfoldable pub own_body : ObpPeerConfig → List ℕ → List ℕ
own_body o body =
    if o.preserve_source_peer
    then body
    else take netid_off body ++ (wr32 o.network_id ++ drop (netid_off + 4) body)

unfoldable pub obp_send_dmrd : Config → ObpMux → ℕ → List ℕ → Option Datagram
obp_send_dmrd cfg mx p body =
    let o = peer_at cfg p in
    let signed = take dmrd_body_len (own_body o body) in
    if ltb p (length cfg.openbridge) && mx.bound p
    then some (record {
      bytes = signed ++ hmac_sha1 o.passphrase signed;
      ip = o.peer_ip;
      port = o.peer_port;
    })
    else none

-- What of a datagram for peer `idx` goes to the translator: the frame without its digest.
unfoldable pub on_obp_readable : Config → ℕ → Datagram → Option (List ℕ)
on_obp_readable cfg idx dg =
    let o = peer_at cfg idx in
    let n = length dg.bytes in
    let expect = hmac_sha1 o.passphrase (take dmrd_body_len dg.bytes) in
    if ltb n 4 || not (same_bytes (take 4 dg.bytes) dmrd_tag)
    then none
    else if not (n == dmrd_pkt_len)
    then none
    else if not (same_bytes dg.ip o.peer_ip) || not (dg.port == o.peer_port)
    then none
    else if not (ct_eq expect (take hmac_len (drop dmrd_body_len dg.bytes)))
    then none
    else if not (bit_and (get_or dg.bytes flags_off 0) flag_slot2 == 0)
    then none
    else some (take dmrd_body_len dg.bytes)
