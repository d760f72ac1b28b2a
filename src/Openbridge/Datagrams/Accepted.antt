-- ===== src/Openbridge/Datagrams/Accepted.antt =====
-- openbridge/obp_link.c: a frame that one side signs passes the checks of the other.
use Prim.Native.Nat.{bit_and}
use cc2obp.Common.{
  ℕ, ◌%◌, ◌<◌, ◌≡◌, refl, ap, ap₂, ◌∙◌, inl, inr, Bool, true, false, not, ◌||◌, none, some, List,
  [], ◌++◌, arith, ltb, ◌==◌, if◌then◌else◌, ==_refl, Bool-cases, length, get_or, take, drop,
  eq-tabulate, take-all,
}
use cc2obp.Wire.{wr32, rd24, rd32, rd32-wr32, same_bytes, same_bytes_refl}
use cc2obp.Config.{Config, ObpPeerConfig, peer_at}
use cc2obp.Crypto.{hmac_sha1}
use cc2obp.Crypto.Digest.{length-hmac_sha1, hmac_sha1-IsBytes}
use cc2obp.Openbridge.Const.{dmrd_tag, src_off, netid_off, flags_off, flag_slot2}
use cc2obp.Openbridge.Mux.{ObpMux}
use cc2obp.Openbridge.Datagrams.{Datagram, own_body, obp_send_dmrd, ct_eq, on_obp_readable}
use cc2obp.Openbridge.Datagrams.Authentic.{ct_eq-same_bytes}

-- The peer id that a frame carries: the source peer if it is preserved, or else our network id.
abbrev pub carried_peer : ObpPeerConfig → ℕ → ℕ
carried_peer o source = if o.preserve_source_peer then source else o.network_id % 4294967296

-- The network id stands between the stretch with the source and the flags.
pub own_body-fields :
    (o : ObpPeerConfig) (body : List ℕ)
    → length body ≡ 53
    → (length (own_body o body) ≡ 53)
      × (take 4 (own_body o body) ≡ take 4 body)
      × (get_or (own_body o body) flags_off 0 ≡ get_or body flags_off 0)
      × (rd24 (drop src_off (own_body o body)) ≡ rd24 (drop src_off body))
      × (rd32 (drop netid_off (own_body o body)) ≡ carried_peer o (rd32 (drop netid_off body)))
unfolding own_body wr32 rd32 rd24
own_body-fields o body long = elim (Bool-cases o.preserve_source_peer) [
  | inl keep ↦ rw keep (long, refl, refl, refl, refl)
  | inr ours ↦
      rw (ours, eq-tabulate 53 body 0 long) (refl, refl, refl, refl, rd32-wr32 o.network_id [])
]

joined :
    (s h : List ℕ)
    → length s ≡ 53
    → length h ≡ 20
    → (length (s ++ h) ≡ 73)
      × (take 4 (s ++ h) ≡ take 4 s)
      × (take 53 (s ++ h) ≡ s)
      × (take 20 (drop 53 (s ++ h)) ≡ h)
      × (get_or (s ++ h) flags_off 0 ≡ get_or s flags_off 0)
joined s h ls lh = rw (eq-tabulate 53 s 0 ls, eq-tabulate 20 h 0 lh) (refl, refl, refl, refl, refl)

five_passed :
    (a b c d e : Bool) (x : List ℕ)
    → a ≡ false
    → b ≡ false
    → c ≡ false
    → d ≡ false
    → e ≡ false
    → (if a
        then none
        else if b
        then none
        else if c
        then none
        else if d
        then none
        else if e
        then none
        else some x)
      ≡ some x
five_passed a b c d e x p q r s t = rw (p, q, r, s, t) refl

accepted :
    (cfg : Config) (idx : ℕ) (s : List ℕ)
    → length s ≡ 53
    → take 4 s ≡ dmrd_tag
    → bit_and (get_or s flags_off 0) flag_slot2 ≡ 0
    → let o = peer_at cfg idx in
      on_obp_readable cfg idx
        (record { bytes = s ++ hmac_sha1 o.passphrase s; ip = o.peer_ip; port = o.peer_port })
      ≡ some s
unfolding on_obp_readable
accepted cfg idx s ls tag slot =
    let (long, front, body, digest, flags) = joined s h ls (length-hmac_sha1 o.passphrase s) in
    five_passed _ _ _ _ _ _ (begins long front) (right_size long) from_peer (is_signed body digest)
      (on_slot flags)
    ∙ ap some body
  where
    o : ObpPeerConfig
    o = peer_at cfg idx

    h : List ℕ
    h = hmac_sha1 o.passphrase s

    begins :
        length (s ++ h) ≡ 73
        → take 4 (s ++ h) ≡ take 4 s
        → (ltb (length (s ++ h)) 4 || not (same_bytes (take 4 (s ++ h)) dmrd_tag)) ≡ false
    begins long front = rw (long, front, tag, same_bytes_refl dmrd_tag) refl

    right_size : length (s ++ h) ≡ 73 → not (length (s ++ h) == 73) ≡ false
    right_size long = rw long refl

    from_peer : (not (same_bytes o.peer_ip o.peer_ip) || not (o.peer_port == o.peer_port)) ≡ false
    from_peer = rw (same_bytes_refl o.peer_ip, ==_refl o.peer_port) refl

    own_digest : ct_eq h h ≡ true
    own_digest =
        ct_eq-same_bytes h h (hmac_sha1-IsBytes o.passphrase s) (hmac_sha1-IsBytes o.passphrase s)
          refl
        ∙ same_bytes_refl h

    is_signed :
        take 53 (s ++ h) ≡ s
        → take 20 (drop 53 (s ++ h)) ≡ h
        → not (ct_eq (hmac_sha1 o.passphrase (take 53 (s ++ h))) (take 20 (drop 53 (s ++ h))))
          ≡ false
    is_signed body digest =
        ap not (ap₂ ct_eq (ap (hmac_sha1 o.passphrase) body) digest ∙ own_digest)

    on_slot :
        get_or (s ++ h) flags_off 0 ≡ get_or s flags_off 0
        → not (bit_and (get_or (s ++ h) flags_off 0) flag_slot2 == 0) ≡ false
    on_slot flags = ap (λ v. not (bit_and v flag_slot2 == 0)) flags ∙ ap (λ v. not (v == 0)) slot

-- A frame that one side sends to a peer passes the checks of the other side, if it arrives from the
-- address that the other side has for it: the peer is in the table and bound, the two sides share
-- the passphrase, and the body has 53 bytes, begins with the tag and is on slot 1. What goes on is
-- the body with the sender's network id, or the body itself if the source peer is preserved.
pub on_obp_readable-obp_send_dmrd :
    (cfg far : Config) (mx : ObpMux) (p idx : ℕ) (body : List ℕ)
    → p < length cfg.openbridge
    → mx.bound p ≡ true
    → (peer_at cfg p).passphrase ≡ (peer_at far idx).passphrase
    → length body ≡ 53
    → take 4 body ≡ dmrd_tag
    → bit_and (get_or body flags_off 0) flag_slot2 ≡ 0
    → (dg : Datagram) × (obp_send_dmrd cfg mx p body ≡ some dg)
      × (on_obp_readable far idx
            (record dg { ip = (peer_at far idx).peer_ip; port = (peer_at far idx).peer_port })
          ≡ some (own_body (peer_at cfg p) body))
unfolding obp_send_dmrd
on_obp_readable-obp_send_dmrd cfg far mx p idx body small up shared long tag slot = (
  sent,
  rw (in_table, up, whole) refl,
  ap (λ k. on_obp_readable far idx (arriving k)) shared
      ∙ accepted far idx s fields.0 (fields.1 ∙ tag)
          (ap (λ v. bit_and v flag_slot2) fields.2 ∙ slot),
)
  where
    s : List ℕ
    s = own_body (peer_at cfg p) body

    fields :
        (length s ≡ 53)
        × (take 4 s ≡ take 4 body)
        × (get_or s flags_off 0 ≡ get_or body flags_off 0)
    fields =
        let (size, front, flags, _, _) = own_body-fields (peer_at cfg p) body long in
        (size, front, flags)

    whole : take 53 s ≡ s
    whole = take-all 53 s fields.0

    in_table : ltb p (length cfg.openbridge) ≡ true
    in_table = ground arith

    sent : Datagram
    sent = record {
      bytes = s ++ hmac_sha1 (peer_at cfg p).passphrase s;
      ip = (peer_at cfg p).peer_ip;
      port = (peer_at cfg p).peer_port;
    }

    arriving : List ℕ → Datagram
    arriving key = record {
      bytes = s ++ hmac_sha1 key s;
      ip = (peer_at far idx).peer_ip;
      port = (peer_at far idx).peer_port;
    }
