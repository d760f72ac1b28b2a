-- ===== src/Openbridge/Datagrams/Authentic.antt =====
-- openbridge/obp_link.c: the comparison of digests.
use Prim.Native.Nat.{bit_and, bit_or, bit_xor}
use cc2obp.Common.{
  ℕ, zero, suc, ◌<◌, ◌≡◌, refl, sym, ap, ◌∙◌, Bool, true, false, not, ◌&&◌, ◌||◌, none, some, List,
  [], ◌∷◌, arith, ltb, ◌==◌, if◌then◌else◌, ==→≡, passes, passes_each, length, get_or, take, drop,
  length-drop, length-take,
}
use cc2obp.Wire.{same_bytes, same_bytes→≡}
use cc2obp.Dmr.Bits.{IsBytes}
use cc2obp.Config.{Config, peer_at}
use cc2obp.Crypto.{hmac_sha1}
use cc2obp.Crypto.Digest.{length-hmac_sha1, hmac_sha1-IsBytes}
use cc2obp.Openbridge.Const.{dmrd_tag, flags_off, flag_slot2}
use cc2obp.Openbridge.Datagrams.{Datagram, diff_from, ct_eq, on_obp_readable}

-- On bytes, `^` and `|` are 0 only for equal bytes, and for two zeros, and give bytes.
abbrev byte_law : ℕ → ℕ → Bool
byte_law a b =
    (if a == b then bit_xor a b == 0 else not (bit_xor a b == 0))
    && (if a == 0 && b == 0 then bit_or a b == 0 else not (bit_or a b == 0))
    && ltb (bit_xor a b) 256
    && ltb (bit_or a b) 256

byte_laws : passes (λ a. passes (byte_law a) 0 256) 0 256 ≡ true
unfolding passes
byte_laws = refl

byte_law-holds : (a b : ℕ) → a < 256 → b < 256 → byte_law a b ≡ true
byte_law-holds a b ha hb =
    passes_each (byte_law a) 256 b hb
      (passes_each (λ a. passes (byte_law a) 0 256) 256 a ha byte_laws)

diff_step :
    (d a b : ℕ)
    → d < 256
    → a < 256
    → b < 256
    → ((bit_or d (bit_xor a b) == 0) ≡ (d == 0 && a == b)) × (bit_or d (bit_xor a b) < 256)
diff_step d a b hd ha hb =
    let law = byte_law-holds a b ha hb in
    let small : bit_xor a b < 256 = ground (arith, law) in
    let law' = byte_law-holds d (bit_xor a b) hd small in ground (arith, law, law')

diff_from-same :
    (d : ℕ) (xs ys : List ℕ)
    → d < 256
    → IsBytes xs
    → IsBytes ys
    → length xs ≡ length ys
    → (diff_from d xs ys == 0) ≡ (d == 0 && same_bytes xs ys)
unfolding diff_from same_bytes
diff_from-same d [] [] hd hx hy n = ground arith
diff_from-same d [] (y ∷ ys) hd hx hy n = absurd (omega arith)
diff_from-same d (x ∷ xs) [] hd hx hy n = absurd (omega arith)
diff_from-same d (x ∷ xs) (y ∷ ys) hd hx hy n =
    let (zero_if, small) = diff_step d x y hd hx.0 hy.0 in
    let rest = diff_from-same (bit_or d (bit_xor x y)) xs ys small hx.1 hy.1 (omega arith) in
    ground (arith, zero_if, rest)

-- The comparison in constant time gives what `memcmp` gives, on bytes and arrays of one length.
pub ct_eq-same_bytes :
    (xs ys : List ℕ)
    → IsBytes xs
    → IsBytes ys
    → length xs ≡ length ys
    → ct_eq xs ys ≡ same_bytes xs ys
unfolding ct_eq
ct_eq-same_bytes xs ys hx hy n = diff_from-same 0 xs ys (omega arith) hx hy n

All-take : (n : ℕ) (xs : List ℕ) → IsBytes xs → IsBytes (take n xs)
All-take zero xs h = tt
All-take (suc n) [] h = tt
All-take (suc n) (x ∷ xs) h = (h.0, All-take n xs h.1)

All-drop : (n : ℕ) (xs : List ℕ) → IsBytes xs → IsBytes (drop n xs)
All-drop zero xs h = h
All-drop (suc n) [] h = tt
All-drop (suc n) (x ∷ xs) h = All-drop n xs h.1

five_tests :
    (a b c d e : Bool) (x body : List ℕ)
    → (if a
        then none
        else if b
        then none
        else if c
        then none
        else if d
        then none
        else if e
        then none
        else some x)
      ≡ some body
    → (a ≡ false) × (b ≡ false) × (c ≡ false) × (d ≡ false) × (e ≡ false) × (body ≡ x)
five_tests a b c d e x body h = ground arith

second_false : (a b : Bool) → (a || not b) ≡ false → b ≡ true
second_false a b h = ground arith

first_false : (a b : Bool) → (not a || b) ≡ false → a ≡ true
first_false a b h = ground arith

second_of : (a b : Bool) → (a || b) ≡ false → b ≡ false
second_of a b h = ground arith

not-false : (a : Bool) → not a ≡ false → a ≡ true
not-false a h = ground arith

-- Which tests a datagram has passed that goes on to the translator.
passed :
    (cfg : Config) (idx : ℕ) (dg : Datagram) (body : List ℕ)
    → on_obp_readable cfg idx dg ≡ some body
    → (same_bytes (take 4 dg.bytes) dmrd_tag ≡ true)
      × (length dg.bytes ≡ 73)
      × (same_bytes dg.ip (peer_at cfg idx).peer_ip ≡ true)
      × (dg.port ≡ (peer_at cfg idx).peer_port)
      × (ct_eq
            (hmac_sha1 (peer_at cfg idx).passphrase (take 53 dg.bytes))
            (take 20 (drop 53 dg.bytes))
          ≡ true)
      × (bit_and (get_or dg.bytes flags_off 0) flag_slot2 ≡ 0)
      × (body ≡ take 53 dg.bytes)
unfolding on_obp_readable
passed cfg idx dg body h =
    let (a, b, c, d, e, whole) = five_tests _ _ _ _ _ _ _ h in
    (
      second_false _ _ a,
      ==→≡ _ _ (not-false _ b),
      first_false _ _ c,
      ==→≡ _ _ (not-false _ (second_of _ _ c)),
      not-false _ d,
      ==→≡ _ _ (not-false _ e),
      whole,
    )

-- A datagram of bytes goes on to the translator only if it has 73 bytes, begins with the tag, comes
-- from the address and the port of the peer, is on slot 1, and ends in the HMAC-SHA1 of its first 53
-- bytes under the passphrase of the peer; and what goes on is these 53 bytes.
pub on_obp_readable_authentic :
    (cfg : Config) (idx : ℕ) (dg : Datagram) (body : List ℕ)
    → IsBytes dg.bytes
    → on_obp_readable cfg idx dg ≡ some body
    → let o = peer_at cfg idx in
      (length dg.bytes ≡ 73)
      × (take 4 dg.bytes ≡ dmrd_tag)
      × (dg.ip ≡ o.peer_ip)
      × (dg.port ≡ o.peer_port)
      × (bit_and (get_or dg.bytes flags_off 0) flag_slot2 ≡ 0)
      × (body ≡ take 53 dg.bytes)
      × (take 20 (drop 53 dg.bytes) ≡ hmac_sha1 o.passphrase body)
on_obp_readable_authentic cfg idx dg body bytes h =
    let (tag, long, from_ip, from_port, signed, slot, whole) = passed cfg idx dg body h in
    let o = peer_at cfg idx in
    let lengths : length (hmac_sha1 o.passphrase (take 53 dg.bytes))
        ≡ length (take 20 (drop 53 dg.bytes)) =
      length-hmac_sha1 o.passphrase (take 53 dg.bytes)
      ∙ sym (length-take 20 (drop 53 dg.bytes) (omega (arith, length-drop 53 dg.bytes))) in
    let equal : ct_eq (hmac_sha1 o.passphrase (take 53 dg.bytes)) (take 20 (drop 53 dg.bytes))
        ≡ same_bytes (hmac_sha1 o.passphrase (take 53 dg.bytes)) (take 20 (drop 53 dg.bytes)) =
      ct_eq-same_bytes _ _ (hmac_sha1-IsBytes o.passphrase (take 53 dg.bytes))
        (All-take 20 (drop 53 dg.bytes) (All-drop 53 dg.bytes bytes)) lengths in
    (
      long,
      same_bytes→≡ _ _ tag,
      same_bytes→≡ _ _ from_ip,
      from_port,
      slot,
      whole,
      sym (ap (hmac_sha1 o.passphrase) whole ∙ same_bytes→≡ _ _ (sym equal ∙ signed)),
    )
