-- ===== src/Crypto.antt =====
-- crypto.c: SHA-1 and HMAC-SHA1. A uint32_t is a number below 2 ^ 32, and sums are cut to that.
pub mod Streaming
pub mod Padding
pub mod Digest
use Prim.Native.Nat.{bit_and, bit_or, bit_xor}
use cc2obp.Common.{
  ℕ, zero, suc, ◌+◌, ◌-◌, ◌*◌, ◌/◌, ◌%◌, ◌^◌, List, [], ◌∷◌, ◌++◌, map, ltb, ◌==◌, if◌then◌else◌,
  length, get_or, take, drop, replicate, for_range,
}
use cc2obp.Wire.{rd32, wr32}

abbrev pub w32 : ℕ → ℕ
w32 x = x % 4294967296

-- `~x` on 32 bits.
abbrev pub flip32 : ℕ → ℕ
flip32 x = 4294967295 - x

-- The two halves of the result do not overlap, so `|` is a sum.
unfoldable pub rol32 : ℕ → ℕ → ℕ
rol32 x n = w32 (x * 2 ^ n) + x / 2 ^ (32 - n)

-- `sha1_ctx`: the bytes in use of `buf` are a list, and `n` is its length.
pub record Sha1Ctx : Type 0 where
  pub h : List ℕ
  pub len : ℕ
  pub buf : List ℕ

-- The five working words.
pub record Words : Type 0 where
  pub a : ℕ
  pub b : ℕ
  pub d : ℕ
  pub e : ℕ
  pub f : ℕ

unfoldable pub first_words : ℕ → List ℕ → List ℕ
first_words zero p = []
first_words (suc n) p = rd32 p ∷ first_words n (drop 4 p)

-- Words left; `w` holds the words so far.
unfoldable pub more_words : ℕ → List ℕ → List ℕ
unfolding rol32
more_words zero w = w
more_words (suc n) w =
    let i = length w in
    let at = λ (k : ℕ). get_or w (i - k) 0 in
    more_words n (w ++ rol32 (bit_xor (bit_xor (at 3) (at 8)) (bit_xor (at 14) (at 16))) 1 ∷ [])

unfoldable pub round_f : ℕ → Words → ℕ
round_f i v =
    if ltb i 20
    then bit_or (bit_and v.b v.d) (bit_and (flip32 v.b) v.e)
    else if ltb i 40
    then bit_xor (bit_xor v.b v.d) v.e
    else if ltb i 60
    then bit_or (bit_or (bit_and v.b v.d) (bit_and v.b v.e)) (bit_and v.d v.e)
    else bit_xor (bit_xor v.b v.d) v.e

unfoldable pub round_k : ℕ → ℕ
round_k i =
    if ltb i 20
    then 0x5A827999
    else if ltb i 40
    then 0x6ED9EBA1
    else if ltb i 60
    then 0x8F1BBCDC
    else 0xCA62C1D6

unfoldable pub sha1_round : List ℕ → ℕ → Words → Words
unfolding round_f round_k rol32
sha1_round w i v = record {
  a = w32 (rol32 v.a 5 + round_f i v + v.f + round_k i + get_or w i 0);
  b = v.a;
  d = rol32 v.b 30;
  e = v.d;
  f = v.e;
}

unfoldable pub sha1_block : List ℕ → List ℕ → List ℕ
unfolding first_words more_words sha1_round for_range
sha1_block h p =
    let w = more_words 64 (first_words 16 p) in
    let at = λ (k : ℕ). get_or h k 0 in
    let start : Words = record { a = at 0; b = at 1; d = at 2; e = at 3; f = at 4 } in
    let v = for_range 80 0 (sha1_round w) start in
    w32 (at 0 + v.a)
    ∷ w32 (at 1 + v.b)
    ∷ w32 (at 2 + v.d)
    ∷ w32 (at 3 + v.e)
    ∷ w32 (at 4 + v.f)
    ∷ []

abbrev pub sha1_init : Sha1Ctx
sha1_init = record {
  h = 0x67452301 ∷ 0xEFCDAB89 ∷ 0x98BADCFE ∷ 0x10325476 ∷ 0xC3D2E1F0 ∷ [];
  len = 0;
  buf = [];
}

abbrev pub min : ℕ → ℕ → ℕ
min a b = if ltb b a then b else a

-- A full buffer is hashed and emptied.
unfoldable pub flush : Sha1Ctx → Sha1Ctx
unfolding sha1_block
flush c = if length c.buf == 64 then record c { h = sha1_block c.h c.buf; buf = [] } else c

-- The loop of `sha1_update`: each round copies what fits. The fuel is the number of bytes, since a
-- round copies one at least.
unfoldable pub update_loop : ℕ → List ℕ → Sha1Ctx → Sha1Ctx
unfolding flush
update_loop zero p c = c
update_loop (suc fuel) p c =
    let k = min (64 - length c.buf) (length p) in
    let next = flush (record c { buf = c.buf ++ take k p }) in
    let rest = update_loop fuel (drop k p) next in if length p == 0 then c else rest

unfoldable pub sha1_update : List ℕ → Sha1Ctx → Sha1Ctx
unfolding update_loop
sha1_update p c =
    update_loop (length p) p (record c { len = (c.len + 8 * length p) % 18446744073709551616 })

-- `while (c->n != 56)`: 64 rounds are enough.
unfoldable pub pad_zeros : ℕ → Sha1Ctx → Sha1Ctx
unfolding sha1_update
pad_zeros zero c = c
pad_zeros (suc fuel) c =
    let rest = pad_zeros fuel (sha1_update (0 ∷ []) c) in if length c.buf == 56 then c else rest

abbrev pub len_bytes : ℕ → List ℕ
len_bytes bits = wr32 (bits / 4294967296) ++ wr32 bits

unfoldable pub words_out : List ℕ → List ℕ
words_out [] = []
words_out (x ∷ xs) = wr32 x ++ words_out xs

unfoldable pub sha1_final : Sha1Ctx → List ℕ
unfolding pad_zeros words_out
sha1_final c =
    let padded = pad_zeros 64 (sha1_update (0x80 ∷ []) c) in
    words_out (take 5 (sha1_update (len_bytes c.len) padded).h)

unfoldable pub sha1 : List ℕ → List ℕ
unfolding sha1_final
sha1 message = sha1_final (sha1_update message sha1_init)

-- The key in 64 bytes: a longer one is hashed.
unfoldable pub hmac_key : List ℕ → List ℕ
unfolding sha1
hmac_key key =
    let k = if ltb 64 (length key) then sha1 key else key in k ++ replicate (64 - length k) 0

unfoldable pub hmac_sha1 : List ℕ → List ℕ → List ℕ
unfolding hmac_key
hmac_sha1 key message =
    let k = hmac_key key in
    let ipad = map (λ b. bit_xor b 0x36) k in
    let opad = map (λ b. bit_xor b 0x5C) k in
    let inner = sha1_final (sha1_update message (sha1_update ipad sha1_init)) in
    sha1_final (sha1_update inner (sha1_update opad sha1_init))
