-- ===== src/Crypto/Digest.antt =====
-- crypto.c: a digest has twenty bytes.
use Prim.Native.Nat.{bit_xor}
use cc2obp.Common.{
  ℕ, zero, suc, ◌*◌, ◌≡◌, refl, ap, ◌∙◌, inl, inr, List, [], ◌∷◌, map, arith, ◌==◌, Bool-cases,
  length, take, take-all,
}
use cc2obp.Wire.{wr32}
use cc2obp.Dmr.Bits.{IsBytes}
use cc2obp.Crypto.{
  hmac_key, Sha1Ctx, sha1_init, sha1_block, flush, update_loop, sha1_update, pad_zeros, sha1_final,
  words_out, len_bytes, hmac_sha1,
}

flush-words : (c : Sha1Ctx) → length c.h ≡ 5 → length (flush c).h ≡ 5
unfolding flush sha1_block
flush-words c five = elim (Bool-cases (length c.buf == 64)) [
  | inl full ↦ rw full refl
  | inr part ↦ rw part five
]

update_loop-words :
    (fuel : ℕ) (p : List ℕ) (c : Sha1Ctx) → length c.h ≡ 5 → length (update_loop fuel p c).h ≡ 5
unfolding update_loop
update_loop-words zero p c five = five
update_loop-words (suc fuel) p c five = elim (Bool-cases (length p == 0)) [
  | inl done ↦ rw done five
  | inr more ↦ rw more (update_loop-words fuel _ _ (flush-words _ five))
]

sha1_update-words : (p : List ℕ) (c : Sha1Ctx) → length c.h ≡ 5 → length (sha1_update p c).h ≡ 5
unfolding sha1_update
sha1_update-words p c five = update_loop-words (length p) p _ five

pad_zeros-words : (fuel : ℕ) (c : Sha1Ctx) → length c.h ≡ 5 → length (pad_zeros fuel c).h ≡ 5
unfolding pad_zeros
pad_zeros-words zero c five = five
pad_zeros-words (suc fuel) c five = elim (Bool-cases (length c.buf == 56)) [
  | inl done ↦ rw done five
  | inr more ↦ rw more (pad_zeros-words fuel _ (sha1_update-words (0 ∷ []) c five))
]

words_out-length : (xs : List ℕ) → length (words_out xs) ≡ 4 * length xs
unfolding words_out wr32
words_out-length [] = refl
words_out-length (x ∷ xs) = omega (arith, words_out-length xs)

words_out-IsBytes : (xs : List ℕ) → IsBytes (words_out xs)
unfolding words_out wr32
words_out-IsBytes [] = tt
words_out-IsBytes (x ∷ xs) =
    (omega arith, (omega arith, (omega arith, (omega arith, words_out-IsBytes xs))))

length-sha1_final : (c : Sha1Ctx) → length c.h ≡ 5 → length (sha1_final c) ≡ 20
unfolding sha1_final
length-sha1_final c five =
    let padded = pad_zeros 64 (sha1_update (0x80 ∷ []) c) in
    let words =
      sha1_update-words (len_bytes c.len) padded
        (pad_zeros-words 64 (sha1_update (0x80 ∷ []) c) (sha1_update-words (0x80 ∷ []) c five)) in
    words_out-length (take 5 (sha1_update (len_bytes c.len) padded).h)
    ∙ ap (λ n. 4 * n)
        (ap length (take-all 5 (sha1_update (len_bytes c.len) padded).h words) ∙ words)

pub length-hmac_sha1 : (key message : List ℕ) → length (hmac_sha1 key message) ≡ 20
unfolding hmac_sha1
length-hmac_sha1 key message =
    length-sha1_final (sha1_update inner outer)
      (sha1_update-words inner outer (sha1_update-words opad sha1_init refl))
  where
    ipad : List ℕ
    ipad = map (λ b. bit_xor b 0x36) (hmac_key key)

    opad : List ℕ
    opad = map (λ b. bit_xor b 0x5C) (hmac_key key)

    inner : List ℕ
    inner = sha1_final (sha1_update message (sha1_update ipad sha1_init))

    outer : Sha1Ctx
    outer = sha1_update opad sha1_init

pub hmac_sha1-IsBytes : (key message : List ℕ) → IsBytes (hmac_sha1 key message)
unfolding hmac_sha1 sha1_final
hmac_sha1-IsBytes key message = words_out-IsBytes _
