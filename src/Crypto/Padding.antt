-- ===== src/Crypto/Padding.antt =====
-- crypto.c, sha1_final: the padding loop ends where the length goes.
use cc2obp.Common.{
  ℕ, zero, suc, ◌+◌, ◌-◌, ◌≤◌, ◌<◌, ◌≡◌, refl, ap, ◌∙◌, ◌⊎◌, inl, inr, false, [], ◌∷◌, ◌++◌, arith,
  leb, ◌==◌, if◌then◌else◌, ==→≡, Bool-cases, length, take, drop, length-append,
}
use cc2obp.Crypto.{Sha1Ctx, flush, sha1_update, pad_zeros, len_bytes}
use cc2obp.Wire.{wr32}
use cc2obp.Crypto.Streaming.{absorb, absorb-chunk, sha1_update-absorb, sha1_update-room}

-- Zeros that are missing before the length, from a buffer of `n` bytes.
abbrev missing : ℕ → ℕ
missing n = if leb n 56 then 56 - n else 120 - n

-- One byte: the buffer grows by it, or is full and empties.
one_byte :
    (b : ℕ) (c : Sha1Ctx)
    → length c.buf < 64
    → (length (sha1_update (b ∷ []) c).buf ≡ length c.buf + 1)
      ⊎ ((length (sha1_update (b ∷ []) c).buf ≡ 0) × (length c.buf ≡ 63))
unfolding absorb flush
one_byte b c room =
    rw (sha1_update-absorb (b ∷ []) c room)
      (after (record c { buf = c.buf ++ b ∷ [] }) (length-append c.buf (b ∷ [])))
  where
    after :
        (t : Sha1Ctx)
        → length t.buf ≡ length c.buf + 1
        → (length (flush t).buf ≡ length c.buf + 1)
          ⊎ ((length (flush t).buf ≡ 0) × (length c.buf ≡ 63))
    after t q = elim (Bool-cases (length t.buf == 64)) [
      | inl full ↦ inr (rw full refl, let size = ==→≡ (length t.buf) 64 full in omega arith)
      | inr part ↦ inl (rw part q)
    ]

missing_step :
    (n m fuel : ℕ)
    → (m ≡ n + 1) ⊎ ((m ≡ 0) × (n ≡ 63))
    → (n == 56) ≡ false
    → n < 64
    → missing n ≤ suc fuel
    → missing m ≤ fuel
missing_step n m fuel grown more room enough = ground arith

missing_none : (n : ℕ) → n < 64 → missing n ≤ 0 → n ≡ 56
missing_none n room enough = ground arith

pad_zeros-done :
    (fuel : ℕ) (c : Sha1Ctx)
    → length c.buf < 64
    → missing (length c.buf) ≤ fuel
    → length (pad_zeros fuel c).buf ≡ 56
unfolding pad_zeros
pad_zeros-done zero c room enough = missing_none (length c.buf) room enough
pad_zeros-done (suc fuel) c room enough = elim (Bool-cases (length c.buf == 56)) [
  | inl done ↦ rw done (==→≡ _ _ done)
  | inr more ↦ rw more (
      pad_zeros-done fuel (sha1_update (0 ∷ []) c) (sha1_update-room (0 ∷ []) c room)
        (missing_step (length c.buf) _ fuel (one_byte 0 c room) more room enough))
]

eight_bytes :
    (bits : ℕ)
    → (length (len_bytes bits) ≡ 8)
      × (drop 8 (len_bytes bits) ≡ [])
      × (take 8 (len_bytes bits) ≡ len_bytes bits)
unfolding wr32
eight_bytes bits = (refl, refl, refl)

filled :
    (t : Sha1Ctx) (bits : ℕ) → length t.buf ≡ 56 → length (sha1_update (len_bytes bits) t).buf ≡ 0
unfolding absorb flush
filled t bits q =
    let (eight, none_left, all) = eight_bytes bits in
    rw (sha1_update-absorb (len_bytes bits) t (omega arith)) (
      ap (λ u. length u.buf) (absorb-chunk 7 (len_bytes bits) t (omega arith) (omega arith))
      ∙ rw (none_left, all)
          (emptied (record t { buf = t.buf ++ len_bytes bits })
            (omega (arith, length-append t.buf (len_bytes bits)))))
  where
    emptied : (u : Sha1Ctx) → length u.buf ≡ 64 → length (flush u).buf ≡ 0
    emptied u q = rw q refl

-- The padding loop of `sha1_final` ends: 64 rounds bring every buffer with room to 56 bytes, and
-- with the eight bytes of the length the last block is full, so the buffer is empty at the end.
pub pad_zeros-fills :
    (c : Sha1Ctx)
    → length c.buf < 64
    → (length (pad_zeros 64 c).buf ≡ 56)
      × (length (sha1_update (len_bytes c.len) (pad_zeros 64 c)).buf ≡ 0)
pad_zeros-fills c room = (done, filled (pad_zeros 64 c) c.len done)
  where
    done : length (pad_zeros 64 c).buf ≡ 56
    done = pad_zeros-done 64 c room (ground arith)
