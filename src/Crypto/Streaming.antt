-- ===== src/Crypto/Streaming.antt =====
-- crypto.c, sha1_update: the loop over chunks does what one byte after another does.
use mathlib.Core.Path.{subst}
use cc2obp.Common.{
  ℕ, zero, suc, ◌+◌, ◌-◌, ◌*◌, ◌%◌, ◌≤◌, ◌<◌, ◌≡◌, refl, sym, ap, ap₂, ◌∙◌, inl, inr, Bool, false,
  List, [], ◌∷◌, ◌++◌, arith, ◌==◌, if◌then◌else◌, Bool-cases, length, take, drop, length-append,
  append_assoc, length-drop, length-take,
}
use cc2obp.Crypto.{Sha1Ctx, sha1_block, min, flush, update_loop, sha1_update}

-- The reference: one byte at a time.
unfoldable pub absorb : List ℕ → Sha1Ctx → Sha1Ctx
unfolding flush
absorb [] c = c
absorb (b ∷ p) c = absorb p (flush (record c { buf = c.buf ++ b ∷ [] }))

flush-partial : (c : Sha1Ctx) → length c.buf < 64 → flush c ≡ c
unfolding flush
flush-partial c h =
    let open_buf : (length c.buf == 64) ≡ false = ground arith in
    subst (λ (b : Bool). (if b then record c { h = sha1_block c.h c.buf; buf = [] } else c) ≡ c)
      (sym open_buf) refl

pub flush-room : (c : Sha1Ctx) → length c.buf ≤ 64 → length (flush c).buf < 64
unfolding flush
flush-room c h = elim (Bool-cases (length c.buf == 64)) [
  | inl full ↦ rw full (omega arith)
  | inr part ↦ rw part (ground arith)
]

pub absorb-chunk :
    (k : ℕ) (p : List ℕ) (c : Sha1Ctx)
    → suc k ≤ length p
    → length c.buf + suc k ≤ 64
    → absorb p c ≡ absorb (drop (suc k) p) (flush (record c { buf = c.buf ++ take (suc k) p }))
unfolding absorb
absorb-chunk k [] c le fits = absurd (omega arith)
absorb-chunk zero (b ∷ p) c le fits = refl
absorb-chunk (suc k) (b ∷ p) c le fits =
    let c1 : Sha1Ctx = record c { buf = c.buf ++ b ∷ [] } in
    let size : length c1.buf ≡ length c.buf + 1 = length-append c.buf (b ∷ []) in
    ap (absorb p) (flush-partial c1 (omega arith))
    ∙ absorb-chunk k p c1 (omega arith) (omega arith)
    ∙ ap (λ t. absorb (drop (suc k) p) (flush (record c { buf = t })))
        (append_assoc c.buf (b ∷ []) (take (suc k) p))

update_loop-absorb :
    (fuel : ℕ) (p : List ℕ) (c : Sha1Ctx)
    → length p ≤ fuel
    → length c.buf < 64
    → update_loop fuel p c ≡ absorb p c
unfolding update_loop absorb
update_loop-absorb zero [] c le room = refl
update_loop-absorb zero (b ∷ p) c le room = absurd (omega arith)
update_loop-absorb (suc fuel) [] c le room = refl
update_loop-absorb (suc fuel) (b ∷ p) c le room = rw nonempty (
    update_loop-absorb fuel (drop k (b ∷ p)) (flush filled) shorter (flush-room filled small)
    ∙ sym step)
  where
    k : ℕ
    k = min (64 - length c.buf) (suc (length p))

    bounds : (0 < k) × (k ≤ suc (length p)) × (length c.buf + k ≤ 64)
    bounds = ground arith

    nonempty : (suc (length p) == 0) ≡ false
    nonempty = ground arith

    filled : Sha1Ctx
    filled = record c { buf = c.buf ++ take k (b ∷ p) }

    shorter : length (drop k (b ∷ p)) ≤ fuel
    shorter = let (some_byte, _, _) = bounds in omega (arith, length-drop k (b ∷ p))

    small : length filled.buf ≤ 64
    small =
        let (_, enough, fits) = bounds in
        omega (arith, length-append c.buf (take k (b ∷ p)), length-take k (b ∷ p) enough)

    step : absorb (b ∷ p) c ≡ absorb (drop k (b ∷ p)) (flush filled)
    step =
        let (some_byte, enough, fits) = bounds in
        let q : suc (k - 1) ≡ k = omega arith in
        subst
          (λ n.
            absorb (b ∷ p) c
            ≡ absorb (drop n (b ∷ p)) (flush (record c { buf = c.buf ++ take n (b ∷ p) })))
          q (absorb-chunk (k - 1) (b ∷ p) c (omega arith) (omega arith))

absorb-append : (p q : List ℕ) (c : Sha1Ctx) → absorb (p ++ q) c ≡ absorb q (absorb p c)
unfolding absorb
absorb-append [] q c = refl
absorb-append (b ∷ p) q c = absorb-append p q (flush (record c { buf = c.buf ++ b ∷ [] }))

absorb-room : (p : List ℕ) (c : Sha1Ctx) → length c.buf < 64 → length (absorb p c).buf < 64
unfolding absorb
absorb-room [] c room = room
absorb-room (b ∷ p) c room =
    absorb-room p (flush (record c { buf = c.buf ++ b ∷ [] })) (
      flush-room (record c { buf = c.buf ++ b ∷ [] }) (omega (arith, length-append c.buf (b ∷ []))))

-- The count of bits is not read.
flush-len : (c : Sha1Ctx) (l : ℕ) → flush (record c { len = l }) ≡ record (flush c) { len = l }
unfolding flush
flush-len c l = elim (Bool-cases (length c.buf == 64)) [
  | inl full ↦ rw full refl
  | inr part ↦ rw part refl
]

absorb-len :
    (p : List ℕ) (c : Sha1Ctx) (l : ℕ)
    → absorb p (record c { len = l }) ≡ record (absorb p c) { len = l }
unfolding absorb
absorb-len [] c l = refl
absorb-len (b ∷ p) c l =
    ap (absorb p) (flush-len (record c { buf = c.buf ++ b ∷ [] }) l)
    ∙ absorb-len p (flush (record c { buf = c.buf ++ b ∷ [] })) l

absorb-keeps_len : (p : List ℕ) (c : Sha1Ctx) → (absorb p c).len ≡ c.len
absorb-keeps_len p c = ap (λ t. t.len) (absorb-len p c c.len)

abbrev counted : List ℕ → Sha1Ctx → Sha1Ctx
counted p c = record c { len = (c.len + 8 * length p) % 18446744073709551616 }

-- An update does what one byte after another does, and counts the bits. The buffer has room.
pub sha1_update-absorb :
    (p : List ℕ) (c : Sha1Ctx)
    → length c.buf < 64
    → sha1_update p c ≡ record (absorb p c) { len = (c.len + 8 * length p) % 18446744073709551616 }
unfolding sha1_update
sha1_update-absorb p c room =
    update_loop-absorb (length p) p (counted p c) (omega arith) room ∙ absorb-len p c _

pub sha1_update-room :
    (p : List ℕ) (c : Sha1Ctx) → length c.buf < 64 → length (sha1_update p c).buf < 64
sha1_update-room p c room = rw (sha1_update-absorb p c room) (absorb-room p c room)

-- How a message is cut into updates does not matter: two updates leave the context that one update
-- with both parts leaves. The buffer has room, as it has after each update.
pub sha1_update-append :
    (p q : List ℕ) (c : Sha1Ctx)
    → length c.buf < 64
    → sha1_update q (sha1_update p c) ≡ sha1_update (p ++ q) c
sha1_update-append p q c room =
    ap (sha1_update q) (sha1_update-absorb p c room)
    ∙ sha1_update-absorb q first (absorb-room p c room)
    ∙ ap (λ (t : Sha1Ctx). record t { len = total }) (absorb-len q (absorb p c) first.len)
    ∙ ap₂ (λ (t : Sha1Ctx) (l : ℕ). record t { len = l }) (sym (absorb-append p q c)) lengths
    ∙ sym (sha1_update-absorb (p ++ q) c room)
  where
    first : Sha1Ctx
    first = record (absorb p c) { len = (c.len + 8 * length p) % 18446744073709551616 }

    total : ℕ
    total = (first.len + 8 * length q) % 18446744073709551616

    lengths : total ≡ (c.len + 8 * length (p ++ q)) % 18446744073709551616
    lengths = omega (arith, length-append p q)
