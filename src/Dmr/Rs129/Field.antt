-- ===== src/Dmr/Rs129/Field.antt =====
-- The tables are those of the field GF(256) with the polynomial 0x11D.
use Prim.Native.Nat.{bit_xor}
use cc2obp.Common.{
  ℕ, zero, suc, ◌+◌, ◌*◌, ◌<◌, ◌≡◌, refl, sym, ap, ◌∙◌, true, arith, ltb, if◌then◌else◌, passes,
  passes_each, ◌⊎◌, inl, inr, eq_below, get_or,
}
use cc2obp.Dmr.Rs129.Tables.{exp_table, log_table}
use cc2obp.Dmr.Rs129.{log_mult}

-- Multiplication by x: shift, and reduce by 0x11D.
unfoldable pub times_x : ℕ → ℕ
times_x v = if ltb v 128 then v * 2 else bit_xor (v * 2) 0x11D

-- The `i`th power of x.
unfoldable pub power : ℕ → ℕ
unfolding times_x
power zero = 1
power (suc i) = times_x (power i)

exp_at : ℕ → ℕ
exp_at i = get_or exp_table i 0

log_at : ℕ → ℕ
log_at v = get_or log_table v 0

exp_at-suc : (i : ℕ) → i < 510 → exp_at (i + 1) ≡ times_x (exp_at i)
exp_at-suc =
    eq_below 510 (λ i. exp_at (i + 1)) (λ i. times_x (exp_at i))
      (unfold passes exp_at exp_table times_x in refl)

log_at-exp_at : (i : ℕ) → i < 255 → log_at (exp_at i) ≡ i
log_at-exp_at =
    eq_below 255 (λ i. log_at (exp_at i)) (λ i. i)
      (unfold passes exp_at exp_table log_at log_table in refl)

exp_at-log_at : (v : ℕ) → v < 255 → exp_at (log_at (v + 1)) ≡ v + 1
exp_at-log_at =
    eq_below 255 (λ v. exp_at (log_at (v + 1))) (λ v. v + 1)
      (unfold passes exp_at exp_table log_at log_table in refl)

exp_at-period : (i : ℕ) → i < 255 → exp_at (i + 255) ≡ exp_at i
exp_at-period = eq_below 255 (λ i. exp_at (i + 255)) exp_at (unfold passes exp_at exp_table in refl)

log_at-lt : (v : ℕ) → v < 256 → ltb (log_at v) 255 ≡ true
log_at-lt v below =
    passes_each (λ v. ltb (log_at v) 255) 256 v below (unfold passes log_at log_table in refl)

exp_at-power : (i : ℕ) → i < 510 → exp_at i ≡ power i
unfolding power
exp_at-power zero h = unfold exp_at exp_table in refl
exp_at-power (suc i) h =
    let e : suc i ≡ i + 1 = omega arith in
    rw e (exp_at-suc i (omega arith)) ∙ ap times_x (exp_at-power i (omega arith))

byte_is_power : (v : ℕ) → 0 < v → v < 256 → (log_at v < 255) × (power (log_at v) ≡ v)
byte_is_power zero h k = absurd (omega arith)
byte_is_power (suc v) h k =
    let below : log_at (suc v) < 255 = ground (arith, log_at-lt (suc v)) in
    let e : suc v ≡ v + 1 = omega arith in
    (
      below,
      sym (exp_at-power (log_at (suc v)) (omega arith)) ∙ rw e (exp_at-log_at v (omega arith)),
    )

-- The product of two field elements: 0 if one is 0, and else the power of x whose exponent is the
-- sum of those of the two.
abbrev pub IsProduct : ℕ → ℕ → ℕ → Type 0
IsProduct a b c =
    (((a ≡ 0) ⊎ (b ≡ 0)) × (c ≡ 0))
    ⊎ ((i : ℕ) × (j : ℕ) × (a ≡ power i) × (b ≡ power j) × (c ≡ power (i + j)))

product_of_powers :
    (a b : ℕ)
    → 0 < a
    → a < 256
    → 0 < b
    → b < 256
    → (i : ℕ) × (j : ℕ) × (a ≡ power i) × (b ≡ power j) × (log_mult a b ≡ power (i + j))
unfolding log_mult exp_at log_at
product_of_powers a b ha la hb lb =
    let (i_lt, a_eq) = byte_is_power a ha la in
    let (j_lt, b_eq) = byte_is_power b hb lb in
    let product : get_or exp_table (log_at a + log_at b) 0 ≡ power (log_at a + log_at b) =
      exp_at-power (log_at a + log_at b) (omega arith) in
    (log_at a, log_at b, sym a_eq, sym b_eq, ground (arith, product))

-- The tables multiply any two bytes in the field: the product with 0 is 0, and two nonzero bytes are
-- powers of x, whose product is the power whose exponent is the sum.
pub log_mult-power : (a b : ℕ) → a < 256 → b < 256 → IsProduct a b (log_mult a b)
unfolding log_mult
log_mult-power zero b la lb = inl (inl refl, refl)
log_mult-power (suc a) zero la lb = inl (inr refl, ground arith)
log_mult-power (suc a) (suc b) la lb =
    inr (product_of_powers (suc a) (suc b) (omega arith) la (omega arith) lb)
