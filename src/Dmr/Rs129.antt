-- ===== src/Dmr/Rs129.antt =====
-- dmr/rs129.c: the Reed-Solomon (12,9) parity of a link control word.
pub mod Tables
pub mod Field
use Prim.Native.Nat.{bit_xor}
use cc2obp.Common.{ℕ, ◌+◌, Bool, ◌||◌, List, [], ◌∷◌, map, ◌==◌, if◌then◌else◌, get_or, take}
use Tables.{exp_table, log_table}

unfoldable pub log_mult : ℕ → ℕ → ℕ
log_mult a b =
    if a == 0 || b == 0 then 0 else get_or exp_table (get_or log_table a 0 + get_or log_table b 0) 0

-- `uint8_t parity[3]`.
pub record Parity : Type 0 where
  pub p0 : ℕ
  pub p1 : ℕ
  pub p2 : ℕ

-- One message byte into the shift register; the generator is 64, 56, 14.
unfoldable pub rs_step : ℕ → Parity → Parity
unfolding log_mult
rs_step v p =
    let dbyte = bit_xor v p.p2 in
    record {
      p0 = log_mult 64 dbyte;
      p1 = bit_xor p.p0 (log_mult 56 dbyte);
      p2 = bit_xor p.p1 (log_mult 14 dbyte);
    }

unfoldable pub rs_steps : List ℕ → Parity → Parity
rs_steps [] p = p
rs_steps (v ∷ msg) p = rs_steps msg (rs_step v p)

unfoldable pub rs129_encode : List ℕ → List ℕ
rs129_encode msg =
    let p = rs_steps (take 9 msg) (record { p0 = 0; p1 = 0; p2 = 0 }) in p.p2 ∷ p.p1 ∷ p.p0 ∷ []

unfoldable pub rs129_lc_encode : List ℕ → Bool → List ℕ
rs129_lc_encode lc is_term =
    let mask : ℕ = if is_term then 0x99 else 0x96 in map (λ v. bit_xor v mask) (rs129_encode lc)
