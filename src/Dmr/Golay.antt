-- ===== src/Dmr/Golay.antt =====
-- dmr/golay.c: the Golay(23,12) codeword of the AMBE conversion, and its parity bit.
use Prim.Native.Nat.{bit_xor}
use cc2obp.Common.{ℕ, zero, suc, ◌+◌, ◌*◌, ◌/◌, ◌%◌, ◌==◌, if◌then◌else◌}

abbrev poly : ℕ
poly = 0xAE3

-- The loop of 12 rounds: divide by the generator, lowest bit first.
unfoldable pub golay_loop : ℕ → ℕ → ℕ
golay_loop zero cw = cw
golay_loop (suc n) cw = golay_loop n ((if cw % 2 == 1 then bit_xor cw poly else cw) / 2)

-- The remainder stands above the 12 data bits, which it does not overlap.
unfoldable pub golay2312 : ℕ → ℕ
unfolding golay_loop
golay2312 cw = golay_loop 12 (cw % 4096) * 4096 + cw % 4096

unfoldable pub parity : ℕ → ℕ
parity cw =
    let p = bit_xor (bit_xor (cw % 256) (cw / 256 % 256)) (cw / 65536 % 256) in
    let p = bit_xor p (p / 16) in let p = bit_xor p (p / 4) in bit_xor p (p / 2) % 2
