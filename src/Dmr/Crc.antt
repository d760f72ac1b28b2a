-- ===== src/Dmr/Crc.antt =====
-- dmr/crc.c: the 5-bit checksum of a link control word.
use cc2obp.Common.{ℕ, ◌+◌, ◌%◌, List, [], ◌∷◌, take}

-- Nine bytes add up to less than 2 ^ 32, so the unsigned sum does not wrap.
unfoldable pub sum_bytes : List ℕ → ℕ
sum_bytes [] = 0
sum_bytes (v ∷ vs) = v + sum_bytes vs

unfoldable pub csum5 : List ℕ → ℕ
csum5 lc = sum_bytes (take 9 lc) % 31 % 256 % 32
