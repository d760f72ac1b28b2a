-- ===== src/Cccc/Ambe.antt =====
-- cccc/cccc_ambe.c: the 21-byte CC-CC voice payload and its three 49-bit AMBE frames.
pub mod RoundTrip
use cc2obp.Common.{
  ℕ, zero, suc, Bool, false, List, [], ◌∷◌, ◌++◌, if◌then◌else◌, get_or, take, drop, replicate,
  gather, scatter,
}
use cc2obp.Dmr.Bits.{
  bytes_to_bits, bits_to_bytes, bytes_from, IsBytes, bit_at, byte_bits, byte_val,
  bits_to_bytes-bytes_to_bits, bytes_to_bits-bits_to_bytes, bit_val-bit,
}

-- `WIRE[j] = DSP[PERM[j]]`.
abbrev perm : List ℕ
perm =
    0 ∷ 18 ∷ 36 ∷ 1 ∷ 19 ∷ 37 ∷ 2 ∷ 20 ∷ 38 ∷ 3 ∷ 21 ∷ 39 ∷ 4 ∷ 22 ∷ 40 ∷ 5 ∷ 23 ∷ 41 ∷ 6 ∷ 24 ∷ 42
    ∷ 7 ∷ 25 ∷ 43 ∷ 8 ∷ 26 ∷ 44 ∷ 9 ∷ 27 ∷ 45 ∷ 10 ∷ 28 ∷ 46 ∷ 11 ∷ 29 ∷ 47 ∷ 12 ∷ 30 ∷ 48 ∷ 13 ∷ 31
    ∷ 14 ∷ 32 ∷ 15 ∷ 33 ∷ 16 ∷ 34 ∷ 17 ∷ 35 ∷ []

-- One 7-byte unit: bits 0 to 47 in six bytes, bit 48 in the top bit of the seventh.
unfoldable pub pack_unit : List Bool → List ℕ
pack_unit d =
    let wire = gather perm d in
    bits_to_bytes (take 48 wire) ++ (if get_or wire 48 false then 0x80 else 0) ∷ []

-- Every entry of the frame is written, so what it holds before does not matter.
unfoldable pub unpack_unit : List ℕ → List Bool
unpack_unit unit =
    scatter perm (bytes_to_bits (take 6 unit) ++ bit_at (get_or unit 6 0) 7 ∷ [])
      (replicate 49 false)

unfoldable pub pack21 : List (List Bool) → List ℕ
pack21 [] = []
pack21 (d ∷ ds) = pack_unit d ++ pack21 ds

-- Frames left, and the payload from the next unit on.
unfoldable pub unpack_units : ℕ → List ℕ → List (List Bool)
unpack_units zero payload = []
unpack_units (suc n) payload = unpack_unit payload ∷ unpack_units n (drop 7 payload)

unfoldable pub unpack21 : List ℕ → List (List Bool)
unpack21 payload = unpack_units 3 payload
