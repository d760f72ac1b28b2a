-- ===== src/Cccc/Ambe/RoundTrip.antt =====
-- Packing and unpacking are inverse on frames of 49 bits and on payloads with clear padding.
use cc2obp.Common.{
  ℕ, ◌%◌, ◌<◌, ◌≡◌, refl, sym, ap, ap₂, ◌∙◌, Bool, true, false, List, [], ◌∷◌, ◌++◌, arith,
  if◌then◌else◌, length, get_or, take, drop, replicate, tabulate, length-append, eq-tabulate,
  drop-append, gather, scatter,
}
use mathlib.Core.Path.{subst}
use cc2obp.Dmr.Bits.{
  bytes_to_bits, bits_to_bytes, IsBytes, bit_at, bits_to_bytes-bytes_to_bits,
  bytes_to_bits-bits_to_bytes, length-bits_to_bytes,
}
use cc2obp.Cccc.Ambe.{perm, pack_unit, unpack_unit, pack21, unpack_units, unpack21}

scatter-gather :
    (d : List Bool) → length d ≡ 49 → scatter perm (gather perm d) (replicate 49 false) ≡ d
scatter-gather d h =
    subst (λ t. scatter perm (gather perm t) (replicate 49 false) ≡ t)
      (sym (eq-tabulate 49 d false h)) (unfold scatter gather in refl)

gather-scatter :
    (d : List Bool) → length d ≡ 49 → gather perm (scatter perm d (replicate 49 false)) ≡ d
gather-scatter d h =
    subst (λ t. gather perm (scatter perm t (replicate 49 false)) ≡ t)
      (sym (eq-tabulate 49 d false h)) (unfold scatter gather in refl)

unpack_unit_parts :
    (six : List ℕ) (b : ℕ) (rest : List ℕ)
    → length six ≡ 6
    → unpack_unit ((six ++ b ∷ []) ++ rest)
      ≡ scatter perm (bytes_to_bits six ++ bit_at b 7 ∷ []) (replicate 49 false)
unfolding unpack_unit
unpack_unit_parts six b rest h =
    subst
      (λ s.
        unpack_unit ((s ++ b ∷ []) ++ rest)
        ≡ scatter perm (bytes_to_bits s ++ bit_at b 7 ∷ []) (replicate 49 false))
      (sym (eq-tabulate 6 six 0 h)) refl

gather_split :
    (d : List Bool)
    → take 48 (gather perm d) ++ get_or (gather perm d) 48 false ∷ [] ≡ gather perm d
unfolding gather
gather_split d = refl

top_bit : (b : Bool) → bit_at (if b then 0x80 else 0) 7 ≡ b
top_bit true = refl
top_bit false = refl

unpack_unit-pack_unit :
    (d : List Bool) (rest : List ℕ) → length d ≡ 49 → unpack_unit (pack_unit d ++ rest) ≡ d
unpack_unit-pack_unit d rest h =
    unfold pack_unit in
    unpack_unit_parts six _ rest six-length
    ∙ (ap (λ w. scatter perm w (replicate 49 false)) wire ∙ scatter-gather d h)
  where
    low : List Bool
    low = take 48 (gather perm d)

    six : List ℕ
    six = bits_to_bytes low

    low-length : length low ≡ 48
    low-length = unfold gather in refl

    six-length : length six ≡ 6
    six-length = rw (length-bits_to_bytes low, low-length)

    wire :
        bytes_to_bits six ++ bit_at (if get_or (gather perm d) 48 false then 0x80 else 0) 7 ∷ []
        ≡ gather perm d
    wire =
        rw (bytes_to_bits-bits_to_bytes 6 low low-length, top_bit (get_or (gather perm d) 48 false))
          (gather_split d)

pub length-pack_unit : (d : List Bool) → length (pack_unit d) ≡ 7
unfolding pack_unit
length-pack_unit d =
    rw
      (
        length-append (bits_to_bytes (take 48 (gather perm d))),
        length-bits_to_bytes (take 48 (gather perm d)),
      )
      (unfold gather in refl)

drop_unit : (d : List Bool) (rest : List ℕ) → drop 7 (pack_unit d ++ rest) ≡ rest
drop_unit d rest = rw (length-pack_unit d) at (drop-append (pack_unit d) rest)

-- Three frames of 49 bits come back from their 21-byte payload.
pub unpack21-pack21 :
    (a b c : List Bool)
    → length a ≡ 49
    → length b ≡ 49
    → length c ≡ 49
    → unpack21 (pack21 (a ∷ b ∷ c ∷ [])) ≡ a ∷ b ∷ c ∷ []
unfolding unpack21 unpack_units pack21
unpack21-pack21 a b c ha hb hc = rw (
  drop_unit a (pack_unit b ++ (pack_unit c ++ [])),
  drop_unit b (pack_unit c ++ []),
  unpack_unit-pack_unit a _ ha,
  unpack_unit-pack_unit b _ hb,
  unpack_unit-pack_unit c _ hc,
)

top_byte : (g : ℕ) → g < 256 → g % 128 ≡ 0 → (if bit_at g 7 then 0x80 else 0) ≡ g
top_byte g h p = ground arith

-- A unit of seven bytes whose last has its low seven bits clear.
abbrev pub IsUnit : (a b c d e f g : ℕ) → Type 0
IsUnit a b c d e f g = IsBytes (a ∷ b ∷ c ∷ d ∷ e ∷ f ∷ g ∷ []) × (g % 128 ≡ 0)

abbrev pack_wire : List Bool → List ℕ
pack_wire w = bits_to_bytes (take 48 w) ++ (if get_or w 48 false then 0x80 else 0) ∷ []

pack_unit-unpack_unit :
    (a b c d e f g : ℕ) (rest : List ℕ)
    → IsUnit a b c d e f g
    → pack_unit (unpack_unit (a ∷ b ∷ c ∷ d ∷ e ∷ f ∷ g ∷ rest)) ≡ a ∷ b ∷ c ∷ d ∷ e ∷ f ∷ g ∷ []
unfolding pack_unit unpack_unit
pack_unit-unpack_unit a b c d e f g rest h =
    ap pack_wire (gather-scatter wire (unfold bytes_to_bits in refl)) ∙ packed
  where
    six : List ℕ
    six = a ∷ b ∷ c ∷ d ∷ e ∷ f ∷ []

    wire : List Bool
    wire = bytes_to_bits six ++ bit_at g 7 ∷ []

    low : bits_to_bytes (take 48 wire) ≡ six
    low = unfold bytes_to_bits in bits_to_bytes-bytes_to_bits six (omega arith)

    top : (if get_or wire 48 false then 0x80 else 0) ≡ g
    top = unfold bytes_to_bits in top_byte g (omega arith) h.1

    packed : pack_wire wire ≡ six ++ g ∷ []
    packed = ap₂ (λ (s : List ℕ) (t : ℕ). s ++ t ∷ []) low top

-- A payload of 21 bytes whose units end in seven clear bits comes back from its frames.
pub pack21-unpack21 :
    (payload : List ℕ)
    → length payload ≡ 21
    → IsBytes payload
    → get_or payload 6 0 % 128 ≡ 0
    → get_or payload 13 0 % 128 ≡ 0
    → get_or payload 20 0 % 128 ≡ 0
    → pack21 (unpack21 payload) ≡ payload
unfolding pack21 unpack21 unpack_units
pack21-unpack21 payload n h p q r =
    subst (λ t. pack21 (unpack21 t) ≡ t) (sym whole)
      (ap₂ ◌++◌
        (pack_unit-unpack_unit (x 0) (x 1) (x 2) (x 3) (x 4) (x 5) (x 6) _ (omega (arith, bytes)))
        (ap₂ ◌++◌
          (pack_unit-unpack_unit (x 7) (x 8) (x 9) (x 10) (x 11) (x 12) (x 13) _
            (omega (arith, bytes)))
          (ap₂ ◌++◌
            (pack_unit-unpack_unit (x 14) (x 15) (x 16) (x 17) (x 18) (x 19) (x 20) _
              (omega (arith, bytes)))
            refl)))
  where
    x : ℕ → ℕ
    x i = get_or payload i 0

    whole : payload ≡ tabulate 21 x
    whole = eq-tabulate 21 payload 0 n

    bytes : IsBytes (tabulate 21 x)
    bytes = subst IsBytes whole h
