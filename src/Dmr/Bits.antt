-- ===== src/Dmr/Bits.antt =====
-- dmr/dmr_bits.c: bytes as bits, most significant bit first.
use cc2obp.Common.{
  ℕ, zero, suc, ◌+◌, ◌*◌, ◌/◌, ◌%◌, ◌^◌, ◌<◌, ◌≡◌, refl, ap, ap₂, ◌∙◌, Bool, true, false, List, [],
  ◌∷◌, ◌++◌, arith, ◌==◌, length, get_or, drop, All,
}

-- `(v >> k) & 1`.
abbrev pub bit_at : ℕ → ℕ → Bool
bit_at v k = v / 2 ^ k % 2 == 1

abbrev pub byte_bits : ℕ → List Bool
byte_bits v =
    bit_at v 7
    ∷ bit_at v 6
    ∷ bit_at v 5
    ∷ bit_at v 4
    ∷ bit_at v 3
    ∷ bit_at v 2
    ∷ bit_at v 1
    ∷ bit_at v 0
    ∷ []

unfoldable pub bytes_to_bits : List ℕ → List Bool
bytes_to_bits [] = []
bytes_to_bits (v ∷ vs) = byte_bits v ++ bytes_to_bits vs

abbrev pub bit_val : Bool → ℕ
bit_val true = 1
bit_val false = 0

-- The byte whose bits are the first eight; a bit that is not there counts as 0.
abbrev pub byte_val : List Bool → ℕ
byte_val bits = at 0 128 + at 1 64 + at 2 32 + at 3 16 + at 4 8 + at 5 4 + at 6 2 + at 7 1
  where
    at : ℕ → ℕ → ℕ
    at i w = bit_val (get_or bits i false) * w

unfoldable pub bytes_from : ℕ → List Bool → List ℕ
bytes_from zero bits = []
bytes_from (suc n) bits = byte_val bits ∷ bytes_from n (drop 8 bits)

-- The loop sets each bit in a byte array that starts as zeros.
unfoldable pub bits_to_bytes : List Bool → List ℕ
unfolding bytes_from
bits_to_bytes bits = bytes_from ((length bits + 7) / 8) bits

abbrev pub IsByte : ℕ → Type 0
IsByte v = v < 256

abbrev pub IsBytes : List ℕ → Type 0
IsBytes = All IsByte

pub bit_val-bit : (v : ℕ) → v < 2 → bit_val (v == 1) ≡ v
bit_val-bit zero h = refl
bit_val-bit (suc zero) h = refl
bit_val-bit (suc (suc v)) h = absurd (omega arith)

bit_val-bit_at : (v k : ℕ) → bit_val (bit_at v k) ≡ v / 2 ^ k % 2
bit_val-bit_at v k = bit_val-bit _ (omega arith)

pub bit-bit_val : (b : Bool) → (bit_val b == 1) ≡ b
bit-bit_val true = refl
bit-bit_val false = refl

pub byte_val-byte_bits : (v : ℕ) (rest : List Bool) → v < 256 → byte_val (byte_bits v ++ rest) ≡ v
byte_val-byte_bits v rest h = omega (
  arith,
  bit_val-bit_at v 7,
  bit_val-bit_at v 6,
  bit_val-bit_at v 5,
  bit_val-bit_at v 4,
  bit_val-bit_at v 3,
  bit_val-bit_at v 2,
  bit_val-bit_at v 1,
  bit_val-bit_at v 0,
)

pub bit_val-lt : (b : Bool) → bit_val b < 2
bit_val-lt true = omega arith
bit_val-lt false = omega arith

pub byte_val-lt : (bits : List Bool) → byte_val bits < 256
byte_val-lt bits = omega (
  arith,
  bit_val-lt (get_or bits 0 false),
  bit_val-lt (get_or bits 1 false),
  bit_val-lt (get_or bits 2 false),
  bit_val-lt (get_or bits 3 false),
  bit_val-lt (get_or bits 4 false),
  bit_val-lt (get_or bits 5 false),
  bit_val-lt (get_or bits 6 false),
  bit_val-lt (get_or bits 7 false),
)

ruleset lts = (arith, bit_val-lt)

cons8 :
    {a b c d e f g h a' b' c' d' e' f' g' h' : Bool}
    → a' ≡ a
    → b' ≡ b
    → c' ≡ c
    → d' ≡ d
    → e' ≡ e
    → f' ≡ f
    → g' ≡ g
    → h' ≡ h
    → a' ∷ b' ∷ c' ∷ d' ∷ e' ∷ f' ∷ g' ∷ h' ∷ [] ≡ a ∷ b ∷ c ∷ d ∷ e ∷ f ∷ g ∷ h ∷ []
cons8 p q r s t u v w i = p i ∷ q i ∷ r i ∷ s i ∷ t i ∷ u i ∷ v i ∷ w i ∷ []

-- The bits of a byte are those that it was made of.
pub byte_bits-byte_val :
    (a b c d e f g h : Bool) (rest : List Bool)
    → byte_bits (byte_val (a ∷ b ∷ c ∷ d ∷ e ∷ f ∷ g ∷ h ∷ rest))
      ≡ a ∷ b ∷ c ∷ d ∷ e ∷ f ∷ g ∷ h ∷ []
byte_bits-byte_val a b c d e f g h rest =
    cons8 (bit_eq 7 a (omega lts)) (bit_eq 6 b (omega lts)) (bit_eq 5 c (omega lts))
      (bit_eq 4 d (omega lts)) (bit_eq 3 e (omega lts)) (bit_eq 2 f (omega lts))
      (bit_eq 1 g (omega lts)) (bit_eq 0 h (omega lts))
  where
    v : ℕ
    v = byte_val (a ∷ b ∷ c ∷ d ∷ e ∷ f ∷ g ∷ h ∷ rest)

    bit_eq : (k : ℕ) (b : Bool) → v / 2 ^ k % 2 ≡ bit_val b → bit_at v k ≡ b
    bit_eq k b p = ap (λ t. t == 1) p ∙ bit-bit_val b

pub length-bytes_to_bits : (vs : List ℕ) → length (bytes_to_bits vs) ≡ 8 * length vs
unfolding bytes_to_bits
length-bytes_to_bits [] = refl
length-bytes_to_bits (v ∷ vs) = omega (arith, length-bytes_to_bits vs)

bytes_from-bytes_to_bits :
    (vs : List ℕ) → IsBytes vs → bytes_from (length vs) (bytes_to_bits vs) ≡ vs
unfolding bytes_to_bits bytes_from
bytes_from-bytes_to_bits [] h = refl
bytes_from-bytes_to_bits (v ∷ vs) h =
    ap₂ ◌∷◌ (byte_val-byte_bits v (bytes_to_bits vs) h.0) (bytes_from-bytes_to_bits vs h.1)

-- Bytes expanded to bits and packed again are the bytes.
pub bits_to_bytes-bytes_to_bits : (vs : List ℕ) → IsBytes vs → bits_to_bytes (bytes_to_bits vs) ≡ vs
unfolding bits_to_bytes
bits_to_bytes-bytes_to_bits vs h =
    let e : (length (bytes_to_bits vs) + 7) / 8 ≡ length vs =
      omega (arith, length-bytes_to_bits vs) in
    rw e (bytes_from-bytes_to_bits vs h)

length-bytes_from : (n : ℕ) (bits : List Bool) → length (bytes_from n bits) ≡ n
unfolding bytes_from
length-bytes_from zero bits = refl
length-bytes_from (suc n) bits = ap suc (length-bytes_from n (drop 8 bits))

pub length-bits_to_bytes : (bits : List Bool) → length (bits_to_bytes bits) ≡ (length bits + 7) / 8
unfolding bits_to_bytes
length-bits_to_bytes bits = length-bytes_from ((length bits + 7) / 8) bits

bytes_from-IsBytes : (n : ℕ) (bits : List Bool) → IsBytes (bytes_from n bits)
unfolding bytes_from
bytes_from-IsBytes zero bits = tt
bytes_from-IsBytes (suc n) bits = (byte_val-lt bits, bytes_from-IsBytes n (drop 8 bits))

pub bits_to_bytes-IsBytes : (bits : List Bool) → IsBytes (bits_to_bytes bits)
unfolding bits_to_bytes
bits_to_bytes-IsBytes bits = bytes_from-IsBytes ((length bits + 7) / 8) bits

bytes_to_bits-bytes_from :
    (n : ℕ) (bits : List Bool) → length bits ≡ 8 * n → bytes_to_bits (bytes_from n bits) ≡ bits
unfolding bytes_to_bits bytes_from
bytes_to_bits-bytes_from zero [] e = refl
bytes_to_bits-bytes_from (suc n) (a ∷ b ∷ c ∷ d ∷ e ∷ f ∷ g ∷ h ∷ rest) p =
    ap₂ ◌++◌ (byte_bits-byte_val a b c d e f g h rest)
      (bytes_to_bits-bytes_from n rest (omega arith))
bytes_to_bits-bytes_from zero (b ∷ bits) e = absurd (omega arith)
bytes_to_bits-bytes_from (suc n) bits e = absurd (omega arith)

-- Whole bytes of bits packed and expanded again are the bits.
pub bytes_to_bits-bits_to_bytes :
    (n : ℕ) (bits : List Bool) → length bits ≡ 8 * n → bytes_to_bits (bits_to_bytes bits) ≡ bits
unfolding bits_to_bytes
bytes_to_bits-bits_to_bytes n bits h =
    let e : (length bits + 7) / 8 ≡ n = omega arith in rw e (bytes_to_bits-bytes_from n bits h)
