-- ===== src/Cccc/Text.antt =====
-- The C library's reading and printing of text, as far as cccc/cccc_link.c uses it. A text is the
-- list of its character codes, with no zero among them. An `int` is its 32 bits, as a number below
-- 2 ^ 32; a `long` has 64.
pub mod Digits
pub mod Numbers
pub mod Words
use cc2obp.Common.{
  ℕ, zero, suc, ◌+◌, ◌-◌, ◌*◌, ◌/◌, ◌%◌, ◌^◌, ◌<◌, Bool, true, false, not, ◌&&◌, ◌||◌, Option, none,
  some, List, [], ◌∷◌, ◌++◌, ltb, leb, ◌==◌, if◌then◌else◌, length, get_or, replicate,
}

abbrev pub is_space : ℕ → Bool
is_space c = c == 32 || (leb 9 c && leb c 13)

abbrev pub is_digit : ℕ → Bool
is_digit c = leb b'0' c && leb c b'9'

unfoldable pub skip_spaces : List ℕ → List ℕ
skip_spaces [] = []
skip_spaces (c ∷ cs) = let rest = skip_spaces cs in if is_space c then rest else c ∷ cs

-- `%<width>s`: the spaces are skipped, then up to `width` other characters are taken. What is
-- left is the second part.
unfoldable pub take_word : ℕ → List ℕ → List ℕ × List ℕ
take_word zero cs = ([], cs)
take_word (suc n) [] = ([], [])
take_word (suc n) (c ∷ cs) =
    let r = take_word n cs in if is_space c then ([], c ∷ cs) else (c ∷ r.0, r.1)

unfoldable pub scan_word : ℕ → List ℕ → List ℕ × List ℕ
unfolding take_word skip_spaces
scan_word width cs = take_word width (skip_spaces cs)

-- The value of a digit of a number in base 10 or 16.
abbrev pub digit_value : ℕ → ℕ → Option ℕ
digit_value base c =
    if is_digit c
    then some (c - b'0')
    else if base == 16 && leb b'a' c && leb c b'f'
    then some (c - 87)
    else if base == 16 && leb b'A' c && leb c b'F'
    then some (c - 55)
    else none

-- The digits at the front of the text, behind those whose value is `acc`, and what is left.
unfoldable pub read_digits : ℕ → ℕ → List ℕ → ℕ × List ℕ
read_digits base acc [] = (acc, [])
read_digits base acc (c ∷ cs) = elim (digit_value base c) [
  | none ↦ (acc, c ∷ cs)
  | some d ↦ read_digits base (acc * base + d) cs
]

-- A sign, and what is left.
unfoldable pub read_sign : List ℕ → Bool × List ℕ
read_sign [] = (false, [])
read_sign (c ∷ cs) =
    if c == b'-' then (true, cs) else if c == b'+' then (false, cs) else (false, c ∷ cs)

-- `0x` is skipped in front of a digit of base 16.
unfoldable pub skip_0x : ℕ → List ℕ → List ℕ
skip_0x base (z ∷ x ∷ d ∷ cs) =
    if base == 16 && z == b'0' && (x == b'x' || x == b'X') && is_hex then d ∷ cs else z ∷ x ∷ d ∷ cs
  where
    is_hex : Bool
    is_hex = elim (digit_value 16 d) [ none ↦ false | some _ ↦ true ]
skip_0x base cs = cs

-- `(uint32_t)strtoul(s, NULL, base)`: too large a number gives all ones, a sign negates.
unfoldable pub strtoul : ℕ → List ℕ → ℕ
unfolding skip_spaces read_sign skip_0x read_digits
strtoul base s =
    let (negative, t) = read_sign (skip_spaces s) in
    let m = (read_digits base 0 (skip_0x base t)).0 in
    if leb (2 ^ 64) m
    then 4294967295
    else if negative
    then (2 ^ 64 - m) % 4294967296
    else m % 4294967296

-- The low 32 bits of a `long` that is clamped to its bounds.
unfoldable pub long_to_int : Bool → ℕ → ℕ
long_to_int negative m =
    if negative
    then (2 ^ 64 - (if leb (2 ^ 63) m then 2 ^ 63 else m)) % 4294967296
    else (if leb (2 ^ 63) m then 2 ^ 63 - 1 else m) % 4294967296

unfoldable pub atoi : List ℕ → ℕ
unfolding skip_spaces read_sign read_digits long_to_int
atoi s =
    let (negative, t) = read_sign (skip_spaces s) in long_to_int negative (read_digits 10 0 t).0

-- `%d` of `sscanf`, which wants a digit; and what is left.
unfoldable pub scan_int : List ℕ → Option (ℕ × List ℕ)
unfolding skip_spaces read_sign read_digits long_to_int
scan_int s =
    let (negative, t) = read_sign (skip_spaces s) in
    let r = read_digits 10 0 t in
    if is_digit (get_or t 0 0) then some (long_to_int negative r.0, r.1) else none

unfoldable pub starts_with : List ℕ → List ℕ → Bool
starts_with [] s = true
starts_with (p ∷ ps) [] = false
starts_with (p ∷ ps) (c ∷ cs) = p == c && starts_with ps cs

-- The text from the first place where the pattern, which is not empty, stands.
unfoldable pub strstr : List ℕ → List ℕ → Option (List ℕ)
unfolding starts_with
strstr pat [] = none
strstr pat (c ∷ cs) =
    let later = strstr pat cs in if starts_with pat (c ∷ cs) then some (c ∷ cs) else later

-- Up to the first zero.
unfoldable pub c_string : List ℕ → List ℕ
c_string [] = []
c_string (c ∷ cs) = let rest = c_string cs in if c == 0 then [] else c ∷ rest

-- The digits of a number below `base ^ (fuel + 1)`.
unfoldable pub print_digits : (ℕ → ℕ) → ℕ → ℕ → ℕ → List ℕ
print_digits digit base zero n = digit (n % base) ∷ []
print_digits digit base (suc fuel) n =
    let front = print_digits digit base fuel (n / base) in
    if ltb n base then digit n ∷ [] else front ++ digit (n % base) ∷ []

-- `%u` and `%x` of a number below 2 ^ 32, which has at most ten digits.
unfoldable pub print_dec : ℕ → List ℕ
unfolding print_digits
print_dec n = print_digits (λ d. b'0' + d) 10 9 n

unfoldable pub print_hex : ℕ → List ℕ
unfolding print_digits
print_hex n = print_digits (λ d. if ltb d 10 then b'0' + d else 87 + d) 16 7 n

-- `%0<width>d`.
unfoldable pub print_int : ℕ → ℕ → List ℕ
unfolding print_dec
print_int width n =
    if ltb n 2147483648
    then replicate (width - length (print_dec n)) b'0' ++ print_dec n
    else b'-'
      ∷ (replicate (width - 1 - length (print_dec (4294967296 - n))) b'0'
          ++ print_dec (4294967296 - n))
