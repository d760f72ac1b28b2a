-- ===== src/Cccc/Text/Digits.antt =====
-- The C library's numbers: what is printed is read back.
use mathlib.Core.List.{append-nil}
use cc2obp.Common.{
  ℕ, zero, suc, ◌+◌, ◌-◌, ◌*◌, ◌/◌, ◌%◌, ◌≤◌, ◌<◌, ◌≡◌, refl, sym, ap, ◌∙◌, ◌≢◌, inl, inr, true,
  some, List, [], ◌∷◌, ◌++◌, arith, ltb, ◌==◌, Bool-cases, passes, eq_below, length, replicate,
  length-append, append_assoc, All, All-append,
}
use cc2obp.Cccc.Text.{is_digit, digit_value, read_digits, print_digits, print_dec, print_int}

-- The number has at most `fuel + 1` digits.
abbrev Fits : ℕ → ℕ → ℕ → Type 0
Fits base zero n = n < base
Fits base (suc fuel) n = Fits base fuel (n / base)

module _ (digit : ℕ → ℕ) (base : ℕ)
    (known : (d : ℕ) → d < base → digit_value base (digit d) ≡ some d)
    (divides : (n : ℕ) → (n / base * base + n % base ≡ n) × (n % base < base))
    (small : (n : ℕ) → n < base → n % base ≡ n) where
  read_digit :
      (acc d : ℕ) (rest : List ℕ)
      → d < base
      → read_digits base acc (digit d ∷ rest) ≡ read_digits base (acc * base + d) rest
  unfolding read_digits
  read_digit acc d rest h = rw (known d h, read_digits) refl

  first_digit :
      (d : ℕ) (rest : List ℕ)
      → d < base
      → read_digits base 0 (digit d ∷ rest) ≡ read_digits base d rest
  first_digit d rest h = read_digit 0 d rest h ∙ ap (λ m. read_digits base m rest) (omega arith)

  read-print :
      (fuel n : ℕ) (rest : List ℕ)
      → Fits base fuel n
      → read_digits base 0 (print_digits digit base fuel n ++ rest) ≡ read_digits base n rest
  unfolding print_digits
  read-print zero n rest fits = rw (small n fits) (first_digit n rest fits)
  read-print (suc fuel) n rest fits = elim (Bool-cases (ltb n base)) [
    | inl one ↦ rw one (first_digit n rest (ground arith))
    | inr more ↦ rw more (
        ap (read_digits base 0)
          (append_assoc (print_digits digit base fuel (n / base)) (digit (n % base) ∷ []) rest)
        ∙ read-print fuel (n / base) (digit (n % base) ∷ rest) fits
        ∙ read_digit (n / base) (n % base) rest (divides n).1
        ∙ ap (λ m. read_digits base m rest) (divides n).0)
  ]

  each_digit {κ} :
      (P : ℕ → Type κ)
      → ((d : ℕ) → d < base → P (digit d))
      → (fuel n : ℕ) → All P (print_digits digit base fuel n)
  unfolding print_digits
  each_digit P h zero n = (h (n % base) (divides n).1, tt)
  each_digit P h (suc fuel) n = elim (Bool-cases (ltb n base)) [
    | inl one ↦ rw one (h n (ground arith), tt)
    | inr more ↦ rw more (
        All-append P (print_digits digit base fuel (n / base)) _ (each_digit P h fuel (n / base))
          (h (n % base) (divides n).1, tt))
  ]

length-print_digits :
    (digit : ℕ → ℕ) (base fuel n : ℕ) → length (print_digits digit base fuel n) ≤ fuel + 1
unfolding print_digits
length-print_digits digit base zero n = omega arith
length-print_digits digit base (suc fuel) n =
    let ih = length-print_digits digit base fuel (n / base) in
    elim (Bool-cases (ltb n base)) [
      | inl one ↦ rw one (omega arith)
      | inr more ↦ rw more (
          rw (length-append (print_digits digit base fuel (n / base)) (digit (n % base) ∷ []))
            (omega arith))
    ]

abbrev pub IsDigit : ℕ → Type 0
IsDigit c = is_digit c ≡ true

unfoldable pub value : List ℕ → ℕ
value s = (read_digits 10 0 s).0

pub print_dec-IsDigit : (n : ℕ) → All IsDigit (print_dec n)
unfolding print_dec
print_dec-IsDigit n =
    each_digit (λ d. b'0' + d) 10 (λ d h. ground arith) (λ m. (omega arith, omega arith))
      (λ m h. omega arith) IsDigit (λ d h. ground arith) 9 n

pub read-print_dec :
    (n : ℕ) (rest : List ℕ)
    → n < 4294967296
    → read_digits 10 0 (print_dec n ++ rest) ≡ read_digits 10 n rest
unfolding print_dec
read-print_dec n rest h =
    read-print (λ d. b'0' + d) 10 (λ d h. ground arith) (λ m. (omega arith, omega arith))
      (λ m h. omega arith) 9 n rest (omega arith)

pub length-print_dec : (n : ℕ) → length (print_dec n) ≤ 10
unfolding print_dec
length-print_dec n = omega (arith, length-print_digits (λ d. b'0' + d) 10 9 n)

zeros-IsDigit : (k : ℕ) → All IsDigit (replicate k b'0')
zeros-IsDigit zero = tt
zeros-IsDigit (suc k) = (refl, zeros-IsDigit k)

length-zeros : (k : ℕ) → length {A = ℕ} (replicate k b'0') ≡ k
length-zeros zero = refl
length-zeros (suc k) = ap suc (length-zeros k)

read-zeros : (k : ℕ) (s : List ℕ) → read_digits 10 0 (replicate k b'0' ++ s) ≡ read_digits 10 0 s
unfolding read_digits
read-zeros zero s = refl
read-zeros (suc k) s = read-zeros k s

-- A number of 0 or more that `%0<width>d` prints.
pub print_int_nonneg :
    (width n : ℕ)
    → n < 2147483648
    → print_int width n ≡ replicate (width - length (print_dec n)) b'0' ++ print_dec n
unfolding print_int
print_int_nonneg width n h = ground arith

pub print_int-IsDigit : (width n : ℕ) → n < 2147483648 → All IsDigit (print_int width n)
print_int-IsDigit width n h = rw (print_int_nonneg width n h) (
    All-append IsDigit _ (print_dec n) (zeros-IsDigit (width - length (print_dec n)))
      (print_dec-IsDigit n))

pub length-print_int : (width n : ℕ) → n < 2147483648 → length (print_int width n) ≤ width + 10
length-print_int width n h =
    let short = length-print_dec n in
    let pad = length-zeros (width - length (print_dec n)) in
    rw (print_int_nonneg width n h) (
      rw (length-append (replicate (width - length (print_dec n)) b'0') (print_dec n))
        (omega arith))

pub value-print_dec : (n : ℕ) → n < 4294967296 → value (print_dec n) ≡ n
unfolding value read_digits
value-print_dec n h =
    ap (λ s. (read_digits 10 0 s).0) (sym (append-nil (print_dec n)))
    ∙ ap (λ r. r.0) (read-print_dec n [] h)

pub value-print_int : (width n : ℕ) → n < 2147483648 → value (print_int width n) ≡ n
unfolding value
value-print_int width n h = rw (print_int_nonneg width n h) (
    ap (λ r. r.0) (read-zeros (width - length (print_dec n)) (print_dec n))
    ∙ value-print_dec n (omega arith))

two_below : passes (λ k. length (print_int 2 k) == 2) 0 100 ≡ true
unfolding passes print_int
two_below = refl

-- Two characters, as the identifier of a link is read.
pub length-print_int_two : (n : ℕ) → n < 100 → length (print_int 2 n) ≡ 2
length-print_int_two n h = eq_below 100 (λ k. length (print_int 2 k)) (λ _. 2) two_below n h

some_digits : (digit : ℕ → ℕ) (base fuel n : ℕ) → 1 ≤ length (print_digits digit base fuel n)
unfolding print_digits
some_digits digit base zero n = omega arith
some_digits digit base (suc fuel) n = elim (Bool-cases (ltb n base)) [
  | inl one ↦ rw one (omega arith)
  | inr more ↦ rw more (
      rw (length-append (print_digits digit base fuel (n / base)) (digit (n % base) ∷ []))
        (omega arith))
]

long_ne : (xs : List ℕ) → 1 ≤ length xs → xs ≢ []
long_ne [] h = absurd (omega arith)
long_ne (x ∷ xs) h = λ e. ground arith

print_dec-length : (n : ℕ) → 1 ≤ length (print_dec n)
unfolding print_dec
print_dec-length n = some_digits (λ d. b'0' + d) 10 9 n

pub print_dec_ne : (n : ℕ) → print_dec n ≢ []
print_dec_ne n = long_ne (print_dec n) (print_dec-length n)

pub print_int_ne : (width n : ℕ) → n < 2147483648 → print_int width n ≢ []
print_int_ne width n h = long_ne (print_int width n) (
    rw (print_int_nonneg width n h) (
      rw (length-append (replicate (width - length (print_dec n)) b'0') (print_dec n))
        (let some_left = print_dec-length n in omega arith)))
