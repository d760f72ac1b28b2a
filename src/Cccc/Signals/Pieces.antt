-- ===== src/Cccc/Signals/Pieces.antt =====
-- cccc/cccc_link.c: the pieces of a B-on, and how they are searched and read.
use cc2obp.Common.{
  ℕ, suc, ◌+◌, ◌-◌, ◌≤◌, ◌<◌, ◌≡◌, refl, sym, ap, ◌∙◌, ◌≢◌, Bool, true, false, not, ◌&&◌, Option,
  none, some, List, [], ◌∷◌, ◌++◌, arith, ltb, leb, ◌==◌, if◌then◌else◌, length, get_or, take,
  length-append, take-append, append_assoc, All,
}
use cc2obp.Cccc.Const.{codes}
use cc2obp.Cccc.Text.{strtoul, atoi, strstr, print_dec, print_int}
use cc2obp.Cccc.Text.Digits.{
  IsDigit, print_dec_ne, print_int_ne, print_dec-IsDigit, print_int-IsDigit, value-print_dec,
  value-print_int,
}
use cc2obp.Cccc.Text.Numbers.{strtoul-digits, atoi-digits}
use cc2obp.Cccc.Text.Words.{strstr_past, All-weaken}
use cc2obp.Cccc.Signals.{Bon, is_line_end, trim_end, is_empty, parse_bee}

-- The line that `build_bon` writes up to its last part, the type of the call and the line feed.
abbrev pub bon_pieces : ℕ → ℕ → ℕ → ℕ → ℕ → ℕ → List (List ℕ)
bon_pieces lid user radio peer src_lid tgid =
    codes "B01"
    ∷ print_int 2 lid
    ∷ print_int 3 user
    ∷ (b' ' ∷ [])
    ∷ print_dec radio
    ∷ (b' ' ∷ [])
    ∷ print_dec peer
    ∷ codes " 0.0 radioid="
    ∷ print_dec radio
    ∷ codes " peerid="
    ∷ print_dec peer
    ∷ codes " Bee=B01"
    ∷ print_int 2 src_lid
    ∷ print_int 3 tgid
    ∷ []

abbrev pub joined : List (List ℕ) → List ℕ → List ℕ
joined [] ys = ys
joined (xs ∷ more) ys = xs ++ joined more ys

pub joined-append :
    (pieces : List (List ℕ)) (ys zs : List ℕ) → joined pieces (ys ++ zs) ≡ joined pieces ys ++ zs
joined-append [] ys zs = refl
joined-append (xs ∷ more) ys zs =
    ap (λ t. xs ++ t) (joined-append more ys zs) ∙ sym (append_assoc xs (joined more ys) zs)

pub strstr_past-All :
    (p : ℕ) (pat : List ℕ) (pieces : List (List ℕ)) (ys : List ℕ)
    → All (All (λ c. (p == c) ≡ false)) pieces
    → strstr (p ∷ pat) (joined pieces ys) ≡ strstr (p ∷ pat) ys
strstr_past-All p pat [] ys h = refl
strstr_past-All p pat (xs ∷ more) ys (h, hs) =
    strstr_past p pat xs _ h ∙ strstr_past-All p pat more ys hs

pub digits-no-b : (xs : List ℕ) → All IsDigit xs → All (λ c. (b'B' == c) ≡ false) xs
digits-no-b xs h = All-weaken IsDigit (λ c. (b'B' == c) ≡ false) xs (λ c d. ground arith) h

abbrev pub has_no_b : List ℕ → Bool
has_no_b [] = true
has_no_b (c ∷ cs) = not (b'B' == c) && has_no_b cs

pub text-no-b : (xs : List ℕ) → has_no_b xs ≡ true → All (λ c. (b'B' == c) ≡ false) xs
text-no-b [] h = tt
text-no-b (c ∷ cs) h = let ih = text-no-b cs in (ground arith, ih (ground arith))

pub trim_end_kept :
    (xs : List ℕ) (c : ℕ) → is_line_end c ≡ false → trim_end (xs ++ c ∷ []) ≡ xs ++ c ∷ []
unfolding trim_end
trim_end_kept [] c h = ground arith
trim_end_kept (x ∷ []) c h = ground arith
trim_end_kept (x ∷ y ∷ xs) c h = rw (trim_end_kept (y ∷ xs) c h) refl

pub not_empty : (xs : List ℕ) → xs ≢ [] → is_empty xs ≡ false
not_empty [] ne = absurd (ne refl)
not_empty (x ∷ xs) ne = refl

pub get_or-last : (xs : List ℕ) (c : ℕ) → get_or (xs ++ c ∷ []) (length xs) 0 ≡ c
get_or-last [] c = refl
get_or-last (x ∷ xs) c = get_or-last xs c

-- Two digits, a talkgroup and a letter are read as such.
pub parse_bee_pieces :
    (radio peer call_type : ℕ) (xs ys : List ℕ)
    → length xs ≡ 2
    → length ys ≤ 15
    → is_line_end call_type ≡ false
    → parse_bee radio peer (xs ++ (ys ++ call_type ∷ []))
      ≡ some (record {
        radio = radio;
        peer = peer;
        src_lid = atoi xs;
        tgid = atoi ys;
        call_type = call_type;
      })
unfolding parse_bee
parse_bee_pieces radio peer call_type [] ys two short letter = absurd (omega arith)
parse_bee_pieces radio peer call_type (a ∷ []) ys two short letter = absurd (omega arith)
parse_bee_pieces radio peer call_type (a ∷ b ∷ c ∷ xs) ys two short letter = absurd (omega arith)
parse_bee_pieces radio peer call_type (a ∷ b ∷ []) ys two short letter =
    rw (trim_end_kept (a ∷ b ∷ ys) call_type letter) (cut _ size)
  where
    size : length (a ∷ b ∷ (ys ++ call_type ∷ [])) ≡ length ys + 3
    size = let n = length-append ys (call_type ∷ []) in omega arith

    read : ℕ → Option Bon
    read n =
        if ltb n 3
        then none
        else some (record {
          radio = radio;
          peer = peer;
          src_lid = atoi (a ∷ b ∷ []);
          tgid = atoi (take (if leb 16 (n - 3) then 15 else n - 3) (ys ++ call_type ∷ []));
          call_type = get_or (a ∷ b ∷ (ys ++ call_type ∷ [])) (n - 1) 0;
        })

    cut :
        (n : ℕ)
        → n ≡ length ys + 3
        → read n
          ≡ some (record {
            radio = radio;
            peer = peer;
            src_lid = atoi (a ∷ b ∷ []);
            tgid = atoi ys;
            call_type = call_type;
          })
    cut n same =
        let enough : ltb n 3 ≡ false = ground arith in
        let tail : n - 3 ≡ length ys = omega arith in
        let room : leb 16 (length ys) ≡ false = ground arith in
        let last : n - 1 ≡ suc (suc (length ys)) = omega arith in
        rw enough (
          rw tail (
            rw room (
              rw last (rw (take-append ys (call_type ∷ [])) (rw (get_or-last ys call_type) refl)))))

pub radio_read : (n : ℕ) → n < 4294967296 → strtoul 10 (print_dec n) ≡ n
radio_read n h =
    let v = value-print_dec n h in
    strtoul-digits (print_dec n) (print_dec-IsDigit n) (print_dec_ne n) (omega arith) ∙ v

pub int_read : (width n : ℕ) → n < 2147483648 → atoi (print_int width n) ≡ n
int_read width n h =
    let v = value-print_int width n h in
    atoi-digits (print_int width n) (print_int-IsDigit width n h) (print_int_ne width n h)
      (omega arith)
    ∙ v
