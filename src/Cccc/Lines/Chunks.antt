-- ===== src/Cccc/Lines/Chunks.antt =====
-- cccc/cccc_link.c: `feed_bytes` gives the same lines however the bytes are cut.
use mathlib.Core.List.{append-nil}
use cc2obp.Common.{
  ℕ, zero, suc, ◌+◌, ◌-◌, ◌≤◌, ◌<◌, ◌≡◌, refl, sym, ap, ◌∙◌, inl, inr, Bool, true, false, ◌&&◌,
  ◌||◌, List, [], ◌∷◌, ◌++◌, arith, ltb, ◌==◌, if◌then◌else◌, Bool-cases, length, get_or, take,
  length-append, take-append, append_assoc, concat, All,
}
use cc2obp.Cccc.Text.{c_string}
use cc2obp.Cccc.Lines.{line_of, push_byte, feed_bytes}

-- No zero, line feed or carriage return.
abbrev pub IsPlain : ℕ → Type 0
IsPlain c = (c == 0 || (c == b'\n' || c == b'\r')) ≡ false

-- The end of a line, with a carriage return or without.
abbrev pub line_end : Bool → List ℕ
line_end true = b'\r' ∷ b'\n' ∷ []
line_end false = b'\n' ∷ []

-- A line with its end, that has room in a buffer of this size.
abbrev pub Fits : ℕ → List ℕ × Bool → Type 0
Fits size (l, _) = All IsPlain l × (length l + 2 ≤ size - 1)

abbrev pub stream : List (List ℕ × Bool) → List ℕ
stream [] = []
stream ((l, cr) ∷ more) = (l ++ line_end cr) ++ stream more

c_string_plain : (l : List ℕ) → All IsPlain l → c_string l ≡ l
unfolding c_string
c_string_plain [] h = refl
c_string_plain (c ∷ cs) (h, hs) = rw (c_string_plain cs hs) (ground arith)

get_or-append : (l : List ℕ) (y : ℕ) (ys : List ℕ) → get_or (l ++ y ∷ ys) (length l) 0 ≡ y
get_or-append [] y ys = refl
get_or-append (c ∷ cs) y ys = get_or-append cs y ys

plain_at :
    (l ys : List ℕ) (k : ℕ) → All IsPlain l → k < length l → (get_or (l ++ ys) k 0 == b'\r') ≡ false
plain_at [] ys k h small = absurd (omega arith)
plain_at (c ∷ cs) ys zero h small = ground arith
plain_at (c ∷ cs) ys (suc k) h small = plain_at cs ys k h.1 (omega arith)

line_of_lf : (l : List ℕ) → All IsPlain l → line_of (l ++ b'\n' ∷ []) ≡ l
unfolding line_of
line_of_lf l h = rw (length-append l (b'\n' ∷ [])) (cut (length l + 1 - 1) (omega arith))
  where
    no_cr : (ltb 0 (length l) && get_or (l ++ b'\n' ∷ []) (length l - 1) 0 == b'\r') ≡ false
    no_cr = elim (Bool-cases (ltb 0 (length l))) [
      | inl some_bytes ↦ rw some_bytes (plain_at l (b'\n' ∷ []) (length l - 1) h (ground arith))
      | inr no_bytes ↦ rw no_bytes refl
    ]

    cut :
        (n : ℕ)
        → n ≡ length l
        → c_string (
            take
              (if ltb 0 n && get_or (l ++ b'\n' ∷ []) (n - 1) 0 == b'\r' then n - 1 else n)
              (l ++ b'\n' ∷ []))
          ≡ l
    cut n same = rw same (rw no_cr (rw (take-append l (b'\n' ∷ [])) (c_string_plain l h)))

line_of_crlf : (l : List ℕ) → All IsPlain l → line_of (l ++ b'\r' ∷ b'\n' ∷ []) ≡ l
unfolding line_of
line_of_crlf l h = rw (length-append l (b'\r' ∷ b'\n' ∷ [])) (cut (length l + 2 - 1) (omega arith))
  where
    cut :
        (n : ℕ)
        → n ≡ length l + 1
        → c_string (
            take
              (if ltb 0 n && get_or (l ++ b'\r' ∷ b'\n' ∷ []) (n - 1) 0 == b'\r' then n - 1 else n)
              (l ++ b'\r' ∷ b'\n' ∷ []))
          ≡ l
    cut n same =
        let before : n - 1 ≡ length l = omega arith in
        let some_bytes : ltb 0 n ≡ true = ground arith in
        rw before (
          rw some_bytes (
            rw (get_or-append l b'\r' (b'\n' ∷ []))
              (rw (take-append l (b'\r' ∷ b'\n' ∷ [])) (c_string_plain l h))))

module _ {S : Type 0} (size : ℕ) (on_line : List ℕ → S → S) where
  pub feed_bytes-append :
      (xs ys : List ℕ) (st : List ℕ × S)
      → feed_bytes size on_line (xs ++ ys) st
        ≡ feed_bytes size on_line ys (feed_bytes size on_line xs st)
  unfolding feed_bytes
  feed_bytes-append [] ys st = refl
  feed_bytes-append (c ∷ cs) ys (rx, s) = feed_bytes-append cs ys (
      if c == b'\n'
      then ([], on_line (line_of (push_byte size rx c)) s)
      else (push_byte size rx c, s))

  -- Bytes with no line feed are kept, if there is room.
  feed_kept :
      (l rx : List ℕ) (s : S)
      → All IsPlain l
      → length rx + length l ≤ size - 1
      → feed_bytes size on_line l (rx, s) ≡ (rx ++ l, s)
  unfolding feed_bytes
  feed_kept [] rx s h fits = ap (λ t. (t, s)) (sym (append-nil rx))
  feed_kept (c ∷ cs) rx s (h, hs) fits =
      let not_lf : (c == b'\n') ≡ false = ground arith in
      let room : ltb (length rx) (size - 1) ≡ true = ground arith in
      rw not_lf (
        rw room (
          feed_kept cs (rx ++ c ∷ []) s hs (rw (length-append rx (c ∷ [])) (omega arith))
          ∙ ap (λ t. (t, s)) (append_assoc rx (c ∷ []) cs)))

  feed_end :
      (l : List ℕ) (cr : Bool) (s : S)
      → All IsPlain l
      → length l + 2 ≤ size - 1
      → feed_bytes size on_line (line_end cr) (l, s) ≡ ([], on_line l s)
  unfolding feed_bytes
  feed_end l false s h fits =
      let room : ltb (length l) (size - 1) ≡ true = ground arith in
      rw room (ap (λ t. ([], on_line t s)) (line_of_lf l h))
  feed_end l true s h fits =
      let room : ltb (length l) (size - 1) ≡ true = ground arith in
      rw room (
        rw (length-append l (b'\r' ∷ [])) (
          rw (more_room (length l + 1) (omega arith)) (
            ap (λ t. ([], on_line t s))
              (ap line_of (append_assoc l (b'\r' ∷ []) (b'\n' ∷ [])) ∙ line_of_crlf l h))))
    where
      more_room : (n : ℕ) → n < size - 1 → ltb n (size - 1) ≡ true
      more_room n small = ground arith

  -- A line that fits is handed on without its end.
  pub feed_line :
      (l : List ℕ) (cr : Bool) (s : S)
      → All IsPlain l
      → length l + 2 ≤ size - 1
      → feed_bytes size on_line (l ++ line_end cr) ([], s) ≡ ([], on_line l s)
  feed_line l cr s h fits =
      feed_bytes-append l (line_end cr) ([], s)
      ∙ ap (feed_bytes size on_line (line_end cr)) (feed_kept l [] s h (omega arith))
      ∙ feed_end l cr s h fits

  -- One `recv` after another.
  abbrev pub feed_all : List (List ℕ) → List ℕ × S → List ℕ × S
  feed_all [] st = st
  feed_all (bytes ∷ more) st = feed_all more (feed_bytes size on_line bytes st)

  abbrev pub lines : List (List ℕ × Bool) → S → S
  lines [] s = s
  lines ((l, _) ∷ more) s = lines more (on_line l s)

  feed_all-concat :
      (chunks : List (List ℕ)) (st : List ℕ × S)
      → feed_all chunks st ≡ feed_bytes size on_line (concat chunks) st
  unfolding feed_bytes
  feed_all-concat [] st = refl
  feed_all-concat (bytes ∷ more) st =
      feed_all-concat more (feed_bytes size on_line bytes st)
      ∙ sym (feed_bytes-append bytes (concat more) st)

  feed_stream :
      (texts : List (List ℕ × Bool)) (s : S)
      → All (Fits size) texts
      → feed_bytes size on_line (stream texts) ([], s) ≡ ([], lines texts s)
  unfolding feed_bytes
  feed_stream [] s h = refl
  feed_stream ((l, cr) ∷ more) s ((plain, fits), hs) =
      feed_bytes-append (l ++ line_end cr) (stream more) ([], s)
      ∙ ap (feed_bytes size on_line (stream more)) (feed_line l cr s plain fits)
      ∙ feed_stream more (on_line l s) hs

  -- However a stream of lines is cut into what the calls of `recv` give, `feed_bytes` hands on each
  -- line once, in order and without its end, a line feed or a carriage return and a line feed, and
  -- leaves the buffer empty. No line holds a zero, a line feed or a carriage return, and each is at
  -- least three bytes shorter than the buffer.
  pub feed_bytes-lines :
      (chunks : List (List ℕ)) (texts : List (List ℕ × Bool)) (s : S)
      → All (Fits size) texts
      → concat chunks ≡ stream texts
      → feed_all chunks ([], s) ≡ ([], lines texts s)
  feed_bytes-lines chunks texts s fits same =
      feed_all-concat chunks ([], s)
      ∙ ap (λ bytes. feed_bytes size on_line bytes ([], s)) same
      ∙ feed_stream texts s fits
