-- ===== src/Cccc/Lines.antt =====
-- cccc/cccc_link.c: `feed_bytes` cuts what arrives on a connection into lines.
pub mod Chunks
use cc2obp.Common.{
  ℕ, ◌+◌, ◌-◌, ◌/◌, Bool, true, false, ◌&&◌, List, [], ◌∷◌, ◌++◌, ltb, ◌==◌, if◌then◌else◌, length,
  get_or, take,
}
use cc2obp.Cccc.Text.{c_string}

-- The text that the callback sees of a buffer that has taken a line feed: without its last byte,
-- and without a carriage return in front of that.
unfoldable pub line_of : List ℕ → List ℕ
unfolding c_string
line_of rx =
    let n = length rx - 1 in
    c_string (take (if ltb 0 n && get_or rx (n - 1) 0 == b'\r' then n - 1 else n) rx)

-- The buffer takes up to `cap - 1` bytes; later ones are lost.
abbrev pub push_byte : ℕ → List ℕ → ℕ → List ℕ
push_byte size rx c = if ltb (length rx) (size - 1) then rx ++ c ∷ [] else rx

module _ {S : Type 0} where
  unfoldable pub feed_bytes : ℕ → (List ℕ → S → S) → List ℕ → List ℕ × S → List ℕ × S
  unfolding line_of
  feed_bytes size on_line [] st = st
  feed_bytes size on_line (c ∷ cs) (rx, s) =
      let rx' = push_byte size rx c in
      feed_bytes size on_line cs (if c == b'\n' then ([], on_line (line_of rx') s) else (rx', s))

  -- What every line keeps, the bytes keep.
  pub feed_bytes-keeps {κ} :
      (size : ℕ) (on_line : List ℕ → S → S) (P : S → Type κ)
      → ((line : List ℕ) (s : S) → P s → P (on_line line s))
      → (bytes : List ℕ) (st : List ℕ × S) → P st.1
      → P (feed_bytes size on_line bytes st).1
  unfolding feed_bytes
  feed_bytes-keeps size on_line P keep [] st h = h
  feed_bytes-keeps size on_line P keep (c ∷ cs) (rx, s) h =
      feed_bytes-keeps size on_line P keep cs _ (either (c == b'\n'))
    where
      taken : Bool → List ℕ × S
      taken b =
          if b then ([], on_line (line_of (push_byte size rx c)) s) else (push_byte size rx c, s)

      either : (b : Bool) → P (taken b).1
      either true = keep _ s h
      either false = h
