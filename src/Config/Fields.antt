-- ===== src/Config/Fields.antt =====
-- config.c: the fields of a file. What toml.c has read is an argument: the value of a key in a section.
use cc2obp.Common.{
  ℕ, ◌+◌, ◌-◌, ◌%◌, ◌^◌, Bool, false, not, ◌&&◌, ◌||◌, Option, none, some, List, [], ◌∷◌, ◌++◌, map,
  ltb, leb, if◌then◌else◌, take,
}
use cc2obp.Wire.{same_bytes}
use cc2obp.Cccc.Text.{is_space, skip_spaces}

-- An integer is its sign and its size. The elements of an array are left out.
pub data TomlValue : Type 0 where
  toml_string : (s : List ℕ) → TomlValue
  toml_int : (negative : Bool) (size : ℕ) → TomlValue
  toml_bool : (b : Bool) → TomlValue
  toml_array : TomlValue

-- What an error line says of a key.
pub data Reason : Type 0 where
  is_required must_be_string must_be_integer must_be_bool too_small too_large : Reason
  invalid_value invalid_address no_such_system : Reason

-- The values of the keys of one section.
abbrev pub Section : Type 0
Section = List ℕ → Option TomlValue

-- A value, and the errors on the way to it, each with its key.
abbrev pub Read : Type 0 → Type 0
Read A = A × List (List ℕ × Reason)

unfoldable pub trim_tail : List ℕ → List ℕ
trim_tail [] = []
trim_tail (c ∷ cs) = keep (trim_tail cs)
  where
    keep : List ℕ → List ℕ
    keep [] = if is_space c then [] else c ∷ []
    keep (d ∷ ds) = c ∷ d ∷ ds

unfoldable pub trimcpy : ℕ → List ℕ → List ℕ
unfolding trim_tail skip_spaces
trimcpy size src = take (size - 1) (trim_tail (skip_spaces src))

abbrev pub to_upper : ℕ → ℕ
to_upper c = if leb b'a' c && leb c b'z' then c - 32 else c

unfoldable pub str_to_upper : List ℕ → List ℕ
str_to_upper s = map to_upper s

abbrev pub int_bits : Bool → ℕ → ℕ
int_bits negative size = if negative then (2 ^ 64 - size) % 4294967296 else size % 4294967296

abbrev pub is_over : Option ℕ → ℕ → Bool
is_over none size = false
is_over (some h) size = ltb h size

abbrev pub int_errors : List ℕ → Bool → ℕ → ℕ → Option ℕ → List (List ℕ × Reason)
int_errors key negative size low high =
    (if (if negative then ltb 0 low || ltb 0 size else ltb size low)
      then (key, too_small) ∷ []
      else [])
    ++ (if not negative && is_over high size then (key, too_large) ∷ [] else [])

module _ (t : Section) where
  abbrev pub absent : {A : Type 0} → Bool → List ℕ → A → Read A
  absent required key default = (default, if required then (key, is_required) ∷ [] else [])

  unfoldable pub get_str : List ℕ → Bool → List ℕ → ℕ → Read (List ℕ)
  unfolding trimcpy
  get_str key required default size = elim (t key) [
    | none ↦ absent required key default
    | some v ↦ elim v [
      | toml_string s ↦ (trimcpy size s, [])
      | toml_int _ _ ↦ (default, (key, must_be_string) ∷ [])
      | toml_bool _ ↦ (default, (key, must_be_string) ∷ [])
      | toml_array ↦ (default, (key, must_be_string) ∷ [])
    ]
  ]

  -- The index of the choice; the default is the first.
  unfoldable pub find_choice : List ℕ → ℕ → List (List ℕ) → Option ℕ
  unfolding same_bytes
  find_choice s i [] = none
  find_choice s i (c ∷ cs) =
      let later = find_choice s (i + 1) cs in if same_bytes s c then some i else later

  unfoldable pub get_choice : List ℕ → Bool → List (List ℕ) → Read ℕ
  unfolding find_choice str_to_upper trimcpy
  get_choice key required choices = elim (t key) [
    | none ↦ absent required key 0
    | some v ↦ elim v [
      | toml_string s ↦ elim (find_choice (str_to_upper (trimcpy 64 s)) 0 choices) [
        | some i ↦ (i, [])
        | none ↦ (0, (key, invalid_value) ∷ [])
      ]
      | toml_int _ _ ↦ (0, (key, must_be_string) ∷ [])
      | toml_bool _ ↦ (0, (key, must_be_string) ∷ [])
      | toml_array ↦ (0, (key, must_be_string) ∷ [])
    ]
  ]

  -- An integer of at least `low`, which is 0 or more, and at most `high`, if that is given. What is
  -- stored is its low 32 bits.
  unfoldable pub get_int : List ℕ → Bool → ℕ → ℕ → Option ℕ → Read ℕ
  get_int key required default low high = elim (t key) [
    | none ↦ absent required key default
    | some v ↦ elim v [
      | toml_int negative size ↦ (int_bits negative size, int_errors key negative size low high)
      | toml_string _ ↦ (default, (key, must_be_integer) ∷ [])
      | toml_bool _ ↦ (default, (key, must_be_integer) ∷ [])
      | toml_array ↦ (default, (key, must_be_integer) ∷ [])
    ]
  ]

  unfoldable pub get_bool : List ℕ → Bool → Bool → Read Bool
  get_bool key required default = elim (t key) [
    | none ↦ absent required key default
    | some v ↦ elim v [
      | toml_bool b ↦ (b, [])
      | toml_string _ ↦ (default, (key, must_be_bool) ∷ [])
      | toml_int _ _ ↦ (default, (key, must_be_bool) ∷ [])
      | toml_array ↦ (default, (key, must_be_bool) ∷ [])
    ]
  ]
