-- ===== src/Format/Fields.antt =====
-- Descriptions of the fields of a structure, and its memory.
use piiptyyt.Prelude.{
  ℕ, ◌≡◌, Bool, true, false, Option, none, some, List, [], ◌∷◌, Bytes, ◌==◌, if◌then◌else◌,
}

-- What a field holds. A number stands for a `GDateTime`, and an integer is its 64 bits.
pub data Value : Type 0 where
  int_value : ℕ → Value
  bool_value : Bool → Value
  string_value : Option Bytes → Value
  time_value : Option ℕ → Value

-- `struct field_desc`; `type` is a character.
pub record Field : Type 0 where
  pub name : Bytes
  pub column : Bytes
  pub offset : ℕ
  pub type : ℕ

-- The structure from its first byte on, by the offsets of its fields.
abbrev pub Memory : Type 0
Memory = ℕ → Value

abbrev pub store_at : Memory → ℕ → Value → Memory
store_at m p v o = if o == p then v else m o

-- A read at the wrong type goes wrong.
unfoldable pub as_int : Value → Option ℕ
as_int (int_value n) = some n
as_int _ = none

unfoldable pub as_bool : Value → Option Bool
as_bool (bool_value b) = some b
as_bool _ = none

unfoldable pub as_string : Value → Option (Option Bytes)
as_string (string_value s) = some s
as_string _ = none

unfoldable pub as_time : Value → Option (Option ℕ)
as_time (time_value t) = some t
as_time _ = none

-- No field has the offset.
abbrev pub is_apart : ℕ → List Field → Bool
is_apart o [] = true
is_apart o (f ∷ fields) = if o == f.offset then false else is_apart o fields

-- Each offset stands once.
abbrev pub DistinctOffsets : List Field → Type 0
DistinctOffsets [] = Unit
DistinctOffsets (f ∷ fields) = (is_apart f.offset fields ≡ true) × DistinctOffsets fields
