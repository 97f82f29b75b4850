-- ===== src/Format/Json.antt =====
-- `format_from_json` of format.c. A `JsonObject` is what the accessors of json-glib give of it.
use mathlib.Core.Path.{subst}
use piiptyyt.Prelude.{
  ℕ, ◌+◌, ◌≤◌, ◌⊎◌, sym, ap, ◌∙◌, ◌≡◌, refl, inl, inr, Bool, true, false, not, ◌&&◌, ◌||◌, Option,
  none, some, List, [], ◌∷◌, arith, Bytes, All, ◌==◌, if◌then◌else◌, Bool-cases, Option-cases,
  ◌>>=◌,
}
use piiptyyt.Format.Chars.{islower, tolower}
use piiptyyt.Format.Fields.{
  Value, int_value, bool_value, string_value, time_value, Field, Memory, store_at, is_apart,
  DistinctOffsets,
}

-- `member` tells of a name whether it is there, and if so whether its node is null; the others
-- are the accessors `json_object_get_…_member`.
pub record JsonObject : Type 0 where
  pub member : Bytes → Option Bool
  pub int_member : Bytes → ℕ
  pub boolean_member : Bytes → Bool
  pub string_member : Bytes → Option Bytes

-- A node that is null is refused for a type in upper case.
unfoldable pub is_refused : Bool → Field → Bool
is_refused is_null f = not (islower f.type) && is_null

-- `date` stands for `parse_datetime`.
module _ (date : Option Bytes → Option ℕ) where
  -- The `switch`; any other type is asserted not to be there.
  unfoldable pub field_value : JsonObject → Bool → Field → Option Value
  field_value obj is_null f =
      let type = tolower f.type in
      if type == b'i'
      then some (int_value (if is_null then 0 else obj.int_member f.name))
      else if type == b'b'
      then some (bool_value (if is_null then false else obj.boolean_member f.name))
      else if type == b's'
      then some (string_value (if is_null then none else obj.string_member f.name))
      else if type == b't'
      then some (time_value (date (obj.string_member f.name)))
      else none

  -- The structure, and the name that the error is about, if there is one; `none` is the failed
  -- assertion.
  unfoldable pub format_from_json :
      Memory → JsonObject → List Field → Option (Memory × Option Bytes)
  format_from_json dest obj [] = some (dest, none)
  format_from_json dest obj (f ∷ fields) = elim (obj.member f.name) [
    | none ↦ format_from_json dest obj fields
    | some is_null ↦ elim (is_refused is_null f) [
      | true ↦ some (dest, some f.name)
      | false ↦
          field_value obj is_null f >>= λ v. format_from_json (store_at dest f.offset v) obj fields
    ]
  ]

-- The types that the code knows.
unfoldable pub is_known : Field → Bool
is_known f =
    let type = tolower f.type in type == b'i' || (type == b'b' || (type == b's' || type == b't'))

-- An object that has null for a field that must not be null.
unfoldable pub refuses : JsonObject → Field → Bool
refuses obj f = elim (obj.member f.name) [
  | none ↦ false
  | some is_null ↦ is_null && not (islower f.type)
]

-- The fields before the first that is refused, and its name.
unfoldable pub accepted : JsonObject → List Field → List Field
accepted obj [] = []
accepted obj (f ∷ fields) = if refuses obj f then [] else f ∷ accepted obj fields

unfoldable pub first_refused : JsonObject → List Field → Option Bytes
first_refused obj [] = none
first_refused obj (f ∷ fields) = if refuses obj f then some f.name else first_refused obj fields

-- A letter, or the same letter in upper case.
abbrev pub IsLetter : ℕ → ℕ → Type 0
IsLetter letter c = (c ≡ letter) ⊎ (c + 32 ≡ letter)

-- The value is that of the member at the type of the field, where `null` tells whether its node is
-- null: for the type `i` (105) the integer, and 0 for null; for `b` (98) the Boolean, and false for
-- null; for `s` (115) the string, and NULL for null; for `t` (116) the date that the string has.
pub record HasValue (date : Option Bytes → Option ℕ) (obj : JsonObject) (null : Bool) (f : Field)
    (v : Value) : Type 0 where
  pub integer : IsLetter 105 f.type → v ≡ int_value (if null then 0 else obj.int_member f.name)
  pub boolean :
      IsLetter 98 f.type → v ≡ bool_value (if null then false else obj.boolean_member f.name)
  pub string :
      IsLetter 115 f.type → v ≡ string_value (if null then none else obj.string_member f.name)
  pub time : IsLetter 116 f.type → v ≡ time_value (date (obj.string_member f.name))

-- What the field has afterwards: what it had if the object has no such member, or else the value
-- of the member at the type of the field.
abbrev pub IsRead : (Option Bytes → Option ℕ) → JsonObject → Memory → Memory → Field → Type 0
IsRead date obj before after f =
    (obj.member f.name ≡ none → after f.offset ≡ before f.offset)
    × ((null : Bool) → obj.member f.name ≡ some null → HasValue date obj null f (after f.offset))

tolower-letter :
    (letter c : ℕ) → 97 ≤ letter → letter ≤ 122 → IsLetter letter c → tolower c ≡ letter
tolower-letter letter c h h' (inl same) = ground arith
tolower-letter letter c h h' (inr upper) = ground arith

field_value-HasValue :
    (date : Option Bytes → Option ℕ) (obj : JsonObject) (null : Bool) (f : Field) (v : Value)
    → field_value date obj null f ≡ some v
    → HasValue date obj null f v
unfolding field_value
field_value-HasValue date obj null f v made = record {
  integer = λ t. ground (arith, tolower-letter 105 f.type (omega arith) (omega arith) t);
  boolean = λ t. ground (arith, tolower-letter 98 f.type (omega arith) (omega arith) t);
  string = λ t. ground (arith, tolower-letter 115 f.type (omega arith) (omega arith) t);
  time = λ t. ground (arith, tolower-letter 116 f.type (omega arith) (omega arith) t);
}

pub accepted_all :
    (obj : JsonObject) (fields : List Field)
    → first_refused obj fields ≡ none
    → accepted obj fields ≡ fields
unfolding accepted first_refused
accepted_all obj [] fine = refl
accepted_all obj (f ∷ fields) fine = ground (arith, accepted_all obj fields)

accepted_apart :
    (o : ℕ) (obj : JsonObject) (fields : List Field)
    → is_apart o fields ≡ true
    → is_apart o (accepted obj fields) ≡ true
unfolding accepted
accepted_apart o obj [] h = refl
accepted_apart o obj (f ∷ fields) h = ground (arith, accepted_apart o obj fields)

module _ (date : Option Bytes → Option ℕ) where
  -- A write to another field does not matter.
  All-IsRead-store_at :
      (obj : JsonObject) (dest after : Memory) (o : ℕ) (v : Value) (fields : List Field)
      → is_apart o fields ≡ true
      → All (IsRead date obj (store_at dest o v) after) fields
      → All (IsRead date obj dest after) fields
  All-IsRead-store_at obj dest after o v [] h all = tt
  All-IsRead-store_at obj dest after o v (f ∷ fields) h ((kept, read), all) = (
    (λ absent. ground (arith, kept absent), read),
    All-IsRead-store_at obj dest after o v fields (ground arith) all,
  )

  pub known_value :
      (obj : JsonObject) (is_null : Bool) (f : Field)
      → is_known f ≡ true
      → (v : Value) × (field_value date obj is_null f ≡ some v)
  unfolding field_value is_known
  known_value obj is_null f known = elim (Option-cases (field_value date obj is_null f)) [
    | inl bad ↦ ground arith
    | inr found ↦ found
  ]

  -- A structure is read from an object whatever the object has: with fields of known types at
  -- different offsets no assertion fails. The error is about the first field that has null but
  -- must not; the fields before it have what the object says, or keep their values where it says
  -- nothing, and nothing else is changed.
  pub from_json-IsRead :
      (fields : List Field) (dest : Memory) (obj : JsonObject)
      → All (λ f. is_known f ≡ true) fields
      → DistinctOffsets fields
      → (after : Memory) × (format_from_json date dest obj fields
          ≡ some (after, first_refused obj fields))
        × All (IsRead date obj dest after) (accepted obj fields)
        × ((o : ℕ) → is_apart o (accepted obj fields) ≡ true → after o ≡ dest o)
  unfolding format_from_json is_refused first_refused accepted refuses
  from_json-IsRead [] dest obj known apart = (dest, refl, tt, λ o h. refl)
  from_json-IsRead (f ∷ fields) dest obj (k, known) (new, apart) =
      elim (Option-cases (obj.member f.name)) [
        | inl absent ↦
            let (after, done, read, same) = from_json-IsRead fields dest obj known apart in
            let r : refuses obj f ≡ false = rw (absent, refuses) in
            (
              after,
              rw (absent, format_from_json) (rw r done),
              rw r (
                (
                  λ _. same f.offset (accepted_apart f.offset obj fields new),
                  λ is_null there. absurd (ground arith),
                ),
                read,
              ),
              rw r (λ o h. same o (ground arith)),
            )
        | inr (is_null, there) ↦ elim (Bool-cases (is_refused is_null f)) [
          | inl refused ↦
              let r : refuses obj f ≡ true = ground arith in
              (dest, rw (there, format_from_json) (rw (refused, r)), rw r tt, λ o h. refl)
          | inr fine ↦
              let (v, made) = known_value obj is_null f k in
              let (after, done, read, same) =
                from_json-IsRead fields (store_at dest f.offset v) obj known apart in
              let r : refuses obj f ≡ false = ground arith in
              let kept : after f.offset ≡ v =
                ground (arith, same f.offset (accepted_apart f.offset obj fields new)) in
              (
                after,
                rw (there, format_from_json) (rw (fine, made, r) done),
                rw r (
                  (
                    λ absent. ground arith,
                    λ null there'.
                        let same : is_null ≡ null = ground arith in
                        subst (λ x. HasValue date obj null f x) (sym kept)
                          (field_value-HasValue date obj null f v
                            (ap (λ n. field_value date obj n f) (sym same) ∙ made)),
                  ),
                  All-IsRead-store_at obj dest after f.offset v (accepted obj fields)
                      (accepted_apart f.offset obj fields new) read,
                ),
                rw r (λ o h. ground (arith, same o)),
              )
        ]
      ]
