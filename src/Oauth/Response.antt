-- ===== src/Oauth/Response.antt =====
-- `oa_parse_response` of oauth.c: the fields of a response by name.
use piiptyyt.Prelude.{
  ℕ, zero, suc, ◌-◌, ◌≤◌, ◌≡◌, refl, sym, ap, ◌∙◌, inl, inr, Bool, true, false, Option, none, some,
  List, [], ◌∷◌, map, arith, Bytes, All, bytes_eq, bytes_eq_iff, length, ◌==◌, if◌then◌else◌,
  Bool-cases, Option-cases,
}

-- What stands before and behind the first `=`.
unfoldable pub split_eq : Bytes → Option (Bytes × Bytes)
split_eq [] = none
split_eq (c ∷ s) =
    let rest = split_eq s in
    if c == b'=' then some ([], s) else elim rest [ none ↦ none | some (k, v) ↦ some (c ∷ k, v) ]

-- The loop over the fields, which stops at the first that has the name.
unfoldable pub assign : List Bytes → Bytes → Bytes → List (Option Bytes) → List (Option Bytes)
assign [] name value output = output
assign (f ∷ fields) name value [] = []
assign (f ∷ fields) name value (o ∷ output) =
    let rest = o ∷ assign fields name value output in
    if bytes_eq f name then some value ∷ output else rest

-- One piece; one without `=` only warns.
unfoldable pub parse_piece : List Bytes → Bytes → List (Option Bytes) → List (Option Bytes)
parse_piece fields piece output = elim (split_eq piece) [
  | none ↦ output
  | some (name, value) ↦ assign fields name value output
]

unfoldable pub parse_pieces : List Bytes → List Bytes → List (Option Bytes) → List (Option Bytes)
parse_pieces fields [] output = output
parse_pieces fields (piece ∷ rest) output =
    parse_pieces fields rest (parse_piece fields piece output)

abbrev pub max_fields : ℕ
max_fields = 64

-- `num_fields` NULL pointers, less the terminator.
unfoldable pub blank : List Bytes → List (Option Bytes)
blank [] = []
blank (f ∷ fields) = none ∷ blank fields

-- The loop over the arguments: at most 63 names are read, the 64th place is given up again.
unfoldable pub take_fields : ℕ → List Bytes → List Bytes
take_fields zero fields = []
take_fields (suc n) [] = []
take_fields (suc n) (f ∷ fields) = f ∷ take_fields n fields

-- `strsplit` stands for `g_strsplit` by `&`; the names come as a list that NULL ends.
unfoldable pub oa_parse_response : (Bytes → List Bytes) → Bytes → List Bytes → List (Option Bytes)
oa_parse_response strsplit body names =
    let fields = take_fields (max_fields - 1) names in
    parse_pieces fields (strsplit body) (blank fields)

-- What stands behind the name and a `=` (61), where the piece begins with these.
unfoldable pub after_name : Bytes → Bytes → Option Bytes
after_name [] [] = none
after_name [] (d ∷ piece) = if d == 61 then some piece else none
after_name (c ∷ name) [] = none
after_name (c ∷ name) (d ∷ piece) =
    let rest = after_name name piece in if c == d then rest else none

-- The value that the last piece of the form `name=value` has.
unfoldable pub last_value : Bytes → List Bytes → Option Bytes
last_value name [] = none
last_value name (piece ∷ rest) = elim (last_value name rest) [
  | some v ↦ some v
  | none ↦ after_name name piece
]

-- The name has no `=`.
abbrev pub is_plain : Bytes → Bool
is_plain [] = true
is_plain (c ∷ name) = if c == 61 then false else is_plain name

abbrev pub AllPlain : List Bytes → Type 0
AllPlain names = All (λ name. is_plain name ≡ true) names

-- The first `=` is the one behind the name.
after_name-none : (name piece : Bytes) → split_eq piece ≡ none → after_name name piece ≡ none
unfolding split_eq after_name
after_name-none [] [] h = refl
after_name-none [] (d ∷ piece) h = ground arith
after_name-none (c ∷ name) [] h = refl
after_name-none (c ∷ name) (d ∷ piece) h = elim (Option-cases (split_eq piece)) [
  | inl bad ↦ ground (arith, after_name-none name piece bad)
  | inr (r, found) ↦ ground arith
]

after_name-some :
    (name piece k v : Bytes)
    → is_plain name ≡ true
    → split_eq piece ≡ some (k, v)
    → after_name name piece ≡ (if bytes_eq name k then some v else none)
unfolding split_eq after_name
after_name-some name [] k v plain h = ground arith
after_name-some [] (d ∷ piece) k v plain h = elim (Bool-cases (d == 61)) [
  | inl eq ↦ ground arith
  | inr other ↦ elim (Option-cases (split_eq piece)) [
    | inl bad ↦ ground arith
    | inr ((k', v'), found) ↦ ground arith
  ]
]
after_name-some (c ∷ name) (d ∷ piece) k v plain h = elim (Bool-cases (d == 61)) [
  | inl eq ↦ ground arith
  | inr other ↦ elim (Option-cases (split_eq piece)) [
    | inl bad ↦ ground arith
    | inr ((k', v'), found) ↦ ground (arith, after_name-some name piece k' v' (ground arith) found)
  ]
]

-- No name stands twice.
abbrev pub has_name : Bytes → List Bytes → Bool
has_name name [] = false
has_name name (f ∷ fields) = if bytes_eq f name then true else has_name name fields

abbrev pub DistinctNames : List Bytes → Type 0
DistinctNames [] = Unit
DistinctNames (f ∷ fields) = (has_name f fields ≡ false) × DistinctNames fields

-- The values that were there, but for those that a later piece has.
abbrev overlay : List Bytes → List Bytes → List (Option Bytes) → List (Option Bytes)
overlay [] pieces output = []
overlay (f ∷ fields) pieces [] = []
overlay (f ∷ fields) pieces (o ∷ output) =
    (elim (last_value f pieces) [ none ↦ o | some v ↦ some v ]) ∷ overlay fields pieces output

overlay_none :
    (fields : List Bytes) (output : List (Option Bytes))
    → length output ≡ length fields
    → overlay fields [] output ≡ output
unfolding last_value
overlay_none [] [] h = refl
overlay_none [] (o ∷ output) h = ground arith
overlay_none (f ∷ fields) [] h = ground arith
overlay_none (f ∷ fields) (o ∷ output) h = ground (arith, overlay_none fields output)

-- A piece without `=` counts for nothing.
overlay_unnamed :
    (fields : List Bytes) (piece : Bytes) (rest : List Bytes) (output : List (Option Bytes))
    → split_eq piece ≡ none
    → overlay fields (piece ∷ rest) output ≡ overlay fields rest output
unfolding last_value
overlay_unnamed [] piece rest output h = refl
overlay_unnamed (f ∷ fields) piece rest [] h = refl
overlay_unnamed (f ∷ fields) piece rest (o ∷ output) h =
    ground (arith, after_name-none f piece h, overlay_unnamed fields piece rest output h)

-- Neither does one with a name that is not asked for.
overlay_other :
    (fields : List Bytes) (piece k v : Bytes) (rest : List Bytes) (output : List (Option Bytes))
    → AllPlain fields
    → split_eq piece ≡ some (k, v)
    → has_name k fields ≡ false
    → overlay fields (piece ∷ rest) output ≡ overlay fields rest output
unfolding last_value
overlay_other [] piece k v rest output p h new = refl
overlay_other (f ∷ fields) piece k v rest [] p h new = refl
overlay_other (f ∷ fields) piece k v rest (o ∷ output) (q, p) h new =
    ground (arith, after_name-some f piece k v q h, overlay_other fields piece k v rest output p h)

overlay-assign :
    (fields : List Bytes) (piece k v : Bytes) (rest : List Bytes) (output : List (Option Bytes))
    → DistinctNames fields
    → AllPlain fields
    → split_eq piece ≡ some (k, v)
    → overlay fields rest (assign fields k v output) ≡ overlay fields (piece ∷ rest) output
unfolding last_value assign
overlay-assign [] piece k v rest output d p h = refl
overlay-assign (f ∷ fields) piece k v rest [] d p h = refl
overlay-assign (f ∷ fields) piece k v rest (o ∷ output) (new, d) (q, p) h =
    elim (Bool-cases (bytes_eq f k)) [
      | inl here ↦ ground (
        arith,
        after_name-some f piece k v q h,
        overlay_other fields piece k v rest output p h
            (sym (ap (λ x. has_name x fields) ((bytes_eq_iff f k).0 here)) ∙ new),
      )
      | inr there ↦ ground (
        arith,
        after_name-some f piece k v q h,
        overlay-assign fields piece k v rest output d p h,
      )
    ]

overlay-parse_piece :
    (fields : List Bytes) (piece : Bytes) (rest : List Bytes) (output : List (Option Bytes))
    → DistinctNames fields
    → AllPlain fields
    → overlay fields rest (parse_piece fields piece output) ≡ overlay fields (piece ∷ rest) output
unfolding parse_piece
overlay-parse_piece fields piece rest output d p = elim (Option-cases (split_eq piece)) [
  | inl unnamed ↦ ground (arith, overlay_unnamed fields piece rest output unnamed)
  | inr ((k, v), named) ↦ ground (arith, overlay-assign fields piece k v rest output d p named)
]

length-assign :
    (fields : List Bytes) (k v : Bytes) (output : List (Option Bytes))
    → length output ≡ length fields
    → length (assign fields k v output) ≡ length fields
unfolding assign
length-assign [] k v output h = h
length-assign (f ∷ fields) k v [] h = h
length-assign (f ∷ fields) k v (o ∷ output) h = ground (arith, length-assign fields k v output)

length-parse_piece :
    (fields : List Bytes) (piece : Bytes) (output : List (Option Bytes))
    → length output ≡ length fields
    → length (parse_piece fields piece output) ≡ length fields
unfolding parse_piece
length-parse_piece fields piece output h = elim (Option-cases (split_eq piece)) [
  | inl unnamed ↦ ground arith
  | inr ((k, v), named) ↦ ground (arith, length-assign fields k v output h)
]

parse_pieces-overlay :
    (fields pieces : List Bytes) (output : List (Option Bytes))
    → DistinctNames fields
    → AllPlain fields
    → length output ≡ length fields
    → parse_pieces fields pieces output ≡ overlay fields pieces output
unfolding parse_pieces
parse_pieces-overlay fields [] output d p h = sym (overlay_none fields output h)
parse_pieces-overlay fields (piece ∷ rest) output d p h =
    parse_pieces-overlay fields rest (parse_piece fields piece output) d p
      (length-parse_piece fields piece output h)
    ∙ overlay-parse_piece fields piece rest output d p

length-blank : (fields : List Bytes) → length (blank fields) ≡ length fields
unfolding blank
length-blank [] = refl
length-blank (f ∷ fields) = ground (arith, length-blank fields)

overlay-blank :
    (fields pieces : List Bytes)
    → overlay fields pieces (blank fields) ≡ map (λ f. last_value f pieces) fields
unfolding blank
overlay-blank [] pieces = refl
overlay-blank (f ∷ fields) pieces = elim (Option-cases (last_value f pieces)) [
  | inl absent ↦ ground (arith, overlay-blank fields pieces)
  | inr (v, found) ↦ ground (arith, overlay-blank fields pieces)
]

take_fields_all : (n : ℕ) (fields : List Bytes) → length fields ≤ n → take_fields n fields ≡ fields
unfolding take_fields
take_fields_all zero [] h = refl
take_fields_all zero (f ∷ fields) h = ground arith
take_fields_all (suc n) [] h = refl
take_fields_all (suc n) (f ∷ fields) h = ground (arith, take_fields_all n fields)

-- For at most 63 names that are all different and have no `=`, the result has for each name, in
-- their order, what stands behind `name=` in the last piece that begins so, or NULL if none does.
pub parse_response-last_value :
    (strsplit : Bytes → List Bytes) (body : Bytes) (names : List Bytes)
    → DistinctNames names
    → AllPlain names
    → length names ≤ 63
    → oa_parse_response strsplit body names ≡ map (λ name. last_value name (strsplit body)) names
unfolding oa_parse_response
parse_response-last_value strsplit body names d p few = rw (take_fields_all 63 names few) (
    parse_pieces-overlay names (strsplit body) (blank names) d p (length-blank names)
    ∙ overlay-blank names (strsplit body))
