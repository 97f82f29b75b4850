-- ===== src/Format/Kept.antt =====
-- What every field that is read from an object keeps, the whole of `format_from_json` keeps.
use piiptyyt.Prelude.{
  ℕ, ◌≡◌, refl, inl, inr, Bool, true, false, Option, none, some, List, [], ◌∷◌, Bytes, All,
  Bool-cases, Option-cases,
}
use piiptyyt.Format.Fields.{Value, Field, Memory, store_at}
use piiptyyt.Format.Json.{
  JsonObject, format_from_json, field_value, is_known, is_refused, known_value,
}

module _ (date : Option Bytes → Option ℕ) (obj : JsonObject) (P : Memory → Type 0) where
  -- A value that is read for the field keeps the predicate.
  abbrev pub Keeps : Field → Type 0
  Keeps f =
      (m : Memory) (is_null : Bool) (v : Value)
      → is_refused is_null f ≡ false
      → field_value date obj is_null f ≡ some v
      → P m
      → P (store_at m f.offset v)

  pub from_json_kept :
      (fields : List Field) (m : Memory)
      → All (λ f. is_known f ≡ true) fields
      → All Keeps fields
      → P m
      → (after : Memory) × (error : Option Bytes) × (format_from_json date m obj fields
          ≡ some (after, error))
        × P after
  unfolding format_from_json
  from_json_kept [] m known keeps holds = (m, none, refl, holds)
  from_json_kept (f ∷ fields) m (k, known) (keep, keeps) holds =
      elim (Option-cases (obj.member f.name)) [
        | inl absent ↦
            let (after, error, done, holds') = from_json_kept fields m known keeps holds in
            (after, error, rw (absent, format_from_json) done, holds')
        | inr (is_null, there) ↦ elim (Bool-cases (is_refused is_null f)) [
          | inl refused ↦ (m, some f.name, rw (there, format_from_json) (rw refused), holds)
          | inr fine ↦
              let (v, made) = known_value date obj is_null f k in
              let (after, error, done, holds') =
                from_json_kept fields (store_at m f.offset v) known keeps
                  (keep m is_null v fine made holds) in
              (after, error, rw (there, format_from_json) (rw (fine, made) done), holds')
        ]
      ]

pub All-Keeps-both :
    (date : Option Bytes → Option ℕ) (obj : JsonObject) (P Q : Memory → Type 0)
    (fields : List Field)
    → All (Keeps date obj P) fields
    → All (Keeps date obj Q) fields
    → All (Keeps date obj (λ m. P m × Q m)) fields
All-Keeps-both date obj P Q [] ps qs = tt
All-Keeps-both date obj P Q (f ∷ fields) (p, ps) (q, qs) = (
  λ m is_null v fine made (hp, hq). (p m is_null v fine made hp, q m is_null v fine made hq),
  All-Keeps-both date obj P Q fields ps qs,
)
