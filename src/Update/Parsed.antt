-- ===== src/Update/Parsed.antt =====
-- What an update from JSON is.
use piiptyyt.Prelude.{
  ℕ, ◌≡◌, refl, sym, ap, ◌∙◌, ◌≢◌, inl, inr, true, false, Option, none, some, List, [], ◌∷◌, ◌++◌,
  append-nil, append_assoc, arith, Bytes, codes, All, if◌then◌else◌, Bool-cases, Option-cases,
}
use mathlib.Core.Path.{subst}
use piiptyyt.Prelude.Int.{ℤ, is_negative}
use piiptyyt.Format.Fields.{string_value, Memory, store_at, as_string, DistinctOffsets}
use piiptyyt.Format.Json.{
  JsonObject, first_refused, accepted_all, IsRead, is_known, from_json-IsRead,
}
use piiptyyt.Update.Offset
use piiptyyt.Update.Source.{
  Event, start_element, characters, SourceContext, source_uri_element, source_uri_characters,
  handle, handle_all, separate_source_uri,
}
use piiptyyt.Update.Table.{update_fields, PtUpdate, pt_update_new}
use piiptyyt.Update.Parse.{
  UpdateJson, has_tag, new_source, clean_source, update_user, with_fields, pt_update_new_from_json,
}

-- The text of all that the parser hands over, whatever the elements are.
abbrev pub all_text : List Event → Bytes
all_text [] = []
all_text (start_element name attrs ∷ events) = all_text events
all_text (characters ch ∷ events) = ch ++ all_text events

source_uri_element-text :
    (name : Bytes) (attrs : List (Bytes × Bytes)) (dat : SourceContext)
    → (source_uri_element name attrs dat).text ≡ dat.text
unfolding source_uri_element
source_uri_element-text name attrs dat = ground arith

handle_all-all_text :
    (events : List Event) (dat : SourceContext)
    → (handle_all events dat).text ≡ dat.text ++ all_text events
unfolding handle_all handle source_uri_characters
handle_all-all_text [] dat = sym (append-nil dat.text)
handle_all-all_text (start_element name attrs ∷ events) dat =
    handle_all-all_text events (source_uri_element name attrs dat)
    ∙ ap (λ t. t ++ all_text events) (source_uri_element-text name attrs dat)
handle_all-all_text (characters ch ∷ events) dat =
    handle_all-all_text events (record dat { text = dat.text ++ ch })
    ∙ append_assoc dat.text ch (all_text events)

-- The source as it is kept: the text of a source with markup, or else the source.
abbrev pub clean : (Bytes → List Event × ℤ) → Bytes → Bytes
clean sax source = if has_tag source then all_text (sax source).0 else source

new_source-clean :
    (sax : Bytes → List Event × ℤ) (source : Bytes)
    → is_negative (sax source).1 ≡ false
    → new_source sax (some source) ≡ some (clean sax source)
unfolding new_source separate_source_uri
new_source-clean sax source parsed = elim (Bool-cases (has_tag source)) [
  | inl marked ↦
      rw marked (
        rw parsed (ap some (handle_all-all_text (sax source).0 (record { uri = none; text = [] }))))
  | inr plain ↦ rw plain refl
]

table-DistinctOffsets : DistinctOffsets update_fields
table-DistinctOffsets = (refl, (refl, (refl, (refl, (refl, (refl, (refl, (refl, (refl, tt)))))))))

table_known : All (λ f. is_known f ≡ true) update_fields
unfolding is_known
table_known = (refl, (refl, (refl, (refl, (refl, (refl, (refl, (refl, (refl, tt)))))))))

-- The user of an object and the state of the cache after it. There is none without a cache, where
-- the member `user` is null, and where it is no object; otherwise the cache takes the object.
pub data HasUser {W : Type 0} (get_user : Option (JsonObject → W → Option (Option ℕ × W)))
    (obj : UpdateJson) (w : W) : Option ℕ → W → Type 0 where
  without_cache : get_user ≡ none → HasUser get_user obj w none w
  null_member : obj.members.member (codes "user") ≡ some true → HasUser get_user obj w none w
  no_object : obj.user ≡ none → HasUser get_user obj w none w
  taken :
      (get : JsonObject → W → Option (Option ℕ × W)) (json : JsonObject) (user : Option ℕ) (w' : W)
      → get_user ≡ some get
      → obj.members.member (codes "user") ≢ some true
      → obj.user ≡ some json
      → get json w ≡ some (user, w')
      → HasUser get_user obj w user w'

HasUser-update_user :
    {W : Type 0} (get_user : Option (JsonObject → W → Option (Option ℕ × W))) (obj : UpdateJson)
    (w w' : W) (user : Option ℕ)
    → HasUser get_user obj w user w'
    → update_user get_user obj w ≡ some (user, w')
unfolding update_user
HasUser-update_user get_user obj w _ _ (without_cache e) = rw (e, update_user) refl
HasUser-update_user get_user obj w _ _ (null_member e) = elim (Option-cases get_user) [
  | inl bad ↦ rw (bad, update_user) refl
  | inr (get, there) ↦ rw (there, update_user) (rw e refl)
]
HasUser-update_user get_user obj w _ _ (no_object e) = elim (Option-cases get_user) [
  | inl bad ↦ rw (bad, update_user) refl
  | inr (get, there) ↦
      rw (there, update_user)
        (elim (Option-cases (obj.members.member (codes "user"))) [
          | inl absent ↦ rw absent (rw e refl)
          | inr (null, found) ↦ elim (Bool-cases null) [
            | inl yes_null ↦ rw found (rw yes_null refl)
            | inr not_null ↦ rw found (rw not_null (rw e refl))
          ]
        ])
]
HasUser-update_user get_user obj w _ _ (taken get json user w' there not_null has got) =
    rw (there, update_user)
      (elim (Option-cases (obj.members.member (codes "user"))) [
        | inl absent ↦ rw absent (rw has got)
        | inr (null, found) ↦ elim (Bool-cases null) [
          | inl yes_null ↦ absurd (not_null (found ∙ ap some yes_null))
          | inr is_there ↦ rw found (rw is_there (rw has got))
        ]
      ])

module _ (sax : Bytes → List Event × ℤ) {W : Type 0} (date : Option Bytes → Option ℕ)
    (get_user : Option (JsonObject → W → Option (Option ℕ × W))) where
  -- An object without a null that is refused, with a source that the parser accepts, and with a
  -- user that the cache takes or with none, gives an update: each member has the value of its type
  -- that the object has, but of a source with markup only the text is kept, and the user is the one
  -- that the cache gives, or none without a cache, for a null and for no object.
  pub new_from_json-IsRead :
      (obj : UpdateJson) (w w' : W) (user : Option ℕ) (source : Bytes)
      → first_refused obj.members update_fields ≡ none
      → obj.members.member (codes "source") ≡ some false
      → obj.members.string_member (codes "source") ≡ some source
      → is_negative (sax source).1 ≡ false
      → HasUser get_user obj w user w'
      → (u : PtUpdate) × (read : Memory) × (pt_update_new_from_json sax date get_user obj w
          ≡ some (u, w'))
        × All (IsRead date obj.members pt_update_new.fields read) update_fields
        × ((o : ℕ) → o ≢ Offset.source → u.fields o ≡ read o)
        × (u.fields Offset.source ≡ string_value (some (clean sax source)))
        × (u.user ≡ user)
  unfolding pt_update_new_from_json with_fields clean_source as_string
  new_from_json-IsRead obj w w' user source fine there text parsed has_user =
      let got = HasUser-update_user get_user obj w w' user has_user in
      let (m, done, read, _) =
        from_json-IsRead date update_fields pt_update_new.fields obj.members table_known
          table-DistinctOffsets in
      let all = accepted_all obj.members update_fields fine in
      let read' = subst (All (IsRead date obj.members pt_update_new.fields m)) all read in
      let (_, (_, (_, (_, (_, (_, (at_source, _))))))) = read' in
      let e : m Offset.source ≡ string_value (some source) =
        (at_source.1 false there).string (inl refl) ∙ ap string_value text in
      let u : PtUpdate = record {
        fields = store_at m Offset.source (string_value (some (clean sax source)));
        user = user;
        markup_cache = pt_update_new.markup_cache;
      } in
      (
        u,
        m,
        rw done (rw fine (rw got (rw e (rw (new_source-clean sax source parsed))))),
        read',
        λ o other. ground arith,
        refl,
        refl,
      )
