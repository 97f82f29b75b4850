-- ===== src/Main/Fetched.antt =====
-- What `fetch_more_updates` makes of the answer of the server.
use mathlib.Core.Path.{subst}
use piiptyyt.Format.Fields.{int_value, Memory, as_int}
use piiptyyt.Format.Json.{JsonObject, IsRead, first_refused}
use piiptyyt.Glib.HashTable.{HashTable}
use piiptyyt.Login.Flow.{soup_status_ok}
use piiptyyt.Login.Messages.{make_resource_request_msg}
use piiptyyt.Main.Fetch.{status_uri, pdata, show_updates, read_updates, fetch_more_updates}
use piiptyyt.Model.Ordered.{has_id, IsOrdered, IsSort, IsSearch}
use piiptyyt.Model.Rows.{row_ids, IsShown, IsPermuting, IsInsertion}
use piiptyyt.Model.Shown.{add_updates-IsShown}
use piiptyyt.Model.Updates.{Update, UpdateModel}
use piiptyyt.Oauth.Request.{Environment}
use piiptyyt.Prelude.Int.{ℤ, is_negative}
use piiptyyt.PtCache.Nodes.{mem}
use piiptyyt.StateFile.State.{PiiptyytState}
use piiptyyt.Update.Offset
use piiptyyt.Update.Parse.{UpdateJson, pt_update_new_from_json, parse_elements, parse_update_array}
use piiptyyt.Update.Parsed.{HasUser, new_from_json-IsRead}
use piiptyyt.Update.Source.{Event}
use piiptyyt.Update.Table.{update_fields, PtUpdate, pt_update_new}
use piiptyyt.Prelude.{
  ℕ, ◌+◌, ◌≡◌, refl, sym, ap, ◌∙◌, inl, inr, true, false, ◌||◌, Option, none, some, List, [], ◌∷◌,
  map, arith, Bytes, codes, All, ◌==◌, if◌then◌else◌, Bool-cases,
}

-- The ids that the elements give.
abbrev pub json_ids : List UpdateJson → List ℕ
json_ids contents = map (λ (obj : UpdateJson). obj.members.int_member (codes "id")) contents

-- The ids that an answer brings: those of its elements, if it is an array with status 200.
abbrev pub answer_ids : ℕ → Option (List UpdateJson) → List ℕ
answer_ids status none = []
answer_ids status (some contents) = if status == soup_status_ok then json_ids contents else []

answer_ids_refused :
    (status : ℕ) (answer : Option (List UpdateJson))
    → (status == soup_status_ok) ≡ false
    → answer_ids status answer ≡ []
answer_ids_refused status none h = refl
answer_ids_refused status (some contents) h = rw h refl

has_id-row_ids : (x : ℕ) (l : List Update) → has_id x l ≡ mem x (row_ids l)
has_id-row_ids x [] = refl
has_id-row_ids x (u ∷ l) = ground (arith, has_id-row_ids x l)

module _ (sax : Bytes → List Event × ℤ) {W : Type 0} (date : Option Bytes → Option ℕ)
    (get_user : Option (JsonObject → W → Option (Option ℕ × W))) where
  -- An element as the service documents it: with an id and a source that the parser accepts, and no
  -- null where none may be.
  pub record IsFine (obj : UpdateJson) : Type 0 where
    pub accepted : first_refused obj.members update_fields ≡ none
    pub has_id : obj.members.member (codes "id") ≡ some false
    pub has_source : obj.members.member (codes "source") ≡ some false
    pub source :
        (s : Bytes) × (obj.members.string_member (codes "source") ≡ some s)
        × (is_negative (sax s).1 ≡ false)

  -- All elements are so, and one after the other the cache takes their users, which leads it from
  -- the first state to the last.
  pub data AllFine : List UpdateJson → W → W → Type 0 where
    no_more : (w : W) → AllFine [] w w
    one_more :
        (obj : UpdateJson) {contents : List UpdateJson} {w w' w'' : W} (user : Option ℕ)
        → IsFine obj
        → HasUser get_user obj w user w'
        → AllFine contents w' w''
        → AllFine (obj ∷ contents) w w''

  -- The answer is refused, is no array, or is an array of such elements.
  pub data IsFineAnswer (status : ℕ) : Option (List UpdateJson) → W → W → Type 0 where
    refused :
        (answer : Option (List UpdateJson)) (w : W)
        → (status == soup_status_ok) ≡ false
        → IsFineAnswer status answer w w
    no_array : (w : W) → IsFineAnswer status none w w
    an_array :
        (contents : List UpdateJson) (w w' : W)
        → (status == soup_status_ok) ≡ true
        → AllFine contents w w'
        → IsFineAnswer status (some contents) w w'

  read_id :
      (obj : UpdateJson) (before after : Memory)
      → obj.members.member (codes "id") ≡ some false
      → All (IsRead date obj.members before after) update_fields
      → after Offset.id ≡ int_value (obj.members.int_member (codes "id"))
  read_id obj before after there (read, _) = (read.1 false there).integer (inr refl)

  -- One element.
  update_of_fine :
      (obj : UpdateJson) (w w' : W) (user : Option ℕ)
      → IsFine obj
      → HasUser get_user obj w user w'
      → (u : PtUpdate) × (pt_update_new_from_json sax date get_user obj w ≡ some (u, w'))
        × (as_int (u.fields Offset.id) ≡ some (obj.members.int_member (codes "id")))
  unfolding as_int
  update_of_fine obj w w' user fine has_user =
      let (s, text, parsed) = fine.source in
      let (u, read, done, all, same, _, _) =
        new_from_json-IsRead sax date get_user obj w w' user s fine.accepted fine.has_source text
          parsed has_user in
      let id : u.fields Offset.id ≡ int_value (obj.members.int_member (codes "id")) =
        same Offset.id (λ e. omega (arith, e))
        ∙ read_id obj pt_update_new.fields read fine.has_id all in
      (u, done, ap as_int id)

  -- All elements, in their order.
  parse_elements-pdata :
      (address : ℕ → ℕ) (contents : List UpdateJson) (i : ℕ) (w w' : W)
      → AllFine contents w w'
      → (updates : List PtUpdate) × (parsed : List Update) × (parse_elements sax date get_user
            contents w
          ≡ some (updates, w'))
        × (pdata address i updates ≡ some parsed)
        × (row_ids parsed ≡ json_ids contents)
  unfolding parse_elements pdata
  parse_elements-pdata address _ i _ _ (no_more w) = ([], [], refl, refl, refl)
  parse_elements-pdata address _ i w w''
        (one_more obj {contents = contents} {w' = w₁} user one has_user fine) =
      let (u, made, id) = update_of_fine obj w w₁ user one has_user in
      let (updates, parsed, rest, array, ids) =
        parse_elements-pdata address contents (i + 1) w₁ w'' fine in
      (
        u ∷ updates,
        record { id = obj.members.int_member (codes "id"); object = address i } ∷ parsed,
        rw made (rw rest refl),
        rw id (rw array refl),
        ap (λ l. obj.members.int_member (codes "id") ∷ l) ids,
      )

-- The model is in order, shows its ids, and has the old and the new ones.
pub record IsFetched (new : List ℕ) (model m : UpdateModel) : Type 0 where
  pub ordered : IsOrdered m
  pub shown : IsShown m
  pub ids : (x : ℕ) → mem x m.current_ids ≡ (mem x model.current_ids || mem x new)

module _ (address : ℕ → ℕ) (qsort_updates : List Update → List Update) (qsort_ids : List ℕ → List ℕ)
    (bsearch : ℕ → List ℕ → Option ℕ) (insert_row : ℕ → Update → List Update → List Update)
    (insertion : IsInsertion insert_row) (search : IsSearch bsearch)
    (sort_law : IsSort qsort_updates qsort_ids) (moves : IsPermuting qsort_updates qsort_ids) where
  unchanged-IsFetched :
      (model : UpdateModel) → IsOrdered model → IsShown model → IsFetched [] model model
  unchanged-IsFetched model o shown = record { ordered = o; shown = shown; ids = λ x. ground arith }

  module _ (sax : Bytes → List Event × ℤ) {W : Type 0} (date : Option Bytes → Option ℕ)
      (get_user : Option (JsonObject → W → Option (Option ℕ × W)))
      (load : Bytes → Option (List UpdateJson)) where
    parse_update_array-none :
        (text : Bytes) (w : W)
        → load text ≡ none
        → parse_update_array sax date get_user load text w ≡ some (none, w)
    unfolding parse_update_array
    parse_update_array-none text w bad = rw (bad, parse_update_array) refl

    parse_update_array-some :
        (text : Bytes) (w w' : W) (contents : List UpdateJson) (updates : List PtUpdate)
        → load text ≡ some contents
        → parse_elements sax date get_user contents w ≡ some (updates, w')
        → parse_update_array sax date get_user load text w ≡ some (some updates, w')
    unfolding parse_update_array
    parse_update_array-some text w w' contents updates e made =
        rw (e, parse_update_array) (rw made refl)

    read_updates-IsFetched :
        (model : UpdateModel) (w w' : W) (status : ℕ) (text : Bytes)
        (answer : Option (List UpdateJson))
        → IsOrdered model
        → IsShown model
        → load text ≡ answer
        → IsFineAnswer sax date get_user status answer w w'
        → (m : UpdateModel) × (read_updates address qsort_updates qsort_ids bsearch insert_row sax
              date get_user load model w
              (status, text)
            ≡ some (m, w'))
          × IsFetched (answer_ids status answer) model m
    unfolding read_updates show_updates
    read_updates-IsFetched model w _ status text answer o shown e (refused _ _ bad) = (
      model,
      rw bad refl,
      subst (λ l. IsFetched l model model) (sym (answer_ids_refused status answer bad))
          (unchanged-IsFetched model o shown),
    )
    read_updates-IsFetched model w _ status text _ o shown e (no_array _) =
        elim (Bool-cases (status == soup_status_ok)) [
          | inl ok ↦ (
            model,
            rw (ok, parse_update_array-none text w e) refl,
            unchanged-IsFetched model o shown,
          )
          | inr bad ↦ (model, rw bad refl, unchanged-IsFetched model o shown)
        ]
    read_updates-IsFetched model w w' status text _ o shown e (an_array contents _ _ ok fine) =
        let (updates, parsed, made, array, ids) =
          parse_elements-pdata sax date get_user address contents 0 w w' fine in
        let (m, done, added, shown') =
          add_updates-IsShown bsearch qsort_updates qsort_ids insert_row insertion search sort_law
            moves model parsed o shown in
        (
          m,
          rw (ok, parse_update_array-some text w w' contents updates e made, array, done) refl,
          rw ok (record {
            ordered = added.ordered;
            shown = shown';
            ids = λ x. ground (arith, added.all_ids x, has_id-row_ids x parsed, ap (mem x) ids);
          }),
        )

    module _ (H : HashTable Bytes (Option Bytes)) (digest : Option Bytes → Bytes → Option Bytes)
        (sort : List Bytes → List Bytes) (e e' : Environment)
        (consumer_key consumer_secret : Bytes) where
      open H use {Table}

      -- A fetch whose request was made, from a model that is in order and shows its ids, with an
      -- answer that has another status than 200, is no array, or is one whose elements are all as
      -- the service documents them, with users that the cache takes one after the other: nothing
      -- goes wrong, the cache is left in the state that taking these users leads to, and the model
      -- is in order again and shows just the ids that it had and those of the answer, of which
      -- there are none if the status is not 200 or the text is no array.
      pub fetch_more_updates-IsFetched :
          (send : Table → ℕ × Bytes) (state : PiiptyytState) (w w' : W) (model : UpdateModel)
          (query : Table) (status : ℕ) (text : Bytes)
          → IsOrdered model
          → IsShown model
          → make_resource_request_msg H digest sort e e' consumer_key consumer_secret status_uri
              state.auth_token state.auth_secret []
            ≡ some (some query)
          → send query ≡ (status, text)
          → IsFineAnswer sax date get_user status (load text) w w'
          → (m : UpdateModel) × (fetch_more_updates address qsort_updates qsort_ids bsearch
                insert_row sax date get_user load H digest sort e e' consumer_key consumer_secret
                send state w model
              ≡ some (m, w'))
            × IsFetched (answer_ids status (load text)) model m
      unfolding fetch_more_updates
      fetch_more_updates-IsFetched send state w w' model query status text o shown made answer
            fine =
          let (m, done, fetched) =
            read_updates-IsFetched model w w' status text (load text) o shown refl fine in
          (m, rw made (rw answer done), fetched)
