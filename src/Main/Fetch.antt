-- ===== src/Main/Fetch.antt =====
-- `fetch_more_updates` of main.c. `send` is a session with the server: the status and the body of
-- its answer to a query.
use piiptyyt.Format.Fields.{as_int}
use piiptyyt.Format.Json.{JsonObject}
use piiptyyt.Glib.HashTable.{HashTable}
use piiptyyt.Login.Flow.{soup_status_ok}
use piiptyyt.Login.Messages.{make_resource_request_msg}
use piiptyyt.Model.Updates.{Update, UpdateModel, add_updates_to_model}
use piiptyyt.Oauth.Request.{Environment}
use piiptyyt.Prelude.Int.{ℤ}
use piiptyyt.StateFile.State.{PiiptyytState}
use piiptyyt.Update.Offset
use piiptyyt.Update.Parse.{UpdateJson, parse_update_array}
use piiptyyt.Update.Source.{Event}
use piiptyyt.Update.Table.{PtUpdate}
use piiptyyt.Prelude.{
  ℕ, ◌+◌, Option, none, some, List, [], ◌∷◌, Bytes, codes, ◌==◌, if◌then◌else◌, ◌>>=◌,
}

abbrev pub status_uri : Bytes
status_uri = codes "https://api.twitter.com/1/statuses/home_timeline.json"

-- The array of the updates as model.c reads it, with the ids; the object of the element `i` is
-- at the address that `g_object_new` gave it.
unfoldable pub pdata : (ℕ → ℕ) → ℕ → List PtUpdate → Option (List Update)
pdata address i [] = some []
pdata address i (u ∷ updates) = do
  id ← as_int (u.fields Offset.id)
  rest ← pdata address (i + 1) updates
  some (record { id = id; object = address i } ∷ rest)

module _ (address : ℕ → ℕ) (qsort_updates : List Update → List Update) (qsort_ids : List ℕ → List ℕ)
    (bsearch : ℕ → List ℕ → Option ℕ) (insert_row : ℕ → Update → List Update → List Update) where
  -- Updates that could not be parsed are reported, and the model stays.
  unfoldable pub show_updates :
      {W : Type 0} → UpdateModel → Option (List PtUpdate) × W → Option (UpdateModel × W)
  show_updates model (none, w) = some (model, w)
  show_updates model (some updates, w) = do
    parsed ← pdata address 0 updates
    m ← add_updates_to_model qsort_updates qsort_ids bsearch insert_row model parsed
    some (m, w)

  module _ (sax : Bytes → List Event × ℤ) {W : Type 0} (date : Option Bytes → Option ℕ)
      (get_user : Option (JsonObject → W → Option (Option ℕ × W)))
      (load : Bytes → Option (List UpdateJson)) where
    -- The answer with its status.
    unfoldable pub read_updates : UpdateModel → W → ℕ × Bytes → Option (UpdateModel × W)
    read_updates model w (status, text) =
        if status == soup_status_ok
        then (parse_update_array sax date get_user load text w >>= show_updates model)
        else some (model, w)

    module _ (H : HashTable Bytes (Option Bytes)) (digest : Option Bytes → Bytes → Option Bytes)
        (sort : List Bytes → List Bytes) (e e' : Environment)
        (consumer_key consumer_secret : Bytes) where
      open H use {Table}

      -- A message that is NULL is a bad access.
      unfoldable pub fetch_more_updates :
          (Table → ℕ × Bytes) → PiiptyytState → W → UpdateModel → Option (UpdateModel × W)
      fetch_more_updates send state w model = do
        msg ←
            make_resource_request_msg H digest sort e e' consumer_key consumer_secret status_uri
              state.auth_token state.auth_secret []
        query ← msg
        read_updates model w (send query)
