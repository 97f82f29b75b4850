-- ===== src/Main/Start.antt =====
-- `main` of main.c: the state is read, a login is made where there is no token, the first updates
-- are fetched, and the state is written when the window is closed. `none` is an abort.
use piiptyyt.Format.Json.{JsonObject}
use piiptyyt.Glib.HashTable.{HashTable}
use piiptyyt.Login.Flow.{Account, oauth_login}
use piiptyyt.Main.Fetch.{fetch_more_updates}
use piiptyyt.Model.Updates.{Update, UpdateModel}
use piiptyyt.Model.View.{update_model_new}
use piiptyyt.Oauth.Request.{Environment}
use piiptyyt.Prelude.Int.{ℤ}
use piiptyyt.StateFile.KeyFile.{KeyFile}
use piiptyyt.StateFile.State.{PiiptyytState, Calls, state_empty, state_write, state_read}
use piiptyyt.Update.Parse.{UpdateJson}
use piiptyyt.Update.Source.{Event}
use piiptyyt.Prelude.{
  ℕ, Bool, true, false, Option, none, some, List, [], ◌∷◌, Bytes, if◌then◌else◌, ◌>>=◌,
}

-- The libraries that the program is linked with, and the keys that it is built with.
pub record Libraries : Type 1 where
  pub table : HashTable Bytes (Option Bytes)
  pub digest : Option Bytes → Bytes → Option Bytes
  pub sort : List Bytes → List Bytes
  pub strsplit : Bytes → List Bytes
  pub glib : KeyFile
  pub qsort_updates : List Update → List Update
  pub qsort_ids : List ℕ → List ℕ
  pub bsearch : ℕ → List ℕ → Option ℕ
  pub insert_row : ℕ → Update → List Update → List Update
  pub sax : Bytes → List Event × ℤ
  pub date : Option Bytes → Option ℕ
  pub load : Bytes → Option (List UpdateJson)
  pub consumer_key : Bytes
  pub consumer_secret : Bytes

-- What one run meets: the versions and files that it needs, the system calls of the three writes
-- of the state, the cache of users, or NULL, and its `get_user_info_from_json`, the clock and
-- /dev/urandom at each request, the answers of the server, and what the user types.
pub record Surroundings (L : Libraries) (W : Type 0) : Type 0 where
  pub gcrypt_ok : Bool
  -- The error that keeps a file of the state that is there from being read.
  pub denied : Option ℕ
  pub fresh_write : Calls
  pub token_write : Calls
  pub last_write : Calls
  pub users : Option W
  pub get_user : JsonObject → W → Option (Option ℕ × W)
  pub made : Bool
  pub pictured : Bool
  pub address : ℕ → ℕ
  pub token_clock : Environment × Environment
  pub access_clock : Environment × Environment
  pub fetch_clock : Environment × Environment
  pub post : Bytes → Bytes → ℕ × Bytes
  pub get : L.table.Table → ℕ × Bytes
  pub pin : Option Bytes

-- The exit status, with the file of the state, and the updates shown where the window came up.
pub data Exit : Type 0 where
  success : UpdateModel → Option Bytes → Exit
  failure : Option Bytes → Exit

-- `auth_token` is NULL or the empty string.
unfoldable pub needs_login : Option Bytes → Bool
needs_login none = true
needs_login (some []) = true
needs_login (some (c ∷ token)) = false

unfoldable pub with_account : Account → PiiptyytState
with_account a = record {
  username = a.username;
  auth_token = a.auth_token;
  auth_secret = a.auth_secret;
  userid = a.userid;
}

-- Nothing is configured yet.
unfoldable pub read_config : Bool
read_config = true

module _ (L : Libraries) {W : Type 0} where
  -- The state that was read, or an empty one, which is written.
  unfoldable pub first_state :
      Surroundings L W → Option PiiptyytState → Option Bytes → PiiptyytState × Option Bytes
  first_state r none file = (state_empty, (state_write L.glib r.fresh_write state_empty file).0)
  first_state r (some state) file = (state, file)

  -- A login that fails sets no error, whose message is then a bad access.
  unfoldable pub save_tokens :
      Surroundings L W → Option Bytes → Option Account → Option (PiiptyytState × Option Bytes)
  save_tokens r file none = none
  save_tokens r file (some a) =
      some (with_account a, (state_write L.glib r.token_write (with_account a) file).0)

  unfoldable pub sign_in :
      Surroundings L W → PiiptyytState × Option Bytes → Option (PiiptyytState × Option Bytes)
  sign_in r (state, file) =
      if needs_login state.auth_token
      then (oauth_login L.table L.digest L.sort L.strsplit r.token_clock.0 r.token_clock.1
            r.access_clock.0 r.access_clock.1 L.consumer_key L.consumer_secret r.post r.pin
          >>= save_tokens r file)
      else some (state, file)

  -- From the first fetch to the end.
  unfoldable pub show_window :
      Surroundings L W → W → UpdateModel → PiiptyytState × Option Bytes → Option Exit
  show_window r users model (state, file) = do
    (m, users') ←
        fetch_more_updates r.address L.qsort_updates L.qsort_ids L.bsearch L.insert_row L.sax L.date
          (some r.get_user) L.load L.table L.digest L.sort r.fetch_clock.0 r.fetch_clock.1
          L.consumer_key L.consumer_secret r.get state users model
    some (success m (state_write L.glib r.last_write state file).0)

  -- By the cache of users, if it could be opened.
  unfoldable pub main_opened :
      Option W → Surroundings L W → PiiptyytState × Option Bytes → Option Exit
  main_opened none r start = some (failure start.1)
  main_opened (some users) r start = update_model_new r.made r.pictured [] >>= λ model.
      sign_in r start >>= λ signed. show_window r users model signed

  unfoldable pub main_configured :
      Bool → Surroundings L W → PiiptyytState × Option Bytes → Option Exit
  main_configured false r start = some (failure start.1)
  main_configured true r start = main_opened r.users r start

  unfoldable pub main_checked : Bool → Surroundings L W → Option Bytes → Option Exit
  main_checked false r file = some (failure file)
  main_checked true r file =
      main_configured read_config r (first_state r (state_read L.glib r.denied file) file)

  unfoldable pub main : Surroundings L W → Option Bytes → Option Exit
  main r file = main_checked r.gcrypt_ok r file
