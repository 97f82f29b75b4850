-- ===== src/Main/Tests.antt =====
-- A first fetch, of an answer with one update.
use piiptyyt.Glib.Assoc.{erase, dedup}
use piiptyyt.Glib.HashTable.{find}
use piiptyyt.Login.Example.{zeros, clock, table, unsorted}
use piiptyyt.Login.Flow.{soup_status_ok}
use piiptyyt.Login.Messages.{make_resource_request_msg, signed_query, set_extra_params}
use piiptyyt.Main.Fetch.{status_uri, fetch_more_updates}
use piiptyyt.Main.Fetched.{
  IsFine, no_more, one_more, an_array, answer_ids, IsFetched, fetch_more_updates-IsFetched,
}
use piiptyyt.Model.Sorts.{
  sort_updates, sort_ids, index_of, sorts, searches, insert_at, permutes, insertion,
}
use piiptyyt.Model.Updates.{UpdateModel}
use piiptyyt.Oauth.Escape.{is_unreserved, hex_digit, percent}
use piiptyyt.Oauth.Escape.Buffer.{write, grow, escape_round, escape_loop, oauth_url_escape}
use piiptyyt.Oauth.Request.{
  oa_req_new, oa_req_new_with_params, sig_method_str, oa_set_token, is_null, or_empty, as_pointer,
  oa_gen_nonce, oa_sign_sha1, value_of, kind_params, stamp, add_nonce, common_params, gather_common,
  gather_params, finish_params, oa_request_params,
}
use piiptyyt.Oauth.Sign.{
  encode_pair, append_encoded, encode_params, oa_sig_base, hmac_key, sign_base, sign_params,
  oa_sign_request,
}
use piiptyyt.Oauth.Base64.{
  encode_base64, encode_exactly, encode_into, take_exactly, b64_alloc, encode_groups, group,
  b64_encode, sextet₁, sextet₂, sextet₃, sextet₄,
}
use piiptyyt.Oauth.Request.{add_entries}
use piiptyyt.StateFile.State.{PiiptyytState}
use piiptyyt.Update.Example.{link_sax, an_update}
use piiptyyt.StateFile.RoundTrip.{IsStorable}
use piiptyyt.Update.Parsed.{no_object}
use piiptyyt.Update.Parse.{UpdateJson}
use piiptyyt.Format.Json.{first_refused, refuses}
use piiptyyt.Login.Account.{oauth_login-last_value}
use piiptyyt.Login.Flow.{Account, strtoull, oauth_login}
use piiptyyt.Login.Example.{
  first_message, second_message, split_amp, token_answer, account_answer, server,
}
use piiptyyt.Oauth.Response.{last_value, after_name, split_eq}
use piiptyyt.Main.Start.{
  Libraries, Surroundings, success, needs_login, read_config, with_account, first_state,
  save_tokens, sign_in, show_window, main_opened, main_configured, main_checked, main,
}
use piiptyyt.Main.Again.{start, elsewhere, main_again}
use piiptyyt.Model.View.{update_model_new}
use piiptyyt.StateFile.Example.{raised, entry, set_text, text_file}
use piiptyyt.StateFile.State.{
  Calls, bytes_of, written, write_contents, write_stages, key_file, state_write, state_read,
  read_stages, file_error, state_empty,
}
use piiptyyt.Format.Json.{JsonObject}
use piiptyyt.Format.Chars.{read_int, signed, read_unsigned, read_digits}
use piiptyyt.Prelude.{
  ℕ, ◌+◌, ◌≡◌, refl, ap, ◌∙◌, true, Option, none, some, List, [], ◌∷◌, arith, Bytes, codes, ◌>>=◌,
}

abbrev pub known : PiiptyytState
known = record {
  username = some (codes "me");
  auth_token = some (codes "a");
  auth_secret = some (codes "b");
  userid = 7;
}

abbrev pub no_rows : UpdateModel
no_rows = record { count = 0; current_ids = []; store = [] }

pub first_query :
    (query : List (Bytes × Option Bytes)) × (make_resource_request_msg table zeros unsorted clock
        clock
        (codes "k")
        (codes "s")
        status_uri
        known.auth_token
        known.auth_secret
        []
      ≡ some (some query))
unfolding make_resource_request_msg oa_sign_request sign_params sign_base hmac_key gather_params
    gather_common add_nonce stamp common_params kind_params or_empty is_null sig_method_str
    oa_gen_nonce oa_sign_sha1 as_pointer encode_base64 encode_exactly encode_into take_exactly
    b64_alloc encode_groups group b64_encode sextet₁ sextet₂ sextet₃ sextet₄ oa_sig_base
    encode_params encode_pair append_encoded value_of find erase dedup oauth_url_escape escape_loop
    escape_round grow write is_unreserved hex_digit percent oa_req_new oa_req_new_with_params
    signed_query set_extra_params oa_set_token oa_request_params finish_params add_entries
first_query = (_, refl)

abbrev one_element : Bytes → Option (List UpdateJson)
one_element text = some (an_update ∷ [])

abbrev pub answer : List (Bytes × Option Bytes) → ℕ × Bytes
answer query = (soup_status_ok, codes "[]")

abbrev pub no_date : Option Bytes → Option ℕ
no_date s = none

abbrev pub place : ℕ → ℕ
place i = 100 + i

abbrev no_user : JsonObject → ℕ → Option (Option ℕ × ℕ)
no_user obj w = some (none, w)

an_update-IsFine : IsFine link_sax no_date (some no_user) an_update
unfolding first_refused refuses
an_update-IsFine = record {
  accepted = refl;
  has_id = refl;
  has_source = refl;
  source = (_, refl, refl);
}

abbrev linked : Libraries
linked = record {
  table = table;
  digest = zeros;
  sort = unsorted;
  strsplit = split_amp;
  glib = text_file;
  qsort_updates = sort_updates;
  qsort_ids = sort_ids;
  bsearch = index_of;
  insert_row = insert_at;
  sax = link_sax;
  date = no_date;
  load = one_element;
  consumer_key = codes "k";
  consumer_secret = codes "s";
}

abbrev whole_write : Calls
whole_write = record { opens = true; chmods = true; truncates = true; writes = some 48 }

-- The file of the state is not there yet, and all goes well.
abbrev first_run : Surroundings linked ℕ
first_run = record {
  gcrypt_ok = true;
  denied = none;
  fresh_write = whole_write;
  token_write = whole_write;
  last_write = whole_write;
  users = some 0;
  get_user = no_user;
  made = true;
  pictured = true;
  address = place;
  token_clock = (clock, clock);
  access_clock = (clock, clock);
  fetch_clock = (clock, clock);
  post = server;
  get = answer;
  pin = some (codes "12345");
}

abbrev an_account : Account
an_account = record {
  username = last_value (codes "screen_name") (split_amp account_answer);
  auth_token = last_value (codes "oauth_token") (split_amp account_answer);
  auth_secret = last_value (codes "oauth_token_secret") (split_amp account_answer);
  userid = strtoull (codes "7");
}

login_made :
    oauth_login table zeros unsorted split_amp clock clock clock clock
      (codes "k")
      (codes "s")
      server
      (some (codes "12345"))
    ≡ some (some an_account)
unfolding last_value after_name split_eq split_amp
login_made =
    oauth_login-last_value table zeros unsorted split_amp clock clock clock clock (codes "k")
      (codes "s") server (some (codes "12345")) first_message.0 second_message.0 token_answer
      account_answer (codes "7") first_message.1 refl second_message.1 refl refl

-- There is no file at first, which makes an empty state that is written.
abbrev fresh : Option Bytes
fresh = (state_write text_file whole_write state_empty none).0

abbrev saved : Option Bytes
saved = (state_write text_file whole_write known fresh).0

first_signed : sign_in linked first_run (start linked first_run none) ≡ some (known, saved)
unfolding sign_in first_state state_read bytes_of read_stages file_error needs_login save_tokens
    with_account last_value after_name split_eq split_amp strtoull read_int signed read_unsigned
    read_digits state_empty
first_signed = ap (λ o. o >>= save_tokens linked first_run fresh) login_made

first_fetch :
    (m : UpdateModel) × (fetch_more_updates place sort_updates sort_ids index_of insert_at link_sax
        no_date
        (some no_user)
        one_element
        table
        zeros
        unsorted
        clock
        clock
        (codes "k")
        (codes "s")
        answer
        known
        0
        no_rows
      ≡ some (m, 0))
    × IsFetched (answer_ids soup_status_ok (one_element (codes "[]"))) no_rows m
first_fetch =
    fetch_more_updates-IsFetched place sort_updates sort_ids index_of insert_at insertion searches
      sorts permutes link_sax no_date (some no_user) one_element table zeros unsorted clock clock
      (codes "k") (codes "s") answer known 0 0 no_rows first_query.0 soup_status_ok (codes "[]")
      (record { counted = refl; descending = tt }) (record { rows = λ x. refl; sized = refl })
      first_query.1 refl
      (an_array (an_update ∷ []) 0 0 refl
        (one_more an_update none an_update-IsFine (no_object refl) (no_more 0)))

abbrev left : Option Bytes
left = (state_write text_file whole_write known saved).0

first_ended : main linked first_run none ≡ some (success first_fetch.0 left)
unfolding main main_checked main_configured main_opened read_config update_model_new show_window
first_ended =
    ap (λ o. o >>= show_window linked first_run 0 no_rows) first_signed
    ∙ ap (λ o. o >>= λ r. some (success r.0 left)) first_fetch.1

-- Nobody answers in the second run.
abbrev silent : Bytes → Bytes → ℕ × Bytes
silent uri body = (0, [])

storable : IsStorable text_file known
storable = record {
  user = codes "me";
  token = codes "a";
  secret = codes "b";
  username = refl;
  auth_token = refl;
  auth_secret = refl;
  user_text = tt;
  token_text = tt;
  secret_text = tt;
  small = omega arith;
}

main_again_example :
    (start linked first_run left ≡ (known, left))
    × (sign_in linked first_run (start linked first_run left) ≡ some (known, left))
    × (main linked first_run left ≡ main linked (elsewhere linked silent none first_run) left)
unfolding needs_login state_write write_stages write_contents written key_file set_text entry raised
main_again_example =
    main_again linked first_run first_run none saved left first_fetch.0 known silent none
      first_signed first_ended refl storable refl refl refl
