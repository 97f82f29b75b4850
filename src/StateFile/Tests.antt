-- ===== src/StateFile/Tests.antt =====
-- A state that is written over an old file.
use piiptyyt.Prelude.{◌≡◌, refl, true, none, some, arith, codes}
use piiptyyt.StateFile.Example.{raised, entry, set_text, text_file}
use piiptyyt.StateFile.State.{
  PiiptyytState, Calls, written, write_contents, write_stages, key_file, state_write, state_read,
}
use piiptyyt.StateFile.RoundTrip.{IsStorable, state_read-state_write}

abbrev a_state : PiiptyytState
a_state = record {
  username = some (codes "me");
  auth_token = some (codes "t");
  auth_secret = some (codes "u");
  userid = 5;
}

abbrev all_well : Calls
all_well = record { opens = true; chmods = true; truncates = true; writes = some 48 }

storable : IsStorable text_file a_state
storable = record {
  user = codes "me";
  token = codes "t";
  secret = codes "u";
  username = refl;
  auth_token = refl;
  auth_secret = refl;
  user_text = tt;
  token_text = tt;
  secret_text = tt;
  small = omega arith;
}

state_read-state_write_example :
    state_read text_file none (state_write text_file all_well a_state (some (codes "old"))).0
    ≡ some a_state
unfolding state_write write_stages write_contents written key_file set_text entry raised
state_read-state_write_example =
    state_read-state_write text_file all_well a_state (some (codes "old")) storable refl refl
