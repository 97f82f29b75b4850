-- ===== src/StateFile/State.antt =====
-- Reading and writing the state, in state.c. The file is its bytes, or is not there.
use piiptyyt.Prelude.{
  take, drop, ℕ, zero, suc, ◌-◌, Bool, true, false, Option, none, some, [], ◌∷◌, ◌++◌, Bytes, codes,
  length, ◌==◌, if◌then◌else◌, ◌>>=◌,
}
use piiptyyt.StateFile.KeyFile.{KeyFile}

-- `struct piiptyyt_state`.
pub record PiiptyytState : Type 0 where
  pub username : Option Bytes
  pub auth_token : Option Bytes
  pub auth_secret : Option Bytes
  pub userid : ℕ

unfoldable pub state_empty : PiiptyytState
state_empty = record { username = none; auth_token = none; auth_secret = none; userid = 0 }

-- What the system calls give: whether the first three succeed, and how much is written.
pub record Calls : Type 0 where
  pub opens : Bool
  pub chmods : Bool
  pub truncates : Bool
  pub writes : Option ℕ

unfoldable pub zeros : ℕ → Bytes
zeros zero = []
zeros (suc n) = 0 ∷ zeros n

unfoldable pub bytes_of : Option Bytes → Bytes
bytes_of none = []
bytes_of (some s) = s

-- `ftruncate` cuts the file, or fills it up with zeros.
unfoldable pub truncate : ℕ → Bytes → Bytes
truncate n file = take n file ++ zeros (n - length file)

-- `n` bytes at the start of the file.
unfoldable pub overwrite : ℕ → Bytes → Bytes → Bytes
overwrite n contents file = take n contents ++ drop n file

unfoldable pub written : Option ℕ → Bytes → Bytes → Bytes × Bool
written none contents file = (file, false)
written (some n_wr) contents file = (overwrite n_wr contents file, n_wr == length contents)

-- A failed truncation goes unnoticed.
unfoldable pub write_contents : Calls → Bytes → Bytes → Bytes × Bool
write_contents calls contents file =
    written calls.writes contents
      (if calls.truncates then truncate (length contents) file else file)

-- By the results of `open` and `fchmod` and the text, if there is one.
unfoldable pub write_stages :
    Calls → Bool → Bool → Option Bytes → Option Bytes → Option Bytes × Bool
write_stages calls false chmods text file = (file, false)
write_stages calls true false text file = (some (bytes_of file), false)
write_stages calls true true none file = (some (bytes_of file), false)
write_stages calls true true (some contents) file =
    let (file', ok) = write_contents calls contents (bytes_of file) in (some file', ok)

abbrev pub enoent : ℕ
enoent = 2

-- `G_FILE_ERROR_NOENT`, as GLib numbers the codes.
abbrev pub g_file_error_noent : ℕ
g_file_error_noent = 4

-- The code of the error of `g_file_get_contents`.
unfoldable pub file_error : Option ℕ → Option Bytes → Option ℕ
file_error denied none = some g_file_error_noent
file_error denied (some s) = denied

abbrev pub auth : Bytes
auth = codes "auth"

module _ (glib : KeyFile) where
  open glib use {File, new, set_string, set_uint64, get_string, get_uint64, to_data, load}

  unfoldable pub key_file : PiiptyytState → File
  key_file st = set_uint64 auth (codes "userid") st.userid (
      set_string auth (codes "auth_secret") st.auth_secret (
        set_string auth (codes "auth_token") st.auth_token
          (set_string auth (codes "username") st.username new)))

  -- The file, which an open creates, and whether the state was written.
  unfoldable pub state_write : Calls → PiiptyytState → Option Bytes → Option Bytes × Bool
  state_write calls st file =
      write_stages calls calls.opens calls.chmods (to_data (key_file st)) file

  unfoldable pub parse_state : Bytes → Option PiiptyytState
  parse_state contents = load contents >>= λ kf. some (record {
    username = get_string auth (codes "username") kf;
    auth_token = get_string auth (codes "auth_token") kf;
    auth_secret = get_string auth (codes "auth_secret") kf;
    userid = get_uint64 auth (codes "userid") kf;
  })

  -- `error` is the code of the `GFileError`, if there is one. The code compares it with `ENOENT`,
  -- which is the number of `G_FILE_ERROR_ACCES`: with that code the file is taken for an empty one.
  unfoldable pub read_stages : Option ℕ → Bytes → Option PiiptyytState
  read_stages none contents = parse_state contents
  read_stages (some code) contents = if code == enoent then parse_state [] else none

  -- `denied` is an error that keeps a file that is there from being read.
  unfoldable pub state_read : Option ℕ → Option Bytes → Option PiiptyytState
  state_read denied file = read_stages (file_error denied file) (bytes_of file)
