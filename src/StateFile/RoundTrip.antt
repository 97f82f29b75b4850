-- ===== src/StateFile/RoundTrip.antt =====
-- What is written is read back.
use piiptyyt.Prelude.{
  take, drop, length-take, ℕ, zero, suc, ◌+◌, ◌-◌, ◌^◌, ◌≤◌, ◌<◌, ◌≡◌, refl, sym, ap, ◌∙◌, inl, inr,
  Bool, true, false, Option, none, some, [], ◌∷◌, ◌++◌, append-nil, arith, Bytes, codes, length,
  length-append, ltb, if◌then◌else◌, Bool-cases,
}
use piiptyyt.StateFile.KeyFile.{KeyFile}
use piiptyyt.StateFile.State.{
  PiiptyytState, Calls, zeros, bytes_of, truncate, overwrite, written, write_contents, write_stages,
  auth, key_file, state_write, state_read, read_stages, file_error, parse_state,
}

take_all : (s : Bytes) → take (length s) s ≡ s
take_all [] = refl
take_all (c ∷ s) = ap (λ t. c ∷ t) (take_all s)

length-zeros : (n : ℕ) → length (zeros n) ≡ n
unfolding zeros
length-zeros zero = refl
length-zeros (suc n) = omega (arith, length-zeros n)

length-take_more : (n : ℕ) (s : Bytes) → length s < n → length (take n s) ≡ length s
length-take_more zero s h = omega arith
length-take_more (suc n) [] h = refl
length-take_more (suc n) (c ∷ s) h = ground (arith, length-take_more n s)

drop_past : (n : ℕ) (s : Bytes) → length s ≤ n → drop n s ≡ []
drop_past zero [] h = refl
drop_past zero (c ∷ s) h = ground arith
drop_past (suc n) [] h = refl
drop_past (suc n) (c ∷ s) h = drop_past n s (omega arith)

length-truncate : (n : ℕ) (s : Bytes) → length (truncate n s) ≤ n
unfolding truncate
length-truncate n s =
    let rest = zeros (n - length s) in
    let e : length (truncate n s) ≡ length (take n s) + length rest =
      length-append (take n s) rest in
    elim (Bool-cases (ltb (length s) n)) [
      | inl short ↦
          let less : length s < n = ground arith in
          omega (arith, e, length-take_more n s less, length-zeros (n - length s))
      | inr long ↦
          let fits : n ≤ length s = ground arith in
          omega (arith, e, length-take n s, length-zeros (n - length s))
    ]

-- A write that reports success to a file that is no longer leaves just the new contents.
written_whole :
    (n_wr : Option ℕ) (contents file : Bytes)
    → length file ≤ length contents
    → (written n_wr contents file).1 ≡ true
    → (written n_wr contents file).0 ≡ contents
unfolding written overwrite
written_whole none contents file fits ok = ground arith
written_whole (some n_wr) contents file fits ok =
    let all : n_wr ≡ length contents = ground arith in
    ap (λ n. take n contents ++ drop n file) all
    ∙ ap (λ t. t ++ drop (length contents) file) (take_all contents)
    ∙ ap (λ t. contents ++ t) (drop_past (length contents) file fits)
    ∙ append-nil contents

write_stages_whole :
    (calls : Calls) (opens chmods : Bool) (text file : Option Bytes)
    → calls.truncates ≡ true
    → (write_stages calls opens chmods text file).1 ≡ true
    → (contents : Bytes) × (text ≡ some contents)
      × ((write_stages calls opens chmods text file).0 ≡ some contents)
unfolding write_stages write_contents
write_stages_whole calls false chmods text file truncated ok = ground arith
write_stages_whole calls true false text file truncated ok = ground arith
write_stages_whole calls true true none file truncated ok = ground arith
write_stages_whole calls true true (some contents) file truncated ok =
    let cut = truncate (length contents) (bytes_of file) in
    let e : (if calls.truncates then cut else bytes_of file) ≡ cut = rw truncated refl in
    let ok' = ap (λ f. (written calls.writes contents f).1) (sym e) ∙ ok in
    (
      contents,
      refl,
      ap (λ f. some (written calls.writes contents f).0) e
          ∙ ap some (
              written_whole calls.writes contents cut
                (length-truncate (length contents) (bytes_of file)) ok'),
    )

module _ (glib : KeyFile) where
  open glib use {File, new, get_string, get_uint64, set_string, set_uint64}

  -- A state that has its three strings, as UTF-8, and an id of 64 bits.
  pub record IsStorable (st : PiiptyytState) : Type 0 where
    pub user : Bytes
    pub token : Bytes
    pub secret : Bytes
    pub username : st.username ≡ some user
    pub auth_token : st.auth_token ≡ some token
    pub auth_secret : st.auth_secret ≡ some secret
    pub user_text : glib.IsText user
    pub token_text : glib.IsText token
    pub secret_text : glib.IsText secret
    pub small : st.userid < 2 ^ 64

  stored_file : Bytes → Bytes → Bytes → ℕ → File
  stored_file user token secret n = set_uint64 auth (codes "userid") n (
      set_string auth (codes "auth_secret") (some secret) (
        set_string auth (codes "auth_token") (some token)
          (set_string auth (codes "username") (some user) new)))

  key_file-stored :
      (st : PiiptyytState) (s : IsStorable st)
      → key_file glib st ≡ stored_file s.user s.token s.secret st.userid
  unfolding key_file stored_file
  key_file-stored st s = rw (s.username, s.auth_token, s.auth_secret) refl

  loaded_state :
      (st : PiiptyytState) (f : File) (s : IsStorable st)
      → ((k : Bytes) → get_string auth k f ≡ get_string auth k (key_file glib st))
      → ((k : Bytes) → get_uint64 auth k f ≡ get_uint64 auth k (key_file glib st))
      → (get_string auth (codes "username") f ≡ st.username)
        × (get_string auth (codes "auth_token") f ≡ st.auth_token)
        × (get_string auth (codes "auth_secret") f ≡ st.auth_secret)
        × (get_uint64 auth (codes "userid") f ≡ st.userid)
  unfolding stored_file
  loaded_state st f s strings numbers =
      let user = codes "username" in
      let token = codes "auth_token" in
      let secret = codes "auth_secret" in
      let id = codes "userid" in
      let f₁ = set_string auth user (some s.user) new in
      let f₂ = set_string auth token (some s.token) f₁ in
      let f₃ = set_string auth secret (some s.secret) f₂ in
      let same = key_file-stored st s in
      (
        strings user
            ∙ ap (get_string auth user) same
            ∙ glib.get_string-set_uint64_ne auth user id st.userid f₃ refl
            ∙ glib.get_string-set_string_ne auth user secret s.secret f₂ refl
            ∙ glib.get_string-set_string_ne auth user token s.token f₁ refl
            ∙ glib.get_string-set_string auth user s.user new refl refl s.user_text
            ∙ sym s.username,
        strings token
            ∙ ap (get_string auth token) same
            ∙ glib.get_string-set_uint64_ne auth token id st.userid f₃ refl
            ∙ glib.get_string-set_string_ne auth token secret s.secret f₂ refl
            ∙ glib.get_string-set_string auth token s.token f₁ refl refl s.token_text
            ∙ sym s.auth_token,
        strings secret
            ∙ ap (get_string auth secret) same
            ∙ glib.get_string-set_uint64_ne auth secret id st.userid f₃ refl
            ∙ glib.get_string-set_string auth secret s.secret f₂ refl refl s.secret_text
            ∙ sym s.auth_secret,
        numbers id
            ∙ ap (get_uint64 auth id) same
            ∙ glib.get_uint64-set_uint64 auth id st.userid f₃ refl refl s.small,
      )

  -- If a state that has its three strings, as UTF-8, and an id of 64 bits is reported as written,
  -- and the file could be truncated, it is read back as it was, whatever the file had before, as
  -- long as the file can be read.
  pub state_read-state_write :
      (calls : Calls) (st : PiiptyytState) (file : Option Bytes)
      → IsStorable st
      → calls.truncates ≡ true
      → (state_write glib calls st file).1 ≡ true
      → state_read glib none (state_write glib calls st file).0 ≡ some st
  unfolding state_write state_read bytes_of read_stages file_error parse_state
  state_read-state_write calls st file storable truncated ok =
      let (contents, text, whole) =
        write_stages_whole calls calls.opens calls.chmods (glib.to_data (key_file glib st)) file
          truncated ok in
      let (f, loads, strings, numbers) = glib.load-to_data (key_file glib st) contents text in
      let (e₁, e₂, e₃, e₄) = loaded_state st f storable (strings auth) (numbers auth) in
      ap (state_read glib none) whole ∙ rw loads (rw (e₁, e₂, e₃, e₄))
