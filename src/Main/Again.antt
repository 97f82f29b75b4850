-- ===== src/Main/Again.antt =====
-- The state that a run leaves, and the run after it.
use piiptyyt.Main.Fetch.{fetch_more_updates}
use piiptyyt.Main.Start.{
  Libraries, Surroundings, success, failure, needs_login, read_config, first_state, sign_in,
  show_window, main_opened, main_configured, main_checked, main,
}
use piiptyyt.Model.Updates.{UpdateModel}
use piiptyyt.Model.View.{update_model_new}
use piiptyyt.StateFile.RoundTrip.{IsStorable, state_read-state_write}
use piiptyyt.StateFile.State.{PiiptyytState, state_write, state_read}
use piiptyyt.Prelude.{
  ℕ, ◌≡◌, refl, sym, ap, ◌∙◌, ◌≢◌, inl, inr, true, false, Option, none, some, [], arith, Bytes,
  Bool-cases, Option-cases, ◌>>=◌, >>=-eq-some,
}

success≢failure : (m : UpdateModel) (f f' : Option Bytes) → some (failure f) ≢ some (success m f')
success≢failure m f f' e = ground arith

module _ (L : Libraries) {W : Type 0} where
  -- What a run begins with.
  abbrev pub start : Surroundings L W → Option Bytes → PiiptyytState × Option Bytes
  start r file = first_state L r (state_read L.glib r.denied file) file

  show_window-file :
      (r : Surroundings L W) (users : W) (model m : UpdateModel) (st : PiiptyytState)
      (file file₁ : Option Bytes)
      → show_window L r users model (st, file) ≡ some (success m file₁)
      → file₁ ≡ (state_write L.glib r.last_write st file).0
  unfolding show_window
  show_window-file r users model m st file file₁ h =
      let (fetched, _, done) =
        >>=-eq-some
          (fetch_more_updates r.address L.qsort_updates L.qsort_ids L.bsearch L.insert_row L.sax
            L.date (some r.get_user) L.load L.table L.digest L.sort r.fetch_clock.0 r.fetch_clock.1
            L.consumer_key L.consumer_secret r.get st users model)
          _ h in
      ground (arith, done)

  -- A run that ended well wrote the state that it had signed in with.
  main-file :
      (r : Surroundings L W) (file file' file₁ : Option Bytes) (m : UpdateModel)
      (st : PiiptyytState)
      → sign_in L r (start r file) ≡ some (st, file')
      → main L r file ≡ some (success m file₁)
      → file₁ ≡ (state_write L.glib r.last_write st file').0
  unfolding main main_checked main_configured main_opened read_config
  main-file r file file' file₁ m st signed h = elim (Bool-cases r.gcrypt_ok) [
    | inr old ↦
        absurd (success≢failure m file file₁ (sym (ap (λ b. main_checked L b r file) old) ∙ h))
    | inl ok ↦
        let h₁ = sym (ap (λ b. main_checked L b r file) ok) ∙ h in
        elim (Option-cases r.users) [
          | inl closed ↦ absurd (
              success≢failure m (start r file).1 file₁
                (sym (ap (λ u. main_opened L u r (start r file)) closed) ∙ h₁))
          | inr (users, opened) ↦
              let h₂ = sym (ap (λ u. main_opened L u r (start r file)) opened) ∙ h₁ in
              let (model, made, h₃) = >>=-eq-some (update_model_new r.made r.pictured []) _ h₂ in
              let shown = sym (ap (λ o. o >>= show_window L r users model) signed) ∙ h₃ in
              show_window-file r users model m st file' file₁ shown
        ]
  ]

  sign_in-known :
      (r : Surroundings L W) (st : PiiptyytState) (file : Option Bytes)
      → needs_login st.auth_token ≡ false
      → sign_in L r (st, file) ≡ some (st, file)
  unfolding sign_in
  sign_in-known r st file known = rw known refl

  -- The same surroundings with another server for logins, and another answer of the user.
  abbrev pub elsewhere :
      (Bytes → Bytes → ℕ × Bytes) → Option Bytes → Surroundings L W → Surroundings L W
  elsewhere post pin r = record r { post = post; pin = pin }

  main-elsewhere :
      (post : Bytes → Bytes → ℕ × Bytes) (pin : Option Bytes) (r : Surroundings L W)
      (file : Option Bytes) (s : PiiptyytState × Option Bytes)
      → sign_in L r (start r file) ≡ some s
      → sign_in L (elsewhere post pin r) (start r file) ≡ some s
      → main L r file ≡ main L (elsewhere post pin r) file
  unfolding main main_checked main_configured main_opened read_config show_window first_state
  main-elsewhere post pin r file s here there = elim (Bool-cases r.gcrypt_ok) [
    | inr old ↦
        ap (λ b. main_checked L b r file) old
        ∙ sym (ap (λ b. main_checked L b (elsewhere post pin r) file) old)
    | inl ok ↦
        ap (λ b. main_checked L b r file) ok
        ∙ opened r.users
        ∙ sym (ap (λ b. main_checked L b (elsewhere post pin r) file) ok)
  ]
    where
      opened :
          (users : Option W)
          → main_opened L users r (start r file)
            ≡ main_opened L users (elsewhere post pin r) (start r file)
      opened none = refl
      opened (some users) =
          ap
            (λ o.
              update_model_new r.made r.pictured [] >>= λ model. o >>= show_window L r users model)
            here
          ∙ sym (
              ap
                (λ o. update_model_new r.made r.pictured [] >>= λ model.
                  o >>= show_window L (elsewhere post pin r) users model)
                there)

  -- After a run that ended well with a token that is not empty, a state that has its three strings,
  -- as UTF-8, and an id of 64 bits, and a last write that cut the file and reported success: if no
  -- error keeps the next run from reading the file, it begins with the state that the
  -- first had signed in with and signs in with it, and whatever the server for logins and the
  -- user would answer makes no difference to it.
  pub main_again :
      (r₁ r₂ : Surroundings L W) (file file' file₁ : Option Bytes) (m : UpdateModel)
      (st : PiiptyytState) (post : Bytes → Bytes → ℕ × Bytes) (pin : Option Bytes)
      → sign_in L r₁ (start r₁ file) ≡ some (st, file')
      → main L r₁ file ≡ some (success m file₁)
      → needs_login st.auth_token ≡ false
      → IsStorable L.glib st
      → r₁.last_write.truncates ≡ true
      → (state_write L.glib r₁.last_write st file').1 ≡ true
      → r₂.denied ≡ none
      → (start r₂ file₁ ≡ (st, file₁))
        × (sign_in L r₂ (start r₂ file₁) ≡ some (st, file₁))
        × (main L r₂ file₁ ≡ main L (elsewhere post pin r₂) file₁)
  unfolding first_state
  main_again r₁ r₂ file file' file₁ m st post pin signed ended known storable cut ok readable =
      let left = main-file r₁ file file' file₁ m st signed ended in
      let read : state_read L.glib r₂.denied file₁ ≡ some st =
        ap (λ b. state_read L.glib b file₁) readable
        ∙ ap (state_read L.glib none) left
        ∙ state_read-state_write L.glib r₁.last_write st file' storable cut ok in
      let begins : start r₂ file₁ ≡ (st, file₁) = ap (λ o. first_state L r₂ o file₁) read in
      let here = ap (sign_in L r₂) begins ∙ sign_in-known r₂ st file₁ known in
      let there =
        ap (sign_in L (elsewhere post pin r₂)) begins
        ∙ sign_in-known (elsewhere post pin r₂) st file₁ known in
      (begins, here, main-elsewhere post pin r₂ file₁ (st, file₁) here there)
