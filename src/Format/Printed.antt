-- ===== src/Format/Printed.antt =====
-- Dates as the service prints them, and what `parse_datetime` makes of them.
use piiptyyt.Prelude.{
  ℕ, zero, suc, ◌+◌, ◌-◌, ◌*◌, ◌/◌, ◌%◌, ◌<◌, ◌≡◌, refl, sym, ap, ◌∙◌, inl, inr, true, false,
  Option, none, some, List, [], ◌∷◌, map, arith, Bytes, bytes_eq, bytes_eq_iff, get_elem?, ◌==◌,
  if◌then◌else◌, Bool-cases, ◌>>=◌,
}
use piiptyyt.Prelude.Int.{ℤ, pos}
use piiptyyt.Format.Chars.{
  tolower, is_digit, is_space, read_digits, read_unsigned, signed, read_int, atoi, read_colon,
  read_time,
}
use piiptyyt.Oauth.Response.{has_name, DistinctNames}
use piiptyyt.Format.Dates.{month_names, find_month, parse_month, from_bits, parse_datetime}

abbrev pub digit : ℕ → ℕ
digit n = b'0' + n % 10

-- A number below 100 with two digits, and one below 10000 with four.
abbrev pub two_digits : ℕ → Bytes → Bytes
two_digits n rest = digit (n / 10) ∷ digit n ∷ rest

abbrev pub four_digits : ℕ → Bytes → Bytes
four_digits n rest = digit (n / 1000) ∷ digit (n / 100) ∷ digit (n / 10) ∷ digit n ∷ rest

abbrev pub printed_time : ℕ → ℕ → ℕ → Bytes
printed_time hour min sec = two_digits hour (b':' ∷ two_digits min (b':' ∷ two_digits sec []))

-- No digit comes next.
abbrev Ends : Bytes → Type 0
Ends [] = Unit
Ends (c ∷ s) = is_digit c ≡ false

read_digits_end : (acc : ℕ) (rest : Bytes) → Ends rest → read_digits acc rest ≡ (acc, rest)
unfolding read_digits
read_digits_end acc [] h = refl
read_digits_end acc (c ∷ s) h = rw h

read_digits_step :
    (acc n : ℕ) (rest : Bytes)
    → read_digits acc (digit n ∷ rest) ≡ read_digits (acc * 10 + n % 10) rest
unfolding read_digits
read_digits_step acc n rest =
    let d : is_digit (digit n) ≡ true = ground arith in
    let e : digit n - b'0' ≡ n % 10 = omega arith in rw (d, e)

read_int-two_digits :
    (n : ℕ) (rest : Bytes) → n < 100 → Ends rest → read_int (two_digits n rest) ≡ some (pos n, rest)
unfolding read_int read_unsigned signed
read_int-two_digits n rest small ends =
    let e : (0 * 10 + n / 10 % 10) * 10 + n % 10 ≡ n = omega arith in
    let step : read_digits 0 (two_digits n rest) ≡ (n, rest) =
      read_digits_step 0 (n / 10) (digit n ∷ rest)
      ∙ read_digits_step (0 * 10 + n / 10 % 10) n rest
      ∙ ap (λ m. read_digits m rest) e
      ∙ read_digits_end n rest ends in
    let space : is_space (digit (n / 10)) ≡ false = ground arith in
    let minus : (digit (n / 10) == b'-') ≡ false = ground arith in
    let plus : (digit (n / 10) == b'+') ≡ false = ground arith in
    let d : is_digit (digit (n / 10)) ≡ true = ground arith in rw (space, minus, plus, d, step)

read_int-four_digits : (n : ℕ) → n < 10000 → read_int (four_digits n []) ≡ some (pos n, [])
unfolding read_int read_unsigned signed
read_int-four_digits n small =
    let first = 0 * 10 + n / 1000 % 10 in
    let second = first * 10 + n / 100 % 10 in
    let third = second * 10 + n / 10 % 10 in
    let e : third * 10 + n % 10 ≡ n = omega arith in
    let step : read_digits 0 (four_digits n []) ≡ (n, []) =
      read_digits_step 0 (n / 1000) _
      ∙ read_digits_step first (n / 100) _
      ∙ read_digits_step second (n / 10) _
      ∙ read_digits_step third n []
      ∙ ap (λ m. read_digits m []) e
      ∙ read_digits_end n [] tt in
    let space : is_space (digit (n / 1000)) ≡ false = ground arith in
    let minus : (digit (n / 1000) == b'-') ≡ false = ground arith in
    let plus : (digit (n / 1000) == b'+') ≡ false = ground arith in
    let d : is_digit (digit (n / 1000)) ≡ true = ground arith in rw (space, minus, plus, d, step)

atoi_lem : (s rest : Bytes) (n : ℤ) → read_int s ≡ some (n, rest) → atoi s ≡ n
unfolding atoi
atoi_lem s rest n e = rw (e, atoi)

read_time-printed :
    (hour min sec : ℕ)
    → hour < 100
    → min < 100
    → sec < 100
    → read_time (printed_time hour min sec) ≡ some (pos hour, pos min, pos sec)
unfolding read_time read_colon
read_time-printed hour min sec h₁ h₂ h₃ = rw (
  read_int-two_digits hour (b':' ∷ two_digits min (b':' ∷ two_digits sec [])) h₁ refl,
  read_int-two_digits min (b':' ∷ two_digits sec []) h₂ refl,
  read_int-two_digits sec [] h₃ tt,
)

other_name :
    (h name : Bytes) (names : List Bytes) (m : ℕ)
    → has_name h names ≡ false
    → get_elem? names m ≡ some name
    → bytes_eq name h ≡ false
other_name h name [] m new e = ground arith
other_name h name (f ∷ names) zero new e = elim (Bool-cases (bytes_eq f h)) [
  | inl same ↦ ground arith
  | inr other ↦ let same : f ≡ name = ground arith in sym (ap (λ x. bytes_eq x h) same) ∙ other
]
other_name h name (f ∷ names) (suc m) new e = elim (Bool-cases (bytes_eq f h)) [
  | inl same ↦ ground arith
  | inr other ↦ other_name h name names m (ground arith) e
]

-- Where the names are all different, the loop finds the place of a name.
find_month-get_elem? :
    (i m : ℕ) (name : Bytes) (names : List Bytes)
    → DistinctNames names
    → get_elem? names m ≡ some name
    → find_month i names name ≡ some (m + i)
unfolding find_month
find_month-get_elem? i m name [] d e = ground arith
find_month-get_elem? i zero name (f ∷ names) (new, d) e =
    let same : bytes_eq name f ≡ true = (bytes_eq_iff name f).1 (ground arith) in
    rw same (ground arith)
find_month-get_elem? i (suc m) name (f ∷ names) (new, d) e =
    let other : bytes_eq name f ≡ false = other_name f name names m new e in
    rw other (ground (arith, find_month-get_elem? (i + 1) m name names d e))

months-DistinctNames : DistinctNames month_names
months-DistinctNames = (
  refl,
  (refl, (refl, (refl, (refl, (refl, (refl, (refl, (refl, (refl, (refl, (refl, tt))))))))))),
)

-- A date in the form of the service is read as its parts: the name of the month in any mixture of
-- cases, the day and the time with two digits each, the year with four. The result is what GLib
-- makes of these numbers and the zone; only the day 0 is refused.
pub parse_datetime-printed :
    (strsplit : Bytes → List Bytes) (time_zone_new : Bytes → Option ℕ)
    (date_time_new : ℕ → ℤ → ℕ → ℤ → ℤ → ℤ → ℤ → Option ℕ) (str weekday name zone : Bytes)
    (rest : List Bytes) (m day hour min sec year : ℕ)
    → strsplit str
      ≡ weekday
        ∷ name
        ∷ two_digits day []
        ∷ printed_time hour min sec
        ∷ zone
        ∷ four_digits year []
        ∷ rest
    → get_elem? month_names m ≡ some (map tolower name)
    → day < 100
    → hour < 100
    → min < 100
    → sec < 100
    → year < 10000
    → parse_datetime strsplit time_zone_new date_time_new (some str) ≡ (
        if day == 0
        then none
        else time_zone_new zone >>= λ tz.
            date_time_new tz (pos year) (m + 1) (pos day) (pos hour) (pos min) (pos sec))
unfolding parse_datetime from_bits
parse_datetime-printed strsplit time_zone_new date_time_new str weekday name zone rest m day hour
      min sec year parts month h₁ h₂ h₃ h₄ h₅ =
    let e₁ : parse_month name ≡ some (m + 1) =
      unfold parse_month in
      find_month-get_elem? 1 m (map tolower name) month_names months-DistinctNames month in
    let e₂ = atoi_lem (two_digits day []) [] (pos day) (read_int-two_digits day [] h₁ tt) in
    let e₃ = read_time-printed hour min sec h₂ h₃ h₄ in
    let e₄ = atoi_lem (four_digits year []) [] (pos year) (read_int-four_digits year h₅) in
    rw (parts, from_bits)
      (rw (e₁, e₂, e₃, e₄)
        (elim (Bool-cases (day == 0)) [ inl no_day ↦ ground arith | inr a_day ↦ ground arith ]))
