-- ===== src/Format/Dates.antt =====
-- `parse_month` and `parse_datetime` of format.c. `g_strsplit`, `g_time_zone_new` and
-- `g_date_time_new` are parameters; a number stands for a `GTimeZone` and for a `GDateTime`.
use piiptyyt.Prelude.{
  ℕ, ◌+◌, not, Option, none, some, List, [], ◌∷◌, map, Bytes, codes, bytes_eq, if◌then◌else◌, ◌>>=◌,
  ◌>>◌, assert,
}
use piiptyyt.Prelude.Int.{ℤ, is_zero, is_negative}
use piiptyyt.Format.Chars.{tolower, atoi, read_time}

abbrev pub month_names : List Bytes
month_names =
    codes "jan"
    ∷ codes "feb"
    ∷ codes "mar"
    ∷ codes "apr"
    ∷ codes "may"
    ∷ codes "jun"
    ∷ codes "jul"
    ∷ codes "aug"
    ∷ codes "sep"
    ∷ codes "oct"
    ∷ codes "nov"
    ∷ codes "dec"
    ∷ []

-- The loop over the names from the one of number `i` on.
unfoldable pub find_month : ℕ → List Bytes → Bytes → Option ℕ
find_month i [] tmp = none
find_month i (name ∷ names) tmp =
    let later = find_month (i + 1) names tmp in if bytes_eq tmp name then some i else later

-- `none` is -1.
unfoldable pub parse_month : Bytes → Option ℕ
parse_month str = find_month 1 month_names (map tolower str)

module _ (strsplit : Bytes → List Bytes) (time_zone_new : Bytes → Option ℕ)
    (date_time_new : ℕ → ℤ → ℕ → ℤ → ℤ → ℤ → ℤ → Option ℕ) where
  -- The parts of a date; the first, the day of the week, is skipped.
  unfoldable pub from_bits : List Bytes → Option ℕ
  from_bits (b₀ ∷ b₁ ∷ b₂ ∷ b₃ ∷ b₄ ∷ b₅ ∷ rest) = do
    month ← parse_month b₁
    let day = atoi b₂
    assert (not (is_zero day))
    (hour, min, sec) ← read_time b₃
    let year = atoi b₅
    assert (not (is_negative year))
    tz ← time_zone_new b₄
    date_time_new tz year month day hour min sec
  from_bits _ = none

  -- `none` is NULL.
  unfoldable pub parse_datetime : Option Bytes → Option ℕ
  parse_datetime none = none
  parse_datetime (some str) = from_bits (strsplit str)
