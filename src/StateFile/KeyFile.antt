-- ===== src/StateFile/KeyFile.antt =====
-- The contract of `GKeyFile`, as the manual of GLib gives it, for keys by their group and name.
use piiptyyt.Prelude.{
  ℕ, ◌^◌, ◌<◌, ◌≡◌, Bool, ◌&&◌, ◌||◌, true, false, Option, some, [], ◌∷◌, Bytes, bytes_eq, leb,
  ◌==◌,
}

-- Names of small letters and `_` are good for groups and keys.
abbrev pub is_name : Bytes → Bool
is_name [] = true
is_name (c ∷ s) = ((leb b'a' c && leb c b'z') || c == b'_') && is_name s

pub record KeyFile : Type 1 where
  pub File : Type 0
  pub new : File
  pub set_string : Bytes → Bytes → Option Bytes → File → File
  pub set_uint64 : Bytes → Bytes → ℕ → File → File
  -- NULL, or 0, for a key that is not there; NULL also for a value that is not UTF-8.
  pub get_string : Bytes → Bytes → File → Option Bytes
  pub get_uint64 : Bytes → Bytes → File → ℕ
  pub to_data : File → Option Bytes
  pub load : Bytes → Option File
  -- The string is UTF-8.
  pub IsText : Bytes → Type 0
  pub get_string-set_string :
      (g k v : Bytes) (f : File)
      → is_name g ≡ true
      → is_name k ≡ true
      → IsText v
      → get_string g k (set_string g k (some v) f) ≡ some v
  pub get_string-set_string_ne :
      (g j k v : Bytes) (f : File)
      → bytes_eq j k ≡ false
      → get_string g j (set_string g k (some v) f) ≡ get_string g j f
  pub get_string-set_uint64_ne :
      (g j k : Bytes) (n : ℕ) (f : File)
      → bytes_eq j k ≡ false
      → get_string g j (set_uint64 g k n f) ≡ get_string g j f
  pub get_uint64-set_uint64 :
      (g k : Bytes) (n : ℕ) (f : File)
      → is_name g ≡ true
      → is_name k ≡ true
      → n < 2 ^ 64
      → get_uint64 g k (set_uint64 g k n f) ≡ n
  -- Text that was made from a file is loaded as a file with the same values.
  pub load-to_data :
      (f : File) (s : Bytes)
      → to_data f ≡ some s
      → (f' : File) × (load s ≡ some f')
        × ((g k : Bytes) → get_string g k f' ≡ get_string g k f)
        × ((g k : Bytes) → get_uint64 g k f' ≡ get_uint64 g k f)
