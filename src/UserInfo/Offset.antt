-- ===== src/UserInfo/Offset.antt =====
-- Where the members of `struct user_info` stand, in the order of the structure.
use Prim.Native.Nat.{ℕ}

abbrev pub id : ℕ
id = 24

abbrev pub longname : ℕ
longname = 32

abbrev pub screenname : ℕ
screenname = 40

abbrev pub profile_image_url : ℕ
profile_image_url = 48

abbrev pub protected : ℕ
protected = 56

abbrev pub verified : ℕ
verified = 57

abbrev pub following : ℕ
following = 58
