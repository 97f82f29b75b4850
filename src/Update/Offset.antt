-- ===== src/Update/Offset.antt =====
-- Where the members of `struct update` stand, in the order of the structure.
use Prim.Native.Nat.{ℕ}

abbrev pub id : ℕ
id = 24

abbrev pub favorited : ℕ
favorited = 32

abbrev pub truncated : ℕ
truncated = 33

abbrev pub in_rep_to_uid : ℕ
in_rep_to_uid = 40

abbrev pub in_rep_to_sid : ℕ
in_rep_to_sid = 48

abbrev pub in_rep_to_screen_name : ℕ
in_rep_to_screen_name = 56

abbrev pub source : ℕ
source = 64

abbrev pub text : ℕ
text = 72

abbrev pub timestamp : ℕ
timestamp = 80
