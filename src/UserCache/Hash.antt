-- ===== src/UserCache/Hash.antt =====
-- The hash of an id in usercache.c. Words of 32 bits wrap around.
use piiptyyt.Prelude.{ℕ, ◌+◌, ◌*◌, ◌/◌, ◌%◌, ◌^◌, ◌≡◌, ap, Bool, true, ◌==◌, ==_iff}
use Prim.Native.Nat.{bit_xor}

abbrev word : ℕ
word = 2 ^ 32

unfoldable pub jenkins_int32_hash : ℕ → ℕ
jenkins_int32_hash a₀ =
    let a₁ = (a₀ + 0x7ed55d16 + a₀ * 2 ^ 12) % word in
    let a₂ = bit_xor (bit_xor a₁ 0xc761c23c) (a₁ / 2 ^ 19) in
    let a₃ = (a₂ + 0x165667b1 + a₂ * 2 ^ 5) % word in
    let a₄ = bit_xor ((a₃ + 0xd3a2646c) % word) (a₃ * 2 ^ 9 % word) in
    let a₅ = (a₄ + 0xfd7046c5 + a₄ * 2 ^ 3) % word in bit_xor (bit_xor a₅ 0xb55a4f09) (a₅ / 2 ^ 16)

unfoldable pub double_jenkins : ℕ → ℕ
double_jenkins x = bit_xor (jenkins_int32_hash (x % 2 ^ 32)) (jenkins_int32_hash (x / 2 ^ 32))

unfoldable pub uint64_hash : ℕ → ℕ
uint64_hash key = double_jenkins key

unfoldable pub uint64_equal : ℕ → ℕ → Bool
uint64_equal a b = a == b

-- What a hash table asks of the two.
pub uint64_equal-uint64_hash : (a b : ℕ) → uint64_equal a b ≡ true → uint64_hash a ≡ uint64_hash b
unfolding uint64_equal
uint64_equal-uint64_hash a b same = ap uint64_hash ((==_iff a b).0 same)
