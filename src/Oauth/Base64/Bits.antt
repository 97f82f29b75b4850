-- ===== src/Oauth/Base64/Bits.antt =====
-- The bit operations of the encoder as arithmetic, from tables.
use Prim.Native.Nat.{bit_and, bit_or}
use piiptyyt.Prelude.{
  ℕ, zero, suc, ◌+◌, ◌*◌, ◌/◌, ◌%◌, ◌<◌, ◌≡◌, refl, Bool, true, ◌&&◌, arith, ◌==◌,
}
use piiptyyt.Oauth.Base64.{sextet₂, sextet₃, sextet₄}

-- Two functions that agree below a bound, by evaluation.
agree_below : (f g : ℕ → ℕ) → ℕ → Bool
agree_below f g zero = true
agree_below f g (suc n) = f n == g n && agree_below f g n

agree_below→eq : (f g : ℕ → ℕ) (n i : ℕ) → agree_below f g n ≡ true → i < n → f i ≡ g i
unfolding agree_below
agree_below→eq f g zero i e h = absurd (omega arith)
agree_below→eq f g (suc n) i e h = ground (arith, agree_below→eq f g n i)

low_two : (b : ℕ) → b < 256 → bit_and b 0x3 ≡ b % 4
unfolding agree_below
low_two b = agree_below→eq (λ b. bit_and b 0x3) (λ b. b % 4) 256 b refl

low_four : (b : ℕ) → b < 256 → bit_and b 0xf ≡ b % 16
unfolding agree_below
low_four b = agree_below→eq (λ b. bit_and b 0xf) (λ b. b % 16) 256 b refl

low_six : (b : ℕ) → b < 256 → bit_and b 0x3f ≡ b % 64
unfolding agree_below
low_six b = agree_below→eq (λ b. bit_and b 0x3f) (λ b. b % 64) 256 b refl

join_four : (n : ℕ) → n < 64 → bit_or (n / 16 * 16) (n % 16) ≡ n
unfolding agree_below
join_four n = agree_below→eq (λ n. bit_or (n / 16 * 16) (n % 16)) (λ n. n) 64 n refl

join_two : (n : ℕ) → n < 64 → bit_or (n / 4 * 4) (n % 4) ≡ n
unfolding agree_below
join_two n = agree_below→eq (λ n. bit_or (n / 4 * 4) (n % 4)) (λ n. n) 64 n refl

pub sextet₂_lem : (a b : ℕ) → a < 256 → b < 256 → sextet₂ a b ≡ a % 4 * 16 + b / 16
unfolding sextet₂
sextet₂_lem a b ha hb =
    let n = a % 4 * 16 + b / 16 in
    let high : n / 16 ≡ a % 4 = omega arith in
    let rest : n % 16 ≡ b / 16 = omega arith in
    cc (low_two a ha, join_four n (omega arith), high, rest)

pub sextet₃_lem : (b c : ℕ) → b < 256 → c < 256 → sextet₃ b c ≡ b % 16 * 4 + c / 64
unfolding sextet₃
sextet₃_lem b c hb hc =
    let n = b % 16 * 4 + c / 64 in
    let high : n / 4 ≡ b % 16 = omega arith in
    let rest : n % 4 ≡ c / 64 = omega arith in
    cc (low_four b hb, join_two n (omega arith), high, rest)

pub sextet₄_lem : (c : ℕ) → c < 256 → sextet₄ c ≡ c % 64
unfolding sextet₄
sextet₄_lem = low_six
