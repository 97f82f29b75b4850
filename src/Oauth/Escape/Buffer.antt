-- ===== src/Oauth/Escape/Buffer.antt =====
-- The buffer of `oauth_url_escape`: its size doubles, and every write is checked against it.
use piiptyyt.Prelude.{
  ℕ, suc, ◌+◌, ◌*◌, ◌%◌, ◌^◌, ◌≤◌, ◌<◌, ◌≡◌, refl, sym, inl, inr, Option, none, some, [], ◌∷◌, ◌++◌,
  append-nil, append_assoc, arith, Bytes, length, length-append, ltb, leb, if◌then◌else◌,
  Bool-cases, ◌>>=◌,
}
use piiptyyt.Oauth.Escape.{is_unreserved, percent, escape_char, escape}

-- The variables of the loop; `ns` is what was written so far, so `strindex` is its length.
pub record Buffer : Type 0 where
  pub alloc : ℕ
  pub newlen : ℕ
  pub ns : Bytes

abbrev pub strindex : Buffer → ℕ
strindex b = length b.ns

abbrev pub size_mod : ℕ
size_mod = 2 ^ 64

-- `none` is a write outside of the buffer: `n` bytes at `ns[strindex]`, of which `text` is kept.
unfoldable pub write : Buffer → ℕ → Bytes → Option Buffer
write b n text =
    if leb (strindex b + n) b.alloc then some (record b { ns = b.ns ++ text }) else none

-- `newlen += 2`, and the reallocation.
unfoldable pub grow : Buffer → Buffer
grow b =
    let newlen = (b.newlen + 2) % size_mod in
    let alloc = if ltb b.alloc newlen then b.alloc * 2 % size_mod else b.alloc in
    record b { alloc = alloc; newlen = newlen }

-- One round of the loop; `snprintf` writes three characters and a terminator.
unfoldable pub escape_round : Buffer → ℕ → Option Buffer
escape_round b c = if is_unreserved c then write b 1 (c ∷ []) else write (grow b) 4 (percent c)

unfoldable pub escape_loop : Buffer → Bytes → Option Buffer
escape_loop b [] = some b
escape_loop b (c ∷ s) = escape_round b c >>= λ b'. escape_loop b' s

-- `ns[strindex] = 0` is the last write.
unfoldable pub oauth_url_escape : Option Bytes → Option Bytes
oauth_url_escape none = some []
oauth_url_escape (some s) =
    let alloc = (length s + 1) % size_mod in
    escape_loop (record { alloc = alloc; newlen = alloc; ns = [] }) s >>= λ b.
    write b 1 [] >>= λ b'. some b'.ns

-- With `rest` characters to read, `newlen` is what is needed if none of them is escaped.
record Fits (rest : ℕ) (b : Buffer) : Type 0 where
  needed : b.newlen ≡ strindex b + rest + 1
  roomy : b.newlen ≤ b.alloc
  doubled : b.alloc ≤ 2 * b.newlen
  small : b.newlen + 2 * rest < 2 ^ 62

write_lem :
    (b : Buffer) (n : ℕ) (text : Bytes)
    → strindex b + n ≤ b.alloc
    → write b n text ≡ some (record b { ns = b.ns ++ text })
unfolding write
write_lem b n text h = ground arith

grow_lem :
    (rest : ℕ) (b : Buffer)
    → Fits (suc rest) b
    → ((grow b).newlen ≡ b.newlen + 2)
      × ((grow b).newlen ≤ (grow b).alloc)
      × ((grow b).alloc ≤ 2 * (grow b).newlen)
unfolding grow
grow_lem rest b f = ground arith

escape_round-Fits :
    (rest : ℕ) (b : Buffer) (c : ℕ)
    → Fits (suc rest) b
    → (b' : Buffer) × (escape_round b c ≡ some b') × Fits rest b' × (b'.ns ≡ b.ns ++ escape_char c)
unfolding escape_round escape_char percent grow
escape_round-Fits rest b c f = elim (Bool-cases (is_unreserved c)) [
  | inl plain ↦ (
    record b { ns = b.ns ++ c ∷ [] },
    rw plain (write_lem b 1 (c ∷ []) (omega arith)),
    record {
      needed = omega (arith, length-append b.ns (c ∷ []));
      roomy = f.roomy;
      doubled = f.doubled;
      small = omega arith;
    },
    rw plain,
  )
  | inr escaped ↦
      let (newlen, roomy, doubled) = grow_lem rest b f in
      (
        record (grow b) { ns = b.ns ++ percent c },
        rw escaped (write_lem (grow b) 4 (percent c) (unfold grow in omega arith)),
        record {
          needed = omega (arith, length-append b.ns (percent c));
          roomy = roomy;
          doubled = doubled;
          small = omega arith;
        },
        rw escaped,
      )
]

escape_loop-Fits :
    (s : Bytes) (b : Buffer)
    → Fits (length s) b
    → (b' : Buffer) × (escape_loop b s ≡ some b') × Fits 0 b' × (b'.ns ≡ b.ns ++ escape s)
unfolding escape_loop escape
escape_loop-Fits [] b f = (b, refl, f, sym (append-nil b.ns))
escape_loop-Fits (c ∷ s) b f =
    let (b₁, e₁, f₁, ns₁) = escape_round-Fits (length s) b c f in
    let (b₂, e₂, f₂, ns₂) = escape_loop-Fits s b₁ f₁ in
    (b₂, rw e₁ e₂, f₂, rw (ns₂, ns₁, append_assoc))

-- For every string of fewer than 2 ^ 60 bytes, no write of the routine leaves its buffer, in
-- spite of the wrap-around of the sizes, and the text it returns is the percent-encoding.
pub url_escape-escape :
    (s : Bytes) → length s < 2 ^ 60 → oauth_url_escape (some s) ≡ some (escape s)
unfolding oauth_url_escape
url_escape-escape s h =
    let alloc = (length s + 1) % size_mod in
    let start : Buffer = record { alloc = alloc; newlen = alloc; ns = [] } in
    let fits : Fits (length s) start = record {
      needed = omega arith;
      roomy = omega arith;
      doubled = omega arith;
      small = omega arith;
    } in
    let (b, done, f, text) = escape_loop-Fits s start fits in
    rw (done, write_lem b 1 [] (omega (arith, f.needed, f.roomy)), append-nil, text)
