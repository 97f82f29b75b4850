-- ===== src/StateFile/Example.antt =====
-- A key file that is its text: a key with an end mark 0, its value with an end mark 1, and so on, each
-- byte raised by 2. The tests run
-- on it.
use piiptyyt.Prelude.{
  ℕ, ◌+◌, ◌-◌, ◌≡◌, refl, sym, ap, inl, inr, true, false, Option, none, some, [], ◌∷◌, arith, Bytes,
  bytes_eq, ◌==◌, if◌then◌else◌, Bool-cases, ◌>>=◌,
}
use piiptyyt.StateFile.KeyFile.{KeyFile}

pub data Mode : Type 0 where
  matching : Bytes → Mode
  reading skipping : Mode

unfoldable pub raised : Bytes → Bytes → Bytes
raised [] rest = rest
raised (c ∷ s) rest = (c + 2) ∷ raised s rest

unfoldable pub scan : Bytes → Mode → Bytes → Option Bytes
scan j m [] = none
scan j (matching []) (c ∷ f) = if c == 0 then scan j reading f else scan j skipping f
scan j (matching (b ∷ r)) (c ∷ f) = if c == b + 2 then scan j (matching r) f else scan j skipping f
scan j reading (c ∷ f) = if c == 1 then some [] else (scan j reading f >>= λ s. some ((c - 2) ∷ s))
scan j skipping (c ∷ f) = if c == 1 then scan j (matching j) f else scan j skipping f

unfoldable pub entry : Bytes → Bytes → Bytes → Bytes
entry k v f = raised k (0 ∷ raised v (1 ∷ f))

scan_reading : (j v f : Bytes) → scan j reading (raised v (1 ∷ f)) ≡ some v
unfolding scan raised
scan_reading j [] f = refl
scan_reading j (c ∷ v) f =
    let other : (c + 2 == 1) ≡ false = ground arith in
    let back : c + 2 - 2 ≡ c = omega arith in rw (other, scan_reading j v f, back)

scan_skipping_value : (j v f : Bytes) → scan j skipping (raised v (1 ∷ f)) ≡ scan j (matching j) f
unfolding scan raised
scan_skipping_value j [] f = refl
scan_skipping_value j (c ∷ v) f =
    let other : (c + 2 == 1) ≡ false = ground arith in rw other (scan_skipping_value j v f)

scan_skipping : (j k v f : Bytes) → scan j skipping (entry k v f) ≡ scan j (matching j) f
unfolding scan raised entry
scan_skipping j [] v f = scan_skipping_value j v f
scan_skipping j (c ∷ k) v f =
    let other : (c + 2 == 1) ≡ false = ground arith in rw other (scan_skipping j k v f)

scan_self : (j r v f : Bytes) → scan j (matching r) (entry r v f) ≡ some v
unfolding scan raised entry
scan_self j [] v f = scan_reading j v f
scan_self j (c ∷ r) v f =
    let same : (c + 2 == c + 2) ≡ true = ground arith in rw same (scan_self j r v f)

scan_other :
    (j r k v f : Bytes)
    → bytes_eq r k ≡ false
    → scan j (matching r) (entry k v f) ≡ scan j (matching j) f
unfolding scan raised entry
scan_other j [] [] v f new = ground arith
scan_other j [] (c ∷ k) v f new =
    let more : (c + 2 == 0) ≡ false = ground arith in rw more (scan_skipping j k v f)
scan_other j (b ∷ r) [] v f new =
    let ends : (0 == b + 2) ≡ false = ground arith in rw ends (scan_skipping_value j v f)
scan_other j (b ∷ r) (c ∷ k) v f new = elim (Bool-cases (c + 2 == b + 2)) [
  | inl same ↦ rw same (scan_other j r k v f (ground arith))
  | inr differ ↦ rw differ (scan_skipping j k v f)
]

unfoldable pub set_text : Bytes → Option Bytes → Bytes → Bytes
set_text k none f = f
set_text k (some v) f = entry k v f

unfoldable pub get_text : Bytes → Bytes → Option Bytes
get_text k f = scan k (matching k) f

unfoldable pub first_or_zero : Option Bytes → ℕ
first_or_zero none = 0
first_or_zero (some []) = 0
first_or_zero (some (n ∷ s)) = n

pub get_text-set_text_ne :
    (j k : Bytes) (v : Option Bytes) (f : Bytes)
    → bytes_eq j k ≡ false
    → get_text j (set_text k v f) ≡ get_text j f
unfolding get_text set_text
get_text-set_text_ne j k none f new = refl
get_text-set_text_ne j k (some v) f new = scan_other j j k v f new

pub found : (k v f : Bytes) → get_text k (set_text k (some v) f) ≡ some v
unfolding get_text set_text
found k v f = scan_self k k v f

pub number :
    (k : Bytes) (n : ℕ) (f : Bytes) → first_or_zero (get_text k (set_text k (some (n ∷ [])) f)) ≡ n
unfolding first_or_zero
number k n f = ap first_or_zero (found k (n ∷ []) f)

abbrev pub text_file : KeyFile
text_file = record {
  File = Bytes;
  new = [];
  set_string = λ g k v f. set_text k v f;
  set_uint64 = λ g k n f. set_text k (some (n ∷ [])) f;
  get_string = λ g k f. get_text k f;
  get_uint64 = λ g k f. first_or_zero (get_text k f);
  to_data = λ f. some f;
  load = λ s. some s;
  IsText = λ s. Unit;
  get_string-set_string = λ g k v f _ _ _. found k v f;
  get_string-set_string_ne = λ g j k v f new. get_text-set_text_ne j k (some v) f new;
  get_string-set_uint64_ne = λ g j k n f new. get_text-set_text_ne j k (some (n ∷ [])) f new;
  get_uint64-set_uint64 = λ g k n f _ _ small. number k n f;
  load-to_data = λ f s e. (f, sym e, λ g k. refl, λ g k. refl);
}
