-- ===== src/Prelude/Text.antt =====
-- C strings as lists of bytes; a `char *` that may be NULL is an `Option` of one.
use Prim.Native.Nat.{ℕ, compare, Ordering}
use Prim.Native.Char.{code}
use Prim.Native.String.{String}
use mathlib.Core.Path.{◌≡◌, refl}
use mathlib.Core.Logic.{◌↔◌}
use mathlib.Core.Bool.{Bool, true, false}
use mathlib.Core.List.{List, [], ◌∷◌}
use native.Mathlib.Omega.{arith}

abbrev pub Bytes : Type 0
Bytes = List ℕ

-- The bytes of an ASCII literal.
abbrev pub codes : String → Bytes
codes String.[] = []
codes (String.◌∷◌ c s) = code c ∷ codes s

-- `strcmp`: the first difference decides, and a prefix comes first.
abbrev pub strcmp : Bytes → Bytes → Ordering
strcmp [] [] = Ordering.eq
strcmp [] (b ∷ t) = Ordering.lt
strcmp (a ∷ s) [] = Ordering.gt
strcmp (a ∷ s) (b ∷ t) = elim (compare a b) [
  | Ordering.lt ↦ Ordering.lt
  | Ordering.eq ↦ strcmp s t
  | Ordering.gt ↦ Ordering.gt
]

-- `strcmp(s, t) == 0`
abbrev pub bytes_eq : Bytes → Bytes → Bool
bytes_eq s t = elim (strcmp s t) [ Ordering.eq ↦ true | _ ↦ false ]

strcmp-eq : (s t : Bytes) → strcmp s t ≡ Ordering.eq → s ≡ t
strcmp-eq [] [] h = refl
strcmp-eq [] (b ∷ t) h = ground arith
strcmp-eq (a ∷ s) [] h = ground arith
strcmp-eq (a ∷ s) (b ∷ t) h = ground (arith, strcmp-eq s t)

strcmp_self : (s : Bytes) → strcmp s s ≡ Ordering.eq
strcmp_self [] = refl
strcmp_self (a ∷ s) = ground (arith, strcmp_self s)

pub bytes_eq_iff : (s t : Bytes) → (bytes_eq s t ≡ true) ↔ (s ≡ t)
bytes_eq_iff s t = ground (arith, strcmp-eq s t, strcmp_self s)

pub bytes_ne : (s t : Bytes) → bytes_eq s t ≡ false → ¬ (s ≡ t)
bytes_ne s t e same = ground (arith, (bytes_eq_iff s t).1 same)

abbrev pub decide_eq : (b : Bool) (s t : Bytes) → bytes_eq s t ≡ b → Dec (s ≡ t)
decide_eq true s t e = yes ((bytes_eq_iff s t).0 e)
decide_eq false s t e = no (bytes_ne s t e)

-- `g_str_equal` decides.
abbrev pub bytes_discrete : Discrete Bytes
bytes_discrete s t = decide_eq (bytes_eq s t) s t refl
