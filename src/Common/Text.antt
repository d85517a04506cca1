-- ===== src/Common/Text.antt =====
-- C strings: the bytes before the terminating NUL.
use bhc_scheduler.Common.{
  ℕ, ◌-◌, ◌≡◌, refl, Bool, true, false, List, [], ◌∷◌, arith, compare, Ordering, take, ◌↔◌,
}
use Prim.Native.Char.{code}
use Prim.Native.String.{String}

abbrev pub CText : Type 0
CText = List ℕ

-- The bytes of an ASCII literal.
abbrev pub c_text : String → CText
c_text String.[] = []
c_text (String.◌∷◌ c s) = code c ∷ c_text s

-- `strcmp`: bytes as unsigned char, a proper prefix first.
pub strcmp : CText → CText → Ordering
strcmp [] [] = Ordering.eq
strcmp [] (_ ∷ _) = Ordering.lt
strcmp (_ ∷ _) [] = Ordering.gt
strcmp (x ∷ xs) (y ∷ ys) = elim (compare x y) [
  | Ordering.lt ↦ Ordering.lt
  | Ordering.eq ↦ strcmp xs ys
  | Ordering.gt ↦ Ordering.gt
]

abbrev pub is_lt : Ordering → Bool
is_lt Ordering.lt = true
is_lt _ = false

abbrev pub is_eq : Ordering → Bool
is_eq Ordering.eq = true
is_eq _ = false

-- `strcmp(a, b) < 0`
unfoldable pub str_before : CText → CText → Bool
unfolding strcmp
str_before a b = is_lt (strcmp a b)

-- `strcmp(a, b) == 0`
unfoldable pub str_same : CText → CText → Bool
unfolding strcmp
str_same a b = is_eq (strcmp a b)

-- `strncpy(field, s, size - 1)` into a zeroed field of `size` bytes.
abbrev pub copy_field : ℕ → CText → CText
copy_field size s = take (size - 1) s

pub str_same_refl : (a : CText) → str_same a a ≡ true
unfolding str_same
str_same_refl [] = refl
str_same_refl (x ∷ xs) = ground (arith, str_same_refl xs)

pub eq_of_str_same : (a b : CText) → str_same a b ≡ true → a ≡ b
unfolding str_same
eq_of_str_same [] [] h = refl
eq_of_str_same [] (y ∷ ys) h = cc
eq_of_str_same (x ∷ xs) [] h = cc
eq_of_str_same (x ∷ xs) (y ∷ ys) h = ground (arith, eq_of_str_same xs ys)

pub str_same_iff : (a b : CText) → (str_same a b ≡ true) ↔ (a ≡ b)
str_same_iff a b = (eq_of_str_same a b, λ e. rw e (str_same_refl b))

pub str_before_asym : (a b : CText) → str_before a b ≡ true → str_before b a ≡ false
unfolding str_before
str_before_asym [] [] h = cc
str_before_asym [] (y ∷ ys) h = refl
str_before_asym (x ∷ xs) [] h = cc
str_before_asym (x ∷ xs) (y ∷ ys) h = ground (arith, str_before_asym xs ys)

-- "Not after" is transitive.
pub str_before_trans :
    (a b c : CText) → str_before b a ≡ false → str_before c b ≡ false → str_before c a ≡ false
unfolding str_before
str_before_trans [] [] [] h k = refl
str_before_trans [] [] (z ∷ zs) h k = refl
str_before_trans [] (y ∷ ys) [] h k = refl
str_before_trans [] (y ∷ ys) (z ∷ zs) h k = refl
str_before_trans (x ∷ xs) [] c h k = cc
str_before_trans (x ∷ xs) (y ∷ ys) [] h k = cc
str_before_trans (x ∷ xs) (y ∷ ys) (z ∷ zs) h k = ground (arith, str_before_trans xs ys zs)

pub str_before_total : (a b : CText) → str_before a b ≡ false → str_before b a ≡ false → a ≡ b
unfolding str_before
str_before_total [] [] h k = refl
str_before_total [] (y ∷ ys) h k = cc
str_before_total (x ∷ xs) [] h k = cc
str_before_total (x ∷ xs) (y ∷ ys) h k = ground (arith, str_before_total xs ys)

-- `!s[0]`, and `s[0]`.
abbrev pub is_empty : CText → Bool
is_empty [] = true
is_empty (_ ∷ _) = false

abbrev pub has_text : CText → Bool
has_text [] = false
has_text (_ ∷ _) = true
