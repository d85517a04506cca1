-- ===== src/Common/Array.antt =====
-- Arrays as lists: what a swap and a write do to the entries.
use bhc_scheduler.Common.{
  Perm, ◌++◌, ◌∷◌, [], List, length, length-set, take, set, get_or, get_elem?, some, ap, ◌∙◌, refl,
  ◌≡◌, ◌<◌, ℕ, zero, suc, ◌==◌, if◌then◌else◌, arith,
}
use mathlib.Core.List.{append-nil, perm_middle, Permᴰ}
use mathlib.Core.List.Perm
use native.Mathlib.Nat.{ℕ_set}
use mathlib.Core.Logic.{∥∥₁_elim}

module _ {ℓ} {A : Type ℓ} (z : A) where
  pub get_elem?-get_or :
      (xs : List A) (n : ℕ) → n < length xs → get_elem? xs n ≡ some (get_or xs n z)
  get_elem?-get_or [] n h = absurd (omega arith)
  get_elem?-get_or (y ∷ xs) zero h = refl
  get_elem?-get_or (y ∷ xs) (suc n) h = get_elem?-get_or xs n (omega arith)

  pub get_or-set :
      (xs : List A) (n m : ℕ) (new : A)
      → n < length xs
      → get_or (set xs n new) m z ≡ (if n == m then new else get_or xs m z)
  get_or-set [] n m new h = absurd (omega arith)
  get_or-set (y ∷ xs) zero zero new h = refl
  get_or-set (y ∷ xs) zero (suc m) new h = ground arith
  get_or-set (y ∷ xs) (suc n) zero new h = ground arith
  get_or-set (y ∷ xs) (suc n) (suc m) new h = ground (arith, get_or-set xs n m new)

  pub get_or-take :
      (count : ℕ) (xs : List A) (n : ℕ) → n < count → get_or (take count xs) n z ≡ get_or xs n z
  get_or-take zero xs n h = absurd (omega arith)
  get_or-take (suc count) [] n h = refl
  get_or-take (suc count) (y ∷ xs) zero h = refl
  get_or-take (suc count) (y ∷ xs) (suc n) h = get_or-take count xs n (omega arith)

  pub get_or-append : (xs b : List A) (n : ℕ) → n < length xs → get_or (xs ++ b) n z ≡ get_or xs n z
  get_or-append [] b n h = absurd (omega arith)
  get_or-append (y ∷ xs) b zero h = refl
  get_or-append (y ∷ xs) b (suc n) h = get_or-append xs b n (omega arith)

  pub get_or-append_last : (xs : List A) (y : A) → get_or (xs ++ y ∷ []) (length xs) z ≡ y
  get_or-append_last [] y = refl
  get_or-append_last (w ∷ xs) y = get_or-append_last xs y

  -- The last entry, and those before it.
  pub snoc_split :
      (count : ℕ) (xs : List A)
      → length xs ≡ suc count
      → take count xs ++ get_or xs count z ∷ [] ≡ xs
  snoc_split count [] h = absurd (omega arith)
  snoc_split zero (y ∷ []) h = refl
  snoc_split zero (y ∷ w ∷ xs) h = absurd (omega arith)
  snoc_split (suc count) (y ∷ xs) h = ap (◌∷◌ y) (snoc_split count xs (omega arith))

  -- A write puts `new` in for the entry that it removes.
  pub set-Perm :
      (xs : List A) (n : ℕ) (new : A)
      → n < length xs
      → Perm (get_or xs n z ∷ set xs n new) (new ∷ xs)
  set-Perm [] n new h = absurd (omega arith)
  set-Perm (y ∷ xs) zero new h = Perm.swap new y xs
  set-Perm (y ∷ xs) (suc n) new h =
      Perm.trans (Perm.swap y (get_or xs n z) (set xs n new))
        (Perm.trans (Perm.cons y (set-Perm xs n new (omega arith))) (Perm.swap new y xs))

  abbrev pub exchange : List A → ℕ → ℕ → List A
  exchange xs n m = set (set xs n (get_or xs m z)) m (get_or xs n z)

  module _ (xs : List A) (n m : ℕ) (n_in : n < length xs) (m_in : m < length xs) where
    inner_length : m < length (set xs n (get_or xs m z))
    inner_length = omega (arith, length-set xs n (get_or xs m z))

    pub get_or-exchange :
        (k : ℕ)
        → get_or (exchange xs n m) k z
          ≡ (if m == k then get_or xs n z else if n == k then get_or xs m z else get_or xs k z)
    get_or-exchange k = rw (
      get_or-set (set xs n (get_or xs m z)) m k (get_or xs n z) inner_length,
      get_or-set xs n k (get_or xs m z) n_in,
    )

    pub exchange-Perm : Perm (exchange xs n m) xs
    exchange-Perm =
        let held : get_or (set xs n (get_or xs m z)) m z ≡ get_or xs m z =
          ground (arith, get_or-set xs n m (get_or xs m z)) in
        let written =
          rw held at (set-Perm (set xs n (get_or xs m z)) m (get_or xs n z) inner_length) in
        Perm.cons_inv (Perm.trans written (set-Perm xs n (get_or xs m z) n_in))

  pub length-exchange : (xs : List A) (n m : ℕ) → length (exchange xs n m) ≡ length xs
  length-exchange xs n m =
      length-set (set xs n (get_or xs m z)) m (get_or xs n z) ∙ length-set xs n (get_or xs m z)

module _ {ℓ} {A : Type ℓ} where
  pub snoc-Perm : (xs : List A) (y : A) → Perm (xs ++ y ∷ []) (y ∷ xs)
  snoc-Perm xs y = rw (append-nil xs) at (perm_middle {a = y} xs [])

  same_size : {l l' : List A} → Permᴰ l l' → length l ≡ length l'
  same_size (Permᴰ.trans first rest) = same_size first ∙ same_size rest
  same_size (Permᴰ.cons head tail) = ap suc (same_size tail)
  same_size (Permᴰ.swap _ _) = refl
  same_size Permᴰ.nil = refl

  pub length-Perm : {l l' : List A} → Perm l l' → length l ≡ length l'
  length-Perm same = ∥∥₁_elim same (ℕ_set _ _) same_size
