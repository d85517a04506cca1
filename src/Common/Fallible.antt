-- ===== src/Common/Fallible.antt =====
-- Code that may fault. `none` stands for undefined behaviour in C (a read or a write out of bounds),
-- and for a loop that has not ended when its fuel has run out.
use bhc_scheduler.Common.{◌≡◌, refl, Bool, true, false, Option, none, some, if◌then◌else◌}

infixl 5 ◌>>=◌
abbrev pub ◌>>=◌ {ℓ κ} : {A : Type ℓ} {B : Type κ} → Option A → (A → Option B) → Option B
none >>= f = none
some a >>= f = f a

-- The code runs to its end, and what it returns satisfies `P`.
abbrev pub Yields {ℓ κ} : {A : Type ℓ} → (A → Type κ) → Option A → Type (ℓ ⊔ κ)
Yields {A} P r = (a : A) × (r ≡ some a) × P a

module _ {ℓ κ} {A : Type ℓ} {P : A → Type κ} where
  pub Yields-some : (a : A) → P a → Yields P (some a)
  Yields-some a p = (a, refl, p)

  pub Yields-weaken {μ} :
      {Q : A → Type μ} (r : Option A) → Yields P r → ((a : A) → P a → Q a) → Yields Q r
  Yields-weaken r (a, e, p) f = (a, e, f a p)

  pub Yields-bind {μ ν} :
      {B : Type μ} {Q : B → Type ν} (r : Option A) (f : A → Option B)
      → Yields P r
      → ((a : A) → P a → Yields Q (f a))
      → Yields Q (r >>= f)
  Yields-bind none f (a, e, p) k = absurd (none≢some e)
    where
      none≢some : none ≡ some a → ⊥
      none≢some h = cc
  Yields-bind (some b) f (a, e, p) k = k b (subst_back P e p)
    where
      subst_back : (P : A → Type κ) → some b ≡ some a → P a → P b
      subst_back P h q = let same : b ≡ a = cc in rw same q

  pub Yields-if :
      (b : Bool) (x y : Option A)
      → (b ≡ true → Yields P x)
      → (b ≡ false → Yields P y)
      → Yields P (if b then x else y)
  Yields-if true x y yes_case no_case = yes_case refl
  Yields-if false x y yes_case no_case = no_case refl
