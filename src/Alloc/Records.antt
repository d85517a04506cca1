-- ===== src/Alloc/Records.antt =====
-- The allocator's table: what taking, writing and finding a record do to what the table holds.
use bhc_scheduler.Common.{
  ℕ, zero, suc, inl, inr, ◌+◌, ◌≡◌, refl, ap, sym, ◌∙◌, Bool, true, false, Option, none, some, List,
  [], ◌∷◌, ◌++◌, arith, Bool-cases, if◌then◌else◌, length, set,
}
use mathlib.Core.Path.{subst}
use bhc_scheduler.Common.Text.{CText}
use bhc_scheduler.Alloc.{
  AllocRecord, AllocSystem, holds_job, has_active, fresh_record, reuse, extended, grow,
  reuse_or_grow, alloc_record_acquire, find_record,
}
use bhc_scheduler.Alloc.Books.{
  Amounts, nothing_held, ◌⊕◌, ⊕_comm, ⊕_assoc, ⊕_zero, on_slots, held, Sound,
}

-- The record at index `i`.
abbrev pub At : List AllocRecord → ℕ → AllocRecord → Type 0
At [] i r = ⊥
At (x ∷ xs) zero r = x ≡ r
At (x ∷ xs) (suc i) r = At xs i r

-- An inactive record has no slots, and no slot has a negative amount.
abbrev pub IsTidy : AllocRecord → Type 0
IsTidy r = Sound r.slots × (r.active ≡ false → r.slots ≡ [])

abbrev pub AllTidy : List AllocRecord → Type 0
AllTidy [] = Unit
AllTidy (r ∷ rs) = IsTidy r × AllTidy rs

pub set-AllTidy :
    (l : List AllocRecord) (i : ℕ) (r : AllocRecord) → AllTidy l → IsTidy r → AllTidy (set l i r)
set-AllTidy [] i r t h = t
set-AllTidy (x ∷ l) zero r t h = (h, t.1)
set-AllTidy (x ∷ l) (suc i) r t h = (t.0, set-AllTidy l i r t.1 h)

pub set-At : (l : List AllocRecord) (i : ℕ) (x r : AllocRecord) → At l i x → At (set l i r) i r
set-At [] i x r h = absurd h
set-At (y ∷ l) zero x r h = refl
set-At (y ∷ l) (suc i) x r h = set-At l i x r h

pub At-Sound :
    (l : List AllocRecord) (i : ℕ) (x : AllocRecord) → AllTidy l → At l i x → Sound x.slots
At-Sound [] i x t h = absurd h
At-Sound (y ∷ l) zero x t h = rw (← h) t.0.0
At-Sound (y ∷ l) (suc i) x t h = At-Sound l i x t.1 h

swap_heads : (a b c : Amounts) → a ⊕ b ⊕ c ≡ a ⊕ c ⊕ b
swap_heads a b c = ⊕_assoc a b c ∙ ap (λ x. a ⊕ x) (⊕_comm b c) ∙ sym (⊕_assoc a c b)

-- Writing `r` over `x` trades what `x` holds for what `r` holds.
pub held-set :
    (k : CText) (l : List AllocRecord) (i : ℕ) (x r : AllocRecord)
    → At l i x
    → held k (set l i r) ⊕ on_slots k x.slots ≡ held k l ⊕ on_slots k r.slots
held-set k [] i x r h = absurd h
held-set k (y ∷ l) zero x r h = rw h (
    ⊕_comm (on_slots k r.slots ⊕ held k l) (on_slots k x.slots)
    ∙ sym (⊕_assoc (on_slots k x.slots) (on_slots k r.slots) (held k l))
    ∙ swap_heads (on_slots k x.slots) (on_slots k r.slots) (held k l))
held-set k (y ∷ l) (suc i) x r h =
    ⊕_assoc (on_slots k y.slots) (held k (set l i r)) (on_slots k x.slots)
    ∙ ap (λ z. on_slots k y.slots ⊕ z) (held-set k l i x r h)
    ∙ sym (⊕_assoc (on_slots k y.slots) (held k l) (on_slots k r.slots))

pub held-append :
    (k : CText) (l : List AllocRecord) (r : AllocRecord)
    → r.slots ≡ []
    → held k (l ++ r ∷ []) ≡ held k l
held-append k [] r h = rw h (⊕_zero nothing_held)
held-append k (x ∷ l) r h = ap (λ z. on_slots k x.slots ⊕ z) (held-append k l r h)

append-AllTidy :
    (l : List AllocRecord) (r : AllocRecord) → AllTidy l → IsTidy r → AllTidy (l ++ r ∷ [])
append-AllTidy [] r t h = (h, t)
append-AllTidy (x ∷ l) r t h = (t.0, append-AllTidy l r t.1 h)

append-At : (l : List AllocRecord) (r : AllocRecord) → At (l ++ r ∷ []) (length l) r
append-At [] r = refl
append-At (x ∷ l) r = append-At l r

-- `l'` is `l` with an empty record for the job at index `i`, and nothing more is held.
abbrev pub Taken : CText → List AllocRecord → ℕ → List AllocRecord → Type 0
Taken job_id l i l' =
    At l' i (fresh_record job_id) × ((k : CText) → held k l' ≡ held k l) × (AllTidy l → AllTidy l')

abbrev put_back : AllocRecord → Option (ℕ × List AllocRecord) → Option (ℕ × List AllocRecord)
put_back r none = none
put_back r (some (at, rest)) = some (at, r ∷ rest)

put_back-some :
    (r : AllocRecord) (o : Option (ℕ × List AllocRecord)) (at : ℕ) (l' : List AllocRecord)
    → put_back r o ≡ some (at, l')
    → (rest : List AllocRecord) × (o ≡ some (at, rest)) × (l' ≡ r ∷ rest)
put_back-some r none at l' h = absurd (let e : none ≡ some (at, l') = h in cc)
put_back-some r (some (a, rest)) at l' h = (rest, grind arith, grind arith)

reuse-none : (job_id : CText) (n : ℕ) → reuse job_id [] n ≡ none
unfolding reuse
reuse-none job_id n = refl

reuse_active :
    (job_id : CText) (r : AllocRecord) (l : List AllocRecord) (n : ℕ)
    → r.active ≡ true
    → reuse job_id (r ∷ l) n ≡ put_back r (reuse job_id l (suc n))
unfolding reuse
reuse_active job_id r l n e = ground arith

reuse_inactive :
    (job_id : CText) (r : AllocRecord) (l : List AllocRecord) (n : ℕ)
    → r.active ≡ false
    → reuse job_id (r ∷ l) n ≡ some (n, fresh_record job_id ∷ l)
unfolding reuse
reuse_inactive job_id r l n e = rw e refl

pub fresh-IsTidy : (job_id : CText) → IsTidy (fresh_record job_id)
fresh-IsTidy job_id = (tt, λ h. refl)

reuse_here :
    (job_id : CText) (r : AllocRecord) (l : List AllocRecord)
    → IsTidy r
    → r.active ≡ false
    → Taken job_id (r ∷ l) 0 (fresh_record job_id ∷ l)
reuse_here job_id r l t e = (refl, λ k. rw (t.1 e) refl, λ all. (fresh-IsTidy job_id, all.1))

reuse_later :
    (job_id : CText) (r : AllocRecord) (l : List AllocRecord) (i : ℕ) (rest : List AllocRecord)
    → Taken job_id l i rest
    → Taken job_id (r ∷ l) (suc i) (r ∷ rest)
reuse_later job_id r l i rest (here, same, tidy) =
    (here, λ k. ap (λ z. on_slots k r.slots ⊕ z) (same k), λ all. (all.0, tidy all.1))

some_pair : (p q : ℕ × List AllocRecord) → some p ≡ some q → (p.0 ≡ q.0) × (p.1 ≡ q.1)
some_pair p q h = grind arith

reuse-Taken :
    (job_id : CText) (l : List AllocRecord) (n at : ℕ) (l' : List AllocRecord)
    → AllTidy l
    → reuse job_id l n ≡ some (at, l')
    → (i : ℕ) × (at ≡ n + i) × Taken job_id l i l'
reuse-Taken job_id [] n at l' t h =
    absurd (let e : none ≡ some (at, l') = sym (reuse-none job_id n) ∙ h in cc)
reuse-Taken job_id (r ∷ l) n at l' t h = elim (Bool-cases r.active) [
  | inr e ↦
      let (first, second) =
        some_pair (n, fresh_record job_id ∷ l) (at, l') (sym (reuse_inactive job_id r l n e) ∙ h) in
      (0, omega arith, subst (Taken job_id (r ∷ l) 0) second (reuse_here job_id r l t.0 e))
  | inl e ↦
      let (rest, found, whole) =
        put_back-some r (reuse job_id l (suc n)) at l' (sym (reuse_active job_id r l n e) ∙ h) in
      let (i, index, taken) = reuse-Taken job_id l (suc n) at rest t.1 found in
      (
        suc i,
        omega arith,
        subst (Taken job_id (r ∷ l) (suc i)) (sym whole) (reuse_later job_id r l i rest taken),
      )
]

append-Taken :
    (job_id : CText) (l : List AllocRecord)
    → Taken job_id l (length l) (l ++ fresh_record job_id ∷ [])
append-Taken job_id l = (
  append-At l (fresh_record job_id),
  λ k. held-append k l (fresh_record job_id) refl,
  λ t. append-AllTidy l (fresh_record job_id) t (fresh-IsTidy job_id),
)

-- A record is acquired or nothing is: the machines and the database are as they were.
abbrev pub Acquired : CText → AllocSystem → ℕ × AllocSystem → Type 0
Acquired job_id s (i, t) =
    (t.machines ≡ s.machines) × (t.db ≡ s.db) × Taken job_id s.allocs i t.allocs

extended-Acquired :
    (job_id : CText) (s : AllocSystem) (c : ℕ) → Acquired job_id s (extended job_id s c)
extended-Acquired job_id s c = (refl, refl, append-Taken job_id s.allocs)

-- What an optional value satisfies when there is one.
abbrev Only {ℓ κ} : {A : Type ℓ} → (A → Type κ) → Option A → Type (ℓ ⊔ κ)
Only {A} P o = (a : A) → o ≡ some a → P a

module _ {ℓ κ} {A : Type ℓ} (P : A → Type κ) where
  Only-none : Only P none
  Only-none a h = absurd (let e : none ≡ some a = h in cc)

  Only-some : (a : A) → P a → Only P (some a)
  Only-some a p b h = let e : a ≡ b = cc in subst P e p

  Only-if : (b : Bool) (x y : Option A) → Only P x → Only P y → Only P (if b then x else y)
  Only-if true x y p q = p
  Only-if false x y p q = q

extended-Only :
    (job_id : CText) (s : AllocSystem) (c : ℕ)
    → Only (Acquired job_id s) (some (extended job_id s c))
extended-Only job_id s c =
    Only-some (Acquired job_id s) (extended job_id s c) (extended-Acquired job_id s c)

grow-Acquired : (job_id : CText) (s : AllocSystem) → Only (Acquired job_id s) (grow job_id s)
grow-Acquired job_id s =
    Only-if (Acquired job_id s) _ _ _
      (Only-if (Acquired job_id s) _ _ _ (extended-Only job_id s _) (Only-none (Acquired job_id s)))
      (extended-Only job_id s _)

reuse_or_grow-Acquired :
    (job_id : CText) (s : AllocSystem) (o : Option (ℕ × List AllocRecord))
    → AllTidy s.allocs
    → reuse job_id s.allocs 0 ≡ o
    → Only (Acquired job_id s) (reuse_or_grow job_id s o)
reuse_or_grow-Acquired job_id s none t h = grow-Acquired job_id s
reuse_or_grow-Acquired job_id s (some (at, l)) t h =
    let (i, same, taken) = reuse-Taken job_id s.allocs 0 at l t h in
    let index : i ≡ at = omega arith in
    Only-some (Acquired job_id s) (at, record s { allocs = l }) (refl, refl, rw index at taken)

pub acquire-Acquired :
    (job_id : CText) (s : AllocSystem)
    → AllTidy s.allocs
    → Only (Acquired job_id s) (alloc_record_acquire job_id s)
unfolding alloc_record_acquire
acquire-Acquired job_id s t =
    let P = Acquired job_id s in
    Only-if P (has_active job_id s.allocs) _ _ (Only-none P)
      (reuse_or_grow-Acquired job_id s (reuse job_id s.allocs 0) t refl)

abbrev Stands : List AllocRecord → ℕ → ℕ × AllocRecord → Type 0
Stands l n p = (i : ℕ) × (p.0 ≡ n + i) × At l i p.1

-- The record that is found stands at its index.
found_at :
    (job_id : CText) (l : List AllocRecord) (n : ℕ) → Only (Stands l n) (find_record job_id l n)
unfolding find_record
found_at job_id [] n = Only-none (Stands [] n)
found_at job_id (r ∷ l) n =
    let P = Stands (r ∷ l) n in
    Only-if P (holds_job job_id r) _ _ (Only-some P (n, r) (0, omega arith, refl))
      (λ p h. let (i, index, here) = found_at job_id l (suc n) p h in (suc i, omega arith, here))

pub find_record-At :
    (job_id : CText) (l : List AllocRecord) (i : ℕ) (r : AllocRecord)
    → find_record job_id l 0 ≡ some (i, r)
    → At l i r
find_record-At job_id l i r h =
    let (j, index, here) = found_at job_id l 0 (i, r) h in
    let same : j ≡ i = omega arith in rw same at here
