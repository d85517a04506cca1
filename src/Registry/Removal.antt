-- ===== src/Registry/Removal.antt =====
-- `registry_remove`: the last machine takes the place of the one that goes.
use mathlib.Core.Path.{subst}
use bhc_scheduler.Common.{
  ℕ, zero, suc, ◌+◌, ◌-◌, ◌≡◌, refl, ap, sym, ◌⊎◌, inl, inr, true, false, Option, none, some, List,
  [], ◌∷◌, ◌++◌, arith, Bool-cases, if◌then◌else◌, length, length-append, length-set, get_elem?,
  set, take,
}
use bhc_scheduler.Common.Text.{CText, str_same, str_same_iff}
use bhc_scheduler.Common.Fallible.{Yields, Yields-some, Yields-bind}
use bhc_scheduler.Common.Rc.{Rc, ok, error, conflict}
use bhc_scheduler.Registry.{Machine, registry_get_copy}
use bhc_scheduler.Registry.Changes.{
  machine_index, is_reserved, drop_machine, remove_at, remove_found, registry_remove,
}
use bhc_scheduler.Registry.Invariant.{Fits, AllFit, Absent, Distinct, IsValid}

-- The table seen from its end.
abbrev snoc : List Machine → Machine → List Machine
snoc init last = init ++ last ∷ []

snoc_view :
    (m : Machine) (ms : List Machine)
    → (init : List Machine) × (last : Machine) × (m ∷ ms ≡ snoc init last)
snoc_view m [] = ([], m, refl)
snoc_view m (x ∷ ms) = let (init, last, e) = snoc_view x ms in (m ∷ init, last, ap (◌∷◌ m) e)

last_entry :
    (init : List Machine) (last : Machine) → get_elem? (snoc init last) (length init) ≡ some last
last_entry [] last = refl
last_entry (x ∷ init) last = last_entry init last

set-snoc :
    (init : List Machine) (last : Machine) (i : ℕ)
    → take (length init) (set (snoc init last) i last) ≡ set init i last
set-snoc [] last i = refl
set-snoc (x ∷ init) last zero = ap (◌∷◌ last) (take-snoc init)
  where
    take-snoc : (a : List Machine) → take (length a) (snoc a last) ≡ a
    take-snoc [] = refl
    take-snoc (y ∷ a) = ap (◌∷◌ y) (take-snoc a)
set-snoc (x ∷ init) last (suc i) = ap (◌∷◌ x) (set-snoc init last i)

drop_machine-snoc :
    (init : List Machine) (last : Machine) (i : ℕ)
    → drop_machine (snoc init last) i ≡ some (set init i last)
unfolding drop_machine
drop_machine-snoc init last i =
    let size : length (snoc init last) - 1 ≡ length init =
      omega (arith, length-append init (last ∷ [])) in
    rw (size, last_entry init last, set-snoc init last i) refl

Absent-find : (k : CText) (ms : List Machine) → Absent k ms → registry_get_copy k ms ≡ none
unfolding registry_get_copy
Absent-find k [] h = refl
Absent-find k (m ∷ ms) h = rw h.0 (Absent-find k ms h.1)

Absent-entry :
    (k : CText) (ms : List Machine) (i : ℕ) (m : Machine)
    → Absent k ms
    → get_elem? ms i ≡ some m
    → str_same m.id k ≡ false
Absent-entry k [] i m h e = cc
Absent-entry k (x ∷ ms) zero m h e = let same : x ≡ m = cc in rw same at h.0
Absent-entry k (x ∷ ms) (suc i) m h e = Absent-entry k ms i m h.1 e

Absent-snoc :
    (k : CText) (init : List Machine) (last : Machine)
    → Absent k (snoc init last)
    → Absent k init × (str_same last.id k ≡ false)
Absent-snoc k [] last h = (tt, h.0)
Absent-snoc k (x ∷ init) last h =
    let (rest, apart) = Absent-snoc k init last h.1 in ((h.0, rest), apart)

-- The last entry of a table with distinct ids is found under its own id only.
find-snoc :
    (k : CText) (init : List Machine) (last : Machine)
    → Distinct (snoc init last)
    → registry_get_copy k (snoc init last)
      ≡ (if str_same last.id k then some last else registry_get_copy k init)
unfolding registry_get_copy
find-snoc k [] last h = refl
find-snoc k (x ∷ init) last h =
    let apart = (Absent-snoc x.id init last h.0).1 in
    ground (
      arith,
      find-snoc k init last h.1,
      apart,
      str_same_iff last.id x.id,
      str_same_iff last.id k,
      str_same_iff x.id k,
    )

-- After entry `i` was dropped its id is not found, and every other id finds what it found.
find-dropped :
    (init : List Machine) (last : Machine) (i : ℕ) (m : Machine)
    → Distinct (snoc init last)
    → get_elem? (snoc init last) i ≡ some m
    → (k : CText)
    → registry_get_copy k (set init i last)
      ≡ (if str_same m.id k then none else registry_get_copy k (snoc init last))
unfolding registry_get_copy
find-dropped [] last zero m h e k = ground arith
find-dropped [] last (suc i) m h e k = cc
find-dropped (x ∷ init) last zero m h e k =
    let (rest, apart) = Absent-snoc x.id init last h.0 in
    ground (
      arith,
      find-snoc k init last h.1,
      Absent-find x.id init rest,
      apart,
      str_same_iff last.id x.id,
      str_same_iff last.id k,
      str_same_iff x.id k,
    )
find-dropped (x ∷ init) last (suc i) m h e k = ground (
  arith,
  find-dropped init last i m h.1 e k,
  Absent-entry x.id (snoc init last) i m h.0 e,
  str_same_iff m.id x.id,
  str_same_iff m.id k,
  str_same_iff x.id k,
)

set-AllFit :
    (init : List Machine) (last : Machine) (i : ℕ)
    → AllFit (snoc init last)
    → AllFit (set init i last) × Fits last
set-AllFit [] last i h = (tt, h.0)
set-AllFit (x ∷ init) last zero h =
    let (rest, fits) = set-AllFit init last (length init) h.1 in ((fits, all_of init h.1), fits)
  where
    all_of : (a : List Machine) → AllFit (snoc a last) → AllFit a
    all_of [] h = tt
    all_of (y ∷ a) h = (h.0, all_of a h.1)
set-AllFit (x ∷ init) last (suc i) h =
    let (rest, fits) = set-AllFit init last i h.1 in ((h.0, rest), fits)

set-Absent :
    (k : CText) (init : List Machine) (last : Machine) (i : ℕ)
    → Absent k init
    → str_same last.id k ≡ false
    → Absent k (set init i last)
set-Absent k [] last i h apart = tt
set-Absent k (x ∷ init) last zero h apart = (apart, h.1)
set-Absent k (x ∷ init) last (suc i) h apart = (h.0, set-Absent k init last i h.1 apart)

Absent-before :
    (init : List Machine) (last : Machine) → Distinct (snoc init last) → Absent last.id init
Absent-before [] last h = tt
Absent-before (x ∷ init) last h =
    let (rest, apart) = Absent-snoc x.id init last h.0 in
    (
      ground (arith, apart, str_same_iff last.id x.id, str_same_iff x.id last.id),
      Absent-before init last h.1,
    )

set-Distinct :
    (init : List Machine) (last : Machine) (i : ℕ)
    → Distinct (snoc init last)
    → Distinct (set init i last)
set-Distinct [] last i h = tt
set-Distinct (x ∷ init) last zero h = (Absent-before init last h.1, front init h.1)
  where
    front : (a : List Machine) → Distinct (snoc a last) → Distinct a
    front [] h = tt
    front (y ∷ a) h = ((Absent-snoc y.id a last h.0).0, front a h.1)
set-Distinct (x ∷ init) last (suc i) h =
    let (rest, apart) = Absent-snoc x.id init last h.0 in
    (set-Absent x.id init last i rest apart, set-Distinct init last i h.1)

-- What the scan of `registry_remove` finds.
abbrev Located : CText → List Machine → ℕ → Option ℕ → Type 0
Located id ms i none = registry_get_copy id ms ≡ none
Located id ms i (some at) =
    (j : ℕ) × (m : Machine) × (at ≡ i + j)
    × (get_elem? ms j ≡ some m)
    × (registry_get_copy id ms ≡ some m)
    × (str_same m.id id ≡ true)

Located-cons :
    (id : CText) (x : Machine) (ms : List Machine) (i : ℕ) (found : Option ℕ)
    → str_same x.id id ≡ false
    → Located id ms (suc i) found
    → Located id (x ∷ ms) i found
unfolding registry_get_copy
Located-cons id x ms i none apart h = rw apart h
Located-cons id x ms i (some at) apart (j, m, e, entry, found, same) =
    (suc j, m, omega arith, entry, rw apart found, same)

machine_index-Located :
    (id : CText) (ms : List Machine) (i : ℕ) → Located id ms i (machine_index id ms i)
unfolding machine_index
machine_index-Located id [] i = unfold registry_get_copy in refl
machine_index-Located id (x ∷ ms) i = elim (Bool-cases (str_same x.id id)) [
  | inl e ↦ unfold registry_get_copy in rw e (0, x, omega arith, refl, rw e refl, e)
  | inr e ↦ rw e (Located-cons id x ms i _ e (machine_index-Located id ms (suc i)))
]

-- `rest` is the valid table `ms` without the machine called `id`.
abbrev pub Without : CText → List Machine → List Machine → Type 0
Without id ms rest =
    IsValid rest
    × (length ms ≡ suc (length rest))
    × ((k : CText)
        → registry_get_copy k rest ≡ (if str_same id k then none else registry_get_copy k ms))

abbrev DropsAt : ℕ → CText → List Machine → Type 0
DropsAt i id ms =
    IsValid ms
    → (m : Machine) → get_elem? ms i ≡ some m
    → m.id ≡ id
    → Yields (Without id ms) (drop_machine ms i)

drop_snoc :
    (i : ℕ) (id : CText) (init : List Machine) (last : Machine) → DropsAt i id (snoc init last)
drop_snoc i id init last v m entry named =
    let size = length-append init (last ∷ []) in
    let kept = length-set init i last in
    (
      set init i last,
      drop_machine-snoc init last i,
      (
        record {
          fit = (set-AllFit init last i v.fit).0;
          distinct = set-Distinct init last i v.distinct;
          bounded = omega (arith, size, kept, v.bounded);
        },
        omega (arith, size, kept),
        λ k. rw named at (find-dropped init last i m v.distinct entry k),
      ),
    )

drop_found : (i : ℕ) (id : CText) (ms : List Machine) → DropsAt i id ms
drop_found i id [] = λ v m e named. absurd (let h : none ≡ some m = e in cc)
drop_found i id (x ∷ ms) =
    let (init, last, split) = snoc_view x ms in
    subst (DropsAt i id) (sym split) (drop_snoc i id init last)

-- What `registry_remove` returns.
abbrev pub Removed : CText → List Machine → Rc × List Machine → Type 0
Removed id ms r =
    ((r ≡ (error, ms)) × (registry_get_copy id ms ≡ none))
    ⊎ ((m : Machine) × (registry_get_copy id ms ≡ some m)
        × (((r ≡ (conflict, ms)) × (is_reserved m ≡ true))
            ⊎ ((r.0 ≡ ok) × (is_reserved m ≡ false) × Without id ms r.1)))

remove-Located :
    (id : CText) (ms : List Machine) (found : Option ℕ)
    → IsValid ms
    → Located id ms 0 found
    → Yields (Removed id ms) (remove_at ms found)
unfolding remove_found
remove-Located id ms none v missing = Yields-some (error, ms) (inl (refl, missing))
remove-Located id ms (some at) v (j, m, e, entry, found, same) =
    let here : j ≡ at = omega arith in
    let entry' = rw here at entry in
    rw entry' (elim (Bool-cases (is_reserved m)) [
      | inl busy ↦ ((conflict, ms), rw busy refl, inr (m, found, inl (refl, busy)))
      | inr idle ↦ rw idle (
          Yields-bind (drop_machine ms at) _
            (drop_found at id ms v m entry' ((str_same_iff m.id id).0 same))
            λ rest w. Yields-some (ok, rest) (inr (m, found, inr (refl, idle, w))))
    ])

-- `registry_remove` on a valid registry ends. It returns -1 and changes nothing if no machine has the
-- id, -2 and changes nothing if anything is reserved on it; otherwise the registry stays valid, is
-- shorter by one, no longer finds the id, and finds every other id as before.
pub registry_remove-Removed :
    (id : CText) (ms : List Machine) → IsValid ms → Yields (Removed id ms) (registry_remove id ms)
unfolding registry_remove
registry_remove-Removed id ms v =
    remove-Located id ms (machine_index id ms 0) v (machine_index-Located id ms 0)
