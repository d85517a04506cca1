-- ===== src/Queue/Selection.antt =====
-- Taking a job out by a predicate or by its identifier.

use bhc_scheduler.Common.{
  ℕ, zero, suc, ◌+◌, ◌<◌, ◌≡◌, ◌⊎◌, inl, inr, refl, Bool, true, false, Option, none, some, List, [],
  ◌∷◌, arith, if◌then◌else◌, Bool-cases, length,
}
use bhc_scheduler.Common.Text.{CText, str_same}
use bhc_scheduler.Common.Fallible.{Yields, Yields-some, Yields-bind, Yields-weaken}
use bhc_scheduler.Job.{Job}
use bhc_scheduler.Queue.{
  Queue, job_before, extract_at, extract_found, improves, best_match, queue_try_pop_matching,
  index_of, queue_remove,
}
use bhc_scheduler.Queue.Before.{◌≼◌, job_before_asym, ≼_trans, ≼_refl}
use bhc_scheduler.Queue.Sift.{nth, entry_before_runs}
use bhc_scheduler.Queue.Extract.{Taken, extract_at-Taken}
use bhc_scheduler.Queue.Contents.{IsValid, Taken-IsValid}

-- The entry at `at` is the one taken, and the queue that is left is valid.
abbrev pub TakenFrom : Queue → ℕ → Option Job × Queue → Type 0
TakenFrom q at r = Taken q at r × IsValid r.1

taken_from :
    (q : Queue) (at : ℕ)
    → IsValid q
    → at < length q.heap
    → Yields (TakenFrom q at) (extract_at q at)
taken_from q at v inside =
    Yields-weaken (extract_at q at) (extract_at-Taken q at v.heap inside)
      λ r t. (t, Taken-IsValid q at r v t)

-- `b` is the best of the first `n` entries that satisfy the predicate, if there is one.
abbrev pub Best : (Job → Bool) → List Job → ℕ → Option ℕ → Type 0
Best predicate heap n none = (k : ℕ) → k < n → predicate (nth heap k) ≡ false
Best predicate heap n (some b) =
    (b < n)
    × (predicate (nth heap b) ≡ true)
    × ((k : ℕ) → k < n → predicate (nth heap k) ≡ true → nth heap b ≼ nth heap k)

-- `rest` is the heap from `i` on.
abbrev IsRest : List Job → List Job → ℕ → Type 0
IsRest heap rest i =
    (i + length rest ≡ length heap) × ((k : ℕ) → k < length rest → nth rest k ≡ nth heap (i + k))

IsRest-tail :
    (heap : List Job) (job : Job) (rest : List Job) (i : ℕ)
    → IsRest heap (job ∷ rest) i
    → IsRest heap rest (suc i) × (nth heap i ≡ job)
IsRest-tail heap job rest i h =
    ((omega (arith, h.0), λ k p. ground (arith, h.1 (suc k))), ground (arith, h.1 0))

same_up_to : {k n : ℕ} → k < suc n → (k < n) ⊎ (k ≡ n)
same_up_to h = omega arith

step_none :
    (predicate : Job → Bool) (heap : List Job) (i : ℕ)
    → ((k : ℕ) → k < i → predicate (nth heap k) ≡ false)
    → Yields
        (λ better. Best predicate heap (suc i) (if better then some i else none))
        (if predicate (nth heap i) then improves heap i none else some false)
unfolding improves
step_none predicate heap i b = elim (Bool-cases (predicate (nth heap i))) [
  | inl holds ↦
      rw holds
        (Yields-some true (omega arith, holds, λ k p h. ground (arith, b k, ≼_refl (nth heap i))))
  | inr fails ↦ rw fails (Yields-some false λ k p. ground (arith, b k, fails))
]

step_some :
    (predicate : Job → Bool) (heap : List Job) (i m : ℕ)
    → i < length heap
    → Best predicate heap i (some m)
    → Yields
        (λ better. Best predicate heap (suc i) (if better then some i else some m))
        (if predicate (nth heap i) then improves heap i (some m) else some false)
unfolding improves
step_some predicate heap i m inside b = elim (Bool-cases (predicate (nth heap i))) [
  | inr fails ↦
      rw fails (Yields-some false (omega (arith, b.0), b.1, λ k p h. ground (arith, b.2 k, fails)))
  | inl holds ↦
      rw (holds, entry_before_runs heap i m inside (omega (arith, b.0)))
        (elim (Bool-cases (job_before (nth heap i) (nth heap m))) [
          | inl first ↦ (
            true,
            rw first refl,
            (
              omega arith,
              holds,
              λ k p h. ground (
                arith,
                b.2 k,
                job_before_asym (nth heap i) (nth heap m),
                ≼_trans (nth heap i) (nth heap m) (nth heap k),
                ≼_refl (nth heap i),
              ),
            ),
          )
          | inr later ↦
              (false, rw later refl, (omega (arith, b.0), b.1, λ k p h. ground (arith, b.2 k)))
        ])
]

step-Best :
    (predicate : Job → Bool) (heap : List Job) (i : ℕ) (best : Option ℕ)
    → i < length heap
    → Best predicate heap i best
    → Yields
        (λ better. Best predicate heap (suc i) (if better then some i else best))
        (if predicate (nth heap i) then improves heap i best else some false)
step-Best predicate heap i none inside b = step_none predicate heap i b
step-Best predicate heap i (some m) inside b = step_some predicate heap i m inside b

best_match-Best :
    (predicate : Job → Bool) (heap rest : List Job) (i : ℕ) (best : Option ℕ)
    → IsRest heap rest i
    → Best predicate heap i best
    → Yields (Best predicate heap (length heap)) (best_match predicate heap rest i best)
unfolding best_match
best_match-Best predicate heap [] i best r b =
    let whole : i ≡ length heap = omega (arith, r.0) in Yields-some best (rw whole at b)
best_match-Best predicate heap (job ∷ rest) i best r b =
    let (next, here) = IsRest-tail heap job rest i r in
    rw (← here) (
      Yields-bind _ _ (step-Best predicate heap i best (omega (arith, r.0)) b) λ better b'.
        best_match-Best predicate heap rest (suc i) (if better then some i else best) next b')

-- `queue_try_pop_matching` with a predicate, on a valid queue, ends: it takes out a job that
-- satisfies the predicate and that no other such job comes before, and leaves a valid queue of the
-- others; it returns NULL and changes nothing exactly where no job satisfies the predicate.
pub queue_try_pop_matching-Best :
    (predicate : Job → Bool) (q : Queue)
    → IsValid q
    → Yields
        (λ r.
          (((r ≡ (none, q)) × Best predicate q.heap (length q.heap) none)
            ⊎ ((b : ℕ) × Best predicate q.heap (length q.heap) (some b) × TakenFrom q b r)))
        (queue_try_pop_matching (some predicate) q)
unfolding queue_try_pop_matching
queue_try_pop_matching-Best predicate q v =
    Yields-bind _ _
      (best_match-Best predicate q.heap q.heap 0 none
        (omega arith, λ k p. let e : 0 + k ≡ k = omega arith in rw e refl)
        (λ k p. absurd (omega arith)))
      finish
  where
    finish :
        (found : Option ℕ)
        → Best predicate q.heap (length q.heap) found
        → Yields
            (λ r.
              (((r ≡ (none, q)) × Best predicate q.heap (length q.heap) none)
                ⊎ ((b : ℕ) × Best predicate q.heap (length q.heap) (some b) × TakenFrom q b r)))
            (extract_found q found)
    finish none b = Yields-some (none, q) (inl (refl, b))
    finish (some m) b = Yields-weaken (extract_at q m) (taken_from q m v b.0) λ r t. inr (m, b, t)

-- The first entry with the identifier.
abbrev pub FirstWith : CText → List Job → ℕ → Type 0
FirstWith id heap at =
    (at < length heap)
    × (str_same (nth heap at).id id ≡ true)
    × ((k : ℕ) → k < at → str_same (nth heap k).id id ≡ false)

-- What the scan of `queue_remove` finds in the entries from index `i` on.
abbrev Indexed : CText → List Job → ℕ → Option ℕ → Type 0
Indexed id rest i none = (k : ℕ) → k < length rest → str_same (nth rest k).id id ≡ false
Indexed id rest i (some at) = (j : ℕ) × (at ≡ i + j) × FirstWith id rest j

Indexed-cons :
    (id : CText) (job : Job) (rest : List Job) (i : ℕ) (found : Option ℕ)
    → str_same job.id id ≡ false
    → Indexed id rest (suc i) found
    → Indexed id (job ∷ rest) i found
Indexed-cons id job rest i none differs h = λ k p. cases_below k p
  where
    cases_below : (k : ℕ) → k < suc (length rest) → str_same (nth (job ∷ rest) k).id id ≡ false
    cases_below zero p = differs
    cases_below (suc k) p = h k (omega arith)
Indexed-cons id job rest i (some at) differs (j, e, first) =
    (suc j, omega arith, (omega arith, first.1, earlier))
  where
    earlier : (k : ℕ) → k < suc j → str_same (nth (job ∷ rest) k).id id ≡ false
    earlier zero p = differs
    earlier (suc k) p = first.2 k (omega arith)

index_of-Indexed : (id : CText) (rest : List Job) (i : ℕ) → Indexed id rest i (index_of id rest i)
unfolding index_of
index_of-Indexed id [] i = λ k p. absurd (omega arith)
index_of-Indexed id (job ∷ rest) i = elim (Bool-cases (str_same job.id id)) [
  | inl hit ↦ rw hit (0, omega arith, (omega arith, hit, λ k p. absurd (omega arith)))
  | inr differs ↦
      rw differs (Indexed-cons id job rest i _ differs (index_of-Indexed id rest (suc i)))
]

-- `queue_remove` on a valid queue ends: it takes out the first job with the identifier and leaves a
-- valid queue of the others, or returns NULL and changes nothing where no job has the identifier.
pub queue_remove-FirstWith :
    (id : CText) (q : Queue)
    → IsValid q
    → Yields
        (λ r.
          (((r ≡ (none, q)) × ((k : ℕ) → k < length q.heap → str_same (nth q.heap k).id id ≡ false))
            ⊎ ((at : ℕ) × FirstWith id q.heap at × TakenFrom q at r)))
        (queue_remove id q)
unfolding queue_remove
queue_remove-FirstWith id q v = finish (index_of id q.heap 0) (index_of-Indexed id q.heap 0)
  where
    finish :
        (found : Option ℕ)
        → Indexed id q.heap 0 found
        → Yields
            (λ r.
              (((r ≡ (none, q))
                  × ((k : ℕ) → k < length q.heap → str_same (nth q.heap k).id id ≡ false))
                ⊎ ((at : ℕ) × FirstWith id q.heap at × TakenFrom q at r)))
            (extract_found q found)
    finish none h = Yields-some (none, q) (inl (refl, h))
    finish (some at) (j, e, first) =
        let same : j ≡ at = omega arith in
        let first' = rw same at first in
        Yields-weaken (extract_at q at) (taken_from q at v first'.0) λ r t. inr (at, first', t)
