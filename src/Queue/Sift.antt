-- ===== src/Queue/Sift.antt =====
-- The heap order, and the loop `heap_up`: from an array that is in order but for one entry it makes
-- a heap of the same jobs, without a read out of bounds, and it ends.
use mathlib.Core.List.Perm
use bhc_scheduler.Common.{
  ℕ, zero, suc, ◌+◌, ◌<◌, ◌≡◌, ◌≢◌, true, Option, some, List, Perm, arith, ltb, length, get_or,
}
use bhc_scheduler.Common.Array.{
  get_elem?-get_or, exchange, length-exchange, get_or-exchange, exchange-Perm,
}
use bhc_scheduler.Common.Fallible.{Yields, Yields-some, Yields-weaken, Yields-if}
use bhc_scheduler.Job.{Job, zeroed_job}
use bhc_scheduler.Queue.{job_before, heap_swap, entry_before, parent_of, up_loop, heap_up}
use bhc_scheduler.Queue.Before.{◌≼◌, job_before_asym, ≼_trans}

abbrev pub nth : List Job → ℕ → Job
nth a i = get_or a i zeroed_job

-- No entry comes before its parent.
abbrev pub IsHeap : List Job → Type 0
IsHeap a = (c : ℕ) → 0 < c → c < length a → nth a (parent_of c) ≼ nth a c

-- In order but for the edges at `i`; the children of `i` are in order with its parent.
pub record Hole (heap : List Job) (at : ℕ) : Type 0 where
  pub bridge :
      (k : ℕ)
      → 0 < k
      → k < length heap
      → parent_of k ≡ at
      → 0 < at
      → nth heap (parent_of at) ≼ nth heap k
  pub edges :
      (k : ℕ)
      → 0 < k
      → k < length heap
      → k ≢ at
      → parent_of k ≢ at
      → nth heap (parent_of k) ≼ nth heap k
  pub inside : at < length heap

abbrev pub Below : List Job → ℕ → Type 0
Below a i = (c : ℕ) → 0 < c → c < length a → parent_of c ≡ i → nth a i ≼ nth a c

abbrev pub Above : List Job → ℕ → Type 0
Above a i = 0 < i → nth a (parent_of i) ≼ nth a i

-- `b` is a heap of the jobs of `a`.
abbrev pub Sifted : List Job → List Job → Type 0
Sifted a b = IsHeap b × Perm b a

pub closed-IsHeap : (a : List Job) (i : ℕ) → Hole a i → Below a i → Above a i → IsHeap a
closed-IsHeap a i hole below above c p q = ground (arith, hole.edges c, below c, above)

pub swap_runs :
    (a : List Job) (i j : ℕ)
    → i < length a
    → j < length a
    → heap_swap a i j ≡ some (exchange zeroed_job a i j)
unfolding heap_swap
swap_runs a i j hi hj = rw (get_elem?-get_or zeroed_job a i hi, get_elem?-get_or zeroed_job a j hj)

pub entry_before_runs :
    (a : List Job) (i j : ℕ)
    → i < length a
    → j < length a
    → entry_before a i j ≡ some (job_before (nth a i) (nth a j))
unfolding entry_before
entry_before_runs a i j hi hj =
    rw (get_elem?-get_or zeroed_job a i hi, get_elem?-get_or zeroed_job a j hj)

-- One round of a sift puts the jobs of `a` into `b`; the rest of the loop goes on from there.
pub after_swap :
    (a : List Job) (i j : ℕ) (r : Option (List Job))
    → i < length a
    → j < length a
    → Yields (Sifted (exchange zeroed_job a i j)) r
    → Yields (Sifted a) r
after_swap a i j r hi hj run =
    Yields-weaken r run λ b s. (s.0, Perm.trans s.1 (exchange-Perm zeroed_job a i j hi hj))

module _ (a : List Job) (i : ℕ) (hole : Hole a i) where
  -- Moving the entry at `i` up.
  module _ (pos : 0 < i) (smaller : job_before (nth a i) (nth a (parent_of i)) ≡ true) where
    abbrev climbed : List Job
    climbed = exchange zeroed_job a (parent_of i) i

    parent_inside : parent_of i < length a
    parent_inside = omega (arith, hole.inside)

    climbed-Hole : Below a i → Hole climbed (parent_of i) × Below climbed (parent_of i)
    climbed-Hole below =
        let size = length-exchange zeroed_job a (parent_of i) i in
        let at = get_or-exchange zeroed_job a (parent_of i) i parent_inside hole.inside in
        let up = job_before_asym (nth a i) (nth a (parent_of i)) smaller in
        (
          record {
            inside = omega (arith, size, parent_inside);
            edges = λ c p q r s.
                ground (arith, size, at c, at (parent_of c), hole.edges c, hole.bridge c);
            bridge = λ c p q r s. ground (
              arith,
              size,
              at c,
              at (parent_of (parent_of i)),
              hole.edges (parent_of i),
              hole.edges c,
              ≼_trans (nth a (parent_of (parent_of i))) (nth a (parent_of i)) (nth a c),
            );
          },
          λ c p q r. ground (
            arith,
            size,
            at c,
            at (parent_of i),
            up,
            hole.edges c,
            ≼_trans (nth a i) (nth a (parent_of i)) (nth a c),
          ),
        )

up_loop_settles :
    (fuel : ℕ) (a : List Job) (i : ℕ)
    → i < fuel
    → Hole a i
    → Below a i
    → Yields (Sifted a) (up_loop fuel a i)
unfolding up_loop
up_loop_settles zero a i enough hole below = absurd (omega arith)
up_loop_settles (suc fuel) a i enough hole below =
    Yields-if (ltb 0 i) _ _
      (λ pos.
        let above : parent_of i < length a = omega (arith, hole.inside) in
        rw
          (
            entry_before_runs a i (parent_of i) hole.inside above,
            swap_runs a (parent_of i) i above hole.inside,
          )
          (Yields-if (job_before (nth a i) (nth a (parent_of i))) _ _
            (λ smaller.
              let next = climbed-Hole a i hole (ground arith) smaller below in
              after_swap a (parent_of i) i _ above hole.inside (
                up_loop_settles fuel (climbed a i hole (ground arith) smaller) (parent_of i)
                  (ground arith) next.0 next.1))
            (λ settled. Yields-some a (closed-IsHeap a i hole below (λ _. settled), Perm.refl a))))
      (λ root.
        Yields-some a (closed-IsHeap a i hole below (λ pos. absurd (ground arith)), Perm.refl a))

-- `heap_up` mends a heap in which one entry may come before its parent.
pub heap_up_settles :
    (a : List Job) (i : ℕ) → Hole a i → Below a i → Yields (Sifted a) (heap_up a i)
unfolding heap_up
heap_up_settles a i hole below = up_loop_settles (i + 1) a i (omega arith) hole below
