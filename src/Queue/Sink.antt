-- ===== src/Queue/Sink.antt =====
-- The loop `heap_down`, as Sift does for `heap_up`.
use mathlib.Core.List.Perm
use bhc_scheduler.Common.{
  ℕ, zero, suc, ◌+◌, ◌-◌, ◌*◌, ◌<◌, ◌≡◌, ◌≢◌, ◌⊎◌, inl, inr, refl, true, List, arith, ltb, ◌==◌,
  Bool-cases, length,
}
use bhc_scheduler.Common.Array.{exchange, length-exchange, get_or-exchange}
use bhc_scheduler.Common.Fallible.{Yields, Yields-some, Yields-bind, Yields-if}
use bhc_scheduler.Job.{Job, zeroed_job}
use bhc_scheduler.Queue.{job_before, parent_of, smaller_of, down_loop, heap_down}
use bhc_scheduler.Queue.Before.{◌≼◌, job_before_asym, ≼_trans, ≼_refl}
use bhc_scheduler.Queue.Sift.{
  nth, Hole, Above, Sifted, closed-IsHeap, swap_runs, entry_before_runs, after_swap,
}

-- What one comparison of `heap_down` selects: the entry so far, or the child if that comes before it.
abbrev Selected : List Job → ℕ → ℕ → ℕ → Type 0
Selected a k s r =
    ((r ≡ s) × (k < length a → nth a s ≼ nth a k))
    ⊎ ((r ≡ k) × (k < length a) × (job_before (nth a k) (nth a s) ≡ true))

smaller_of-Selected :
    (a : List Job) (k s : ℕ) → s < length a → Yields (Selected a k s) (smaller_of a k s)
unfolding smaller_of
smaller_of-Selected a k s hs =
    Yields-if (ltb k (length a)) _ _
      (λ inside.
        rw (entry_before_runs a k s (ground arith) hs)
          (elim (Bool-cases (job_before (nth a k) (nth a s))) [
            | inl e ↦ rw e (Yields-some k (inr (refl, ground arith, refl)))
            | inr e ↦ rw e (Yields-some s (inl (refl, λ _. refl)))
          ]))
      (λ outside. Yields-some s (inl (refl, λ inside. absurd (ground arith))))

-- `m` is `i`, with both children in order, or the child that comes first, and before `i`.
abbrev Smallest : List Job → ℕ → ℕ → Type 0
Smallest a i m =
    (m < length a)
    × ((c : ℕ) → 0 < c → c < length a → parent_of c ≡ i → nth a m ≼ nth a c)
    × ((m ≡ i) ⊎ ((0 < m) × (parent_of m ≡ i) × (job_before (nth a m) (nth a i) ≡ true)))

both_compared :
    (a : List Job) (i l m : ℕ)
    → i < length a
    → Selected a (2 * i + 1) i l
    → Selected a (2 * i + 2) l m
    → Smallest a i m
both_compared a i l m hi left right = (
  ground arith,
  λ c p q r. ground (
    arith,
    ≼_refl (nth a c),
    ≼_trans (nth a (2 * i + 2)) (nth a l) (nth a c),
    job_before_asym (nth a (2 * i + 1)) (nth a i),
    job_before_asym (nth a (2 * i + 2)) (nth a l),
  ),
  ground (
    arith,
    job_before_asym (nth a (2 * i + 1)) (nth a i),
    job_before_asym (nth a (2 * i + 2)) (nth a l),
    ≼_trans (nth a (2 * i + 1)) (nth a i) (nth a (2 * i + 2)),
    Bool-cases (job_before (nth a (2 * i + 2)) (nth a i)),
  ),
)

module _ (a : List Job) (i m : ℕ) (hole : Hole a i) (sel : Smallest a i m) (child : m ≢ i) where
  abbrev sunk : List Job
  sunk = exchange zeroed_job a i m

  sunk-Hole : Above a i → Hole sunk m × Above sunk m
  sunk-Hole above =
      let size = length-exchange zeroed_job a i m in
      let at = get_or-exchange zeroed_job a i m hole.inside sel.0 in
      (
        record {
          inside = omega (arith, size, sel.0);
          edges = λ c p q r s.
              ground
                (arith, size, at c, at (parent_of c), hole.edges c, sel.1 c, above, hole.bridge m);
          bridge = λ c p q r s. ground (arith, size, at c, at (parent_of m), hole.edges c);
        },
        λ p. ground (arith, at m, at (parent_of m), sel.2, job_before_asym (nth a m) (nth a i)),
      )

down_loop_settles :
    (fuel : ℕ) (a : List Job) (i : ℕ)
    → length a - i < fuel
    → Hole a i
    → Above a i
    → Yields (Sifted a) (down_loop fuel a i)
unfolding down_loop
down_loop_settles zero a i enough hole above = absurd (omega arith)
down_loop_settles (suc fuel) a i enough hole above =
    Yields-bind _ _ (smaller_of-Selected a (2 * i + 1) i hole.inside) λ l left.
      Yields-bind _ _ (smaller_of-Selected a (2 * i + 2) l (ground (arith, hole.inside))) λ m right.
        let sel = both_compared a i l m hole.inside left right in
        Yields-if (m == i) _ _
          (λ settled.
            Yields-some a
              (closed-IsHeap a i hole (λ c p q r. ground (arith, sel.1 c)) above, Perm.refl a))
          (λ child.
            let next = sunk-Hole a i m hole sel (ground arith) above in
            rw (swap_runs a i m hole.inside sel.0) (
              after_swap a i m _ hole.inside sel.0 (
                down_loop_settles fuel (exchange zeroed_job a i m) m
                  (ground (arith, length-exchange zeroed_job a i m, sel.2, sel.0)) next.0 next.1)))

-- `heap_down` mends a heap in which one entry may come after its children.
pub heap_down_settles :
    (a : List Job) (i : ℕ) → Hole a i → Above a i → Yields (Sifted a) (heap_down a i)
unfolding heap_down
heap_down_settles a i hole above = down_loop_settles (length a + 1) a i (omega arith) hole above
