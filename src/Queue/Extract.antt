-- ===== src/Queue/Extract.antt =====
-- Taking an entry out of the middle of the heap: the last entry takes its place, and is settled.
use mathlib.Core.List.Perm
use bhc_scheduler.Common.{
  ℕ, suc, ◌-◌, ◌≤◌, ◌<◌, ◌≡◌, inl, inr, refl, ◌∙◌, Option, some, List, ◌∷◌, Perm, arith, ltb, ◌==◌,
  if◌then◌else◌, Bool-cases, length, length-set, length-take, set, take,
}
use bhc_scheduler.Common.Array.{
  get_elem?-get_or, get_or-set, get_or-take, snoc_split, snoc-Perm, set-Perm,
}
use bhc_scheduler.Common.Fallible.{Yields, Yields-some, Yields-bind, Yields-if}
use bhc_scheduler.Job.{Job, zeroed_job}
use bhc_scheduler.Queue.{Queue, job_before, parent_of, move_last, resettle, extract_at}
use bhc_scheduler.Queue.Before.{job_before_asym, ≼_trans}
use bhc_scheduler.Queue.Sift.{nth, IsHeap, Hole, Sifted, entry_before_runs, heap_up_settles}
use bhc_scheduler.Queue.Sink.{heap_down_settles}

module _ (a : List Job) (at : ℕ) (n : ℕ) (size : length a ≡ suc n) (inside : at < length a) where
  overwritten : List Job
  overwritten = set a at (nth a n)

  pub shortened : List Job
  unfolding overwritten
  shortened = take n overwritten

  overwritten-length : length overwritten ≡ suc n
  unfolding overwritten
  overwritten-length = length-set a at (nth a n) ∙ size

  pub length-shortened : length shortened ≡ n
  unfolding shortened
  length-shortened = omega (arith, length-take n overwritten, overwritten-length)

  pub move_last_runs : move_last a at ≡ some shortened
  unfolding move_last shortened
  move_last_runs =
      let last : length a - 1 ≡ n = omega (arith, size) in
      rw (last, get_elem?-get_or zeroed_job a n (omega (arith, size))) refl

  pub nth-shortened : (c : ℕ) → c < n → nth shortened c ≡ (if at == c then nth a n else nth a c)
  unfolding shortened
  nth-shortened c h =
      get_or-take zeroed_job n overwritten c h
      ∙ unfold overwritten in get_or-set zeroed_job a at c (nth a n) inside

  -- The entry that leaves and those that stay are those that were there.
  pub shortened-Perm : Perm (nth a at ∷ shortened) a
  unfolding shortened
  shortened-Perm =
      let whole = snoc_split zeroed_job n overwritten overwritten-length in
      let tip : nth overwritten n ≡ nth a n =
        unfold overwritten in ground (arith, get_or-set zeroed_job a at n (nth a n) inside) in
      let grown : Perm (nth a n ∷ shortened) overwritten =
        Perm.trans (Perm.symm (snoc-Perm shortened (nth a n)))
          (rw (rw tip at whole) (Perm.refl overwritten)) in
      let written : Perm (nth a at ∷ overwritten) (nth a n ∷ a) =
        unfold overwritten in set-Perm zeroed_job a at (nth a n) inside in
      Perm.cons_inv (
        Perm.trans (Perm.swap (nth a at) (nth a n) shortened)
          (Perm.trans (Perm.cons (nth a at) grown) written))

  shortened-Hole : IsHeap a → at < n → Hole shortened at
  shortened-Hole heap h = record {
    inside = omega (arith, length-shortened);
    edges = λ c p q r s.
        ground (arith, length-shortened, heap c, nth-shortened c, nth-shortened (parent_of c));
    bridge = λ c p q r s. ground (
      arith,
      length-shortened,
      heap c,
      heap at,
      nth-shortened c,
      nth-shortened (parent_of at),
      ≼_trans (nth a (parent_of at)) (nth a at) (nth a c),
    );
  }

  shortened-IsHeap : IsHeap a → n ≤ at → IsHeap shortened
  shortened-IsHeap heap h c p q =
      ground (arith, length-shortened, heap c, nth-shortened c, nth-shortened (parent_of c))

-- After the last entry has taken the place of another, `resettle` restores the heap order.
resettle-Hole : (b : List Job) (at : ℕ) → Hole b at → Yields (Sifted b) (resettle b at)
unfolding resettle
resettle-Hole b at hole =
    Yields-if (ltb at (length b)) _ _
      (λ _.
        Yields-if (ltb 0 at) _ _
          (λ pos.
            let above : parent_of at < length b = omega (arith, hole.inside) in
            rw (entry_before_runs b at (parent_of at) hole.inside above) (
              Yields-if (job_before (nth b at) (nth b (parent_of at))) _ _
                (λ rises. heap_up_settles b at hole λ c p q r. ground (
                  arith,
                  hole.bridge c,
                  job_before_asym (nth b at) (nth b (parent_of at)),
                  ≼_trans (nth b at) (nth b (parent_of at)) (nth b c),
                ))
                (λ sinks. heap_down_settles b at hole (λ _. sinks))))
          (λ root. heap_down_settles b at hole (λ pos. absurd (ground arith))))
      (λ outside. absurd (ground (arith, hole.inside)))

resettle_end :
    (b : List Job) (at : ℕ) → length b ≤ at → IsHeap b → Yields (Sifted b) (resettle b at)
unfolding resettle
resettle_end b at h heap =
    Yields-if (ltb at (length b)) _ _ (λ e. absurd (ground arith))
      (λ _. Yields-some b (heap, Perm.refl b))

-- What taking the entry at `at` returns: that entry, and a heap of the others.
pub record Taken (q : Queue) (at : ℕ) (r : Option Job × Queue) : Type 0 where
  pub job : r.0 ≡ some (nth q.heap at)
  pub heap : IsHeap r.1.heap
  pub same : Perm (nth q.heap at ∷ r.1.heap) q.heap
  pub capacity : r.1.capacity ≡ q.capacity
  pub shutdown : r.1.shutdown ≡ q.shutdown

pub extract_at-Taken :
    (q : Queue) (at : ℕ)
    → IsHeap q.heap
    → at < length q.heap
    → Yields (Taken q at) (extract_at q at)
unfolding extract_at
extract_at-Taken q at heap inside =
    let n = length q.heap - 1 in
    let size : length q.heap ≡ suc n = omega arith in
    let short = shortened q.heap at n size inside in
    let settled : Yields (Sifted short) (resettle short at) = elim (Bool-cases (ltb at n)) [
      | inl e ↦ resettle-Hole short at (shortened-Hole q.heap at n size inside heap (ground arith))
      | inr e ↦
          resettle_end short at (ground (arith, length-shortened q.heap at n size inside))
            (shortened-IsHeap q.heap at n size inside heap (ground arith))
    ] in
    rw (get_elem?-get_or zeroed_job q.heap at inside, move_last_runs q.heap at n size inside)
      (Yields-bind (resettle short at) _ settled λ b s. Yields-some _ (record {
        job = refl;
        heap = s.0;
        same = Perm.trans (Perm.cons (nth q.heap at) s.1) (shortened-Perm q.heap at n size inside);
        capacity = refl;
        shutdown = refl;
      }))
