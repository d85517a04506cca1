-- ===== src/Queue/Contents.antt =====
-- What pushing and popping do to the contents of the queue.
use mathlib.Core.List.Perm
use mathlib.Core.List.{not-mem-nil, forall_mem-cons}
use bhc_scheduler.Common.{
  ℕ, zero, suc, ◌*◌, ◌≤◌, ◌<◌, ◌≡◌, ◌⊎◌, inl, inr, refl, ap, Bool, true, false, Option, none, some,
  List, [], ◌∷◌, ◌++◌, Mem, Perm, arith, ◌==◌, Bool-cases, length, length-append,
}
use bhc_scheduler.Common.Array.{get_or-append, snoc-Perm, length-Perm}
use bhc_scheduler.Common.Rc.{Rc, ok, error}
use bhc_scheduler.Common.Fallible.{Yields, Yields-some, Yields-bind, Yields-weaken, Yields-if}
use bhc_scheduler.Job.{Job, zeroed_job}
use bhc_scheduler.Queue.{
  Queue, parent_of, make_room, push_into, queue_push, extract_at, resettle, queue_try_pop,
  PopOutcome, waits, returns, queue_pop,
}
use bhc_scheduler.Queue.Before.{◌≼◌, ≼_trans, ≼_refl}
use bhc_scheduler.Queue.Sift.{nth, IsHeap, Hole, Below, heap_up_settles}
use bhc_scheduler.Queue.Extract.{Taken, extract_at-Taken}

-- A queue between two calls.
pub record IsValid (q : Queue) : Type 0 where
  pub heap : IsHeap q.heap
  pub fits : length q.heap ≤ q.capacity
  pub room : 8 ≤ q.capacity

-- The new entry at the end of the array is the only one that may be out of order.
appended-Hole :
    (a : List Job) (job : Job)
    → IsHeap a
    → Hole (a ++ job ∷ []) (length a) × Below (a ++ job ∷ []) (length a)
appended-Hole a job heap =
    let size = length-append a (job ∷ []) in
    (
      record {
        inside = omega (arith, size);
        edges = λ c p q r s. ground (
          arith,
          size,
          heap c,
          get_or-append zeroed_job a (job ∷ []) c,
          get_or-append zeroed_job a (job ∷ []) (parent_of c),
        );
        bridge = λ c p q r s. absurd (omega (arith, size));
      },
      λ c p q r. absurd (omega (arith, size)),
    )

-- The queue after a push, on each branch of the code.
abbrev pub Pushed : Bool → Queue → Job → Rc × Queue → Type 0
Pushed realloc_ok q job r =
    IsValid r.1
    × (((r.0 ≡ ok)
          × (q.shutdown ≡ false)
          × Perm r.1.heap (job ∷ q.heap)
          × (r.1.shutdown ≡ q.shutdown))
        ⊎ ((r.0 ≡ error)
            × (r.1 ≡ q)
            × ((q.shutdown ≡ true) ⊎ ((length q.heap ≡ q.capacity) × (realloc_ok ≡ false)))))

Pushed-into :
    (realloc_ok : Bool) (q roomy : Queue) (job : Job)
    → q.shutdown ≡ false
    → IsValid q
    → roomy.heap ≡ q.heap
    → roomy.shutdown ≡ q.shutdown
    → length q.heap < roomy.capacity
    → 8 ≤ roomy.capacity
    → Yields (Pushed realloc_ok q job) (push_into q job (some roomy))
Pushed-into realloc_ok q roomy job open_queue v same same' space room =
    let start = appended-Hole roomy.heap job (rw same v.heap) in
    Yields-bind _ _ (heap_up_settles (roomy.heap ++ job ∷ []) (length roomy.heap) start.0 start.1)
      λ b s. Yields-some _ (
        record {
          heap = s.0;
          fits =
              omega (arith, length-Perm s.1, length-append roomy.heap (job ∷ []), ap length same);
          room = room;
        },
        inl (refl, open_queue, Perm.trans s.1 (rw same (snoc-Perm q.heap job)), same'),
      )

-- `queue_push` on a valid queue ends and leaves a valid queue. It adds exactly the job, or it is
-- refused and changes nothing: because the queue was shut down, or because it was full and the array
-- could not grow.
pub queue_push-Pushed :
    (realloc_ok : Bool) (q : Queue) (job : Job)
    → IsValid q
    → Yields (Pushed realloc_ok q job) (queue_push realloc_ok q job)
unfolding queue_push make_room
queue_push-Pushed realloc_ok q job v =
    Yields-if q.shutdown _ _ (λ shut. Yields-some _ (v, inr (refl, refl, inl shut)))
      (λ open_queue. elim (Bool-cases (length q.heap == q.capacity)) [
        | inr space ↦
            rw space (
              Pushed-into realloc_ok q q job open_queue v refl refl (ground (arith, v.fits)) v.room)
        | inl full ↦ elim (Bool-cases realloc_ok) [
          | inl grows ↦
              rw (full, grows)
                (Pushed-into true q (record q { capacity = q.capacity * 2 }) job open_queue v refl
                  refl (ground (arith, v.fits, v.room)) (omega (arith, v.room)))
          | inr stuck ↦
              rw (full, stuck) (Yields-some _ (v, inr (refl, refl, inr (ground arith, refl))))
        ]
      ])

root_least :
    (fuel : ℕ) (a : List Job) (i : ℕ) → IsHeap a → i < fuel → i < length a → nth a 0 ≼ nth a i
root_least zero a i heap f h = absurd (omega arith)
root_least (suc fuel) a zero heap f h = ≼_refl (nth a 0)
root_least (suc fuel) a (suc i) heap f h =
    ≼_trans (nth a 0) (nth a (parent_of (suc i))) (nth a (suc i))
      (root_least fuel a (parent_of (suc i)) heap (omega arith) (omega arith))
      (heap (suc i) (omega arith) h)

≼_prop : (a b : Job) → IsProp (a ≼ b)
≼_prop a b = hlevel

pub le_members :
    (x : Job) (a : List Job) → ((i : ℕ) → i < length a → x ≼ nth a i) → (t : Job) → Mem t a → x ≼ t
le_members x [] h = λ t m. absurd (not-mem-nil m)
le_members x (y ∷ a) h =
    (forall_mem-cons (λ t. ≼_prop x t)).1
      (h 0 (omega arith), le_members x a (λ i p. h (suc i) (omega arith)))

-- What taking the first job returns: a job that no other comes before, and a queue of the others.
pub record Popped (q : Queue) (job : Job) (r : Option Job × Queue) : Type 0 where
  pub taken : r.0 ≡ some job
  pub least : (t : Job) → Mem t q.heap → job ≼ t
  pub same : Perm (job ∷ r.1.heap) q.heap
  pub valid : IsValid r.1
  pub shutdown : r.1.shutdown ≡ q.shutdown

pub Taken-IsValid :
    (q : Queue) (at : ℕ) (r : Option Job × Queue) → IsValid q → Taken q at r → IsValid r.1
Taken-IsValid q at r v t = record {
  heap = t.heap;
  fits = omega (arith, length-Perm t.same, v.fits, t.capacity);
  room = omega (arith, v.room, t.capacity);
}

try_pop_extracts : (q : Queue) → 0 < length q.heap → queue_try_pop q ≡ extract_at q 0
unfolding queue_try_pop extract_at resettle
try_pop_extracts q h = ground arith

empty_of_length : (a : List Job) → (length a == 0) ≡ true → a ≡ []
empty_of_length [] h = refl
empty_of_length (x ∷ a) h = absurd (ground arith)

-- `queue_try_pop` on a valid queue ends: it returns NULL and changes nothing if the queue is empty,
-- and otherwise takes out a job that no other job of the queue comes before, and leaves a valid queue
-- of exactly the others.
pub queue_try_pop-Popped :
    (q : Queue)
    → IsValid q
    → Yields
        (λ r. ((q.heap ≡ []) × (r ≡ (none, q))) ⊎ ((job : Job) × Popped q job r))
        (queue_try_pop q)
queue_try_pop-Popped q v = elim (Bool-cases (length q.heap == 0)) [
  | inl empty ↦
      unfold queue_try_pop in
      rw empty (Yields-some (none, q) (inl (empty_of_length q.heap empty, refl)))
  | inr more ↦
      let full : 0 < length q.heap = ground arith in
      rw (try_pop_extracts q full) (
        Yields-weaken (extract_at q 0) (extract_at-Taken q 0 v.heap full) λ r t. inr (
          nth q.heap 0,
          record {
            taken = t.job;
            least =
                le_members (nth q.heap 0) q.heap
                  λ i p. root_least (suc i) q.heap i v.heap (omega arith) p;
            same = t.same;
            valid = Taken-IsValid q 0 r v t;
            shutdown = t.shutdown;
          },
        ))
]

-- What `queue_pop` does when it holds the lock.
abbrev pub PopsOrWaits : Queue → PopOutcome → Type 0
PopsOrWaits q waits = (q.heap ≡ []) × (q.shutdown ≡ false)
PopsOrWaits q (returns none rest) = (q.heap ≡ []) × (q.shutdown ≡ true) × (rest ≡ q)
PopsOrWaits q (returns (some job) rest) = Popped q job (some job, rest)

pop_or_wait :
    (q : Queue)
    → 0 < length q.heap
    → (r : Option Job × Queue) → ((q.heap ≡ []) × (r ≡ (none, q))) ⊎ ((job : Job) × Popped q job r)
    → Yields (PopsOrWaits q) (some (returns r.0 r.1))
pop_or_wait q full r (inl (empty, _)) = absurd (omega (arith, ap length empty))
pop_or_wait q full (none, rest) (inr (job, p)) = absurd (let h = p.taken in cc)
pop_or_wait q full (some j, rest) (inr (job, p)) =
    let same : job ≡ j = let h = p.taken in cc in Yields-some _ (rw same at p)

-- `queue_pop` sleeps only while the queue is empty and open, returns NULL only when it is empty and
-- shut down, and otherwise, shut down or not, pops as `queue_try_pop` does.
pub queue_pop-PopsOrWaits : (q : Queue) → IsValid q → Yields (PopsOrWaits q) (queue_pop q)
unfolding queue_pop
queue_pop-PopsOrWaits q v = elim (Bool-cases (length q.heap == 0)) [
  | inl empty ↦
      let none_left = empty_of_length q.heap empty in
      rw empty (elim (Bool-cases q.shutdown) [
        | inl shut ↦ (returns none q, rw shut refl, (none_left, shut, refl))
        | inr open_queue ↦ (waits, rw open_queue refl, (none_left, open_queue))
      ])
  | inr more ↦
      rw more
        (Yields-bind (queue_try_pop q) _ (queue_try_pop-Popped q v) (pop_or_wait q (ground arith)))
]
