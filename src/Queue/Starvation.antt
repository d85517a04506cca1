-- ===== src/Queue/Starvation.antt =====
-- A job that is popped and pushed back is the next to be popped.
use mathlib.Core.List.Perm
use mathlib.Core.List.{mem-cons_self}
use bhc_scheduler.Common.{
  ◌<◌, ◌≡◌, inl, inr, ap, true, false, Option, some, ◌∷◌, Mem, Perm, arith, length,
}
use bhc_scheduler.Common.Rc.{Rc, ok}
use bhc_scheduler.Common.Fallible.{Yields, Yields-weaken}
use bhc_scheduler.Common.Array.{length-Perm}
use bhc_scheduler.Job.{Job}
use bhc_scheduler.Queue.{Queue, queue_push, queue_try_pop}
use bhc_scheduler.Queue.Before.{≼_antisym}
use bhc_scheduler.Queue.Contents.{Popped, IsValid, queue_try_pop-Popped, queue_push-Pushed}

-- Two jobs that `job_before` cannot tell apart.
abbrev pub SameKeys : Job → Job → Type 0
SameKeys a b = (a.priority ≡ b.priority) × (a.submitted_at ≡ b.submitted_at) × (a.id ≡ b.id)

requeued_first :
    (q q' : Queue) (job job' : Job) (first second : Option Job × Queue)
    → Popped q job first
    → Perm q'.heap (job ∷ first.1.heap)
    → Popped q' job' second
    → SameKeys job' job
requeued_first q q' job job' first second p back p' =
    let again = Perm.trans back p.same in
    let there : Mem job' q'.heap = (Perm.mem_iff p'.same).0 mem-cons_self in
    let still : Mem job q'.heap = (Perm.mem_iff (Perm.symm back)).0 mem-cons_self in
    ≼_antisym job' job (p'.least job still) (p.least job' ((Perm.mem_iff again).0 there))

-- The queue after the push gives out the same job.
abbrev pub GivesAgain : Job → Rc × Queue → Type 0
GivesAgain job p =
    (p.0 ≡ ok)
    × Yields (λ (r : Option Job × Queue). (job' : Job) × (r.0 ≡ some job') × SameKeys job' job)
        (queue_try_pop p.1)

pop_again :
    (q q' : Queue) (job : Job) (first : Option Job × Queue)
    → Popped q job first
    → IsValid q'
    → Perm q'.heap (job ∷ first.1.heap)
    → Yields
        (λ (r : Option Job × Queue). (job' : Job) × (r.0 ≡ some job') × SameKeys job' job)
        (queue_try_pop q')
pop_again q q' job first p v back =
    Yields-weaken (queue_try_pop q') (queue_try_pop-Popped q' v) λ r h. elim h [
      | inl (empty, _) ↦ absurd (omega (arith, length-Perm back, ap length empty))
      | inr (job', p') ↦ (job', p'.taken, requeued_first q q' job job' first r p back p')
    ]

-- What a pop takes can be pushed back where it came from.
push_back :
    (q : Queue) (job : Job) (first : Option Job × Queue)
    → q.shutdown ≡ false
    → Popped q job first
    → Yields (GivesAgain job) (queue_push true first.1 job)
push_back q job first open_queue p =
    Yields-weaken (queue_push true first.1 job) (queue_push-Pushed true first.1 job p.valid) λ r h.
      elim h.1 [
        | inl (done, _, same, _) ↦ (done, pop_again q r.1 job first p h.0 same)
        | inr (_, _, inl shut) ↦ absurd (let e = p.shutdown in cc)
        | inr (_, _, inr (_, stuck)) ↦ absurd (let e = stuck in cc)
      ]

-- On a valid queue that is open and not empty: the job that is popped, pushed back where memory
-- suffices, is accepted, and the next pop gives out a job with the same priority, submission time and
-- identifier. A job that cannot run and is put back is the next one again.
pub requeued_blocks :
    (q : Queue)
    → IsValid q
    → q.shutdown ≡ false
    → 0 < length q.heap
    → Yields
        (λ r. (job : Job) × (r.0 ≡ some job) × Yields (GivesAgain job) (queue_push true r.1 job))
        (queue_try_pop q)
requeued_blocks q v open_queue more =
    Yields-weaken (queue_try_pop q) (queue_try_pop-Popped q v) λ r h. elim h [
      | inl (empty, _) ↦ absurd (omega (arith, ap length empty))
      | inr (job, p) ↦ (job, p.taken, push_back q job r open_queue p)
    ]
