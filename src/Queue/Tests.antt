-- ===== src/Queue/Tests.antt =====
-- Runs of the queue, and its theorems at a concrete queue of three jobs.
use bhc_scheduler.Common.{
  ℕ, zero, suc, ◌<◌, ◌≡◌, refl, ◌⊎◌, Bool, true, false, Option, none, some, List, [], ◌∷◌, arith,
  length,
}
use bhc_scheduler.Common.Int.{ℤ, pos, negsuc, ltb_ℤ}
use bhc_scheduler.Common.Text.{CText, c_text, str_same}
use bhc_scheduler.Common.Fallible.{Yields}
use bhc_scheduler.Job.{Job, zeroed_job}
use bhc_scheduler.Queue.{
  Queue, job_before, queue_push, queue_try_pop, queue_pop, queue_try_pop_matching, queue_remove,
  move_last, heap_down, smaller_of, entry_before, index_of, extract_at, resettle, best_match,
  improves,
}
use bhc_scheduler.Queue.Before.{◌≼◌, ≼_trans}
use bhc_scheduler.Queue.Sift.{nth, IsHeap}
use bhc_scheduler.Queue.Contents.{
  IsValid, Pushed, queue_push-Pushed, Popped, queue_try_pop-Popped, PopsOrWaits,
  queue_pop-PopsOrWaits,
}
use bhc_scheduler.Queue.Selection.{
  Best, TakenFrom, FirstWith, queue_try_pop_matching-Best, queue_remove-FirstWith,
}
use bhc_scheduler.Queue.Starvation.{GivesAgain, requeued_blocks}

abbrev job : CText → ℤ → ℕ → Job
job id priority at = record zeroed_job { id = id; priority = priority; submitted_at = at }

abbrev urgent : Job
urgent = job (c_text "u") (negsuc 1) 30

abbrev early : Job
early = job (c_text "e") (pos 5) 10

abbrev late : Job
late = job (c_text "l") (pos 5) 20

abbrev three : Queue
three = record { heap = urgent ∷ late ∷ early ∷ []; capacity = 8; shutdown = false }

three-IsHeap : IsHeap three.heap
unfolding job_before
three-IsHeap zero p h = absurd (omega arith)
three-IsHeap (suc zero) p h = refl
three-IsHeap (suc (suc zero)) p h = refl
three-IsHeap (suc (suc (suc c))) p h = absurd (omega arith)

three-IsValid : IsValid three
three-IsValid = record { heap = three-IsHeap; fits = omega arith; room = omega arith }

small : Job → Bool
small j = ltb_ℤ (pos 0) j.priority

queue_push-Pushed_example : Yields (Pushed true three early) (queue_push true three early)
queue_push-Pushed_example = queue_push-Pushed true three early three-IsValid

queue_try_pop-Popped_example :
    Yields
      (λ r. ((three.heap ≡ []) × (r ≡ (none, three))) ⊎ ((j : Job) × Popped three j r))
      (queue_try_pop three)
queue_try_pop-Popped_example = queue_try_pop-Popped three three-IsValid

queue_pop-PopsOrWaits_example : Yields (PopsOrWaits three) (queue_pop three)
queue_pop-PopsOrWaits_example = queue_pop-PopsOrWaits three three-IsValid

queue_try_pop_matching-Best_example :
    Yields
      (λ r.
        (((r ≡ (none, three)) × Best small three.heap (length three.heap) none)
          ⊎ ((b : ℕ) × Best small three.heap (length three.heap) (some b) × TakenFrom three b r)))
      (queue_try_pop_matching (some small) three)
queue_try_pop_matching-Best_example = queue_try_pop_matching-Best small three three-IsValid

queue_remove-FirstWith_example :
    Yields
      (λ r.
        (((r ≡ (none, three))
            × ((k : ℕ)
                → k < length three.heap
                → str_same (nth three.heap k).id (c_text "l") ≡ false))
          ⊎ ((at : ℕ) × FirstWith (c_text "l") three.heap at × TakenFrom three at r)))
      (queue_remove (c_text "l") three)
queue_remove-FirstWith_example = queue_remove-FirstWith (c_text "l") three three-IsValid

requeued_blocks_example :
    Yields
      (λ r. (j : Job) × (r.0 ≡ some j) × Yields (GivesAgain j) (queue_push true r.1 j))
      (queue_try_pop three)
requeued_blocks_example = requeued_blocks three three-IsValid refl (omega arith)

≼_trans_example : urgent ≼ late
unfolding job_before
≼_trans_example = ≼_trans urgent early late refl refl

abbrev names : List Job → List CText
names [] = []
names (x ∷ xs) = x.id ∷ names xs

abbrev ids : Option (Option Job × Queue) → Option CText × List CText
ids (some (some j, q)) = (some j.id, names q.heap)
ids _ = (none, [])

pops_urgent : ids (queue_try_pop three) ≡ (some (c_text "u"), c_text "e" ∷ c_text "l" ∷ [])
unfolding queue_try_pop job_before move_last heap_down smaller_of entry_before
pops_urgent = refl

removes_late :
    ids (queue_remove (c_text "l") three) ≡ (some (c_text "l"), c_text "u" ∷ c_text "e" ∷ [])
unfolding queue_remove job_before index_of str_same extract_at move_last resettle entry_before
    heap_down smaller_of
removes_late = refl

takes_best_match :
    ids (queue_try_pop_matching (some small) three)
    ≡ (some (c_text "e"), c_text "u" ∷ c_text "l" ∷ [])
unfolding queue_try_pop_matching job_before small best_match improves entry_before extract_at
    move_last resettle
takes_best_match = refl
