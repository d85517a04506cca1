-- ===== src/Queue.antt =====
-- src/core/queue.c: the job queue, a binary heap in an array that grows.
-- `heap` holds the live entries, so its length is `size`; the lock and the condition variable are
-- left out, since each call holds the lock from its start to its end. A read or write out of bounds
-- is `none`; so is a loop whose fuel runs out.
pub mod Before
pub mod Sift
pub mod Sink
pub mod Extract
pub mod Contents
pub mod Selection
pub mod Starvation
mod Tests
use bhc_scheduler.Common.{
  ℕ, zero, suc, ◌+◌, ◌-◌, ◌*◌, ◌/◌, Bool, true, false, not, Option, none, some, List, [], ◌∷◌, ◌++◌,
  ltb, ◌==◌, if◌then◌else◌, length, get_elem?, set, take,
}
use bhc_scheduler.Common.Int.{ltb_ℤ, eqb_ℤ}
use bhc_scheduler.Common.Text.{CText, str_before, str_same}
use bhc_scheduler.Common.Rc.{Rc, ok, error}
use bhc_scheduler.Common.Fallible.{◌>>=◌}
use bhc_scheduler.Job.{Job}

pub record Queue : Type 0 where
  pub heap : List Job
  pub capacity : ℕ
  pub shutdown : Bool

-- Smaller priority value first, then the earlier submission, then the smaller identifier.
unfoldable pub job_before : Job → Job → Bool
job_before a b =
    if not (eqb_ℤ a.priority b.priority)
    then ltb_ℤ a.priority b.priority
    else if not (a.submitted_at == b.submitted_at)
    then ltb a.submitted_at b.submitted_at
    else str_before a.id b.id

pub heap_swap : List Job → ℕ → ℕ → Option (List Job)
heap_swap heap a b = do
  tmp ← get_elem? heap a
  other ← get_elem? heap b
  some (set (set heap a other) b tmp)

-- `job_before(heap[i], heap[j])`
pub entry_before : List Job → ℕ → ℕ → Option Bool
entry_before heap i j = do a ← get_elem? heap i; b ← get_elem? heap j; some (job_before a b)

abbrev pub parent_of : ℕ → ℕ
parent_of i = (i - 1) / 2

pub up_loop : ℕ → List Job → ℕ → Option (List Job)
up_loop zero heap i = none
up_loop (suc fuel) heap i =
    let climb = heap_swap heap (parent_of i) i >>= λ h. up_loop fuel h (parent_of i) in
    let round =
      entry_before heap i (parent_of i) >>= λ before. if before then climb else some heap in
    if ltb 0 i then round else some heap

-- `heap_up`: the index falls in each round.
pub heap_up : List Job → ℕ → Option (List Job)
unfolding up_loop
heap_up heap i = up_loop (i + 1) heap i

-- `if (k < n && job_before(heap[k], heap[smallest])) smallest = k;`
pub smaller_of : List Job → ℕ → ℕ → Option ℕ
smaller_of heap k smallest =
    if ltb k (length heap)
    then (do before ← entry_before heap k smallest; some (if before then k else smallest))
    else some smallest

pub down_loop : ℕ → List Job → ℕ → Option (List Job)
down_loop zero heap i = none
down_loop (suc fuel) heap i = do
  left ← smaller_of heap (2 * i + 1) i
  smallest ← smaller_of heap (2 * i + 2) left
  let sink = heap_swap heap i smallest >>= λ h. down_loop fuel h smallest
  if smallest == i then some heap else sink

-- `heap_down`: the index rises in each round and stays below the size.
pub heap_down : List Job → ℕ → Option (List Job)
unfolding down_loop
heap_down heap i = down_loop (length heap + 1) heap i

-- `queue_create`
unfoldable pub queue_create : ℕ → Queue
queue_create initial_capacity = record {
  heap = [];
  capacity = if ltb initial_capacity 8 then 8 else initial_capacity;
  shutdown = false;
}

-- The growth of the array; `realloc_ok` says whether `realloc` finds the memory.
pub make_room : Bool → Queue → Option Queue
make_room realloc_ok q =
    if length q.heap == q.capacity
    then (if realloc_ok then some (record q { capacity = q.capacity * 2 }) else none)
    else some q

abbrev push_into : Queue → Job → Option Queue → Option (Rc × Queue)
push_into q job none = some (error, q)
push_into q job (some roomy) = do
  heap ← heap_up (roomy.heap ++ job ∷ []) (length roomy.heap)
  some (ok, record roomy { heap = heap })

-- `queue_push`
pub queue_push : Bool → Queue → Job → Option (Rc × Queue)
queue_push realloc_ok q job =
    if q.shutdown then some (error, q) else push_into q job (make_room realloc_ok q)

-- `heap[at] = heap[--size]`
pub move_last : List Job → ℕ → Option (List Job)
move_last heap at = do
  let size = length heap - 1
  last ← get_elem? heap size
  some (take size (set heap at last))

-- `if (at < size) { ... up or down ... }` after an entry was taken from the middle.
pub resettle : List Job → ℕ → Option (List Job)
resettle heap at =
    let rises = (do
      before ← entry_before heap at (parent_of at)
      if before then heap_up heap at else heap_down heap at) in
    if ltb at (length heap) then (if ltb 0 at then rises else heap_down heap at) else some heap

-- The entry at `at` leaves the heap.
pub extract_at : Queue → ℕ → Option (Option Job × Queue)
extract_at q at = do
  job ← get_elem? q.heap at
  shorter ← move_last q.heap at
  settled ← resettle shorter at
  some (some job, record q { heap = settled })

-- `queue_try_pop`
pub queue_try_pop : Queue → Option (Option Job × Queue)
queue_try_pop q = if length q.heap == 0 then some (none, q) else do
  job ← get_elem? q.heap 0
  shorter ← move_last q.heap 0
  settled ← if ltb 0 (length shorter) then heap_down shorter 0 else some shorter
  some (some job, record q { heap = settled })

-- What a call of `queue_pop` does once it holds the lock: sleep, or return.
pub data PopOutcome : Type 0 where
  waits : PopOutcome
  returns : Option Job → Queue → PopOutcome

pub queue_pop : Queue → Option PopOutcome
queue_pop q =
    if length q.heap == 0
    then some (if q.shutdown then returns none q else waits)
    else do (job, rest) ← queue_try_pop q; some (returns job rest)

-- `best < 0 || job_before(heap[i], heap[best])`
pub improves : List Job → ℕ → Option ℕ → Option Bool
improves heap i none = some true
improves heap i (some b) = entry_before heap i b

-- The scan of `queue_try_pop_matching`, at index `i` with the rest of the entries.
pub best_match : (Job → Bool) → List Job → List Job → ℕ → Option ℕ → Option (Option ℕ)
best_match predicate heap [] i best = some best
best_match predicate heap (job ∷ rest) i best = do
  better ← if predicate job then improves heap i best else some false
  best_match predicate heap rest (suc i) (if better then some i else best)

abbrev extract_found : Queue → Option ℕ → Option (Option Job × Queue)
extract_found q none = some (none, q)
extract_found q (some at) = extract_at q at

-- `queue_try_pop_matching`
pub queue_try_pop_matching : Option (Job → Bool) → Queue → Option (Option Job × Queue)
queue_try_pop_matching none q = queue_try_pop q
queue_try_pop_matching (some predicate) q = do
  best ← best_match predicate q.heap q.heap 0 none
  extract_found q best

-- The scan of `queue_remove`.
pub index_of : CText → List Job → ℕ → Option ℕ
index_of id [] i = none
index_of id (job ∷ rest) i = if str_same job.id id then some i else index_of id rest (suc i)

-- `queue_remove`, and `queue_remove_by_id`, which calls it.
pub queue_remove : CText → Queue → Option (Option Job × Queue)
queue_remove id q = extract_found q (index_of id q.heap 0)

-- `queue_size`
unfoldable pub queue_size : Queue → ℕ
queue_size q = length q.heap

-- `queue_shutdown`
unfoldable pub queue_shutdown : Queue → Queue
queue_shutdown q = record q { shutdown = true }
