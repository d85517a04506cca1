-- ===== src/Executor/Table.antt =====
-- The list of executions: what a write, a removal and the marks of a request do to it.
use bhc_scheduler.Common.{
  ℕ, suc, ◌<◌, ◌≡◌, refl, ap, Option, none, some, List, [], ◌∷◌, arith, inl, inr, Bool-cases,
  length, ◌==◌, if◌then◌else◌,
}
use bhc_scheduler.Common.Text.{CText}
use bhc_scheduler.Job.{JobStatus}
use bhc_scheduler.Executor.{
  ActiveExecution, find_execution, fresh_handle, put, without, find_active,
}

-- The addresses of the list are distinct and below the bound, the newest first.
abbrev pub Descending : ℕ → List ActiveExecution → Type 0
Descending bound [] = Unit
Descending bound (e ∷ es) = (e.handle < bound) × Descending e.handle es

abbrev pub Ordered : List ActiveExecution → Type 0
Ordered [] = Unit
Ordered (e ∷ es) = Descending e.handle es

abbrev pub Every : (ActiveExecution → Type 0) → List ActiveExecution → Type 0
Every P [] = Unit
Every P (e ∷ es) = P e × Every P es

pub Descending-weaken :
    (a b : ℕ) (es : List ActiveExecution) → a < b → Descending a es → Descending b es
Descending-weaken a b [] h d = d
Descending-weaken a b (e ∷ es) h (low, d) = (omega arith, d)

pub put-Descending :
    (x : ActiveExecution) (b : ℕ) (es : List ActiveExecution)
    → Descending b es
    → Descending b (put x es)
unfolding put
put-Descending x b [] d = d
put-Descending x b (e ∷ es) (low, d) = ground (arith, put-Descending x e.handle es d)

pub without-Descending :
    (h b : ℕ) (es : List ActiveExecution) → Descending b es → Descending b (without h es)
unfolding without
without-Descending h b [] d = d
without-Descending h b (e ∷ es) (low, d) =
    ground (arith, without-Descending h e.handle es d, Descending-weaken e.handle b es low d)

pub put-Ordered :
    (x : ActiveExecution) (es : List ActiveExecution) → Ordered es → Ordered (put x es)
unfolding put
put-Ordered x [] d = d
put-Ordered x (e ∷ es) d = ground (arith, put-Descending x e.handle es d)

Ordered-tail : (e : ActiveExecution) (es : List ActiveExecution) → Ordered (e ∷ es) → Ordered es
Ordered-tail e [] d = d
Ordered-tail e (x ∷ es) (_, d) = d

pub without-Ordered : (h : ℕ) (es : List ActiveExecution) → Ordered es → Ordered (without h es)
unfolding without
without-Ordered h [] d = d
without-Ordered h (e ∷ es) d =
    ground (arith, without-Descending h e.handle es d, Ordered-tail e es d)

pub Ordered-Descending : (es : List ActiveExecution) → Ordered es → (b : ℕ) × Descending b es
Ordered-Descending [] d = (0, d)
Ordered-Descending (e ∷ es) d = (suc e.handle, (omega arith, d))

pub Descending-Ordered : (b : ℕ) (es : List ActiveExecution) → Descending b es → Ordered es
Descending-Ordered b [] d = d
Descending-Ordered b (e ∷ es) (_, d) = d

-- A new execution has an address of its own.
pub fresh-Ordered :
    (e : ActiveExecution) (es : List ActiveExecution)
    → e.handle ≡ fresh_handle es
    → Ordered es
    → Ordered (e ∷ es)
fresh-Ordered e [] own d = d
fresh-Ordered e (x ∷ es) own d = (omega arith, d)

pub put-Every :
    (P : ActiveExecution → Type 0) (x : ActiveExecution) (es : List ActiveExecution)
    → P x
    → Every P es
    → Every P (put x es)
unfolding put
put-Every P x [] h all = all
put-Every P x (e ∷ es) h (p, all) = ground (arith, put-Every P x es h all)

pub without-Every :
    (P : ActiveExecution → Type 0) (h : ℕ) (es : List ActiveExecution)
    → Every P es
    → Every P (without h es)
unfolding without
without-Every P h [] all = all
without-Every P h (e ∷ es) (p, all) = ground (arith, without-Every P h es all)

pub find_execution-Every :
    (P : ActiveExecution → Type 0) (h : ℕ) (es : List ActiveExecution) (e : ActiveExecution)
    → Every P es
    → find_execution h es ≡ some e
    → P e
unfolding find_execution
find_execution-Every P h [] e all found = cc
find_execution-Every P h (x ∷ es) e (p, all) found = elim (Bool-cases (x.handle == h)) [
  | inl yes_case ↦ (let same : x ≡ e = ground arith in rw (← same) p)
  | inr no_case ↦ find_execution-Every P h es e all (rw no_case at found)
]

pub found_handle :
    (h : ℕ) (es : List ActiveExecution) (e : ActiveExecution)
    → find_execution h es ≡ some e
    → e.handle ≡ h
unfolding find_execution
found_handle h [] e found = cc
found_handle h (x ∷ es) e found = ground (arith, found_handle h es e)

pub find_active-below :
    (id : CText) (b : ℕ) (es : List ActiveExecution) (e : ActiveExecution)
    → Descending b es
    → find_active id es ≡ some e
    → e.handle < b
unfolding find_active
find_active-below id b [] e d found = cc
find_active-below id b (x ∷ es) e (low, d) found =
    ground (arith, find_active-below id x.handle es e d)

-- The execution that is found by its job is the one at its address.
pub find_active-own :
    (id : CText) (b : ℕ) (es : List ActiveExecution) (e : ActiveExecution)
    → Descending b es
    → find_active id es ≡ some e
    → find_execution e.handle es ≡ some e
unfolding find_active find_execution
find_active-own id b [] e d found = cc
find_active-own id b (x ∷ es) e (low, d) found =
    ground (arith, find_active-own id x.handle es e d, find_active-below id x.handle es e d)

-- What the users of the executor see of an execution: its job, and the outcome that was asked for.
abbrev pub Seen : Type 0
Seen = CText × Option (JobStatus × CText)

abbrev pub view_of : ActiveExecution → Seen
view_of e = (
  e.job.id,
  if e.termination_requested then some (e.terminal_status, e.terminal_reason) else none,
)

abbrev pub views : List ActiveExecution → List Seen
views [] = []
views (e ∷ es) = view_of e ∷ views es

-- A write that changes nothing of that.
pub put-views :
    (new e : ActiveExecution) (es : List ActiveExecution)
    → find_execution new.handle es ≡ some e
    → view_of new ≡ view_of e
    → views (put new es) ≡ views es
unfolding put find_execution
put-views new e [] found same = cc
put-views new e (x ∷ es) found same = elim (Bool-cases (x.handle == new.handle)) [
  | inl here ↦ let own : x ≡ e = ground arith in rw (here, same, own) refl
  | inr there ↦ rw there (ap (λ t. view_of x ∷ t) (put-views new e es (rw there at found) same))
]

pub put-length :
    (new : ActiveExecution) (es : List ActiveExecution) → length (put new es) ≡ length es
unfolding put
put-length new [] = refl
put-length new (e ∷ es) = ground (arith, put-length new es)

pub without-length :
    (h : ℕ) (es : List ActiveExecution) (e : ActiveExecution)
    → find_execution h es ≡ some e
    → suc (length (without h es)) ≡ length es
unfolding without find_execution
without-length h [] e found = cc
without-length h (x ∷ es) e found = ground (arith, without-length h es e)

-- The first entry that satisfies a test goes.
infix 40 ◌↘◌
pub data ◌↘◌ : List Seen → List Seen → Type 0 where
  drop : {x : Seen} {t : List Seen} → (x ∷ t) ↘ t
  keep : {x : Seen} {t u : List Seen} → t ↘ u → (x ∷ t) ↘ (x ∷ u)

pub without-leaves :
    (h : ℕ) (es : List ActiveExecution) (e : ActiveExecution)
    → find_execution h es ≡ some e
    → views es ↘ views (without h es)
unfolding without find_execution
without-leaves h [] e found = cc
without-leaves h (x ∷ es) e found = elim (Bool-cases (x.handle == h)) [
  | inl here ↦ rw here drop
  | inr there ↦ rw there (keep (without-leaves h es e (rw there at found)))
]
