-- ===== src/Executor/Shutdown.antt =====
-- `executor_shutdown`: every execution is asked to stop, and the wait for the table to become empty.
use bhc_scheduler.Common.{
  ℕ, zero, suc, ◌<◌, ◌≡◌, ◌≢◌, refl, ap, sym, ◌∙◌, Bool, true, false, Option, none, some, List, [],
  ◌∷◌, ◌++◌, ltb, ◌==◌, if_cases, arith, inl, inr, Bool-cases, length, if◌then◌else◌,
}
use bhc_scheduler.Common.Text.{CText}
use mathlib.Core.List.{append-nil, append_assoc}
use bhc_scheduler.Job.{JobStatus, cancelled}
use bhc_scheduler.Executor.Threads.{Ending, handle_of, end_execution, end-executions}
use bhc_scheduler.Executor.{
  ActiveExecution, ExecSystem, find_execution, without, mark_terminated, kill_running,
  shutdown_each, shutdown_begin,
}
use bhc_scheduler.Executor.Table.{Every, Ordered, without-length}
use bhc_scheduler.Executor.Effects.{Settled}
use bhc_scheduler.Executor.Closing.{signals, end-signals}
use bhc_scheduler.Executor.Contract.{asked}
use bhc_scheduler.Executor.Asking.{shutdown_reason, Asked, shutdown_begin-AllAsked}

abbrev no_executions : List ActiveExecution → Bool
no_executions [] = true
no_executions (_ ∷ _) = false

-- `while (s_active) active_wait();`: each wait is ended by `active_unregister` in another thread.
unfoldable pub wait_until_empty : (ExecSystem → Ending) → ℕ → ExecSystem → Option ExecSystem
unfolding end_execution
wait_until_empty next zero s = none
wait_until_empty next (suc fuel) s =
    let waited = wait_until_empty next fuel (end_execution (next s) s) in
    if no_executions s.executions then some s else waited

-- `executor_shutdown`
unfoldable pub executor_shutdown : (ExecSystem → Ending) → ℕ → ExecSystem → Option ExecSystem
unfolding shutdown_begin wait_until_empty
executor_shutdown next fuel s = wait_until_empty next fuel (shutdown_begin s)

-- The processes that are running.
abbrev pub running_pids : List ActiveExecution → List ℕ
running_pids [] = []
running_pids (e ∷ es) = if ltb 0 e.pid then e.pid ∷ running_pids es else running_pids es

mark-signals :
    (status : JobStatus) (reason : CText) (e : ActiveExecution) (s : ExecSystem)
    → signals (mark_terminated status reason e s) ≡ signals s
unfolding mark_terminated
mark-signals status reason e s = ground arith

kill-signals :
    (e : ActiveExecution) (es : List ActiveExecution) (s t : ExecSystem)
    → signals t ≡ signals s
    → ((kill_running e.pid t).shutting_down ≡ s.shutting_down)
      × ((kill_running e.pid t).killed ++ running_pids es ≡ s.killed ++ running_pids (e ∷ es))
kill-signals e es s t same = elim (Bool-cases (ltb 0 e.pid)) [
  | inl yes_case ↦ rw yes_case (
    ap (λ b. b.0) same,
    append_assoc t.killed (e.pid ∷ []) (running_pids es)
        ∙ ap (λ b. b.1 ++ e.pid ∷ running_pids es) same,
  )
  | inr no_case ↦ rw no_case (ap (λ b. b.0) same, ap (λ b. b.1 ++ running_pids es) same)
]

-- The loop sends a signal to every process that is running.
each-signals :
    (es : List ActiveExecution) (s : ExecSystem)
    → ((shutdown_each es s).shutting_down ≡ s.shutting_down)
      × ((shutdown_each es s).killed ≡ s.killed ++ running_pids es)
unfolding shutdown_each
each-signals [] s = (refl, sym (append-nil s.killed))
each-signals (e ∷ es) s =
    let t = mark_terminated cancelled shutdown_reason e s in
    let (flag, sent) = kill-signals e es s t (mark-signals cancelled shutdown_reason e s) in
    let (f, k) = each-signals es (kill_running e.pid t) in (f ∙ flag, k ∙ sent)

-- `s` is being shut down: no execution can begin, every one was asked to stop, and every process that ran
-- was sent a signal.
abbrev pub IsClosing : ExecSystem → ExecSystem → Type 0
IsClosing s t =
    (t.shutting_down ≡ true)
    × (t.killed ≡ s.killed ++ running_pids s.executions)
    × Every Asked t.executions

begin-IsClosing :
    (s : ExecSystem)
    → Ordered s.executions
    → Every Settled s.executions
    → IsClosing s (shutdown_begin s)
unfolding shutdown_begin
begin-IsClosing s order settled =
    let (f, k) = each-signals s.executions (record s { shutting_down = true }) in
    let (_, asked, _, _, _) = shutdown_begin-AllAsked s order settled in (f, k, asked)

without-Asked : (h : ℕ) (es : List ActiveExecution) → Every Asked es → Every Asked (without h es)
unfolding without
without-Asked h [] all = tt
without-Asked h (e ∷ es) (a, all) =
    if_cases (Every Asked) (e.handle == h) _ _ (λ _. all) (λ _. (a, without-Asked h es all))

-- Each wait, in a state of the shutdown with executions left, ends with the end of one of them.
abbrev pub EndsOne : (ExecSystem → Ending) → ExecSystem → Type 0
EndsOne next s =
    (t : ExecSystem)
    → IsClosing s t
    → t.executions ≢ []
    → (e : ActiveExecution) × (find_execution (handle_of (next t)) t.executions ≡ some e)

end-IsClosing :
    (x : Ending) (s t : ExecSystem) (e : ActiveExecution)
    → IsClosing s t
    → find_execution (handle_of x) t.executions ≡ some e
    → IsClosing s (end_execution x t)
end-IsClosing x s t e (flag, sent, all) found =
    let same = end-signals x t in
    (
      ap (λ b. b.0) same ∙ flag,
      ap (λ b. b.1) same ∙ sent,
      rw (end-executions x t e found) (without-Asked (handle_of x) t.executions all),
    )

-- Whichever active execution ends next, the wait is over after as many ends as there are executions.
waits :
    (next : ExecSystem → Ending) (fuel : ℕ) (origin s : ExecSystem)
    → EndsOne next origin
    → IsClosing origin s
    → length s.executions < fuel
    → (t : ExecSystem) × (wait_until_empty next fuel s ≡ some t)
      × (t.executions ≡ [])
      × IsClosing origin t
unfolding wait_until_empty
waits next zero origin s active closing room = absurd (omega arith)
waits next (suc fuel) origin s active closing room =
    elim (Bool-cases (no_executions s.executions)) [
      | inl empty ↦ (s, rw empty refl, ground arith, closing)
      | inr busy ↦
          let (e, found) = active s closing (λ h. ground arith) in
          let shorter = ap length (end-executions (next s) s e found) in
          let smaller = without-length (handle_of (next s)) s.executions e found in
          let (t, done, gone, closed) =
            waits next fuel origin (end_execution (next s) s) active
              (end-IsClosing (next s) origin s e closing found) (omega arith) in
          (t, rw busy done, gone, closed)
    ]

-- `executor_shutdown` lets no execution begin any more, asks every one to stop and sends a signal to every
-- process that is running. If in the states that this leads to each wait ends with the end of some active
-- execution, it returns after as many waits as there are executions, and no execution is left.
pub executor_shutdown-ends :
    (next : ExecSystem → Ending) (s : ExecSystem)
    → Ordered s.executions
    → Every Settled s.executions
    → EndsOne next s
    → IsClosing s (shutdown_begin s)
      × ((t : ExecSystem) × (executor_shutdown next (suc (length s.executions)) s ≡ some t)
          × (t.executions ≡ [])
          × IsClosing s t)
unfolding executor_shutdown
executor_shutdown-ends next s order settled active =
    let (_, _, _, same, _) = shutdown_begin-AllAsked s order settled in
    let closing = begin-IsClosing s order settled in
    (
      closing,
      waits next (suc (length s.executions)) s (shutdown_begin s) active closing (omega arith),
    )
