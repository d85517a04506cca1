-- ===== src/Executor/Asking.antt =====
-- `executor_shutdown`, the loop that asks every execution to stop.
use bhc_scheduler.Common.{
  ℕ, suc, ◌≤◌, ◌<◌, ◌≡◌, refl, ap, sym, ◌∙◌, true, List, [], ◌∷◌, ◌++◌, arith, inl, inr, length,
}
use bhc_scheduler.Common.Text.{CText, c_text}
use bhc_scheduler.Job.{cancelled}
use bhc_scheduler.Executor.{
  ActiveExecution, ExecSystem, put, mark_terminated, kill_running, shutdown_each, shutdown_begin,
}
use bhc_scheduler.Executor.Table.{views, view_of, Descending, Every, Ordered, Ordered-Descending}
use bhc_scheduler.Executor.Effects.{Settled, Stopped-Settled, mark_terminated-cases}
use bhc_scheduler.Executor.Contract.{asked, ask_all, Stopped-view, asked_again}

abbrev pub shutdown_reason : CText
shutdown_reason = c_text "Orchestrator shutting down"

abbrev pub Asked : ActiveExecution → Type 0
Asked e = e.termination_requested ≡ true

-- What the loop makes of the executions from some point of the list on.
abbrev pub AllAsked : List ActiveExecution → List ActiveExecution → Type 0
AllAsked es new =
    (views new ≡ ask_all cancelled shutdown_reason (views es))
    × Every Asked new
    × Every Settled new
    × (length new ≡ length es)
    × ((b : ℕ) → Descending b es → Descending b new)

abbrev Over : ℕ → List ActiveExecution → Type 0
Over b pre = Every (λ p. b ≤ p.handle) pre

put-past :
    (x e : ActiveExecution) (b : ℕ) (pre es : List ActiveExecution)
    → Over b pre
    → e.handle < b
    → x.handle ≡ e.handle
    → put x (pre ++ e ∷ es) ≡ pre ++ x ∷ es
unfolding put
put-past x e b [] es over low same = ground arith
put-past x e b (p ∷ pre) es (high, over) low same =
    ground (arith, put-past x e b pre es over low same)

Over-next :
    (x : ActiveExecution) (a b : ℕ) (pre : List ActiveExecution)
    → Over b pre
    → a < b
    → x.handle ≡ a
    → Over a (pre ++ x ∷ [])
Over-next x a b [] over low same = (omega arith, tt)
Over-next x a b (p ∷ pre) (high, over) low same = (omega arith, Over-next x a b pre over low same)

append_one :
    (pre : List ActiveExecution) (x : ActiveExecution) (es : List ActiveExecution)
    → (pre ++ x ∷ []) ++ es ≡ pre ++ x ∷ es
append_one [] x es = refl
append_one (p ∷ pre) x es = ap (λ t. p ∷ t) (append_one pre x es)

pub killed-executions : (pid : ℕ) (s : ExecSystem) → (kill_running pid s).executions ≡ s.executions
killed-executions pid s = ground arith

-- One step of the loop: the execution at this place is asked, and the others stay.
marked_at :
    (pre : List ActiveExecution) (e : ActiveExecution) (es : List ActiveExecution) (b : ℕ)
    → (s : ExecSystem) → s.executions ≡ pre ++ e ∷ es
    → Over b pre
    → e.handle < b
    → Settled e
    → (x : ActiveExecution) × (x.handle ≡ e.handle)
      × Asked x
      × Settled x
      × (view_of x ≡ asked cancelled shutdown_reason (view_of e))
      × ((kill_running e.pid (mark_terminated cancelled shutdown_reason e s)).executions
          ≡ pre ++ x ∷ es)
marked_at pre e es b s at over low settled =
    elim (mark_terminated-cases cancelled shutdown_reason e s refl settled) [
      | inl (before, same) ↦ (
        e,
        refl,
        before,
        settled,
        sym (asked_again cancelled shutdown_reason e before),
        killed-executions e.pid _ ∙ ap (λ (t : ExecSystem). t.executions) same ∙ at,
      )
      | inr (first, (x, stopped, now)) ↦ (
        x,
        stopped.0,
        stopped.3,
        Stopped-Settled cancelled shutdown_reason e x refl stopped,
        Stopped-view cancelled shutdown_reason e x stopped first,
        killed-executions e.pid _ ∙ now ∙ ap (put x) at ∙ put-past x e b pre es over low stopped.0,
      )
    ]

-- The loop from a point of the list on.
asked_from :
    (pre es : List ActiveExecution) (b : ℕ) (s : ExecSystem)
    → s.executions ≡ pre ++ es
    → Over b pre
    → Descending b es
    → Every Settled es
    → (new : List ActiveExecution) × AllAsked es new
      × ((shutdown_each es s).executions ≡ pre ++ new)
unfolding shutdown_each
asked_from pre [] b s at over d settled = ([], (refl, tt, tt, refl, λ _ k. k), at)
asked_from pre (e ∷ es) b s at over (low, d) (own, settled) =
    let (x, same, now, fine, seen, after) = marked_at pre e es b s at over low own in
    let (new, (v, a, t, l, o), end) =
      asked_from (pre ++ x ∷ []) es e.handle
        (kill_running e.pid (mark_terminated cancelled shutdown_reason e s))
        (after ∙ sym (append_one pre x es)) (Over-next x e.handle b pre over low same) d settled in
    (
      x ∷ new,
      (
        ap (λ w. w ∷ views new) seen ∙ ap (λ w. asked cancelled shutdown_reason (view_of e) ∷ w) v,
        (now, a),
        (fine, t),
        ap suc l,
        λ c (h, k). (omega arith, rw same (o e.handle k)),
      ),
      end ∙ append_one pre x new,
    )

-- `executor_shutdown` asks every active execution to stop and forgets none; a request that came before
-- keeps its outcome.
pub shutdown_begin-AllAsked :
    (s : ExecSystem)
    → Ordered s.executions
    → Every Settled s.executions
    → AllAsked s.executions (shutdown_begin s).executions
unfolding shutdown_begin
shutdown_begin-AllAsked s order settled =
    let (b, d) = Ordered-Descending s.executions order in
    let (new, done, end) =
      asked_from [] s.executions b (record s { shutting_down = true }) refl tt d settled in
    rw end done
