-- ===== src/Executor/Books.antt =====
-- The reservations of jobs, and the lemmas on what ends of executions do to them.
use bhc_scheduler.Common.{ℕ, ◌≡◌, refl, ap, sym, ◌∙◌, Option, none, some, List, arith, set}
use bhc_scheduler.Common.Text.{CText}
use bhc_scheduler.Job.{JobStatus, Job}
use bhc_scheduler.Registry.{Machine, registry_get_copy}
use bhc_scheduler.Alloc.{
  AllocSystem, AllocRecord, find_record, alloc_release, release_found, release_slots,
  discard_record, zeroed_record,
}
use bhc_scheduler.Executor.{ActiveExecution, ExecSystem, active_unregister}
use bhc_scheduler.Executor.Finish.{
  release_job, deprovision_idle, maybe_auto_deprovision, end_job, retire, finish_without_process,
}

-- The registry's and the allocator's side of what jobs hold.
abbrev pub books : ExecSystem → List Machine × List AllocRecord
books s = (s.alloc.machines, s.alloc.allocs)

abbrev freed_books :
    List Machine × List AllocRecord → Option (ℕ × AllocRecord) → List Machine × List AllocRecord
freed_books b none = b
freed_books (ms, rs) (some (i, r)) = (release_slots r.slots ms, set rs i zeroed_record)

found_books :
    (a : AllocSystem) (o : Option (ℕ × AllocRecord))
    → ((release_found a o).1.machines, (release_found a o).1.allocs)
      ≡ freed_books (a.machines, a.allocs) o
unfolding discard_record
found_books a none = refl
found_books a (some (i, r)) = refl

release-books :
    (id : CText) (s : ExecSystem)
    → books (release_job id s) ≡ freed_books (books s) (find_record id (books s).1 0)
unfolding alloc_release
release-books id s = found_books s.alloc (find_record id s.alloc.allocs 0)

-- What a release does to the books is a matter of the books.
pub release_ext :
    (id : CText) (s t : ExecSystem)
    → books s ≡ books t
    → books (release_job id s) ≡ books (release_job id t)
release_ext id s t same =
    release-books id s
    ∙ ap (λ b. freed_books b (find_record id b.1 0)) same
    ∙ sym (release-books id t)

idle-books : (s : ExecSystem) (m : Option Machine) → books (deprovision_idle s m) ≡ books s
idle-books s none = refl
idle-books s (some m) = ground arith

deprovision-books : (id : CText) (s : ExecSystem) → books (maybe_auto_deprovision id s) ≡ books s
unfolding maybe_auto_deprovision
deprovision-books id s = ground (arith, idle-books s (registry_get_copy id s.alloc.machines))

pub retire-books :
    (e : ActiveExecution) (s : ExecSystem) → books (retire e s) ≡ books (release_job e.job.id s)
unfolding retire active_unregister
retire-books e s = deprovision-books e.job.machine_id (release_job e.job.id s)

end_job-books :
    (j : Job) (asked : JobStatus × CText) (s : ExecSystem) → books (end_job j asked s) ≡ books s
unfolding end_job
end_job-books j asked s = ground arith

pub finish-books :
    (e : ActiveExecution) (status : JobStatus) (reason : CText) (s : ExecSystem)
    → books (finish_without_process e status reason s) ≡ books (release_job e.job.id s)
unfolding finish_without_process
finish-books e status reason s =
    retire-books e (end_job e.job _ s)
    ∙ release_ext e.job.id (end_job e.job _ s) s (end_job-books e.job _ s)
