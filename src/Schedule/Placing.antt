-- ===== src/Schedule/Placing.antt =====
-- What becomes of a job once its quota allows it: placed, pinned, or put back.
use bhc_scheduler.Common.{◌≡◌, refl, false, Option, none, some, inl, inr, if_cases}
use bhc_scheduler.Common.Fallible.{Yields, Yields-some}
use bhc_scheduler.Common.Text.{CText, copy_field, is_empty, has_text}
use bhc_scheduler.Common.Rc.{Rc, ok, error, conflict}
use bhc_scheduler.Job.{Job}
use bhc_scheduler.Db.{db_get_job}
use bhc_scheduler.Registry.{registry_get_copy}
use bhc_scheduler.Alloc.{AllocSystem, alloc_can_fit, alloc_reserve, alloc_reserve_on}
use bhc_scheduler.Alloc.Balance.{
  IsBalanced, alloc_reserve-IsBalanced, alloc_reserve_on-IsBalanced, alloc_release-IsBalanced,
}
use bhc_scheduler.Executor.Finish.{release_job}
use bhc_scheduler.Schedule.Tick.{
  Surroundings, SchedSystem, db_of, with_alloc, with_db, note_reason, requeue, demand_of,
  unreachable, placed, scan_anywhere, pinned_to, scan_pinned, scan_affinity,
}
use bhc_scheduler.Schedule.Soundness.{
  IsReady, Unpinned, PinnedTo, Booked, Unbooked, Scanned, requeue-Scanned, with_db-IsReady,
  send_off-Sent,
}
use bhc_scheduler.Alloc.Rollback.{
  ReservedOrNot, alloc_reserve-ReservedOrNot, BookedOrSame, alloc_reserve_on-OrSame,
}

placed-Scanned :
    (around : Surroundings) (ref : Option Job) (j : Job) (s : SchedSystem)
    (r : Rc × Option CText × AllocSystem)
    → alloc_reserve j.id (demand_of j) s.exec.alloc ≡ r
    → ReservedOrNot j.id (demand_of j) s.exec.alloc r
    → Unpinned ref j
    → IsReady s
    → IsBalanced r.2
    → Yields (Scanned ref j s) (placed around j s r)
placed-Scanned around ref j s (ok, some machine_id, a) e how free (valid, _, sound) balanced =
    let t = with_alloc a s in
    let booked : Booked ref machine_id j s t.exec =
      (refl, (s.exec.alloc, refl, refl, inl (e, free))) in
    if_cases (Yields (Scanned ref j s)) (unreachable (registry_get_copy machine_id a.machines)) _ _
      (λ offline.
        requeue-Scanned ref j s (record t { exec = release_job j.id t.exec })
          (valid, alloc_release-IsBalanced j.id a balanced, sound) refl refl refl
          (inr (machine_id, t.exec, booked, offline, refl)))
      (λ _.
        let k = record j { machine_id = copy_field 64 machine_id } in
        let (fine, sent) = send_off-Sent around k t (valid, balanced, sound) in
        Yields-some _ (fine, inr (refl, (machine_id, t.exec, booked, sent))))
placed-Scanned around ref j s (ok, none, a) e (inl (failed, _, _)) free ready balanced = absurd (cc)
placed-Scanned around ref j s (ok, none, a) e (inr (_, (m, _, named, _, _))) free ready balanced =
    absurd (cc)
placed-Scanned around ref j s (error, _, a) e (inl (_, _, same)) free (valid, _, sound) balanced =
    requeue-Scanned ref j s (with_alloc a s) (valid, balanced, sound) refl refl refl (inl same)
placed-Scanned around ref j s (error, _, a) e (inr (done, _)) free ready balanced = absurd (cc)
placed-Scanned around ref j s (conflict, _, a) e (inl (failed, _, _)) free ready balanced =
    absurd (cc)
placed-Scanned around ref j s (conflict, _, a) e (inr (done, _)) free ready balanced = absurd (cc)

noted-Scanned :
    (ref : Option Job) (j : Job) (text : CText) (s t : SchedSystem)
    → IsReady t
    → t.queue ≡ s.queue
    → t.queue_memory ≡ s.queue_memory
    → t.exec.executions ≡ s.exec.executions
    → Unbooked ref j s t
    → Yields (Scanned ref j s) (requeue j (note_reason j.id text t))
noted-Scanned ref j text s t ready queue memory same unbooked =
    requeue-Scanned ref j s (note_reason j.id text t) (with_db-IsReady _ t ready) queue memory same
      unbooked

anywhere-Scanned :
    (around : Surroundings) (ref : Option Job) (j : Job) (s : SchedSystem)
    → Unpinned ref j
    → IsReady s
    → Yields (Scanned ref j s) (scan_anywhere around j s)
unfolding scan_anywhere
anywhere-Scanned around ref j s free ready =
    let r = alloc_reserve j.id (demand_of j) s.exec.alloc in
    if_cases (Yields (Scanned ref j s)) (alloc_can_fit (demand_of j) s.exec.alloc) _ _
      (λ _.
        placed-Scanned around ref j s r refl
          (alloc_reserve-ReservedOrNot j.id (demand_of j) s.exec.alloc ready.1.tidy) free ready
          (alloc_reserve-IsBalanced j.id (demand_of j) s.exec.alloc ready.1))
      (λ _. noted-Scanned ref j around.diagnosis_text s s ready refl refl refl (inl refl))

pinned_to-Scanned :
    (around : Surroundings) (ref : Option Job) (j : Job) (machine_id : CText) (s : SchedSystem)
    (r : Rc × AllocSystem)
    → alloc_reserve_on j.id machine_id (demand_of j) s.exec.alloc ≡ r
    → BookedOrSame s.exec.alloc r
    → PinnedTo machine_id ref j
    → IsReady s
    → IsBalanced r.1
    → Yields (Scanned ref j s) (pinned_to around j machine_id s r)
pinned_to-Scanned around ref j machine_id s (ok, a) e how pin (valid, _, sound) balanced =
    let t = with_alloc a s in
    let k = record j { machine_id = copy_field 64 machine_id } in
    let booked : Booked ref machine_id j s t.exec =
      (refl, (s.exec.alloc, refl, refl, inr (e, pin))) in
    let (fine, sent) = send_off-Sent around k t (valid, balanced, sound) in
    Yields-some _ (fine, inr (refl, (machine_id, t.exec, booked, sent)))
pinned_to-Scanned around ref j machine_id s (error, a) e (inr (_, same)) pin (valid, _, sound)
      balanced =
    noted-Scanned ref j _ s (with_alloc a s) (valid, balanced, sound) refl refl refl (inl same)
pinned_to-Scanned around ref j machine_id s (error, a) e (inl done) pin ready balanced = absurd (cc)
pinned_to-Scanned around ref j machine_id s (conflict, a) e (inr (failed, _)) pin ready balanced =
    absurd (cc)
pinned_to-Scanned around ref j machine_id s (conflict, a) e (inl done) pin ready balanced =
    absurd (cc)

pinned-Scanned :
    (around : Surroundings) (j : Job) (ref : Option Job) (s : SchedSystem)
    → is_empty j.same_machine_as ≡ false
    → IsReady s
    → Yields (Scanned ref j s) (scan_pinned around j ref s)
pinned-Scanned around j none s named ready = anywhere-Scanned around none j s (inr refl) ready
pinned-Scanned around j (some ref) s named ready =
    let d = demand_of j in
    if_cases (Yields (Scanned (some ref) j s)) (has_text ref.machine_id) _ _
      (λ there.
        pinned_to-Scanned around (some ref) j ref.machine_id s
          (alloc_reserve_on j.id ref.machine_id d s.exec.alloc) refl
          (alloc_reserve_on-OrSame j.id ref.machine_id d s.exec.alloc ready.1.tidy)
          (named, there, (ref, refl, refl)) ready
          (alloc_reserve_on-IsBalanced j.id ref.machine_id d s.exec.alloc ready.1))
      (λ _. noted-Scanned (some ref) j _ s s ready refl refl refl (inl refl))

pub affinity-Scanned :
    (around : Surroundings) (j : Job) (s : SchedSystem)
    → IsReady s
    → Yields (Scanned (db_get_job j.same_machine_as (db_of s)).0 j s) (scan_affinity around j s)
affinity-Scanned around j s ready =
    let (ref, d) = db_get_job j.same_machine_as (db_of s) in
    if_cases (Yields (Scanned ref j s)) (is_empty j.same_machine_as) _ _
      (λ empty. anywhere-Scanned around ref j s (inl empty) ready)
      (λ named. pinned-Scanned around j ref (with_db d s) named (with_db-IsReady d s ready))
