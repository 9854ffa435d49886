-- ===== src/Pool/Outcomes.antt =====
-- backends/worker_pool.py: how jobs end, in `_worker_loop`, `cancel_job` and `submit_job`.
use stability_toys.Prelude.{
  ℕ, ◌≡◌, refl, sym, String, true, false, Option, none, some, not, ◌&&◌, if◌then◌else◌, arith,
  Option-cases, inl, inr, subst,
}
use stability_toys.Prelude.Dict.{
  IsDict, lookup, insert, erase-insert_new, insert-IsDict, lookup-erase_self, lookup-insert_self,
}
use stability_toys.Prelude.Effects.{raised}
use stability_toys.Pool.Model.{
  Future, pending, refused, Job, Work, generation, mode_switch, evict_if_idle, custom, queued,
  running, JobRecord, Error, queue_full, Pool, is_done, settle_once,
}
use stability_toys.Pool.Jobs.{register_job, submit_job, cancel_job, is_full}
use stability_toys.Pool.Loop.{fail_job, return_job, finish, recover}
use stability_toys.Pool.Rounds.{fail_job_lem, fail_job-Advances}
use stability_toys.Pool.Ends.{return_job-Advances}

-- A submission to a full queue raises, and leaves the pool as it was, where a generation job's
-- identifier is a new one.
submit_job_full :
    (job : Job) (p : Pool)
    → is_full p ≡ true
    → ((id : String) (epoch : ℕ) → job.work ≡ generation id epoch → lookup id p.records ≡ none)
    → submit_job job p ≡ (raised queue_full, p)
unfolding submit_job register_job
submit_job_full job p full new = go job.work refl
  where
    go : (work : Work) → job.work ≡ work → submit_job job p ≡ (raised queue_full, p)
    go (generation id epoch) h =
        let restored =
          erase-insert_new id
            (record { state = queued; ticket = job.ticket; cancel_requested = false }) p.records
            (new id epoch h) in
        ground (arith, restored)
    go (mode_switch target force) h = ground arith
    go evict_if_idle h = ground arith
    go custom h = ground arith

settle_once-is_done :
    (t : ℕ) (f : Future) (futures : ℕ → Future)
    → is_done f ≡ true
    → is_done (settle_once t f futures t) ≡ true
settle_once-is_done t f futures h = ground arith

fail_job-is_done :
    (job : Job) (e : Error) (p : Pool) → is_done ((fail_job job e p).futures job.ticket) ≡ true
fail_job-is_done job e p =
    let (records', f, runs, done) = fail_job_lem job e p in
    subst (λ q. is_done (q.futures job.ticket) ≡ true) (sym runs)
      (settle_once-is_done job.ticket f (recover e p).futures done)

return_job-is_done : (job : Job) (p : Pool) → is_done ((return_job job p).futures job.ticket) ≡ true
unfolding return_job
return_job-is_done job p = go job.work refl
  where
    go : (work : Work) → job.work ≡ work → is_done ((return_job job p).futures job.ticket) ≡ true
    go (generation id epoch) h = elim (Option-cases (lookup id p.records)) [
      | inl gone ↦ ground arith
      | inr (r, has) ↦ ground arith
    ]
    go (mode_switch target force) h = ground arith
    go evict_if_idle h = ground arith
    go custom h = ground arith

-- Whether the active job returns or raises, and whatever other threads did to it, its round ends: the
-- worker thread is free again, the job's future is settled, and the activity clock is at that time.
pub finish_settles :
    (now : ℕ) (outcome : Option Error) (p : Pool) (job : Job)
    → p.active ≡ some job
    → ((finish now outcome p).active ≡ none)
      × (is_done ((finish now outcome p).futures job.ticket) ≡ true)
      × ((finish now outcome p).last_activity ≡ now)
unfolding finish
finish_settles now none p job busy =
    let p' : Pool = record p { active = none } in
    let done = return_job-is_done job p' in
    let free = (return_job-Advances job p').active in
    (ground (arith, free), ground (arith, done), ground arith)
finish_settles now (some e) p job busy =
    let p' : Pool = record p { active = none } in
    let done = fail_job-is_done job e p' in
    let free = (fail_job-Advances job e p').active in
    (ground (arith, free), ground (arith, done), ground arith)

module _ (job : Job) (id : String) (epoch : ℕ) (p : Pool)
    (works : job.work ≡ generation id epoch) where
  -- A running job is cancelled cooperatively: `cancel_job` is true, and when the job returns, whatever
  -- it made is dropped, its future gets `CancelledError`, and its record goes.
  pub cancel_job-finish :
      (now : ℕ) (r : JobRecord)
      → IsDict p.records
      → p.active ≡ some job
      → lookup id p.records ≡ some r
      → r.ticket ≡ job.ticket
      → r.state ≡ running
      → p.futures job.ticket ≡ pending
      → let (accepted, q) = cancel_job id p in
        (accepted ≡ true)
        × ((finish now none q).futures job.ticket ≡ refused)
        × (lookup id (finish now none q).records ≡ none)
  unfolding cancel_job finish return_job
  cancel_job-finish now r dict busy has same runs free =
      let marked : JobRecord = record r { cancel_requested = true; state = running } in
      let kept = lookup-insert_self id marked p.records in
      let gone =
        lookup-erase_self id (insert id marked p.records)
          (insert-IsDict id marked p.records dict) in
      (ground arith, ground (arith, kept), ground (arith, kept, gone))

  -- When the active job returns, its record goes, with one exception: where its future was settled
  -- before, as by a client's `cancel`, and nobody asked the pool to cancel the job, the record stays.
  pub finish_record :
      (now : ℕ) (r : JobRecord)
      → IsDict p.records
      → p.active ≡ some job
      → lookup id p.records ≡ some r
      → lookup id (finish now none p).records
        ≡ (if is_done (p.futures job.ticket) && not r.cancel_requested then some r else none)
  unfolding finish return_job
  finish_record now r dict busy has =
      let gone = lookup-erase_self id p.records dict in ground (arith, gone)
