-- ===== src/Pool/Cancelled.antt =====
-- backends/worker_pool.py: a queued job that `cancel_job` cancels, over what the threads do later.
use stability_toys.Prelude.{ℕ, ◌≡◌, ◌∙◌, String, true, List, [], ◌∷◌, none, some, arith, ap}
use stability_toys.Prelude.Dict.{IsDict, lookup, lookup-erase_self}
use stability_toys.Pool.Model.{
  pending, cancelled, Job, generation, queued, JobRecord, Pool, World, is_done,
}
use stability_toys.Pool.Jobs.{cancel_job}
use stability_toys.Pool.Loop.{begin, begin_job}
use stability_toys.Pool.Schedule.{Event, cancels_job, step, run}
use stability_toys.Pool.Sound.{IsSound}
use stability_toys.Pool.Safety.{run-IsSound, run-Follows}

-- A round that takes a cancelled job from the queue hands nothing to a worker: it drops the record of
-- the job, and leaves the worker and the future alone.
pub record Skips (id : String) (ticket : ℕ) (p q : Pool) : Type 0 where
  pub idle : q.active ≡ none
  pub worker : q.worker ≡ p.worker
  pub future : q.futures ticket ≡ cancelled
  pub record_gone : lookup id q.records ≡ none

-- Every round of a free thread that takes the job of this number.
abbrev pub NeverRuns : String → ℕ → Pool → Type 0
NeverRuns id ticket p =
    (w : World) (job : Job) (rest : List Job) (epoch : ℕ) (r : JobRecord)
    → IsDict p.records
    → p.active ≡ none
    → p.queue ≡ job ∷ rest
    → job.work ≡ generation id epoch
    → job.ticket ≡ ticket
    → lookup id p.records ≡ some r
    → Skips id ticket p (begin w p)

cancelled-NeverRuns :
    (id : String) (ticket : ℕ) (p : Pool) → p.futures ticket ≡ cancelled → NeverRuns id ticket p
unfolding begin begin_job
cancelled-NeverRuns id ticket p gone w job rest epoch r dict idle h works mine has =
    let here : p.futures job.ticket ≡ cancelled = ap p.futures mine ∙ gone in
    let dropped = lookup-erase_self id p.records dict in
    record {
      idle = ground arith;
      worker = ground arith;
      future = ground arith;
      record_gone = ground (arith, dropped);
    }

cancels_queued :
    (id : String) (r : JobRecord) (p : Pool)
    → lookup id p.records ≡ some r
    → r.state ≡ queued
    → p.futures r.ticket ≡ pending
    → ((cancel_job id p).0 ≡ true) × ((cancel_job id p).1.futures r.ticket ≡ cancelled)
unfolding cancel_job
cancels_queued id r p has waits free = (ground arith, ground arith)

-- A queued job of a sound pool is cancelled at once, wherever it stands in the queue and whatever the
-- thread does: `cancel_job` is true, and the future is cancelled. After any sequence of events it still
-- is, and a round of the free thread that takes the job, while the job has a record, hands nothing to a
-- worker, drops the record and leaves the worker alone.
pub cancel_job-run :
    (id : String) (r : JobRecord) (p : Pool)
    → IsSound p
    → lookup id p.records ≡ some r
    → r.state ≡ queued
    → p.futures r.ticket ≡ pending
    → let (accepted, q) = cancel_job id p in
      (accepted ≡ true)
      × ((es : List Event)
          → ((run es q).futures r.ticket ≡ cancelled) × NeverRuns id r.ticket (run es q))
unfolding step run
cancel_job-run id r p sound has waits free =
    let q = (cancel_job id p).1 in
    let (accepted, gone) = cancels_queued id r p has waits free in
    let sound' : IsSound q = run-IsSound (cancels_job id ∷ []) p sound in
    (
      accepted,
      λ es.
          let kept = (run-Follows es q sound').settled r.ticket (ap is_done gone) ∙ gone in
          (kept, cancelled-NeverRuns id r.ticket (run es q) kept),
    )
