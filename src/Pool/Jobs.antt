-- ===== src/Pool/Jobs.antt =====
-- backends/worker_pool.py: the job records, the queue, cancellation and idle eviction.
use stability_toys.Prelude.{
  ℕ, ◌+◌, ◌-◌, String, Bool, true, false, List, [], ◌∷◌, ◌++◌, none, some, not, ltb, leb, length,
  ◌&&◌, if◌then◌else◌,
}
use stability_toys.Prelude.Dict.{Dict, lookup, insert, erase}
use stability_toys.Prelude.Effects.{ok, raised}
use stability_toys.Pool.Model.{
  cancelled, Job, generation, mode_switch, evict_if_idle, JobState, queued, running, stopped,
  JobRecord, queue_full, unknown_mode, Pool, PoolMethod, World, is_done, settle_once, cancels,
}
use stability_toys.Pool.Loading.{unload_current_worker}

-- `_register_job`
unfoldable pub register_job : Job → Pool → Pool
register_job job p = elim job.work [
  | generation id epoch ↦ record p {
    records =
        insert id (record { state = queued; ticket = job.ticket; cancel_requested = false })
          p.records;
  }
  | _ ↦ p
]

-- `_finalize_job_record`
abbrev pub finalize : String → Pool → Pool
finalize id p = record p { records = erase id p.records }

-- `queue.Queue.put_nowait`, and `put` at the moment when it is let in or its wait runs out: a
-- `maxsize` of zero is no limit.
abbrev pub is_full : Pool → Bool
is_full p = ltb 0 p.queue_max && leb p.queue_max (length p.queue)

abbrev pub enqueue : Job → Pool → Pool
enqueue job p = record p { queue = p.queue ++ job ∷ []; unfinished = p.unfinished + 1 }

-- The `except queue.Full` of `submit_job`.
abbrev pub retract : Job → Pool → Pool
retract job p = elim job.work [ generation id epoch ↦ finalize id p | _ ↦ p ]

-- `submit_job`
unfoldable pub submit_job : Job → PoolMethod (Unit {0})
unfolding register_job
submit_job job p =
    if is_full p
    then (raised queue_full, retract job (register_job job p))
    else (ok tt, enqueue job (register_job job p))

-- `switch_mode`: `ticket` is the new job's future.
unfoldable pub switch_mode : World → ℕ → String → Bool → PoolMethod (Unit {0})
switch_mode w ticket name force p = elim (w.get_mode name) [
  | none ↦ (raised unknown_mode, p)
  | some _ ↦ submit_job (record { ticket = ticket; work = mode_switch name force }) p
]

-- One job of the queue in `cancel_pending_generation_jobs`: a generation job's future is cancelled
-- if it is pending, and its record goes; any other job is kept.
unfoldable pub sweep : List Job → Pool → List String × List Job × Pool
sweep [] p = ([], [], p)
sweep (job ∷ jobs) p =
    let (ids, kept, p') = sweep jobs p in
    elim job.work [
      | generation id epoch ↦ (
        id ∷ ids,
        kept,
        record p' {
          futures = settle_once job.ticket cancelled p'.futures;
          records = erase id p'.records;
        },
      )
      | _ ↦ (ids, job ∷ kept, p')
    ]

-- `cancel_pending_generation_jobs`
unfoldable pub cancel_pending : Pool → List String × Pool
unfolding sweep
cancel_pending p =
    let (ids, kept, p') = sweep p.queue p in
    (ids, record p' { queue = kept; unfinished = p'.unfinished - length ids })

abbrev pub is_running : JobState → Bool
is_running running = true
is_running _ = false

-- `_mark_running_generation_jobs_cancel_requested`
unfoldable pub mark_running : Dict JobRecord → List String × Dict JobRecord
mark_running [] = ([], [])
mark_running ((id, r) ∷ rs) =
    let (ids, rs') = mark_running rs in
    if is_running r.state && not r.cancel_requested
    then (id ∷ ids, (id, record r { cancel_requested = true }) ∷ rs')
    else (ids, (id, r) ∷ rs')

-- `_cleanup_vram`
unfoldable pub cleanup_vram : Bool → Pool → List String × Pool
cleanup_vram cancel_running p =
    let (ids, p') = cancel_pending p in
    elim cancel_running [
      | true ↦
          let (more, records') = mark_running p'.records in
          (ids ++ more, unload_current_worker (record p' { records = records' }))
      | false ↦ (ids, unload_current_worker p')
    ]

-- `free_vram`: the status that it returns beside the cancelled jobs is read off the pool.
unfoldable pub free_vram : Pool → List String × Pool
free_vram = cleanup_vram true

abbrev pub is_queued : JobState → Bool
is_queued queued = true
is_queued _ = false

-- `cancel_job`
unfoldable pub cancel_job : String → Pool → Bool × Pool
cancel_job id p = elim (lookup id p.records) [
  | none ↦ (false, p)
  | some r ↦
      if is_done (p.futures r.ticket)
      then (false, p)
      else (if is_queued r.state && cancels (p.futures r.ticket)
          then (
            true,
            record p {
              records = insert id (record r { cancel_requested = true; state = stopped }) p.records;
              futures = settle_once r.ticket cancelled p.futures;
            },
          )
          else (
            true,
            record p {
              records = insert id (record r { cancel_requested = true; state = running }) p.records;
            },
          ))
]

-- `_evict_if_idle`
unfoldable pub evict_idle : ℕ → Pool → Pool
evict_idle now p =
    let p' = record p { eviction_pending = false } in
    if ltb (now - p.last_activity) p.idle_timeout
    then p'
    else elim p.worker [ none ↦ p' | some _ ↦ unload_current_worker p' ]

-- One round of `_idle_watchdog_loop`: `ticket` is the future of the eviction job.
unfoldable pub watchdog : ℕ → ℕ → Pool → Pool
watchdog now ticket p = elim p.worker [
  | none ↦ p
  | some w ↦
      if ltb (now - p.last_activity) p.idle_timeout
      then p
      else (if p.eviction_pending
          then p
          else (if is_full p
              then record p { eviction_pending = false }
              else enqueue (record { ticket = ticket; work = evict_if_idle })
                  (record p { eviction_pending = true })))
]
