-- ===== src/Pool/FreeVram.antt =====
-- backends/worker_pool.py: what `free_vram` and an out-of-memory clean-up make of the queue.
use mathlib.Core.Path.{ap₂}
use stability_toys.Prelude.{
  ◌≡◌, refl, ◌∙◌, String, Bool, true, false, List, [], ◌∷◌, ◌++◌, none, if◌then◌else◌, arith, ap,
}
use stability_toys.Prelude.Dict.{Dict, erase}
use stability_toys.Assets.Oldest.{All}
use stability_toys.Pool.Model.{Job, JobRecord, Work, generation, running, Pool, is_done}
use stability_toys.Pool.Loading.{unload_current_worker}
use stability_toys.Pool.Jobs.{sweep, cancel_pending, mark_running, cleanup_vram, free_vram}
use stability_toys.Pool.Advances.{sweep_counts}

abbrev is_generation : Work → Bool
is_generation (generation id epoch) = true
is_generation _ = false

-- The jobs of a queue that are no generation jobs, in their order.
abbrev pub others : List Job → List Job
others [] = []
others (job ∷ jobs) = if is_generation job.work then others jobs else job ∷ others jobs

-- The identifiers of its generation jobs.
abbrev pub generations : List Job → List String
generations [] = []
generations (job ∷ jobs) = elim job.work [
  | generation id epoch ↦ id ∷ generations jobs
  | _ ↦ generations jobs
]

abbrev pub IsSettled : Pool → Job → Type 0
IsSettled p job = is_generation job.work ≡ true → is_done (p.futures job.ticket) ≡ true

-- The records that a sweep leaves: those of no generation job of the queue
abbrev pub outside : List String → Dict JobRecord → Dict JobRecord
outside [] rs = rs
outside (id ∷ ids) rs = erase id (outside ids rs)

-- A record of a running job, asked to stop.
abbrev pub asked_to_stop : JobRecord → JobRecord
asked_to_stop r = elim r.state [ running ↦ record r { cancel_requested = true } | _ ↦ r ]

abbrev pub all_asked : Dict JobRecord → Dict JobRecord
all_asked [] = []
all_asked ((id, r) ∷ rs) = (id, asked_to_stop r) ∷ all_asked rs

-- The identifiers of the running jobs that nobody has asked to stop yet.
abbrev pub newly_asked : Dict JobRecord → List String
newly_asked [] = []
newly_asked ((id, r) ∷ rs) = elim r.state [
  | running ↦ if r.cancel_requested then newly_asked rs else id ∷ newly_asked rs
  | _ ↦ newly_asked rs
]

marks : (rs : Dict JobRecord) → mark_running rs ≡ (newly_asked rs, all_asked rs)
unfolding mark_running
marks [] = refl
marks ((id, r) ∷ rs) = ground (arith, marks rs)

sweep_records :
    (jobs : List Job) (p : Pool) → (sweep jobs p).2.records ≡ outside (generations jobs) p.records
unfolding sweep
sweep_records [] p = refl
sweep_records (job ∷ jobs) p = ground (arith, sweep_records jobs p)

sweep_lists :
    (jobs : List Job) (p : Pool)
    → let (ids, kept, _) = sweep jobs p in (ids ≡ generations jobs) × (kept ≡ others jobs)
unfolding sweep
sweep_lists [] p = (refl, refl)
sweep_lists (job ∷ jobs) p = ground (arith, sweep_lists jobs p)

All-map :
    {A : Type 0} {P Q : A → Type 0} → ((x : A) → P x → Q x) → (xs : List A) → All P xs → All Q xs
All-map f [] _ = tt
All-map f (x ∷ xs) (h, hs) = (f x h, All-map f xs hs)

sweep_settles : (jobs : List Job) (p : Pool) → All (IsSettled (sweep jobs p).2) jobs
unfolding sweep
sweep_settles [] p = tt
sweep_settles (job ∷ jobs) p = (
  (λ h. ground arith),
  All-map (λ j h is_gen. let done = h is_gen in ground arith) jobs (sweep_settles jobs p),
)

unload_fields :
    (p : Pool)
    → let q = unload_current_worker p in
      (q.worker ≡ none)
      × (q.queue ≡ p.queue)
      × (q.futures ≡ p.futures)
      × (q.active_snapshot ≡ p.active_snapshot)
      × (q.resolution_epoch ≡ p.resolution_epoch)
      × (q.records ≡ p.records)
unfolding unload_current_worker
unload_fields p = ground arith

-- `free_vram` takes every generation job from the queue, with its record, and leaves the other jobs in
-- their order; the future of each job that it took is settled. It asks each running job to stop, and
-- tells the identifiers of the jobs that it took before those of the running ones that nobody had asked
-- before. No worker is left, and the snapshot and its epoch stay.
pub free_vram_lem :
    (p : Pool)
    → let (ids, q) = free_vram p in
      let left = outside (generations p.queue) p.records in
      (ids ≡ generations p.queue ++ newly_asked left)
      × (q.records ≡ all_asked left)
      × (q.queue ≡ others p.queue)
      × All (IsSettled q) p.queue
      × (q.worker ≡ none)
      × (q.active_snapshot ≡ p.active_snapshot)
      × (q.resolution_epoch ≡ p.resolution_epoch)
unfolding free_vram cleanup_vram cancel_pending
free_vram_lem p =
    let q = (cancel_pending p).1 in
    let (_, model, _, _, _) = sweep_counts p.queue p in
    let (ids, kept) = sweep_lists p.queue p in
    let (more, records') = mark_running q.records in
    let (gone, queue, futures, snapshot, epoch, records) =
      unload_fields (record q { records = records' }) in
    let left = outside (generations p.queue) p.records in
    let marked : mark_running q.records ≡ (newly_asked left, all_asked left) =
      ap mark_running (sweep_records p.queue p) ∙ marks left in
    (
      ap₂ (λ xs ys. xs ++ ys) ids (ap (λ m. m.0) marked),
      records ∙ ap (λ m. m.1) marked,
      queue ∙ kept,
      All-map (λ j h is_gen. ap (λ f. is_done (f j.ticket)) futures ∙ h is_gen) p.queue
          (sweep_settles p.queue p),
      gone,
      snapshot ∙ model.active_snapshot,
      epoch ∙ model.resolution_epoch,
    )
