-- ===== src/Superres/Service.antt =====
-- server/superres_service.py: `CudaSuperResService`. A round of its thread is two steps, `begin_round` up to
-- the call of `upscale_bytes` and `finish_round` after it, so that other threads act in between.
use stability_toys.Prelude.{
  ℕ, ◌+◌, ◌-◌, String, Bool, true, false, not, List, [], ◌∷◌, ◌++◌, Option, none, some, ◌==◌, ◌&&◌,
  if◌then◌else◌, leb, length,
}
use stability_toys.Prelude.Effects.{Result, ok, raised, Method}

-- Images are of the type `B`. The future of a job goes by its number.
pub record SrJob (B : Type 0) : Type 0 where
  pub image_bytes : B
  pub out_format : String
  pub quality : ℕ
  pub magnitude : ℕ
  pub fut : ℕ
  pub submitted_at : ℕ

pub data Lifecycle : Type 0 where
  sticky per_request : Lifecycle

-- A RuntimeError of the service, or what the factory or a worker raised.
pub data SrError (X : Type 0) : Type 0 where
  queue_full shutting_down : SrError X
  from_worker : X → SrError X

pub data Outcome (B X : Type 0) : Type 0 where
  pending cancelled : Outcome B X
  finished : B → Outcome B X
  failed_with : SrError X → Outcome B X

abbrev pub settled_already : {B X : Type 0} → Outcome B X → Bool
settled_already pending = false
settled_already _ = true

abbrev pub was_cancelled : {B X : Type 0} → Outcome B X → Bool
was_cancelled cancelled = true
was_cancelled _ = false

-- The factory, and what a worker `W` does, during one round of the thread or one call: another round
-- has another one. `is_oom` is `_is_cuda_oom`, which asks torch.
pub record SrWorld (B W X : Type 0) : Type 0 where
  pub make : Result X W
  pub upscale : W → SrJob B → Result X B
  pub close : W → Result X (Unit {0})
  pub is_oom : X → Bool

-- `active` is the job that the thread runs, and the worker that it runs it on. `alive` tells whether the
-- thread is still in its loop, and `unfinished` counts the tasks that the queue awaits.
pub record SrService (B W X : Type 0) : Type 0 where
  pub queue : List (SrJob B)
  pub queue_max : ℕ
  pub lifecycle : Lifecycle
  pub worker : Option W
  pub stop : Bool
  pub alive : Bool
  pub active : Option (SrJob B × W)
  pub unfinished : ℕ
  pub futures : ℕ → Outcome B X

module _ {B W X : Type 0} where
  unfoldable pub set_future : ℕ → Outcome B X → SrService B W X → SrService B W X
  set_future t o s = record s { futures = λ u. if u == t then o else s.futures u }

  -- `if not job.fut.done(): job.fut.set_...(o)`
  unfoldable pub settle_job : ℕ → Outcome B X → SrService B W X → SrService B W X
  settle_job t o s = if settled_already (s.futures t) then s else set_future t o s

  abbrev pub task_done : SrService B W X → SrService B W X
  task_done s = record s { unfinished = s.unfinished - 1 }

  abbrev pub has_no_room : SrService B W X → Bool
  has_no_room s = not (s.queue_max == 0) && leb s.queue_max (length s.queue)

  -- `submit`, with a future that is new; a queue without a maximum is never full.
  unfoldable pub submit : SrJob B → SrService B W X → SrService B W X
  submit job s =
      let new = set_future job.fut pending s in
      if has_no_room s
      then settle_job job.fut (failed_with queue_full) new
      else record new { queue = s.queue ++ job ∷ []; unfinished = s.unfinished + 1 }

  -- `fut.cancel()` by a client
  unfoldable pub cancel : ℕ → SrService B W X → SrService B W X
  cancel t s = settle_job t cancelled s

  -- `_unload_worker`
  unfoldable pub unload_worker : SrWorld B W X → Method (SrService B W X) X (Unit {0})
  unload_worker w s = elim s.worker [
    | none ↦ (ok tt, s)
    | some worker ↦ (w.close worker, record s { worker = none })
  ]

  -- The `except` of the loop.
  unfoldable pub on_error : SrWorld B W X → SrJob B → X → Method (SrService B W X) X (Unit {0})
  on_error w job x s =
      let (r, s') = (if w.is_oom x then unload_worker w s else (ok tt, s)) in
      elim r [
        | raised y ↦ (raised y, s')
        | ok _ ↦ (ok tt, settle_job job.fut (failed_with (from_worker x)) s')
      ]

  -- The `finally` of the loop.
  unfoldable pub at_last : SrWorld B W X → Method (SrService B W X) X (Unit {0})
  at_last w s = elim s.lifecycle [
    | sticky ↦ (ok tt, task_done s)
    | per_request ↦
        let (r, s') = unload_worker w s in
        elim r [ raised y ↦ (raised y, s') | ok _ ↦ (ok tt, task_done s') ]
  ]

  -- The end of a round: an exception that leaves the `try` ends the thread.
  unfoldable pub leave_round :
      SrWorld B W X → Result X (Unit {0}) × SrService B W X → SrService B W X
  leave_round w (r, s) =
      let (r', s') = at_last w (record s { active = none }) in
      elim r [
        | raised _ ↦ record s' { alive = false }
        | ok _ ↦ elim r' [ raised _ ↦ record s' { alive = false } | ok _ ↦ s' ]
      ]

  -- `_ensure_worker`
  unfoldable pub ensure_worker : SrWorld B W X → Method (SrService B W X) X W
  ensure_worker w s = elim s.worker [
    | some worker ↦ (ok worker, s)
    | none ↦ elim w.make [
      | ok worker ↦ (ok worker, record s { worker = some worker })
      | raised x ↦ (raised x, s)
    ]
  ]

  unfoldable pub take_job : SrWorld B W X → SrJob B → SrService B W X → SrService B W X
  take_job w job s =
      if was_cancelled (s.futures job.fut)
      then task_done s
      else let (r, s') = ensure_worker w s in
        elim r [
          | raised x ↦ leave_round w (on_error w job x s')
          | ok worker ↦ record s' { active = some (job, worker) }
        ]

  -- `_worker_loop` up to `upscale_bytes`
  unfoldable pub begin_round : SrWorld B W X → SrService B W X → SrService B W X
  begin_round w s = elim s.active [
    | some _ ↦ s
    | none ↦
        if not s.alive
        then s
        else if s.stop
        then record s { alive = false }
        else elim s.queue [ [] ↦ s | job ∷ jobs ↦ take_job w job (record s { queue = jobs }) ]
  ]

  -- `_worker_loop` from `upscale_bytes` on
  unfoldable pub finish_round : SrWorld B W X → SrService B W X → SrService B W X
  finish_round w s = elim s.active [
    | none ↦ s
    | some (job, worker) ↦ elim (w.upscale worker job) [
      | ok bytes ↦ leave_round w (ok tt, settle_job job.fut (finished bytes) s)
      | raised x ↦ leave_round w (on_error w job x s)
    ]
  ]

  -- The loop of `shutdown`
  unfoldable pub drain : List (SrJob B) → SrService B W X → SrService B W X
  drain [] s = record s { queue = [] }
  drain (job ∷ jobs) s = drain jobs (task_done (settle_job job.fut (failed_with shutting_down) s))

  unfoldable pub shutdown : SrWorld B W X → Method (SrService B W X) X (Unit {0})
  shutdown w s = unload_worker w (drain s.queue (record s { stop = true }))
