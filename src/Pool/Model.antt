-- ===== src/Pool/Model.antt =====
-- backends/worker_pool.py and the registry that it reports to: jobs, futures, records and the pool.
use stability_toys.Prelude.{ℕ, String, Bool, true, false, List, Option, ◌||◌, if◌then◌else◌, ◌==◌}
use stability_toys.Prelude.Dict.{Dict}
use stability_toys.Prelude.Effects.{Method, Result}
use stability_toys.Controlnet.Cache.{Cache}

-- An exception, as far as the worker loop looks at one: whether it is the CUDA out-of-memory error,
-- and whether its text, in lower case, contains "out of memory".
pub record Fault : Type 0 where
  pub of_oom_type : Bool
  pub mentions_oom : Bool

pub data Error : Type 0 where
  unknown_mode no_model_path no_conditioning no_snapshot no_worker stale queue_full reload_failed
        no_active_mode :
      Error
  fault : Fault → Error

-- A future is never in its RUNNING state here: nothing calls `set_running_or_notify_cancel`.
-- `refused` is `set_exception(CancelledError())`.
pub data Future : Type 0 where
  pending cancelled returned refused : Future
  failed : Error → Future

-- What the pool reads of a `ModeConfig`; `needs_configurable` is the answer of
-- `conditioning.requires_configurable_worker()`.
pub record ModeConfig : Type 0 where
  pub model_path : Option String
  pub lora_paths : List String
  pub needs_configurable : Bool

-- A portable resolved model, named by its identity, and its node-local binding.
pub record Resolved : Type 0 where
  pub identity : String

pub record LocalModelBinding : Type 0 where
  pub model_path : String

-- `ActiveModelSnapshot`
pub record Snapshot : Type 0 where
  pub mode_name : String
  pub mode : ModeConfig
  pub resolved : Resolved
  pub binding : LocalModelBinding
  pub resolution_epoch : ℕ

-- A live worker is known by what the factory made it from.
pub record Worker : Type 0 where
  pub resolved : Resolved
  pub binding : LocalModelBinding

-- The jobs. `handler` of a `CustomJob` is the pool's own `_evict_if_idle` or another function.
pub data Work : Type 0 where
  generation : String → ℕ → Work
  mode_switch : String → Bool → Work
  evict_if_idle custom : Work

-- A job object, with the number of its future.
pub record Job : Type 0 where
  pub ticket : ℕ
  pub work : Work

-- The states of a job record: `stopped` is "cancelled" and `broken` is "failed".
pub data JobState : Type 0 where
  queued running stopped broken : JobState

pub record JobRecord : Type 0 where
  pub state : JobState
  pub ticket : ℕ
  pub cancel_requested : Bool

-- `LoadedModel` of backends/model_registry.py; `worker_id` is always 0 here.
pub record LoadedModel : Type 0 where
  pub model_path : String
  pub vram_bytes : ℕ
  pub loras : List String

-- `futures` holds the state of every job's future. `active` is the job that the worker thread has
-- handed to a worker or a handler and whose outcome is awaited. `controlnets` is the process's
-- ControlNet cache; a model in it is named by a text.
pub record Pool : Type 0 where
  pub queue_max : ℕ
  pub queue : List Job
  pub unfinished : ℕ
  pub worker : Option Worker
  pub current_mode : Option String
  pub active_snapshot : Option Snapshot
  pub resolution_epoch : ℕ
  pub records : Dict JobRecord
  pub futures : ℕ → Future
  pub active : Option Job
  pub idle_timeout : ℕ
  pub last_activity : ℕ
  pub eviction_pending : Bool
  pub registry : Dict LoadedModel
  pub controlnets : Cache String

abbrev pub PoolMethod : Type 0 → Type 0
PoolMethod A = Method Pool Error A

-- What the pool meets outside when it acts: the clock, the mode configuration, model resolution,
-- what the worker factory raises, whether the new worker has `configure_conditioning` and what that raises,
-- and the allocated VRAM before and after a load.
pub record World : Type 0 where
  pub now : ℕ
  pub get_mode : String → Option ModeConfig
  pub resolve_model : String → ModeConfig → Result Fault (Resolved × LocalModelBinding)
  pub factory_fault : Resolved → LocalModelBinding → Option Fault
  pub configurable : Bool
  pub configure_conditioning : ModeConfig → Option Fault
  pub allocated_before : ℕ
  pub allocated_after : ℕ

-- `fut.done()`
abbrev pub is_done : Future → Bool
is_done pending = false
is_done _ = true

-- An assignment to a future, at its number.
abbrev pub settle : ℕ → Future → (ℕ → Future) → ℕ → Future
settle t f futures u = if u == t then f else futures u

-- `if not job.fut.done(): job.fut.set_…`, and `fut.cancel()`, whose result is `cancels`.
abbrev pub settle_once : ℕ → Future → (ℕ → Future) → ℕ → Future
settle_once t f futures = if is_done (futures t) then futures else settle t f futures

-- `fut.cancel()`: true for a pending or a cancelled future.
abbrev pub cancels : Future → Bool
cancels pending = true
cancels cancelled = true
cancels _ = false

-- The out-of-memory test of the worker loop.
abbrev pub is_oom : Error → Bool
is_oom (fault f) = f.of_oom_type || f.mentions_oom
is_oom _ = false
