-- ===== src/Pool/Schedule.antt =====
-- The events of the pool, in the order in which its threads act: submissions, rounds of the worker
-- thread, cancellations, the watchdog and the recovery endpoints. Each acts as one step; the worker
-- thread's round is two, with other events in between. The first of the two, from `queue.get` to
-- `job.execute`, holds no lock over its demand reload, its load and its barrier in the source: that no
-- other thread unloads the model meanwhile is an assumption of the schedule.
use stability_toys.Prelude.{ℕ, String, Option, List, [], ◌∷◌}
use stability_toys.Pool.Model.{cancelled, Job, Error, Pool, World, settle_once}
use stability_toys.Pool.Loading.{unload_current_model}
use stability_toys.Pool.Jobs.{submit_job, free_vram, cancel_job, watchdog}
use stability_toys.Pool.Lifecycle.{reload_current_mode, reload_if_current}
use stability_toys.Pool.Loop.{begin, finish}

-- `client_cancels` is `fut.cancel()` by a holder of the future.
pub data Event : Type 0 where
  submits : Job → Event
  begins : World → Event
  finishes : ℕ → Option Error → Event
  cancels_job : String → Event
  client_cancels : ℕ → Event
  frees_vram unloads_model : Event
  watches : ℕ → ℕ → Event
  reloads : World → ℕ → Event
  reloads_mode : World → ℕ → String → Event

unfoldable pub step : Event → Pool → Pool
step (submits job) p = (submit_job job p).1
step (begins w) p = begin w p
step (finishes now outcome) p = finish now outcome p
step (cancels_job id) p = (cancel_job id p).1
step (client_cancels ticket) p = record p { futures = settle_once ticket cancelled p.futures }
step frees_vram p = (free_vram p).1
step unloads_model p = unload_current_model p
step (watches now ticket) p = watchdog now ticket p
step (reloads w ticket) p = (reload_current_mode w ticket p).1
step (reloads_mode w ticket name) p = (reload_if_current w ticket name p).1

unfoldable pub run : List Event → Pool → Pool
run [] p = p
run (e ∷ es) p = run es (step e p)
