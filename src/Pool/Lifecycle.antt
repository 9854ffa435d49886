-- ===== src/Pool/Lifecycle.antt =====
-- backends/worker_pool.py: the accessors, reloads on request, and the shutdown.
use stability_toys.Prelude.{
  ℕ, String, Bool, true, false, List, [], ◌∷◌, Option, none, some, ◌==◌, ite, same_text, length,
  if◌then◌else◌,
}
use stability_toys.Prelude.Effects.{ok, raised}
use stability_toys.Pool.Model.{Error, no_active_mode, Pool, PoolMethod, World}
use stability_toys.Pool.Loading.{unload_current_worker}
use stability_toys.Pool.Jobs.{switch_mode, cancel_pending}
use stability_toys.Pool.Loop.{begin, finish}

abbrev pub is_model_loaded : Pool → Bool
is_model_loaded p = elim p.worker [ none ↦ false | some _ ↦ true ]

abbrev pub get_queue_size : Pool → ℕ
get_queue_size p = length p.queue

abbrev pub is_current : String → Pool → Bool
is_current name p = elim p.current_mode [
  | none ↦ false
  | some m ↦ ite (same_text m name) true false
]

-- `reload_if_current`: what `switch_mode` raises is swallowed.
unfoldable pub reload_if_current : World → ℕ → String → Pool → Bool × Pool
reload_if_current w ticket name p =
    if is_current name p
    then (let (r, p') = switch_mode w ticket name true p in
        elim r [ ok _ ↦ (true, p') | raised _ ↦ (false, p') ])
    else (false, p)

-- `reload_current_mode` up to its wait for the future
unfoldable pub reload_current_mode : World → ℕ → PoolMethod (Unit {0})
reload_current_mode w ticket p = elim p.current_mode [
  | none ↦ (raised no_active_mode, p)
  | some name ↦ switch_mode w ticket name true (cancel_pending p).1
]

-- `shutdown` once `q.join()` returns; while tasks are unfinished it waits. That the threads stop shows in
-- the events that no longer come.
unfoldable pub shutdown : Pool → Option Pool
shutdown p = if p.unfinished == 0 then some (unload_current_worker p) else none

-- Rounds of the worker thread, each with what it meets: the world as it begins, and the clock and the
-- outcome of the job as it ends.
unfoldable pub serve : List (World × ℕ × Option Error) → Pool → Pool
serve [] p = p
serve ((w, now, outcome) ∷ rounds) p = serve rounds (finish now outcome (begin w p))
