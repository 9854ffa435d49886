-- ===== src/Pool/Tests.antt =====
-- The worker pool on concrete inputs, and each theorem at one of them.
use stability_toys.Prelude.{
  ℕ, ◌≡◌, refl, true, false, List, [], ◌∷◌, ◌++◌, none, some, arith, same_text, not, ◌&&◌,
  if◌then◌else◌, ◌≤◌,
}
use stability_toys.Prelude.Dict.{lookup, insert, erase}
use stability_toys.Prelude.Effects.{ok}
use stability_toys.Controlnet.Cache.{clear, drop_unpinned}
use stability_toys.Pool.Model.{
  stale, pending, cancelled, refused, ModeConfig, Snapshot, Worker, Job, generation, mode_switch,
  evict_if_idle, queued, running, JobRecord, Pool, World, is_done,
}
use stability_toys.Pool.Loading.{
  unload_current_worker, configure, make_worker, build, load_mode, reload_from_snapshot,
  unload_current_model,
}
use stability_toys.Pool.Jobs.{
  register_job, submit_job, sweep, cancel_pending, mark_running, cleanup_vram, free_vram,
  cancel_job, evict_idle, watchdog,
}
use stability_toys.Pool.Loop.{
  fail_job, demand_reload, begin_generation, begin_switch, begin_job, begin, return_job, finish,
}
use stability_toys.Pool.Schedule.{
  Event, submits, begins, finishes, cancels_job, client_cancels, step, run,
}
use stability_toys.Pool.Sound.{IsSound, Follows}
use stability_toys.Pool.Lifecycle.{serve, shutdown}
use stability_toys.Pool.Draining.{left, serve-shutdown}
use stability_toys.Pool.Safety.{run-IsSound, run-Follows}
use stability_toys.Pool.Barrier.{begin-IsCurrent}
use stability_toys.Pool.Outcomes.{finish_settles, cancel_job-finish, finish_record}
use stability_toys.Pool.Cancelled.{NeverRuns, cancel_job-run}
use stability_toys.Pool.Reload.{CanReload, begin-evict_idle, evict_idle_lem}
use stability_toys.Pool.FreeVram.{
  generations, others, outside, newly_asked, all_asked, IsSettled, free_vram_lem,
}
use stability_toys.Assets.Oldest.{All}
use stability_toys.Pool.Loads.{Loads, load_mode-Loads}

-- What the tests compute with.
program : Unit {0}
unfolding lookup insert erase same_text clear drop_unpinned unload_current_worker configure
    make_worker build load_mode reload_from_snapshot unload_current_model register_job submit_job
    sweep cancel_pending mark_running cleanup_vram free_vram cancel_job evict_idle watchdog fail_job
    demand_reload begin_generation begin_switch begin_job begin return_job finish step run
program = tt

-- A pool without a model, whose queue takes two jobs and whose worker may idle for 300 seconds.
abbrev fresh : Pool
fresh = record {
  queue_max = 2;
  queue = [];
  unfinished = 0;
  worker = none;
  current_mode = none;
  active_snapshot = none;
  resolution_epoch = 0;
  records = [];
  futures = λ _. pending;
  active = none;
  idle_timeout = 300;
  last_activity = 0;
  eviction_pending = false;
  registry = [];
  controlnets = record { max_entries = 1; entries = [] };
}

abbrev sdxl : ModeConfig
sdxl = record { model_path = some "sdxl.safetensors"; lora_paths = []; needs_configurable = false }

-- A world where every mode is the one above and every load succeeds.
abbrev world : ℕ → World
world now = record {
  now = now;
  get_mode = λ _. some sdxl;
  resolve_model = λ path mode. ok (record { identity = path }, record { model_path = path });
  factory_fault = λ resolved binding. none;
  configurable = true;
  configure_conditioning = λ mode. none;
  allocated_before = 3;
  allocated_after = 9;
}

abbrev switch : Job
switch = record { ticket = 0; work = mode_switch "sdxl" false }

-- A generation job for the first epoch.
abbrev draw : Job
draw = record { ticket = 1; work = generation "j1" 1 }

abbrev evict : Job
evict = record { ticket = 2; work = evict_if_idle }

fresh-IsSound : IsSound fresh
fresh-IsSound = record {
  authority = record {
    worker_named = λ w h. absurd (cc h);
    snapshot_current = λ s h. absurd (cc h);
  };
  counted = refl;
  within = λ h. omega arith;
}

-- The pool with its model loaded, and with the job submitted, begun, cancelled.
abbrev loaded_events : List Event
loaded_events = submits switch ∷ begins (world 10) ∷ []

abbrev loaded : Pool
loaded = run loaded_events fresh

loaded-IsSound : IsSound loaded
loaded-IsSound = run-IsSound loaded_events fresh fresh-IsSound

abbrev waiting : Pool
waiting = (submit_job draw loaded).1

abbrev busy : Pool
busy = begin (world 20) waiting

loads : (loaded.resolution_epoch ≡ 1) × (loaded.current_mode ≡ some "sdxl") × (loaded.queue ≡ [])
unfolding program
loads = (refl, refl, refl)

hands_over : (busy.active ≡ some draw) × (busy.unfinished ≡ 1)
unfolding program
hands_over = (refl, refl)

run-IsSound_example :
    IsSound
      (run (submits draw ∷ begins (world 20) ∷ cancels_job "j1" ∷ finishes 30 none ∷ []) loaded)
run-IsSound_example =
    run-IsSound (submits draw ∷ begins (world 20) ∷ cancels_job "j1" ∷ finishes 30 none ∷ []) loaded
      loaded-IsSound

run-Follows_example :
    Follows loaded
      (run (submits draw ∷ begins (world 20) ∷ client_cancels 1 ∷ finishes 30 none ∷ []) loaded)
run-Follows_example =
    run-Follows (submits draw ∷ begins (world 20) ∷ client_cancels 1 ∷ finishes 30 none ∷ []) loaded
      loaded-IsSound

waiting-IsSound : IsSound waiting
unfolding step run
waiting-IsSound = run-IsSound (submits draw ∷ []) loaded loaded-IsSound

begin-IsCurrent_example :
    (draw ≡ draw)
    × ((v : Worker) × (s : Snapshot) × (busy.worker ≡ some v)
        × (busy.active_snapshot ≡ some s)
        × (v.resolved ≡ s.resolved)
        × (v.binding ≡ s.binding)
        × (s.resolution_epoch ≡ 1)
        × (busy.resolution_epoch ≡ 1))
unfolding program
begin-IsCurrent_example =
    begin-IsCurrent (world 20) waiting draw [] "j1" 1 waiting-IsSound refl refl refl draw refl

finish_settles_example :
    ((finish 30 (some stale) busy).active ≡ none)
    × (is_done ((finish 30 (some stale) busy).futures 1) ≡ true)
    × ((finish 30 (some stale) busy).last_activity ≡ 30)
unfolding program
finish_settles_example = finish_settles 30 (some stale) busy draw refl

begun : JobRecord
begun = record { state = running; ticket = 1; cancel_requested = false }

cancel_job-finish_example :
    ((cancel_job "j1" busy).0 ≡ true)
    × ((finish 30 none (cancel_job "j1" busy).1).futures 1 ≡ refused)
    × (lookup "j1" (finish 30 none (cancel_job "j1" busy).1).records ≡ none)
unfolding program begun
cancel_job-finish_example =
    cancel_job-finish draw "j1" 1 busy refl 30 begun (refl, tt) refl refl refl refl refl

entered : JobRecord
entered = record { state = queued; ticket = 1; cancel_requested = false }

cancel_job-run_example :
    let (accepted, q) = cancel_job "j1" waiting in
    (accepted ≡ true)
    × ((es : List Event) → ((run es q).futures 1 ≡ cancelled) × NeverRuns "j1" 1 (run es q))
unfolding program entered
cancel_job-run_example =
    cancel_job-run "j1" entered waiting (run-IsSound (submits draw ∷ []) loaded loaded-IsSound) refl
      refl refl

abbrev dropped : Pool
dropped = step (client_cancels 1) busy

finish_record_example :
    lookup "j1" (finish 30 none dropped).records
    ≡ (if is_done (dropped.futures 1) && not begun.cancel_requested then some begun else none)
unfolding program begun
finish_record_example = finish_record draw "j1" 1 dropped refl 30 begun (refl, tt) refl refl

named : Snapshot
named = record {
  mode_name = "sdxl";
  mode = sdxl;
  resolved = record { identity = "sdxl.safetensors" };
  binding = record { model_path = "sdxl.safetensors" };
  resolution_epoch = 1;
}

abbrev can_reload : CanReload (world 400) named
can_reload = record { makes = refl; configurable = refl; configures = refl }

evict_idle_lem_example :
    let q = evict_idle 400 waiting in
    (q.worker ≡ none)
    × (q.current_mode ≡ waiting.current_mode)
    × (q.active_snapshot ≡ waiting.active_snapshot)
    × (q.resolution_epoch ≡ waiting.resolution_epoch)
    × (q.queue ≡ waiting.queue)
    × (q.records ≡ waiting.records)
    × (q.futures ≡ waiting.futures)
    × (q.eviction_pending ≡ false)
unfolding program
evict_idle_lem_example = evict_idle_lem 400 waiting (omega arith)

begin-evict_idle_example :
    let q = begin (world 400) (evict_idle 400 waiting) in
    (q.active ≡ some draw)
    × (q.worker ≡ some (record { resolved = named.resolved; binding = named.binding }))
    × (q.active_snapshot ≡ some named)
    × (q.resolution_epoch ≡ waiting.resolution_epoch)
    × (q.current_mode ≡ waiting.current_mode)
unfolding program entered named
begin-evict_idle_example =
    begin-evict_idle (world 400) 400 waiting named draw [] "j1" entered (omega arith) can_reload
      refl refl refl refl refl refl refl

free_vram_lem_example :
    let (ids, q) = free_vram waiting in
    let kept = outside (generations waiting.queue) waiting.records in
    (ids ≡ generations waiting.queue ++ newly_asked kept)
    × (q.records ≡ all_asked kept)
    × (q.queue ≡ others waiting.queue)
    × All (IsSettled q) waiting.queue
    × (q.worker ≡ none)
    × (q.active_snapshot ≡ waiting.active_snapshot)
    × (q.resolution_epoch ≡ waiting.resolution_epoch)
free_vram_lem_example = free_vram_lem waiting

load_mode-Loads_example : Loads (world 10) "turbo" loaded (load_mode (world 10) "turbo" loaded)
load_mode-Loads_example = load_mode-Loads (world 10) "turbo" loaded

one_left : left waiting ≤ 1
unfolding program
one_left = omega arith

serve-shutdown_example :
    let q = serve ((world 20, 30, some stale) ∷ []) waiting in
    (q.queue ≡ [])
    × (q.active ≡ none)
    × (shutdown q ≡ some (unload_current_worker q))
    × ((unload_current_worker q).worker ≡ none)
serve-shutdown_example =
    serve-shutdown ((world 20, 30, some stale) ∷ []) waiting waiting-IsSound one_left
