-- ===== src/Pool/Loads.antt =====
-- backends/worker_pool.py: what `_load_mode` and `_reload_from_snapshot` come to.
use stability_toys.Prelude.{
  ◌+◌, ◌-◌, ap, ◌≡◌, refl, String, none, some, arith, Option-cases, Bool-cases, inl, inr, ◌⊎◌,
  subst, sym,
}
use stability_toys.Prelude.Dict.{lookup, lookup-insert_self}
use stability_toys.Prelude.Effects.{Result, ok, raised, pure, ◌>>=◌, ◌>>◌}
use stability_toys.Pool.Model.{
  LoadedModel, Fault, Error, unknown_mode, no_model_path, no_conditioning, fault, ModeConfig,
  Resolved, LocalModelBinding, Snapshot, Worker, Pool, PoolMethod, World,
}
use stability_toys.Pool.Loading.{
  unload_current_worker, build, load_mode, reload_from_snapshot, configure, make_worker,
  loaded_model, withdraw, publish, register_model,
}

withdraw_nothing : (p : Pool) → ((withdraw p).worker ≡ none) × ((withdraw p).active_snapshot ≡ none)
unfolding unload_current_worker
withdraw_nothing p = (ground arith, ground arith)

-- `q` has the jobs of `p`: its queue, records, futures, counters and clocks.
pub record SameJobs (p q : Pool) : Type 0 where
  pub queue : q.queue ≡ p.queue
  pub queue_max : q.queue_max ≡ p.queue_max
  pub unfinished : q.unfinished ≡ p.unfinished
  pub records : q.records ≡ p.records
  pub futures : q.futures ≡ p.futures
  pub active : q.active ≡ p.active

pub SameJobs-refl : (p : Pool) → SameJobs p p
SameJobs-refl p = record {
  queue = refl;
  queue_max = refl;
  unfinished = refl;
  records = refl;
  futures = refl;
  active = refl;
}

pub unload-SameJobs : (p : Pool) → SameJobs p (unload_current_worker p)
unfolding unload_current_worker
unload-SameJobs p = ground arith

pub withdraw-SameJobs : (p : Pool) → SameJobs p (withdraw p)
unfolding unload_current_worker
withdraw-SameJobs p = ground arith

pub withdraw_epoch : (p : Pool) → (withdraw p).resolution_epoch ≡ p.resolution_epoch
unfolding unload_current_worker
withdraw_epoch p = ground arith

-- A worker is built of what the resolver makes of the mode, or an exception ends the load.
pub data Builds (w : World) (path : String) (mode : ModeConfig) : Result Error Worker → Type 0 where
  built :
      (worker : Worker)
      → w.resolve_model path mode ≡ ok (worker.resolved, worker.binding)
      → Builds w path mode (ok worker)
  broken : (e : Error) → Builds w path mode (raised e)

-- `configure` changes nothing, and returns or raises.
configure_runs :
    (w : World) (mode : ModeConfig) (p : Pool)
    → (configure w mode p ≡ (ok tt, p)) ⊎ ((e : Error) × (configure w mode p ≡ (raised e, p)))
unfolding configure
configure_runs w mode p = elim (Bool-cases w.configurable) [
  | inl can ↦ elim (Option-cases (w.configure_conditioning mode)) [
    | inl fine ↦ inl (ground arith)
    | inr (f, fails) ↦ inr (fault f, ground arith)
  ]
  | inr cannot ↦ elim (Bool-cases mode.needs_configurable) [
    | inl needs ↦ inr (no_conditioning, ground arith)
    | inr plain ↦ inl (ground arith)
  ]
]

-- Making and configuring a worker of a resolved model: it is that worker, or an exception.
abbrev pub make_configured : World → Resolved → LocalModelBinding → ModeConfig → PoolMethod Worker
make_configured w resolved binding mode = do
  worker ← make_worker w resolved binding
  configure w mode
  pure worker

made :
    (w : World) (resolved : Resolved) (binding : LocalModelBinding) (mode : ModeConfig) (p : Pool)
    → (make_configured w resolved binding mode p
        ≡ (ok (record { resolved = resolved; binding = binding }), p))
      ⊎ ((e : Error) × (make_configured w resolved binding mode p ≡ (raised e, p)))
unfolding make_worker
made w resolved binding mode p = elim (Option-cases (w.factory_fault resolved binding)) [
  | inr (f, fails) ↦ inr (fault f, ground arith)
  | inl fine ↦ elim (configure_runs w mode p) [
    | inl ready ↦ inl (ground arith)
    | inr (e, fails) ↦ inr (e, ground arith)
  ]
]

build-Builds :
    (w : World) (path : String) (mode : ModeConfig) (p : Pool)
    → (r : Result Error Worker) × (build w path mode p ≡ (r, p)) × Builds w path mode r
unfolding build
build-Builds w path mode p = go (w.resolve_model path mode) refl
  where
    go :
        (r : Result Fault (Resolved × LocalModelBinding))
        → w.resolve_model path mode ≡ r
        → (r : Result Error Worker) × (build w path mode p ≡ (r, p)) × Builds w path mode r
    go (raised f) e = (raised (fault f), ground arith, broken (fault f))
    go (ok (resolved, binding)) e =
        let worker : Worker = record { resolved = resolved; binding = binding } in
        elim (made w resolved binding mode p) [
          | inl runs ↦ (ok worker, ground arith, built worker e)
          | inr (err, runs) ↦ (raised err, ground arith, broken err)
        ]

-- The snapshot of a load: the next epoch, and what the worker was made of.
abbrev pub next_snapshot : String → ModeConfig → Worker → Pool → Snapshot
next_snapshot name mode worker p = record {
  mode_name = name;
  mode = mode;
  resolved = worker.resolved;
  binding = worker.binding;
  resolution_epoch = p.resolution_epoch + 1;
}

-- The pool `q` after a load of a mode into `p`
pub record Published (name : String) (mode : ModeConfig) (worker : Worker) (model : LoadedModel)
    (p q : Pool) : Type 0 where
  pub live : q.worker ≡ some worker
  pub current : q.current_mode ≡ some name
  pub snapshot : q.active_snapshot ≡ some (next_snapshot name mode worker p)
  pub epoch : q.resolution_epoch ≡ p.resolution_epoch + 1
  pub registered : lookup name q.registry ≡ some model
  pub jobs : SameJobs p q

published :
    (name : String) (mode : ModeConfig) (worker : Worker) (model : LoadedModel) (p : Pool)
    → Published name mode worker model p
        (publish name mode worker (register_model name model (withdraw p)))
published name mode worker model p =
    let j = withdraw-SameJobs p in
    let epoch = ap (λ n. n + 1) (withdraw_epoch p) in
    record {
      live = refl;
      current = refl;
      snapshot =
          ap (λ n. some (record (next_snapshot name mode worker p) { resolution_epoch = n })) epoch;
      epoch = epoch;
      registered = lookup-insert_self name model (withdraw p).registry;
      jobs = record {
        queue = j.queue;
        queue_max = j.queue_max;
        unfinished = j.unfinished;
        records = j.records;
        futures = j.futures;
        active = j.active;
      };
    }

-- What a load comes to: the mode is unknown and nothing changes; it fails, and the old authority is
-- gone; or it succeeds, and the new one is published under the next epoch.
pub data Loads (w : World) (name : String) (p : Pool)
    : Result Error (Unit {0}) × Pool → Type 0 where
  unknown : w.get_mode name ≡ none → Loads w name p (raised unknown_mode, p)
  lost :
      (e : Error) (q : Pool)
      → q.worker ≡ none
      → q.active_snapshot ≡ none
      → q.resolution_epoch ≡ p.resolution_epoch
      → SameJobs p q
      → Loads w name p (raised e, q)
  loaded :
      (mode : ModeConfig) (path : String) (worker : Worker) (q : Pool)
      → w.get_mode name ≡ some mode
      → mode.model_path ≡ some path
      → w.resolve_model path mode ≡ ok (worker.resolved, worker.binding)
      → Published name mode worker
          (record {
            model_path = path;
            vram_bytes = w.allocated_after - w.allocated_before;
            loras = mode.lora_paths;
          })
          p
          q
      → Loads w name p (ok tt, q)

module _ (w : World) (name : String) (p : Pool) where
  load_unknown : w.get_mode name ≡ none → load_mode w name p ≡ (raised unknown_mode, p)
  unfolding load_mode
  load_unknown h = ground arith

  module _ (mode : ModeConfig) (known : w.get_mode name ≡ some mode) where
    load_no_path : mode.model_path ≡ none → load_mode w name p ≡ (raised no_model_path, withdraw p)
    unfolding load_mode
    load_no_path h = ground arith

    -- The pool after the `except` of `_load_mode`.
    abbrev abandoned : Pool
    abandoned = record (withdraw p) { worker = none; current_mode = none; active_snapshot = none }

    abandoned-SameJobs : SameJobs p abandoned
    abandoned-SameJobs =
        let j = withdraw-SameJobs p in
        record {
          queue = j.queue;
          queue_max = j.queue_max;
          unfinished = j.unfinished;
          records = j.records;
          futures = j.futures;
          active = j.active;
        }

    module _ (path : String) (has_path : mode.model_path ≡ some path) where
      load_broken :
          (e : Error)
          → build w path mode (withdraw p) ≡ (raised e, withdraw p)
          → load_mode w name p ≡ (raised e, abandoned)
      unfolding load_mode
      load_broken e h = ground arith

      load_built :
          (worker : Worker)
          → build w path mode (withdraw p) ≡ (ok worker, withdraw p)
          → load_mode w name p ≡ (
            ok tt,
            publish name mode worker (register_model name (loaded_model w mode path) (withdraw p)),
          )
      unfolding load_mode
      load_built worker h = ground arith

      of_build :
          (r : Result Error Worker)
          → build w path mode (withdraw p) ≡ (r, withdraw p)
          → Builds w path mode r
          → Loads w name p (load_mode w name p)
      of_build _ h (built worker resolves) = subst (Loads w name p) (sym (load_built worker h)) (
          loaded mode path worker _ known has_path resolves
            (published name mode worker (loaded_model w mode path) p))
      of_build _ h (broken e) =
          subst (Loads w name p) (sym (load_broken e h))
            (lost e abandoned refl refl (withdraw_epoch p) abandoned-SameJobs)

-- A load of a mode comes to one of three ends: the mode is unknown and nothing changes; it fails, and
-- no worker and no snapshot are left, under the old epoch; or it succeeds, and the worker, the mode and
-- a snapshot of what the resolver made are there together under the next epoch, and the registry has
-- the model under the name of the mode. The jobs are as they were in each case.
pub load_mode-Loads : (w : World) (name : String) (p : Pool) → Loads w name p (load_mode w name p)
load_mode-Loads w name p = elim (Option-cases (w.get_mode name)) [
  | inl none_such ↦
      subst (Loads w name p) (sym (load_unknown w name p none_such)) (unknown none_such)
  | inr (mode, known) ↦ elim (Option-cases mode.model_path) [
    | inl no_path ↦
        let (idle, none_active) = withdraw_nothing p in
        subst (Loads w name p) (sym (load_no_path w name p mode known no_path)) (
          lost no_model_path (withdraw p) idle none_active (withdraw_epoch p) (withdraw-SameJobs p))
    | inr (path, has_path) ↦
        let (r, runs, how) = build-Builds w path mode (withdraw p) in
        of_build w name p mode known path has_path r runs how
  ]
]

module _ (w : World) (p : Pool) where
  -- The pool after a demand reload.
  abbrev pub reloaded : Snapshot → Pool
  reloaded s =
      record (register_model s.mode_name
        (record { model_path = s.binding.model_path; vram_bytes = 0; loras = s.mode.lora_paths })
        p) { worker = some (record { resolved = s.resolved; binding = s.binding }) }

  -- A demand reload makes the worker of the retained snapshot again, or raises and changes nothing.
  pub reload_cases :
      (s : Snapshot)
      → p.active_snapshot ≡ some s
      → (reload_from_snapshot w p ≡ (ok tt, reloaded s))
        ⊎ ((e : Error) × (reload_from_snapshot w p ≡ (raised e, p)))
  unfolding reload_from_snapshot
  reload_cases s h = elim (made w s.resolved s.binding s.mode p) [
    | inl runs ↦ inl (ground arith)
    | inr (e, runs) ↦ inr (e, ground arith)
  ]
