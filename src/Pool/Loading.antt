-- ===== src/Pool/Loading.antt =====
-- backends/worker_pool.py: loading, reloading and unloading the worker. The log lines and the
-- allocator's `gc.collect()` and `empty_cache()` change nothing that the model holds.
use stability_toys.Prelude.{ℕ, ◌+◌, ◌-◌, String, true, false, Option, none, some, same_text, ite}
use stability_toys.Prelude.Dict.{insert, erase}
use stability_toys.Prelude.Effects.{
  Result, ok, raised, pure, raise, gets, modify, or_raise, raise_if, ◌>>=◌, ◌>>◌,
}
use stability_toys.Controlnet.Cache.{clear}
use stability_toys.Pool.Model.{
  Fault, Error, unknown_mode, no_model_path, no_conditioning, no_snapshot, fault, ModeConfig,
  Resolved, LocalModelBinding, Worker, LoadedModel, Pool, PoolMethod, World,
}

-- `ModelRegistry.register_model` and `unregister_model`
abbrev pub register_model : String → LoadedModel → Pool → Pool
register_model name m p = record p { registry = insert name m p.registry }

abbrev pub unregister_model : String → Pool → Pool
unregister_model name p = record p { registry = erase name p.registry }

-- `if self._current_mode: self._registry.unregister_model(…)`: an empty name is false.
abbrev pub unregister_current : Option String → Pool → Pool
unregister_current none p = p
unregister_current (some name) p = ite (same_text name "") p (unregister_model name p)

-- `_free_worker`
abbrev pub free_worker : Pool → Pool
free_worker p = record p { worker = none }

-- `_unload_current_worker`
unfoldable pub unload_current_worker : Pool → Pool
unload_current_worker p =
    let p' = record p { controlnets = (clear p.controlnets).1 } in
    elim p.worker [ none ↦ p' | some w ↦ free_worker (unregister_current p.current_mode p') ]

-- The `configure_conditioning` block that `_load_mode` and `_reload_from_snapshot` share.
unfoldable pub configure : World → ModeConfig → PoolMethod (Unit {0})
configure w mode = elim w.configurable [
  | true ↦ elim (w.configure_conditioning mode) [ none ↦ pure tt | some f ↦ raise (fault f) ]
  | false ↦ raise_if mode.needs_configurable no_conditioning
]

-- `self._worker_factory(worker_id=0, resolved=…, binding=…)`
unfoldable pub make_worker : World → Resolved → LocalModelBinding → PoolMethod Worker
make_worker w resolved binding = elim (w.factory_fault resolved binding) [
  | none ↦ pure (record { resolved = resolved; binding = binding })
  | some f ↦ raise (fault f)
]

abbrev pub or_fault : {A : Type 0} → Result Fault A → PoolMethod A
or_fault (ok a) = pure a
or_fault (raised f) = raise (fault f)

-- The body of the `try` in `_load_mode`.
unfoldable pub build : World → String → ModeConfig → PoolMethod Worker
build w path mode = do
  (resolved, binding) ← or_fault (w.resolve_model path mode)
  worker ← make_worker w resolved binding
  configure w mode
  pure worker

-- Its `except`: no worker, no mode, no snapshot, and the exception again.
abbrev pub abandon : Error → PoolMethod Worker
abandon e p = raise e (record p { worker = none; current_mode = none; active_snapshot = none })

abbrev pub or_abandon : PoolMethod Worker → PoolMethod Worker
or_abandon m p = let (r, p') = m p in elim r [ ok a ↦ (ok a, p') | raised e ↦ abandon e p' ]

-- The atomic publication at the end of `_load_mode`.
abbrev pub publish : String → ModeConfig → Worker → Pool → Pool
publish name mode worker p = record p {
  resolution_epoch = p.resolution_epoch + 1;
  worker = some worker;
  current_mode = some name;
  active_snapshot = some (record {
    mode_name = name;
    mode = mode;
    resolved = worker.resolved;
    binding = worker.binding;
    resolution_epoch = p.resolution_epoch + 1;
  });
}

-- What `_load_mode` does before it builds: the old worker goes, and the old authority with it.
abbrev pub withdraw : Pool → Pool
withdraw p = record (elim p.worker [ none ↦ p | some _ ↦ unload_current_worker p ]) {
  active_snapshot = none;
}

-- The registration of a loaded mode, with the VRAM that it took: `max(0, after - before)`.
abbrev pub loaded_model : World → ModeConfig → String → LoadedModel
loaded_model w mode path = record {
  model_path = path;
  vram_bytes = w.allocated_after - w.allocated_before;
  loras = mode.lora_paths;
}

-- `_load_mode`
unfoldable pub load_mode : World → String → PoolMethod (Unit {0})
load_mode w name = do
  mode ← or_raise (w.get_mode name) unknown_mode
  modify withdraw
  path ← or_raise mode.model_path no_model_path
  worker ← or_abandon (build w path mode)
  modify (register_model name (loaded_model w mode path))
  modify (publish name mode worker)

-- `_reload_from_snapshot`
unfoldable pub reload_from_snapshot : World → PoolMethod (Unit {0})
reload_from_snapshot w = do
  s ← or_raise (← gets (λ p. p.active_snapshot)) no_snapshot
  worker ← make_worker w s.resolved s.binding
  configure w s.mode
  modify (
      register_model s.mode_name
        (record { model_path = s.binding.model_path; vram_bytes = 0; loras = s.mode.lora_paths }))
  modify (λ p. record p { worker = some worker })

-- `current_resolution_epoch`
unfoldable pub current_resolution_epoch : Pool → ℕ
current_resolution_epoch p = elim p.active_snapshot [
  | none ↦ p.resolution_epoch
  | some s ↦ s.resolution_epoch
]

-- `unload_current_model`: its writes.
unfoldable pub unload_current_model : Pool → Pool
unload_current_model p = record (unload_current_worker p) {
  active_snapshot = none;
  current_mode = none;
}
