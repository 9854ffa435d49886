-- ===== src/Pool/Authority.antt =====
-- The pool has one model authority: a live worker is the one that the active snapshot names, and
-- the snapshot carries the current epoch.
use stability_toys.Prelude.{◌≡◌, refl, String, none, some, arith, subst, sym, ◌∙◌}
use stability_toys.Prelude.Effects.{Result}
use stability_toys.Pool.Model.{Error, Snapshot, Worker, Pool, World}
use stability_toys.Pool.Loads.{
  Loads, unknown, lost, loaded, next_snapshot, load_mode-Loads, reloaded,
}
use stability_toys.Pool.Loading.{unload_current_worker, load_mode, unload_current_model}

pub record HasOneAuthority (p : Pool) : Type 0 where
  pub worker_named :
      (w : Worker)
      → p.worker ≡ some w
      → (s : Snapshot) × (p.active_snapshot ≡ some s)
        × (w.resolved ≡ s.resolved)
        × (w.binding ≡ s.binding)
  pub snapshot_current :
      (s : Snapshot)
      → p.active_snapshot ≡ some s
      → (s.resolution_epoch ≡ p.resolution_epoch) × (p.current_mode ≡ some s.mode_name)

-- One authority, from the worker and the snapshot.
authority :
    (p : Pool) (w : Worker) (s : Snapshot)
    → p.worker ≡ some w
    → p.active_snapshot ≡ some s
    → w.resolved ≡ s.resolved
    → w.binding ≡ s.binding
    → s.resolution_epoch ≡ p.resolution_epoch
    → p.current_mode ≡ some s.mode_name
    → HasOneAuthority p
authority p w s has_worker has_snapshot same_model same_binding epoch mode = record {
  worker_named = λ v h.
      let same : w ≡ v = cc (has_worker, h) in
      (
        s,
        has_snapshot,
        subst (λ t. t.resolved ≡ s.resolved) same same_model,
        subst (λ t. t.binding ≡ s.binding) same same_binding,
      );
  snapshot_current = λ t h.
      let same : s ≡ t = cc (has_snapshot, h) in
      (
        subst (λ u. u.resolution_epoch ≡ p.resolution_epoch) same epoch,
        subst (λ u. p.current_mode ≡ some u.mode_name) same mode,
      );
}

no_authority : (p : Pool) → p.worker ≡ none → p.active_snapshot ≡ none → HasOneAuthority p
no_authority p gone none_active = record {
  worker_named = λ w h. cc (gone, h);
  snapshot_current = λ s h. cc (none_active, h);
}

pub unload_worker : (p : Pool) → (unload_current_worker p).worker ≡ none
unfolding unload_current_worker
unload_worker p = ground arith

-- Unloading keeps the snapshot, the mode and the epoch.
pub unload_keeps :
    (p : Pool)
    → ((unload_current_worker p).active_snapshot ≡ p.active_snapshot)
      × ((unload_current_worker p).current_mode ≡ p.current_mode)
      × ((unload_current_worker p).resolution_epoch ≡ p.resolution_epoch)
unfolding unload_current_worker
unload_keeps p = (ground arith, ground arith, ground arith)

pub unload-HasOneAuthority :
    (p : Pool) → HasOneAuthority p → HasOneAuthority (unload_current_worker p)
unload-HasOneAuthority p a =
    let (same_snapshot, same_mode, same_epoch) = unload_keeps p in
    record {
      worker_named = λ w h. let gone = unload_worker p in cc (gone, h);
      snapshot_current = λ s h.
          let (epoch, mode) = a.snapshot_current s (sym same_snapshot ∙ h) in
          (epoch ∙ sym same_epoch, same_mode ∙ mode);
    }

Loads-HasOneAuthority :
    (w : World) (name : String) (p : Pool) {r : Result Error (Unit {0}) × Pool}
    → HasOneAuthority p
    → Loads w name p r
    → HasOneAuthority r.1
Loads-HasOneAuthority w name p a (unknown h) = a
Loads-HasOneAuthority w name p a (lost e q idle none_active epoch jobs) =
    no_authority q idle none_active
Loads-HasOneAuthority w name p a (loaded mode path worker q known has_path resolves now) =
    authority q worker (next_snapshot name mode worker p) now.live now.snapshot refl refl
      (sym now.epoch) now.current

-- Loading a mode, with any outcome, keeps one authority.
pub load_mode-HasOneAuthority :
    (w : World) (name : String) (p : Pool)
    → HasOneAuthority p
    → HasOneAuthority (load_mode w name p).1
load_mode-HasOneAuthority w name p a = Loads-HasOneAuthority w name p a (load_mode-Loads w name p)

pub reloaded-HasOneAuthority :
    (w : World) (p : Pool) (s : Snapshot)
    → HasOneAuthority p
    → p.active_snapshot ≡ some s
    → HasOneAuthority (reloaded w p s)
reloaded-HasOneAuthority w p s a h =
    let (epoch, mode) = a.snapshot_current s h in
    authority (reloaded w p s) (record { resolved = s.resolved; binding = s.binding }) s refl h refl
      refl epoch mode

-- Dropping the model drops both.
pub unload_current_model-HasOneAuthority : (p : Pool) → HasOneAuthority (unload_current_model p)
unfolding unload_current_model
unload_current_model-HasOneAuthority p =
    no_authority (unload_current_model p) (unload_worker p) refl
