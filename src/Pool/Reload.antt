-- ===== src/Pool/Reload.antt =====
-- backends/worker_pool.py: idle eviction and the demand reload that undoes it.
use stability_toys.Prelude.{
  ℕ, ◌-◌, ◌≤◌, ◌<◌, ◌≡◌, refl, ◌∙◌, String, true, false, List, ◌∷◌, none, some, arith, ap,
}
use stability_toys.Prelude.Dict.{lookup}
use stability_toys.Prelude.Effects.{ok}
use stability_toys.Pool.Model.{
  pending, Job, generation, evict_if_idle, JobRecord, Snapshot, Worker, Pool, World,
}
use stability_toys.Pool.Loading.{
  unload_current_worker, configure, make_worker, reload_from_snapshot,
}
use stability_toys.Pool.Loads.{reloaded}
use stability_toys.Pool.Jobs.{evict_idle}
use stability_toys.Pool.Loop.{
  demand_reload, hand_over, begin_generation, mark_started, begin_job, begin,
}

-- The factory makes a worker of the snapshot's model, and the worker takes its mode's conditioning.
pub record CanReload (w : World) (s : Snapshot) : Type 0 where
  pub makes : w.factory_fault s.resolved s.binding ≡ none
  pub configurable : w.configurable ≡ true
  pub configures : w.configure_conditioning s.mode ≡ none

module _ (w : World) (p : Pool) (s : Snapshot) (can : CanReload w s) where
  reload_runs :
      p.worker ≡ none → p.active_snapshot ≡ some s → demand_reload w p ≡ (ok tt, reloaded w p s)
  unfolding demand_reload reload_from_snapshot make_worker configure
  reload_runs idle has =
      let a = can.makes in let b = can.configurable in let c = can.configures in ground arith

-- An eviction that finds the pool idle long enough drops the worker and nothing of the authority: the
-- mode, the snapshot and the epoch stay for the next demand reload.
pub evict_idle_lem :
    (now : ℕ) (p : Pool)
    → p.idle_timeout ≤ now - p.last_activity
    → let q = evict_idle now p in
      (q.worker ≡ none)
      × (q.current_mode ≡ p.current_mode)
      × (q.active_snapshot ≡ p.active_snapshot)
      × (q.resolution_epoch ≡ p.resolution_epoch)
      × (q.queue ≡ p.queue)
      × (q.records ≡ p.records)
      × (q.futures ≡ p.futures)
      × (q.eviction_pending ≡ false)
unfolding evict_idle unload_current_worker
evict_idle_lem now p old = ground arith

hand_over_fresh :
    (w : World) (job : Job) (p : Pool) (s : Snapshot) (v : Worker)
    → p.worker ≡ some v
    → p.active_snapshot ≡ some s
    → hand_over w job s.resolution_epoch p ≡ record p { active = some job }
hand_over_fresh w job p s v live has = ground arith

begin_reloads :
    (w : World) (p : Pool) (s : Snapshot) (job : Job)
    → CanReload w s
    → p.worker ≡ none
    → p.active_snapshot ≡ some s
    → begin_generation w job s.resolution_epoch p ≡ record (reloaded w p s) { active = some job }
unfolding begin_generation
begin_reloads w p s job can idle has =
    let runs = reload_runs w p s can idle has in
    let v : Worker = record { resolved = s.resolved; binding = s.binding } in
    let fresh = hand_over_fresh w job (reloaded w p s) s v refl has in ground (arith, runs, fresh)

evict_idle_active : (now : ℕ) (p : Pool) → (evict_idle now p).active ≡ p.active
unfolding evict_idle unload_current_worker
evict_idle_active now p = ground arith

begin_reloads_job :
    (w : World) (p : Pool) (s : Snapshot) (job : Job) (rest : List Job) (id : String)
    (r : JobRecord)
    → CanReload w s
    → p.worker ≡ none
    → p.active_snapshot ≡ some s
    → p.active ≡ none
    → p.queue ≡ job ∷ rest
    → job.work ≡ generation id s.resolution_epoch
    → lookup id p.records ≡ some r
    → r.cancel_requested ≡ false
    → p.futures job.ticket ≡ pending
    → begin w p
      ≡ record (reloaded w (mark_started id r (record p { queue = rest })) s) { active = some job }
unfolding begin begin_job
begin_reloads_job w p s job rest id r can gone has idle h works known wanted free =
    let runs = begin_reloads w (mark_started id r (record p { queue = rest })) s job can gone has in
    ground (arith, runs)

-- After an eviction, the next generation job that was stamped with the retained epoch, and that nobody
-- cancelled, is not stale: where the factory can make the model again, the round rebuilds the worker of
-- the retained snapshot under the same epoch and mode, and hands the job over.
pub begin-evict_idle :
    (w : World) (now : ℕ) (p : Pool) (s : Snapshot) (job : Job) (rest : List Job) (id : String)
    (r : JobRecord)
    → p.idle_timeout ≤ now - p.last_activity
    → CanReload w s
    → p.active_snapshot ≡ some s
    → p.active ≡ none
    → p.queue ≡ job ∷ rest
    → job.work ≡ generation id s.resolution_epoch
    → lookup id p.records ≡ some r
    → r.cancel_requested ≡ false
    → p.futures job.ticket ≡ pending
    → let q = begin w (evict_idle now p) in
      (q.active ≡ some job)
      × (q.worker ≡ some (record { resolved = s.resolved; binding = s.binding }))
      × (q.active_snapshot ≡ some s)
      × (q.resolution_epoch ≡ p.resolution_epoch)
      × (q.current_mode ≡ p.current_mode)
begin-evict_idle w now p s job rest id r old can has idle h works known wanted free =
    let (gone, mode, snapshot, epoch, queue, records, futures, _) = evict_idle_lem now p old in
    let q : Pool = evict_idle now p in
    let runs =
      begin_reloads_job w q s job rest id r can gone (snapshot ∙ has)
        (evict_idle_active now p ∙ idle) (queue ∙ h) works (ap (lookup id) records ∙ known) wanted
        (ap (λ f. f job.ticket) futures ∙ free) in
    rw runs (refl, refl, snapshot ∙ has, epoch, mode)

-- An eviction job is not harmless where the worker is gone already: the round demand-reloads the model
-- before it runs the handler, so a second eviction job finds a worker made anew, and it keeps it where
-- the pool was active less than the idle time ago.
begin_reloads_evicted :
    (w : World) (p : Pool) (s : Snapshot) (job : Job) (rest : List Job)
    → CanReload w s
    → p.worker ≡ none
    → p.active_snapshot ≡ some s
    → p.active ≡ none
    → p.queue ≡ job ∷ rest
    → job.work ≡ evict_if_idle
    → w.now - p.last_activity < p.idle_timeout
    → (begin w p).worker ≡ some (record { resolved = s.resolved; binding = s.binding })
unfolding begin begin_job evict_idle
begin_reloads_evicted w p s job rest can gone has idle h works recent =
    let runs = reload_runs w (record p { queue = rest }) s can gone has in ground (arith, runs)
