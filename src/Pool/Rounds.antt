-- ===== src/Pool/Rounds.antt =====
-- The rounds of the worker loop: what a load, a demand reload and a failed job keep.
use stability_toys.Prelude.{
  ℕ, ◌-◌, ◌≡◌, refl, sym, String, true, false, none, some, arith, Option-cases, Bool-cases, inl,
  inr, ◌⊎◌, subst, ltb,
}
use stability_toys.Prelude.Dict.{Dict, lookup, erase}
use stability_toys.Prelude.Effects.{Result, ok, raised}
use stability_toys.Pool.Model.{
  Future, Job, Work, generation, mode_switch, evict_if_idle, custom, JobRecord, Error, failed,
  Snapshot, Worker, Pool, World, is_done, settle_once, is_oom,
}
use stability_toys.Pool.Loading.{unload_current_worker, load_mode}
use stability_toys.Pool.Loads.{
  SameJobs, Loads, unknown, lost, loaded, load_mode-Loads, reloaded, reload_cases,
}
use stability_toys.Pool.Authority.{
  HasOneAuthority, load_mode-HasOneAuthority, reloaded-HasOneAuthority,
}
use stability_toys.Pool.Jobs.{evict_idle}
use stability_toys.Pool.Loop.{verdict, recover, fail_job, wrap, demand_reload}
use stability_toys.Pool.Advances.{
  Advances, Advances-refl, Advances-trans, jobs-Advances, settle_once-keeps, SameJobs-Advances,
  unload-Advances, cleanup_vram-Advances,
}

recover-Advances : (e : Error) (p : Pool) → Advances p (recover e p)
recover-Advances e p = elim (Bool-cases (is_oom e)) [
  | inl oom ↦ rw oom (cleanup_vram-Advances false p)
  | inr other ↦ rw other (Advances-refl p)
]

verdict_done : (e : Error) (r : JobRecord) → is_done (verdict e r) ≡ true
verdict_done e r = ground arith

-- A failed job's future is settled if it was not, its record goes, and an out-of-memory error also
-- cleans up.
pub fail_job_lem :
    (job : Job) (e : Error) (p : Pool)
    → (records' : Dict JobRecord) × (f : Future) × (fail_job job e p ≡ record (recover e p) {
      records = records';
      futures = settle_once job.ticket f (recover e p).futures;
    })
      × (is_done f ≡ true)
unfolding fail_job
fail_job_lem job e p = go job.work refl
  where
    p' : Pool
    p' = recover e p

    go :
        (work : Work)
        → job.work ≡ work
        → (records' : Dict JobRecord) × (f : Future) × (fail_job job e p
            ≡ record p' { records = records'; futures = settle_once job.ticket f p'.futures })
          × (is_done f ≡ true)
    go (generation id epoch) h = elim (Option-cases (lookup id p'.records)) [
      | inl gone ↦ (p'.records, failed e, ground arith, refl)
      | inr (r, has) ↦ (erase id p'.records, verdict e r, ground arith, verdict_done e r)
    ]
    go (mode_switch target force) h = (p'.records, failed e, ground arith, refl)
    go evict_if_idle h = (p'.records, failed e, ground arith, refl)
    go custom h = (p'.records, failed e, ground arith, refl)

pub fail_job-Advances : (job : Job) (e : Error) (p : Pool) → Advances p (fail_job job e p)
fail_job-Advances job e p =
    let (records', f, runs, _) = fail_job_lem job e p in
    subst (Advances p) (sym runs) (
      Advances-trans (recover-Advances e p) (
        jobs-Advances (recover e p) records' (settle_once job.ticket f (recover e p).futures)
          (λ t h. settle_once-keeps job.ticket f (recover e p).futures t h)))

Loads-Advances :
    (w : World) (name : String) (p : Pool) {r : Result Error (Unit {0}) × Pool}
    → Loads w name p r
    → (HasOneAuthority p → HasOneAuthority r.1)
    → Advances p r.1
Loads-Advances w name p (unknown h) a = Advances-refl p
Loads-Advances w name p (lost e q idle none_active epoch jobs) a =
    SameJobs-Advances p q jobs (omega arith) a
Loads-Advances w name p (loaded mode path worker q known has_path resolves now) a =
    let epoch = now.epoch in SameJobs-Advances p q now.jobs (omega arith) a

pub load_mode-Advances : (w : World) (name : String) (p : Pool) → Advances p (load_mode w name p).1
load_mode-Advances w name p =
    Loads-Advances w name p (load_mode-Loads w name p) (load_mode-HasOneAuthority w name p)

-- A demand reload, by its cases.
pub demand_reload_cases :
    (w : World) (p : Pool)
    → (demand_reload w p ≡ (ok tt, p))
      ⊎ ((s : Snapshot) × (p.active_snapshot ≡ some s)
          × (demand_reload w p ≡ (ok tt, reloaded w p s)))
      ⊎ ((e : Error) × (demand_reload w p ≡ (raised (wrap e), p)))
unfolding demand_reload
demand_reload_cases w p = elim (Option-cases p.worker) [
  | inr (v, live) ↦ inl (ground arith)
  | inl idle ↦ elim (Option-cases p.active_snapshot) [
    | inl none_active ↦ inl (ground arith)
    | inr (s, has) ↦ elim (reload_cases w p s has) [
      | inl runs ↦ inr (inl (s, has, ground arith))
      | inr (e, runs) ↦ inr (inr (e, ground arith))
    ]
  ]
]

reloaded-SameJobs : (w : World) (p : Pool) (s : Snapshot) → SameJobs p (reloaded w p s)
reloaded-SameJobs w p s = record {
  queue = refl;
  queue_max = refl;
  unfinished = refl;
  records = refl;
  futures = refl;
  active = refl;
}

pub demand_reload-Advances : (w : World) (p : Pool) → Advances p (demand_reload w p).1
demand_reload-Advances w p = elim (demand_reload_cases w p) [
  | inl runs ↦ subst (λ r. Advances p r.1) (sym runs) (Advances-refl p)
  | inr (inl (s, has, runs)) ↦
      subst (λ r. Advances p r.1) (sym runs)
        (SameJobs-Advances p (reloaded w p s) (reloaded-SameJobs w p s) (omega arith)
          (λ a. reloaded-HasOneAuthority w p s a has))
  | inr (inr (e, runs)) ↦ subst (λ r. Advances p r.1) (sym runs) (Advances-refl p)
]

quiet-Advances : (p : Pool) → Advances p (record p { eviction_pending = false })
quiet-Advances p =
    SameJobs-Advances p _
      (record {
        queue = refl;
        queue_max = refl;
        unfinished = refl;
        records = refl;
        futures = refl;
        active = refl;
      })
      (omega arith)
      (λ a. record { worker_named = a.worker_named; snapshot_current = a.snapshot_current })

stays :
    (now : ℕ) (p : Pool)
    → ltb (now - p.last_activity) p.idle_timeout ≡ false
    → p.worker ≡ none
    → evict_idle now p ≡ record p { eviction_pending = false }
unfolding evict_idle
stays now p idle gone = ground arith

evicts :
    (now : ℕ) (p : Pool) (v : Worker)
    → ltb (now - p.last_activity) p.idle_timeout ≡ false
    → p.worker ≡ some v
    → evict_idle now p ≡ unload_current_worker (record p { eviction_pending = false })
unfolding evict_idle
evicts now p v idle live = ground arith

pub evict_idle-Advances : (now : ℕ) (p : Pool) → Advances p (evict_idle now p)
unfolding evict_idle
evict_idle-Advances now p = elim (Bool-cases (ltb (now - p.last_activity) p.idle_timeout)) [
  | inl busy ↦ rw busy (quiet-Advances p)
  | inr idle ↦ elim (Option-cases p.worker) [
    | inl gone ↦ subst (Advances p) (sym (stays now p idle gone)) (quiet-Advances p)
    | inr (v, live) ↦ subst (Advances p) (sym (evicts now p v idle live)) unloaded
  ]
]
  where
    unloaded : Advances p (unload_current_worker (record p { eviction_pending = false }))
    unloaded =
        Advances-trans (quiet-Advances p) (unload-Advances (record p { eviction_pending = false }))
