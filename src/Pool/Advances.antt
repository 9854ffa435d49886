-- ===== src/Pool/Advances.antt =====
-- The operations that a round of the worker loop is made of, and what each leaves in place.
use stability_toys.Prelude.{
  ℕ, ◌+◌, ◌≤◌, ◌≡◌, refl, sym, ◌∙◌, Bool, true, false, List, [], ◌∷◌, arith, length, ap,
}
use stability_toys.Prelude.Dict.{Dict}
use stability_toys.Pool.Model.{Future, Job, JobRecord, Pool, is_done, settle_once}
use stability_toys.Pool.Loading.{unload_current_worker}
use stability_toys.Pool.Loads.{SameJobs, unload-SameJobs}
use stability_toys.Pool.Authority.{HasOneAuthority, unload-HasOneAuthority, unload_keeps}
use stability_toys.Pool.Jobs.{sweep, cancel_pending, mark_running, cleanup_vram}
use stability_toys.Pool.Loop.{complete}

-- `q` has the model authority of `p`.
pub record SameModel (p q : Pool) : Type 0 where
  pub worker : q.worker ≡ p.worker
  pub current_mode : q.current_mode ≡ p.current_mode
  pub active_snapshot : q.active_snapshot ≡ p.active_snapshot
  pub resolution_epoch : q.resolution_epoch ≡ p.resolution_epoch

pub SameModel-HasOneAuthority : (p q : Pool) → SameModel p q → HasOneAuthority p → HasOneAuthority q
SameModel-HasOneAuthority p q m a = record {
  worker_named = λ w h.
      let (s, has, resolved, binding) = a.worker_named w (sym m.worker ∙ h) in
      (s, m.active_snapshot ∙ has, resolved, binding);
  snapshot_current = λ s h.
      let (epoch, mode) = a.snapshot_current s (sym m.active_snapshot ∙ h) in
      (epoch ∙ sym m.resolution_epoch, m.current_mode ∙ mode);
}

-- A settled future keeps its value.
abbrev pub KeepsSettled : Pool → Pool → Type 0
KeepsSettled p q = (t : ℕ) → is_done (p.futures t) ≡ true → q.futures t ≡ p.futures t

-- What every operation of a round keeps: one authority, epochs that do not fall, settled futures, the
-- active job, the queue's limit, and the difference of unfinished tasks and queued jobs.
pub record Advances (p q : Pool) : Type 0 where
  pub authority : HasOneAuthority p → HasOneAuthority q
  pub epochs : p.resolution_epoch ≤ q.resolution_epoch
  pub settled : KeepsSettled p q
  pub active : q.active ≡ p.active
  pub queue_max : q.queue_max ≡ p.queue_max
  pub shorter : length q.queue ≤ length p.queue
  pub counts :
      length p.queue ≤ p.unfinished
      → (q.unfinished + length p.queue ≡ p.unfinished + length q.queue)
        × (length q.queue ≤ q.unfinished)

pub Advances-refl : (p : Pool) → Advances p p
Advances-refl p = record {
  authority = λ a. a;
  epochs = omega arith;
  settled = λ t h. refl;
  active = refl;
  queue_max = refl;
  shorter = omega arith;
  counts = λ h. (refl, h);
}

pub Advances-trans : {p q r : Pool} → Advances p q → Advances q r → Advances p r
Advances-trans {p} {q} {r} m n = record {
  authority = λ a. n.authority (m.authority a);
  epochs = let x = m.epochs in let y = n.epochs in omega arith;
  settled = λ t h. let same = m.settled t h in n.settled t (rw same h) ∙ same;
  active = n.active ∙ m.active;
  queue_max = n.queue_max ∙ m.queue_max;
  shorter = let x = m.shorter in let y = n.shorter in omega arith;
  counts = λ h. let (x, le) = m.counts h in let (y, le') = n.counts le in (omega arith, le');
}

-- An operation on records and futures alone, which settles no future twice.
pub jobs-Advances :
    (p : Pool) (records' : Dict JobRecord) (futures' : ℕ → Future)
    → ((t : ℕ) → is_done (p.futures t) ≡ true → futures' t ≡ p.futures t)
    → Advances p (record p { records = records'; futures = futures' })
jobs-Advances p records' futures' keeps = record {
  authority = λ a.
      SameModel-HasOneAuthority p _
        (record {
          worker = refl;
          current_mode = refl;
          active_snapshot = refl;
          resolution_epoch = refl;
        })
        a;
  epochs = omega arith;
  settled = keeps;
  active = refl;
  queue_max = refl;
  shorter = omega arith;
  counts = λ h. (refl, h);
}

pub settle_once-keeps :
    (t : ℕ) (f : Future) (futures : ℕ → Future) (u : ℕ)
    → is_done (futures u) ≡ true
    → settle_once t f futures u ≡ futures u
settle_once-keeps t f futures u h = ground arith

-- An operation on the model alone.
pub SameJobs-Advances :
    (p q : Pool)
    → SameJobs p q
    → p.resolution_epoch ≤ q.resolution_epoch
    → (HasOneAuthority p → HasOneAuthority q)
    → Advances p q
SameJobs-Advances p q j epochs authority = record {
  authority = authority;
  epochs = epochs;
  settled = λ t h. ap (λ f. f t) j.futures;
  active = j.active;
  queue_max = j.queue_max;
  shorter = let e = ap length j.queue in omega arith;
  counts = λ h. let e = ap length j.queue in let u = j.unfinished in (omega arith, omega arith);
}

pub unload-Advances : (p : Pool) → Advances p (unload_current_worker p)
unload-Advances p =
    let (_, _, epoch) = unload_keeps p in
    SameJobs-Advances p _ (unload-SameJobs p) (omega arith) (unload-HasOneAuthority p)

-- The sweep of the queue: each job is cancelled or kept.
pub sweep_counts :
    (jobs : List Job) (p : Pool)
    → let (ids, kept, p') = sweep jobs p in
      (length ids + length kept ≡ length jobs)
      × SameModel p p'
      × (p'.unfinished ≡ p.unfinished)
      × (p'.queue_max ≡ p.queue_max)
      × (p'.active ≡ p.active)
unfolding sweep
sweep_counts [] p = ground arith
sweep_counts (job ∷ jobs) p = ground (arith, sweep_counts jobs p)

sweep-KeepsSettled : (jobs : List Job) (p : Pool) → KeepsSettled p (sweep jobs p).2
unfolding sweep
sweep-KeepsSettled [] p t h = refl
sweep-KeepsSettled (job ∷ jobs) p t h = ground (arith, sweep-KeepsSettled jobs p t h)

pub cancel_pending-Advances : (p : Pool) → Advances p (cancel_pending p).1
unfolding cancel_pending
cancel_pending-Advances p =
    let (split, model, unfinished, limit, active) = sweep_counts p.queue p in
    record {
      authority = λ a.
          SameModel-HasOneAuthority p _
            (record {
              worker = model.worker;
              current_mode = model.current_mode;
              active_snapshot = model.active_snapshot;
              resolution_epoch = model.resolution_epoch;
            })
            a;
      epochs = let e = model.resolution_epoch in omega arith;
      settled = λ t h. sweep-KeepsSettled p.queue p t h;
      active = active;
      queue_max = limit;
      shorter = omega arith;
      counts = λ h. (omega arith, omega arith);
    }

pub cleanup_vram-Advances :
    (cancel_running : Bool) (p : Pool) → Advances p (cleanup_vram cancel_running p).1
unfolding cleanup_vram
cleanup_vram-Advances false p =
    Advances-trans (cancel_pending-Advances p) (unload-Advances (cancel_pending p).1)
cleanup_vram-Advances true p =
    let q = (cancel_pending p).1 in
    Advances-trans (cancel_pending-Advances p) (
      Advances-trans (jobs-Advances q (mark_running q.records).1 q.futures (λ t h. refl))
        (unload-Advances (record q { records = (mark_running q.records).1 })))

pub complete-Advances : (job : Job) (f : Future) (p : Pool) → Advances p (complete job f p)
complete-Advances job f p =
    jobs-Advances p p.records (settle_once job.ticket f p.futures)
      (λ t h. settle_once-keeps job.ticket f p.futures t h)
