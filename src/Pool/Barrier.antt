-- ===== src/Pool/Barrier.antt =====
-- backends/worker_pool.py: the stale-job barrier of `_worker_loop`.
use stability_toys.Prelude.{
  ℕ, ◌≡◌, sym, ◌∙◌, String, false, List, ◌∷◌, none, some, ◌||◌, arith, Option-cases, Bool-cases,
  inl, inr, subst,
}
use stability_toys.Prelude.Dict.{lookup}
use stability_toys.Prelude.Effects.{Result, ok, raised}
use stability_toys.Pool.Model.{
  Job, generation, Error, stale, no_worker, Snapshot, Worker, Pool, World,
}
use stability_toys.Pool.Jobs.{finalize}
use stability_toys.Pool.Loop.{
  end_round, fail_job, demand_reload, is_stale, hand_over, begin_generation, is_cancelled,
  mark_started, begin_job, begin,
}
use stability_toys.Pool.Advances.{Advances}
use stability_toys.Pool.Rounds.{fail_job-Advances, demand_reload-Advances}
use stability_toys.Pool.Ends.{after}
use stability_toys.Pool.Sound.{IsSound, begin-Goes}

-- Whatever job the round hands over is this one, and it passed the barrier with a live worker.
abbrev Passes : Job → ℕ → Pool → Type 0
Passes job epoch q =
    (job' : Job)
    → q.active ≡ some job'
    → (job' ≡ job)
      × (is_stale epoch q.active_snapshot ≡ false)
      × ((v : Worker) × (q.worker ≡ some v))

idle-Passes : (job : Job) (epoch : ℕ) (q : Pool) → q.active ≡ none → Passes job epoch q
idle-Passes job epoch q idle job' busy = absurd (cc (idle, busy))

module _ (w : World) (job : Job) (epoch : ℕ) (p : Pool) (idle : p.active ≡ none) where
  fails-Passes :
      (e : Error) (q : Pool) → Advances p q → Passes job epoch (end_round w.now (fail_job job e q))
  fails-Passes e q m =
      idle-Passes job epoch (end_round w.now (fail_job job e q))
        ((fail_job-Advances job e q).active ∙ (m.active ∙ idle))

  hand_over-Passes : (q : Pool) → Advances p q → Passes job epoch (hand_over w job epoch q)
  hand_over-Passes q m = elim (Bool-cases (is_stale epoch q.active_snapshot)) [
    | inl old ↦ rw old (fails-Passes stale q m)
    | inr current ↦ elim (Option-cases q.worker) [
      | inl gone ↦ rw (current, gone) (fails-Passes no_worker q m)
      | inr (v, live) ↦
          subst (Passes job epoch) (sym (handed q current v live))
            (λ job' busy. (cc busy, current, (v, live)))
    ]
  ]
    where
      handed :
          (q : Pool)
          → is_stale epoch q.active_snapshot ≡ false
          → (v : Worker) → q.worker ≡ some v
          → hand_over w job epoch q ≡ record q { active = some job }
      handed q current v live = ground arith

  after-Passes :
      (r : Result Error (Unit {0}) × Pool)
      → Advances p r.1
      → Passes job epoch (after w job p (hand_over w job epoch) r)
  after-Passes (ok _, q) m = hand_over-Passes q m
  after-Passes (raised e, q) m = fails-Passes e q m

  begin_generation-Passes : Passes job epoch (begin_generation w job epoch p)
  unfolding begin_generation
  begin_generation-Passes = after-Passes (demand_reload w p) (demand_reload-Advances w p)

begin_job-Passes :
    (w : World) (job : Job) (id : String) (epoch : ℕ) (p : Pool)
    → p.active ≡ none
    → job.work ≡ generation id epoch
    → Passes job epoch (begin_job w job p)
unfolding begin_job
begin_job-Passes w job id epoch p idle h = elim (Option-cases (lookup id p.records)) [
  | inl gone ↦
      same (begin_generation w job epoch p) (begin_generation-Passes w job epoch p idle)
        (ground arith)
  | inr (r, has) ↦ elim (Bool-cases (r.cancel_requested || is_cancelled (p.futures job.ticket))) [
    | inl dropped ↦
        same (end_round w.now (finalize id p))
          (idle-Passes job epoch (end_round w.now (finalize id p)) idle) (ground arith)
    | inr wanted ↦
        same (begin_generation w job epoch (mark_started id r p))
          (begin_generation-Passes w job epoch (mark_started id r p) idle) (ground arith)
  ]
]
  where
    same :
        (r : Pool)
        → Passes job epoch r
        → begin_job w job p ≡ r
        → Passes job epoch (begin_job w job p)
    same r m e = subst (Passes job epoch) (sym e) m

begin_takes :
    (w : World) (p : Pool) (job : Job) (rest : List Job)
    → p.active ≡ none
    → p.queue ≡ job ∷ rest
    → begin w p ≡ begin_job w job (record p { queue = rest })
unfolding begin
begin_takes w p job rest idle h = ground arith

not_stale :
    (epoch : ℕ) (q : Pool) (s : Snapshot)
    → q.active_snapshot ≡ some s
    → is_stale epoch q.active_snapshot ≡ false
    → s.resolution_epoch ≡ epoch
not_stale epoch q s has current = ground arith

-- The barrier: where a free worker thread of a sound pool takes a generation job from the queue and
-- hands a job to a worker, it is that job, the live worker is built of the model that the active
-- snapshot names, and that snapshot has the epoch that the job was stamped with, which is the pool's
-- current one.
pub begin-IsCurrent :
    (w : World) (p : Pool) (job : Job) (rest : List Job) (id : String) (epoch : ℕ)
    → IsSound p
    → p.active ≡ none
    → p.queue ≡ job ∷ rest
    → job.work ≡ generation id epoch
    → (job' : Job) → (begin w p).active ≡ some job'
    → (job' ≡ job)
      × ((v : Worker) × (s : Snapshot) × ((begin w p).worker ≡ some v)
          × ((begin w p).active_snapshot ≡ some s)
          × (v.resolved ≡ s.resolved)
          × (v.binding ≡ s.binding)
          × (s.resolution_epoch ≡ epoch)
          × ((begin w p).resolution_epoch ≡ epoch))
begin-IsCurrent w p job rest id epoch sound idle h works job' busy =
    let passes =
      subst (Passes job epoch) (sym (begin_takes w p job rest idle h))
        (begin_job-Passes w job id epoch (record p { queue = rest }) idle works) in
    let (is_job, current, (v, live)) = passes job' busy in
    let (sound', _) = begin-Goes w p sound in
    let (s, has, resolved, binding) = sound'.authority.worker_named v live in
    let (now, _) = sound'.authority.snapshot_current s has in
    let same = not_stale epoch (begin w p) s has current in
    (is_job, (v, s, live, has, resolved, binding, same, sym now ∙ same))
