-- ===== src/Pool/Safety.antt =====
-- The worker pool of backends/worker_pool.py as its threads drive it: what holds after any events.
use stability_toys.Prelude.{
  ℕ, ◌-◌, ◌≤◌, ◌≡◌, refl, sym, String, Bool, true, false, List, [], ◌∷◌, arith, Option-cases,
  Bool-cases, inl, inr, ltb, ◌&&◌, subst,
}
use stability_toys.Prelude.Dict.{lookup, insert}
use stability_toys.Pool.Model.{
  cancelled, stopped, running, cancels, evict_if_idle, mode_switch, Pool, World, Job, is_done,
  settle_once,
}
use stability_toys.Pool.Loading.{unload_current_model}
use stability_toys.Pool.Loads.{SameJobs, unload-SameJobs}
use stability_toys.Pool.Authority.{unload_keeps, unload_current_model-HasOneAuthority}
use stability_toys.Pool.Jobs.{
  is_full, is_queued, enqueue, cancel_job, watchdog, free_vram, switch_mode, cancel_pending,
  submit_job,
}
use stability_toys.Pool.Lifecycle.{reload_current_mode, reload_if_current, is_current}
use stability_toys.Pool.Schedule.{
  Event, submits, begins, finishes, cancels_job, client_cancels, frees_vram, unloads_model, watches,
  reloads, reloads_mode, step, run,
}
use stability_toys.Pool.Advances.{
  Advances, Advances-refl, SameJobs-Advances, jobs-Advances, settle_once-keeps,
  cleanup_vram-Advances, cancel_pending-Advances, SameModel-HasOneAuthority,
}
use stability_toys.Pool.Sound.{
  IsSound, Follows, Follows-refl, Follows-trans, Goes, advance, begin-Goes, finish-Goes,
}
use stability_toys.Pool.Entries.{enqueue-Goes, Goes-trans, submit_job-Goes}

cancel_job-Advances : (id : String) (p : Pool) → Advances p (cancel_job id p).1
unfolding cancel_job
cancel_job-Advances id p = elim (Option-cases (lookup id p.records)) [
  | inl gone ↦ same (Advances-refl p) (ground arith)
  | inr (r, has) ↦ elim (Bool-cases (is_done (p.futures r.ticket))) [
    | inl done ↦ same (Advances-refl p) (ground arith)
    | inr waits ↦ elim (Bool-cases (is_queued r.state && cancels (p.futures r.ticket))) [
      | inl early ↦
          same
            (jobs-Advances p
              (insert id (record r { cancel_requested = true; state = stopped }) p.records)
              (settle_once r.ticket cancelled p.futures)
              (settle_once-keeps r.ticket cancelled p.futures))
            (ground arith)
      | inr late ↦
          same
            (jobs-Advances p
              (insert id (record r { cancel_requested = true; state = running }) p.records)
              p.futures (λ t h. refl))
            (ground arith)
    ]
  ]
]
  where
    same : {q r : Pool} → Advances p r → q ≡ r → Advances p q
    same m e = subst (Advances p) (sym e) m

-- The watchdog's flag is outside what a sound pool is.
flag-Goes : (p : Pool) (flag : Bool) → IsSound p → Goes p (record p { eviction_pending = flag })
flag-Goes p flag c = (
  record {
    authority =
        SameModel-HasOneAuthority p _
          (record {
            worker = refl;
            current_mode = refl;
            active_snapshot = refl;
            resolution_epoch = refl;
          })
          c.authority;
    counted = c.counted;
    within = c.within;
  },
  record { epochs = omega arith; settled = λ t h. refl },
)

watchdog-Goes : (now ticket : ℕ) (p : Pool) → IsSound p → Goes p (watchdog now ticket p)
unfolding watchdog
watchdog-Goes now ticket p c = elim (Option-cases p.worker) [
  | inl idle ↦ same stays (ground arith)
  | inr (v, live) ↦ elim (Bool-cases (ltb (now - p.last_activity) p.idle_timeout)) [
    | inl recent ↦ same stays (ground arith)
    | inr old ↦ elim (Bool-cases p.eviction_pending) [
      | inl waits ↦ same stays (ground arith)
      | inr fresh ↦ elim (Bool-cases (is_full p)) [
        | inl full ↦ same (flag-Goes p false c) (ground arith)
        | inr room ↦
            same
              (let p' : Pool = record p { eviction_pending = true } in
                let (c', f) = flag-Goes p true c in
                Goes-trans p p' (enqueue (record { ticket = ticket; work = evict_if_idle }) p')
                  (c', f)
                  (enqueue-Goes (record { ticket = ticket; work = evict_if_idle }) p' room c'))
              (ground arith)
      ]
    ]
  ]
]
  where
    stays : Goes p p
    stays = (c, Follows-refl p)

    same : {q r : Pool} → Goes p r → q ≡ r → Goes p q
    same g e = subst (Goes p) (sym e) g

unload_current_model-SameJobs : (p : Pool) → SameJobs p (unload_current_model p)
unfolding unload_current_model
unload_current_model-SameJobs p =
    let j = unload-SameJobs p in
    record {
      queue = j.queue;
      queue_max = j.queue_max;
      unfinished = j.unfinished;
      records = j.records;
      futures = j.futures;
      active = j.active;
    }

unload_current_model_epoch :
    (p : Pool) → p.resolution_epoch ≤ (unload_current_model p).resolution_epoch
unfolding unload_current_model
unload_current_model_epoch p = let (_, _, epoch) = unload_keeps p in omega arith

unload_model-Goes : (p : Pool) → IsSound p → Goes p (unload_current_model p)
unload_model-Goes p c =
    let j = unload_current_model-SameJobs p in
    advance p (unload_current_model p)
      (SameJobs-Advances p (unload_current_model p) j (unload_current_model_epoch p)
        (λ _. unload_current_model-HasOneAuthority p))
      c

switch_mode-Goes :
    (w : World) (ticket : ℕ) (name : String) (force : Bool) (p : Pool)
    → IsSound p
    → Goes p (switch_mode w ticket name force p).1
unfolding switch_mode
switch_mode-Goes w ticket name force p c = elim (Option-cases (w.get_mode name)) [
  | inl unknown ↦ subst (Goes p) (sym (ground arith)) (c, Follows-refl p)
  | inr (m, known) ↦
      let job : Job = record { ticket = ticket; work = mode_switch name force } in
      let same : (switch_mode w ticket name force p).1 ≡ (submit_job job p).1 = ground arith in
      subst (Goes p) (sym same) (submit_job-Goes job p c)
]

reload_current_mode-Goes :
    (w : World) (ticket : ℕ) (p : Pool) → IsSound p → Goes p (reload_current_mode w ticket p).1
unfolding reload_current_mode
reload_current_mode-Goes w ticket p c = elim (Option-cases p.current_mode) [
  | inl none_live ↦
      let same : (reload_current_mode w ticket p).1 ≡ p = ground arith in
      subst (Goes p) (sym same) (c, Follows-refl p)
  | inr (name, live) ↦
      let swept = (cancel_pending p).1 in
      let same : (reload_current_mode w ticket p).1 ≡ (switch_mode w ticket name true swept).1 =
        ground arith in
      let first = advance p swept (cancel_pending-Advances p) c in
      subst (Goes p) (sym same) (
        Goes-trans p swept (switch_mode w ticket name true swept).1 first
          (switch_mode-Goes w ticket name true swept first.0))
]

reload_if_current-Goes :
    (w : World) (ticket : ℕ) (name : String) (p : Pool)
    → IsSound p
    → Goes p (reload_if_current w ticket name p).1
unfolding reload_if_current
reload_if_current-Goes w ticket name p c = elim (Bool-cases (is_current name p)) [
  | inr other ↦
      let same : (reload_if_current w ticket name p).1 ≡ p = ground arith in
      subst (Goes p) (sym same) (c, Follows-refl p)
  | inl here ↦
      let same : (reload_if_current w ticket name p).1 ≡ (switch_mode w ticket name true p).1 =
        ground arith in
      subst (Goes p) (sym same) (switch_mode-Goes w ticket name true p c)
]

step-Goes : (e : Event) (p : Pool) → IsSound p → Goes p (step e p)
unfolding step free_vram
step-Goes (submits job) p c = submit_job-Goes job p c
step-Goes (begins w) p c = begin-Goes w p c
step-Goes (finishes now outcome) p c = finish-Goes now outcome p c
step-Goes (cancels_job id) p c = advance p _ (cancel_job-Advances id p) c
step-Goes (client_cancels ticket) p c =
    advance p _
      (jobs-Advances p p.records (settle_once ticket cancelled p.futures)
        (settle_once-keeps ticket cancelled p.futures))
      c
step-Goes frees_vram p c = advance p _ (cleanup_vram-Advances true p) c
step-Goes unloads_model p c = unload_model-Goes p c
step-Goes (watches now ticket) p c = watchdog-Goes now ticket p c
step-Goes (reloads w ticket) p c = reload_current_mode-Goes w ticket p c
step-Goes (reloads_mode w ticket name) p c = reload_if_current-Goes w ticket name p c

-- From a sound pool, every sequence of events, each of which acts as one step, so that no thread
-- unloads the model while the worker thread loads it, leads to a sound pool: a live worker is the one that
-- the active snapshot names under the current epoch and mode, the queue is within its limit where it
-- has one, and the count of unfinished tasks is that of the queued jobs and the active one.
pub run-IsSound : (es : List Event) (p : Pool) → IsSound p → IsSound (run es p)
unfolding run
run-IsSound [] p c = c
run-IsSound (e ∷ es) p c = run-IsSound es (step e p) (step-Goes e p c).0

-- From a sound pool, no sequence of events lowers the epoch or changes a settled future: a job has
-- at most one outcome, whichever threads cancel, finish or fail it.
pub run-Follows : (es : List Event) (p : Pool) → IsSound p → Follows p (run es p)
unfolding run
run-Follows [] p c = Follows-refl p
run-Follows (e ∷ es) p c =
    let (c', f) = step-Goes e p c in Follows-trans f (run-Follows es (step e p) c')
