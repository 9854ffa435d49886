-- ===== src/Pool/Loop.antt =====
-- backends/worker_pool.py: `_worker_loop`. A round begins with a job from the queue; a job that is
-- handed to a worker or to a handler is `active` until its outcome ends the round, and other threads
-- act in between.
use stability_toys.Prelude.{
  ℕ, ◌-◌, String, Bool, true, false, [], ◌∷◌, Option, none, some, not, ◌&&◌, ◌||◌, ◌==◌, ite,
  same_text, if◌then◌else◌,
}
use stability_toys.Prelude.Dict.{lookup, insert}
use stability_toys.Prelude.Effects.{Result, ok, raised}
use stability_toys.Pool.Model.{
  Future, cancelled, returned, refused, failed, Job, generation, mode_switch, evict_if_idle, custom,
  running, JobRecord, Error, fault, no_worker, stale, reload_failed, Snapshot, Pool, World, is_done,
  settle_once, is_oom,
}
use stability_toys.Pool.Loading.{load_mode, reload_from_snapshot}
use stability_toys.Pool.Jobs.{finalize, cleanup_vram, evict_idle}

-- The `finally` of a round.
abbrev pub end_round : ℕ → Pool → Pool
end_round now p = record p { last_activity = now; unfinished = p.unfinished - 1 }

-- `if not job.fut.done(): job.fut.set_result(…)`, or `set_exception`.
abbrev pub complete : Job → Future → Pool → Pool
complete job f p = record p { futures = settle_once job.ticket f p.futures }

-- What the `except` sets: an out-of-memory error is kept even for a job that was to be cancelled.
abbrev pub verdict : Error → JobRecord → Future
verdict e r = if is_oom e then failed e else (if r.cancel_requested then refused else failed e)

abbrev pub recover : Error → Pool → Pool
recover e p = if is_oom e then (cleanup_vram false p).1 else p

-- The `except Exception` of a round.
unfoldable pub fail_job : Job → Error → Pool → Pool
fail_job job e p =
    let p' = recover e p in
    elim job.work [
      | generation id epoch ↦ elim (lookup id p'.records) [
        | some r ↦ finalize id (complete job (verdict e r) p')
        | none ↦ complete job (failed e) p'
      ]
      | _ ↦ complete job (failed e) p'
    ]

-- `RuntimeError(f"Demand reload of … failed: {load_err}")`, which quotes the first text.
abbrev pub wrap : Error → Error
wrap (fault f) = fault (record { of_oom_type = false; mentions_oom = f.mentions_oom })
wrap _ = reload_failed

-- The demand reload of a round.
unfoldable pub demand_reload : World → Pool → Result Error (Unit {0}) × Pool
demand_reload w p = elim p.worker [
  | some _ ↦ (ok tt, p)
  | none ↦ elim p.active_snapshot [
    | none ↦ (ok tt, p)
    | some s ↦
        let (r, p') = reload_from_snapshot w p in
        elim r [ ok _ ↦ (ok tt, p') | raised e ↦ (raised (wrap e), p') ]
  ]
]

-- The stale-job barrier.
abbrev pub is_stale : ℕ → Option Snapshot → Bool
is_stale epoch none = false
is_stale epoch (some s) = not (s.resolution_epoch == epoch)

-- Handing a job over: a generation job wants a worker.
abbrev pub hand_over : World → Job → ℕ → Pool → Pool
hand_over w job epoch p =
    if is_stale epoch p.active_snapshot
    then end_round w.now (fail_job job stale p)
    else elim p.worker [
      | none ↦ end_round w.now (fail_job job no_worker p)
      | some _ ↦ record p { active = some job }
    ]

-- A generation job that nobody cancelled.
unfoldable pub begin_generation : World → Job → ℕ → Pool → Pool
begin_generation w job epoch p =
    let (r, p') = demand_reload w p in
    elim r [ raised e ↦ end_round w.now (fail_job job e p') | ok _ ↦ hand_over w job epoch p' ]

abbrev pub is_cancelled : Future → Bool
is_cancelled cancelled = true
is_cancelled _ = false

abbrev pub mark_started : String → JobRecord → Pool → Pool
mark_started id r p = record p { records = insert id (record r { state = running }) p.records }

-- `isinstance(job, ModeSwitchJob)`: the mode is live already, or it is loaded.
abbrev pub is_live : String → Pool → Bool
is_live target p = elim p.worker [
  | none ↦ false
  | some _ ↦ elim p.current_mode [ none ↦ false | some m ↦ ite (same_text m target) true false ]
]

unfoldable pub begin_switch : World → Job → String → Bool → Pool → Pool
begin_switch w job target force p =
    if is_live target p && not force
    then end_round w.now (complete job returned p)
    else (let (r, p') = load_mode w target p in
        elim r [
          | ok _ ↦ end_round w.now (complete job returned p')
          | raised e ↦ end_round w.now (fail_job job e p')
        ])

-- The round of one job, up to the call of `job.execute` where that may take time.
unfoldable pub begin_job : World → Job → Pool → Pool
begin_job w job p = elim job.work [
  | mode_switch target force ↦ begin_switch w job target force p
  | generation id epoch ↦ elim (lookup id p.records) [
    | none ↦ begin_generation w job epoch p
    | some r ↦
        if r.cancel_requested || is_cancelled (p.futures job.ticket)
        then end_round w.now (finalize id p)
        else begin_generation w job epoch (mark_started id r p)
  ]
  | evict_if_idle ↦
      let (r, p') = demand_reload w p in
      elim r [
        | raised e ↦ end_round w.now (fail_job job e p')
        | ok _ ↦ end_round w.now (complete job returned (evict_idle w.now p'))
      ]
  | custom ↦
      let (r, p') = demand_reload w p in
      elim r [
        | raised e ↦ end_round w.now (fail_job job e p')
        | ok _ ↦ record p' { active = some job }
      ]
]

-- The worker thread takes the next job, if it is free and there is one.
unfoldable pub begin : World → Pool → Pool
begin w p = elim p.active [
  | some _ ↦ p
  | none ↦ elim p.queue [ [] ↦ p | job ∷ rest ↦ begin_job w job (record p { queue = rest }) ]
]

-- After `job.execute` has returned. The record is looked up again by its identifier, where the source
-- has held on to the object since the round began: identifiers are uuids, so it is the same one.
unfoldable pub return_job : Job → Pool → Pool
return_job job p = elim job.work [
  | generation id epoch ↦ elim (lookup id p.records) [
    | none ↦ complete job returned p
    | some r ↦
        if r.cancel_requested
        then finalize id (complete job refused p)
        else (if is_done (p.futures job.ticket) then p else finalize id (complete job returned p))
  ]
  | _ ↦ complete job returned p
]

-- The active job returns, or raises an exception.
unfoldable pub finish : ℕ → Option Error → Pool → Pool
finish now outcome p = elim p.active [
  | none ↦ p
  | some job ↦
      let p' = record p { active = none } in
      elim outcome [
        | none ↦ end_round now (return_job job p')
        | some e ↦ end_round now (fail_job job e p')
      ]
]
