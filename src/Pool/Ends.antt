-- ===== src/Pool/Ends.antt =====
-- The worker loop of backends/worker_pool.py: how each round begins and ends.
use stability_toys.Prelude.{
  ℕ, ◌≡◌, refl, sym, String, Bool, some, arith, Option-cases, Bool-cases, inl, inr, subst, not,
  ◌&&◌, ◌||◌,
}
use stability_toys.Prelude.Dict.{lookup, insert, erase}
use stability_toys.Prelude.Effects.{Result, ok, raised}
use stability_toys.Pool.Model.{
  Future, returned, refused, Job, Work, generation, mode_switch, evict_if_idle, custom, running,
  JobRecord, Error, stale, no_worker, Pool, World, is_done,
}
use stability_toys.Pool.Loading.{load_mode}
use stability_toys.Pool.Jobs.{finalize, evict_idle}
use stability_toys.Pool.Loop.{
  end_round, complete, fail_job, demand_reload, is_stale, hand_over, begin_generation, is_cancelled,
  mark_started, is_live, begin_switch, begin_job, return_job,
}
use stability_toys.Pool.Advances.{
  Advances, Advances-refl, Advances-trans, jobs-Advances, complete-Advances,
}
use stability_toys.Pool.Rounds.{
  fail_job-Advances, load_mode-Advances, demand_reload-Advances, evict_idle-Advances,
}

-- A round is over, or its job was handed over.
pub data Rounds (w : World) (job : Job) (p : Pool) : Pool → Type 0 where
  ended : (q : Pool) → Advances p q → Rounds w job p (end_round w.now q)
  handed : (q : Pool) → Advances p q → Rounds w job p (record q { active = some job })

pub finalize-Advances : (id : String) (p : Pool) → Advances p (finalize id p)
finalize-Advances id p = jobs-Advances p (erase id p.records) p.futures (λ t h. refl)

pub mark_started-Advances :
    (id : String) (r : JobRecord) (p : Pool) → Advances p (mark_started id r p)
mark_started-Advances id r p =
    jobs-Advances p (insert id (record r { state = running }) p.records) p.futures (λ t h. refl)

module _ (w : World) (job : Job) (p : Pool) where
  fails :
      (e : Error) (q : Pool) → Advances p q → Rounds w job p (end_round w.now (fail_job job e q))
  fails e q m = ended (fail_job job e q) (Advances-trans m (fail_job-Advances job e q))

  returns : (q : Pool) → Advances p q → Rounds w job p (end_round w.now (complete job returned q))
  returns q m =
      ended (complete job returned q) (Advances-trans m (complete-Advances job returned q))

  hand_over-Rounds :
      (epoch : ℕ) (q : Pool) → Advances p q → Rounds w job p (hand_over w job epoch q)
  hand_over-Rounds epoch q m = elim (Bool-cases (is_stale epoch q.active_snapshot)) [
    | inl old ↦ rw old (fails stale q m)
    | inr current ↦ elim (Option-cases q.worker) [
      | inl idle ↦ rw (current, idle) (fails no_worker q m)
      | inr (v, live) ↦ rw (current, live) (handed q m)
    ]
  ]

  -- What a round does after a load or a reload.
  abbrev pub after : (Pool → Pool) → Result Error (Unit {0}) × Pool → Pool
  after k (r, q) = elim r [ raised e ↦ end_round w.now (fail_job job e q) | ok _ ↦ k q ]

  after-Rounds :
      (k : Pool → Pool)
      → ((q : Pool) → Advances p q → Rounds w job p (k q))
      → (r : Result Error (Unit {0}) × Pool) → Advances p r.1
      → Rounds w job p (after k r)
  after-Rounds k h (ok _, q) m = h q m
  after-Rounds k h (raised e, q) m = fails e q m

  begin_generation-Rounds : (epoch : ℕ) → Rounds w job p (begin_generation w job epoch p)
  unfolding begin_generation
  begin_generation-Rounds epoch =
      after-Rounds (hand_over w job epoch) (hand_over-Rounds epoch) (demand_reload w p)
        (demand_reload-Advances w p)

  begin_switch-Rounds :
      (target : String) (force : Bool) → Rounds w job p (begin_switch w job target force p)
  unfolding begin_switch
  begin_switch-Rounds target force = elim (Bool-cases (is_live target p && not force)) [
    | inl live ↦ rw live (returns p (Advances-refl p))
    | inr load ↦ rw load (
        after-Rounds (λ q. end_round w.now (complete job returned q)) returns (load_mode w target p)
          (load_mode-Advances w target p))
  ]

-- What is true of an advanced pool is true before it.
Rounds-after :
    {w : World} {job : Job} {p q r : Pool} → Advances p q → Rounds w job q r → Rounds w job p r
Rounds-after m (ended q n) = ended q (Advances-trans m n)
Rounds-after m (handed q n) = handed q (Advances-trans m n)

module _ {w : World} {job : Job} {p : Pool} where
  by_equation : {q r : Pool} → Rounds w job p r → q ≡ r → Rounds w job p q
  by_equation m e = subst (Rounds w job p) (sym e) m

  begun-Rounds :
      (id : String) (epoch : ℕ)
      → job.work ≡ generation id epoch
      → Rounds w job p (begin_job w job p)
  unfolding begin_job
  begun-Rounds id epoch h = elim (Option-cases (lookup id p.records)) [
    | inl gone ↦ by_equation (begin_generation-Rounds w job p epoch) (ground arith)
    | inr (r, has) ↦ elim (Bool-cases (r.cancel_requested || is_cancelled (p.futures job.ticket))) [
      | inl dropped ↦ by_equation (ended (finalize id p) (finalize-Advances id p)) (ground arith)
      | inr wanted ↦
          by_equation
            (Rounds-after (mark_started-Advances id r p)
              (begin_generation-Rounds w job (mark_started id r p) epoch))
            (ground arith)
    ]
  ]

pub begin_job-Rounds : (w : World) (job : Job) (p : Pool) → Rounds w job p (begin_job w job p)
unfolding begin_job
begin_job-Rounds w job p = go job.work refl
  where
    go : (work : Work) → job.work ≡ work → Rounds w job p (begin_job w job p)
    go (generation id epoch) h = begun-Rounds id epoch h
    go (mode_switch target force) h =
        by_equation (begin_switch-Rounds w job p target force) (ground arith)
    go evict_if_idle h =
        by_equation
          (after-Rounds w job p (λ q. end_round w.now (complete job returned (evict_idle w.now q)))
            (λ q m.
              returns w job p (evict_idle w.now q) (Advances-trans m (evict_idle-Advances w.now q)))
            (demand_reload w p) (demand_reload-Advances w p))
          (ground arith)
    go custom h =
        by_equation
          (after-Rounds w job p (λ q. record q { active = some job }) (λ q m. handed q m)
            (demand_reload w p) (demand_reload-Advances w p))
          (ground arith)

-- After a job's return.
pub return_job-Advances : (job : Job) (p : Pool) → Advances p (return_job job p)
unfolding return_job
return_job-Advances job p = go job.work refl
  where
    same : {q r : Pool} → Advances p r → q ≡ r → Advances p q
    same m e = subst (Advances p) (sym e) m

    done : (f : Future) → Advances p (complete job f p)
    done f = complete-Advances job f p

    closed : (id : String) (f : Future) → Advances p (finalize id (complete job f p))
    closed id f = Advances-trans (done f) (finalize-Advances id (complete job f p))

    go : (work : Work) → job.work ≡ work → Advances p (return_job job p)
    go (generation id epoch) h = elim (Option-cases (lookup id p.records)) [
      | inl gone ↦ same (done returned) (ground arith)
      | inr (r, has) ↦ elim (Bool-cases r.cancel_requested) [
        | inl asked ↦ same (closed id refused) (ground arith)
        | inr wanted ↦ elim (Bool-cases (is_done (p.futures job.ticket))) [
          | inl settled ↦ same (Advances-refl p) (ground arith)
          | inr waits ↦ same (closed id returned) (ground arith)
        ]
      ]
    ]
    go (mode_switch target force) h = same (done returned) (ground arith)
    go evict_if_idle h = same (done returned) (ground arith)
    go custom h = same (done returned) (ground arith)
