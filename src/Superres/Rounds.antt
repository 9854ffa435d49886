-- ===== src/Superres/Rounds.antt =====
-- server/superres_service.py: what a round of the thread comes to, and that rounds serve every job.
use stability_toys.Prelude.{
  ℕ, ◌-◌, ◌≡◌, refl, true, none, some, arith, inl, inr, ◌⊎◌, Bool-cases, Option-cases, sym, subst,
  ap,
}
use stability_toys.Prelude.Effects.{ok, raised}
use stability_toys.Prelude.Outcome.{Result-cases}
use stability_toys.Superres.Service.{
  SrJob, SrService, SrWorld, Outcome, Lifecycle, sticky, per_request, settled_already, finished,
  failed_with, from_worker, set_future, settle_job, task_done, unload_worker, on_error, at_last,
  leave_round, finish_round,
}

Lifecycle-cases : (l : Lifecycle) → (l ≡ sticky) ⊎ (l ≡ per_request)
Lifecycle-cases sticky = inl refl
Lifecycle-cases per_request = inr refl

module _ {B W X : Type 0} where
  -- Settled futures stay as they are.
  abbrev pub Keeps : SrService B W X → SrService B W X → Type 0
  Keeps s s' = (t : ℕ) → settled_already (s.futures t) ≡ true → s'.futures t ≡ s.futures t

  -- The future of a job is settled, and little else has changed.
  pub record Settles (job : SrJob B) (s s' : SrService B W X) : Type 0 where
    pub queue : s'.queue ≡ s.queue
    pub stop : s'.stop ≡ s.stop
    pub alive : s'.alive ≡ s.alive
    pub unfinished : s'.unfinished ≡ s.unfinished
    pub lifecycle : s'.lifecycle ≡ s.lifecycle
    pub settled : settled_already (s'.futures job.fut) ≡ true
    pub keeps : Keeps s s'

  -- A round has served its job.
  pub record Served (job : SrJob B) (s s' : SrService B W X) : Type 0 where
    pub queue : s'.queue ≡ s.queue
    pub stop : s'.stop ≡ s.stop
    pub alive : s'.alive ≡ s.alive
    pub active : s'.active ≡ none
    pub unfinished : s'.unfinished ≡ s.unfinished - 1
    pub settled : settled_already (s'.futures job.fut) ≡ true
    pub keeps : Keeps s s'

  pub settle_job-Settles :
      (job : SrJob B) (o : Outcome B X) (s : SrService B W X)
      → settled_already o ≡ true
      → Settles job s (settle_job job.fut o s)
  unfolding settle_job set_future
  settle_job-Settles job o s h = record {
    queue = ground arith;
    stop = ground arith;
    alive = ground arith;
    unfinished = ground arith;
    lifecycle = ground arith;
    settled = ground arith;
    keeps = λ t k. ground arith;
  }

  module _ (w : SrWorld B W X) (closes : (v : W) → w.close v ≡ ok tt) where
    unload_returns : (s : SrService B W X) → unload_worker w s ≡ (ok tt, record s { worker = none })
    unfolding unload_worker
    unload_returns s = elim (Option-cases s.worker) [
      | inl gone ↦ ground arith
      | inr (v, here) ↦ ground (arith, closes v)
    ]

    error_returns :
        (job : SrJob B) (x : X) (s : SrService B W X)
        → (s' : SrService B W X) × (on_error w job x s ≡ (ok tt, s')) × Settles job s s'
    unfolding on_error
    error_returns job x s = elim (Bool-cases (w.is_oom x)) [
      | inl oom ↦ (
        settle_job job.fut (failed_with (from_worker x)) (record s { worker = none }),
        ground (arith, unload_returns s),
        let h =
              settle_job-Settles job (failed_with (from_worker x)) (record s { worker = none })
                refl in
            record {
              queue = h.queue;
              stop = h.stop;
              alive = h.alive;
              unfinished = h.unfinished;
              lifecycle = h.lifecycle;
              settled = h.settled;
              keeps = h.keeps;
            },
      )
      | inr other ↦ (
        settle_job job.fut (failed_with (from_worker x)) s,
        ground arith,
        settle_job-Settles job (failed_with (from_worker x)) s refl,
      )
    ]

    pub sticky_ends :
        (s : SrService B W X)
        → s.lifecycle ≡ sticky
        → leave_round w (ok tt, s) ≡ task_done (record s { active = none })
    unfolding leave_round at_last
    sticky_ends s h = ground arith

    per_request_ends :
        (s : SrService B W X)
        → s.lifecycle ≡ per_request
        → leave_round w (ok tt, s) ≡ task_done (record s { active = none; worker = none })
    unfolding leave_round at_last
    per_request_ends s h = ground (arith, unload_returns (record s { active = none }))

    leave_round_serves :
        (job : SrJob B) (s s' : SrService B W X)
        → Settles job s s'
        → Served job s (leave_round w (ok tt, s'))
    leave_round_serves job s s' h = elim (Lifecycle-cases s'.lifecycle) [
      | inl keep ↦ subst (Served job s) (sym (sticky_ends s' keep)) (record {
        queue = h.queue;
        stop = h.stop;
        alive = h.alive;
        active = refl;
        unfinished = ap (λ n. n - 1) h.unfinished;
        settled = h.settled;
        keeps = h.keeps;
      })
      | inr drop ↦ subst (Served job s) (sym (per_request_ends s' drop)) (record {
        queue = h.queue;
        stop = h.stop;
        alive = h.alive;
        active = refl;
        unfinished = ap (λ n. n - 1) h.unfinished;
        settled = h.settled;
        keeps = h.keeps;
      })
    ]

    pub error_ends :
        (job : SrJob B) (x : X) (s : SrService B W X)
        → Served job s (leave_round w (on_error w job x s))
    error_ends job x s =
        let (s', runs, h) = error_returns job x s in
        subst (λ r. Served job s (leave_round w r)) (sym runs) (leave_round_serves job s s' h)

    finish_ok :
        (job : SrJob B) (v : W) (s : SrService B W X) (bytes : B)
        → s.active ≡ some (job, v)
        → w.upscale v job ≡ ok bytes
        → finish_round w s ≡ leave_round w (ok tt, settle_job job.fut (finished bytes) s)
    unfolding finish_round
    finish_ok job v s bytes h r = ground arith

    finish_raised :
        (job : SrJob B) (v : W) (s : SrService B W X) (x : X)
        → s.active ≡ some (job, v)
        → w.upscale v job ≡ raised x
        → finish_round w s ≡ leave_round w (on_error w job x s)
    unfolding finish_round
    finish_raised job v s x h r = ground arith

    pub finish_round_serves :
        (job : SrJob B) (v : W) (s : SrService B W X)
        → s.active ≡ some (job, v)
        → Served job s (finish_round w s)
    finish_round_serves job v s h = elim (Result-cases (w.upscale v job)) [
      | inl (x, r) ↦ subst (Served job s) (sym (finish_raised job v s x h r)) (error_ends job x s)
      | inr (bytes, r) ↦ subst (Served job s) (sym (finish_ok job v s bytes h r)) (
          leave_round_serves job s (settle_job job.fut (finished bytes) s)
            (settle_job-Settles job (finished bytes) s refl))
    ]
