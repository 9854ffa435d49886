-- ===== src/Superres/Endings.antt =====
-- server/superres_service.py: the end of the service, asked for and by a fault; settled futures over time.
use stability_toys.Prelude.{
  ℕ, zero, suc, ◌≡◌, refl, true, false, List, [], ◌∷◌, none, some, arith, inl, inr, Option-cases,
  sym, subst, ◌∙◌, ap,
}
use stability_toys.Prelude.Effects.{raised}
use stability_toys.Superres.Service.{
  SrJob, SrService, SrWorld, Outcome, settled_already, failed_with, shutting_down, set_future,
  settle_job, task_done, unload_worker, on_error, at_last, leave_round, begin_round, finish_round,
  drain, shutdown,
}
use stability_toys.Superres.Rounds.{Keeps}
use stability_toys.Superres.Serving.{AllSettled, rounds}

module _ {B W X : Type 0} (w : SrWorld B W X) where
  crashes :
      (job : SrJob B) (v u : W) (x y : X) (s : SrService B W X)
      → s.active ≡ some (job, v)
      → w.upscale v job ≡ raised x
      → w.is_oom x ≡ true
      → s.worker ≡ some u
      → w.close u ≡ raised y
      → ((finish_round w s).alive ≡ false)
        × ((finish_round w s).active ≡ none)
        × ((finish_round w s).queue ≡ s.queue)
        × ((finish_round w s).futures ≡ s.futures)
  unfolding finish_round on_error unload_worker leave_round at_last
  crashes job v u x y s a r oom here fails =
      (ground arith, ground arith, ground arith, ground arith)

  dead_stays :
      (ws : ℕ → SrWorld B W X) (n : ℕ) (s : SrService B W X)
      → s.alive ≡ false
      → s.active ≡ none
      → rounds ws n s ≡ s
  unfolding rounds begin_round finish_round
  dead_stays ws zero s a b = refl
  dead_stays ws (suc n) s a b =
      let begun : begin_round (ws zero) s ≡ s = ground arith in
      let idle : finish_round (ws zero) s ≡ s = ground arith in
      let later : ℕ → SrWorld B W X = λ k. ws (suc k) in
      ap (λ t. rounds later n (finish_round (ws zero) t)) begun
      ∙ ap (rounds later n) idle
      ∙ dead_stays later n s a b

  -- Where a job runs out of GPU memory and the worker fails to close, the thread ends: the future of the
  -- job stays as it was, and no further round takes a job from the queue, whatever the factory and the
  -- workers would do in it.
  pub crash_is_final :
      (job : SrJob B) (v u : W) (x y : X) (s : SrService B W X)
      → s.active ≡ some (job, v)
      → w.upscale v job ≡ raised x
      → w.is_oom x ≡ true
      → s.worker ≡ some u
      → w.close u ≡ raised y
      → ((finish_round w s).futures ≡ s.futures)
        × ((finish_round w s).queue ≡ s.queue)
        × ((ws : ℕ → SrWorld B W X) (n : ℕ) → rounds ws n (finish_round w s) ≡ finish_round w s)
  crash_is_final job v u x y s a r oom here fails =
      let (dead, free, q, f) = crashes job v u x y s a r oom here fails in
      (f, q, λ ws n. dead_stays ws n (finish_round w s) dead free)

module _ {B W X : Type 0} where
  settled_once :
      (t : ℕ) (o : Outcome B X) (s : SrService B W X)
      → settled_already o ≡ true
      → (settled_already ((settle_job t o s).futures t) ≡ true) × Keeps s (settle_job t o s)
  unfolding settle_job set_future
  settled_once t o s h = (ground arith, λ u k. ground arith)

  settle_stop : (t : ℕ) (o : Outcome B X) (s : SrService B W X) → (settle_job t o s).stop ≡ s.stop
  unfolding settle_job set_future
  settle_stop t o s = ground arith

  drained :
      (jobs : List (SrJob B)) (s : SrService B W X)
      → ((drain jobs s).queue ≡ [])
        × AllSettled jobs (drain jobs s)
        × Keeps s (drain jobs s)
        × ((drain jobs s).stop ≡ s.stop)
  unfolding drain
  drained [] s = (refl, tt, (λ t h. refl), refl)
  drained (job ∷ jobs) s =
      let next = settle_job job.fut (failed_with shutting_down) s in
      let (here, keeps) = settled_once job.fut (failed_with shutting_down) s refl in
      let (q, all, more, st) = drained jobs (task_done next) in
      (
        q,
        (ap settled_already (more job.fut here) ∙ here, all),
        (λ t h. more t (ap settled_already (keeps t h) ∙ h) ∙ keeps t h),
        st ∙ settle_stop job.fut (failed_with shutting_down) s,
      )

  unloaded :
      (w : SrWorld B W X) (s : SrService B W X) → (unload_worker w s).1 ≡ record s { worker = none }
  unfolding unload_worker
  unloaded w s = elim (Option-cases s.worker) [
    | inl gone ↦ ground arith
    | inr (v, here) ↦ ground arith
  ]

  -- A shutdown leaves no worker, an empty queue and a thread that is told to stop, whether the worker
  -- closes or not; the future of every job that was queued is settled, and those that had been settled are
  -- as they were.
  pub shutdown_settles :
      (w : SrWorld B W X) (s : SrService B W X)
      → let s' = (shutdown w s).1 in
        (s'.queue ≡ []) × (s'.worker ≡ none) × (s'.stop ≡ true) × AllSettled s.queue s' × Keeps s s'
  unfolding shutdown
  shutdown_settles w s =
      let t : SrService B W X = record s { stop = true } in
      let (q, all, keeps, st) = drained s.queue t in
      subst
        (λ (u : SrService B W X).
          (u.queue ≡ []) × (u.worker ≡ none) × (u.stop ≡ true) × AllSettled s.queue u × Keeps s u)
        (sym (unloaded w (drain s.queue t))) (q, refl, st, settled_same s.queue _ _ refl all, keeps)
    where
      settled_same :
          (jobs : List (SrJob B)) (u v : SrService B W X)
          → u.futures ≡ v.futures
          → AllSettled jobs u
          → AllSettled jobs v
      settled_same [] u v e all = tt
      settled_same (job ∷ jobs) u v e all = (
        ap (λ (f : ℕ → Outcome B X). settled_already (f job.fut)) (sym e) ∙ all.0,
        settled_same jobs u v e all.1,
      )
