-- ===== src/Superres/Serving.antt =====
-- server/superres_service.py: the rounds of the thread serve every job of the queue.
use stability_toys.Prelude.{
  ℕ, zero, suc, ◌-◌, ◌≡◌, refl, true, false, List, [], ◌∷◌, none, some, length, arith, inl, inr,
  ◌⊎◌, Bool-cases, Option-cases, sym, subst, ◌∙◌, ap,
}
use stability_toys.Prelude.Effects.{ok, raised}
use stability_toys.Prelude.Outcome.{Result-cases}
use stability_toys.Superres.Service.{
  SrJob, SrService, SrWorld, settled_already, was_cancelled, task_done, on_error, leave_round,
  ensure_worker, take_job, begin_round, finish_round,
}
use stability_toys.Superres.Rounds.{Keeps, Served, error_ends, finish_round_serves}

module _ {B W X : Type 0} where
  abbrev pub AllSettled : List (SrJob B) → SrService B W X → Type 0
  AllSettled [] s = Unit
  AllSettled (job ∷ jobs) s = (settled_already (s.futures job.fut) ≡ true) × AllSettled jobs s

  -- Rounds of the thread, one after the other, each with a factory and workers of its own: what they
  -- do may change from round to round. A round makes at most one worker.
  unfoldable pub rounds : (ℕ → SrWorld B W X) → ℕ → SrService B W X → SrService B W X
  rounds ws zero s = s
  rounds ws (suc n) s =
      rounds (λ k. ws (suc k)) n (finish_round (ws zero) (begin_round (ws zero) s))

  module _ (w : SrWorld B W X) (closes : (v : W) → w.close v ≡ ok tt) where
    -- A round that takes a job either skips it as cancelled, or serves it at once, or runs it.
    abbrev Takes : SrJob B → SrService B W X → SrService B W X → Type 0
    Takes job s s' =
        Served job s s'
        ⊎ ((v : W) × (s'.active ≡ some (job, v))
            × (s'.queue ≡ s.queue)
            × (s'.stop ≡ s.stop)
            × (s'.alive ≡ s.alive)
            × (s'.unfinished ≡ s.unfinished)
            × Keeps s s')

    skips :
        (job : SrJob B) (s : SrService B W X)
        → was_cancelled (s.futures job.fut) ≡ true
        → take_job w job s ≡ task_done s
    unfolding take_job
    skips job s h = ground arith

    reuses :
        (job : SrJob B) (s : SrService B W X) (v : W)
        → was_cancelled (s.futures job.fut) ≡ false
        → s.worker ≡ some v
        → take_job w job s ≡ record s { active = some (job, v) }
    unfolding take_job ensure_worker
    reuses job s v h k = ground arith

    makes :
        (job : SrJob B) (s : SrService B W X) (v : W)
        → was_cancelled (s.futures job.fut) ≡ false
        → s.worker ≡ none
        → w.make ≡ ok v
        → take_job w job s ≡ record s { worker = some v; active = some (job, v) }
    unfolding take_job ensure_worker
    makes job s v h k m = ground arith

    cannot_make :
        (job : SrJob B) (s : SrService B W X) (x : X)
        → was_cancelled (s.futures job.fut) ≡ false
        → s.worker ≡ none
        → w.make ≡ raised x
        → take_job w job s ≡ leave_round w (on_error w job x s)
    unfolding take_job ensure_worker
    cannot_make job s x h k m = ground arith

    take_job-Takes :
        (job : SrJob B) (s : SrService B W X) → s.active ≡ none → Takes job s (take_job w job s)
    take_job-Takes job s free = elim (Bool-cases (was_cancelled (s.futures job.fut))) [
      | inl gone ↦ inl (
          subst (Served job s) (sym (skips job s gone)) (record {
            queue = refl;
            stop = refl;
            alive = refl;
            active = free;
            unfinished = refl;
            settled = ground arith;
            keeps = λ t h. refl;
          }))
      | inr wanted ↦ elim (Option-cases s.worker) [
        | inr (v, here) ↦
            subst (Takes job s) (sym (reuses job s v wanted here))
              (inr (v, refl, refl, refl, refl, refl, λ t h. refl))
        | inl gone ↦ elim (Result-cases w.make) [
          | inr (v, made) ↦
              subst (Takes job s) (sym (makes job s v wanted gone made))
                (inr (v, refl, refl, refl, refl, refl, λ t h. refl))
          | inl (x, fails) ↦
              subst (Takes job s) (sym (cannot_make job s x wanted gone fails))
                (inl (error_ends w closes job x s))
        ]
      ]
    ]

    begins :
        (s : SrService B W X) (job : SrJob B) (jobs : List (SrJob B))
        → s.active ≡ none
        → s.alive ≡ true
        → s.stop ≡ false
        → s.queue ≡ job ∷ jobs
        → begin_round w s ≡ take_job w job (record s { queue = jobs })
    unfolding begin_round
    begins s job jobs a b c d = ground arith

    idles : (s : SrService B W X) → s.active ≡ none → finish_round w s ≡ s
    unfolding finish_round
    idles s h = ground arith

    taken_serves :
        (job : SrJob B) (s s' : SrService B W X) → Takes job s s' → Served job s (finish_round w s')
    taken_serves job s s' (inl h) = subst (Served job s) (sym (idles s' h.active)) h
    taken_serves job s s' (inr (v, runs, q, st, al, un, keeps)) =
        let h = finish_round_serves w closes job v s' runs in
        record {
          queue = h.queue ∙ q;
          stop = h.stop ∙ st;
          alive = h.alive ∙ al;
          active = h.active;
          unfinished = h.unfinished ∙ ap (λ n. n - 1) un;
          settled = h.settled;
          keeps = λ t done. h.keeps t (ap settled_already (keeps t done) ∙ done) ∙ keeps t done;
        }

    round_serves :
        (s : SrService B W X) (job : SrJob B) (jobs : List (SrJob B))
        → s.active ≡ none
        → s.alive ≡ true
        → s.stop ≡ false
        → s.queue ≡ job ∷ jobs
        → Served job (record s { queue = jobs }) (finish_round w (begin_round w s))
    round_serves s job jobs a b c d =
        let t : SrService B W X = record s { queue = jobs } in
        let here = taken_serves job t (take_job w job t) (take_job-Takes job t a) in
        subst (λ u. Served job t (finish_round w u)) (sym (begins s job jobs a b c d)) here

  -- Where no worker fails to close, the thread of a service that runs serves every job that is queued:
  -- after as many rounds, whatever the factory and the workers do in each of them, the queue is empty,
  -- the future of each of these jobs is settled, the thread still runs, the tasks are counted off, and
  -- the futures that had been settled are as they were.
  pub rounds_serve :
      (ws : ℕ → SrWorld B W X)
      → ((k : ℕ) (v : W) → (ws k).close v ≡ ok tt)
      → (jobs : List (SrJob B)) (s : SrService B W X) → s.active ≡ none
      → s.alive ≡ true
      → s.stop ≡ false
      → s.queue ≡ jobs
      → let s' = rounds ws (length jobs) s in
        (s'.queue ≡ [])
        × AllSettled jobs s'
        × (s'.alive ≡ true)
        × (s'.active ≡ none)
        × (s'.unfinished ≡ s.unfinished - length jobs)
        × Keeps s s'
  unfolding rounds
  rounds_serve ws closes [] s a b c d = (d, tt, b, a, omega arith, λ t h. refl)
  rounds_serve ws closes (job ∷ jobs) s a b c d =
      let h = round_serves (ws zero) (closes zero) s job jobs a b c d in
      let s1 = finish_round (ws zero) (begin_round (ws zero) s) in
      let (q, all, al, ac, un, keeps) =
        rounds_serve (λ k. ws (suc k)) (λ k. closes (suc k)) jobs s1 h.active (h.alive ∙ b)
          (h.stop ∙ c) h.queue in
      (
        q,
        (ap settled_already (keeps job.fut h.settled) ∙ h.settled, all),
        al,
        ac,
        omega (arith, un, h.unfinished),
        λ t done. keeps t (ap settled_already (h.keeps t done) ∙ done) ∙ h.keeps t done,
      )
