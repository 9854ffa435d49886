-- ===== src/Pool/Sound.antt =====
-- The worker pool of backends/worker_pool.py: what a sound pool is, and that the rounds of the worker
-- thread keep it.
use stability_toys.Prelude.{
  ℕ, ◌+◌, ◌≤◌, ◌<◌, ◌≡◌, refl, sym, ◌∙◌, List, [], ◌∷◌, Option, none, some, arith, length, ap,
  subst,
}
use stability_toys.Pool.Model.{Job, Error, Pool, World}
use stability_toys.Pool.Authority.{HasOneAuthority}
use stability_toys.Pool.Loop.{begin, finish, end_round}
use stability_toys.Pool.Advances.{Advances, KeepsSettled, SameModel-HasOneAuthority}
use stability_toys.Pool.Rounds.{fail_job-Advances}
use stability_toys.Pool.Ends.{Rounds, ended, handed, begin_job-Rounds, return_job-Advances}

-- The pool with `n` jobs taken from the queue whose round has not ended: one model authority, a
-- queue within its limit, and a count of unfinished tasks that is the queued jobs and those `n`.
pub record IsCounted (n : ℕ) (p : Pool) : Type 0 where
  pub authority : HasOneAuthority p
  pub counted : p.unfinished ≡ length p.queue + n
  pub within : 0 < p.queue_max → length p.queue ≤ p.queue_max

abbrev pub held : Option Job → ℕ
held none = 0
held (some _) = 1

abbrev pub IsSound : Pool → Type 0
IsSound p = IsCounted (held p.active) p

-- Between two pools, epochs do not fall and a settled future keeps its value.
pub record Follows (p q : Pool) : Type 0 where
  pub epochs : p.resolution_epoch ≤ q.resolution_epoch
  pub settled : KeepsSettled p q

pub Follows-refl : (p : Pool) → Follows p p
Follows-refl p = record { epochs = omega arith; settled = λ t h. refl }

pub Follows-trans : {p q r : Pool} → Follows p q → Follows q r → Follows p r
Follows-trans m n = record {
  epochs = let x = m.epochs in let y = n.epochs in omega arith;
  settled = λ t h. let same = m.settled t h in n.settled t (rw same h) ∙ same;
}

Advances-IsCounted : (n : ℕ) {p q : Pool} → Advances p q → IsCounted n p → IsCounted n q
Advances-IsCounted n {p} {q} m c = record {
  authority = m.authority c.authority;
  counted = let e = c.counted in let (x, _) = m.counts (omega arith) in omega arith;
  within = λ limited.
      let same = m.queue_max in
      let short = m.shorter in let le = c.within (omega arith) in omega arith;
}

Advances-Follows : {p q : Pool} → Advances p q → Follows p q
Advances-Follows m = record { epochs = m.epochs; settled = m.settled }

-- A step from a sound pool.
abbrev pub Goes : Pool → Pool → Type 0
Goes p q = IsSound q × Follows p q

pub advance : (p q : Pool) → Advances p q → IsSound p → Goes p q
advance p q m c = (
  subst (λ a. IsCounted (held a) q) (sym m.active) (Advances-IsCounted (held p.active) m c),
  Advances-Follows m,
)

end-Goes :
    (now : ℕ) (p q : Pool)
    → Advances p q
    → q.active ≡ none
    → IsCounted 1 p
    → Goes p (end_round now q)
end-Goes now p q m idle c =
    let c' = Advances-IsCounted 1 m c in
    (
      record {
        authority =
            SameModel-HasOneAuthority q (end_round now q)
              (record {
                worker = refl;
                current_mode = refl;
                active_snapshot = refl;
                resolution_epoch = refl;
              })
              c'.authority;
        counted = let e = c'.counted in rw idle (omega arith);
        within = c'.within;
      },
      record { epochs = m.epochs; settled = m.settled },
    )

hand-Goes :
    (job : Job) (p q : Pool)
    → Advances p q
    → IsCounted 1 p
    → Goes p (record q { active = some job })
hand-Goes job p q m c =
    let c' = Advances-IsCounted 1 m c in
    (
      record {
        authority =
            SameModel-HasOneAuthority q _
              (record {
                worker = refl;
                current_mode = refl;
                active_snapshot = refl;
                resolution_epoch = refl;
              })
              c'.authority;
        counted = c'.counted;
        within = c'.within;
      },
      record { epochs = m.epochs; settled = m.settled },
    )

Rounds-Goes :
    (w : World) (job : Job) (p : Pool) {r : Pool}
    → p.active ≡ none
    → Rounds w job p r
    → IsCounted 1 p
    → Goes p r
Rounds-Goes w job p idle (ended q m) c = end-Goes w.now p q m (m.active ∙ idle) c
Rounds-Goes w job p idle (handed q m) c = hand-Goes job p q m c

-- The pool whose next job was taken from the queue.
take-IsCounted :
    (p : Pool) (job : Job) (rest : List Job)
    → p.queue ≡ job ∷ rest
    → IsCounted 0 p
    → IsCounted 1 (record p { queue = rest })
take-IsCounted p job rest h c = record {
  authority =
      SameModel-HasOneAuthority p _
        (record {
          worker = refl;
          current_mode = refl;
          active_snapshot = refl;
          resolution_epoch = refl;
        })
        c.authority;
  counted = let e = c.counted in let n = ap length h in omega arith;
  within = λ limited. let le = c.within limited in let n = ap length h in omega arith;
}

untake : (p : Pool) (queue' : List Job) {r : Pool} → Goes (record p { queue = queue' }) r → Goes p r
untake p queue' (c, f) = (c, record { epochs = f.epochs; settled = f.settled })

pub begin-Goes : (w : World) (p : Pool) → IsSound p → Goes p (begin w p)
unfolding begin
begin-Goes w p c = go p.active p.queue refl refl
  where
    same : {q r : Pool} → Goes p r → q ≡ r → Goes p q
    same g e = subst (Goes p) (sym e) g

    go :
        (active : Option Job) (queue : List Job)
        → p.active ≡ active
        → p.queue ≡ queue
        → Goes p (begin w p)
    go (some job) queue busy h = same (c, Follows-refl p) (ground arith)
    go none [] idle h = same (c, Follows-refl p) (ground arith)
    go none (job ∷ rest) idle h =
        same
          (untake p rest (
            Rounds-Goes w job (record p { queue = rest }) idle
              (begin_job-Rounds w job (record p { queue = rest }))
              (take-IsCounted p job rest h (subst (λ a. IsCounted (held a) p) idle c))))
          (ground arith)

-- The pool whose active job is taken back.
release-IsCounted : (p : Pool) → IsCounted 1 p → IsCounted 1 (record p { active = none })
release-IsCounted p c = record {
  authority =
      SameModel-HasOneAuthority p _
        (record {
          worker = refl;
          current_mode = refl;
          active_snapshot = refl;
          resolution_epoch = refl;
        })
        c.authority;
  counted = c.counted;
  within = c.within;
}

pub finish-Goes :
    (now : ℕ) (outcome : Option Error) (p : Pool) → IsSound p → Goes p (finish now outcome p)
unfolding finish
finish-Goes now outcome p c = go p.active outcome refl
  where
    same : {q r : Pool} → Goes p r → q ≡ r → Goes p q
    same g e = subst (Goes p) (sym e) g

    p' : Pool
    p' = record p { active = none }

    over : (job : Job) → p.active ≡ some job → {q : Pool} → Advances p' q → Goes p (end_round now q)
    over job busy {q} m =
        let (sound, f) =
          end-Goes now p' q m m.active
            (release-IsCounted p (subst (λ a. IsCounted (held a) p) busy c)) in
        (sound, record { epochs = f.epochs; settled = f.settled })

    go :
        (active : Option Job) (outcome : Option Error)
        → p.active ≡ active
        → Goes p (finish now outcome p)
    go none outcome idle = same (c, Follows-refl p) (ground arith)
    go (some job) none busy = same (over job busy (return_job-Advances job p')) (ground arith)
    go (some job) (some e) busy = same (over job busy (fail_job-Advances job e p')) (ground arith)
