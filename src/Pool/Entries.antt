-- ===== src/Pool/Entries.antt =====
-- backends/worker_pool.py: `submit_job` on a sound pool.
use stability_toys.Prelude.{
  ◌+◌, ◌≡◌, refl, sym, true, false, List, [], ◌∷◌, ◌++◌, arith, length, Bool-cases, inl, inr, ◌⊎◌,
  subst,
}
use stability_toys.Prelude.Dict.{Dict, erase}
use stability_toys.Pool.Model.{
  Job, JobRecord, Work, generation, mode_switch, evict_if_idle, custom, Pool,
}
use stability_toys.Pool.Jobs.{submit_job, register_job, is_full, enqueue}
use stability_toys.Pool.Advances.{jobs-Advances, SameModel-HasOneAuthority}
use stability_toys.Pool.Sound.{IsSound, Follows-trans, Goes, advance}

length-snoc : {A : Type 0} (xs : List A) (x : A) → length (xs ++ x ∷ []) ≡ length xs + 1
length-snoc [] x = refl
length-snoc (y ∷ xs) x = let e = length-snoc xs x in ground arith

records-Goes :
    (p : Pool) (records' : Dict JobRecord) → IsSound p → Goes p (record p { records = records' })
records-Goes p records' c = advance p _ (jobs-Advances p records' p.futures (λ t h. refl)) c

-- A job is let in where the queue is not full.
pub enqueue-Goes : (job : Job) (p : Pool) → is_full p ≡ false → IsSound p → Goes p (enqueue job p)
enqueue-Goes job p room c = (
  record {
    authority =
        SameModel-HasOneAuthority p _
          (record {
            worker = refl;
            current_mode = refl;
            active_snapshot = refl;
            resolution_epoch = refl;
          })
          c.authority;
    counted = let e = c.counted in let n = length-snoc p.queue job in omega arith;
    within = λ limited. let n = length-snoc p.queue job in ground (arith, room);
  },
  record { epochs = omega arith; settled = λ t h. refl },
)

pub Goes-trans : (p q r : Pool) → Goes p q → Goes q r → Goes p r
Goes-trans p q r (_, f) (c, g) = (c, Follows-trans f g)

pub submit_job-Goes : (job : Job) (p : Pool) → IsSound p → Goes p (submit_job job p).1
unfolding submit_job register_job
submit_job-Goes job p c = go job.work refl (Bool-cases (is_full p))
  where
    same : {q r : Pool} → Goes p r → q ≡ r → Goes p q
    same g e = subst (Goes p) (sym e) g

    registered : Dict JobRecord
    registered = (register_job job p).records

    entered :
        (records' : Dict JobRecord)
        → is_full p ≡ false
        → Goes p (enqueue job (record p { records = records' }))
    entered records' room =
        let p' : Pool = record p { records = records' } in
        let (c', f) = records-Goes p records' c in
        Goes-trans p p' (enqueue job p') (c', f) (enqueue-Goes job p' room c')

    go :
        (work : Work)
        → job.work ≡ work
        → (is_full p ≡ true) ⊎ (is_full p ≡ false)
        → Goes p (submit_job job p).1
    go (generation id epoch) h (inl full) =
        same (records-Goes p (erase id registered) c) (ground arith)
    go (generation id epoch) h (inr room) = same (entered registered room) (ground arith)
    go (mode_switch target force) h (inl full) = same (records-Goes p p.records c) (ground arith)
    go (mode_switch target force) h (inr room) = same (entered p.records room) (ground arith)
    go evict_if_idle h (inl full) = same (records-Goes p p.records c) (ground arith)
    go evict_if_idle h (inr room) = same (entered p.records room) (ground arith)
    go custom h (inl full) = same (records-Goes p p.records c) (ground arith)
    go custom h (inr room) = same (entered p.records room) (ground arith)
