-- ===== src/Pool/Draining.antt =====
-- backends/worker_pool.py: the worker thread empties the queue, so that `shutdown` ends.
use stability_toys.Prelude.{
  ℕ, ◌+◌, ◌≤◌, ◌≡◌, refl, sym, List, [], ◌∷◌, Option, none, some, arith, length, ap, subst,
}
use stability_toys.Pool.Model.{Job, Error, Pool, World}
use stability_toys.Pool.Loading.{unload_current_worker}
use stability_toys.Pool.Authority.{unload_worker}
use stability_toys.Pool.Loop.{begin, finish, end_round, begin_job}
use stability_toys.Pool.Advances.{Advances}
use stability_toys.Pool.Rounds.{fail_job-Advances}
use stability_toys.Pool.Ends.{Rounds, ended, handed, begin_job-Rounds, return_job-Advances}
use stability_toys.Pool.Sound.{IsSound, held, begin-Goes, finish-Goes}
use stability_toys.Pool.Lifecycle.{serve, shutdown}

-- What is left to do: the queued jobs and the active one.
abbrev pub left : Pool → ℕ
left p = length p.queue + held p.active

Rounds-shorten :
    (w : World) (job : Job) (p : Pool) {r : Pool}
    → Rounds w job p r
    → length r.queue ≤ length p.queue
Rounds-shorten w job p (ended q m) = m.shorter
Rounds-shorten w job p (handed q m) = m.shorter

begin_takes :
    (w : World) (p : Pool) (job : Job) (rest : List Job)
    → p.active ≡ none
    → p.queue ≡ job ∷ rest
    → length (begin w p).queue ≤ length rest
unfolding begin
begin_takes w p job rest idle h =
    let here : begin w p ≡ begin_job w job (record p { queue = rest }) = ground arith in
    subst (λ q. length q.queue ≤ length rest) (sym here)
      (Rounds-shorten w job (record p { queue = rest })
        (begin_job-Rounds w job (record p { queue = rest })))

begin_rests : (w : World) (p : Pool) → p.active ≡ none → p.queue ≡ [] → begin w p ≡ p
unfolding begin
begin_rests w p idle h = ground arith

begin_waits : (w : World) (p : Pool) (job : Job) → p.active ≡ some job → begin w p ≡ p
unfolding begin
begin_waits w p job busy = ground arith

finish_rests :
    (now : ℕ) (outcome : Option Error) (p : Pool) → p.active ≡ none → finish now outcome p ≡ p
unfolding finish
finish_rests now outcome p idle = ground arith

-- The end of a round frees the thread, and the queue does not grow.
finish_frees :
    (now : ℕ) (outcome : Option Error) (p : Pool)
    → ((finish now outcome p).active ≡ none)
      × (length (finish now outcome p).queue ≤ length p.queue)
unfolding finish
finish_frees now outcome p = go p.active outcome refl
  where
    over :
        (q r : Pool)
        → Advances (record p { active = none }) q
        → r ≡ end_round now q
        → (r.active ≡ none) × (length r.queue ≤ length p.queue)
    over q r m e =
        subst (λ (s : Pool). (s.active ≡ none) × (length s.queue ≤ length p.queue)) (sym e)
          (m.active, m.shorter)

    go :
        (active : Option Job) (o : Option Error)
        → p.active ≡ active
        → ((finish now o p).active ≡ none) × (length (finish now o p).queue ≤ length p.queue)
    go none o idle =
        subst (λ (s : Pool). (s.active ≡ none) × (length s.queue ≤ length p.queue))
          (sym (finish_rests now o p idle)) (idle, omega arith)
    go (some job) none busy =
        over _ (finish now none p) (return_job-Advances job (record p { active = none }))
          (ground arith)
    go (some job) (some e) busy =
        over _ (finish now (some e) p) (fail_job-Advances job e (record p { active = none }))
          (ground arith)

-- A round takes one job at least off what is left.
round_lowers :
    (w : World) (now n : ℕ) (outcome : Option Error) (p : Pool)
    → left p ≤ n + 1
    → left (finish now outcome (begin w p)) ≤ n
round_lowers w now n outcome p le =
    let (free, short) = finish_frees now outcome (begin w p) in
    go p.active p.queue refl refl free short
  where
    go :
        (active : Option Job) (queue : List Job)
        → p.active ≡ active
        → p.queue ≡ queue
        → (finish now outcome (begin w p)).active ≡ none
        → length (finish now outcome (begin w p)).queue ≤ length (begin w p).queue
        → left (finish now outcome (begin w p)) ≤ n
    go (some job) queue busy h free short =
        let same = ap (λ (q : Pool). length q.queue) (begin_waits w p job busy) in
        let one = ap held busy in let none_held = ap held free in omega arith
    go none [] idle h free short =
        let same = ap (λ (q : Pool). length q.queue) (begin_rests w p idle h) in
        let empty = ap length h in let none_held = ap held free in omega arith
    go none (job ∷ rest) idle h free short =
        let taken = begin_takes w p job rest idle h in
        let one = ap length h in let none_held = ap held free in omega arith

none_left :
    (queue : List Job) (active : Option Job)
    → length queue + held active ≤ 0
    → (queue ≡ []) × (active ≡ none)
none_left [] none le = (refl, refl)
none_left [] (some job) le = absurd (omega arith)
none_left (job ∷ rest) active le = absurd (omega arith)

shutdown_ends : (p : Pool) → p.unfinished ≡ 0 → shutdown p ≡ some (unload_current_worker p)
unfolding shutdown
shutdown_ends p h = ground arith

-- From a sound pool, rounds of the worker thread come to an end of the work: after as many rounds as
-- there are jobs in the queue and with the thread, whatever they meet and however they end, the queue is
-- empty, no job is active, and `shutdown` no longer waits and leaves no worker.
pub serve-shutdown :
    (rounds : List (World × ℕ × Option Error)) (p : Pool)
    → IsSound p
    → left p ≤ length rounds
    → let q = serve rounds p in
      (q.queue ≡ [])
      × (q.active ≡ none)
      × (shutdown q ≡ some (unload_current_worker q))
      × ((unload_current_worker q).worker ≡ none)
unfolding serve
serve-shutdown [] p c le =
    let (empty, free) = none_left p.queue p.active le in
    let count = c.counted in (empty, free, shutdown_ends p (omega arith), unload_worker p)
serve-shutdown ((w, now, outcome) ∷ rounds) p c le =
    let (c1, _) = begin-Goes w p c in
    let (c2, _) = finish-Goes now outcome (begin w p) c1 in
    serve-shutdown rounds (finish now outcome (begin w p)) c2
      (round_lowers w now (length rounds) outcome p (omega arith))
