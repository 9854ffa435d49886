-- ===== src/Analysis/Responses.antt =====
-- backends/analysis/orchestrator.py: what `describe` answers a valid request with.
use mathlib.Core.Path.{ap₂}
use stability_toys.Prelude.{
  String, false, List, [], ◌∷◌, ◌++◌, map, none, ◌≡◌, refl, arith, ite, same_text, ◌∙◌, ap, ◌||◌,
  length, inl, inr, ◌≢◌,
}
use stability_toys.Prelude.Dict.{Dict, lookup}
use stability_toys.Prelude.Effects.{ok, raised}
use stability_toys.Prelude.Outcome.{returned, passed, Result-cases}
use stability_toys.Analysis.Contracts.{
  effective_role, invalid_request, DescribeTarget, DescribeTask, DescribeRequest, DescribeRun,
  DescribeResponse, is_nil,
}
use stability_toys.Analysis.Parsing.{Declared, none_declared, or_blank}
use stability_toys.Analysis.Validation.{
  validate_targets, validate_tasks, validate_task, validate_describe_request,
}
use stability_toys.Analysis.Orchestrator.{
  RunPlan, DescribeProvider, DescribeError, RunOutcome, primary_ids, plan_of, bound_ids,
  expand_tasks, expand_runs, by_id, execute, dispatch, gather, part, collect, count_succeeded,
  overall, describe,
}
use stability_toys.Analysis.Bindings.{
  IsBound, AllBound, roles_known, primary_counted, primary-AllKnown, by_id-AllKnown,
  expand-AllBound,
}

-- The task and the target of a run.
abbrev pub run_place : {Raw : Type 0} → DescribeRun Raw → String × String
run_place r = (r.task_id, r.target_id)

abbrev pub plan_place : RunPlan → String × String
plan_place p = (p.task_id, p.target_id)

-- The primary targets: those whose role is `primary`, or empty.
abbrev pub primaries : List DescribeTarget → List String
primaries [] = []
primaries (t ∷ ts) =
    ite (same_text t.role "") (t.id ∷ primaries ts)
      (ite (same_text t.role "primary") (t.id ∷ primaries ts) (primaries ts))

-- The targets of a task: all that it names, or the primary ones if it names none.
abbrev pub targets_of : List String → List String → List String
targets_of primary [] = primary
targets_of primary (id ∷ ids) = id ∷ ids

-- The runs that a request asks for: every task with each of its targets.
abbrev pub asked : {F : Type 0} → List String → List (DescribeTask F) → List (String × String)
asked primary [] = []
asked primary (t ∷ ts) =
    map (λ id. (t.id, id)) (targets_of primary t.target_ids) ++ asked primary ts

primary_ids-primaries : (ts : List DescribeTarget) → primary_ids ts ≡ primaries ts
unfolding effective_role
primary_ids-primaries [] = refl
primary_ids-primaries (t ∷ ts) = ground (arith, primary_ids-primaries ts)

bound_targets :
    {F : Type 0} (primary : List String) (t : DescribeTask F)
    → bound_ids primary t ≡ targets_of primary t.target_ids
bound_targets primary t = ground arith

map-append : {A B : Type 0} (f : A → B) (xs ys : List A) → map f (xs ++ ys) ≡ map f xs ++ map f ys
map-append f [] ys = refl
map-append f (x ∷ xs) ys = ap (λ zs. f x ∷ zs) (map-append f xs ys)

module _ {F : Type 0} (routes : Dict String) where
  planned : (t : DescribeTask F) (id : String) → plan_place (plan_of routes t id) ≡ (t.id, id)
  planned t id = ground arith

  plans_asked :
      (t : DescribeTask F) (ids : List String)
      → map plan_place (map (plan_of routes t) ids) ≡ map (λ id. (t.id, id)) ids
  plans_asked t [] = refl
  plans_asked t (id ∷ ids) =
      ap (λ x. x ∷ map plan_place (map (plan_of routes t) ids)) (planned t id)
      ∙ ap (λ xs. (t.id, id) ∷ xs) (plans_asked t ids)

  expand-asked :
      (primary : List String) (ts : List (DescribeTask F))
      → map plan_place (expand_tasks primary routes ts) ≡ asked primary ts
  unfolding expand_tasks
  expand-asked primary [] = refl
  expand-asked primary (t ∷ ts) =
      map-append plan_place (map (plan_of routes t) (bound_ids primary t))
        (expand_tasks primary routes ts)
      ∙ ap (λ xs. xs ++ map plan_place (expand_tasks primary routes ts))
          (plans_asked t (bound_ids primary t))
      ∙ ap₂ (λ ids xs. map (λ id. (t.id, id)) ids ++ xs) (bound_targets primary t)
          (expand-asked primary ts)

-- A task is bound to a target, so that something is asked.
asks_some :
    {F : Type 0} (d : Declared) (primary seen : List String) (ts : List (DescribeTask F))
    → d.primary_count ≡ length primary
    → is_nil ts ≡ false
    → validate_tasks d seen ts ≡ ok tt
    → is_nil (asked primary ts) ≡ false
unfolding validate_tasks validate_task
asks_some d [] seen [] c n h = cc
asks_some d (p ∷ ps) seen [] c n h = cc
asks_some d [] seen (t ∷ ts) c n h = ground arith
asks_some d (p ∷ ps) seen (t ∷ ts) c n h = ground arith

module _ {F Obs Art Raw : Type 0} (providers : Dict (DescribeProvider F Obs Art Raw))
    (tasks : Dict (DescribeTask F)) (targets : Dict DescribeTarget) where
  -- What a plan comes to: the outcome, and its part of the response.
  abbrev Executes : RunPlan → Type 0
  Executes plan =
      (o : RunOutcome Obs Art Raw) × (execute providers tasks targets plan ≡ ok o)
      × (obs : List Obs) × (arts : List Art) × (run : DescribeRun Raw) × (part o
          ≡ ok (obs, arts, run))
      × (run_place run ≡ plan_place plan)
      × (run.delegate ≡ or_blank plan.delegate)

  never_misses :
      (plan : RunPlan) (e : DescribeError)
      → IsBound tasks targets plan
      → execute providers tasks targets plan ≢ raised e
  unfolding execute dispatch
  never_misses plan e (h, k) m = ground arith

  pub keeps_plan :
      (plan : RunPlan) (o : RunOutcome Obs Art Raw)
      → execute providers tasks targets plan ≡ ok o
      → o.plan ≡ plan
  unfolding execute dispatch
  keeps_plan plan o m = ground arith

  never_asserts :
      (plan : RunPlan) (o : RunOutcome Obs Art Raw) (e : DescribeError)
      → execute providers tasks targets plan ≡ ok o
      → part o ≢ raised e
  unfolding execute dispatch part
  never_asserts plan o e m h = ground arith

  pub part_place :
      (o : RunOutcome Obs Art Raw) (obs : List Obs) (arts : List Art) (run : DescribeRun Raw)
      → part o ≡ ok (obs, arts, run)
      → (run_place run ≡ plan_place o.plan) × (run.delegate ≡ or_blank o.plan.delegate)
  unfolding part
  part_place o obs arts run h = ground arith

  execute_bound : (plan : RunPlan) → IsBound tasks targets plan → Executes plan
  execute_bound plan b = elim (Result-cases (execute providers tasks targets plan)) [
    | inl (e, m) ↦ absurd (never_misses plan e b m)
    | inr (o, m) ↦ elim (Result-cases (part o)) [
      | inl (e, h) ↦ absurd (never_asserts plan o e m h)
      | inr ((obs, arts, run), h) ↦
          let same = keeps_plan plan o m in
          let (there, by) = part_place o obs arts run h in
          (
            o,
            m,
            obs,
            arts,
            run,
            h,
            there ∙ ap plan_place same,
            by ∙ ap (λ p. or_blank p.delegate) same,
          )
    ]
  ]

  -- The runs of a response, one for each plan.
  abbrev Collected : List RunPlan → Type 0
  Collected plans =
      (os : List (RunOutcome Obs Art Raw)) × (gather (execute providers tasks targets) plans
        ≡ ok os)
      × (obs : List Obs) × (arts : List Art) × (runs : List (DescribeRun Raw)) × (collect os
          ≡ ok (obs, arts, runs))
      × (map run_place runs ≡ map plan_place plans)

  collect-Collected : (plans : List RunPlan) → AllBound tasks targets plans → Collected plans
  unfolding gather collect
  collect-Collected [] b = ([], refl, [], [], [], refl, refl)
  collect-Collected (p ∷ ps) (b, bs) =
      let (o, m, obs, arts, run, h, there, _) = execute_bound p b in
      let (os, ms, obs', arts', runs, hs, places) = collect-Collected ps bs in
      (
        o ∷ os,
        rw (m, ms),
        obs ++ obs',
        arts ++ arts',
        run ∷ runs,
        rw (h, hs),
        ap (λ x. x ∷ map run_place runs) there ∙ ap (λ xs. plan_place p ∷ xs) places,
      )

module _ {F Obs Art Raw : Type 0} (routes : Dict String)
    (providers : Dict (DescribeProvider F Obs Art Raw)) where
  describes :
      (r : DescribeRequest F) (os : List (RunOutcome Obs Art Raw)) (obs : List Obs)
      (arts : List Art) (runs : List (DescribeRun Raw))
      → validate_describe_request r ≡ ok tt
      → gather
          (execute providers (by_id (λ t. t.id) [] r.tasks) (by_id (λ t. t.id) [] r.targets))
          (expand_tasks (primary_ids r.targets) routes r.tasks)
        ≡ ok os
      → collect os ≡ ok (obs, arts, runs)
      → describe routes providers r
        ≡ ok (record {
          status = overall (count_succeeded runs) (length runs);
          observations = obs;
          runs = runs;
          artifacts = arts;
          summary = none;
        })
  unfolding describe expand_runs
  describes r os obs arts runs valid ran kept = rw (valid, ran, kept)

  -- A valid request is always answered, whatever the routes and the providers do. The response has one
  -- run for each task with each target that the task names, or with each primary target if it names none,
  -- in the order of the tasks, and at least one run.
  pub describe_answers :
      (r : DescribeRequest F)
      → validate_describe_request r ≡ ok tt
      → (resp : DescribeResponse Obs Art Raw) × (describe routes providers r ≡ ok resp)
        × (map run_place resp.runs ≡ asked (primaries r.targets) r.tasks)
        × (is_nil resp.runs ≡ false)
  unfolding validate_describe_request describe expand_runs lookup
  describe_answers r valid =
      let (some_left, h1) = passed (is_nil r.targets || is_nil r.tasks) invalid_request _ valid in
      let (d, targets_ok, tasks_ok) = returned (validate_targets none_declared r.targets) _ h1 in
      let known = by_id-AllKnown (λ t. t.id) [] r.targets in
      let bound =
        expand-AllBound (by_id (λ t. t.id) [] r.tasks) (by_id (λ t. t.id) [] r.targets) routes d
          (primary_ids r.targets) (roles_known none_declared d r.targets [] (λ k h. h) targets_ok)
          (primary-AllKnown (by_id (λ t. t.id) [] r.targets) r.targets known) [] r.tasks tasks_ok
          (by_id-AllKnown (λ t. t.id) [] r.tasks) in
      let (os, ran, obs, arts, runs, kept, places) =
        collect-Collected providers (by_id (λ t. t.id) [] r.tasks) (by_id (λ t. t.id) [] r.targets)
          (expand_tasks (primary_ids r.targets) routes r.tasks) bound in
      let asking = places ∙ expand-asked routes (primary_ids r.targets) r.tasks in
      let some_asked =
        asks_some d (primary_ids r.targets) [] r.tasks
          (omega (arith, primary_counted none_declared d r.targets targets_ok))
          (ground (arith, some_left)) tasks_ok in
      (
        record {
          status = overall (count_succeeded runs) (length runs);
          observations = obs;
          runs = runs;
          artifacts = arts;
          summary = none;
        },
        describes r os obs arts runs valid ran kept,
        asking ∙ ap (λ ids. asked ids r.tasks) (primary_ids-primaries r.targets),
        nonempty runs _ asking some_asked,
      )
    where
      nonempty :
          (runs : List (DescribeRun Raw)) (ps : List (String × String))
          → map run_place runs ≡ ps
          → is_nil ps ≡ false
          → is_nil runs ≡ false
      nonempty [] ps e h = ground arith
      nonempty (x ∷ xs) ps e h = refl
