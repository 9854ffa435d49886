-- ===== src/Analysis/Orchestrator.antt =====
-- backends/analysis/orchestrator.py: the runs of a request, and the response that is made of them. A
-- provider answers a run by a function; an exception of it is the text `type: message` of the source.
use stability_toys.Prelude.{
  ℕ, ◌+◌, String, Bool, true, false, List, [], ◌∷◌, ◌++◌, map, Option, none, some, ◌==◌,
  if◌then◌else◌, length, ltb,
}
use stability_toys.Prelude.Dict.{Dict, lookup, insert}
use stability_toys.Prelude.Effects.{Result, ok, raised}
use stability_toys.Prelude.Outcome.{◌>>=◌, ◌>>◌}
use stability_toys.Analysis.Contracts.{
  AnalysisError, RunStatus, succeeded, failed, skipped, DescribeStatus, all_ok, partly, all_failed,
  DescribeTarget, DescribeTask, DescribeRequest, DescribeRun, DescribeResponse, RunError,
  effective_role, is_primary, param_key, is_nil,
}
use stability_toys.Analysis.Parsing.{or_blank}
use stability_toys.Analysis.Validation.{validate_describe_request}

pub record RunPlan : Type 0 where
  pub task_id : String
  pub target_id : String
  pub delegate : Option String
  pub skip_error : Option RunError

-- backends/analysis/providers.py
pub record ProviderRun (F : Type 0) : Type 0 where
  pub plan : RunPlan
  pub task : DescribeTask F
  pub target : DescribeTarget

pub record ProviderResult (Obs Art Raw : Type 0) : Type 0 where
  pub observations : List Obs
  pub artifacts : List Art
  pub raw_output : Option Raw

-- A provider, as its protocol types it: a run gives a result or raises an `Exception`. One that gives
-- `None`, or whose task is cancelled, is left out.
pub record DescribeProvider (F Obs Art Raw : Type 0) : Type 0 where
  pub supports : DescribeTask F → Result String Bool
  pub run : ProviderRun F → Result String (ProviderResult Obs Art Raw)

pub data DescribeError : Type 0 where
  not_valid : AnalysisError → DescribeError
  key_error assertion_error : DescribeError

-- What `execute` returns.
pub record RunOutcome (Obs Art Raw : Type 0) : Type 0 where
  pub plan : RunPlan
  pub result : Option (ProviderResult Obs Art Raw)
  pub error : Option RunError
  pub status : RunStatus

abbrev pub primary_ids : List DescribeTarget → List String
primary_ids [] = []
primary_ids (t ∷ ts) =
    if is_primary (effective_role t) then t.id ∷ primary_ids ts else primary_ids ts

abbrev pub run_error : String → String → RunError
run_error code message = record { code = code; message = message }

-- `{t.id: t for t in ...}`
unfoldable pub by_id : {T : Type 0} → (T → String) → Dict T → List T → Dict T
by_id id d [] = d
by_id id d (t ∷ ts) = by_id id (insert (id t) t d) ts

-- `d[key]`
abbrev pub item : {V : Type 0} → String → Dict V → Result DescribeError V
item key d = elim (lookup key d) [ none ↦ raised key_error | some v ↦ ok v ]

abbrev pub at_boundary : {A : Type 0} → Result AnalysisError A → Result DescribeError A
at_boundary (ok a) = ok a
at_boundary (raised e) = raised (not_valid e)

-- A run that was not made, or that failed.
abbrev pub unrun : {Obs Art Raw : Type 0} → RunPlan → RunStatus → RunError → RunOutcome Obs Art Raw
unrun plan status error = record { plan = plan; result = none; error = some error; status = status }

module _ {F : Type 0} where
  -- A round of the inner loop of `expand_runs`
  abbrev pub plan_of : Dict String → DescribeTask F → String → RunPlan
  plan_of routes task target_id = elim (lookup (param_key task.kind) routes) [
    | none ↦ record {
      task_id = task.id;
      target_id = target_id;
      delegate = none;
      skip_error = some (run_error "analysis_no_supported_delegate" (param_key task.kind));
    }
    | some delegate ↦ record {
      task_id = task.id;
      target_id = target_id;
      delegate = some delegate;
      skip_error = none;
    }
  ]

  abbrev pub bound_ids : List String → DescribeTask F → List String
  bound_ids primary task = if is_nil task.target_ids then primary else task.target_ids

  unfoldable pub expand_tasks : List String → Dict String → List (DescribeTask F) → List RunPlan
  expand_tasks primary routes [] = []
  expand_tasks primary routes (t ∷ ts) =
      map (plan_of routes t) (bound_ids primary t) ++ expand_tasks primary routes ts

  -- `expand_runs`
  unfoldable pub expand_runs : DescribeRequest F → Dict String → List RunPlan
  expand_runs request routes = expand_tasks (primary_ids request.targets) routes request.tasks

  -- `execute`, with the provider that the delegate names
  unfoldable pub dispatch :
      {Obs Art Raw : Type 0}
      → DescribeProvider F Obs Art Raw
      → String
      → RunPlan
      → Dict (DescribeTask F)
      → Dict DescribeTarget
      → Result DescribeError (RunOutcome Obs Art Raw)
  dispatch provider name plan tasks targets = do
    task ← item plan.task_id tasks
    elim (provider.supports task) [
      | raised exc ↦ ok (unrun plan failed (run_error "analysis_run_failed" exc))
      | ok false ↦ ok (unrun plan skipped (run_error "analysis_no_supported_delegate" name))
      | ok true ↦ do
        target ← item plan.target_id targets
        ok (elim (provider.run (record { plan = plan; task = task; target = target })) [
          | ok result ↦ record {
            plan = plan;
            result = some result;
            error = none;
            status = succeeded;
          }
          | raised exc ↦ unrun plan failed (run_error "analysis_run_failed" exc)
        ])
    ]

  -- `execute`
  unfoldable pub execute :
      {Obs Art Raw : Type 0}
      → Dict (DescribeProvider F Obs Art Raw)
      → Dict (DescribeTask F)
      → Dict DescribeTarget
      → RunPlan
      → Result DescribeError (RunOutcome Obs Art Raw)
  execute providers tasks targets plan = elim plan.delegate [
    | none ↦ ok (record { plan = plan; result = none; error = plan.skip_error; status = skipped })
    | some name ↦ elim (lookup name providers) [
      | none ↦ ok (unrun plan failed (run_error "analysis_delegate_not_found" name))
      | some provider ↦ dispatch provider name plan tasks targets
    ]
  ]

-- `asyncio.gather`: the outcomes in the order of the plans
unfoldable pub gather :
    {A B : Type 0} → (A → Result DescribeError B) → List A → Result DescribeError (List B)
gather f [] = ok []
gather f (a ∷ rest) = do b ← f a; bs ← gather f rest; ok (b ∷ bs)

module _ {Obs Art Raw : Type 0} where
  abbrev pub run_of : RunOutcome Obs Art Raw → Option Raw → Option RunError → DescribeRun Raw
  run_of o raw error = record {
    task_id = o.plan.task_id;
    target_id = o.plan.target_id;
    delegate = or_blank o.plan.delegate;
    status = o.status;
    error = error;
    raw_output = raw;
  }

  -- A round of `for plan, result, error, status in outcomes`
  unfoldable pub part :
      RunOutcome Obs Art Raw → Result DescribeError (List Obs × List Art × DescribeRun Raw)
  part o = elim o.status [
    | succeeded ↦ elim o.result [
      | none ↦ raised assertion_error
      | some r ↦ ok (r.observations, r.artifacts, run_of o r.raw_output none)
    ]
    | _ ↦ ok ([], [], run_of o none o.error)
  ]

  unfoldable pub collect :
      List (RunOutcome Obs Art Raw)
      → Result DescribeError (List Obs × List Art × List (DescribeRun Raw))
  collect [] = ok ([], [], [])
  collect (o ∷ more) = do
    (observed, made, run) ← part o
    (observations, artifacts, runs) ← collect more
    ok (observed ++ observations, made ++ artifacts, run ∷ runs)

abbrev pub is_succeeded : RunStatus → Bool
is_succeeded succeeded = true
is_succeeded _ = false

-- `sum(1 for r in runs if r.status == RunStatus.SUCCEEDED)`
unfoldable pub count_succeeded : {Raw : Type 0} → List (DescribeRun Raw) → ℕ
count_succeeded [] = 0
count_succeeded (r ∷ rs) =
    let rest = count_succeeded rs in if is_succeeded r.status then 1 + rest else rest

unfoldable pub overall : ℕ → ℕ → DescribeStatus
overall n runs = if n == runs then all_ok else if ltb 0 n then partly else all_failed

-- `describe`
unfoldable pub describe :
    {F Obs Art Raw : Type 0}
    → Dict String
    → Dict (DescribeProvider F Obs Art Raw)
    → DescribeRequest F
    → Result DescribeError (DescribeResponse Obs Art Raw)
describe routes providers request = do
  at_boundary (validate_describe_request request)
  outcomes ←
      gather
        (execute providers (by_id (λ t. t.id) [] request.tasks)
          (by_id (λ t. t.id) [] request.targets))
        (expand_runs request routes)
  (observations, artifacts, runs) ← collect outcomes
  ok (record {
    status = overall (count_succeeded runs) (length runs);
    observations = observations;
    runs = runs;
    artifacts = artifacts;
    summary = none;
  })
