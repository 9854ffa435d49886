-- ===== src/Analysis/Isolation.antt =====
-- backends/analysis/orchestrator.py: what a provider does stays with its own runs.
use stability_toys.Prelude.{
  String, List, [], ◌∷◌, ◌≡◌, ◌≢◌, refl, arith, ◌∙◌, ap, sym, same_text, ite, Option-cases, inl,
  inr, subst,
}
use stability_toys.Prelude.Dict.{Dict, lookup}
use stability_toys.Prelude.Effects.{Result, ok}
use stability_toys.Prelude.Outcome.{◌>>=◌, returned, ok_inj}
use stability_toys.Analysis.Contracts.{
  DescribeTarget, DescribeTask, DescribeRequest, DescribeRun, DescribeResponse,
}
use stability_toys.Analysis.Parsing.{or_blank}
use stability_toys.Analysis.Validation.{validate_describe_request}
use stability_toys.Analysis.Orchestrator.{
  RunPlan, DescribeProvider, DescribeError, RunOutcome, by_id, execute, gather, part, collect,
  describe, at_boundary, expand_runs,
}
use stability_toys.Analysis.Responses.{keeps_plan, part_place, describe_answers}

-- The runs that were not given to `name`.
abbrev pub without : {Raw : Type 0} → String → List (DescribeRun Raw) → List (DescribeRun Raw)
without name [] = []
without name (r ∷ rs) = ite (same_text r.delegate name) (without name rs) (r ∷ without name rs)

-- The runs of a list of plans.
abbrev runs_from :
    {F Obs Art Raw : Type 0}
    → Dict (DescribeTask F)
    → Dict DescribeTarget
    → Dict (DescribeProvider F Obs Art Raw)
    → List RunPlan
    → Result DescribeError (List (DescribeRun Raw))
runs_from tasks targets who plans =
    gather (execute who tasks targets) plans >>= λ os. collect os >>= λ c. ok c.2

answered :
    {F Obs Art Raw : Type 0} (routes : Dict String) (who : Dict (DescribeProvider F Obs Art Raw))
    (r : DescribeRequest F) (resp : DescribeResponse Obs Art Raw)
    → describe routes who r ≡ ok resp
    → runs_from
        (by_id (λ t. t.id) [] r.tasks)
        (by_id (λ t. t.id) [] r.targets)
        who
        (expand_runs r routes)
      ≡ ok resp.runs
unfolding describe
answered routes who r resp h =
    let (_, _, h1) = returned (at_boundary (validate_describe_request r)) _ h in
    let (os, ran, h2) = returned (gather _ (expand_runs r routes)) _ h1 in
    let (c, kept, h3) = returned (collect os) _ h2 in
    rw (ran, kept) (ap (λ (q : DescribeResponse _ _ _). ok q.runs) (ok_inj _ refl h3))

module _ {F Obs Art Raw : Type 0} (name : String)
    (providers others : Dict (DescribeProvider F Obs Art Raw))
    (alike : (k : String) → k ≢ name → lookup k providers ≡ lookup k others) where
  module _ (tasks : Dict (DescribeTask F)) (targets : Dict DescribeTarget) where
    same_outcome :
        (plan : RunPlan)
        → or_blank plan.delegate ≢ name
        → execute providers tasks targets plan ≡ execute others tasks targets plan
    unfolding execute
    same_outcome plan other = elim (Option-cases plan.delegate) [
      | inl unrouted ↦ ground arith
      | inr (k, routed) ↦
          let apart : k ≢ name = λ p. other (ap or_blank routed ∙ p) in
          let same = alike k apart in ground arith
    ]

    run_delegate :
        (plan : RunPlan) (who : Dict (DescribeProvider F Obs Art Raw)) (o : RunOutcome Obs Art Raw)
        (obs : List Obs) (arts : List Art) (run : DescribeRun Raw)
        → execute who tasks targets plan ≡ ok o
        → part o ≡ ok (obs, arts, run)
        → run.delegate ≡ or_blank plan.delegate
    run_delegate plan who o obs arts run m h =
        (part_place who tasks targets o obs arts run h).1
        ∙ ap (λ p. or_blank p.delegate) (keeps_plan who tasks targets plan o m)

    first_run :
        (who : Dict (DescribeProvider F Obs Art Raw)) (p : RunPlan) (ps : List RunPlan)
        (runs : List (DescribeRun Raw))
        → runs_from tasks targets who (p ∷ ps) ≡ ok runs
        → (o : RunOutcome Obs Art Raw) × (obs : List Obs) × (arts : List Art) × (run : DescribeRun
            Raw)
          × (rest : List (DescribeRun Raw)) × (execute who tasks targets p ≡ ok o)
          × (part o ≡ ok (obs, arts, run))
          × (runs_from tasks targets who ps ≡ ok rest)
          × (run ∷ rest ≡ runs)
    unfolding gather collect
    first_run who p ps runs h =
        let (all, h1, h2) = returned (gather (execute who tasks targets) (p ∷ ps)) _ h in
        let (o, m, h3) = returned (execute who tasks targets p) _ h1 in
        let (os, ms, h4) = returned (gather (execute who tasks targets) ps) _ h3 in
        first o m os ms
          (subst (λ xs. (collect xs >>= λ c. ok c.2) ≡ ok runs) (sym (ok_inj _ refl h4)) h2)
      where
        first :
            (o : RunOutcome Obs Art Raw)
            → execute who tasks targets p ≡ ok o
            → (os : List (RunOutcome Obs Art Raw)) → gather (execute who tasks targets) ps ≡ ok os
            → (collect (o ∷ os) >>= λ c. ok c.2) ≡ ok runs
            → (o : RunOutcome Obs Art Raw) × (obs : List Obs) × (arts : List Art)
              × (run : DescribeRun Raw) × (rest : List (DescribeRun Raw)) × (execute who tasks
                    targets p
                  ≡ ok o)
              × (part o ≡ ok (obs, arts, run))
              × (runs_from tasks targets who ps ≡ ok rest)
              × (run ∷ rest ≡ runs)
        first o m os ms h =
            let (c, h1, h2) = returned (collect (o ∷ os)) _ h in
            let ((obs, arts, run), h3, h4) = returned (part o) _ h1 in
            let ((obs', arts', rest), h5, h6) = returned (collect os) _ h4 in
            (
              o,
              obs,
              arts,
              run,
              rest,
              m,
              h3,
              rw (ms, h5),
              ap (λ c. c.2) (ok_inj _ refl h6) ∙ ok_inj _ refl h2,
            )

    same_runs :
        (plans : List RunPlan) (runs runs' : List (DescribeRun Raw))
        → runs_from tasks targets providers plans ≡ ok runs
        → runs_from tasks targets others plans ≡ ok runs'
        → without name runs ≡ without name runs'
    unfolding gather collect
    same_runs [] runs runs' h h' = ground arith
    same_runs (p ∷ ps) runs runs' h h' =
        let (o, obs, arts, run, rest, m, here, after, all) = first_run providers p ps runs h in
        let (o', obs', arts', run', rest', m', here', after', all') =
          first_run others p ps runs' h' in
        let same = same_runs ps rest rest' after after' in
        let by = run_delegate p providers o obs arts run m here in
        let by' = run_delegate p others o' obs' arts' run' m' here' in
        let first : without name (run ∷ rest) ≡ without name (run' ∷ rest') =
          elim (same_text (or_blank p.delegate) name) [
            | yes own ↦ ground (arith, by, by', own, same)
            | no other ↦
                let alike_here = same_outcome p other in
                let one : run ≡ run' = ground arith in ground arith
          ] in
        ap (without name) (sym all) ∙ first ∙ ap (without name) all'

  -- A provider, raising or not, affects only the runs that were given to it: where two tables of
  -- providers differ in one name at most, a valid request gets a response from both, in which the runs
  -- of all other delegates are the same, in the same order.
  pub describe_isolates :
      (routes : Dict String) (r : DescribeRequest F)
      → validate_describe_request r ≡ ok tt
      → (resp resp' : DescribeResponse Obs Art Raw) × (describe routes providers r ≡ ok resp)
        × (describe routes others r ≡ ok resp')
        × (without name resp.runs ≡ without name resp'.runs)
  describe_isolates routes r valid =
      let tasks = by_id (λ t. t.id) [] r.tasks in
      let targets = by_id (λ t. t.id) [] r.targets in
      let (resp, h, _, _) = describe_answers routes providers r valid in
      let (resp', h', _, _) = describe_answers routes others r valid in
      (
        resp,
        resp',
        h,
        h',
        same_runs tasks targets (expand_runs r routes) resp.runs resp'.runs
            (answered routes providers r resp h) (answered routes others r resp' h'),
      )
