-- ===== src/Analysis/Verdict.antt =====
-- backends/analysis/orchestrator.py: the status of a response, and the isolation of its runs.
use stability_toys.Prelude.{
  ◌≤◌, String, Bool, true, false, List, [], ◌∷◌, ◌≡◌, ◌≢◌, refl, arith, ◌&&◌, ◌||◌, if◌then◌else◌,
  length,
}
use stability_toys.Prelude.Dict.{Dict}
use stability_toys.Prelude.Effects.{ok}
use stability_toys.Prelude.Outcome.{returned}
use stability_toys.Analysis.Contracts.{
  DescribeStatus, all_ok, partly, all_failed, DescribeRequest, DescribeRun, DescribeResponse,
}
use stability_toys.Analysis.Validation.{validate_describe_request}
use stability_toys.Analysis.Orchestrator.{
  DescribeProvider, gather, collect, count_succeeded, is_succeeded, overall, describe, at_boundary,
  expand_runs,
}

module _ {Raw : Type 0} where
  abbrev pub all_succeeded : List (DescribeRun Raw) → Bool
  all_succeeded [] = true
  all_succeeded (r ∷ rs) = is_succeeded r.status && all_succeeded rs

  abbrev pub any_succeeded : List (DescribeRun Raw) → Bool
  any_succeeded [] = false
  any_succeeded (r ∷ rs) = is_succeeded r.status || any_succeeded rs

  -- What the status of a response tells of its runs.
  abbrev pub status_of : List (DescribeRun Raw) → DescribeStatus
  status_of rs =
      if all_succeeded rs then all_ok else if any_succeeded rs then partly else all_failed

  count-le : (rs : List (DescribeRun Raw)) → count_succeeded rs ≤ length rs
  unfolding count_succeeded
  count-le [] = omega arith
  count-le (r ∷ rs) = ground (arith, count-le rs)

  count-all :
      (rs : List (DescribeRun Raw))
      → (if all_succeeded rs
          then count_succeeded rs ≡ length rs
          else count_succeeded rs ≢ length rs)
  unfolding count_succeeded
  count-all [] = refl
  count-all (r ∷ rs) = ground (arith, count-all rs, count-le rs)

  count-any :
      (rs : List (DescribeRun Raw))
      → (if any_succeeded rs then count_succeeded rs ≢ 0 else count_succeeded rs ≡ 0)
  unfolding count_succeeded
  count-any [] = refl
  count-any (r ∷ rs) = ground (arith, count-any rs)

  overall_lem :
      (rs : List (DescribeRun Raw)) → overall (count_succeeded rs) (length rs) ≡ status_of rs
  unfolding overall
  overall_lem rs = ground (arith, count-all rs, count-any rs)

module _ {F Obs Art Raw : Type 0} (routes : Dict String)
    (providers : Dict (DescribeProvider F Obs Art Raw)) where
  -- The status of every response is `ok` where all runs succeeded, `failed` where none did, and
  -- `partial` otherwise.
  describe_status :
      (r : DescribeRequest F) (resp : DescribeResponse Obs Art Raw)
      → describe routes providers r ≡ ok resp
      → resp.status ≡ status_of resp.runs
  unfolding describe
  describe_status r resp h =
      let (_, _, h1) = returned (at_boundary (validate_describe_request r)) _ h in
      let (os, _, h2) = returned (gather _ (expand_runs r routes)) _ h1 in
      let ((obs, arts, runs), _, h3) = returned (collect os) _ h2 in
      ground (arith, h3, overall_lem runs)
