-- ===== src/Analysis/Tests.antt =====
-- A request from the wire to the response, and each theorem at it.
use stability_toys.Prelude.{
  ℕ, String, true, false, [], ◌∷◌, map, Option, none, some, ◌≡◌, ◌≢◌, refl, arith, same_text,
}
use stability_toys.Prelude.Dict.{Dict, lookup, insert}
use stability_toys.Prelude.Effects.{ok, raised}
use stability_toys.Analysis.Contracts.{
  DescribeTarget, DescribeTask, DescribeRequest, DescribeResponse, TaskKind, is_nil, effective_role,
  chosen, OcrParams, RunStatus, DescribeStatus, RunError, DescribeRun,
}
use stability_toys.Analysis.Json.{
  Json, text, array, object, cons, nil, member, end, get_key, require_strs,
}
use stability_toys.Analysis.Parsing.{
  parse_describe_request, parse_targets, parse_target, parse_tasks, parse_task, parse_params,
  kind_named, check_known,
}
use stability_toys.Analysis.Validation.{
  validate_describe_request, validate_targets, validate_target, validate_tasks, validate_task,
}
use stability_toys.Analysis.Orchestrator.{
  DescribeProvider, describe, expand_runs, expand_tasks, by_id, execute, dispatch, gather, part,
  collect, count_succeeded, overall,
}
use stability_toys.Analysis.Agreement.{validate-parse}
use stability_toys.Analysis.Responses.{run_place, asked, primaries, describe_answers}
use stability_toys.Analysis.Isolation.{without, describe_isolates}

abbrev one : Json ℕ → Json ℕ
one j = array (cons j nil)

abbrev payload : Json ℕ
payload = object (
    member "targets" (one (object (member "id" (text "t") (member "url" (text "u") end)))) (
      member "tasks"
        (array (
          cons
            (object (
              member "id" (text "a")
                (member "kind" (text "caption") (member "caption" (object end) end))))
            (cons
              (object (
                member "id" (text "b")
                  (member "kind" (text "ocr") (member "ocr" (object end) end))))
              nil)))
        end))

abbrev target : DescribeTarget
target = record { id = "t"; asset_ref = none; url = some "u"; role = "" }

abbrev caption_task : DescribeTask ℕ
caption_task = record {
  id = "a";
  kind = TaskKind.caption;
  target_ids = [];
  caption = some (record { prompt = none });
  detect = none;
  ocr = none;
  pose = none;
  embed = none;
}

abbrev ocr_task : DescribeTask ℕ
ocr_task = record {
  id = "b";
  kind = TaskKind.ocr;
  target_ids = [];
  caption = none;
  detect = none;
  ocr = some OcrParams.ocr_params;
  pose = none;
  embed = none;
}

abbrev request : DescribeRequest ℕ
request = record { targets = target ∷ []; tasks = caption_task ∷ ocr_task ∷ []; mode = none }

abbrev captioner : DescribeProvider ℕ ℕ ℕ ℕ
captioner = record {
  supports = λ _. ok true;
  run = λ _. ok (record { observations = 1 ∷ []; artifacts = []; raw_output = none });
}

abbrev broken : DescribeProvider ℕ ℕ ℕ ℕ
broken = record { supports = λ _. ok true; run = λ _. raised "TimeoutError: late" }

abbrev routes : Dict String
routes = ("caption", "vlm") ∷ ("ocr", "reader") ∷ []

abbrev providers : Dict (DescribeProvider ℕ ℕ ℕ ℕ)
providers = ("vlm", captioner) ∷ ("reader", broken) ∷ []

abbrev repaired : Dict (DescribeProvider ℕ ℕ ℕ ℕ)
repaired = ("vlm", captioner) ∷ ("reader", captioner) ∷ []

program : Unit {0}
unfolding lookup insert same_text get_key require_strs parse_describe_request parse_targets
    parse_target parse_tasks parse_task parse_params kind_named check_known
    validate_describe_request validate_targets validate_target validate_tasks validate_task describe
    expand_runs expand_tasks by_id execute dispatch gather part collect count_succeeded overall
    effective_role chosen
program = tt

parses : parse_describe_request (λ s. s) (λ _. false) payload ≡ ok request
unfolding program
parses = refl

validate-parse_example : validate_describe_request request ≡ ok tt
validate-parse_example = validate-parse (λ s. s) (λ _. false) payload request parses

describe_answers_example :
    (resp : DescribeResponse ℕ ℕ ℕ) × (describe routes providers request ≡ ok resp)
    × (map run_place resp.runs ≡ asked (primaries (target ∷ [])) (caption_task ∷ ocr_task ∷ []))
    × (is_nil resp.runs ≡ false)
describe_answers_example = describe_answers routes providers request validate-parse_example

abbrev run_by : String → String → RunStatus → Option RunError → DescribeRun ℕ
run_by task delegate status error = record {
  task_id = task;
  target_id = "t";
  delegate = delegate;
  status = status;
  error = error;
  raw_output = none;
}

abbrev response : DescribeResponse ℕ ℕ ℕ
response = record {
  status = DescribeStatus.partly;
  observations = 1 ∷ [];
  runs =
      run_by "a" "vlm" RunStatus.succeeded none
      ∷ run_by "b" "reader" RunStatus.failed
          (some (record { code = "analysis_run_failed"; message = "TimeoutError: late" }))
      ∷ [];
  artifacts = [];
  summary = none;
}

abbrev repaired_response : DescribeResponse ℕ ℕ ℕ
repaired_response = record {
  status = DescribeStatus.all_ok;
  observations = 1 ∷ 1 ∷ [];
  runs =
      run_by "a" "vlm" RunStatus.succeeded none ∷ run_by "b" "reader" RunStatus.succeeded none ∷ [];
  artifacts = [];
  summary = none;
}

describes_partly : describe routes providers request ≡ ok response
unfolding program
describes_partly = refl

describes_all : describe routes repaired request ≡ ok repaired_response
unfolding program
describes_all = refl

only_reader : (k : String) → k ≢ "reader" → lookup k providers ≡ lookup k repaired
unfolding lookup
only_reader k h = ground arith

describe_isolates_example :
    (resp resp' : DescribeResponse ℕ ℕ ℕ) × (describe routes providers request ≡ ok resp)
    × (describe routes repaired request ≡ ok resp')
    × (without "reader" resp.runs ≡ without "reader" resp'.runs)
describe_isolates_example =
    describe_isolates "reader" providers repaired only_reader routes request validate-parse_example
