-- ===== src/Analysis/Validation.antt =====
-- backends/analysis/contracts.py: `validate_describe_request`. The tests by isinstance hold of the types.
use stability_toys.Prelude.{
  String, Bool, true, false, not, List, [], ◌∷◌, Option, none, some, ◌==◌, ◌&&◌, ◌||◌,
}
use stability_toys.Prelude.Dict.{contains}
use stability_toys.Assets.Cleanup.{member}
use stability_toys.Prelude.Effects.{ok}
use stability_toys.Prelude.Outcome.{◌>>=◌, ◌>>◌, refuse}
use stability_toys.Analysis.Contracts.{
  invalid_request, target_binding_invalid, TaskKind, DescribeTarget, DescribeTask, DescribeRequest,
  is_empty, is_set, all_kinds, is_only, chosen, is_nil,
}
use stability_toys.Analysis.Json.{Checked}
use stability_toys.Analysis.Parsing.{Declared, none_declared, declare, agree, check_known}

abbrev pub is_present : {A : Type 0} → Option A → Bool
is_present none = false
is_present (some _) = true

-- `getattr(task, k) is not None`
abbrev pub has_block : {F : Type 0} → DescribeTask F → TaskKind → Bool
has_block t TaskKind.caption = is_present t.caption
has_block t TaskKind.detect = is_present t.detect
has_block t TaskKind.ocr = is_present t.ocr
has_block t TaskKind.pose = is_present t.pose
has_block t TaskKind.embed = is_present t.embed

-- A round of `for target in request.targets`
unfoldable pub validate_target : Declared → DescribeTarget → Checked (Unit {0})
validate_target d t = do
  refuse (is_empty t.id) invalid_request
  refuse (contains t.id d.roles) invalid_request
  refuse (agree (is_set t.asset_ref) (is_set t.url)) invalid_request

unfoldable pub validate_targets : Declared → List DescribeTarget → Checked Declared
validate_targets d [] = ok d
validate_targets d (t ∷ ts) = do validate_target d t; validate_targets (declare t d) ts

module _ {F : Type 0} where
  -- A round of `for task in request.tasks`
  unfoldable pub validate_task : Declared → List String → DescribeTask F → Checked (Unit {0})
  validate_task d seen t = do
    refuse (is_empty t.id) invalid_request
    refuse (member t.id seen) invalid_request
    refuse (not (is_only t.kind (chosen (has_block t) all_kinds))) invalid_request
    check_known d.roles t.target_ids
    refuse (is_nil t.target_ids && (d.primary_count == 0)) target_binding_invalid

  unfoldable pub validate_tasks :
      Declared → List String → List (DescribeTask F) → Checked (Unit {0})
  validate_tasks d seen [] = ok tt
  validate_tasks d seen (t ∷ ts) = do validate_task d seen t; validate_tasks d (t.id ∷ seen) ts

  -- `validate_describe_request`
  unfoldable pub validate_describe_request : DescribeRequest F → Checked (Unit {0})
  validate_describe_request request = do
    refuse (is_nil request.targets || is_nil request.tasks) invalid_request
    declared ← validate_targets none_declared request.targets
    validate_tasks declared [] request.tasks
