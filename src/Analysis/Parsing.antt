-- ===== src/Analysis/Parsing.antt =====
-- backends/analysis/contracts.py: `parse_describe_request`. `strip` is that of str, and `is_zero` tells
-- which floats are falsy.
use stability_toys.Prelude.{
  ℕ, ◌+◌, String, Bool, true, false, not, List, [], ◌∷◌, Option, none, some, ◌==◌, if◌then◌else◌,
  ◌&&◌, ◌||◌, ite, same_text,
}
use stability_toys.Prelude.Dict.{Dict, insert, contains}
use stability_toys.Assets.Cleanup.{member}
use stability_toys.Prelude.Effects.{ok, raised}
use stability_toys.Prelude.Outcome.{◌>>=◌, ◌>>◌, refuse}
use stability_toys.Analysis.Contracts.{
  invalid_request, target_binding_invalid, TaskKind, DescribeTarget, DescribeTask, DescribeRequest,
  CaptionParams, DetectParams, OcrParams, PoseParams, EmbedParams, Number, is_empty, is_set,
  effective_role, is_primary, param_key, all_kinds, is_only, chosen, is_nil,
}
use stability_toys.Analysis.Json.{
  Json, Members, Checked, null, text, get_key, is_null, as_object, as_list, require_strs,
  optional_str, or_no_items,
}

-- `s or ""`
abbrev pub or_blank : Option String → String
or_blank none = ""
or_blank (some s) = s

abbrev pub agree : Bool → Bool → Bool
agree true b = b
agree false b = not b

-- The roles by target, and the number of primary targets.
pub record Declared : Type 0 where
  pub roles : Dict String
  pub primary_count : ℕ

abbrev pub none_declared : Declared
none_declared = record { roles = []; primary_count = 0 }

abbrev pub declare : DescribeTarget → Declared → Declared
declare t d =
    let role = effective_role t in
    record {
      roles = insert t.id role d.roles;
      primary_count = if is_primary role then d.primary_count + 1 else d.primary_count;
    }

-- The block of a task, by its kind.
pub data Params (F : Type 0) : Type 0 where
  caption_block : CaptionParams → Params F
  detect_block : DetectParams F → Params F
  ocr_block : OcrParams → Params F
  pose_block : PoseParams → Params F
  embed_block : EmbedParams → Params F

-- `TaskKind(s)`
unfoldable pub kind_named : String → List TaskKind → Checked TaskKind
kind_named s [] = raised invalid_request
kind_named s (k ∷ ks) = ite (same_text (param_key k) s) (ok k) (kind_named s ks)

-- `for tid in target_ids`
unfoldable pub check_known : Dict String → List String → Checked (Unit {0})
check_known roles [] = ok tt
check_known roles (id ∷ ids) =
    refuse (not (contains id roles)) target_binding_invalid >> check_known roles ids

module _ {F : Type 0} where
  abbrev pub blank_task : String → TaskKind → List String → DescribeTask F
  blank_task id kind target_ids = record {
    id = id;
    kind = kind;
    target_ids = target_ids;
    caption = none;
    detect = none;
    ocr = none;
    pose = none;
    embed = none;
  }

  abbrev pub with_params : Params F → DescribeTask F → DescribeTask F
  with_params (caption_block p) t = record t { caption = some p }
  with_params (detect_block p) t = record t { detect = some p }
  with_params (ocr_block p) t = record t { ocr = some p }
  with_params (pose_block p) t = record t { pose = some p }
  with_params (embed_block p) t = record t { embed = some p }

  abbrev pub parse_kind : Json F → Checked TaskKind
  parse_kind (text s) = kind_named s all_kinds
  parse_kind _ = raised invalid_request

  abbrev pub number_of : Json F → Checked (Option (Number F))
  number_of null = ok none
  number_of (Json.number x) = ok (some (Number.float x))
  number_of (Json.boolean b) = ok (some (Number.flag b))
  number_of _ = raised invalid_request

  abbrev pub ids_of : Json F → Checked (List String)
  ids_of null = ok []
  ids_of j = as_list j >>= require_strs

  -- `_parse_params`
  unfoldable pub parse_params : TaskKind → Json F → Checked (Params F)
  parse_params kind raw = as_object raw >>= block kind
    where
      block : TaskKind → Members F → Checked (Params F)
      block TaskKind.caption ms = do
        prompt ← optional_str (get_key "prompt" ms)
        ok (caption_block (record { prompt = prompt }))
      block TaskKind.detect ms = do
        labels ← ids_of (get_key "labels" ms)
        confidence ← number_of (get_key "min_confidence" ms)
        ok (detect_block (record { labels = labels; min_confidence = confidence }))
      block TaskKind.ocr ms = ok (ocr_block OcrParams.ocr_params)
      block TaskKind.pose ms = ok (pose_block PoseParams.pose_params)
      block TaskKind.embed ms = ok (embed_block EmbedParams.embed_params)

module _ (strip : String → String) {F : Type 0} where
  -- A round of `for raw in raw_targets`
  unfoldable pub parse_target : Declared → Json F → Checked DescribeTarget
  parse_target d raw = do
    ms ← as_object raw
    id_text ← optional_str (get_key "id" ms)
    let id = strip (or_blank id_text)
    refuse (is_empty id) invalid_request
    refuse (contains id d.roles) invalid_request
    asset_ref ← optional_str (get_key "asset_ref" ms)
    url ← optional_str (get_key "url" ms)
    refuse (agree (is_set asset_ref) (is_set url)) invalid_request
    role ← optional_str (get_key "role" ms)
    ok (record { id = id; asset_ref = asset_ref; url = url; role = strip (or_blank role) })

  unfoldable pub parse_targets : Declared → List (Json F) → Checked (List DescribeTarget × Declared)
  parse_targets d [] = ok ([], d)
  parse_targets d (raw ∷ raws) = do
    target ← parse_target d raw
    rest ← parse_targets (declare target d) raws
    ok (target ∷ rest.0, rest.1)

  -- A round of `for raw in raw_tasks`
  unfoldable pub parse_task : Declared → List String → Json F → Checked (DescribeTask F)
  parse_task d seen raw = do
    ms ← as_object raw
    id_text ← optional_str (get_key "id" ms)
    let id = strip (or_blank id_text)
    refuse (is_empty id) invalid_request
    refuse (member id seen) invalid_request
    kind ← parse_kind (get_key "kind" ms)
    refuse (not (is_only kind (chosen (λ k. not (is_null (get_key (param_key k) ms))) all_kinds)))
        invalid_request
    target_ids ← ids_of (get_key "target_ids" ms)
    check_known d.roles target_ids
    refuse (is_nil target_ids && (d.primary_count == 0)) target_binding_invalid
    params ← parse_params kind (get_key (param_key kind) ms)
    ok (with_params params (blank_task id kind target_ids))

  unfoldable pub parse_tasks :
      Declared → List String → List (Json F) → Checked (List (DescribeTask F))
  parse_tasks d seen [] = ok []
  parse_tasks d seen (raw ∷ raws) = do
    task ← parse_task d seen raw
    rest ← parse_tasks d (task.id ∷ seen) raws
    ok (task ∷ rest)

  -- `parse_describe_request`
  unfoldable pub parse_describe_request : (F → Bool) → Json F → Checked (DescribeRequest F)
  parse_describe_request is_zero payload = do
    ms ← as_object payload
    raw_targets ← as_list (or_no_items is_zero (get_key "targets" ms))
    raw_tasks ← as_list (or_no_items is_zero (get_key "tasks" ms))
    refuse (is_nil raw_targets || is_nil raw_tasks) invalid_request
    declared ← parse_targets none_declared raw_targets
    tasks ← parse_tasks declared.1 [] raw_tasks
    mode ← optional_str (get_key "mode" ms)
    ok (record { targets = declared.0; tasks = tasks; mode = mode })
