-- ===== src/Analysis/Agreement.antt =====
-- backends/analysis/contracts.py: the parser of requests and their validator agree.
use stability_toys.Prelude.{
  String, Bool, true, false, List, [], ◌∷◌, Option, ◌≡◌, refl, arith, ◌∙◌, ap, ◌||◌, ◌&&◌, ◌==◌,
  subst,
}
use stability_toys.Assets.Cleanup.{member}
use stability_toys.Prelude.Effects.{ok}
use stability_toys.Prelude.Outcome.{returned, passed, ok_inj}
use stability_toys.Analysis.Contracts.{
  invalid_request, target_binding_invalid, TaskKind, DescribeTarget, DescribeTask, DescribeRequest,
  is_empty, all_kinds, is_only, chosen, is_nil, param_key,
}
use stability_toys.Analysis.Json.{Json, get_key, as_object, optional_str, as_list, or_no_items}
use stability_toys.Analysis.Parsing.{
  Declared, declare, none_declared, parse_target, parse_targets, parse_task, parse_tasks,
  parse_describe_request, parse_params, check_known, Params, caption_block, detect_block, ocr_block,
  pose_block, embed_block, with_params, parse_kind, ids_of, blank_task, or_blank,
}
use stability_toys.Analysis.Validation.{
  validate_target, validate_targets, validate_task, validate_tasks, validate_describe_request,
  has_block,
}

module _ (strip : String → String) {F : Type 0} where
  target_agrees :
      (d : Declared) (raw : Json F) (t : DescribeTarget)
      → parse_target strip d raw ≡ ok t
      → validate_target d t ≡ ok tt
  unfolding parse_target validate_target
  target_agrees d raw t h = ground arith

  targets_agree :
      (d d' : Declared) (raws : List (Json F)) (ts : List DescribeTarget)
      → parse_targets strip d raws ≡ ok (ts, d')
      → validate_targets d ts ≡ ok d'
  unfolding parse_targets validate_targets
  targets_agree d d' [] ts h = ground arith
  targets_agree d d' (raw ∷ raws) ts h =
      let (t, here, after) = returned (parse_target strip d raw) _ h in
      let ((ts', d2), there, last) =
        returned (parse_targets strip (declare t d) raws) (λ rest. ok (t ∷ rest.0, rest.1)) after in
      let same = target_agrees d raw t here in
      let rest = targets_agree (declare t d) d2 raws ts' there in ground (arith, last, same, rest)

  block_agrees :
      (kind : TaskKind) (raw : Json F) (p : Params F) (id : String) (ids : List String)
      → parse_params kind raw ≡ ok p
      → is_only kind (chosen (has_block (with_params p (blank_task id kind ids))) all_kinds) ≡ true
  unfolding parse_params chosen
  block_agrees TaskKind.caption raw p id ids h = ground arith
  block_agrees TaskKind.detect raw p id ids h = ground arith
  block_agrees TaskKind.ocr raw p id ids h = ground arith
  block_agrees TaskKind.pose raw p id ids h = ground arith
  block_agrees TaskKind.embed raw p id ids h = ground arith

  module _ (d : Declared) (seen : List String) (id : String) (kind : TaskKind) (ids : List String)
      (named : is_empty id ≡ false) (new : member id seen ≡ false)
      (known : check_known d.roles ids ≡ ok tt)
      (bound : (is_nil ids && (d.primary_count == 0)) ≡ false) where
    block_validates :
        (p : Params F)
        → is_only kind (chosen (has_block (with_params p (blank_task id kind ids))) all_kinds)
          ≡ true
        → validate_task d seen (with_params p (blank_task id kind ids)) ≡ ok tt
    unfolding validate_task
    block_validates (caption_block _) h = ground arith
    block_validates (detect_block _) h = ground arith
    block_validates (ocr_block _) h = ground arith
    block_validates (pose_block _) h = ground arith
    block_validates (embed_block _) h = ground arith

  targets_nonempty :
      (raws : List (Json F)) (d : Declared) (ts : List DescribeTarget) (d' : Declared)
      → parse_targets strip d raws ≡ ok (ts, d')
      → is_nil ts ≡ is_nil raws
  unfolding parse_targets
  targets_nonempty [] d ts d' h = ground arith
  targets_nonempty (raw ∷ raws) d ts d' h = ground arith

  tasks_nonempty :
      (raws : List (Json F)) (d : Declared) (seen : List String) (ts : List (DescribeTask F))
      → parse_tasks strip d seen raws ≡ ok ts
      → is_nil ts ≡ is_nil raws
  unfolding parse_tasks
  tasks_nonempty [] d seen ts h = ground arith
  tasks_nonempty (raw ∷ raws) d seen ts h = ground arith

  task_agrees :
      (d : Declared) (seen : List String) (raw : Json F) (t : DescribeTask F)
      → parse_task strip d seen raw ≡ ok t
      → validate_task d seen t ≡ ok tt
  unfolding parse_task
  task_agrees d seen raw t h =
      let (ms, _, h1) = returned (as_object raw) _ h in
      let (id_text, _, h2) = returned (optional_str (get_key "id" ms)) _ h1 in
      let id = strip (or_blank id_text) in
      let (named, h3) = passed (is_empty id) invalid_request _ h2 in
      let (new, h4) = passed (member id seen) invalid_request _ h3 in
      let (kind, _, h5) = returned (parse_kind (get_key "kind" ms)) _ h4 in
      let (_, h6) = passed _ invalid_request _ h5 in
      let (ids, _, h7) = returned (ids_of (get_key "target_ids" ms)) _ h6 in
      let (_, known, h8) = returned (check_known d.roles ids) _ h7 in
      let (bound, h9) = passed (is_nil ids && (d.primary_count == 0)) target_binding_invalid _ h8 in
      let (p, block, h10) = returned (parse_params kind (get_key (param_key kind) ms)) _ h9 in
      let only = block_agrees kind (get_key (param_key kind) ms) p id ids block in
      let valid = block_validates d seen id kind ids named new known bound p only in
      subst (λ (u : DescribeTask F). validate_task d seen u ≡ ok tt) (ok_inj _ refl h10) valid

  tasks_agree :
      (d : Declared) (seen : List String) (raws : List (Json F)) (ts : List (DescribeTask F))
      → parse_tasks strip d seen raws ≡ ok ts
      → validate_tasks d seen ts ≡ ok tt
  unfolding parse_tasks validate_tasks
  tasks_agree d seen [] ts h = ground arith
  tasks_agree d seen (raw ∷ raws) ts h =
      let (t, here, after) = returned (parse_task strip d seen raw) _ h in
      let (rest, there, last) = returned (parse_tasks strip d (t.id ∷ seen) raws) _ after in
      let same = task_agrees d seen raw t here in
      let others = tasks_agree d (t.id ∷ seen) raws rest there in ground (arith, last, same, others)

  request_validates :
      (targets : List DescribeTarget) (tasks : List (DescribeTask F)) (mode : Option String)
      (d : Declared)
      → (is_nil targets || is_nil tasks) ≡ false
      → validate_targets none_declared targets ≡ ok d
      → validate_tasks d [] tasks ≡ ok tt
      → validate_describe_request (record { targets = targets; tasks = tasks; mode = mode }) ≡ ok tt
  unfolding validate_describe_request
  request_validates targets tasks mode d h a b = rw (h, a, b)

  -- Every request that the parser accepts is one that the validator accepts: a request from the wire is
  -- never refused at the orchestrator's boundary.
  pub validate-parse :
      (is_zero : F → Bool) (payload : Json F) (r : DescribeRequest F)
      → parse_describe_request strip is_zero payload ≡ ok r
      → validate_describe_request r ≡ ok tt
  unfolding parse_describe_request validate_describe_request
  validate-parse is_zero payload r h =
      let (ms, _, h1) = returned (as_object payload) _ h in
      let (raw_targets, _, h2) =
        returned (as_list (or_no_items is_zero (get_key "targets" ms))) _ h1 in
      let (raw_tasks, _, h3) = returned (as_list (or_no_items is_zero (get_key "tasks" ms))) _ h2 in
      let (some_left, h4) = passed (is_nil raw_targets || is_nil raw_tasks) invalid_request _ h3 in
      let ((targets, d), h5', h5) = returned (parse_targets strip none_declared raw_targets) _ h4 in
      let (tasks, h6', h6) = returned (parse_tasks strip d [] raw_tasks) _ h5 in
      let (mode, _, h7) = returned (optional_str (get_key "mode" ms)) _ h6 in
      let a = targets_agree none_declared d raw_targets targets h5' in
      let b = tasks_agree d [] raw_tasks tasks h6' in
      let c = targets_nonempty raw_targets none_declared targets d h5' in
      let e = tasks_nonempty raw_tasks d [] tasks h6' in
      let left = ap (λ x. x || is_nil tasks) c ∙ ap (λ x. is_nil raw_targets || x) e ∙ some_left in
      subst (λ (q : DescribeRequest F). validate_describe_request q ≡ ok tt) (ok_inj _ refl h7)
        (request_validates targets tasks mode d left a b)
