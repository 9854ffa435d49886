-- ===== src/Resolution/Roundtrip.antt =====
-- The parts of a resolved model, written to the wire and read again.
use stability_toys.Prelude.{
  ℕ, Bool, not, List, ◌∷◌, Option, none, some, ◌≡◌, refl, sym, ap, subst, same_text, arith,
}
use stability_toys.Prelude.Dict.{Dict, lookup}
use stability_toys.Prelude.Effects.{ok}
use stability_toys.Prelude.Outcome.{returned, passed, ok-eq}
use stability_toys.Analysis.Json.{Json, Items, Members, array, end, member}
use stability_toys.Modes.Values.{entries, members, mapping_of, array_of, entries-members}
use stability_toys.Modes.Blocks.{items-array_of}
use stability_toys.Resolution.Snapshot.{
  Value, Values, Pairs, none_value, flag, num, str, sequence, mapping, other, no_values, value,
  no_pairs, pair, not_finite, assert_json_safe, assert_items, assert_members, check_json,
  check_items, check_members, freeze_mapping, ModelInfo, ModelInfoSnapshot, attributes,
  scalar_snapshot_fields, freeze_model_info, snapshot_to_json_dict, snapshot_from_json_dict,
  take_keys, frozen, optional_tuple, optional_array,
}

module _ {F : Type 0} (is_finite : F → Bool) where
  mutual
    unfolding assert_json_safe check_json

    safe_value :
        (v : Value F) {j : Json F}
        → assert_json_safe is_finite v ≡ ok j
        → check_json is_finite j ≡ ok tt
    safe_value none_value {j} h = subst (λ j. check_json is_finite j ≡ ok tt) (ok-eq h) refl
    safe_value (flag b) h = subst (λ j. check_json is_finite j ≡ ok tt) (ok-eq h) refl
    safe_value (num x) h =
        let (fine, e) = passed (not (is_finite x)) not_finite _ h in
        subst (λ j. check_json is_finite j ≡ ok tt) (ok-eq e) (rw fine)
    safe_value (str s) h = subst (λ j. check_json is_finite j ≡ ok tt) (ok-eq h) refl
    safe_value (sequence vs) h =
        let (js, e, e') = returned (assert_items is_finite vs) _ h in
        subst (λ j. check_json is_finite j ≡ ok tt) (ok-eq e') (safe_values vs e)
    safe_value (mapping ps) h =
        let (ms, e, e') = returned (assert_members is_finite ps) _ h in
        subst (λ j. check_json is_finite j ≡ ok tt) (ok-eq e') (safe_pairs ps e)
    safe_value other h = cc

    safe_values :
        (vs : Values F) {js : Items F}
        → assert_items is_finite vs ≡ ok js
        → check_items is_finite js ≡ ok tt
    safe_values no_values h = subst (λ js. check_items is_finite js ≡ ok tt) (ok-eq h) refl
    safe_values (value v vs) h =
        let (j, e, h1) = returned (assert_json_safe is_finite v) _ h in
        let (js, e', h2) = returned (assert_items is_finite vs) _ h1 in
        subst (λ js. check_items is_finite js ≡ ok tt) (ok-eq h2)
          (rw (safe_value v e) (safe_values vs e'))

    safe_pairs :
        (ps : Pairs F) {ms : Members F}
        → assert_members is_finite ps ≡ ok ms
        → check_members is_finite ms ≡ ok tt
    safe_pairs no_pairs h = subst (λ ms. check_members is_finite ms ≡ ok tt) (ok-eq h) refl
    safe_pairs (pair none v ps) h = cc
    safe_pairs (pair (some k) v ps) h =
        let (j, e, h1) = returned (assert_json_safe is_finite v) _ h in
        let (ms, e', h2) = returned (assert_members is_finite ps) _ h1 in
        subst (λ ms. check_members is_finite ms ≡ ok tt) (ok-eq h2)
          (rw (safe_value v e) (safe_pairs ps e'))

members-entries : {F : Type 0} (ms : Members F) → members (entries ms) ≡ ms
members-entries end = refl
members-entries (member k j ms) = ap (member k j) (members-entries ms)

module _ {F : Type 0} (is_finite : F → Bool) (of_nat : ℕ → F) where
  -- A snapshot that was frozen of an information
  pub record IsFrozen (s : ModelInfoSnapshot F) : Type 0 where
    metadata : check_members is_finite (members s.metadata) ≡ ok tt
    templates : check_members is_finite (members s.negative_prompt_templates) ≡ ok tt
    info : ModelInfo F
    scalars : s.scalars ≡ attributes of_nat info scalar_snapshot_fields

  mapping_safe :
      (ps : Pairs F) {d : Dict (Json F)}
      → freeze_mapping is_finite ps ≡ ok d
      → check_members is_finite (members d) ≡ ok tt
  unfolding freeze_mapping
  mapping_safe ps h =
      let (ms, e, e') = returned (assert_members is_finite ps) _ h in
      subst (λ d. check_members is_finite (members d) ≡ ok tt) (ok-eq e')
        (rw (members-entries ms) (safe_pairs is_finite ps e))

  pub freeze-IsFrozen :
      (info : ModelInfo F) {s : ModelInfoSnapshot F}
      → freeze_model_info of_nat is_finite info ≡ ok s
      → IsFrozen s
  unfolding freeze_model_info
  freeze-IsFrozen info h =
      let (m, e, h1) = returned (freeze_mapping is_finite info.metadata) _ h in
      let (t, e', h2) = returned (freeze_mapping is_finite info.negative_prompt_templates) _ h1 in
      subst IsFrozen (ok-eq h2) (record {
        metadata = mapping_safe info.metadata e;
        templates = mapping_safe info.negative_prompt_templates e';
        info = info;
        scalars = refl;
      })

  scalars_reread :
      (info : ModelInfo F) (v d m t a : Json F)
      → take_keys
          (("variant", v)
            ∷ ("detected_by", d)
            ∷ ("metadata", m)
            ∷ ("negative_prompt_templates", t)
            ∷ ("allowed_scheduler_ids", a)
            ∷ attributes of_nat info scalar_snapshot_fields)
          scalar_snapshot_fields
        ≡ ok (attributes of_nat info scalar_snapshot_fields)
  unfolding take_keys lookup same_text attributes scalar_snapshot_fields
  scalars_reread info v d m t a = refl

  tuple_reread : (o : Option (List (Json F))) → optional_tuple (optional_array o) ≡ ok o
  tuple_reread none = refl
  tuple_reread (some js) = rw (items-array_of F js)

  frozen_reread :
      (d : Dict (Json F))
      → check_members is_finite (members d) ≡ ok tt
      → frozen is_finite (mapping_of d) ≡ ok d
  frozen_reread d h = rw h (ap ok (entries-members d))

  pub snapshot_reread :
      (s : ModelInfoSnapshot F)
      → IsFrozen s
      → snapshot_from_json_dict is_finite (snapshot_to_json_dict s) ≡ ok s
  unfolding snapshot_from_json_dict snapshot_to_json_dict lookup same_text
  snapshot_reread s f =
      let scalars =
        subst
          (λ d.
            take_keys
              (("variant", s.variant)
                ∷ ("detected_by", array (array_of s.detected_by))
                ∷ ("metadata", mapping_of s.metadata)
                ∷ ("negative_prompt_templates", mapping_of s.negative_prompt_templates)
                ∷ ("allowed_scheduler_ids", optional_array s.allowed_scheduler_ids)
                ∷ d)
              scalar_snapshot_fields
            ≡ ok d)
          (sym f.scalars) (scalars_reread f.info _ _ _ _ _) in
      let detected = items-array_of F s.detected_by in
      let metadata = frozen_reread s.metadata f.metadata in
      let templates = frozen_reread s.negative_prompt_templates f.templates in
      let allowed = tuple_reread s.allowed_scheduler_ids in
      ground (arith, scalars, detected, metadata, templates, allowed)
