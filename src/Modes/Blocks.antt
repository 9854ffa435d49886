-- ===== src/Modes/Blocks.antt =====
-- The blocks of a mode on conditioning and on ControlNet: written by `to_dict`, parsed again.
use stability_toys.Prelude.{
  String, true, false, not, List, [], ◌∷◌, map, Option, some, ◌≡◌, refl, subst, arith, same_text,
  ap, ◌&&◌,
}
use stability_toys.Prelude.Dict.{Dict, lookup, AllItems, keys}
use stability_toys.Prelude.Effects.{ok}
use stability_toys.Prelude.Outcome.{◌>>=◌, returned, passed, ok-eq}
use stability_toys.Conditioning.Chain.{ConditioningConfig}
use stability_toys.Analysis.Json.{Json, null, number, object, array, nil, text, items}
use stability_toys.Modes.Values.{
  Builtins, parse_all, map_values, mapping, mapping_of, malformed, invalid, get_value, get_or,
  truthy, or_default, entries-members, optional_mapping, sequence, unknown_key, array_of,
  unless_blank, unconfigured,
}
use stability_toys.Modes.Policies.{
  ControlNetTypeSection, ControlNetSection, conditioning_keys, conditioning_fallback_keys,
  controlnet_policy_keys, controlnet_type_keys, texts, service_text, flag, parse_conditioning,
  parse_conditioning_config, conditioning_to_dict, parse_control_type, parse_policy,
  parse_controlnet_policy, control_type_to_dict, controlnet_policy_to_dict, all_known,
  has_no_service, optional_text, float_field, float_or_raise, default_conditioning,
}
use stability_toys.Modes.Written.{parse_all-map}
use stability_toys.Modes.Consistency.{parse_all-AllItems}

module _ (F : Type 0) where
  pub items-array_of : (js : List (Json F)) → items (array_of js) ≡ js
  items-array_of [] = refl
  items-array_of (j ∷ js) = ap (λ r. j ∷ r) (items-array_of js)

  texts-map :
      (field : String) (ss : List String)
      → texts {F = F} field (items (array_of (map text ss))) ≡ ok ss
  unfolding texts
  texts-map field [] = refl
  texts-map field (s ∷ ss) = ground (arith, texts-map field ss)

  module _ (strip : String → String)
      (stripped_once : (s : String) → strip (strip s) ≡ strip s) where
    record ConditioningNormal (c : ConditioningConfig) : Type 0 where
      service : service_text strip (optional_text {F = F} c.service) ≡ ok c.service
      served : has_no_service c.service ≡ true → c.native_when_unconfigured ≡ true

    service-fixed :
        (s : String)
        → service_text strip (optional_text {F = F} (unless_blank (strip s)))
          ≡ ok (unless_blank (strip s))
    service-fixed s = ground (arith, stripped_once s)

    service-Normal :
        (j : Json F) {o : Option String}
        → service_text strip j ≡ ok o
        → service_text strip (optional_text {F = F} o) ≡ ok o
    service-Normal null h =
        subst (λ o. service_text strip (optional_text {F = F} o) ≡ ok o) (ok-eq h) refl
    service-Normal (text s) h =
        subst (λ o. service_text strip (optional_text {F = F} o) ≡ ok o) (ok-eq h) (service-fixed s)
    service-Normal j h = cc

    block-Normal :
        (raw : Dict (Json F)) {c : ConditioningConfig}
        → parse_conditioning strip raw ≡ ok c
        → ConditioningNormal c
    unfolding parse_conditioning
    block-Normal raw h =
        let (_, h1) = passed (not (all_known conditioning_keys (keys raw))) unknown_key _ h in
        let (service, e1, h2) = returned (service_text strip (get_value "service" raw)) _ h1 in
        let (filters, _, h3) =
          returned (sequence (invalid "filters") (get_or "filters" (array nil) raw)) _ h2 in
        let (names, _, h4) = returned (texts "filters" filters) _ h3 in
        let (fallback, _, h5) =
          returned (mapping (malformed "fallback") (get_or "fallback" (mapping_of []) raw)) _ h4 in
        let (_, h6) =
          passed (not (all_known conditioning_fallback_keys (keys fallback))) unknown_key _ h5 in
        let (when, _, h7) = returned (flag "native_when_unconfigured" true fallback) _ h6 in
        let (failure, _, h8) = returned (flag "native_on_failure" false fallback) _ h7 in
        let (told, h9) = passed (has_no_service service && not when) unconfigured _ h8 in
        subst ConditioningNormal (ok-eq h9) (record {
          service = service-Normal (get_value "service" raw) e1;
          served = λ e. ground (arith, told);
        })

    conditioning-Normal :
        (j : Json F) {c : ConditioningConfig}
        → parse_conditioning_config strip j ≡ ok c
        → ConditioningNormal c
    unfolding parse_conditioning_config
    conditioning-Normal null h =
        subst ConditioningNormal {x = default_conditioning} (ok-eq h)
          (record { service = refl; served = λ _. refl })
    conditioning-Normal (object ms) h = block-Normal _ h
    conditioning-Normal j h = cc

    -- A conditioning that was parsed is, written and parsed again, the same.
    parse-conditioning_to_dict :
        (j : Json F) {c : ConditioningConfig}
        → parse_conditioning_config strip j ≡ ok c
        → parse_conditioning_config strip (conditioning_to_dict {F = F} c) ≡ ok c
    unfolding parse_conditioning_config conditioning_to_dict parse_conditioning conditioning_keys
        conditioning_fallback_keys lookup same_text
    parse-conditioning_to_dict j {c} h =
        let n = conditioning-Normal j h in
        let names = texts-map "filters" c.filter_names in ground (arith, n.service, n.served, names)

module _ {F : Type 0} (py : Builtins F)
    (float_once : (j : Json F) (x : F) → py.float_of j ≡ some x → py.float_of (number x) ≡ some x)
    (int_once : (j : Json F) (x : F) → py.int_of j ≡ some x → py.int_of (number x) ≡ some x) where
  record TypeNormal (name : String) (t : ControlNetTypeSection F) : Type 0 where
    default : py.float_of (number t.default_strength) ≡ some t.default_strength
    min : py.float_of (number t.min_strength) ≡ some t.min_strength
    max : py.float_of (number t.max_strength) ≡ some t.max_strength

  float-Normal :
      (field : String) (default : F) (raw : Dict (Json F)) {x : F}
      → float_field py field default raw ≡ ok x
      → py.float_of (number x) ≡ some x
  float-Normal field default raw {x} h =
      float_once (get_or field (number default) raw) x (ground arith)

  type-Normal :
      (name : String) (j : Json F) (t : ControlNetTypeSection F)
      → parse_control_type py name j ≡ ok t
      → TypeNormal name t
  unfolding parse_control_type
  type-Normal name j t h =
      let (raw, _, h1) = returned (optional_mapping (malformed name) j) _ h in
      let (_, h2) = passed (not (all_known controlnet_type_keys (keys raw))) unknown_key _ h1 in
      let (js, _, h3) =
        returned
          (sequence (invalid "allowed_model_ids")
            (or_default py (get_value "allowed_model_ids" raw) (array nil)))
          _ h2 in
      let (ids, _, h4) = returned (texts "allowed_model_ids" js) _ h3 in
      let (a, e1, h5) = returned (float_field py "default_strength" py.full_strength raw) _ h4 in
      let (b, e2, h6) = returned (float_field py "min_strength" py.zero_strength raw) _ h5 in
      let (c, e3, h7) = returned (float_field py "max_strength" py.double_strength raw) _ h6 in
      subst (TypeNormal name) (ok-eq h7) (record {
        default = float-Normal "default_strength" py.full_strength raw e1;
        min = float-Normal "min_strength" py.zero_strength raw e2;
        max = float-Normal "max_strength" py.double_strength raw e3;
      })

  -- `allowed_model_ids`, where an empty list is replaced by another one
  ids_reread :
      (ids : List String)
      → (sequence
            (invalid "allowed_model_ids")
            (or_default py (array (array_of (map text ids))) (array nil))
          >>= texts "allowed_model_ids")
        ≡ ok ids
  unfolding truthy texts
  ids_reread [] = refl
  ids_reread (s ∷ ids) = texts-map F "allowed_model_ids" (s ∷ ids)

  type_reread :
      (name : String) (t : ControlNetTypeSection F)
      → TypeNormal name t
      → parse_control_type py name (control_type_to_dict py t) ≡ ok t
  unfolding parse_control_type control_type_to_dict controlnet_type_keys truthy lookup same_text
  type_reread name t n =
      let ids = ids_reread t.allowed_model_ids in ground (arith, ids, n.default, n.min, n.max)

  record PolicyNormal (p : ControlNetSection F) : Type 0 where
    limit : py.int_of (number p.max_attachments) ≡ some p.max_attachments
    types : AllItems TypeNormal p.allowed_control_types

  block_of :
      (raw : Dict (Json F)) {p : ControlNetSection F} → parse_policy py raw ≡ ok p → PolicyNormal p
  unfolding parse_policy
  block_of raw h =
      let (_, h1) = passed (not (all_known controlnet_policy_keys (keys raw))) unknown_key _ h in
      let (raw_types, _, h2) =
        returned
          (mapping (malformed "allowed_control_types")
            (or_default py (get_value "allowed_control_types" raw) (mapping_of [])))
          _ h1 in
      let (types, e1, h3) = returned (parse_all (parse_control_type py) raw_types) _ h2 in
      let limit = get_or "max_attachments" (number py.no_attachments) raw in
      let (x, e2, h4) = returned (float_or_raise py "max_attachments" (py.int_of limit)) _ h3 in
      subst PolicyNormal (ok-eq h4) (record {
        limit = int_once limit x (ground arith);
        types = parse_all-AllItems _ TypeNormal type-Normal raw_types e1;
      })

  types_reread :
      (ts : Dict (ControlNetTypeSection F))
      → AllItems TypeNormal ts
      → (mapping
            (malformed "allowed_control_types")
            (or_default py (mapping_of (map_values (control_type_to_dict py) ts)) (mapping_of []))
          >>= parse_all (parse_control_type py))
        ≡ ok ts
  unfolding truthy
  types_reread [] n =
      parse_all-map (parse_control_type py) (control_type_to_dict py) TypeNormal type_reread [] n
  types_reread (e ∷ ts) n = rw (entries-members (map_values (control_type_to_dict py) (e ∷ ts))) (
      parse_all-map (parse_control_type py) (control_type_to_dict py) TypeNormal type_reread
        (e ∷ ts) n)

  -- A ControlNet policy that was parsed of a mapping is, written and parsed again, the same, where
  -- `int` and `float` give back the numbers that they gave.
  pub parse-controlnet_policy_to_dict :
      (raw : Dict (Json F)) {p : ControlNetSection F}
      → parse_controlnet_policy py (mapping_of raw) ≡ ok p
      → parse_controlnet_policy py (controlnet_policy_to_dict py p) ≡ ok p
  unfolding parse_controlnet_policy parse_policy controlnet_policy_to_dict controlnet_policy_keys
      truthy lookup same_text
  parse-controlnet_policy_to_dict raw {p} h =
      let n = block_of raw (subst (λ d. parse_policy py d ≡ ok p) (entries-members raw) h) in
      let types = types_reread p.allowed_control_types n.types in ground (arith, types, n.limit)
