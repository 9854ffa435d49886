-- ===== src/Modes/Policies.antt =====
-- server/mode_config.py: the blocks of a mode on conditioning and on ControlNet, parsed and written.
use stability_toys.Prelude.{
  String, Bool, true, false, not, List, [], ◌∷◌, map, Option, none, some, ◌&&◌,
}
use stability_toys.Prelude.Dict.{Dict, keys}
use stability_toys.Prelude.Effects.{ok, raised}
use stability_toys.Prelude.Outcome.{◌>>=◌, ◌>>◌, refuse}
use stability_toys.Assets.Cleanup.{member}
use stability_toys.Conditioning.Chain.{ConditioningConfig}
use stability_toys.Analysis.Json.{Json, null, boolean, number, text, array, object, nil}
use stability_toys.Modes.Values.{
  malformed, invalid, unknown_key, unconfigured, Parsed, Builtins, get_value, get_or, mapping,
  optional_mapping, sequence, parse_all, map_values, mapping_of, array_of, truthy, or_default,
  unless_blank,
}

abbrev pub all_known : List String → List String → Bool
all_known allowed [] = true
all_known allowed (k ∷ ks) = member k allowed && all_known allowed ks

pub record ControlNetTypeSection (F : Type 0) : Type 0 where
  pub default_model_id : Json F
  pub allowed_model_ids : List String
  pub allow_preprocess : Bool
  pub default_strength : F
  pub min_strength : F
  pub max_strength : F

pub record ControlNetSection (F : Type 0) : Type 0 where
  pub enabled : Bool
  pub max_attachments : F
  pub allow_reuse_emitted_maps : Bool
  pub allowed_control_types : Dict (ControlNetTypeSection F)

unfoldable pub conditioning_keys : List String
conditioning_keys = "service" ∷ "filters" ∷ "fallback" ∷ []

unfoldable pub conditioning_fallback_keys : List String
conditioning_fallback_keys = "native_when_unconfigured" ∷ "native_on_failure" ∷ []

unfoldable pub controlnet_policy_keys : List String
controlnet_policy_keys =
    "enabled" ∷ "max_attachments" ∷ "allow_reuse_emitted_maps" ∷ "allowed_control_types" ∷ []

unfoldable pub controlnet_type_keys : List String
controlnet_type_keys =
    "default_model_id" ∷ "allowed_model_ids" ∷ "allow_preprocess" ∷ "default_strength"
    ∷ "min_strength" ∷ "max_strength" ∷ []

-- `ConditioningConfig()`
abbrev pub default_conditioning : ConditioningConfig
default_conditioning = record {
  service = none;
  filter_names = [];
  native_when_unconfigured = true;
  native_on_failure = false;
}

abbrev pub has_no_service : Option String → Bool
has_no_service none = true
has_no_service (some _) = false

module _ {F : Type 0} where
  -- All items, which must be texts
  unfoldable pub texts : String → List (Json F) → Parsed (List String)
  texts field [] = ok []
  texts field (text s ∷ js) = texts field js >>= λ ss. ok (s ∷ ss)
  texts field (_ ∷ js) = raised (invalid field)

  -- The value of a key, which must be Boolean
  abbrev pub as_flag : String → Json F → Parsed Bool
  as_flag key (boolean b) = ok b
  as_flag key _ = raised (invalid key)

  abbrev pub flag : String → Bool → Dict (Json F) → Parsed Bool
  flag key default d = as_flag key (get_or key (boolean default) d)

  -- `None`, or a text
  abbrev pub service_text : (String → String) → Json F → Parsed (Option String)
  service_text strip null = ok none
  service_text strip (text s) = ok (unless_blank (strip s))
  service_text strip _ = raised (invalid "service")

  -- The part of `_parse_conditioning_config` on a mapping
  unfoldable pub parse_conditioning : (String → String) → Dict (Json F) → Parsed ConditioningConfig
  parse_conditioning strip raw = do
    refuse (not (all_known conditioning_keys (keys raw))) unknown_key
    service ← service_text strip (get_value "service" raw)
    filters ← sequence (invalid "filters") (get_or "filters" (array nil) raw)
    filter_names ← texts "filters" filters
    fallback ← mapping (malformed "fallback") (get_or "fallback" (mapping_of []) raw)
    refuse (not (all_known conditioning_fallback_keys (keys fallback))) unknown_key
    when_unconfigured ← flag "native_when_unconfigured" true fallback
    on_failure ← flag "native_on_failure" false fallback
    refuse (has_no_service service && not when_unconfigured) unconfigured
    ok (record {
      service = service;
      filter_names = filter_names;
      native_when_unconfigured = when_unconfigured;
      native_on_failure = on_failure;
    })

  -- `_parse_conditioning_config`
  unfoldable pub parse_conditioning_config : (String → String) → Json F → Parsed ConditioningConfig
  parse_conditioning_config strip null = ok default_conditioning
  parse_conditioning_config strip (object ms) =
      mapping (malformed "conditioning") (object ms) >>= parse_conditioning strip
  parse_conditioning_config strip _ = raised (malformed "conditioning")

  abbrev pub optional_text : Option String → Json F
  optional_text none = null
  optional_text (some s) = text s

  -- `_conditioning_to_dict`
  unfoldable pub conditioning_to_dict : ConditioningConfig → Json F
  conditioning_to_dict config = mapping_of (
      ("service", optional_text config.service)
      ∷ ("filters", array (array_of (map text config.filter_names)))
      ∷ (
        "fallback",
        mapping_of (
            ("native_when_unconfigured", boolean config.native_when_unconfigured)
            ∷ ("native_on_failure", boolean config.native_on_failure)
            ∷ []),
      )
      ∷ [])

module _ {F : Type 0} (py : Builtins F) where
  abbrev pub float_or_raise : String → Option F → Parsed F
  float_or_raise field none = raised (invalid field)
  float_or_raise field (some x) = ok x

  -- `float(raw.get(field, default))`
  abbrev pub float_field : String → F → Dict (Json F) → Parsed F
  float_field field default d = float_or_raise field (py.float_of (get_or field (number default) d))

  -- A round of the loop over the types of `_parse_controlnet_policy`
  unfoldable pub parse_control_type : String → Json F → Parsed (ControlNetTypeSection F)
  parse_control_type name j = do
    raw ← optional_mapping (malformed name) j
    refuse (not (all_known controlnet_type_keys (keys raw))) unknown_key
    raw_ids ←
        sequence (invalid "allowed_model_ids")
          (or_default py (get_value "allowed_model_ids" raw) (array nil))
    ids ← texts "allowed_model_ids" raw_ids
    default ← float_field "default_strength" py.full_strength raw
    min ← float_field "min_strength" py.zero_strength raw
    max ← float_field "max_strength" py.double_strength raw
    ok (record {
      default_model_id = get_value "default_model_id" raw;
      allowed_model_ids = ids;
      allow_preprocess = truthy py (get_or "allow_preprocess" (boolean true) raw);
      default_strength = default;
      min_strength = min;
      max_strength = max;
    })

  abbrev pub no_controlnet : ControlNetSection F
  no_controlnet = record {
    enabled = false;
    max_attachments = py.no_attachments;
    allow_reuse_emitted_maps = false;
    allowed_control_types = [];
  }

  unfoldable pub parse_policy : Dict (Json F) → Parsed (ControlNetSection F)
  parse_policy raw = do
    refuse (not (all_known controlnet_policy_keys (keys raw))) unknown_key
    raw_types ←
        mapping (malformed "allowed_control_types")
          (or_default py (get_value "allowed_control_types" raw) (mapping_of []))
    types ← parse_all parse_control_type raw_types
    limit ←
        float_or_raise "max_attachments"
          (py.int_of (get_or "max_attachments" (number py.no_attachments) raw))
    ok (record {
      enabled = truthy py (get_or "enabled" (boolean false) raw);
      max_attachments = limit;
      allow_reuse_emitted_maps = truthy py (get_or "allow_reuse_emitted_maps" (boolean false) raw);
      allowed_control_types = types;
    })

  -- `_parse_controlnet_policy`
  unfoldable pub parse_controlnet_policy : Json F → Parsed (ControlNetSection F)
  parse_controlnet_policy null = ok no_controlnet
  parse_controlnet_policy (object ms) =
      mapping (malformed "controlnet_policy") (object ms) >>= parse_policy
  parse_controlnet_policy _ = raised (malformed "controlnet_policy")

  -- The block `controlnet_policy` of `to_dict`
  unfoldable pub control_type_to_dict : ControlNetTypeSection F → Json F
  control_type_to_dict t = mapping_of (
      ("default_model_id", t.default_model_id)
      ∷ ("allowed_model_ids", array (array_of (map text t.allowed_model_ids)))
      ∷ ("allow_preprocess", boolean t.allow_preprocess)
      ∷ ("default_strength", number t.default_strength)
      ∷ ("min_strength", number t.min_strength)
      ∷ ("max_strength", number t.max_strength)
      ∷ [])

  unfoldable pub controlnet_policy_to_dict : ControlNetSection F → Json F
  controlnet_policy_to_dict p = mapping_of (
      ("enabled", boolean p.enabled)
      ∷ ("max_attachments", number p.max_attachments)
      ∷ ("allow_reuse_emitted_maps", boolean p.allow_reuse_emitted_maps)
      ∷ (
        "allowed_control_types",
        mapping_of (map_values control_type_to_dict p.allowed_control_types),
      )
      ∷ [])
