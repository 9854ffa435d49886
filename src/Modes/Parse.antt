-- ===== src/Modes/Parse.antt =====
-- server/mode_config.py: a resolution set and a mode, as `_load_config` parses them. Each round of a
-- loop is a function.
use stability_toys.Prelude.{String, false, not, List, [], ◌∷◌, ◌++◌, map}
use stability_toys.Prelude.Dict.{Dict, lookup}
use stability_toys.Prelude.Effects.{ok, raised}
use stability_toys.Prelude.Outcome.{◌>>=◌, ◌>>◌, refuse}
use stability_toys.Assets.Cleanup.{member}
use stability_toys.Analysis.Json.{Json, null, boolean, number, text, array, object, nil, items}
use stability_toys.Modes.Values.{
  wrong_type, no_such_key, missing, malformed, removed_field, invalid, unknown_reference, Parsed,
  Builtins, get_value, get_or, is_null, required, mapping, plain_text, mapping_of, entries, truthy,
  or_default, to_text, normalize_optional_string,
}
use stability_toys.Modes.Policies.{
  ControlNetSection, parse_conditioning_config, parse_controlnet_policy,
}
use stability_toys.Conditioning.Chain.{ConditioningConfig}
use stability_toys.Modes.Model.{
  LoraConfig, ResolutionOption, ModeConfig, ModeNames, Surroundings, removed_fields, sizes,
  is_known, found_or, hashable,
}

module _ {F : Type 0} (py : Builtins F) where
  unfoldable pub parse_resolution_option : String → Json F → Parsed ResolutionOption
  parse_resolution_option set_name j = do
    raw ← mapping (malformed set_name) j
    size ← required (lookup "size" raw) (missing "size")
    aspect_ratio ← required (lookup "aspect_ratio" raw) (missing "aspect_ratio")
    ok (record { size = to_text py size; aspect_ratio = to_text py aspect_ratio })

  unfoldable pub parse_resolution_options : String → List (Json F) → Parsed (List ResolutionOption)
  parse_resolution_options set_name [] = ok []
  parse_resolution_options set_name (j ∷ js) = do
    option ← parse_resolution_option set_name j
    rest ← parse_resolution_options set_name js
    ok (option ∷ rest)

  abbrev pub parse_entries : String → Json F → Parsed (List ResolutionOption)
  parse_entries set_name null = ok []
  parse_entries set_name (array js) = parse_resolution_options set_name (items js)
  parse_entries set_name _ = raised (malformed set_name)

  -- `LoraConfig.__post_init__`
  unfoldable pub lora_config : Json F → Json F → Json F → Parsed (LoraConfig F)
  lora_config path strength null = do
    p ← plain_text wrong_type path
    ok (record {
      path = path;
      strength = strength;
      adapter_name = text (py.concat "lora_" (py.stem p));
    })
  lora_config path strength name =
      ok (record { path = path; strength = strength; adapter_name = name })

  -- A round of the loop over the LoRAs: what is neither a text nor a mapping is left out.
  unfoldable pub parse_lora : Json F → Parsed (List (LoraConfig F))
  parse_lora (text s) =
      lora_config (text s) (number py.full_strength) null >>= λ lora. ok (lora ∷ [])
  parse_lora (object ms) = do
    let raw = entries ms
    path ← required (lookup "path" raw) no_such_key
    lora ←
        lora_config path (get_or "strength" (number py.full_strength) raw)
          (get_value "adapter_name" raw)
    ok (lora ∷ [])
  parse_lora _ = ok []

  unfoldable pub parse_loras : List (Json F) → Parsed (List (LoraConfig F))
  parse_loras [] = ok []
  parse_loras (j ∷ js) = do lora ← parse_lora j; rest ← parse_loras js; ok (lora ++ rest)

  abbrev pub key_texts : Dict (Json F) → List (Json F)
  key_texts = map (λ e. text e.0)

  -- `for x in v`
  abbrev pub iterate : Json F → Parsed (List (Json F))
  iterate (array js) = ok (items js)
  iterate (object ms) = ok (key_texts (entries ms))
  iterate (text s) = ok (map text (py.characters s))
  iterate _ = raised wrong_type

  unfoldable pub lora_paths_of : String → List (LoraConfig F) → Parsed (List String)
  lora_paths_of root [] = ok []
  lora_paths_of root (l ∷ ls) = do
    p ← plain_text wrong_type l.path
    ps ← lora_paths_of root ls
    ok (py.join root p ∷ ps)

  unfoldable pub check_removed : Dict (Json F) → List String → Parsed (Unit {0})
  check_removed raw [] = ok tt
  check_removed raw (f ∷ fs) = do
    refuse (not (is_null (get_value f raw))) (removed_field f)
    check_removed raw fs

  -- What a mode refers to, each of which must be there
  unfoldable pub parse_names : Surroundings F → Dict (Json F) → Parsed ModeNames
  parse_names around raw = do
    set_name ←
        hashable (unknown_reference "resolution_set")
          (or_default py (get_value "resolution_set" raw) (text "default"))
    options ← found_or (lookup set_name around.resolution_sets) (unknown_reference "resolution_set")
    size ← hashable (invalid "default_size") (get_or "default_size" (text "512x512") raw)
    refuse (not (member size (sizes options))) (invalid "default_size")
    let delegate = normalize_optional_string py (get_value "chat_delegate" raw)
    refuse (not (is_known delegate around.chat.chat_delegates)) (unknown_reference "chat_delegate")
    let profile = normalize_optional_string py (get_value "analysis_profile" raw)
    refuse (not (is_known profile around.analysis.analysis_profiles))
        (unknown_reference "analysis_profile")
    ok (record {
      resolution_set = set_name;
      resolution_options = options;
      default_size = size;
      chat_delegate = delegate;
      analysis_profile = profile;
    })

  -- The `ModeConfig` of a round, of what was parsed before
  unfoldable pub mode_config :
      Surroundings F
      → String
      → Dict (Json F)
      → Json F
      → ModeNames
      → List (LoraConfig F)
      → ControlNetSection F
      → ConditioningConfig
      → String
      → List String
      → ModeConfig F
  mode_config around name raw model names loras policy conditioning model_name lora_paths = record {
    name = name;
    model = model;
    loras = loras;
    resolution_set = names.resolution_set;
    resolution_options = names.resolution_options;
    default_size = names.default_size;
    default_steps = get_or "default_steps" (number py.four_steps) raw;
    default_guidance = get_or "default_guidance" (number py.full_strength) raw;
    maximum_len = get_value "maximum_len" raw;
    loader_format = get_value "loader_format" raw;
    checkpoint_precision = get_value "checkpoint_precision" raw;
    checkpoint_variant = get_value "checkpoint_variant" raw;
    scheduler_profile = get_value "scheduler_profile" raw;
    recommended_size = get_value "recommended_size" raw;
    runtime_quantize = get_value "runtime_quantize" raw;
    runtime_offload = get_value "runtime_offload" raw;
    runtime_attention_slicing = get_value "runtime_attention_slicing" raw;
    runtime_enable_xformers = get_value "runtime_enable_xformers" raw;
    negative_prompt_templates =
        or_default py (get_value "negative_prompt_templates" raw) (mapping_of []);
    default_negative_prompt_template = get_value "default_negative_prompt_template" raw;
    allow_custom_negative_prompt =
        truthy py (get_or "allow_custom_negative_prompt" (boolean false) raw);
    allowed_scheduler_ids = get_value "allowed_scheduler_ids" raw;
    default_scheduler_id = get_value "default_scheduler_id" raw;
    chat_delegate = names.chat_delegate;
    analysis_profile = names.analysis_profile;
    metadata = get_or "metadata" (mapping_of []) raw;
    controlnet_policy = policy;
    conditioning = conditioning;
    model_path = py.join around.model_root model_name;
    lora_paths = lora_paths;
  }

  -- A round of the loop over the modes
  unfoldable pub parse_mode : Surroundings F → String → Json F → Parsed (ModeConfig F)
  parse_mode around name j = do
    raw ← mapping wrong_type j
    model ← required (lookup "model" raw) (missing "model")
    refuse (not (is_null (get_value "chat" raw))) (removed_field "chat")
    check_removed raw removed_fields
    names ← parse_names around raw
    raw_loras ← iterate (get_or "loras" (array nil) raw)
    loras ← parse_loras raw_loras
    policy ← parse_controlnet_policy py (get_value "controlnet_policy" raw)
    conditioning ← parse_conditioning_config py.strip (get_value "conditioning" raw)
    model_name ← plain_text wrong_type model
    lora_paths ← lora_paths_of around.lora_root loras
    ok (mode_config around name raw model names loras policy conditioning model_name lora_paths)
