-- ===== src/Modes/Tests.antt =====
-- A configuration is loaded, saved and asked for a chat backend.
use stability_toys.Prelude.{
  ℕ, Bool, true, false, List, [], ◌∷◌, Option, none, some, ◌≡◌, ◌⊎◌, refl, same_text, ltb, ◌==◌,
}
use stability_toys.Prelude.Dict.{Dict, lookup, insert}
use stability_toys.Prelude.Effects.{ok}
use stability_toys.Analysis.Json.{Json, null, boolean, number, text, array, object, end}
use stability_toys.Modes.Values.{
  Builtins, mapping_of, array_of, truthy, stripped, normalize_optional_string, parse_optional_int,
  parse_optional_float, parse_all,
}
use stability_toys.Modes.Sections.{
  analysis_providers, task_kinds, required_text, parse_chat_connection_config,
  parse_analysis_connection_config, parse_chat_delegate_config, parse_analysis_option,
  parse_analysis_options, parse_analysis_delegate_config, parse_route,
  parse_analysis_profile_config, load_chat, section, load_analysis,
}
use stability_toys.Modes.Model.{ModesYaml, ModeConfig}
use stability_toys.Modes.Policies.{
  conditioning_keys, conditioning_fallback_keys, controlnet_policy_keys, controlnet_type_keys,
  texts, parse_conditioning, parse_conditioning_config, conditioning_to_dict, parse_control_type,
  parse_policy, parse_controlnet_policy, control_type_to_dict, controlnet_policy_to_dict,
}
use stability_toys.Modes.Parse.{
  parse_resolution_option, parse_resolution_options, lora_config, parse_lora, parse_loras,
  lora_paths_of, check_removed, parse_names, mode_config, parse_mode,
}
use stability_toys.Modes.Load.{load_surroundings, load_config}
use stability_toys.Modes.Chat.{
  get_mode, get_default_mode_config, merge_system_prompts, chat_backend, resolve_chat_config,
}
use stability_toys.Modes.Save.{
  taken_over, delegate_entries, analysis_delegate_to_dict, given_chat, save_chat, save_analysis,
}
use stability_toys.Modes.Loading.{IsConsistent, load_config-IsConsistent}
use stability_toys.Modes.Running.{
  Call, save, edit, reload_call, run, manager-IsConsistent, NoBackend, DelegateBackend,
  resolve_chat_config-Chats,
}
use stability_toys.Modes.Saved.{analysis-save_config}
use stability_toys.Modes.Blocks.{parse-controlnet_policy_to_dict}
use stability_toys.Modes.Export.{mode_to_dict, to_dict}
use stability_toys.Modes.Exported.{save_config-to_dict}
use stability_toys.Modes.Manager.{
  ModeConfigManager, lora_entry, lora_entries, mode_entry, saved_head, saved_document, open_manager,
  reload, save_config,
}

program : Unit {0}
unfolding lookup insert same_text truthy stripped normalize_optional_string parse_optional_int
    parse_optional_float parse_all analysis_providers task_kinds required_text
    parse_chat_connection_config parse_analysis_connection_config parse_chat_delegate_config
    parse_analysis_option parse_analysis_options parse_analysis_delegate_config parse_route
    parse_analysis_profile_config load_chat section load_analysis conditioning_keys
    conditioning_fallback_keys controlnet_policy_keys controlnet_type_keys texts parse_conditioning
    parse_conditioning_config conditioning_to_dict parse_control_type parse_policy
    parse_controlnet_policy control_type_to_dict controlnet_policy_to_dict parse_resolution_option
    parse_resolution_options lora_config parse_lora parse_loras lora_paths_of check_removed
    parse_names mode_config parse_mode load_surroundings load_config get_mode
    get_default_mode_config merge_system_prompts chat_backend resolve_chat_config taken_over
    delegate_entries analysis_delegate_to_dict given_chat save_chat save_analysis lora_entry
    lora_entries mode_entry saved_head saved_document open_manager reload save_config mode_to_dict
    to_dict
program = tt

abbrev as_number : Json ℕ → Option ℕ
as_number (number n) = some n
as_number _ = none

abbrev same_number : Json ℕ → Json ℕ → Bool
same_number (number a) (number b) = a == b
same_number _ _ = false

-- Numbers are natural, temperatures and strengths are in tenths, and texts have no spaces around.
abbrev py : Builtins ℕ
py = record {
  strip = λ s. s;
  show = λ _. "?";
  characters = λ _. [];
  int_of = as_number;
  float_of = as_number;
  equals = same_number;
  reread = λ j. some j;
  is_int = λ _. true;
  is_zero = λ n. n == 0;
  is_positive = λ n. ltb 0 n;
  is_not_negative = λ _. true;
  expand = λ p. p;
  join = λ p q. q;
  stem = λ p. p;
  concat = λ p q. q;
  no_attachments = 0;
  four_steps = 4;
  default_tokens = 1024;
  zero_strength = 0;
  default_temperature = 7;
  full_strength = 10;
  double_strength = 20;
}

abbrev analysis_part : Dict (Json ℕ)
analysis_part =
    (
      "analysis_connections",
      mapping_of (("local", mapping_of (("endpoint", text "http://vlm") ∷ [])) ∷ []),
    )
    ∷ (
      "analysis_delegates",
      mapping_of (
          (
            "captioner",
            mapping_of (
                ("connection", text "local")
                ∷ ("kind", text "caption")
                ∷ ("model", text "qwen")
                ∷ ("provider", text "openai_vlm")
                ∷ ("options", mapping_of (("max_tokens", number 64) ∷ []))
                ∷ []),
          )
          ∷ []),
    )
    ∷ (
      "analysis_profiles",
      mapping_of (
          (
            "describe",
            mapping_of (("task_routes", mapping_of (("caption", text "captioner") ∷ [])) ∷ []),
          )
          ∷ []),
    )
    ∷ []

abbrev conditioning_part : Dict (Json ℕ)
conditioning_part =
    ("service", text "compel") ∷ ("filters", array (array_of (text "trim" ∷ []))) ∷ []

abbrev policy_part : Dict (Json ℕ)
policy_part =
    ("enabled", boolean true)
    ∷ ("max_attachments", number 2)
    ∷ (
      "allowed_control_types",
      mapping_of (
          (
            "canny",
            mapping_of (
                ("allowed_model_ids", array (array_of (text "canny-sd15" ∷ [])))
                ∷ ("max_strength", number 15)
                ∷ []),
          )
          ∷ []),
    )
    ∷ []

abbrev mode_part : Json ℕ
mode_part = mapping_of (
    ("model", text "sd15.safetensors")
    ∷ ("chat_delegate", text "helper")
    ∷ ("analysis_profile", text "describe")
    ∷ ("conditioning", mapping_of conditioning_part)
    ∷ ("controlnet_policy", mapping_of policy_part)
    ∷ [])

abbrev data' : Dict (Json ℕ)
data' =
    ("model_root", text "/models")
    ∷ ("lora_root", text "/loras")
    ∷ ("default_mode", text "sd15")
    ∷ (
      "resolution_sets",
      mapping_of (
          (
            "default",
            array (
                array_of
                  (mapping_of (("size", text "512x512") ∷ ("aspect_ratio", text "1:1") ∷ []) ∷ [])),
          )
          ∷ []),
    )
    ∷ ("modes", mapping_of (("sd15", mode_part) ∷ []))
    ∷ (
      "chat_connections",
      mapping_of (("main", mapping_of (("endpoint", text "http://chat") ∷ [])) ∷ []),
    )
    ∷ (
      "chat_delegates",
      mapping_of
          (("helper", mapping_of (("connection", text "main") ∷ ("model", text "gpt") ∷ [])) ∷ []),
    )
    ∷ analysis_part

abbrev sd15 : ModeConfig ℕ
sd15 = record {
  name = "sd15";
  model = text "sd15.safetensors";
  loras = [];
  resolution_set = "default";
  resolution_options = record { size = "512x512"; aspect_ratio = "1:1" } ∷ [];
  default_size = "512x512";
  default_steps = number 4;
  default_guidance = number 10;
  maximum_len = null;
  loader_format = null;
  checkpoint_precision = null;
  checkpoint_variant = null;
  scheduler_profile = null;
  recommended_size = null;
  runtime_quantize = null;
  runtime_offload = null;
  runtime_attention_slicing = null;
  runtime_enable_xformers = null;
  negative_prompt_templates = object end;
  default_negative_prompt_template = null;
  allow_custom_negative_prompt = false;
  allowed_scheduler_ids = null;
  default_scheduler_id = null;
  chat_delegate = some "helper";
  analysis_profile = some "describe";
  metadata = object end;
  controlnet_policy = record {
    enabled = true;
    max_attachments = 2;
    allow_reuse_emitted_maps = false;
    allowed_control_types =
        (
          "canny",
          record {
            default_model_id = null;
            allowed_model_ids = "canny-sd15" ∷ [];
            allow_preprocess = true;
            default_strength = 10;
            min_strength = 0;
            max_strength = 15;
          },
        )
        ∷ [];
  };
  conditioning = record {
    service = some "compel";
    filter_names = "trim" ∷ [];
    native_when_unconfigured = true;
    native_on_failure = false;
  };
  model_path = "sd15.safetensors";
  lora_paths = [];
}

abbrev config : ModesYaml ℕ
config = record {
  model_root = "/models";
  lora_root = "/loras";
  default_mode = "sd15";
  resolution_sets = ("default", record { size = "512x512"; aspect_ratio = "1:1" } ∷ []) ∷ [];
  chat = record {
    chat_connections =
        ("main", record { endpoint = "http://chat"; api_key_env = "OPENAI_API_KEY" }) ∷ [];
    chat_delegates =
        (
          "helper",
          record {
            name = "helper";
            connection = "main";
            model = "gpt";
            max_tokens = 1024;
            temperature = 7;
            system_prompt = none;
          },
        )
        ∷ [];
  };
  analysis = record {
    analysis_connections =
        ("local", record { endpoint = "http://vlm"; api_key_env = "OPENAI_API_KEY" }) ∷ [];
    analysis_delegates =
        (
          "captioner",
          record {
            name = "captioner";
            connection = "local";
            kind = "caption";
            model = "qwen";
            provider = "openai_vlm";
            options = ("max_tokens", number 64) ∷ [];
          },
        )
        ∷ [];
    analysis_profiles =
        ("describe", record { name = "describe"; task_routes = ("caption", "captioner") ∷ [] })
        ∷ [];
  };
  modes = ("sd15", sd15) ∷ [];
}

config_loads : load_config py (mapping_of data') ≡ ok config
unfolding program
config_loads = refl

abbrev manager : ModeConfigManager ℕ
manager = record { config = config; file = some (mapping_of data') }

manager_opens : open_manager py (some (mapping_of data')) ≡ ok manager
unfolding program
manager_opens = refl

save_returns : (save_config py manager data').0 ≡ ok tt
unfolding program
save_returns = refl

analysis_loads : load_analysis py data' ≡ ok config.analysis
unfolding program
analysis_loads = refl

-- The file is edited to something that does not load, and the manager keeps what it has.
abbrev calls : List (Call ℕ)
calls = save data' ∷ edit (some null) ∷ reload_call ∷ []

manager-IsConsistent_example :
    IsConsistent (run py manager calls).config
    × ((mode : ModeConfig ℕ) × (get_default_mode_config (run py manager calls).config ≡ ok mode))
manager-IsConsistent_example = manager-IsConsistent py (some (mapping_of data')) calls manager_opens

analysis-save_config_example : (save_config py manager data').1.config.analysis ≡ config.analysis
unfolding same_text
analysis-save_config_example =
    analysis-save_config py (λ s. refl) (λ j. refl) manager data' analysis_loads (refl, tt)
      save_returns

export_returns : (save_config py manager (to_dict py config)).0 ≡ ok tt
unfolding program
export_returns = refl

save_config-to_dict_example :
    (save_config py manager (to_dict py config)).1.config.analysis ≡ config.analysis
unfolding same_text
save_config-to_dict_example =
    save_config-to_dict py (λ s. refl) (λ j. refl) manager data' config_loads (refl, tt)
      export_returns

resolve_chat_config-Chats_example :
    NoBackend py
      (some "helper")
      (resolve_chat_config py config "sd15" (("model", text "other") ∷ []))
    ⊎ DelegateBackend py config
        (some "helper")
        (("model", text "other") ∷ [])
        (resolve_chat_config py config "sd15" (("model", text "other") ∷ []))
unfolding lookup same_text
resolve_chat_config-Chats_example =
    resolve_chat_config-Chats py config "sd15" sd15 (("model", text "other") ∷ [])
      (load_config-IsConsistent py (mapping_of data') config_loads) refl

conditioning_parses :
    parse_conditioning_config py.strip (mapping_of conditioning_part) ≡ ok sd15.conditioning
unfolding program
conditioning_parses = refl

policy_parses : parse_controlnet_policy py (mapping_of policy_part) ≡ ok sd15.controlnet_policy
unfolding program
policy_parses = refl

parse-controlnet_policy_to_dict_example :
    parse_controlnet_policy py (controlnet_policy_to_dict py sd15.controlnet_policy)
    ≡ ok sd15.controlnet_policy
parse-controlnet_policy_to_dict_example =
    parse-controlnet_policy_to_dict py (λ j x e. refl) (λ j x e. refl) policy_part policy_parses
