-- ===== src/Modes/Model.antt =====
-- server/mode_config.py: the records of a loaded configuration.
use stability_toys.Prelude.{String, Bool, true, List, [], ◌∷◌, map, Option, none, some}
use stability_toys.Prelude.Dict.{Dict, contains}
use stability_toys.Prelude.Effects.{Result, ok, raised}
use stability_toys.Conditioning.Chain.{ConditioningConfig}
use stability_toys.Analysis.Json.{Json, text, array, object}
use stability_toys.Modes.Values.{ModeError, wrong_type, Parsed}
use stability_toys.Modes.Sections.{ChatSections, AnalysisSections}
use stability_toys.Modes.Policies.{ControlNetSection}

pub record LoraConfig (F : Type 0) : Type 0 where
  pub path : Json F
  pub strength : Json F
  pub adapter_name : Json F

pub record ResolutionOption : Type 0 where
  pub size : String
  pub aspect_ratio : String

-- A field that `_load_config` takes over unread is a value.
pub record ModeConfig (F : Type 0) : Type 0 where
  pub name : String
  pub model : Json F
  pub loras : List (LoraConfig F)
  pub resolution_set : String
  pub resolution_options : List ResolutionOption
  pub default_size : String
  pub default_steps : Json F
  pub default_guidance : Json F
  pub maximum_len : Json F
  pub loader_format : Json F
  pub checkpoint_precision : Json F
  pub checkpoint_variant : Json F
  pub scheduler_profile : Json F
  pub recommended_size : Json F
  pub runtime_quantize : Json F
  pub runtime_offload : Json F
  pub runtime_attention_slicing : Json F
  pub runtime_enable_xformers : Json F
  pub negative_prompt_templates : Json F
  pub default_negative_prompt_template : Json F
  pub allow_custom_negative_prompt : Bool
  pub allowed_scheduler_ids : Json F
  pub default_scheduler_id : Json F
  pub chat_delegate : Option String
  pub analysis_profile : Option String
  pub metadata : Json F
  pub controlnet_policy : ControlNetSection F
  pub conditioning : ConditioningConfig
  pub model_path : String
  pub lora_paths : List String

pub record ModesYaml (F : Type 0) : Type 0 where
  pub model_root : String
  pub lora_root : String
  pub default_mode : String
  pub resolution_sets : Dict (List ResolutionOption)
  pub chat : ChatSections F
  pub analysis : AnalysisSections F
  pub modes : Dict (ModeConfig F)

abbrev pub removed_fields : List String
removed_fields =
    "chat_connection" ∷ "chat_model" ∷ "chat_max_tokens" ∷ "chat_temperature" ∷ "chat_system_prompt"
    ∷ []

abbrev pub sizes : List ResolutionOption → List String
sizes = map (λ o. o.size)

abbrev pub is_known {ℓ} : {V : Type ℓ} → Option String → Dict V → Bool
is_known none d = true
is_known (some k) d = contains k d

abbrev pub name_or_empty : Option String → String
name_or_empty none = ""
name_or_empty (some s) = s

-- The size and the options of a mode, and the names that it refers to
pub record ModeNames : Type 0 where
  pub resolution_set : String
  pub resolution_options : List ResolutionOption
  pub default_size : String
  pub chat_delegate : Option String
  pub analysis_profile : Option String

-- What a round of the loop over the modes reads of the rest of the file
pub record Surroundings (F : Type 0) : Type 0 where
  pub model_root : String
  pub lora_root : String
  pub resolution_sets : Dict (List ResolutionOption)
  pub chat : ChatSections F
  pub analysis : AnalysisSections F

abbrev pub found_or {ℓ} : {V : Type ℓ} → Option V → ModeError → Result ModeError V
found_or none e = raised e
found_or (some v) e = ok v

-- A text that is looked up in a set or a dict: a list or a mapping is a TypeError there.
abbrev pub hashable : {F : Type 0} → ModeError → Json F → Parsed String
hashable e (text s) = ok s
hashable e (array _) = raised wrong_type
hashable e (object _) = raised wrong_type
hashable e _ = raised e
