-- ===== src/Modes/Save.antt =====
-- server/mode_config.py: the document that `save_config` writes.
use stability_toys.Prelude.{String, Bool, true, false, not, List, [], ◌∷◌, ◌++◌, ◌&&◌}
use stability_toys.Prelude.Dict.{Dict}
use stability_toys.Prelude.Effects.{ok}
use stability_toys.Prelude.Outcome.{◌>>=◌}
use stability_toys.Conditioning.Chain.{ConditioningConfig}
use stability_toys.Analysis.Json.{Json, number, text}
use stability_toys.Modes.Values.{
  Parsed, Builtins, get_value, is_null, is_name, parse_all, map_values, mapping_of,
}
use stability_toys.Modes.Sections.{
  ChatConnectionConfig, AnalysisConnectionConfig, ChatDelegateConfig, AnalysisDelegateConfig,
  AnalysisProfileConfig, ChatSections, AnalysisSections, load_analysis,
  parse_chat_connection_config, parse_chat_delegate_config, section,
}
use stability_toys.Modes.Policies.{has_no_service, optional_text}

abbrev pub is_nil {ℓ} : {A : Type ℓ} → List A → Bool
is_nil [] = true
is_nil (_ ∷ _) = false

-- `if test: d[key] = value`
abbrev pub entry_if : {F : Type 0} → Bool → String → Json F → Dict (Json F)
entry_if true key value = (key, value) ∷ []
entry_if false key value = []

-- `if value is not None: d[key] = value`
abbrev pub entry_unless_null : {F : Type 0} → String → Json F → Dict (Json F)
entry_unless_null key value = entry_if (not (is_null value)) key value

-- `config == ConditioningConfig()`
abbrev pub is_default : ConditioningConfig → Bool
is_default c =
    has_no_service c.service
    && (is_nil c.filter_names && (c.native_when_unconfigured && not c.native_on_failure))

abbrev pub capability_fields : List String
capability_fields =
    "loader_format" ∷ "checkpoint_precision" ∷ "checkpoint_variant" ∷ "scheduler_profile"
    ∷ "recommended_size" ∷ "runtime_quantize" ∷ "runtime_offload" ∷ "runtime_attention_slicing"
    ∷ "runtime_enable_xformers" ∷ []

module _ {F : Type 0} where
  unfoldable pub taken_over : Dict (Json F) → List String → Dict (Json F)
  taken_over raw [] = []
  taken_over raw (k ∷ ks) = entry_unless_null k (get_value k raw) ++ taken_over raw ks

  abbrev pub chat_connection_entry : ChatConnectionConfig → Json F
  chat_connection_entry c =
      mapping_of (("endpoint", text c.endpoint) ∷ ("api_key_env", text c.api_key_env) ∷ [])

  abbrev pub analysis_connection_entry : AnalysisConnectionConfig → Json F
  analysis_connection_entry c =
      mapping_of (("endpoint", text c.endpoint) ∷ ("api_key_env", text c.api_key_env) ∷ [])

  unfoldable pub delegate_entries : AnalysisDelegateConfig F → Dict (Json F)
  delegate_entries d =
      ("connection", text d.connection)
      ∷ ("kind", text d.kind)
      ∷ ("model", text d.model)
      ∷ (entry_if (not (is_name d.provider "stub")) "provider" (text d.provider)
          ++ entry_if (not (is_nil d.options)) "options" (mapping_of d.options))

  -- `_analysis_delegate_to_dict`
  unfoldable pub analysis_delegate_to_dict : AnalysisDelegateConfig F → Json F
  analysis_delegate_to_dict d = mapping_of (delegate_entries d)

  abbrev pub profile_entry : AnalysisProfileConfig → Json F
  profile_entry p = mapping_of (("task_routes", mapping_of (map_values text p.task_routes)) ∷ [])

  -- `if raw: yaml_data[key] = {...}`
  abbrev pub section_entry : {A : Type 0} → String → (A → Json F) → Dict A → Dict (Json F)
  section_entry key write d = entry_if (not (is_nil d)) key (mapping_of (map_values write d))

module _ {F : Type 0} (py : Builtins F) where
  abbrev pub chat_delegate_entry : ChatDelegateConfig F → Json F
  chat_delegate_entry d = mapping_of (
      (("connection", text d.connection)
        ∷ ("model", text d.model)
        ∷ entry_if (not (py.equals (number d.max_tokens) (number py.default_tokens))) "max_tokens"
            (number d.max_tokens))
      ++ (entry_if (not (py.equals (number d.temperature) (number py.default_temperature)))
            "temperature" (number d.temperature)
          ++ entry_unless_null "system_prompt" (optional_text d.system_prompt)))

  abbrev pub chat_entries : ChatSections F → Dict (Json F)
  chat_entries c =
      section_entry "chat_connections" chat_connection_entry c.chat_connections
      ++ section_entry "chat_delegates" chat_delegate_entry c.chat_delegates

  -- What `save_config` parses of the sections on chat
  unfoldable pub given_chat : Dict (Json F) → Parsed (ChatSections F)
  given_chat data' = do
    raw_connections ← section py "chat_connections" data'
    connections ← parse_all (parse_chat_connection_config py) raw_connections
    raw_delegates ← section py "chat_delegates" data'
    delegates ← parse_all (parse_chat_delegate_config py connections) raw_delegates
    ok (record { chat_connections = connections; chat_delegates = delegates })

  -- The part of `save_config` on chat
  unfoldable pub save_chat : Dict (Json F) → Parsed (Dict (Json F))
  save_chat data' = given_chat data' >>= λ c. ok (chat_entries c)

  abbrev pub analysis_entries : AnalysisSections F → Dict (Json F)
  analysis_entries a =
      section_entry "analysis_connections" analysis_connection_entry a.analysis_connections
      ++ (section_entry "analysis_delegates" analysis_delegate_to_dict a.analysis_delegates
          ++ section_entry "analysis_profiles" profile_entry a.analysis_profiles)

  -- The part of `save_config` on analysis: it parses the sections as `_load_config` does.
  unfoldable pub save_analysis : Dict (Json F) → Parsed (Dict (Json F))
  save_analysis data' = load_analysis py data' >>= λ a. ok (analysis_entries a)
