-- ===== src/Modes/Export.antt =====
-- server/mode_config.py: `to_dict`, the configuration as the document that a client edits.
use stability_toys.Prelude.{List, [], ◌∷◌, map}
use stability_toys.Prelude.Dict.{Dict}
use stability_toys.Analysis.Json.{Json, boolean, number, text, array}
use stability_toys.Modes.Values.{Builtins, map_values, mapping_of, array_of}
use stability_toys.Modes.Sections.{ChatDelegateConfig}
use stability_toys.Modes.Policies.{conditioning_to_dict, controlnet_policy_to_dict, optional_text}
use stability_toys.Modes.Model.{LoraConfig, ResolutionOption, ModeConfig, ModesYaml}
use stability_toys.Modes.Save.{
  chat_connection_entry, analysis_connection_entry, analysis_delegate_to_dict, profile_entry,
}

module _ {F : Type 0} where
  abbrev pub delegate_to_dict : ChatDelegateConfig F → Json F
  delegate_to_dict d = mapping_of (
      ("connection", text d.connection)
      ∷ ("model", text d.model)
      ∷ ("max_tokens", number d.max_tokens)
      ∷ ("temperature", number d.temperature)
      ∷ ("system_prompt", optional_text d.system_prompt)
      ∷ [])

  abbrev pub lora_to_dict : LoraConfig F → Json F
  lora_to_dict l =
      mapping_of
        (("path", l.path) ∷ ("strength", l.strength) ∷ ("adapter_name", l.adapter_name) ∷ [])

  abbrev pub option_to_dict : ResolutionOption → Json F
  option_to_dict o = mapping_of (("size", text o.size) ∷ ("aspect_ratio", text o.aspect_ratio) ∷ [])

  abbrev pub options_to_dict : List ResolutionOption → Json F
  options_to_dict os = array (array_of (map option_to_dict os))

module _ {F : Type 0} (py : Builtins F) where
  -- An entry of `modes`
  unfoldable pub mode_to_dict : ModeConfig F → Json F
  mode_to_dict m = mapping_of (
      ("model", m.model)
      ∷ ("model_path", text m.model_path)
      ∷ ("loras", array (array_of (map lora_to_dict m.loras)))
      ∷ ("resolution_set", text m.resolution_set)
      ∷ ("resolution_options", options_to_dict m.resolution_options)
      ∷ ("default_size", text m.default_size)
      ∷ ("default_steps", m.default_steps)
      ∷ ("default_guidance", m.default_guidance)
      ∷ ("maximum_len", m.maximum_len)
      ∷ ("loader_format", m.loader_format)
      ∷ ("checkpoint_precision", m.checkpoint_precision)
      ∷ ("checkpoint_variant", m.checkpoint_variant)
      ∷ ("scheduler_profile", m.scheduler_profile)
      ∷ ("recommended_size", m.recommended_size)
      ∷ ("runtime_quantize", m.runtime_quantize)
      ∷ ("runtime_offload", m.runtime_offload)
      ∷ ("runtime_attention_slicing", m.runtime_attention_slicing)
      ∷ ("runtime_enable_xformers", m.runtime_enable_xformers)
      ∷ ("negative_prompt_templates", m.negative_prompt_templates)
      ∷ ("default_negative_prompt_template", m.default_negative_prompt_template)
      ∷ ("allow_custom_negative_prompt", boolean m.allow_custom_negative_prompt)
      ∷ ("allowed_scheduler_ids", m.allowed_scheduler_ids)
      ∷ ("default_scheduler_id", m.default_scheduler_id)
      ∷ ("chat_delegate", optional_text m.chat_delegate)
      ∷ ("analysis_profile", optional_text m.analysis_profile)
      ∷ ("metadata", m.metadata)
      ∷ ("conditioning", conditioning_to_dict m.conditioning)
      ∷ ("controlnet_policy", controlnet_policy_to_dict py m.controlnet_policy)
      ∷ [])

  -- `to_dict`
  unfoldable pub to_dict : ModesYaml F → Dict (Json F)
  to_dict c =
      ("model_root", text c.model_root)
      ∷ ("lora_root", text c.lora_root)
      ∷ ("default_mode", text c.default_mode)
      ∷ ("resolution_sets", mapping_of (map_values options_to_dict c.resolution_sets))
      ∷ ("chat_connections", mapping_of (map_values chat_connection_entry c.chat.chat_connections))
      ∷ ("chat_delegates", mapping_of (map_values delegate_to_dict c.chat.chat_delegates))
      ∷ (
        "analysis_connections",
        mapping_of (map_values analysis_connection_entry c.analysis.analysis_connections),
      )
      ∷ (
        "analysis_delegates",
        mapping_of (map_values analysis_delegate_to_dict c.analysis.analysis_delegates),
      )
      ∷ ("analysis_profiles", mapping_of (map_values profile_entry c.analysis.analysis_profiles))
      ∷ ("modes", mapping_of (map_values mode_to_dict c.modes))
      ∷ []
