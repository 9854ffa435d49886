-- ===== src/Modes/Manager.antt =====
-- server/mode_config.py: the modes in the document that `save_config` writes, and the manager.
use stability_toys.Prelude.{
  String, Bool, true, false, not, List, [], ◌∷◌, ◌++◌, Option, none, some, ◌||◌, if◌then◌else◌,
}
use stability_toys.Prelude.Dict.{Dict, lookup, contains}
use stability_toys.Prelude.Effects.{ok, raised}
use stability_toys.Prelude.Outcome.{◌>>=◌, ◌>>◌, refuse}
use stability_toys.Analysis.Json.{Json, null, boolean, number, text, array, object, nil, end}
use stability_toys.Modes.Values.{
  unreadable, wrong_type, no_such_key, not_supported, malformed, removed_field, unknown_reference,
  Parsed, Builtins, get_value, get_or, is_null, required, mapping, parse_all, mapping_of, array_of,
  truthy, or_default, normalize_optional_string,
}
use stability_toys.Modes.Sections.{section}
use stability_toys.Modes.Policies.{parse_conditioning_config, conditioning_to_dict, optional_text}
use stability_toys.Modes.Model.{ModesYaml, removed_fields}
use stability_toys.Modes.Parse.{check_removed, iterate}
use stability_toys.Modes.Load.{load_config}
use stability_toys.Modes.Save.{
  entry_if, entry_unless_null, is_default, capability_fields, taken_over, save_chat, save_analysis,
}

pub record ModeConfigManager (F : Type 0) : Type 0 where
  pub config : ModesYaml F
  -- What YAML reads of modes.yml; `none` where it is missing or no YAML
  pub file : Option (Json F)

abbrev pub is_no_chat : {F : Type 0} → Json F → Bool
is_no_chat null = true
is_no_chat (object end) = true
is_no_chat _ = false

module _ {F : Type 0} (py : Builtins F) where
  -- A name that a mode refers to must be one of a section. A section that is no mapping is
  -- `malformed` here too.
  abbrev pub check_reference : String → Option String → Dict (Json F) → Parsed (Unit {0})
  check_reference key none data' = ok tt
  check_reference key (some name) data' = do
    names ← section py key data'
    refuse (not (contains name names)) (unknown_reference name)

  unfoldable pub lora_entry : Json F → Parsed (Json F)
  lora_entry j = do
    lora ← mapping wrong_type j
    path ← required (lookup "path" lora) no_such_key
    let strength = get_or "strength" (number py.full_strength) lora
    ok (
        if py.equals strength (number py.full_strength)
        then path
        else mapping_of (("path", path) ∷ ("strength", strength) ∷ []))

  unfoldable pub lora_entries : List (Json F) → Parsed (List (Json F))
  lora_entries [] = ok []
  lora_entries (j ∷ js) = lora_entry j >>= λ l. lora_entries js >>= λ ls. ok (l ∷ ls)

  abbrev pub loras_block : Json F → Parsed (Dict (Json F))
  loras_block j =
      if truthy py j
      then (iterate py j >>= λ js.
          lora_entries js >>= λ ls. ok (("loras", array (array_of ls)) ∷ []))
      else ok []

  abbrev pub has_policy : Dict (Json F) → Bool
  has_policy p =
      truthy py (get_value "enabled" p)
      || (not (
            py.equals (get_or "max_attachments" (number py.no_attachments) p)
              (number py.no_attachments))
          || (truthy py (get_or "allow_reuse_emitted_maps" (boolean false) p)
              || truthy py (get_value "allowed_control_types" p)))

  abbrev pub policy_block : Dict (Json F) → Dict (Json F)
  policy_block p = entry_if (has_policy p) "controlnet_policy" (
      mapping_of (
        ("enabled", get_or "enabled" (boolean false) p)
        ∷ ("max_attachments", get_or "max_attachments" (number py.no_attachments) p)
        ∷ ("allow_reuse_emitted_maps", get_or "allow_reuse_emitted_maps" (boolean false) p)
        ∷ (
          "allowed_control_types",
          or_default py (get_value "allowed_control_types" p) (mapping_of []),
        )
        ∷ []))

  abbrev pub present : String → Dict (Json F) → Dict (Json F)
  present key raw = entry_if (contains key raw) key (get_value key raw)

  -- A round of the loop over the modes of `save_config`
  unfoldable pub mode_entry : Dict (Json F) → String → Json F → Parsed (Json F)
  mode_entry data' name j = do
    raw ← mapping wrong_type j
    model ← required (lookup "model" raw) no_such_key
    refuse (not (is_null (get_value "chat" raw))) (removed_field "chat")
    check_removed py raw removed_fields
    let delegate = normalize_optional_string py (get_value "chat_delegate" raw)
    check_reference "chat_delegates" delegate data'
    let profile = normalize_optional_string py (get_value "analysis_profile" raw)
    check_reference "analysis_profiles" profile data'
    conditioning ← parse_conditioning_config py.strip (get_value "conditioning" raw)
    loras ← loras_block (get_or "loras" (array nil) raw)
    policy ← mapping wrong_type (or_default py (get_value "controlnet_policy" raw) (mapping_of []))
    ok (
        mapping_of (
          (("model", model)
            ∷ ("default_size", get_or "default_size" (text "512x512") raw)
            ∷ ("default_steps", get_or "default_steps" (number py.four_steps) raw)
            ∷ ("default_guidance", get_or "default_guidance" (number py.full_strength) raw)
            ∷ [])
          ++ (entry_unless_null "maximum_len" (get_value "maximum_len" raw)
              ++ (entry_unless_null "resolution_set" (get_value "resolution_set" raw)
                  ++ (taken_over raw capability_fields
                      ++ (
                        "negative_prompt_templates",
                        or_default py (get_value "negative_prompt_templates" raw) (mapping_of []),
                      )
                        ∷ (taken_over raw ("default_negative_prompt_template" ∷ [])
                            ++ (
                              "allow_custom_negative_prompt",
                              boolean (
                                  truthy py
                                    (get_or "allow_custom_negative_prompt" (boolean false) raw)),
                            )
                              ∷ (present "allowed_scheduler_ids" raw
                                  ++ (taken_over raw ("default_scheduler_id" ∷ [])
                                      ++ (entry_unless_null "chat_delegate" (optional_text delegate)
                                          ++ (entry_unless_null "analysis_profile"
                                                (optional_text profile)
                                              ++ (entry_if (not (is_default conditioning))
                                                    "conditioning"
                                                    (conditioning_to_dict conditioning)
                                                  ++ (loras ++ policy_block policy))))))))))))

  -- The document that `save_config` writes, up to the modes
  unfoldable pub saved_head : Dict (Json F) → Parsed (Dict (Json F))
  saved_head data' = do
    sets ← mapping (malformed "resolution_sets") (get_value "resolution_sets" data')
    model_root ← required (lookup "model_root" data') no_such_key
    lora_root ← required (lookup "lora_root" data') no_such_key
    default_mode ← required (lookup "default_mode" data') no_such_key
    modes ← required (lookup "modes" data') no_such_key
    raw_modes ← mapping wrong_type modes
    entries ← parse_all (mode_entry data') raw_modes
    ok (
        ("model_root", model_root)
        ∷ ("lora_root", lora_root)
        ∷ ("default_mode", default_mode)
        ∷ ("resolution_sets", mapping_of sets)
        ∷ ("modes", mapping_of entries)
        ∷ [])

  -- The document that `save_config` writes
  unfoldable pub saved_document : Dict (Json F) → Parsed (Json F)
  saved_document data' = do
    head ← saved_head data'
    refuse (not (is_no_chat (get_value "chat" data'))) not_supported
    chat ← save_chat py data'
    analysis ← save_analysis py data'
    ok (mapping_of ((head ++ chat) ++ analysis))

  abbrev pub Manager : Type 0
  Manager = ModeConfigManager F

  abbrev pub adopt : Manager → Parsed (ModesYaml F) → Parsed (Unit {0}) × Manager
  adopt m (raised e) = (raised e, m)
  adopt m (ok config) = (ok tt, record m { config = config })

  abbrev pub load_file : Option (Json F) → Parsed (ModesYaml F)
  load_file none = raised unreadable
  load_file (some j) = load_config py j

  -- `ModeConfigManager(...)`, of a file
  unfoldable pub open_manager : Option (Json F) → Parsed Manager
  open_manager file = load_file file >>= λ config. ok (record { config = config; file = file })

  -- `reload`
  unfoldable pub reload : Manager → Parsed (Unit {0}) × Manager
  reload m = adopt m (load_file m.file)

  abbrev pub replace_file : Manager → Parsed (Json F) → Parsed (Unit {0}) × Manager
  replace_file m (raised e) = (raised e, m)
  replace_file m (ok document) = reload (record m { file = py.reread document })

  -- `save_config`
  unfoldable pub save_config : Manager → Dict (Json F) → Parsed (Unit {0}) × Manager
  save_config m data' = replace_file m (saved_document data')
