-- ===== src/Modes/Load.antt =====
-- server/mode_config.py: `_load_config`.
use stability_toys.Prelude.{not, Option, none, some}
use stability_toys.Prelude.Dict.{Dict, lookup, contains}
use stability_toys.Prelude.Effects.{ok, raised}
use stability_toys.Prelude.Outcome.{◌>>=◌, ◌>>◌, refuse}
use stability_toys.Analysis.Json.{Json}
use stability_toys.Modes.Values.{
  ModeError, empty_file, no_default_set, wrong_type, missing, removed_field, unknown_reference,
  Parsed, Builtins, get_value, get_or, required, mapping, plain_text, parse_all, truthy,
}
use stability_toys.Modes.Sections.{load_chat, load_analysis}
use stability_toys.Modes.Model.{ModesYaml, Surroundings, hashable}
use stability_toys.Modes.Parse.{parse_entries, parse_mode}

abbrev pub raw_resolution_sets : {F : Type 0} → Dict (Json F) → Parsed (Dict (Json F))
raw_resolution_sets data' = do
  raw ← mapping no_default_set (get_value "resolution_sets" data')
  refuse (not (contains "default" raw)) no_default_set
  ok raw

module _ {F : Type 0} (py : Builtins F) where
  -- The tests that the fields of the file are there
  abbrev pub require_truthy : ModeError → Option (Json F) → Parsed (Json F)
  require_truthy e none = raised e
  require_truthy e (some j) = refuse (not (truthy py j)) e >> ok j

  abbrev pub document : Json F → Parsed (Dict (Json F))
  document j = do refuse (not (truthy py j)) empty_file; mapping wrong_type j

  -- The paths and the sections: what the modes are read against
  unfoldable pub load_surroundings : Json F → Dict (Json F) → Parsed (Surroundings F)
  load_surroundings root data' = do
    raw_sets ← raw_resolution_sets data'
    model_root ← plain_text wrong_type root
    lora_root ← plain_text wrong_type (get_or "lora_root" root data')
    sets ← parse_all (parse_entries py) raw_sets
    refuse (contains "chat" data') (removed_field "chat")
    chat ← load_chat py data'
    analysis ← load_analysis py data'
    ok (record {
      model_root = py.expand model_root;
      lora_root = py.expand lora_root;
      resolution_sets = sets;
      chat = chat;
      analysis = analysis;
    })

  -- `_load_config`, from what YAML reads; a file that is no mapping is a `wrong_type`.
  unfoldable pub load_config : Json F → Parsed (ModesYaml F)
  load_config j = do
    data' ← document j
    root ← required (lookup "model_root" data') (missing "model_root")
    default ← required (lookup "default_mode" data') (missing "default_mode")
    raw ← require_truthy (missing "modes") (lookup "modes" data')
    around ← load_surroundings root data'
    raw_modes ← mapping wrong_type raw
    modes ← parse_all (parse_mode py around) raw_modes
    default_mode ← hashable (unknown_reference "default_mode") default
    refuse (not (contains default_mode modes)) (unknown_reference "default_mode")
    ok (record {
      model_root = around.model_root;
      lora_root = around.lora_root;
      default_mode = default_mode;
      resolution_sets = around.resolution_sets;
      chat = around.chat;
      analysis = around.analysis;
      modes = modes;
    })
