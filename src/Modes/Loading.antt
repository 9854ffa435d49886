-- ===== src/Modes/Loading.antt =====
-- The references of the modes that `_load_config` returns, and of the default mode.
use stability_toys.Prelude.{String, true, not, some, ◌≡◌, refl, subst, arith}
use stability_toys.Prelude.Dict.{Dict, lookup, contains, AllItems}
use stability_toys.Prelude.Effects.{ok}
use stability_toys.Prelude.Outcome.{returned, passed, ok-eq}
use stability_toys.Assets.Cleanup.{member}
use stability_toys.Conditioning.Chain.{ConditioningConfig}
use stability_toys.Analysis.Json.{Json, null, object, array, nil}
use stability_toys.Modes.Values.{
  Builtins, parse_all, mapping, wrong_type, get_value, get_or, is_null, removed_field, required,
  missing, plain_text, unknown_reference,
}
use stability_toys.Modes.Sections.{load_chat, load_analysis}
use stability_toys.Modes.Policies.{
  has_no_service, parse_conditioning, parse_conditioning_config, parse_controlnet_policy,
}
use stability_toys.Modes.Model.{
  ModeConfig, ModesYaml, ModeNames, Surroundings, removed_fields, sizes, is_known, hashable,
}
use stability_toys.Modes.Parse.{
  parse_names, parse_mode, mode_config, check_removed, iterate, parse_loras, lora_paths_of,
  parse_entries,
}
use stability_toys.Modes.Load.{
  document, require_truthy, raw_resolution_sets, load_surroundings, load_config,
}
use stability_toys.Modes.Consistency.{
  ChatFits, AnalysisFits, load_chat-Fits, load_analysis-Fits, parse_all-AllItems,
}

record NamesFit {F : Type 0} (around : Surroundings F) (n : ModeNames) : Type 0 where
  sized : lookup n.resolution_set around.resolution_sets ≡ some n.resolution_options
  offered : member n.default_size (sizes n.resolution_options) ≡ true
  chats : is_known n.chat_delegate around.chat.chat_delegates ≡ true
  analyses : is_known n.analysis_profile around.analysis.analysis_profiles ≡ true

-- A conditioning without a service falls back to the native one.
abbrev pub IsServed : ConditioningConfig → Type 0
IsServed c = has_no_service c.service ≡ true → c.native_when_unconfigured ≡ true

-- A mode under its name
pub record ModeFits {F : Type 0} (around : Surroundings F) (name : String) (m : ModeConfig F)
    : Type 0 where
  pub named : m.name ≡ name
  pub sized : lookup m.resolution_set around.resolution_sets ≡ some m.resolution_options
  pub offered : member m.default_size (sizes m.resolution_options) ≡ true
  pub chats : is_known m.chat_delegate around.chat.chat_delegates ≡ true
  pub analyses : is_known m.analysis_profile around.analysis.analysis_profiles ≡ true
  pub served : IsServed m.conditioning

module _ {F : Type 0} where
  parse_conditioning-IsServed :
      (strip : String → String) (d : Dict (Json F)) {c : ConditioningConfig}
      → parse_conditioning strip d ≡ ok c
      → IsServed c
  unfolding parse_conditioning
  parse_conditioning-IsServed strip d h = ground arith

  conditioning-IsServed :
      (strip : String → String) (j : Json F) {c : ConditioningConfig}
      → parse_conditioning_config strip j ≡ ok c
      → IsServed c
  unfolding parse_conditioning_config
  conditioning-IsServed strip null {c} h = ground arith
  conditioning-IsServed strip (object ms) {c} h = parse_conditioning-IsServed strip _ h
  conditioning-IsServed strip j {c} h = cc

  names-Fit :
      (py : Builtins F) (around : Surroundings F) (raw : Dict (Json F)) {n : ModeNames}
      → parse_names py around raw ≡ ok n
      → NamesFit around n
  unfolding parse_names
  names-Fit py around raw {n} h = ground arith

  mode-Fits :
      (py : Builtins F) (around : Surroundings F) (name : String) (j : Json F) (m : ModeConfig F)
      → parse_mode py around name j ≡ ok m
      → ModeFits around name m
  unfolding parse_mode mode_config
  mode-Fits py around name j m h =
      let (raw, _, h1) = returned (mapping wrong_type j) _ h in
      let (model, _, h2) = returned (required (lookup "model" raw) (missing "model")) _ h1 in
      let (_, h3) = passed (not (is_null (get_value "chat" raw))) (removed_field "chat") _ h2 in
      let (_, _, h4) = returned (check_removed py raw removed_fields) _ h3 in
      let (names, named, h5) = returned (parse_names py around raw) _ h4 in
      let (js, _, h6) = returned (iterate py (get_or "loras" (array nil) raw)) _ h5 in
      let (loras, _, h7) = returned (parse_loras py js) _ h6 in
      let (policy, _, h8) =
        returned (parse_controlnet_policy py (get_value "controlnet_policy" raw)) _ h7 in
      let (c, served, h9) =
        returned (parse_conditioning_config py.strip (get_value "conditioning" raw)) _ h8 in
      let fit = names-Fit py around raw named in
      let is_served = conditioning-IsServed py.strip (get_value "conditioning" raw) served in
      let (model_name, _, h10) = returned (plain_text wrong_type model) _ h9 in
      let (paths, _, h11) = returned (lora_paths_of py around.lora_root loras) _ h10 in
      subst (ModeFits around name) (ok-eq h11) (record {
        named = refl;
        sized = fit.sized;
        offered = fit.offered;
        chats = fit.chats;
        analyses = fit.analyses;
        served = is_served;
      })

-- A configuration refers only to modes, sets, connections, delegates and profiles that it has.
pub record IsConsistent {F : Type 0} (config : ModesYaml F) : Type 0 where
  pub default_known : contains config.default_mode config.modes ≡ true
  pub chat : ChatFits config.chat
  pub analysis : AnalysisFits config.analysis
  pub modes :
      AllItems
        (ModeFits (record {
          model_root = config.model_root;
          lora_root = config.lora_root;
          resolution_sets = config.resolution_sets;
          chat = config.chat;
          analysis = config.analysis;
        }))
        config.modes

record SurroundingsFit {F : Type 0} (around : Surroundings F) : Type 0 where
  chat : ChatFits around.chat
  analysis : AnalysisFits around.analysis

module _ {F : Type 0} (py : Builtins F) where
  surroundings-Fit :
      (root : Json F) (data' : Dict (Json F)) {around : Surroundings F}
      → load_surroundings py root data' ≡ ok around
      → SurroundingsFit around
  unfolding load_surroundings
  surroundings-Fit root data' h =
      let (sets, _, h1) = returned (raw_resolution_sets data') _ h in
      let (model_root, _, h2) = returned (plain_text wrong_type root) _ h1 in
      let (lora_root, _, h3) =
        returned (plain_text wrong_type (get_or "lora_root" root data')) _ h2 in
      let (options, _, h4) = returned (parse_all (parse_entries py) sets) _ h3 in
      let (_, h5) = passed (contains "chat" data') (removed_field "chat") _ h4 in
      let (chat, e, h6) = returned (load_chat py data') _ h5 in
      let (analysis, e', h7) = returned (load_analysis py data') _ h6 in
      subst SurroundingsFit (ok-eq h7)
        (record { chat = load_chat-Fits py data' e; analysis = load_analysis-Fits py data' e' })

  -- A configuration that `_load_config` returns is consistent.
  pub load_config-IsConsistent :
      (j : Json F) {config : ModesYaml F} → load_config py j ≡ ok config → IsConsistent config
  unfolding load_config
  load_config-IsConsistent j h =
      let (data', _, h1) = returned (document py j) _ h in
      let (root, _, h2) =
        returned (required (lookup "model_root" data') (missing "model_root")) _ h1 in
      let (default, _, h3) =
        returned (required (lookup "default_mode" data') (missing "default_mode")) _ h2 in
      let (raw, _, h4) =
        returned (require_truthy py (missing "modes") (lookup "modes" data')) _ h3 in
      let (around, e, h5) = returned (load_surroundings py root data') _ h4 in
      let (raw_modes, _, h6) = returned (mapping wrong_type raw) _ h5 in
      let (modes, e', h7) = returned (parse_all (parse_mode py around) raw_modes) _ h6 in
      let (default_mode, _, h8) =
        returned (hashable (unknown_reference "default_mode") default) _ h7 in
      let (known, h9) =
        passed (not (contains default_mode modes)) (unknown_reference "default_mode") _ h8 in
      let fit = surroundings-Fit root data' e in
      subst IsConsistent (ok-eq h9) (record {
        default_known = ground (arith, known);
        chat = fit.chat;
        analysis = fit.analysis;
        modes = parse_all-AllItems _ (ModeFits around) (mode-Fits py around) raw_modes e';
      })
