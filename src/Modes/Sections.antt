-- ===== src/Modes/Sections.antt =====
-- server/mode_config.py: the sections of modes.yml on chat and analysis.
use stability_toys.Prelude.{
  String, Bool, false, not, List, [], ◌∷◌, map, Option, none, some, ◌&&◌, if◌then◌else◌,
}
use stability_toys.Prelude.Dict.{Dict, lookup, contains}
use stability_toys.Prelude.Effects.{ok, raised}
use stability_toys.Prelude.Outcome.{◌>>=◌, ◌>>◌, refuse}
use stability_toys.Assets.Cleanup.{member}
use stability_toys.Analysis.Contracts.{param_key, all_kinds}
use stability_toys.Analysis.Json.{Json, number, text}
use stability_toys.Modes.Values.{
  missing, malformed, invalid, unknown_reference, kind_mismatch, unknown_key, Parsed, Builtins,
  is_name, is_blank, get_value, mapping, optional_mapping, parse_all, mapping_of, stripped, to_text,
  truthy, or_default, normalize_optional_string, parse_optional_int, parse_optional_float,
}

pub record ChatConnectionConfig : Type 0 where
  pub endpoint : String
  pub api_key_env : String

pub record AnalysisConnectionConfig : Type 0 where
  pub endpoint : String
  pub api_key_env : String

pub record ChatDelegateConfig (F : Type 0) : Type 0 where
  pub name : String
  pub connection : String
  pub model : String
  pub max_tokens : F
  pub temperature : F
  pub system_prompt : Option String

pub record AnalysisDelegateConfig (F : Type 0) : Type 0 where
  pub name : String
  pub connection : String
  pub kind : String
  pub model : String
  pub provider : String
  pub options : Dict (Json F)

pub record AnalysisProfileConfig : Type 0 where
  pub name : String
  pub task_routes : Dict String

unfoldable pub analysis_providers : List String
analysis_providers = "stub" ∷ "openai_vlm" ∷ []

unfoldable pub task_kinds : List String
task_kinds = map param_key all_kinds

abbrev pub or_value : {A : Type 0} → A → Option A → A
or_value default none = default
or_value default (some a) = a

-- The sections on chat and on analysis, parsed
pub record ChatSections (F : Type 0) : Type 0 where
  pub chat_connections : Dict ChatConnectionConfig
  pub chat_delegates : Dict (ChatDelegateConfig F)

pub record AnalysisSections (F : Type 0) : Type 0 where
  pub analysis_connections : Dict AnalysisConnectionConfig
  pub analysis_delegates : Dict (AnalysisDelegateConfig F)
  pub analysis_profiles : Dict AnalysisProfileConfig

module _ {F : Type 0} (py : Builtins F) where
  -- `(raw.get(key) or "").strip()`, which must not be empty
  unfoldable pub required_text : String → Dict (Json F) → Parsed String
  required_text key raw = do
    s ← stripped py "" (get_value key raw)
    refuse (is_blank s) (missing key)
    ok s

  -- `_parse_chat_connection_config`
  unfoldable pub parse_chat_connection_config : String → Json F → Parsed ChatConnectionConfig
  parse_chat_connection_config name j = do
    raw ← mapping (malformed name) j
    endpoint ← required_text "endpoint" raw
    key ← stripped py "OPENAI_API_KEY" (get_value "api_key_env" raw)
    ok (record { endpoint = endpoint; api_key_env = key })

  -- `_parse_analysis_connection_config`
  unfoldable pub parse_analysis_connection_config :
      String → Json F → Parsed AnalysisConnectionConfig
  parse_analysis_connection_config name j = do
    raw ← mapping (malformed name) j
    endpoint ← required_text "endpoint" raw
    key ← stripped py "OPENAI_API_KEY" (get_value "api_key_env" raw)
    ok (record { endpoint = endpoint; api_key_env = key })

  -- `_parse_chat_delegate_config`
  unfoldable pub parse_chat_delegate_config :
      Dict ChatConnectionConfig → String → Json F → Parsed (ChatDelegateConfig F)
  parse_chat_delegate_config connections name j = do
    raw ← mapping (malformed name) j
    connection ← required_text "connection" raw
    refuse (not (contains connection connections)) (unknown_reference connection)
    model ← required_text "model" raw
    max_tokens ← parse_optional_int py "max_tokens" (get_value "max_tokens" raw)
    temperature ← parse_optional_float py "temperature" (get_value "temperature" raw)
    ok (record {
      name = name;
      connection = connection;
      model = model;
      max_tokens = or_value py.default_tokens max_tokens;
      temperature = or_value py.default_temperature temperature;
      system_prompt = normalize_optional_string py (get_value "system_prompt" raw);
    })

  abbrev pub is_positive_int : Json F → Bool
  is_positive_int (number x) = py.is_int x && py.is_positive x
  is_positive_int _ = false

  abbrev pub is_positive_number : Json F → Bool
  is_positive_number (number x) = py.is_positive x
  is_positive_number _ = false

  abbrev pub is_temperature : Json F → Bool
  is_temperature (number x) = py.is_not_negative x
  is_temperature _ = false

  abbrev pub is_prompt : Json F → Bool
  is_prompt (text s) = not (is_blank (py.strip s))
  is_prompt _ = false

  -- The tests on the value of an option, by its key
  abbrev pub option_test : String → Json F → Parsed Bool
  option_test key value =
      if is_name key "max_tokens"
      then ok (is_positive_int value)
      else (if is_name key "temperature"
          then ok (is_temperature value)
          else (if is_name key "timeout_s"
              then ok (is_positive_number value)
              else (if is_name key "system_prompt"
                  then ok (is_prompt value)
                  else raised unknown_key)))

  -- A round of the loop of `_parse_analysis_options`
  unfoldable pub parse_analysis_option : String → Json F → Parsed (Json F)
  parse_analysis_option key value = do
    valid ← option_test key value
    refuse (not valid) (invalid key)
    ok value

  -- `_parse_analysis_options`
  unfoldable pub parse_analysis_options : String → Json F → Parsed (Dict (Json F))
  parse_analysis_options name j =
      optional_mapping (malformed name) j >>= parse_all parse_analysis_option

  -- `_parse_analysis_delegate_config`
  unfoldable pub parse_analysis_delegate_config :
      Dict AnalysisConnectionConfig → String → Json F → Parsed (AnalysisDelegateConfig F)
  parse_analysis_delegate_config connections name j = do
    raw ← mapping (malformed name) j
    connection ← required_text "connection" raw
    refuse (not (contains connection connections)) (unknown_reference connection)
    kind ← stripped py "" (get_value "kind" raw)
    refuse (not (member kind task_kinds)) (invalid "kind")
    model ← required_text "model" raw
    provider ← stripped py "stub" (get_value "provider" raw)
    refuse (not (member provider analysis_providers)) (invalid "provider")
    refuse (is_name provider "openai_vlm" && not (is_name kind "caption")) (invalid "provider")
    options ← parse_analysis_options name (get_value "options" raw)
    ok (record {
      name = name;
      connection = connection;
      kind = kind;
      model = model;
      provider = provider;
      options = options;
    })

  -- A round of the loop of `_parse_analysis_profile_config`
  unfoldable pub parse_route : Dict (AnalysisDelegateConfig F) → String → Json F → Parsed String
  parse_route delegates route_kind j =
      let name = py.strip (to_text py j) in
      elim (lookup name delegates) [
        | none ↦ raised (unknown_reference name)
        | some d ↦ (refuse (not (is_name route_kind d.kind)) (kind_mismatch route_kind) >> ok name)
      ]

  abbrev pub routes_of : String → Json F → Parsed (Dict (Json F))
  routes_of name j = do
    routes ← mapping (missing "task_routes") j
    refuse (not (truthy py (mapping_of routes))) (missing "task_routes")
    ok routes

  -- `_parse_analysis_profile_config`
  unfoldable pub parse_analysis_profile_config :
      Dict (AnalysisDelegateConfig F) → String → Json F → Parsed AnalysisProfileConfig
  parse_analysis_profile_config delegates name j = do
    raw ← mapping (malformed name) j
    routes ← routes_of name (get_value "task_routes" raw)
    task_routes ← parse_all (parse_route delegates) routes
    ok (record { name = name; task_routes = task_routes })

  -- The part of `_load_config` on chat
  unfoldable pub load_chat : Dict (Json F) → Parsed (ChatSections F)
  load_chat data' = do
    raw_connections ←
        optional_mapping (malformed "chat_connections") (get_value "chat_connections" data')
    connections ← parse_all parse_chat_connection_config raw_connections
    raw_delegates ← optional_mapping (malformed "chat_delegates") (get_value "chat_delegates" data')
    delegates ← parse_all (parse_chat_delegate_config connections) raw_delegates
    ok (record { chat_connections = connections; chat_delegates = delegates })

  -- `data.get(key) or {}`, which must be a mapping
  unfoldable pub section : String → Dict (Json F) → Parsed (Dict (Json F))
  section key data' = mapping (malformed key) (or_default py (get_value key data') (mapping_of []))

  -- The part of `_load_config` on analysis
  unfoldable pub load_analysis : Dict (Json F) → Parsed (AnalysisSections F)
  load_analysis data' = do
    raw_connections ← section "analysis_connections" data'
    connections ← parse_all parse_analysis_connection_config raw_connections
    raw_delegates ← section "analysis_delegates" data'
    delegates ← parse_all (parse_analysis_delegate_config connections) raw_delegates
    raw_profiles ← section "analysis_profiles" data'
    profiles ← parse_all (parse_analysis_profile_config delegates) raw_profiles
    ok (record {
      analysis_connections = connections;
      analysis_delegates = delegates;
      analysis_profiles = profiles;
    })
