-- ===== src/Modes/Chat.antt =====
-- server/mode_config.py: the lookup of a mode and its chat backend.
use stability_toys.Prelude.{String, List, Option, none, some, ite, same_text}
use stability_toys.Prelude.Dict.{Dict, lookup, keys}
use stability_toys.Prelude.Effects.{ok}
use stability_toys.Prelude.Outcome.{◌>>=◌}
use stability_toys.Analysis.Json.{Json, text}
use stability_toys.Modes.Values.{
  no_such_key, Parsed, Builtins, get_value, normalize_optional_string, parse_optional_int,
  parse_optional_float,
}
use stability_toys.Modes.Sections.{ChatConnectionConfig, ChatDelegateConfig, or_value}
use stability_toys.Modes.Model.{ModeConfig, ModesYaml, found_or}

pub record ChatBackendConfig (F : Type 0) : Type 0 where
  pub endpoint : String
  pub model : String
  pub api_key_env : String
  pub max_tokens : F
  pub temperature : F
  pub system_prompt : Option String

-- `get_mode`
unfoldable pub get_mode : {F : Type 0} → ModesYaml F → String → Parsed (ModeConfig F)
get_mode config name = found_or (lookup name config.modes) no_such_key

unfoldable pub list_modes : {F : Type 0} → ModesYaml F → List String
list_modes config = keys config.modes

-- `get_default_mode_config`
unfoldable pub get_default_mode_config : {F : Type 0} → ModesYaml F → Parsed (ModeConfig F)
get_default_mode_config config = get_mode config config.default_mode

module _ {F : Type 0} (py : Builtins F) where
  abbrev pub joined : Option String → Option String → Option String
  joined none none = none
  joined (some p) none = some p
  joined none (some q) = some q
  joined (some p) (some q) = some (py.concat p (py.concat "\n\n" q))

  abbrev pub normalize : Option String → Option String
  normalize none = none
  normalize (some s) = let j : Json F = text s in normalize_optional_string py j

  -- `_merge_system_prompts`
  unfoldable pub merge_system_prompts : Option String → Json F → Option String
  merge_system_prompts mode_prompt override_prompt =
      joined (normalize mode_prompt) (normalize_optional_string py override_prompt)

  -- The part of `resolve_chat_config` on a mode with a delegate
  unfoldable pub chat_backend :
      ChatConnectionConfig → ChatDelegateConfig F → Dict (Json F) → Parsed (ChatBackendConfig F)
  chat_backend connection delegate overrides = do
    max_tokens ← parse_optional_int py "max_tokens" (get_value "max_tokens" overrides)
    temperature ← parse_optional_float py "temperature" (get_value "temperature" overrides)
    ok (record {
      endpoint = connection.endpoint;
      model = or_value delegate.model (normalize_optional_string py (get_value "model" overrides));
      api_key_env = connection.api_key_env;
      max_tokens = or_value delegate.max_tokens max_tokens;
      temperature = or_value delegate.temperature temperature;
      system_prompt =
          merge_system_prompts delegate.system_prompt (get_value "system_prompt" overrides);
    })

  abbrev pub delegate_backend :
      ModesYaml F → String → Dict (Json F) → Parsed (Option (ChatBackendConfig F))
  delegate_backend config name overrides = do
    delegate ← found_or (lookup name config.chat.chat_delegates) no_such_key
    connection ← found_or (lookup delegate.connection config.chat.chat_connections) no_such_key
    backend ← chat_backend connection delegate overrides
    ok (some backend)

  -- `if not mode.chat_delegate`
  abbrev pub of_delegate :
      ModesYaml F → Option String → Dict (Json F) → Parsed (Option (ChatBackendConfig F))
  of_delegate config none overrides = ok none
  of_delegate config (some name) overrides =
      ite (same_text name "") (ok none) (delegate_backend config name overrides)

  -- `resolve_chat_config`
  unfoldable pub resolve_chat_config :
      ModesYaml F → String → Dict (Json F) → Parsed (Option (ChatBackendConfig F))
  resolve_chat_config config mode_name overrides =
      get_mode config mode_name >>= λ mode. of_delegate config mode.chat_delegate overrides
