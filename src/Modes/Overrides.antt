-- ===== src/Modes/Overrides.antt =====
-- server/mode_config.py: the chat backend of a delegate, with the overrides of a request.
use stability_toys.Prelude.{
  String, Bool, Option, none, some, ◌≡◌, ◌⊎◌, ◌||◌, inl, inr, refl, arith, if◌then◌else◌,
  Option-cases,
}
use stability_toys.Prelude.Dict.{Dict}
use stability_toys.Prelude.Effects.{ok, raised}
use stability_toys.Prelude.Outcome.{◌>>=◌}
use stability_toys.Analysis.Json.{Json, null, text}
use stability_toys.Modes.Values.{
  invalid, Parsed, Builtins, is_blank, is_null, get_value, to_text, normalize_optional_string,
  parse_optional_int, parse_optional_float,
}
use stability_toys.Modes.Sections.{ChatConnectionConfig, ChatDelegateConfig, or_value}
use stability_toys.Modes.Chat.{ChatBackendConfig, merge_system_prompts, chat_backend}

module _ {F : Type 0} (py : Builtins F) where
  -- A text that is not given, or blank, overrides nothing.
  abbrev pub is_absent : Json F → Bool
  is_absent j = is_null j || is_blank (py.strip (to_text py j))

  abbrev pub overriding_text : String → Json F → String
  overriding_text default j = if is_absent j then default else py.strip (to_text py j)

  -- A number that is given must be one; `none` is what is none.
  abbrev pub overriding_number : (Json F → Option F) → F → Json F → Option F
  overriding_number parse default j = if is_null j then some default else parse j

  -- The prompt of the delegate and that of the request, two lines apart if there are both
  abbrev pub prompts : Json F → Json F → Option String
  prompts own other =
      if is_absent own
      then (if is_absent other then none else some (py.strip (to_text py other)))
      else (if is_absent other
          then some (py.strip (to_text py own))
          else some (
              py.concat (py.strip (to_text py own))
                (py.concat "\n\n" (py.strip (to_text py other)))))

  abbrev pub own_prompt : Option String → Json F
  own_prompt none = null
  own_prompt (some s) = text s

  pub record IsBackend (k : ChatConnectionConfig) (d : ChatDelegateConfig F)
      (overrides : Dict (Json F)) (b : ChatBackendConfig F) : Type 0 where
    pub endpoint : b.endpoint ≡ k.endpoint
    pub api_key_env : b.api_key_env ≡ k.api_key_env
    pub model : b.model ≡ overriding_text d.model (get_value "model" overrides)
    pub max_tokens :
        overriding_number py.int_of d.max_tokens (get_value "max_tokens" overrides)
        ≡ some b.max_tokens
    pub temperature :
        overriding_number py.float_of d.temperature (get_value "temperature" overrides)
        ≡ some b.temperature
    pub system_prompt :
        b.system_prompt ≡ prompts (own_prompt d.system_prompt) (get_value "system_prompt" overrides)

  -- A backend, or a ValueError for an override that is no number
  abbrev pub Gives :
      ChatConnectionConfig
      → ChatDelegateConfig F
      → Dict (Json F)
      → Parsed (Option (ChatBackendConfig F))
      → Type 0
  Gives k d overrides r =
      ((b : ChatBackendConfig F) × (r ≡ ok (some b)) × IsBackend k d overrides b)
      ⊎ ((r ≡ raised (invalid "max_tokens"))
          × (overriding_number py.int_of d.max_tokens (get_value "max_tokens" overrides) ≡ none))
      ⊎ ((r ≡ raised (invalid "temperature"))
          × (overriding_number py.float_of d.temperature (get_value "temperature" overrides)
              ≡ none))

  int_given :
      (field : String) (d x : F) (j : Json F)
      → overriding_number py.int_of d j ≡ some x
      → (o : Option F) × (parse_optional_int py field j ≡ ok o) × (or_value d o ≡ x)
  unfolding parse_optional_int
  int_given field d x null h = (none, refl, ground arith)
  int_given field d x j h = (some x, ground arith, refl)

  int_wrong :
      (field : String) (d : F) (j : Json F)
      → overriding_number py.int_of d j ≡ none
      → parse_optional_int py field j ≡ raised (invalid field)
  unfolding parse_optional_int
  int_wrong field d null h = cc
  int_wrong field d j h = ground arith

  float_given :
      (field : String) (d x : F) (j : Json F)
      → overriding_number py.float_of d j ≡ some x
      → (o : Option F) × (parse_optional_float py field j ≡ ok o) × (or_value d o ≡ x)
  unfolding parse_optional_float
  float_given field d x null h = (none, refl, ground arith)
  float_given field d x j h = (some x, ground arith, refl)

  float_wrong :
      (field : String) (d : F) (j : Json F)
      → overriding_number py.float_of d j ≡ none
      → parse_optional_float py field j ≡ raised (invalid field)
  unfolding parse_optional_float
  float_wrong field d null h = cc
  float_wrong field d j h = ground arith

  normalized :
      (j : Json F)
      → normalize_optional_string py j
        ≡ (if is_absent j then none else some (py.strip (to_text py j)))
  unfolding normalize_optional_string
  normalized null = refl
  normalized j = ground arith

  merged_prompts :
      (own : Option String) (j : Json F)
      → merge_system_prompts py own j ≡ prompts (own_prompt own) j
  unfolding merge_system_prompts
  merged_prompts none j = let n = normalized j in ground arith
  merged_prompts (some s) j = let n = normalized j in let m = normalized (text s) in ground arith

  pub chat_backend-Gives :
      (k : ChatConnectionConfig) (d : ChatDelegateConfig F) (overrides : Dict (Json F))
      → Gives k d overrides (chat_backend py k d overrides >>= λ b. ok (some b))
  unfolding chat_backend
  chat_backend-Gives k d overrides =
      let tokens = get_value "max_tokens" overrides in
      let heat = get_value "temperature" overrides in
      elim (Option-cases (overriding_number py.int_of d.max_tokens tokens)) [
        | inl wrong ↦
            let e = int_wrong "max_tokens" d.max_tokens tokens wrong in
            inr (inl (ground arith, wrong))
        | inr (x, given) ↦
            let (o, e, same) = int_given "max_tokens" d.max_tokens x tokens given in
            elim (Option-cases (overriding_number py.float_of d.temperature heat)) [
              | inl wrong ↦
                  let e' = float_wrong "temperature" d.temperature heat wrong in
                  inr (inr (ground arith, wrong))
              | inr (y, given') ↦
                  let (o', e', same') = float_given "temperature" d.temperature y heat given' in
                  let n = normalized (get_value "model" overrides) in
                  let b : ChatBackendConfig F = record {
                    endpoint = k.endpoint;
                    model =
                        or_value d.model
                          (normalize_optional_string py (get_value "model" overrides));
                    api_key_env = k.api_key_env;
                    max_tokens = or_value d.max_tokens o;
                    temperature = or_value d.temperature o';
                    system_prompt =
                        merge_system_prompts py d.system_prompt
                          (get_value "system_prompt" overrides);
                  } in
                  inl (
                    b,
                    rw (e, e') refl,
                    record {
                      endpoint = refl;
                      api_key_env = refl;
                      model = ground arith;
                      max_tokens = rw same given;
                      temperature = rw same' given';
                      system_prompt =
                          merged_prompts d.system_prompt (get_value "system_prompt" overrides);
                    },
                  )
            ]
      ]
