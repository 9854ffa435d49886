-- ===== src/Modes/Reread.antt =====
-- The sections on analysis: written by `save_config`, read by `_load_config`.
use stability_toys.Prelude.{
  String, Bool, true, false, not, [], ◌∷◌, ◌++◌, none, some, ◌≡◌, ◌≢◌, refl, subst, arith,
  if◌then◌else◌, ◌&&◌, same_text, sym, ap, ◌∙◌,
}
use stability_toys.Prelude.Dict.{Dict, lookup, contains}
use stability_toys.Prelude.Effects.{ok}
use stability_toys.Prelude.Outcome.{returned, passed, ok-eq}
use stability_toys.Assets.Cleanup.{member}
use stability_toys.Analysis.Json.{Json, null, text}
use stability_toys.Modes.Values.{
  Builtins, parse_all, mapping, mapping_of, malformed, get_value, truthy, is_blank, is_name,
  stripped, entries-members, or_else, invalid, unknown_reference, optional_mapping,
}
use stability_toys.Modes.Sections.{
  AnalysisDelegateConfig, AnalysisConnectionConfig, required_text, parse_analysis_connection_config,
  parse_analysis_delegate_config, parse_analysis_option, parse_analysis_options, task_kinds,
  analysis_providers,
}
use stability_toys.Modes.Save.{
  entry_if, is_nil, analysis_connection_entry, analysis_delegate_to_dict, delegate_entries,
}
use stability_toys.Modes.Written.{
  IsWord, stripped-fixed, required_text-IsWord, stripped_word, required_word,
}

blank_no : (s : String) → s ≢ "" → is_blank s ≡ false
blank_no s p = ground arith

kind-set : (s : String) → member s task_kinds ≡ true → is_blank s ≡ false
unfolding task_kinds same_text
kind-set s h = elim (same_text s "") [
  | yes p ↦ let e : member "" task_kinds ≡ true = subst (λ t. member t task_kinds ≡ true) p h in cc
  | no p ↦ blank_no s p
]

provider-set : (s : String) → member s analysis_providers ≡ true → is_blank s ≡ false
unfolding analysis_providers same_text
provider-set s h = elim (same_text s "") [
  | yes p ↦
      let e : member "" analysis_providers ≡ true =
        subst (λ t. member t analysis_providers ≡ true) p h in
      cc
  | no p ↦ blank_no s p
]

module _ {F : Type 0} (py : Builtins F)
    (stripped_once : (s : String) → py.strip (py.strip s) ≡ py.strip s) where
  abbrev pub ConnectionNormal : String → AnalysisConnectionConfig → Type 0
  ConnectionNormal name c =
      IsWord py stripped_once c.endpoint × (py.strip c.api_key_env ≡ c.api_key_env)

  pub connection-Normal :
      (name : String) (j : Json F) (c : AnalysisConnectionConfig)
      → parse_analysis_connection_config py name j ≡ ok c
      → ConnectionNormal name c
  unfolding parse_analysis_connection_config
  connection-Normal name j c h =
      let (raw, _, h1) = returned (mapping (malformed name) j) _ h in
      let (endpoint, e, h2) = returned (required_text py "endpoint" raw) _ h1 in
      let (key, e', h3) =
        returned (stripped py "OPENAI_API_KEY" (get_value "api_key_env" raw)) _ h2 in
      let word = required_text-IsWord py stripped_once "endpoint" raw e in
      let fixed =
        stripped-fixed py stripped_once "OPENAI_API_KEY" (get_value "api_key_env" raw) e' in
      ground arith

  pub connection_reread :
      (name : String) (c : AnalysisConnectionConfig)
      → ConnectionNormal name c × (is_blank c.api_key_env ≡ false)
      → parse_analysis_connection_config py name (analysis_connection_entry c) ≡ ok c
  unfolding parse_analysis_connection_config lookup same_text
  connection_reread name c n =
      let word =
        required_word py stripped_once "endpoint" c.endpoint
          (("endpoint", text c.endpoint) ∷ ("api_key_env", text c.api_key_env) ∷ []) n.0.0 refl in
      let key = stripped_word py stripped_once "OPENAI_API_KEY" c.api_key_env (n.0.1, n.1) in
      ground arith

  pub record DelegateNormal (cs : Dict AnalysisConnectionConfig) (name : String)
      (d : AnalysisDelegateConfig F) : Type 0 where
    named : d.name ≡ name
    connected : contains d.connection cs ≡ true
    connection : IsWord py stripped_once d.connection
    kind : py.strip d.kind ≡ d.kind
    known_kind : member d.kind task_kinds ≡ true
    model : IsWord py stripped_once d.model
    provider : py.strip d.provider ≡ d.provider
    known_provider : member d.provider analysis_providers ≡ true
    vlm : (is_name d.provider "openai_vlm" && not (is_name d.kind "caption")) ≡ false
    options : parse_all (parse_analysis_option py) d.options ≡ ok d.options

  option_same : (key : String) (j k : Json F) → parse_analysis_option py key j ≡ ok k → k ≡ j
  unfolding parse_analysis_option
  option_same key j k h = ground arith

  options_same :
      (d : Dict (Json F)) {r : Dict (Json F)}
      → parse_all (parse_analysis_option py) d ≡ ok r
      → r ≡ d
  unfolding parse_all
  options_same [] h = cc
  options_same ((k, j) ∷ d) {r} h =
      let (a, e, h1) = returned (parse_analysis_option py k j) _ h in
      let (rest, e', h2) = returned (parse_all (parse_analysis_option py) d) _ h1 in
      let same = option_same k j a e in let same_rest = options_same d e' in cc

  pub delegate-Normal :
      (cs : Dict AnalysisConnectionConfig) (name : String) (j : Json F)
      (d : AnalysisDelegateConfig F)
      → parse_analysis_delegate_config py cs name j ≡ ok d
      → DelegateNormal cs name d
  unfolding parse_analysis_delegate_config parse_analysis_options
  delegate-Normal cs name j d h =
      let (raw, _, h1) = returned (mapping (malformed name) j) _ h in
      let (connection, e1, h2) = returned (required_text py "connection" raw) _ h1 in
      let (connected, h3) =
        passed (not (contains connection cs)) (unknown_reference connection) _ h2 in
      let (kind, e2, h4) = returned (stripped py "" (get_value "kind" raw)) _ h3 in
      let (known, h5) = passed (not (member kind task_kinds)) (invalid "kind") _ h4 in
      let (model, e3, h6) = returned (required_text py "model" raw) _ h5 in
      let (provider, e4, h7) = returned (stripped py "stub" (get_value "provider" raw)) _ h6 in
      let (known_provider, h8) =
        passed (not (member provider analysis_providers)) (invalid "provider") _ h7 in
      let (vlm, h9) =
        passed (is_name provider "openai_vlm" && not (is_name kind "caption")) (invalid "provider")
          _ h8 in
      let (options, e5, h10) =
        returned (parse_analysis_options py name (get_value "options" raw)) _ h9 in
      let (given, e6, e7) =
        returned (optional_mapping (malformed name) (get_value "options" raw))
          (parse_all (parse_analysis_option py)) e5 in
      let same = options_same given e7 in
      subst (DelegateNormal cs name) (ok-eq h10) (record {
        named = refl;
        connected = ground (arith, connected);
        connection = required_text-IsWord py stripped_once "connection" raw e1;
        kind = stripped-fixed py stripped_once "" (get_value "kind" raw) e2;
        known_kind = ground (arith, known);
        model = required_text-IsWord py stripped_once "model" raw e3;
        provider = stripped-fixed py stripped_once "stub" (get_value "provider" raw) e4;
        known_provider = ground (arith, known_provider);
        vlm = vlm;
        options = subst (λ g. parse_all (parse_analysis_option py) g ≡ ok options) (sym same) e7;
      })

  -- What is found of two entries that may be left out
  optional_entries :
      (b c : Bool) (v w : Json F)
      → (lookup "provider" (entry_if (not b) "provider" v ++ entry_if (not c) "options" w)
          ≡ (if b then none else some v))
        × (lookup "options" (entry_if (not b) "provider" v ++ entry_if (not c) "options" w)
            ≡ (if c then none else some w))
  unfolding lookup same_text
  optional_entries true true v w = (refl, refl)
  optional_entries true false v w = (refl, refl)
  optional_entries false true v w = (refl, refl)
  optional_entries false false v w = (refl, refl)

  Bool-elim :
      (b : Bool) (j k : Json F) → or_else j (if b then none else some k) ≡ (if b then j else k)
  Bool-elim true j k = refl
  Bool-elim false j k = refl

  omitted_provider :
      (s : String)
      → s ≡ "stub"
      → py.strip s ≡ s
      → stripped py "stub" (if is_name s "stub" then null else text s) ≡ ok s
  unfolding stripped truthy
  omitted_provider s p fixed =
      let left : is_name s "stub" ≡ true = ground arith in
      rw left (ap ok (ap py.strip (sym p) ∙ fixed))

  options_reread :
      (name : String) (o : Dict (Json F))
      → parse_all (parse_analysis_option py) o ≡ ok o
      → parse_analysis_options py name (if is_nil o then null else mapping_of o) ≡ ok o
  unfolding parse_analysis_options
  options_reread name [] h = h
  options_reread name (e ∷ o) h = rw (entries-members (e ∷ o)) h

  -- What is found in the entries of a delegate
  module _ (d : AnalysisDelegateConfig F) where
    found_connection : get_value "connection" (delegate_entries d) ≡ text d.connection
    unfolding delegate_entries lookup same_text
    found_connection = refl

    found_kind : get_value "kind" (delegate_entries d) ≡ text d.kind
    unfolding delegate_entries lookup same_text
    found_kind = refl

    found_model : get_value "model" (delegate_entries d) ≡ text d.model
    unfolding delegate_entries lookup same_text
    found_model = refl

    given_provider :
        get_value "provider" (delegate_entries d)
        ≡ (if is_name d.provider "stub" then null else text d.provider)
    unfolding delegate_entries lookup same_text
    given_provider =
        ap (or_else null) (optional_entries (is_name d.provider "stub") (is_nil d.options) _ _).0
        ∙ Bool-elim (is_name d.provider "stub") null (text d.provider)

    given_options :
        get_value "options" (delegate_entries d)
        ≡ (if is_nil d.options then null else mapping_of d.options)
    unfolding delegate_entries lookup same_text
    given_options =
        ap (or_else null) (optional_entries (is_name d.provider "stub") (is_nil d.options) _ _).1
        ∙ Bool-elim (is_nil d.options) null (mapping_of d.options)

    found_provider :
        py.strip d.provider ≡ d.provider
        → is_blank d.provider ≡ false
        → stripped py "stub" (get_value "provider" (delegate_entries d)) ≡ ok d.provider
    found_provider fixed set = rw given_provider (elim (same_text d.provider "stub") [
      | yes p ↦ omitted_provider d.provider p fixed
      | no p ↦
          let left : is_name d.provider "stub" ≡ false = ground arith in
          rw left (stripped_word py stripped_once "stub" d.provider (fixed, set))
    ])

    found_options :
        parse_all (parse_analysis_option py) d.options ≡ ok d.options
        → (name : String)
        → parse_analysis_options py name (get_value "options" (delegate_entries d)) ≡ ok d.options
    found_options same name = rw given_options (options_reread name d.options same)

  pub delegate_reread :
      (cs : Dict AnalysisConnectionConfig) (name : String) (d : AnalysisDelegateConfig F)
      → DelegateNormal cs name d
      → parse_analysis_delegate_config py cs name (analysis_delegate_to_dict d) ≡ ok d
  unfolding parse_analysis_delegate_config analysis_delegate_to_dict
  delegate_reread cs name d n =
      let raw = delegate_entries d in
      let connection =
        required_word py stripped_once "connection" d.connection raw n.connection
          (found_connection d) in
      let model = required_word py stripped_once "model" d.model raw n.model (found_model d) in
      let kind = stripped_word py stripped_once "" d.kind (n.kind, kind-set d.kind n.known_kind) in
      let provider = found_provider d n.provider (provider-set d.provider n.known_provider) in
      let options = found_options d n.options name in
      ground (arith, entries-members raw, found_kind d, connection, model, kind, provider, options)
