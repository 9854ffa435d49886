-- ===== src/Modes/Consistency.antt =====
-- The references within a configuration that `_load_config` returns: chat, analysis and modes.
use stability_toys.Prelude.{
  String, true, [], ◌∷◌, some, inl, inr, Option-cases, ◌≡◌, ◌≢◌, refl, subst, arith,
}
use stability_toys.Prelude.Dict.{Dict, lookup, contains, AllItems}
use stability_toys.Prelude.Effects.{ok}
use stability_toys.Prelude.Outcome.{◌>>=◌, returned}
use stability_toys.Assets.Cleanup.{member}
use stability_toys.Analysis.Json.{Json}
use stability_toys.Modes.Values.{
  Parsed, Builtins, parse_all, to_text, mapping, malformed, get_value, truthy, optional_mapping,
}
use stability_toys.Modes.Sections.{
  ChatDelegateConfig, AnalysisDelegateConfig, AnalysisProfileConfig, ChatSections, AnalysisSections,
  ChatConnectionConfig, AnalysisConnectionConfig, analysis_providers, task_kinds,
  parse_chat_delegate_config, parse_analysis_delegate_config, parse_route,
  parse_analysis_profile_config, load_chat, load_analysis, routes_of, section,
  parse_chat_connection_config, parse_analysis_connection_config,
}

module _ {F A : Type 0} (parse : String → Json F → Parsed A) (P : String → A → Type 0) where
  pub parse_all-AllItems :
      ((k : String) (j : Json F) (a : A) → parse k j ≡ ok a → P k a)
      → (d : Dict (Json F)) {r : Dict A} → parse_all parse d ≡ ok r
      → AllItems P r
  unfolding parse_all
  parse_all-AllItems each [] h = subst (AllItems P) {x = []} (cc) tt
  parse_all-AllItems each ((k, j) ∷ d) h =
      let (a, ha, h1) = returned (parse k j) (λ a. parse_all parse d >>= λ r. ok ((k, a) ∷ r)) h in
      let (rest, hr, e) = returned (parse_all parse d) (λ r. ok ((k, a) ∷ r)) h1 in
      subst (AllItems P) {x = (k, a) ∷ rest} (cc) (each k j a ha, parse_all-AllItems each d hr)

pub parsed-ne-nil :
    {F A : Type 0} (parse : String → Json F → Parsed A) (d : Dict (Json F)) {r : Dict A}
    → d ≢ []
    → parse_all parse d ≡ ok r
    → r ≢ []
unfolding parse_all
parsed-ne-nil parse [] h e = λ _. h refl
parsed-ne-nil parse (x ∷ d) h e = λ p. ground arith

pub routes-ne-nil :
    {F : Type 0} (py : Builtins F) (name : String) (j : Json F) (routes : Dict (Json F))
    → routes_of py name j ≡ ok routes
    → routes ≢ []
unfolding truthy
routes-ne-nil py name j routes h e = ground arith

abbrev ChatDelegateFits :
    {F : Type 0} → Dict ChatConnectionConfig → String → ChatDelegateConfig F → Type 0
ChatDelegateFits connections name d = (d.name ≡ name) × (contains d.connection connections ≡ true)

module _ {F : Type 0} (py : Builtins F) where
  chat_delegate-Fits :
      (connections : Dict ChatConnectionConfig) (name : String) (j : Json F)
      (d : ChatDelegateConfig F)
      → parse_chat_delegate_config py connections name j ≡ ok d
      → ChatDelegateFits connections name d
  unfolding parse_chat_delegate_config
  chat_delegate-Fits connections name j d h = ground arith

abbrev AnalysisDelegateFits :
    {F : Type 0} → Dict AnalysisConnectionConfig → String → AnalysisDelegateConfig F → Type 0
AnalysisDelegateFits connections name d =
    (d.name ≡ name)
    × (contains d.connection connections ≡ true)
    × (member d.kind task_kinds ≡ true)
    × (member d.provider analysis_providers ≡ true)
    × (d.provider ≡ "openai_vlm" → d.kind ≡ "caption")

module _ {F : Type 0} (py : Builtins F) where
  analysis_delegate-Fits :
      (connections : Dict AnalysisConnectionConfig) (name : String) (j : Json F)
      (d : AnalysisDelegateConfig F)
      → parse_analysis_delegate_config py connections name j ≡ ok d
      → AnalysisDelegateFits connections name d
  unfolding parse_analysis_delegate_config
  analysis_delegate-Fits connections name j d h = ground arith

abbrev RouteFits : {F : Type 0} → Dict (AnalysisDelegateConfig F) → String → String → Type 0
RouteFits {F} delegates kind name =
    (d : AnalysisDelegateConfig F) × (lookup name delegates ≡ some d) × (d.kind ≡ kind)

abbrev ProfileFits :
    {F : Type 0} → Dict (AnalysisDelegateConfig F) → String → AnalysisProfileConfig → Type 0
ProfileFits delegates name p =
    (p.name ≡ name) × (p.task_routes ≢ []) × AllItems (RouteFits delegates) p.task_routes

module _ {F : Type 0} (py : Builtins F) (delegates : Dict (AnalysisDelegateConfig F)) where
  route-Fits :
      (kind : String) (j : Json F) (name : String)
      → parse_route py delegates kind j ≡ ok name
      → RouteFits delegates kind name
  unfolding parse_route
  route-Fits kind j name h =
      let target = py.strip (to_text py j) in
      elim (Option-cases (lookup target delegates)) [
        | inl e ↦ absurd (ground arith)
        | inr (d, e) ↦ (d, ground arith, ground arith)
      ]

  profile-Fits :
      (name : String) (j : Json F) (p : AnalysisProfileConfig)
      → parse_analysis_profile_config py delegates name j ≡ ok p
      → ProfileFits delegates name p
  unfolding parse_analysis_profile_config
  profile-Fits name j p h =
      let (raw, e1, h1) = returned (mapping (malformed name) j) _ h in
      let (routes, e2, h2) = returned (routes_of py name (get_value "task_routes" raw)) _ h1 in
      let (task_routes, e3, h3) = returned (parse_all (parse_route py delegates) routes) _ h2 in
      let fits : AllItems (RouteFits delegates) p.task_routes =
        subst (AllItems (RouteFits delegates)) {x = task_routes} (ground arith) (
          parse_all-AllItems (parse_route py delegates) (RouteFits delegates) route-Fits routes
            e3) in
      let some_route =
        parsed-ne-nil (parse_route py delegates) routes (routes-ne-nil py name _ routes e2) e3 in
      (ground arith, (λ p. some_route (ground arith)), fits)

  profiles-Fit :
      (d : Dict (Json F)) {r : Dict AnalysisProfileConfig}
      → parse_all (parse_analysis_profile_config py delegates) d ≡ ok r
      → AllItems (ProfileFits delegates) r
  profiles-Fit d h = parse_all-AllItems _ (ProfileFits delegates) profile-Fits d h

-- The sections refer to connections and delegates that they have.
pub record ChatFits {F : Type 0} (c : ChatSections F) : Type 0 where
  pub delegates : AllItems (ChatDelegateFits c.chat_connections) c.chat_delegates

pub record AnalysisFits {F : Type 0} (a : AnalysisSections F) : Type 0 where
  pub delegates : AllItems (AnalysisDelegateFits a.analysis_connections) a.analysis_delegates
  pub profiles : AllItems (ProfileFits a.analysis_delegates) a.analysis_profiles

module _ {F : Type 0} (py : Builtins F) (data' : Dict (Json F)) where
  pub load_chat-Fits : {c : ChatSections F} → load_chat py data' ≡ ok c → ChatFits c
  unfolding load_chat
  load_chat-Fits {c} h =
      let (raw, _, h1) =
        returned
          (optional_mapping (malformed "chat_connections") (get_value "chat_connections" data')) _
          h in
      let (cs, _, h2) = returned (parse_all (parse_chat_connection_config py) raw) _ h1 in
      let (raw_ds, _, h3) =
        returned (optional_mapping (malformed "chat_delegates") (get_value "chat_delegates" data'))
          _ h2 in
      let (ds, e, h4) = returned (parse_all (parse_chat_delegate_config py cs) raw_ds) _ h3 in
      let same : record { chat_connections = cs; chat_delegates = ds } ≡ c = cc in
      subst ChatFits same (record {
        delegates = parse_all-AllItems _ (ChatDelegateFits cs) (chat_delegate-Fits py cs) raw_ds e;
      })

  pub load_analysis-Fits : {a : AnalysisSections F} → load_analysis py data' ≡ ok a → AnalysisFits a
  unfolding load_analysis
  load_analysis-Fits {a} h =
      let (raw, _, h1) = returned (section py "analysis_connections" data') _ h in
      let (cs, _, h2) = returned (parse_all (parse_analysis_connection_config py) raw) _ h1 in
      let (raw_ds, _, h3) = returned (section py "analysis_delegates" data') _ h2 in
      let (ds, e, h4) = returned (parse_all (parse_analysis_delegate_config py cs) raw_ds) _ h3 in
      let (raw_ps, _, h5) = returned (section py "analysis_profiles" data') _ h4 in
      let (ps, e', h6) = returned (parse_all (parse_analysis_profile_config py ds) raw_ps) _ h5 in
      let same : record {
        analysis_connections = cs;
        analysis_delegates = ds;
        analysis_profiles = ps;
      }
          ≡ a =
        cc in
      subst AnalysisFits same (record {
        delegates =
            parse_all-AllItems _ (AnalysisDelegateFits cs) (analysis_delegate-Fits py cs) raw_ds e;
        profiles = profiles-Fit py ds raw_ps e';
      })
