-- ===== src/Modes/Reloaded.antt =====
-- The sections on analysis, from the document that `save_config` writes.
use stability_toys.Prelude.{String, false, [], ◌∷◌, ◌≡◌, ◌≢◌, refl, subst, arith, same_text}
use stability_toys.Prelude.Dict.{Dict, lookup, AllItems}
use stability_toys.Prelude.Effects.{ok}
use stability_toys.Prelude.Outcome.{returned, ok-eq}
use stability_toys.Analysis.Json.{Json, text}
use stability_toys.Modes.Values.{
  Builtins, parse_all, map_values, mapping, mapping_of, malformed, get_value, truthy, is_blank,
  entries-members, to_text,
}
use stability_toys.Modes.Sections.{
  AnalysisDelegateConfig, AnalysisConnectionConfig, AnalysisProfileConfig, AnalysisSections,
  parse_analysis_connection_config, parse_analysis_delegate_config, parse_analysis_profile_config,
  parse_route, routes_of, section, load_analysis,
}
use stability_toys.Modes.Save.{analysis_connection_entry, analysis_delegate_to_dict, profile_entry}
use stability_toys.Modes.Written.{parse_all-map}
use stability_toys.Modes.Reread.{
  ConnectionNormal, connection-Normal, connection_reread, DelegateNormal, delegate-Normal,
  delegate_reread,
}
use stability_toys.Modes.Consistency.{parse_all-AllItems, routes-ne-nil, parsed-ne-nil}

-- No connection has an empty name for its key.
abbrev pub HasKeys : Dict AnalysisConnectionConfig → Type 0
HasKeys = AllItems (λ _ c. is_blank c.api_key_env ≡ false)

module _ {V : Type 0} (P Q : String → V → Type 0) where
  both : (d : Dict V) → AllItems P d → AllItems Q d → AllItems (λ k v. P k v × Q k v) d
  both [] h g = tt
  both (e ∷ d) h g = ((h.0, g.0), both d h.1 g.1)

module _ {F : Type 0} (py : Builtins F)
    (stripped_once : (s : String) → py.strip (py.strip s) ≡ py.strip s) where
  module _ (ds : Dict (AnalysisDelegateConfig F)) where
    abbrev pub RouteNormal : String → String → Type 0
    RouteNormal kind name = parse_route py ds kind (text name) ≡ ok name

    route-Normal :
        (kind : String) (j : Json F) (name : String)
        → parse_route py ds kind j ≡ ok name
        → RouteNormal kind name
    unfolding parse_route
    route-Normal kind j name h = ground (arith, stripped_once (to_text py j))

    pub record ProfileNormal (name : String) (p : AnalysisProfileConfig) : Type 0 where
      named : p.name ≡ name
      some_route : p.task_routes ≢ []
      routes : AllItems RouteNormal p.task_routes

    profile-Normal :
        (name : String) (j : Json F) (p : AnalysisProfileConfig)
        → parse_analysis_profile_config py ds name j ≡ ok p
        → ProfileNormal name p
    unfolding parse_analysis_profile_config
    profile-Normal name j p h =
        let (raw, e1, h1) = returned (mapping (malformed name) j) _ h in
        let (routes, e2, h2) = returned (routes_of py name (get_value "task_routes" raw)) _ h1 in
        let (task_routes, e3, h3) = returned (parse_all (parse_route py ds) routes) _ h2 in
        subst (ProfileNormal name) (ok-eq h3) (record {
          named = refl;
          some_route =
              parsed-ne-nil (parse_route py ds) routes (routes-ne-nil py name _ routes e2) e3;
          routes = parse_all-AllItems (parse_route py ds) RouteNormal route-Normal routes e3;
        })

    routes_reread :
        (name : String) (rs : Dict String)
        → rs ≢ []
        → routes_of py name (mapping_of (map_values text rs)) ≡ ok (map_values text rs)
    unfolding truthy
    routes_reread name [] h = absurd (h refl)
    routes_reread name ((k, r) ∷ rs) h =
        rw (entries-members ((k, text r) ∷ map_values text rs)) refl

    profile_reread :
        (name : String) (p : AnalysisProfileConfig)
        → ProfileNormal name p
        → parse_analysis_profile_config py ds name (profile_entry p) ≡ ok p
    unfolding parse_analysis_profile_config lookup same_text
    profile_reread name p n =
        let routes = routes_reread name p.task_routes n.some_route in
        let parsed =
          parse_all-map (parse_route py ds) text RouteNormal (λ kind r e. e) p.task_routes
            n.routes in
        ground (arith, routes, parsed)

  -- The sections on analysis, as they are found in a document
  pub record HasAnalysis (a : AnalysisSections F) (doc : Dict (Json F)) : Type 0 where
    pub connections :
        section py "analysis_connections" doc
        ≡ ok (map_values analysis_connection_entry a.analysis_connections)
    pub delegates :
        section py "analysis_delegates" doc
        ≡ ok (map_values analysis_delegate_to_dict a.analysis_delegates)
    pub profiles :
        section py "analysis_profiles" doc ≡ ok (map_values profile_entry a.analysis_profiles)

  pub record AnalysisNormal (a : AnalysisSections F) : Type 0 where
    connections : AllItems (ConnectionNormal py stripped_once) a.analysis_connections
    delegates :
        AllItems (DelegateNormal py stripped_once a.analysis_connections) a.analysis_delegates
    profiles : AllItems (ProfileNormal a.analysis_delegates) a.analysis_profiles

  pub analysis-Normal :
      (data' : Dict (Json F)) {a : AnalysisSections F}
      → load_analysis py data' ≡ ok a
      → AnalysisNormal a
  unfolding load_analysis
  analysis-Normal data' h =
      let (raw, _, h1) = returned (section py "analysis_connections" data') _ h in
      let (cs, e1, h2) = returned (parse_all (parse_analysis_connection_config py) raw) _ h1 in
      let (raw_ds, _, h3) = returned (section py "analysis_delegates" data') _ h2 in
      let (ds, e2, h4) = returned (parse_all (parse_analysis_delegate_config py cs) raw_ds) _ h3 in
      let (raw_ps, _, h5) = returned (section py "analysis_profiles" data') _ h4 in
      let (ps, e3, h6) = returned (parse_all (parse_analysis_profile_config py ds) raw_ps) _ h5 in
      subst AnalysisNormal (ok-eq h6) (record {
        connections =
            parse_all-AllItems _ (ConnectionNormal py stripped_once)
              (connection-Normal py stripped_once) raw e1;
        delegates =
            parse_all-AllItems _ (DelegateNormal py stripped_once cs)
              (delegate-Normal py stripped_once cs) raw_ds e2;
        profiles = parse_all-AllItems _ (ProfileNormal ds) (profile-Normal ds) raw_ps e3;
      })

  pub analysis_reread :
      (a : AnalysisSections F) (doc : Dict (Json F))
      → AnalysisNormal a
      → HasKeys a.analysis_connections
      → HasAnalysis a doc
      → load_analysis py doc ≡ ok a
  unfolding load_analysis
  analysis_reread a doc n keys has =
      let p1 =
        parse_all-map (parse_analysis_connection_config py) analysis_connection_entry _
          (connection_reread py stripped_once) a.analysis_connections
          (both (ConnectionNormal py stripped_once) _ a.analysis_connections n.connections keys) in
      let p2 =
        parse_all-map (parse_analysis_delegate_config py a.analysis_connections)
          analysis_delegate_to_dict _ (delegate_reread py stripped_once a.analysis_connections)
          a.analysis_delegates n.delegates in
      let p3 =
        parse_all-map (parse_analysis_profile_config py a.analysis_delegates) profile_entry _
          (profile_reread a.analysis_delegates) a.analysis_profiles n.profiles in
      ground (arith, has.connections, p1, has.delegates, p2, has.profiles, p3)
