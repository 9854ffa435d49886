-- ===== src/Modes/Exported.antt =====
-- The document that `to_dict` gives, handed back to `save_config`.
use stability_toys.Prelude.{String, [], ◌∷◌, some, ◌≡◌, refl, ap, same_text}
use stability_toys.Prelude.Dict.{Dict, lookup}
use stability_toys.Prelude.Effects.{ok}
use stability_toys.Analysis.Json.{Json}
use stability_toys.Modes.Values.{Builtins, map_values, mapping_of, truthy, entries-members}
use stability_toys.Modes.Sections.{section, load_analysis}
use stability_toys.Modes.Model.{ModesYaml}
use stability_toys.Modes.Load.{load_config}
use stability_toys.Modes.Manager.{ModeConfigManager, save_config}
use stability_toys.Modes.Export.{to_dict}
use stability_toys.Modes.Reloaded.{HasKeys, HasAnalysis, analysis-Normal, analysis_reread}
use stability_toys.Modes.Saved.{load_config-analysis, analysis-save_config}

module _ {F : Type 0} (py : Builtins F)
    (stripped_once : (s : String) → py.strip (py.strip s) ≡ py.strip s) where
  -- A section that was written as a mapping, empty or not, is found.
  section-mapping_of :
      {A : Type 0} (key : String) (write : A → Json F) (d : Dict A) (doc : Dict (Json F))
      → lookup key doc ≡ some (mapping_of (map_values write d))
      → section py key doc ≡ ok (map_values write d)
  unfolding section truthy
  section-mapping_of key write [] doc h = rw h refl
  section-mapping_of key write ((k, a) ∷ d) doc h =
      rw h (ap ok (entries-members ((k, write a) ∷ map_values write d)))

  to_dict-HasAnalysis :
      (config : ModesYaml F) → HasAnalysis py stripped_once config.analysis (to_dict py config)
  unfolding to_dict lookup same_text
  to_dict-HasAnalysis config = record {
    connections =
        section-mapping_of "analysis_connections" _ config.analysis.analysis_connections
          (to_dict py config) refl;
    delegates =
        section-mapping_of "analysis_delegates" _ config.analysis.analysis_delegates
          (to_dict py config) refl;
    profiles =
        section-mapping_of "analysis_profiles" _ config.analysis.analysis_profiles
          (to_dict py config) refl;
  }

  -- What `to_dict` writes of analysis is read again as it was.
  to_dict-load_analysis :
      (data' : Dict (Json F)) (config : ModesYaml F)
      → load_analysis py data' ≡ ok config.analysis
      → HasKeys config.analysis.analysis_connections
      → load_analysis py (to_dict py config) ≡ ok config.analysis
  to_dict-load_analysis data' config loaded keys =
      analysis_reread py stripped_once config.analysis (to_dict py config)
        (analysis-Normal py stripped_once data' loaded) keys (to_dict-HasAnalysis config)

  -- Where a stripped text has nothing left to strip and YAML reads what it wrote, a `save_config`
  -- of what `to_dict` gave of the configuration in force, which was loaded from a file, leaves
  -- the sections on analysis as they were if it returns, if no connection in them has an empty
  -- name for its key.
  pub save_config-to_dict :
      ((j : Json F) → py.reread j ≡ some j)
      → (m : ModeConfigManager F) (file : Dict (Json F))
      → load_config py (mapping_of file) ≡ ok m.config
      → HasKeys m.config.analysis.analysis_connections
      → (save_config py m (to_dict py m.config)).0 ≡ ok tt
      → (save_config py m (to_dict py m.config)).1.config.analysis ≡ m.config.analysis
  save_config-to_dict same_yaml m file loaded keys returns =
      analysis-save_config py stripped_once same_yaml m (to_dict py m.config)
        (to_dict-load_analysis file m.config (load_config-analysis py stripped_once file loaded)
          keys)
        keys returns
