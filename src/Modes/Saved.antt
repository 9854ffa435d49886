-- ===== src/Modes/Saved.antt =====
-- `save_config`: what of the document comes into force.
use mathlib.Core.Path.{ap₂}
use stability_toys.Prelude.{
  String, false, not, ◌++◌, none, some, ◌≡◌, refl, subst, arith, inl, inr, same_text, sym, ap, ◌∙◌,
}
use stability_toys.Prelude.Dict.{Dict, lookup, contains, lookup-append}
use stability_toys.Prelude.Effects.{ok}
use stability_toys.Prelude.Outcome.{returned, passed, ok-eq, Result-cases}
use stability_toys.Analysis.Json.{Json}
use stability_toys.Modes.Values.{
  Builtins, parse_all, mapping, mapping_of, is_name, malformed, get_value, truthy, entries-members,
  missing, required, empty_file, no_such_key, wrong_type, not_supported, unknown_reference,
  removed_field, plain_text, get_or,
}
use stability_toys.Modes.Sections.{ChatSections, AnalysisSections, load_analysis, load_chat}
use stability_toys.Modes.Model.{ModesYaml, Surroundings, hashable}
use stability_toys.Modes.Load.{
  document, load_config, load_surroundings, require_truthy, raw_resolution_sets,
}
use stability_toys.Modes.Parse.{parse_mode, parse_entries}
use stability_toys.Modes.Save.{
  section_entry, chat_connection_entry, chat_delegate_entry, analysis_connection_entry,
  analysis_delegate_to_dict, profile_entry, chat_entries, analysis_entries, given_chat, save_chat,
  save_analysis,
}
use stability_toys.Modes.Manager.{
  ModeConfigManager, mode_entry, saved_head, saved_document, is_no_chat, reload, save_config,
}
use stability_toys.Modes.Written.{lookup-section_entry, lookup-last_entry, section-section_entry}
use stability_toys.Modes.Reloaded.{HasKeys, HasAnalysis, analysis-Normal, analysis_reread}

module _ {F : Type 0} (py : Builtins F)
    (stripped_once : (s : String) → py.strip (py.strip s) ≡ py.strip s) where
  entries-HasAnalysis :
      (a : AnalysisSections F) (front : Dict (Json F))
      → lookup "analysis_connections" front ≡ none
      → lookup "analysis_delegates" front ≡ none
      → lookup "analysis_profiles" front ≡ none
      → HasAnalysis py stripped_once a (front ++ analysis_entries py a)
  unfolding same_text
  entries-HasAnalysis a front c d p =
      let ds = section_entry "analysis_delegates" analysis_delegate_to_dict a.analysis_delegates in
      let ps = section_entry "analysis_profiles" profile_entry a.analysis_profiles in
      let at_front = λ (k : String). lookup-append k front (analysis_entries py a) in
      let at_connections = λ (k : String).
        lookup-section_entry k "analysis_connections" analysis_connection_entry
          a.analysis_connections (ds ++ ps) in
      let at_delegates = λ (k : String).
        lookup-section_entry k "analysis_delegates" analysis_delegate_to_dict a.analysis_delegates
          ps in
      let at_profiles = λ (k : String).
        lookup-last_entry {F = F} k "analysis_profiles" profile_entry a.analysis_profiles in
      let doc = front ++ analysis_entries py a in
      record {
        connections =
            section-section_entry py "analysis_connections" analysis_connection_entry
              a.analysis_connections doc
              (ground (
                arith,
                at_front "analysis_connections",
                at_connections "analysis_connections",
                at_delegates "analysis_connections",
                at_profiles "analysis_connections",
              ));
        delegates =
            section-section_entry py "analysis_delegates" analysis_delegate_to_dict
              a.analysis_delegates doc
              (ground (
                arith,
                at_front "analysis_delegates",
                at_connections "analysis_delegates",
                at_delegates "analysis_delegates",
                at_profiles "analysis_delegates",
              ));
        profiles =
            section-section_entry py "analysis_profiles" profile_entry a.analysis_profiles doc (
              ground (
                arith,
                at_front "analysis_profiles",
                at_connections "analysis_profiles",
                at_delegates "analysis_profiles",
                at_profiles "analysis_profiles",
              ));
      }

  record NoAnalysis (d : Dict (Json F)) : Type 0 where
    connections : lookup "analysis_connections" d ≡ none
    delegates : lookup "analysis_delegates" d ≡ none
    profiles : lookup "analysis_profiles" d ≡ none

  chat_entries-lookup :
      (k : String) (chat : ChatSections F)
      → is_name "chat_connections" k ≡ false
      → is_name "chat_delegates" k ≡ false
      → lookup k (chat_entries py chat) ≡ none
  chat_entries-lookup k chat p q = ground (
    arith,
    lookup-section_entry k "chat_connections" chat_connection_entry chat.chat_connections
        (section_entry "chat_delegates" (chat_delegate_entry py) chat.chat_delegates),
    lookup-last_entry k "chat_delegates" (chat_delegate_entry py) chat.chat_delegates,
  )

  head-NoAnalysis :
      (data' : Dict (Json F)) {head : Dict (Json F)}
      → saved_head py data' ≡ ok head
      → NoAnalysis head
  unfolding saved_head lookup same_text
  head-NoAnalysis data' h =
      let (sets, _, h1) =
        returned (mapping (malformed "resolution_sets") (get_value "resolution_sets" data')) _ h in
      let (root, _, h2) = returned (required (lookup "model_root" data') no_such_key) _ h1 in
      let (loras, _, h3) = returned (required (lookup "lora_root" data') no_such_key) _ h2 in
      let (default, _, h4) = returned (required (lookup "default_mode" data') no_such_key) _ h3 in
      let (modes, _, h5) = returned (required (lookup "modes" data') no_such_key) _ h4 in
      let (raw, _, h6) = returned (mapping wrong_type modes) _ h5 in
      let (entries, _, h7) = returned (parse_all (mode_entry py data') raw) _ h6 in
      subst NoAnalysis (ok-eq h7) (record { connections = refl; delegates = refl; profiles = refl })

  front-NoAnalysis :
      (head : Dict (Json F)) (chat : ChatSections F)
      → NoAnalysis head
      → NoAnalysis (head ++ chat_entries py chat)
  unfolding same_text
  front-NoAnalysis head chat n =
      let absent = λ (k : String). lookup-append k head (chat_entries py chat) in
      let c = chat_entries-lookup "analysis_connections" chat refl refl in
      let d = chat_entries-lookup "analysis_delegates" chat refl refl in
      let p = chat_entries-lookup "analysis_profiles" chat refl refl in
      record {
        connections = ground (arith, absent "analysis_connections", c);
        delegates = ground (arith, absent "analysis_delegates", d);
        profiles = ground (arith, absent "analysis_profiles", p);
      }

  -- What the document of `save_config` holds of analysis
  saved_document-HasAnalysis :
      (data' : Dict (Json F)) {doc : Json F} {a : AnalysisSections F}
      → saved_document py data' ≡ ok doc
      → load_analysis py data' ≡ ok a
      → (d : Dict (Json F)) × (doc ≡ mapping_of d) × HasAnalysis py stripped_once a d
  unfolding saved_document save_chat save_analysis
  saved_document-HasAnalysis data' {doc} {a} h given =
      let (head, e0, h1) = returned (saved_head py data') _ h in
      let (_, h2) = passed (not (is_no_chat (get_value "chat" data'))) not_supported _ h1 in
      let (chat, e, h3) = returned (save_chat py data') _ h2 in
      let (c, _, e1) = returned (given_chat py data') _ e in
      let (analysis, e2, h4) = returned (save_analysis py data') _ h3 in
      let (b, e3, e4) = returned (load_analysis py data') _ e2 in
      let same : b ≡ a = ok-eq (sym e3 ∙ given) in
      let is_chat : chat ≡ chat_entries py c = sym (ok-eq e1) in
      let is_analysis : analysis ≡ analysis_entries py a =
        sym (ok-eq e4) ∙ ap (analysis_entries py) same in
      let bare = front-NoAnalysis head c (head-NoAnalysis data' e0) in
      (
        (head ++ chat_entries py c) ++ analysis_entries py a,
        sym (ok-eq h4) ∙ ap₂ (λ x y. mapping_of ((head ++ x) ++ y)) is_chat is_analysis,
        entries-HasAnalysis a (head ++ chat_entries py c) bare.connections bare.delegates
            bare.profiles,
      )

  document_of :
      (d : Dict (Json F)) {data' : Dict (Json F)}
      → document py (mapping_of d) ≡ ok data'
      → data' ≡ d
  document_of d h =
      let (_, e) = passed (not (truthy py (mapping_of d))) empty_file _ h in
      sym (ok-eq e) ∙ entries-members d

  surroundings-analysis :
      (root : Json F) (data' : Dict (Json F)) {around : Surroundings F}
      → load_surroundings py root data' ≡ ok around
      → load_analysis py data' ≡ ok around.analysis
  unfolding load_surroundings
  surroundings-analysis root data' h =
      let (sets, _, h1) = returned (raw_resolution_sets data') _ h in
      let (model_root, _, h2) = returned (plain_text wrong_type root) _ h1 in
      let (lora_root, _, h3) =
        returned (plain_text wrong_type (get_or "lora_root" root data')) _ h2 in
      let (options, _, h4) = returned (parse_all (parse_entries py) sets) _ h3 in
      let (_, h5) = passed (contains "chat" data') (removed_field "chat") _ h4 in
      let (chat, _, h6) = returned (load_chat py data') _ h5 in
      let (analysis, e, h7) = returned (load_analysis py data') _ h6 in
      subst (λ s. load_analysis py data' ≡ ok s.analysis) (ok-eq h7) e

  -- A loaded configuration has the sections of its document.
  pub load_config-analysis :
      (d : Dict (Json F)) {config : ModesYaml F}
      → load_config py (mapping_of d) ≡ ok config
      → load_analysis py d ≡ ok config.analysis
  unfolding load_config
  load_config-analysis d {config} h =
      let (data', e0, h1) = returned (document py (mapping_of d)) _ h in
      let (root, _, h2) =
        returned (required (lookup "model_root" data') (missing "model_root")) _ h1 in
      let (default, _, h3) =
        returned (required (lookup "default_mode" data') (missing "default_mode")) _ h2 in
      let (raw, _, h4) =
        returned (require_truthy py (missing "modes") (lookup "modes" data')) _ h3 in
      let (around, e, h5) = returned (load_surroundings py root data') _ h4 in
      let (raw_modes, _, h6) = returned (mapping wrong_type raw) _ h5 in
      let (modes, _, h7) = returned (parse_all (parse_mode py around) raw_modes) _ h6 in
      let (default_mode, _, h8) =
        returned (hashable (unknown_reference "default_mode") default) _ h7 in
      let (_, h9) =
        passed (not (contains default_mode modes)) (unknown_reference "default_mode") _ h8 in
      let read : data' ≡ d = document_of d e0 in
      subst (λ c. load_analysis py d ≡ ok c.analysis) (ok-eq h9)
        (subst (λ x. load_analysis py x ≡ ok around.analysis) read
          (surroundings-analysis root data' e))

  -- Where a stripped text has nothing left to strip and YAML reads what it wrote, a `save_config`
  -- that returns puts the sections on analysis into force that it was given, if no connection in
  -- them has an empty name for its key.
  pub analysis-save_config :
      ((j : Json F) → py.reread j ≡ some j)
      → (m : ModeConfigManager F) (data' : Dict (Json F)) {a : AnalysisSections F}
      → load_analysis py data' ≡ ok a
      → HasKeys a.analysis_connections
      → (save_config py m data').0 ≡ ok tt
      → (save_config py m data').1.config.analysis ≡ a
  unfolding save_config reload
  analysis-save_config same_yaml m data' {a} given keys returns =
      elim (Result-cases (saved_document py data')) [
        | inl (e, failed) ↦ absurd (ground (arith, failed))
        | inr (doc, written) ↦
            let (d, is_doc, has) = saved_document-HasAnalysis data' written given in
            let reread =
              analysis_reread py stripped_once a d (analysis-Normal py stripped_once data' given)
                keys has in
            elim (Result-cases (load_config py doc)) [
              | inl (e, failed) ↦ absurd (ground (arith, written, failed, same_yaml doc))
              | inr (c, loaded) ↦
                  let here : load_config py (mapping_of d) ≡ ok c =
                    subst (λ j. load_config py j ≡ ok c) is_doc loaded in
                  let same : c.analysis ≡ a = ok-eq (sym (load_config-analysis d here) ∙ reread) in
                  ground (arith, written, loaded, same_yaml doc, same)
            ]
      ]
