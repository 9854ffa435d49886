-- ===== src/Modes/Running.antt =====
-- The configuration over any calls of the manager, and the chat backend that it finds for a mode.
use stability_toys.Prelude.{
  String, true, List, [], ◌∷◌, Option, none, some, ◌≡◌, ◌⊎◌, refl, subst, arith, inl, inr,
  Option-cases, same_text, ap,
}
use stability_toys.Prelude.Dict.{Dict, lookup, contains, lookup-of_AllItems}
use stability_toys.Prelude.Effects.{ok, raised}
use stability_toys.Prelude.Outcome.{returned, ok-eq, Result-cases}
use stability_toys.Analysis.Json.{Json}
use stability_toys.Modes.Values.{Parsed, Builtins}
use stability_toys.Modes.Sections.{ChatConnectionConfig, ChatDelegateConfig}
use stability_toys.Modes.Model.{ModesYaml, ModeConfig, is_known}
use stability_toys.Modes.Load.{load_config}
use stability_toys.Modes.Chat.{
  ChatBackendConfig, get_mode, get_default_mode_config, delegate_backend, of_delegate,
  resolve_chat_config,
}
use stability_toys.Modes.Manager.{
  ModeConfigManager, load_file, open_manager, reload, save_config, saved_document, adopt,
  replace_file,
}
use stability_toys.Modes.Overrides.{Gives, chat_backend-Gives}
use stability_toys.Modes.Loading.{IsConsistent, load_config-IsConsistent}

-- A call of the manager, or a change of the file by somebody else
pub data Call (F : Type 0) : Type 0 where
  save : Dict (Json F) → Call F
  reload_call : Call F
  edit : Option (Json F) → Call F

module _ {F : Type 0} (py : Builtins F) where
  unfoldable pub step : ModeConfigManager F → Call F → ModeConfigManager F
  step m (save data') = (save_config py m data').1
  step m reload_call = (reload py m).1
  step m (edit file) = record m { file = file }

  unfoldable pub run : ModeConfigManager F → List (Call F) → ModeConfigManager F
  run m [] = m
  run m (c ∷ cs) = run (step m c) cs

  adopt-IsConsistent :
      (m : ModeConfigManager F) (file : Option (Json F))
      → IsConsistent m.config
      → IsConsistent (adopt py m (load_file py file)).1.config
  adopt-IsConsistent m none h = h
  adopt-IsConsistent m (some j) h = elim (Result-cases (load_config py j)) [
    | inl (e, failed) ↦ rw failed h
    | inr (c, loaded) ↦ rw loaded (load_config-IsConsistent py j loaded)
  ]

  reload-IsConsistent :
      (m : ModeConfigManager F) → IsConsistent m.config → IsConsistent (reload py m).1.config
  unfolding reload
  reload-IsConsistent m h = adopt-IsConsistent m m.file h

  replace-IsConsistent :
      (m : ModeConfigManager F) (document : Parsed (Json F))
      → IsConsistent m.config
      → IsConsistent (replace_file py m document).1.config
  replace-IsConsistent m (raised e) h = h
  replace-IsConsistent m (ok doc) h = reload-IsConsistent (record m { file = py.reread doc }) h

  step-IsConsistent :
      (m : ModeConfigManager F) (c : Call F)
      → IsConsistent m.config
      → IsConsistent (step m c).config
  unfolding step save_config
  step-IsConsistent m reload_call h = reload-IsConsistent m h
  step-IsConsistent m (edit file) h = h
  step-IsConsistent m (save data') h = replace-IsConsistent m (saved_document py data') h

  run-IsConsistent :
      (m : ModeConfigManager F) (cs : List (Call F))
      → IsConsistent m.config
      → IsConsistent (run m cs).config
  unfolding run
  run-IsConsistent m [] h = h
  run-IsConsistent m (c ∷ cs) h = run-IsConsistent (step m c) cs (step-IsConsistent m c h)

  opened-IsConsistent :
      (file : Option (Json F)) {m : ModeConfigManager F}
      → open_manager py file ≡ ok m
      → IsConsistent m.config
  unfolding open_manager
  opened-IsConsistent none h = cc
  opened-IsConsistent (some j) h =
      let (c, e, e') = returned (load_config py j) _ h in
      subst (λ m. IsConsistent m.config) (ok-eq e') (load_config-IsConsistent py j e)

  -- Once a manager was opened, its configuration is consistent after any calls and edits of the
  -- file, whether they raise or not, and there is a default mode.
  pub manager-IsConsistent :
      (file : Option (Json F)) (cs : List (Call F)) {m : ModeConfigManager F}
      → open_manager py file ≡ ok m
      → IsConsistent (run m cs).config
        × ((mode : ModeConfig F) × (get_default_mode_config (run m cs).config ≡ ok mode))
  unfolding get_default_mode_config get_mode
  manager-IsConsistent file cs {m} h =
      let c = run-IsConsistent m cs (opened-IsConsistent file h) in
      let known = c.default_known in
      (
        c,
        elim (Option-cases (lookup (run m cs).config.default_mode (run m cs).config.modes)) [
          | inl e ↦ absurd (ground (arith, e))
          | inr (mode, e) ↦ (mode, rw e)
        ],
      )

  -- The answer is made of a delegate and a connection that the configuration has.
  pub record Chats (config : ModesYaml F) (name : String) (overrides : Dict (Json F))
      (r : Parsed (Option (ChatBackendConfig F))) : Type 0 where
    pub delegate : ChatDelegateConfig F
    pub connection : ChatConnectionConfig
    pub known : lookup name config.chat.chat_delegates ≡ some delegate
    pub connected : lookup delegate.connection config.chat.chat_connections ≡ some connection
    pub result : Gives py connection delegate overrides r

  abbrev pub NoBackend : Option String → Parsed (Option (ChatBackendConfig F)) → Type 0
  NoBackend o r = ((o ≡ none) ⊎ (o ≡ some "")) × (r ≡ ok none)

  abbrev pub DelegateBackend :
      ModesYaml F → Option String → Dict (Json F) → Parsed (Option (ChatBackendConfig F)) → Type 0
  DelegateBackend config o overrides r =
      (name : String) × (o ≡ some name) × Chats config name overrides r

  delegate-Chats :
      (config : ModesYaml F) (name : String) (overrides : Dict (Json F))
      → IsConsistent config
      → contains name config.chat.chat_delegates ≡ true
      → Chats config name overrides (delegate_backend py config name overrides)
  delegate-Chats config name overrides c known =
      elim (Option-cases (lookup name config.chat.chat_delegates)) [
        | inl e ↦ absurd (ground (arith, e))
        | inr (d, e) ↦
            let (_, connected) =
              lookup-of_AllItems _ config.chat.chat_delegates c.chat.delegates name d e in
            elim (Option-cases (lookup d.connection config.chat.chat_connections)) [
              | inl e' ↦ absurd (ground (arith, e'))
              | inr (k, e') ↦ record {
                delegate = d;
                connection = k;
                known = e;
                connected = e';
                result =
                    subst (Gives py k d overrides) (ground (arith, e, e'))
                      (chat_backend-Gives py k d overrides);
              }
            ]
      ]

  of_delegate-Chats :
      (config : ModesYaml F) (o : Option String) (overrides : Dict (Json F))
      → IsConsistent config
      → is_known o config.chat.chat_delegates ≡ true
      → NoBackend o (of_delegate py config o overrides)
        ⊎ DelegateBackend config o overrides (of_delegate py config o overrides)
  of_delegate-Chats config none overrides c known = inl (inl refl, refl)
  of_delegate-Chats config (some name) overrides c known = elim (same_text name "") [
    | yes p ↦ inl (inr (ap some p), ground arith)
    | no p ↦ inr (
      name,
      refl,
      subst (Chats config name overrides) (ground arith)
          (delegate-Chats config name overrides c known),
    )
  ]

  -- For a mode of a consistent configuration, `resolve_chat_config` answers with no backend where the
  -- mode names no delegate. Where it names one, the configuration has that delegate and its connection,
  -- and the answer is a backend at this connection, or a ValueError where an override of `max_tokens`
  -- or `temperature` is given that is no number. The backend has the overriding model unless that is
  -- absent or blank, the overriding numbers that are given, and the prompts of both, stripped, that are
  -- not blank; the rest is the delegate's. No KeyError is raised.
  pub resolve_chat_config-Chats :
      (config : ModesYaml F) (name : String) (mode : ModeConfig F) (overrides : Dict (Json F))
      → IsConsistent config
      → lookup name config.modes ≡ some mode
      → NoBackend mode.chat_delegate (resolve_chat_config py config name overrides)
        ⊎ DelegateBackend config mode.chat_delegate overrides
            (resolve_chat_config py config name overrides)
  unfolding resolve_chat_config get_mode
  resolve_chat_config-Chats config name mode overrides c is_mode =
      let fits = lookup-of_AllItems _ config.modes c.modes name mode is_mode in
      rw is_mode (of_delegate-Chats config mode.chat_delegate overrides c fits.chats)
