-- ===== src/Families/Registry.antt =====
-- server/controlnet_registry.py: the registered ControlNet models, and the models that the modes refer to.
-- `exists_at` is `Path.exists`, and `detect` is `detect_model` of a file.
use stability_toys.Prelude.{
  String, Bool, false, not, List, [], ◌∷◌, ◌++◌, Option, none, some, ◌&&◌, if◌then◌else◌,
}
use stability_toys.Prelude.Dict.{Dict, lookup, insert}
use stability_toys.Prelude.Effects.{Result, ok, raised}
use stability_toys.Prelude.Outcome.{◌>>=◌, ◌>>◌, refuse}
use stability_toys.Assets.Cleanup.{member}
use stability_toys.Controlnet.Policy.{ControlNetControlTypePolicy, ControlNetPolicy, is_empty}
use stability_toys.Families.Profiles.{
  FamilyError, ModelInfo, validate_family_id, resolve_family, family_registry, is_text,
}

pub record ControlNetModelSpec : Type 0 where
  pub model_id : String
  pub path : String
  pub control_types : List String
  pub compatible_with : List String

pub record ControlNetRegistry : Type 0 where
  pub specs : Dict ControlNetModelSpec
  pub validation_mode : String

pub data RegistryError : Type 0 where
  unknown_model no_such_path missing_key no_model_path no_family default_not_allowed
        type_unsupported family_incompatible :
      RegistryError
  bad_family : FamilyError → RegistryError

abbrev pub Registered : Type 0 → Type 0
Registered A = Result RegistryError A

-- An entry of the YAML file; a key that it lacks is a KeyError.
pub record RawModel : Type 0 where
  pub path : Option String
  pub control_types : Option (List String)
  pub compatible_with : Option (List String)

abbrev pub required : {A : Type 0} → Option A → Registered A
required none = raised missing_key
required (some a) = ok a

unfoldable pub check_families : List String → Registered (Unit {0})
check_families [] = ok tt
check_families (id ∷ ids) = elim (validate_family_id id) [
  | raised e ↦ raised (bad_family e)
  | ok _ ↦ check_families ids
]

-- What is read of a mode.
pub record ModeReferences (F : Type 0) : Type 0 where
  pub model_path : Option String
  pub controlnet_policy : Option (ControlNetPolicy F)

abbrev pub mode_family : (String → ModelInfo) → Option String → Registered String
mode_family detect none = raised no_model_path
mode_family detect (some path) = elim (resolve_family (detect path) family_registry) [
  | raised _ ↦ raised no_family
  | ok profile ↦ ok profile.family_id
]

module _ {F : Type 0} where
  -- `type_policy.default_model_id not in type_policy.allowed_model_ids`
  abbrev pub default_is_outside : ControlNetControlTypePolicy F → Bool
  default_is_outside t = elim t.default_model_id [
    | none ↦ false
    | some m ↦ not (member m t.allowed_model_ids)
  ]

  -- `referenced_model_ids`
  unfoldable pub referenced_model_ids : ControlNetControlTypePolicy F → List String
  referenced_model_ids t = elim t.default_model_id [
    | none ↦ t.allowed_model_ids
    | some m ↦
        if member m t.allowed_model_ids then t.allowed_model_ids else t.allowed_model_ids ++ m ∷ []
  ]

module _ (exists_at : String → Bool) where
  -- `_validate_local_path`
  abbrev pub validate_local_path : ControlNetModelSpec → Registered (Unit {0})
  validate_local_path spec = refuse (not (exists_at spec.path)) no_such_path

  -- `get_required`
  unfoldable pub get_required : ControlNetRegistry → String → Registered ControlNetModelSpec
  get_required registry model_id = elim (lookup model_id registry.specs) [
    | none ↦ raised unknown_model
    | some spec ↦ do
      (if is_text registry.validation_mode "lazy" then validate_local_path spec else ok tt)
      ok spec
  ]

  -- A round of `load_controlnet_registry`
  unfoldable pub load_spec : String → String → RawModel → Registered ControlNetModelSpec
  load_spec mode model_id data' = do
    path ← required data'.path
    control_types ← required data'.control_types
    compatible_with ← required data'.compatible_with
    let spec : ControlNetModelSpec = record {
      model_id = model_id;
      path = path;
      control_types = control_types;
      compatible_with = compatible_with;
    }
    check_families compatible_with
    (if is_text mode "strict" then validate_local_path spec else ok tt)
    ok spec

  unfoldable pub load_specs :
      String → Dict ControlNetModelSpec → Dict RawModel → Registered (Dict ControlNetModelSpec)
  load_specs mode specs [] = ok specs
  load_specs mode specs ((model_id, raw) ∷ more) = do
    spec ← load_spec mode model_id raw
    load_specs mode (insert model_id spec specs) more

  -- `load_controlnet_registry`, from what YAML reads
  unfoldable pub load_controlnet_registry : String → Dict RawModel → Registered ControlNetRegistry
  load_controlnet_registry mode models = do
    specs ← load_specs mode [] models
    ok (record { specs = specs; validation_mode = mode })

  -- A round of the inmost loop of `validate_controlnet_mode_references`
  unfoldable pub check_model_id :
      ControlNetRegistry → String → String → String → Registered (Unit {0})
  check_model_id registry family control_type model_id = do
    spec ← get_required registry model_id
    refuse (not (member control_type spec.control_types)) type_unsupported
    refuse (not (member family spec.compatible_with)) family_incompatible

  unfoldable pub check_model_ids :
      ControlNetRegistry → String → String → List String → Registered (Unit {0})
  check_model_ids registry family control_type [] = ok tt
  check_model_ids registry family control_type (id ∷ ids) = do
    check_model_id registry family control_type id
    check_model_ids registry family control_type ids

  module _ {F : Type 0} where
    unfoldable pub check_types :
        ControlNetRegistry → String → Dict (ControlNetControlTypePolicy F) → Registered (Unit {0})
    check_types registry family [] = ok tt
    check_types registry family ((control_type, t) ∷ more) = do
      refuse (not (is_empty t.allowed_model_ids) && default_is_outside t) default_not_allowed
      check_model_ids registry family control_type (referenced_model_ids t)
      check_types registry family more

    unfoldable pub check_mode :
        (String → ModelInfo) → ControlNetRegistry → ModeReferences F → Registered (Unit {0})
    check_mode detect registry mode = elim mode.controlnet_policy [
      | none ↦ ok tt
      | some policy ↦
          if not policy.enabled
          then ok tt
          else (mode_family detect mode.model_path >>= λ family.
              check_types registry family policy.allowed_control_types)
    ]

    -- `validate_controlnet_mode_references`
    unfoldable pub validate_references :
        (String → ModelInfo) → ControlNetRegistry → Dict (ModeReferences F) → Registered (Unit {0})
    validate_references detect registry [] = ok tt
    validate_references detect registry ((_, mode) ∷ modes) = do
      check_mode detect registry mode
      validate_references detect registry modes

  -- server/controlnet_execution.py: how `resolve_controlnet_bindings` finds the model of an attachment
  unfoldable pub spec_for :
      ControlNetRegistry → String → String → String → Registered ControlNetModelSpec
  spec_for registry active_family control_type model_id = do
    spec ← get_required registry model_id
    refuse (not (member control_type spec.control_types)) type_unsupported
    refuse (not (member active_family spec.compatible_with)) family_incompatible
    ok spec
