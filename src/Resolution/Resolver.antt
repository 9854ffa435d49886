-- ===== src/Resolution/Resolver.antt =====
-- backends/model_resolution.py: the overlay of a mode on what was detected, and the resolver.
use stability_toys.Prelude.{String, Bool, false, List, [], ◌∷◌, Option, none, some, if◌then◌else◌}
use stability_toys.Prelude.Effects.{ok, raised}
use stability_toys.Prelude.Outcome.{◌>>=◌}
use stability_toys.Analysis.Json.{Json}
use stability_toys.Assets.Cleanup.{member}
use stability_toys.Families.Profiles.{FamilyProfile, family_registry, resolve_family}
use stability_toys.Modes.Values.{is_name, is_null}
use stability_toys.Resolution.Snapshot.{Resolved, family, ModelInfo, Value, Pairs, no_pairs, pair}
use stability_toys.Resolution.Identity.{FileSystem, local_artifact_ref}
use stability_toys.Resolution.Wire.{ResolvedModel, build_resolved}

pub record LocalModelBinding : Type 0 where
  pub model_path : String

-- The fields of a mode that override what was detected: a value or `None` each
pub record ModeOverrides (F : Type 0) : Type 0 where
  pub scalars : String → Json F
  pub negative_prompt_templates : Pairs F
  pub allowed_scheduler_ids : Option (List (Json F))
  pub metadata : Pairs F

-- Two keys that are the same text
abbrev pub same_key : Option String → Option String → Bool
same_key (some k) (some j) = is_name k j
same_key _ _ = false

-- The scalar fields that a mode may override
unfoldable pub capability_fields : List String
capability_fields =
    "loader_format" ∷ "checkpoint_precision" ∷ "checkpoint_variant" ∷ "scheduler_profile"
    ∷ "recommended_size" ∷ "runtime_quantize" ∷ "runtime_offload" ∷ "runtime_attention_slicing"
    ∷ "runtime_enable_xformers" ∷ "default_negative_prompt_template"
    ∷ "allow_custom_negative_prompt" ∷ "default_scheduler_id" ∷ []

module _ {F : Type 0} where
  -- `d[key] = value`; a key that is no text is not compared.
  unfoldable pub set_pair : Option String → Value F → Pairs F → Pairs F
  set_pair k v no_pairs = pair k v no_pairs
  set_pair k v (pair j w ps) = if same_key k j then pair j v ps else pair j w (set_pair k v ps)

  -- `{**existing, **added}`
  unfoldable pub merged : Pairs F → Pairs F → Pairs F
  merged existing no_pairs = existing
  merged existing (pair k v ps) = merged (set_pair k v existing) ps

  abbrev pub or_detected : Json F → Json F → Json F
  or_detected j detected = if is_null j then detected else j

  abbrev pub or_list : Option (List (Json F)) → Option (List (Json F)) → Option (List (Json F))
  or_list none detected = detected
  or_list (some js) detected = some js

  abbrev pub overridden : ModelInfo F → ModeOverrides F → String → Json F
  overridden info mode name =
      if member name capability_fields
      then or_detected (mode.scalars name) (info.scalars name)
      else info.scalars name

  -- `merge_mode_capabilities`; the templates of a mode are never `None`.
  unfoldable pub merge_mode_capabilities : ModelInfo F → ModeOverrides F → ModelInfo F
  merge_mode_capabilities info mode = record info {
    negative_prompt_templates = mode.negative_prompt_templates;
    allowed_scheduler_ids = or_list mode.allowed_scheduler_ids info.allowed_scheduler_ids;
    metadata = merged info.metadata mode.metadata;
    scalars = overridden info mode;
  }

module _ {F : Type 0} (os : FileSystem F) (is_finite : F → Bool)
    (detect_model : String → ModelInfo F) where
  abbrev pub family_of : ModelInfo F → Resolved FamilyProfile
  family_of info = elim (resolve_family info.family family_registry) [
    | raised e ↦ raised (family e)
    | ok p ↦ ok p
  ]

  -- `resolve_model`
  unfoldable pub resolve_model :
      String → ModeOverrides F → Resolved (ResolvedModel F × LocalModelBinding)
  resolve_model model_path mode = do
    let raw = detect_model model_path
    profile ← family_of raw
    let enriched = merge_mode_capabilities raw mode
    model_ref ← local_artifact_ref os model_path
    resolved ← build_resolved os is_finite model_ref raw profile enriched
    ok (resolved, record { model_path = model_path })
