-- ===== src/Resolution/Wire.antt =====
-- backends/model_resolution.py: a resolved model, its wire form and its integrity.
use stability_toys.Prelude.{String, Bool, false, not, List, [], ◌∷◌, map, none, some, ◌&&◌}
use stability_toys.Prelude.Dict.{Dict, lookup}
use stability_toys.Prelude.Effects.{ok, raised}
use stability_toys.Prelude.Outcome.{◌>>=◌, ◌>>◌, refuse}
use stability_toys.Analysis.Json.{Json, boolean, number, text, array, object}
use stability_toys.Families.Profiles.{FamilyProfile, validate_family_id}
use stability_toys.Modes.Values.{entries, mapping_of, array_of, is_name}
use stability_toys.Resolution.Snapshot.{
  Resolved, no_such_key, wrong_type, weak_identity, bad_version, id_mismatch, unknown_profile,
  profile_differs, family, ModelInfo, ModelInfoSnapshot, freeze_model_info, snapshot_to_json_dict,
  snapshot_from_json_dict, optional_string, as_tuple, at_key,
}
use stability_toys.Resolution.Identity.{
  ModelArtifactRef, FileSystem, model_ref_to_json_dict, model_ref_from_json_dict,
  has_strong_identity,
}

-- A profile, as the wire may hold it
pub record WireProfile (F : Type 0) : Type 0 where
  pub family_id : String
  pub encoder_roles : List (Json F)
  pub pooled_required : Json F
  pub pooled_projection_role : Json F
  pub control_image_kwarg : Json F

pub record ResolvedModel (F : Type 0) : Type 0 where
  pub schema_version : Json F
  pub resolution_id : Json F
  pub model_ref : ModelArtifactRef F
  pub raw_info : ModelInfoSnapshot F
  pub profile : WireProfile F
  pub info : ModelInfoSnapshot F

module _ {F : Type 0} where
  abbrev pub wire_profile : FamilyProfile → WireProfile F
  wire_profile p = record {
    family_id = p.family_id;
    encoder_roles = map text p.encoder_roles;
    pooled_required = boolean p.pooled_required;
    pooled_projection_role = optional_string p.pooled_projection_role;
    control_image_kwarg = text p.control_image_kwarg;
  }

  -- `profile_to_json_dict`
  unfoldable pub profile_to_json_dict : WireProfile F → Dict (Json F)
  profile_to_json_dict p =
      ("family_id", text p.family_id)
      ∷ ("encoder_roles", array (array_of p.encoder_roles))
      ∷ ("pooled_required", p.pooled_required)
      ∷ ("pooled_projection_role", p.pooled_projection_role)
      ∷ ("control_image_kwarg", p.control_image_kwarg)
      ∷ []

  -- `validate_family_id`; what is no text is no family.
  abbrev pub known_family : Json F → Resolved String
  known_family (text s) = elim (validate_family_id s) [ raised e ↦ raised (family e) | ok _ ↦ ok s ]
  known_family _ = raised wrong_type

  -- `profile_from_json_dict`
  unfoldable pub profile_from_json_dict : Dict (Json F) → Resolved (WireProfile F)
  profile_from_json_dict wire = do
    raw_id ← at_key (lookup "family_id" wire) no_such_key
    family_id ← known_family raw_id
    raw_roles ← at_key (lookup "encoder_roles" wire) no_such_key
    encoder_roles ← as_tuple raw_roles
    pooled_required ← at_key (lookup "pooled_required" wire) no_such_key
    role ← at_key (lookup "pooled_projection_role" wire) no_such_key
    kwarg ← at_key (lookup "control_image_kwarg" wire) no_such_key
    ok (record {
      family_id = family_id;
      encoder_roles = encoder_roles;
      pooled_required = pooled_required;
      pooled_projection_role = role;
      control_image_kwarg = kwarg;
    })

  abbrev pub as_mapping : Json F → Resolved (Dict (Json F))
  as_mapping (object ms) = ok (entries ms)
  as_mapping _ = raised wrong_type

module _ {F : Type 0} (os : FileSystem F) (is_finite : F → Bool) where
  -- `RESOLVED_MODEL_SCHEMA_VERSION`
  abbrev pub schema_version_1 : Json F
  schema_version_1 = number (os.of_nat 1)

  -- `_resolution_payload`
  unfoldable pub resolution_payload :
      ModelArtifactRef F → ModelInfoSnapshot F → WireProfile F → ModelInfoSnapshot F → Json F
  resolution_payload model_ref raw_info profile info = mapping_of (
      ("schema_version", schema_version_1)
      ∷ ("model_ref", mapping_of (model_ref_to_json_dict model_ref))
      ∷ ("raw_info", mapping_of (snapshot_to_json_dict raw_info))
      ∷ ("profile", mapping_of (profile_to_json_dict profile))
      ∷ ("info", mapping_of (snapshot_to_json_dict info))
      ∷ [])

  -- `expected_resolution_id`, with the hash of `canonical_resolution_bytes`
  unfoldable pub expected_resolution_id : ResolvedModel F → Json F
  expected_resolution_id r =
      text (os.sha256 (resolution_payload r.model_ref r.raw_info r.profile r.info))

  -- `build_resolved`
  unfoldable pub build_resolved :
      ModelArtifactRef F → ModelInfo F → FamilyProfile → ModelInfo F → Resolved (ResolvedModel F)
  build_resolved model_ref raw_info profile info = do
    frozen_raw ← freeze_model_info os.of_nat is_finite raw_info
    frozen_info ← freeze_model_info os.of_nat is_finite info
    ok (record {
      schema_version = schema_version_1;
      resolution_id =
          text (
            os.sha256 (resolution_payload model_ref frozen_raw (wire_profile profile) frozen_info));
      model_ref = model_ref;
      raw_info = frozen_raw;
      profile = wire_profile profile;
      info = frozen_info;
    })

  -- `resolved_model_to_json_dict`
  unfoldable pub resolved_model_to_json_dict : ResolvedModel F → Dict (Json F)
  resolved_model_to_json_dict r =
      ("schema_version", r.schema_version)
      ∷ ("resolution_id", r.resolution_id)
      ∷ ("model_ref", mapping_of (model_ref_to_json_dict r.model_ref))
      ∷ ("raw_info", mapping_of (snapshot_to_json_dict r.raw_info))
      ∷ ("profile", mapping_of (profile_to_json_dict r.profile))
      ∷ ("info", mapping_of (snapshot_to_json_dict r.info))
      ∷ []

  abbrev pub same_id : Json F → Json F → Bool
  same_id (text s) (text t) = is_name s t
  same_id _ _ = false

  -- `verify_resolution_id`
  unfoldable pub verify_resolution_id : ResolvedModel F → Resolved (Unit {0})
  verify_resolution_id r =
      refuse (not (same_id r.resolution_id (expected_resolution_id r))) id_mismatch

  abbrev pub wire_part : String → Dict (Json F) → Resolved (Dict (Json F))
  wire_part key wire = at_key (lookup key wire) no_such_key >>= as_mapping

  -- The parts of `resolved_model_from_json_dict`
  unfoldable pub read_resolved : Dict (Json F) → Resolved (ResolvedModel F)
  read_resolved wire = do
    version ← at_key (lookup "schema_version" wire) no_such_key
    id ← at_key (lookup "resolution_id" wire) no_such_key
    raw_ref ← wire_part "model_ref" wire
    model_ref ← model_ref_from_json_dict raw_ref
    raw_raw ← wire_part "raw_info" wire
    raw_info ← snapshot_from_json_dict is_finite raw_raw
    raw_profile ← wire_part "profile" wire
    profile ← profile_from_json_dict raw_profile
    wire_info ← wire_part "info" wire
    info ← snapshot_from_json_dict is_finite wire_info
    ok (record {
      schema_version = version;
      resolution_id = id;
      model_ref = model_ref;
      raw_info = raw_info;
      profile = profile;
      info = info;
    })

  -- `resolved_model_from_json_dict`
  unfoldable pub resolved_model_from_json_dict : Dict (Json F) → Resolved (ResolvedModel F)
  resolved_model_from_json_dict wire = do
    resolved ← read_resolved wire
    verify_resolution_id resolved
    ok resolved

  -- `validate_resolved_model_trace`; `same` is `==`.
  unfoldable pub validate_resolved_model_trace :
      (Json F → Json F → Bool) → ResolvedModel F → Bool → Resolved (Unit {0})
  validate_resolved_model_trace same r for_execution = do
    refuse (not (same r.schema_version schema_version_1)) bad_version
    verify_resolution_id r
    refuse (for_execution && not (has_strong_identity os r.model_ref)) weak_identity

  -- `consume_resolved_model`
  unfoldable pub consume_resolved_model :
      (Json F → Json F → Bool)
      → (WireProfile F → WireProfile F → Bool)
      → ResolvedModel F
      → Dict FamilyProfile
      → Resolved FamilyProfile
  consume_resolved_model same same_profile r registry_profiles = do
    validate_resolved_model_trace same r false
    elim (lookup r.profile.family_id registry_profiles) [
      | none ↦ raised unknown_profile
      | some canonical ↦
          (refuse (not (same_profile r.profile (wire_profile canonical))) profile_differs
            >> ok canonical)
    ]
