-- ===== src/Resolution/Traces.antt =====
-- Built, read and checked traces, and their ids.
use stability_toys.Prelude.{Bool, ◌≡◌, ◌⊎◌, inl, inr, refl, sym, subst, same_text, arith}
use stability_toys.Prelude.Dict.{lookup}
use stability_toys.Prelude.Effects.{ok}
use stability_toys.Prelude.Outcome.{returned, ok-eq}
use stability_toys.Analysis.Json.{number}
use stability_toys.Families.Profiles.{
  FamilyProfile, ModelInfo as DetectedFamily, sd15_profile, sdxl_profile, hunyuandit_profile,
  family_registry, family_ids, matches, resolve_family, validate_family_id,
}
use stability_toys.Modes.Values.{entries-members}
use stability_toys.Modes.Blocks.{items-array_of}
use stability_toys.Resolution.Snapshot.{
  ModelInfo, ModelInfoSnapshot, attributes, scalar_snapshot_fields, freeze_model_info,
  snapshot_to_json_dict,
}
use stability_toys.Resolution.Identity.{
  ModelArtifactRef, FileSystem, model_ref_to_json_dict, model_ref_from_json_dict,
}
use stability_toys.Resolution.Wire.{
  WireProfile, ResolvedModel, wire_profile, profile_to_json_dict, profile_from_json_dict,
  expected_resolution_id, build_resolved, resolved_model_to_json_dict, verify_resolution_id,
  read_resolved,
}
use stability_toys.Resolution.Roundtrip.{IsFrozen, freeze-IsFrozen, snapshot_reread}

-- The three families, by their profiles
resolved_profile :
    (info : DetectedFamily) {p : FamilyProfile}
    → resolve_family info family_registry ≡ ok p
    → (p ≡ sd15_profile) ⊎ (p ≡ sdxl_profile) ⊎ (p ≡ hunyuandit_profile)
unfolding resolve_family matches family_registry
resolved_profile info {p} h = ground arith

pub known-resolve_family :
    (info : DetectedFamily) {p : FamilyProfile}
    → resolve_family info family_registry ≡ ok p
    → validate_family_id p.family_id ≡ ok tt
unfolding validate_family_id family_ids family_registry same_text
known-resolve_family info {p} h = elim (resolved_profile info h) [
  | inl e ↦ subst (λ q. validate_family_id q.family_id ≡ ok tt) (sym e) refl
  | inr (inl e) ↦ subst (λ q. validate_family_id q.family_id ≡ ok tt) (sym e) refl
  | inr (inr e) ↦ subst (λ q. validate_family_id q.family_id ≡ ok tt) (sym e) refl
]

module _ {F : Type 0} where
  model_ref_reread :
      (ref : ModelArtifactRef F) → model_ref_from_json_dict (model_ref_to_json_dict ref) ≡ ok ref
  unfolding model_ref_from_json_dict model_ref_to_json_dict lookup same_text
  model_ref_reread ref = refl

  profile_reread :
      (p : WireProfile F)
      → validate_family_id p.family_id ≡ ok tt
      → profile_from_json_dict (profile_to_json_dict p) ≡ ok p
  unfolding profile_from_json_dict profile_to_json_dict lookup same_text
  profile_reread p known = ground (arith, items-array_of F p.encoder_roles, known)

module _ {F : Type 0} (os : FileSystem F) (is_finite : F → Bool) where
  pub record IsBuilt (r : ResolvedModel F) : Type 0 where
    pub id : r.resolution_id ≡ expected_resolution_id os is_finite r
    pub version : r.schema_version ≡ number (os.of_nat 1)
    pub raw_info : IsFrozen is_finite os.of_nat r.raw_info
    pub info : IsFrozen is_finite os.of_nat r.info
    pub family : validate_family_id r.profile.family_id ≡ ok tt

  frozen_scalars :
      (info : ModelInfo F) {s : ModelInfoSnapshot F}
      → freeze_model_info os.of_nat is_finite info ≡ ok s
      → s.scalars ≡ attributes os.of_nat info scalar_snapshot_fields
  unfolding freeze_model_info
  frozen_scalars info {s} h = ground arith

  -- What a resolved model was built of
  pub record IsBuiltOf (raw : ModelInfo F) (p : FamilyProfile) (info : ModelInfo F)
      (r : ResolvedModel F) : Type 0 where
    pub built : IsBuilt r
    pub profile : r.profile ≡ wire_profile p
    pub raw_scalars : r.raw_info.scalars ≡ attributes os.of_nat raw scalar_snapshot_fields
    pub scalars : r.info.scalars ≡ attributes os.of_nat info scalar_snapshot_fields

  pub build_resolved-IsBuiltOf :
      (ref : ModelArtifactRef F) (raw : ModelInfo F) (p : FamilyProfile) (info : ModelInfo F)
      {r : ResolvedModel F}
      → validate_family_id p.family_id ≡ ok tt
      → build_resolved os is_finite ref raw p info ≡ ok r
      → IsBuiltOf raw p info r
  unfolding build_resolved expected_resolution_id
  build_resolved-IsBuiltOf ref raw p info known h =
      let (a, e, h1) = returned (freeze_model_info os.of_nat is_finite raw) _ h in
      let (b, e', h2) = returned (freeze_model_info os.of_nat is_finite info) _ h1 in
      subst (IsBuiltOf raw p info) (ok-eq h2) (record {
        built = record {
          id = refl;
          version = refl;
          raw_info = freeze-IsFrozen is_finite os.of_nat raw e;
          info = freeze-IsFrozen is_finite os.of_nat info e';
          family = known;
        };
        profile = refl;
        raw_scalars = frozen_scalars raw e;
        scalars = frozen_scalars info e';
      })

  pub verified :
      (r : ResolvedModel F)
      → r.resolution_id ≡ expected_resolution_id os is_finite r
      → verify_resolution_id os is_finite r ≡ ok tt
  unfolding verify_resolution_id expected_resolution_id
  verified r e = rw e (ground arith)

  pub read_written :
      (r : ResolvedModel F)
      → IsBuilt r
      → read_resolved os is_finite (resolved_model_to_json_dict os is_finite r) ≡ ok r
  unfolding read_resolved resolved_model_to_json_dict lookup same_text
  read_written r b =
      let e1 = entries-members (model_ref_to_json_dict r.model_ref) in
      let e2 = entries-members (snapshot_to_json_dict r.raw_info) in
      let e3 = entries-members (profile_to_json_dict r.profile) in
      let e4 = entries-members (snapshot_to_json_dict r.info) in
      let ref = model_ref_reread r.model_ref in
      let raw = snapshot_reread is_finite os.of_nat r.raw_info b.raw_info in
      let profile = profile_reread r.profile b.family in
      let info = snapshot_reread is_finite os.of_nat r.info b.info in
      ground (arith, e1, e2, e3, e4, ref, raw, profile, info)
