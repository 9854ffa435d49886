-- ===== src/Resolution/Integrity.antt =====
-- What the id of an accepted trace says of its contents.
use stability_toys.Prelude.{
  String, Bool, true, List, Option, none, some, ◌≡◌, refl, sym, ap, ◌∙◌, subst, arith,
}
use stability_toys.Prelude.Dict.{Dict}
use stability_toys.Prelude.Effects.{ok}
use stability_toys.Prelude.Outcome.{returned, ok-eq}
use stability_toys.Analysis.Json.{Json, text, items}
use stability_toys.Modes.Values.{entries, members, mapping_of, array_of, entries-members}
use stability_toys.Modes.Blocks.{items-array_of}
use stability_toys.Resolution.Snapshot.{ModelInfoSnapshot, snapshot_to_json_dict, optional_array}
use stability_toys.Resolution.Identity.{ModelArtifactRef, FileSystem, model_ref_to_json_dict}
use stability_toys.Resolution.Wire.{
  WireProfile, ResolvedModel, profile_to_json_dict, resolution_payload, expected_resolution_id,
  verify_resolution_id, read_resolved, resolved_model_from_json_dict,
}
use stability_toys.Resolution.Wire.{same_id}

module _ {F : Type 0} where
  mapping_of-injective : (d d' : Dict (Json F)) → mapping_of d ≡ mapping_of d' → d ≡ d'
  mapping_of-injective d d' h =
      let e : members d ≡ members d' = cc in
      sym (entries-members d) ∙ ap entries e ∙ entries-members d'

  array_of-injective : (js js' : List (Json F)) → array_of js ≡ array_of js' → js ≡ js'
  array_of-injective js js' e = sym (items-array_of F js) ∙ ap items e ∙ items-array_of F js'

  optional-injective :
      (o o' : Option (List (Json F))) → optional_array o ≡ optional_array o' → o ≡ o'
  optional-injective none none h = refl
  optional-injective none (some js) h = cc
  optional-injective (some js) none h = cc
  optional-injective (some js) (some js') h = ap some (array_of-injective js js' (cc))

  snapshot-injective :
      (s s' : ModelInfoSnapshot F) → snapshot_to_json_dict s ≡ snapshot_to_json_dict s' → s ≡ s'
  unfolding snapshot_to_json_dict
  snapshot-injective s s' h =
      let detected = array_of-injective s.detected_by s'.detected_by (cc) in
      let metadata = mapping_of-injective s.metadata s'.metadata (cc) in
      let templates =
        mapping_of-injective s.negative_prompt_templates s'.negative_prompt_templates (cc) in
      let allowed = optional-injective s.allowed_scheduler_ids s'.allowed_scheduler_ids (cc) in
      ground (arith, detected, metadata, templates, allowed)

  profile-injective :
      (p p' : WireProfile F) → profile_to_json_dict p ≡ profile_to_json_dict p' → p ≡ p'
  unfolding profile_to_json_dict
  profile-injective p p' h =
      let roles = array_of-injective p.encoder_roles p'.encoder_roles (cc) in ground (arith, roles)

  ref-injective :
      (r r' : ModelArtifactRef F) → model_ref_to_json_dict r ≡ model_ref_to_json_dict r' → r ≡ r'
  unfolding model_ref_to_json_dict
  ref-injective r r' h = ground arith

module _ {F : Type 0} (os : FileSystem F) (is_finite : F → Bool) where
  same_id-eq : (j : Json F) (t : String) → same_id os is_finite j (text t) ≡ true → j ≡ text t
  same_id-eq (text s) t h = ground arith
  same_id-eq j t h = cc

  verified-eq :
      (r : ResolvedModel F) {u : Unit {0}}
      → verify_resolution_id os is_finite r ≡ ok u
      → r.resolution_id ≡ expected_resolution_id os is_finite r
  unfolding verify_resolution_id expected_resolution_id
  verified-eq r h = same_id-eq r.resolution_id _ (ground arith)

  accepted-id :
      (wire : Dict (Json F)) {r : ResolvedModel F}
      → resolved_model_from_json_dict os is_finite wire ≡ ok r
      → r.resolution_id ≡ expected_resolution_id os is_finite r
  unfolding resolved_model_from_json_dict
  accepted-id wire h =
      let (r, _, h1) = returned (read_resolved os is_finite wire) _ h in
      let (_, e, h2) = returned (verify_resolution_id os is_finite r) _ h1 in
      subst (λ q. q.resolution_id ≡ expected_resolution_id os is_finite q) (ok-eq h2)
        (verified-eq r e)

  -- The same contents, whatever the versions say
  pub record SameContents (r r' : ResolvedModel F) : Type 0 where
    pub model_ref : r.model_ref ≡ r'.model_ref
    pub raw_info : r.raw_info ≡ r'.raw_info
    pub profile : r.profile ≡ r'.profile
    pub info : r.info ≡ r'.info

  payload-SameContents :
      (r r' : ResolvedModel F)
      → resolution_payload os is_finite r.model_ref r.raw_info r.profile r.info
        ≡ resolution_payload os is_finite r'.model_ref r'.raw_info r'.profile r'.info
      → SameContents r r'
  unfolding resolution_payload
  payload-SameContents r r' h = record {
    model_ref = ref-injective r.model_ref r'.model_ref (
        mapping_of-injective (model_ref_to_json_dict r.model_ref)
          (model_ref_to_json_dict r'.model_ref) (cc));
    raw_info = snapshot-injective r.raw_info r'.raw_info (
        mapping_of-injective (snapshot_to_json_dict r.raw_info) (snapshot_to_json_dict r'.raw_info)
          (cc));
    profile = profile-injective r.profile r'.profile (
        mapping_of-injective (profile_to_json_dict r.profile) (profile_to_json_dict r'.profile)
          (cc));
    info =
        snapshot-injective r.info r'.info (
          mapping_of-injective (snapshot_to_json_dict r.info) (snapshot_to_json_dict r'.info) (cc));
  }

  abbrev pub payload_of : ResolvedModel F → Json F
  payload_of r = resolution_payload os is_finite r.model_ref r.raw_info r.profile r.info

  -- Two traces that are accepted under one id, of which the hash tells the payloads apart if they
  -- differ, have the same contents: neither was changed without its id.
  pub accepted-SameContents :
      (wire wire' : Dict (Json F)) {r r' : ResolvedModel F}
      → (os.sha256 (payload_of r) ≡ os.sha256 (payload_of r') → payload_of r ≡ payload_of r')
      → resolved_model_from_json_dict os is_finite wire ≡ ok r
      → resolved_model_from_json_dict os is_finite wire' ≡ ok r'
      → r.resolution_id ≡ r'.resolution_id
      → SameContents r r'
  unfolding expected_resolution_id
  accepted-SameContents wire wire' {r} {r'} no_collision h h' same =
      let e = accepted-id wire h in
      let e' = accepted-id wire' h' in payload-SameContents r r' (no_collision (cc))
