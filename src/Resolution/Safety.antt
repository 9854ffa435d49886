-- ===== src/Resolution/Safety.antt =====
-- `resolve_model`: what it returns, on the wire and at a consumer, and the overlay of the mode.
use stability_toys.Prelude.{
  ℕ, String, Bool, true, false, not, List, [], ◌∷◌, none, some, ◌≡◌, refl, sym, ap, subst,
  same_text, ◌&&◌, arith, if◌then◌else◌,
}
use stability_toys.Prelude.Dict.{Dict, lookup}
use stability_toys.Prelude.Effects.{ok}
use stability_toys.Prelude.Outcome.{returned, ok-eq}
use stability_toys.Analysis.Json.{Json, number}
use stability_toys.Families.Profiles.{FamilyProfile, family_registry, resolve_family}
use stability_toys.Modes.Values.{is_null}
use stability_toys.Resolution.Snapshot.{ModelInfo, attribute, attributes, scalar_snapshot_fields}
use stability_toys.Resolution.Identity.{FileSystem, local_artifact_ref}
use stability_toys.Resolution.Wire.{
  WireProfile, ResolvedModel, wire_profile, build_resolved, resolved_model_to_json_dict,
  resolved_model_from_json_dict,
}
use stability_toys.Resolution.Resolver.{
  ModeOverrides, LocalModelBinding, merge_mode_capabilities, resolve_model, family_of,
}
use stability_toys.Resolution.Wire.{validate_resolved_model_trace, consume_resolved_model}
use stability_toys.Resolution.Traces.{
  IsBuilt, IsBuiltOf, build_resolved-IsBuiltOf, verified, read_written, known-resolve_family,
}
use stability_toys.Assets.Cleanup.{member as member_of}
use stability_toys.Resolution.Resolver.{capability_fields}

-- Every field that a mode may override is carried over.
capability_carried :
    (name : String)
    → member_of name capability_fields ≡ true
    → member_of name scalar_snapshot_fields ≡ true
unfolding capability_fields scalar_snapshot_fields
capability_carried name h = ground arith

not_capability :
    (name t : String)
    → member_of t capability_fields ≡ false
    → name ≡ t
    → member_of name capability_fields ≡ false
not_capability name t h e = rw e h

no_dim : member_of "cross_attention_dim" capability_fields ≡ false
unfolding capability_fields same_text
no_dim = refl

no_arch : member_of "base_arch" capability_fields ≡ false
unfolding capability_fields same_text
no_arch = refl

no_kind : member_of "transformer_kind" capability_fields ≡ false
unfolding capability_fields same_text
no_kind = refl

module _ {F : Type 0} where
  -- A mode sets a field that it may override.
  abbrev pub sets : ModeOverrides F → String → Bool
  sets mode name = member_of name capability_fields && not (is_null (mode.scalars name))

  lookup-attributes :
      (of_nat : ℕ → F) (info : ModelInfo F) (name : String) (names : List String)
      → lookup name (attributes of_nat info names)
        ≡ (if member_of name names then some (attribute of_nat info name) else none)
  unfolding lookup attributes
  lookup-attributes of_nat info name [] = refl
  lookup-attributes of_nat info name (k ∷ names) = elim (same_text k name) [
    | yes p ↦ ground arith
    | no p ↦ ground (arith, lookup-attributes of_nat info name names)
  ]

  attribute-merged :
      (of_nat : ℕ → F) (info : ModelInfo F) (mode : ModeOverrides F) (name : String)
      → attribute of_nat (merge_mode_capabilities info mode) name
        ≡ (if sets mode name then mode.scalars name else attribute of_nat info name)
  unfolding attribute merge_mode_capabilities
  attribute-merged of_nat info mode name = ground (
    arith,
    not_capability name "cross_attention_dim" no_dim,
    not_capability name "base_arch" no_arch,
    not_capability name "transformer_kind" no_kind,
  )

  overlaid :
      (of_nat : ℕ → F) (info : ModelInfo F) (mode : ModeOverrides F) (name : String)
      → lookup name (attributes of_nat (merge_mode_capabilities info mode) scalar_snapshot_fields)
        ≡ (if sets mode name
            then some (mode.scalars name)
            else lookup name (attributes of_nat info scalar_snapshot_fields))
  overlaid of_nat info mode name = ground (
    arith,
    lookup-attributes of_nat info name scalar_snapshot_fields,
    lookup-attributes of_nat (merge_mode_capabilities info mode) name scalar_snapshot_fields,
    attribute-merged of_nat info mode name,
    capability_carried name,
  )

module _ {F : Type 0} (os : FileSystem F) (is_finite : F → Bool) where
  -- What a consumer with the same profiles makes of a resolved model
  pub record Travels (same : Json F → Json F → Bool)
      (same_profile : WireProfile F → WireProfile F → Bool) (p : FamilyProfile)
      (r : ResolvedModel F) : Type 0 where
    pub reread :
        resolved_model_from_json_dict os is_finite (resolved_model_to_json_dict os is_finite r)
        ≡ ok r
    pub consumed :
        (profiles : Dict FamilyProfile)
        → lookup p.family_id profiles ≡ some p
        → consume_resolved_model os is_finite same same_profile r profiles ≡ ok p

  built-Travels :
      (same : Json F → Json F → Bool) (same_profile : WireProfile F → WireProfile F → Bool)
      → ((j : Json F) → same j j ≡ true)
      → ((q : WireProfile F) → same_profile q q ≡ true)
      → (p : FamilyProfile) (r : ResolvedModel F) → IsBuilt os is_finite r
      → r.profile ≡ wire_profile p
      → Travels same same_profile p r
  unfolding resolved_model_from_json_dict consume_resolved_model validate_resolved_model_trace
  built-Travels same same_profile same_refl profile_refl p r b e =
      let ok_id = verified os is_finite r b.id in
      let reads = read_written os is_finite r b in
      let version = same_refl (number (os.of_nat 1)) in
      let alike = profile_refl (wire_profile p) in
      record {
        reread = ground (arith, reads, ok_id);
        consumed = λ profiles found.
            let known : lookup r.profile.family_id profiles ≡ some p =
              subst (λ q. lookup q.family_id profiles ≡ some p) (sym e) found in
            let same_row : same_profile r.profile (wire_profile p) ≡ true =
              subst (λ q. same_profile q (wire_profile p) ≡ true) (sym e) alike in
            let current : same r.schema_version (number (os.of_nat 1)) ≡ true =
              subst (λ j. same j (number (os.of_nat 1)) ≡ true) (sym b.version) version in
            ground (arith, known, same_row, current, ok_id);
      }

  module _ (detect_model : String → ModelInfo F) where
    -- What a resolved model was resolved from
    record Origin (path : String) (mode : ModeOverrides F) (r : ResolvedModel F) : Type 0 where
      profile : FamilyProfile
      resolved : resolve_family (detect_model path).family family_registry ≡ ok profile
      of :
          IsBuiltOf os is_finite
            (detect_model path)
            profile
            (merge_mode_capabilities (detect_model path) mode)
            r

    found_family :
        (info : ModelInfo F) {p : FamilyProfile}
        → family_of os is_finite detect_model info ≡ ok p
        → resolve_family info.family family_registry ≡ ok p
    found_family info {p} h = ground arith

    resolve_model-Origin :
        (path : String) (mode : ModeOverrides F) {r : ResolvedModel F} {binding : LocalModelBinding}
        → resolve_model os is_finite detect_model path mode ≡ ok (r, binding)
        → Origin path mode r
    unfolding resolve_model
    resolve_model-Origin path mode {r} {binding} h =
        let raw = detect_model path in
        let enriched = merge_mode_capabilities raw mode in
        let (p, e, h1) = returned (family_of os is_finite detect_model raw) _ h in
        let (ref, _, h2) = returned (local_artifact_ref os path) _ h1 in
        let (built, e', h3) = returned (build_resolved os is_finite ref raw p enriched) _ h2 in
        let same : built ≡ r = ap (λ x. x.0) (ok-eq h3) in
        let resolved = found_family raw e in
        record {
          profile = p;
          resolved = resolved;
          of = subst (IsBuiltOf os is_finite raw p enriched) same (
              build_resolved-IsBuiltOf os is_finite ref raw p enriched
                (known-resolve_family raw.family resolved) e');
        }

    -- A model that was resolved can be sent: it is read as it was, and a consumer whose registry has
    -- the family's profile accepts it. The profile is that of what was detected, whatever the mode
    -- sets.
    pub resolve_model-Travels :
        (same : Json F → Json F → Bool) (same_profile : WireProfile F → WireProfile F → Bool)
        → ((j : Json F) → same j j ≡ true)
        → ((q : WireProfile F) → same_profile q q ≡ true)
        → (path : String) (mode : ModeOverrides F) {r : ResolvedModel F}
          {binding : LocalModelBinding}
        → resolve_model os is_finite detect_model path mode ≡ ok (r, binding)
        → (p : FamilyProfile) × (resolve_family (detect_model path).family family_registry ≡ ok p)
          × Travels same same_profile p r
    resolve_model-Travels same same_profile same_refl profile_refl path mode {r} {binding} h =
        let o = resolve_model-Origin path mode h in
        (
          o.profile,
          o.resolved,
          built-Travels same same_profile same_refl profile_refl o.profile r o.of.built
              o.of.profile,
        )

    -- Of a resolved model, a scalar is that of the mode if it is one that a mode may override and the
    -- mode sets it, and otherwise the one that was detected.
    pub overlay-resolve_model :
        (path : String) (mode : ModeOverrides F) {r : ResolvedModel F} {binding : LocalModelBinding}
        → resolve_model os is_finite detect_model path mode ≡ ok (r, binding)
        → (name : String)
        → lookup name r.info.scalars ≡ (
            if member_of name capability_fields && not (is_null (mode.scalars name))
            then some (mode.scalars name)
            else lookup name r.raw_info.scalars)
    overlay-resolve_model path mode {r} {binding} h name =
        let o = resolve_model-Origin path mode h in
        let raw = detect_model path in
        subst
          (λ d.
            lookup name d
            ≡ (if sets mode name then some (mode.scalars name) else lookup name r.raw_info.scalars))
          (sym o.of.scalars)
          (subst
            (λ d.
              lookup name
                (attributes os.of_nat (merge_mode_capabilities raw mode) scalar_snapshot_fields)
              ≡ (if sets mode name then some (mode.scalars name) else lookup name d))
            (sym o.of.raw_scalars) (overlaid os.of_nat raw mode name))
