-- ===== src/Families/References.antt =====
-- server/controlnet_registry.py and server/controlnet_constraints.py: what the check of the modes at the
-- start gives the requests that are admitted later.
use stability_toys.Prelude.{
  String, Bool, true, false, not, List, [], ◌∷◌, ◌++◌, none, some, ◌≡◌, arith, ◌&&◌, ◌⊎◌, inl, inr,
  same_text, subst, Option-cases, Bool-cases,
}
use stability_toys.Prelude.Dict.{Dict, lookup}
use stability_toys.Prelude.Effects.{ok}
use stability_toys.Prelude.Outcome.{◌>>=◌, returned, passed}
use stability_toys.Assets.Cleanup.{member}
use stability_toys.Controlnet.Policy.{
  ControlNetAttachment, ControlNetControlTypePolicy, ControlNetPolicy, is_empty, check_attachment,
}
use stability_toys.Families.Profiles.{ModelInfo}
use stability_toys.Families.Registry.{
  ControlNetModelSpec, ControlNetRegistry, get_required, spec_for, check_model_id, check_model_ids,
  default_is_outside, default_not_allowed, referenced_model_ids, check_types, ModeReferences,
  mode_family, check_mode, validate_references, type_unsupported,
}

-- A registered model for a type of control and a family.
abbrev pub Serves : (String → Bool) → ControlNetRegistry → String → String → String → Type 0
Serves exists_at registry family control_type model_id =
    (spec : ControlNetModelSpec) × (lookup model_id registry.specs ≡ some spec)
    × (member control_type spec.control_types ≡ true)
    × (member family spec.compatible_with ≡ true)
    × (spec_for exists_at registry family control_type model_id ≡ ok spec)

module _ (exists_at : String → Bool) (registry : ControlNetRegistry)
    (family control_type : String) where
  required_found :
      (id : String) (spec : ControlNetModelSpec)
      → get_required exists_at registry id ≡ ok spec
      → lookup id registry.specs ≡ some spec
  unfolding get_required
  required_found id spec h = ground arith

  spec_found :
      (id : String) (spec : ControlNetModelSpec)
      → get_required exists_at registry id ≡ ok spec
      → member control_type spec.control_types ≡ true
      → member family spec.compatible_with ≡ true
      → spec_for exists_at registry family control_type id ≡ ok spec
  unfolding spec_for
  spec_found id spec found typed fits = rw (found, typed, fits)

  model-Serves :
      (id : String)
      → check_model_id exists_at registry family control_type id ≡ ok tt
      → Serves exists_at registry family control_type id
  unfolding check_model_id
  model-Serves id h =
      let (spec, found, h1) = returned (get_required exists_at registry id) _ h in
      let (supported, h2) =
        passed (not (member control_type spec.control_types)) type_unsupported _ h1 in
      let typed : member control_type spec.control_types ≡ true = ground (arith, supported) in
      let fits : member family spec.compatible_with ≡ true = ground (arith, h2) in
      (spec, required_found id spec found, typed, fits, spec_found id spec found typed fits)

  models-Serve :
      (ids : List String) (id : String)
      → check_model_ids exists_at registry family control_type ids ≡ ok tt
      → member id ids ≡ true
      → Serves exists_at registry family control_type id
  unfolding check_model_ids
  models-Serve [] id h m = cc
  models-Serve (j ∷ ids) id h m =
      let (_, here, after) =
        returned (check_model_id exists_at registry family control_type j) _ h in
      elim (same_text j id) [
        | yes same ↦
            subst (Serves exists_at registry family control_type) same (model-Serves j here)
        | no other ↦ models-Serve ids id after (ground arith)
      ]

module _ {F : Type 0} (exists_at : String → Bool) (detect : String → ModelInfo)
    (registry : ControlNetRegistry) where
  types_checked :
      (family control_type : String) (d : Dict (ControlNetControlTypePolicy F))
      (t : ControlNetControlTypePolicy F)
      → check_types exists_at registry family d ≡ ok tt
      → lookup control_type d ≡ some t
      → check_model_ids exists_at registry family control_type (referenced_model_ids t) ≡ ok tt
  unfolding check_types lookup
  types_checked family control_type [] t h e = cc
  types_checked family control_type ((k, u) ∷ more) t h e =
      let (_, h1) =
        passed (not (is_empty u.allowed_model_ids) && default_is_outside u) default_not_allowed _
          h in
      let (_, here, after) =
        returned (check_model_ids exists_at registry family k (referenced_model_ids u)) _ h1 in
      elim (same_text k control_type) [
        | yes same ↦
            let alike : u ≡ t = ground arith in
            subst
              (λ v.
                check_model_ids exists_at registry family control_type (referenced_model_ids v)
                ≡ ok tt)
              alike
              (subst
                (λ j. check_model_ids exists_at registry family j (referenced_model_ids u) ≡ ok tt)
                same here)
        | no other ↦ types_checked family control_type more t after (ground arith)
      ]

  mode_checked :
      (name : String) (modes : Dict (ModeReferences F)) (mode : ModeReferences F)
      → validate_references exists_at detect registry modes ≡ ok tt
      → lookup name modes ≡ some mode
      → check_mode exists_at detect registry mode ≡ ok tt
  unfolding validate_references lookup
  mode_checked name [] mode h e = cc
  mode_checked name ((k, m) ∷ modes) mode h e =
      let (_, here, after) = returned (check_mode exists_at detect registry m) _ h in
      elim (same_text k name) [
        | yes same ↦
            let alike : m ≡ mode = ground arith in
            subst (λ n. check_mode exists_at detect registry n ≡ ok tt) alike here
        | no other ↦ mode_checked name modes mode after (ground arith)
      ]

  policy_checked :
      (mode : ModeReferences F) (policy : ControlNetPolicy F)
      → check_mode exists_at detect registry mode ≡ ok tt
      → mode.controlnet_policy ≡ some policy
      → policy.enabled ≡ true
      → (family : String) × (mode_family detect mode.model_path ≡ ok family)
        × (check_types exists_at registry family policy.allowed_control_types ≡ ok tt)
  unfolding check_mode
  policy_checked mode policy h e on =
      let same : (mode_family detect mode.model_path >>= λ family.
      check_types exists_at registry family policy.allowed_control_types)
          ≡ ok tt =
        ground arith in
      returned (mode_family detect mode.model_path) _ same

member_append :
    (m : String) (ids more : List String) → member m ids ≡ true → member m (ids ++ more) ≡ true
member_append m [] more h = cc
member_append m (j ∷ ids) more h = ground (arith, member_append m ids more)

member_last : (m : String) (ids : List String) → member m (ids ++ m ∷ []) ≡ true
member_last m [] = ground arith
member_last m (j ∷ ids) = ground (arith, member_last m ids)

module _ {F : Type 0} where
  member-referenced :
      (t : ControlNetControlTypePolicy F) (m : String)
      → (member m t.allowed_model_ids ≡ true) ⊎ (t.default_model_id ≡ some m)
      → member m (referenced_model_ids t) ≡ true
  unfolding referenced_model_ids
  member-referenced t m (inl allowed) = elim (Option-cases t.default_model_id) [
    | inl no_default ↦ ground (arith, allowed)
    | inr (k, default) ↦ elim (Bool-cases (member k t.allowed_model_ids)) [
      | inl inside ↦ ground (arith, allowed)
      | inr outside ↦ ground (arith, member_append m t.allowed_model_ids (k ∷ []) allowed)
    ]
  ]
  member-referenced t m (inr default) = elim (Bool-cases (member m t.allowed_model_ids)) [
    | inl inside ↦ ground arith
    | inr outside ↦ ground (arith, member_last m t.allowed_model_ids)
  ]

  model_allowed :
      (le : F → F → Bool) (policy : ControlNetPolicy F) (a a' : ControlNetAttachment F)
      (t : ControlNetControlTypePolicy F) (m : String)
      → check_attachment le policy a ≡ (ok tt, a')
      → lookup a.control_type policy.allowed_control_types ≡ some t
      → a'.model_id ≡ some m
      → (is_empty t.allowed_model_ids ≡ false) ⊎ (a.model_id ≡ none)
      → (member m t.allowed_model_ids ≡ true) ⊎ (t.default_model_id ≡ some m)
  unfolding check_attachment
  model_allowed le policy a a' t m h e has (inl listed) = inl (ground arith)
  model_allowed le policy a a' t m h e has (inr unnamed) = inr (ground arith)

  model_named :
      (le : F → F → Bool) (policy : ControlNetPolicy F) (a a' : ControlNetAttachment F)
      → check_attachment le policy a ≡ (ok tt, a')
      → (m : String) × (a'.model_id ≡ some m)
  unfolding check_attachment
  model_named le policy a a' h = elim (Option-cases a'.model_id) [
    | inl gone ↦ absurd (ground arith)
    | inr (m, has) ↦ (m, has)
  ]

module _ {F : Type 0} (exists_at : String → Bool) (detect : String → ModelInfo)
    (registry : ControlNetRegistry) (modes : Dict (ModeReferences F)) (le : F → F → Bool) where
  -- Where the references of the modes passed the check at the start, an attachment that the policy of a
  -- mode lets through uses a model that the registry has, for the type of control of the attachment and
  -- for the family of the mode's model, if its type lists the allowed models or the request names no
  -- model itself; and the dispatch of the request finds that model, if the files are still there.
  pub admitted-Serves :
      (name : String) (mode : ModeReferences F) (policy : ControlNetPolicy F)
      (a a' : ControlNetAttachment F) (t : ControlNetControlTypePolicy F)
      → validate_references exists_at detect registry modes ≡ ok tt
      → lookup name modes ≡ some mode
      → mode.controlnet_policy ≡ some policy
      → policy.enabled ≡ true
      → check_attachment le policy a ≡ (ok tt, a')
      → lookup a.control_type policy.allowed_control_types ≡ some t
      → (is_empty t.allowed_model_ids ≡ false) ⊎ (a.model_id ≡ none)
      → (family : String) × (m : String) × (mode_family detect mode.model_path ≡ ok family)
        × (a'.model_id ≡ some m)
        × Serves exists_at registry family a.control_type m
  admitted-Serves name mode policy a a' t valid here has on through typed listed =
      let (family, known, types) =
        policy_checked exists_at detect registry mode policy
          (mode_checked exists_at detect registry name modes mode valid here) has on in
      let (m, named) = model_named le policy a a' through in
      let ids =
        types_checked exists_at detect registry family a.control_type policy.allowed_control_types t
          types typed in
      let referred =
        member-referenced t m (model_allowed le policy a a' t m through typed named listed) in
      (
        family,
        m,
        known,
        named,
        models-Serve exists_at registry family a.control_type (referenced_model_ids t) m ids
            referred,
      )
