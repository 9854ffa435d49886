-- ===== src/Controlnet/Policy.antt =====
-- server/controlnet_constraints.py: `enforce_controlnet_policy`, over the fields that it reads of an
-- attachment (server/controlnet_models.py) and of a policy (server/mode_config.py). A request's attachments are changed in
-- place, as far as the check comes. Strengths are floating-point numbers: their type and their
-- comparison `<=` are parameters. The messages, which name the mode, are their constructors.
use stability_toys.Prelude.{
  ℕ, String, Bool, true, false, List, [], ◌∷◌, Option, none, some, not, ◌&&◌, ltb, length,
  if◌then◌else◌,
}
use stability_toys.Prelude.Dict.{Dict, lookup}
use stability_toys.Prelude.Effects.{Result, ok, raised}
use stability_toys.Assets.Cleanup.{member}

pub data PolicyError : Type 0 where
  not_enabled too_many duplicate_id type_not_allowed no_preprocessing model_required
        model_not_allowed out_of_range combined :
      PolicyError
  not_supported : PolicyError

pub record ControlNetAttachment (F : Type 0) : Type 0 where
  pub attachment_id : String
  pub control_type : String
  pub preprocess : Option String
  pub model_id : Option String
  pub strength : Option F

pub record ControlNetControlTypePolicy (F : Type 0) : Type 0 where
  pub allow_preprocess : Bool
  pub default_model_id : Option String
  pub allowed_model_ids : List String
  pub default_strength : F
  pub min_strength : F
  pub max_strength : F

pub record ControlNetPolicy (F : Type 0) : Type 0 where
  pub enabled : Bool
  pub max_attachments : ℕ
  pub allowed_control_types : Dict (ControlNetControlTypePolicy F)

abbrev pub is_some : {A : Type 0} → Option A → Bool
is_some none = false
is_some (some _) = true

abbrev pub is_empty : {A : Type 0} → List A → Bool
is_empty [] = true
is_empty (x ∷ xs) = false

module _ {F : Type 0} (le : F → F → Bool) where
  abbrev pub Checked : Type 0 → Type 0
  Checked A = Result PolicyError (Unit {0}) × A

  abbrev pub check_strength :
      ControlNetControlTypePolicy F → F → ControlNetAttachment F → Checked (ControlNetAttachment F)
  check_strength t s a =
      if not (le t.min_strength s && le s t.max_strength)
      then (raised out_of_range, a)
      else (ok tt, a)

  abbrev pub fill_strength :
      ControlNetControlTypePolicy F → ControlNetAttachment F → Checked (ControlNetAttachment F)
  fill_strength t a = elim a.strength [
    | none ↦ check_strength t t.default_strength (record a { strength = some t.default_strength })
    | some s ↦ check_strength t s a
  ]

  abbrev pub check_model :
      ControlNetControlTypePolicy F
      → String
      → ControlNetAttachment F
      → Checked (ControlNetAttachment F)
  check_model t m a =
      if not (is_empty t.allowed_model_ids) && not (member m t.allowed_model_ids)
      then (raised model_not_allowed, a)
      else fill_strength t a

  abbrev pub fill_model :
      ControlNetControlTypePolicy F → ControlNetAttachment F → Checked (ControlNetAttachment F)
  fill_model t a = elim a.model_id [
    | some m ↦ check_model t m a
    | none ↦ elim t.default_model_id [
      | none ↦ (raised model_required, a)
      | some m ↦ check_model t m (record a { model_id = some m })
    ]
  ]

  -- The body of the loop, after the test of the identifier.
  unfoldable pub check_attachment :
      ControlNetPolicy F → ControlNetAttachment F → Checked (ControlNetAttachment F)
  check_attachment policy a = elim (lookup a.control_type policy.allowed_control_types) [
    | none ↦ (raised type_not_allowed, a)
    | some t ↦
        if is_some a.preprocess && not t.allow_preprocess
        then (raised no_preprocessing, a)
        else fill_model t a
  ]

  -- The loop, with the identifiers seen.
  unfoldable pub check_attachments :
      ControlNetPolicy F
      → List String
      → List (ControlNetAttachment F)
      → Checked (List (ControlNetAttachment F))
  check_attachments policy seen [] = (ok tt, [])
  check_attachments policy seen (a ∷ more) =
      let (r, a') = check_attachment policy a in
      let (rest, more') = check_attachments policy (a.attachment_id ∷ seen) more in
      if member a.attachment_id seen
      then (raised duplicate_id, a ∷ more)
      else elim r [ raised e ↦ (raised e, a' ∷ more) | ok _ ↦ (rest, a' ∷ more') ]

  -- `enforce_controlnet_policy`
  unfoldable pub enforce_controlnet_policy :
      Option (ControlNetPolicy F)
      → List (ControlNetAttachment F)
      → Checked (List (ControlNetAttachment F))
  enforce_controlnet_policy policy [] = (ok tt, [])
  enforce_controlnet_policy none (a ∷ more) = (raised not_enabled, a ∷ more)
  enforce_controlnet_policy (some policy) (a ∷ more) =
      if not policy.enabled
      then (raised not_enabled, a ∷ more)
      else (if ltb policy.max_attachments (length (a ∷ more))
          then (raised too_many, a ∷ more)
          else check_attachments policy [] (a ∷ more))

  -- `reject_combined_img2img_controlnet`
  unfoldable pub reject_combined_img2img_controlnet :
      Bool → List (ControlNetAttachment F) → Bool → Result PolicyError (Unit {0})
  reject_combined_img2img_controlnet has_init_image controlnets supports_combined =
      if has_init_image && (not (is_empty controlnets) && not supports_combined)
      then raised combined
      else ok tt

  -- `ensure_controlnet_dispatch_supported`
  unfoldable pub ensure_controlnet_dispatch_supported :
      List (ControlNetAttachment F) → Bool → Result PolicyError (Unit {0})
  ensure_controlnet_dispatch_supported attachments supports_controlnet =
      if not (is_empty attachments) && not supports_controlnet then raised not_supported else ok tt
