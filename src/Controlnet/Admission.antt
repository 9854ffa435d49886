-- ===== src/Controlnet/Admission.antt =====
-- server/controlnet_constraints.py: which requests `enforce_controlnet_policy` lets through, and how it
-- completes them.
use stability_toys.Prelude.{
  ◌≡◌, ◌⊎◌, refl, String, Bool, true, false, List, [], ◌∷◌, Option, none, some, not, ◌&&◌, ◌||◌,
  leb, length, map, arith, Bool-cases, Option-cases, inl, inr,
}
use stability_toys.Prelude.Dict.{lookup}
use stability_toys.Prelude.Effects.{Result, ok, raised}
use stability_toys.Assets.Cleanup.{member}
use stability_toys.Controlnet.Policy.{
  PolicyError, ControlNetAttachment, ControlNetControlTypePolicy, ControlNetPolicy, is_some,
  is_empty, check_attachment, check_attachments, enforce_controlnet_policy,
}

module _ {F : Type 0} (le : F → F → Bool) where
  abbrev pub or_default : {A : Type 0} → Option A → Option A → Option A
  or_default none d = d
  or_default (some a) d = some a

  -- The attachment with the defaults of its type.
  abbrev pub completed : ControlNetPolicy F → ControlNetAttachment F → ControlNetAttachment F
  completed policy a = elim (lookup a.control_type policy.allowed_control_types) [
    | none ↦ a
    | some t ↦ record a {
      model_id = or_default a.model_id t.default_model_id;
      strength = or_default a.strength (some t.default_strength);
    }
  ]

  abbrev pub model_fits : ControlNetControlTypePolicy F → Option String → Bool
  model_fits t none = false
  model_fits t (some m) = is_empty t.allowed_model_ids || member m t.allowed_model_ids

  abbrev pub strength_fits : ControlNetControlTypePolicy F → Option F → Bool
  strength_fits t none = false
  strength_fits t (some s) = le t.min_strength s && le s t.max_strength

  -- An attachment that a policy allows.
  abbrev pub conforms : ControlNetPolicy F → ControlNetAttachment F → Bool
  conforms policy a = elim (lookup a.control_type policy.allowed_control_types) [
    | none ↦ false
    | some t ↦
        (not (is_some a.preprocess) || t.allow_preprocess)
        && (model_fits t a.model_id && strength_fits t a.strength)
  ]

  abbrev pub all_conform : ControlNetPolicy F → List (ControlNetAttachment F) → Bool
  all_conform policy [] = true
  all_conform policy (a ∷ more) = conforms policy (completed policy a) && all_conform policy more

  abbrev pub all_new : List String → List (ControlNetAttachment F) → Bool
  all_new seen [] = true
  all_new seen (a ∷ more) =
      not (member a.attachment_id seen) && all_new (a.attachment_id ∷ seen) more

  abbrev pub is_raised : {A : Type 0} → Result PolicyError A → Bool
  is_raised (ok a) = false
  is_raised (raised e) = true

  check_accepts :
      (policy : ControlNetPolicy F) (a : ControlNetAttachment F)
      → conforms policy (completed policy a) ≡ true
      → check_attachment le policy a ≡ (ok tt, completed policy a)
  unfolding check_attachment
  check_accepts policy a fits =
      elim (Option-cases (lookup a.control_type policy.allowed_control_types)) [
        | inl unknown ↦ absurd (ground arith)
        | inr (t, known) ↦ ground arith
      ]

  check_refuses :
      (policy : ControlNetPolicy F) (a : ControlNetAttachment F)
      → conforms policy (completed policy a) ≡ false
      → is_raised (check_attachment le policy a).0 ≡ true
  unfolding check_attachment
  check_refuses policy a fails =
      elim (Option-cases (lookup a.control_type policy.allowed_control_types)) [
        | inl unknown ↦ ground arith
        | inr (t, known) ↦ ground arith
      ]

  loop_accepts :
      (policy : ControlNetPolicy F) (seen : List String) (more : List (ControlNetAttachment F))
      → all_conform policy more ≡ true
      → all_new seen more ≡ true
      → check_attachments le policy seen more ≡ (ok tt, map (completed policy) more)
  unfolding check_attachments
  loop_accepts policy seen [] fit new = refl
  loop_accepts policy seen (a ∷ more) fit new =
      let first = check_accepts policy a in
      let rest = loop_accepts policy (a.attachment_id ∷ seen) more in ground (arith, first, rest)

  loop_refuses :
      (policy : ControlNetPolicy F) (seen : List String) (more : List (ControlNetAttachment F))
      → (all_conform policy more && all_new seen more) ≡ false
      → is_raised (check_attachments le policy seen more).0 ≡ true
  unfolding check_attachments
  loop_refuses policy seen [] fails = absurd (cc fails)
  loop_refuses policy seen (a ∷ more) fails =
      let first = check_accepts policy a in
      let refused = check_refuses policy a in
      let rest = loop_refuses policy (a.attachment_id ∷ seen) more in
      ground (arith, first, refused, rest)

  -- The requests that a mode admits.
  abbrev pub admits : Option (ControlNetPolicy F) → List (ControlNetAttachment F) → Bool
  admits policy [] = true
  admits none (a ∷ more) = false
  admits (some policy) (a ∷ more) =
      policy.enabled
      && (leb (length (a ∷ more)) policy.max_attachments
          && (all_conform policy (a ∷ more) && all_new [] (a ∷ more)))

  abbrev pub completed_by :
      Option (ControlNetPolicy F) → List (ControlNetAttachment F) → List (ControlNetAttachment F)
  completed_by none more = more
  completed_by (some policy) more = map (completed policy) more

  -- A request that a mode admits is let through, with the defaults of the types of its attachments.
  enforce_accepts :
      (policy : Option (ControlNetPolicy F)) (more : List (ControlNetAttachment F))
      → admits policy more ≡ true
      → enforce_controlnet_policy le policy more ≡ (ok tt, completed_by policy more)
  unfolding enforce_controlnet_policy
  enforce_accepts none [] h = refl
  enforce_accepts (some policy) [] h = refl
  enforce_accepts none (a ∷ more) h = absurd (cc h)
  enforce_accepts (some policy) (a ∷ more) h =
      let loop = loop_accepts policy [] (a ∷ more) in ground (arith, loop)

  -- Every other request raises.
  enforce_refuses :
      (policy : Option (ControlNetPolicy F)) (more : List (ControlNetAttachment F))
      → admits policy more ≡ false
      → is_raised (enforce_controlnet_policy le policy more).0 ≡ true
  unfolding enforce_controlnet_policy
  enforce_refuses none [] h = absurd (cc h)
  enforce_refuses (some policy) [] h = absurd (cc h)
  enforce_refuses none (a ∷ more) h = refl
  enforce_refuses (some policy) (a ∷ more) h =
      let loop = loop_refuses policy [] (a ∷ more) in ground (arith, loop)

  -- A request without attachments is let through unchanged. Another one is let through exactly if its
  -- mode has an enabled policy, it has no more attachments than that allows, their identifiers differ,
  -- and each one, with the defaults of its type, conforms to the policy: its type is one of the policy,
  -- it is preprocessed only where the type allows it, its model is one of the type or the type has no
  -- list of them, and its strength is in the range of the type. Then each was given those defaults;
  -- every other request raises.
  pub enforce_decides :
      (policy : Option (ControlNetPolicy F)) (more : List (ControlNetAttachment F))
      → ((admits policy more ≡ true)
          × (enforce_controlnet_policy le policy more ≡ (ok tt, completed_by policy more)))
        ⊎ ((admits policy more ≡ false)
            × (is_raised (enforce_controlnet_policy le policy more).0 ≡ true))
  enforce_decides policy more = elim (Bool-cases (admits policy more)) [
    | inl fits ↦ inl (fits, enforce_accepts policy more fits)
    | inr fails ↦ inr (fails, enforce_refuses policy more fails)
  ]
