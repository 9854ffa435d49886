-- ===== src/Requests/Finalize.antt =====
-- server/generation_constraints.py: `finalize_mode_generate_request`, which changes the request in place.
-- The guidance scale is a floating-point number: its type and its `==` are parameters.
use stability_toys.Prelude.{
  ℕ, ◌≡◌, refl, String, Bool, true, false, List, Option, none, some, ◌==◌, if◌then◌else◌, arith,
  Bool-cases, inl, inr, subst, sym,
}
use stability_toys.Prelude.Effects.{Result, ok, raised}
use stability_toys.Assets.Model.{text_eq}
use stability_toys.Assets.Cleanup.{member}

-- The fields that are read of a request; one that has no `num_inference_steps` or no `guidance_scale`
-- reads as none.
pub record GenerateRequest (F : Type 0) : Type 0 where
  pub size : String
  pub num_inference_steps : Option ℕ
  pub guidance_scale : Option F

-- The defaults of the environment.
pub record EnvDefaults (F : Type 0) : Type 0 where
  pub size : String
  pub steps : ℕ
  pub guidance : F

-- The fields that are read of a mode; `sizes` are those of its `resolution_options`.
pub record ModeDefaults (F : Type 0) : Type 0 where
  pub default_size : String
  pub default_steps : ℕ
  pub default_guidance : F
  pub sizes : List String

pub data SizeError : Type 0 where
  size_not_allowed : SizeError

module _ {F : Type 0} (same : F → F → Bool) where
  abbrev pub final_steps : Option ℕ → EnvDefaults F → ModeDefaults F → Option ℕ
  final_steps none env mode = none
  final_steps (some n) env mode = if n == env.steps then some mode.default_steps else some n

  abbrev pub final_guidance : Option F → EnvDefaults F → ModeDefaults F → Option F
  final_guidance none env mode = none
  final_guidance (some g) env mode =
      if same g env.guidance then some mode.default_guidance else some g

  -- The request with the mode's defaults in place of the environment's.
  abbrev pub with_defaults : EnvDefaults F → ModeDefaults F → GenerateRequest F → GenerateRequest F
  with_defaults env mode req = record {
    size = if text_eq req.size env.size then mode.default_size else req.size;
    num_inference_steps = final_steps req.num_inference_steps env mode;
    guidance_scale = final_guidance req.guidance_scale env mode;
  }

  unfoldable pub finalize_mode_generate_request :
      EnvDefaults F
      → ModeDefaults F
      → GenerateRequest F
      → Result SizeError (Unit {0}) × GenerateRequest F
  finalize_mode_generate_request env mode req =
      let req' = with_defaults env mode req in
      if member req'.size mode.sizes then (ok tt, req') else (raised size_not_allowed, req')

  steps_again :
      (n : Option ℕ) (env : EnvDefaults F) (mode : ModeDefaults F)
      → final_steps (final_steps n env mode) env mode ≡ final_steps n env mode
  steps_again n env mode = ground arith

  guidance_again :
      (g : Option F) (env : EnvDefaults F) (mode : ModeDefaults F)
      → final_guidance (final_guidance g env mode) env mode ≡ final_guidance g env mode
  guidance_again none env mode = refl
  guidance_again (some g) env mode = ground arith

  size_again :
      (size : String) (env : EnvDefaults F) (mode : ModeDefaults F)
      → let once = if text_eq size env.size then mode.default_size else size in
        (if text_eq once env.size then mode.default_size else once) ≡ once
  size_again size env mode = elim (Bool-cases (text_eq size env.size)) [
    | inl default ↦ ground (arith, default)
    | inr other ↦ ground (arith, other)
  ]

  defaults_again :
      (env : EnvDefaults F) (mode : ModeDefaults F) (req : GenerateRequest F)
      → with_defaults env mode (with_defaults env mode req) ≡ with_defaults env mode req
  defaults_again env mode req = λ i. record {
    size = size_again req.size env mode i;
    num_inference_steps = steps_again req.num_inference_steps env mode i;
    guidance_scale = guidance_again req.guidance_scale env mode i;
  }

  allowed_runs :
      (env : EnvDefaults F) (mode : ModeDefaults F) (req : GenerateRequest F)
      → member (with_defaults env mode req).size mode.sizes ≡ true
      → finalize_mode_generate_request env mode req ≡ (ok tt, with_defaults env mode req)
  unfolding finalize_mode_generate_request
  allowed_runs env mode req allowed = rw allowed refl

  refused_runs :
      (env : EnvDefaults F) (mode : ModeDefaults F) (req : GenerateRequest F)
      → member (with_defaults env mode req).size mode.sizes ≡ false
      → (finalize_mode_generate_request env mode req).0 ≡ raised size_not_allowed
  unfolding finalize_mode_generate_request
  refused_runs env mode req other = rw other refl

  -- A request that was let through has one of the mode's sizes, and to finalize it once more lets it
  -- through again and changes nothing.
  finalize_again :
      (env : EnvDefaults F) (mode : ModeDefaults F) (req : GenerateRequest F)
      → (finalize_mode_generate_request env mode req).0 ≡ ok tt
      → let req' = (finalize_mode_generate_request env mode req).1 in
        (member req'.size mode.sizes ≡ true)
        × (finalize_mode_generate_request env mode req' ≡ (ok tt, req'))
  finalize_again env mode req runs =
      let made = with_defaults env mode req in
      elim (Bool-cases (member made.size mode.sizes)) [
        | inr other ↦ absurd (cc (runs, refused_runs env mode req other))
        | inl allowed ↦
            let again = defaults_again env mode req in
            let allowed' = subst (λ r. member r.size mode.sizes ≡ true) (sym again) allowed in
            let twice =
              subst (λ r. finalize_mode_generate_request env mode made ≡ (ok tt, r)) again
                (allowed_runs env mode made allowed') in
            subst
              (λ r.
                (member r.1.size mode.sizes ≡ true)
                × (finalize_mode_generate_request env mode r.1 ≡ (ok tt, r.1)))
              (sym (allowed_runs env mode req allowed)) (allowed, twice)
      ]
