-- ===== src/Families/Profiles.antt =====
-- backends/family_profiles.py: the families, their predicates and their resolution.
use stability_toys.Prelude.{
  ℕ, String, Bool, true, false, not, List, [], ◌∷◌, map, Option, none, some, ◌==◌, ◌&&◌, ◌||◌,
  same_text, ite, if◌then◌else◌,
}
use stability_toys.Prelude.Effects.{Result, ok, raised}
use stability_toys.Prelude.Outcome.{◌>>◌, refuse}
use stability_toys.Assets.Cleanup.{member}

pub record FamilyProfile : Type 0 where
  pub family_id : String
  pub encoder_roles : List String
  pub pooled_required : Bool
  pub pooled_projection_role : Option String
  pub control_image_kwarg : String

-- What the predicates read of a `ModelInfo`.
pub record ModelInfo : Type 0 where
  pub path : String
  pub base_arch : String
  pub cross_attention_dim : Option ℕ
  pub transformer_kind : Option String

pub record FamilyRegistration : Type 0 where
  pub profile : FamilyProfile
  pub detect : ModelInfo → Bool

pub data FamilyError : Type 0 where
  family_resolution unknown_family duplicate_family no_encoder_roles stray_projection_role
        absent_projection_role :
      FamilyError

abbrev pub sd15_profile : FamilyProfile
sd15_profile = record {
  family_id = "sd15";
  encoder_roles = "text_encoder" ∷ [];
  pooled_required = false;
  pooled_projection_role = none;
  control_image_kwarg = "image";
}

abbrev pub sdxl_profile : FamilyProfile
sdxl_profile = record {
  family_id = "sdxl";
  encoder_roles = "text_encoder" ∷ "text_encoder_2" ∷ [];
  pooled_required = true;
  pooled_projection_role = some "text_encoder_2";
  control_image_kwarg = "image";
}

abbrev pub hunyuandit_profile : FamilyProfile
hunyuandit_profile = record {
  family_id = "hunyuandit";
  encoder_roles = "text_encoder" ∷ "text_encoder_2" ∷ [];
  pooled_required = false;
  pooled_projection_role = none;
  control_image_kwarg = "control_image";
}

abbrev pub is_text : String → String → Bool
is_text s t = ite (same_text s t) true false

abbrev pub is_dim : ℕ → Option ℕ → Bool
is_dim n none = false
is_dim n (some m) = m == n

unfoldable pub is_sd15 : ModelInfo → Bool
is_sd15 info =
    is_text info.base_arch "unet"
    && (is_dim 768 info.cross_attention_dim || is_dim 1024 info.cross_attention_dim)

unfoldable pub is_sdxl : ModelInfo → Bool
is_sdxl info =
    is_text info.base_arch "unet"
    && (is_dim 1280 info.cross_attention_dim || is_dim 2048 info.cross_attention_dim)

unfoldable pub is_hunyuandit : ModelInfo → Bool
is_hunyuandit info = elim info.transformer_kind [ none ↦ false | some k ↦ is_text k "hunyuandit" ]

abbrev pub registration : FamilyProfile → (ModelInfo → Bool) → FamilyRegistration
registration profile detect = record { profile = profile; detect = detect }

unfoldable pub family_registry : List FamilyRegistration
family_registry =
    registration sd15_profile is_sd15
    ∷ registration sdxl_profile is_sdxl
    ∷ registration hunyuandit_profile is_hunyuandit
    ∷ []

-- The checks of `_validate_registry` on one profile. The fields are wire-safe by their types.
abbrev pub check_role : FamilyProfile → Result FamilyError (Unit {0})
check_role p = elim p.pooled_projection_role [
  | none ↦ ok tt
  | some role ↦ do
    refuse (not p.pooled_required) stray_projection_role
    refuse (not (member role p.encoder_roles)) absent_projection_role
]

abbrev pub has_no_roles : FamilyProfile → Bool
has_no_roles p = elim p.encoder_roles [ [] ↦ true | _ ↦ false ]

-- `_validate_registry`
unfoldable pub validate_registry :
    List String → List FamilyRegistration → Result FamilyError (Unit {0})
validate_registry seen [] = ok tt
validate_registry seen (r ∷ rs) = do
  refuse (member r.profile.family_id seen) duplicate_family
  refuse (has_no_roles r.profile) no_encoder_roles
  check_role r.profile
  validate_registry (r.profile.family_id ∷ seen) rs

unfoldable pub family_ids : List String
family_ids = map (λ r. r.profile.family_id) family_registry

unfoldable pub matches : ModelInfo → List FamilyRegistration → List FamilyRegistration
matches info [] = []
matches info (r ∷ rs) = let rest = matches info rs in if r.detect info then r ∷ rest else rest

abbrev pub exactly_one : List FamilyRegistration → Result FamilyError FamilyProfile
exactly_one (r ∷ []) = ok r.profile
exactly_one _ = raised family_resolution

-- `resolve_family`
unfoldable pub resolve_family :
    ModelInfo → List FamilyRegistration → Result FamilyError FamilyProfile
resolve_family info registry = exactly_one (matches info registry)

-- `validate_family_id`
unfoldable pub validate_family_id : String → Result FamilyError (Unit {0})
validate_family_id id = refuse (not (member id family_ids)) unknown_family
