-- ===== src/Families/Tests.antt =====
-- A registry and a mode, and what the check of the mode gives one request.
use stability_toys.Prelude.{ℕ, String, Bool, true, [], ◌∷◌, none, some, ◌≡◌, refl, inl, same_text}
use stability_toys.Prelude.Dict.{lookup, insert}
use stability_toys.Prelude.Effects.{ok}
use stability_toys.Controlnet.Policy.{
  ControlNetAttachment, ControlNetControlTypePolicy, ControlNetPolicy, check_attachment,
}
use stability_toys.Families.Profiles.{
  ModelInfo, is_sd15, is_sdxl, is_hunyuandit, family_registry, family_ids, validate_registry,
  matches, resolve_family, validate_family_id,
}
use stability_toys.Families.Registry.{
  RawModel, ControlNetModelSpec, ControlNetRegistry, ModeReferences, get_required, check_families,
  load_spec, load_specs, load_controlnet_registry, check_model_id, check_model_ids,
  referenced_model_ids, check_types, mode_family, check_mode, validate_references,
}
use stability_toys.Families.References.{Serves, admitted-Serves}

program : Unit {0}
unfolding lookup insert same_text check_attachment is_sd15 is_sdxl is_hunyuandit family_registry
    family_ids validate_registry matches resolve_family validate_family_id get_required
    check_families load_spec load_specs load_controlnet_registry check_model_id check_model_ids
    referenced_model_ids check_types check_mode validate_references
program = tt

families_valid : validate_registry [] family_registry ≡ ok tt
unfolding program
families_valid = refl

abbrev there : String → Bool
there path = true

abbrev unet : String → ModelInfo
unet path = record {
  path = path;
  base_arch = "unet";
  cross_attention_dim = some 768;
  transformer_kind = none;
}

abbrev raw : RawModel
raw = record {
  path = some "canny.safetensors";
  control_types = some ("canny" ∷ []);
  compatible_with = some ("sd15" ∷ []);
}

abbrev canny : ControlNetModelSpec
canny = record {
  model_id = "canny-sd15";
  path = "canny.safetensors";
  control_types = "canny" ∷ [];
  compatible_with = "sd15" ∷ [];
}

abbrev registry : ControlNetRegistry
registry = record { specs = ("canny-sd15", canny) ∷ []; validation_mode = "strict" }

registry_loads : load_controlnet_registry there "strict" (("canny-sd15", raw) ∷ []) ≡ ok registry
unfolding program
registry_loads = refl

abbrev type_policy : ControlNetControlTypePolicy ℕ
type_policy = record {
  allow_preprocess = true;
  default_model_id = some "canny-sd15";
  allowed_model_ids = "canny-sd15" ∷ [];
  default_strength = 1;
  min_strength = 0;
  max_strength = 2;
}

abbrev policy : ControlNetPolicy ℕ
policy = record {
  enabled = true;
  max_attachments = 1;
  allowed_control_types = ("canny", type_policy) ∷ [];
}

abbrev mode : ModeReferences ℕ
mode = record { model_path = some "sd15.safetensors"; controlnet_policy = some policy }

abbrev attachment : ControlNetAttachment ℕ
attachment = record {
  attachment_id = "a";
  control_type = "canny";
  preprocess = none;
  model_id = none;
  strength = none;
}

abbrev any_order : ℕ → ℕ → Bool
any_order x y = true

modes_valid : validate_references there unet registry (("sd15", mode) ∷ []) ≡ ok tt
unfolding program
modes_valid = refl

let_through :
    check_attachment any_order policy attachment
    ≡ (ok tt, record attachment { model_id = some "canny-sd15"; strength = some 1 })
unfolding program
let_through = refl

admitted-Serves_example :
    (family : String) × (m : String) × (mode_family unet (some "sd15.safetensors") ≡ ok family)
    × (some "canny-sd15" ≡ some m)
    × Serves there registry family "canny" m
unfolding program
admitted-Serves_example =
    admitted-Serves there unet registry (("sd15", mode) ∷ []) any_order "sd15" mode policy
      attachment (record attachment { model_id = some "canny-sd15"; strength = some 1 }) type_policy
      modes_valid refl refl refl let_through refl (inl refl)
