-- ===== src/Resolution/Tests.antt =====
-- A model is resolved, and its trace is sent and read.
use stability_toys.Prelude.{
  ℕ, String, Bool, true, false, [], ◌∷◌, none, some, ◌≡◌, refl, same_text, if◌then◌else◌,
}
use stability_toys.Prelude.Dict.{lookup}
use stability_toys.Prelude.Effects.{ok}
use stability_toys.Analysis.Json.{null, boolean, number, text}
use stability_toys.Families.Profiles.{
  FamilyProfile, is_sd15, is_sdxl, is_hunyuandit, family_registry, family_ids, matches,
  resolve_family, validate_family_id,
}
use stability_toys.Resolution.Snapshot.{
  ModelInfo, num, no_pairs, pair, assert_json_safe, check_json, freeze_mapping, attribute,
  attributes, scalar_snapshot_fields, freeze_model_info, snapshot_to_json_dict,
  snapshot_from_json_dict, take_keys,
}
use stability_toys.Resolution.Identity.{
  FileSystem, manifest_entries, local_dir_manifest, manifest_json, local_artifact_ref,
  model_ref_to_json_dict, model_ref_from_json_dict,
}
use stability_toys.Resolution.Wire.{
  ResolvedModel, profile_to_json_dict, profile_from_json_dict, resolution_payload,
  expected_resolution_id, build_resolved, resolved_model_to_json_dict, verify_resolution_id,
  read_resolved, resolved_model_from_json_dict,
}
use stability_toys.Resolution.Resolver.{
  ModeOverrides, capability_fields, set_pair, merged, merge_mode_capabilities, resolve_model,
}
use stability_toys.Resolution.Safety.{Travels, resolve_model-Travels, overlay-resolve_model, sets}
use stability_toys.Resolution.Integrity.{SameContents, accepted-SameContents}

program : Unit {0}
unfolding lookup same_text is_sd15 is_sdxl is_hunyuandit family_registry family_ids matches
    resolve_family validate_family_id assert_json_safe check_json freeze_mapping attribute
    attributes scalar_snapshot_fields freeze_model_info snapshot_to_json_dict
    snapshot_from_json_dict take_keys manifest_entries local_dir_manifest manifest_json
    local_artifact_ref model_ref_to_json_dict model_ref_from_json_dict profile_to_json_dict
    profile_from_json_dict resolution_payload expected_resolution_id build_resolved
    resolved_model_to_json_dict verify_resolution_id read_resolved resolved_model_from_json_dict
    capability_fields set_pair merged merge_mode_capabilities resolve_model
program = tt

-- A file system with one file; the hash is the same for all.
abbrev os : FileSystem ℕ
os = record {
  is_link = λ _. false;
  is_dir = λ _. false;
  walk = λ _. [];
  size = λ _. 2;
  basename = λ p. p;
  of_nat = λ n. n;
  sort = λ es. es;
  sha256 = λ _. "h";
  at_revision = λ r _. r;
  characters = λ _. [];
}

abbrev finite : ℕ → Bool
finite _ = true

abbrev detect : String → ModelInfo ℕ
detect path = record {
  family = record {
    path = path;
    base_arch = "unet";
    cross_attention_dim = some 768;
    transformer_kind = none;
  };
  variant = "sd15";
  detected_by = "keys" ∷ [];
  metadata = pair (some "epoch") (num 3) no_pairs;
  negative_prompt_templates = no_pairs;
  allowed_scheduler_ids = none;
  scalars = λ _. null;
}

abbrev mode : ModeOverrides ℕ
mode = record {
  scalars = λ _. text "int8";
  negative_prompt_templates = no_pairs;
  allowed_scheduler_ids = some (text "euler" ∷ []);
  metadata = no_pairs;
}

abbrev resolved : ResolvedModel ℕ
resolved = record {
  schema_version = number 1;
  resolution_id = text "h";
  model_ref = record {
    kind = text "local-file";
    name = text "m.safetensors";
    revision = null;
    fingerprint = text "h";
    digest = null;
  };
  raw_info = record {
    variant = text "sd15";
    detected_by = text "keys" ∷ [];
    metadata = ("epoch", number 3) ∷ [];
    negative_prompt_templates = [];
    allowed_scheduler_ids = none;
    scalars =
        ("cross_attention_dim", number 768)
        ∷ ("text_encoder_hidden_size", null)
        ∷ ("text_encoder_2_hidden_size", null)
        ∷ ("unet_in_channels", null)
        ∷ ("unet_out_channels", null)
        ∷ ("vae_latent_channels", null)
        ∷ ("format", null)
        ∷ ("is_lora", null)
        ∷ ("confidence", null)
        ∷ ("loader_format", null)
        ∷ ("checkpoint_precision", null)
        ∷ ("checkpoint_variant", null)
        ∷ ("scheduler_profile", null)
        ∷ ("recommended_size", null)
        ∷ ("runtime_quantize", null)
        ∷ ("runtime_offload", null)
        ∷ ("runtime_attention_slicing", null)
        ∷ ("runtime_enable_xformers", null)
        ∷ ("default_negative_prompt_template", null)
        ∷ ("allow_custom_negative_prompt", null)
        ∷ ("default_scheduler_id", null)
        ∷ ("compatible_worker", null)
        ∷ ("required_cross_attention_dim", null)
        ∷ ("base_arch", text "unet")
        ∷ ("transformer_kind", null)
        ∷ [];
  };
  profile = record {
    family_id = "sd15";
    encoder_roles = text "text_encoder" ∷ [];
    pooled_required = boolean false;
    pooled_projection_role = null;
    control_image_kwarg = text "image";
  };
  info = record {
    variant = text "sd15";
    detected_by = text "keys" ∷ [];
    metadata = ("epoch", number 3) ∷ [];
    negative_prompt_templates = [];
    allowed_scheduler_ids = some (text "euler" ∷ []);
    scalars =
        ("cross_attention_dim", number 768)
        ∷ ("text_encoder_hidden_size", null)
        ∷ ("text_encoder_2_hidden_size", null)
        ∷ ("unet_in_channels", null)
        ∷ ("unet_out_channels", null)
        ∷ ("vae_latent_channels", null)
        ∷ ("format", null)
        ∷ ("is_lora", null)
        ∷ ("confidence", null)
        ∷ ("loader_format", text "int8")
        ∷ ("checkpoint_precision", text "int8")
        ∷ ("checkpoint_variant", text "int8")
        ∷ ("scheduler_profile", text "int8")
        ∷ ("recommended_size", text "int8")
        ∷ ("runtime_quantize", text "int8")
        ∷ ("runtime_offload", text "int8")
        ∷ ("runtime_attention_slicing", text "int8")
        ∷ ("runtime_enable_xformers", text "int8")
        ∷ ("default_negative_prompt_template", text "int8")
        ∷ ("allow_custom_negative_prompt", text "int8")
        ∷ ("default_scheduler_id", text "int8")
        ∷ ("compatible_worker", null)
        ∷ ("required_cross_attention_dim", null)
        ∷ ("base_arch", text "unet")
        ∷ ("transformer_kind", null)
        ∷ [];
  };
}

model_resolves :
    resolve_model os finite detect "m.safetensors" mode
    ≡ ok (resolved, record { model_path = "m.safetensors" })
unfolding program
model_resolves = refl

resolve_model-Travels_example :
    (p : FamilyProfile) × (resolve_family (detect "m.safetensors").family family_registry ≡ ok p)
    × Travels os finite (λ _ _. true) (λ _ _. true) p resolved
resolve_model-Travels_example =
    resolve_model-Travels os finite detect (λ _ _. true) (λ _ _. true) (λ _. refl) (λ _. refl)
      "m.safetensors" mode model_resolves

overlay-resolve_model_example : lookup "runtime_quantize" resolved.info.scalars ≡ (
    if sets mode "runtime_quantize"
    then some (text "int8")
    else lookup "runtime_quantize" resolved.raw_info.scalars)
overlay-resolve_model_example =
    overlay-resolve_model os finite detect "m.safetensors" mode model_resolves "runtime_quantize"

-- The trace, and one that names another version
abbrev later : ResolvedModel ℕ
later = record resolved { schema_version = number 2 }

trace_reads :
    resolved_model_from_json_dict os finite (resolved_model_to_json_dict os finite resolved)
    ≡ ok resolved
unfolding program
trace_reads = refl

later_reads :
    resolved_model_from_json_dict os finite (resolved_model_to_json_dict os finite later) ≡ ok later
unfolding program
later_reads = refl

accepted-SameContents_example : SameContents os finite resolved later
accepted-SameContents_example =
    accepted-SameContents os finite (resolved_model_to_json_dict os finite resolved)
      (resolved_model_to_json_dict os finite later) (λ _. refl) trace_reads later_reads refl
