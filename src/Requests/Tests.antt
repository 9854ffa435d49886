-- ===== src/Requests/Tests.antt =====
-- A request of the default size of the environment gets that of its mode.
use stability_toys.Prelude.{◌≡◌, refl, ◌==◌, some, none, [], ◌∷◌, ℕ, same_text}
use stability_toys.Prelude.Effects.{ok}
use stability_toys.Requests.Finalize.{
  GenerateRequest, EnvDefaults, ModeDefaults, finalize_mode_generate_request,
}

-- Guidance in tenths.
abbrev env : EnvDefaults ℕ
env = record { size = "512x512"; steps = 4; guidance = 10 }

abbrev mode : ModeDefaults ℕ
mode = record {
  default_size = "1024x1024";
  default_steps = 20;
  default_guidance = 70;
  sizes = "1024x1024" ∷ "768x768" ∷ [];
}

abbrev request : GenerateRequest ℕ
request = record { size = "512x512"; num_inference_steps = some 8; guidance_scale = none }

finalized :
    finalize_mode_generate_request (λ a b. a == b) env mode request
    ≡ (ok tt, record { size = "1024x1024"; num_inference_steps = some 8; guidance_scale = none })
unfolding finalize_mode_generate_request same_text
finalized = refl
