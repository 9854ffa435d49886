-- ===== src/Controlnet/Tests.antt =====
-- The ControlNet cache on concrete inputs, and each theorem at one of them.
use stability_toys.Prelude.{
  ℕ, leb, ◌≡◌, ◌≢◌, false, ◌⊎◌, refl, String, true, [], ◌∷◌, Option, none, some, same_text,
}
use stability_toys.Prelude.Dict.{lookup, insert, erase, IsDict, keys}
use stability_toys.Prelude.Int.{pos, ◌+ℤ◌, ◌-ℤ◌, is_positive}
use stability_toys.Prelude.Effects.{ok}
use stability_toys.Controlnet.Cache.{
  CacheEntry, Cache, init, evict_rounds, evict_if_needed, pin_more, acquire, release, drop_unpinned,
}
use stability_toys.Controlnet.Pins.{Trims, evict_if_needed-Trims}
use stability_toys.Controlnet.Leases.{acquire_again}
use stability_toys.Controlnet.Policy.{
  ControlNetAttachment, ControlNetControlTypePolicy, ControlNetPolicy, check_attachment,
  check_attachments, enforce_controlnet_policy,
}
use stability_toys.Controlnet.Admission.{completed_by, admits, is_raised, enforce_decides}

-- What the tests compute with.
program : Unit {0}
unfolding lookup insert erase same_text init evict_rounds evict_if_needed acquire release
    drop_unpinned ◌+ℤ◌ ◌-ℤ◌
program = tt

-- A model is the text of its path here.
abbrev load : String → Option String
load path = some path

abbrev pinned : CacheEntry String
pinned = record { model_path = "canny.bin"; model = "canny.bin"; pin_count = pos 1 }

abbrev free : CacheEntry String
free = record { model_path = "depth.bin"; model = "depth.bin"; pin_count = pos 0 }

abbrev cache : Cache String
cache = record { max_entries = 1; entries = ("depth", free) ∷ ("canny", pinned) ∷ [] }

evicts_unpinned : keys (evict_if_needed cache).entries ≡ "canny" ∷ []
unfolding program
evicts_unpinned = refl

evict_if_needed-Trims_example : Trims 1 cache.entries (evict_if_needed cache).entries
evict_if_needed-Trims_example = evict_if_needed-Trims cache

acquire_again_example :
    (c' : Cache String) × (acquire load "canny" "canny.bin" cache ≡ (ok "canny.bin", c'))
    × IsDict c'.entries
    × (lookup "canny" c'.entries ≡ some (pin_more pinned))
    × ((j : String) (d : CacheEntry String)
        → "canny" ≢ j
        → lookup j cache.entries ≡ some d
        → is_positive d.pin_count ≡ true
        → lookup j c'.entries ≡ some d)
unfolding program
acquire_again_example =
    acquire_again load "canny" "canny.bin" cache pinned 1 (refl, (refl, tt)) refl refl

-- Strengths in hundredths.
abbrev canny : ControlNetControlTypePolicy ℕ
canny = record {
  allow_preprocess = true;
  default_model_id = some "canny-sdxl";
  allowed_model_ids = [];
  default_strength = 80;
  min_strength = 0;
  max_strength = 150;
}

abbrev mode_policy : ControlNetPolicy ℕ
mode_policy = record {
  enabled = true;
  max_attachments = 2;
  allowed_control_types = ("canny", canny) ∷ [];
}

abbrev plain : String → ControlNetAttachment ℕ
plain id = record {
  attachment_id = id;
  control_type = "canny";
  preprocess = none;
  model_id = none;
  strength = none;
}

policy_program : Unit {0}
unfolding program check_attachment check_attachments enforce_controlnet_policy
policy_program = tt

enforce_decides_example :
    let more = plain "x" ∷ plain "y" ∷ [] in
    ((admits leb (some mode_policy) more ≡ true)
      × (enforce_controlnet_policy leb (some mode_policy) more
          ≡ (ok tt, completed_by leb (some mode_policy) more)))
    ⊎ ((admits leb (some mode_policy) more ≡ false)
        × (is_raised leb (enforce_controlnet_policy leb (some mode_policy) more).0 ≡ true))
enforce_decides_example = enforce_decides leb (some mode_policy) (plain "x" ∷ plain "y" ∷ [])
