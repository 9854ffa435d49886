-- ===== src/Superres/Tests.antt =====
-- Super-resolution on concrete inputs, and each theorem at one of them.
use stability_toys.Prelude.{
  ℕ, ◌-◌, ◌≡◌, zero, suc, ◌<◌, ◌≤◌, refl, String, true, false, List, [], ◌∷◌, none, some,
}
use stability_toys.Prelude.Effects.{ok, raised}
use stability_toys.Superres.Tiles.{plan_tiles, starts, range, last_or, rows}
use stability_toys.Superres.Cover.{hits, all_within, plan_tiles_covers}
use stability_toys.Superres.Service.{
  SrJob, SrService, SrWorld, sticky, pending, shutdown, finish_round,
}
use stability_toys.Superres.Rounds.{Keeps}
use stability_toys.Superres.Serving.{AllSettled, rounds, rounds_serve}
use stability_toys.Superres.Endings.{crash_is_final, shutdown_settles}

abbrev tiles : List (ℕ × ℕ)
tiles = (0, 0) ∷ (4, 0) ∷ (6, 0) ∷ []

plans : plan_tiles 4 10 4 ≡ some tiles
unfolding plan_tiles starts range last_or rows
plans = refl

plan_tiles_covers_example :
    ((px py : ℕ) → px < 10 → py < 4 → hits 4 px py tiles ≡ true)
    × (4 ≤ 10 → 4 ≤ 4 → all_within 4 10 4 tiles ≡ true)
plan_tiles_covers_example = plan_tiles_covers 4 10 4 tiles plans

abbrev job : ℕ → SrJob ℕ
job t = record {
  image_bytes = 7;
  out_format = "png";
  quality = 92;
  magnitude = 1;
  fut = t;
  submitted_at = 0;
}

-- A worker that fails for want of memory
abbrev world : SrWorld ℕ ℕ String
world = record {
  make = ok 1;
  upscale = λ v j. raised "CUDA out of memory";
  close = λ v. ok tt;
  is_oom = λ x. true;
}

-- The factory fails in the first round, and makes the second worker, which works.
abbrev changing : ℕ → SrWorld ℕ ℕ String
changing zero = record world { make = raised "no GPU" }
changing (suc k) = record world { upscale = λ v j. ok 9 }

changing_closes : (k : ℕ) (v : ℕ) → (changing k).close v ≡ ok tt
changing_closes zero v = refl
changing_closes (suc k) v = refl

abbrev leaking : SrWorld ℕ ℕ String
leaking = record world { close = λ v. raised "CUDA error" }

abbrev service : SrService ℕ ℕ String
service = record {
  queue = job 1 ∷ job 2 ∷ [];
  queue_max = 2;
  lifecycle = sticky;
  worker = none;
  stop = false;
  alive = true;
  active = none;
  unfinished = 2;
  futures = λ t. pending;
}

rounds_serve_example :
    let s' = rounds changing 2 service in
    (s'.queue ≡ [])
    × AllSettled (job 1 ∷ job 2 ∷ []) s'
    × (s'.alive ≡ true)
    × (s'.active ≡ none)
    × (s'.unfinished ≡ 2 - 2)
    × Keeps service s'
rounds_serve_example =
    rounds_serve changing changing_closes (job 1 ∷ job 2 ∷ []) service refl refl refl refl

abbrev running : SrService ℕ ℕ String
running = record service { queue = job 2 ∷ []; worker = some 1; active = some (job 1, 1) }

crash_is_final_example :
    ((finish_round leaking running).futures ≡ running.futures)
    × ((finish_round leaking running).queue ≡ job 2 ∷ [])
    × ((ws : ℕ → SrWorld ℕ ℕ String) (n : ℕ)
        → rounds ws n (finish_round leaking running) ≡ finish_round leaking running)
crash_is_final_example =
    crash_is_final leaking (job 1) 1 1 "CUDA out of memory" "CUDA error" running refl refl refl refl
      refl

shutdown_settles_example :
    let s' = (shutdown leaking running).1 in
    (s'.queue ≡ [])
    × (s'.worker ≡ none)
    × (s'.stop ≡ true)
    × AllSettled (job 2 ∷ []) s'
    × Keeps running s'
shutdown_settles_example = shutdown_settles leaking running
