-- ===== src/Tiered/Tests.antt =====
-- The tiered store on concrete inputs, and each theorem at one of them.
use stability_toys.Prelude.{ℕ, ◌≡◌, refl, String, true, [], ◌∷◌, none, some, arith, same_text, ◌+◌}
use stability_toys.Prelude.Dict.{Dict, lookup, sum_by}
use stability_toys.Prelude.Effects.{ok, raised}
use stability_toys.Assets.Model.{BucketPolicy, AssetEntry, Store}
use stability_toys.Assets.Store.{init}
use stability_toys.Assets.Placement.{IsValid}
use stability_toys.Assets.Safety.{here, reachable-IsValid}
use stability_toys.Storage.Memory.{Provider}
use stability_toys.Storage.Limits.{IsWithin}
use stability_toys.Tiered.Store.{Backend, provider_fault, write_through, memory_backend}
use stability_toys.Tiered.Rollback.{write_through_rolls_back}
use stability_toys.Tiered.Durable.{HoldsItem, Resolves, resolve-write}

abbrev durable : BucketPolicy
durable = record {
  name = "upload";
  byte_budget = 4;
  ttl_s = none;
  pinnable = true;
  persist = true;
  persistence_ttl_s = some 60;
}

abbrev policies : Dict BucketPolicy
policies = ("upload", durable) ∷ []

abbrev memory : Store
memory = record { policies = policies; entries = []; bucket_bytes = ("upload", 0) ∷ [] }

memory-IsValid : IsValid memory
unfolding init
memory-IsValid = reachable-IsValid (λ _. none) policies here

abbrev provider : Provider
provider = record { max_items = 2; items = [] }

provider-IsWithin : IsWithin provider
provider-IsWithin = record { distinct = tt; limited = omega arith }

-- A provider whose disk is full.
abbrev full : Backend ℕ String
full = record { store = λ e n. (raised "disk full", n + 1); fetch = λ ref n. (ok none, n) }

write_through_rolls_back_example :
    (s' : Store) × (write_through full 1 2 "a" "upload"
        (7 ∷ 7 ∷ [])
        []
        (record { memory = memory; provider = some 0 })
      ≡ (raised (provider_fault "disk full"), record { memory = s'; provider = some 1 }))
    × IsValid s'
    × (lookup "a" s'.entries ≡ none)
    × ((k : String) (d : AssetEntry)
        → lookup k s'.entries ≡ some d
        → lookup k memory.entries ≡ some d)
unfolding lookup same_text sum_by
write_through_rolls_back_example =
    write_through_rolls_back full 1 2 "a" "upload" (7 ∷ 7 ∷ []) [] memory 0 1 durable "disk full"
      memory-IsValid refl refl (omega arith) refl refl

resolve-write_example :
    let (r, t) =
      write_through
        (memory_backend 3 3)
        1
        2
        "a"
        "upload"
        (7 ∷ 7 ∷ [])
        []
        (record { memory = memory; provider = some provider }) in
    (r ≡ ok "a")
    × ((q : Provider) × (t.provider ≡ some q)
        × HoldsItem 1 2 "a" "upload" (7 ∷ 7 ∷ []) [] memory provider durable 3 q)
    × Resolves 1 2 "a" "upload" (7 ∷ 7 ∷ []) [] memory provider durable 3
unfolding lookup same_text sum_by
resolve-write_example =
    resolve-write 1 2 "a" "upload" (7 ∷ 7 ∷ []) [] memory provider durable 3 3 memory-IsValid
      provider-IsWithin (omega arith) refl refl (omega arith) refl refl refl
