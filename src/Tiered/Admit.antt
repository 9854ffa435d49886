-- ===== src/Tiered/Admit.antt =====
-- What `admit` and `discard` of server/asset_store.py come to where the tiered store calls them.
use stability_toys.Prelude.{
  ◌+◌, ◌≡◌, String, none, some, arith, length, leb, ltb, Bool-cases, Option-cases, inl, inr, ◌⊎◌,
}
use stability_toys.Prelude.Dict.{lookup}
use stability_toys.Prelude.Effects.{ok, raised}
use stability_toys.Assets.Model.{
  AssetEntry, Store, Reason, unknown_bucket, over_budget, no_capacity, value_error,
}
use stability_toys.Assets.Upkeep.{admit, discard}
use stability_toys.Assets.Accounting.{IsExact, removed, remove-removed}
use stability_toys.Assets.Eviction.{pinned_size}
use stability_toys.Assets.Placement.{IsValid, IsNew, place_fits, place_refused}

-- An entry that is not in a valid store and that has an honest size and no pin is admitted, or it is
-- refused by a ValueError and nothing changes.
pub admit_cases :
    (s : Store) (e : AssetEntry)
    → IsValid s
    → lookup e.ref s.entries ≡ none
    → e.byte_size ≡ length e.content
    → e.pin_count ≡ 0
    → ((s' : Store) × (admit e s ≡ (ok tt, s')) × IsValid s')
      ⊎ ((r : Reason) × (admit e s ≡ (raised (value_error r), s)))
unfolding admit
admit_cases s e v fresh sized unpinned = elim (Option-cases (lookup e.bucket s.policies)) [
  | inl unknown ↦ inr (unknown_bucket, ground arith)
  | inr (p, known) ↦ elim (Bool-cases (ltb p.byte_budget e.byte_size)) [
    | inl large ↦ inr (over_budget, ground arith)
    | inr small ↦
        let n : IsNew s e p = record {
          fresh = fresh;
          known = known;
          sized = sized;
          unpinned = unpinned;
        } in
        elim (Bool-cases (leb (pinned_size e.bucket s.entries + e.byte_size) p.byte_budget)) [
          | inl fits ↦
              let (s', runs, _, valid) = place_fits s e p v n (ground arith) in
              inl (s', ground (arith, runs), valid)
          | inr tight ↦
              let runs = place_refused s e p v n (ground arith) in
              inr (no_capacity, ground (arith, runs))
        ]
  ]
]

module _ (s : Store) (x : IsExact s) (ref : String) (e : AssetEntry)
    (found : lookup ref s.entries ≡ some e) where
  pub discard-removed : discard ref s ≡ (ok tt, removed ref e s)
  unfolding discard
  discard-removed = let runs = remove-removed s x ref e found in ground (arith, runs)
