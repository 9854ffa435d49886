-- ===== src/Assets/Tests.antt =====
-- The asset store on concrete inputs, and each theorem at one of them.
use stability_toys.Prelude.{
  ℕ, ◌≡◌, refl, String, true, false, List, [], ◌∷◌, none, some, arith, same_text,
}
use stability_toys.Prelude.Dict.{Dict, lookup, insert, erase, sum_by, keys}
use stability_toys.Prelude.Effects.{ok, raised}
use stability_toys.Assets.Model.{
  BucketPolicy, Bytes, AssetEntry, Store, Reason, value_error, oldest_from, older, select,
}
use stability_toys.Assets.Store.{
  init, evict_loop, evict_to_budget, place, write, resolve, pin, unpin, remove,
}
use stability_toys.Assets.Upkeep.{
  admit, cleanup_expired, expired_refs, remove_all, prepare_promotion, promote, merge,
}
use stability_toys.Assets.Eviction.{Evicted}
use stability_toys.Assets.Placement.{IsValid, added}
use stability_toys.Assets.Cleanup.{due_refs, is_due, member, Without, cleanup_expired-Without}
use stability_toys.Assets.Methods.{new_entry, write_fits, write_refused}
use stability_toys.Assets.Runs.{writes, pins, step}
use stability_toys.Assets.History.{StillPinned}
use stability_toys.Assets.Safety.{
  Reach, here, next, step-IsValid, step-StillPinned, reachable-IsValid,
}

-- What the tests compute with.
program : Unit {0}
unfolding init write place remove evict_to_budget evict_loop pin unpin resolve lookup insert erase
    sum_by oldest_from older select same_text admit cleanup_expired expired_refs remove_all promote
    prepare_promotion merge
program = tt

abbrev small : BucketPolicy
small = record {
  name = "upload";
  byte_budget = 4;
  ttl_s = some 10;
  pinnable = true;
  persist = false;
  persistence_ttl_s = none;
}

abbrev policies : Dict BucketPolicy
policies = ("upload", small) ∷ []

abbrev empty : Store
empty = record { policies = policies; entries = []; bucket_bytes = ("upload", 0) ∷ [] }

abbrev put : ℕ → String → Bytes → Store → Store
put now ref content s = (write now ref "upload" content [] s).1

names : Store → List String
names s = keys s.entries

-- The oldest entry makes way, unless it is pinned.
evicts_oldest :
    names (put 3 "c" (1 ∷ 2 ∷ []) (put 2 "b" (1 ∷ 2 ∷ []) (put 1 "a" (1 ∷ 2 ∷ []) empty)))
    ≡ "b" ∷ "c" ∷ []
unfolding program names
evicts_oldest = refl

pinned_stays :
    names
      (put 3 "c" (1 ∷ 2 ∷ []) (pin "a" (put 2 "b" (1 ∷ 2 ∷ []) (put 1 "a" (1 ∷ 2 ∷ []) empty))).1)
    ≡ "a" ∷ "c" ∷ []
unfolding program names
pinned_stays = refl

expires :
    cleanup_expired 12 (put 3 "b" [] (put 1 "a" [] empty)) ≡ (ok ("a" ∷ []), put 3 "b" [] empty)
unfolding program
expires = refl

empty-IsValid : IsValid empty
unfolding program
empty-IsValid = reachable-IsValid (λ _. none) policies here

abbrev one : Store
one = record {
  policies = policies;
  entries = ("a", new_entry 1 "a" "upload" (7 ∷ 7 ∷ 7 ∷ []) []) ∷ [];
  bucket_bytes = ("upload", 3) ∷ [];
}

one-Reach : Reach (λ _. none) (init policies) one
unfolding program step
one-Reach = next (writes 1 "a" "upload" (7 ∷ 7 ∷ 7 ∷ []) []) here refl refl

abbrev held : Store
held = (pin "a" one).1

held-Reach : Reach (λ _. none) (init policies) held
unfolding step
held-Reach = next (pins "a") one-Reach tt refl

reachable-IsValid_example : IsValid one
reachable-IsValid_example = reachable-IsValid (λ _. none) policies one-Reach

held-IsValid : IsValid held
held-IsValid = reachable-IsValid (λ _. none) policies held-Reach

write_fits_example :
    let e = new_entry 2 "b" "upload" (5 ∷ 5 ∷ []) [] in
    (s' : Store) × (write 2 "b" "upload" (5 ∷ 5 ∷ []) [] one ≡ (ok "b", s'))
    × IsValid s'
    × (lookup "b" s'.entries ≡ some e)
    × Evicted "upload" "b" (added e one) s'
unfolding program
write_fits_example =
    write_fits 2 "b" "upload" (5 ∷ 5 ∷ []) [] one reachable-IsValid_example refl small refl
      (omega arith)

write_refused_example :
    (r : Reason) × (write 2 "b" "upload" (5 ∷ 5 ∷ []) [] held ≡ (raised (value_error r), held))
unfolding program
write_refused_example =
    write_refused 2 "b" "upload" (5 ∷ 5 ∷ []) [] held held-IsValid refl (λ p h. ground arith)

step-IsValid_example : IsValid (step (λ _. none) (writes 2 "b" "upload" (5 ∷ []) []) held)
unfolding program
step-IsValid_example =
    step-IsValid (λ _. none) (writes 2 "b" "upload" (5 ∷ []) []) held held-IsValid refl

abbrev held_entry : AssetEntry
held_entry = record (new_entry 1 "a" "upload" (7 ∷ 7 ∷ 7 ∷ []) []) { pin_count = 1 }

step-StillPinned_example :
    StillPinned "a" held_entry (step (λ _. none) (writes 2 "b" "upload" (5 ∷ []) []) held)
unfolding program
step-StillPinned_example =
    step-StillPinned (λ _. none) (writes 2 "b" "upload" (5 ∷ []) []) held "a" held_entry
      held-IsValid refl tt refl (omega arith)

cleanup_expired-Without_example :
    (s' : Store) × (cleanup_expired 20 one ≡ (ok (due_refs 20 one.policies one.entries), s'))
    × Without (due_refs 20 one.policies one.entries) one s'
    × ((k : String)
        → member k (due_refs 20 one.policies one.entries)
          ≡ elim (lookup k one.entries) [ none ↦ false | some e ↦ is_due 20 one.policies e ])
cleanup_expired-Without_example = cleanup_expired-Without 20 one reachable-IsValid_example.exact
