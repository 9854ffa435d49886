-- ===== src/Assets/Safety.antt =====
-- Every call keeps the asset store valid and what is pinned in place, and so does every run.
use stability_toys.Prelude.{
  ℕ, ◌+◌, ◌-◌, ◌<◌, ◌≡◌, ◌≢◌, refl, sym, ◌∙◌, String, [], ◌∷◌, Option, some, arith, inl, inr, subst,
  map,
}
use stability_toys.Prelude.Dict.{Dict, lookup, lookup-of-erase, lookup-erase_ne, sum_by}
use stability_toys.Assets.Model.{BucketPolicy, MetaValue, Bytes, AssetEntry, Store}
use stability_toys.Assets.Store.{init, pin, unpin}
use stability_toys.Assets.Upkeep.{discard}
use stability_toys.Assets.Accounting.{removed, removed-IsExact}
use stability_toys.Assets.Placement.{IsValid}
use stability_toys.Assets.Methods.{update-IsValid}
use stability_toys.Assets.Calls.{promote-Preserved, admit-Preserved, cleanup-Preserved}
use stability_toys.Assets.History.{
  shrink-IsValid, StillPinned, unchanged, Preserved, Preserved-refl, write-Preserved,
}
use stability_toys.Assets.Runs.{
  Call, writes, resolves, pins, unpins, discards, cleans_up, promotes, admits, step, IsAdmissible,
  Spares, update-StillPinned, resolve-Preserved, pin_runs, unpin_runs, discard_runs,
}

pin-Preserved : (ref : String) (s : Store) → IsValid s → Preserved s (pin ref s).1
pin-Preserved ref s v = elim (pin_runs ref s v) [
  | inl stays ↦ subst (Preserved s) (sym stays) (Preserved-refl s v)
  | inr (old, found, runs) ↦
      let new = record old { pin_count = old.pin_count + 1 } in
      subst (Preserved s) (sym runs) (record {
        valid = update-IsValid s v ref old new found refl refl refl refl;
        pins_kept = λ k e. update-StillPinned s ref k old new e found refl (λ _ _. omega arith);
      })
]

-- The store after an `unpin` or a `discard`: valid, with the pinned entries of other names.
record PreservedBut (ref : String) (s s' : Store) : Type 0 where
  valid : IsValid s'
  others_kept :
      (k : String) (e : AssetEntry)
      → ref ≢ k
      → lookup k s.entries ≡ some e
      → 0 < e.pin_count
      → StillPinned k e s'

PreservedBut-refl : (ref : String) (s : Store) → IsValid s → PreservedBut ref s s
PreservedBut-refl ref s v = record { valid = v; others_kept = λ k e _ h p. unchanged k e s p h }

unpin-PreservedBut : (ref : String) (s : Store) → IsValid s → PreservedBut ref s (unpin ref s).1
unpin-PreservedBut ref s v = elim (unpin_runs ref s v) [
  | inl stays ↦ subst (PreservedBut ref s) (sym stays) (PreservedBut-refl ref s v)
  | inr (old, found, runs) ↦
      let new = record old { pin_count = old.pin_count - 1 } in
      subst (PreservedBut ref s) (sym runs) (record {
        valid = update-IsValid s v ref old new found refl refl refl refl;
        others_kept = λ k e other.
            update-StillPinned s ref k old new e found refl (λ same _. absurd (other same));
      })
]

discard-PreservedBut : (ref : String) (s : Store) → IsValid s → PreservedBut ref s (discard ref s).1
discard-PreservedBut ref s v = elim (discard_runs ref s v.exact) [
  | inl stays ↦ subst (PreservedBut ref s) (sym stays) (PreservedBut-refl ref s v)
  | inr (old, found, runs) ↦ subst (PreservedBut ref s) (sym runs) (record {
    valid =
        shrink-IsValid s (removed ref old s) v (removed-IsExact s v.exact ref old found) refl
          (λ k e h. (lookup-of-erase ref k s.entries v.exact.distinct h).0);
    others_kept = λ k e other h p.
        unchanged k e (removed ref old s) p (lookup-erase_ne ref k s.entries other ∙ h);
  })
]

lookup-zeroes :
    (policies : Dict BucketPolicy) (b : String) (p : BucketPolicy)
    → lookup b policies ≡ some p
    → lookup {V = ℕ} b (map (λ e. (e.0, 0)) policies) ≡ some 0
unfolding lookup
lookup-zeroes [] b p h = cc
lookup-zeroes (x ∷ policies) b p h = ground (arith, lookup-zeroes policies b p)

init-IsValid : (policies : Dict BucketPolicy) → IsValid (init policies)
unfolding init lookup sum_by
init-IsValid policies = record {
  exact = record {
    distinct = tt;
    named = λ k e h. cc;
    counted = λ b p h. lookup-zeroes policies b p h;
  };
  bounded = λ b p h. omega arith;
}

module _ (describe : Bytes → Option (Dict MetaValue)) where
  -- Every call under the lock keeps the counters exact and every bucket within its budget, whether
  -- the call returns or raises, given that it is admissible.
  pub step-IsValid :
      (c : Call) (s : Store) → IsValid s → IsAdmissible c s → IsValid (step describe c s)
  unfolding step
  step-IsValid (writes now ref bucket content metadata) s v ready =
      (write-Preserved now ref bucket content metadata s v ready).valid
  step-IsValid (resolves now ref) s v ready = (resolve-Preserved now ref s v).valid
  step-IsValid (pins ref) s v ready = (pin-Preserved ref s v).valid
  step-IsValid (unpins ref) s v ready = (unpin-PreservedBut ref s v).valid
  step-IsValid (discards ref) s v ready = (discard-PreservedBut ref s v).valid
  step-IsValid (cleans_up now) s v ready = (cleanup-Preserved now s v).valid
  step-IsValid (promotes now fresh ref target) s v ready =
      (promote-Preserved describe now fresh ref target s v ready).valid
  step-IsValid (admits e) s v ready = (admit-Preserved e s v ready).valid

  -- On a valid store, no call but `unpin` and `discard` of its own name takes a pinned entry out,
  -- changes its content or ends its pin, if the name that it makes up is not in use, and an entry that
  -- it admits is new to the store, unpinned, and of the size of its content.
  pub step-StillPinned :
      (c : Call) (s : Store) (k : String) (e : AssetEntry)
      → IsValid s
      → IsAdmissible c s
      → Spares c k
      → lookup k s.entries ≡ some e
      → 0 < e.pin_count
      → StillPinned k e (step describe c s)
  unfolding step
  step-StillPinned (writes now ref bucket content metadata) s k e v ready spares =
      (write-Preserved now ref bucket content metadata s v ready).pins_kept k e
  step-StillPinned (resolves now ref) s k e v ready spares =
      (resolve-Preserved now ref s v).pins_kept k e
  step-StillPinned (pins ref) s k e v ready spares = (pin-Preserved ref s v).pins_kept k e
  step-StillPinned (unpins ref) s k e v ready spares =
      (unpin-PreservedBut ref s v).others_kept k e spares
  step-StillPinned (discards ref) s k e v ready spares =
      (discard-PreservedBut ref s v).others_kept k e spares
  step-StillPinned (cleans_up now) s k e v ready spares = (cleanup-Preserved now s v).pins_kept k e
  step-StillPinned (promotes now fresh ref target) s k e v ready spares =
      (promote-Preserved describe now fresh ref target s v ready).pins_kept k e
  step-StillPinned (admits e') s k e v ready spares = (admit-Preserved e' s v ready).pins_kept k e

  -- The stores that some sequence of admissible calls reaches.
  pub data Reach (s : Store) : Store → Type 0 where
    here : Reach s s
    next :
        {t u : Store} (c : Call) → Reach s t → IsAdmissible c t → step describe c t ≡ u → Reach s u

  Reach-IsValid : {s t : Store} → IsValid s → Reach s t → IsValid t
  Reach-IsValid v here = v
  Reach-IsValid v (next c r ready e) = subst IsValid e (step-IsValid c _ (Reach-IsValid v r) ready)

  -- From an empty store over any table of policies, every store is valid that a sequence of calls
  -- reaches in which the names that calls make up are not in use, and the entries that are admitted are
  -- new to the store, unpinned, and of the size of their content.
  pub reachable-IsValid :
      (policies : Dict BucketPolicy) {s : Store} → Reach (init policies) s → IsValid s
  reachable-IsValid policies r = Reach-IsValid (init-IsValid policies) r
