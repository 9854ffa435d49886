-- ===== src/Tiered/Rollback.antt =====
-- server/tiered_asset_store.py: `write` where the storage provider takes the entry, and where it raises.
use stability_toys.Prelude.{
  ℕ, ◌+◌, ◌≤◌, ◌≡◌, refl, sym, ◌∙◌, String, true, none, some, arith, length, same_text,
}
use stability_toys.Prelude.Dict.{Dict, lookup, erase, lookup-erase_self, lookup-erase_ne}
use stability_toys.Prelude.Effects.{ok, raised}
use stability_toys.Assets.Model.{BucketPolicy, MetaValue, Bytes, AssetEntry, Store}
use stability_toys.Assets.Upkeep.{discard}
use stability_toys.Assets.Accounting.{removed, removed-IsExact}
use stability_toys.Assets.Eviction.{pinned_size}
use stability_toys.Assets.Placement.{IsValid}
use stability_toys.Assets.History.{shrink-IsValid}
use stability_toys.Storage.Codec.{EncodedAsset, encode}
use stability_toys.Tiered.Store.{Backend, provider_fault, persist, write_through}
use stability_toys.Tiered.Admit.{discard-removed}
use stability_toys.Tiered.Written.{persisted_entry, write_through_starts}

module _ {P X : Type 0} (b : Backend P X) (e : EncodedAsset) (ref : String) (s : Store)
    (pr pr' : P) where
  pub persist_taken :
      b.store e pr ≡ (ok tt, pr')
      → persist b e ref (record { memory = s; provider = some pr })
        ≡ (ok ref, record { memory = s; provider = some pr' })
  unfolding persist
  persist_taken h = ground arith

  persist_raised :
      (x : X) (s' : Store)
      → b.store e pr ≡ (raised x, pr')
      → discard ref s ≡ (ok tt, s')
      → persist b e ref (record { memory = s; provider = some pr })
        ≡ (raised (provider_fault x), record { memory = s'; provider = some pr' })
  unfolding persist
  persist_raised x s' h gone = ground arith

removed-subset :
    (ref k : String) (e d : AssetEntry) (s : Store)
    → IsValid s
    → lookup k (removed ref e s).entries ≡ some d
    → lookup k s.entries ≡ some d
removed-subset ref k e d s v h = elim (same_text ref k) [
  | yes here ↦
      let gone : lookup k (erase ref s.entries) ≡ none =
        rw (← here) (lookup-erase_self ref s.entries v.exact.distinct) in
      absurd (cc (gone, h))
  | no other ↦ sym (lookup-erase_ne ref k s.entries other) ∙ h
]

module _ {P X : Type 0} (b : Backend P X) (now later : ℕ) (ref bucket : String) (content : Bytes)
    (metadata : Dict MetaValue) (s : Store) (pr pr' : P) (p : BucketPolicy) (x : X) where
  -- A write into a persisted bucket, to which the provider raises an exception, raises that exception.
  -- The entry is in the store in memory no more, which is valid and holds nothing that it did not hold
  -- before.
  pub write_through_rolls_back :
      IsValid s
      → lookup ref s.entries ≡ none
      → lookup bucket s.policies ≡ some p
      → pinned_size bucket s.entries + length content ≤ p.byte_budget
      → p.persist ≡ true
      → b.store (encode (persisted_entry now later ref bucket content metadata) p) pr
        ≡ (raised x, pr')
      → (s' : Store) × (write_through b now later ref bucket content metadata
            (record { memory = s; provider = some pr })
          ≡ (raised (provider_fault x), record { memory = s'; provider = some pr' }))
        × IsValid s'
        × (lookup ref s'.entries ≡ none)
        × ((k : String) (d : AssetEntry)
            → lookup k s'.entries ≡ some d
            → lookup k s.entries ≡ some d)
  write_through_rolls_back v fresh known fits persists fails =
      let e = persisted_entry now later ref bucket content metadata in
      let (s2, w, runs) =
        write_through_starts now later ref bucket content metadata s p v fresh known fits b pr
          persists in
      let s' = removed ref e s2 in
      let gone = lookup-erase_self ref s2.entries w.valid.exact.distinct in
      let dropped = discard-removed s2 w.valid.exact ref e w.stored in
      let less = λ (k : String) (d : AssetEntry) (h : lookup k s'.entries ≡ some d).
        removed-subset ref k e d s2 w.valid h in
      (
        s',
        runs ∙ persist_raised b (encode e p) ref s2 pr pr' x s' fails dropped,
        shrink-IsValid s2 s' w.valid (removed-IsExact s2 w.valid.exact ref e w.stored) refl less,
        gone,
        λ k d h. elim (same_text ref k) [
          | yes here ↦
              let none_here : lookup k s'.entries ≡ none = rw (← here) gone in
              absurd (cc (none_here, h))
          | no other ↦ w.others k d other (less k d h)
        ],
      )
