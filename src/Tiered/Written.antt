-- ===== src/Tiered/Written.antt =====
-- server/tiered_asset_store.py: `write` up to the call of the storage provider.
use stability_toys.Prelude.{
  ℕ, ◌+◌, ◌≤◌, ◌≡◌, ◌≢◌, refl, sym, ◌∙◌, String, true, none, some, arith, length, ap,
}
use stability_toys.Prelude.Dict.{Dict, lookup, insert, lookup-insert_self, lookup-insert_ne}
use stability_toys.Prelude.Effects.{ok}
use stability_toys.Assets.Model.{BucketPolicy, MetaValue, Bytes, AssetEntry, Store}
use stability_toys.Assets.Store.{resolve, policy}
use stability_toys.Assets.Eviction.{pinned_size, Evicted}
use stability_toys.Assets.Placement.{IsValid, added}
use stability_toys.Assets.Methods.{new_entry, write_fits, update-IsValid}
use stability_toys.Storage.Codec.{encode}
use stability_toys.Tiered.Store.{Backend, persist, write_through}

-- The store in memory once the entry is written: it holds the entry, and of the others no more than before.
pub record Written (ref : String) (e : AssetEntry) (s s' : Store) : Type 0 where
  pub valid : IsValid s'
  pub stored : lookup ref s'.entries ≡ some e
  pub policies : s'.policies ≡ s.policies
  pub others :
      (k : String) (d : AssetEntry)
      → ref ≢ k
      → lookup k s'.entries ≡ some d
      → lookup k s.entries ≡ some d

policy_runs :
    (bucket : String) (s : Store) (p : BucketPolicy)
    → lookup bucket s.policies ≡ some p
    → policy bucket s ≡ (ok p, s)
unfolding policy
policy_runs bucket s p h = ground arith

resolve_runs :
    (now : ℕ) (ref : String) (s : Store) (e : AssetEntry)
    → lookup ref s.entries ≡ some e
    → resolve now ref s ≡ (
      ok (record e { last_accessed = now }),
      record s { entries = insert ref (record e { last_accessed = now }) s.entries },
    )
unfolding resolve
resolve_runs now ref s e h = ground arith

-- The entry that is persisted.
abbrev pub persisted_entry : ℕ → ℕ → String → String → Bytes → Dict MetaValue → AssetEntry
persisted_entry now later ref bucket content metadata =
    record (new_entry now ref bucket content metadata) { last_accessed = later }

module _ (now later : ℕ) (ref bucket : String) (content : Bytes) (metadata : Dict MetaValue)
    (s : Store) (p : BucketPolicy) (v : IsValid s) (fresh : lookup ref s.entries ≡ none)
    (known : lookup bucket s.policies ≡ some p)
    (fits : pinned_size bucket s.entries + length content ≤ p.byte_budget) where
  abbrev entry : AssetEntry
  entry = persisted_entry now later ref bucket content metadata

  touched-Written :
      (s1 : Store)
      → IsValid s1
      → lookup ref s1.entries ≡ some (new_entry now ref bucket content metadata)
      → Evicted bucket ref (added (new_entry now ref bucket content metadata) s) s1
      → Written ref entry s (record s1 { entries = insert ref entry s1.entries })
  touched-Written s1 v1 there after = record {
    valid =
        update-IsValid s1 v1 ref (new_entry now ref bucket content metadata) entry there refl refl
          refl refl;
    stored = lookup-insert_self ref entry s1.entries;
    policies = after.policies;
    others = λ k d other h.
        let old = after.subset k d (sym (lookup-insert_ne ref k entry s1.entries other) ∙ h) in
        sym (lookup-insert_ne ref k (new_entry now ref bucket content metadata) s.entries other)
        ∙ old;
  }

  module _ {P X : Type 0} (b : Backend P X) (pr : P) (persists : p.persist ≡ true) where
    -- The steps of `write` before the provider is called.
    pub write_through_starts :
        (s2 : Store) × Written ref (persisted_entry now later ref bucket content metadata) s s2
        × (write_through b now later ref bucket content metadata
              (record { memory = s; provider = some pr })
            ≡ persist b
                (encode (persisted_entry now later ref bucket content metadata) p)
                ref
                (record { memory = s2; provider = some pr }))
    unfolding write_through
    write_through_starts =
        let (s1, runs, v1, there, after) =
          write_fits now ref bucket content metadata s v fresh p known fits in
        let told = policy_runs bucket s1 p (ap (lookup bucket) after.policies ∙ known) in
        let found = resolve_runs later ref s1 (new_entry now ref bucket content metadata) there in
        let s2 = record s1 { entries = insert ref entry s1.entries } in
        (s2, touched-Written s1 v1 there after, ground (arith, runs, told, found))
