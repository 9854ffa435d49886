-- ===== src/Tiered/Durable.antt =====
-- server/tiered_asset_store.py: what was written to a persisted bucket outlives the store in memory.
use stability_toys.Prelude.{
  ℕ, ◌+◌, ◌≤◌, ◌<◌, ◌≡◌, refl, sym, ◌∙◌, String, Bool, true, false, Option, none, some, arith,
  length, if◌then◌else◌, inl, inr, subst, ap,
}
use stability_toys.Prelude.Dict.{Dict, lookup, insert, lookup-insert_self}
use stability_toys.Prelude.Effects.{Result, ok, raised}
use stability_toys.Assets.Model.{BucketPolicy, MetaValue, Bytes, AssetEntry, Store, key_error}
use stability_toys.Assets.Store.{resolve}
use stability_toys.Assets.Eviction.{pinned_size}
use stability_toys.Assets.Placement.{IsValid}
use stability_toys.Storage.Memory.{StorageItem, Provider, is_expired, put, get}
use stability_toys.Storage.Memory
use stability_toys.Storage.Limits.{IsWithin, put_lem}
use stability_toys.Storage.Expiry.{unexpired, get_lem}
use stability_toys.Storage.Codec.{encode, decode, stored, decode-encode}
use stability_toys.Tiered.Store.{
  Backend, TieredStore, TieredError, memory_error, rehydrate, resolve_through, write_through,
  memory_backend, stored_result,
}
use stability_toys.Tiered.Admit.{admit_cases}
use stability_toys.Tiered.Written.{persisted_entry, write_through_starts}
use stability_toys.Tiered.Rollback.{persist_taken}

module _ {P X : Type 0} (b : Backend P X) (now later : ℕ) (ref : String) (s : Store) (pr pr' : P)
    (gone : lookup ref s.entries ≡ none) where
  misses :
      resolve_through b now later ref (record { memory = s; provider = some pr })
      ≡ rehydrate b later ref (record { memory = s; provider = some pr })
  unfolding resolve_through resolve
  misses = ground arith

  absent :
      b.fetch ref pr ≡ (ok none, pr')
      → (rehydrate b later ref (record { memory = s; provider = some pr })).0
        ≡ raised (memory_error key_error)
  unfolding rehydrate
  absent h = ground arith

  -- An item that the provider has is returned, whether the store in memory takes it back or not.
  returned :
      (item : StorageItem) (e : AssetEntry)
      → IsValid s
      → b.fetch ref pr ≡ (ok (some item), pr')
      → decode later item ≡ ok e
      → e.ref ≡ ref
      → e.byte_size ≡ length e.content
      → e.pin_count ≡ 0
      → (rehydrate b later ref (record { memory = s; provider = some pr })).0 ≡ ok e
  unfolding rehydrate
  returned item e v h decodes named sized unpinned =
      let new : lookup e.ref s.entries ≡ none = rw named gone in
      elim (admit_cases s e v new sized unpinned) [
        | inl (s', runs, _) ↦ ground (arith, runs)
        | inr (r, runs) ↦ ground (arith, runs)
      ]

-- A miss in the store in memory, over a provider in memory.
answers :
    (third fourth hit miss : ℕ) (ref : String) (m : Store) (pr : Provider)
    → lookup ref m.entries ≡ none
    → IsValid m
    → (late : Bool) (item : StorageItem) (e : AssetEntry)
    → (get third fourth ref pr).0 ≡ (if late then none else some item)
    → decode miss item ≡ ok e
    → e.ref ≡ ref
    → e.byte_size ≡ length e.content
    → e.pin_count ≡ 0
    → (resolve_through
        (memory_backend third fourth)
        hit
        miss
        ref
        (record { memory = m; provider = some pr })).0
      ≡ (if late then raised (memory_error key_error) else ok e)
answers third fourth hit miss ref m pr gone v late item e got decodes named sized unpinned =
    let b = memory_backend third fourth in
    let pr' = (get third fourth ref pr).1 in
    let fetched : b.fetch ref pr ≡ (ok (if late then none else some item), pr') =
      ap (λ (f : Option StorageItem). (ok f, pr')) got in
    ap (λ (r : Result (TieredError Memory.Error) AssetEntry × TieredStore Provider). r.0)
      (misses b hit miss ref m pr pr' gone)
    ∙ go late fetched
  where
    go :
        (late : Bool)
        → (memory_backend third fourth).fetch ref pr
          ≡ (ok (if late then none else some item), (get third fourth ref pr).1)
        → (rehydrate
            (memory_backend third fourth)
            miss
            ref
            (record { memory = m; provider = some pr })).0
          ≡ (if late then raised (memory_error key_error) else ok e)
    go true h = absent (memory_backend third fourth) hit miss ref m pr _ gone h
    go false h =
        returned (memory_backend third fourth) hit miss ref m pr _ gone item e v h decodes named
          sized unpinned

module _ (now later : ℕ) (ref bucket : String) (content : Bytes) (metadata : Dict MetaValue)
    (s : Store) (pr : Provider) (p : BucketPolicy) where
  abbrev pub item_of : ℕ → StorageItem
  item_of second = stored second (encode (persisted_entry now later ref bucket content metadata) p)

  -- The provider after a write: within its limit, with the item of the write.
  pub record HoldsItem (second : ℕ) (q : Provider) : Type 0 where
    pub within : IsWithin q
    pub there : lookup ref q.items ≡ some (item_of second)

  -- What `resolve` answers over any provider that holds the item, from a memory without the entry.
  abbrev pub Resolves : ℕ → Type 0
  Resolves second =
      (m : Store) (q : Provider) (third fourth hit miss : ℕ)
      → IsValid m
      → lookup ref m.entries ≡ none
      → HoldsItem second q
      → third ≤ fourth
      → (resolve_through (memory_backend third fourth) hit miss ref
          (record { memory = m; provider = some q })).0
        ≡ (if is_expired fourth (item_of second)
            then raised (memory_error key_error)
            else ok (persisted_entry now miss ref bucket content metadata))

  held-Resolves :
      (second : ℕ)
      → lookup "bucket" metadata ≡ none
      → lookup "created_at" metadata ≡ none
      → Resolves second
  unfolding encode
  held-Resolves second no_bucket no_time m q third fourth hit miss mv gone holds le =
      let e = persisted_entry now later ref bucket content metadata in
      let item = item_of second in
      let got = get_lem third fourth ref q holds.within.distinct le in
      answers third fourth hit miss ref m q gone mv (is_expired fourth item) item
        (persisted_entry now miss ref bucket content metadata)
        (got ∙ ap (unexpired fourth) holds.there)
        (decode-encode second miss e p no_bucket no_time refl) refl refl refl

  -- A write into a persisted bucket over a provider in memory, whose own limit is above 0, of an entry
  -- whose metadata has neither of the keys `bucket` and `created_at`, succeeds where the store has room,
  -- and the provider holds its item. Whatever the store in memory and the provider have become since, if
  -- the store is valid, the entry is not in it, and the provider is within its limit and still holds
  -- the item, `resolve` gives back the content, the bucket, the time of creation and the metadata that
  -- were written, until the item expires; from then on it raises a KeyError.
  pub resolve-write :
      (first second : ℕ)
      → IsValid s
      → IsWithin pr
      → 0 < pr.max_items
      → lookup ref s.entries ≡ none
      → lookup bucket s.policies ≡ some p
      → pinned_size bucket s.entries + length content ≤ p.byte_budget
      → p.persist ≡ true
      → lookup "bucket" metadata ≡ none
      → lookup "created_at" metadata ≡ none
      → let (r, t) =
          write_through
            (memory_backend first second)
            now
            later
            ref
            bucket
            content
            metadata
            (record { memory = s; provider = some pr }) in
        (r ≡ ok ref)
        × ((q : Provider) × (t.provider ≡ some q) × HoldsItem second q)
        × Resolves second
  unfolding encode
  resolve-write first second v within some_room fresh known fits persists no_bucket no_time =
      let e = persisted_entry now later ref bucket content metadata in
      let b = memory_backend first second in
      let (s2, w, runs) =
        write_through_starts now later ref bucket content metadata s p v fresh known fits b pr
          persists in
      let item = item_of second in
      let (d, _, puts, within') = put_lem first item pr within some_room in
      let pr' : Provider = record pr { items = insert item.key item d } in
      let written = runs ∙ persist_taken b (encode e p) ref s2 pr pr' (ap stored_result puts) in
      subst
        (λ (r : Result (TieredError Memory.Error) String × TieredStore Provider).
          (r.0 ≡ ok ref)
          × ((q : Provider) × (r.1.provider ≡ some q) × HoldsItem second q)
          × Resolves second)
        (sym written)
        (
          refl,
          (pr', refl, record { within = within'; there = lookup-insert_self item.key item d }),
          held-Resolves second no_bucket no_time,
        )
