-- ===== src/Assets/Store.antt =====
-- server/asset_store.py: the methods of `InMemoryAssetStore`.
use stability_toys.Prelude.{
  ℕ, zero, suc, ◌+◌, ◌-◌, String, true, false, [], ◌∷◌, not, ltb, leb, ◌==◌, map, length,
}
use stability_toys.Prelude.Dict.{Dict, lookup, insert, erase, values, sum_by}
use stability_toys.Prelude.Effects.{pure, raise, gets, modify, or_raise, raise_if, ◌>>=◌, ◌>>◌}
use stability_toys.Assets.Model.{
  BucketPolicy, MetaValue, Bytes, AssetEntry, Store, unknown_bucket, over_budget, no_capacity,
  not_pinnable, not_pinned, empty_min, key_error, value_error, loop_limit, StoreMethod, pinned_in,
  is_candidate, size_if, oldest_from, select,
}

-- `InMemoryAssetStore.__init__`
unfoldable pub init : Dict BucketPolicy → Store
init buckets = record {
  policies = buckets;
  entries = [];
  bucket_bytes = map (λ e. (e.0, 0)) buckets;
}

-- `_policy`
unfoldable pub policy : String → StoreMethod BucketPolicy
policy bucket = do or_raise (← gets (λ s. lookup bucket s.policies)) (value_error unknown_bucket)

-- `_require`
unfoldable pub require : String → StoreMethod AssetEntry
require ref = do or_raise (← gets (λ s. lookup ref s.entries)) key_error

-- `self._policies[bucket]`, where a missing key is a KeyError.
unfoldable pub policy_at : String → StoreMethod BucketPolicy
policy_at bucket = do or_raise (← gets (λ s. lookup bucket s.policies)) key_error

-- `self._bucket_bytes[bucket]`
unfoldable pub bytes_at : String → StoreMethod ℕ
bytes_at bucket = do or_raise (← gets (λ s. lookup bucket s.bucket_bytes)) key_error

abbrev pub set_bytes : String → ℕ → Store → Store
set_bytes bucket n s = record s { bucket_bytes = insert bucket n s.bucket_bytes }

abbrev pub set_entry : String → AssetEntry → Store → Store
set_entry ref e s = record s { entries = insert ref e s.entries }

-- `_remove`
unfoldable pub remove : String → StoreMethod (Unit {0})
unfolding require bytes_at
remove ref = do
  entry ← require ref
  modify (λ s. record s { entries = erase ref s.entries })
  n ← bytes_at entry.bucket
  modify (set_bytes entry.bucket (n - entry.byte_size))

-- The `while` loop of `_evict_to_budget`.
unfoldable pub evict_loop : ℕ → String → String → ℕ → StoreMethod (Unit {0})
unfolding bytes_at
evict_loop zero bucket protect budget = raise loop_limit
evict_loop (suc fuel) bucket protect budget = do
  n ← bytes_at bucket
  candidates ← gets (λ s. select (is_candidate bucket protect) (values s.entries))
  elim (leb n budget) [
    | true ↦ pure tt
    | false ↦ elim candidates [
      | [] ↦ raise (value_error empty_min)
      | e ∷ es ↦ remove (oldest_from e es).ref >> evict_loop fuel bucket protect budget
    ]
  ]

-- `_evict_to_budget`. Each round removes an entry, so a fuel of one more than the number of
-- entries is enough.
unfoldable pub evict_to_budget : String → String → StoreMethod (Unit {0})
unfolding policy_at bytes_at require
evict_to_budget bucket protect = do
  p ← policy_at bucket
  n ← bytes_at bucket
  elim (leb n p.byte_budget) [
    | true ↦ pure tt
    | false ↦ do
      new ← require protect
      pinned ← gets (λ s. sum_by (size_if (pinned_in bucket)) s.entries)
      rounds ← gets (λ s. suc (length s.entries))
      elim (ltb p.byte_budget (pinned + new.byte_size)) [
        | true ↦ remove protect >> raise (value_error no_capacity)
        | false ↦ evict_loop rounds bucket protect p.byte_budget
      ]
  ]

-- The locked block that `write` and `admit` share: the entry goes in, its bytes are counted, and
-- the bucket is brought back to its budget.
unfoldable pub place : AssetEntry → StoreMethod (Unit {0})
unfolding bytes_at
place e = do
  modify (set_entry e.ref e)
  n ← bytes_at e.bucket
  modify (set_bytes e.bucket (n + e.byte_size))
  evict_to_budget e.bucket e.ref

-- `write`: `now` is the clock's reading, `ref` the fresh name.
unfoldable pub write : ℕ → String → String → Bytes → Dict MetaValue → StoreMethod String
unfolding policy
write now ref bucket content metadata = do
  p ← policy bucket
  raise_if (ltb p.byte_budget (length content)) (value_error over_budget)
  place (record {
    ref = ref;
    content = content;
    bucket = bucket;
    created_at = now;
    last_accessed = now;
    byte_size = length content;
    metadata = metadata;
    pin_count = 0;
  })
  pure ref

-- `resolve`: the copy that it returns is the entry's value.
unfoldable pub resolve : ℕ → String → StoreMethod AssetEntry
unfolding require
resolve now ref = do
  entry ← require ref
  modify (set_entry ref (record entry { last_accessed = now }))
  pure (record entry { last_accessed = now })

-- `pin`
unfoldable pub pin : String → StoreMethod (Unit {0})
unfolding require policy_at
pin ref = do
  entry ← require ref
  p ← policy_at entry.bucket
  raise_if (not p.pinnable) (value_error not_pinnable)
  modify (set_entry ref (record entry { pin_count = entry.pin_count + 1 }))

-- `unpin`
unfoldable pub unpin : String → StoreMethod (Unit {0})
unfolding require policy_at
unpin ref = do
  entry ← require ref
  p ← policy_at entry.bucket
  raise_if (not p.pinnable) (value_error not_pinnable)
  raise_if (entry.pin_count == 0) (value_error not_pinned)
  modify (set_entry ref (record entry { pin_count = entry.pin_count - 1 }))
