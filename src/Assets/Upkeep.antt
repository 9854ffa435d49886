-- ===== src/Assets/Upkeep.antt =====
-- server/asset_store.py: promotion, clean-up and the accessors of `InMemoryAssetStore`.
use stability_toys.Prelude.{
  ℕ, ◌-◌, String, Bool, false, List, [], ◌∷◌, Option, none, some, ltb, if◌then◌else◌,
}
use stability_toys.Prelude.Dict.{Dict, insert, contains, keys, sum_by}
use stability_toys.Prelude.Effects.{pure, gets, or_raise, raise_if, ◌>>=◌, ◌>>◌}
use stability_toys.Assets.Model.{
  MetaValue, text, Bytes, AssetEntry, over_budget, not_image, value_error, StoreMethod,
}
use stability_toys.Assets.Store.{policy, policy_at, bytes_at, require, remove, place, write}

-- `admit`
unfoldable pub admit : AssetEntry → StoreMethod (Unit {0})
unfolding policy
admit e = do
  p ← policy e.bucket
  raise_if (ltb p.byte_budget e.byte_size) (value_error over_budget)
  place e

-- `discard`
unfoldable pub discard : String → StoreMethod (Unit {0})
discard ref = do known ← gets (λ s. contains ref s.entries); if known then remove ref else pure tt

abbrev pub past_ttl : ℕ → ℕ → AssetEntry → Bool
past_ttl now ttl e = ltb ttl (now - e.created_at)

-- Whether the loop of `cleanup_expired` appends the entry. A clock that was set back gives a
-- negative age in Python and zero here; neither exceeds a TTL.
abbrev pub is_expired : ℕ → Option ℕ → AssetEntry → Bool
is_expired now none e = false
is_expired now (some ttl) e = if ltb 0 e.pin_count then false else past_ttl now ttl e

-- The first loop of `cleanup_expired`, over `_entries.items()`.
unfoldable pub expired_refs : ℕ → List (String × AssetEntry) → StoreMethod (List String)
unfolding policy_at
expired_refs now [] = pure []
expired_refs now ((ref, e) ∷ items) = do
  p ← policy_at e.bucket
  rest ← expired_refs now items
  pure (if is_expired now p.ttl_s e then ref ∷ rest else rest)

-- Its second loop.
unfoldable pub remove_all : List String → StoreMethod (Unit {0})
remove_all [] = pure tt
remove_all (ref ∷ refs) = do remove ref; remove_all refs

-- `cleanup_expired`
unfoldable pub cleanup_expired : ℕ → StoreMethod (List String)
cleanup_expired now = do
  items ← gets (λ s. s.entries)
  expired ← expired_refs now items
  remove_all expired
  pure expired

-- `{**a, **b}`
unfoldable pub merge {ℓ} : {V : Type ℓ} → Dict V → Dict V → Dict V
merge a [] = a
merge a ((k, v) ∷ b) = merge (insert k v a) b

-- `image_metadata` reads the image with PIL: `describe` is its result, `none` its ValueError.
module _ (describe : Bytes → Option (Dict MetaValue)) where
  -- `prepare_promotion`
  unfoldable pub prepare_promotion : Bytes → Dict MetaValue → String → StoreMethod (Dict MetaValue)
  prepare_promotion content source_metadata source_ref = do
    meta ← or_raise (describe content) (value_error not_image)
    pure (
        merge
          (insert "source_asset_ref" (text source_ref)
            (insert "origin" (text "promoted") source_metadata))
          meta)

  -- `promote`: `now` and `fresh` are what the call of `write` reads. The lock is given up between the
  -- reading of the source and that call, which asks nothing of the source any more: other calls in
  -- between are those before a `write` of the same content.
  unfoldable pub promote : ℕ → String → String → String → StoreMethod String
  unfolding policy require
  promote now fresh ref target_bucket = do
    policy target_bucket
    source ← require ref
    merged ← prepare_promotion source.content source.metadata ref
    write now fresh target_bucket source.content merged

-- `bucket_bytes`
unfoldable pub bucket_total : String → StoreMethod ℕ
unfolding policy bytes_at
bucket_total bucket = do policy bucket; bytes_at bucket

-- `total_bytes`
unfoldable pub total_bytes : StoreMethod ℕ
total_bytes = gets (λ s. sum_by (λ n. n) s.bucket_bytes)

-- `buckets`
unfoldable pub buckets : StoreMethod (List String)
buckets = gets (λ s. keys s.policies)
