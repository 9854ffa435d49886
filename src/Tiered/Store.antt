-- ===== src/Tiered/Store.antt =====
-- server/tiered_asset_store.py: `TieredAssetStore`. `pin`, `unpin`, `cleanup_expired` and the accessors
-- are those of the store in memory.
use stability_toys.Prelude.{ℕ, String, Bool, true, false, Option, none, some, ◌&&◌}
use stability_toys.Prelude.Dict.{Dict}
use stability_toys.Prelude.Effects.{Result, ok, raised, Method, pure, raise, gets, ◌>>=◌, ◌>>◌}
use stability_toys.Assets.Model.{
  BucketPolicy, MetaValue, Bytes, AssetEntry, Store, key_error, value_error, StoreMethod,
}
use stability_toys.Assets.Model
use stability_toys.Assets.Store.{write, resolve, policy}
use stability_toys.Assets.Upkeep.{admit, discard, prepare_promotion}
use stability_toys.Storage.Memory.{StorageItem, Provider, put, get}
use stability_toys.Storage.Memory
use stability_toys.Storage.Codec.{EncodedAsset, DecodeError, encode, decode, stored}

-- What a storage provider does when it is called: `P` is its state and `X` what it raises. `get`
-- answers with an item, or with None.
pub record Backend (P X : Type 0) : Type 0 where
  pub store : EncodedAsset → P → Result X (Unit {0}) × P
  pub fetch : String → P → Result X (Option StorageItem) × P

pub record TieredStore (P : Type 0) : Type 0 where
  pub memory : Store
  pub provider : Option P

pub data TieredError (X : Type 0) : Type 0 where
  memory_error : Model.Error → TieredError X
  provider_fault : X → TieredError X
  bad_item : DecodeError → TieredError X

abbrev pub TieredMethod : Type 0 → Type 0 → Type 0 → Type 0
TieredMethod P X A = Method (TieredStore P) (TieredError X) A

abbrev pub from_memory : {X A : Type 0} → Result Model.Error A → Result (TieredError X) A
from_memory (ok a) = ok a
from_memory (raised e) = raised (memory_error e)

abbrev pub has_provider : {P : Type 0} → TieredStore P → Bool
has_provider t = elim t.provider [ none ↦ false | some _ ↦ true ]

module _ {P X : Type 0} where
  -- A call of the store in memory.
  abbrev pub in_memory : {A : Type 0} → StoreMethod A → TieredMethod P X A
  in_memory m t = let (r, s) = m t.memory in (from_memory r, record t { memory = s })

  -- The `try` of `write`: when the provider raises, the new entry is discarded.
  unfoldable pub persist : Backend P X → EncodedAsset → String → TieredMethod P X String
  persist b e ref t = elim t.provider [
    | none ↦ pure ref t
    | some p ↦
        let (r, p') = b.store e p in
        elim r [
          | ok _ ↦ pure ref (record t { provider = some p' })
          | raised x ↦
              (in_memory (discard ref) >> raise (provider_fault x))
                (record t { provider = some p' })
        ]
  ]

module _ {P X : Type 0} (b : Backend P X) where
  -- `write`: `ref` is the fresh name, `now` and `later` are the readings of the clock by the two calls
  -- of the store in memory.
  unfoldable pub write_through :
      ℕ → ℕ → String → String → Bytes → Dict MetaValue → TieredMethod P X String
  write_through now later ref bucket content metadata = do
    in_memory (write now ref bucket content metadata)
    p ← in_memory (policy bucket)
    known ← gets has_provider
    elim (p.persist && known) [
      | false ↦ pure ref
      | true ↦ do entry ← in_memory (resolve later ref); persist b (encode entry p) ref
    ]

  -- The end of `resolve`: a `ValueError` of `admit` is passed over.
  abbrev pub readmitted :
      AssetEntry → Result Model.Error (Unit {0}) → Result (TieredError X) AssetEntry
  readmitted entry (ok _) = ok entry
  readmitted entry (raised (value_error r)) = ok entry
  readmitted entry (raised e) = raised (memory_error e)

  -- `resolve` on a miss in memory; `now` is the clock's reading by the decoder.
  unfoldable pub rehydrate : ℕ → String → TieredMethod P X AssetEntry
  rehydrate now ref t = elim t.provider [
    | none ↦ raise (memory_error key_error) t
    | some p ↦
        let (r, p') = b.fetch ref p in
        let t' = record t { provider = some p' } in
        elim r [
          | raised x ↦ raise (provider_fault x) t'
          | ok none ↦ raise (memory_error key_error) t'
          | ok (some item) ↦ elim (decode now item) [
            | raised d ↦ raise (bad_item d) t'
            | ok entry ↦
                let (a, s) = admit entry t.memory in (readmitted entry a, record t' { memory = s })
          ]
        ]
  ]

  -- `resolve`: `now` is the clock's reading on a hit, `later` that on a miss.
  unfoldable pub resolve_through : ℕ → ℕ → String → TieredMethod P X AssetEntry
  resolve_through now later ref t =
      let (r, s) = resolve now ref t.memory in
      elim r [
        | ok e ↦ (ok e, record t { memory = s })
        | raised key_error ↦ rehydrate later ref (record t { memory = s })
        | raised e ↦ (raised (memory_error e), record t { memory = s })
      ]

  -- `promote`
  unfoldable pub promote_through :
      (Bytes → Option (Dict MetaValue))
      → ℕ
      → ℕ
      → ℕ
      → String
      → String
      → String
      → TieredMethod P X String
  promote_through describe now later last fresh ref target_bucket = do
    in_memory (policy target_bucket)
    entry ← resolve_through now later ref
    merged ← in_memory (prepare_promotion describe entry.content entry.metadata ref)
    write_through later last fresh target_bucket entry.content merged

-- The provider in memory, called at two readings of the clock.
abbrev pub stored_result :
    Result Memory.Error StorageItem × Provider → Result Memory.Error (Unit {0}) × Provider
stored_result (ok _, p) = (ok tt, p)
stored_result (raised e, p) = (raised e, p)

abbrev pub memory_backend : ℕ → ℕ → Backend Provider Memory.Error
memory_backend first second = record {
  store = λ e p. stored_result (put first (stored second e) p);
  fetch = λ ref p. let (found, p') = get first second ref p in (ok found, p');
}
