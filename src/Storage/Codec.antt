-- ===== src/Storage/Codec.antt =====
-- server/asset_codec.py: assets as storage items, and back.
use stability_toys.Prelude.{
  ℕ, ◌≡◌, ◌≢◌, sym, ◌∙◌, String, [], ◌∷◌, Option, none, some, length, arith, ap,
}
use stability_toys.Prelude.Dict.{
  Dict, lookup, insert, erase, erase-insert_new, lookup-insert_self, lookup-insert_ne,
}
use stability_toys.Prelude.Effects.{Result, ok, raised}
use stability_toys.Assets.Model.{Bytes, MetaValue, text, num, AssetEntry, BucketPolicy}
use stability_toys.Storage.Memory.{StorageItem, new_item}

-- `ill_typed` stands for an entry whose bucket is no text or whose time of creation is no number, which
-- the source makes and the type of entries here has not.
pub data DecodeError : Type 0 where
  missing_bucket ill_typed : DecodeError

-- `EncodedAsset`
pub record EncodedAsset : Type 0 where
  pub key : String
  pub value : Bytes
  pub content_type : MetaValue
  pub meta : Dict MetaValue
  pub ttl_s : Option ℕ

-- `metadata.get("media_type", "application/octet-stream")`
abbrev pub media_type : Dict MetaValue → MetaValue
media_type metadata = elim (lookup "media_type" metadata) [
  | none ↦ text "application/octet-stream"
  | some v ↦ v
]

-- `encode`. Times are numbers of the clock's ticks, and a time to live is one of whole seconds already,
-- which `int` leaves alone.
unfoldable pub encode : AssetEntry → BucketPolicy → EncodedAsset
encode entry policy = record {
  key = entry.ref;
  value = entry.content;
  content_type = media_type entry.metadata;
  meta =
      insert "created_at" (num entry.created_at)
        (insert "bucket" (text entry.bucket) entry.metadata);
  ttl_s = policy.persistence_ttl_s;
}

-- `decode`, with the clock's reading.
unfoldable pub decode : ℕ → StorageItem → Result DecodeError AssetEntry
decode now item =
    let meta = erase "bucket" item.meta in
    let entry : String → ℕ → AssetEntry = λ bucket created_at. record {
      ref = item.key;
      content = item.value;
      bucket = bucket;
      created_at = created_at;
      last_accessed = now;
      byte_size = length item.value;
      metadata = erase "created_at" meta;
      pin_count = 0;
    } in
    elim (lookup "bucket" item.meta) [
      | none ↦ raised missing_bucket
      | some (num n) ↦ raised ill_typed
      | some (text bucket) ↦ elim (lookup "created_at" meta) [
        | none ↦ ok (entry bucket item.created_at)
        | some (text t) ↦ raised ill_typed
        | some (num created_at) ↦ ok (entry bucket created_at)
      ]
    ]

-- The item that a provider's `put` makes of an encoded asset.
abbrev pub stored : ℕ → EncodedAsset → StorageItem
stored now e = new_item now e.key e.value e.content_type e.meta e.ttl_s

erase-insert_ne :
    (k j : String) (v : MetaValue) (d : Dict MetaValue)
    → k ≢ j
    → erase k (insert j v d) ≡ insert j v (erase k d)
unfolding erase insert
erase-insert_ne k j v [] other = ground arith
erase-insert_ne k j v (e ∷ d) other = ground (arith, erase-insert_ne k j v d other)

abbrev bucket_key : String
bucket_key = "bucket"

reserved_differ : bucket_key ≢ "created_at"
reserved_differ = cc

module _ (entry : AssetEntry) (policy : BucketPolicy) where
  abbrev meta : Dict MetaValue
  meta = (encode entry policy).meta

  meta_bucket : lookup "bucket" meta ≡ some (text entry.bucket)
  unfolding encode
  meta_bucket =
      lookup-insert_ne "created_at" "bucket" (num entry.created_at)
        (insert "bucket" (text entry.bucket) entry.metadata) (λ e. reserved_differ (sym e))
      ∙ lookup-insert_self "bucket" (text entry.bucket) entry.metadata

  meta_rest :
      lookup "bucket" entry.metadata ≡ none
      → erase "bucket" meta ≡ insert "created_at" (num entry.created_at) entry.metadata
  unfolding encode
  meta_rest new =
      erase-insert_ne "bucket" "created_at" (num entry.created_at)
        (insert "bucket" (text entry.bucket) entry.metadata) reserved_differ
      ∙ ap (insert "created_at" (num entry.created_at))
          (erase-insert_new "bucket" (text entry.bucket) entry.metadata new)

-- An asset whose size is counted and whose metadata has none of the two reserved keys survives its
-- storage: decoding the item that its encoding became gives the entry back, unpinned and with the time
-- of the decoding as its last access.
pub decode-encode :
    (put_at now : ℕ) (entry : AssetEntry) (policy : BucketPolicy)
    → lookup "bucket" entry.metadata ≡ none
    → lookup "created_at" entry.metadata ≡ none
    → entry.byte_size ≡ length entry.content
    → decode now (stored put_at (encode entry policy))
      ≡ ok (record entry { last_accessed = now; pin_count = 0 })
unfolding decode encode
decode-encode put_at now entry policy no_bucket no_time sized =
    let bucket = meta_bucket entry policy in
    let rest = meta_rest entry policy no_bucket in
    let time = lookup-insert_self "created_at" (num entry.created_at) entry.metadata in
    let same = erase-insert_new "created_at" (num entry.created_at) entry.metadata no_time in
    ground (arith, bucket, rest, time, same)
