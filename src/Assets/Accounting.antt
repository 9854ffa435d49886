-- ===== src/Assets/Accounting.antt =====
-- The accounts of the asset store: what `bucket_bytes` counts, and how removal moves it.
use stability_toys.Prelude.{ℕ, ◌+◌, ◌-◌, ◌≤◌, ◌≡◌, String, some, arith, length}
use stability_toys.Prelude.Dict.{
  Dict, lookup, insert, erase, IsDict, sum_by, sum_by-erase, lookup-insert, lookup-of-erase,
  erase-IsDict,
}
use stability_toys.Prelude.Effects.{ok}
use stability_toys.Assets.Model.{BucketPolicy, AssetEntry, Store, in_bucket, size_if}
use stability_toys.Assets.Store.{remove}

-- The bytes of a bucket's entries.
abbrev pub bucket_size : String → Dict AssetEntry → ℕ
bucket_size bucket = sum_by (size_if (in_bucket bucket))

-- What an entry says of itself fits its place.
pub record IsNamed (policies : Dict BucketPolicy) (k : String) (e : AssetEntry) : Type 0 where
  pub under_ref : e.ref ≡ k
  pub sized : e.byte_size ≡ length e.content
  pub policy : BucketPolicy
  pub in_known_bucket : lookup e.bucket policies ≡ some policy

-- The counters are exact.
pub record IsExact (s : Store) : Type 0 where
  pub distinct : IsDict s.entries
  pub named : (k : String) (e : AssetEntry) → lookup k s.entries ≡ some e → IsNamed s.policies k e
  pub counted :
      (b : String) (p : BucketPolicy)
      → lookup b s.policies ≡ some p
      → lookup b s.bucket_bytes ≡ some (bucket_size b s.entries)

-- The store after `_remove` of an entry that is there.
abbrev pub removed : String → AssetEntry → Store → Store
removed ref e s = record s {
  entries = erase ref s.entries;
  bucket_bytes = insert e.bucket (bucket_size e.bucket s.entries - e.byte_size) s.bucket_bytes;
}

module _ (s : Store) (x : IsExact s) (ref : String) (e : AssetEntry)
    (found : lookup ref s.entries ≡ some e) where
  bucket_size-erase :
      (b : String)
      → bucket_size b s.entries ≡ size_if (in_bucket b) e + bucket_size b (erase ref s.entries)
  bucket_size-erase b = sum_by-erase (size_if (in_bucket b)) ref e s.entries found

  -- The counter never goes below zero.
  pub size-le-bucket_size : e.byte_size ≤ bucket_size e.bucket s.entries
  size-le-bucket_size = ground (arith, bucket_size-erase e.bucket)

  pub remove-removed : remove ref s ≡ (ok tt, removed ref e s)
  unfolding remove
  remove-removed =
      let n = x.named ref e found in ground (arith, x.counted e.bucket n.policy n.in_known_bucket)

  removed-counted :
      (b : String) (p : BucketPolicy)
      → lookup b s.policies ≡ some p
      → lookup b (removed ref e s).bucket_bytes ≡ some (bucket_size b (erase ref s.entries))
  removed-counted b p h = ground (
    arith,
    x.counted b p h,
    bucket_size-erase b,
    lookup-insert e.bucket b (bucket_size e.bucket s.entries - e.byte_size) s.bucket_bytes,
  )

  pub removed-IsExact : IsExact (removed ref e s)
  removed-IsExact = record {
    distinct = erase-IsDict ref s.entries x.distinct;
    named = λ k d h. x.named k d (lookup-of-erase ref k s.entries x.distinct h).0;
    counted = removed-counted;
  }
