-- ===== src/Assets/Model.antt =====
-- server/asset_store.py: policies, entries and the store. Times are numbers of clock ticks, and
-- `time.time()` and `uuid.uuid4().hex` are arguments of the calls that read them.
use stability_toys.Prelude.{
  ℕ, String, Bool, true, false, List, [], ◌∷◌, Option, ◌&&◌, not, ite, same_text, ltb, ◌==◌,
  if◌then◌else◌,
}
use stability_toys.Prelude.Dict.{Dict}
use stability_toys.Prelude.Effects.{Method}

pub record BucketPolicy : Type 0 where
  pub name : String
  pub byte_budget : ℕ
  pub ttl_s : Option ℕ
  pub pinnable : Bool
  pub persist : Bool
  pub persistence_ttl_s : Option ℕ

-- A metadata value, as far as the store and its codec look at one.
pub data MetaValue : Type 0 where
  text : String → MetaValue
  num : ℕ → MetaValue

abbrev pub Bytes : Type 0
Bytes = List ℕ

pub record AssetEntry : Type 0 where
  pub ref : String
  pub content : Bytes
  pub bucket : String
  pub created_at : ℕ
  pub last_accessed : ℕ
  pub byte_size : ℕ
  pub metadata : Dict MetaValue
  pub pin_count : ℕ

-- `_policies`, `_entries` and `_bucket_bytes`. The last are Python's unbounded integers.
pub record Store : Type 0 where
  pub policies : Dict BucketPolicy
  pub entries : Dict AssetEntry
  pub bucket_bytes : Dict ℕ

-- The messages of the `ValueError`s.
pub data Reason : Type 0 where
  unknown_bucket over_budget no_capacity not_pinnable not_pinned not_image no_bucket empty_min :
      Reason

-- `loop_limit` stands for a loop that the fuel did not finish.
pub data Error : Type 0 where
  key_error : Error
  value_error : Reason → Error
  loop_limit : Error

abbrev pub StoreMethod : Type 0 → Type 0
StoreMethod A = Method Store Error A

abbrev pub text_eq : String → String → Bool
text_eq s t = ite (same_text s t) true false

-- The tests of the generator expressions in `_evict_to_budget`.
abbrev pub in_bucket : String → AssetEntry → Bool
in_bucket bucket e = text_eq e.bucket bucket

abbrev pub pinned_in : String → AssetEntry → Bool
pinned_in bucket e = in_bucket bucket e && ltb 0 e.pin_count

abbrev pub is_candidate : String → String → AssetEntry → Bool
is_candidate bucket protect e =
    in_bucket bucket e && (e.pin_count == 0) && not (text_eq e.ref protect)

-- `e.byte_size` if the test holds, else nothing: what a filtered sum adds for `e`.
abbrev pub size_if : (AssetEntry → Bool) → AssetEntry → ℕ
size_if test e = if test e then e.byte_size else 0

-- `min(candidates, key=lambda e: e.last_accessed)`: the first of the smallest.
unfoldable pub older : AssetEntry → AssetEntry → AssetEntry
older best e = if ltb e.last_accessed best.last_accessed then e else best

unfoldable pub oldest_from : AssetEntry → List AssetEntry → AssetEntry
oldest_from best [] = best
oldest_from best (e ∷ es) = oldest_from (older best e) es

-- `[x for x in xs if test(x)]`
unfoldable pub select {ℓ} : {A : Type ℓ} → (A → Bool) → List A → List A
select test [] = []
select test (x ∷ xs) = if test x then x ∷ select test xs else select test xs
