-- ===== src/Storage/Memory.antt =====
-- persistence/storage_provider.py: `InMemoryStorageProvider`. Each method that reads the clock twice
-- takes both readings.
use stability_toys.Prelude.{
  ℕ, ◌+◌, String, Bool, false, List, [], ◌∷◌, Option, none, some, ltb, leb, length, if◌then◌else◌,
}
use stability_toys.Prelude.Dict.{Dict, lookup, insert, erase, contains}
use stability_toys.Assets.Model.{Bytes, MetaValue}
use stability_toys.Prelude.Effects.{Result, ok, raised}

-- `StorageItem`
pub record StorageItem : Type 0 where
  pub key : String
  pub value : Bytes
  pub content_type : MetaValue
  pub meta : Dict MetaValue
  pub created_at : ℕ
  pub expires_at : Option ℕ

-- `InMemoryStorageProvider`
pub record Provider : Type 0 where
  pub max_items : ℕ
  pub items : Dict StorageItem

-- The ValueError of `min` on no items.
pub data Error : Type 0 where
  empty_min : Error

unfoldable pub init : ℕ → Provider
init max_items = record { max_items = max_items; items = [] }

-- `it.expires_at is not None and it.expires_at <= now`
abbrev pub is_expired : ℕ → StorageItem → Bool
is_expired now it = elim it.expires_at [ none ↦ false | some t ↦ leb t now ]

unfoldable pub expired_keys : ℕ → Dict StorageItem → List String
expired_keys now [] = []
expired_keys now ((k, it) ∷ d) =
    let rest = expired_keys now d in if is_expired now it then k ∷ rest else rest

unfoldable pub pop_all : List String → Dict StorageItem → Dict StorageItem
pop_all [] d = d
pop_all (k ∷ ks) d = pop_all ks (erase k d)

-- `_purge_expired_locked`
unfoldable pub purge_expired : ℕ → Dict StorageItem → Dict StorageItem
purge_expired now d = pop_all (expired_keys now d) d

-- `min(items, key=created_at)`, from a first one on: the earlier of two equal ones stays.
abbrev pub earlier : String × StorageItem → String × StorageItem → String × StorageItem
earlier e f = if ltb f.1.created_at e.1.created_at then f else e

unfoldable pub oldest : String × StorageItem → Dict StorageItem → String × StorageItem
oldest e [] = e
oldest e (f ∷ d) = oldest (earlier e f) d

-- The back-pressure of `put`.
unfoldable pub make_room : ℕ → Dict StorageItem → Result Error (Dict StorageItem)
make_room max_items [] = if leb max_items 0 then raised empty_min else ok []
make_room max_items (e ∷ d) =
    if leb max_items (length (e ∷ d)) then ok (erase (oldest e d).0 (e ∷ d)) else ok (e ∷ d)

-- The item that `put` makes.
abbrev pub new_item : ℕ → String → Bytes → MetaValue → Dict MetaValue → Option ℕ → StorageItem
new_item now key value content_type meta ttl_s = record {
  key = key;
  value = value;
  content_type = content_type;
  meta = meta;
  created_at = now;
  expires_at = elim ttl_s [ none ↦ none | some t ↦ some (now + t) ];
}

-- `put`, of an item made at the second reading of the clock.
unfoldable pub put : ℕ → StorageItem → Provider → Result Error StorageItem × Provider
put first item p =
    let kept = purge_expired first p.items in
    elim (make_room p.max_items kept) [
      | raised e ↦ (raised e, record p { items = kept })
      | ok d ↦ (ok item, record p { items = insert item.key item d })
    ]

-- `get`
unfoldable pub get : ℕ → ℕ → String → Provider → Option StorageItem × Provider
get first second key p =
    let kept = purge_expired first p.items in
    elim (lookup key kept) [
      | none ↦ (none, record p { items = kept })
      | some it ↦
          if is_expired second it
          then (none, record p { items = erase key kept })
          else (some it, record p { items = kept })
    ]

-- `delete`
unfoldable pub delete : String → Provider → Bool × Provider
delete key p = (contains key p.items, record p { items = erase key p.items })
