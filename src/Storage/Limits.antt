-- ===== src/Storage/Limits.antt =====
-- persistence/storage_provider.py: `put` under the limit on the number of items.
use stability_toys.Prelude.{
  ℕ, suc, ◌≤◌, ◌<◌, ◌≡◌, sym, ◌∙◌, String, List, [], ◌∷◌, none, some, ltb, leb, length,
  if◌then◌else◌, arith, Bool-cases, inl, inr, ap, subst,
}
use stability_toys.Prelude.Dict.{
  Dict, lookup, insert, erase, IsDict, AllItems, erase-IsDict, insert-IsDict, lookup-insert_self,
  length-erase,
}
use stability_toys.Prelude.Effects.{ok}
use stability_toys.Storage.Memory.{
  StorageItem, Provider, is_expired, expired_keys, pop_all, purge_expired, earlier, oldest,
  make_room, put, get,
}
use stability_toys.Storage.Expiry.{unexpired, purge_expired-IsDict, get_lem}

-- The provider's items are a dict within the limit.
pub record IsWithin (p : Provider) : Type 0 where
  pub distinct : IsDict p.items
  pub limited : length p.items ≤ p.max_items

length-erase_le : (k : String) (d : Dict StorageItem) → length (erase k d) ≤ length d
unfolding erase
length-erase_le k [] = omega arith
length-erase_le k (e ∷ d) = ground (arith, length-erase_le k d)

length-pop_all : (ks : List String) (d : Dict StorageItem) → length (pop_all ks d) ≤ length d
unfolding pop_all
length-pop_all [] d = omega arith
length-pop_all (k ∷ ks) d =
    let a = length-pop_all ks (erase k d) in let b = length-erase_le k d in omega arith

length-purge_expired : (now : ℕ) (d : Dict StorageItem) → length (purge_expired now d) ≤ length d
unfolding purge_expired
length-purge_expired now d = length-pop_all (expired_keys now d) d

length-insert_le :
    (k : String) (it : StorageItem) (d : Dict StorageItem) → length (insert k it d) ≤ suc (length d)
unfolding insert
length-insert_le k it [] = omega arith
length-insert_le k it (e ∷ d) = ground (arith, length-insert_le k it d)

-- The chosen entry is one of the entries.
lookup-oldest :
    (e : String × StorageItem) (d : Dict StorageItem)
    → IsDict (e ∷ d)
    → lookup (oldest e d).0 (e ∷ d) ≡ some (oldest e d).1
unfolding oldest lookup
lookup-oldest e [] h = ground arith
lookup-oldest e (f ∷ d) h = elim (Bool-cases (ltb f.1.created_at e.1.created_at)) [
  | inl less ↦ let there = lookup-oldest f d h.1 in ground (arith, there)
  | inr not_less ↦
      let alone : lookup e.0 d ≡ none = ground arith in
      let there = lookup-oldest e d (alone, h.1.1) in ground (arith, there)
]

oldest_le :
    (e : String × StorageItem) (d : Dict StorageItem)
    → AllItems (λ _ o. (oldest e d).1.created_at ≤ o.created_at) (e ∷ d)
unfolding oldest
oldest_le e [] = (omega arith, tt)
oldest_le e (f ∷ d) =
    let (first, rest) = oldest_le (earlier e f) d in
    (ground (arith, first), (ground (arith, first), rest))

-- What `make_room` leaves of the items: all of them, or all but an oldest one where they were too many.
pub data Room (limit : ℕ) (d : Dict StorageItem) : Dict StorageItem → Type 0 where
  enough : length d < limit → Room limit d d
  dropped :
      (k : String) (it : StorageItem)
      → limit ≤ length d
      → lookup k d ≡ some it
      → AllItems (λ _ o. it.created_at ≤ o.created_at) d
      → Room limit d (erase k d)

make_room-Room :
    (limit : ℕ) (d : Dict StorageItem)
    → 0 < limit
    → IsDict d
    → (d' : Dict StorageItem) × (make_room limit d ≡ ok d') × Room limit d d'
unfolding make_room
make_room-Room limit [] some_room h = ([], ground arith, enough some_room)
make_room-Room limit (e ∷ d) some_room h = elim (Bool-cases (leb limit (length (e ∷ d)))) [
  | inl over ↦ (
    erase (oldest e d).0 (e ∷ d),
    ground arith,
    dropped (oldest e d).0 (oldest e d).1 (ground arith) (lookup-oldest e d h) (oldest_le e d),
  )
  | inr under ↦ (e ∷ d, ground arith, enough (ground arith))
]

Room-IsDict : {limit : ℕ} {d d' : Dict StorageItem} → Room limit d d' → IsDict d → IsDict d'
Room-IsDict (enough _) h = h
Room-IsDict {limit} {d} (dropped k it over has old) h = erase-IsDict k d h

length-Room :
    {limit : ℕ} {d d' : Dict StorageItem} → Room limit d d' → length d ≤ limit → length d' < limit
length-Room (enough under) le = under
length-Room {limit} {d} (dropped k it over has old) le =
    let one_less = length-erase k it d has in omega arith

-- A `put` into a provider within a limit above 0 succeeds, stays within the limit, and holds the item
-- under its key. Of the others it drops those that have expired and, only where the rest would be too
-- many, one that is oldest.
pub put_lem :
    (first : ℕ) (item : StorageItem) (p : Provider)
    → IsWithin p
    → 0 < p.max_items
    → let kept = purge_expired first p.items in
      (d : Dict StorageItem) × Room p.max_items kept d
      × (put first item p ≡ (ok item, record p { items = insert item.key item d }))
      × IsWithin (record p { items = insert item.key item d })
unfolding put
put_lem first item p within some_room =
    let kept = purge_expired first p.items in
    let distinct = purge_expired-IsDict first p.items within.distinct in
    let (d, runs, room) = make_room-Room p.max_items kept some_room distinct in
    let under =
      let le = length-purge_expired first p.items in
      let le' = within.limited in length-Room room (omega arith) in
    (
      d,
      room,
      ground (arith, runs),
      record {
        distinct = insert-IsDict item.key item d (Room-IsDict room distinct);
        limited = let le = length-insert_le item.key item d in omega arith;
      },
    )

-- What was put can be got until it expires: from the provider that a `put` leaves, `get` of its key
-- answers with the item until its time of expiry, and with nothing from then on.
pub get-put :
    (first : ℕ) (item : StorageItem) (third fourth : ℕ) (p : Provider)
    → IsWithin p
    → 0 < p.max_items
    → third ≤ fourth
    → (get third fourth item.key (put first item p).1).0
      ≡ (if is_expired fourth item then none else some item)
get-put first item third fourth p within some_room le =
    let (d, _, runs, within') = put_lem first item p within some_room in
    let q : Provider = record p { items = insert item.key item d } in
    let got = get_lem third fourth item.key q within'.distinct le in
    let there = lookup-insert_self item.key item d in
    subst
      (λ r.
        (get third fourth item.key r.1).0 ≡ (if is_expired fourth item then none else some item))
      (sym runs) (got ∙ ap (unexpired fourth) there)
