-- ===== src/Storage/Expiry.antt =====
-- persistence/storage_provider.py: what `_purge_expired_locked`, `get` and `put` do with time.
use stability_toys.Prelude.{
  ℕ, ◌≤◌, ◌≡◌, refl, String, false, List, [], ◌∷◌, Option, none, some, if◌then◌else◌, arith,
  Option-cases, inl, inr,
}
use stability_toys.Prelude.Dict.{Dict, lookup, erase, IsDict, erase-IsDict, lookup-erase}
use stability_toys.Assets.Cleanup.{member}
use stability_toys.Storage.Memory.{
  StorageItem, Provider, is_expired, expired_keys, pop_all, purge_expired, get,
}

lookup-pop_all :
    (j : String) (ks : List String) (d : Dict StorageItem)
    → IsDict d
    → lookup j (pop_all ks d) ≡ (if member j ks then none else lookup j d)
unfolding pop_all
lookup-pop_all j [] d h = refl
lookup-pop_all j (k ∷ ks) d h =
    ground (arith, lookup-pop_all j ks (erase k d) (erase-IsDict k d h), lookup-erase k j d h)

pop_all-IsDict : (ks : List String) (d : Dict StorageItem) → IsDict d → IsDict (pop_all ks d)
unfolding pop_all
pop_all-IsDict [] d h = h
pop_all-IsDict (k ∷ ks) d h = pop_all-IsDict ks (erase k d) (erase-IsDict k d h)

member-expired_keys :
    (now : ℕ) (j : String) (d : Dict StorageItem)
    → IsDict d
    → member j (expired_keys now d)
      ≡ elim (lookup j d) [ none ↦ false | some it ↦ is_expired now it ]
unfolding expired_keys lookup
member-expired_keys now j [] h = refl
member-expired_keys now j ((k, it) ∷ d) h =
    ground (arith, member-expired_keys now j d h.1, member-expired_keys now k d h.1)

-- What is left of an item at a time.
abbrev pub unexpired : ℕ → Option StorageItem → Option StorageItem
unexpired now none = none
unexpired now (some it) = if is_expired now it then none else some it

-- A purge drops exactly the items that have expired.
pub purge_expired_lem :
    (now : ℕ) (j : String) (d : Dict StorageItem)
    → IsDict d
    → lookup j (purge_expired now d) ≡ unexpired now (lookup j d)
unfolding purge_expired
purge_expired_lem now j d h =
    let popped = lookup-pop_all j (expired_keys now d) d h in
    let mem = member-expired_keys now j d h in
    elim (Option-cases (lookup j d)) [
      | inl gone ↦ ground (arith, popped, mem)
      | inr (it, has) ↦ ground (arith, popped, mem)
    ]

pub purge_expired-IsDict :
    (now : ℕ) (d : Dict StorageItem) → IsDict d → IsDict (purge_expired now d)
unfolding purge_expired
purge_expired-IsDict now d h = pop_all-IsDict (expired_keys now d) d h

-- `get` answers with the item under the key where it has not expired at the second of the two readings
-- of the clock, and with nothing else.
pub get_lem :
    (first second : ℕ) (key : String) (p : Provider)
    → IsDict p.items
    → first ≤ second
    → (get first second key p).0 ≡ unexpired second (lookup key p.items)
unfolding get
get_lem first second key p h le =
    let purged = purge_expired_lem first key p.items h in
    elim (Option-cases (lookup key p.items)) [
      | inl gone ↦ ground (arith, purged)
      | inr (it, has) ↦ elim (Option-cases it.expires_at) [
        | inl forever ↦ ground (arith, purged)
        | inr (t, until) ↦ ground (arith, purged)
      ]
    ]
