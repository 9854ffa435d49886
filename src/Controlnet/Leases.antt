-- ===== src/Controlnet/Leases.antt =====
-- backends/controlnet_cache.py: `acquire`, `release` and `clear`, with their effect on the pins.
use stability_toys.Prelude.{
  ℕ, ◌+◌, ◌≡◌, ◌≢◌, refl, ◌∙◌, String, true, [], ◌∷◌, ◌++◌, Option, none, some, arith, length,
  Option-cases, ap, if◌then◌else◌,
}
use stability_toys.Prelude.Dict.{
  Dict, lookup, insert, erase, IsDict, lookup-append, append-IsDict, erase-IsDict,
  lookup-erase_self, lookup-erase_ne, lookup-insert_self,
}
use stability_toys.Prelude.Int.{pos, ◌+ℤ◌, ◌-ℤ◌, is_positive, is_positive-suc}
use stability_toys.Prelude.Effects.{ok, raised}
use stability_toys.Controlnet.Cache.{
  CacheEntry, Cache, load_error, evict_if_needed, move_to_end, pin_more, found, acquire, release,
  drop_unpinned,
}
use stability_toys.Controlnet.Pins.{evict_if_needed-keeps, evict_if_needed-IsDict}

module _ {M : Type 0} (loader : String → Option M) (k path : String) (c : Cache M) where
  acquire_hit :
      (e : CacheEntry M)
      → lookup k c.entries ≡ some e
      → acquire loader k path c ≡ (ok e.model, found c k e)
  unfolding acquire
  acquire_hit e has = ground arith

  -- The entry that a load makes.
  abbrev pub fresh_entry : M → CacheEntry M
  fresh_entry m = record { model_path = path; model = m; pin_count = pos 0 +ℤ pos 1 }

  abbrev pub loaded : M → Cache M
  loaded m = record c { entries = c.entries ++ (k, fresh_entry m) ∷ [] }

  acquire_load :
      (m : M)
      → lookup k c.entries ≡ none
      → loader path ≡ some m
      → acquire loader k path c ≡ (ok m, evict_if_needed (loaded m))
  unfolding acquire
  acquire_load m new loads = ground arith

  -- A loader that raises leaves the cache as it was.
  pub acquire_failed :
      lookup k c.entries ≡ none
      → loader path ≡ none
      → acquire loader k path c ≡ (raised load_error, c)
  unfolding acquire
  acquire_failed new fails = ground arith

  abbrev moved : CacheEntry M → Cache M
  moved e = record c { entries = move_to_end k (pin_more e) c.entries }

  lookup-moved_self :
      (e : CacheEntry M) → IsDict c.entries → lookup k (moved e).entries ≡ some (pin_more e)
  unfolding lookup
  lookup-moved_self e h = ground (
    arith,
    lookup-append k (erase k c.entries) ((k, pin_more e) ∷ []),
    lookup-erase_self k c.entries h,
  )

  lookup-moved_ne :
      (e : CacheEntry M) (j : String) → k ≢ j → lookup j (moved e).entries ≡ lookup j c.entries
  unfolding lookup
  lookup-moved_ne e j other = ground (
    arith,
    lookup-append j (erase k c.entries) ((k, pin_more e) ∷ []),
    lookup-erase_ne k j c.entries other,
    Option-cases (lookup j c.entries),
  )

  -- A model that is in the cache, and was not released more often than acquired, is not loaded again:
  -- `acquire` returns it and counts one pin more. It stays in the cache, and so does every other pinned
  -- model.
  pub acquire_again :
      (e : CacheEntry M) (n : ℕ)
      → IsDict c.entries
      → lookup k c.entries ≡ some e
      → e.pin_count ≡ pos n
      → (c' : Cache M) × (acquire loader k path c ≡ (ok e.model, c'))
        × IsDict c'.entries
        × (lookup k c'.entries ≡ some (pin_more e))
        × ((j : String) (d : CacheEntry M)
            → k ≢ j
            → lookup j c.entries ≡ some d
            → is_positive d.pin_count ≡ true
            → lookup j c'.entries ≡ some d)
  acquire_again e n h has count = (
    found c k e,
    acquire_hit e has,
    evict_if_needed-IsDict (moved e) (
        append-IsDict (erase k c.entries) k (pin_more e) (erase-IsDict k c.entries h)
          (lookup-erase_self k c.entries h)),
    evict_if_needed-keeps (moved e) k (pin_more e) (lookup-moved_self e h)
        (rw count (is_positive-suc n)),
    λ j d other was pinned.
        evict_if_needed-keeps (moved e) j d (lookup-moved_ne e j other ∙ was) pinned,
  )

  -- A model that is not is loaded once, goes in with one pin, and evicts nothing that is pinned.
  acquire_new :
      (m : M)
      → IsDict c.entries
      → lookup k c.entries ≡ none
      → loader path ≡ some m
      → (c' : Cache M) × (acquire loader k path c ≡ (ok m, c'))
        × IsDict c'.entries
        × (lookup k c'.entries ≡ some (fresh_entry m))
        × ((j : String) (d : CacheEntry M)
            → k ≢ j
            → lookup j c.entries ≡ some d
            → is_positive d.pin_count ≡ true
            → lookup j c'.entries ≡ some d)
  unfolding lookup
  acquire_new m h new loads = (
    evict_if_needed (loaded m),
    acquire_load m new loads,
    evict_if_needed-IsDict (loaded m) (append-IsDict c.entries k (fresh_entry m) h new),
    evict_if_needed-keeps (loaded m) k (fresh_entry m)
        (ground (arith, lookup-append k c.entries ((k, fresh_entry m) ∷ []))) (is_positive-suc 0),
    λ j d other was pinned.
        evict_if_needed-keeps (loaded m) j d
          (ground (arith, lookup-append j c.entries ((k, fresh_entry m) ∷ []))) pinned,
  )

dec-inc : (n : ℕ) → pos n +ℤ pos 1 -ℤ pos 1 ≡ pos n
unfolding ◌+ℤ◌ ◌-ℤ◌
dec-inc n = ground arith

module _ {M : Type 0} where
  release_lem :
      (k : String) (c : Cache M) (e : CacheEntry M)
      → lookup k c.entries ≡ some e
      → release k c ≡ (
        ok tt,
        record c { entries = insert k (record e { pin_count = e.pin_count -ℤ pos 1 }) c.entries },
      )
  unfolding release
  release_lem k c e has = ground arith

  -- A job that acquires a cached model and releases it leaves the entry as it found it.
  release-acquire :
      (loader : String → Option M) (k path : String) (c : Cache M) (e : CacheEntry M) (n : ℕ)
      → IsDict c.entries
      → lookup k c.entries ≡ some e
      → e.pin_count ≡ pos n
      → (c' c'' : Cache M) × (acquire loader k path c ≡ (ok e.model, c'))
        × (release k c' ≡ (ok tt, c''))
        × (lookup k c''.entries ≡ some e)
  release-acquire loader k path c e n h has count =
      let (c', runs, _, there, _) = acquire_again loader k path c e n h has count in
      let e' = record (pin_more e) { pin_count = (pin_more e).pin_count -ℤ pos 1 } in
      let same : e' ≡ e = restored e n count in
      let c'' = record c' { entries = insert k e' c'.entries } in
      (
        c',
        c'',
        runs,
        release_lem k c' (pin_more e) there,
        lookup-insert_self k e' c'.entries ∙ ap some same,
      )
    where
      restored :
          (d : CacheEntry M) (m : ℕ)
          → d.pin_count ≡ pos m
          → record d { pin_count = d.pin_count +ℤ pos 1 -ℤ pos 1 } ≡ d
      restored d m q =
          let back : d.pin_count +ℤ pos 1 -ℤ pos 1 ≡ d.pin_count = rw q (dec-inc m) in
          λ i. record d { pin_count = back i }

  -- `clear` drops exactly the models that are not pinned, and counts them.
  drop_unpinned_lem :
      (d : Dict (CacheEntry M)) (k : String)
      → IsDict d
      → let (rest, dropped) = drop_unpinned d in
        (length rest + dropped ≡ length d)
        × (lookup k rest ≡ elim (lookup k d) [
          | none ↦ none
          | some e ↦ if is_positive e.pin_count then some e else none
        ])
  unfolding drop_unpinned lookup
  drop_unpinned_lem [] k h = (omega arith, refl)
  drop_unpinned_lem (x ∷ d) k h =
      ground (arith, drop_unpinned_lem d k h.1, drop_unpinned_lem d x.0 h.1)
