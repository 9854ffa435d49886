-- ===== src/Controlnet/Pins.antt =====
-- The ControlNet model cache keeps what is pinned, evicts the longest unused first, and holds no
-- more than its limit unless the longest unused model is pinned.
use stability_toys.Prelude.{
  ℕ, zero, suc, ◌≤◌, ◌≡◌, refl, ◌∙◌, String, true, false, [], ◌∷◌, ◌++◌, some, arith, ltb, length,
  Bool-cases, Option-cases, inl, inr, ◌⊎◌, subst, ap,
}
use stability_toys.Prelude.Dict.{Dict, lookup, IsDict, lookup-append, IsDict-append}
use stability_toys.Prelude.Int.{is_positive}
use stability_toys.Controlnet.Cache.{CacheEntry, Cache, evict_rounds, evict_if_needed}

module _ {M : Type 0} where
  abbrev pub AllUnpinned : Dict (CacheEntry M) → Type 0
  AllUnpinned [] = Unit
  AllUnpinned ((k, e) ∷ d) = (is_positive e.pin_count ≡ false) × AllUnpinned d

  -- The first entry, which the loop looks at, is pinned.
  abbrev pub FirstPinned : Dict (CacheEntry M) → Type 0
  FirstPinned [] = ⊥
  FirstPinned ((k, e) ∷ d) = is_positive e.pin_count ≡ true

  -- What eviction leaves: the cache without some unpinned entries from its old end, within the
  -- limit or with a pinned entry at that end, and with as many entries as the limit where any went.
  abbrev pub Trims : ℕ → Dict (CacheEntry M) → Dict (CacheEntry M) → Type 0
  Trims limit d kept =
      (gone : Dict (CacheEntry M)) × (d ≡ gone ++ kept)
      × AllUnpinned gone
      × ((length kept ≤ limit) ⊎ FirstPinned kept)
      × ((gone ≡ []) ⊎ (limit ≤ length kept))

  -- As long as the cache is over its limit, a model more may go.
  needed :
      (limit : ℕ) (d kept gone : Dict (CacheEntry M))
      → d ≡ gone ++ kept
      → (gone ≡ []) ⊎ (limit ≤ length kept)
      → limit ≤ length d
      → limit ≤ length kept
  needed limit d kept gone split (inr h) over = h
  needed limit d kept gone split (inl none_gone) over =
      let same : d ≡ kept = split ∙ ap (λ g. g ++ kept) none_gone in
      subst (λ x. limit ≤ length x) same over

  evict_rounds-Trims :
      (fuel limit : ℕ) (d : Dict (CacheEntry M))
      → length d ≤ fuel
      → Trims limit d (evict_rounds fuel limit d)
  unfolding evict_rounds
  evict_rounds-Trims zero limit [] h = ([], refl, tt, inl (omega arith), inl refl)
  evict_rounds-Trims zero limit (x ∷ d) h = absurd (omega arith)
  evict_rounds-Trims (suc fuel) limit [] h = ([], refl, tt, inl (omega arith), inl refl)
  evict_rounds-Trims (suc fuel) limit ((k, e) ∷ d) h =
      elim (Bool-cases (ltb limit (suc (length d)))) [
        | inr within ↦ rw within ([], refl, tt, inl (ground arith), inl refl)
        | inl over ↦ elim (Bool-cases (is_positive e.pin_count)) [
          | inl pinned ↦ rw over (rw pinned ([], refl, tt, inr pinned, inl refl))
          | inr free ↦
              let (gone, split, unpinned, ends, stops) =
                evict_rounds-Trims fuel limit d (omega arith) in
              rw over (
                rw free (
                  (k, e) ∷ gone,
                  ap (◌∷◌ (k, e)) split,
                  (free, unpinned),
                  ends,
                  inr (needed limit d _ gone split stops (ground arith)),
                ))
        ]
      ]

  -- `_evict_if_needed` only drops unpinned models, the longest unused first; afterwards the cache is
  -- within its limit or the longest unused model is pinned, and where a model was dropped, it still
  -- holds as many as its limit.
  pub evict_if_needed-Trims :
      (c : Cache M) → Trims c.max_entries c.entries (evict_if_needed c).entries
  unfolding evict_if_needed
  evict_if_needed-Trims c =
      evict_rounds-Trims (length c.entries) c.max_entries c.entries (omega arith)

  lookup_unpinned :
      (k : String) (d : Dict (CacheEntry M)) (e : CacheEntry M)
      → AllUnpinned d
      → lookup k d ≡ some e
      → is_positive e.pin_count ≡ false
  unfolding lookup
  lookup_unpinned k [] e all h = cc
  lookup_unpinned k (x ∷ d) e all h = ground (arith, lookup_unpinned k d e all.1)

  kept_lookup :
      (limit : ℕ) (d kept : Dict (CacheEntry M)) (k : String) (e : CacheEntry M)
      → Trims limit d kept
      → lookup k d ≡ some e
      → is_positive e.pin_count ≡ true
      → lookup k kept ≡ some e
  kept_lookup limit d kept k e (gone, split, unpinned, _, _) h pinned =
      let whole : lookup k (gone ++ kept) ≡ some e = rw (← split) h in
      elim (Option-cases (lookup k gone)) [
        | inl out ↦ ground (arith, lookup-append k gone kept)
        | inr (x, within) ↦
            let same : x ≡ e = ground (arith, lookup-append k gone kept) in
            let free = lookup_unpinned k gone x unpinned within in absurd (ground arith)
      ]

  -- An eviction keeps every pinned model as it was.
  pub evict_if_needed-keeps :
      (c : Cache M) (k : String) (e : CacheEntry M)
      → lookup k c.entries ≡ some e
      → is_positive e.pin_count ≡ true
      → lookup k (evict_if_needed c).entries ≡ some e
  evict_if_needed-keeps c k e =
      kept_lookup c.max_entries c.entries (evict_if_needed c).entries k e (evict_if_needed-Trims c)

  pub evict_if_needed-IsDict : (c : Cache M) → IsDict c.entries → IsDict (evict_if_needed c).entries
  evict_if_needed-IsDict c h =
      let (gone, split, _, _, _) = evict_if_needed-Trims c in
      (IsDict-append gone (evict_if_needed c).entries (subst IsDict split h)).0
