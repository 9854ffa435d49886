-- ===== src/Controlnet/Cache.antt =====
-- backends/controlnet_cache.py: `ControlNetModelCache`, an ordered dict of loaded models, oldest
-- use first. A model is an opaque value that `loader` makes of a path.
use stability_toys.Prelude.{
  ℕ, zero, suc, ◌+◌, String, List, [], ◌∷◌, ◌++◌, Option, none, some, ltb, length, if◌then◌else◌,
}
use stability_toys.Prelude.Dict.{Dict, lookup, insert, erase, keys}
use stability_toys.Prelude.Int.{ℤ, pos, ◌+ℤ◌, ◌-ℤ◌, is_positive}
use stability_toys.Prelude.Effects.{Method, pure, raise, gets, modify, or_raise, ◌>>=◌}

pub data Error : Type 0 where
  key_error load_error : Error

-- `model_id` is the key under which the cache holds the entry.
pub record CacheEntry (M : Type 0) : Type 0 where
  pub model_path : String
  pub model : M
  pub pin_count : ℤ

pub record Cache (M : Type 0) : Type 0 where
  pub max_entries : ℕ
  pub entries : Dict (CacheEntry M)

abbrev pub CacheMethod : Type 0 → Type 0 → Type 0
CacheMethod M A = Method (Cache M) Error A

module _ {M : Type 0} where
  -- `__init__`
  unfoldable pub init : ℕ → Cache M
  init max_entries = record { max_entries = max_entries; entries = [] }

  -- `_evict_if_needed`: each round pops the first entry, so as many rounds as there are entries
  -- are enough. A pinned first entry ends the loop.
  unfoldable pub evict_rounds : ℕ → ℕ → Dict (CacheEntry M) → Dict (CacheEntry M)
  evict_rounds zero max_entries d = d
  evict_rounds (suc fuel) max_entries [] = []
  evict_rounds (suc fuel) max_entries ((k, e) ∷ d) =
      let rest = evict_rounds fuel max_entries d in
      if ltb max_entries (suc (length d))
      then (if is_positive e.pin_count then (k, e) ∷ d else rest)
      else (k, e) ∷ d

  unfoldable pub evict_if_needed : Cache M → Cache M
  evict_if_needed c = record c { entries = evict_rounds (length c.entries) c.max_entries c.entries }

  -- `OrderedDict.move_to_end`, with the entry at its new place.
  abbrev pub move_to_end : String → CacheEntry M → Dict (CacheEntry M) → Dict (CacheEntry M)
  move_to_end k e d = erase k d ++ (k, e) ∷ []

  abbrev pub pin_more : CacheEntry M → CacheEntry M
  pin_more e = record e { pin_count = e.pin_count +ℤ pos 1 }

  abbrev pub found : Cache M → String → CacheEntry M → Cache M
  found c k e = evict_if_needed (record c { entries = move_to_end k (pin_more e) c.entries })

  -- `acquire`: a loader that raises leaves the cache as it was.
  unfoldable pub acquire : (String → Option M) → String → String → CacheMethod M M
  acquire loader model_id model_path c = elim (lookup model_id c.entries) [
    | none ↦ elim (loader model_path) [
      | none ↦ raise load_error c
      | some m ↦
          let e : CacheEntry M = record { model_path = model_path; model = m; pin_count = pos 0 } in
          pure m (evict_if_needed (record c { entries = c.entries ++ (model_id, pin_more e) ∷ [] }))
    ]
    | some e ↦ pure e.model (found c model_id e)
  ]

  -- `release`
  unfoldable pub release : String → CacheMethod M (Unit {0})
  release model_id = do
    e ← or_raise (← gets (λ c. lookup model_id c.entries)) key_error
    modify (λ c. record c {
      entries = insert model_id (record e { pin_count = e.pin_count -ℤ pos 1 }) c.entries;
    })

  -- `clear`: the loop over a copy of the keys, as a pass over the entries, with the count.
  unfoldable pub drop_unpinned : Dict (CacheEntry M) → Dict (CacheEntry M) × ℕ
  drop_unpinned [] = ([], 0)
  drop_unpinned ((k, e) ∷ d) =
      let (rest, dropped) = drop_unpinned d in
      if is_positive e.pin_count then ((k, e) ∷ rest, dropped) else (rest, dropped + 1)

  unfoldable pub clear : Cache M → ℕ × Cache M
  unfolding drop_unpinned
  clear c = let (rest, dropped) = drop_unpinned c.entries in (dropped, record c { entries = rest })

  -- `snapshot`
  abbrev pub snapshot : Cache M → List String
  snapshot c = keys c.entries
