-- ===== src/Prelude/Dict.antt =====
-- A Python dict, in insertion order, and what it keeps under assignment and deletion.
use Prim.Native.Nat.{ℕ, suc, ◌+◌, ◌≤◌}
use mathlib.Core.Path.{◌≡◌, refl, subst, ◌∙◌}
use mathlib.Core.Logic.{◌≢◌, ite}
use mathlib.Core.Bool.{Bool, true, false}
use mathlib.Core.Option.{Option, none, some}
use mathlib.Core.List.{List, [], ◌∷◌, ◌++◌, map}
use native.Mathlib.Omega.{arith}
use stability_toys.Prelude.Tests.{same_text}
use stability_toys.Prelude.Lists.{length}
use Prim.Native.String.{String}

abbrev pub Dict {ℓ} : Type ℓ → Type ℓ
Dict V = List (String × V)

module _ {ℓ} {V : Type ℓ} where
  -- `d.get(k)`
  unfoldable pub lookup : String → Dict V → Option V
  lookup k [] = none
  lookup k ((j, v) ∷ d) = ite (same_text j k) (some v) (lookup k d)

  -- `k in d`
  abbrev pub contains : String → Dict V → Bool
  contains k d = elim (lookup k d) [ none ↦ false | some _ ↦ true ]

  -- `d[k] = v`: a known key keeps its place.
  unfoldable pub insert : String → V → Dict V → Dict V
  insert k v [] = (k, v) ∷ []
  insert k v ((j, w) ∷ d) = ite (same_text j k) ((j, v) ∷ d) ((j, w) ∷ insert k v d)

  -- `d.pop(k, None)`
  unfoldable pub erase : String → Dict V → Dict V
  erase k [] = []
  erase k ((j, w) ∷ d) = ite (same_text j k) d ((j, w) ∷ erase k d)

  -- `d.keys()` and `d.values()`
  abbrev pub keys : Dict V → List String
  keys = map (λ e. e.0)

  abbrev pub values : Dict V → List V
  values = map (λ e. e.1)

  -- No key is listed twice: the shape of every dict.
  abbrev pub IsDict : Dict V → Type ℓ
  IsDict [] = Unit
  IsDict ((k, v) ∷ d) = (lookup k d ≡ none) × IsDict d

  pub lookup-insert :
      (k j : String) (v : V) (d : Dict V)
      → lookup j (insert k v d) ≡ ite (same_text k j) (some v) (lookup j d)
  unfolding lookup insert
  lookup-insert k j v [] = refl
  lookup-insert k j v (e ∷ d) = ground (arith, lookup-insert k j v d)

  pub lookup-insert_self : (k : String) (v : V) (d : Dict V) → lookup k (insert k v d) ≡ some v
  lookup-insert_self k v d = ground (arith, lookup-insert k k v d)

  pub lookup-insert_ne :
      (k j : String) (v : V) (d : Dict V) → k ≢ j → lookup j (insert k v d) ≡ lookup j d
  lookup-insert_ne k j v d h = ground (arith, lookup-insert k j v d)

  pub lookup-erase_ne : (k j : String) (d : Dict V) → k ≢ j → lookup j (erase k d) ≡ lookup j d
  unfolding lookup erase
  lookup-erase_ne k j [] h = refl
  lookup-erase_ne k j (e ∷ d) h = ground (arith, lookup-erase_ne k j d h)

  pub lookup-erase_self : (k : String) (d : Dict V) → IsDict d → lookup k (erase k d) ≡ none
  unfolding lookup erase
  lookup-erase_self k [] h = refl
  lookup-erase_self k (e ∷ d) h = ground (arith, lookup-erase_self k d h.1)

  pub insert-IsDict : (k : String) (v : V) (d : Dict V) → IsDict d → IsDict (insert k v d)
  unfolding insert lookup
  insert-IsDict k v [] h = (refl, tt)
  insert-IsDict k v (e ∷ d) h = ground (arith, insert-IsDict k v d h.1, lookup-insert k e.0 v d)

  pub erase-IsDict : (k : String) (d : Dict V) → IsDict d → IsDict (erase k d)
  unfolding erase
  erase-IsDict k [] h = tt
  erase-IsDict k (e ∷ d) h = ground (arith, erase-IsDict k d h.1, lookup-erase_ne k e.0 d)

  pub erase_absent : (k : String) (d : Dict V) → lookup k d ≡ none → erase k d ≡ d
  unfolding lookup erase
  erase_absent k [] h = refl
  erase_absent k (e ∷ d) h = ground (arith, erase_absent k d)

  -- Adding a new key and deleting it again changes nothing.
  pub erase-insert_new :
      (k : String) (v : V) (d : Dict V) → lookup k d ≡ none → erase k (insert k v d) ≡ d
  unfolding lookup insert erase
  erase-insert_new k v [] h = ground arith
  erase-insert_new k v (e ∷ d) h = ground (arith, erase-insert_new k v d)

  pub lookup-erase :
      (k j : String) (d : Dict V)
      → IsDict d
      → lookup j (erase k d) ≡ ite (same_text k j) none (lookup j d)
  lookup-erase k j d h = ground (arith, lookup-erase_self k d h, lookup-erase_ne k j d)

  pub key_ne : (k j : String) (w : V) (d : Dict V) → lookup k d ≡ none → lookup j d ≡ some w → k ≢ j
  key_ne k j w d new e p = let same : lookup k d ≡ some w = rw p e in absurd (cc (new, same))

  pub insert-insert : (k : String) (v w : V) (d : Dict V) → insert k v (insert k w d) ≡ insert k v d
  unfolding insert
  insert-insert k v w [] = ground arith
  insert-insert k v w (e ∷ d) = ground (arith, insert-insert k v w d)

  -- Assigning what is there already changes nothing.
  pub insert_same : (k : String) (v : V) (d : Dict V) → lookup k d ≡ some v → insert k v d ≡ d
  unfolding insert lookup
  insert_same k v [] e = cc
  insert_same k v (x ∷ d) e = ground (arith, insert_same k v d)

  -- What is found after a deletion was there before.
  pub lookup-of-erase :
      (k j : String) (d : Dict V) {v : V}
      → IsDict d
      → lookup j (erase k d) ≡ some v
      → (lookup j d ≡ some v) × (k ≢ j)
  lookup-of-erase k j d h e = ground (arith, lookup-erase k j d h)

  abbrev or_else : Option V → Option V → Option V
  or_else (some v) o = some v
  or_else none o = o

  pub lookup-append :
      (k : String) (a b : Dict V) → lookup k (a ++ b) ≡ or_else (lookup k a) (lookup k b)
  unfolding lookup
  lookup-append k [] b = refl
  lookup-append k (x ∷ a) b = ground (arith, lookup-append k a b)

  -- The parts of a dict share no key.
  pub IsDict-append :
      (a b : Dict V)
      → IsDict (a ++ b)
      → IsDict b × ((k : String) (v : V) → lookup k b ≡ some v → lookup k a ≡ none)
  unfolding lookup
  IsDict-append [] b h = (h, λ k v e. refl)
  IsDict-append (x ∷ a) b h =
      let (rest, apart) = IsDict-append a b h.1 in
      (rest, λ k v e. ground (arith, apart k v e, lookup-append k a b, lookup-append x.0 a b))

  pub append-IsDict :
      (a : Dict V) (k : String) (v : V) → IsDict a → lookup k a ≡ none → IsDict (a ++ (k, v) ∷ [])
  unfolding lookup
  append-IsDict [] k v h new = (refl, tt)
  append-IsDict (x ∷ a) k v h new =
      ground (arith, append-IsDict a k v h.1, lookup-append x.0 a ((k, v) ∷ []))

  -- A predicate at every entry.
  abbrev pub AllItems {κ} : (String → V → Type κ) → Dict V → Type κ
  AllItems P [] = Unit
  AllItems P ((k, v) ∷ d) = P k v × AllItems P d

  lookup_tail :
      (k : String) (v : V) (d : Dict V) (j : String) (w : V)
      → lookup k d ≡ none
      → lookup j d ≡ some w
      → lookup j ((k, v) ∷ d) ≡ some w
  unfolding lookup
  lookup_tail k v d j w new e = ground arith

  lookup_head : (k : String) (v : V) (d : Dict V) → lookup k ((k, v) ∷ d) ≡ some v
  unfolding lookup
  lookup_head k v d = ground arith

  -- A property of all that can be looked up is one of every entry.
  pub AllItems-of_lookup {κ} :
      (P : String → V → Type κ) (d : Dict V)
      → IsDict d
      → ((k : String) (v : V) → lookup k d ≡ some v → P k v)
      → AllItems P d
  AllItems-of_lookup P [] h all = tt
  AllItems-of_lookup P ((k, v) ∷ d) h all = (
    all k v (lookup_head k v d),
    AllItems-of_lookup P d h.1 (λ j w e. all j w (lookup_tail k v d j w h.0 e)),
  )

  pub lookup-of_AllItems {κ} :
      (P : String → V → Type κ) (d : Dict V)
      → AllItems P d
      → (k : String) (v : V) → lookup k d ≡ some v
      → P k v
  unfolding lookup
  lookup-of_AllItems P [] h k v e = cc
  lookup-of_AllItems P ((j, w) ∷ d) h k v e = elim (same_text j k) [
    | yes p ↦ subst (λ t. P t v) p (subst (P j) (ground arith) h.0)
    | no p ↦ lookup-of_AllItems P d h.1 k v (ground arith)
  ]

  pub length-erase :
      (k : String) (v : V) (d : Dict V) → lookup k d ≡ some v → suc (length (erase k d)) ≡ length d
  unfolding lookup erase
  length-erase k v [] e = cc
  length-erase k v (x ∷ d) e = ground (arith, length-erase k v d)

-- `sum(f(v) for v in d.values())`
module _ {ℓ} {V : Type ℓ} (f : V → ℕ) where
  unfoldable pub sum_by : Dict V → ℕ
  sum_by [] = 0
  sum_by ((_, v) ∷ d) = f v + sum_by d

  pub sum_by-erase :
      (k : String) (v : V) (d : Dict V) → lookup k d ≡ some v → sum_by d ≡ f v + sum_by (erase k d)
  unfolding lookup erase sum_by
  sum_by-erase k v [] e = cc
  sum_by-erase k v (x ∷ d) e = ground (arith, sum_by-erase k v d)

  pub sum_by-insert_new :
      (k : String) (v : V) (d : Dict V) → lookup k d ≡ none → sum_by (insert k v d) ≡ f v + sum_by d
  unfolding lookup insert sum_by
  sum_by-insert_new k v [] e = omega arith
  sum_by-insert_new k v (x ∷ d) e = ground (arith, sum_by-insert_new k v d)

  pub sum_by-insert_old :
      (k : String) (v old : V) (d : Dict V)
      → lookup k d ≡ some old
      → sum_by (insert k v d) + f old ≡ f v + sum_by d
  unfolding lookup insert sum_by
  sum_by-insert_old k v old [] e = cc
  sum_by-insert_old k v old (x ∷ d) e = ground (arith, sum_by-insert_old k v old d)

module _ {ℓ} {V : Type ℓ} (f : V → ℕ) where
  -- A dict that holds no other items has no larger sum.
  pub sum_by-subset :
      (d' d : Dict V)
      → IsDict d'
      → IsDict d
      → ((k : String) (v : V) → lookup k d' ≡ some v → lookup k d ≡ some v)
      → sum_by f d' ≤ sum_by f d
  unfolding sum_by
  sum_by-subset [] d h' h sub = omega arith
  sum_by-subset ((k, v) ∷ d') d h' h sub =
      let here = sub k v (lookup_head k v d') in
      let rest = sum_by-subset d' (erase k d) h'.1 (erase-IsDict k d h) λ j w e.
        lookup-erase_ne k j d (key_ne k j w d' h'.0 e) ∙ sub j w (lookup_tail k v d' j w h'.0 e) in
      omega (arith, sum_by-erase f k v d here)

module _ {ℓ} {V : Type ℓ} (f g : V → ℕ) where
  pub sum_by-le : (d : Dict V) → AllItems (λ _ v. f v ≤ g v) d → sum_by f d ≤ sum_by g d
  unfolding sum_by
  sum_by-le [] h = omega arith
  sum_by-le (x ∷ d) h = omega (arith, sum_by-le d h.1)
