-- ===== src/Assets/Placement.antt =====
-- `write` and `admit` put an entry in: they succeed exactly when the pinned entries of its bucket
-- leave room, and otherwise roll back.
use stability_toys.Prelude.{
  ℕ, suc, ◌+◌, ◌-◌, ◌≤◌, ◌<◌, ◌≡◌, refl, sym, ◌∙◌, String, true, false, none, some, arith,
  same_text, length, leb, ltb, Bool-cases, inl, inr, subst, ap,
}
use stability_toys.Prelude.Dict.{
  lookup, insert, erase, sum_by-insert_new, sum_by-subset, sum_by-le, lookup-insert,
  lookup-insert_self, lookup-insert_ne, insert-IsDict, insert-insert, insert_same, erase-insert_new,
  AllItems-of_lookup,
}
use stability_toys.Prelude.Effects.{ok, raised}
use stability_toys.Assets.Model.{
  BucketPolicy, AssetEntry, Store, in_bucket, pinned_in, size_if, no_capacity, value_error,
}
use stability_toys.Assets.Store.{remove, evict_loop, evict_to_budget, place}
use stability_toys.Assets.Accounting.{bucket_size, IsNamed, IsExact, removed, remove-removed}
use stability_toys.Assets.Eviction.{pinned_size, Evicted, Evicted-refl, HasRoom, evict_loop-Ends}

-- The counters are exact, and no bucket holds more than its budget.
pub record IsValid (s : Store) : Type 0 where
  pub exact : IsExact s
  pub bounded :
      (b : String) (p : BucketPolicy)
      → lookup b s.policies ≡ some p
      → bucket_size b s.entries ≤ p.byte_budget

-- The store with a new entry, its bytes counted.
abbrev pub added : AssetEntry → Store → Store
added e s = record s {
  entries = insert e.ref e s.entries;
  bucket_bytes = insert e.bucket (bucket_size e.bucket s.entries + e.byte_size) s.bucket_bytes;
}

-- An entry that may be put in: a name not in use, a known bucket, an honest size, no pin.
pub record IsNew (s : Store) (e : AssetEntry) (p : BucketPolicy) : Type 0 where
  pub fresh : lookup e.ref s.entries ≡ none
  pub known : lookup e.bucket s.policies ≡ some p
  pub sized : e.byte_size ≡ length e.content
  pub unpinned : e.pin_count ≡ 0

module _ (s : Store) (e : AssetEntry) (p : BucketPolicy) (v : IsValid s) (n : IsNew s e p) where
  bucket_size-added :
      (b : String)
      → bucket_size b (added e s).entries ≡ size_if (in_bucket b) e + bucket_size b s.entries
  bucket_size-added b = sum_by-insert_new (size_if (in_bucket b)) e.ref e s.entries n.fresh

  pinned_size-added : pinned_size e.bucket (added e s).entries ≡ pinned_size e.bucket s.entries
  pinned_size-added =
      let unpinned = n.unpinned in
      ground (arith, sum_by-insert_new (size_if (pinned_in e.bucket)) e.ref e s.entries n.fresh)

  own-IsNamed : IsNamed s.policies e.ref e
  own-IsNamed = record { under_ref = refl; sized = n.sized; policy = p; in_known_bucket = n.known }

  added-IsNamed :
      (k : String) (d : AssetEntry) → lookup k (added e s).entries ≡ some d → IsNamed s.policies k d
  added-IsNamed k d h = elim (same_text e.ref k) [
    | yes here ↦
        let found : lookup k (added e s).entries ≡ some e =
          rw (← here) (lookup-insert_self e.ref e s.entries) in
        let same : e ≡ d = cc (found, h) in
        subst (IsNamed s.policies k) same (subst (λ t. IsNamed s.policies t e) here own-IsNamed)
    | no other ↦ v.exact.named k d (sym (lookup-insert_ne e.ref k e s.entries other) ∙ h)
  ]

  added-IsExact : IsExact (added e s)
  added-IsExact = record {
    distinct = insert-IsDict e.ref e s.entries v.exact.distinct;
    named = added-IsNamed;
    counted = λ b q h. ground (
      arith,
      v.exact.counted b q h,
      bucket_size-added b,
      lookup-insert e.bucket b (bucket_size e.bucket s.entries + e.byte_size) s.bucket_bytes,
    );
  }

  place-added : place e s ≡ evict_to_budget e.bucket e.ref (added e s)
  unfolding place
  place-added = ground (arith, v.exact.counted e.bucket p n.known)

  -- The counter of the bucket, the policy and the entry, as `_evict_to_budget` reads them.
  counter :
      lookup e.bucket (added e s).bucket_bytes ≡ some (bucket_size e.bucket s.entries + e.byte_size)
  counter =
      lookup-insert_self e.bucket (bucket_size e.bucket s.entries + e.byte_size) s.bucket_bytes

  stored : lookup e.ref (added e s).entries ≡ some e
  stored = lookup-insert_self e.ref e s.entries

  evict_nothing :
      leb (bucket_size e.bucket s.entries + e.byte_size) p.byte_budget ≡ true
      → evict_to_budget e.bucket e.ref (added e s) ≡ (ok tt, added e s)
  unfolding evict_to_budget
  evict_nothing within = ground (arith, counter, stored, n.known)

  evict_some :
      leb (bucket_size e.bucket s.entries + e.byte_size) p.byte_budget ≡ false
      → ltb p.byte_budget (pinned_size e.bucket (added e s).entries + e.byte_size) ≡ false
      → evict_to_budget e.bucket e.ref (added e s)
        ≡ evict_loop (suc (length (added e s).entries)) e.bucket e.ref p.byte_budget (added e s)
  unfolding evict_to_budget
  evict_some over fits = ground (arith, counter, stored, n.known)

  roll_back :
      (s1 : Store)
      → remove e.ref (added e s) ≡ (ok tt, s1)
      → leb (bucket_size e.bucket s.entries + e.byte_size) p.byte_budget ≡ false
      → ltb p.byte_budget (pinned_size e.bucket (added e s).entries + e.byte_size) ≡ true
      → evict_to_budget e.bucket e.ref (added e s) ≡ (raised (value_error no_capacity), s1)
  unfolding evict_to_budget
  roll_back s1 gone over tight = ground (arith, counter, stored, n.known)

  removed-added : removed e.ref e (added e s) ≡ s
  removed-added = λ i. record s { entries = gone i; bucket_bytes = counted i }
    where
      gone : erase e.ref (insert e.ref e s.entries) ≡ s.entries
      gone = erase-insert_new e.ref e s.entries n.fresh

      size : ℕ
      size = bucket_size e.bucket s.entries

      less : bucket_size e.bucket (added e s).entries - e.byte_size ≡ size
      less = ground (arith, bucket_size-added e.bucket)

      counted : (removed e.ref e (added e s)).bucket_bytes ≡ s.bucket_bytes
      counted =
          ap (λ m. insert e.bucket m (added e s).bucket_bytes) less
          ∙ insert-insert e.bucket size (size + e.byte_size) s.bucket_bytes
          ∙ insert_same e.bucket size s.bucket_bytes (v.exact.counted e.bucket p n.known)

  -- The bytes that are pinned are part of the bucket's.
  pinned_size-le : pinned_size e.bucket s.entries ≤ bucket_size e.bucket s.entries
  pinned_size-le =
      sum_by-le (size_if (pinned_in e.bucket)) (size_if (in_bucket e.bucket)) s.entries
        (AllItems-of_lookup _ s.entries v.exact.distinct (λ k d h. ground arith))

  Evicted-IsValid :
      (s' : Store)
      → Evicted e.bucket e.ref (added e s) s'
      → bucket_size e.bucket s'.entries ≤ p.byte_budget
      → IsValid s'
  Evicted-IsValid s' after within = record {
    exact = after.exact;
    bounded = λ b q h.
        let known : lookup b s.policies ≡ some q = rw (← after.policies) h in
        let less =
          sum_by-subset (size_if (in_bucket b)) s'.entries (added e s).entries after.exact.distinct
            added-IsExact.distinct after.subset in
        elim (same_text e.bucket b) [
          | yes here ↦
              let known' : lookup b s.policies ≡ some p = rw (← here) n.known in
              let same : p ≡ q = cc (known, known') in
              subst (λ t. bucket_size b s'.entries ≤ t.byte_budget) same
                (subst (λ t. bucket_size t s'.entries ≤ p.byte_budget) here within)
          | no other ↦ ground (arith, less, bucket_size-added b, v.bounded b q known)
        ];
  }

  -- With room beside the pinned entries of its bucket, a new entry goes in.
  pub place_fits :
      pinned_size e.bucket s.entries + e.byte_size ≤ p.byte_budget
      → (s' : Store) × (place e s ≡ (ok tt, s'))
        × Evicted e.bucket e.ref (added e s) s'
        × IsValid s'
  place_fits fits =
      elim (Bool-cases (leb (bucket_size e.bucket s.entries + e.byte_size) p.byte_budget)) [
        | inl within ↦
            let none_gone = Evicted-refl e.bucket e.ref (added e s) added-IsExact in
            (
              added e s,
              place-added ∙ evict_nothing within,
              none_gone,
              Evicted-IsValid (added e s) none_gone (ground (arith, bucket_size-added e.bucket)),
            )
        | inr over ↦
            let (s', runs, after, within) =
              evict_loop-Ends e.bucket e.ref p (suc (length (added e s).entries)) (added e s) e room
                (omega arith) in
            (
              s',
              place-added ∙ evict_some over (ground (arith, pinned_size-added)) ∙ runs,
              after,
              Evicted-IsValid s' after within,
            )
      ]
    where
      room : HasRoom e.bucket e.ref p (added e s) e
      room = record {
        exact = added-IsExact;
        known = n.known;
        there = stored;
        fits = omega (arith, pinned_size-added);
      }

  -- Without it, the entry is refused and nothing has changed.
  pub place_refused :
      p.byte_budget < pinned_size e.bucket s.entries + e.byte_size
      → place e s ≡ (raised (value_error no_capacity), s)
  place_refused tight =
      place-added
      ∙ roll_back s
          (remove-removed (added e s) added-IsExact e.ref e stored
            ∙ ap (λ t. (ok tt, t)) removed-added)
          (ground (arith, pinned_size-le)) (ground (arith, pinned_size-added))
