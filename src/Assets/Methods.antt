-- ===== src/Assets/Methods.antt =====
-- The methods of the asset store, branch by branch: `write`, `admit`, `resolve`, `pin`, `unpin`.
use stability_toys.Prelude.{
  ℕ, ◌+◌, ◌-◌, ◌≤◌, ◌<◌, ◌≡◌, refl, sym, ◌∙◌, String, true, false, none, some, arith, same_text,
  length, ltb, Bool-cases, Option-cases, inl, inr, ◌⊎◌, subst, ap,
}
use stability_toys.Prelude.Dict.{
  Dict, lookup, insert, sum_by-insert_old, lookup-insert_self, lookup-insert_ne, insert-IsDict,
}
use stability_toys.Prelude.Effects.{ok, raised}
use stability_toys.Assets.Model.{
  BucketPolicy, MetaValue, Bytes, AssetEntry, Store, in_bucket, size_if, Reason, unknown_bucket,
  over_budget, no_capacity, not_pinnable, not_pinned, key_error, value_error,
}
use stability_toys.Assets.Store.{write, resolve, pin, unpin}
use stability_toys.Assets.Accounting.{bucket_size, IsNamed}
use stability_toys.Assets.Eviction.{pinned_size, Evicted}
use stability_toys.Assets.Placement.{IsValid, added, IsNew, place_fits, place_refused}

-- The entry that `write` makes.
abbrev pub new_entry : ℕ → String → String → Bytes → Dict MetaValue → AssetEntry
new_entry now ref bucket content metadata = record {
  ref = ref;
  content = content;
  bucket = bucket;
  created_at = now;
  last_accessed = now;
  byte_size = length content;
  metadata = metadata;
  pin_count = 0;
}

module _ (now : ℕ) (ref bucket : String) (content : Bytes) (metadata : Dict MetaValue) (s : Store)
    (v : IsValid s) (fresh : lookup ref s.entries ≡ none) where
  new_entry-IsNew :
      (p : BucketPolicy)
      → lookup bucket s.policies ≡ some p
      → IsNew s (new_entry now ref bucket content metadata) p
  new_entry-IsNew p known = record { fresh = fresh; known = known; sized = refl; unpinned = refl }

  -- A write into a known bucket whose pinned entries leave room for it returns its fresh name. The
  -- store stays valid, and then holds the new entry and every old one that is pinned or in another
  -- bucket; what was evicted from the bucket is no more recently used than the unpinned entries that
  -- stayed there, other than the new one.
  pub write_fits :
      (p : BucketPolicy)
      → lookup bucket s.policies ≡ some p
      → pinned_size bucket s.entries + length content ≤ p.byte_budget
      → let e = new_entry now ref bucket content metadata in
        (s' : Store) × (write now ref bucket content metadata s ≡ (ok ref, s'))
        × IsValid s'
        × (lookup ref s'.entries ≡ some e)
        × Evicted bucket ref (added e s) s'
  unfolding write
  write_fits p known fits =
      let e = new_entry now ref bucket content metadata in
      let (s', runs, after, valid) = place_fits s e p v (new_entry-IsNew p known) fits in
      (
        s',
        ground arith,
        valid,
        after.kept ref e (lookup-insert_self ref e s.entries) (ground arith),
        after,
      )

  -- Every other write raises a ValueError and leaves the store as it was: an unknown bucket, an
  -- entry larger than the budget, or pinned entries that leave too little of it.
  pub write_refused :
      ((p : BucketPolicy)
        → lookup bucket s.policies ≡ some p
        → p.byte_budget < pinned_size bucket s.entries + length content)
      → (r : Reason) × (write now ref bucket content metadata s ≡ (raised (value_error r), s))
  unfolding write
  write_refused tight = elim (Option-cases (lookup bucket s.policies)) [
    | inl unknown ↦ (unknown_bucket, ground arith)
    | inr (p, known) ↦ elim (Bool-cases (ltb p.byte_budget (length content))) [
      | inl large ↦ (over_budget, ground arith)
      | inr small ↦
          let e = new_entry now ref bucket content metadata in
          let refused = place_refused s e p v (new_entry-IsNew p known) (tight p known) in
          (no_capacity, ground arith)
    ]
  ]

-- An update that keeps the size, the bucket and the content of an entry keeps the store valid.
module _ (s : Store) (v : IsValid s) (ref : String) (old new : AssetEntry)
    (found : lookup ref s.entries ≡ some old) (same_ref : new.ref ≡ old.ref)
    (same_content : new.content ≡ old.content) (same_bucket : new.bucket ≡ old.bucket)
    (same_size : new.byte_size ≡ old.byte_size) where
  bucket_size-update :
      (b : String) → bucket_size b (insert ref new s.entries) ≡ bucket_size b s.entries
  bucket_size-update b =
      let same : size_if (in_bucket b) new ≡ size_if (in_bucket b) old =
        rw (same_bucket, same_size) in
      omega (arith, sum_by-insert_old (size_if (in_bucket b)) ref new old s.entries found)

  pub update-IsValid : IsValid (record s { entries = insert ref new s.entries })
  update-IsValid = record {
    exact = record {
      distinct = insert-IsDict ref new s.entries v.exact.distinct;
      named = λ k e h. elim (same_text ref k) [
        | yes here ↦ own k e here h
        | no other ↦ v.exact.named k e (sym (lookup-insert_ne ref k new s.entries other) ∙ h)
      ];
      counted = λ b p h. v.exact.counted b p h ∙ ap some (sym (bucket_size-update b));
    };
    bounded = λ b p h. rw (bucket_size-update b) (v.bounded b p h);
  }
    where
      named : IsNamed s.policies ref old
      named = v.exact.named ref old found

      new-IsNamed : IsNamed s.policies ref new
      new-IsNamed = record {
        under_ref = same_ref ∙ named.under_ref;
        sized = same_size ∙ named.sized ∙ ap length (sym same_content);
        policy = named.policy;
        in_known_bucket = rw same_bucket named.in_known_bucket;
      }

      own :
          (k : String) (e : AssetEntry)
          → ref ≡ k
          → lookup k (insert ref new s.entries) ≡ some e
          → IsNamed s.policies k e
      own k e here h =
          let mine : lookup k (insert ref new s.entries) ≡ some new =
            rw (← here) (lookup-insert_self ref new s.entries) in
          let same : new ≡ e = cc (mine, h) in
          subst (IsNamed s.policies k) same (subst (λ t. IsNamed s.policies t new) here new-IsNamed)

module _ (s : Store) (v : IsValid s) (ref : String) where
  -- A call of `resolve` returns the entry with the time of the call, and only that time changes; a
  -- name that is not there is a KeyError.
  pub resolve_cases :
      (now : ℕ)
      → ((lookup ref s.entries ≡ none) × (resolve now ref s ≡ (raised key_error, s)))
        ⊎ ((e : AssetEntry) × (lookup ref s.entries ≡ some e)
            × (resolve now ref s ≡ (
              ok (record e { last_accessed = now }),
              record s { entries = insert ref (record e { last_accessed = now }) s.entries },
            ))
            × IsValid (resolve now ref s).1)
  unfolding resolve
  resolve_cases now = elim (Option-cases (lookup ref s.entries)) [
    | inl gone ↦ inl (gone, ground arith)
    | inr (e, found) ↦
        let new = record e { last_accessed = now } in
        let runs : resolve now ref s ≡ (ok new, record s { entries = insert ref new s.entries }) =
          ground arith in
        inr (
          e,
          found,
          runs,
          subst (λ r. IsValid r.1) (sym runs)
              (update-IsValid s v ref e new found refl refl refl refl),
        )
  ]

  module _ (e : AssetEntry) (p : BucketPolicy) (found : lookup ref s.entries ≡ some e)
      (known : lookup e.bucket s.policies ≡ some p) where
    -- In a pinnable bucket `pin` counts one more pin and the store stays valid.
    pub pin-IsValid :
        p.pinnable ≡ true
        → let s' = record s {
          entries = insert ref (record e { pin_count = e.pin_count + 1 }) s.entries;
        } in
          (pin ref s ≡ (ok tt, s')) × IsValid s'
    unfolding pin
    pin-IsValid allowed = (
      ground arith,
      update-IsValid s v ref e (record e { pin_count = e.pin_count + 1 }) found refl refl refl refl,
    )

    -- An `unpin` of a pinned entry counts one pin less.
    pub unpin-IsValid :
        p.pinnable ≡ true
        → 0 < e.pin_count
        → let s' = record s {
          entries = insert ref (record e { pin_count = e.pin_count - 1 }) s.entries;
        } in
          (unpin ref s ≡ (ok tt, s')) × IsValid s'
    unfolding unpin
    unpin-IsValid allowed pinned = (
      ground arith,
      update-IsValid s v ref e (record e { pin_count = e.pin_count - 1 }) found refl refl refl refl,
    )

    -- Neither does anything in a bucket that is not pinnable, and `unpin` nothing at no pins.
    pub pin_refused :
        p.pinnable ≡ false
        → (pin ref s ≡ (raised (value_error not_pinnable), s))
          × (unpin ref s ≡ (raised (value_error not_pinnable), s))
    unfolding pin unpin
    pin_refused fixed = (ground arith, ground arith)

    pub unpin_refused :
        p.pinnable ≡ true → e.pin_count ≡ 0 → unpin ref s ≡ (raised (value_error not_pinned), s)
    unfolding unpin
    unpin_refused allowed free = ground arith
