-- ===== src/Assets/Eviction.antt =====
-- `_evict_to_budget`: its loop ends within the budget, evicts the least recently used, and touches
-- nothing that is pinned, new or in another bucket.
use stability_toys.Prelude.{
  ℕ, zero, suc, ◌+◌, ◌≤◌, ◌<◌, ◌≡◌, ◌≢◌, refl, sym, ◌∙◌, String, Bool, true, false, List, [], ◌∷◌,
  none, some, arith, same_text, length, leb, Bool-cases, inl, inr, subst, leb→le,
}
use stability_toys.Prelude.Dict.{
  Dict, lookup, erase, values, AllItems-of_lookup, lookup-of_AllItems, sum_by, sum_by-erase,
  sum_by-le, lookup-erase_ne, lookup-of-erase, erase-IsDict, length-erase,
}
use stability_toys.Prelude.Effects.{ok}
use stability_toys.Assets.Model.{
  BucketPolicy, AssetEntry, Store, in_bucket, pinned_in, is_candidate, size_if, oldest_from, select,
}
use stability_toys.Assets.Store.{remove, evict_loop}
use stability_toys.Assets.Accounting.{
  bucket_size, IsExact, removed, remove-removed, removed-IsExact,
}
use stability_toys.Assets.Oldest.{All, All-select, All-of_select, oldest_from-All, oldest_from-le}

abbrev pub pinned_size : String → Dict AssetEntry → ℕ
pinned_size bucket = sum_by (size_if (pinned_in bucket))

-- What an eviction in `bucket` may do to the store while `protect` goes in.
pub record Evicted (bucket protect : String) (s s' : Store) : Type 0 where
  pub exact : IsExact s'
  pub policies : s'.policies ≡ s.policies
  pub subset :
      (k : String) (e : AssetEntry) → lookup k s'.entries ≡ some e → lookup k s.entries ≡ some e
  pub kept :
      (k : String) (e : AssetEntry)
      → lookup k s.entries ≡ some e
      → is_candidate bucket protect e ≡ false
      → lookup k s'.entries ≡ some e
  pub oldest_first :
      (j k : String) (d e : AssetEntry)
      → lookup j s.entries ≡ some d
      → lookup j s'.entries ≡ none
      → lookup k s'.entries ≡ some e
      → is_candidate bucket protect e ≡ true
      → d.last_accessed ≤ e.last_accessed

pub Evicted-refl : (bucket protect : String) (s : Store) → IsExact s → Evicted bucket protect s s
Evicted-refl bucket protect s x = record {
  exact = x;
  policies = refl;
  subset = λ k e h. h;
  kept = λ k e h _. h;
  oldest_first = λ j k d e h gone _ _. absurd (cc (h, gone));
}

clash : {b : Bool} → b ≡ true → b ≡ false → ⊥
clash p q = cc

candidate-ref :
    (bucket protect : String) (v : AssetEntry)
    → is_candidate bucket protect v ≡ true
    → v.ref ≢ protect
candidate-ref bucket protect v h = ground arith

size_if-le : (test : AssetEntry → Bool) (e : AssetEntry) → size_if test e ≤ e.byte_size
size_if-le test e = ground arith

-- An entry that may go, and that is at least as old as all others that may.
record IsVictim (bucket protect : String) (s : Store) (v : AssetEntry) : Type 0 where
  stored : lookup v.ref s.entries ≡ some v
  candidate : is_candidate bucket protect v ≡ true
  oldest :
      (k : String) (e : AssetEntry)
      → lookup k s.entries ≡ some e
      → is_candidate bucket protect e ≡ true
      → v.last_accessed ≤ e.last_accessed

module _ (bucket protect : String) (s : Store) (x : IsExact s) where
  IsVictim-of_select :
      (e : AssetEntry) (es : List AssetEntry)
      → select (is_candidate bucket protect) (values s.entries) ≡ e ∷ es
      → IsVictim bucket protect s (oldest_from e es)
  IsVictim-of_select e es chosen =
      let test = is_candidate bucket protect in
      let Q : AssetEntry → Type 0 = λ v. lookup v.ref s.entries ≡ some v in
      let here = AllItems-of_lookup (λ _ v. Q v) s.entries x.distinct under_ref in
      let both =
        subst (All (λ v. Q v × (test v ≡ true))) chosen (All-select Q test s.entries here) in
      let own = oldest_from-All (λ v. Q v × (test v ≡ true)) es e both.0 both.1 in
      let le = oldest_from-le es e in
      let bound : AssetEntry → Type 0 = λ v. (oldest_from e es).last_accessed ≤ v.last_accessed in
      let all = All-of_select bound test s.entries (subst (All bound) (sym chosen) le) in
      record {
        stored = own.0;
        candidate = own.1;
        oldest = lookup-of_AllItems (λ _ v. test v ≡ true → bound v) s.entries all;
      }
    where
      under_ref :
          (k : String) (v : AssetEntry)
          → lookup k s.entries ≡ some v
          → lookup v.ref s.entries ≡ some v
      under_ref k v h = subst (λ t. lookup t s.entries ≡ some v) (sym (x.named k v h).under_ref) h

  -- Over budget with room for the new entry, there is something to evict.
  candidates-ne-nil :
      (new : AssetEntry) (budget : ℕ)
      → lookup protect s.entries ≡ some new
      → pinned_size bucket s.entries + new.byte_size ≤ budget
      → budget < bucket_size bucket s.entries
      → select (is_candidate bucket protect) (values s.entries) ≢ []
  candidates-ne-nil new budget h fits over = λ empty.
      let none_left = All-of_select (λ _. ⊥) test d (subst (All (λ _. ⊥)) (sym empty) tt) in
      let pinned =
        AllItems-of_lookup (λ _ v. size_if (in_bucket bucket) v ≤ size_if (pinned_in bucket) v) rest
          (erase-IsDict protect d x.distinct)
          λ k v e.
            let (old, other) = lookup-of-erase protect k d x.distinct e in
            stays k v old other
              (lookup-of_AllItems (λ _ v. test v ≡ true → ⊥) d none_left k v old) in
      omega (
        arith,
        sum_by-le (size_if (in_bucket bucket)) (size_if (pinned_in bucket)) rest pinned,
        sum_by-erase (size_if (in_bucket bucket)) protect new d h,
        sum_by-erase (size_if (pinned_in bucket)) protect new d h,
        size_if-le (in_bucket bucket) new,
      )
    where
      d : Dict AssetEntry
      d = s.entries

      rest : Dict AssetEntry
      rest = erase protect d

      test : AssetEntry → Bool
      test = is_candidate bucket protect

      stays :
          (k : String) (v : AssetEntry)
          → lookup k d ≡ some v
          → protect ≢ k
          → ¬ (test v ≡ true)
          → size_if (in_bucket bucket) v ≤ size_if (pinned_in bucket) v
      stays k v old other no_candidate =
          let same = (x.named k v old).under_ref in ground (arith, no_candidate)

module _ (bucket protect : String) (p : BucketPolicy) where
  -- One round of the loop.
  Evicted-cons :
      (s s' : Store) (v : AssetEntry)
      → IsExact s
      → IsVictim bucket protect s v
      → Evicted bucket protect (removed v.ref v s) s'
      → Evicted bucket protect s s'
  Evicted-cons s s' v x victim after = record {
    exact = after.exact;
    policies = after.policies;
    subset = λ k e h. (lookup-of-erase v.ref k s.entries x.distinct (after.subset k e h)).0;
    kept = λ k e h stays. after.kept k e (survives k e h stays) stays;
    oldest_first = λ j k d e had gone has may. elim (same_text v.ref j) [
      | yes here ↦
          let old = (lookup-of-erase v.ref k s.entries x.distinct (after.subset k e has)).0 in
          let is_v : v ≡ d = is_victim j d had here in
          subst (λ t. t.last_accessed ≤ e.last_accessed) is_v (victim.oldest k e old may)
      | no other ↦
          after.oldest_first j k d e (lookup-erase_ne v.ref j s.entries other ∙ had) gone has may
    ];
  }
    where
      is_victim : (j : String) (d : AssetEntry) → lookup j s.entries ≡ some d → v.ref ≡ j → v ≡ d
      is_victim j d had here =
          let same : lookup v.ref s.entries ≡ some d = rw here had in cc (victim.stored, same)

      survives :
          (k : String) (e : AssetEntry)
          → lookup k s.entries ≡ some e
          → is_candidate bucket protect e ≡ false
          → lookup k (erase v.ref s.entries) ≡ some e
      survives k e h stays = elim (same_text v.ref k) [
        | yes here ↦
            let is_e : v ≡ e = is_victim k e h here in
            let may = subst (λ t. is_candidate bucket protect t ≡ true) is_e victim.candidate in
            absurd (clash may stays)
        | no other ↦ lookup-erase_ne v.ref k s.entries other ∙ h
      ]

  evict_loop_stop :
      (fuel n budget : ℕ) (s : Store)
      → lookup bucket s.bucket_bytes ≡ some n
      → leb n budget ≡ true
      → evict_loop (suc fuel) bucket protect budget s ≡ (ok tt, s)
  unfolding evict_loop
  evict_loop_stop fuel n budget s counted within = ground arith

  evict_loop_round :
      (fuel n budget : ℕ) (s s1 : Store) (e : AssetEntry) (es : List AssetEntry)
      → lookup bucket s.bucket_bytes ≡ some n
      → leb n budget ≡ false
      → select (is_candidate bucket protect) (values s.entries) ≡ e ∷ es
      → remove (oldest_from e es).ref s ≡ (ok tt, s1)
      → evict_loop (suc fuel) bucket protect budget s ≡ evict_loop fuel bucket protect budget s1
  unfolding evict_loop
  evict_loop_round fuel n budget s s1 e es counted over chosen gone = ground arith

  -- The bucket has room for the new entry, once enough else is evicted.
  pub record HasRoom (s : Store) (new : AssetEntry) : Type 0 where
    pub exact : IsExact s
    pub known : lookup bucket s.policies ≡ some p
    pub there : lookup protect s.entries ≡ some new
    pub fits : pinned_size bucket s.entries + new.byte_size ≤ p.byte_budget

  -- The loop ends, with no exception, within the budget.
  abbrev pub Ends : ℕ → Store → Type 0
  Ends fuel s =
      (s' : Store) × (evict_loop fuel bucket protect p.byte_budget s ≡ (ok tt, s'))
      × Evicted bucket protect s s'
      × (bucket_size bucket s'.entries ≤ p.byte_budget)

  removed-HasRoom :
      (s : Store) (new v : AssetEntry)
      → HasRoom s new
      → IsVictim bucket protect s v
      → HasRoom (removed v.ref v s) new
  removed-HasRoom s new v r victim = record {
    exact = removed-IsExact s r.exact v.ref v victim.stored;
    known = r.known;
    there =
        lookup-erase_ne v.ref protect s.entries (candidate-ref bucket protect v victim.candidate)
        ∙ r.there;
    fits =
        let fits = r.fits in
        omega (arith, sum_by-erase (size_if (pinned_in bucket)) v.ref v s.entries victim.stored);
  }

  Ends-round :
      (fuel : ℕ) (s : Store) (new : AssetEntry)
      → HasRoom s new
      → length s.entries < suc fuel
      → ((s1 : Store) → HasRoom s1 new → length s1.entries < fuel → Ends fuel s1)
      → leb (bucket_size bucket s.entries) p.byte_budget ≡ false
      → (cs : List AssetEntry) → select (is_candidate bucket protect) (values s.entries) ≡ cs
      → Ends (suc fuel) s
  Ends-round fuel s new r short rec over [] empty = absurd (
      candidates-ne-nil bucket protect s r.exact new p.byte_budget r.there r.fits (ground arith)
        empty)
  Ends-round fuel s new r short rec over (e ∷ es) chosen =
      let v = oldest_from e es in
      let victim = IsVictim-of_select bucket protect s r.exact e es chosen in
      let (s', runs, evicted, within) =
        rec (removed v.ref v s) (removed-HasRoom s new v r victim)
          (omega (arith, length-erase v.ref v s.entries victim.stored)) in
      let round =
        evict_loop_round fuel (bucket_size bucket s.entries) p.byte_budget s (removed v.ref v s) e
          es (r.exact.counted bucket p r.known) over chosen
          (remove-removed s r.exact v.ref v victim.stored) in
      (s', round ∙ runs, Evicted-cons s s' v r.exact victim evicted, within)

  pub evict_loop-Ends :
      (fuel : ℕ) (s : Store) (new : AssetEntry)
      → HasRoom s new
      → length s.entries < fuel
      → Ends fuel s
  evict_loop-Ends zero s new r short = absurd (omega arith)
  evict_loop-Ends (suc fuel) s new r short =
      let size = bucket_size bucket s.entries in
      let counted = r.exact.counted bucket p r.known in
      elim (Bool-cases (leb size p.byte_budget)) [
        | inl within ↦ (
          s,
          evict_loop_stop fuel size p.byte_budget s counted within,
          Evicted-refl bucket protect s r.exact,
          leb→le size p.byte_budget within,
        )
        | inr over ↦
            Ends-round fuel s new r short (λ s1. evict_loop-Ends fuel s1 new) over
              (select (is_candidate bucket protect) (values s.entries)) refl
      ]
