-- ===== src/Assets/Cleanup.antt =====
-- `cleanup_expired` removes exactly the unpinned entries that are past their bucket's TTL.
use stability_toys.Prelude.{
  ℕ, ◌≡◌, ◌≢◌, refl, sym, ◌∙◌, String, Bool, true, false, List, [], ◌∷◌, none, some, arith,
  same_text, Option-cases, inl, inr, subst, ◌||◌, ◌&&◌, ◌+◌, ◌==◌, ltb, if◌then◌else◌,
}
use stability_toys.Prelude.Dict.{
  Dict, lookup, erase, IsDict, AllItems, AllItems-of_lookup, lookup-erase_ne, lookup-erase_self,
}
use stability_toys.Prelude.Effects.{ok}
use stability_toys.Assets.Model.{BucketPolicy, AssetEntry, Store, text_eq}
use stability_toys.Assets.Store.{remove}
use stability_toys.Assets.Upkeep.{is_expired, expired_refs, remove_all, cleanup_expired}
use stability_toys.Assets.Accounting.{IsExact, removed, remove-removed, removed-IsExact}

-- `ref in refs`
abbrev pub member : String → List String → Bool
member ref [] = false
member ref (r ∷ refs) = text_eq r ref || member ref refs

abbrev pub IsDistinct : List String → Type 0
IsDistinct [] = Unit
IsDistinct (r ∷ refs) = (member r refs ≡ false) × IsDistinct refs

abbrev AllPresent : Dict AssetEntry → List String → Type 0
AllPresent d refs = (r : String) → member r refs ≡ true → lookup r d ≢ none

-- `s'` is `s` without the entries named in `refs`.
pub record Without (refs : List String) (s s' : Store) : Type 0 where
  pub exact : IsExact s'
  pub policies : s'.policies ≡ s.policies
  pub gone : (r : String) → member r refs ≡ true → lookup r s'.entries ≡ none
  pub kept : (r : String) → member r refs ≡ false → lookup r s'.entries ≡ lookup r s.entries

member_ne :
    (r q : String) (refs : List String) → member r refs ≡ false → member q refs ≡ true → r ≢ q
member_ne r q refs out within same =
    let both : member r refs ≡ true = rw same within in cc (both, out)

remove_all_step :
    (r : String) (refs : List String) (s s1 : Store)
    → remove r s ≡ (ok tt, s1)
    → remove_all (r ∷ refs) s ≡ remove_all refs s1
unfolding remove_all
remove_all_step r refs s s1 h = ground arith

Without-cons :
    (r : String) (refs : List String) (s s' : Store) (e : AssetEntry)
    → IsExact s
    → member r refs ≡ false
    → Without refs (removed r e s) s'
    → Without (r ∷ refs) s s'
Without-cons r refs s s' e x new w = record {
  exact = w.exact;
  policies = w.policies;
  gone = λ q h. elim (same_text r q) [
    | yes here ↦
        let after : lookup r s'.entries ≡ none =
          w.kept r new ∙ lookup-erase_self r s.entries x.distinct in
        subst (λ t. lookup t s'.entries ≡ none) here after
    | no other ↦ w.gone q (ground arith)
  ];
  kept = λ q h.
      let other : r ≢ q = λ same. ground arith in
      w.kept q (ground arith) ∙ lookup-erase_ne r q s.entries other;
}

remove_all-Without :
    (refs : List String) (s : Store)
    → IsExact s
    → IsDistinct refs
    → AllPresent s.entries refs
    → (s' : Store) × (remove_all refs s ≡ (ok tt, s')) × Without refs s s'
unfolding remove_all
remove_all-Without [] s x d all =
    (s, refl, record { exact = x; policies = refl; gone = λ r h. cc; kept = λ r h. refl })
remove_all-Without (r ∷ refs) s x d all = elim (Option-cases (lookup r s.entries)) [
  | inl missing ↦ absurd (all r (ground arith) missing)
  | inr (e, found) ↦
      let (s', runs, w) =
        remove_all-Without refs (removed r e s) (removed-IsExact s x r e found) d.1
          (present_after e) in
      (
        s',
        remove_all_step r refs s (removed r e s) (remove-removed s x r e found) ∙ runs,
        Without-cons r refs s s' e x d.0 w,
      )
]
  where
    present_after : (e : AssetEntry) → AllPresent (erase r s.entries) refs
    present_after e q h gone =
        let other : r ≢ q = member_ne r q refs d.0 h in
        all q (ground arith) (sym (lookup-erase_ne r q s.entries other) ∙ gone)

-- An entry is due if it is unpinned, its bucket has a TTL, and more time than that has passed since
-- it was made.
abbrev pub is_due : ℕ → Dict BucketPolicy → AssetEntry → Bool
is_due now policies e = elim (lookup e.bucket policies) [
  | none ↦ false
  | some p ↦ elim p.ttl_s [
    | none ↦ false
    | some ttl ↦ e.pin_count == 0 && ltb (e.created_at + ttl) now
  ]
]

abbrev pub due_refs : ℕ → Dict BucketPolicy → Dict AssetEntry → List String
due_refs now policies [] = []
due_refs now policies ((ref, e) ∷ d) =
    if is_due now policies e then ref ∷ due_refs now policies d else due_refs now policies d

is_expired-due :
    (now : ℕ) (policies : Dict BucketPolicy) (e : AssetEntry)
    → elim (lookup e.bucket policies) [ none ↦ false | some p ↦ is_expired now p.ttl_s e ]
      ≡ is_due now policies e
is_expired-due now policies e = ground arith

expired_refs-due :
    (now : ℕ) (s : Store) (d : Dict AssetEntry)
    → AllItems (λ _ e. lookup e.bucket s.policies ≢ none) d
    → expired_refs now d s ≡ (ok (due_refs now s.policies d), s)
unfolding expired_refs
expired_refs-due now s [] h = refl
expired_refs-due now s ((k, e) ∷ d) h =
    let test = is_expired-due now s.policies e in ground (arith, test, expired_refs-due now s d h.1)

module _ (now : ℕ) (policies : Dict BucketPolicy) where
  member-due :
      (d : Dict AssetEntry) (r : String)
      → IsDict d
      → member r (due_refs now policies d)
        ≡ elim (lookup r d) [ none ↦ false | some e ↦ is_due now policies e ]
  unfolding lookup
  member-due [] r h = refl
  member-due ((k, e) ∷ d) r h = ground (arith, member-due d r h.1)

  due-IsDistinct : (d : Dict AssetEntry) → IsDict d → IsDistinct (due_refs now policies d)
  due-IsDistinct [] h = tt
  due-IsDistinct ((k, e) ∷ d) h = ground (arith, due-IsDistinct d h.1, member-due d k h.1)

-- From a store whose counters are exact, a clean-up never raises. It names the entries that it
-- removes: those that are unpinned, in a bucket with a TTL, and made longer ago than that. Every other entry
-- stays as it was, and the counters stay exact.
pub cleanup_expired-Without :
    (now : ℕ) (s : Store)
    → IsExact s
    → (s' : Store) × (cleanup_expired now s ≡ (ok (due_refs now s.policies s.entries), s'))
      × Without (due_refs now s.policies s.entries) s s'
      × ((k : String)
          → member k (due_refs now s.policies s.entries)
            ≡ elim (lookup k s.entries) [ none ↦ false | some e ↦ is_due now s.policies e ])
unfolding cleanup_expired
cleanup_expired-Without now s x =
    let refs = due_refs now s.policies s.entries in
    let mem = member-due now s.policies s.entries in
    let known =
      AllItems-of_lookup (λ _ e. lookup e.bucket s.policies ≢ none) s.entries x.distinct
        (λ k e h gone. let n = x.named k e h in cc (n.in_known_bucket, gone)) in
    let (s', runs, w) =
      remove_all-Without refs s x (due-IsDistinct now s.policies s.entries x.distinct)
        (λ r h gone. ground (arith, mem r x.distinct)) in
    (s', ground (arith, expired_refs-due now s s.entries known), w, λ k. mem k x.distinct)
