-- ===== src/Assets/Calls.antt =====
-- `promote`, `admit` and `cleanup_expired` keep the store valid and its pinned entries in.
use stability_toys.Prelude.{
  ℕ, ◌+◌, ◌≡◌, sym, ◌∙◌, String, false, Option, none, some, arith, length, Bool-cases, Option-cases,
  inl, inr, subst, dec_le, ltb, ◌⊎◌,
}
use stability_toys.Prelude.Dict.{Dict, lookup, insert}
use stability_toys.Assets.Model.{BucketPolicy, MetaValue, Bytes, AssetEntry, Store, text}
use stability_toys.Assets.Store.{place, write}
use stability_toys.Assets.Upkeep.{merge, admit, cleanup_expired, promote, prepare_promotion}
use stability_toys.Assets.Eviction.{pinned_size}
use stability_toys.Assets.Placement.{IsValid, IsNew, place_fits, place_refused}
use stability_toys.Assets.Cleanup.{cleanup_expired-Without, due_refs, member}
use stability_toys.Assets.History.{
  shrink-IsValid, Without-subset, unchanged, Preserved, Preserved-refl, place-Preserved,
  write-Preserved,
}

-- What a promotion is once its target, its source and its image are found.
pub promote-write :
    (describe : Bytes → Option (Dict MetaValue)) (now : ℕ) (fresh ref target : String) (s : Store)
    (p : BucketPolicy) (e : AssetEntry) (image : Dict MetaValue)
    → lookup target s.policies ≡ some p
    → lookup ref s.entries ≡ some e
    → describe e.content ≡ some image
    → promote describe now fresh ref target s
      ≡ write now fresh target e.content
          (merge
            (insert "source_asset_ref" (text ref) (insert "origin" (text "promoted") e.metadata))
            image)
          s
unfolding promote prepare_promotion
promote-write describe now fresh ref target s p e image known found drawn = ground arith

-- Every other promotion raises and leaves the store as it was.
promote_refused :
    (describe : Bytes → Option (Dict MetaValue)) (now : ℕ) (fresh ref target : String) (s : Store)
    → ((p : BucketPolicy) (e : AssetEntry) (image : Dict MetaValue)
        → lookup target s.policies ≡ some p
        → lookup ref s.entries ≡ some e
        → describe e.content ≡ some image
        → ⊥)
    → (promote describe now fresh ref target s).1 ≡ s
unfolding promote prepare_promotion
promote_refused describe now fresh ref target s never =
    elim (Option-cases (lookup target s.policies)) [
      | inl unknown ↦ ground arith
      | inr (p, known) ↦ elim (Option-cases (lookup ref s.entries)) [
        | inl gone ↦ ground arith
        | inr (e, found) ↦ elim (Option-cases (describe e.content)) [
          | inl no_image ↦ ground arith
          | inr (image, drawn) ↦ absurd (never p e image known found drawn)
        ]
      ]
    ]

pub promote-Preserved :
    (describe : Bytes → Option (Dict MetaValue)) (now : ℕ) (fresh ref target : String) (s : Store)
    → IsValid s
    → lookup fresh s.entries ≡ none
    → Preserved s (promote describe now fresh ref target s).1
promote-Preserved describe now fresh ref target s v new =
    elim (Option-cases (lookup target s.policies)) [
      | inl unknown ↦ stays (λ p e image known found drawn. cc (unknown, known))
      | inr (p, known) ↦ elim (Option-cases (lookup ref s.entries)) [
        | inl gone ↦ stays (λ q e image has found drawn. cc (gone, found))
        | inr (e, found) ↦ elim (Option-cases (describe e.content)) [
          | inl no_image ↦ stays λ q d image has there drawn.
              let same : e ≡ d = cc (found, there) in
              let other : describe e.content ≡ some image = rw same drawn in cc (no_image, other)
          | inr (image, drawn) ↦
              subst (λ r. Preserved s r.1)
                (sym (promote-write describe now fresh ref target s p e image known found drawn))
                (write-Preserved now fresh target e.content _ s v new)
        ]
      ]
    ]
  where
    stays :
        ((p : BucketPolicy) (e : AssetEntry) (image : Dict MetaValue)
          → lookup target s.policies ≡ some p
          → lookup ref s.entries ≡ some e
          → describe e.content ≡ some image
          → ⊥)
        → Preserved s (promote describe now fresh ref target s).1
    stays never =
        subst (Preserved s) (sym (promote_refused describe now fresh ref target s never))
          (Preserved-refl s v)

admit_runs :
    (e : AssetEntry) (s : Store)
    → ((admit e s).1 ≡ s)
      ⊎ ((p : BucketPolicy) × (lookup e.bucket s.policies ≡ some p) × (admit e s ≡ place e s))
unfolding admit
admit_runs e s = elim (Option-cases (lookup e.bucket s.policies)) [
  | inl unknown ↦ inl (ground arith)
  | inr (p, known) ↦ elim (Bool-cases (ltb p.byte_budget e.byte_size)) [
    | inl large ↦ inl (ground arith)
    | inr small ↦ inr (p, known, ground arith)
  ]
]

pub admit-Preserved :
    (e : AssetEntry) (s : Store)
    → IsValid s
    → (lookup e.ref s.entries ≡ none) × (e.byte_size ≡ length e.content) × (e.pin_count ≡ 0)
    → Preserved s (admit e s).1
admit-Preserved e s v (fresh, sized, unpinned) = elim (admit_runs e s) [
  | inl stays ↦ subst (Preserved s) (sym stays) (Preserved-refl s v)
  | inr (p, known, runs) ↦
      let n : IsNew s e p = record {
        fresh = fresh;
        known = known;
        sized = sized;
        unpinned = unpinned;
      } in
      elim (dec_le (pinned_size e.bucket s.entries + e.byte_size) p.byte_budget) [
        | yes fits ↦
            let (s', placed, after, valid) = place_fits s e p v n fits in
            subst (λ r. Preserved s r.1) (sym (runs ∙ placed))
              (place-Preserved s s' e fresh after valid)
        | no tight ↦
            subst (λ r. Preserved s r.1) (sym (runs ∙ place_refused s e p v n (omega arith)))
              (Preserved-refl s v)
      ]
]

pub cleanup-Preserved : (now : ℕ) (s : Store) → IsValid s → Preserved s (cleanup_expired now s).1
cleanup-Preserved now s v =
    let refs = due_refs now s.policies s.entries in
    let (s', runs, w, due) = cleanup_expired-Without now s v.exact in
    subst (λ r. Preserved s r.1) (sym runs)
      (record {
        valid = shrink-IsValid s s' v w.exact w.policies (Without-subset refs s s' w);
        pins_kept = λ k e h p.
            let spared : member k refs ≡ false = ground (arith, due k) in
            unchanged k e s' p (w.kept k spared ∙ h);
      })
