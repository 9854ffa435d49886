-- ===== src/Assets/History.antt =====
-- Any sequence of calls on the asset store, each under its lock: the store stays valid, and what is
-- pinned stays in.
use stability_toys.Prelude.{
  ℕ, ◌+◌, ◌<◌, ◌≡◌, ◌≢◌, refl, sym, ◌∙◌, String, List, none, some, arith, length, Bool-cases,
  Option-cases, inl, inr, subst, dec_le,
}
use stability_toys.Prelude.Dict.{Dict, lookup, sum_by-subset, lookup-insert_ne}
use stability_toys.Assets.Model.{
  BucketPolicy, MetaValue, Bytes, AssetEntry, Store, in_bucket, size_if,
}
use stability_toys.Assets.Store.{write}
use stability_toys.Assets.Accounting.{IsExact}
use stability_toys.Assets.Eviction.{pinned_size, Evicted}
use stability_toys.Assets.Placement.{IsValid, added}
use stability_toys.Assets.Methods.{new_entry, write_fits, write_refused}
use stability_toys.Assets.Cleanup.{Without, member}

-- A call that can only take entries away keeps the store valid.
pub shrink-IsValid :
    (s s' : Store)
    → IsValid s
    → IsExact s'
    → s'.policies ≡ s.policies
    → ((k : String) (e : AssetEntry) → lookup k s'.entries ≡ some e → lookup k s.entries ≡ some e)
    → IsValid s'
shrink-IsValid s s' v x same sub = record {
  exact = x;
  bounded = λ b p h.
      let known : lookup b s.policies ≡ some p = rw (← same) h in
      let less =
        sum_by-subset (size_if (in_bucket b)) s'.entries s.entries x.distinct v.exact.distinct
          sub in
      omega (arith, v.bounded b p known);
}

pub Without-subset :
    (refs : List String) (s s' : Store)
    → Without refs s s'
    → (k : String) (e : AssetEntry) → lookup k s'.entries ≡ some e
    → lookup k s.entries ≡ some e
Without-subset refs s s' w k e h = elim (Bool-cases (member k refs)) [
  | inl out ↦ let gone = w.gone k out in cc (gone, h)
  | inr stays ↦ sym (w.kept k stays) ∙ h
]

-- What a call did to an entry: it is still there, with its content and its bucket, and pinned.
pub record StillPinned (k : String) (e : AssetEntry) (s : Store) : Type 0 where
  pub now_entry : AssetEntry
  pub there : lookup k s.entries ≡ some now_entry
  pub same_content : now_entry.content ≡ e.content
  pub pinned : 0 < now_entry.pin_count

-- A place where the entry did not change.
pub unchanged :
    (k : String) (e : AssetEntry) (s : Store)
    → 0 < e.pin_count
    → lookup k s.entries ≡ some e
    → StillPinned k e s
unchanged k e s p h = record { now_entry = e; there = h; same_content = refl; pinned = p }

-- A store after a call: valid, and with every pinned entry of before.
pub record Preserved (s s' : Store) : Type 0 where
  pub valid : IsValid s'
  pub pins_kept :
      (k : String) (e : AssetEntry)
      → lookup k s.entries ≡ some e
      → 0 < e.pin_count
      → StillPinned k e s'

pub Preserved-refl : (s : Store) → IsValid s → Preserved s s
Preserved-refl s v = record { valid = v; pins_kept = λ k e h p. unchanged k e s p h }

pub place-Preserved :
    (s s' : Store) (e : AssetEntry)
    → lookup e.ref s.entries ≡ none
    → Evicted e.bucket e.ref (added e s) s'
    → IsValid s'
    → Preserved s s'
place-Preserved s s' e fresh after valid = record {
  valid = valid;
  pins_kept = λ k d h p.
      let other : e.ref ≢ k =
        λ same. (let both : lookup e.ref s.entries ≡ some d = rw same h in cc (fresh, both)) in
      unchanged k d s' p
        (after.kept k d (lookup-insert_ne e.ref k e s.entries other ∙ h) (ground arith));
}

module _ (now : ℕ) (ref bucket : String) (content : Bytes) (metadata : Dict MetaValue) (s : Store)
    (v : IsValid s) (fresh : lookup ref s.entries ≡ none) where
  write-known :
      (p : BucketPolicy)
      → lookup bucket s.policies ≡ some p
      → Preserved s (write now ref bucket content metadata s).1
  write-known p known =
      elim (dec_le (pinned_size bucket s.entries + length content) p.byte_budget) [
        | yes fits ↦
            let (s', runs, valid, has, after) =
              write_fits now ref bucket content metadata s v fresh p known fits in
            subst (λ r. Preserved s r.1) (sym runs)
              (place-Preserved s s' (new_entry now ref bucket content metadata) fresh after valid)
        | no tight ↦
            let (r, runs) = write_refused now ref bucket content metadata s v fresh (λ q h.
              let same : p ≡ q = cc (known, h) in
              subst (λ t. t.byte_budget < pinned_size bucket s.entries + length content) same
                (omega arith)) in
            subst (λ t. Preserved s t.1) (sym runs) (Preserved-refl s v)
      ]

  pub write-Preserved : Preserved s (write now ref bucket content metadata s).1
  write-Preserved = elim (Option-cases (lookup bucket s.policies)) [
    | inl unknown ↦
        let (r, runs) =
          write_refused now ref bucket content metadata s v fresh (λ q h. cc (unknown, h)) in
        subst (λ t. Preserved s t.1) (sym runs) (Preserved-refl s v)
    | inr (p, known) ↦ write-known p known
  ]
