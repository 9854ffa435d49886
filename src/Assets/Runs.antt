-- ===== src/Assets/Runs.antt =====
-- The calls of the asset store as data, and runs of them.
use stability_toys.Prelude.{
  ℕ, ◌+◌, ◌-◌, ◌<◌, ◌≡◌, ◌≢◌, refl, sym, ◌∙◌, String, Option, none, some, arith, same_text, length,
  Bool-cases, Option-cases, inl, inr, subst, ap, ◌==◌, ◌⊎◌,
}
use stability_toys.Prelude.Dict.{Dict, lookup, insert, lookup-insert_ne, lookup-insert_self}
use stability_toys.Assets.Model.{MetaValue, Bytes, AssetEntry, Store}
use stability_toys.Assets.Store.{write, resolve, pin, unpin}
use stability_toys.Assets.Upkeep.{admit, discard, cleanup_expired, promote}
use stability_toys.Assets.Accounting.{IsExact, removed, remove-removed}
use stability_toys.Assets.Placement.{IsValid}
use stability_toys.Assets.Methods.{resolve_cases}
use stability_toys.Assets.History.{StillPinned, unchanged, Preserved, Preserved-refl}

pub data Call : Type 0 where
  writes : ℕ → String → String → Bytes → Dict MetaValue → Call
  resolves : ℕ → String → Call
  pins unpins discards : String → Call
  cleans_up : ℕ → Call
  promotes : ℕ → String → String → String → Call
  admits : AssetEntry → Call

module _ (describe : Bytes → Option (Dict MetaValue)) where
  -- The store after a call, whether it returned or raised.
  unfoldable pub step : Call → Store → Store
  step (writes now ref bucket content metadata) s = (write now ref bucket content metadata s).1
  step (resolves now ref) s = (resolve now ref s).1
  step (pins ref) s = (pin ref s).1
  step (unpins ref) s = (unpin ref s).1
  step (discards ref) s = (discard ref s).1
  step (cleans_up now) s = (cleanup_expired now s).1
  step (promotes now fresh ref target) s = (promote describe now fresh ref target s).1
  step (admits e) s = (admit e s).1

-- A fresh UUID is not in use, and an entry that is admitted is one that `decode` makes of a name
-- that memory does not hold: its size is that of its content, and it has no pins. The code does not
-- check it; `TieredAssetStore` admits an entry only after a miss.
abbrev pub IsAdmissible : Call → Store → Type 0
IsAdmissible (writes now ref bucket content metadata) s = lookup ref s.entries ≡ none
IsAdmissible (promotes now fresh ref target) s = lookup fresh s.entries ≡ none
IsAdmissible (admits e) s =
    (lookup e.ref s.entries ≡ none) × (e.byte_size ≡ length e.content) × (e.pin_count ≡ 0)
IsAdmissible _ s = Unit

-- Only `unpin` and `discard` of its own name can end a pin.
abbrev pub Spares : Call → String → Type 0
Spares (unpins ref) k = ref ≢ k
Spares (discards ref) k = ref ≢ k
Spares _ k = Unit

-- The new entry under `ref`, and every other entry as it was.
pub update-StillPinned :
    (s : Store) (ref k : String) (old new e : AssetEntry)
    → lookup ref s.entries ≡ some old
    → new.content ≡ old.content
    → (ref ≡ k → 0 < e.pin_count → 0 < new.pin_count)
    → lookup k s.entries ≡ some e
    → 0 < e.pin_count
    → StillPinned k e (record s { entries = insert ref new s.entries })
update-StillPinned s ref k old new e found content still h p = elim (same_text ref k) [
  | yes here ↦
      let mine : lookup k (insert ref new s.entries) ≡ some new =
        rw (← here) (lookup-insert_self ref new s.entries) in
      let found' : lookup k s.entries ≡ some old = rw (← here) found in
      let same : old ≡ e = cc (found', h) in
      record {
        now_entry = new;
        there = mine;
        same_content = content ∙ ap (λ t. t.content) same;
        pinned = still here p;
      }
  | no other ↦
      unchanged k e (record s { entries = insert ref new s.entries }) p
        (lookup-insert_ne ref k new s.entries other ∙ h)
]

pub resolve-Preserved :
    (now : ℕ) (ref : String) (s : Store) → IsValid s → Preserved s (resolve now ref s).1
resolve-Preserved now ref s v = elim (resolve_cases s v ref now) [
  | inl (gone, runs) ↦ subst (λ r. Preserved s r.1) (sym runs) (Preserved-refl s v)
  | inr (old, found, runs, valid) ↦ record {
    valid = valid;
    pins_kept = λ k e h p.
        subst (λ r. StillPinned k e r.1) (sym runs)
          (update-StillPinned s ref k old (record old { last_accessed = now }) e found refl
            (λ here q. own k e old here found h q) h p);
  }
]
  where
    own :
        (k : String) (e old : AssetEntry)
        → ref ≡ k
        → lookup ref s.entries ≡ some old
        → lookup k s.entries ≡ some e
        → 0 < e.pin_count
        → 0 < old.pin_count
    own k e old here found h q =
        let found' : lookup k s.entries ≡ some old = rw (← here) found in
        let same : e ≡ old = cc (found', h) in subst (λ t. 0 < t.pin_count) same q

-- `pin` adds a pin or changes nothing.
pub pin_runs :
    (ref : String) (s : Store)
    → IsValid s
    → ((pin ref s).1 ≡ s)
      ⊎ ((old : AssetEntry) × (lookup ref s.entries ≡ some old)
          × ((pin ref s).1 ≡ record s {
            entries = insert ref (record old { pin_count = old.pin_count + 1 }) s.entries;
          }))
unfolding pin
pin_runs ref s v = elim (Option-cases (lookup ref s.entries)) [
  | inl gone ↦ inl (ground arith)
  | inr (old, found) ↦
      let n = v.exact.named ref old found in
      let known = n.in_known_bucket in
      elim (Bool-cases n.policy.pinnable) [
        | inl allowed ↦ inr (old, found, ground arith)
        | inr fixed ↦ inl (ground arith)
      ]
]

pub unpin_runs :
    (ref : String) (s : Store)
    → IsValid s
    → ((unpin ref s).1 ≡ s)
      ⊎ ((old : AssetEntry) × (lookup ref s.entries ≡ some old)
          × ((unpin ref s).1 ≡ record s {
            entries = insert ref (record old { pin_count = old.pin_count - 1 }) s.entries;
          }))
unfolding unpin
unpin_runs ref s v = elim (Option-cases (lookup ref s.entries)) [
  | inl gone ↦ inl (ground arith)
  | inr (old, found) ↦
      let n = v.exact.named ref old found in
      let known = n.in_known_bucket in
      elim (Bool-cases n.policy.pinnable) [
        | inr fixed ↦ inl (ground arith)
        | inl allowed ↦ elim (Bool-cases (old.pin_count == 0)) [
          | inl free ↦ inl (ground arith)
          | inr held ↦ inr (old, found, ground arith)
        ]
      ]
]

pub discard_runs :
    (ref : String) (s : Store)
    → IsExact s
    → ((discard ref s).1 ≡ s)
      ⊎ ((old : AssetEntry) × (lookup ref s.entries ≡ some old)
          × ((discard ref s).1 ≡ removed ref old s))
unfolding discard
discard_runs ref s x = elim (Option-cases (lookup ref s.entries)) [
  | inl gone ↦ inl (ground arith)
  | inr (old, found) ↦ inr (old, found, ground (arith, remove-removed s x ref old found))
]
