-- ===== src/Assets/Oldest.antt =====
-- Choosing the least recently used entry: `select` and `oldest_from` of the eviction loop.
use stability_toys.Prelude.{◌≤◌, ◌≡◌, Bool, true, List, [], ◌∷◌, arith, Bool-cases, inl, inr, ltb}
use stability_toys.Prelude.Dict.{Dict, values, AllItems}
use stability_toys.Assets.Model.{AssetEntry, older, oldest_from, select}

abbrev pub All {ℓ κ} : {A : Type ℓ} → (A → Type κ) → List A → Type κ
All P [] = Unit
All P (x ∷ xs) = P x × All P xs

module _ {ℓ κ} {V : Type ℓ} (P : V → Type κ) (test : V → Bool) where
  -- What is selected passes the test and has what every value has.
  pub All-select :
      (d : Dict V)
      → AllItems (λ _ v. P v) d
      → All (λ v. P v × (test v ≡ true)) (select test (values d))
  unfolding select
  All-select [] h = tt
  All-select ((k, v) ∷ d) h = elim (Bool-cases (test v)) [
    | inl passes ↦ rw passes ((h.0, passes), All-select d h.1)
    | inr fails ↦ rw fails (All-select d h.1)
  ]

  -- What holds of all that is selected holds of every value that passes the test.
  pub All-of_select :
      (d : Dict V) → All P (select test (values d)) → AllItems (λ _ v. test v ≡ true → P v) d
  unfolding select
  All-of_select [] h = tt
  All-of_select ((k, v) ∷ d) h = elim (Bool-cases (test v)) [
    | inl passes ↦ let h' = rw passes at h in (λ _. h'.0, All-of_select d h'.1)
    | inr fails ↦ (λ e. cc, All-of_select d (rw fails at h))
  ]

older-among {κ} : (P : AssetEntry → Type κ) (best e : AssetEntry) → P best → P e → P (older best e)
unfolding older
older-among P best e p q = elim (Bool-cases (ltb e.last_accessed best.last_accessed)) [
  | inl less ↦ rw (less, older) q
  | inr more ↦ rw (more, older) p
]

older-le :
    (best e : AssetEntry)
    → ((older best e).last_accessed ≤ best.last_accessed)
      × ((older best e).last_accessed ≤ e.last_accessed)
unfolding older
older-le best e = ground arith

pub oldest_from-All {κ} :
    (P : AssetEntry → Type κ) (es : List AssetEntry) (best : AssetEntry)
    → P best
    → All P es
    → P (oldest_from best es)
unfolding oldest_from
oldest_from-All P [] best p h = p
oldest_from-All P (e ∷ es) best p h =
    oldest_from-All P es (older best e) (older-among P best e p h.0) h.1

pub oldest_from-le :
    (es : List AssetEntry) (best : AssetEntry)
    → ((oldest_from best es).last_accessed ≤ best.last_accessed)
      × All (λ e. (oldest_from best es).last_accessed ≤ e.last_accessed) es
unfolding oldest_from
oldest_from-le [] best = (omega arith, tt)
oldest_from-le (e ∷ es) best =
    let (a, b) = oldest_from-le es (older best e) in
    (omega (arith, older-le best e), (omega (arith, older-le best e), b))
