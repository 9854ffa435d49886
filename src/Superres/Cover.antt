-- ===== src/Superres/Cover.antt =====
-- server/superres_service.py: the tiles of `_plan_tiles` cover the image and stay within it.
use stability_toys.Prelude.{
  ℕ, zero, suc, ◌+◌, ◌-◌, ◌≤◌, ◌<◌, ◌≡◌, refl, Bool, true, false, List, [], ◌∷◌, ◌++◌, map, some,
  ◌==◌, ◌&&◌, ◌||◌, if◌then◌else◌, ltb, leb, arith, inl, inr, ◌⊎◌, Bool-cases, subst, sym,
}
use stability_toys.Superres.Tiles.{range, last_or, starts, rows, plan_tiles}

-- A start of the list whose tile has the pixel.
abbrev pub covers : ℕ → ℕ → List ℕ → Bool
covers tile p [] = false
covers tile p (x ∷ xs) = (leb x p && ltb p (x + tile)) || covers tile p xs

-- Every tile lies within `n` pixels.
abbrev pub within : ℕ → ℕ → List ℕ → Bool
within tile n [] = true
within tile n (x ∷ xs) = leb (x + tile) n && within tile n xs

module _ (tile p : ℕ) where
  covers-append : (xs ys : List ℕ) → covers tile p xs ≡ true → covers tile p (xs ++ ys) ≡ true
  covers-append [] ys h = cc
  covers-append (x ∷ xs) ys h = ground (arith, covers-append xs ys)

  covers_last : (xs : List ℕ) (y : ℕ) → y ≤ p → p < y + tile → covers tile p (xs ++ y ∷ []) ≡ true
  covers_last [] y h k = ground arith
  covers_last (x ∷ xs) y h k = ground (arith, covers_last xs y h k)

  -- Up to the end of its last tile, a range leaves no pixel out.
  range-covers :
      (rounds start stop d : ℕ)
      → 0 < tile
      → d + tile ≡ start
      → start ≤ p
      → (covers tile p (range rounds start stop tile) ≡ true)
        ⊎ (last_or d (range rounds start stop tile) + tile ≤ p)
  unfolding range last_or
  range-covers zero start stop d pos h k = inr (omega arith)
  range-covers (suc rounds) start stop d pos h k = elim (Bool-cases (ltb start stop)) [
    | inr ended ↦ inr (ground arith)
    | inl more ↦ elim (Bool-cases (ltb p (start + tile))) [
      | inl here ↦ inl (ground arith)
      | inr beyond ↦ elim (range-covers rounds (start + tile) stop start pos refl (ground arith)) [
        | inl found ↦ inl (ground arith)
        | inr later ↦ inr (ground arith)
      ]
    ]
  ]

module _ (tile : ℕ) where
  range_reaches :
      (rounds start stop d : ℕ)
      → 0 < tile
      → d + tile ≡ start
      → stop ≤ start + rounds
      → stop ≤ last_or d (range rounds start stop tile) + tile
  unfolding range last_or
  range_reaches zero start stop d pos h enough = omega arith
  range_reaches (suc rounds) start stop d pos h enough = elim (Bool-cases (ltb start stop)) [
    | inr ended ↦ ground arith
    | inl more ↦
        let rest = range_reaches rounds (start + tile) stop start pos refl (omega arith) in
        ground arith
  ]

  range-within :
      (rounds start stop n : ℕ)
      → stop + tile ≤ n + 1
      → within tile n (range rounds start stop tile) ≡ true
  unfolding range
  range-within zero start stop n h = refl
  range-within (suc rounds) start stop n h =
      let rest = range-within rounds (start + tile) stop n h in ground arith

  within-append :
      (n y : ℕ) (xs : List ℕ)
      → within tile n xs ≡ true
      → y + tile ≤ n
      → within tile n (xs ++ y ∷ []) ≡ true
  within-append n y [] h k = ground arith
  within-append n y (x ∷ xs) h k = ground (arith, within-append n y xs)

  first_range : (m : ℕ) → range (suc m) 0 (suc m) tile ≡ 0 ∷ range m (0 + tile) (suc m) tile
  unfolding range
  first_range m = ground arith

  last_covers :
      (n p : ℕ) (xs : List ℕ)
      → p < n
      → suc (n - tile) ≤ last_or 0 xs + tile
      → (covers tile p xs ≡ true) ⊎ (last_or 0 xs + tile ≤ p)
      → covers tile p (if last_or 0 xs + tile == n then xs else xs ++ (n - tile) ∷ []) ≡ true
  last_covers n p xs inside reach (inl found) =
      ground (arith, covers-append tile p xs ((n - tile) ∷ []) found)
  last_covers n p xs inside reach (inr later) =
      let last = covers_last tile p xs (n - tile) (omega arith) (omega arith) in ground arith

  starts_cover : (n p : ℕ) → 0 < tile → p < n → covers tile p (starts tile n) ≡ true
  unfolding starts last_or
  starts_cover n p pos inside =
      let m = n - tile in
      let first = first_range m in
      let rest = range m (0 + tile) (suc m) tile in
      let reach = range_reaches m (0 + tile) (suc m) 0 pos refl (omega arith) in
      let found : (covers tile p (0 ∷ rest) ≡ true) ⊎ (last_or 0 (0 ∷ rest) + tile ≤ p) =
        elim (Bool-cases (ltb p tile)) [
          | inl here ↦ inl (ground arith)
          | inr beyond ↦ elim (range-covers tile p m (0 + tile) (suc m) 0 pos refl (ground arith)) [
            | inl there ↦ inl (ground arith)
            | inr later ↦ inr later
          ]
        ] in
      subst
        (λ (xs : List ℕ).
          covers tile p (if last_or 0 xs + tile == n then xs else xs ++ (n - tile) ∷ []) ≡ true)
        (sym first) (last_covers n p (0 ∷ rest) inside reach found)

  starts-within : (n : ℕ) → tile ≤ n → within tile n (starts tile n) ≡ true
  unfolding starts
  starts-within n fits =
      let all = range-within (suc (n - tile)) 0 (suc (n - tile)) n (omega arith) in
      ground (arith, all, within-append n (n - tile) _ all (omega arith))

-- A tile of the plan has the pixel.
abbrev pub hits : ℕ → ℕ → ℕ → List (ℕ × ℕ) → Bool
hits tile px py [] = false
hits tile px py ((x, y) ∷ ts) =
    ((leb x px && ltb px (x + tile)) && (leb y py && ltb py (y + tile))) || hits tile px py ts

-- Every tile of the plan lies within the image.
abbrev pub all_within : ℕ → ℕ → ℕ → List (ℕ × ℕ) → Bool
all_within tile w h [] = true
all_within tile w h ((x, y) ∷ ts) = (leb (x + tile) w && leb (y + tile) h) && all_within tile w h ts

module _ (tile : ℕ) where
  row_hits :
      (px py y : ℕ) (xs : List ℕ) (ts : List (ℕ × ℕ))
      → (leb y py && ltb py (y + tile)) ≡ true
      → covers tile px xs ≡ true
      → hits tile px py (map (λ x. (x, y)) xs ++ ts) ≡ true
  row_hits px py y [] ts h c = cc
  row_hits px py y (x ∷ xs) ts h c = ground (arith, row_hits px py y xs ts h)

  hits-skip :
      (px py : ℕ) (ss ts : List (ℕ × ℕ))
      → hits tile px py ts ≡ true
      → hits tile px py (ss ++ ts) ≡ true
  hits-skip px py [] ts h = h
  hits-skip px py (s ∷ ss) ts h = ground (arith, hits-skip px py ss ts h)

  rows_hit :
      (px py : ℕ) (xs ys : List ℕ)
      → covers tile px xs ≡ true
      → covers tile py ys ≡ true
      → hits tile px py (rows xs ys) ≡ true
  unfolding rows
  rows_hit px py xs [] c d = cc
  rows_hit px py xs (y ∷ ys) c d = elim (Bool-cases (leb y py && ltb py (y + tile))) [
    | inl here ↦ row_hits px py y xs (rows xs ys) here c
    | inr other ↦
        hits-skip px py (map (λ x. (x, y)) xs) (rows xs ys) (rows_hit px py xs ys c (ground arith))
  ]

  row-within :
      (w h y : ℕ) (xs : List ℕ) (ts : List (ℕ × ℕ))
      → within tile w xs ≡ true
      → leb (y + tile) h ≡ true
      → all_within tile w h ts ≡ true
      → all_within tile w h (map (λ x. (x, y)) xs ++ ts) ≡ true
  row-within w h y [] ts a b c = c
  row-within w h y (x ∷ xs) ts a b c = ground (arith, row-within w h y xs ts)

  rows-within :
      (w h : ℕ) (xs ys : List ℕ)
      → within tile w xs ≡ true
      → within tile h ys ≡ true
      → all_within tile w h (rows xs ys) ≡ true
  unfolding rows
  rows-within w h xs [] a b = refl
  rows-within w h xs (y ∷ ys) a b =
      row-within w h y xs (rows xs ys) a (ground arith) (rows-within w h xs ys a (ground arith))

  -- For tiles of a positive size, every pixel of the image lies in a tile of the plan, and where the
  -- image is at least as wide and as high as a tile, every tile lies within the image.
  pub plan_tiles_covers :
      (w h : ℕ) (ts : List (ℕ × ℕ))
      → plan_tiles tile w h ≡ some ts
      → ((px py : ℕ) → px < w → py < h → hits tile px py ts ≡ true)
        × (tile ≤ w → tile ≤ h → all_within tile w h ts ≡ true)
  unfolding plan_tiles
  plan_tiles_covers w h ts e =
      let same : rows (starts tile w) (starts tile h) ≡ ts = ground arith in
      let pos : 0 < tile = ground arith in
      (
        λ px py a b.
            subst (λ (us : List (ℕ × ℕ)). hits tile px py us ≡ true) same
              (rows_hit px py (starts tile w) (starts tile h) (starts_cover tile w px pos a)
                (starts_cover tile h py pos b)),
        λ a b.
            subst (λ (us : List (ℕ × ℕ)). all_within tile w h us ≡ true) same
              (rows-within w h (starts tile w) (starts tile h) (starts-within tile w a)
                (starts-within tile h b)),
      )
