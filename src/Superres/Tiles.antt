-- ===== src/Superres/Tiles.antt =====
-- server/superres_service.py: the tiles of `RknnSuperResWorker`.
use stability_toys.Prelude.{
  ℕ, zero, suc, ◌+◌, ◌-◌, List, [], ◌∷◌, ◌++◌, map, Option, none, some, ◌==◌, if◌then◌else◌, ltb,
}

-- `range(start, stop, step)` in at most `rounds` rounds
unfoldable pub range : ℕ → ℕ → ℕ → ℕ → List ℕ
range zero start stop step = []
range (suc rounds) start stop step =
    let rest = range rounds (start + step) stop step in if ltb start stop then start ∷ rest else []

-- `xs[-1]`, and the default where there is none
unfoldable pub last_or : ℕ → List ℕ → ℕ
last_or d [] = d
last_or d (x ∷ xs) = last_or x xs

-- The tiles along an axis of `n` pixels. The range starts at 0 and is never empty; `w - tile` of the source
-- is negative below the size of a tile, so that the last start plus the tile is compared with `n`.
unfoldable pub starts : ℕ → ℕ → List ℕ
starts tile n =
    let stop = suc (n - tile) in
    let xs = range stop 0 stop tile in
    if last_or 0 xs + tile == n then xs else xs ++ (n - tile) ∷ []

unfoldable pub rows : List ℕ → List ℕ → List (ℕ × ℕ)
rows xs [] = []
rows xs (y ∷ ys) = map (λ x. (x, y)) xs ++ rows xs ys

-- `_plan_tiles`; a step of 0 is a ValueError
unfoldable pub plan_tiles : ℕ → ℕ → ℕ → Option (List (ℕ × ℕ))
plan_tiles tile w h = if tile == 0 then none else some (rows (starts tile w) (starts tile h))
