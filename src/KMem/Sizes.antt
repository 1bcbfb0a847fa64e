-- ===== src/KMem/Sizes.antt =====
-- `size_map` of kernel/memory.c.
use jeffos.Base.{
  ℕ, zero, suc, ◌-◌, ◌*◌, ◌≤◌, ◌<◌, ◌≡◌, refl, ◌⊎◌, List, [], ◌++◌, ◌∷◌, arith, ltb, if◌then◌else◌,
  replicate, get_or,
}
use jeffos.KMem.{expand, size_runs, size_map}

get_or-replicate :
    (n a i : ℕ) (ys : List ℕ)
    → get_or (replicate n a ++ ys) i 0 ≡ (if ltb i n then a else get_or ys (i - n) 0)
get_or-replicate zero a i ys = ground arith
get_or-replicate (suc n) a zero ys = ground arith
get_or-replicate (suc n) a (suc i) ys = ground (arith, get_or-replicate n a i ys)

pick : List (ℕ × ℕ) → ℕ → ℕ
pick [] i = 0
pick ((n, a) ∷ rs) i = if ltb i n then a else pick rs (i - n)

get_or-expand : (rs : List (ℕ × ℕ)) (i : ℕ) → get_or (expand rs) i 0 ≡ pick rs i
unfolding expand pick
get_or-expand [] i = refl
get_or-expand ((n, a) ∷ rs) i =
    ground (arith, get_or-replicate n a i (expand rs), get_or-expand rs (i - n))

-- The size of the blocks of a class.
abbrev pub block_size : ℕ → ℕ
block_size zero = 16
block_size (suc i) = 2 * block_size i

size_map-pick : (n : ℕ) → get_or size_map n 0 ≡ pick size_runs n
unfolding size_map
size_map-pick n = get_or-expand size_runs n

pick-least :
    (n : ℕ)
    → n < 1025
    → (pick size_runs n < 7)
      × (n ≤ block_size (pick size_runs n))
      × ((pick size_runs n ≡ 0) ⊎ (block_size (pick size_runs n - 1) < n))
unfolding pick
pick-least n h = ground arith

-- For each size up to 1024 `size_map` gives one of the seven classes, its blocks are large enough,
-- and those of the class below are not.
pub size_map-least :
    (n : ℕ)
    → n < 1025
    → let c = get_or size_map n 0 in
      (c < 7) × (n ≤ block_size c) × ((c ≡ 0) ⊎ (block_size (c - 1) < n))
size_map-least n h = rw (size_map-pick n) (pick-least n h)
