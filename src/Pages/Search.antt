-- ===== src/Pages/Search.antt =====
-- The search for a run of free entries, which `MmAllocPagesRaw`, `kmap_LowPage` and
-- `kmap_KernelPage` all make: over the page bitmap, the low table and the high table.
use jeffos.Base.{
  ℕ, zero, suc, ◌+◌, ◌-◌, ◌≤◌, ◌<◌, ◌≡◌, refl, Bool, true, false, not, ◌&&◌, arith, ◌==◌, ltb,
  if◌then◌else◌, Bool-cases, inl, inr, ltb→le, ltb→lt,
}
use native.Mathlib.Decide.{dec_le}

-- `found i`, the loop's end without a run, or a run that was cut short.
pub data Search : Type 0 where
  found : ℕ → Search
  exhausted : Search
  out_of_fuel : Search

-- `for(j = 0; j < npages; j++) if(used[i + j]) break;`: where `j` ends, with `k` rounds left.
unfoldable pub scan : (ℕ → Bool) → ℕ → ℕ → ℕ → ℕ
scan used i j zero = j
scan used i j (suc k) = let rest = scan used i (j + 1) k in if used (i + j) then j else rest

-- `for(; i < limit; i++)` round the scan: after a used entry `i + j` the search goes on behind it.
unfoldable pub find_run : ℕ → (ℕ → Bool) → ℕ → ℕ → ℕ → Search
find_run zero used limit npages i = out_of_fuel
find_run (suc fuel) used limit npages i =
    let j = scan used i 0 npages in
    let rest = find_run fuel used limit npages (i + j + 1) in
    if ltb i limit then (if j == npages then found i else rest) else exhausted

-- Whether the entries i, …, i + k - 1 are all free.
unfoldable pub run_free : (ℕ → Bool) → ℕ → ℕ → Bool
run_free used i zero = true
run_free used i (suc k) = not (used i) && run_free used (i + 1) k

-- The first run of free entries at `i` or above and below `limit`, or that there is none.
abbrev pub FirstRun : (ℕ → Bool) → ℕ → ℕ → ℕ → Search → Type 0
FirstRun used limit npages i (found x) =
    (i ≤ x)
    × (x < limit)
    × (run_free used x npages ≡ true)
    × ((y : ℕ) → i ≤ y → y < x → run_free used y npages ≡ false)
FirstRun used limit npages i exhausted =
    (y : ℕ) → i ≤ y → y < limit → run_free used y npages ≡ false
FirstRun used limit npages i out_of_fuel = ⊥

module _ (used : ℕ → Bool) where
  pub run_free-get : (i k x : ℕ) → run_free used i k ≡ true → i ≤ x → x < i + k → used x ≡ false
  unfolding run_free
  run_free-get i zero x h p q = absurd (omega arith)
  run_free-get i (suc k) x h p q = elim (Bool-cases (i == x)) [
    | inl e ↦ ground arith
    | inr e ↦ ground (arith, run_free-get (i + 1) k x)
  ]

  -- A used entry spoils every run across it.
  run_free-used : (i k x : ℕ) → used x ≡ true → i ≤ x → x < i + k → run_free used i k ≡ false
  unfolding run_free
  run_free-used i zero x u p q = absurd (omega arith)
  run_free-used i (suc k) x u p q = elim (Bool-cases (i == x)) [
    | inl e ↦ ground arith
    | inr e ↦ ground (arith, run_free-used (i + 1) k x)
  ]

  scan-le : (i j k : ℕ) → (j ≤ scan used i j k) × (scan used i j k ≤ j + k)
  unfolding scan
  scan-le i j zero = omega arith
  scan-le i j (suc k) = ground (arith, scan-le i (j + 1) k)

  -- A scan that stops early stands at a used entry.
  scan-used : (i j k : ℕ) → scan used i j k < j + k → used (i + scan used i j k) ≡ true
  unfolding scan
  scan-used i j zero h = absurd (omega arith)
  scan-used i j (suc k) h = ground (arith, scan-used i (j + 1) k)

  scan-run_free : (i j k : ℕ) → scan used i j k ≡ j + k → run_free used (i + j) k ≡ true
  unfolding scan run_free
  scan-run_free i j zero h = refl
  scan-run_free i j (suc k) h = ground (arith, scan-run_free i (j + 1) k)

  -- What the rest of the search finds is the first run from `i` on, if the entry at `i + j`, inside
  -- every run from `i` to there, is used.
  skip :
      (limit npages i j : ℕ) (r : Search)
      → j < npages
      → used (i + j) ≡ true
      → FirstRun used limit npages (i + j + 1) r
      → FirstRun used limit npages i r
  skip limit npages i j (found x) h u (a, b, c, d) =
      (omega arith, b, c, λ y p q. skipped limit npages i j y h u (d y) p q)
    where
      skipped :
          (limit npages i j y : ℕ)
          → j < npages
          → used (i + j) ≡ true
          → (i + j + 1 ≤ y → y < x → run_free used y npages ≡ false)
          → i ≤ y
          → y < x
          → run_free used y npages ≡ false
      skipped limit npages i j y h u later p q = elim (dec_le (i + j + 1) y) [
        | yes far ↦ later far q
        | no near ↦ run_free-used y npages (i + j) u (omega arith) (omega arith)
      ]
  skip limit npages i j exhausted h u d = λ y p q. elim (dec_le (i + j + 1) y) [
    | yes far ↦ d y far q
    | no near ↦ run_free-used y npages (i + j) u (omega arith) (omega arith)
  ]
  skip limit npages i j out_of_fuel h u d = d

  -- With as much fuel as there are entries the search ends, with the first run if there is one.
  pub find_run-FirstRun :
      (fuel limit npages i : ℕ)
      → limit - i < fuel
      → FirstRun used limit npages i (find_run fuel used limit npages i)
  unfolding find_run
  find_run-FirstRun zero limit npages i h = absurd (omega arith)
  find_run-FirstRun (suc fuel) limit npages i h = elim (Bool-cases (ltb i limit)) [
    | inr done ↦ rw done (λ y p q. absurd (omega (arith, ltb→le i limit done)))
    | inl more ↦ elim (Bool-cases (scan used i 0 npages == npages)) [
      | inl hit ↦
          rw (more, hit)
            (
              omega arith,
              ltb→lt i limit more,
              ground (arith, scan-run_free i 0 npages),
              λ y p q. absurd (omega arith),
            )
      | inr miss ↦
          rw (more, miss)
            (skip limit npages i (scan used i 0 npages) _ (ground (arith, scan-le i 0 npages))
              (ground (arith, scan-le i 0 npages, scan-used i 0 npages))
              (find_run-FirstRun fuel limit npages (i + scan used i 0 npages + 1)
                (omega (arith, ltb→lt i limit more))))
    ]
  ]
