-- ===== src/Pages/Tables/Map.antt =====
-- `kmap_KernelPage` and `kmap_LowPage` of kernel/mem.c.
use jeffos.Base.{
  ℕ, zero, suc, ◌+◌, ◌-◌, ◌*◌, ◌≤◌, ◌<◌, ◌≡◌, refl, true, false, ◌&&◌, arith, ltb, leb,
  if◌then◌else◌, length, length-set, get_or-set, set,
}
use jeffos.Status.{Outcome, ok, halted}
use jeffos.Pages.Search.{Search, found, exhausted, run_free, FirstRun, find_run-FirstRun}
use jeffos.Pages.Tables.{
  PageTable, Aspace, entry, in_use, entry_for, map_run, table_limit, search_table, map_low,
  map_high, kmap_low_page, kernel_base, kmap_kernel_page,
}

module _ (phys flags : ℕ) where
  pub length-map_run :
      (k i j : ℕ) (tab : PageTable) → length (map_run k i j phys flags tab) ≡ length tab
  unfolding map_run
  length-map_run zero i j tab = refl
  length-map_run (suc k) i j tab = omega (
    arith,
    length-map_run k i (j + 1) (set tab (i + j) (entry_for phys flags j)),
    length-set tab (i + j) (entry_for phys flags j),
  )

  pub entry-map_run :
      (k i j : ℕ) (tab : PageTable) (x : ℕ)
      → i + j + k ≤ length tab
      → entry (map_run k i j phys flags tab) x
        ≡ (if leb (i + j) x && ltb x (i + j + k) then entry_for phys flags (x - i) else entry tab x)
  unfolding map_run
  entry-map_run zero i j tab x h = ground arith
  entry-map_run (suc k) i j tab x h = ground (
    arith,
    entry-map_run k i (j + 1) (set tab (i + j) (entry_for phys flags j)) x,
    length-set tab (i + j) (entry_for phys flags j),
    get_or-set tab (i + j) x (entry_for phys flags j) 0,
  )

-- The table `t'` is `t` with `n` pages from `phys` on in the entries from `y` on.
abbrev pub HoldsRun : PageTable → PageTable → ℕ → ℕ → ℕ → ℕ → Type 0
HoldsRun t t' y n phys flags =
    (x : ℕ)
    → entry t' x ≡ (if leb y x && ltb x (y + n) then entry_for phys flags (x - y) else entry t x)

-- The run that is used: the first free one that ends before the last entry of the table.
abbrev pub FirstFree : PageTable → ℕ → ℕ → Type 0
FirstFree t n y =
    (y + n < 1024)
    × (run_free (in_use t) y n ≡ true)
    × ((z : ℕ) → z < y → run_free (in_use t) z n ≡ false)

abbrev pub NoneFree : PageTable → ℕ → Type 0
NoneFree t n = (z : ℕ) → z + n < 1024 → run_free (in_use t) z n ≡ false

abbrev pub KernelMapped : Aspace → ℕ → ℕ → ℕ → Outcome (Aspace × ℕ) → Type 0
KernelMapped a phys n flags (ok (a', virt)) =
    (y : ℕ) × (virt ≡ kernel_base + 4096 * y)
    × FirstFree a.high n y
    × HoldsRun a.high a'.high y n phys flags
    × (a'.ptab ≡ a.ptab)
    × (a'.pdir ≡ a.pdir)
    × (a'.refcount ≡ a.refcount)
    × (length a'.high ≡ length a.high)
KernelMapped a phys n flags halted = NoneFree a.high n
KernelMapped a phys n flags Outcome.out_of_fuel = ⊥

abbrev pub LowMapped : Aspace → ℕ → ℕ → ℕ → Outcome (Aspace × ℕ) → Type 0
LowMapped a phys n flags (ok (a', virt)) =
    (y : ℕ) × (virt ≡ 4096 * y)
    × FirstFree a.ptab n y
    × HoldsRun a.ptab a'.ptab y n phys flags
    × (a'.high ≡ a.high)
    × (length a'.ptab ≡ length a.ptab)
LowMapped a phys n flags halted = NoneFree a.ptab n
LowMapped a phys n flags Outcome.out_of_fuel = ⊥

search_table-FirstRun :
    (t : PageTable) (n : ℕ) → n ≤ 1024 → FirstRun (in_use t) (table_limit n) n 0 (search_table t n)
search_table-FirstRun t n h =
    find_run-FirstRun (in_use t) (table_limit n + 1) (table_limit n) n 0 (omega arith)

module _ (a : Aspace) (phys n flags : ℕ) (few : n ≤ 1024) where
  map_high-KernelMapped :
      (r : Search)
      → length a.high ≡ 1024
      → FirstRun (in_use a.high) (table_limit n) n 0 r
      → KernelMapped a phys n flags (map_high r a phys n flags)
  unfolding map_high
  map_high-KernelMapped (found y) size (p, q, free, first) = (
    y,
    refl,
    (omega arith, free, λ z lt. first z (omega arith) lt),
    λ x. ground (arith, entry-map_run phys flags n y 0 a.high x),
    refl,
    refl,
    refl,
    length-map_run phys flags n y 0 a.high,
  )
  map_high-KernelMapped exhausted size h = λ z lt. h z (omega arith) (omega arith)
  map_high-KernelMapped Search.out_of_fuel size h = h

  map_low-LowMapped :
      (r : Search)
      → length a.ptab ≡ 1024
      → FirstRun (in_use a.ptab) (table_limit n) n 0 r
      → LowMapped a phys n flags (map_low r a phys n flags)
  unfolding map_low
  map_low-LowMapped (found y) size (p, q, free, first) = (
    y,
    refl,
    (omega arith, free, λ z lt. first z (omega arith) lt),
    λ x. ground (arith, entry-map_run phys flags n y 0 a.ptab x),
    refl,
    length-map_run phys flags n y 0 a.ptab,
  )
  map_low-LowMapped exhausted size h = λ z lt. h z (omega arith) (omega arith)
  map_low-LowMapped Search.out_of_fuel size h = h

  -- `kmap_KernelPage` maps the pages at the first free run of the high table and touches nothing
  -- else, and halts only if no run is free; the search always ends.
  pub kmap_kernel_page-KernelMapped :
      length a.high ≡ 1024 → KernelMapped a phys n flags (kmap_kernel_page a phys n flags)
  unfolding kmap_kernel_page
  kmap_kernel_page-KernelMapped size =
      map_high-KernelMapped (search_table a.high n) size (search_table-FirstRun a.high n few)

  -- `kmap_LowPage` does the same in the low table.
  pub kmap_low_page-LowMapped :
      length a.ptab ≡ 1024 → LowMapped a phys n flags (kmap_low_page a phys n flags)
  unfolding kmap_low_page
  kmap_low_page-LowMapped size =
      map_low-LowMapped (search_table a.ptab n) size (search_table-FirstRun a.ptab n few)
