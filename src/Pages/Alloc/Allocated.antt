-- ===== src/Pages/Alloc/Allocated.antt =====
-- The ends of `MmAllocPages` and `MmAllocPagesLo` of kernel/mem.c.
use jeffos.Base.{
  ℕ, ◌+◌, ◌*◌, ◌%◌, ◌^◌, ◌≤◌, ◌<◌, ◌≡◌, refl, ◌∙◌, true, false, ◌&&◌, none, some, arith, ltb, leb,
  if◌then◌else◌, length,
}
use jeffos.Status.{Outcome, ok, halted, ◌>>=◌}
use jeffos.Pages.Bitmap.{Pmat, IsPmat, used, max_pages}
use jeffos.Pages.Search.{Search, found, exhausted, run_free, FirstRun, find_run-FirstRun}
use jeffos.Pages.Tables.{Aspace, kernel_base, kmap_kernel_page, kmap_low_page}
use jeffos.Pages.Tables.Map.{
  HoldsRun, FirstFree, NoneFree, KernelMapped, LowMapped, kmap_kernel_page-KernelMapped,
  kmap_low_page-LowMapped,
}
use jeffos.Pages.Alloc.{
  Memory, Block, mark_run, page_limit, search_pages, alloc_at, mm_alloc_pages, mm_alloc_pages_lo,
}
use jeffos.Pages.Alloc.Runs.{mark_run-IsPmat, used-mark_run}

pub record IsMemory (s : Memory) : Type 0 where
  pub bitmap : IsPmat s.pmat
  pub low_size : length s.space.ptab ≡ 1024
  pub high_size : length s.space.high ≡ 1024

-- The first run of unmarked pages that ends before the last page.
abbrev pub FirstPages : Pmat → ℕ → ℕ → Type 0
FirstPages m n p =
    (p + n < max_pages)
    × (run_free (used m) p n ≡ true)
    × ((z : ℕ) → z < p → run_free (used m) z n ≡ false)

abbrev pub NoPages : Pmat → ℕ → Type 0
NoPages m n = (z : ℕ) → z + n < max_pages → run_free (used m) z n ≡ false

-- `n` pages from page `p` on became marked, and no others.
abbrev pub MarksRun : Pmat → Pmat → ℕ → ℕ → Type 0
MarksRun m m' p n = (x : ℕ) → used m' x ≡ (if leb p x && ltb x (p + n) then true else used m x)

-- Pages `p` on were marked and mapped at the entries `y` on of the high table.
pub record KernelServed (s : Memory) (n flags p y : ℕ) (b : Block) : Type 0 where
  pub phys : b.phys ≡ some (4096 * p)
  pub virt : b.virt ≡ kernel_base + 4096 * y
  pub pages : FirstPages s.pmat n p
  pub entries : FirstFree s.space.high n y
  pub marked : MarksRun s.pmat b.memory.pmat p n
  pub mapped : HoldsRun s.space.high b.memory.space.high y n (4096 * p) flags
  pub low_same : b.memory.space.ptab ≡ s.space.ptab
  pub pdir_same : b.memory.space.pdir ≡ s.space.pdir
  pub refcount_same : b.memory.space.refcount ≡ s.space.refcount
  pub valid : IsMemory b.memory

pub record LowServed (s : Memory) (n flags p y : ℕ) (b : Block) : Type 0 where
  pub phys : b.phys ≡ some (4096 * p)
  pub virt : b.virt ≡ 4096 * y
  pub pages : FirstPages s.pmat n p
  pub entries : FirstFree s.space.ptab n y
  pub marked : MarksRun s.pmat b.memory.pmat p n
  pub mapped : HoldsRun s.space.ptab b.memory.space.ptab y n (4096 * p) flags
  pub high_same : b.memory.space.high ≡ s.space.high
  pub valid : IsMemory b.memory

-- The three ends of `MmAllocPages`.
pub data KernelAlloc (s : Memory) (n flags : ℕ) : Outcome Block → Type 0 where
  served : (p y : ℕ) {b : Block} → KernelServed s n flags p y b → KernelAlloc s n flags (ok b)
  no_pages :
      {b : Block}
      → NoPages s.pmat n
      → b ≡ record { memory = s; virt = 0; phys = none }
      → KernelAlloc s n flags (ok b)
  no_entries :
      (p : ℕ) → FirstPages s.pmat n p → NoneFree s.space.high n → KernelAlloc s n flags halted

pub data LowAlloc (s : Memory) (n flags : ℕ) : Outcome Block → Type 0 where
  served : (p y : ℕ) {b : Block} → LowServed s n flags p y b → LowAlloc s n flags (ok b)
  no_pages :
      {b : Block}
      → NoPages s.pmat n
      → b ≡ record { memory = s; virt = 0; phys = none }
      → LowAlloc s n flags (ok b)
  no_entries : (p : ℕ) → FirstPages s.pmat n p → NoneFree s.space.ptab n → LowAlloc s n flags halted

module _ (s : Memory) (n flags : ℕ) (v : IsMemory s) (few : n ≤ 1024) where
  address : (p : ℕ) → p + n < max_pages → (p * 4096) % 2 ^ 32 ≡ 4096 * p
  address p h = omega arith

  -- The block that is handed out once the pages `p` on are mapped.
  block : ℕ → Aspace × ℕ → Block
  block p (a', virt) = record {
    memory = record { pmat = mark_run n p 0 s.pmat; space = a' };
    virt = virt;
    phys = some (4096 * p);
  }

  kernel_served :
      (p : ℕ) (r : Outcome (Aspace × ℕ))
      → FirstPages s.pmat n p
      → KernelMapped s.space (4096 * p) n flags r
      → KernelAlloc s n flags (r >>= λ m. ok (block p m))
  unfolding block
  kernel_served p (ok (a', virt)) first (y, at, entries, holds, low, pdir, count, size) =
      served p y (record {
        phys = refl;
        virt = at;
        pages = first;
        entries = entries;
        marked = λ x. ground (arith, used-mark_run n p 0 s.pmat x v.bitmap, first.0);
        mapped = holds;
        low_same = low;
        pdir_same = pdir;
        refcount_same = count;
        valid = record {
          bitmap = mark_run-IsPmat n p 0 s.pmat v.bitmap;
          low_size = rw low v.low_size;
          high_size = size ∙ v.high_size;
        };
      })
  kernel_served p halted first none_free = no_entries p first none_free
  kernel_served p Outcome.out_of_fuel first h = elim h [ ]

  low_served :
      (p : ℕ) (r : Outcome (Aspace × ℕ))
      → FirstPages s.pmat n p
      → LowMapped s.space (4096 * p) n flags r
      → LowAlloc s n flags (r >>= λ m. ok (block p m))
  unfolding block
  low_served p (ok (a', virt)) first (y, at, entries, holds, high, size) = served p y (record {
    phys = refl;
    virt = at;
    pages = first;
    entries = entries;
    marked = λ x. ground (arith, used-mark_run n p 0 s.pmat x v.bitmap, first.0);
    mapped = holds;
    high_same = high;
    valid = record {
      bitmap = mark_run-IsPmat n p 0 s.pmat v.bitmap;
      low_size = size ∙ v.low_size;
      high_size = rw high v.high_size;
    };
  })
  low_served p halted first none_free = no_entries p first none_free
  low_served p Outcome.out_of_fuel first h = elim h [ ]

  alloc_at-KernelAlloc :
      (r : Search)
      → FirstRun (used s.pmat) (page_limit n) n 0 r
      → KernelAlloc s n flags (alloc_at 0 r s n flags 0)
  unfolding alloc_at block
  alloc_at-KernelAlloc (found p) (a, b, free, first) = rw (address p (omega arith)) (
      kernel_served p (kmap_kernel_page s.space (4096 * p) n flags)
        (omega arith, free, λ z lt. first z (omega arith) lt)
        (kmap_kernel_page-KernelMapped s.space (4096 * p) n flags few v.high_size))
  alloc_at-KernelAlloc exhausted h = no_pages (λ z lt. h z (omega arith) (omega arith)) refl
  alloc_at-KernelAlloc Search.out_of_fuel h = elim h [ ]

  alloc_at-LowAlloc :
      (r : Search)
      → FirstRun (used s.pmat) (page_limit n) n 0 r
      → LowAlloc s n flags (alloc_at 0 r s n flags 1)
  unfolding alloc_at block
  alloc_at-LowAlloc (found p) (a, b, free, first) = rw (address p (omega arith)) (
      low_served p (kmap_low_page s.space (4096 * p) n flags)
        (omega arith, free, λ z lt. first z (omega arith) lt)
        (kmap_low_page-LowMapped s.space (4096 * p) n flags few v.low_size))
  alloc_at-LowAlloc exhausted h = no_pages (λ z lt. h z (omega arith) (omega arith)) refl
  alloc_at-LowAlloc Search.out_of_fuel h = elim h [ ]

  search_pages-FirstRun : FirstRun (used s.pmat) (page_limit n) n 0 (search_pages s.pmat n)
  search_pages-FirstRun =
      find_run-FirstRun (used s.pmat) (page_limit n + 1) (page_limit n) n 0 (omega arith)

  -- `MmAllocPages` takes the first run of unmarked pages and the first run of free entries in the
  -- high table, marks and maps them and changes no other mark or entry, nor the low table, the page
  -- directory or the count of the address space; it answers 0 exactly if no run of pages is free, and
  -- halts only if no run of entries is.
  pub mm_alloc_pages-KernelAlloc : KernelAlloc s n flags (mm_alloc_pages s n flags)
  unfolding mm_alloc_pages
  mm_alloc_pages-KernelAlloc = alloc_at-KernelAlloc (search_pages s.pmat n) search_pages-FirstRun

  -- `MmAllocPagesLo` does so in the low table.
  pub mm_alloc_pages_lo-LowAlloc : LowAlloc s n flags (mm_alloc_pages_lo s n flags)
  unfolding mm_alloc_pages_lo
  mm_alloc_pages_lo-LowAlloc = alloc_at-LowAlloc (search_pages s.pmat n) search_pages-FirstRun
