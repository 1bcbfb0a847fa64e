-- ===== src/Pages/Alloc.antt =====
-- `MmAllocPagesRaw` and `MmFreePages` of kernel/mem.c.
pub mod Runs
pub mod Allocated
pub mod Freed
pub mod Count
use jeffos.Base.{
  ℕ, zero, suc, ◌+◌, ◌-◌, ◌*◌, ◌/◌, ◌%◌, ◌^◌, Option, none, some, not, ◌==◌, if◌then◌else◌,
}
use jeffos.Status.{Outcome, ok, status_success, status_general_error, ◌>>=◌}
use jeffos.Pages.Bitmap.{Pmat, used, kset_page_bit, kunset_page_bit, max_pages}
use jeffos.Pages.Search.{Search, found, exhausted, find_run}
use jeffos.Pages.Tables.{Aspace, kmap_kernel_page, kmap_low_page, kunmap_page}

-- The bitmap and one address space: what the routines read and write.
pub record Memory : Type 0 where
  pub pmat : Pmat
  pub space : Aspace

-- The pointer that is returned, and `*phys` where it was written.
pub record Block : Type 0 where
  pub memory : Memory
  pub virt : ℕ
  pub phys : Option ℕ

-- `for(j = 0; j < npages; j++) kset_PageBit(i + j);`, with `k` rounds left.
unfoldable pub mark_run : ℕ → ℕ → ℕ → Pmat → Pmat
mark_run zero i j m = m
mark_run (suc k) i j m = mark_run k i (j + 1) (kset_page_bit m (i + j))

-- `16384 - npages` of 32 bits
abbrev pub page_limit : ℕ → ℕ
page_limit npages = (max_pages + 2 ^ 32 - npages) % 2 ^ 32

abbrev pub search_pages : Pmat → ℕ → Search
search_pages m npages = find_run (page_limit npages + 1) (used m) (page_limit npages) npages 0

-- At `mapmemory`: `stale` is what `virt` holds where neither routine sets it.
unfoldable pub map_memory : ℕ → ℕ → Aspace → ℕ → ℕ → ℕ → Outcome (Aspace × ℕ)
map_memory stale args a phys npages flags =
    if args == 0
    then kmap_kernel_page a phys npages flags
    else if args == 1
    then kmap_low_page a phys npages flags
    else ok (a, stale)

unfoldable pub alloc_at : ℕ → Search → Memory → ℕ → ℕ → ℕ → Outcome Block
unfolding map_memory
alloc_at stale (found i) s npages flags args = do
  let phys = (i * 4096) % 2 ^ 32
  (a', virt) ← map_memory stale args s.space phys npages flags
  ok (record {
    memory = record { pmat = mark_run npages i 0 s.pmat; space = a' };
    virt = virt;
    phys = some phys;
  })
alloc_at stale exhausted s npages flags args = ok (record { memory = s; virt = 0; phys = none })
alloc_at stale Search.out_of_fuel s npages flags args = Outcome.out_of_fuel

unfoldable pub mm_alloc_pages_raw : ℕ → Memory → ℕ → ℕ → ℕ → Outcome Block
unfolding alloc_at
mm_alloc_pages_raw stale s npages flags args =
    alloc_at stale (search_pages s.pmat npages) s npages flags args

-- The two macros of mem.h.
unfoldable pub mm_alloc_pages : Memory → ℕ → ℕ → Outcome Block
unfolding mm_alloc_pages_raw
mm_alloc_pages s npages flags = mm_alloc_pages_raw 0 s npages flags 0

unfoldable pub mm_alloc_pages_lo : Memory → ℕ → ℕ → Outcome Block
unfolding mm_alloc_pages_raw
mm_alloc_pages_lo s npages flags = mm_alloc_pages_raw 0 s npages flags 1

-- The loop of `MmFreePages`, which stops with an error at a page that is not marked.
unfoldable pub free_run : ℕ → ℕ → ℕ → Pmat → Pmat × ℕ
free_run zero startbit i m = (m, status_success)
free_run (suc k) startbit i m =
    let rest = free_run k startbit (i + 1) (kunset_page_bit m (startbit + i)) in
    if used m (startbit + i) then rest else (m, status_general_error)

-- The status of `kunmap_Page` is not looked at.
unfoldable pub free_at : Memory → ℕ → ℕ → Memory × ℕ
unfolding free_run
free_at s virt npages =
    let (a', phys, status) = kunmap_page s.space virt npages in
    let (m', result) = free_run npages (phys / 4096) 0 s.pmat in
    (record { pmat = m'; space = a' }, result)

unfoldable pub mm_free_pages : Memory → ℕ → ℕ → Memory × ℕ
unfolding free_at
mm_free_pages s virt npages =
    if not ((virt % 4096) == 0)
    then (s, status_general_error)
    else if virt == 0
    then (s, status_general_error)
    else free_at s virt npages
