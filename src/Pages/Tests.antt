-- ===== src/Pages/Tests.antt =====
-- Runs of the page allocator on the sample machine, and its theorems at concrete inputs.
use jeffos.Base.{
  ℕ, zero, suc, ◌<◌, ◌≤◌, ◌≡◌, refl, Bool, true, false, ◌||◌, arith, ◌==◌, ltb, if◌then◌else◌,
  bit_or, List, [], ◌∷◌,
}
use jeffos.Status.{ok, status_success}
use jeffos.Pages.Bitmap.{used}
use jeffos.Pages.Search.{FirstRun, find_run, scan, find_run-FirstRun, found, exhausted}
use jeffos.Pages.Tables.{entry, in_use}
use jeffos.Pages.Alloc.{Memory, Block, mm_alloc_pages, mm_free_pages}
use jeffos.Pages.Alloc.Allocated.{KernelServed, KernelAlloc, mm_alloc_pages-KernelAlloc}
use jeffos.Pages.Alloc.Freed.{Restored, free-alloc, free_unmapped}
use jeffos.Pages.Alloc.Count.{mm_alloc_pages-one}
use jeffos.Pages.Space.{brk, brk_page, mm_create_page_table}
use jeffos.Pages.Space.Brk.{Backed, brk-Backed}
use jeffos.Pages.Space.Exhausted.{brk_page_exhausted}
use jeffos.Pages.Space.Create.{Created, mm_create_page_table-Created}
use jeffos.Pages.Sample.{
  sample, sample-IsMemory, sample-free_pages, sample-free_entries, sample-marked, sample-unmapped,
  full, full-IsMemory, full-NoPages, full-entries,
}

-- Used and free entries by turns, up to 7.
abbrev stripes : ℕ → Bool
stripes n = n == 0 || (n == 2 || n == 4)

find_two : find_run 8 stripes 7 2 0 ≡ found 5
unfolding find_run scan
find_two = refl

find_none : find_run 8 stripes 4 2 0 ≡ exhausted
unfolding find_run scan
find_none = refl

find_run-FirstRun_example : FirstRun stripes 7 2 0 (find_run 8 stripes 7 2 0)
find_run-FirstRun_example = find_run-FirstRun stripes 8 7 2 0 (omega arith)

abbrev short_table : List ℕ
short_table = 7 ∷ 7 ∷ 0 ∷ []

two_busy : (x : ℕ) → 0 ≤ x → x < 2 → in_use short_table x ≡ true
two_busy zero p q = refl
two_busy (suc zero) p q = refl
two_busy (suc (suc x)) p q = absurd (omega arith)

mm_alloc_pages-KernelAlloc_example : KernelAlloc sample 3 7 (mm_alloc_pages sample 3 7)
mm_alloc_pages-KernelAlloc_example =
    mm_alloc_pages-KernelAlloc sample 3 7 sample-IsMemory (omega arith)

-- One page of the sample machine.
one_block :
    (p y : ℕ) × (b : Block) × (mm_alloc_pages sample 1 3 ≡ ok b) × KernelServed sample 1 3 p y b
one_block =
    mm_alloc_pages-one sample 3 (omega arith) sample-IsMemory (omega (arith, sample-free_pages))
      (omega (arith, sample-free_entries))

free-alloc_example :
    Restored sample (mm_free_pages one_block.2.memory one_block.2.virt 1).0
    × ((mm_free_pages one_block.2.memory one_block.2.virt 1).1 ≡ status_success)
free-alloc_example =
    free-alloc sample 1 3 one_block.0 one_block.1 one_block.2 sample-IsMemory (omega arith)
      (omega arith) (omega arith) one_block.4

free_unmapped_example :
    let r = mm_free_pages sample 0x80005000 1 in
    (r.1 ≡ status_success)
    × ((x : ℕ) → used r.0.pmat x ≡ (if ltb x 1 then false else used sample.pmat x))
free_unmapped_example =
    free_unmapped sample 1 5 sample-IsMemory (omega arith) (sample-unmapped 5) sample-marked

brk-Backed_example : (s' : Memory) × (brk sample 8192 ≡ ok (s', 0)) × Backed sample s' 0 3
brk-Backed_example =
    brk-Backed sample 8192 sample-IsMemory (omega arith) (omega (arith, sample-free_pages))

mm_create_page_table-Created_example :
    Created sample 0x5000 [] (mm_create_page_table sample 0x5000 [])
mm_create_page_table-Created_example = mm_create_page_table-Created sample 0x5000 [] sample-IsMemory

brk_page_exhausted_example :
    (s' : Memory) × (brk_page full 3 ≡ ok s')
    × (s'.pmat ≡ full.pmat)
    × ((x : ℕ)
        → entry s'.space.ptab x
          ≡ (if x == 3 then bit_or 20480 7 else if x == 0 then 0 else entry full.space.ptab x))
brk_page_exhausted_example =
    brk_page_exhausted full 3 5 7 full-IsMemory full-NoPages full-entries.1 (omega arith)
      full-entries.0 (omega arith) (omega arith) (omega arith)
