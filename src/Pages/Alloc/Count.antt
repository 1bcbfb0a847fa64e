-- ===== src/Pages/Alloc/Count.antt =====
-- How many pages and entries are left: kernel/mem.c.
use jeffos.Base.{ℕ, ◌+◌, ◌-◌, ◌*◌, ◌<◌, ◌≡◌, refl, ◌≢◌, not, arith}
use jeffos.Base.Tally.{tally, tally_drop, tally_zero}
use jeffos.Status.{Outcome, ok, halted}
use jeffos.Pages.Bitmap.{Pmat, used, max_pages}
use jeffos.Pages.Search.{run_free, run_free-get}
use jeffos.Pages.Tables.{PageTable, in_use}
use jeffos.Pages.Tables.Unmap.{entry_for-ne_zero}
use jeffos.Pages.Tables.Map.{NoneFree}
use jeffos.Pages.Alloc.{Memory, Block, mm_alloc_pages}
use jeffos.Pages.Alloc.Allocated.{
  IsMemory, KernelServed, KernelAlloc, served, no_pages, no_entries, NoPages,
  mm_alloc_pages-KernelAlloc,
}

-- The pages that an allocation of one page may take: it never looks at the last one.
abbrev pub free_pages : Pmat → ℕ
free_pages m = tally (λ x. not (used m x)) 0 (max_pages - 1)

-- The entries of a table that a mapping of one page may take.
abbrev pub free_entries : PageTable → ℕ
free_entries t = tally (λ x. not (in_use t x)) 0 1023

pub NoPages-free_pages : (m : Pmat) → NoPages m 1 → free_pages m ≡ 0
unfolding run_free
NoPages-free_pages m h =
    tally_zero (λ x. not (used m x)) 0 (max_pages - 1) (λ z p q. ground (arith, h z))

pub NoneFree-free_entries : (t : PageTable) → NoneFree t 1 → free_entries t ≡ 0
unfolding run_free
NoneFree-free_entries t h = tally_zero (λ x. not (in_use t x)) 0 1023 (λ z p q. ground (arith, h z))

module _ (s : Memory) (flags : ℕ) (nonzero : flags ≢ 0) where
  pub served-free_pages :
      (p y : ℕ) (b : Block)
      → KernelServed s 1 flags p y b
      → free_pages s.pmat ≡ free_pages b.memory.pmat + 1
  served-free_pages p y b k =
      tally_drop (λ x. not (used s.pmat x)) (λ x. not (used b.memory.pmat x)) p 0 (max_pages - 1)
        (omega arith) (omega (arith, k.pages.0))
        (ground (arith, run_free-get (used s.pmat) p 1 p k.pages.1))
        (λ x. ground (arith, k.marked x))

  pub served-free_entries :
      (p y : ℕ) (b : Block)
      → KernelServed s 1 flags p y b
      → free_entries s.space.high ≡ free_entries b.memory.space.high + 1
  served-free_entries p y b k =
      tally_drop (λ x. not (in_use s.space.high x)) (λ x. not (in_use b.memory.space.high x)) y 0
        1023 (omega arith) (omega (arith, k.entries.0))
        (ground (arith, run_free-get (in_use s.space.high) y 1 y k.entries.1))
        (λ x. ground (arith, k.mapped x, entry_for-ne_zero (4096 * p) flags (x - y) nonzero))

  one_page :
      (r : Outcome Block)
      → mm_alloc_pages s 1 flags ≡ r
      → 0 < free_pages s.pmat
      → 0 < free_entries s.space.high
      → KernelAlloc s 1 flags r
      → (p y : ℕ) × (b : Block) × (mm_alloc_pages s 1 flags ≡ ok b) × KernelServed s 1 flags p y b
  one_page (ok b) run pages entries (served p y k) = (p, y, b, run, k)
  one_page (ok b) run pages entries (no_pages left e) =
      absurd (omega (arith, NoPages-free_pages s.pmat left))
  one_page halted run pages entries (no_entries p first left) =
      absurd (omega (arith, NoneFree-free_entries s.space.high left))
  one_page Outcome.out_of_fuel run pages entries a = elim a [ ]

  -- While a page and an entry are left, a page is served.
  pub mm_alloc_pages-one :
      IsMemory s
      → 0 < free_pages s.pmat
      → 0 < free_entries s.space.high
      → (p y : ℕ) × (b : Block) × (mm_alloc_pages s 1 flags ≡ ok b) × KernelServed s 1 flags p y b
  mm_alloc_pages-one v pages entries =
      one_page (mm_alloc_pages s 1 flags) refl pages entries
        (mm_alloc_pages-KernelAlloc s 1 flags v (omega arith))
