-- ===== src/Pages/Space/Create.antt =====
-- `MmCreatePageTable` of kernel/mem.c.
use jeffos.Base.{
  ℕ, false, zero, suc, ◌+◌, ◌*◌, ◌%◌, ◌^◌, ◌<◌, ◌≡◌, refl, bit_or, Option, none, some, List, arith,
  ◌==◌, replicate, length, get_or,
}
use jeffos.Base.Masks.{page-entry}
use jeffos.Status.{Outcome, ok, halted, ◌>>=◌}
use jeffos.Pages.Bitmap.{max_pages}
use jeffos.Pages.Tables.{Aspace, entry, frame_of, kernel_base}
use jeffos.Pages.Tables.Map.{NoneFree}
use jeffos.Pages.Alloc.{Memory, Block, mm_alloc_pages}
use jeffos.Pages.Alloc.Allocated.{
  IsMemory, KernelAlloc, served, no_pages, no_entries, FirstPages, NoPages, MarksRun,
  mm_alloc_pages-KernelAlloc,
}
use jeffos.Pages.Space.{new_space, created, mm_create_page_table}

-- The directory's entry 0 names the page behind its own, which holds the low table; entry 512 names
-- the kernel's high table; the low table is clear.
pub record IsNewSpace (p cr3 : ℕ) (beyond : List ℕ) (a : Aspace) : Type 0 where
  pub low_table : frame_of (get_or a.pdir 0 0) ≡ 4096 * (p + 1)
  pub high_table : get_or a.pdir 512 0 ≡ bit_or ((cr3 + 8192) % 2 ^ 32) 3
  pub clear : (x : ℕ) → entry a.ptab x ≡ 0
  pub size : length a.ptab ≡ 1024
  pub no_threads : a.refcount ≡ 0

abbrev pub Created : Memory → ℕ → List ℕ → Outcome (Memory × Option Aspace) → Type 0
Created s cr3 beyond (ok (m, none)) = NoPages s.pmat 2 × (m ≡ s)
Created s cr3 beyond (ok (m, some a)) =
    (p : ℕ) × FirstPages s.pmat 2 p
    × MarksRun s.pmat m.pmat p 2
    × IsMemory m
    × IsNewSpace p cr3 beyond a
Created s cr3 beyond halted = NoneFree s.space.high 2
Created s cr3 beyond Outcome.out_of_fuel = ⊥

entry-replicate : (n x : ℕ) → entry (replicate n 0) x ≡ 0
entry-replicate zero x = refl
entry-replicate (suc n) zero = refl
entry-replicate (suc n) (suc x) = entry-replicate n x

new_space-IsNewSpace :
    (p cr3 : ℕ) (beyond : List ℕ)
    → p < max_pages
    → IsNewSpace p cr3 beyond (new_space (4096 * p) cr3 beyond)
unfolding new_space
new_space-IsNewSpace p cr3 beyond h = record {
  low_table =
      let e : (4096 * p + 4096) % 2 ^ 32 ≡ 4096 * (p + 1) = omega arith in
      rw e (page-entry (p + 1) 7 (omega arith) (omega arith));
  high_table = refl;
  clear = entry-replicate 1024;
  size = refl;
  no_threads = refl;
}

finish :
    (s : Memory) (cr3 : ℕ) (beyond : List ℕ) (r : Outcome Block)
    → KernelAlloc s 2 3 r
    → Created s cr3 beyond (r >>= λ b. ok (b.memory, created b.virt cr3 b.phys beyond))
unfolding created
finish s cr3 beyond (ok b) (served p y k) =
    let some_virt : (kernel_base + 4096 * y == 0) ≡ false = ground arith in
    rw (k.phys, k.virt, some_virt)
      (p, k.pages, k.marked, k.valid, new_space-IsNewSpace p cr3 beyond (omega (arith, k.pages.0)))
finish s cr3 beyond (ok b) (no_pages none_left e) = rw e (none_left, refl)
finish s cr3 beyond halted (no_entries p first left) = left
finish s cr3 beyond Outcome.out_of_fuel a = elim a [ ]

-- `MmCreatePageTable` takes the first two free pages that follow each other, before the last page, and
-- makes an address space whose low table is the second of them and is clear; or no two free pages follow
-- each other, it answers NULL and changes nothing; or no two free entries of the kernel's table do, and
-- it halts.
pub mm_create_page_table-Created :
    (s : Memory) (cr3 : ℕ) (beyond : List ℕ)
    → IsMemory s
    → Created s cr3 beyond (mm_create_page_table s cr3 beyond)
unfolding mm_create_page_table
mm_create_page_table-Created s cr3 beyond v =
    finish s cr3 beyond (mm_alloc_pages s 2 3) (mm_alloc_pages-KernelAlloc s 2 3 v (omega arith))
