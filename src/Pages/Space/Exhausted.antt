-- ===== src/Pages/Space/Exhausted.antt =====
-- `brk` of kernel/mem.c when no page is left.
use jeffos.Base.{
  ℕ, ◌+◌, ◌*◌, ◌/◌, ◌%◌, ◌^◌, ◌<◌, ◌≡◌, refl, ◌∙◌, ap, ◌≢◌, bit_or, false, none, arith, ◌==◌,
  if◌then◌else◌, length-set, get_or-set, set,
}
use native.Mathlib.Nat.{add-zero}
use jeffos.Base.Masks.{le-bit_or, page-entry}
use jeffos.Status.{Outcome, ok, halted}
use jeffos.Pages.Bitmap.{max_pages}
use jeffos.Pages.Tables.{entry, in_use, frame_of, unmap_run}
use jeffos.Pages.Alloc.{Memory, Block, mm_alloc_pages_lo}
use jeffos.Pages.Alloc.Allocated.{
  IsMemory, LowAlloc, served, no_pages, no_entries, NoPages, mm_alloc_pages_lo-LowAlloc,
}
use jeffos.Pages.Alloc.Freed.{kunmap_low}
use jeffos.Pages.Space.{brk_page}
use jeffos.Pages.Space.Grow.{aspace_map-one}

-- With no page left the allocation answers 0.
alloc_none :
    (s : Memory)
    → IsMemory s
    → NoPages s.pmat 1
    → (r : Outcome Block) → mm_alloc_pages_lo s 1 7 ≡ r
    → LowAlloc s 1 7 r
    → mm_alloc_pages_lo s 1 7 ≡ ok (record { memory = s; virt = 0; phys = none })
alloc_none s v none_left (ok b) run (served p y k) = absurd (ground (arith, k.pages, none_left p))
alloc_none s v none_left (ok b) run (no_pages left e) = run ∙ ap ok e
alloc_none s v none_left halted run (no_entries p first left) =
    absurd (ground (arith, first, none_left p))
alloc_none s v none_left Outcome.out_of_fuel run a = elim a [ ]

-- The memory with the page of entry 0 moved to entry `i`.
stolen : Memory → ℕ → ℕ → Memory
stolen s i q = record s {
  space = record s.space { ptab = set (set s.space.ptab 0 0) i (bit_or (4096 * q) 7) };
}

-- When no page is left, a round moves the page of entry 0 to its own entry and leaves entry 0 clear.
pub brk_page_exhausted :
    (s : Memory) (i q flags : ℕ)
    → IsMemory s
    → NoPages s.pmat 1
    → in_use s.space.ptab i ≡ false
    → i < 1024
    → entry s.space.ptab 0 ≡ bit_or (4096 * q) flags
    → q < max_pages
    → flags ≢ 0
    → flags < 4096
    → (s' : Memory) × (brk_page s i ≡ ok s')
      × (s'.pmat ≡ s.pmat)
      × ((x : ℕ)
          → entry s'.space.ptab x
            ≡ (if x == i then bit_or (4096 * q) 7 else if x == 0 then 0 else entry s.space.ptab x))
unfolding brk_page unmap_run
brk_page_exhausted s i q flags v none_left clear fits first low nonzero small = (
  stolen s i q,
  rw
      (
        clear,
        alloc_none s v none_left _ refl (mm_alloc_pages_lo-LowAlloc s 1 7 v (omega arith)),
        kunmap_low s.space 0 1 (omega arith),
        cleared,
        frame,
        aspace_map-one (record s.space { ptab = set s.space.ptab 0 0 }) (4096 * q / 4096) i,
        add-zero i,
        word,
      )
      (unfold stolen in refl),
  unfold stolen in refl,
  λ x.
      unfold stolen in
      ground (
        arith,
        get_or-set (set s.space.ptab 0 0) i x (bit_or (4096 * q) 7) 0,
        get_or-set s.space.ptab 0 x 0 0,
        length-set s.space.ptab 0 0,
        v.low_size,
      ),
)
  where
    cleared : (unmap_run 1 0 0 s.space.ptab).0 ≡ set s.space.ptab 0 0
    cleared = ground (arith, le-bit_or (4096 * q) flags)

    frame : frame_of (entry s.space.ptab 0) ≡ 4096 * q
    frame = rw first (page-entry q flags (omega arith) small)

    word : ((4096 * q / 4096 + 0) * 4096) % 2 ^ 32 ≡ 4096 * q
    word = omega arith
