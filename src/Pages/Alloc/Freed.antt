-- ===== src/Pages/Alloc/Freed.antt =====
-- `MmFreePages` of kernel/mem.c, of a block that is mapped and of one that is not.
use jeffos.Base.{
  ℕ, ◌+◌, ◌-◌, ◌*◌, ◌/◌, ◌%◌, ◌≤◌, ◌<◌, ◌≡◌, sym, ◌∙◌, ap, ◌≢◌, ◌⊎◌, true, false, ◌&&◌, arith, ◌==◌,
  ltb, leb, if◌then◌else◌,
}
use jeffos.Status.{status_success, status_general_error}
use jeffos.Pages.Bitmap.{IsPmat, used, max_pages}
use jeffos.Pages.Search.{run_free-get}
use jeffos.Pages.Tables.{Aspace, entry, frame_of, unmap_run, kernel_base, kunmap_page}
use jeffos.Pages.Tables.Unmap.{unmap-map, frame_of-entry_for, length-unmap_run}
use jeffos.Pages.Alloc.{Memory, Block, free_run, mm_free_pages}
use jeffos.Pages.Alloc.Runs.{free_run-IsPmat, free_run_lem}
use jeffos.Pages.Alloc.Allocated.{IsMemory, KernelServed, LowServed}

pub kunmap_high :
    (a : Aspace) (y n : ℕ)
    → kunmap_page a (kernel_base + 4096 * y) n ≡ (
      record a { high = (unmap_run n y 0 a.high).0 },
      frame_of (entry a.high y),
      (unmap_run n y 0 a.high).1,
    )
unfolding kunmap_page
kunmap_high a y n =
    let e : (kernel_base + 4096 * y - kernel_base) / 4096 ≡ y = omega arith in
    let above : leb kernel_base (kernel_base + 4096 * y) ≡ true = ground arith in rw (above, e)

pub kunmap_low :
    (a : Aspace) (y n : ℕ)
    → y < 1024
    → kunmap_page a (4096 * y) n ≡ (
      record a { ptab = (unmap_run n y 0 a.ptab).0 },
      frame_of (entry a.ptab y),
      (unmap_run n y 0 a.ptab).1,
    )
unfolding kunmap_page
kunmap_low a y n h =
    let e : 4096 * y / 4096 ≡ y = omega arith in
    let below : leb kernel_base (4096 * y) ≡ false = ground arith in rw (below, e)

-- What `MmFreePages` does at an address of the high table.
free_high :
    (s : Memory) (y n : ℕ)
    → mm_free_pages s (kernel_base + 4096 * y) n ≡ (
      record {
        pmat = (free_run n (frame_of (entry s.space.high y) / 4096) 0 s.pmat).0;
        space = record s.space { high = (unmap_run n y 0 s.space.high).0 };
      },
      (free_run n (frame_of (entry s.space.high y) / 4096) 0 s.pmat).1,
    )
unfolding mm_free_pages
free_high s y n =
    let aligned : ((kernel_base + 4096 * y) % 4096 == 0) ≡ true = ground arith in
    let nonnull : (kernel_base + 4096 * y == 0) ≡ false = ground arith in
    rw (aligned, nonnull, kunmap_high s.space y n)

free_low :
    (s : Memory) (y n : ℕ)
    → 0 < y
    → y < 1024
    → mm_free_pages s (4096 * y) n ≡ (
      record {
        pmat = (free_run n (frame_of (entry s.space.ptab y) / 4096) 0 s.pmat).0;
        space = record s.space { ptab = (unmap_run n y 0 s.space.ptab).0 };
      },
      (free_run n (frame_of (entry s.space.ptab y) / 4096) 0 s.pmat).1,
    )
unfolding mm_free_pages
free_low s y n p q =
    let aligned : (4096 * y % 4096 == 0) ≡ true = ground arith in
    let nonnull : (4096 * y == 0) ≡ false = ground arith in
    rw (aligned, nonnull, kunmap_low s.space y n q)

-- The memory `s'` is `s` again: the same marked pages and the same tables.
pub record Restored (s s' : Memory) : Type 0 where
  pub pages : (x : ℕ) → used s'.pmat x ≡ used s.pmat x
  pub low : s'.space.ptab ≡ s.space.ptab
  pub high : s'.space.high ≡ s.space.high
  pub valid : IsMemory s'

module _ (s : Memory) (n flags p y : ℕ) (b : Block) (v : IsMemory s) (some_pages : 0 < n)
    (nonzero : flags ≢ 0) (small : flags < 4096) where
  -- The pages that are freed are those that were marked.
  unmark :
      (q : ℕ)
      → q ≡ p
      → p + n < max_pages
      → IsPmat b.memory.pmat
      → ((x : ℕ) → x < p + n → p ≤ x → used s.pmat x ≡ false)
      → ((x : ℕ)
          → used b.memory.pmat x ≡ (if leb p x && ltb x (p + n) then true else used s.pmat x))
      → ((free_run n q 0 b.memory.pmat).1 ≡ status_success)
        × ((x : ℕ) → used (free_run n q 0 b.memory.pmat).0 x ≡ used s.pmat x)
  unmark q e fits w free marked =
      let r =
        free_run_lem n q 0 b.memory.pmat w (omega arith) (λ x a c. ground (arith, marked x)) in
      (r.0, λ x. ground (arith, r.1 x, marked x, free x))

  -- A block of `MmAllocPages` that is given back leaves the memory as it was before.
  pub free-alloc :
      KernelServed s n flags p y b
      → (Restored s (mm_free_pages b.memory b.virt n).0)
        × ((mm_free_pages b.memory b.virt n).1 ≡ status_success)
  free-alloc k =
      rw (k.virt, free_high b.memory y n)
        (
          record {
            pages = freed.1;
            low = k.low_same;
            high =
                unmap-map s.space.high b.memory.space.high y n (4096 * p) flags k.mapped nonzero
                  (k.valid.high_size ∙ sym v.high_size) (omega (arith, k.entries.0, v.high_size))
                  k.entries.1;
            valid = record {
              bitmap = free_run-IsPmat n _ 0 b.memory.pmat k.valid.bitmap;
              low_size = k.valid.low_size;
              high_size = length-unmap_run n y 0 b.memory.space.high ∙ k.valid.high_size;
            };
          },
          freed.0,
        )
    where
      frame : frame_of (entry b.memory.space.high y) ≡ 4096 * p
      frame =
          ap frame_of (ground (arith, k.mapped y))
          ∙ frame_of-entry_for p flags 0 (omega (arith, k.pages.0)) small
          ∙ omega arith

      freed :
          ((free_run n (frame_of (entry b.memory.space.high y) / 4096) 0 b.memory.pmat).1
            ≡ status_success)
          × ((x : ℕ)
              → used
                  (free_run n (frame_of (entry b.memory.space.high y) / 4096) 0 b.memory.pmat).0
                  x
                ≡ used s.pmat x)
      freed =
          unmark _ (omega (arith, frame)) k.pages.0 k.valid.bitmap
            (λ x q r. run_free-get (used s.pmat) p n x k.pages.1 r q) k.marked

  -- So does a block of `MmAllocPagesLo`, unless it lies at address 0.
  pub free-alloc_lo :
      LowServed s n flags p y b
      → 0 < y
      → (Restored s (mm_free_pages b.memory b.virt n).0)
        × ((mm_free_pages b.memory b.virt n).1 ≡ status_success)
  free-alloc_lo k pos =
      rw (k.virt, free_low b.memory y n pos (omega (arith, k.entries.0)))
        (
          record {
            pages = freed.1;
            high = k.high_same;
            low =
                unmap-map s.space.ptab b.memory.space.ptab y n (4096 * p) flags k.mapped nonzero
                  (k.valid.low_size ∙ sym v.low_size) (omega (arith, k.entries.0, v.low_size))
                  k.entries.1;
            valid = record {
              bitmap = free_run-IsPmat n _ 0 b.memory.pmat k.valid.bitmap;
              high_size = k.valid.high_size;
              low_size = length-unmap_run n y 0 b.memory.space.ptab ∙ k.valid.low_size;
            };
          },
          freed.0,
        )
    where
      frame : frame_of (entry b.memory.space.ptab y) ≡ 4096 * p
      frame =
          ap frame_of (ground (arith, k.mapped y))
          ∙ frame_of-entry_for p flags 0 (omega (arith, k.pages.0)) small
          ∙ omega arith

      freed :
          ((free_run n (frame_of (entry b.memory.space.ptab y) / 4096) 0 b.memory.pmat).1
            ≡ status_success)
          × ((x : ℕ)
              → used
                  (free_run n (frame_of (entry b.memory.space.ptab y) / 4096) 0 b.memory.pmat).0
                  x
                ≡ used s.pmat x)
      freed =
          unmark _ (omega (arith, frame)) k.pages.0 k.valid.bitmap
            (λ x q r. run_free-get (used s.pmat) p n x k.pages.1 r q) k.marked

-- An address that is not mapped is taken for page 0: the first pages of the machine are unmarked,
-- with success, although nothing was mapped there.
pub free_unmapped :
    (s : Memory) (n y : ℕ)
    → IsMemory s
    → n ≤ max_pages
    → entry s.space.high y ≡ 0
    → ((x : ℕ) → x < n → used s.pmat x ≡ true)
    → let r = mm_free_pages s (kernel_base + 4096 * y) n in
      (r.1 ≡ status_success)
      × ((x : ℕ) → used r.0.pmat x ≡ (if ltb x n then false else used s.pmat x))
free_unmapped s n y v few clear marked =
    let r = free_run_lem n 0 0 s.pmat v.bitmap (omega arith) (λ x a c. marked x (omega arith)) in
    rw (free_high s y n, clear) (r.0, λ x. ground (arith, r.1 x))

-- Address 0 and addresses inside a page are refused, and nothing changes.
pub free_refused :
    (s : Memory) (virt n : ℕ)
    → (virt % 4096 ≢ 0) ⊎ (virt ≡ 0)
    → mm_free_pages s virt n ≡ (s, status_general_error)
unfolding mm_free_pages
free_refused s virt n h = ground arith
