-- ===== src/Pages/Space/Grow.antt =====
-- One round of `brk`.
use jeffos.Base.{
  ℕ, ◌+◌, ◌-◌, ◌*◌, ◌/◌, ◌%◌, ◌^◌, ◌<◌, ◌≡◌, refl, sym, ◌∙◌, ap, bit_or, true, false, not, arith,
  ◌==◌, if◌then◌else◌, length-set, get_or-set, set,
}
use native.Mathlib.Nat.{add-zero}
use jeffos.Base.Tally.{tally_drop}
use jeffos.Status.{Outcome, ok, halted}
use jeffos.Pages.Bitmap.{used, max_pages}
use jeffos.Pages.Search.{run_free, run_free-get}
use jeffos.Pages.Tables.{Aspace, entry, in_use, frame_of, unmap_run, aspace_map}
use jeffos.Pages.Tables.Unmap.{unmap-map, frame_of-entry_for}
use jeffos.Pages.Alloc.{Memory, Block, mm_alloc_pages_lo}
use jeffos.Pages.Alloc.Allocated.{
  IsMemory, LowServed, LowAlloc, served, no_pages, no_entries, mm_alloc_pages_lo-LowAlloc,
}
use jeffos.Pages.Alloc.Freed.{kunmap_low}
use jeffos.Pages.Alloc.Count.{free_pages, NoPages-free_pages}
use jeffos.Pages.Space.{brk_page}

-- Entry `i` got page `p`, which was free and is now marked; no other entry and no other page changed.
pub record Grown (s s' : Memory) (i p : ℕ) : Type 0 where
  pub page_free : used s.pmat p ≡ false
  pub page_low : p < max_pages - 1
  pub marked : (x : ℕ) → used s'.pmat x ≡ (if x == p then true else used s.pmat x)
  pub entries :
      (x : ℕ)
      → entry s'.space.ptab x ≡ (if x == i then bit_or (4096 * p) 7 else entry s.space.ptab x)
  pub high_same : s'.space.high ≡ s.space.high
  pub valid : IsMemory s'

pub aspace_map-one :
    (a : Aspace) (phys i : ℕ)
    → aspace_map a phys i 1 7
      ≡ record a { ptab = set a.ptab (i + 0) (bit_or (((phys + 0) * 4096) % 2 ^ 32) 7) }
unfolding aspace_map
aspace_map-one a phys i = refl

-- The memory after the page of a served allocation was moved to entry `i`.
moved : Memory → ℕ → ℕ → Block → Memory
moved s i p b = record {
  pmat = b.memory.pmat;
  space = record b.memory.space { ptab = set s.space.ptab i (bit_or (4096 * p) 7) };
}

module _ (s : Memory) (i : ℕ) (v : IsMemory s) (clear : in_use s.space.ptab i ≡ false) where
  brk_page-moved :
      (p y : ℕ) {b : Block}
      → mm_alloc_pages_lo s 1 7 ≡ ok b
      → LowServed s 1 7 p y b
      → brk_page s i ≡ ok (moved s i p b)
  unfolding brk_page moved
  brk_page-moved p y {b} run k = rw (
    clear,
    run,
    k.virt,
    kunmap_low b.memory.space y 1 (omega (arith, k.entries.0)),
    undone,
    frame,
    aspace_map-one (record b.memory.space { ptab = s.space.ptab }) (4096 * p / 4096) i,
    add-zero i,
    word,
  )
    where
      undone : (unmap_run 1 y 0 b.memory.space.ptab).0 ≡ s.space.ptab
      undone =
          unmap-map s.space.ptab b.memory.space.ptab y 1 (4096 * p) 7 k.mapped (omega arith)
            (k.valid.low_size ∙ sym v.low_size) (omega (arith, k.entries.0, v.low_size)) k.entries.1

      frame : frame_of (entry b.memory.space.ptab y) ≡ 4096 * p
      frame =
          ap frame_of (ground (arith, k.mapped y))
          ∙ frame_of-entry_for p 7 0 (omega (arith, k.pages.0)) (omega arith)
          ∙ omega arith

      word : ((4096 * p / 4096 + 0) * 4096) % 2 ^ 32 ≡ 4096 * p
      word = omega (arith, k.pages.0)

  moved-Grown :
      (p y : ℕ) {b : Block} → i < 1024 → LowServed s 1 7 p y b → Grown s (moved s i p b) i p
  unfolding moved
  moved-Grown p y {b} h k = record {
    page_free = run_free-get (used s.pmat) p 1 p k.pages.1 (omega arith) (omega arith);
    page_low = omega (arith, k.pages.0);
    marked = λ x. ground (arith, k.marked x);
    entries = λ x. ground (arith, get_or-set s.space.ptab i x (bit_or (4096 * p) 7) 0, v.low_size);
    high_same = k.high_same;
    valid = record {
      bitmap = k.valid.bitmap;
      low_size = length-set s.space.ptab i (bit_or (4096 * p) 7) ∙ v.low_size;
      high_size = k.valid.high_size;
    };
  }

  grow :
      (r : Outcome Block)
      → mm_alloc_pages_lo s 1 7 ≡ r
      → i + 1 < 1024
      → 0 < free_pages s.pmat
      → LowAlloc s 1 7 r
      → (s' : Memory) × (p : ℕ) × (brk_page s i ≡ ok s') × Grown s s' i p
  unfolding run_free
  grow (ok b) run fits pages (served p y k) =
      (moved s i p b, p, brk_page-moved p y run k, moved-Grown p y (omega arith) k)
  grow (ok b) run fits pages (no_pages none_left e) =
      absurd (omega (arith, NoPages-free_pages s.pmat none_left))
  grow halted run fits pages (no_entries p first none_free) = absurd (ground (arith, none_free i))
  grow Outcome.out_of_fuel run fits pages a = elim a [ ]

  -- A clear entry gets a page as long as one is left.
  pub brk_page-Grown :
      i + 1 < 1024
      → 0 < free_pages s.pmat
      → (s' : Memory) × (p : ℕ) × (brk_page s i ≡ ok s') × Grown s s' i p
  brk_page-Grown fits pages =
      grow (mm_alloc_pages_lo s 1 7) refl fits pages
        (mm_alloc_pages_lo-LowAlloc s 1 7 v (omega arith))

pub Grown-free_pages :
    {s s' : Memory} {i p : ℕ} → Grown s s' i p → free_pages s.pmat ≡ free_pages s'.pmat + 1
Grown-free_pages {s} {s'} {i} {p} g =
    tally_drop (λ x. not (used s.pmat x)) (λ x. not (used s'.pmat x)) p 0 (max_pages - 1)
      (omega arith) (omega (arith, g.page_low)) (ground (arith, g.page_free))
      (λ x. ground (arith, g.marked x))

-- An entry that is in use is left alone.
pub brk_page-busy : (s : Memory) (i : ℕ) → in_use s.space.ptab i ≡ true → brk_page s i ≡ ok s
unfolding brk_page
brk_page-busy s i h = rw h
