-- ===== src/KMem/Shave.antt =====
-- `kmalloc` of kernel/memory.c on one class, with the page allocator behind it.
use jeffos.Base.{
  ℕ, ◌+◌, ◌-◌, ◌*◌, ◌/◌, ◌≡◌, refl, sym, ◌∙◌, ap, ◌⊎◌, inl, inr, true, false, List, [], ◌∷◌, arith,
  ◌==◌, has, Bool-cases, has-cons,
}
use mathlib.Core.Path.{subst}
use jeffos.Status.{Outcome, ok, halted, ◌>>=◌}
use jeffos.Pages.Tables.{in_use, kernel_base}
use jeffos.Pages.Tables.Map.{NoneFree}
use jeffos.Pages.Tables.Unmap.{entry_for-ne_zero}
use jeffos.Pages.Search.{run_free-get}
use jeffos.Pages.Alloc.{Memory, Block, mm_alloc_pages}
use jeffos.Pages.Alloc.Allocated.{
  IsMemory, KernelServed, KernelAlloc, served, no_pages, no_entries, NoPages,
  mm_alloc_pages-KernelAlloc,
}
use jeffos.KMem.{KmMap, recycle, shave, take_block}
use jeffos.KMem.Class.{page_of, IsPage, IsClass}
use jeffos.KMem.Take.{
  recycle-IsClass, bumped, bumped-IsClass, refilled, refilled-IsClass, fresh-not_live, fresh-owned,
}

-- From `m` to `m'` no page is lost, and the pages that a class gained were not mapped before.
pub record Extends (m m' : Memory) (pages pages' : List ℕ) : Type 0 where
  pub keeps : (q : ℕ) → IsPage m.space q → IsPage m'.space q
  pub gains :
      (q : ℕ)
      → has q pages' ≡ true
      → (has q pages ≡ true) ⊎ (in_use m.space.high ((q - kernel_base) / 4096) ≡ false)
  pub valid : IsMemory m'

-- The ends of taking a block. If the page allocator has nothing left the block is still good, but the
-- class is left with address 0 for its fresh page.
pub data TakeEnd (word : ℕ → ℕ) (m : Memory) (size : ℕ) (live pages : List ℕ)
    : Outcome (KmMap × ℕ × Memory) → Type 0 where
  taken :
      {km' : KmMap} {block : ℕ} {m' : Memory} (free' pages' : List ℕ)
      → has block live ≡ false
      → km'.size ≡ size
      → IsClass km' word m'.space free' (block ∷ live) pages'
      → Extends m m' pages pages'
      → TakeEnd word m size live pages (ok (km', block, m'))
  starved :
      {km' : KmMap} {block : ℕ} {m' : Memory}
      → has block live ≡ false
      → has (page_of block) pages ≡ true
      → NoPages m.pmat 1
      → km'.fresh_chain ≡ 0
      → m' ≡ m
      → TakeEnd word m size live pages (ok (km', block, m'))
  no_entry : NoneFree m.space.high 1 → TakeEnd word m size live pages halted

pub Extends-refl : (m : Memory) (pages : List ℕ) → IsMemory m → Extends m m pages pages
Extends-refl m pages w = record { keeps = λ q h. h; gains = λ q h. inl h; valid = w }

module _ (m : Memory) (p y : ℕ) (b : Block) (k : KernelServed m 1 3 p y b) where
  index : (b.virt - kernel_base) / 4096 ≡ y
  index = omega (arith, k.virt)

  -- The page of a served allocation is mapped after it, and was not before.
  pub served-IsPage : IsPage b.memory.space b.virt
  served-IsPage = record {
    high = omega (arith, k.virt);
    whole = omega (arith, k.virt);
    mapped = rw index (ground (arith, k.mapped y, entry_for-ne_zero (4096 * p) 3 (y - y)));
  }

  pub served-new : in_use m.space.high ((b.virt - kernel_base) / 4096) ≡ false
  served-new =
      rw index (run_free-get (in_use m.space.high) y 1 y k.entries.1 (omega arith) (omega arith))

  pub served-busy : (x : ℕ) → in_use m.space.high x ≡ true → in_use b.memory.space.high x ≡ true
  served-busy x h = ground (arith, k.mapped x, entry_for-ne_zero (4096 * p) 3 (x - y))

  pub served-keeps : (q : ℕ) → IsPage m.space q → IsPage b.memory.space q
  served-keeps q h = record {
    high = h.high;
    whole = h.whole;
    mapped = served-busy ((q - kernel_base) / 4096) h.mapped;
  }

  served-Extends : (pages : List ℕ) → Extends m b.memory pages (b.virt ∷ pages)
  served-Extends pages = record {
    keeps = served-keeps;
    gains =
        λ q h. elim (has-cons q b.virt pages h) [ inl e ↦ inr (rw e served-new) | inr e ↦ inl e ];
    valid = k.valid;
  }

module _ (km : KmMap) (word : ℕ → ℕ) (m : Memory) (free live pages : List ℕ)
    (v : IsClass km word m.space free live pages) (w : IsMemory m) where
  refill-TakeEnd :
      (r : Outcome Block)
      → KernelAlloc m 1 3 r
      → TakeEnd word m km.size live pages (
          r >>= λ b. ok (
            record km {
              used_count = km.used_count + 1;
              fresh_count = 4096 / km.size;
              fresh_chain = b.virt;
            },
            km.fresh_chain,
            b.memory,
          ))
  unfolding refilled
  refill-TakeEnd (ok b) (served p y k) =
      taken free (b.virt ∷ pages) (fresh-not_live km word m.space free live pages v) refl
        (refilled-IsClass km word m.space free live pages v b.memory.space b.virt
          (served-keeps m p y b k) (served-IsPage m p y b k) new)
        (served-Extends m p y b k pages)
    where
      new : has b.virt pages ≡ false
      new = elim (Bool-cases (has b.virt pages)) [
        | inr e ↦ e
        | inl e ↦ absurd (cc ((v.pages_mapped b.virt e).mapped, served-new m p y b k))
      ]
  refill-TakeEnd (ok b) (no_pages none_left e) =
      starved (fresh-not_live km word m.space free live pages v)
        (fresh-owned km word m.space free live pages v) none_left (ap (λ t. t.virt) e)
        (ap (λ t. t.memory) e)
  refill-TakeEnd halted (no_entries p first none_free) = no_entry none_free
  refill-TakeEnd Outcome.out_of_fuel a = elim a [ ]

  shave-TakeEnd : TakeEnd word m km.size live pages (shave km m)
  unfolding shave bumped
  shave-TakeEnd = elim (Bool-cases (km.fresh_count - 1 == 0)) [
    | inl last ↦
        rw last
          (refill-TakeEnd (mm_alloc_pages m 1 3) (mm_alloc_pages-KernelAlloc m 1 3 w (omega arith)))
    | inr more ↦ rw more (
        taken free pages (fresh-not_live km word m.space free live pages v) refl
          (bumped-IsClass km word m.space free live pages v (ground arith))
          (Extends-refl m pages w))
  ]

-- Taking a block from a class that is in order never gives one that is live; the class is in order
-- again, unless the pages have run out.
pub take_block-TakeEnd :
    (km : KmMap) (word : ℕ → ℕ) (m : Memory) (free live pages : List ℕ)
    → IsClass km word m.space free live pages
    → IsMemory m
    → TakeEnd word m km.size live pages (take_block km word m)
unfolding take_block
take_block-TakeEnd km word m [] live pages v w =
    let idle : (km.free_chain == 0) ≡ true = ground (arith, v.first) in
    rw idle (shave-TakeEnd km word m [] live pages v w)
take_block-TakeEnd km word m (x ∷ xs) live pages v w =
    let busy : (km.free_chain == 0) ≡ false = ground (arith, v.first, v.chain.0) in
    let (still, block, fresh) = recycle-IsClass km word m.space live pages x xs v in
    rw busy (
      taken xs pages (ap (λ t. has t live) block ∙ fresh) refl
        (subst (λ t. IsClass (recycle km word).0 word m.space xs (t ∷ live) pages) (sym block)
          still)
        (Extends-refl m pages w))
