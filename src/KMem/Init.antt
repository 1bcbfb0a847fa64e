-- ===== src/KMem/Init.antt =====
-- `memory_init` of kernel/memory.c.
use mathlib.Core.Path.{subst}
use jeffos.Base.{
  ℕ, zero, suc, ◌-◌, ◌*◌, ◌/◌, ◌≤◌, ◌<◌, ◌≡◌, refl, sym, ◌∙◌, ap, ◌≢◌, inl, inr, true, false, List,
  [], ◌∷◌, arith, length, has, get_elem?, get_or, some, Bool-cases,
}
use jeffos.Status.{ok}
use jeffos.Pages.Tables.{in_use, kernel_base}
use jeffos.Pages.Alloc.{Memory}
use jeffos.Pages.Alloc.Allocated.{IsMemory}
use jeffos.Pages.Alloc.Count.{
  free_pages, free_entries, mm_alloc_pages-one, served-free_pages, served-free_entries,
}
use jeffos.KMem.{KmMap, Heap, km_init, km_map_start, init_classes, memory_init}
use jeffos.KMem.Sizes.{block_size}
use jeffos.KMem.Class.{IsPage, IsClass}
use jeffos.KMem.Take.{page-aligned}
use jeffos.KMem.Shave.{served-IsPage, served-new, served-keeps, served-busy}
use jeffos.KMem.Global.{IsHeap}

abbrev page_index : ℕ → ℕ
page_index q = (q - kernel_base) / 4096

-- The classes `kms'` are `kms` with the pages `ps`, all different and newly mapped.
record Started (kms : List KmMap) (m : Memory) (kms' : List KmMap) (m' : Memory) (ps : List ℕ)
    : Type 0 where
  each :
      (i : ℕ) (km : KmMap)
      → get_elem? kms i ≡ some km
      → get_elem? kms' i ≡ some (record km { fresh_chain = get_or ps i 0 })
  mapped : (i : ℕ) → i < length kms → IsPage m'.space (get_or ps i 0)
  new : (i : ℕ) → i < length kms → in_use m.space.high (page_index (get_or ps i 0)) ≡ false
  distinct : (i j : ℕ) → i < length kms → j < length kms → get_or ps i 0 ≡ get_or ps j 0 → i ≡ j
  keeps : (q : ℕ) → IsPage m.space q → IsPage m'.space q
  valid : IsMemory m'

Started-cons :
    (km : KmMap) (kms kms' : List KmMap) (m m' m'' : Memory) (p : ℕ) (ps : List ℕ)
    → IsPage m'.space p
    → in_use m.space.high (page_index p) ≡ false
    → ((q : ℕ) → IsPage m.space q → IsPage m'.space q)
    → ((x : ℕ) → in_use m.space.high x ≡ true → in_use m'.space.high x ≡ true)
    → Started kms m' kms' m'' ps
    → Started (km ∷ kms) m (record km { fresh_chain = p } ∷ kms') m'' (p ∷ ps)
Started-cons km kms kms' m m' m'' p ps page new keep grow r = record {
  each = each;
  mapped = mapped;
  new = fresh;
  distinct = distinct;
  keeps = λ q h. r.keeps q (keep q h);
  valid = r.valid;
}
  where
    each :
        (i : ℕ) (k : KmMap)
        → get_elem? (km ∷ kms) i ≡ some k
        → get_elem? (record km { fresh_chain = p } ∷ kms') i
          ≡ some (record k { fresh_chain = get_or (p ∷ ps) i 0 })
    each zero k h = ground arith
    each (suc i) k h = r.each i k h

    mapped : (i : ℕ) → i < suc (length kms) → IsPage m''.space (get_or (p ∷ ps) i 0)
    mapped zero h = r.keeps p page
    mapped (suc i) h = r.mapped i (omega arith)

    fresh :
        (i : ℕ)
        → i < suc (length kms)
        → in_use m.space.high (page_index (get_or (p ∷ ps) i 0)) ≡ false
    fresh zero h = new
    fresh (suc i) h = elim (Bool-cases (in_use m.space.high (page_index (get_or ps i 0)))) [
      | inr e ↦ e
      | inl e ↦ absurd (cc (grow (page_index (get_or ps i 0)) e, r.new i (omega arith)))
    ]

    other : (i : ℕ) → i < length kms → p ≢ get_or ps i 0
    other i h e =
        let busy : in_use m'.space.high (page_index (get_or ps i 0)) ≡ true =
          subst (λ t. in_use m'.space.high (page_index t) ≡ true) e page.mapped in
        cc (busy, r.new i h)

    distinct :
        (i j : ℕ)
        → i < suc (length kms)
        → j < suc (length kms)
        → get_or (p ∷ ps) i 0 ≡ get_or (p ∷ ps) j 0
        → i ≡ j
    distinct zero zero a b e = refl
    distinct zero (suc j) a b e = absurd (other j (omega arith) e)
    distinct (suc i) zero a b e = absurd (other i (omega arith) (sym e))
    distinct (suc i) (suc j) a b e = ap suc (r.distinct i j (omega arith) (omega arith) e)

init_classes-Started :
    (kms : List KmMap) (m : Memory)
    → IsMemory m
    → length kms ≤ free_pages m.pmat
    → length kms ≤ free_entries m.space.high
    → (kms' : List KmMap) × (m' : Memory) × (ps : List ℕ) × (init_classes kms m ≡ ok (kms', m'))
      × Started kms m kms' m' ps
unfolding init_classes
init_classes-Started [] m v pages entries = (
  [],
  m,
  [],
  refl,
  record {
    each = λ i km h. cc;
    mapped = λ i h. absurd (omega arith);
    new = λ i h. absurd (omega arith);
    distinct = λ i j h. absurd (omega arith);
    keeps = λ q h. h;
    valid = v;
  },
)
init_classes-Started (km ∷ kms) m v pages entries =
    let (p, y, b, run, k) = mm_alloc_pages-one m 3 (omega arith) v (omega arith) (omega arith) in
    let (kms', m', ps, rest, r) =
      init_classes-Started kms b.memory k.valid
        (omega (arith, served-free_pages m 3 (omega arith) p y b k))
        (omega (arith, served-free_entries m 3 (omega arith) p y b k)) in
    (
      record km { fresh_chain = b.virt } ∷ kms',
      m',
      b.virt ∷ ps,
      rw run (rw rest refl),
      Started-cons km kms kms' m b.memory m' b.virt ps (served-IsPage m p y b k)
          (served-new m p y b k) (served-keeps m p y b k) (served-busy m p y b k) r,
    )

-- The initial entry of each class: blocks of its size, and as many fresh ones as fill a page.
start_entry :
    (i : ℕ)
    → i < 7
    → (get_elem? km_map_start i ≡ some (km_init (block_size i) (4096 / block_size i)))
      × (4096 / block_size i * block_size i ≡ 4096)
      × (0 < block_size i)
      × (0 < 4096 / block_size i)
unfolding km_map_start
start_entry zero h = (refl, refl, omega arith, omega arith)
start_entry (suc zero) h = (refl, refl, omega arith, omega arith)
start_entry (suc (suc zero)) h = (refl, refl, omega arith, omega arith)
start_entry (suc (suc (suc zero))) h = (refl, refl, omega arith, omega arith)
start_entry (suc (suc (suc (suc zero)))) h = (refl, refl, omega arith, omega arith)
start_entry (suc (suc (suc (suc (suc zero))))) h = (refl, refl, omega arith, omega arith)
start_entry (suc (suc (suc (suc (suc (suc zero)))))) h = (refl, refl, omega arith, omega arith)
start_entry (suc (suc (suc (suc (suc (suc (suc i))))))) h = absurd (omega arith)

has-one : (a p : ℕ) → has a (p ∷ []) ≡ true → a ≡ p
has-one a p h = ground arith

-- A class with a fresh page and nothing taken from it is in order.
start-IsClass :
    (i p : ℕ) (word : ℕ → ℕ) (m : Memory)
    → i < 7
    → IsPage m.space p
    → IsClass
        (record (km_init (block_size i) (4096 / block_size i)) { fresh_chain = p })
        word
        m.space
        []
        []
        (p ∷ [])
start-IsClass i p word m low page = record {
  first = refl;
  chain = tt;
  free_counted = refl;
  used_counted = refl;
  live_distinct = tt;
  apart = λ x h. cc;
  free_blocks = λ x h. absurd (cc h);
  live_blocks = λ x h. absurd (cc h);
  some_fresh = (start_entry i low).3;
  some_size = (start_entry i low).2;
  fills = (start_entry i low).1;
  fresh_aligned =
      page-aligned (4096 / block_size i) (block_size i) p (start_entry i low).1 page.whole;
  fresh_at = omega (arith, (start_entry i low).1);
  few_fresh = omega arith;
  some_page = ground arith;
  pages_mapped = λ q h. rw (has-one q p h) page;
}

memory_init-ok :
    (h : Heap) (kms' : List KmMap) (m' : Memory)
    → init_classes h.km_map h.memory ≡ ok (kms', m')
    → memory_init h ≡ ok (record h { km_map = kms'; memory = m' })
unfolding memory_init
memory_init-ok h kms' m' e = rw e

-- With seven pages and seven entries left, `memory_init` succeeds and puts the heap in order, with no
-- block on any chain or in use, and a whole page of fresh blocks in each class.
pub memory_init-IsHeap :
    (h : Heap)
    → h.km_map ≡ km_map_start
    → IsMemory h.memory
    → 7 ≤ free_pages h.memory.pmat
    → 7 ≤ free_entries h.memory.space.high
    → (h' : Heap) × (ps : List ℕ) × (memory_init h ≡ ok h')
      × IsHeap h' (λ i. []) (λ i. []) (λ i. get_or ps i 0 ∷ [])
      × ((i : ℕ)
          → i < 7
          → get_elem? h'.km_map i
            ≡ some (record (km_init (block_size i) (4096 / block_size i)) {
              fresh_chain = get_or ps i 0;
            }))
memory_init-IsHeap h start v pages entries =
    let (kms', m', ps, run, r) =
      init_classes-Started km_map_start h.memory v (unfold km_map_start in pages)
        (unfold km_map_start in entries) in
    (
      record h { km_map = kms'; memory = m' },
      ps,
      memory_init-ok h kms' m' (ap (λ t. init_classes t h.memory) start ∙ run),
      record {
        entries = λ i low. record {
          km = record (km_init (block_size i) (4096 / block_size i)) {
            fresh_chain = get_or ps i 0;
          };
          at = r.each i (km_init (block_size i) (4096 / block_size i)) (start_entry i low).0;
          sized = refl;
          class =
              start-IsClass i (get_or ps i 0) h.word m' low
                (r.mapped i (unfold km_map_start in low));
        };
        separate = λ i j p li lj a b.
            r.distinct i j (unfold km_map_start in li) (unfold km_map_start in lj)
              (sym (has-one p (get_or ps i 0) a) ∙ has-one p (get_or ps j 0) b);
        memory = r.valid;
      },
      λ i low. r.each i (km_init (block_size i) (4096 / block_size i)) (start_entry i low).0,
    )
