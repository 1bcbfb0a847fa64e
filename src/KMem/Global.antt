-- ===== src/KMem/Global.antt =====
-- The seven classes of kernel/memory.c together.
use mathlib.Core.Path.{subst}
use jeffos.Base.{some_inj}
use jeffos.Base.{
  ℕ, ◌+◌, ◌-◌, ◌<◌, ◌≡◌, refl, sym, ◌∙◌, ap, inl, inr, true, false, List, ◌∷◌, arith, ◌==◌,
  if◌then◌else◌, has, get_elem?, get_elem?-set, get_elem?-lt, set, some, Bool-cases, ==_iff,
  ==_refl, le→ltb,
}
use jeffos.Status.{Outcome, ok, halted, ◌>>=◌}
use jeffos.Pages.Tables.{Aspace}
use jeffos.Pages.Tables.Map.{NoneFree}
use jeffos.Pages.Alloc.{Memory}
use jeffos.Pages.Alloc.Allocated.{IsMemory, NoPages}
use jeffos.KMem.{
  KmMap, Heap, km1024, take_block, kmalloc_at, kmalloc, write_word, give_back, kfree_at, kfree,
}
use jeffos.KMem.Sizes.{block_size}
use jeffos.KMem.Class.{page_of, IsPage, IsClass}
use jeffos.KMem.Shave.{Extends, Extends-refl, TakeEnd, take_block-TakeEnd}
use jeffos.KMem.Take.{bumped, bumped-IsClass}
use jeffos.KMem.Give.{without, FreeChain-write, give_back-IsClass}

-- What a class is known to be: its entry of `km_map`, with blocks of its size, in order.
pub record Entry (h : Heap) (free live pages : List ℕ) (i : ℕ) : Type 0 where
  pub km : KmMap
  pub at : get_elem? h.km_map i ≡ some km
  pub sized : km.size ≡ block_size i
  pub class : IsClass km h.word h.memory.space free live pages

-- The chains, the live blocks and the pages of each class.
pub record IsHeap (h : Heap) (free live pages : ℕ → List ℕ) : Type 0 where
  pub entries : (i : ℕ) → i < 7 → Entry h (free i) (live i) (pages i) i
  pub separate :
      (i j p : ℕ) → i < 7 → j < 7 → has p (pages i) ≡ true → has p (pages j) ≡ true → i ≡ j
  pub memory : IsMemory h.memory

abbrev pub put : (ℕ → List ℕ) → ℕ → List ℕ → ℕ → List ℕ
put f i xs j = if j == i then xs else f j

-- Another class stays in order while the pages only grow.
IsClass-keeps :
    {km : KmMap} {word : ℕ → ℕ} {a a' : Aspace} {free live pages : List ℕ}
    → ((q : ℕ) → IsPage a q → IsPage a' q)
    → IsClass km word a free live pages
    → IsClass km word a' free live pages
IsClass-keeps keeps v = record {
  first = v.first;
  chain = v.chain;
  free_counted = v.free_counted;
  used_counted = v.used_counted;
  live_distinct = v.live_distinct;
  apart = v.apart;
  free_blocks = v.free_blocks;
  live_blocks = v.live_blocks;
  some_fresh = v.some_fresh;
  some_size = v.some_size;
  fills = v.fills;
  fresh_aligned = v.fresh_aligned;
  fresh_at = v.fresh_at;
  few_fresh = v.few_fresh;
  some_page = v.some_page;
  pages_mapped = λ p h. keeps p (v.pages_mapped p h);
}

-- It also stays in order while a block outside its chain is written.
IsClass-word :
    {km : KmMap} {word : ℕ → ℕ} {a : Aspace} {free live pages : List ℕ} (b w : ℕ)
    → has b free ≡ false
    → IsClass km word a free live pages
    → IsClass km (write_word word b w) a free live pages
IsClass-word {word} {free} b w out v = record {
  first = v.first;
  chain = FreeChain-write word free b w out v.chain;
  free_counted = v.free_counted;
  used_counted = v.used_counted;
  live_distinct = v.live_distinct;
  apart = v.apart;
  free_blocks = v.free_blocks;
  live_blocks = v.live_blocks;
  some_fresh = v.some_fresh;
  some_size = v.some_size;
  fills = v.fills;
  fresh_aligned = v.fresh_aligned;
  fresh_at = v.fresh_at;
  few_fresh = v.few_fresh;
  some_page = v.some_page;
  pages_mapped = v.pages_mapped;
}

-- The ends of `kmalloc`: a block that is live in no class, with the heap in order; the same block
-- with no page left for the next ones; or a halt, with no room in the kernel's page table.
pub data KmallocEnd (h : Heap) (free live pages : ℕ → List ℕ) (i : ℕ)
    : Outcome (Heap × ℕ) → Type 0 where
  given :
      {h' : Heap} {block : ℕ} (free' pages' : List ℕ)
      → ((j : ℕ) → j < 7 → has block (live j) ≡ false)
      → IsHeap h' (put free i free') (put live i (block ∷ live i)) (put pages i pages')
      → KmallocEnd h free live pages i (ok (h', block))
  starved :
      {h' : Heap} {block : ℕ}
      → ((j : ℕ) → j < 7 → has block (live j) ≡ false)
      → NoPages h.memory.pmat 1
      → h'.memory ≡ h.memory
      → KmallocEnd h free live pages i (ok (h', block))
  no_entry : NoneFree h.memory.space.high 1 → KmallocEnd h free live pages i halted

-- The entry after a fresh block is cut that is not the page's last.
abbrev pub next_entry : KmMap → KmMap
next_entry km = record km {
  used_count = km.used_count + 1;
  fresh_count = km.fresh_count - 1;
  fresh_chain = km.fresh_chain + km.size;
}

module _ (h : Heap) (free live pages : ℕ → List ℕ) (v : IsHeap h free live pages) (i : ℕ)
    (low : i < 7) where
  pub mine : Entry h (free i) (live i) (pages i) i
  mine = v.entries i low

  -- A page that class `i` gained is on no other class.
  gained :
      (m' : Memory) (pages' : List ℕ)
      → Extends h.memory m' (pages i) pages'
      → (j p : ℕ) → j < 7
      → has p pages' ≡ true
      → has p (pages j) ≡ true
      → i ≡ j
  gained m' pages' x j p lt here there = elim (x.gains p here) [
    | inl old ↦ v.separate i j p low lt old there
    | inr new ↦ absurd (cc ((v.entries j lt).class.pages_mapped p there).mapped)
  ]

  gained-separate :
      (m' : Memory) (pages' : List ℕ)
      → Extends h.memory m' (pages i) pages'
      → (j k p : ℕ) → j < 7
      → k < 7
      → has p (put pages i pages' j) ≡ true
      → has p (put pages i pages' k) ≡ true
      → j ≡ k
  gained-separate m' pages' x j k p lj lk a b = elim (Bool-cases (j == i)) [
    | inl ej ↦ elim (Bool-cases (k == i)) [
      | inl ek ↦ (==_iff j i).0 ej ∙ sym ((==_iff k i).0 ek)
      | inr nk ↦ (==_iff j i).0 ej ∙ gained m' pages' x k p lk (rw ej at a) (rw nk at b)
    ]
    | inr nj ↦ elim (Bool-cases (k == i)) [
      | inl ek ↦ sym (gained m' pages' x j p lj (rw ek at b) (rw nj at a)) ∙ sym ((==_iff k i).0 ek)
      | inr nk ↦ v.separate j k p lj lk (rw nj at a) (rw nk at b)
    ]
  ]

  after : KmMap → Memory → Heap
  after km' m' = record h { km_map = set h.km_map i km'; memory = m' }

  new_Entry :
      (m' : Memory) (km' : KmMap) (free' live' pages' : List ℕ)
      → km'.size ≡ mine.km.size
      → IsClass km' h.word m'.space free' live' pages'
      → Extends h.memory m' (pages i) pages'
      → (j : ℕ) → j < 7
      → Entry (after km' m') (put free i free' j) (put live i live' j) (put pages i pages' j) j
  unfolding after
  new_Entry m' km' free' live' pages' same c x j lt = elim (Bool-cases (j == i)) [
    | inl e ↦ rw e (record {
      km = km';
      at = ground (
        arith,
        get_elem?-set h.km_map i j km',
        get_elem?-lt h.km_map i mine.at,
        (==_iff j i).0 e,
      );
      sized = same ∙ mine.sized ∙ ap block_size (sym ((==_iff j i).0 e));
      class = c;
    })
    | inr n ↦
        let e = v.entries j lt in
        rw n (record {
          km = e.km;
          at = get_elem?-set h.km_map i j km' ∙ ground (arith, e.at);
          sized = e.sized;
          class = IsClass-keeps x.keeps e.class;
        })
  ]

  -- A block on a page of the class is live in no other class.
  elsewhere :
      (b : ℕ)
      → has b (live i) ≡ false
      → ((j : ℕ) → j < 7 → has (page_of b) (pages j) ≡ true → i ≡ j)
      → (j : ℕ) → j < 7
      → has b (live j) ≡ false
  elsewhere b fresh page j lt = elim (Bool-cases (has b (live j))) [
    | inr e ↦ e
    | inl e ↦
        let same : i ≡ j = page j lt ((v.entries j lt).class.live_blocks b e).owned in
        absurd (cc (ap (λ t. has b (live t)) same, fresh, e))
  ]

  kmalloc_at-end :
      (r : Outcome (KmMap × ℕ × Memory))
      → TakeEnd h.word h.memory mine.km.size (live i) (pages i) r
      → KmallocEnd h free live pages i
          (r >>= λ t. ok (record h { km_map = set h.km_map i t.0; memory = t.2 }, t.1))
  unfolding after
  kmalloc_at-end (ok (km', block, m')) (TakeEnd.taken free' pages' fresh same c x) =
      given free' pages'
        (elsewhere block fresh (λ j lt p.
          gained m' pages' x j (page_of block) lt (c.live_blocks block (rw (==_refl block))).owned
            p))
        (record {
          entries = new_Entry m' km' free' (block ∷ live i) pages' same c x;
          separate = gained-separate m' pages' x;
          memory = x.valid;
        })
  kmalloc_at-end (ok (km', block, m')) (TakeEnd.starved fresh page none_left e same) =
      starved (elsewhere block fresh (λ j lt p. v.separate i j (page_of block) low lt page p))
        none_left same
  kmalloc_at-end halted (TakeEnd.no_entry none_free) = no_entry none_free
  kmalloc_at-end Outcome.out_of_fuel e = elim e [ ]

  -- `kmalloc` of a class never gives a block that is live in any class, and keeps the heap in order
  -- as long as pages last.
  pub kmalloc-KmallocEnd : KmallocEnd h free live pages i (kmalloc h i)
  unfolding kmalloc kmalloc_at
  kmalloc-KmallocEnd =
      rw (le→ltb km1024 i (omega arith), mine.at)
        (kmalloc_at-end (take_block mine.km h.word h.memory) (
          take_block-TakeEnd mine.km h.word h.memory (free i) (live i) (pages i) mine.class
            v.memory))

  kmalloc-mine :
      mine.km.free_chain ≡ 0
      → 0 < mine.km.fresh_count - 1
      → (h' : Heap) × (kmalloc h i ≡ ok (h', mine.km.fresh_chain))
        × IsHeap h'
            (put free i (free i))
            (put live i (mine.km.fresh_chain ∷ live i))
            (put pages i (pages i))
        × ((j : ℕ) → (i == j) ≡ false → get_elem? h'.km_map j ≡ get_elem? h.km_map j)
        × (get_elem? h'.km_map i ≡ some (next_entry mine.km))
  unfolding kmalloc kmalloc_at take_block after bumped
  kmalloc-mine empty more =
      let idle : (mine.km.free_chain == 0) ≡ true = ground arith in
      let busy : (mine.km.fresh_count - 1 == 0) ≡ false = ground arith in
      let x : Extends h.memory h.memory (pages i) (pages i) =
        Extends-refl h.memory (pages i) v.memory in
      let km' = bumped mine.km h.word h.memory.space (free i) (live i) (pages i) mine.class in
      (
        after km' h.memory,
        rw (le→ltb km1024 i (omega arith), mine.at, idle, busy),
        record {
          entries =
              new_Entry h.memory km' (free i) (mine.km.fresh_chain ∷ live i) (pages i) refl
                (bumped-IsClass mine.km h.word h.memory.space (free i) (live i) (pages i) mine.class
                  more)
                x;
          separate = gained-separate h.memory (pages i) x;
          memory = v.memory;
        },
        λ j other. ground (arith, get_elem?-set h.km_map i j km'),
        ground (arith, get_elem?-set h.km_map i i km', get_elem?-lt h.km_map i mine.at, ==_refl i),
      )

  -- With an empty chain and more than one fresh block left `kmalloc` gives the next fresh block, and
  -- no other class changes.
  pub kmalloc-fresh :
      (km : KmMap)
      → get_elem? h.km_map i ≡ some km
      → km.free_chain ≡ 0
      → 0 < km.fresh_count - 1
      → (h' : Heap) × (kmalloc h i ≡ ok (h', km.fresh_chain))
        × IsHeap h'
            (put free i (free i))
            (put live i (km.fresh_chain ∷ live i))
            (put pages i (pages i))
        × ((j : ℕ) → (i == j) ≡ false → get_elem? h'.km_map j ≡ get_elem? h.km_map j)
        × (get_elem? h'.km_map i ≡ some (next_entry km))
  kmalloc-fresh km at =
      subst
        (λ k.
          k.free_chain ≡ 0
          → 0 < k.fresh_count - 1
          → (h' : Heap) × (kmalloc h i ≡ ok (h', k.fresh_chain))
            × IsHeap h' (put free i (free i)) (put live i (k.fresh_chain ∷ live i))
                (put pages i (pages i))
            × ((j : ℕ) → (i == j) ≡ false → get_elem? h'.km_map j ≡ get_elem? h.km_map j)
            × (get_elem? h'.km_map i ≡ some (next_entry k)))
        (some_inj (sym mine.at ∙ at)) kmalloc-mine

  -- `kfree` of a live block of the class takes it off the live ones, puts it in front of the chain,
  -- and keeps the heap in order.
  pub kfree-IsHeap :
      (b : ℕ)
      → has b (live i) ≡ true
      → (h' : Heap) × (kfree h i b ≡ ok h')
        × IsHeap h' (put free i (b ∷ free i)) (put live i (without b (live i))) pages
  unfolding kfree kfree_at
  kfree-IsHeap b alive = (
    record h {
      km_map = set h.km_map i (give_back mine.km b);
      word = write_word h.word b mine.km.free_chain;
    },
    rw (le→ltb km1024 i (omega arith), mine.at),
    record {
      entries = λ j lt. elim (Bool-cases (j == i)) [
        | inl e ↦ rw e (record {
          km = give_back mine.km b;
          at = ground (
            arith,
            get_elem?-set h.km_map i j (give_back mine.km b),
            get_elem?-lt h.km_map i mine.at,
            (==_iff j i).0 e,
          );
          sized = mine.sized ∙ ap block_size (sym ((==_iff j i).0 e));
          class =
              subst
                (λ t.
                  IsClass (give_back mine.km b) (write_word h.word b mine.km.free_chain)
                    h.memory.space (b ∷ free i) (without b (live i)) (pages t))
                (sym ((==_iff j i).0 e))
                (give_back-IsClass mine.km h.word h.memory.space (free i) (live i) (pages i)
                  mine.class b alive);
        })
        | inr n ↦
            let e = v.entries j lt in
            rw n (record {
              km = e.km;
              at = get_elem?-set h.km_map i j (give_back mine.km b) ∙ ground (arith, e.at);
              sized = e.sized;
              class = IsClass-word b mine.km.free_chain (off_chain j lt n) e.class;
            })
      ];
      separate = v.separate;
      memory = v.memory;
    },
  )
    where
      off_chain : (j : ℕ) → j < 7 → (j == i) ≡ false → has b (free j) ≡ false
      off_chain j lt n = elim (Bool-cases (has b (free j))) [
        | inr e ↦ e
        | inl e ↦
            let same : i ≡ j =
              v.separate i j (page_of b) low lt (mine.class.live_blocks b alive).owned
                ((v.entries j lt).class.free_blocks b e).owned in
            absurd (ground (arith, same))
      ]
