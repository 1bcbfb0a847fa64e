-- ===== src/KMem.antt =====
-- The kernel's block allocator, kernel/memory.c: seven classes of blocks, each with a chain of freed
-- blocks that runs through the blocks, and a page that fresh blocks are cut from.
pub mod Sizes
pub mod Class
pub mod Take
pub mod Shave
pub mod Give
pub mod Global
pub mod Disjoint
pub mod Init
pub mod Sample
mod Tests
use jeffos.Base.{
  ℕ, zero, suc, ◌+◌, ◌-◌, ◌*◌, ◌/◌, Option, none, some, List, [], ◌∷◌, ◌++◌, ◌==◌, ltb,
  if◌then◌else◌, replicate, get_elem?, get_or, set,
}
use jeffos.Status.{Outcome, ok, halted, ◌>>=◌}
use jeffos.Pages.Alloc.{Memory, Block, mm_alloc_pages}

-- KM16 is class 0, KM1024 class 6.
abbrev pub km1024 : ℕ
km1024 = 6

-- An initialiser written as runs: so many times the value.
unfoldable pub expand : List (ℕ × ℕ) → List ℕ
expand [] = []
expand ((n, a) ∷ rs) = replicate n a ++ expand rs

-- The runs of `size_map`: the class for each size in bytes from 0 to 1024.
abbrev pub size_runs : List (ℕ × ℕ)
size_runs = (17, 0) ∷ (16, 1) ∷ (32, 2) ∷ (64, 3) ∷ (128, 4) ∷ (256, 5) ∷ (512, 6) ∷ []

unfoldable pub size_map : List ℕ
size_map = expand size_runs

-- `struct _km_map`. A chain is 0 where it is NULL.
pub record KmMap : Type 0 where
  pub size : ℕ
  pub used_count : ℕ
  pub fresh_count : ℕ
  pub free_count : ℕ
  pub free_chain : ℕ
  pub fresh_chain : ℕ

-- The array `km_map`, the first word of each block, and the pages.
pub record Heap : Type 0 where
  pub km_map : List KmMap
  pub word : ℕ → ℕ
  pub memory : Memory

abbrev pub km_init : ℕ → ℕ → KmMap
km_init size fresh = record {
  size = size;
  used_count = 0;
  fresh_count = fresh;
  free_count = 0;
  free_chain = 0;
  fresh_chain = 0;
}

-- The initial value of `km_map`.
unfoldable pub km_map_start : List KmMap
km_map_start =
    km_init 16 256
    ∷ km_init 32 128
    ∷ km_init 64 64
    ∷ km_init 128 32
    ∷ km_init 256 16
    ∷ km_init 512 8
    ∷ km_init 1024 4
    ∷ []

-- The loop of `memory_init`: each class gets a page.
unfoldable pub init_classes : List KmMap → Memory → Outcome (List KmMap × Memory)
init_classes [] m = ok ([], m)
init_classes (km ∷ kms) m = do
  b ← mm_alloc_pages m 1 3
  (kms', m') ← init_classes kms b.memory
  ok (record km { fresh_chain = b.virt } ∷ kms', m')

unfoldable pub memory_init : Heap → Outcome Heap
unfolding init_classes
memory_init h = do
  (kms, m) ← init_classes h.km_map h.memory
  ok (record h { km_map = kms; memory = m })

-- A freed block is taken again.
unfoldable pub recycle : KmMap → (ℕ → ℕ) → KmMap × ℕ
recycle km word = (
  record km {
    used_count = km.used_count + 1;
    free_count = km.free_count - 1;
    free_chain = word km.free_chain;
  },
  km.free_chain,
)

-- A block is cut from the fresh page, and another page is fetched when that was its last.
unfoldable pub shave : KmMap → Memory → Outcome (KmMap × ℕ × Memory)
shave km m =
    let taken = record km { used_count = km.used_count + 1; fresh_count = km.fresh_count - 1 } in
    let next_page = (do
      b ← mm_alloc_pages m 1 3
      ok (
        record taken { fresh_count = 4096 / km.size; fresh_chain = b.virt },
        km.fresh_chain,
        b.memory,
      )) in
    if km.fresh_count - 1 == 0
    then next_page
    else ok (record taken { fresh_chain = km.fresh_chain + km.size }, km.fresh_chain, m)

unfoldable pub take_block : KmMap → (ℕ → ℕ) → Memory → Outcome (KmMap × ℕ × Memory)
unfolding recycle shave
take_block km word m =
    let (km', block) = recycle km word in
    if km.free_chain == 0 then shave km m else ok (km', block, m)

kmalloc_at : Option KmMap → Heap → ℕ → Outcome (Heap × ℕ)
unfolding take_block
kmalloc_at none h i = halted
kmalloc_at (some km) h i = do
  (km', block, m') ← take_block km h.word h.memory
  ok (record h { km_map = set h.km_map i km'; memory = m' }, block)

-- `KePanic` halts on a class above the last.
unfoldable pub kmalloc : Heap → ℕ → Outcome (Heap × ℕ)
unfolding kmalloc_at
kmalloc h i = if ltb km1024 i then halted else kmalloc_at (get_elem? h.km_map i) h i

-- `((struct km_mnode *) block)->next = chain`
abbrev pub write_word : (ℕ → ℕ) → ℕ → ℕ → ℕ → ℕ
write_word word p v a = if a == p then v else word a

unfoldable pub give_back : KmMap → ℕ → KmMap
give_back km block = record km {
  free_count = km.free_count + 1;
  used_count = km.used_count - 1;
  free_chain = block;
}

kfree_at : Option KmMap → Heap → ℕ → ℕ → Outcome Heap
unfolding give_back
kfree_at none h i block = halted
kfree_at (some km) h i block = ok (record h {
  km_map = set h.km_map i (give_back km block);
  word = write_word h.word block km.free_chain;
})

unfoldable pub kfree : Heap → ℕ → ℕ → Outcome Heap
unfolding kfree_at
kfree h i block = if ltb km1024 i then halted else kfree_at (get_elem? h.km_map i) h i block

-- The entry points by size in bytes.
unfoldable pub kmalloc_b : Heap → ℕ → Outcome (Heap × ℕ)
kmalloc_b h size = if ltb size 1025 then kmalloc h (get_or size_map size 0) else halted

unfoldable pub kfree_b : Heap → ℕ → ℕ → Outcome Heap
kfree_b h size block = if ltb size 1025 then kfree h (get_or size_map size 0) block else halted
