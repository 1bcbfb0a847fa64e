-- ===== src/Port/Body.antt =====
-- The block or the page that carries the body of a message, kernel/port.c.
use jeffos.Base.{
  ℕ, ◌<◌, ◌≡◌, refl, true, false, inl, inr, List, arith, ◌==◌, ltb, get_or, has, Bool-cases,
  ==_refl,
}
use jeffos.Status.{Outcome, ok, halted, ◌>>=◌}
use jeffos.Pages.Tables.Map.{NoneFree}
use jeffos.Pages.Alloc.{Block, mm_alloc_pages}
use jeffos.Pages.Alloc.Allocated.{NoPages, KernelAlloc, mm_alloc_pages-KernelAlloc}
use jeffos.KMem.{Heap, kmalloc, kmalloc_b, size_map}
use jeffos.KMem.Sizes.{size_map-least}
use jeffos.KMem.Give.{block-pos}
use jeffos.KMem.Global.{IsHeap, KmallocEnd, kmalloc-KmallocEnd}
use jeffos.Kernel.{Kernel, heap_of, with_heap}
use jeffos.Port.{km32, message_body}

-- What stays as it is while a block or a page is taken.
pub record Same (k k' : Kernel) : Type 0 where
  pub port : k'.port ≡ k.port
  pub message : k'.message ≡ k.message
  pub user : k'.user ≡ k.user
  pub byte : k'.byte ≡ k.byte
  pub task : k'.machine.task ≡ k.machine.task
  pub current : k'.machine.current_task ≡ k.machine.current_task
  pub process_addr : k'.machine.process_addr ≡ k.machine.process_addr

-- The body of a message: a block or a page; NULL or a block with no page left for the next ones; or a
-- halt with no room in the kernel's page table.
pub data BodyEnd (k : Kernel) : Outcome (Kernel × ℕ) → Type 0 where
  got : {k' : Kernel} {body : ℕ} → Same k k' → (body == 0) ≡ false → BodyEnd k (ok (k', body))
  starved : {k' : Kernel} {body : ℕ} → NoPages k.machine.kernel.pmat 1 → BodyEnd k (ok (k', body))
  full : NoneFree k.machine.kernel.space.high 1 → BodyEnd k halted

-- A live block is not NULL.
live-pos :
    (heap : Heap) (free live pages : ℕ → List ℕ) (i m : ℕ)
    → IsHeap heap free live pages
    → i < 7
    → has m (live i) ≡ true
    → 0 < m
live-pos heap free live pages i m w low alive =
    let e = w.entries i low in
    block-pos e.km heap.word heap.memory.space (free i) (live i) (pages i) e.class m
      (e.class.live_blocks m alive)

-- The same of the block of a message.
pub message-pos :
    (heap : Heap) (free live pages : ℕ → List ℕ) (m : ℕ)
    → IsHeap heap free live pages
    → has m (live km32) ≡ true
    → 0 < m
message-pos heap free live pages m w alive =
    live-pos heap free live pages km32 m w (omega arith) alive

block-BodyEnd :
    (k : Kernel) (free live pages : ℕ → List ℕ) (i : ℕ) (low : i < 7) (r : Outcome (Heap × ℕ))
    → KmallocEnd (heap_of k) free live pages i r
    → BodyEnd k (r >>= λ t. ok (with_heap k t.0, t.1))
block-BodyEnd k free live pages i low (ok t) (KmallocEnd.given free' pages' new w) =
    let pos = live-pos t.0 _ _ _ i t.1 w low (rw (==_refl i, ==_refl t.1) refl) in
    BodyEnd.got
      (record {
        port = refl;
        message = refl;
        user = refl;
        byte = refl;
        task = refl;
        current = refl;
        process_addr = refl;
      })
      (ground arith)
block-BodyEnd k free live pages i low (ok t) (KmallocEnd.starved new none_left same) =
    BodyEnd.starved none_left
block-BodyEnd k free live pages i low halted (KmallocEnd.no_entry none_free) =
    BodyEnd.full none_free
block-BodyEnd k free live pages i low Outcome.out_of_fuel e = elim e [ ]

page-BodyEnd :
    (k : Kernel) (r : Outcome Block)
    → KernelAlloc k.machine.kernel 1 3 r
    → BodyEnd k
        (r >>= λ b. ok (record k { machine = record k.machine { kernel = b.memory } }, b.virt))
page-BodyEnd k (ok b) (KernelAlloc.served p y v) =
    BodyEnd.got
      (record {
        port = refl;
        message = refl;
        user = refl;
        byte = refl;
        task = refl;
        current = refl;
        process_addr = refl;
      })
      (ground (arith, v.virt))
page-BodyEnd k (ok b) (KernelAlloc.no_pages none_left same) = BodyEnd.starved none_left
page-BodyEnd k halted (KernelAlloc.no_entries p first none_free) = BodyEnd.full none_free
page-BodyEnd k Outcome.out_of_fuel e = elim e [ ]

pub message_body-BodyEnd :
    (k : Kernel) (free live pages : ℕ → List ℕ) (size : ℕ)
    → IsHeap (heap_of k) free live pages
    → BodyEnd k (message_body k size)
unfolding message_body kmalloc_b
message_body-BodyEnd k free live pages size v = elim (Bool-cases (ltb size 1025)) [
  | inl e ↦
      let class = get_or size_map size 0 in
      let low = (size_map-least size (ground arith)).0 in
      rw e (
        block-BodyEnd k free live pages class low (kmalloc (heap_of k) class)
          (kmalloc-KmallocEnd (heap_of k) free live pages v class low))
  | inr e ↦ elim (Bool-cases (k.msg_pool == 0)) [
    | inl z ↦
        rw (e, z)
          (page-BodyEnd k (mm_alloc_pages k.machine.kernel 1 3)
            (mm_alloc_pages-KernelAlloc k.machine.kernel 1 3 v.memory (omega arith)))
    | inr z ↦
        rw (e, z)
          (BodyEnd.got
            (record {
              port = refl;
              message = refl;
              user = refl;
              byte = refl;
              task = refl;
              current = refl;
              process_addr = refl;
            })
            z)
  ]
]
