-- ===== src/KMem/Sample.antt =====
-- A heap to run kernel/memory.c on: the initial `km_map` on the sample machine, after `memory_init`.
use jeffos.Base.{ℕ, ◌/◌, get_elem?, some, ◌==◌, ◌<◌, ◌≡◌, refl, List, [], ◌∷◌, arith, get_or, false}
use jeffos.Status.{ok}
use jeffos.Pages.Sample.{sample, sample-IsMemory, sample-free_pages, sample-free_entries}
use jeffos.KMem.{KmMap, Heap, km_init, km_map_start, memory_init, kmalloc}
use jeffos.KMem.Sizes.{block_size}
use jeffos.KMem.Global.{IsHeap, next_entry, put, kmalloc-fresh}
use jeffos.KMem.Init.{memory_init-IsHeap}

abbrev pub cold : Heap
cold = record { km_map = km_map_start; word = λ p. 0; memory = sample }

-- What the start of the cold heap gives.
abbrev pub Start : Type 0
Start =
    (h' : Heap) × (ps : List ℕ) × (memory_init cold ≡ ok h')
    × IsHeap h' (λ i. []) (λ i. []) (λ i. get_or ps i 0 ∷ [])
    × ((i : ℕ)
        → i < 7
        → get_elem? h'.km_map i
          ≡ some (record (km_init (block_size i) (4096 / block_size i)) {
            fresh_chain = get_or ps i 0;
          }))

-- The heap after the start.
pub warm : Start
warm =
    memory_init-IsHeap cold refl sample-IsMemory (omega (arith, sample-free_pages))
      (omega (arith, sample-free_entries))

abbrev pub warm_pages : ℕ → List ℕ
warm_pages i = get_or warm.1 i 0 ∷ []

-- The class of 16 bytes at the start, and a block taken from it.
abbrev pub block : ℕ → ℕ
block i = get_or warm.1 i 0

abbrev pub warm_entry : KmMap
warm_entry = record (km_init 16 256) { fresh_chain = block 0 }

pub one_taken :
    (h' : Heap) × (kmalloc warm.0 0 ≡ ok (h', block 0))
    × IsHeap h'
        (put (λ i. []) 0 [])
        (put (λ i. []) 0 (block 0 ∷ []))
        (put warm_pages 0 (warm_pages 0))
    × ((j : ℕ) → (0 == j) ≡ false → get_elem? h'.km_map j ≡ get_elem? warm.0.km_map j)
    × (get_elem? h'.km_map 0 ≡ some (next_entry warm_entry))
one_taken =
    kmalloc-fresh warm.0 (λ i. []) (λ i. []) warm_pages warm.3 0 (omega arith) _
      (warm.4 0 (omega arith)) refl (omega arith)

-- The class of 32 bytes, and a block taken from it.
abbrev pub warm_entry32 : KmMap
warm_entry32 = record (km_init 32 128) { fresh_chain = block 1 }

pub one_taken32 :
    (h' : Heap) × (kmalloc warm.0 1 ≡ ok (h', block 1))
    × IsHeap h'
        (put (λ i. []) 1 [])
        (put (λ i. []) 1 (block 1 ∷ []))
        (put warm_pages 1 (warm_pages 1))
    × ((j : ℕ) → (1 == j) ≡ false → get_elem? h'.km_map j ≡ get_elem? warm.0.km_map j)
    × (get_elem? h'.km_map 1 ≡ some (next_entry warm_entry32))
one_taken32 =
    kmalloc-fresh warm.0 (λ i. []) (λ i. []) warm_pages warm.3 1 (omega arith) _
      (warm.4 1 (omega arith)) refl (omega arith)
