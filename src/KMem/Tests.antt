-- ===== src/KMem/Tests.antt =====
-- The block allocator started on the sample machine.
use jeffos.Base.{
  ℕ, ◌+◌, get_elem?, some, ◌∙◌, ◌==◌, ◌≤◌, ◌≡◌, refl, ◌⊎◌, List, [], ◌∷◌, arith, false,
}
use jeffos.Status.{ok}
use jeffos.Pages.Sample.{sample-IsMemory, sample-free_pages, sample-free_entries}
use jeffos.Pages.Alloc.Allocated.{NoPages}
use jeffos.KMem.{Heap, km_init, kmalloc, kfree}
use jeffos.KMem.Sample.{cold, Start, warm, warm_pages, block, one_taken}
use jeffos.KMem.Global.{
  IsHeap, KmallocEnd, next_entry, put, kmalloc-KmallocEnd, kmalloc-fresh, kfree-IsHeap,
}
use jeffos.KMem.Give.{without}
use jeffos.KMem.Disjoint.{kmalloc_disjoint}
use jeffos.KMem.Init.{memory_init-IsHeap}

memory_init-IsHeap_example : Start
memory_init-IsHeap_example =
    memory_init-IsHeap cold refl sample-IsMemory (omega (arith, sample-free_pages))
      (omega (arith, sample-free_entries))

kmalloc-KmallocEnd_example : KmallocEnd warm.0 (λ i. []) (λ i. []) warm_pages 2 (kmalloc warm.0 2)
kmalloc-KmallocEnd_example =
    kmalloc-KmallocEnd warm.0 (λ i. []) (λ i. []) warm_pages warm.3 2 (omega arith)

kfree-IsHeap_example :
    (h' : Heap) × (kfree one_taken.0 0 (block 0) ≡ ok h')
    × IsHeap h'
        (put (put (λ i. []) 0 []) 0 (block 0 ∷ []))
        (put (put (λ i. []) 0 (block 0 ∷ [])) 0 (without (block 0) (block 0 ∷ [])))
        (put warm_pages 0 (warm_pages 0))
kfree-IsHeap_example =
    kfree-IsHeap one_taken.0 (put (λ i. []) 0 []) (put (λ i. []) 0 (block 0 ∷ []))
      (put warm_pages 0 (warm_pages 0)) one_taken.2 0 (omega arith) (block 0) (ground arith)

abbrev two_live : ℕ → List ℕ
two_live = put (put (λ i. []) 0 (block 0 ∷ [])) 2 (block 2 ∷ [])

abbrev two_pages : ℕ → List ℕ
two_pages = put (put warm_pages 0 (warm_pages 0)) 2 (warm_pages 2)

two_taken :
    (h' : Heap) × (kmalloc one_taken.0 2 ≡ ok (h', block 2))
    × IsHeap h' (put (put (λ i. []) 0 []) 2 []) two_live two_pages
    × ((j : ℕ) → (2 == j) ≡ false → get_elem? h'.km_map j ≡ get_elem? one_taken.0.km_map j)
    × (get_elem? h'.km_map 2 ≡ some (next_entry (record (km_init 64 64) { fresh_chain = block 2 })))
two_taken =
    kmalloc-fresh one_taken.0 (put (λ i. []) 0 []) (put (λ i. []) 0 (block 0 ∷ []))
      (put warm_pages 0 (warm_pages 0)) one_taken.2 2 (omega arith) _
      (one_taken.3 2 refl ∙ warm.4 2 (omega arith)) refl (omega arith)

kmalloc_disjoint_example :
    ((block 2 + 64 ≤ block 0) ⊎ (block 0 + 16 ≤ block 2)) ⊎ NoPages one_taken.0.memory.pmat 1
kmalloc_disjoint_example =
    kmalloc_disjoint one_taken.0 two_taken.0 (put (λ i. []) 0 []) (put (λ i. []) 0 (block 0 ∷ []))
      (put warm_pages 0 (warm_pages 0)) 2 0 (block 2) (block 0) one_taken.2 (omega arith)
      (omega arith) two_taken.1 (ground arith)
