-- ===== src/Queue/Tests.antt =====
-- Queues on the started heap: an empty one, and one of two nodes.
use jeffos.Base.{
  ℕ, ◌+◌, ◌<◌, ◌≡◌, refl, false, some, none, List, [], ◌∷◌, arith, ◌==◌, if◌then◌else◌, get_elem?,
  ==_refl,
}
use jeffos.Status.{ok}
use jeffos.KMem.{Heap, kmalloc}
use jeffos.KMem.Give.{without}
use jeffos.KMem.Global.{IsHeap, put, next_entry, kmalloc-fresh}
use jeffos.KMem.Sample.{warm, warm_pages, warm_entry, block, one_taken}
use jeffos.Queue.{QNode, State, km16, queue_remove_tail}
use jeffos.Queue.Links.{contents, last_or_null, last_from}
use jeffos.Queue.Ops.{IsState, live-pos}
use jeffos.Queue.Cut.{queue_remove_tail_cuts}
use jeffos.Queue.History.{
  Call, add_head, add_tail, remove_head, calls, listed, all_listed, CallsEnd, calls-CallsEnd,
}

abbrev no_node : QNode
no_node = record { next = 0; prev = 0; data_ptr = 0; dsize = 0 }

abbrev empty : State
empty = record {
  queue = record { count = 0; limit = 0; head = 0; tail = 0 };
  node = λ a. no_node;
  heap = warm.0;
}

empty-IsState : IsState empty [] (λ i. []) (λ i. []) warm_pages
unfolding last_or_null
empty-IsState = record {
  queued = record {
    first = refl;
    last = refl;
    chain = tt;
    first_prev = λ h. absurd (omega arith);
    counted = refl;
  };
  heaped = warm.3;
  owned = λ a h. ground arith;
}

abbrev story : List Call
story = add_tail 7 0 ∷ add_head 8 1 ∷ add_tail 9 2 ∷ remove_head ∷ remove_head ∷ []

calls-CallsEnd_example :
    CallsEnd empty story
      ((9, 2) ∷ [])
      (none ∷ none ∷ none ∷ some (8, 1) ∷ some (7, 0) ∷ [])
      (calls empty story)
unfolding all_listed listed contents
calls-CallsEnd_example = calls-CallsEnd story empty [] (λ i. []) (λ i. []) warm_pages empty-IsState

-- A second block of 16 bytes.
abbrev second : ℕ
second = block 0 + 16

abbrev two_live : ℕ → List ℕ
two_live = put (put (λ i. []) 0 (block 0 ∷ [])) 0 (second ∷ block 0 ∷ [])

abbrev two_pages : ℕ → List ℕ
two_pages = put (put warm_pages 0 (warm_pages 0)) 0 (put warm_pages 0 (warm_pages 0) 0)

abbrev two_free : ℕ → List ℕ
two_free = put (put (λ i. []) 0 []) 0 []

two_taken :
    (h' : Heap) × (kmalloc one_taken.0 0 ≡ ok (h', second))
    × IsHeap h' two_free two_live two_pages
    × ((j : ℕ) → (0 == j) ≡ false → get_elem? h'.km_map j ≡ get_elem? one_taken.0.km_map j)
    × (get_elem? h'.km_map 0 ≡ some (next_entry (next_entry warm_entry)))
two_taken =
    kmalloc-fresh one_taken.0 (put (λ i. []) 0 []) (put (λ i. []) 0 (block 0 ∷ []))
      (put warm_pages 0 (warm_pages 0)) one_taken.2 0 (omega arith) _ one_taken.4 refl (omega arith)

abbrev two : State
two = record {
  queue = record { count = 2; limit = 0; head = block 0; tail = second };
  node = λ a.
      if a == block 0
      then record { next = second; prev = 0; data_ptr = 7; dsize = 4 }
      else record { next = 0; prev = block 0; data_ptr = 8; dsize = 5 };
  heap = two_taken.0;
}

first-pos : 0 < block 0
first-pos = live-pos two_taken.0 two_free two_live two_pages (block 0) two_taken.2 (ground arith)

two-IsState : IsState two (block 0 ∷ second ∷ []) two_free two_live two_pages
unfolding last_or_null last_from
two-IsState = record {
  queued = record {
    first = refl;
    last = refl;
    chain = (
      first-pos,
      rw (==_refl (block 0)) refl,
      ground arith,
      (omega arith, ground arith, refl, tt),
    );
    first_prev = λ h. rw (==_refl (block 0)) refl;
    counted = refl;
  };
  heaped = two_taken.2;
  owned = λ a h. ground arith;
}

queue_remove_tail_cuts_example :
    (s' : State) × (queue_remove_tail two
      ≡ ok (s', some ((two.node (block 0)).data_ptr, (two.node (block 0)).dsize)))
    × (s'.queue.head ≡ block 0)
    × (s'.queue.tail ≡ 0)
    × IsHeap s'.heap
        (put two_free km16 (block 0 ∷ two_free km16))
        (put two_live km16 (without (block 0) (two_live km16)))
        two_pages
queue_remove_tail_cuts_example =
    queue_remove_tail_cuts two (block 0) second [] two_free two_live two_pages two-IsState
