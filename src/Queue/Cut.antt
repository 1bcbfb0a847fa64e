-- ===== src/Queue/Cut.antt =====
-- `queue_removeTail` of kernel/queue.c on more than one node.
use jeffos.Base.{ℕ, ◌≡◌, refl, some, false, List, ◌∷◌, arith, ◌==◌, has-ne, ==_refl}
use mathlib.Core.Path.{subst}
use jeffos.Status.{ok}
use jeffos.KMem.Give.{without}
use jeffos.KMem.Global.{IsHeap, put, kfree-IsHeap}
use jeffos.Queue.{State, km16, unlink_tail, queue_remove_tail}
use jeffos.Queue.Links.{last_from, last_or_null, has-last_from}
use jeffos.Queue.Ops.{IsState}

-- On a queue in order of at least two nodes `queue_removeTail` answers what the first node holds,
-- frees that node, leaves it as the head of the queue, and leaves the tail NULL.
pub queue_remove_tail_cuts :
    (s : State) (x y : ℕ) (ys : List ℕ) (free live pages : ℕ → List ℕ)
    → IsState s (x ∷ y ∷ ys) free live pages
    → (s' : State) × (queue_remove_tail s ≡ ok (s', some ((s.node x).data_ptr, (s.node x).dsize)))
      × (s'.queue.head ≡ x)
      × (s'.queue.tail ≡ 0)
      × IsHeap s'.heap (put free km16 (x ∷ free km16)) (put live km16 (without x (live km16))) pages
unfolding queue_remove_tail unlink_tail last_or_null last_from
queue_remove_tail_cuts s x y ys free live pages v =
    let (h', freed, w) =
      kfree-IsHeap s.heap free live pages v.heaped km16 (omega arith) x
        (v.owned x (rw (==_refl x) refl)) in
    let busy : (x == 0) ≡ false = ground (arith, v.queued.chain.0) in
    let many : (last_from y ys == x) ≡ false =
      has-ne (last_from y ys) x (y ∷ ys) (has-last_from y ys) v.queued.chain.2 in
    let none_before : (s.node x).prev ≡ 0 =
      subst (λ t. (s.node t).prev ≡ 0) v.queued.first
        (v.queued.first_prev (ground (arith, v.queued.first, v.queued.chain.0))) in
    (
      record {
        queue = (unlink_tail s.queue s.node).0;
        node = (unlink_tail s.queue s.node).1;
        heap = h';
      },
      rw (v.queued.first, busy, freed) refl,
      rw (v.queued.first, v.queued.last, many) refl,
      rw (v.queued.first, v.queued.last, many) none_before,
      w,
    )
