-- ===== src/Queue.antt =====
-- The kernel's queues, kernel/queue.c: doubly linked nodes of 16 bytes each, with their data.
pub mod Links
pub mod Ends
pub mod Ops
pub mod Cut
pub mod History
mod Tests
use jeffos.Base.{ℕ, ◌+◌, ◌-◌, Option, none, some, ◌==◌, if◌then◌else◌}
use jeffos.Status.{Outcome, ok, ◌>>=◌}
use jeffos.KMem.{Heap, kmalloc, kfree}

-- `qnode_t`. A pointer is 0 where it is NULL.
pub record QNode : Type 0 where
  pub next : ℕ
  pub prev : ℕ
  pub data_ptr : ℕ
  pub dsize : ℕ

-- `queue_t`
pub record Queue : Type 0 where
  pub count : ℕ
  pub limit : ℕ
  pub head : ℕ
  pub tail : ℕ

-- One queue, the node at each address, and the heap that the nodes are blocks of.
pub record State : Type 0 where
  pub queue : Queue
  pub node : ℕ → QNode
  pub heap : Heap

-- KM16
abbrev pub km16 : ℕ
km16 = 0

abbrev pub write_node : (ℕ → QNode) → ℕ → QNode → ℕ → QNode
write_node node p v a = if a == p then v else node a

-- The address of the queue, and the queue.
unfoldable pub queue_new : Heap → ℕ → Outcome (Heap × ℕ × Queue)
queue_new h limit = do
  (h', q) ← kmalloc h km16
  ok (h', q, record { count = 0; limit = limit; head = 0; tail = 0 })

unfoldable pub queue_del : Heap → ℕ → Outcome Heap
queue_del h q = kfree h km16 q

-- The body of `queue_addHead` behind its `kmalloc`, which gave `qn`.
unfoldable pub link_head : Queue → (ℕ → QNode) → ℕ → ℕ → ℕ → Queue × (ℕ → QNode)
link_head q node qn item dsize =
    if q.head == 0
    then (
      record q { head = qn; tail = qn; count = q.count + 1 },
      write_node node qn (record { next = 0; prev = 0; data_ptr = item; dsize = dsize }),
    )
    else (
      record q { head = qn; count = q.count + 1 },
      (let node' =
            write_node node qn
              (record { next = q.head; prev = 0; data_ptr = item; dsize = dsize }) in
          write_node node' q.head (record (node' q.head) { prev = qn })),
    )

-- The body of `queue_addTail`. The new node's `prev` is the head, as the code has it.
unfoldable pub link_tail : Queue → (ℕ → QNode) → ℕ → ℕ → ℕ → Queue × (ℕ → QNode)
link_tail q node qn item dsize =
    if q.head == 0
    then (
      record q { head = qn; tail = qn; count = q.count + 1 },
      write_node node qn (record { next = 0; prev = 0; data_ptr = item; dsize = dsize }),
    )
    else (
      record q { tail = qn; count = q.count + 1 },
      (let node' =
            write_node node qn
              (record { next = 0; prev = q.head; data_ptr = item; dsize = dsize }) in
          write_node node' q.tail (record (node' q.tail) { next = qn })),
    )

unfoldable pub queue_add_head : State → ℕ → ℕ → Outcome State
unfolding link_head
queue_add_head s item dsize = do
  (h', qn) ← kmalloc s.heap km16
  let (q', node') = link_head s.queue s.node qn item dsize
  ok (record { queue = q'; node = node'; heap = h' })

unfoldable pub queue_add_tail : State → ℕ → ℕ → Outcome State
unfolding link_tail
queue_add_tail s item dsize = do
  (h', qn) ← kmalloc s.heap km16
  let (q', node') = link_tail s.queue s.node qn item dsize
  ok (record { queue = q'; node = node'; heap = h' })

-- The inner `if` of `queue_removeHead`, with the count.
unfoldable pub unlink_head : Queue → (ℕ → QNode) → Queue × (ℕ → QNode)
unlink_head q node =
    let next = (node q.head).next in
    if q.tail == q.head then (record q { count = q.count - 1; head = 0; tail = 0 }, node) else (
      record q { count = q.count - 1; head = next },
      write_node node next (record (node next) { prev = 0 }),
    )

-- The inner `if` of `queue_removeTail`, whose `qn` is the head as well.
unfoldable pub unlink_tail : Queue → (ℕ → QNode) → Queue × (ℕ → QNode)
unlink_tail q node =
    let prev = (node q.head).prev in
    if q.tail == q.head then (record q { count = q.count - 1; head = 0; tail = 0 }, node) else (
      record q { count = q.count - 1; tail = prev },
      write_node node prev (record (node prev) { next = 0 }),
    )

-- The data and the size of the node, or `none` for NULL.
unfoldable pub queue_remove_head : State → Outcome (State × Option (ℕ × ℕ))
unfolding unlink_head
queue_remove_head s =
    let qn = s.queue.head in
    let (q', node') = unlink_head s.queue s.node in
    let taken = (do
      h' ← kfree s.heap km16 qn
      ok (
        record { queue = q'; node = node'; heap = h' },
        some ((s.node qn).data_ptr, (s.node qn).dsize),
      )) in
    if qn == 0 then ok (s, none) else taken

unfoldable pub queue_remove_tail : State → Outcome (State × Option (ℕ × ℕ))
unfolding unlink_tail
queue_remove_tail s =
    let qn = s.queue.head in
    let (q', node') = unlink_tail s.queue s.node in
    let taken = (do
      h' ← kfree s.heap km16 qn
      ok (
        record { queue = q'; node = node'; heap = h' },
        some ((s.node qn).data_ptr, (s.node qn).dsize),
      )) in
    if qn == 0 then ok (s, none) else taken
