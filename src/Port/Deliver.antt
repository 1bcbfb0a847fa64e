-- ===== src/Port/Deliver.antt =====
-- `port_send` of kernel/port.c from the allocation of the message on.
use jeffos.Base.{
  ℕ, ◌+◌, ◌^◌, ◌<◌, ◌≡◌, refl, ◌∙◌, true, false, inl, inr, List, [], ◌∷◌, ◌++◌, arith, ◌==◌, ◌&&◌,
  length, has, Bool-cases, ==_refl,
}
use jeffos.Status.{Outcome, ok, halted, ◌>>=◌}
use jeffos.Pages.Tables.Map.{NoneFree}
use jeffos.Pages.Alloc.Allocated.{NoPages}
use jeffos.KMem.{Heap, kmalloc}
use jeffos.KMem.Global.{IsHeap, KmallocEnd, kmalloc-KmallocEnd}
use jeffos.Sched.{t_sleep_port}
use jeffos.Kernel.{Message, Kernel, heap_of, with_heap}
use jeffos.Port.{
  MsgHdr, km32, current_space, copy_in, message_body, append_message, wake_owner, place, deliver,
}
use jeffos.Port.Body.{BodyEnd, message_body-BodyEnd, message-pos}
use jeffos.Port.Chain.{Holds, mails, link-Holds}
use jeffos.Port.Copy.{copy_run_copies}

-- The message that goes on the queue, but for the block or the page that carries its body.
abbrev pub sent : Kernel → MsgHdr → ℕ → Message
sent k h body = record {
  next = 0;
  size = h.size;
  from_port = h.src;
  to_port = h.dst;
  pid = (k.machine.task k.machine.current_task).tid;
  body = body;
}

-- How the delivery ends: with the message last on the queue and its bytes those of the sender's; with
-- no page left when the message or its body is allocated, where nothing more is said; or with a halt,
-- with no room in the kernel's page table.
pub data DeliverEnd (k : Kernel) (p : ℕ) (h : MsgHdr) (ms : List ℕ)
    : Outcome (Kernel × ℕ) → Type 0 where
  delivered :
      {k' : Kernel} (m body : ℕ)
      → Holds (k'.port p) k'.message (ms ++ m ∷ [])
      → mails k'.message (ms ++ m ∷ []) ≡ mails k.message ms ++ sent k h body ∷ []
      → ((j : ℕ) → j < h.size → k'.byte (body + j) ≡ k.user (current_space k) (h.body + j))
      → DeliverEnd k p h ms (ok (k', h.size))
  starved : {r : Outcome (Kernel × ℕ)} → NoPages k.machine.kernel.pmat 1 → DeliverEnd k p h ms r
  no_body_page :
      {k' : Kernel} (heap : Heap) (m : ℕ)
      → kmalloc (heap_of k) km32 ≡ ok (heap, m)
      → NoPages heap.memory.pmat 1
      → DeliverEnd k p h ms (ok (k', h.size))
  no_entry : NoneFree k.machine.kernel.space.high 1 → DeliverEnd k p h ms halted
  no_body_entry :
      (heap : Heap) (m : ℕ)
      → kmalloc (heap_of k) km32 ≡ ok (heap, m)
      → NoneFree heap.memory.space.high 1
      → DeliverEnd k p h ms halted

record Woken (k k' : Kernel) : Type 0 where
  port : k'.port ≡ k.port
  message : k'.message ≡ k.message
  byte : k'.byte ≡ k.byte

wake_owner-Woken : (k : Kernel) (p dst : ℕ) → Woken k (wake_owner k p dst)
unfolding wake_owner
wake_owner-Woken k p dst =
    elim (Bool-cases (
      ((k.machine.task (k.port p).owner).state == t_sleep_port)
      && ((k.machine.task (k.port p).owner).sleeping_on == dst))) [
        | inl e ↦ rw e (record { port = refl; message = refl; byte = refl })
        | inr e ↦ rw e (record { port = refl; message = refl; byte = refl })
      ]

not_listed :
    (m : ℕ) (ms : List ℕ) (live : ℕ → List ℕ)
    → ((a : ℕ) → has a ms ≡ true → has a (live km32) ≡ true)
    → has m (live km32) ≡ false
    → has m ms ≡ false
not_listed m ms live owned new = elim (Bool-cases (has m ms)) [
  | inr e ↦ e
  | inl e ↦ absurd (cc (owned m e))
]

module _ (k : Kernel) (p : ℕ) (h : MsgHdr) (ms : List ℕ) (v : Holds (k.port p) k.message ms)
    (few : length ms + 1 < 2 ^ 32) where
  pub placed :
      (m body : ℕ)
      → 0 < m
      → has m ms ≡ false
      → (body == 0) ≡ false
      → let k' = place k p h m body in
        Holds (k'.port p) k'.message (ms ++ m ∷ [])
        × (mails k'.message (ms ++ m ∷ []) ≡ mails k.message ms ++ sent k h body ∷ [])
        × ((j : ℕ) → j < h.size → k'.byte (body + j) ≡ k.user (current_space k) (h.body + j))
  unfolding place copy_in
  placed m body pos new backed =
      let before = append_message (copy_in k h body) p m (sent k h body) in
      let w = wake_owner-Woken before p h.dst in
      let (held, said) = link-Holds (k.port p) k.message m (sent k h body) ms v pos new refl few in
      (
        rw (w.port, w.message, ==_refl p) held,
        rw w.message said,
        λ j low.
            rw (w.byte, backed)
              (copy_run_copies (k.user (current_space k)) h.body body h.size k.byte j low),
      )

module _ (k : Kernel) (p : ℕ) (h : MsgHdr) (ms : List ℕ) (v : Holds (k.port p) k.message ms)
    (few : length ms + 1 < 2 ^ 32) where
  body-DeliverEnd :
      (heap : Heap) (m : ℕ)
      → kmalloc (heap_of k) km32 ≡ ok (heap, m)
      → 0 < m
      → has m ms ≡ false
      → (r : Outcome (Kernel × ℕ)) → BodyEnd (with_heap k heap) r
      → DeliverEnd k p h ms (r >>= λ t. ok (place t.0 p h m t.1, h.size))
  body-DeliverEnd heap m taken pos new (ok (k', body)) (BodyEnd.got w backed) =
      let (held, said, bytes) =
        placed k' p h ms (rw (w.port, w.message) v) few m body pos new backed in
      DeliverEnd.delivered m body held (said ∙ rw (w.message, w.task, w.current) refl)
        (λ j low. bytes j low ∙ rw (w.user, w.task, w.current, w.process_addr) refl)
  body-DeliverEnd heap m taken pos new (ok (k', body)) (BodyEnd.starved none_left) =
      DeliverEnd.no_body_page heap m taken none_left
  body-DeliverEnd heap m taken pos new halted (BodyEnd.full none_free) =
      DeliverEnd.no_body_entry heap m taken none_free
  body-DeliverEnd heap m taken pos new Outcome.out_of_fuel e = elim e [ ]

  pub deliver-DeliverEnd :
      (free live pages : ℕ → List ℕ)
      → IsHeap (heap_of k) free live pages
      → ((a : ℕ) → has a ms ≡ true → has a (live km32) ≡ true)
      → DeliverEnd k p h ms (deliver k p h)
  unfolding deliver
  deliver-DeliverEnd free live pages w owned =
      message_taken (kmalloc (heap_of k) km32) refl
        (kmalloc-KmallocEnd (heap_of k) free live pages w km32 (omega arith))
    where
      message_taken :
          (r : Outcome (Heap × ℕ))
          → kmalloc (heap_of k) km32 ≡ r
          → KmallocEnd (heap_of k) free live pages km32 r
          → DeliverEnd k p h ms (
              r >>= λ t.
              message_body (with_heap k t.0) h.size >>= λ b. ok (place b.0 p h t.1 b.1, h.size))
      message_taken (ok (heap, m)) e (KmallocEnd.given free' pages' new w') =
          body-DeliverEnd heap m e (message-pos heap _ _ _ m w' (rw (==_refl m) refl))
            (not_listed m ms live owned (new km32 (omega arith)))
            (message_body (with_heap k heap) h.size)
            (message_body-BodyEnd (with_heap k heap) _ _ _ h.size w')
      message_taken (ok (heap, m)) e (KmallocEnd.starved new none_left same) =
          DeliverEnd.starved none_left
      message_taken halted e (KmallocEnd.no_entry none_free) = DeliverEnd.no_entry none_free
      message_taken Outcome.out_of_fuel e c = elim c [ ]
