-- ===== src/Port/Take.antt =====
-- What a task receives: `port_recv` of kernel/port.c from the first message on.
use jeffos.Base.{
  ℕ, ◌+◌, ◌^◌, ◌<◌, ◌≡◌, refl, ◌∙◌, ap, true, false, inl, inr, List, ◌∷◌, arith, ◌==◌, ltb,
  if◌then◌else◌, length, get_or, has, Bool-cases, ==_refl, ==_sym_false,
}
use Prim.Native.Nat.{min}
use mathlib.Core.Path.{subst}
use jeffos.Status.{ok}
use jeffos.KMem.{kfree_b, size_map}
use jeffos.KMem.Sizes.{size_map-least}
use jeffos.KMem.Give.{without, has-without}
use jeffos.KMem.Global.{IsHeap, put, kfree-IsHeap}
use jeffos.Kernel.{Kernel, heap_of, with_heap, update}
use jeffos.Port.{
  MsgHdr, km32, current_space, copied_bytes, copy_out, unchain, free_body, received, take_message,
}
use jeffos.Port.Chain.{Holds, unlink-Holds}
use jeffos.Port.Copy.{copy_run_copies}

-- The blocks of a message that is on a queue: its own, and the one that carries its body unless a
-- page does.
pub record IsCarried (k : Kernel) (m : ℕ) (live : ℕ → List ℕ) : Type 0 where
  pub block : has m (live km32) ≡ true
  pub body :
      (k.message m).size < 1025
      → has (k.message m).body (live (get_or size_map (k.message m).size 0)) ≡ true
  pub apart : ((k.message m).body == m) ≡ false
  pub there : ((k.message m).body == 0) ≡ false

-- What `free_body` leaves.
record Freed (k k' : Kernel) (m : ℕ) : Type 0 where
  free : ℕ → List ℕ
  live : ℕ → List ℕ
  pages : ℕ → List ℕ
  heaped : IsHeap (heap_of k') free live pages
  block : has m (live km32) ≡ true
  port : k'.port ≡ k.port
  message : k'.message ≡ k.message
  user : k'.user ≡ k.user

put-has :
    (live : ℕ → List ℕ) (c a b : ℕ) (live_c : List ℕ)
    → has a (live km32) ≡ true
    → (c ≡ km32 → has a live_c ≡ true)
    → has a (put live c live_c km32) ≡ true
put-has live c a b live_c h g = elim (Bool-cases (km32 == c)) [
  | inl e ↦ rw e (g (ground arith))
  | inr e ↦ rw e h
]

free_body-Freed :
    (k : Kernel) (size body m : ℕ) (free live pages : ℕ → List ℕ)
    → IsHeap (heap_of k) free live pages
    → has m (live km32) ≡ true
    → (size < 1025 → has body (live (get_or size_map size 0)) ≡ true)
    → (body == m) ≡ false
    → (k' : Kernel) × (free_body k size body ≡ ok k') × Freed k k' m
unfolding free_body kfree_b
free_body-Freed k size body m free live pages w block carried apart =
    elim (Bool-cases (ltb size 1025)) [
      | inl e ↦
          let c = get_or size_map size 0 in
          let alive = carried (ground arith) in
          let low = (size_map-least size (ground arith)).0 in
          let (h', freed, w') = kfree-IsHeap (heap_of k) free live pages w c low body alive in
          (
            with_heap k h',
            rw (e, freed) refl,
            record {
              free = put free c (body ∷ free c);
              live = put live c (without body (live c));
              pages = pages;
              heaped = w';
              block = put-has live c m body (without body (live c)) block (λ same.
                  has-without body m (live c) (w.entries c low).class.live_distinct
                  ∙ ground
                      (arith, ap (λ i. has m (live i)) same ∙ block, ==_sym_false body m apart));
              port = refl;
              message = refl;
              user = refl;
            },
          )
      | inr e ↦ (
        record k { chain = update k.chain body k.msg_pool; msg_pool = body },
        rw e refl,
        record {
          free = free;
          live = live;
          pages = pages;
          heaped = w;
          block = block;
          port = refl;
          message = refl;
          user = refl;
        },
      )
    ]

-- What the task has once a message is taken: the port holds the others, the bytes are at the task's
-- buffer up to its room, the header says where the message came from, and the heap is in order.
pub record Taken (k : Kernel) (p : ℕ) (h : MsgHdr) (m : ℕ) (ms : List ℕ) (k' : Kernel)
    : Type 0 where
  pub others : Holds (k'.port p) k'.message ms
  pub message : k'.message ≡ k.message
  pub bytes :
      (j : ℕ)
      → j < copied_bytes (k.message m).size h.size
      → k'.user (current_space k) (h.body + j) ≡ k.byte ((k.message m).body + j)
  pub free : ℕ → List ℕ
  pub live : ℕ → List ℕ
  pub pages : ℕ → List ℕ
  pub heaped : IsHeap (heap_of k') free live pages

-- The header that `port_recv` hands back.
abbrev pub header_from : Kernel → ℕ → MsgHdr → MsgHdr
header_from k m h = record h {
  src = (k.message m).from_port;
  dst = (k.message m).to_port;
  pid = (k.message m).pid;
}

abbrev pub TakesMessage : Kernel → ℕ → MsgHdr → List ℕ → ℕ → Type 0
TakesMessage k p h ms m =
    (k' : Kernel) × (take_message k p h
      ≡ ok (received k' (header_from k m h) (min h.size (k.message m).size)))
    × Taken k p h m ms k'

copy_out_copies :
    (k : Kernel) (n body buffer j : ℕ)
    → (body == 0) ≡ false
    → j < n
    → copy_out k n body buffer (buffer + j) ≡ k.byte (body + j)
unfolding copy_out
copy_out_copies k n body buffer j e low =
    rw e (copy_run_copies k.byte body buffer n (k.user (current_space k)) j low)

smaller : (a b : ℕ) → (if ltb a b then a else b) ≡ min a b
smaller a b = ground arith

module _ (k : Kernel) (p : ℕ) (h : MsgHdr) (ms : List ℕ) (free live pages : ℕ → List ℕ)
    (few : length ms + 1 < 2 ^ 32) (w : IsHeap (heap_of k) free live pages) where
  takes_first :
      Holds (k.port p) k.message ((k.port p).first ∷ ms)
      → IsCarried k (k.port p).first live
      → TakesMessage k p h ms (k.port p).first
  unfolding take_message
  takes_first v c =
      let m = (k.port p).first in
      let a = current_space k in
      let user = copy_out k (copied_bytes (k.message m).size h.size) (k.message m).body h.body in
      let k₁ : Kernel = unchain (record k { user = update k.user a user }) p in
      let (k₂, freed, f) =
        free_body-Freed k₁ (k.message m).size (k.message m).body m free live pages w c.block c.body
          c.apart in
      let (h₃, gone, w₃) =
        kfree-IsHeap (heap_of k₂) f.free f.live f.pages f.heaped km32 (omega arith) m f.block in
      (
        with_heap k₂ h₃,
        rw (freed, gone)
            (ap (λ n. ok (received (with_heap k₂ h₃) (header_from k m h) n))
              (smaller h.size (k.message m).size)),
        record {
          others = rw (f.port, f.message, ==_refl p) (unlink-Holds (k.port p) k.message m ms v few);
          message = f.message;
          bytes = λ j low.
              rw (f.user, ==_refl a)
                (copy_out_copies k (copied_bytes (k.message m).size h.size) (k.message m).body
                  h.body j c.there low);
          free = put f.free km32 (m ∷ f.free km32);
          live = put f.live km32 (without m (f.live km32));
          pages = f.pages;
          heaped = w₃;
        },
      )

-- The first message of a port, of any size, with its blocks live on a heap in order: it is taken without fail, the
-- answer is the smaller of its size and of the room, both as unsigned words, the header names its
-- sender, the bytes that the two sizes allow, as signed words, are in the task's buffer, the port
-- holds the other messages, and the heap is in order with the message's blocks given back.
pub take_message-Taken :
    (k : Kernel) (p : ℕ) (h : MsgHdr) (m : ℕ) (ms : List ℕ) (free live pages : ℕ → List ℕ)
    → Holds (k.port p) k.message (m ∷ ms)
    → length ms + 1 < 2 ^ 32
    → IsHeap (heap_of k) free live pages
    → IsCarried k m live
    → TakesMessage k p h ms m
take_message-Taken k p h m ms free live pages v few w c =
    subst (λ b. Holds (k.port p) k.message (b ∷ ms) → IsCarried k b live → TakesMessage k p h ms b)
      v.first (takes_first k p h ms free live pages few w) v c
