-- ===== src/Queue/Ops.antt =====
-- The queue operations with the heap that their nodes come from and go back to.
use jeffos.Base.{
  has-ne, ℕ, ◌<◌, ◌≡◌, refl, true, false, none, some, List, [], ◌∷◌, ◌++◌, arith, ◌==◌, has,
  Bool-cases, ==_refl, ◌∙◌, inl, inr,
}
use jeffos.Status.{Outcome, ok, halted, ◌>>=◌}
use jeffos.Pages.Tables.Map.{NoneFree}
use jeffos.Pages.Alloc.Allocated.{NoPages}
use jeffos.KMem.{Heap, kmalloc}
use jeffos.KMem.Class.{Distinct}
use jeffos.KMem.Give.{without, has-without, block-pos}
use jeffos.KMem.Global.{IsHeap, KmallocEnd, put, kmalloc-KmallocEnd, kfree-IsHeap}
use jeffos.Queue.{
  QNode, Queue, State, km16, link_head, link_tail, queue_add_head, queue_add_tail, unlink_head,
  queue_remove_head,
}
use jeffos.Queue.Links.{has-append, contents, IsQueue}
use jeffos.Queue.Ends.{Holds, link_tail-Holds, link_head-Holds, unlink_head-Holds}

-- The nodes of the queue are live blocks of 16 bytes.
abbrev pub Owned : List ℕ → (ℕ → List ℕ) → Type 0
Owned ns live = (a : ℕ) → has a ns ≡ true → has a (live km16) ≡ true

-- A queue in order on a heap in order.
pub record IsState (s : State) (ns : List ℕ) (free live pages : ℕ → List ℕ) : Type 0 where
  pub queued : IsQueue s.queue s.node ns
  pub heaped : IsHeap s.heap free live pages
  pub owned : Owned ns live

-- Where putting something on a queue ends: with the node that was taken for it in its place and all
-- in order; or at the end of the pages; or with a halt, with no room in the kernel's page table.
pub data AddEnd (s : State) (place : ℕ → List ℕ) (held : List (ℕ × ℕ)) (live : ℕ → List ℕ)
    : Outcome State → Type 0 where
  added :
      {s' : State} (n : ℕ) (free' live' pages' : ℕ → List ℕ)
      → has n (live km16) ≡ false
      → IsState s' (place n) free' live' pages'
      → contents s'.node (place n) ≡ held
      → AddEnd s place held live (ok s')
  starved : {s' : State} → NoPages s.heap.memory.pmat 1 → AddEnd s place held live (ok s')
  no_entry : NoneFree s.heap.memory.space.high 1 → AddEnd s place held live halted

-- Where taking the first off a queue ends.
abbrev pub Removed : State → (ℕ → List ℕ) → (ℕ → List ℕ) → (ℕ → List ℕ) → List ℕ → Type 0
Removed s free live pages [] = queue_remove_head s ≡ ok (s, none)
Removed s free live pages (n ∷ ns) =
    (s' : State) × (queue_remove_head s ≡ ok (s', some ((s.node n).data_ptr, (s.node n).dsize)))
    × IsState s' ns (put free km16 (n ∷ free km16)) (put live km16 (without n (live km16))) pages
    × (contents s'.node ns ≡ contents s.node ns)

has-behind : (a n : ℕ) (ns : List ℕ) → has a ns ≡ true → has a (n ∷ ns) ≡ true
has-behind a n ns h = ground arith

has-snoc : (a n : ℕ) (ns : List ℕ) → has a (ns ++ n ∷ []) ≡ true → has a (n ∷ ns) ≡ true
has-snoc a n ns h = ground (arith, has-append a ns (n ∷ []))

owned-without :
    (n : ℕ) (ns blocks : List ℕ)
    → Distinct blocks
    → has n ns ≡ false
    → ((a : ℕ) → has a ns ≡ true → has a blocks ≡ true)
    → (a : ℕ) → has a ns ≡ true
    → has a (without n blocks) ≡ true
owned-without n ns blocks distinct out owned a h =
    has-without n a blocks distinct ∙ rw (owned a h, has-ne a n ns h out) refl

-- A live node is not NULL.
pub live-pos :
    (h : Heap) (free' live' pages' : ℕ → List ℕ) (n : ℕ)
    → IsHeap h free' live' pages'
    → has n (live' km16) ≡ true
    → 0 < n
live-pos h free' live' pages' n w alive =
    let e = w.entries km16 (omega arith) in
    block-pos e.km h.word h.memory.space (free' km16) (live' km16) (pages' km16) e.class n
      (e.class.live_blocks n alive)

module _ (s : State) (ns : List ℕ) (free live pages : ℕ → List ℕ)
    (v : IsState s ns free live pages) where
  unlisted : (n : ℕ) → has n (live km16) ≡ false → has n ns ≡ false
  unlisted n h = elim (Bool-cases (has n ns)) [ inr e ↦ e | inl e ↦ absurd (cc (v.owned n e)) ]

  link : (ℕ → Queue × (ℕ → QNode)) → Heap × ℕ → Outcome State
  link f t = ok (record { queue = (f t.1).0; node = (f t.1).1; heap = t.0 })

  add-AddEnd :
      (f : ℕ → Queue × (ℕ → QNode)) (place : ℕ → List ℕ) (held : List (ℕ × ℕ))
      → ((n : ℕ) → 0 < n → has n ns ≡ false → Holds (f n) (place n) held)
      → ((n a : ℕ) → has a (place n) ≡ true → has a (n ∷ ns) ≡ true)
      → (r : Outcome (Heap × ℕ)) → KmallocEnd s.heap free live pages km16 r
      → AddEnd s place held live (r >>= link f)
  unfolding link
  add-AddEnd f place held holds within (ok (h', n)) (KmallocEnd.given free' pages' new w) =
      let listed =
        holds n (live-pos h' _ _ _ n w (rw (==_refl n) refl))
          (unlisted n (new km16 (omega arith))) in
      AddEnd.added n _ _ _ (new km16 (omega arith))
        (record {
          queued = listed.0;
          heaped = w;
          owned = λ a h. ground (arith, within n a h, v.owned a);
        })
        listed.1
  add-AddEnd f place held holds within (ok (h', n)) (KmallocEnd.starved new none_left same) =
      AddEnd.starved none_left
  add-AddEnd f place held holds within halted (KmallocEnd.no_entry none_free) =
      AddEnd.no_entry none_free
  add-AddEnd f place held holds within Outcome.out_of_fuel e = elim e [ ]

  pub queue_add_tail-AddEnd :
      (item dsize : ℕ)
      → AddEnd s
          (λ n. ns ++ n ∷ [])
          (contents s.node ns ++ (item, dsize) ∷ [])
          live
          (queue_add_tail s item dsize)
  unfolding queue_add_tail link
  queue_add_tail-AddEnd item dsize =
      add-AddEnd (λ n. link_tail s.queue s.node n item dsize) _ _
        (λ n pos new. link_tail-Holds s.queue s.node n item dsize pos ns v.queued new)
        (λ n a h. has-snoc a n ns h) (kmalloc s.heap km16)
        (kmalloc-KmallocEnd s.heap free live pages v.heaped km16 (omega arith))

  pub queue_add_head-AddEnd :
      (item dsize : ℕ)
      → AddEnd s
          (λ n. n ∷ ns)
          ((item, dsize) ∷ contents s.node ns)
          live
          (queue_add_head s item dsize)
  unfolding queue_add_head link
  queue_add_head-AddEnd item dsize =
      add-AddEnd (λ n. link_head s.queue s.node n item dsize) _ _
        (λ n pos new. link_head-Holds s.queue s.node n item dsize pos ns v.queued new) (λ n a h. h)
        (kmalloc s.heap km16)
        (kmalloc-KmallocEnd s.heap free live pages v.heaped km16 (omega arith))

pub queue_remove_head-Removed :
    (s : State) (ns : List ℕ) (free live pages : ℕ → List ℕ)
    → IsState s ns free live pages
    → Removed s free live pages ns
unfolding queue_remove_head
queue_remove_head-Removed s [] free live pages v = rw v.queued.first refl
queue_remove_head-Removed s (n ∷ ns) free live pages v =
    let (h', freed, w) =
      kfree-IsHeap s.heap free live pages v.heaped km16 (omega arith) n
        (v.owned n (rw (==_refl n) refl)) in
    let listed = unlink_head-Holds s.queue s.node n ns v.queued in
    let busy : (n == 0) ≡ false = ground (arith, v.queued.chain.0) in
    (
      record {
        queue = (unlink_head s.queue s.node).0;
        node = (unlink_head s.queue s.node).1;
        heap = h';
      },
      rw (v.queued.first, busy, freed) refl,
      record {
        queued = listed.0;
        heaped = w;
        owned =
            owned-without n ns (live km16) (v.heaped.entries km16 (omega arith)).class.live_distinct
              v.queued.chain.2 (λ a h. v.owned a (has-behind a n ns h));
      },
      listed.1,
    )
