-- ===== src/Queue/Ends.antt =====
-- Linking a node at either end of a queue's chain, and unlinking the first one.
use jeffos.Base.{
  ℕ, ◌<◌, ◌≡◌, refl, sym, ◌∙◌, ap, inl, inr, true, false, List, [], ◌∷◌, ◌++◌, arith, ◌==◌,
  length-append, has, has-ne, ==_refl, ==_sym_false, Bool-cases, ==_iff,
}
use mathlib.Core.Path.{ap₂}
use jeffos.Queue.{Queue, QNode, write_node, link_head, link_tail, unlink_head}
use jeffos.Queue.Links.{
  last_from, last_or_null, contents, IsQueue, has-last_from, last_from-append, chain-same,
  contents-same, contents-append, chain-append,
}

-- The result of a link or an unlink: the queue of the nodes, with what they hold.
abbrev pub Holds : Queue × (ℕ → QNode) → List ℕ → List (ℕ × ℕ) → Type 0
Holds r ns held = IsQueue r.0 r.1 ns × (contents r.1 ns ≡ held)

alone :
    (node : ℕ → QNode) {n : ℕ} (v : QNode)
    → node n ≡ v
    → contents node (n ∷ []) ≡ (v.data_ptr, v.dsize) ∷ []
unfolding contents
alone node v e = ap (λ t. (t.data_ptr, t.dsize) ∷ []) e

module _ (q : Queue) (node : ℕ → QNode) (n item dsize : ℕ) (pos : 0 < n) where
  -- The only node.
  single :
      (q' : Queue) (v : QNode)
      → q'.head ≡ n
      → q'.tail ≡ n
      → q'.count ≡ 1
      → v.next ≡ 0
      → v.prev ≡ 0
      → IsQueue q' (write_node node n v) (n ∷ [])
  unfolding last_or_null last_from
  single q' v h t c next prev = record {
    first = h;
    last = t;
    chain = (pos, rw (==_refl n) next, refl, tt);
    first_prev = λ _. rw (h, ==_refl n) prev;
    counted = c;
  }

  module _ (x : ℕ) (xs : List ℕ) (v : IsQueue q node (x ∷ xs)) (new : has n (x ∷ xs) ≡ false) where
    nonempty : (q.head == 0) ≡ false
    nonempty = ground (arith, v.first, v.chain.0)

    other : (a : ℕ) → has a (x ∷ xs) ≡ true → (a == n) ≡ false
    other a h = has-ne a n (x ∷ xs) h new

    -- The nodes after a node is linked in at the tail.
    behind : ℕ → QNode
    behind =
        let node' =
          write_node node n (record { next = 0; prev = q.head; data_ptr = item; dsize = dsize }) in
        write_node node' q.tail (record (node' q.tail) { next = n })

    at_last : q.tail ≡ last_from x xs
    unfolding last_or_null
    at_last = v.last

    new-ne_last : (n == q.tail) ≡ false
    new-ne_last = rw at_last (==_sym_false _ _ (other (last_from x xs) (has-last_from x xs)))

    behind-last : (behind (last_from x xs)).next ≡ n
    unfolding behind
    behind-last = rw (at_last, ==_refl (last_from x xs)) refl

    behind-new : behind n ≡ record { next = 0; prev = q.head; data_ptr = item; dsize = dsize }
    unfolding behind
    behind-new = rw (new-ne_last, ==_refl n) refl

    behind-next :
        (a : ℕ)
        → has a (x ∷ xs) ≡ true
        → (a == last_from x xs) ≡ false
        → (behind a).next ≡ (node a).next
    unfolding behind
    behind-next a h ne = rw (at_last, ne, other a h) refl

    behind-held :
        (a : ℕ)
        → has a (x ∷ xs) ≡ true
        → ((behind a).data_ptr ≡ (node a).data_ptr)
          × ((behind a).dsize ≡ (node a).dsize)
          × ((behind a).prev ≡ (node a).prev)
    unfolding behind
    behind-held a h = elim (Bool-cases (a == q.tail)) [
      | inl e ↦
          let same : a ≡ q.tail = (==_iff a q.tail).0 e in
          let there : (q.tail == n) ≡ false = ==_sym_false _ _ new-ne_last in
          rw (e, there, same) (refl, refl, refl)
      | inr e ↦ rw (e, other a h) (refl, refl, refl)
    ]

    -- The nodes after a node is linked in at the head.
    before : ℕ → QNode
    before =
        let node' =
          write_node node n (record { next = q.head; prev = 0; data_ptr = item; dsize = dsize }) in
        write_node node' q.head (record (node' q.head) { prev = n })

    new-ne_head : (n == q.head) ≡ false
    new-ne_head = rw v.first (==_sym_false _ _ (other x (rw (==_refl x) refl)))

    before-new : before n ≡ record { next = q.head; prev = 0; data_ptr = item; dsize = dsize }
    unfolding before
    before-new = rw (new-ne_head, ==_refl n) refl

    before-held :
        (a : ℕ)
        → has a (x ∷ xs) ≡ true
        → ((before a).data_ptr ≡ (node a).data_ptr)
          × ((before a).dsize ≡ (node a).dsize)
          × ((before a).next ≡ (node a).next)
    unfolding before
    before-held a h = elim (Bool-cases (a == q.head)) [
      | inl e ↦
          let same : a ≡ q.head = (==_iff a q.head).0 e in
          let there : (q.head == n) ≡ false = ==_sym_false _ _ new-ne_head in
          rw (e, there, same) (refl, refl, refl)
      | inr e ↦ rw (e, other a h) (refl, refl, refl)
    ]

    behind-contents :
        contents behind (x ∷ xs ++ n ∷ []) ≡ contents node (x ∷ xs) ++ (item, dsize) ∷ []
    behind-contents =
        contents-append behind (x ∷ xs) (n ∷ [])
        ∙ ap₂ ◌++◌
            (contents-same node behind (x ∷ xs) (λ a h. let (d, k, _) = behind-held a h in (d, k)))
            (alone behind _ behind-new)

    before-contents : contents before (n ∷ x ∷ xs) ≡ (item, dsize) ∷ contents node (x ∷ xs)
    before-contents =
        contents-append before (n ∷ []) (x ∷ xs)
        ∙ ap₂ ◌++◌ (alone before _ before-new)
            (contents-same node before (x ∷ xs) (λ a h. let (d, k, _) = before-held a h in (d, k)))

    link_tail-cons :
        Holds
          (link_tail q node n item dsize)
          (x ∷ xs ++ n ∷ [])
          (contents node (x ∷ xs) ++ (item, dsize) ∷ [])
    unfolding link_tail behind last_or_null
    link_tail-cons = rw nonempty (
      record {
        first = v.first;
        last = sym (last_from-append x n xs);
        chain =
            chain-append (λ a. (node a).next) (λ a. (behind a).next) x n xs pos new behind-last
              (ap (λ t. t.next) behind-new) behind-next v.chain;
        first_prev = λ h.
            ap (λ t. (behind t).prev) v.first
            ∙ (behind-held x (rw (==_refl x) refl)).2
            ∙ ap (λ t. (node t).prev) (sym v.first)
            ∙ v.first_prev h;
        counted = omega (arith, v.counted, length-append xs (n ∷ []));
      },
      behind-contents,
    )

    link_head-cons :
        Holds (link_head q node n item dsize) (n ∷ x ∷ xs) ((item, dsize) ∷ contents node (x ∷ xs))
    unfolding link_head before last_or_null last_from
    link_head-cons = rw nonempty (
      record {
        first = refl;
        last = v.last;
        chain = (
          pos,
          ap (λ t. t.next) before-new ∙ v.first,
          new,
          chain-same (λ a. (node a).next) (λ a. (before a).next) (x ∷ xs)
              (λ a h. (before-held a h).2) v.chain,
        );
        first_prev = λ h. ap (λ t. t.prev) before-new;
        counted = omega (arith, v.counted);
      },
      before-contents,
    )

  pub link_tail-Holds :
      (ns : List ℕ)
      → IsQueue q node ns
      → has n ns ≡ false
      → Holds
          (link_tail q node n item dsize)
          (ns ++ n ∷ [])
          (contents node ns ++ (item, dsize) ∷ [])
  unfolding link_tail contents
  link_tail-Holds [] v new =
      rw v.first (single _ _ refl refl (omega (arith, v.counted)) refl refl, rw (==_refl n) refl)
  link_tail-Holds (x ∷ xs) v new = link_tail-cons x xs v new

  pub link_head-Holds :
      (ns : List ℕ)
      → IsQueue q node ns
      → has n ns ≡ false
      → Holds (link_head q node n item dsize) (n ∷ ns) ((item, dsize) ∷ contents node ns)
  unfolding link_head contents
  link_head-Holds [] v new =
      rw v.first (single _ _ refl refl (omega (arith, v.counted)) refl refl, rw (==_refl n) refl)
  link_head-Holds (x ∷ xs) v new = link_head-cons x xs v new

module _ (q : Queue) (node : ℕ → QNode) where
  write_prev-held :
      (p w a : ℕ)
      → let v = write_node node p (record (node p) { prev = w }) a in
        (v.data_ptr ≡ (node a).data_ptr) × (v.dsize ≡ (node a).dsize) × (v.next ≡ (node a).next)
  write_prev-held p w a = elim (Bool-cases (a == p)) [
    | inl e ↦ let same : a ≡ p = (==_iff a p).0 e in rw (e, same) (refl, refl, refl)
    | inr e ↦ rw e (refl, refl, refl)
  ]

  pub unlink_head-Holds :
      (x : ℕ) (xs : List ℕ)
      → IsQueue q node (x ∷ xs)
      → Holds (unlink_head q node) xs (contents node xs)
  unfolding unlink_head last_or_null last_from
  unlink_head-Holds x [] v =
      let one : (q.tail == q.head) ≡ true = ground (arith, v.first, v.last) in
      rw one (
        record {
          first = refl;
          last = refl;
          chain = tt;
          first_prev = λ h. absurd (omega arith);
          counted = omega (arith, v.counted);
        },
        refl,
      )
  unlink_head-Holds x (y ∷ ys) v =
      let many : (q.tail == q.head) ≡ false =
        rw (v.first, v.last) (has-ne (last_from y ys) x (y ∷ ys) (has-last_from y ys) v.chain.2) in
      let next : (node q.head).next ≡ y = rw v.first v.chain.1 in
      rw (many, next)
        (
          record {
            first = refl;
            last = v.last;
            chain =
                chain-same (λ a. (node a).next) _ (y ∷ ys) (λ a h. (write_prev-held y 0 a).2)
                  v.chain.3;
            first_prev = λ h. rw (==_refl y) refl;
            counted = omega (arith, v.counted);
          },
          contents-same node _ (y ∷ ys) (λ a h. let (d, k, _) = write_prev-held y 0 a in (d, k)),
        )
