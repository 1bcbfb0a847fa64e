-- ===== src/Port/Chain.antt =====
-- The queue of messages of a port, kernel/port.c: where a message goes and which one comes off.
use jeffos.Base.{
  ℕ, ◌+◌, ◌^◌, ◌<◌, ◌≡◌, refl, sym, ◌∙◌, ap, true, false, inl, inr, List, [], ◌∷◌, ◌++◌, arith,
  ◌==◌, length, length-append, has, has-ne, Bool-cases, ==_refl, ==_iff, ==_sym_false,
}
use mathlib.Core.Path.{ap₂, subst}
use jeffos.KMem.Class.{FreeChain, head_or_null}
use jeffos.Queue.Links.{last_from, last_or_null, has-last_from, last_from-append, chain-append}
use jeffos.Kernel.{MsgPort, Message, update}
use jeffos.Port.{link_messages, link_port, unlink_port}

abbrev pub next_of : (ℕ → Message) → ℕ → ℕ
next_of message a = (message a).next

-- What the messages say, in their order.
unfoldable pub mails : (ℕ → Message) → List ℕ → List Message
mails message [] = []
mails message (m ∷ ms) = record (message m) { next = 0 } ∷ mails message ms

-- The messages of the port from the first on: distinct, none NULL, each one's `next` the one behind it.
pub record Holds (v : MsgPort) (message : ℕ → Message) (ms : List ℕ) : Type 0 where
  pub first : v.first ≡ head_or_null ms
  pub last : v.last ≡ last_or_null ms
  pub chain : FreeChain (next_of message) ms
  pub counted : v.msgcount ≡ length ms

pub mails-same :
    (message message' : ℕ → Message) (ms : List ℕ)
    → ((a : ℕ)
        → has a ms ≡ true
        → record (message' a) { next = 0 } ≡ record (message a) { next = 0 })
    → mails message' ms ≡ mails message ms
unfolding mails
mails-same message message' [] same = refl
mails-same message message' (m ∷ ms) same =
    ap₂ ◌∷◌ (same m (rw (==_refl m)))
      (mails-same message message' ms (λ a h. same a (ground arith)))

pub mails-append :
    (message : ℕ → Message) (xs ys : List ℕ)
    → mails message (xs ++ ys) ≡ mails message xs ++ mails message ys
unfolding mails
mails-append message [] ys = refl
mails-append message (x ∷ xs) ys =
    ap (λ t. record (message x) { next = 0 } ∷ t) (mails-append message xs ys)

chain-pos : (word : ℕ → ℕ) (xs : List ℕ) (a : ℕ) → FreeChain word xs → has a xs ≡ true → 0 < a
chain-pos word [] a c h = absurd (ground (arith, h))
chain-pos word (x ∷ xs) a c h = elim (Bool-cases (a == x)) [
  | inl e ↦ ground (arith, c.0)
  | inr e ↦ chain-pos word xs a c.3 (ground arith)
]

module _ (q : MsgPort) (message : ℕ → Message) (m : ℕ) (v : Message) where
  linked : ℕ → ℕ → Message
  linked last =
      let message' = update message m v in
      update message' last (record (message' last) { next = m })

  linked-same :
      (last a : ℕ)
      → (a == m) ≡ false
      → record (linked last a) { next = 0 } ≡ record (message a) { next = 0 }
  unfolding linked
  linked-same last a other = elim (Bool-cases (a == last)) [
    | inl e ↦ let at : a ≡ last = (==_iff a last).0 e in rw (e, sym at, other) refl
    | inr e ↦ rw (e, other) refl
  ]

  linked-new : (last : ℕ) → (m == last) ≡ false → linked last m ≡ v
  unfolding linked
  linked-new last other = rw (other, ==_refl m) refl

  linked-inner : (last a : ℕ) → (a == m) ≡ false → (a == last) ≡ false → linked last a ≡ message a
  unfolding linked
  linked-inner last a other inner = rw (inner, other) refl

  linked-last : (last : ℕ) → (linked last last).next ≡ m
  unfolding linked
  linked-last last = rw (==_refl last) refl

  mails-one :
      (message' : ℕ → Message)
      → message' m ≡ v
      → mails message' (m ∷ []) ≡ record v { next = 0 } ∷ []
  unfolding mails
  mails-one message' e = ap {A = Message} (λ y. record y { next = 0 } ∷ []) e

  link-cons :
      (x : ℕ) (xs : List ℕ)
      → Holds q message (x ∷ xs)
      → 0 < m
      → has m (x ∷ xs) ≡ false
      → v.next ≡ 0
      → length xs + 2 < 2 ^ 32
      → (last : ℕ) → q.last ≡ last
      → last ≡ last_from x xs
      → (last == 0) ≡ false
      → Holds (link_port q m) (linked last) (x ∷ xs ++ m ∷ [])
        × (mails (linked last) (x ∷ xs ++ m ∷ [])
            ≡ mails message (x ∷ xs) ++ record v { next = 0 } ∷ [])
  unfolding link_port last_or_null
  link-cons x xs w pos new ends few last is_last from some_last =
      let inside : has last (x ∷ xs) ≡ true = ap (λ l. has l (x ∷ xs)) from ∙ has-last_from x xs in
      let apart : (m == last) ≡ false = ==_sym_false last m (has-ne last m (x ∷ xs) inside new) in
      let other : (a : ℕ) → has a (x ∷ xs) ≡ true → (a == m) ≡ false =
        λ a h. has-ne a m (x ∷ xs) h new in
      (
        record {
          first = rw (is_last, some_last) w.first;
          last = sym (last_from-append x m xs);
          chain =
              chain-append (next_of message) (next_of (linked last)) x m xs pos new
                (ap (λ l. (linked last l).next) (sym from) ∙ linked-last last)
                (ap {A = Message} (λ y. y.next) (linked-new last apart) ∙ ends)
                (λ a h inner.
                  ap {A = Message} (λ y. y.next)
                    (linked-inner last a (other a h) (ap (λ l. a == l) from ∙ inner)))
                w.chain;
          counted = omega (arith, w.counted, length-append (x ∷ xs) (m ∷ []));
        },
        mails-append (linked last) (x ∷ xs) (m ∷ [])
            ∙ ap₂ ◌++◌
                (mails-same message (linked last) (x ∷ xs) (λ a h. linked-same last a (other a h)))
                (mails-one (linked last) (linked-new last apart)),
      )

  link_messages-linked :
      (last : ℕ) → (last == 0) ≡ false → link_messages message last m v ≡ linked last
  unfolding link_messages linked
  link_messages-linked last some_last = rw some_last refl

  -- A message that is not on the queue goes behind the last one.
  pub link-Holds :
      (ms : List ℕ)
      → Holds q message ms
      → 0 < m
      → has m ms ≡ false
      → v.next ≡ 0
      → length ms + 1 < 2 ^ 32
      → Holds (link_port q m) (link_messages message q.last m v) (ms ++ m ∷ [])
        × (mails (link_messages message q.last m v) (ms ++ m ∷ [])
            ≡ mails message ms ++ record v { next = 0 } ∷ [])
  unfolding link_messages link_port last_or_null last_from mails
  link-Holds [] w pos new ends few =
      let none : (q.last == 0) ≡ true = ground (arith, w.last) in
      let fresh : update message m v m ≡ v = rw (==_refl m) refl in
      let alone = ap {A = Message} (λ x. record x { next = 0 } ∷ []) fresh in
      rw none (
        record {
          first = refl;
          last = refl;
          chain = (pos, ap {A = Message} (λ x. x.next) fresh ∙ ends, refl, tt);
          counted = omega (arith, w.counted);
        },
        alone,
      )
  link-Holds (x ∷ xs) w pos new ends few =
      let some_last : (q.last == 0) ≡ false = ground (
        arith,
        chain-pos (next_of message) (x ∷ xs) q.last w.chain
            (ap (λ l. has l (x ∷ xs)) w.last ∙ has-last_from x xs),
      ) in
      subst
        (λ f.
          Holds (link_port q m) f (x ∷ xs ++ m ∷ [])
          × (mails f (x ∷ xs ++ m ∷ []) ≡ mails message (x ∷ xs) ++ record v { next = 0 } ∷ []))
        (sym (link_messages-linked q.last some_last))
        (link-cons x xs w pos new ends (omega arith) q.last refl w.last some_last)

-- The first message off the queue.
pub unlink-Holds :
    (q : MsgPort) (message : ℕ → Message) (m : ℕ) (ms : List ℕ)
    → Holds q message (m ∷ ms)
    → length ms + 1 < 2 ^ 32
    → Holds (unlink_port q (message m).next) message ms
unfolding unlink_port last_or_null last_from
unlink-Holds q message m [] w few =
    let ends : (message m).next ≡ 0 = w.chain.1 in
    record { first = ends; last = rw ends refl; chain = tt; counted = omega (arith, w.counted) }
unlink-Holds q message m (x ∷ xs) w few =
    let next : (message m).next ≡ x = w.chain.1 in
    let more : (x == 0) ≡ false = ground (arith, w.chain.3.0) in
    record {
      first = next;
      last = rw (next, more) w.last;
      chain = w.chain.3;
      counted = omega (arith, w.counted);
    }
