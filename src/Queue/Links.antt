-- ===== src/Queue/Links.antt =====
-- The chain of nodes of a queue, without the heap: the four ways to link and unlink a node.
use jeffos.Base.{
  ℕ, ◌<◌, ◌≡◌, refl, ◌∙◌, ap, true, false, ◌||◌, List, [], ◌∷◌, ◌++◌, arith, ◌==◌, length, has,
  has-cons_false, has-ne, ==_refl, ==_sym_false,
}
use mathlib.Core.Path.{ap₂}
use jeffos.KMem.Class.{FreeChain, head_or_null}
use jeffos.Queue.{Queue, QNode}

-- The last of `x ∷ xs`.
unfoldable pub last_from : ℕ → List ℕ → ℕ
last_from x [] = x
last_from x (y ∷ ys) = last_from y ys

unfoldable pub last_or_null : List ℕ → ℕ
unfolding last_from
last_or_null [] = 0
last_or_null (x ∷ xs) = last_from x xs

-- What the queue holds, in order.
unfoldable pub contents : (ℕ → QNode) → List ℕ → List (ℕ × ℕ)
contents node [] = []
contents node (n ∷ ns) = ((node n).data_ptr, (node n).dsize) ∷ contents node ns

-- The nodes of the queue from the head on: distinct, none NULL, each one's `next` the node behind it,
-- and no node before the first. The `prev` of the others is not what it says.
pub record IsQueue (q : Queue) (node : ℕ → QNode) (ns : List ℕ) : Type 0 where
  pub first : q.head ≡ head_or_null ns
  pub last : q.tail ≡ last_or_null ns
  pub chain : FreeChain (λ n. (node n).next) ns
  pub first_prev : 0 < q.head → (node q.head).prev ≡ 0
  pub counted : q.count ≡ length ns

pub has-append : (a : ℕ) (xs ys : List ℕ) → has a (xs ++ ys) ≡ (has a xs || has a ys)
has-append a [] ys = refl
has-append a (x ∷ xs) ys = ground (arith, has-append a xs ys)

pub has-last_from : (x : ℕ) (xs : List ℕ) → has (last_from x xs) (x ∷ xs) ≡ true
unfolding last_from
has-last_from x [] = rw (==_refl x)
has-last_from x (y ∷ ys) = ground (arith, has-last_from y ys)

pub last_from-append : (x n : ℕ) (xs : List ℕ) → last_from x (xs ++ n ∷ []) ≡ n
unfolding last_from
last_from-append x n [] = refl
last_from-append x n (y ∷ ys) = last_from-append y n ys

-- The two views of the nodes depend on the nodes of the list only.
pub chain-same :
    (word word' : ℕ → ℕ) (xs : List ℕ)
    → ((a : ℕ) → has a xs ≡ true → word' a ≡ word a)
    → FreeChain word xs
    → FreeChain word' xs
chain-same word word' [] same c = tt
chain-same word word' (x ∷ xs) same c = (
  c.0,
  same x (rw (==_refl x)) ∙ c.1,
  c.2,
  chain-same word word' xs (λ a h. same a (ground arith)) c.3,
)

pub contents-same :
    (node node' : ℕ → QNode) (xs : List ℕ)
    → ((a : ℕ)
        → has a xs ≡ true
        → ((node' a).data_ptr ≡ (node a).data_ptr) × ((node' a).dsize ≡ (node a).dsize))
    → contents node' xs ≡ contents node xs
unfolding contents
contents-same node node' [] same = refl
contents-same node node' (x ∷ xs) same =
    let (d, k) = same x (rw (==_refl x)) in
    let rest = contents-same node node' xs (λ a h. same a (ground arith)) in
    ap₂ ◌∷◌ (ap₂ (λ s t. (s, t)) d k) rest

pub contents-append :
    (node : ℕ → QNode) (xs ys : List ℕ)
    → contents node (xs ++ ys) ≡ contents node xs ++ contents node ys
unfolding contents
contents-append node [] ys = refl
contents-append node (x ∷ xs) ys =
    ap (λ t. ((node x).data_ptr, (node x).dsize) ∷ t) (contents-append node xs ys)

-- A number that is on neither list.
has-snoc_false :
    (a n : ℕ) (xs : List ℕ) → has a xs ≡ false → (a == n) ≡ false → has a (xs ++ n ∷ []) ≡ false
has-snoc_false a n [] h ne = rw ne
has-snoc_false a n (x ∷ xs) h ne = ground (arith, has-snoc_false a n xs)

-- A node behind the last one.
pub chain-append :
    (word word' : ℕ → ℕ) (x n : ℕ) (xs : List ℕ)
    → 0 < n
    → has n (x ∷ xs) ≡ false
    → word' (last_from x xs) ≡ n
    → word' n ≡ 0
    → ((a : ℕ) → has a (x ∷ xs) ≡ true → (a == last_from x xs) ≡ false → word' a ≡ word a)
    → FreeChain word (x ∷ xs)
    → FreeChain word' (x ∷ xs ++ n ∷ [])
unfolding last_from
chain-append word word' x n [] pos new to_new ends same c =
    (c.0, to_new, ground arith, (pos, ends, refl, tt))
chain-append word word' x n (y ∷ ys) pos new to_new ends same c = (
  c.0,
  same x (rw (==_refl x)) inner ∙ c.1,
  has-snoc_false x n (y ∷ ys) c.2 (has-cons_false n x (y ∷ ys) new).0,
  chain-append word word' y n ys pos (has-cons_false n x (y ∷ ys) new).1 to_new ends
      (λ a h. same a (ground arith)) c.3,
)
  where
    inner : (x == last_from y ys) ≡ false
    inner = ==_sym_false _ _ (has-ne (last_from y ys) x (y ∷ ys) (has-last_from y ys) c.2)
