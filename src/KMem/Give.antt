-- ===== src/KMem/Give.antt =====
-- `kfree` of kernel/memory.c on one class.
use jeffos.Base.{
  ℕ, ◌+◌, ◌<◌, ◌≡◌, refl, inl, inr, true, false, not, ◌&&◌, List, [], ◌∷◌, arith, ◌==◌,
  if◌then◌else◌, length, has, has-cons, has-cons_false, Bool-cases,
}
use jeffos.Pages.Tables.{Aspace}
use jeffos.KMem.{KmMap, write_word, give_back}
use jeffos.KMem.Class.{FreeChain, Distinct, page_of, IsBlock, IsClass}
use jeffos.KMem.Take.{IsBlock-mono}

-- The list without the first `b`.
unfoldable pub without : ℕ → List ℕ → List ℕ
without b [] = []
without b (x ∷ xs) = if b == x then xs else x ∷ without b xs

pub has-without :
    (b x : ℕ) (xs : List ℕ) → Distinct xs → has x (without b xs) ≡ (has x xs && not (x == b))
unfolding without
has-without b x [] d = refl
has-without b x (y ∷ ys) d = ground (arith, has-without b x ys d.1, d.0)

length-without : (b : ℕ) (xs : List ℕ) → has b xs ≡ true → length (without b xs) + 1 ≡ length xs
unfolding without
length-without b [] h = cc
length-without b (x ∷ xs) h = ground (arith, length-without b xs)

Distinct-without : (b : ℕ) (xs : List ℕ) → Distinct xs → Distinct (without b xs)
unfolding without
Distinct-without b [] d = d
Distinct-without b (x ∷ xs) d = elim (Bool-cases (b == x)) [
  | inl e ↦ rw e d.1
  | inr e ↦ rw e (rw (has-without b x xs d.1, d.0) refl, Distinct-without b xs d.1)
]

-- A write to a block that is not on the chain leaves the chain.
pub FreeChain-write :
    (word : ℕ → ℕ) (free : List ℕ) (b w : ℕ)
    → has b free ≡ false
    → FreeChain word free
    → FreeChain (write_word word b w) free
FreeChain-write word [] b w out c = tt
FreeChain-write word (x ∷ xs) b w out c =
    let (other, rest) = has-cons_false b x xs out in
    (c.0, rw other c.1, c.2, FreeChain-write word xs b w rest c.3)

module _ (km : KmMap) (word : ℕ → ℕ) (a : Aspace) (free live pages : List ℕ)
    (v : IsClass km word a free live pages) where
  -- A block of the class is no NULL.
  pub block-pos : (b : ℕ) → IsBlock km pages b → 0 < b
  block-pos b k = omega (arith, (v.pages_mapped (page_of b) k.owned).high)

  module _ (b : ℕ) (alive : has b live ≡ true) where
    b-not_free : has b free ≡ false
    b-not_free = elim (Bool-cases (has b free)) [ inr e ↦ e | inl e ↦ absurd (cc (v.apart b e)) ]

    b-gone : has b (without b live) ≡ false
    b-gone = ground (arith, has-without b b live v.live_distinct)

    -- The block leaves the live ones and becomes the first of the chain.
    pub give_back-IsClass :
        IsClass
          (give_back km b)
          (write_word word b km.free_chain)
          a
          (b ∷ free)
          (without b live)
          pages
    unfolding give_back
    give_back-IsClass = record {
      first = refl;
      chain = (
        block-pos b (v.live_blocks b alive),
        ground (arith, v.first),
        b-not_free,
        FreeChain-write word free b km.free_chain b-not_free v.chain,
      );
      free_counted = omega (arith, v.free_counted);
      used_counted = omega (arith, v.used_counted, length-without b live alive);
      live_distinct = Distinct-without b live v.live_distinct;
      apart = λ y h. elim (has-cons y b free h) [
        | inl e ↦ rw e b-gone
        | inr e ↦ ground (arith, has-without b y live v.live_distinct, v.apart y e)
      ];
      free_blocks = λ y h. elim (has-cons y b free h) [
        | inl e ↦
            IsBlock-mono km (give_back km b) pages y refl (omega arith)
              (rw e (v.live_blocks b alive))
        | inr e ↦ IsBlock-mono km (give_back km b) pages y refl (omega arith) (v.free_blocks y e)
      ];
      live_blocks = λ y h.
          IsBlock-mono km (give_back km b) pages y refl (omega arith)
            (v.live_blocks y (ground (arith, has-without b y live v.live_distinct)));
      some_fresh = v.some_fresh;
      some_size = v.some_size;
      fills = v.fills;
      fresh_aligned = v.fresh_aligned;
      fresh_at = v.fresh_at;
      few_fresh = v.few_fresh;
      some_page = v.some_page;
      pages_mapped = v.pages_mapped;
    }
