-- ===== src/KMem/Disjoint.antt =====
-- The bytes of the blocks of kernel/memory.c.
use native.Mathlib.Nat.{mul_assoc, div-add-mod', add-mul-mod_self_right}
use mathlib.Core.Path.{subst}
use native.Mathlib.Decide.{dec_lt}
use jeffos.Base.{
  ℕ, ◌+◌, ◌*◌, ◌/◌, ◌%◌, ◌≤◌, ◌<◌, ◌≡◌, sym, ◌∙◌, ap, ◌≢◌, ◌⊎◌, inl, inr, List, arith, has, true,
  refl, ◌∷◌, Bool-cases, ◌==◌, ==_iff, ==_refl,
}
use jeffos.Status.{ok}
use jeffos.Pages.Alloc.Allocated.{NoPages}
use jeffos.KMem.{Heap, kmalloc}
use jeffos.KMem.Sizes.{block_size}
use jeffos.KMem.Class.{page_of, IsBlock}
use jeffos.KMem.Global.{IsHeap, KmallocEnd, put, kmalloc-KmallocEnd}

-- A multiple of `s` below `q * s` leaves room for `s` more.
room : (s q k : ℕ) → k * s < q * s → k * s + s ≤ q * s
room s q k h = elim (dec_lt k q) [ yes lt ↦ grind arith | no ge ↦ absurd (grind arith) ]

multiple : (s b : ℕ) → b % s ≡ 0 → b ≡ b / s * s
multiple s b h = omega (arith, div-add-mod' b s)

-- Two different multiples of `s` are `s` apart.
apart : (s x y : ℕ) → x % s ≡ 0 → y % s ≡ 0 → x < y → x + s ≤ y
apart s x y p q lt = omega (
  arith,
  room s (y / s) (x / s) (omega (arith, multiple s x p, multiple s y q)),
  multiple s x p,
  multiple s y q,
)

-- The place of a block on its page is a multiple of the block size too.
place : (s q b : ℕ) → q * s ≡ 4096 → b % s ≡ 0 → b % 4096 % s ≡ 0
place s q b e h =
    let whole : b ≡ b % 4096 + b / 4096 * q * s =
      omega (arith, mul_assoc (b / 4096) q s, ap (λ t. b / 4096 * t) e) in
    sym (ap (λ t. t % s) whole ∙ add-mul-mod_self_right (b % 4096) (b / 4096 * q) s) ∙ h

-- A block does not reach over the end of its page.
on_page : (s q b : ℕ) → q * s ≡ 4096 → b % s ≡ 0 → b % 4096 + s ≤ 4096
on_page s q b e h = omega (
  arith,
  room s q (b % 4096 / s) (omega (arith, multiple s (b % 4096) (place s q b e h), e)),
  multiple s (b % 4096) (place s q b e h),
  e,
)

module _ (h : Heap) (free live pages : ℕ → List ℕ) (v : IsHeap h free live pages) where
  live-IsBlock :
      (i x : ℕ) (low : i < 7) → has x (live i) ≡ true → IsBlock (v.entries i low).km (pages i) x
  live-IsBlock i x low a = (v.entries i low).class.live_blocks x a

  live-aligned : (i x : ℕ) → i < 7 → has x (live i) ≡ true → x % block_size i ≡ 0
  live-aligned i x low a =
      subst (λ t. x % t ≡ 0) (v.entries i low).sized (live-IsBlock i x low a).aligned

  class-fills : (i : ℕ) → i < 7 → 4096 / block_size i * block_size i ≡ 4096
  class-fills i low =
      subst (λ t. 4096 / t * t ≡ 4096) (v.entries i low).sized (v.entries i low).class.fills

  live-page : (i x : ℕ) → i < 7 → has x (live i) ≡ true → page_of x % 4096 ≡ 0
  live-page i x low a =
      ((v.entries i low).class.pages_mapped (page_of x) (live-IsBlock i x low a).owned).whole

  disjoint_below :
      (i j x y : ℕ)
      → i < 7
      → j < 7
      → has x (live i) ≡ true
      → has y (live j) ≡ true
      → x < y
      → x + block_size i ≤ y
  disjoint_below i j x y li lj ax ay lt = elim (Bool-cases (page_of x == page_of y)) [
    | inl same ↦
        let e : page_of x ≡ page_of y = (==_iff (page_of x) (page_of y)).0 same in
        let one : j ≡ i =
          v.separate j i (page_of y) lj li (live-IsBlock j y lj ay).owned
            (subst (λ t. has t (pages i) ≡ true) e (live-IsBlock i x li ax).owned) in
        apart (block_size i) x y (live-aligned i x li ax)
          (subst (λ t. y % block_size t ≡ 0) one (live-aligned j y lj ay)) lt
    | inr other ↦
        let ne : page_of x ≢ page_of y = ground arith in
        omega (
          arith,
          ne,
          on_page (block_size i) (4096 / block_size i) x (class-fills i li)
              (live-aligned i x li ax),
        )
  ]

  -- The bytes of two live blocks, of one class or of two, do not overlap: one ends before the other
  -- begins.
  pub blocks_disjoint :
      (i j x y : ℕ)
      → i < 7
      → j < 7
      → has x (live i) ≡ true
      → has y (live j) ≡ true
      → x ≢ y
      → (x + block_size i ≤ y) ⊎ (y + block_size j ≤ x)
  blocks_disjoint i j x y li lj ax ay ne = elim (dec_lt x y) [
    | yes lt ↦ inl (disjoint_below i j x y li lj ax ay lt)
    | no ge ↦ inr (disjoint_below j i y x lj li ay ax (omega arith))
  ]

still_live :
    (live : ℕ → List ℕ) (i j block y : ℕ)
    → has y (live j) ≡ true
    → has y (put live i (block ∷ live i) j) ≡ true
still_live live i j block y a = elim (Bool-cases (j == i)) [
  | inl e ↦
      let there : has y (live i) ≡ true = ap (λ c. has y (live c)) (sym ((==_iff j i).0 e)) ∙ a in
      rw e (ground (arith, there))
  | inr e ↦ rw e a
]

given_disjoint :
    (h h' : Heap) (free live pages : ℕ → List ℕ) (i j block y : ℕ)
    → i < 7
    → j < 7
    → has y (live j) ≡ true
    → KmallocEnd h free live pages i (ok (h', block))
    → ((block + block_size i ≤ y) ⊎ (y + block_size j ≤ block)) ⊎ NoPages h.memory.pmat 1
given_disjoint h h' free live pages i j block y li lj there
      (KmallocEnd.starved new none_left same) =
    inr none_left
given_disjoint h h' free live pages i j block y li lj there (KmallocEnd.given free' pages' new w) =
    inl (
      blocks_disjoint h' _ _ _ w i j block y li lj (rw (==_refl i, ==_refl block) refl)
        (still_live live i j block y there)
        (λ e.
          let z : has block (live j) ≡ true = ap (λ b. has b (live j)) e ∙ there in
          absurd (ground (arith, new j lj))))

-- On a heap in order, a block that `kmalloc` gives for one of the seven classes overlaps no block that
-- is live then, of whichever class: one ends before the other begins. Or no physical page was free.
pub kmalloc_disjoint :
    (h h' : Heap) (free live pages : ℕ → List ℕ) (i j block y : ℕ)
    → IsHeap h free live pages
    → i < 7
    → j < 7
    → kmalloc h i ≡ ok (h', block)
    → has y (live j) ≡ true
    → ((block + block_size i ≤ y) ⊎ (y + block_size j ≤ block)) ⊎ NoPages h.memory.pmat 1
kmalloc_disjoint h h' free live pages i j block y v li lj run there =
    given_disjoint h h' free live pages i j block y li lj there
      (subst (KmallocEnd h free live pages i) run (kmalloc-KmallocEnd h free live pages v i li))
