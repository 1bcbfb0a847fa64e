-- ===== src/KMem/Take.antt =====
-- `kmalloc` of kernel/memory.c on one class whose page lasts.
use jeffos.Base.{
  ℕ, ◌+◌, ◌-◌, ◌*◌, ◌/◌, ◌%◌, ◌≤◌, ◌<◌, ◌≡◌, refl, ◌∙◌, ap, inl, inr, true, false, ◌||◌, List, ◌∷◌,
  arith, ◌==◌, has, Bool-cases, ==_iff, ==_refl, has-cons, has-ne,
}
use native.Mathlib.Decide.{dec_lt}
use native.Mathlib.Nat.{mul-mod_left, mul_assoc, add-mod_right}
use jeffos.Pages.Tables.{Aspace}
use jeffos.KMem.{KmMap, recycle}
use jeffos.KMem.Class.{head_or_null, page_of, IsBlock, IsPage, IsClass}

pub IsBlock-mono :
    (km km' : KmMap) (pages : List ℕ) (b : ℕ)
    → km'.size ≡ km.size
    → km.fresh_chain ≤ km'.fresh_chain
    → IsBlock km pages b
    → IsBlock km' pages b
IsBlock-mono km km' pages b e le k = record {
  owned = k.owned;
  aligned = rw e k.aligned;
  cut = λ h. omega (arith, k.cut h);
}

pub page-aligned : (q s p : ℕ) → q * s ≡ 4096 → p % 4096 ≡ 0 → p % s ≡ 0
page-aligned q s p e h =
    let whole : p ≡ p / 4096 * q * s =
      omega (arith, mul_assoc (p / 4096) q s, ap (λ t. p / 4096 * t) e) in
    ap (λ t. t % s) whole ∙ mul-mod_left (p / 4096 * q) s

product_bounds : (f s q : ℕ) → 0 < f → 0 < s → f ≤ q → (s ≤ f * s) × (f * s ≤ q * s)
product_bounds f s q a b c = grind arith

module _ (km : KmMap) (word : ℕ → ℕ) (a : Aspace) (live pages : List ℕ) where
  -- A block from the chain.
  pub recycle-IsClass :
      (x : ℕ) (xs : List ℕ)
      → IsClass km word a (x ∷ xs) live pages
      → IsClass (recycle km word).0 word a xs (x ∷ live) pages
        × ((recycle km word).1 ≡ x)
        × (has x live ≡ false)
  unfolding recycle
  recycle-IsClass x xs v = (
    record {
      first = rw v.first v.chain.1;
      chain = v.chain.3;
      free_counted = omega (arith, v.free_counted);
      used_counted = omega (arith, v.used_counted);
      live_distinct = (fresh, v.live_distinct);
      apart = λ y h. ground (arith, v.apart y, v.chain.2);
      free_blocks = λ y h.
          IsBlock-mono km (recycle km word).0 pages y refl (omega arith)
            (v.free_blocks y (ground arith));
      live_blocks =
          λ y h. IsBlock-mono km (recycle km word).0 pages y refl (omega arith) (live_or_first y h);
      some_fresh = v.some_fresh;
      some_size = v.some_size;
      fills = v.fills;
      fresh_aligned = v.fresh_aligned;
      fresh_at = v.fresh_at;
      few_fresh = v.few_fresh;
      some_page = v.some_page;
      pages_mapped = v.pages_mapped;
    },
    v.first,
    fresh,
  )
    where
      fresh : has x live ≡ false
      fresh = v.apart x (ground arith)

      live_or_first : (y : ℕ) → ((y == x) || has y live) ≡ true → IsBlock km pages y
      live_or_first y h = elim (Bool-cases (y == x)) [
        | inl e ↦ v.free_blocks y (rw e)
        | inr e ↦ v.live_blocks y (ground arith)
      ]

module _ (km : KmMap) (word : ℕ → ℕ) (a : Aspace) (free live pages : List ℕ)
    (v : IsClass km word a free live pages) where
  head : ℕ
  head = head_or_null pages

  head-IsPage : IsPage a (head_or_null pages)
  head-IsPage = v.pages_mapped (head_or_null pages) v.some_page

  bounds : (km.size ≤ km.fresh_count * km.size) × (km.fresh_count * km.size ≤ 4096)
  bounds =
      let b =
        product_bounds km.fresh_count km.size (4096 / km.size) v.some_fresh v.some_size
          v.few_fresh in
      (b.0, omega (arith, b.1, v.fills))

  one_less : (km.fresh_count - 1) * km.size + km.size ≡ km.fresh_count * km.size
  one_less =
      let e : km.fresh_count ≡ km.fresh_count - 1 + 1 = omega (arith, v.some_fresh) in
      omega (arith, ap (λ t. t * km.size) e)

  -- The next fresh block lies wholly on the newest page.
  fresh_spot : page_of km.fresh_chain ≡ head_or_null pages
  fresh_spot = omega (arith, v.fresh_at, bounds, head-IsPage.whole, v.some_size)

  pub fresh-not_live : has km.fresh_chain live ≡ false
  fresh-not_live = elim (Bool-cases (has km.fresh_chain live)) [
    | inr e ↦ e
    | inl e ↦ absurd (omega (arith, (v.live_blocks km.fresh_chain e).cut fresh_spot))
  ]

  fresh-not_free : has km.fresh_chain free ≡ false
  fresh-not_free = elim (Bool-cases (has km.fresh_chain free)) [
    | inr e ↦ e
    | inl e ↦ absurd (omega (arith, (v.free_blocks km.fresh_chain e).cut fresh_spot))
  ]

  pub fresh-owned : has (page_of km.fresh_chain) pages ≡ true
  fresh-owned = ap (λ t. has t pages) fresh_spot ∙ v.some_page

  fresh-apart : (y : ℕ) → has y free ≡ true → has y (km.fresh_chain ∷ live) ≡ false
  fresh-apart y h = ground (arith, v.apart y h, has-ne y km.fresh_chain free h fresh-not_free)

  unfoldable pub bumped : KmMap
  bumped = record km {
    used_count = km.used_count + 1;
    fresh_count = km.fresh_count - 1;
    fresh_chain = km.fresh_chain + km.size;
  }

  -- A fresh block that is not the last of its page.
  pub bumped-IsClass :
      0 < km.fresh_count - 1 → IsClass bumped word a free (km.fresh_chain ∷ live) pages
  unfolding bumped
  bumped-IsClass more = record {
    first = v.first;
    chain = v.chain;
    free_counted = v.free_counted;
    used_counted = omega (arith, v.used_counted);
    live_distinct = (fresh-not_live, v.live_distinct);
    apart = fresh-apart;
    free_blocks = λ y h. IsBlock-mono km bumped pages y refl (omega arith) (v.free_blocks y h);
    live_blocks = λ y h. elim (Bool-cases (y == km.fresh_chain)) [
      | inr e ↦ IsBlock-mono km bumped pages y refl (omega arith) (v.live_blocks y (ground arith))
      | inl e ↦ record {
        owned = rw ((==_iff y km.fresh_chain).0 e, fresh_spot) v.some_page;
        aligned = rw ((==_iff y km.fresh_chain).0 e) v.fresh_aligned;
        cut = λ h. omega (arith, (==_iff y km.fresh_chain).0 e, v.some_size);
      }
    ];
    some_fresh = more;
    some_size = v.some_size;
    fills = v.fills;
    fresh_aligned = add-mod_right km.fresh_chain km.size ∙ v.fresh_aligned;
    fresh_at = omega (arith, v.fresh_at, one_less);
    few_fresh = omega (arith, v.few_fresh);
    some_page = v.some_page;
    pages_mapped = v.pages_mapped;
  }

  unfoldable pub refilled : ℕ → KmMap
  refilled p = record km {
    used_count = km.used_count + 1;
    fresh_count = 4096 / km.size;
    fresh_chain = p;
  }

  module _ (a' : Aspace) (p : ℕ) (grown : (q : ℕ) → IsPage a q → IsPage a' q) (page : IsPage a' p)
      (new : has p pages ≡ false) where
    old-IsBlock : (y : ℕ) → IsBlock km pages y → IsBlock (refilled p) (p ∷ pages) y
    unfolding refilled
    old-IsBlock y k = record {
      owned = ground (arith, k.owned);
      aligned = k.aligned;
      cut = λ h. absurd (ground (arith, k.owned));
    }

    last-IsBlock : IsBlock (refilled p) (p ∷ pages) km.fresh_chain
    unfolding refilled
    last-IsBlock = record {
      owned = ground (arith, fresh-owned);
      aligned = v.fresh_aligned;
      cut = λ h. absurd (
          cc (
            has-ne (page_of km.fresh_chain) p pages fresh-owned new,
            ==_refl (page_of km.fresh_chain),
            h,
          ));
    }

    -- The last block of a page, and a new page for the next ones.
    pub refilled-IsClass : IsClass (refilled p) word a' free (km.fresh_chain ∷ live) (p ∷ pages)
    unfolding refilled
    refilled-IsClass = record {
      first = v.first;
      chain = v.chain;
      free_counted = v.free_counted;
      used_counted = omega (arith, v.used_counted);
      live_distinct = (fresh-not_live, v.live_distinct);
      apart = fresh-apart;
      free_blocks = λ y h. old-IsBlock y (v.free_blocks y h);
      live_blocks = λ y h. elim (has-cons y km.fresh_chain live h) [
        | inr e ↦ old-IsBlock y (v.live_blocks y e)
        | inl e ↦ rw e last-IsBlock
      ];
      some_fresh = some_blocks;
      some_size = v.some_size;
      fills = v.fills;
      fresh_aligned = page-aligned (4096 / km.size) km.size p v.fills page.whole;
      fresh_at = omega (arith, v.fills);
      few_fresh = omega arith;
      some_page = ground arith;
      pages_mapped = λ q h. elim (has-cons q p pages h) [
        | inl e ↦ rw e page
        | inr e ↦ grown q (v.pages_mapped q e)
      ];
    }
      where
        some_blocks : 0 < 4096 / km.size
        some_blocks = elim (dec_lt 0 (4096 / km.size)) [
          | yes h ↦ h
          | no h ↦
              let none_fit : 4096 / km.size ≡ 0 = omega arith in
              absurd (omega (arith, v.fills, ap (λ t. t * km.size) none_fit))
        ]
