-- ===== src/Pages/Space/Brk.antt =====
-- `brk` of kernel/mem.c while pages last.
use jeffos.Base.{
  ℕ, zero, suc, ◌+◌, ◌*◌, ◌/◌, ◌≤◌, ◌<◌, ◌≡◌, refl, ◌∙◌, ◌⊎◌, bit_or, true, false, arith, ◌==◌,
  Bool-cases, inl, inr, le→ltb, lt→ltb,
}
use jeffos.Base.Masks.{le-bit_or}
use jeffos.Status.{ok}
use jeffos.Pages.Bitmap.{used}
use jeffos.Pages.Tables.{entry, in_use}
use jeffos.Pages.Alloc.{Memory}
use jeffos.Pages.Alloc.Allocated.{IsMemory}
use jeffos.Pages.Alloc.Count.{free_pages}
use jeffos.Pages.Space.{brk_loop, brk, minus_one}
use jeffos.Pages.Space.Grow.{Grown, brk_page-busy, brk_page-Grown, Grown-free_pages}

-- Every entry from `i` to `i + k - 1` is in use, those that were are as they were, each new one
-- names a page that was free and is now marked, and nothing else changed.
pub record Backed (s s' : Memory) (i k : ℕ) : Type 0 where
  pub backed : (x : ℕ) → i ≤ x → x < i + k → in_use s'.space.ptab x ≡ true
  pub kept : (x : ℕ) → in_use s.space.ptab x ≡ true → entry s'.space.ptab x ≡ entry s.space.ptab x
  pub outside : (x : ℕ) → (x < i) ⊎ (i + k ≤ x) → entry s'.space.ptab x ≡ entry s.space.ptab x
  pub fresh :
      (x : ℕ)
      → i ≤ x
      → x < i + k
      → in_use s.space.ptab x ≡ false
      → (p : ℕ) × (entry s'.space.ptab x ≡ bit_or (4096 * p) 7)
        × (used s.pmat p ≡ false)
        × (used s'.pmat p ≡ true)
  pub pages_kept : (x : ℕ) → used s.pmat x ≡ true → used s'.pmat x ≡ true
  pub high_same : s'.space.high ≡ s.space.high
  pub valid : IsMemory s'

Backed-none : (s : Memory) (i : ℕ) → IsMemory s → Backed s s i 0
Backed-none s i v = record {
  backed = λ x p q. absurd (omega arith);
  kept = λ x h. refl;
  outside = λ x h. refl;
  fresh = λ x p q h. absurd (omega arith);
  pages_kept = λ x h. h;
  high_same = refl;
  valid = v;
}

-- A round that finds its entry in use changes nothing.
Backed-busy :
    {s s' : Memory} (i k : ℕ)
    → in_use s.space.ptab i ≡ true
    → Backed s s' (i + 1) k
    → Backed s s' i (suc k)
Backed-busy i k busy r = record {
  backed = λ x p q. ground (arith, r.backed x, r.kept i);
  kept = r.kept;
  outside = λ x h. r.outside x (ground arith);
  fresh = λ x p q h. r.fresh x (ground arith) (omega arith) h;
  pages_kept = r.pages_kept;
  high_same = r.high_same;
  valid = r.valid;
}

page_entry-ne_zero : (p : ℕ) → (bit_or (4096 * p) 7 == 0) ≡ false
page_entry-ne_zero p = ground (arith, le-bit_or (4096 * p) 7)

Backed-Grown :
    {s t s' : Memory} (i k p : ℕ)
    → in_use s.space.ptab i ≡ false
    → Grown s t i p
    → Backed t s' (i + 1) k
    → Backed s s' i (suc k)
Backed-Grown {s} {t} {s'} i k p clear g r = record {
  backed = λ x a b. ground (arith, r.backed x, r.outside i, g.entries i, page_entry-ne_zero p);
  kept = λ x h. ground (arith, r.kept x, g.entries x);
  outside = λ x h. ground (arith, r.outside x, g.entries x);
  fresh = λ x a b h. elim (Bool-cases (x == i)) [
    | inl e ↦ (
      p,
      ground (arith, r.outside i, g.entries i),
      g.page_free,
      r.pages_kept p (ground (arith, g.marked p)),
    )
    | inr e ↦
        let (q, named, free, taken) =
          r.fresh x (ground arith) (omega arith) (ground (arith, g.entries x)) in
        (q, named, ground (arith, g.marked q), taken)
  ];
  pages_kept = λ x h. r.pages_kept x (ground (arith, g.marked x));
  high_same = r.high_same ∙ g.high_same;
  valid = r.valid;
}

brk_loop-Backed :
    (k i : ℕ) (s : Memory)
    → IsMemory s
    → i + k < 1024
    → k ≤ free_pages s.pmat
    → (s' : Memory) × (brk_loop k i s ≡ ok s') × Backed s s' i k
unfolding brk_loop
brk_loop-Backed zero i s v fits pages = (s, refl, Backed-none s i v)
brk_loop-Backed (suc k) i s v fits pages = elim (Bool-cases (in_use s.space.ptab i)) [
  | inl busy ↦
      let (s', run, r) = brk_loop-Backed k (i + 1) s v (omega arith) (omega arith) in
      (s', rw (brk_page-busy s i busy) run, Backed-busy i k busy r)
  | inr clear ↦
      let (t, p, grow, g) = brk_page-Grown s i v clear (omega arith) (omega arith) in
      let (s', run, r) =
        brk_loop-Backed k (i + 1) t g.valid (omega arith) (omega (arith, Grown-free_pages g)) in
      (s', rw grow run, Backed-Grown i k p clear g r)
]

-- `brk` of an address up to 2 MB, with a free page for each entry, answers 0 and backs every entry
-- up to the address: what was mapped stays, and the new pages were free.
pub brk-Backed :
    (s : Memory) (addr : ℕ)
    → IsMemory s
    → addr / 4096 ≤ 512
    → addr / 4096 + 1 ≤ free_pages s.pmat
    → (s' : Memory) × (brk s addr ≡ ok (s', 0)) × Backed s s' 0 (addr / 4096 + 1)
unfolding brk
brk-Backed s addr v low pages =
    let (s', run, r) = brk_loop-Backed (addr / 4096 + 1) 0 s v (omega arith) pages in
    (s', rw (le→ltb 512 (addr / 4096) low, run), r)

-- Beyond 2 MB it answers -1 and changes nothing.
pub brk_refused : (s : Memory) (addr : ℕ) → 512 < addr / 4096 → brk s addr ≡ ok (s, minus_one)
unfolding brk
brk_refused s addr h = rw (lt→ltb 512 (addr / 4096) h)
