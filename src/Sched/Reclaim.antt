-- ===== src/Sched/Reclaim.antt =====
-- The loop of `PsCleanUpTask` over the page table of a process: kernel/task.c.
use jeffos.Base.{
  ℕ, zero, suc, ◌+◌, ◌/◌, ◌≤◌, ◌<◌, ◌≡◌, refl, sym, ◌∙◌, ap, inl, inr, ◌⊎◌, Bool, true, false, not,
  ◌&&◌, ◌||◌, List, arith, ◌==◌, ltb, leb, if◌then◌else◌, get_or, get_or-set, get_or-out, set,
  Bool-cases, ==_iff,
}
use mathlib.Core.Path.{subst, ap₂}
use jeffos.Pages.Bitmap.{Pmat, IsPmat, used, kunset_page_bit, used-kunset, kunset-IsPmat, max_pages}
use jeffos.Sched.{free_entries}

-- Whether one of the `k` entries from `i` on names page `n`.
abbrev pub names : List ℕ → ℕ → ℕ → ℕ → Bool
names ptab n i zero = false
names ptab n i (suc k) =
    (not (get_or ptab i 0 == 0) && (get_or ptab i 0 / 4096 == n)) || names ptab n (i + 1) k

names-set :
    (k : ℕ) (ptab : List ℕ) (n i j : ℕ) → j < i → names (set ptab j 0) n i k ≡ names ptab n i k
names-set zero ptab n i j h = refl
names-set (suc k) ptab n i j h =
    let same : get_or (set ptab j 0) i 0 ≡ get_or ptab i 0 =
      ground (arith, get_or-set ptab j i 0 0) in
    rw (same, names-set k ptab n (i + 1) j (omega arith)) refl

-- All pages that the `k` entries from `i` on name are pages of the machine.
abbrev pub InRange : List ℕ → ℕ → ℕ → Type 0
InRange ptab i k = (j : ℕ) → i ≤ j → j < i + k → get_or ptab j 0 / 4096 < max_pages

-- One round: the bitmap and the table after entry `i`.
abbrev pmat_after : Pmat → ℕ → Pmat
pmat_after m entry = if entry == 0 then m else kunset_page_bit m (entry / 4096)

abbrev ptab_after : List ℕ → ℕ → List ℕ
ptab_after ptab i = if get_or ptab i 0 == 0 then ptab else set ptab i 0

pmat_after-IsPmat : (m : Pmat) (entry : ℕ) → IsPmat m → IsPmat (pmat_after m entry)
pmat_after-IsPmat m entry v = elim (Bool-cases (entry == 0)) [
  | inl e ↦ rw e v
  | inr e ↦ rw e (kunset-IsPmat m (entry / 4096) v)
]

used-pmat_after :
    (m : Pmat) (entry n : ℕ)
    → IsPmat m
    → entry / 4096 < max_pages
    → used (pmat_after m entry) n ≡ (used m n && not (not (entry == 0) && (entry / 4096 == n)))
used-pmat_after m entry n v low = elim (Bool-cases (entry == 0)) [
  | inl e ↦
      subst
        (λ b.
          used (if b then m else kunset_page_bit m (entry / 4096)) n
          ≡ (used m n && not (not b && (entry / 4096 == n))))
        (sym e) (both_true (used m n))
  | inr e ↦
      subst
        (λ b.
          used (if b then m else kunset_page_bit m (entry / 4096)) n
          ≡ (used m n && not (not b && (entry / 4096 == n))))
        (sym e) (used-kunset m (entry / 4096) n v low ∙ choose (entry / 4096 == n) (used m n))
]
  where
    both_true : (b : Bool) → b ≡ (b && true)
    both_true true = refl
    both_true false = refl

    choose : (c b : Bool) → (if c then false else b) ≡ (b && not c)
    choose true true = refl
    choose true false = refl
    choose false true = refl
    choose false false = refl

get-ptab_after :
    (ptab : List ℕ) (i j : ℕ)
    → get_or (ptab_after ptab i) j 0 ≡ (if i == j then 0 else get_or ptab j 0)
get-ptab_after ptab i j = elim (Bool-cases (get_or ptab i 0 == 0)) [
  | inl e ↦
      subst
        (λ b.
          get_or (if b then ptab else set ptab i 0) j 0 ≡ (if i == j then 0 else get_or ptab j 0))
        (sym e) (same_place (Bool-cases (i == j)) ((==_iff _ 0).0 e))
  | inr e ↦
      subst
        (λ b.
          get_or (if b then ptab else set ptab i 0) j 0 ≡ (if i == j then 0 else get_or ptab j 0))
        (sym e) (ground (arith, get_or-set ptab i j 0 0, get_or-out ptab j 0))
]
  where
    same_place :
        ((i == j) ≡ true) ⊎ ((i == j) ≡ false)
        → get_or ptab i 0 ≡ 0
        → get_or ptab j 0 ≡ (if i == j then 0 else get_or ptab j 0)
    same_place (inl e) z = rw e (ap (λ x. get_or ptab x 0) (sym ((==_iff i j).0 e)) ∙ z)
    same_place (inr e) z = rw e refl

names-ptab_after :
    (k : ℕ) (ptab : List ℕ) (n i : ℕ)
    → names (ptab_after ptab i) n (i + 1) k ≡ names ptab n (i + 1) k
names-ptab_after k ptab n i = elim (Bool-cases (get_or ptab i 0 == 0)) [
  | inl e ↦ rw e refl
  | inr e ↦ rw e (names-set k ptab n (i + 1) i (omega arith))
]

-- The entries from `i` on are cleared, and the pages that they name are unmarked, and no other page;
-- where those are pages of the machine.
pub free_entries_lem :
    (k i : ℕ) (m : Pmat) (ptab : List ℕ)
    → IsPmat m
    → InRange ptab i k
    → ((n : ℕ) → used (free_entries k i m ptab).0 n ≡ (used m n && not (names ptab n i k)))
      × ((j : ℕ)
          → get_or (free_entries k i m ptab).1 j 0
            ≡ (if leb i j && ltb j (i + k) then 0 else get_or ptab j 0))
unfolding free_entries
free_entries_lem zero i m ptab v low = (λ n. ground arith, λ j. ground arith)
free_entries_lem (suc k) i m ptab v low =
    let entry = get_or ptab i 0 in
    let (pages, entries) =
      free_entries_lem k (i + 1) (pmat_after m entry) (ptab_after ptab i)
        (pmat_after-IsPmat m entry v) (λ j p q. rest j p q) in
    (
      λ n.
          pages n
          ∙ ap₂ (λ a b. a && not b)
              (used-pmat_after m entry n v (low i (omega arith) (omega arith)))
              (names-ptab_after k ptab n i)
          ∙ merge (used m n) (not (entry == 0) && (entry / 4096 == n)) (names ptab n (i + 1) k),
      λ j.
          entries j
          ∙ ap (λ x. if leb (i + 1) j && ltb j (i + 1 + k) then 0 else x) (get-ptab_after ptab i j)
          ∙ ground arith,
    )
  where
    rest : InRange (ptab_after ptab i) (i + 1) k
    rest j p q = ground (arith, get-ptab_after ptab i j, low j (omega arith) (omega arith))

    merge : (a b c : Bool) → ((a && not b) && not c) ≡ (a && not (b || c))
    merge true true c = refl
    merge true false c = refl
    merge false b c = refl
