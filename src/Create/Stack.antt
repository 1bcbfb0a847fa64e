-- ===== src/Create/Stack.antt =====
-- Where a new task's stack goes: the loop of `PsCreateNewTask` of kernel/task.c.
use jeffos.Base.{
  ℕ, zero, suc, ◌+◌, ◌<◌, ◌≤◌, ◌≡◌, ◌≢◌, ◌⊎◌, refl, sym, inl, inr, true, false, Bool, ◌&&◌, arith,
  ◌==◌, ltb, if◌then◌else◌, Bool-cases, ==_iff,
}
use mathlib.Core.Path.{subst}
use jeffos.Pages.Tables.{PageTable, entry}
use jeffos.Create.{find_stack}

-- Two free entries, one behind the other.
abbrev pub pair : PageTable → ℕ → Bool
pair tab z = (entry tab z == 0) && (entry tab (z + 1) == 0)

-- The highest pair of free entries between `1` and the last entry `top`, or 0 if there is none.
abbrev pub HighestPair : PageTable → ℕ → ℕ → Type 0
HighestPair tab top r =
    ((r ≡ 0) × ((z : ℕ) → 0 < z → z < top → pair tab z ≡ false))
    ⊎ ((0 < r) × (r < top) × (pair tab r ≡ true) × ((z : ℕ) → r < z → z < top → pair tab z ≡ false))

-- What `memcount` is before entry `n`.
record Counts (tab : PageTable) (top n count : ℕ) : Type 0 where
  below : n < top → count ≡ (if entry tab (n + 1) == 0 then 1 else 0)
  at_top : top ≤ n → count ≡ 0
  none : (z : ℕ) → n < z → z < top → pair tab z ≡ false

alone :
    (a count : ℕ)
    → count ≤ 1
    → ((if a == 0 then count + 1 else 0) == 2) ≡ false
    → (a == 0) ≡ true
    → count ≡ 0
alone a count few not_two e = ground (arith, few, not_two, e)

no_pair :
    (a b count : ℕ)
    → count ≡ (if b == 0 then 1 else 0)
    → ((if a == 0 then count + 1 else 0) == 2) ≡ false
    → ((a == 0) && (b == 0)) ≡ false
no_pair a b count c not_two = ground (arith, c, not_two)

yes_pair :
    (a b count : ℕ)
    → count ≡ (if b == 0 then 1 else 0)
    → ((if a == 0 then count + 1 else 0) == 2) ≡ true
    → ((a == 0) && (b == 0)) ≡ true
yes_pair a b count c two = ground (arith, c, two)

at_most : (b count : ℕ) → count ≡ (if b == 0 then 1 else 0) → count ≤ 1
at_most b count c = ground (arith, c)

counted : (a count : ℕ) → count ≡ 0 → ((if a == 0 then count + 1 else 0) == 2) ≢ true
counted a count none two = ground (arith, none, two)

module _ (tab : PageTable) (top : ℕ) where
  -- The fact about the entry behind, with the entry's number written as a sum.
  before :
      (i count : ℕ)
      → Counts tab top (suc i) count
      → suc i < top
      → count ≡ (if entry tab (i + 1 + 1) == 0 then 1 else 0)
  before i count c h =
      let same : suc i ≡ i + 1 = omega arith in
      subst (λ y. count ≡ (if entry tab (y + 1) == 0 then 1 else 0)) same (c.below h)

  few : (i count : ℕ) → Counts tab top (suc i) count → count ≤ 1
  few i count c = elim (Bool-cases (ltb (suc i) top)) [
    | inl e ↦ at_most (entry tab (i + 1 + 1)) count (before i count c (ground arith))
    | inr e ↦ omega (arith, c.at_top (ground arith))
  ]

  within :
      (i count : ℕ)
      → Counts tab top (suc i) count
      → suc i ≤ top
      → ((if entry tab (i + 1) == 0 then count + 1 else 0) == 2) ≡ true
      → i + 1 < top
  within i count c low two = elim (Bool-cases (ltb (i + 1) top)) [
    | inl e ↦ ground arith
    | inr e ↦
        let none : count ≡ 0 = c.at_top (ground arith) in
        absurd (counted (entry tab (i + 1)) count none two)
  ]

  Counts-on :
      (i count : ℕ)
      → Counts tab top (suc i) count
      → ((if entry tab (i + 1) == 0 then count + 1 else 0) == 2) ≡ false
      → suc i ≤ top
      → Counts tab top i (if entry tab (i + 1) == 0 then count + 1 else 0)
  Counts-on i count c not_two low = record {
    below = λ h. elim (Bool-cases (entry tab (i + 1) == 0)) [
      | inl e ↦ rw e (omega (arith, alone (entry tab (i + 1)) count (few i count c) not_two e))
      | inr e ↦ rw e refl
    ];
    at_top = λ h. absurd (omega (arith, low, h));
    none = λ z h g. elim (Bool-cases (z == suc i)) [
      | inl e ↦
          let at : z ≡ i + 1 = ground (arith, (==_iff z (suc i)).0 e) in
          subst (λ y. pair tab y ≡ false) (sym at)
            (no_pair (entry tab (i + 1)) (entry tab (i + 1 + 1)) count
              (before i count c (ground (arith, at))) not_two)
      | inr e ↦ c.none z (ground arith) g
    ];
  }

  find_stack-from :
      (n count : ℕ)
      → Counts tab top n count
      → n ≤ top
      → HighestPair tab top (find_stack n tab count)
  unfolding find_stack
  find_stack-from zero count c low = inl (refl, λ z a b. c.none z a b)
  find_stack-from (suc i) count c low =
      elim (Bool-cases ((if entry tab (i + 1) == 0 then count + 1 else 0) == 2)) [
        | inl e ↦
            let two = yes_pair (entry tab (i + 1)) (entry tab (i + 1 + 1)) count in
            let inside = within i count c low e in
            rw e (
              inr (
                omega arith,
                inside,
                two (before i count c (omega (arith, inside))) e,
                λ z a b. c.none z (omega arith) b,
              ))
        | inr e ↦ rw e (
            find_stack-from i (if entry tab (i + 1) == 0 then count + 1 else 0)
              (Counts-on i count c e low) (omega arith))
      ]

-- The place of the stack: the highest two free entries of the table from the second one on, or 0 when
-- there are none.
pub find_stack-HighestPair : (tab : PageTable) → HighestPair tab 1023 (find_stack 1023 tab 0)
find_stack-HighestPair tab =
    find_stack-from tab 1023 1023 0
      (record {
        below = λ h. absurd (omega arith);
        at_top = λ h. refl;
        none = λ z a b. absurd (omega arith);
      })
      (omega arith)
