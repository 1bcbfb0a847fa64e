-- ===== src/Resource/Capacity.antt =====
-- How many ids there are in the table of kernel/resource.c.
use jeffos.Base.{
  ℕ, ◌+◌, ◌-◌, ◌≡◌, ◌≢◌, ◌↔◌, Bool, true, false, not, none, some, List, [], ◌∷◌, arith, ◌==◌,
  length, get_elem?-lt, has,
}
use jeffos.Base.Tally.{tally, tally-cong, tally-not, tally-or, tally_one, tally_none}
use jeffos.Resource.{Resource, Table, rsrc_new}
use jeffos.Resource.Valid.{Chain, IsValid}
use jeffos.Resource.Ops.{live, rsrc_new_full, rsrc_new_lem}

-- A chain has as many entries as there are ids on it.
tally-has :
    (m : List Resource) (free : List ℕ)
    → Chain m free
    → tally (λ x. has x free) 1 (length m - 1) ≡ length free
tally-has m [] c = tally_none 1 (length m - 1)
tally-has m (y ∷ ys) c = omega (
  arith,
  tally-or (λ x. x == y) (λ x. has x ys) 1 (length m - 1) (λ x h. ground (arith, c.2)),
  tally_one y 1 (length m - 1) c.0 (omega (arith, get_elem?-lt m y c.1)),
  tally-has m ys c.3,
)

abbrev pub is_live : Table → ℕ → Bool
is_live t id = elim (live t id) [ none ↦ false | some e ↦ true ]

-- How many ids are live.
abbrev pub live_count : Table → ℕ
live_count t = tally (is_live t) 1 (t.rmax - 1)

-- The live ids and the ids on the chain are together one less than the entries of the table.
pub capacity :
    (t : Table) (free : List ℕ) → IsValid t free → live_count t + length free ≡ t.rmax - 1
capacity t free v =
    let counted : tally (λ x. has x free) 1 (t.rmax - 1) ≡ length free =
      rw v.size (tally-has t.rmap free v.chain) in
    omega (
      arith,
      tally-cong (is_live t) (λ x. not (has x free)) 1 (t.rmax - 1)
          (λ x a b. ground (arith, v.all_free x)),
      tally-not (λ x. has x free) 1 (t.rmax - 1),
      counted,
    )

-- `rsrc_new` answers 0 exactly if every id but 0 is live, and then the table is as it was.
pub rsrc_new-full_iff :
    (t : Table) (type word : ℕ) (free : List ℕ)
    → IsValid t free
    → type ≢ 0
    → (rsrc_new t type word ≡ some (t, 0)) ↔ (live_count t ≡ t.rmax - 1)
rsrc_new-full_iff t type word [] v h =
    (λ e. omega (arith, capacity t [] v), λ e. rsrc_new_full t type word v)
rsrc_new-full_iff t type word (x ∷ xs) v h =
    let (t', run, valid, fresh, changed) = rsrc_new_lem t type word x xs v h in
    (λ e. ground (arith, v.chain.0), λ e. absurd (omega (arith, capacity t (x ∷ xs) v)))
