-- ===== src/Resource/Valid.antt =====
-- The invariant of the resource table: the chain of unused entries.
use jeffos.Base.{
  ℕ, ◌<◌, ◌≡◌, ◌≢◌, Bool, true, false, not, Option, none, some, List, [], ◌∷◌, arith, ◌==◌, length,
  get_elem?, get_elem?-set, set, has,
}
use jeffos.Resource.{Resource, resource, rsrc_none, Table}

abbrev pub head_or_zero : List ℕ → ℕ
head_or_zero [] = 0
head_or_zero (x ∷ xs) = x

-- The entries named by the list are unused, distinct, none of them 0, and each leads to the next.
abbrev pub Chain : List Resource → List ℕ → Type 0
Chain m [] = Unit
Chain m (x ∷ xs) =
    (0 < x)
    × (get_elem? m x ≡ some (resource rsrc_none (head_or_zero xs)))
    × (has x xs ≡ false)
    × Chain m xs

abbrev pub is_used : Option Resource → Bool
is_used none = false
is_used (some e) = not (e.type == rsrc_none)

-- An entry is in use exactly if it has a type; of the others all but entry 0 are on the chain.
pub record IsValid (t : Table) (free : List ℕ) : Type 0 where
  pub size : t.rmax ≡ length t.rmap
  pub first : t.rfree ≡ head_or_zero free
  pub chain : Chain t.rmap free
  pub all_free : (id : ℕ) → 0 < id → id < t.rmax → is_used (get_elem? t.rmap id) ≡ not (has id free)
  pub zero_unused : is_used (get_elem? t.rmap 0) ≡ false

-- A write outside the chain leaves it.
pub Chain-set :
    (m : List Resource) (free : List ℕ) (i : ℕ) (v : Resource)
    → has i free ≡ false
    → Chain m free
    → Chain (set m i v) free
Chain-set m [] i v out c = tt
Chain-set m (x ∷ xs) i v out c =
    (c.0, ground (arith, get_elem?-set m i x v), c.2, Chain-set m xs i v (ground arith) c.3)

pub has-lt :
    (m : List Resource) (free : List ℕ) (i : ℕ)
    → Chain m free
    → has i free ≡ true
    → get_elem? m i ≢ none
has-lt m [] i c h = cc
has-lt m (x ∷ xs) i c h = ground (arith, has-lt m xs i c.3)
