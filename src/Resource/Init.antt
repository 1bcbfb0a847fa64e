-- ===== src/Resource/Init.antt =====
-- `rsrc_init` of kernel/resource.c.
use jeffos.Base.{
  ℕ, zero, suc, ◌+◌, ◌-◌, ◌/◌, ◌%◌, ◌^◌, ◌≤◌, ◌<◌, ◌≡◌, refl, sym, ◌&&◌, none, some, List, [], ◌∷◌,
  arith, ◌==◌, ltb, leb, if◌then◌else◌, length, length-set, get_elem?, get_elem?-set, set, has,
}
use jeffos.Resource.{Resource, resource, rsrc_none, Table, init_loop, rsrc_init}
use jeffos.Resource.Valid.{head_or_zero, Chain, IsValid}
use jeffos.Resource.Ops.{live}

-- The numbers i, i + 1, …, k of them.
abbrev pub span : ℕ → ℕ → List ℕ
span i zero = []
span i (suc k) = i ∷ span (i + 1) k

has-span : (i k x : ℕ) → has x (span i k) ≡ (leb i x && ltb x (i + k))
has-span i zero x = ground arith
has-span i (suc k) x = ground (arith, has-span (i + 1) k x)

pub length-span : (i k : ℕ) → length (span i k) ≡ k
length-span i zero = refl
length-span i (suc k) = omega (arith, length-span (i + 1) k)

head-span : (i k : ℕ) → 0 < k → head_or_zero (span i k) ≡ i
head-span i zero h = elim h [ ]
head-span i (suc k) h = refl

length-init_loop : (k i : ℕ) (m : List Resource) → length (init_loop k i m) ≡ length m
unfolding init_loop
length-init_loop zero i m = refl
length-init_loop (suc k) i m = omega (
  arith,
  length-init_loop k (i + 1) (set m i (resource rsrc_none (i + 1))),
  length-set m i (resource rsrc_none (i + 1)),
)

get_elem?-init_loop :
    (k i : ℕ) (m : List Resource) (j : ℕ)
    → i + k ≤ length m
    → get_elem? (init_loop k i m) j
      ≡ (if leb i j && ltb j (i + k) then some (resource rsrc_none (j + 1)) else get_elem? m j)
unfolding init_loop
get_elem?-init_loop zero i m j h = ground arith
get_elem?-init_loop (suc k) i m j h = ground (
  arith,
  get_elem?-init_loop k (i + 1) (set m i (resource rsrc_none (i + 1))) j,
  get_elem?-set m i j (resource rsrc_none (i + 1)),
  length-set m i (resource rsrc_none (i + 1)),
)

-- Entries that lead each to the next one, the last one to 0, are a chain.
Chain-span :
    (m : List Resource) (k i : ℕ)
    → 0 < i
    → ((j : ℕ)
        → i ≤ j
        → j < i + k
        → get_elem? m j ≡ some (resource rsrc_none (if (j + 1) == (i + k) then 0 else j + 1)))
    → Chain m (span i k)
Chain-span m zero i p h = tt
Chain-span m (suc zero) i p h = (p, ground (arith, h i), refl, tt)
Chain-span m (suc (suc k)) i p h = (
  p,
  ground (arith, h i),
  ground (arith, has-span (i + 1) (suc k) i),
  Chain-span m (suc k) (i + 1) (omega arith) (λ j a b. ground (arith, h j)),
)

module _ (memory : List Resource) (size : ℕ) (room : 2 ≤ size / 8) (word : size < 2 ^ 31)
    (fits : length memory ≡ size / 8) where
  n : ℕ
  n = size / 8

  start : Table
  start = record {
    rmap = set (init_loop n 0 memory) (n - 1) (resource rsrc_none 0);
    rmax = n;
    rfree = 1;
  }

  get_elem?-start :
      (j : ℕ)
      → j < n
      → get_elem? start.rmap j ≡ some (resource rsrc_none (if (j + 1) == n then 0 else j + 1))
  unfolding start n
  get_elem?-start j h = ground (
    arith,
    get_elem?-set (init_loop (size / 8) 0 memory) (size / 8 - 1) j (resource rsrc_none 0),
    get_elem?-init_loop (size / 8) 0 memory j,
    length-init_loop (size / 8) 0 memory,
  )

  last_index : ((n + 2 ^ 32 - 1) % 2 ^ 32) ≡ n - 1
  unfolding n
  last_index = omega arith

  last_entry : get_elem? (init_loop n 0 memory) (n - 1) ≡ some (resource rsrc_none n)
  unfolding n
  last_entry = ground (arith, get_elem?-init_loop (size / 8) 0 memory (size / 8 - 1))

  rsrc_init-start : rsrc_init memory size ≡ some start
  unfolding rsrc_init start n
  rsrc_init-start = rw (last_index, last_entry)

  start-IsValid : IsValid start (span 1 (n - 1))
  unfolding start n
  start-IsValid = record {
    size = omega (
      arith,
      length-set (init_loop (size / 8) 0 memory) (size / 8 - 1) (resource rsrc_none 0),
      length-init_loop (size / 8) 0 memory,
    );
    first = sym (head-span 1 (size / 8 - 1) (omega arith));
    chain =
        Chain-span start.rmap (size / 8 - 1) 1 (omega arith)
          (λ j a b. ground (arith, get_elem?-start j));
    all_free = λ id p q. ground (arith, get_elem?-start id, has-span 1 (size / 8 - 1) id);
    zero_unused = ground (arith, get_elem?-start 0);
  }

  -- With room for two entries, `rsrc_init` makes a valid table that has no live id, and whose chain
  -- has every id from 1 to the last.
  pub rsrc_init_lem :
      (t : Table) × (rsrc_init memory size ≡ some t)
      × (t.rmax ≡ size / 8)
      × IsValid t (span 1 (size / 8 - 1))
      × ((j : ℕ) → live t j ≡ none)
  unfolding n
  rsrc_init_lem = (
    start,
    rsrc_init-start,
    unfold start in refl,
    start-IsValid,
    λ j. unfold start in ground (arith, get_elem?-start j),
  )
