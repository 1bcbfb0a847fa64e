-- ===== src/Resource/Ops.antt =====
-- The operations of kernel/resource.c and the live entries.
use jeffos.Base.{
  ℕ, ◌<◌, ◌≡◌, refl, sym, ◌∙◌, eq_false_of_not, ◌≢◌, true, false, Option, none, some, List, [], ◌∷◌,
  arith, ◌==◌, ltb, if◌then◌else◌, length-set, get_elem?, get_elem?-set, get_elem?-lt, set, has,
  Option-cases, inl, inr,
}
use jeffos.Resource.{Resource, resource, rsrc_none, Table, rsrc_find, rsrc_new, rsrc_del}
use jeffos.Resource.Valid.{head_or_zero, is_used, IsValid, Chain-set}

-- What the entry stands for: nothing, or a typed word.
abbrev pub live_entry : Option Resource → Option (ℕ × ℕ)
live_entry none = none
live_entry (some e) = if e.type == rsrc_none then none else some (e.type, e.r)

-- The table as a finite map from ids to typed words.
abbrev pub live : Table → ℕ → Option (ℕ × ℕ)
live t id = if ltb id t.rmax then live_entry (get_elem? t.rmap id) else none

-- The word of a live entry of the given type, `NULL` for all else.
abbrev pub word_of : Option (ℕ × ℕ) → ℕ → ℕ
word_of none type = 0
word_of (some (t, w)) type = if t == type then w else 0

pub rsrc_find-live :
    (t : Table) (type id : ℕ) → type ≢ 0 → rsrc_find t type id ≡ word_of (live t id) type
unfolding rsrc_find
rsrc_find-live t type id h = ground arith

module _ (t : Table) (type word : ℕ) where
  pub rsrc_new_full : IsValid t [] → rsrc_new t type word ≡ some (t, 0)
  unfolding rsrc_new
  rsrc_new_full v = ground arith

  abbrev pub taken : ℕ → List ℕ → Table
  taken x xs = record t { rmap = set t.rmap x (resource type word); rfree = head_or_zero xs }

  rsrc_new-taken :
      (x : ℕ) (xs : List ℕ) → IsValid t (x ∷ xs) → rsrc_new t type word ≡ some (taken x xs, x)
  unfolding rsrc_new
  rsrc_new-taken x xs v = ground arith

  taken-live :
      (x : ℕ) (xs : List ℕ)
      → IsValid t (x ∷ xs)
      → type ≢ 0
      → (j : ℕ) → live (taken x xs) j ≡ (if x == j then some (type, word) else live t j)
  taken-live x xs v ne j =
      ground (arith, get_elem?-set t.rmap x j (resource type word), get_elem?-lt t.rmap x v.chain.1)

  taken-IsValid : (x : ℕ) (xs : List ℕ) → IsValid t (x ∷ xs) → type ≢ 0 → IsValid (taken x xs) xs
  taken-IsValid x xs v ne = record {
    size = omega (arith, v.size, length-set t.rmap x (resource type word));
    first = refl;
    chain = Chain-set t.rmap xs x (resource type word) v.chain.2 v.chain.3;
    all_free = λ id p q.
        ground (arith, v.all_free id, get_elem?-set t.rmap x id (resource type word), v.chain.2);
    zero_unused =
        ground (arith, v.zero_unused, get_elem?-set t.rmap x 0 (resource type word), v.chain.0);
  }

  -- The first id of the chain is handed out: it was not live, it now stands for the given word, no
  -- other id changes, and the rest of the chain stays.
  pub rsrc_new_lem :
      (x : ℕ) (xs : List ℕ)
      → IsValid t (x ∷ xs)
      → type ≢ 0
      → (t' : Table) × (rsrc_new t type word ≡ some (t', x))
        × IsValid t' xs
        × (live t x ≡ none)
        × ((j : ℕ) → live t' j ≡ (if x == j then some (type, word) else live t j))
  rsrc_new_lem x xs v ne = (
    taken x xs,
    rsrc_new-taken x xs v,
    taken-IsValid x xs v ne,
    ground (arith, v.chain.1),
    taken-live x xs v ne,
  )

-- The chain after the entry is given back.
abbrev pub freed : Option (ℕ × ℕ) → ℕ → List ℕ → List ℕ
freed none id free = free
freed (some e) id free = id ∷ free

module _ (t : Table) (id : ℕ) {free : List ℕ} (v : IsValid t free) where
  dropped : Table
  dropped = record t { rmap = set t.rmap id (resource rsrc_none t.rfree); rfree = id }

  rsrc_del-dead : live t id ≡ none → rsrc_del t id ≡ t
  unfolding rsrc_del
  rsrc_del-dead h = ground arith

  rsrc_del-dropped : {e : ℕ × ℕ} → live t id ≡ some e → rsrc_del t id ≡ dropped
  unfolding rsrc_del dropped
  rsrc_del-dropped h = ground arith

  id-pos : {e : ℕ × ℕ} → live t id ≡ some e → 0 < id
  id-pos h = ground (arith, v.zero_unused)

  id-lt : {e : ℕ × ℕ} → live t id ≡ some e → id < t.rmax
  id-lt h = ground arith

  id-used : {e : ℕ × ℕ} → live t id ≡ some e → is_used (get_elem? t.rmap id) ≡ true
  id-used h = ground arith

  not_on_chain : {e : ℕ × ℕ} → live t id ≡ some e → has id free ≡ false
  not_on_chain h = eq_false_of_not _ (sym (v.all_free id (id-pos h) (id-lt h)) ∙ id-used h)

  dropped-IsValid : {e : ℕ × ℕ} → live t id ≡ some e → IsValid dropped (id ∷ free)
  unfolding dropped
  dropped-IsValid h = record {
    size = omega (arith, v.size, length-set t.rmap id (resource rsrc_none t.rfree));
    first = refl;
    chain = (
      id-pos h,
      ground (arith, v.first, get_elem?-set t.rmap id id (resource rsrc_none t.rfree), v.size),
      fresh,
      Chain-set t.rmap free id (resource rsrc_none t.rfree) fresh v.chain,
    );
    all_free = λ j p q.
        ground
          (arith, v.all_free j, get_elem?-set t.rmap id j (resource rsrc_none t.rfree), v.size);
    zero_unused =
        ground
          (arith, v.zero_unused, get_elem?-set t.rmap id 0 (resource rsrc_none t.rfree), id-pos h);
  }
    where
      fresh : has id free ≡ false
      fresh = not_on_chain h

  dropped-live :
      {e : ℕ × ℕ}
      → live t id ≡ some e
      → (j : ℕ) → live dropped j ≡ (if id == j then none else live t j)
  unfolding dropped
  dropped-live h j = ground (arith, get_elem?-set t.rmap id j (resource rsrc_none t.rfree), v.size)

  -- `rsrc_del` ends the life of the id, changes no other, and puts a live id in front of the chain.
  pub rsrc_del_lem :
      IsValid (rsrc_del t id) (freed (live t id) id free)
      × ((j : ℕ) → live (rsrc_del t id) j ≡ (if id == j then none else live t j))
  rsrc_del_lem = elim (Option-cases (live t id)) [
    | inl dead ↦ rw (rsrc_del-dead dead, dead) (v, λ j. ground arith)
    | inr (e, h) ↦ rw (rsrc_del-dropped h, h) (dropped-IsValid h, dropped-live h)
  ]
