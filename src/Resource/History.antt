-- ===== src/Resource/History.antt =====
-- Sequences of calls of kernel/resource.c against a finite map.
use jeffos.Base.{
  ℕ, ◌<◌, ◌≡◌, refl, ◌≢◌, Option, none, some, List, [], ◌∷◌, arith, ◌==◌, if◌then◌else◌, ◌>>=◌,
  fun_ext, sym, get_elem?-lt,
}
use mathlib.Core.Path.{subst}
use jeffos.Resource.{Table, rsrc_find, rsrc_new, rsrc_del}
use jeffos.Resource.Valid.{IsValid}
use jeffos.Resource.Ops.{
  live, word_of, freed, rsrc_find-live, rsrc_new_full, rsrc_new_lem, rsrc_del_lem,
}

pub data Call : Type 0 where
  find : (type id : ℕ) → Call
  new : (type word : ℕ) → Call
  del : (id : ℕ) → Call

-- The callers pass one of the types of resource.h, never `RSRC_NONE`.
abbrev pub HasType : Call → Type 0
HasType (find type id) = type ≢ 0
HasType (new type word) = type ≢ 0
HasType (del id) = Unit

-- A call returns the new table and its answer, 0 where the source returns nothing.
unfoldable pub call : Call → Table → Option (Table × ℕ)
call (find type id) t = some (t, rsrc_find t type id)
call (new type word) t = rsrc_new t type word
call (del id) t = some (rsrc_del t id, 0)

abbrev pub Map : Type 0
Map = ℕ → Option (ℕ × ℕ)

abbrev pub update : Map → ℕ → Option (ℕ × ℕ) → Map
update m x e j = if x == j then e else m j

-- What a finite map of typed words for the ids below `size` promises of each call. `new` gives an id
-- that was not in use, or 0 when every id but 0 is in use.
pub data Promise (size : ℕ) (m : Map) : Call → ℕ → Map → Type 0 where
  found : (type id : ℕ) → Promise size m (find type id) (word_of (m id) type) m
  given :
      (type word x : ℕ)
      → m x ≡ none
      → 0 < x
      → x < size
      → Promise size m (new type word) x (update m x (some (type, word)))
  full :
      (type word : ℕ)
      → ((id : ℕ) → 0 < id → id < size → m id ≢ none)
      → Promise size m (new type word) 0 m
  ended : (id : ℕ) → Promise size m (del id) 0 (update m id none)

-- The outcome of a call: it succeeds, keeps the invariant and does what the map promises.
pub record Kept (t : Table) (c : Call) : Type 0 where
  pub t' : Table
  pub answer : ℕ
  pub free' : List ℕ
  pub run : call c t ≡ some (t', answer)
  pub valid : IsValid t' free'
  pub promise : Promise t.rmax (live t) c answer (live t')
  pub rmax_same : t'.rmax ≡ t.rmax

rsrc_new-rmax :
    (t t' : Table) (type word x : ℕ) → rsrc_new t type word ≡ some (t', x) → t'.rmax ≡ t.rmax
unfolding rsrc_new
rsrc_new-rmax t t' type word x h = ground arith

rsrc_del-rmax : (t : Table) (id : ℕ) → (rsrc_del t id).rmax ≡ t.rmax
unfolding rsrc_del
rsrc_del-rmax t id = ground arith

-- With nothing on the chain every id but 0 is live.
all_live : (t : Table) → IsValid t [] → (id : ℕ) → 0 < id → id < t.rmax → live t id ≢ none
all_live t v id a b e = absurd (ground (arith, v.all_free id a b))

-- A call of `new` at each shape of the chain.
new-Kept :
    (t : Table) (type word : ℕ) (free : List ℕ) → IsValid t free → type ≢ 0 → Kept t (new type word)
unfolding call
new-Kept t type word [] v h = record {
  t' = t;
  answer = 0;
  free' = [];
  run = rsrc_new_full t type word v;
  valid = v;
  promise = full type word (λ id a b e. all_live t v id a b e);
  rmax_same = refl;
}
new-Kept t type word (x ∷ xs) v h =
    let (t', run, valid, fresh, changed) = rsrc_new_lem t type word x xs v h in
    record {
      t' = t';
      answer = x;
      free' = xs;
      run = run;
      valid = valid;
      promise = subst (Promise t.rmax (live t) (new type word) x) (sym (fun_ext changed)) (
          given type word x fresh v.chain.0
            (omega (arith, get_elem?-lt t.rmap x v.chain.1, v.size)));
      rmax_same = rsrc_new-rmax t t' type word x run;
    }

-- Under the invariant every call succeeds, keeps the invariant and the size of the table, and does
-- to the map of live entries what the finite map promises.
pub call-Kept : (t : Table) (c : Call) (free : List ℕ) → IsValid t free → HasType c → Kept t c
unfolding call
call-Kept t (find type id) free v h = record {
  t' = t;
  answer = rsrc_find t type id;
  free' = free;
  run = refl;
  valid = v;
  promise = rw (rsrc_find-live t type id h) (found type id);
  rmax_same = refl;
}
call-Kept t (new type word) free v h = new-Kept t type word free v h
call-Kept t (del id) free v h =
    let (valid, changed) = rsrc_del_lem t id v in
    record {
      t' = rsrc_del t id;
      answer = 0;
      free' = freed (live t id) id free;
      run = refl;
      valid = valid;
      promise = subst (Promise t.rmax (live t) (del id) 0) (sym (fun_ext changed)) (ended id);
      rmax_same = rsrc_del-rmax t id;
    }

-- A sequence of calls, and the answers.
unfoldable pub calls : List Call → Table → Option (Table × List ℕ)
calls [] t = some (t, [])
calls (c ∷ cs) t = do (t', a) ← call c t; (t'', as') ← calls cs t'; some (t'', a ∷ as')

abbrev pub AllTyped : List Call → Type 0
AllTyped [] = Unit
AllTyped (c ∷ cs) = HasType c × AllTyped cs

-- The same calls of the finite map.
pub data Promises (size : ℕ) : Map → List Call → List ℕ → Map → Type 0 where
  done : {m : Map} → Promises size m [] [] m
  after :
      {c : Call} {a : ℕ} {m n k : Map} {cs : List Call} {answers : List ℕ}
      → Promise size m c a n
      → Promises size n cs answers k
      → Promises size m (c ∷ cs) (a ∷ answers) k

-- Any sequence of calls with types other than `RSRC_NONE`, on a valid table, succeeds, leaves a valid
-- table, and gives the answers of a finite map from the ids to typed words: a look-up the word, `new` an
-- id that was not in use, or 0 when every id but 0 is in use.
pub calls-Promises :
    (cs : List Call) (t : Table) (free : List ℕ)
    → IsValid t free
    → AllTyped cs
    → (t' : Table) × (answers free' : List ℕ) × (calls cs t ≡ some (t', answers))
      × IsValid t' free'
      × Promises t.rmax (live t) cs answers (live t')
unfolding calls
calls-Promises [] t free v h = (t, [], free, refl, v, done)
calls-Promises (c ∷ cs) t free v h =
    let k = call-Kept t c free v h.0 in
    let (t', answers, free', run, valid, promises) = calls-Promises cs k.t' k.free' k.valid h.1 in
    (
      t',
      k.answer ∷ answers,
      free',
      rw k.run (rw run refl),
      valid,
      after k.promise
          (subst (λ n. Promises n (live k.t') cs answers (live t')) k.rmax_same promises),
    )
