-- ===== src/Namer/Entry.antt =====
-- What one more entry in the tables of srv/namer/namer.c does to `port_find`.
use jeffos.Base.{
  ℕ, suc, ◌+◌, ◌-◌, ◌≤◌, ◌<◌, ◌≡◌, ◌≢◌, refl, sym, ◌∙◌, ap, inl, inr, ◌⊎◌, some, arith, ◌==◌, ltb,
  Bool-cases, ltb→lt, ltb→le,
}
use jeffos.Strings.{Bytes, unequal}
use jeffos.Strings.Copy.{Copied}
use jeffos.Strings.Compare.{Terminated, Same, strcmp-Compared}
use jeffos.Namer.{Names, name_at, enter, find_from, port_find}
use jeffos.Namer.Find.{Agree, strcmp-cong, Stays, find_from-grow, find-hit, find-miss}

-- Every entry has a port, and there are at most 32.
pub record IsBook (st : Names) : Type 0 where
  pub fits : st.count ≤ 32
  pub used : (k : ℕ) → k < st.count → st.ports k ≢ 0

-- 32 bytes of the server's memory that are not in the table of names.
abbrev pub Outside : Names → ℕ → Type 0
Outside st s = (s + 32 ≤ st.table) ⊎ (st.table + 1024 ≤ s)

-- The table has one more entry, of the port and the name: a name that was found is still found at
-- the same port, and one that was not is found at the new port exactly if it is the new name.
pub record Registered (st st' : Names) (port name : ℕ) : Type 0 where
  pub counted : st'.count ≡ st.count + 1
  pub book : IsBook st'
  pub kept : (s p : ℕ) → Outside st s → p ≢ 0 → port_find st s ≡ some p → port_find st' s ≡ some p
  pub found :
      (s l : ℕ)
      → Outside st s
      → Terminated st.mem s l
      → l < 32
      → port_find st s ≡ some 0
      → Same st.mem s name l
      → port_find st' s ≡ some port
  pub missed :
      (s l : ℕ)
      → Outside st s
      → Terminated st.mem s l
      → l < 32
      → port_find st s ≡ some 0
      → (Same st.mem s name l → ⊥)
      → port_find st' s ≡ some 0

-- Two strings of which one has the bytes of the other are equally long.
Same-length :
    (mem : Bytes) (s t k l : ℕ) → Terminated mem s k → Terminated mem t l → Same mem s t k → k ≡ l
Same-length mem s t k l v w same = elim (Bool-cases (ltb k l)) [
  | inl e ↦
      let lt : k < l = ltb→lt k l e in absurd (w.before k lt (sym (same k (omega arith)) ∙ v.ends))
  | inr e ↦ elim (Bool-cases (ltb l k)) [
    | inl d ↦
        let lt : l < k = ltb→lt l k d in absurd (v.before l lt (same l (omega arith) ∙ w.ends))
    | inr d ↦ omega (arith, ltb→le k l e, ltb→le l k d)
  ]
]

Terminated-Agree :
    (mem mem' : Bytes) (s k : ℕ)
    → Agree mem mem' s 32
    → k < 32
    → Terminated mem s k
    → Terminated mem' s k
Terminated-Agree mem mem' s k agree h v = record {
  ends = agree k h ∙ v.ends;
  before = λ i p z. v.before i p (sym (agree i (omega arith)) ∙ z);
}

-- The state behind the copy of a name of `l` bytes into the first unused entry.
module _ (st : Names) (port name l : ℕ) (mem : Bytes) (book : IsBook st) (room : st.count < 32)
    (out : Outside st name) (ends : Terminated st.mem name l) (short : l < 32)
    (copied : Copied st.mem mem (name_at st st.count) name (suc l)) where
  abbrev next : Names
  next = enter st port mem

  Outside-Agree : (s : ℕ) → Outside st s → Agree st.mem mem s 32
  Outside-Agree s o i h = copied (s + i) ∙ ground (arith, o)

  earlier-Agree : (k : ℕ) → k < st.count → Agree st.mem mem (name_at st k) 32
  earlier-Agree k p i h = copied (name_at st k + i) ∙ ground arith

  slot : (i : ℕ) → i ≤ l → mem (name_at st st.count + i) ≡ st.mem (name + i)
  slot i h =
      let back : st.mem (name + (name_at st st.count + i - name_at st st.count))
          ≡ st.mem (name + i) =
        ap st.mem (omega arith) in
      copied (name_at st st.count + i) ∙ ground (arith, back)

  entries-Stays : (s : ℕ) → Outside st s → Stays st next s 0 st.count
  entries-Stays s o k a b = (
    strcmp-cong 32 st.mem mem s (name_at st k) (Outside-Agree s o) (earlier-Agree k (omega arith)),
    ground arith,
    book.used k (omega arith),
  )

  slot-Terminated : Terminated mem (name_at st st.count) l
  slot-Terminated = record {
    ends = slot l (omega arith) ∙ ends.ends;
    before = λ i p z. ends.before i p (sym (slot i (omega arith)) ∙ z);
  }

  string-Terminated : (s k : ℕ) → Outside st s → k < 32 → Terminated st.mem s k → Terminated mem s k
  string-Terminated s k o h v = Terminated-Agree st.mem mem s k (Outside-Agree s o) h v

  -- The search of the new entry alone.
  new-Same :
      (s k : ℕ)
      → Outside st s
      → Terminated st.mem s k
      → k < 32
      → Same st.mem s name k
      → find_from next s st.count 1 ≡ some port
  new-Same s k o v h same =
      let len = Same-length st.mem s name k l v ends same in
      elim (strcmp-Compared k 32 mem s (name_at st st.count) (string-Terminated s k o h v) h) [
        | inl (q, _) ↦ find-hit next s st.count 0 q ∙ ap some (ground arith)
        | inr (q, differ) ↦ absurd (
            differ (λ i p.
              Outside-Agree s o i (omega arith) ∙ same i p ∙ sym (slot i (omega (arith, len)))))
      ]

  new_differs :
      (s k : ℕ)
      → Outside st s
      → Terminated st.mem s k
      → k < 32
      → (Same st.mem s name k → ⊥)
      → find_from next s st.count 1 ≡ some 0
  unfolding find_from
  new_differs s k o v h differ =
      elim (strcmp-Compared k 32 mem s (name_at st st.count) (string-Terminated s k o h v) h) [
        | inl (q, same) ↦
            let len =
              Same-length mem s (name_at st st.count) k l (string-Terminated s k o h v)
                slot-Terminated same in
            absurd (
              differ (λ i p.
                sym (Outside-Agree s o i (omega arith)) ∙ same i p ∙ slot i (omega (arith, len))))
        | inr (q, _) ↦ find-miss next s st.count 0 unequal q refl ∙ refl
      ]

  -- The search of the whole table, given what it found before.
  search :
      (s p : ℕ)
      → Outside st s
      → port_find st s ≡ some p
      → (p ≢ 0 → port_find next s ≡ some p)
        × (p ≡ 0 → port_find next s ≡ find_from next s st.count 1)
  unfolding port_find
  search s p o e =
      let (found, missed) = find_from-grow st next s st.count 0 p (entries-Stays s o) e in
      let all : find_from next s 0 (st.count + 1) ≡ find_from next s 0 (suc st.count) =
        ap (find_from next s 0) {y = suc st.count} (omega arith) in
      (λ d. all ∙ found d, λ d. all ∙ missed d ∙ ap (λ k. find_from next s k 1) (omega arith))

  entered-used : port ≢ 0 → (k : ℕ) → k < next.count → next.ports k ≢ 0
  entered-used pos k h = elim (Bool-cases (k == st.count)) [
    | inl e ↦ λ z. pos (ground (arith, z))
    | inr e ↦ λ z. book.used k (ground (arith, e)) (ground (arith, z))
  ]

  pub entered-Registered : port ≢ 0 → Registered st next port name
  entered-Registered pos = record {
    counted = refl;
    book = record { fits = omega arith; used = entered-used pos };
    kept = λ s p o d e. (search s p o e).0 d;
    found = λ s k o v h e same. (search s 0 o e).1 refl ∙ new-Same s k o v h same;
    missed = λ s k o v h e differ. (search s 0 o e).1 refl ∙ new_differs s k o v h differ;
  }
