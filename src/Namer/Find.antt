-- ===== src/Namer/Find.antt =====
-- `port_find` of srv/namer/namer.c: what it reads, and that it answers.
use jeffos.Base.{
  ℕ, zero, suc, ◌+◌, ◌≤◌, ◌<◌, ◌≡◌, ◌≢◌, refl, sym, ◌∙◌, ap, inl, inr, false, some, arith, ◌==◌,
  none, some_inj, Option-cases,
}
use jeffos.Strings.{Bytes, strcmp, unequal}
use jeffos.Strings.Compare.{Terminated, strcmp-Compared}
use jeffos.Namer.{Names, name_at, text_max, find_from, port_find}

-- Two memories with the same `n` bytes from `s` on.
abbrev pub Agree : Bytes → Bytes → ℕ → ℕ → Type 0
Agree mem mem' s n = (i : ℕ) → i < n → mem' (s + i) ≡ mem (s + i)

Agree-head : (mem mem' : Bytes) (s n : ℕ) → Agree mem mem' s (suc n) → mem' s ≡ mem s
Agree-head mem mem' s n h = ap mem' (omega arith) ∙ h 0 (omega arith) ∙ ap mem (omega arith)

Agree-tail : (mem mem' : Bytes) (s n : ℕ) → Agree mem mem' s (suc n) → Agree mem mem' (s + 1) n
Agree-tail mem mem' s n h i p =
    ap mem' (omega arith) ∙ h (suc i) (omega arith) ∙ ap mem (omega arith)

-- A comparison on fuel reads no byte behind the fuel.
pub strcmp-cong :
    (fuel : ℕ) (mem mem' : Bytes) (s t : ℕ)
    → Agree mem mem' s fuel
    → Agree mem mem' t fuel
    → strcmp fuel mem' s t ≡ strcmp fuel mem s t
unfolding strcmp
strcmp-cong zero mem mem' s t p q = refl
strcmp-cong (suc fuel) mem mem' s t p q =
    rw
      (
        Agree-head mem mem' s fuel p,
        Agree-head mem mem' t fuel q,
        strcmp-cong fuel mem mem' (s + 1) (t + 1) (Agree-tail mem mem' s fuel p)
            (Agree-tail mem mem' t fuel q),
      )
      refl

-- The `n` entries of `st` from the `i`th on are entries of a port, and compare in `st'` with `s`
-- as they do in `st`.
abbrev pub Stays : Names → Names → ℕ → ℕ → ℕ → Type 0
Stays st st' s i n =
    (k : ℕ)
    → i ≤ k
    → k < i + n
    → (strcmp text_max st'.mem s (name_at st' k) ≡ strcmp text_max st.mem s (name_at st k))
      × (st'.ports k ≡ st.ports k)
      × (st.ports k ≢ 0)

-- What one more entry does to a search.
abbrev pub Grown : Names → Names → ℕ → ℕ → ℕ → ℕ → Type 0
Grown st st' s i n p =
    (p ≢ 0 → find_from st' s i (suc n) ≡ some p)
    × (p ≡ 0 → find_from st' s i (suc n) ≡ find_from st' s (i + n) 1)

module _ (st : Names) (s i n : ℕ) where
  pub find-hit :
      strcmp text_max st.mem s (name_at st i) ≡ some 0
      → find_from st s i (suc n) ≡ some (st.ports i)
  unfolding find_from
  find-hit e = rw e refl

  pub find-miss :
      (c : ℕ)
      → strcmp text_max st.mem s (name_at st i) ≡ some c
      → (c == 0) ≡ false
      → find_from st s i (suc n) ≡ find_from st s (i + 1) n
  unfolding find_from
  find-miss c e d = rw (e, d) refl

  find-stuck : strcmp text_max st.mem s (name_at st i) ≡ none → find_from st s i (suc n) ≡ none
  unfolding find_from
  find-stuck e = rw e refl

-- A search among `n` entries that finds a port finds it among one more, and one that finds none
-- goes on with the new entry.
pub find_from-grow :
    (st st' : Names) (s n i p : ℕ)
    → Stays st st' s i n
    → find_from st s i n ≡ some p
    → Grown st st' s i n p
unfolding find_from
find_from-grow st st' s zero i p h e =
    (λ d. absurd (d (sym (some_inj e))), λ d. ap (λ k. find_from st' s k 1) (omega arith))
find_from-grow st st' s (suc n) i p h e =
    let (cmp, port, used) = h i (omega arith) (omega arith) in
    elim (Option-cases (strcmp text_max st.mem s (name_at st i))) [
      | inl q ↦ let no : none ≡ some p = sym (find-stuck st s i n q) ∙ e in absurd (ground arith)
      | inr (zero, q) ↦
          let this : st.ports i ≡ p = some_inj (sym (find-hit st s i n q) ∙ e) in
          (
            λ d. find-hit st' s i (suc n) (cmp ∙ q) ∙ ap some (port ∙ this),
            λ d. absurd (used (this ∙ d)),
          )
      | inr (suc c, q) ↦
          let ne : (suc c == 0) ≡ false = ground arith in
          let next = find-miss st' s i (suc n) (suc c) (cmp ∙ q) ne in
          let (found, missed) =
            find_from-grow st st' s n (i + 1) p (λ k a b. h k (omega arith) (omega arith))
              (sym (find-miss st s i n (suc c) q ne) ∙ e) in
          (λ d. next ∙ found d, λ d. next ∙ missed d ∙ ap (λ k. find_from st' s k 1) (omega arith))
    ]

-- `port_find` of a name of fewer than 32 bytes answers.
find_from-answers :
    (st : Names) (s l n i : ℕ)
    → Terminated st.mem s l
    → l < text_max
    → (p : ℕ) × (find_from st s i n ≡ some p)
unfolding find_from
find_from-answers st s l zero i v h = (0, refl)
find_from-answers st s l (suc n) i v h =
    let (p, e) = find_from-answers st s l n (i + 1) v h in
    elim (strcmp-Compared l text_max st.mem s (name_at st i) v h) [
      | inl (q, same) ↦ (st.ports i, find-hit st s i n q)
      | inr (q, differ) ↦ (p, find-miss st s i n unequal q refl ∙ e)
    ]

pub port_find-answers :
    (st : Names) (s l : ℕ)
    → Terminated st.mem s l
    → l < text_max
    → (p : ℕ) × (port_find st s ≡ some p)
unfolding port_find
port_find-answers st s l v h = find_from-answers st s l st.count 0 v h
