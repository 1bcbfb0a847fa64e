-- ===== src/Namer/Register.antt =====
-- `port_register` of srv/namer/namer.c against what `port_find` answers behind it.
use jeffos.Base.{
  ℕ, zero, suc, ◌+◌, ◌≤◌, ◌<◌, ◌≡◌, ◌≢◌, refl, sym, ◌∙◌, ap, inl, inr, ◌⊎◌, true, false, some,
  arith, ◌==◌, Bool-cases, ==_iff,
}
use jeffos.Kernel.{err_permission, err_memory}
use jeffos.Strings.Compare.{Terminated}
use jeffos.Strings.Duplicate.{strcpy-Copied}
use jeffos.Namer.{Names, name_at, has_port, enter, port_register}
use jeffos.Namer.Entry.{IsBook, Outside, Registered, entered-Registered}

module _ (ports : ℕ → ℕ) (port : ℕ) where
  has_port-found :
      (n i : ℕ) → has_port ports port i n ≡ true → (k : ℕ) × (k < i + n) × (ports k ≡ port)
  unfolding has_port
  has_port-found zero i e = absurd (ground arith)
  has_port-found (suc n) i e = elim (Bool-cases (ports i == port)) [
    | inl d ↦ (i, omega arith, (==_iff _ _).0 d)
    | inr d ↦ let (k, h, q) = has_port-found n (i + 1) (ground (arith, d)) in (k, omega arith, q)
  ]

  has_port-none :
      (n i : ℕ) → has_port ports port i n ≡ false → (k : ℕ) → i ≤ k → k < i + n → ports k ≢ port
  unfolding has_port
  has_port-none zero i e k a b q = absurd (omega arith)
  has_port-none (suc n) i e k a b q = elim (Bool-cases (k == i)) [
    | inl d ↦
        let this : ports i ≡ port = ap ports (sym ((==_iff _ _).0 d)) ∙ q in absurd (ground arith)
    | inr d ↦ has_port-none n (i + 1) (ground arith) k (ground (arith, d)) (omega arith) q
  ]

-- The three ends of a registration.
pub data RegisterEnd (st : Names) (port name : ℕ) : ℕ × Names → Type 0 where
  known : (k : ℕ) → k < st.count → st.ports k ≡ port → RegisterEnd st port name (err_permission, st)
  full :
      ((k : ℕ) → k < st.count → st.ports k ≢ port)
      → st.count ≡ 32
      → RegisterEnd st port name (err_memory, st)
  entered :
      {st' : Names}
      → ((k : ℕ) → k < st.count → st.ports k ≢ port)
      → Registered st st' port name
      → RegisterEnd st port name (0, st')

-- On a table of at most 32 entries, none of them of port 0, `port_register` of a port other than 0 and
-- of a name of fewer than 32 bytes, in memory outside the table, ends. It answers ERR_PERMISSION for a
-- port that has an entry and ERR_MEMORY when the 32 entries are used, and changes nothing; or the table
-- has one more entry, the names that were found are found at the same ports, and of those that were not
-- exactly the new name is found, at the new port.
pub port_register-RegisterEnd :
    (st : Names) (port name l : ℕ)
    → IsBook st
    → port ≢ 0
    → Outside st name
    → Terminated st.mem name l
    → l < 32
    → (r : ℕ × Names) × (port_register st port name ≡ some r) × RegisterEnd st port name r
unfolding port_register
port_register-RegisterEnd st port name l book pos out ends short =
    elim (Bool-cases (has_port st.ports port 0 st.count)) [
      | inl e ↦
          let (k, h, q) = has_port-found st.ports port st.count 0 e in
          ((err_permission, st), rw e refl, known k (omega arith) q)
      | inr e ↦
          let fresh : (k : ℕ) → k < st.count → st.ports k ≢ port =
            λ k h. has_port-none st.ports port st.count 0 e k (omega arith) (omega arith) in
          elim (Bool-cases (st.count == 32)) [
            | inl d ↦ ((err_memory, st), rw (e, d) refl, full fresh ((==_iff _ _).0 d))
            | inr d ↦
                let room : st.count < 32 = ground (arith, book.fits) in
                let apart : (name_at st st.count ≤ name) ⊎ (name + suc l ≤ name_at st st.count) =
                  ground (arith, out) in
                let (mem, run, copied) =
                  strcpy-Copied l 32 st.mem (name_at st st.count) name ends apart short in
                (
                  (0, enter st port mem),
                  rw (e, d, run) refl,
                  entered fresh
                      (entered-Registered st port name l mem book room out ends short copied pos),
                )
          ]
    ]
