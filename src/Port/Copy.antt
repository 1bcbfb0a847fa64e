-- ===== src/Port/Copy.antt =====
-- The two loops of kernel/port.c that copy a message's bytes.
use jeffos.Base.{
  ℕ, zero, suc, ◌+◌, ◌<◌, ◌≤◌, ◌≡◌, refl, sym, ◌∙◌, ap, inl, inr, true, false, arith, ◌==◌,
  Bool-cases, ==_iff,
}
use jeffos.Kernel.{update}
use jeffos.Port.{copy_run}

module _ (from : ℕ → ℕ) (s d : ℕ) where
  pub copy_run-before :
      (n i : ℕ) (to : ℕ → ℕ) (b : ℕ) → b < d + i → copy_run n i from s to d b ≡ to b
  unfolding copy_run
  copy_run-before zero i to b before = refl
  copy_run-before (suc n) i to b before =
      let other : (b == d + i) ≡ false = ground arith in
      copy_run-before n (i + 1) (update to (d + i) (from (s + i))) b (omega arith) ∙ rw other refl

  pub copy_run-behind :
      (n i : ℕ) (to : ℕ → ℕ) (b : ℕ) → d + i + n ≤ b → copy_run n i from s to d b ≡ to b
  unfolding copy_run
  copy_run-behind zero i to b behind = refl
  copy_run-behind (suc n) i to b behind =
      let other : (b == d + i) ≡ false = ground arith in
      copy_run-behind n (i + 1) (update to (d + i) (from (s + i))) b (omega arith) ∙ rw other refl

  copy_run-inside :
      (n i : ℕ) (to : ℕ → ℕ) (b j : ℕ)
      → b ≡ d + j
      → i ≤ j
      → j < i + n
      → copy_run n i from s to d b ≡ from (s + j)
  unfolding copy_run
  copy_run-inside zero i to b j at low high = absurd (omega arith)
  copy_run-inside (suc n) i to b j at low high = elim (Bool-cases (j == i)) [
    | inl e ↦
        let same : j ≡ i = (==_iff j i).0 e in
        let here : (b == d + i) ≡ true = ground (arith, at) in
        copy_run-before n (i + 1) (update to (d + i) (from (s + i))) b (omega (arith, at))
        ∙ rw here (ap (λ x. from (s + x)) (sym same))
    | inr e ↦
        copy_run-inside n (i + 1) (update to (d + i) (from (s + i))) b j at (ground arith)
          (ground arith)
  ]

  pub copy_run_copies :
      (n : ℕ) (to : ℕ → ℕ) (j : ℕ) → j < n → copy_run n 0 from s to d (d + j) ≡ from (s + j)
  copy_run_copies n to j low = copy_run-inside n 0 to (d + j) j refl (omega arith) (omega arith)
