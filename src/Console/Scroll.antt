-- ===== src/Console/Scroll.antt =====
-- `addline` of srv/console/console.c, and what `paint` shows behind it.
use jeffos.Base.{
  ℕ, suc, ◌≤◌, ◌<◌, ◌≡◌, refl, sym, ◌∙◌, ap, inl, inr, ◌⊎◌, false, arith, ◌==◌, ltb, if◌then◌else◌,
  Bool-cases, ==_iff, ==_refl, ltb→lt, ltb→le,
}
use jeffos.Strings.{Bytes}
use jeffos.Console.{Pane, Lines, write_text, rotate, addline}
use jeffos.Console.Rows.{
  row, IsPane, row_last, row-same, rotate-next, rotate-raw, with_raw-next, with_raw-other,
  with_raw-same,
}

-- The lines and the pane after `addline` of the text at `t`.
module _ (st : Lines) (pane : Pane) (text : Bytes) (t : ℕ) where
  abbrev pub st' : Lines
  st' = (addline st pane text t).0

  abbrev pub pane' : Pane
  pane' = (addline st pane text t).1

  abbrev pub written : Bytes
  written = write_text text (st.line pane.top).raw t 0 80

  addline-next :
      (a : ℕ)
      → (st'.line a).next
        ≡ (if a == pane.top then 0 else if a == pane.bottom then pane.top else (st.line a).next)
  unfolding addline
  addline-next a = with_raw-next (rotate st pane) pane.top _ a ∙ rotate-next st pane a

  pub addline-raw : (a : ℕ) → (a == pane.top) ≡ false → (st'.line a).raw ≡ (st.line a).raw
  unfolding addline
  addline-raw a e = with_raw-other (rotate st pane) pane.top _ a e ∙ rotate-raw st pane a

  pub addline-text : (st'.line pane.top).raw ≡ written
  unfolding addline
  addline-text =
      with_raw-same (rotate st pane) pane.top _
      ∙ ap (λ raw. write_text text raw t 0 80) (rotate-raw st pane pane.top)

  module _ (h : ℕ) (v : IsPane st pane h) (pos : 1 ≤ h) where
    -- A line below the first is not the first.
    pub below-ne : (k : ℕ) → 1 ≤ k → k ≤ h → (row st pane.top k == pane.top) ≡ false
    unfolding row
    below-ne k p q = elim (Bool-cases (row st pane.top k == pane.top)) [
      | inl e ↦ absurd (let z = v.apart k 0 q (omega arith) ((==_iff _ _).0 e) in omega (arith, z))
      | inr e ↦ e
    ]

    above-ne : (k : ℕ) → k < h → (row st pane.top k == pane.bottom) ≡ false
    above-ne k p = elim (Bool-cases (row st pane.top k == pane.bottom)) [
      | inl e ↦ absurd (
          let z = v.apart k h (omega arith) (omega arith) ((==_iff _ _).0 e ∙ sym v.last) in
          omega (arith, z))
      | inr e ↦ e
    ]

    -- The lines below the first have moved up.
    pub row-moved : (k : ℕ) → k < h → row st' pane'.top k ≡ row st pane.top (suc k)
    unfolding row addline
    row-moved k p = row-same st st' k (st.line pane.top).next (λ i q.
        addline-next (row st pane.top (suc i))
        ∙ rw (below-ne (suc i) (omega arith) (omega arith), above-ne (suc i) (omega arith)) refl)

  -- The first line is the last.
  pub row-turned : (h : ℕ) → IsPane st pane (suc h) → row st' pane'.top (suc h) ≡ pane.top
  row-turned h v =
      let low : 1 ≤ suc h = omega arith in
      let end : row st' pane'.top h ≡ pane.bottom =
        row-moved (suc h) v low h (omega arith) ∙ v.last in
      let apart : (pane.bottom == pane.top) ≡ false =
        sym (ap (λ q. q == pane.top) v.last) ∙ below-ne (suc h) v low (suc h) low (omega arith) in
      row_last st' pane'.top h
      ∙ ap (λ q. (st'.line q).next) end
      ∙ addline-next pane.bottom
      ∙ rw (apart, ==_refl pane.bottom) refl

  module _ (h : ℕ) (v : IsPane st pane (suc h)) where
    row-behind :
        (k : ℕ)
        → k ≤ suc h
        → ((k ≡ suc h) × (row st' pane'.top k ≡ row st pane.top 0))
          ⊎ ((k < suc h) × (row st' pane'.top k ≡ row st pane.top (suc k)))
    unfolding row
    row-behind k p = elim (Bool-cases (ltb k (suc h))) [
      | inl e ↦ inr (ltb→lt _ _ e, row-moved (suc h) v (omega arith) k (ltb→lt _ _ e))
      | inr e ↦
          let this : k ≡ suc h = omega (arith, ltb→le _ _ e) in
          inl (this, ap (row st' pane'.top) this ∙ row-turned h v)
    ]

    pub addline-IsPane : IsPane st' pane' (suc h)
    unfolding addline
    addline-IsPane = record { last = row-turned h v; apart = apart }
      where
        apart :
            (i j : ℕ) → i ≤ suc h → j ≤ suc h → row st' pane'.top i ≡ row st' pane'.top j → i ≡ j
        apart i j p q e = elim (row-behind i p) [
          | inl (a, x) ↦ elim (row-behind j q) [
            | inl (b, y) ↦ omega arith
            | inr (b, y) ↦
                let z = v.apart 0 (suc j) (omega arith) (omega arith) (sym x ∙ e ∙ y) in
                omega (arith, z)
          ]
          | inr (a, x) ↦ elim (row-behind j q) [
            | inl (b, y) ↦
                let z = v.apart (suc i) 0 (omega arith) (omega arith) (sym x ∙ e ∙ y) in
                omega (arith, z)
            | inr (b, y) ↦
                let z = v.apart (suc i) (suc j) (omega arith) (omega arith) (sym x ∙ e ∙ y) in
                omega (arith, z)
          ]
        ]
