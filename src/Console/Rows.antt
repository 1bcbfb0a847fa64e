-- ===== src/Console/Rows.antt =====
-- The chain of a pane's lines of srv/console/console.c.
use jeffos.Base.{
  ℕ, zero, suc, ◌≤◌, ◌<◌, ◌≡◌, refl, sym, ◌∙◌, ap, inl, inr, false, arith, ◌==◌, if◌then◌else◌,
  Bool-cases, ==_iff, ==_refl,
}
use jeffos.Strings.{Bytes}
use jeffos.Console.{Pane, Lines, with_next, with_prev, with_raw, rotate}

-- The line that is `k` lines below `p`.
unfoldable pub row : Lines → ℕ → ℕ → ℕ
row st p zero = p
row st p (suc k) = row st (st.line p).next k

-- A pane of `h + 1` lines, no two of them the same.
pub record IsPane (st : Lines) (pane : Pane) (h : ℕ) : Type 0 where
  pub last : row st pane.top h ≡ pane.bottom
  pub apart : (i j : ℕ) → i ≤ h → j ≤ h → row st pane.top i ≡ row st pane.top j → i ≡ j

pub row_last : (st : Lines) (p k : ℕ) → row st p (suc k) ≡ (st.line (row st p k)).next
unfolding row
row_last st p zero = refl
row_last st p (suc k) = row_last st (st.line p).next k

-- The chain is the same when the links of its lines but the last are.
pub row-same :
    (st st' : Lines) (k p : ℕ)
    → ((i : ℕ) → i < k → (st'.line (row st p i)).next ≡ (st.line (row st p i)).next)
    → row st' p k ≡ row st p k
unfolding row
row-same st st' zero p h = refl
row-same st st' (suc k) p h =
    ap (λ q. row st' q k) (h 0 (omega arith))
    ∙ row-same st st' k (st.line p).next (λ i q. h (suc i) (omega arith))

module _ (st : Lines) (p v a : ℕ) where
  with_next-next : ((with_next st p v).line a).next ≡ (if a == p then v else (st.line a).next)
  with_next-next = elim (Bool-cases (a == p)) [ inl e ↦ rw e refl | inr e ↦ rw e refl ]

  with_prev-next : ((with_prev st p v).line a).next ≡ (st.line a).next
  with_prev-next = elim (Bool-cases (a == p)) [
    | inl e ↦ rw e (ap (λ q. (st.line q).next) (sym ((==_iff _ _).0 e)))
    | inr e ↦ rw e refl
  ]

  with_next-raw : ((with_next st p v).line a).raw ≡ (st.line a).raw
  with_next-raw = elim (Bool-cases (a == p)) [
    | inl e ↦ rw e (ap (λ q. (st.line q).raw) (sym ((==_iff _ _).0 e)))
    | inr e ↦ rw e refl
  ]

  with_prev-raw : ((with_prev st p v).line a).raw ≡ (st.line a).raw
  with_prev-raw = elim (Bool-cases (a == p)) [
    | inl e ↦ rw e (ap (λ q. (st.line q).raw) (sym ((==_iff _ _).0 e)))
    | inr e ↦ rw e refl
  ]

module _ (st : Lines) (p : ℕ) (raw : Bytes) where
  pub with_raw-next : (a : ℕ) → ((with_raw st p raw).line a).next ≡ (st.line a).next
  with_raw-next a = elim (Bool-cases (a == p)) [
    | inl e ↦ rw e (ap (λ q. (st.line q).next) (sym ((==_iff _ _).0 e)))
    | inr e ↦ rw e refl
  ]

  pub with_raw-other :
      (a : ℕ) → (a == p) ≡ false → ((with_raw st p raw).line a).raw ≡ (st.line a).raw
  with_raw-other a e = rw e refl

  pub with_raw-same : ((with_raw st p raw).line p).raw ≡ raw
  with_raw-same = rw (==_refl p) refl

module _ (st : Lines) (pane : Pane) (a : ℕ) where
  abbrev st1 : Lines
  st1 = with_prev st (st.line pane.top).next 0

  abbrev st2 : Lines
  st2 = with_next st1 pane.bottom pane.top

  abbrev st3 : Lines
  st3 = with_prev st2 pane.top pane.bottom

  -- What `addline` does to the links of a line.
  pub rotate-next :
      ((rotate st pane).line a).next
      ≡ (if a == pane.top then 0 else if a == pane.bottom then pane.top else (st.line a).next)
  unfolding rotate
  rotate-next =
      with_next-next st3 pane.top 0 a
      ∙ ap (λ v. if a == pane.top then 0 else v)
          (with_prev-next st2 pane.top pane.bottom a
            ∙ with_next-next st1 pane.bottom pane.top a
            ∙ ap (λ v. if a == pane.bottom then pane.top else v)
                (with_prev-next st (st.line pane.top).next 0 a))

  pub rotate-raw : ((rotate st pane).line a).raw ≡ (st.line a).raw
  unfolding rotate
  rotate-raw =
      with_next-raw st3 pane.top 0 a
      ∙ with_prev-raw st2 pane.top pane.bottom a
      ∙ with_next-raw st1 pane.bottom pane.top a
      ∙ with_prev-raw st (st.line pane.top).next 0 a
