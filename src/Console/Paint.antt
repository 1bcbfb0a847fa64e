-- ===== src/Console/Paint.antt =====
-- `paint` of srv/console/console.c: what the screen holds.
use jeffos.Base.{
  ℕ, zero, suc, ◌+◌, ◌-◌, ◌*◌, ◌≤◌, ◌<◌, ◌≡◌, refl, ◌∙◌, ap, inl, inr, ◌⊎◌, arith, ltb, Bool-cases,
  ltb→lt, ltb→le,
}
use jeffos.Strings.{Bytes}
use jeffos.Console.{Pane, Lines, screen_base, copy_word, copy_words, paint_rows, paint}
use jeffos.Console.Rows.{row}

module _ (raw : Bytes) where
  word-outside :
      (screen : Bytes) (b a x : ℕ) → (x < b) ⊎ (b + 4 ≤ x) → copy_word screen raw b a x ≡ screen x
  unfolding copy_word
  word-outside screen b a x h = ground arith

  word-inside :
      (screen : Bytes) (b a i : ℕ) → i < 4 → copy_word screen raw b a (b + i) ≡ raw (a + i)
  unfolding copy_word
  word-inside screen b a zero h =
      let e : raw a ≡ raw (a + 0) = ap raw (omega arith) in ground (arith, e)
  word-inside screen b a (suc zero) h = ground arith
  word-inside screen b a (suc (suc zero)) h = ground arith
  word-inside screen b a (suc (suc (suc zero))) h = ground arith
  word-inside screen b a (suc (suc (suc (suc i)))) h = absurd (omega arith)

  copy_words-outside :
      (screen : Bytes) (n b a x : ℕ)
      → (x < b) ⊎ (b + 4 * n ≤ x)
      → copy_words screen raw b a n x ≡ screen x
  unfolding copy_words
  copy_words-outside screen zero b a x h = refl
  copy_words-outside screen (suc n) b a x h =
      copy_words-outside (copy_word screen raw b a) n (b + 4) (a + 4) x (ground arith)
      ∙ word-outside screen b a x (ground arith)

  copy_words-inside :
      (screen : Bytes) (n b a i : ℕ) → i < 4 * n → copy_words screen raw b a n (b + i) ≡ raw (a + i)
  unfolding copy_words
  copy_words-inside screen zero b a i h = absurd (omega arith)
  copy_words-inside screen (suc n) b a i h = elim (Bool-cases (ltb i 4)) [
    | inl e ↦
        copy_words-outside (copy_word screen raw b a) n (b + 4) (a + 4) (b + i)
          (inl (omega (arith, ltb→lt i 4 e)))
        ∙ word-inside screen b a i (ltb→lt i 4 e)
    | inr e ↦
        let le : 4 ≤ i = ltb→le i 4 e in
        ap (copy_words (copy_word screen raw b a) raw (b + 4) (a + 4) n) {y = b + 4 + (i - 4)}
          (omega arith)
        ∙ copy_words-inside (copy_word screen raw b a) n (b + 4) (a + 4) (i - 4) (omega arith)
        ∙ ap raw (omega arith)
  ]

-- The address of a byte of a row of the screen.
abbrev pub spot : ℕ → ℕ → ℕ
spot y j = screen_base + 160 * y + j

module _ (st : Lines) where
  paint_rows-above :
      (n : ℕ) (screen : Bytes) (l y x : ℕ) → x < spot y 0 → paint_rows st screen l y n x ≡ screen x
  unfolding paint_rows
  paint_rows-above zero screen l y x h = refl
  paint_rows-above (suc n) screen l y x h =
      paint_rows-above n (copy_words screen (st.line l).raw (screen_base + 160 * y) 0 40)
        (st.line l).next (y + 1) x (omega arith)
      ∙ copy_words-outside (st.line l).raw screen 40 (screen_base + 160 * y) 0 x (inl (omega arith))

  paint_rows-row :
      (n k : ℕ) (screen : Bytes) (l y j : ℕ)
      → k < n
      → j < 160
      → paint_rows st screen l y n (spot (y + k) j) ≡ (st.line (row st l k)).raw j
  unfolding paint_rows row
  paint_rows-row zero k screen l y j h i = absurd (omega arith)
  paint_rows-row (suc n) zero screen l y j h i =
      ap (paint_rows st screen l y (suc n)) {y = spot y j} (omega arith)
      ∙ paint_rows-above n (copy_words screen (st.line l).raw (screen_base + 160 * y) 0 40)
          (st.line l).next (y + 1) (spot y j) (omega arith)
      ∙ copy_words-inside (st.line l).raw screen 40 (screen_base + 160 * y) 0 j (omega arith)
      ∙ ap (st.line l).raw (omega arith)
  paint_rows-row (suc n) (suc k) screen l y j h i =
      ap (paint_rows st screen l y (suc n)) {y = spot (y + 1 + k) j} (omega arith)
      ∙ paint_rows-row n k (copy_words screen (st.line l).raw (screen_base + 160 * y) 0 40)
          (st.line l).next (y + 1) j (omega arith) i

-- What `paint` shows in the row `k` of a pane is the line `k` of it.
pub paint-row :
    (st : Lines) (pane : Pane) (screen : Bytes) (k j : ℕ)
    → pane.y0 + k ≤ pane.y1
    → j < 160
    → paint st pane screen (spot (pane.y0 + k) j) ≡ (st.line (row st pane.top k)).raw j
unfolding paint
paint-row st pane screen k j h i =
    paint_rows-row st (pane.y1 + 1 - pane.y0) k screen pane.top pane.y0 j (omega arith) i
