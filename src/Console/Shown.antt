-- ===== src/Console/Shown.antt =====
-- What `paint` shows behind `addline`, srv/console/console.c.
use jeffos.Base.{ℕ, suc, ◌+◌, ◌*◌, ◌≤◌, ◌<◌, ◌≡◌, sym, ◌∙◌, ap, arith}
use jeffos.Strings.{Bytes}
use jeffos.Console.{Pane, Lines, addline, paint}
use jeffos.Console.Rows.{row, IsPane}
use jeffos.Console.Paint.{spot, paint-row}
use jeffos.Console.Text.{Starts, Written, write_text-Written}
use jeffos.Console.Scroll.{
  addline-IsPane, addline-raw, addline-text, row-moved, row-turned, below-ne, written, st', pane',
}

-- The rows of the pane have moved up by one; the last one shows the `m` characters of the text and
-- then blanks, in the colours of the row that was the first.
pub record Scrolled (st st' : Lines) (pane pane' : Pane) (screen screen' : Bytes) (text : Bytes)
    (t m h : ℕ) : Type 0 where
  pub pane_kept : IsPane st' pane' h
  pub moved :
      (k j : ℕ)
      → k < h
      → j < 160
      → paint st' pane' screen' (spot (pane.y0 + k) j)
        ≡ paint st pane screen (spot (pane.y0 + suc k) j)
  pub characters :
      (i : ℕ) → i < 80 → i < m → paint st' pane' screen' (spot (pane.y0 + h) (2 * i)) ≡ text (t + i)
  pub blanks : (i : ℕ) → i < 80 → m ≤ i → paint st' pane' screen' (spot (pane.y0 + h) (2 * i)) ≡ 32
  pub colours :
      (i : ℕ)
      → i < 80
      → paint st' pane' screen' (spot (pane.y0 + h) (2 * i + 1))
        ≡ paint st pane screen (spot (pane.y0 + 0) (2 * i + 1))

module _ (st : Lines) (pane : Pane) (screen' text : Bytes) (t m h : ℕ) (v : IsPane st pane (suc h))
    (rows : pane.y0 + suc h ≡ pane.y1) (starts : Starts text t m) where
  w : Written text (st.line pane.top).raw (written st pane text t) t m 0 80
  w = write_text-Written text 80 m t 0 (st.line pane.top).raw starts

  front' : (i : ℕ) → i < 80 → i < m → written st pane text t (2 * i) ≡ text (t + i)
  front' i p q = ap (written st pane text t) (omega arith) ∙ w.front i p q

  rest' : (i : ℕ) → i < 80 → m ≤ i → written st pane text t (2 * i) ≡ 32
  rest' i p q = ap (written st pane text t) (omega arith) ∙ w.rest i p q

  shown :
      (k j : ℕ)
      → k ≤ suc h
      → j < 160
      → paint (st' st pane text t) (pane' st pane text t) screen' (spot (pane.y0 + k) j)
        ≡ ((st' st pane text t).line (row (st' st pane text t) (pane' st pane text t).top k)).raw j
  unfolding addline
  shown k j p q = paint-row (st' st pane text t) (pane' st pane text t) screen' k j (omega arith) q

  last :
      (j : ℕ)
      → j < 160
      → paint (st' st pane text t) (pane' st pane text t) screen' (spot (pane.y0 + suc h) j)
        ≡ written st pane text t j
  last j p =
      shown (suc h) j (omega arith) p
      ∙ ap (λ a. ((st' st pane text t).line a).raw j) (row-turned st pane text t h v)
      ∙ ap (λ raw. raw j) (addline-text st pane text t)

-- `addline` of a text that is printable up to a byte that is not, in a pane of at least two lines
-- that fill its rows: painted again, each row shows what the next one showed, and the last row the
-- first 80 characters of the text, filled up with blanks, in the colours of the first row; and the
-- pane's lines are again chained from its top to its bottom, no two of them the same.
pub addline-Scrolled :
    (st : Lines) (pane : Pane) (screen screen' text : Bytes) (t m h : ℕ)
    → IsPane st pane (suc h)
    → pane.y0 + suc h ≡ pane.y1
    → Starts text t m
    → Scrolled st
        (addline st pane text t).0
        pane
        (addline st pane text t).1
        screen
        screen'
        text
        t
        m
        (suc h)
unfolding addline row
addline-Scrolled st pane screen screen' text t m h v rows starts = record {
  pane_kept = addline-IsPane st pane text t h v;
  moved = λ k j p q.
      shown st pane screen' text t m h v rows starts k j (omega arith) q
      ∙ ap (λ a. ((st' st pane text t).line a).raw j)
          (row-moved st pane text t (suc h) v (omega arith) k p)
      ∙ ap (λ raw. raw j)
          (addline-raw st pane text t _
            (below-ne st pane text t (suc h) v (omega arith) (suc k) (omega arith) (omega arith)))
      ∙ sym (paint-row st pane screen (suc k) j (omega arith) q);
  characters = λ i p q.
      last st pane screen' text t m h v rows starts (2 * i) (omega arith)
      ∙ front' st pane screen' text t m h v rows starts i p q;
  blanks = λ i p q.
      last st pane screen' text t m h v rows starts (2 * i) (omega arith)
      ∙ rest' st pane screen' text t m h v rows starts i p q;
  colours = λ i p.
      last st pane screen' text t m h v rows starts (2 * i + 1) (omega arith)
      ∙ (w st pane screen' text t m h v rows starts).others (2 * i + 1) (λ j q. omega arith)
      ∙ sym (paint-row st pane screen 0 (2 * i + 1) (omega arith) (omega arith));
}
