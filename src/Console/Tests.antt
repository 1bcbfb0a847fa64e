-- ===== src/Console/Tests.antt =====
-- A pane of two lines, at 10 and 20, on the rows 3 and 4, and the text "hi" at 100.
use jeffos.Base.{ℕ, zero, suc, ◌+◌, ◌≤◌, ◌<◌, ◌≡◌, refl, true, arith, ◌==◌, if◌then◌else◌}
use jeffos.Strings.{Bytes}
use jeffos.Console.{Pane, Lines, printable, addline}
use jeffos.Console.Rows.{row, IsPane}
use jeffos.Console.Text.{Starts}
use jeffos.Console.Shown.{Scrolled, addline-Scrolled}

abbrev text : Bytes
text a = if a == 100 then 104 else if a == 101 then 105 else 0

abbrev lines : Lines
lines = record {
  line = λ a.
      if a == 10
      then record { raw = λ i. 65; prev = 0; next = 20 }
      else record { raw = λ i. 66; prev = 10; next = 0 };
  nextline = 0;
}

abbrev pane : Pane
pane = record { top = 10; bottom = 20; height = 2; y0 = 3; y1 = 4 }

lines-IsPane : IsPane lines pane 1
unfolding row
lines-IsPane = record { last = refl; apart = apart }
  where
    apart : (i j : ℕ) → i ≤ 1 → j ≤ 1 → row lines 10 i ≡ row lines 10 j → i ≡ j
    apart zero zero p q e = refl
    apart zero (suc zero) p q e = absurd (omega arith)
    apart (suc zero) zero p q e = absurd (omega arith)
    apart (suc zero) (suc zero) p q e = refl
    apart zero (suc (suc j)) p q e = absurd (omega arith)
    apart (suc zero) (suc (suc j)) p q e = absurd (omega arith)
    apart (suc (suc i)) j p q e = absurd (omega arith)

text-Starts : Starts text 100 2
text-Starts = record { shown = shown; stop = refl }
  where
    shown : (i : ℕ) → i < 2 → printable (text (100 + i)) ≡ true
    shown zero h = refl
    shown (suc zero) h = refl
    shown (suc (suc i)) h = absurd (omega arith)

addline-Scrolled_example :
    Scrolled lines
      (addline lines pane text 100).0
      pane
      (addline lines pane text 100).1
      (λ a. 0)
      (λ a. 0)
      text
      100
      2
      1
addline-Scrolled_example =
    addline-Scrolled lines pane (λ a. 0) (λ a. 0) text 100 2 0 lines-IsPane refl text-Starts
