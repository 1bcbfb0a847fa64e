-- ===== src/Console.antt =====
-- The lines of the console server, srv/console/console.c.
pub mod Rows
pub mod Paint
pub mod Text
pub mod Scroll
pub mod Shown
mod Tests
use jeffos.Base.{
  ℕ, zero, suc, ◌+◌, ◌-◌, ◌*◌, Option, none, some, Bool, ◌==◌, leb, ltb, ◌&&◌, if◌then◌else◌,
}
use jeffos.Strings.{Bytes, store}

-- A line: 80 characters, each with its attribute behind it, and the links.
pub record Line : Type 0 where
  pub raw : Bytes
  pub prev : ℕ
  pub next : ℕ

-- A pane: its lines from `top` to `bottom`, and its rows of the screen.
pub record Pane : Type 0 where
  pub top : ℕ
  pub bottom : ℕ
  pub height : ℕ
  pub y0 : ℕ
  pub y1 : ℕ

-- The line at each address, and the chain of unused lines.
pub record Lines : Type 0 where
  pub line : ℕ → Line
  pub nextline : ℕ

abbrev pub put : Lines → ℕ → Line → Lines
put st p v = record st { line = λ a. if a == p then v else st.line a }

abbrev pub with_next : Lines → ℕ → ℕ → Lines
with_next st p next = put st p (record (st.line p) { next = next })

abbrev pub with_prev : Lines → ℕ → ℕ → Lines
with_prev st p prev = put st p (record (st.line p) { prev = prev })

abbrev pub with_raw : Lines → ℕ → Bytes → Lines
with_raw st p raw = put st p (record (st.line p) { raw = raw })

-- Without an unused line the server ends.
unfoldable pub newline : Lines → ℕ → ℕ → Option (Lines × ℕ)
newline st next prev =
    let l = st.nextline in
    let st1 : Lines = record st { nextline = (st.line l).next } in
    if l == 0 then none else some (with_prev (with_next st1 l next) l prev, l)

unfoldable pub delline : Lines → ℕ → Lines
delline st l = let st1 : Lines = with_next st l st.nextline in record st1 { nextline = l }

-- A byte is a signed `char`: from 128 on it is below the blank.
abbrev pub printable : ℕ → Bool
printable c = leb 32 c && ltb c 128

-- The loop over the characters from the `i`th on, with `n` rounds left: the text stays at a byte
-- that is not printable.
unfoldable pub write_text : Bytes → Bytes → ℕ → ℕ → ℕ → Bytes
write_text text raw t i zero = raw
write_text text raw t i (suc n) =
    if printable (text t)
    then write_text text (store raw (2 * i) (text t)) (t + 1) (i + 1) n
    else write_text text (store raw (2 * i) 32) t (i + 1) n

-- The links that `addline` sets, in its order.
unfoldable pub rotate : Lines → Pane → Lines
rotate st pane =
    let l = pane.top in
    let st1 = with_prev st (st.line l).next 0 in
    let st2 = with_next st1 pane.bottom l in
    let st3 = with_prev st2 l pane.bottom in with_next st3 l 0

unfoldable pub addline : Lines → Pane → Bytes → ℕ → Lines × Pane
addline st pane text t =
    let l = pane.top in
    let st' = rotate st pane in
    (
      with_raw st' l (write_text text (st'.line l).raw t 0 80),
      record pane { top = (st.line l).next; bottom = l },
    )

-- Where the text screen is.
abbrev pub screen_base : ℕ
screen_base = 0xB8000

-- `*b++ = *a++` of an `int`: four bytes.
unfoldable pub copy_word : Bytes → Bytes → ℕ → ℕ → Bytes
copy_word screen raw b a =
    store (store (store (store screen b (raw a)) (b + 1) (raw (a + 1))) (b + 2) (raw (a + 2)))
      (b + 3) (raw (a + 3))

unfoldable pub copy_words : Bytes → Bytes → ℕ → ℕ → ℕ → Bytes
unfolding copy_word
copy_words screen raw b a zero = screen
copy_words screen raw b a (suc n) = copy_words (copy_word screen raw b a) raw (b + 4) (a + 4) n

-- The loop from the row `y` and the line `l` on, with `n` rounds left.
unfoldable pub paint_rows : Lines → Bytes → ℕ → ℕ → ℕ → Bytes
unfolding copy_words
paint_rows st screen l y zero = screen
paint_rows st screen l y (suc n) =
    paint_rows st (copy_words screen (st.line l).raw (screen_base + 160 * y) 0 40) (st.line l).next
      (y + 1) n

unfoldable pub paint : Lines → Pane → Bytes → Bytes
unfolding paint_rows
paint st pane screen = paint_rows st screen pane.top pane.y0 (pane.y1 + 1 - pane.y0)
