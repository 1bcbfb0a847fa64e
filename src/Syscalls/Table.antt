-- ===== src/Syscalls/Table.antt =====
-- Which handler a number reaches: `kinit_syscall` of kernel/kinit.c and `syscall22` of kernel/int.c.
use jeffos.Base.{
  ℕ, zero, suc, ◌+◌, ◌%◌, ◌≤◌, ◌<◌, ◌≡◌, refl, ◌∙◌, ap, true, false, inl, inr, Bool, not, ◌&&◌,
  Option, none, some, List, [], ◌∷◌, arith, ◌==◌, ltb, if◌then◌else◌, length, length-set,
  length-replicate, get_or, get_or-set, set, replicate, Bool-cases, ==_iff,
}
use jeffos.Status.{Outcome, ok, status_general_error}
use jeffos.Interrupts.{Board}
use jeffos.Syscalls.{
  Context, Regs, Reply, returned, Handler, no_handler, null_sys_call, registered, install, fill,
  kinit_syscall, handle, syscall22,
}

-- The handler that stands beside a number.
unfoldable pub handler_of : ℕ → List (ℕ × Handler) → Option Handler
handler_of n [] = none
handler_of n ((m, h) ∷ rest) = let later = handler_of n rest in if n == m then some h else later

or_else : Option Handler → Handler → Handler
or_else none d = d
or_else (some h) d = h

-- The numbers are below the table's size, and each stands there once.
in_range : List (ℕ × Handler) → ℕ → Bool
in_range [] size = true
in_range ((m, h) ∷ rest) size = ltb m size && in_range rest size

absent : ℕ → List (ℕ × Handler) → Bool
absent n [] = true
absent n ((m, h) ∷ rest) = not (n == m) && absent n rest

distinct : List (ℕ × Handler) → Bool
unfolding absent
distinct [] = true
distinct ((m, h) ∷ rest) = absent m rest && distinct rest

handler_of-absent : (n : ℕ) (ps : List (ℕ × Handler)) → absent n ps ≡ true → handler_of n ps ≡ none
unfolding handler_of absent
handler_of-absent n [] e = refl
handler_of-absent n ((m, h) ∷ rest) e =
    let other : (n == m) ≡ false = ground (arith, e) in
    rw other (handler_of-absent n rest (ground (arith, e)))

install-at :
    (ps : List (ℕ × Handler)) (table : List Handler) (n : ℕ) (d : Handler)
    → in_range ps (length table) ≡ true
    → distinct ps ≡ true
    → get_or (install ps table) n d ≡ or_else (handler_of n ps) (get_or table n d)
unfolding install handler_of in_range distinct or_else
install-at [] table n d e f = refl
install-at ((m, h) ∷ rest) table n d e f =
    let inside : ltb m (length table) ≡ true = ground (arith, e) in
    let later =
      install-at rest (set table m h) n d
        (ap (in_range rest) (length-set table m h) ∙ ground (arith, e)) (ground (arith, f)) in
    elim (Bool-cases (n == m)) [
      | inl z ↦
          let same : n ≡ m = (==_iff n m).0 z in
          let here : (m == n) ≡ true = ground arith in
          let gone : handler_of n rest ≡ none =
            handler_of-absent n rest (ap (λ x. absent x rest) same ∙ ground (arith, f)) in
          later ∙ rw (gone, z) (get_or-set table m n h d ∙ rw (here, inside) refl)
      | inr z ↦
          let other : (m == n) ≡ false = ground arith in
          later ∙ rw z (ap (or_else (handler_of n rest)) (get_or-set table m n h d ∙ rw other refl))
    ]

-- What the loop of `kinit_syscall` leaves.
length-fill : (k i : ℕ) (table : List Handler) → length (fill k i table) ≡ length table
unfolding fill
length-fill zero i table = refl
length-fill (suc k) i table =
    length-fill k (i + 1) (set table i null_sys_call) ∙ length-set table i null_sys_call

fill-before :
    (k i n : ℕ) (table : List Handler) (d : Handler)
    → n < i
    → get_or (fill k i table) n d ≡ get_or table n d
unfolding fill
fill-before zero i n table d h = refl
fill-before (suc k) i n table d h =
    let other : (i == n) ≡ false = ground arith in
    fill-before k (i + 1) n (set table i null_sys_call) d (omega arith)
    ∙ get_or-set table i n null_sys_call d
    ∙ rw other refl

fill-at :
    (k i n : ℕ) (table : List Handler) (d : Handler)
    → i ≤ n
    → n < i + k
    → n < length table
    → get_or (fill k i table) n d ≡ null_sys_call
unfolding fill
fill-at zero i n table d a b c = absurd (omega arith)
fill-at (suc k) i n table d a b c = elim (Bool-cases (i == n)) [
  | inl e ↦
      let inside : ltb i (length table) ≡ true = ground arith in
      fill-before k (i + 1) n (set table i null_sys_call) d (ground arith)
      ∙ get_or-set table i n null_sys_call d
      ∙ rw (e, inside) refl
  | inr e ↦
      fill-at k (i + 1) n (set table i null_sys_call) d (ground arith) (omega arith)
        (rw (length-set table i null_sys_call) c)
]

-- The table before the handlers are put in.
cleared : List Handler
cleared = fill 256 0 (replicate 256 no_handler)

length-cleared : length cleared ≡ 256
unfolding cleared
length-cleared = length-fill 256 0 (replicate 256 no_handler) ∙ length-replicate 256 no_handler

cleared-at : (n : ℕ) → n < 256 → get_or cleared n no_handler ≡ null_sys_call
unfolding cleared
cleared-at n h =
    fill-at 256 0 n (replicate 256 no_handler) no_handler (omega arith) (omega arith)
      (omega (arith, length-replicate 256 no_handler))

-- With a handler the call is the handler's; without one it is the error.
unfoldable pub answer : Option Handler → Context → Board → Regs → Outcome Reply
answer none c b r = ok (returned b status_general_error)
answer (some h) c b r = handle h c b r

or_else-answer :
    (o : Option Handler) (c : Context) (b : Board) (r : Regs)
    → handle (or_else o null_sys_call) c b r ≡ answer o c b r
unfolding handle or_else answer
or_else-answer none c b r = refl
or_else-answer (some h) c b r = refl

registered-in_range : in_range registered (length cleared) ≡ true
unfolding in_range
registered-in_range = rw length-cleared refl

-- With the table that `kinit_syscall` fills, a call does what the handler beside its number does.
pub syscall22-answer :
    (c : Context) (b : Board) (r : Regs)
    → syscall22 kinit_syscall c b r ≡ answer (handler_of (r.eax % 256) registered) c b r
unfolding syscall22 kinit_syscall distinct absent cleared
syscall22-answer c b r =
    let n = r.eax % 256 in
    ap (λ h. handle h c b r)
      (install-at registered cleared n no_handler registered-in_range refl
        ∙ ap (or_else (handler_of n registered)) (cleared-at n (omega arith)))
    ∙ or_else-answer (handler_of n registered) c b r
