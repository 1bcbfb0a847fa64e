-- ===== src/Format.antt =====
-- Formatted output into a buffer, lib/snprintf.c.
pub mod Bounds
mod Tests
use jeffos.Base.{
  ℕ, zero, suc, ◌+◌, ◌-◌, ◌*◌, ◌/◌, ◌%◌, ◌^◌, List, [], ◌∷◌, ◌++◌, not, ◌&&◌, ◌||◌, ◌==◌, ltb,
  positive, if◌then◌else◌, length,
}
use jeffos.Status.{Outcome, ok, ◌>>=◌}

-- The memory, `b`, `l`, `fmt`, and the arguments that are left as words; a missing one is read as 0.
pub record Out : Type 0 where
  pub memory : ℕ → ℕ
  pub b : ℕ
  pub l : ℕ
  pub fmt : ℕ
  pub args : List ℕ

abbrev pub write : (ℕ → ℕ) → ℕ → ℕ → ℕ → ℕ
write memory p c a = if a == p then c else memory a

-- `*b++ = c;`
abbrev pub put_byte : Out → ℕ → Out
put_byte o c = record o { memory = write o.memory o.b c; b = o.b + 1 }

abbrev pub arg_of : List ℕ → ℕ
arg_of [] = 0
arg_of (a ∷ as_left) = a

abbrev pub args_left : List ℕ → List ℕ
args_left [] = []
args_left (a ∷ as_left) = as_left

-- `va_arg`
abbrev pub next_arg : Out → Out
next_arg o = record o { args = args_left o.args }

-- `while(l && *t) *b++ = *t++, l--;`
unfoldable pub put_string : ℕ → (ℕ → ℕ) → ℕ → ℕ → (ℕ → ℕ) × ℕ × ℕ
put_string zero memory b t = (memory, b, 0)
put_string (suc l) memory b t =
    let rest = put_string l (write memory b (memory t)) (b + 1) (t + 1) in
    if memory t == 0 then (memory, b, l + 1) else rest

-- `hexmap`
abbrev pub hex_digit : ℕ → ℕ
hex_digit d = if ltb d 10 then 48 + d else 87 + d

-- `b[i] = hexmap[u & 0x0F]; u >>= 4;` for `i` from the one below the argument down.
unfoldable pub put_hex : ℕ → (ℕ → ℕ) → ℕ → ℕ → ℕ → ℕ
put_hex zero memory b u = memory
put_hex (suc i) memory b u = put_hex i (write memory (b + i) (hex_digit (u % 16))) b (u / 16)

-- What the loop at `u2` leaves in `d` from `d[i + 1]` on, before what is there already.
unfoldable pub decimal : ℕ → ℕ → List ℕ → List ℕ
decimal zero u d = d
decimal (suc i) u d =
    let d' = (u % 10 + 48) ∷ d in
    let rest = decimal i (u / 10) d' in if u / 10 == 0 then d' else rest

-- `*b++ = d[i]; if(!(--l)) break;` for the rest of `d`.
unfoldable pub put_digits : List ℕ → (ℕ → ℕ) → ℕ → ℕ → (ℕ → ℕ) × ℕ × ℕ
put_digits [] memory b l = (memory, b, l)
put_digits (c ∷ cs) memory b l =
    let rest = put_digits cs (write memory b c) (b + 1) (l - 1) in
    if l - 1 == 0 then (write memory b c, b + 1, 0) else rest

abbrev pub with_output : Out → (ℕ → ℕ) × ℕ × ℕ → Out
with_output o r = record o { memory = r.0; b = r.1; l = r.2 }

abbrev pub put_list : Out → List ℕ → Out
put_list o d = with_output o (put_digits d o.memory o.b o.l)

-- From `u2` on.
abbrev pub put_unsigned : Out → ℕ → Out
put_unsigned o u = put_list o (decimal 10 u [])

unfoldable pub put_signed : Out → ℕ → Out
unfolding decimal put_digits
put_signed o n =
    let signed = put_byte o 45 in
    let shorter = record signed { l = signed.l - 1 } in
    if ltb n (2 ^ 31)
    then put_unsigned o n
    else if signed.l - 1 == 0
    then shorter
    else put_unsigned shorter (2 ^ 32 - n)

-- `d[6]` to `d[9]`, where the three before the last one were blanks.
unfoldable pub last_four : ℕ → List ℕ → List ℕ
last_four zero d = d
last_four (suc n) [] = []
last_four (suc n) (c ∷ cs) = last_four n cs

abbrev pub four_digits : ℕ → List ℕ
four_digits u = let d = 32 ∷ 32 ∷ 32 ∷ decimal 10 u [] in last_four (length d - 4) d

-- The `switch` of `va_snprintf` at the byte behind the percent sign.
unfoldable pub directive : Out → Out
unfolding put_string put_hex decimal put_digits put_signed last_four
directive o =
    let c = o.memory o.fmt in
    let n = arg_of o.args in
    let o' = next_arg o in
    if c == 115
    then with_output o' (put_string o.l o.memory o.b n)
    else if c == 99
    then (let p = put_byte (record o' { fmt = o.fmt + 1 }) (n % 256) in record p { l = p.l - 1 })
    else if c == 120
    then if ltb o.l 8
      then record o { l = 0 }
      else record o' { memory = put_hex 8 o.memory o.b n; b = o.b + 8; l = o.l - 8 }
    else if c == 100
    then put_signed o' n
    else if c == 117
    then put_unsigned o' n
    else if c == 85
    then put_list o' (four_digits n)
    else if c == 88
    then if ltb o.l 2
      then record o { l = 0 }
      else (let p = put_byte (put_byte o' (hex_digit (n / 16 % 16))) (hex_digit (n % 16)) in
          record p { l = p.l - 2 })
    else put_byte o c

-- The loop of `va_snprintf`, up to the byte 0 at the end.
unfoldable pub format_loop : ℕ → Out → Outcome Out
unfolding directive
format_loop zero o = Outcome.out_of_fuel
format_loop (suc fuel) o =
    let c = o.memory o.fmt in
    let o₁ = record o { fmt = o.fmt + 1; l = o.l - 1 } in
    let o₂ = directive o₁ in
    let plain = put_byte o c in
    let next =
      if c == 37
      then record o₂ { fmt = o₂.fmt + 1 }
      else record plain { l = o.l - 1; fmt = o.fmt + 1 } in
    let rest = format_loop fuel next in
    if (o.l == 0) || (c == 0) then ok o else if (c == 37) && (o.l - 1 == 0) then ok o₁ else rest

-- `l` is a signed word; the memory is what is left.
unfoldable pub va_snprintf : ℕ → (ℕ → ℕ) → ℕ → ℕ → ℕ → List ℕ → Outcome (ℕ → ℕ)
unfolding format_loop
va_snprintf fuel memory b l fmt args =
    let ran = (do
      o ← format_loop fuel (record { memory = memory; b = b; l = l; fmt = fmt; args = args })
      ok (write o.memory o.b 0)) in
    if (fmt == 0) || (b == 0) || not (positive l) then ok memory else ran
