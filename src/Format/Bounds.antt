-- ===== src/Format/Bounds.antt =====
-- Where lib/snprintf.c writes, and that it ends.
use jeffos.Base.{
  ℕ, zero, suc, ◌+◌, ◌-◌, ◌/◌, ◌%◌, ◌^◌, ◌<◌, ◌≤◌, ◌≡◌, ◌≢◌, ◌⊎◌, refl, ◌∙◌, false, inl, inr, List,
  [], ◌∷◌, arith, ◌||◌, ◌==◌, ltb, not, positive, Bool-cases, ==_refl,
}
use mathlib.Core.Path.{subst}
use jeffos.Status.{Outcome, ok}
use jeffos.Format.{
  Out, write, put_byte, arg_of, next_arg, put_string, hex_digit, put_hex, decimal, put_digits,
  put_signed, four_digits, directive, format_loop, va_snprintf,
}

-- From the buffer's place `b` with room `l`, to place `b'` with room `l'`: nothing is written outside
-- the room, and what is left of it is no more than what is behind the new place.
pub record Kept (memory : ℕ → ℕ) (b l : ℕ) (memory' : ℕ → ℕ) (b' l' : ℕ) : Type 0 where
  pub forward : b ≤ b'
  pub room : b' + l' ≤ b + l
  pub before : (a : ℕ) → a < b → memory' a ≡ memory a
  pub behind : (a : ℕ) → b + l ≤ a → memory' a ≡ memory a

Kept-same : (memory : ℕ → ℕ) (b l l' : ℕ) → l' ≤ l → Kept memory b l memory b l'
Kept-same memory b l l' low = record {
  forward = omega arith;
  room = omega arith;
  before = λ a h. refl;
  behind = λ a h. refl;
}

-- A byte within the room, and then the rest.
Kept-byte :
    (memory : ℕ → ℕ) (b l c l₁ : ℕ) (memory' : ℕ → ℕ) (b' l' : ℕ)
    → l₁ + 1 ≤ l
    → Kept (write memory b c) (b + 1) l₁ memory' b' l'
    → Kept memory b l memory' b' l'
Kept-byte memory b l c l₁ memory' b' l' some_room k = record {
  forward = omega (arith, k.forward);
  room = omega (arith, k.room);
  before = λ a h.
      let other : (a == b) ≡ false = ground arith in k.before a (omega arith) ∙ rw other refl;
  behind = λ a h.
      let other : (a == b) ≡ false = ground arith in k.behind a (omega arith) ∙ rw other refl;
}

Kept-after :
    (memory : ℕ → ℕ) (b l : ℕ) (memory₁ : ℕ → ℕ) (b₁ l₁ : ℕ) (memory₂ : ℕ → ℕ) (b₂ l₂ : ℕ)
    → Kept memory b l memory₁ b₁ l₁
    → Kept memory₁ b₁ l₁ memory₂ b₂ l₂
    → Kept memory b l memory₂ b₂ l₂
Kept-after memory b l memory₁ b₁ l₁ memory₂ b₂ l₂ k j = record {
  forward = omega (arith, k.forward, j.forward);
  room = omega (arith, k.room, j.room);
  before = λ a h. j.before a (omega (arith, k.forward)) ∙ k.before a h;
  behind = λ a h. j.behind a (omega (arith, k.room)) ∙ k.behind a h;
}

abbrev KeptBy : (ℕ → ℕ) → ℕ → ℕ → (ℕ → ℕ) × ℕ × ℕ → Type 0
KeptBy memory b l r = Kept memory b l r.0 r.1 r.2

put_string-Kept : (l : ℕ) (memory : ℕ → ℕ) (b t : ℕ) → KeptBy memory b l (put_string l memory b t)
unfolding put_string
put_string-Kept zero memory b t = Kept-same memory b 0 0 (omega arith)
put_string-Kept (suc l) memory b t = elim (Bool-cases (memory t == 0)) [
  | inl e ↦ rw e (Kept-same memory b (suc l) (l + 1) (omega arith))
  | inr e ↦
      let r = put_string l (write memory b (memory t)) (b + 1) (t + 1) in
      rw e (
        Kept-byte memory b (suc l) (memory t) l r.0 r.1 r.2 (omega arith)
          (put_string-Kept l (write memory b (memory t)) (b + 1) (t + 1)))
]

put_digits-Kept :
    (d : List ℕ) (memory : ℕ → ℕ) (b l : ℕ) → 0 < l → KeptBy memory b l (put_digits d memory b l)
unfolding put_digits
put_digits-Kept [] memory b l some_room = Kept-same memory b l l (omega arith)
put_digits-Kept (c ∷ cs) memory b l some_room = elim (Bool-cases (l - 1 == 0)) [
  | inl e ↦ rw e (
      Kept-byte memory b l c (l - 1) (write memory b c) (b + 1) 0 (omega arith)
        (Kept-same (write memory b c) (b + 1) (l - 1) 0 (omega arith)))
  | inr e ↦
      let r = put_digits cs (write memory b c) (b + 1) (l - 1) in
      rw e (
        Kept-byte memory b l c (l - 1) r.0 r.1 r.2 (omega arith)
          (put_digits-Kept cs (write memory b c) (b + 1) (l - 1) (ground arith)))
]

put_hex-same :
    (i : ℕ) (memory : ℕ → ℕ) (b u a : ℕ) → (a < b) ⊎ (b + i ≤ a) → put_hex i memory b u a ≡ memory a
unfolding put_hex
put_hex-same zero memory b u a out = refl
put_hex-same (suc i) memory b u a out =
    let other : (a == b + i) ≡ false = ground (arith, out) in
    put_hex-same i (write memory (b + i) (hex_digit (u % 16))) b (u / 16) a (ground (arith, out))
    ∙ rw other refl

-- What a directive leaves: the percent sign has its place in the room too.
record Directed (o o' : Out) : Type 0 where
  kept : Kept o.memory o.b (o.l + 1) o'.memory o'.b o'.l
  fewer : o'.l ≤ o.l

within_room : (o o' : Out) → Kept o.memory o.b o.l o'.memory o'.b o'.l → Directed o o'
within_room o o' k = record {
  kept = record {
    forward = k.forward;
    room = omega (arith, k.room);
    before = k.before;
    behind = λ a h. k.behind a (omega arith);
  };
  fewer = omega (arith, k.room, k.forward);
}

Kept-two :
    (memory : ℕ → ℕ) (b l c d : ℕ)
    → 2 ≤ l
    → Kept memory b l (write (write memory b c) (b + 1) d) (b + 1 + 1) (l - 2)
Kept-two memory b l c d two =
    Kept-byte memory b l c (l - 1) (write (write memory b c) (b + 1) d) (b + 1 + 1) (l - 2)
      (omega arith)
      (Kept-byte (write memory b c) (b + 1) (l - 1) d (l - 2) (write (write memory b c) (b + 1) d)
        (b + 1 + 1) (l - 2) (omega arith)
        (Kept-same (write (write memory b c) (b + 1) d) (b + 1 + 1) (l - 2) (l - 2) (omega arith)))

Kept-one : (memory : ℕ → ℕ) (b l c : ℕ) → 0 < l → Kept memory b l (write memory b c) (b + 1) (l - 1)
Kept-one memory b l c some_room =
    Kept-byte memory b l c (l - 1) (write memory b c) (b + 1) (l - 1) (omega arith)
      (Kept-same (write memory b c) (b + 1) (l - 1) (l - 1) (omega arith))

signed-Kept :
    (o : Out) (n : ℕ)
    → 0 < o.l
    → let o' = put_signed o n in Kept o.memory o.b o.l o'.memory o'.b o'.l
unfolding put_signed
signed-Kept o n some_room = elim (Bool-cases (ltb n (2 ^ 31))) [
  | inl e ↦ rw e (put_digits-Kept (decimal 10 n []) o.memory o.b o.l some_room)
  | inr e ↦ elim (Bool-cases (o.l - 1 == 0)) [
    | inl z ↦ rw (e, z) (Kept-one o.memory o.b o.l 45 some_room)
    | inr z ↦
        let d = decimal 10 (2 ^ 32 - n) [] in
        let r = put_digits d (write o.memory o.b 45) (o.b + 1) (o.l - 1) in
        rw (e, z)
          (Kept-byte o.memory o.b o.l 45 (o.l - 1) r.0 r.1 r.2 (omega arith)
            (put_digits-Kept d (write o.memory o.b 45) (o.b + 1) (o.l - 1) (ground arith)))
  ]
]

module _ (o : Out) (some_room : 0 < o.l) where
  cut_short : Directed o (record o { l = 0 })
  cut_short = within_room o (record o { l = 0 }) (Kept-same o.memory o.b o.l 0 (omega arith))

  directive-Directed : Directed o (directive o)
  unfolding directive
  directive-Directed =
      let c = o.memory o.fmt in
      let n = arg_of o.args in
      elim (Bool-cases (c == 115)) [
        | inl e₁ ↦ rw e₁ (within_room o _ (put_string-Kept o.l o.memory o.b n))
        | inr e₁ ↦ elim (Bool-cases (c == 99)) [
          | inl e₂ ↦ rw (e₁, e₂) (within_room o _ (Kept-one o.memory o.b o.l (n % 256) some_room))
          | inr e₂ ↦ elim (Bool-cases (c == 120)) [
            | inl e₃ ↦ elim (Bool-cases (ltb o.l 8)) [
              | inl e₄ ↦ rw (e₁, e₂, e₃, e₄) cut_short
              | inr e₄ ↦
                  rw (e₁, e₂, e₃, e₄)
                    (within_room o _ (record {
                      forward = omega arith;
                      room = ground arith;
                      before = λ a h. put_hex-same 8 o.memory o.b n a (inl h);
                      behind = λ a h. put_hex-same 8 o.memory o.b n a (inr (ground arith));
                    }))
            ]
            | inr e₃ ↦ elim (Bool-cases (c == 100)) [
              | inl e₄ ↦
                  rw (e₁, e₂, e₃, e₄) (within_room o _ (signed-Kept (next_arg o) n some_room))
              | inr e₄ ↦ elim (Bool-cases (c == 117)) [
                | inl e₅ ↦
                    rw (e₁, e₂, e₃, e₄, e₅)
                      (within_room o _
                        (put_digits-Kept (decimal 10 n []) o.memory o.b o.l some_room))
                | inr e₅ ↦ elim (Bool-cases (c == 85)) [
                  | inl e₆ ↦
                      rw (e₁, e₂, e₃, e₄, e₅, e₆)
                        (within_room o _
                          (put_digits-Kept (four_digits n) o.memory o.b o.l some_room))
                  | inr e₆ ↦ elim (Bool-cases (c == 88)) [
                    | inl e₇ ↦ elim (Bool-cases (ltb o.l 2)) [
                      | inl e₈ ↦ rw (e₁, e₂, e₃, e₄, e₅, e₆, e₇, e₈) cut_short
                      | inr e₈ ↦
                          rw (e₁, e₂, e₃, e₄, e₅, e₆, e₇, e₈)
                            (within_room o _ (
                              Kept-two o.memory o.b o.l (hex_digit (n / 16 % 16))
                                (hex_digit (n % 16)) (ground arith)))
                    ]
                    | inr e₇ ↦
                        rw (e₁, e₂, e₃, e₄, e₅, e₆, e₇)
                          (record {
                            kept =
                                Kept-byte o.memory o.b (o.l + 1) c o.l (write o.memory o.b c)
                                  (o.b + 1) o.l (omega arith)
                                  (Kept-same (write o.memory o.b c) (o.b + 1) o.l o.l
                                    (omega arith));
                            fewer = omega arith;
                          })
                  ]
                ]
              ]
            ]
          ]
        ]
      ]

abbrev Ran : Out → Outcome Out → Type 0
Ran o r = (o' : Out) × (r ≡ ok o') × Kept o.memory o.b o.l o'.memory o'.b o'.l

-- A round, and then the rest of the loop.
goes_on :
    (o next : Out) (r : Outcome Out)
    → Kept o.memory o.b o.l next.memory next.b next.l
    → Ran next r
    → Ran o r
goes_on o next r k (o', e, j) =
    (o', e, Kept-after o.memory o.b o.l next.memory next.b next.l o'.memory o'.b o'.l k j)

format_loop-Ran : (fuel : ℕ) (o : Out) → o.l < fuel → Ran o (format_loop fuel o)
unfolding format_loop
format_loop-Ran zero o enough = absurd (omega arith)
format_loop-Ran (suc fuel) o enough =
    let c = o.memory o.fmt in
    let o₁ : Out = record o { fmt = o.fmt + 1; l = o.l - 1 } in
    elim (Bool-cases ((o.l == 0) || (c == 0))) [
      | inl a ↦ rw a (o, refl, Kept-same o.memory o.b o.l o.l (omega arith))
      | inr a ↦
          let some_room : 0 < o.l = ground arith in
          let full : o.l - 1 + 1 ≡ o.l = omega arith in
          elim (Bool-cases (c == 37)) [
            | inl d ↦ elim (Bool-cases (o.l - 1 == 0)) [
              | inl e ↦ rw (a, d, e) (o₁, refl, Kept-same o.memory o.b o.l (o.l - 1) (omega arith))
              | inr e ↦
                  let w = directive-Directed o₁ (ground arith) in
                  let o₂ = directive o₁ in
                  let next : Out = record o₂ { fmt = o₂.fmt + 1 } in
                  rw (a, d, e)
                    (goes_on o next (format_loop fuel next)
                      (subst (λ l. Kept o.memory o.b l o₂.memory o₂.b o₂.l) full w.kept)
                      (format_loop-Ran fuel next (omega (arith, w.fewer))))
            ]
            | inr d ↦
                let next : Out = record (put_byte o c) { l = o.l - 1; fmt = o.fmt + 1 } in
                rw (a, d)
                  (goes_on o next (format_loop fuel next) (Kept-one o.memory o.b o.l c some_room)
                    (format_loop-Ran fuel next (omega arith)))
          ]
    ]

-- `va_snprintf` with a format, a buffer and a positive size `l`, on fuel above the size: whatever the
-- format and its arguments are, the call ends, a byte 0 stands between the buffer's start and `l`
-- bytes behind it, and nothing before the buffer and nothing more than `l` bytes behind its start has
-- changed. The byte 0 can be the one behind the buffer.
pub va_snprintf-bounds :
    (fuel : ℕ) (memory : ℕ → ℕ) (b l fmt : ℕ) (args : List ℕ)
    → l < fuel
    → 0 < l
    → l < 2 ^ 31
    → fmt ≢ 0
    → b ≢ 0
    → (memory' : ℕ → ℕ) × (va_snprintf fuel memory b l fmt args ≡ ok memory')
      × (e : ℕ) × (b ≤ e)
      × (e ≤ b + l)
      × (memory' e ≡ 0)
      × ((a : ℕ) → a < b → memory' a ≡ memory a)
      × ((a : ℕ) → b + l < a → memory' a ≡ memory a)
unfolding va_snprintf
va_snprintf-bounds fuel memory b l fmt args enough some_room signed some_format some_buffer =
    let start : Out = record { memory = memory; b = b; l = l; fmt = fmt; args = args } in
    let (o, ran, k) = format_loop-Ran fuel start enough in
    let good : ((fmt == 0) || (b == 0) || not (positive l)) ≡ false = ground arith in
    (
      write o.memory o.b 0,
      rw (good, ran) refl,
      o.b,
      k.forward,
      omega (arith, k.room),
      rw (==_refl o.b) refl,
      λ a h. let other : (a == o.b) ≡ false = ground (arith, k.forward) in rw other (k.before a h),
      λ a h.
          let other : (a == o.b) ≡ false = ground (arith, k.room) in
          rw other (k.behind a (omega arith)),
    )
