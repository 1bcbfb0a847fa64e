-- ===== src/Strings/Copy.antt =====
-- The routines of lib/string.c that write: what each address holds afterwards.
use jeffos.Base.{
  ℕ, zero, suc, ◌+◌, ◌-◌, ◌%◌, ◌≤◌, ◌<◌, ◌≡◌, refl, sym, ◌∙◌, ap, fun_ext, inl, inr, ◌⊎◌, Bool,
  true, false, ◌&&◌, arith, ◌==◌, ltb, leb, if◌then◌else◌, Bool-cases, ==_iff,
}
use jeffos.Strings.{Bytes, store, memset, move_up, move_down, memmove, memcpy}

-- The `n` bytes at `d` are those that were at `s`, and the others are as they were.
abbrev pub Copied : Bytes → Bytes → ℕ → ℕ → ℕ → Type 0
Copied mem mem' d s n =
    (a : ℕ) → mem' a ≡ (if leb d a && ltb a (d + n) then mem (s + (a - d)) else mem a)

-- The destination starts below the source or behind it.
abbrev pub Apart : ℕ → ℕ → ℕ → Type 0
Apart d s n = (d ≤ s) ⊎ (s + n ≤ d)

-- Whether `a` is one of the `n` addresses from `d` on.
abbrev within : ℕ → ℕ → ℕ → Bool
within d n a = leb d a && ltb a (d + n)

within_lt : (d n a : ℕ) → within d n a ≡ true → (d ≤ a) × (a < d + n)
within_lt d n a h = (ground arith, ground arith)

within-suc : (d n a : ℕ) → (a == d) ≡ false → within d (suc n) a ≡ within (d + 1) n a
within-suc d n a h = ground arith

source-ne :
    (d s n a : ℕ) → Apart d s (suc n) → d + 1 ≤ a → a < d + 1 + n → (s + (a - d) == d) ≡ false
source-ne d s n a apart p q = elim apart [ inl low ↦ ground arith | inr high ↦ ground arith ]

pub Copied-first :
    (mem mem' : Bytes) (d s n : ℕ)
    → Apart d s (suc n)
    → Copied (store mem d (mem s)) mem' (d + 1) (s + 1) n
    → Copied mem mem' d s (suc n)
Copied-first mem mem' d s n apart c a = elim (Bool-cases (a == d)) [
  | inl e ↦
      let here : a ≡ d = (==_iff a d).0 e in
      let start : s + (a - d) ≡ s = omega arith in
      let first : mem (s + (a - d)) ≡ mem s = ap mem start in c a ∙ ground arith
  | inr e ↦ c a ∙ elim (Bool-cases (within (d + 1) n a)) [
    | inl h ↦
        let (p, q) = within_lt (d + 1) n a h in
        let at : s + 1 + (a - (d + 1)) ≡ s + (a - d) = omega arith in
        rw (within-suc d n a e, h, at, source-ne d s n a apart p q) refl
    | inr h ↦ rw (within-suc d n a e, h, e) refl
  ]
]

pub Apart-next : (d s n : ℕ) → Apart d s (suc n) → Apart (d + 1) (s + 1) n
Apart-next d s n apart = elim apart [ inl low ↦ inl (omega arith) | inr high ↦ inr (omega arith) ]

move_up-Copied :
    (n : ℕ) (mem : Bytes) (d s : ℕ) → Apart d s n → Copied mem (move_up mem d s n) d s n
unfolding move_up
move_up-Copied zero mem d s apart = λ a. ground arith
move_up-Copied (suc n) mem d s apart =
    Copied-first mem _ d s n apart
      (move_up-Copied n (store mem d (mem s)) (d + 1) (s + 1) (Apart-next d s n apart))

-- `memcpy` copies the bytes when the destination does not start inside the source, above its start.
pub memcpy-Copied :
    (n : ℕ) (mem : Bytes) (d s : ℕ) → Apart d s n → Copied mem (memcpy mem d s n) d s n
unfolding memcpy
memcpy-Copied zero mem d s apart = λ a. ground arith
memcpy-Copied (suc n) mem d s apart =
    Copied-first mem _ d s n apart
      (memcpy-Copied n (store mem d (mem s)) (d + 1) (s + 1) (Apart-next d s n apart))

within-last : (d n a : ℕ) → (a == d + n) ≡ false → within d (suc n) a ≡ within d n a
within-last d n a h = ground arith

Copied-last :
    (mem mem' : Bytes) (d s n : ℕ)
    → s ≤ d
    → Copied (store mem (d + n) (mem (s + n))) mem' d s n
    → Copied mem mem' d s (suc n)
Copied-last mem mem' d s n above c a = elim (Bool-cases (a == d + n)) [
  | inl e ↦
      let here : a ≡ d + n = (==_iff a (d + n)).0 e in
      let end : s + (a - d) ≡ s + n = omega arith in
      let last : mem (s + (a - d)) ≡ mem (s + n) = ap mem end in c a ∙ ground arith
  | inr e ↦ c a ∙ elim (Bool-cases (within d n a)) [
    | inl h ↦
        let (p, q) = within_lt d n a h in
        let other : (s + (a - d) == d + n) ≡ false = ground arith in
        rw (within-last d n a e, h, other) refl
    | inr h ↦ rw (within-last d n a e, h, e) refl
  ]
]

move_down-Copied :
    (n : ℕ) (mem : Bytes) (d s : ℕ) → s ≤ d → Copied mem (move_down mem (d + n) (s + n) n) d s n
unfolding move_down
move_down-Copied zero mem d s above = λ a. ground arith
move_down-Copied (suc n) mem d s above =
    let e : d + suc n - 1 ≡ d + n = omega arith in
    let f : s + suc n - 1 ≡ s + n = omega arith in
    rw (e, f)
      (Copied-last mem _ d s n above
        (move_down-Copied n (store mem (d + n) (mem (s + n))) d s above))

-- `memmove` copies the bytes whether or not the two ranges overlap, and changes no other.
pub memmove-Copied : (mem : Bytes) (d s n : ℕ) → Copied mem (memmove mem d s n) d s n
unfolding memmove
memmove-Copied mem d s n = elim (Bool-cases (ltb d s)) [
  | inl e ↦ rw e (move_up-Copied n mem d s (inl (ground arith)))
  | inr e ↦ rw e (move_down-Copied n mem d s (ground arith))
]

-- Where the destination does not start inside the source above its start, `memcpy` and `memmove` leave
-- the same memory.
pub memcpy-memmove : (mem : Bytes) (d s n : ℕ) → Apart d s n → memcpy mem d s n ≡ memmove mem d s n
memcpy-memmove mem d s n apart =
    fun_ext λ a. memcpy-Copied n mem d s apart a ∙ sym (memmove-Copied mem d s n a)

-- `memset` writes the low byte of `c` to the `n` addresses from `s` on, and to no other.
pub memset_lem :
    (n : ℕ) (mem : Bytes) (s c a : ℕ)
    → memset mem s c n a ≡ (if leb s a && ltb a (s + n) then c % 256 else mem a)
unfolding memset
memset_lem zero mem s c a = ground arith
memset_lem (suc n) mem s c a = memset_lem n (store mem s (c % 256)) (s + 1) c a ∙ ground arith
