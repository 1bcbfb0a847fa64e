-- ===== src/Base/Masks.antt =====
-- Laws of `bit_and` and `bit_or` at variables, from the digits that they stand for.
use Prim.Native.Nat.{
  ℕ, zero, suc, ◌+◌, ◌*◌, ◌/◌, ◌%◌, ◌^◌, ◌-◌, ◌≤◌, ◌<◌, min, max, bit_and, bit_or, digits, bitwise,
  bit_and-bitwise, bit_or-bitwise,
}
use mathlib.Core.Path.{◌≡◌, refl, ap, ap₂, sym, ◌∙◌}
use native.Mathlib.Omega.{arith}

-- One digit to go beyond the digits that there are changes nothing, and so do k of them.
module _ (rest : ℕ → ℕ) (mix : ℕ → ℕ → ℕ) where
  spare_digit : (n a b : ℕ) → a ≤ n → digits rest mix (suc n) a b ≡ digits rest mix n a b
  spare_digit n zero b h = ran_out n b
    where
      ran_out : (n b : ℕ) → digits rest mix (suc n) 0 b ≡ digits rest mix n 0 b
      ran_out zero b = refl
      ran_out (suc n) b = refl
  spare_digit zero (suc a) b h = absurd (omega arith)
  spare_digit (suc n) (suc a) b h =
      ap (λ higher. higher * 2 + mix (suc a % 2) (b % 2))
        (spare_digit n (suc a / 2) (b / 2) (omega arith))

  spare_digits : (k n a b : ℕ) → a ≤ n → digits rest mix (n + k) a b ≡ digits rest mix n a b
  spare_digits zero n a b h = ap (λ count. digits rest mix count a b) none
    where
      none : n + 0 ≡ n
      none = omega arith
  spare_digits (suc k) n a b h =
      ap (λ count. digits rest mix count a b) next
      ∙ spare_digit (n + k) a b (omega arith)
      ∙ spare_digits k n a b h
    where
      next : n + suc k ≡ suc (n + k)
      next = omega arith

  higher_digits : (a b : ℕ) → digits rest mix a (suc a / 2) b ≡ bitwise rest mix (suc a / 2) b
  higher_digits a b =
      ap (λ n. digits rest mix n (suc a / 2) b) split_count
      ∙ spare_digits (a - suc a / 2) (suc a / 2) (suc a / 2) b (omega arith)
    where
      split_count : a ≡ suc a / 2 + (a - suc a / 2)
      split_count = omega arith

pub zero-bit_and : (b : ℕ) → bit_and 0 b ≡ 0
zero-bit_and b = bit_and-bitwise 0 b

zero-bit_or : (b : ℕ) → bit_or 0 b ≡ b
zero-bit_or b = bit_or-bitwise 0 b

-- The lowest digit of a conjunction or a disjunction, and the rest.
pub and_lowest : (a b : ℕ) → bit_and a b ≡ bit_and (a / 2) (b / 2) * 2 + min (a % 2) (b % 2)
and_lowest zero b = omega (arith, zero-bit_and b, zero-bit_and (b / 2))
and_lowest (suc x) b =
    bit_and-bitwise (suc x) b
    ∙ ap (λ higher. higher * 2 + min (suc x % 2) (b % 2))
        (higher_digits (λ y. 0) min x (b / 2) ∙ sym (bit_and-bitwise (suc x / 2) (b / 2)))

pub or_lowest : (a b : ℕ) → bit_or a b ≡ bit_or (a / 2) (b / 2) * 2 + max (a % 2) (b % 2)
or_lowest zero b = omega (arith, zero-bit_or b, zero-bit_or (b / 2))
or_lowest (suc x) b =
    bit_or-bitwise (suc x) b
    ∙ ap (λ higher. higher * 2 + max (suc x % 2) (b % 2))
        (higher_digits (λ y. y) max x (b / 2) ∙ sym (bit_or-bitwise (suc x / 2) (b / 2)))

pub bit_or-zero : (a : ℕ) → bit_or a 0 ≡ a
bit_or-zero a = up_to a a (omega arith)
  where
    up_to : (most a : ℕ) → a ≤ most → bit_or a 0 ≡ a
    up_to most zero h = refl
    up_to zero (suc a) h = absurd (omega arith)
    up_to (suc most) (suc a) h =
        omega (arith, or_lowest (suc a) 0, up_to most (suc a / 2) (omega arith))

le-bit_or_fuel : (n a b : ℕ) → b ≤ n → b ≤ bit_or a b
le-bit_or_fuel n a zero h = omega arith
le-bit_or_fuel zero a (suc b) h = absurd (omega arith)
le-bit_or_fuel (suc n) a (suc b) h =
    omega (arith, or_lowest a (suc b), le-bit_or_fuel n (a / 2) (suc b / 2) (omega arith))

pub le-bit_or : (a b : ℕ) → b ≤ bit_or a b
le-bit_or a b = le-bit_or_fuel b a b (omega arith)

-- k halvings, k doublings, and the number with k ones.
halves : ℕ → ℕ → ℕ
halves zero a = a
halves (suc k) a = halves k (a / 2)

doubles : ℕ → ℕ → ℕ
doubles zero a = a
doubles (suc k) a = doubles k a * 2

ones : ℕ → ℕ
ones zero = 0
ones (suc k) = ones k * 2 + 1

halves-or : (k a b : ℕ) → halves k (bit_or a b) ≡ bit_or (halves k a) (halves k b)
unfolding halves
halves-or zero a b = refl
halves-or (suc k) a b =
    let e : bit_or a b / 2 ≡ bit_or (a / 2) (b / 2) = omega (arith, or_lowest a b) in
    rw e (halves-or k (a / 2) (b / 2))

and-doubles : (k a m : ℕ) → bit_and a (doubles k m) ≡ doubles k (bit_and (halves k a) m)
unfolding halves doubles
and-doubles zero a m = refl
and-doubles (suc k) a m =
    let e : doubles k m * 2 / 2 ≡ doubles k m = omega arith in
    omega (arith, and_lowest a (doubles k m * 2), and-doubles k (a / 2) m, ap (bit_and (a / 2)) e)

and-ones : (k a : ℕ) → a < doubles k 1 → bit_and a (ones k) ≡ a
unfolding ones doubles
and-ones zero a h = omega (arith, zero-bit_and 0, ap (λ x. bit_and x 0) (zero_of a h))
  where
    zero_of : (a : ℕ) → a < 1 → a ≡ 0
    zero_of a h = omega arith
and-ones (suc k) a h =
    let e : (ones k * 2 + 1) / 2 ≡ ones k = omega arith in
    omega (
      arith,
      and_lowest a (ones k * 2 + 1),
      ap (bit_and (a / 2)) e,
      and-ones k (a / 2) (omega arith),
    )

halves_12 : (a : ℕ) → halves 12 a ≡ a / 4096
unfolding halves
halves_12 a = omega arith

doubles_12 : (a : ℕ) → doubles 12 a ≡ 4096 * a
unfolding doubles
doubles_12 a = omega arith

split : (a : ℕ) → bit_and a 0xFFFFF000 ≡ doubles 12 (bit_and (halves 12 a) (ones 20))
unfolding doubles ones
split a = and-doubles 12 a (ones 20)

page_part : (q f : ℕ) → f < 4096 → halves 12 (bit_or (4096 * q) f) ≡ q
page_part q f g = halves-or 12 (4096 * q) f ∙ ap₂ bit_or whole low ∙ bit_or-zero q
  where
    whole : halves 12 (4096 * q) ≡ q
    whole = halves_12 (4096 * q) ∙ omega arith

    low : halves 12 f ≡ 0
    low = halves_12 f ∙ omega arith

-- A page table entry gives back the address of its page: the flags lie below it.
pub page-entry :
    (q f : ℕ) → q < 2 ^ 20 → f < 4096 → bit_and (bit_or (4096 * q) f) 0xFFFFF000 ≡ 4096 * q
page-entry q f h g =
    split (bit_or (4096 * q) f)
    ∙ ap (λ x. doubles 12 (bit_and x (ones 20))) (page_part q f g)
    ∙ ap (doubles 12) (and-ones 20 q (unfold doubles in h))
    ∙ doubles_12 q

-- An entry fits in 32 bits.
pub page-entry-lt : (q f : ℕ) → q < 2 ^ 20 → f < 4096 → bit_or (4096 * q) f < 2 ^ 32
page-entry-lt q f h g = omega (arith, halves_12 (bit_or (4096 * q) f), page_part q f g)
