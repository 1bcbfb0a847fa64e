-- ===== src/Format/Tests.antt =====
-- A format at 500 and a buffer at 100.
use jeffos.Base.{ℕ, ◌-◌, ◌<◌, ◌≤◌, ◌≡◌, refl, List, [], ◌∷◌, arith, get_or}
use jeffos.Status.{Outcome, ok}
use jeffos.Format.{
  va_snprintf, format_loop, directive, put_string, put_hex, decimal, put_digits, put_signed,
  last_four,
}
use jeffos.Format.Bounds.{va_snprintf-bounds}

-- "d=%d%X"
abbrev letters : List ℕ
letters = 100 ∷ 61 ∷ 37 ∷ 100 ∷ 37 ∷ 88 ∷ 0 ∷ []

abbrev bytes : ℕ → ℕ
bytes a = get_or letters (a - 500) 7

va_snprintf-bounds_example :
    (memory' : ℕ → ℕ) × (va_snprintf 20 bytes 100 16 500 (0xFFFFFFFE ∷ 0xAB ∷ []) ≡ ok memory')
    × (e : ℕ) × (100 ≤ e)
    × (e ≤ 116)
    × (memory' e ≡ 0)
    × ((a : ℕ) → a < 100 → memory' a ≡ bytes a)
    × ((a : ℕ) → 116 < a → memory' a ≡ bytes a)
va_snprintf-bounds_example =
    va_snprintf-bounds 20 bytes 100 16 500 (0xFFFFFFFE ∷ 0xAB ∷ []) (omega arith) (omega arith)
      (omega arith) (omega arith) (omega arith)

abbrev shown : Outcome (ℕ → ℕ) → List ℕ
shown (ok memory) =
    memory 100 ∷ memory 101 ∷ memory 102 ∷ memory 103 ∷ memory 104 ∷ memory 105 ∷ memory 106 ∷ []
shown r = []

-- "d=-2ab" and the byte 0
runs :
    shown (va_snprintf 20 bytes 100 16 500 (0xFFFFFFFE ∷ 0xAB ∷ []))
    ≡ 100 ∷ 61 ∷ 45 ∷ 50 ∷ 97 ∷ 98 ∷ 0 ∷ []
unfolding va_snprintf format_loop directive put_string put_hex decimal put_digits put_signed
    last_four
runs = refl

-- A buffer of two bytes: the byte 0 stands behind it.
runs_over : shown (va_snprintf 20 bytes 100 2 500 []) ≡ 100 ∷ 61 ∷ 0 ∷ 100 ∷ 100 ∷ 100 ∷ 100 ∷ []
unfolding va_snprintf format_loop directive put_string put_hex decimal put_digits put_signed
    last_four
runs_over = refl
