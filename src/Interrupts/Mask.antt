-- ===== src/Interrupts/Mask.antt =====
-- The masks of the interrupt lines, kernel/i386.c.
use jeffos.Base.{
  ℕ, ◌-◌, ◌<◌, ◌≡◌, true, false, inl, inr, Bool, not, arith, ◌==◌, ltb, if◌then◌else◌, Bool-cases,
}
use jeffos.Pages.Bitmap.{clear, clear-set, clear-unset}
use jeffos.Interrupts.{Board, mask_irq, unmask_irq}

-- Whether line `irq`, of the 16, is masked.
abbrev pub masked : Board → ℕ → Bool
masked b irq = if ltb irq 8 then not (clear b.mask0 irq) else not (clear b.mask1 (irq - 8))

pub record IsBoard (b : Board) : Type 0 where
  pub byte0 : b.mask0 < 256
  pub byte1 : b.mask1 < 256

pub masked-mask_irq :
    (b : Board) (irq j : ℕ)
    → IsBoard b
    → irq < 16
    → j < 16
    → masked (mask_irq b irq) j ≡ (if irq == j then true else masked b j)
unfolding mask_irq
masked-mask_irq b irq j v low low' = elim (Bool-cases (ltb irq 8)) [
  | inl e ↦ elim (Bool-cases (ltb j 8)) [
    | inl d ↦
        rw (e, d) (ground (arith, clear-set b.mask0 irq j v.byte0 (ground arith) (ground arith)))
    | inr d ↦ rw (e, d) (ground arith)
  ]
  | inr e ↦ elim (Bool-cases (ltb j 8)) [
    | inl d ↦ rw (e, d) (ground arith)
    | inr d ↦
        rw (e, d)
          (ground
            (arith, clear-set b.mask1 (irq - 8) (j - 8) v.byte1 (ground arith) (ground arith)))
  ]
]

pub masked-unmask_irq :
    (b : Board) (irq j : ℕ)
    → IsBoard b
    → irq < 16
    → j < 16
    → masked (unmask_irq b irq) j ≡ (if irq == j then false else masked b j)
unfolding unmask_irq
masked-unmask_irq b irq j v low low' = elim (Bool-cases (ltb irq 8)) [
  | inl e ↦ elim (Bool-cases (ltb j 8)) [
    | inl d ↦
        rw (e, d) (ground (arith, clear-unset b.mask0 irq j v.byte0 (ground arith) (ground arith)))
    | inr d ↦ rw (e, d) (ground arith)
  ]
  | inr e ↦ elim (Bool-cases (ltb j 8)) [
    | inl d ↦ rw (e, d) (ground arith)
    | inr d ↦
        rw (e, d)
          (ground
            (arith, clear-unset b.mask1 (irq - 8) (j - 8) v.byte1 (ground arith) (ground arith)))
  ]
]
