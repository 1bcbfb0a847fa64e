-- ===== src/Strings/Duplicate.antt =====
-- `strcpy` and `strncpy` of lib/string.c.
use jeffos.Base.{
  ℕ, zero, suc, ◌+◌, ◌-◌, ◌≤◌, ◌<◌, ◌≡◌, refl, sym, ◌∙◌, ap, inl, inr, false, some, arith, ◌==◌,
  leb, if◌then◌else◌, Bool-cases, ==_iff,
}
use mathlib.Core.Path.{subst}
use jeffos.Strings.{Bytes, store, strcpy, strncpy}
use jeffos.Strings.Copy.{Copied, Apart, Copied-first, Apart-next}
use jeffos.Strings.Compare.{Terminated, tail_Terminated, first-ne, first-zero}

-- The write of the first byte leaves the rest of the string.
stored-Terminated :
    (mem : Bytes) (d s l : ℕ)
    → Apart d s (suc (suc l))
    → Terminated mem (s + 1) l
    → Terminated (store mem d (mem s)) (s + 1) l
stored-Terminated mem d s l apart v = record {
  ends = rw (other l (omega arith)) v.ends;
  before = λ i h. rw (other i (omega arith)) (v.before i h);
}
  where
    other : (i : ℕ) → i ≤ l → (s + 1 + i == d) ≡ false
    other i h = elim apart [ inl low ↦ ground arith | inr high ↦ ground arith ]

-- The 0 alone.
nul-Copied : (mem : Bytes) (d s : ℕ) → Terminated mem s 0 → Copied mem (store mem d 0) d s 1
nul-Copied mem d s v a =
    let nul : mem s ≡ 0 = (==_iff _ 0).0 (first-zero v) in
    elim (Bool-cases (a == d)) [
      | inl e ↦
          let start : s + (a - d) ≡ s = omega (arith, (==_iff a d).0 e) in
          let first : mem (s + (a - d)) ≡ 0 = ap mem start ∙ nul in ground arith
      | inr e ↦ ground arith
    ]

-- `strcpy` of a string copies its bytes and the 0 behind them, and changes no other byte, when the
-- destination does not start inside the source above its start; fuel above the length is enough.
pub strcpy-Copied :
    (l fuel : ℕ) (mem : Bytes) (d s : ℕ)
    → Terminated mem s l
    → Apart d s (suc l)
    → l < fuel
    → (mem' : Bytes) × (strcpy fuel mem d s ≡ some mem') × Copied mem mem' d s (suc l)
unfolding strcpy
strcpy-Copied l zero mem d s v apart h = absurd (omega arith)
strcpy-Copied zero (suc fuel) mem d s v apart h = (
  store mem d 0,
  rw (first-zero v) refl,
  Copied-first mem (store mem d 0) d s 0 apart
      (λ a. let nul : mem s ≡ 0 = (==_iff _ 0).0 (first-zero v) in ground arith),
)
strcpy-Copied (suc l) (suc fuel) mem d s v apart h =
    let (mem', e, c) =
      strcpy-Copied l fuel (store mem d (mem s)) (d + 1) (s + 1)
        (stored-Terminated mem d s l apart (tail_Terminated v)) (Apart-next d s (suc l) apart)
        (omega arith) in
    (mem', rw (first-ne v) e, Copied-first mem mem' d s (suc l) apart c)

-- How many bytes `strncpy` writes.
abbrev pub written : ℕ → ℕ → ℕ
written l n = if leb n l then n else suc l

Apart-less : (d s k n : ℕ) → k ≤ n → Apart d s n → Apart d s k
Apart-less d s k n h apart = elim apart [ inl low ↦ inl low | inr high ↦ inr (omega arith) ]

-- `strncpy` of a string of `l` bytes copies its first `n` bytes, where `n` is at most `l`, and else its
-- bytes and the 0 behind them, and changes no other byte, when the destination does not start inside
-- the source above its start.
pub strncpy-Copied :
    (n l : ℕ) (mem : Bytes) (d s : ℕ)
    → Terminated mem s l
    → Apart d s (suc l)
    → Copied mem (strncpy mem d s n) d s (written l n)
unfolding strncpy
strncpy-Copied zero l mem d s v apart = λ a. ground arith
strncpy-Copied (suc n) zero mem d s v apart =
    let count : written 0 (suc n) ≡ 1 = ground arith in
    subst (λ k. Copied mem (strncpy mem d s (suc n)) d s k) (sym count)
      (rw (first-zero v) (nul-Copied mem d s v))
strncpy-Copied (suc n) (suc l) mem d s v apart =
    let count : written (suc l) (suc n) ≡ suc (written l n) = ground arith in
    let rest =
      strncpy-Copied n l (store mem d (mem s)) (d + 1) (s + 1)
        (stored-Terminated mem d s l apart (tail_Terminated v)) (Apart-next d s (suc l) apart) in
    rw (first-ne v) (
      subst (λ k. Copied mem (strncpy (store mem d (mem s)) (d + 1) (s + 1) n) d s k) (sym count)
        (Copied-first mem _ d s (written l n)
          (Apart-less d s (suc (written l n)) (suc (suc l)) (ground arith) apart) rest))
