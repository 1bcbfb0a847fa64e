-- ===== src/Strings/Compare.antt =====
-- The routines of lib/string.c that read: lengths and comparisons.
use jeffos.Base.{
  ℕ, zero, suc, ◌+◌, ◌≤◌, ◌<◌, ◌≡◌, ◌≢◌, ◌↔◌, refl, sym, ◌∙◌, ap, inl, inr, ◌⊎◌, true, false,
  Option, some, arith, ◌==◌, Bool-cases, ==_iff,
}
use jeffos.Strings.{Bytes, unequal, strcmp, strncmp, strlen_loop, strlen, memcmp}

-- The string at `s` has `l` bytes before its first 0.
pub record Terminated (mem : Bytes) (s l : ℕ) : Type 0 where
  pub ends : mem (s + l) ≡ 0
  pub before : (i : ℕ) → i < l → mem (s + i) ≢ 0

pub tail_Terminated : {mem : Bytes} {s l : ℕ} → Terminated mem s (suc l) → Terminated mem (s + 1) l
tail_Terminated {mem} {s} {l} v = record {
  ends = ap mem (omega arith) ∙ v.ends;
  before = λ i h z. v.before (suc i) (omega arith) (ap mem (omega arith) ∙ z);
}

pub first-ne : {mem : Bytes} {s l : ℕ} → Terminated mem s (suc l) → (mem s == 0) ≡ false
first-ne {mem} {s} v =
    let h : mem s ≢ 0 = λ z. v.before 0 (omega arith) (ap mem (omega arith) ∙ z) in ground arith

pub first-zero : {mem : Bytes} {s : ℕ} → Terminated mem s 0 → (mem s == 0) ≡ true
first-zero {mem} {s} v = let h : mem s ≡ 0 = ap mem (omega arith) ∙ v.ends in ground arith

strlen_loop_lem :
    (l fuel : ℕ) (mem : Bytes) (n s : ℕ)
    → Terminated mem s l
    → l < fuel
    → strlen_loop fuel mem n s ≡ some (n + l)
unfolding strlen_loop
strlen_loop_lem l zero mem n s v h = absurd (omega arith)
strlen_loop_lem zero (suc fuel) mem n s v h = rw (first-zero v) (ap some (omega arith))
strlen_loop_lem (suc l) (suc fuel) mem n s v h = rw (first-ne v) (
    strlen_loop_lem l fuel mem (n + 1) (s + 1) (tail_Terminated v) (omega arith)
    ∙ ap some (omega arith))

-- `strlen` of a string is the number of bytes before its first 0; fuel above that is enough.
pub strlen_lem :
    (mem : Bytes) (s l fuel : ℕ) → Terminated mem s l → l < fuel → strlen fuel mem s ≡ some l
unfolding strlen
strlen_lem mem s l fuel v h = strlen_loop_lem l fuel mem 0 s v h ∙ ap some (omega arith)

-- The strings have the same bytes up to the first one's end, which is the second's too.
abbrev pub Same : Bytes → ℕ → ℕ → ℕ → Type 0
Same mem s1 s2 l = (i : ℕ) → i ≤ l → mem (s1 + i) ≡ mem (s2 + i)

-- The two ends of a comparison.
abbrev pub Compared : Option ℕ → Type 0 → Type 0
Compared r P = ((r ≡ some 0) × P) ⊎ ((r ≡ some unequal) × (P → ⊥))

module _ (mem : Bytes) (s1 s2 : ℕ) where
  Same-cons : (l : ℕ) → mem s1 ≡ mem s2 → Same mem (s1 + 1) (s2 + 1) l → Same mem s1 s2 (suc l)
  Same-cons l e h zero p = ap mem (omega arith) ∙ e ∙ ap mem (omega arith)
  Same-cons l e h (suc i) p = ap mem (omega arith) ∙ h i (omega arith) ∙ ap mem (omega arith)

  Same-zero : mem s1 ≡ mem s2 → Same mem s1 s2 0
  Same-zero e zero p = ap mem (omega arith) ∙ e ∙ ap mem (omega arith)
  Same-zero e (suc i) p = absurd (omega arith)

  Same-first : (l : ℕ) → Same mem s1 s2 l → mem s1 ≡ mem s2
  Same-first l h = ap mem (omega arith) ∙ h 0 (omega arith) ∙ ap mem (omega arith)

  Same-tail : (l : ℕ) → Same mem s1 s2 (suc l) → Same mem (s1 + 1) (s2 + 1) l
  Same-tail l h i p = ap mem (omega arith) ∙ h (suc i) (omega arith) ∙ ap mem (omega arith)

differs : (a b : ℕ) → (a == 0) ≡ true → (b == 0) ≡ false → a ≢ b
differs a b p q e = absurd (ground arith)

apart : (a b : ℕ) → (a == b) ≡ false → a ≢ b
apart a b p e = absurd (ground arith)

-- `strcmp` of a string with another answers 0 when their bytes are the same up to the end of the
-- first, and -1 when they are not; fuel above the length of the first is enough.
pub strcmp-Compared :
    (l fuel : ℕ) (mem : Bytes) (s1 s2 : ℕ)
    → Terminated mem s1 l
    → l < fuel
    → Compared (strcmp fuel mem s1 s2) (Same mem s1 s2 l)
unfolding strcmp
strcmp-Compared l zero mem s1 s2 v h = absurd (omega arith)
strcmp-Compared zero (suc fuel) mem s1 s2 v h = elim (Bool-cases (mem s2 == 0)) [
  | inl e ↦
      rw (first-zero v, e)
        (inl (refl, Same-zero mem s1 s2 ((==_iff _ 0).0 (first-zero v) ∙ sym ((==_iff _ 0).0 e))))
  | inr e ↦
      rw (first-zero v, e)
        (inr (refl, λ q. differs _ _ (first-zero v) e (Same-first mem s1 s2 0 q)))
]
strcmp-Compared (suc l) (suc fuel) mem s1 s2 v h = elim (Bool-cases (mem s2 == 0)) [
  | inl e ↦
      rw (first-ne v, e)
        (inr (refl, λ q. differs _ _ e (first-ne v) (sym (Same-first mem s1 s2 (suc l) q))))
  | inr e ↦ elim (Bool-cases (mem s1 == mem s2)) [
    | inr d ↦ rw (first-ne v, e, d) (inr (refl, λ q. apart _ _ d (Same-first mem s1 s2 (suc l) q)))
    | inl d ↦
        rw (first-ne v, e, d)
          (elim (strcmp-Compared l fuel mem (s1 + 1) (s2 + 1) (tail_Terminated v) (omega arith)) [
            | inl (r, same) ↦ inl (r, Same-cons mem s1 s2 l ((==_iff _ _).0 d) same)
            | inr (r, differ) ↦ inr (r, λ q. differ (Same-tail mem s1 s2 l q))
          ])
  ]
]

-- The `n` bytes of the two are the same and none is 0.
abbrev pub SameFull : Bytes → ℕ → ℕ → ℕ → Type 0
SameFull mem s1 s2 n = (i : ℕ) → i < n → (mem (s1 + i) ≡ mem (s2 + i)) × (mem (s1 + i) ≢ 0)

module _ (mem : Bytes) (s1 s2 n : ℕ) where
  SameFull-cons :
      mem s1 ≡ mem s2 → mem s1 ≢ 0 → SameFull mem (s1 + 1) (s2 + 1) n → SameFull mem s1 s2 (suc n)
  SameFull-cons e f h zero p =
      (ap mem (omega arith) ∙ e ∙ ap mem (omega arith), λ z. f (ap mem (omega arith) ∙ z))
  SameFull-cons e f h (suc i) p =
      let (same, full) = h i (omega arith) in
      (ap mem (omega arith) ∙ same ∙ ap mem (omega arith), λ z. full (ap mem (omega arith) ∙ z))

  SameFull-first : SameFull mem s1 s2 (suc n) → (mem s1 ≡ mem s2) × (mem s1 ≢ 0)
  SameFull-first h =
      let (same, full) = h 0 (omega arith) in
      (ap mem (omega arith) ∙ same ∙ ap mem (omega arith), λ z. full (ap mem (omega arith) ∙ z))

  SameFull-tail : SameFull mem s1 s2 (suc n) → SameFull mem (s1 + 1) (s2 + 1) n
  SameFull-tail h i p =
      let (same, full) = h (suc i) (omega arith) in
      (ap mem (omega arith) ∙ same ∙ ap mem (omega arith), λ z. full (ap mem (omega arith) ∙ z))

-- `strncmp` answers 0 when the `n` bytes of the two are the same and none of them is 0, and -1 when
-- not: for equal strings of fewer than `n` bytes it answers -1.
pub strncmp-Compared :
    (n : ℕ) (mem : Bytes) (s1 s2 : ℕ) → Compared (some (strncmp mem s1 s2 n)) (SameFull mem s1 s2 n)
unfolding strncmp
strncmp-Compared zero mem s1 s2 = inl (refl, λ i p. absurd (omega arith))
strncmp-Compared (suc n) mem s1 s2 = elim (Bool-cases (mem s1 == 0)) [
  | inl e ↦ rw e (inr (refl, λ q. (SameFull-first mem s1 s2 n q).1 ((==_iff _ 0).0 e)))
  | inr e ↦ elim (Bool-cases (mem s1 == mem s2)) [
    | inr d ↦ elim (Bool-cases (mem s2 == 0)) [
      | inl z ↦ rw (e, z) (inr (refl, λ q. apart _ _ d (SameFull-first mem s1 s2 n q).0))
      | inr z ↦ rw (e, z, d) (inr (refl, λ q. apart _ _ d (SameFull-first mem s1 s2 n q).0))
    ]
    | inl d ↦
        let z : (mem s2 == 0) ≡ false = ground arith in
        rw (e, z, d)
          (elim (strncmp-Compared n mem (s1 + 1) (s2 + 1)) [
            | inl (r, same) ↦
                inl (r, SameFull-cons mem s1 s2 n ((==_iff _ _).0 d) (apart _ 0 e) same)
            | inr (r, differ) ↦ inr (r, λ q. differ (SameFull-tail mem s1 s2 n q))
          ])
  ]
]

bytes_cons :
    (mem : Bytes) (d s n : ℕ)
    → mem d ≡ mem s
    → ((i : ℕ) → i < n → mem (d + 1 + i) ≡ mem (s + 1 + i))
    → (i : ℕ) → i < suc n
    → mem (d + i) ≡ mem (s + i)
bytes_cons mem d s n e h zero p = ap mem (omega arith) ∙ e ∙ ap mem (omega arith)
bytes_cons mem d s n e h (suc i) p = ap mem (omega arith) ∙ h i (omega arith) ∙ ap mem (omega arith)

bytes_tail :
    (mem : Bytes) (d s n : ℕ)
    → ((i : ℕ) → i < suc n → mem (d + i) ≡ mem (s + i))
    → (i : ℕ) → i < n
    → mem (d + 1 + i) ≡ mem (s + 1 + i)
bytes_tail mem d s n h i p = ap mem (omega arith) ∙ h (suc i) (omega arith) ∙ ap mem (omega arith)

-- `memcmp` answers 0 exactly if the bytes are the same.
pub memcmp-zero_iff :
    (n : ℕ) (mem : Bytes) (d s : ℕ)
    → (memcmp mem d s n ≡ 0) ↔ ((i : ℕ) → i < n → mem (d + i) ≡ mem (s + i))
unfolding memcmp
memcmp-zero_iff zero mem d s = (λ e i p. absurd (omega arith), λ h. refl)
memcmp-zero_iff (suc n) mem d s = elim (Bool-cases (mem d == mem s)) [
  | inl e ↦ rw e (
    λ z. bytes_cons mem d s n ((==_iff _ _).0 e) ((memcmp-zero_iff n mem (d + 1) (s + 1)).0 z),
    λ h. (memcmp-zero_iff n mem (d + 1) (s + 1)).1 (bytes_tail mem d s n h),
  )
  | inr e ↦ rw e (
    λ z. absurd (omega arith),
    λ h. absurd (apart _ _ e (ap mem (omega arith) ∙ h 0 (omega arith) ∙ ap mem (omega arith))),
  )
]
