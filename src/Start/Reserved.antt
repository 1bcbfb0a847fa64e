-- ===== src/Start/Reserved.antt =====
-- Which pages `kinit_page` of kernel/kinit.c sets aside.
use jeffos.Base.{
  ℕ, zero, suc, ◌+◌, ◌/◌, ◌%◌, ◌^◌, ◌≤◌, ◌≡◌, refl, ◌∙◌, ap, true, false, inl, inr, Bool, ◌||◌,
  ◌&&◌, List, [], ◌∷◌, arith, ◌==◌, ltb, leb, if◌then◌else◌, length, length-set, get_or, get_or-set,
  get_or-out, set, Bool-cases,
}
use jeffos.Base.Masks.{zero-bit_and}
use jeffos.Pages.Bitmap.{
  Pmat, IsPmat, used, max_pages, kget_page_bit, kset_page_bit, kset-IsPmat, used-kset,
}
use jeffos.Pages.Alloc.{mark_run}
use jeffos.Pages.Alloc.Runs.{mark_run-IsPmat, used-mark_run}
use jeffos.Sched.{clear_run}
use jeffos.Start.{BootEntry, mark_loaded, directory_page, kinit_page}

-- The pages of what was loaded: those of the entries up to one of no type.
unfoldable pub loaded : List BootEntry → ℕ → Bool
loaded [] n = false
loaded (e ∷ entries) n =
    let rest = loaded entries n in
    if e.type == 0
    then false
    else (leb (e.offset + 0x100) n && ltb n (e.offset + 0x100 + e.size)) || rest

-- What was loaded lies within the machine's pages.
unfoldable pub InMemory : List BootEntry → Type 0
InMemory [] = Unit
InMemory (e ∷ entries) = (e.offset + 0x100 + e.size ≤ max_pages) × InMemory entries

-- The first two pages, the screen and the devices, what was loaded, and the directory and two tables.
abbrev pub reserved : List BootEntry → ℕ → ℕ → Bool
reserved entries low_entry n =
    ltb n 2
    || (leb 160 n && ltb n 256)
    || loaded entries n
    || (leb (directory_page low_entry) n && ltb n (directory_page low_entry + 3))

clear_run-length : (k i : ℕ) (m : Pmat) → length (clear_run k i m) ≡ length m
unfolding clear_run
clear_run-length zero i m = refl
clear_run-length (suc k) i m = clear_run-length k (i + 1) (set m i 0) ∙ length-set m i 0

clear_run-at :
    (k i : ℕ) (m : Pmat) (j : ℕ)
    → i + k ≤ length m
    → get_or (clear_run k i m) j 0 ≡ (if leb i j && ltb j (i + k) then 0 else get_or m j 0)
unfolding clear_run
clear_run-at zero i m j within = ground arith
clear_run-at (suc k) i m j within =
    clear_run-at k (i + 1) (set m i 0) j (omega (arith, length-set m i 0))
    ∙ ground (arith, get_or-set m i j 0 0)

cleared : (m : Pmat) (i : ℕ) → length m ≡ 2048 → get_or (clear_run 2048 0 m) i 0 ≡ 0
cleared m i e = elim (Bool-cases (ltb i 2048)) [
  | inl low ↦ ground (arith, clear_run-at 2048 0 m i (omega (arith, e)))
  | inr high ↦ get_or-out (clear_run 2048 0 m) i 0 (ground (arith, clear_run-length 2048 0 m, e))
]

cleared-IsPmat : (m : Pmat) → length m ≡ 2048 → IsPmat (clear_run 2048 0 m)
cleared-IsPmat m e = record {
  size = clear_run-length 2048 0 m ∙ e;
  bytes = λ i. omega (arith, cleared m i e);
}

used-cleared : (m : Pmat) (n : ℕ) → length m ≡ 2048 → used (clear_run 2048 0 m) n ≡ false
unfolding kget_page_bit
used-cleared m n e = rw (cleared m (n / 8) e, zero-bit_and (2 ^ (n % 8))) refl

mark_loaded-IsPmat :
    (entries : List BootEntry) (m : Pmat) → IsPmat m → IsPmat (mark_loaded entries m)
unfolding mark_loaded
mark_loaded-IsPmat [] m v = v
mark_loaded-IsPmat (e ∷ entries) m v =
    let rest =
      mark_loaded-IsPmat entries (mark_run e.size (e.offset + 0x100) 0 m)
        (mark_run-IsPmat e.size (e.offset + 0x100) 0 m v) in
    elim (Bool-cases (e.type == 0)) [ inl z ↦ rw z v | inr z ↦ rw z rest ]

used-mark_loaded :
    (entries : List BootEntry) (m : Pmat) (n : ℕ)
    → IsPmat m
    → InMemory entries
    → used (mark_loaded entries m) n ≡ (loaded entries n || used m n)
unfolding mark_loaded loaded InMemory
used-mark_loaded [] m n v within = refl
used-mark_loaded (e ∷ entries) m n v within =
    let m' = mark_run e.size (e.offset + 0x100) 0 m in
    let rest =
      used-mark_loaded entries m' n (mark_run-IsPmat e.size (e.offset + 0x100) 0 m v) within.1 in
    let here = used-mark_run e.size (e.offset + 0x100) 0 m n v (omega (arith, within.0)) in
    elim (Bool-cases (e.type == 0)) [
      | inl z ↦ rw z refl
      | inr z ↦ rw z (ground (arith, rest, here))
    ]

marks_three :
    (b b₁ b₂ b₃ : Bool) (d n : ℕ)
    → b₁ ≡ (if d == n then true else b)
    → b₂ ≡ (if d + 1 == n then true else b₁)
    → b₃ ≡ (if d + 2 == n then true else b₂)
    → b₃ ≡ (b || (leb d n && ltb n (d + 3)))
marks_three b b₁ b₂ b₃ d n e e₁ e₂ = ground (arith, e, e₁, e₂)

marks_two :
    (b b₁ b₂ : Bool) (n : ℕ)
    → b ≡ false
    → b₁ ≡ (if 0 == n then true else b)
    → b₂ ≡ (if 1 == n then true else b₁)
    → b₂ ≡ ltb n 2
marks_two b b₁ b₂ n none e e₁ = ground (arith, none, e, e₁)

marks_devices :
    (b b₁ : Bool) (n : ℕ)
    → b ≡ ltb n 2
    → b₁ ≡ (if leb (160 + 0) n && ltb n (160 + 0 + 96) then true else b)
    → b₁ ≡ (ltb n 2 || (leb 160 n && ltb n 256))
marks_devices b b₁ n e e₁ = ground (arith, e, e₁)

in_order : (l a c t : Bool) → ((l || (a || c)) || t) ≡ (a || c || l || t)
in_order true true c t = refl
in_order true false true t = refl
in_order true false false t = refl
in_order false true c t = refl
in_order false false true t = refl
in_order false false false t = refl

-- The bitmap has 2048 bytes, what was loaded and the three pages of the kernel's tables lie within the
-- 16384 pages: after `kinit_page` a page is marked exactly if it is one of the first two, of the
-- screen and the devices (160 to 255), of what was loaded, or of those three.
pub used-kinit_page :
    (m : Pmat) (entries : List BootEntry) (low_entry n : ℕ)
    → length m ≡ 2048
    → InMemory entries
    → directory_page low_entry + 3 ≤ max_pages
    → IsPmat (kinit_page m entries low_entry)
      × (used (kinit_page m entries low_entry) n ≡ reserved entries low_entry n)
unfolding kinit_page
used-kinit_page m entries low_entry n size within low =
    let d = directory_page low_entry in
    let m₀ = clear_run 2048 0 m in
    let v₀ = cleared-IsPmat m size in
    let m₁ = kset_page_bit m₀ 0 in
    let v₁ = kset-IsPmat m₀ 0 v₀ in
    let m₂ = kset_page_bit m₁ 1 in
    let v₂ = kset-IsPmat m₁ 1 v₁ in
    let m₃ = mark_run 96 160 0 m₂ in
    let v₃ = mark_run-IsPmat 96 160 0 m₂ v₂ in
    let m₄ = mark_loaded entries m₃ in
    let v₄ = mark_loaded-IsPmat entries m₃ v₃ in
    let m₅ = kset_page_bit m₄ d in
    let v₅ = kset-IsPmat m₄ d v₄ in
    let m₆ = kset_page_bit m₅ (d + 1) in
    let v₆ = kset-IsPmat m₅ (d + 1) v₅ in
    let first : used m₂ n ≡ ltb n 2 =
      marks_two (used m₀ n) (used m₁ n) (used m₂ n) n (used-cleared m n size)
        (used-kset m₀ 0 n v₀ (omega arith)) (used-kset m₁ 1 n v₁ (omega arith)) in
    let devices : used m₃ n ≡ (ltb n 2 || (leb 160 n && ltb n 256)) =
      marks_devices (used m₂ n) (used m₃ n) n first
        (used-mark_run 96 160 0 m₂ n v₂ (omega arith)) in
    let all : used m₄ n ≡ (loaded entries n || (ltb n 2 || (leb 160 n && ltb n 256))) =
      used-mark_loaded entries m₃ n v₃ within ∙ ap (λ b. loaded entries n || b) devices in
    (
      kset-IsPmat m₆ (d + 2) v₆,
      marks_three (used m₄ n) (used m₅ n) (used m₆ n) (used (kset_page_bit m₆ (d + 2)) n) d n
            (used-kset m₄ d n v₄ (omega arith)) (used-kset m₅ (d + 1) n v₅ (omega arith))
            (used-kset m₆ (d + 2) n v₆ (omega arith))
          ∙ ap (λ b. b || (leb d n && ltb n (d + 3))) all
          ∙ in_order (loaded entries n) (ltb n 2) (leb 160 n && ltb n 256)
              (leb d n && ltb n (d + 3)),
    )
