-- ===== src/Pages/Alloc/Runs.antt =====
-- Marking and unmarking a run of pages: kernel/mem.c.
use jeffos.Base.{
  ℕ, zero, suc, ◌+◌, ◌≤◌, ◌<◌, ◌≡◌, refl, true, false, ◌&&◌, arith, ltb, leb, if◌then◌else◌,
  Bool-cases, inl, inr,
}
use jeffos.Status.{status_success, status_general_error}
use jeffos.Pages.Bitmap.{
  Pmat, IsPmat, used, max_pages, kset_page_bit, kunset_page_bit, kset-IsPmat, kunset-IsPmat,
  used-kset, used-kunset,
}
use native.Mathlib.Nat.{add-zero}
use jeffos.Pages.Alloc.{mark_run, free_run}

pub mark_run-IsPmat : (k i j : ℕ) (m : Pmat) → IsPmat m → IsPmat (mark_run k i j m)
unfolding mark_run
mark_run-IsPmat zero i j m v = v
mark_run-IsPmat (suc k) i j m v = mark_run-IsPmat k i (j + 1) _ (kset-IsPmat m (i + j) v)

-- Exactly the pages of the run become marked.
pub used-mark_run :
    (k i j : ℕ) (m : Pmat) (x : ℕ)
    → IsPmat m
    → i + j + k ≤ max_pages
    → used (mark_run k i j m) x ≡ (if leb (i + j) x && ltb x (i + j + k) then true else used m x)
unfolding mark_run
used-mark_run zero i j m x v h = ground arith
used-mark_run (suc k) i j m x v h = ground (
  arith,
  used-mark_run k i (j + 1) (kset_page_bit m (i + j)) x (kset-IsPmat m (i + j) v),
  used-kset m (i + j) x v,
)

pub free_run-IsPmat : (k s i : ℕ) (m : Pmat) → IsPmat m → IsPmat (free_run k s i m).0
unfolding free_run
free_run-IsPmat zero s i m v = v
free_run-IsPmat (suc k) s i m v =
    let rest = free_run-IsPmat k s (i + 1) _ (kunset-IsPmat m (s + i) v) in
    elim (Bool-cases (used m (s + i))) [ inl e ↦ rw e rest | inr e ↦ rw e v ]

-- If all its pages are marked, exactly the pages of the run become unmarked, with success.
pub free_run_lem :
    (k s i : ℕ) (m : Pmat)
    → IsPmat m
    → s + i + k ≤ max_pages
    → ((x : ℕ) → s + i ≤ x → x < s + i + k → used m x ≡ true)
    → ((free_run k s i m).1 ≡ status_success)
      × ((x : ℕ)
          → used (free_run k s i m).0 x
            ≡ (if leb (s + i) x && ltb x (s + i + k) then false else used m x))
unfolding free_run
free_run_lem zero s i m v h busy = (refl, λ x. ground arith)
free_run_lem (suc k) s i m v h busy =
    let now : used m (s + i) ≡ true = busy (s + i) (omega arith) (omega arith) in
    let rest =
      free_run_lem k s (i + 1) (kunset_page_bit m (s + i)) (kunset-IsPmat m (s + i) v) (omega arith)
        (λ x p q. ground (arith, busy x, used-kunset m (s + i) x v)) in
    rw now (rest.0, λ x. ground (arith, rest.1 x, used-kunset m (s + i) x v))

-- At the first page that is not marked the loop stops with an error, the pages before it unmarked.
pub free_run_stops :
    (k s i d : ℕ) (m : Pmat)
    → IsPmat m
    → d < k
    → s + i + k ≤ max_pages
    → ((x : ℕ) → s + i ≤ x → x < s + i + d → used m x ≡ true)
    → used m (s + i + d) ≡ false
    → ((free_run k s i m).1 ≡ status_general_error)
      × ((x : ℕ)
          → used (free_run k s i m).0 x
            ≡ (if leb (s + i) x && ltb x (s + i + d) then false else used m x))
unfolding free_run
free_run_stops zero s i d m v lt h busy clear = elim lt [ ]
free_run_stops (suc k) s i zero m v lt h busy clear =
    let now : used m (s + i) ≡ false = rw (← add-zero (s + i)) clear in
    rw now (refl, λ x. ground arith)
free_run_stops (suc k) s i (suc d) m v lt h busy clear =
    let now : used m (s + i) ≡ true = busy (s + i) (omega arith) (omega arith) in
    let there : s + i + suc d ≡ s + (i + 1) + d = omega arith in
    let rest =
      free_run_stops k s (i + 1) d (kunset_page_bit m (s + i)) (kunset-IsPmat m (s + i) v)
        (omega arith) (omega arith) (λ x p q. ground (arith, busy x, used-kunset m (s + i) x v))
        (rw (used-kunset m (s + i) (s + (i + 1) + d) v (omega arith), ← there) (ground arith)) in
    rw now (rest.0, λ x. ground (arith, rest.1 x, used-kunset m (s + i) x v))
