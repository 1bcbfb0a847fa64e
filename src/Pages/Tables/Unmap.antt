-- ===== src/Pages/Tables/Unmap.antt =====
-- `kunmap_Page` of kernel/mem.c.
use jeffos.Base.{
  ℕ, zero, suc, ◌+◌, ◌-◌, ◌*◌, ◌%◌, ◌^◌, ◌≤◌, ◌<◌, ◌≡◌, refl, ◌≢◌, true, false, ◌&&◌, arith, ◌==◌,
  ltb, leb, if◌then◌else◌, length, length-set, get_or-set, set, eq_of_get_or,
}
use jeffos.Base.Masks.{page-entry, le-bit_or}
use jeffos.Pages.Search.{run_free, run_free-get}
use jeffos.Status.{status_success, status_general_error}
use jeffos.Pages.Tables.{PageTable, entry, in_use, entry_for, unmap_run, frame_of}
use jeffos.Pages.Tables.Map.{HoldsRun}

pub length-unmap_run : (k i j : ℕ) (tab : PageTable) → length (unmap_run k i j tab).0 ≡ length tab
unfolding unmap_run
length-unmap_run zero i j tab = refl
length-unmap_run (suc k) i j tab =
    ground (arith, length-unmap_run k i (j + 1) (set tab (i + j) 0), length-set tab (i + j) 0)

-- Where every entry of the run is in use they are all cleared, with success.
pub unmap_run_lem :
    (k i j : ℕ) (tab : PageTable)
    → i + j + k ≤ length tab
    → ((x : ℕ) → i + j ≤ x → x < i + j + k → in_use tab x ≡ true)
    → ((unmap_run k i j tab).1 ≡ status_success)
      × ((x : ℕ)
          → entry (unmap_run k i j tab).0 x
            ≡ (if leb (i + j) x && ltb x (i + j + k) then 0 else entry tab x))
unfolding unmap_run
unmap_run_lem zero i j tab fits busy = (refl, λ x. ground arith)
unmap_run_lem (suc k) i j tab fits busy =
    let now : (entry tab (i + j) == 0) ≡ false = ground (arith, busy (i + j)) in
    let rest =
      unmap_run_lem k i (j + 1) (set tab (i + j) 0) (omega (arith, length-set tab (i + j) 0))
        (λ x p q. ground (arith, busy x, get_or-set tab (i + j) x 0 0)) in
    rw now (rest.0, λ x. ground (arith, rest.1 x, get_or-set tab (i + j) x 0 0))

-- At the first entry that is clear the loop stops with an error; those before it have been cleared.
pub unmap_run_stops :
    (k i j m : ℕ) (tab : PageTable)
    → m < k
    → i + j + k ≤ length tab
    → ((x : ℕ) → i + j ≤ x → x < i + j + m → in_use tab x ≡ true)
    → in_use tab (i + j + m) ≡ false
    → ((unmap_run k i j tab).1 ≡ status_general_error)
      × ((x : ℕ)
          → entry (unmap_run k i j tab).0 x
            ≡ (if leb (i + j) x && ltb x (i + j + m) then 0 else entry tab x))
unfolding unmap_run
unmap_run_stops zero i j m tab lt fits busy clear = elim lt [ ]
unmap_run_stops (suc k) i j zero tab lt fits busy clear =
    let now : (entry tab (i + j) == 0) ≡ true = ground arith in rw now (refl, λ x. ground arith)
unmap_run_stops (suc k) i j (suc m) tab lt fits busy clear =
    let now : (entry tab (i + j) == 0) ≡ false = ground (arith, busy (i + j)) in
    let rest =
      unmap_run_stops k i (j + 1) m (set tab (i + j) 0) (omega arith)
        (omega (arith, length-set tab (i + j) 0))
        (λ x p q. ground (arith, busy x, get_or-set tab (i + j) x 0 0))
        (ground (arith, get_or-set tab (i + j) (i + j + suc m) 0 0)) in
    rw now (rest.0, λ x. ground (arith, rest.1 x, get_or-set tab (i + j) x 0 0))

pub entry_for-ne_zero : (phys flags j : ℕ) → flags ≢ 0 → (entry_for phys flags j == 0) ≡ false
entry_for-ne_zero phys flags j h = ground (arith, le-bit_or ((phys + 4096 * j) % 2 ^ 32) flags)

-- The frame that an entry of a run names.
pub frame_of-entry_for :
    (q flags j : ℕ)
    → q + j < 2 ^ 20
    → flags < 4096
    → frame_of (entry_for (4096 * q) flags j) ≡ 4096 * (q + j)
frame_of-entry_for q flags j h g =
    let e : (4096 * q + 4096 * j) % 2 ^ 32 ≡ 4096 * (q + j) = omega arith in
    rw e (page-entry (q + j) flags h g)

module _ (t t' : PageTable) (y n phys flags : ℕ) (held : HoldsRun t t' y n phys flags)
    (nonzero : flags ≢ 0) (same_size : length t' ≡ length t) (fits : y + n ≤ length t)
    (free : run_free (in_use t) y n ≡ true) where
  run-in_use : (x : ℕ) → y ≤ x → x < y + n → in_use t' x ≡ true
  run-in_use x p q = ground (arith, held x, entry_for-ne_zero phys flags (x - y))

  -- Clearing a run that was mapped over free entries gives back the table as it was.
  pub unmap-map : (unmap_run n y 0 t').0 ≡ t
  unmap-map =
      let busy =
        unmap_run_lem n y 0 t' (omega arith) (λ x p q. run-in_use x (omega arith) (omega arith)) in
      eq_of_get_or _ t 0 (omega (arith, length-unmap_run n y 0 t'))
        (λ x. ground (arith, busy.1 x, held x, run_free-get (in_use t) y n x))

  pub unmap-map_status : (unmap_run n y 0 t').1 ≡ status_success
  unmap-map_status =
      (unmap_run_lem n y 0 t' (omega arith) (λ x p q. run-in_use x (omega arith) (omega arith))).0
