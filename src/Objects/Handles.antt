-- ===== src/Objects/Handles.antt =====
-- What opening and closing do to the handles of a process: kernel/object.c.
use jeffos.Base.{
  ℕ, zero, suc, ◌+◌, ◌-◌, ◌≤◌, ◌<◌, ◌≡◌, ◌≢◌, refl, ◌∙◌, ap, inl, inr, ◌⊎◌, false, arith, ◌==◌, leb,
  length, get_or, get_or-set, set, Bool-cases, ==_iff, ==_refl,
}
use jeffos.Status.{status_success, status_out_of_handles}
use jeffos.Objects.{Process, handle_at, ob_reference_object_by_handle, open_loop, ob_open_object}

-- The first free entry from `i` on, below `n`, gets the object and is its handle; or there is none.
abbrev pub Opened : ℕ → ℕ → Process → ℕ → Process × ℕ → Type 0
Opened i n p obj r =
    ((x : ℕ) × (i ≤ x)
      × (x < n)
      × (handle_at p x ≡ 0)
      × ((y : ℕ) → i ≤ y → y < x → handle_at p y ≢ 0)
      × (r ≡ (record p { handle_list = set p.handle_list x obj }, status_success))
      × (ob_reference_object_by_handle r.0 x ≡ (obj, status_success)))
    ⊎ (((y : ℕ) → i ≤ y → y < n → handle_at p y ≢ 0) × (r ≡ (p, status_out_of_handles)))

found_again :
    (p : Process) (x obj : ℕ)
    → length p.handle_list ≡ 64
    → x < 64
    → ob_reference_object_by_handle (record p { handle_list = set p.handle_list x obj }) x
      ≡ (obj, status_success)
unfolding ob_reference_object_by_handle
found_again p x obj size low =
    let here : get_or (set p.handle_list x obj) x 0 ≡ obj =
      ground (arith, get_or-set p.handle_list x x obj 0, ==_refl x) in
    let inside : leb 64 x ≡ false = ground arith in rw (inside, here) refl

none_before :
    (p : Process) (i x : ℕ)
    → (handle_at p i == 0) ≡ false
    → ((y : ℕ) → i + 1 ≤ y → y < x → handle_at p y ≢ 0)
    → (y : ℕ) → i ≤ y
    → y < x
    → handle_at p y ≢ 0
none_before p i x e h y a b free = elim (Bool-cases (i == y)) [
  | inl same ↦
      let here : handle_at p i ≡ 0 = ap (handle_at p) ((==_iff i y).0 same) ∙ free in
      absurd (ground arith)
  | inr other ↦ h y (ground arith) b free
]

pub open_loop-Opened :
    (k i : ℕ) (p : Process) (obj : ℕ)
    → length p.handle_list ≡ 64
    → i + k ≤ 64
    → Opened i (i + k) p obj (open_loop k i p obj)
unfolding open_loop
open_loop-Opened zero i p obj size low = inr (λ y a b. absurd (omega arith), refl)
open_loop-Opened (suc k) i p obj size low = elim (Bool-cases (handle_at p i == 0)) [
  | inl e ↦ rw e (
      inl (
        i,
        omega arith,
        omega arith,
        (==_iff _ 0).0 e,
        λ y a b. absurd (omega arith),
        refl,
        found_again p i obj size (omega arith),
      ))
  | inr e ↦ rw e (elim (open_loop-Opened k (i + 1) p obj size (omega arith)) [
    | inl (x, above, below, free, before, r, again) ↦
        inl (x, omega arith, omega arith, free, none_before p i x e before, r, again)
    | inr (none, r) ↦ inr (none_before p i (i + suc k) e (λ y a b. none y a (omega arith)), r)
  ])
]

-- On a list of 64 handles, `ObOpenObject` puts the object in the first free entry from the value on
-- that its variable happens to hold, which is at most 64, and looking that handle up gives the object;
-- or no entry from there on is free, and it answers STATUS_OUT_OF_HANDLES and changes nothing.
pub ob_open_object-Opened :
    (stale : ℕ) (p : Process) (obj : ℕ)
    → length p.handle_list ≡ 64
    → stale ≤ 64
    → Opened stale (stale + (64 - stale)) p obj (ob_open_object stale p obj)
unfolding ob_open_object
ob_open_object-Opened stale p obj size low =
    open_loop-Opened (64 - stale) stale p obj size (omega arith)
