-- ===== src/Sched/Listed.antt =====
-- Putting a task on the list and taking it off, and the bound on the slots in use: kernel/task.c.
use jeffos.Base.{
  ℕ, zero, suc, ◌+◌, ◌-◌, ◌%◌, ◌^◌, ◌≤◌, ◌<◌, ◌≡◌, ◌≢◌, refl, sym, ◌∙◌, ap, inl, inr, ◌⊎◌, Bool,
  true, false, ◌&&◌, List, arith, ◌==◌, ltb, if◌then◌else◌, length, get_or, get_or-set, set,
  Bool-cases, ==_iff,
}
use mathlib.Core.Path.{subst}
use jeffos.Status.{status_success, status_general_error}
use jeffos.Sched.{
  TaskQ, Machine, no_task, slot, write_task, add_loop, ps_add_task_to_queue, remove_loop,
  ps_remove_task_from_queue,
}

-- No slot behind `MaxUsedProc` is in use.
pub record IsBounded (m : Machine) : Type 0 where
  pub word : m.max_used < 2 ^ 32
  pub within : (j : ℕ) → slot m.task_list j ≢ 0 → j ≤ m.max_used

slot-set_le :
    (tasks : List TaskQ) (i j : ℕ) (v : TaskQ)
    → slot (set tasks i v) j ≡ (if (i == j) && ltb i (length tasks) then v.t else slot tasks j)
slot-set_le tasks i j v =
    ap (λ q. q.t) (get_or-set tasks i j v no_task) ∙ split ((i == j) && ltb i (length tasks))
  where
    split :
        (b : Bool) → (if b then v else get_or tasks j no_task).t ≡ (if b then v.t else slot tasks j)
    split true = refl
    split false = refl

-- The machine with the task in slot `i`.
abbrev pub placed : Machine → ℕ → ℕ → ℕ → Machine
placed m t prior i = record m {
  task_list = set m.task_list i (record { t = t; prior = prior });
  task = write_task m.task t (record (m.task t) { tid = i });
  max_used = if ltb m.max_used i then i else m.max_used;
}

-- The first empty slot is taken, or there is none among the slots from `i` to `n`.
abbrev pub Added : ℕ → ℕ → Machine → ℕ → ℕ → Machine × ℕ → Type 0
Added i n m t prior r =
    ((x : ℕ) × (x < n)
      × (slot m.task_list x ≡ 0)
      × ((y : ℕ) → i ≤ y → y < x → slot m.task_list y ≢ 0)
      × (r ≡ (placed m t prior x, status_success)))
    ⊎ (((y : ℕ) → i ≤ y → y < n → slot m.task_list y ≢ 0) × (r ≡ (m, status_general_error)))

none_from :
    (tasks : List TaskQ) (t i x : ℕ)
    → (slot tasks i == t) ≡ false
    → ((y : ℕ) → i + 1 ≤ y → y < x → slot tasks y ≢ t)
    → (y : ℕ) → i ≤ y
    → y < x
    → slot tasks y ≢ t
none_from tasks t i x e h y p q none = elim (Bool-cases (i == y)) [
  | inl same ↦
      let here : slot tasks i ≡ t = ap (slot tasks) ((==_iff i y).0 same) ∙ none in
      absurd (ground arith)
  | inr other ↦ h y (ground arith) q none
]

add_loop-Added :
    (k i : ℕ) (m : Machine) (t prior : ℕ) → Added i (i + k) m t prior (add_loop k i m t prior)
unfolding add_loop
add_loop-Added zero i m t prior = inr (λ y p q. absurd (omega arith), refl)
add_loop-Added (suc k) i m t prior = elim (Bool-cases (slot m.task_list i == 0)) [
  | inl e ↦ rw e (inl (i, omega arith, (==_iff _ 0).0 e, λ y p q. absurd (omega arith), refl))
  | inr e ↦ rw e (elim (add_loop-Added k (i + 1) m t prior) [
    | inl (x, lt, free, before, r) ↦
        inl (x, omega arith, free, λ y p q. none_from m.task_list 0 i x e before y p q, r)
    | inr (none, r) ↦ inr (
      λ y p q. none_from m.task_list 0 i (i + suc k) e (λ z a b. none z a (omega arith)) y p q,
      r,
    )
  ])
]

-- `PsAddTaskToQueue` puts the task in the first of the 1024 slots that is empty, gives it the slot's
-- number as its id and answers success; or no slot is empty, and it answers an error and changes
-- nothing.
pub ps_add_task_to_queue-Added :
    (m : Machine) (t prior : ℕ) → Added 0 1024 m t prior (ps_add_task_to_queue m t prior)
unfolding ps_add_task_to_queue
ps_add_task_to_queue-Added m t prior = add_loop-Added 1024 0 m t prior

placed-IsBounded :
    (m : Machine) (t prior i : ℕ) → i < 1024 → IsBounded m → IsBounded (placed m t prior i)
placed-IsBounded m t prior i low v = record {
  word = ground (arith, v.word);
  within = λ j h. within j (slot-set_le m.task_list i j _) h;
}
  where
    within :
        (j : ℕ) {s : ℕ}
        → s ≡ (if (i == j) && ltb i (length m.task_list) then t else slot m.task_list j)
        → s ≢ 0
        → j ≤ (if ltb m.max_used i then i else m.max_used)
    within j e h = elim (Bool-cases (i == j)) [
      | inl same ↦ ground arith
      | inr other ↦ let old : j ≤ m.max_used = v.within j (λ z. h (e ∙ rw other z)) in ground arith
    ]

-- The machine with the slot emptied.
abbrev pub removed : Machine → ℕ → Machine
removed m i = record m {
  task_list = set m.task_list i (record (get_or m.task_list i no_task) { t = 0 });
  max_used = if i == m.max_used then (m.max_used + 2 ^ 32 - 1) % 2 ^ 32 else m.max_used;
}

removed-IsBounded :
    (m : Machine) (i : ℕ) → i < length m.task_list → IsBounded m → IsBounded (removed m i)
removed-IsBounded m i low v = record {
  word = ground (arith, v.word);
  within = λ j h. within j (slot-set_le m.task_list i j _) h;
}
  where
    within :
        (j : ℕ) {s : ℕ}
        → s ≡ (if (i == j) && ltb i (length m.task_list) then 0 else slot m.task_list j)
        → s ≢ 0
        → j ≤ (if i == m.max_used then (m.max_used + 2 ^ 32 - 1) % 2 ^ 32 else m.max_used)
    within j e h = elim (Bool-cases (i == j)) [
      | inl same ↦ absurd (h (e ∙ ground arith))
      | inr other ↦
          let old : j ≤ m.max_used = v.within j (λ z. h (e ∙ rw other z)) in ground (arith, v.word)
    ]

-- The first slot of the task is emptied, or it is in none of the slots.
abbrev pub Removed : ℕ → ℕ → Machine → ℕ → Machine × ℕ → Type 0
Removed i n m t r =
    ((x : ℕ) × (x < n)
      × (slot m.task_list x ≡ t)
      × ((y : ℕ) → i ≤ y → y < x → slot m.task_list y ≢ t)
      × (r ≡ (removed m x, status_success)))
    ⊎ (((y : ℕ) → i ≤ y → y < n → slot m.task_list y ≢ t) × (r ≡ (m, status_general_error)))

remove_loop-Removed : (k i : ℕ) (m : Machine) (t : ℕ) → Removed i (i + k) m t (remove_loop k i m t)
unfolding remove_loop
remove_loop-Removed zero i m t = inr (λ y p q. absurd (omega arith), refl)
remove_loop-Removed (suc k) i m t = elim (Bool-cases (slot m.task_list i == t)) [
  | inl e ↦ rw e (inl (i, omega arith, (==_iff _ t).0 e, λ y p q. absurd (omega arith), refl))
  | inr e ↦ rw e (elim (remove_loop-Removed k (i + 1) m t) [
    | inl (x, lt, here, before, r) ↦
        inl (x, omega arith, here, λ y p q. none_from m.task_list t i x e before y p q, r)
    | inr (none, r) ↦ inr (
      λ y p q. none_from m.task_list t i (i + suc k) e (λ z a b. none z a (omega arith)) y p q,
      r,
    )
  ])
]

-- `PsRemoveTaskFromQueue` empties the first of the 1024 slots that the task is in and answers success;
-- or the task is in none, and it answers an error and changes nothing.
pub ps_remove_task_from_queue-Removed :
    (m : Machine) (t : ℕ) → Removed 0 1024 m t (ps_remove_task_from_queue m t)
unfolding ps_remove_task_from_queue
ps_remove_task_from_queue-Removed m t = remove_loop-Removed 1024 0 m t

-- Both keep every slot in use at or below `MaxUsedProc`, on a list of 1024 slots.
pub queue-IsBounded :
    (m : Machine) (t prior : ℕ)
    → length m.task_list ≡ 1024
    → IsBounded m
    → IsBounded (ps_add_task_to_queue m t prior).0 × IsBounded (ps_remove_task_from_queue m t).0
queue-IsBounded m t prior size v = (
  elim (ps_add_task_to_queue-Added m t prior) [
    | inl (x, lt, free, before, r) ↦
        subst IsBounded (sym (ap (λ p. p.0) r)) (placed-IsBounded m t prior x lt v)
    | inr (none, r) ↦ subst IsBounded (sym (ap (λ p. p.0) r)) v
  ],
  elim (ps_remove_task_from_queue-Removed m t) [
    | inl (x, lt, here, before, r) ↦
        subst IsBounded (sym (ap (λ p. p.0) r)) (removed-IsBounded m x (omega arith) v)
    | inr (none, r) ↦ subst IsBounded (sym (ap (λ p. p.0) r)) v
  ],
)
