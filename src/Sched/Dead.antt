-- ===== src/Sched/Dead.antt =====
-- What the clean-up of a dead task leaves of the task list: kernel/task.c.
use jeffos.Base.{
  ℕ, zero, suc, ◌+◌, ◌-◌, ◌%◌, ◌^◌, ◌≡◌, refl, ◌∙◌, ap, inl, inr, ◌⊎◌, Bool, true, false, ◌&&◌,
  List, arith, ◌==◌, ltb, if◌then◌else◌, length, get_or, get_or-set, set, Bool-cases, ==_iff,
}
use jeffos.Resource.{rsrc_del}
use jeffos.Sched.{
  Task, TaskQ, Machine, no_task, slot, t_dead, may_run, remove_loop, ps_remove_task_from_queue,
  destroy_space, release, ps_clean_up_task, bury,
}

-- The slot has a task that may be run.
abbrev pub runnable : (ℕ → Task) → List TaskQ → ℕ → Bool
runnable task tasks j = if slot tasks j == 0 then false else may_run (task (slot tasks j)).state

-- The machine with some slots of `t` emptied.
pub record Emptied (t : ℕ) (m m' : Machine) : Type 0 where
  pub num : m'.current_num ≡ m.current_num
  pub current : m'.current_task ≡ m.current_task
  pub tasks : m'.task ≡ m.task
  pub slots :
      (j : ℕ)
      → (slot m'.task_list j ≡ slot m.task_list j)
        ⊎ ((slot m.task_list j ≡ t) × (slot m'.task_list j ≡ 0))

slot-set :
    (tasks : List TaskQ) (i j : ℕ)
    → let tasks' = set tasks i (record (get_or tasks i no_task) { t = 0 }) in
      (slot tasks' j ≡ slot tasks j) ⊎ ((j ≡ i) × (slot tasks' j ≡ 0))
slot-set tasks i j =
    let v = record (get_or tasks i no_task) { t = 0 } in
    let read = get_or-set tasks i j v no_task in
    elim (Bool-cases ((i == j) && ltb i (length tasks))) [
      | inl e ↦ inr (ground arith, ap (λ q. q.t) read ∙ rw e refl)
      | inr e ↦ inl (ap (λ q. q.t) read ∙ rw e refl)
    ]

remove_loop-Emptied : (k i : ℕ) (m : Machine) (t : ℕ) → Emptied t m (remove_loop k i m t).0
unfolding remove_loop
remove_loop-Emptied zero i m t = record {
  num = refl;
  current = refl;
  tasks = refl;
  slots = λ j. inl refl;
}
remove_loop-Emptied (suc k) i m t = elim (Bool-cases (slot m.task_list i == t)) [
  | inr e ↦ rw e (remove_loop-Emptied k (i + 1) m t)
  | inl e ↦ rw e (record {
    num = refl;
    current = refl;
    tasks = refl;
    slots = λ j. elim (slot-set m.task_list i j) [
      | inl same ↦ inl same
      | inr (at, gone) ↦ inr (ap (slot m.task_list) at ∙ (==_iff _ t).0 e, gone)
    ];
  })
]

ps_remove-Emptied : (m : Machine) (t : ℕ) → Emptied t m (ps_remove_task_from_queue m t).0
unfolding ps_remove_task_from_queue
ps_remove-Emptied m t = remove_loop-Emptied 1024 0 m t

destroy_space-Emptied :
    (m m' : Machine) (t a : ℕ) → Emptied t m m' → Emptied t m (destroy_space m' t a)
unfolding destroy_space
destroy_space-Emptied m m' t a v = record {
  num = v.num;
  current = v.current;
  tasks = v.tasks;
  slots = v.slots;
}

Emptied-if :
    (b : Bool) {t : ℕ} {m m₁ m₂ : Machine}
    → Emptied t m m₁
    → Emptied t m m₂
    → Emptied t m (if b then m₁ else m₂)
Emptied-if true v w = v
Emptied-if false v w = w

release-Emptied : (m m' : Machine) (t : ℕ) → Emptied t m m' → Emptied t m (release m' t)
unfolding release
release-Emptied m m' t v = Emptied-if _ (destroy_space-Emptied m _ t _ kept) kept
  where
    kept : Emptied t m (record m' {
      table = rsrc_del m'.table (m'.task t).rid;
      aspace = λ p.
          if p == m'.process_addr (m'.task t).parent
          then record (m'.aspace (m'.process_addr (m'.task t).parent)) {
            refcount =
                ((m'.aspace (m'.process_addr (m'.task t).parent)).refcount + 2 ^ 32 - 1) % 2 ^ 32;
          }
          else m'.aspace p;
    })
    kept = record { num = v.num; current = v.current; tasks = v.tasks; slots = v.slots }

pub bury-Emptied :
    (m : Machine) (t : ℕ) → slot m.task_list m.current_num ≡ t → Emptied t m (bury m t)
unfolding bury ps_clean_up_task
bury-Emptied m t here =
    clear_here (ps_clean_up_task m t) (release-Emptied m _ t (ps_remove-Emptied m t))
  where
    clear_here :
        (m' : Machine)
        → Emptied t m m'
        → Emptied t m (record m' {
          task_list =
              set m'.task_list m'.current_num
                (record (get_or m'.task_list m'.current_num no_task) { t = 0 });
        })
    clear_here m' v = record {
      num = v.num;
      current = v.current;
      tasks = v.tasks;
      slots = λ j. elim (slot-set m'.task_list m'.current_num j) [
        | inl same ↦ elim (v.slots j) [
          | inl before ↦ inl (same ∙ before)
          | inr (at, gone) ↦ inr (at, same ∙ gone)
        ]
        | inr (at, gone) ↦ inr (ap (slot m.task_list) (at ∙ v.num) ∙ here, gone)
      ];
    }

-- When the task is dead, emptying its slots changes nothing for the others.
pub runnable-Emptied :
    (t : ℕ) (m m' : Machine) (j : ℕ)
    → (m.task t).state ≡ t_dead
    → Emptied t m m'
    → runnable m.task m'.task_list j ≡ runnable m.task m.task_list j
runnable-Emptied t m m' j dead v = elim (v.slots j) [
  | inl same ↦ rw same refl
  | inr (at, gone) ↦ rw (gone, at, dead) (ground arith)
]
