-- ===== src/Sched/Preempt.antt =====
-- The switch to a given task: `PsPreemptTask` of kernel/task.c.
use jeffos.Base.{
  ℕ, zero, suc, ◌+◌, ◌%◌, ◌<◌, ◌≡◌, ◌≢◌, refl, sym, ◌∙◌, ap, inl, inr, false, arith, ◌==◌,
  Bool-cases, ==_refl,
}
use mathlib.Core.Path.{subst}
use jeffos.Status.{Outcome, ok, halted}
use jeffos.Pages.Alloc.{Memory}
use jeffos.Resource.{Table}
use jeffos.Sched.{
  Machine, t_running, set_state, slot, demoted, demote, next_num, run, preempt_loop,
  ps_preempt_task,
}
use jeffos.Sched.Switch.{Running, next_num-lem}

found :
    (fuel : ℕ) (m : Machine) (t : ℕ)
    → 0 < t
    → slot m.task_list (next_num m.current_num) ≡ t
    → (m' : Machine) × (preempt_loop (suc fuel) m t ≡ ok m') × Running m (next_num m.current_num) m'
unfolding preempt_loop demote run
found fuel m t pos here =
    let some_task : (t == 0) ≡ false = ground arith in
    (
      run (demote (record m { current_num = next_num m.current_num })) t,
      rw (here, some_task, ==_refl t) refl,
      record { num = refl; current = sym here; tasks = rw here refl },
    )

passed :
    (fuel : ℕ) (m : Machine) (t : ℕ)
    → slot m.task_list (next_num m.current_num) ≢ t
    → preempt_loop (suc fuel) m t
      ≡ preempt_loop fuel (record m { current_num = next_num m.current_num }) t
unfolding preempt_loop
passed fuel m t other =
    let e : (slot m.task_list (next_num m.current_num) == t) ≡ false = ground arith in
    elim (Bool-cases (slot m.task_list (next_num m.current_num) == 0)) [
      | inl n ↦ rw n refl
      | inr n ↦ rw (n, e) refl
    ]

preempt_loop-Running :
    (fuel dist : ℕ) (m : Machine) (t : ℕ)
    → m.current_num < 1024
    → 0 < t
    → dist < fuel
    → slot m.task_list ((m.current_num + 1 + dist) % 1024) ≡ t
    → ((e : ℕ) → e < dist → slot m.task_list ((m.current_num + 1 + e) % 1024) ≢ t)
    → (m' : Machine) × (preempt_loop fuel m t ≡ ok m')
      × Running m ((m.current_num + 1 + dist) % 1024) m'
preempt_loop-Running zero dist m t low pos enough here none = absurd (omega arith)
preempt_loop-Running (suc fuel) zero m t low pos enough here none =
    let e : next_num m.current_num ≡ (m.current_num + 1 + 0) % 1024 =
      next_num-lem m.current_num low ∙ omega arith in
    subst (λ i. (m' : Machine) × (preempt_loop (suc fuel) m t ≡ ok m') × Running m i m') e
      (found fuel m t pos (ap (slot m.task_list) e ∙ here))
preempt_loop-Running (suc fuel) (suc dist) m t low pos enough here none =
    let first : next_num m.current_num ≡ (m.current_num + 1 + 0) % 1024 =
      next_num-lem m.current_num low ∙ omega arith in
    let at : next_num m.current_num ≡ (m.current_num + 1) % 1024 = next_num-lem m.current_num low in
    let turn : (d : ℕ)
        → (next_num m.current_num + 1 + d) % 1024 ≡ (m.current_num + 1 + suc d) % 1024 =
      λ d. omega (arith, at) in
    let (r, e, w) =
      preempt_loop-Running fuel dist (record m { current_num = next_num m.current_num }) t
        (omega (arith, at)) pos (omega arith) (ap (slot m.task_list) (turn dist) ∙ here)
        (λ d lt same. none (suc d) (omega arith) (sym (ap (slot m.task_list) (turn d)) ∙ same)) in
    (
      r,
      passed fuel m t (λ same. none 0 (omega arith) (sym (ap (slot m.task_list) first) ∙ same)) ∙ e,
      record {
        num = w.num ∙ turn dist;
        current = w.current ∙ ap (slot m.task_list) (turn dist);
        tasks =
            w.tasks
            ∙ ap (λ i. set_state (demoted m.task m.current_task) (slot m.task_list i) t_running)
                (turn dist);
      },
    )

-- A task that is in a slot, with no nearer one behind the current slot: `PsPreemptTask` of it ends,
-- and it runs, in its slot's number; the task that ran before is ready, and nothing else of the tasks
-- has changed.
pub ps_preempt_task-Running :
    (m : Machine) (t dist : ℕ)
    → m.current_num < 1024
    → 0 < t
    → dist < 1024
    → slot m.task_list ((m.current_num + 1 + dist) % 1024) ≡ t
    → ((e : ℕ) → e < dist → slot m.task_list ((m.current_num + 1 + e) % 1024) ≢ t)
    → (m' : Machine) × (ps_preempt_task m t ≡ ok m')
      × Running m ((m.current_num + 1 + dist) % 1024) m'
unfolding ps_preempt_task
ps_preempt_task-Running m t dist low pos near here none =
    preempt_loop-Running 1024 dist m t low pos near here none

-- `PsPreemptTask` of a task that is in no slot never comes to an end, whatever rounds it is given.
pub preempt_loop-endless :
    (fuel : ℕ) (m : Machine) (t : ℕ)
    → ((i : ℕ) → slot m.task_list i ≢ t)
    → preempt_loop fuel m t ≡ Outcome.out_of_fuel
preempt_loop-endless zero m t none = unfold preempt_loop in refl
preempt_loop-endless (suc fuel) m t none =
    passed fuel m t (none _)
    ∙ preempt_loop-endless fuel (record m { current_num = next_num m.current_num }) t none

-- The kernel's memory and the resource table, where the call ends.
pub record Kept (memory : Memory) (ids : Table) (m' : Machine) : Type 0 where
  pub kernel : m'.kernel ≡ memory
  pub table : m'.table ≡ ids

abbrev pub IfEnds : (Machine → Type 0) → Outcome Machine → Type 0
IfEnds p (ok m) = p m
IfEnds p halted = ℕ
IfEnds p Outcome.out_of_fuel = ℕ

pub preempt_loop-Kept :
    (fuel : ℕ) (m : Machine) (t : ℕ) → IfEnds (Kept m.kernel m.table) (preempt_loop fuel m t)
unfolding preempt_loop demote run
preempt_loop-Kept zero m t = 0
preempt_loop-Kept (suc fuel) m t =
    let rest = preempt_loop-Kept fuel (record m { current_num = next_num m.current_num }) t in
    elim (Bool-cases (slot m.task_list (next_num m.current_num) == 0)) [
      | inl n ↦ rw n rest
      | inr n ↦ elim (Bool-cases (slot m.task_list (next_num m.current_num) == t)) [
        | inl e ↦ rw (n, e) (record { kernel = refl; table = refl })
        | inr e ↦ rw (n, e) rest
      ]
    ]
