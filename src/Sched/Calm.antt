-- ===== src/Sched/Calm.antt =====
-- `PsSwitchTask` of kernel/task.c where no dead task waits to be cleaned up.
use jeffos.Base.{
  ℕ, zero, suc, ◌+◌, ◌%◌, ◌^◌, ◌<◌, ◌≡◌, refl, sym, ◌∙◌, ap, inl, inr, true, false, not, ◌&&◌,
  arith, ◌==◌, ltb, if◌then◌else◌, Bool-cases,
}
use mathlib.Core.Path.{subst}
use jeffos.Sched.{
  Machine, slot, t_dead, t_ready, t_sleep_timer, demote, next_num, write_task, run, bury,
  switch_loop, wake_loop, tick, ps_switch_task,
}
use jeffos.Status.{ok}
use jeffos.Pages.Alloc.{Memory}
use jeffos.Sched.Switch.{
  Running, ps_switch_task-Running, may_take, running, take_runs, skip, stepped, step_on,
}
use jeffos.Sched.Preempt.{Kept, IfEnds}

-- No slot of the list has a dead task.
abbrev pub IsCalm : Machine → Type 0
IsCalm m =
    (j : ℕ)
    → (not (slot m.task_list j == 0) && ((m.task (slot m.task_list j)).state == t_dead)) ≡ false

stepped-IsCalm : (m : Machine) → IsCalm m → IsCalm (stepped m)
unfolding stepped demote
stepped-IsCalm m v j = ground (arith, v j)

-- A round that takes no task changes nothing else.
step_on-calm : (m : Machine) → IsCalm m → step_on m ≡ m
unfolding step_on
step_on-calm m v =
    ap (λ b. if b then bury m (slot m.task_list m.current_num) else m) (v m.current_num)

running-Kept : (m : Machine) → Kept m.kernel m.table (running m)
unfolding running run
running-Kept m = record { kernel = refl; table = refl }

stepped-Kept :
    (fuel : ℕ) (m : Machine)
    → IfEnds (Kept (stepped m).kernel (stepped m).table) (switch_loop fuel (stepped m))
    → IfEnds (Kept m.kernel m.table) (switch_loop fuel (stepped m))
unfolding stepped demote
stepped-Kept fuel m v = v

pub switch_loop-Kept :
    (fuel : ℕ) (m : Machine) → IsCalm m → IfEnds (Kept m.kernel m.table) (switch_loop fuel m)
unfolding switch_loop
switch_loop-Kept zero m v = 0
switch_loop-Kept (suc fuel) m v = elim (Bool-cases (may_take m (next_num m.current_num))) [
  | inl e ↦ subst (IfEnds (Kept m.kernel m.table)) (sym (take_runs fuel m e)) (running-Kept m)
  | inr e ↦
      subst (IfEnds (Kept m.kernel m.table))
        (sym
          (skip fuel m e ∙ ap (switch_loop fuel) (step_on-calm (stepped m) (stepped-IsCalm m v))))
        (stepped-Kept fuel m (switch_loop-Kept fuel (stepped m) (stepped-IsCalm m v)))
]

-- What the timer's tick keeps.
record Ticked (m m' : Machine) : Type 0 where
  calm : IsCalm m → IsCalm m'
  kernel : m'.kernel ≡ m.kernel
  table : m'.table ≡ m.table

wake_loop-Ticked : (k x : ℕ) (m : Machine) → Ticked m (wake_loop k x m)
unfolding wake_loop
wake_loop-Ticked zero x m = record { calm = λ v. v; kernel = refl; table = refl }
wake_loop-Ticked (suc k) x m =
    let t = slot m.task_list x in
    let m₁ : Machine = record m {
      task =
          if (m.task t).state == t_sleep_timer
          then write_task m.task t (record (m.task t) { state = t_ready; timer = 0 })
          else m.task;
    } in
    let w = wake_loop-Ticked k (x + 1) m₁ in
    record { calm = λ v. w.calm (λ j. ground (arith, v j)); kernel = w.kernel; table = w.table }

tick-Ticked : (m : Machine) → Ticked m (tick m)
unfolding tick
tick-Ticked m = elim (Bool-cases (ltb 100 (m.system_timer + 1))) [
  | inl e ↦
      let w = wake_loop-Ticked ((m.max_used + 1) % 2 ^ 32) 0 (record m { system_timer = 0 }) in
      rw e (record { calm = λ v. w.calm v; kernel = w.kernel; table = w.table })
  | inr e ↦ rw e (record { calm = λ v. v; kernel = refl; table = refl })
]

-- `PsSwitchTask` with no dead task in the list leaves the kernel's memory and the resource table.
pub ps_switch_task-Kept :
    (m : Machine) → IsCalm m → IfEnds (Kept m.kernel m.table) (ps_switch_task m)
unfolding ps_switch_task
ps_switch_task-Kept m v =
    let w = tick-Ticked m in
    subst (λ k. IfEnds (Kept k m.table) (switch_loop 1024 (tick m))) w.kernel
      (subst (λ i. IfEnds (Kept (tick m).kernel i) (switch_loop 1024 (tick m))) w.table
        (switch_loop-Kept 1024 (tick m) (w.calm v)))

-- The slot `dist` behind the next one has a task that can be taken, and those in between have none.
abbrev pub CanSwitch : Machine → ℕ → Type 0
CanSwitch m dist =
    (m.current_num < 1024)
    × (dist < 1024)
    × (may_take m ((m.current_num + 1 + dist) % 1024) ≡ true)
    × ((e : ℕ) → e < dist → may_take m ((m.current_num + 1 + e) % 1024) ≡ false)

wake_loop-kernel :
    (k x : ℕ) (m : Machine) (memory : Memory)
    → wake_loop k x (record m { kernel = memory }) ≡ record (wake_loop k x m) { kernel = memory }
unfolding wake_loop
wake_loop-kernel zero x m memory = refl
wake_loop-kernel (suc k) x m memory = wake_loop-kernel k (x + 1) _ memory

-- The timer's tick does not read the kernel's memory.
pub tick-kernel :
    (m : Machine) (memory : Memory)
    → tick (record m { kernel = memory }) ≡ record (tick m) { kernel = memory }
unfolding tick
tick-kernel m memory = elim (Bool-cases (ltb 100 (m.system_timer + 1))) [
  | inl e ↦ rw e (wake_loop-kernel ((m.max_used + 1) % 2 ^ 32) 0 _ memory)
  | inr e ↦ rw e refl
]

-- The switch with no dead task in the list and a task that can be taken.
pub ps_switch_task-calm :
    (m : Machine) (dist : ℕ)
    → IsCalm m
    → CanSwitch (tick m) dist
    → (m' : Machine) × (ps_switch_task m ≡ ok m')
      × Running (tick m) (((tick m).current_num + 1 + dist) % 1024) m'
      × Kept m.kernel m.table m'
ps_switch_task-calm m dist v (low, near, can, none) =
    let (m', e, r) = ps_switch_task-Running m dist low near can none in
    (m', e, r, subst (IfEnds (Kept m.kernel m.table)) e (ps_switch_task-Kept m v))
