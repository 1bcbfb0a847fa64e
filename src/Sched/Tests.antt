-- ===== src/Sched/Tests.antt =====
-- A machine with four tasks: the kernel's, one that runs, a dead one, and one that is ready.
use jeffos.Base.{
  ℕ, zero, suc, ◌/◌, ◌+◌, ◌%◌, ◌<◌, ◌≤◌, ◌≡◌, ◌≢◌, refl, ap, ◌∙◌, List, [], ◌∷◌, arith, get_or,
  replicate,
}
use jeffos.Status.{Outcome, ok}
use jeffos.Sched.{
  Machine, no_task, slot, ps_add_task_to_queue, ps_remove_task_from_queue, preempt_loop, tick,
  ps_switch_task,
}
use jeffos.Sched.Sample.{queued, machine}
use jeffos.Sched.Switch.{Running, may_take, ps_switch_task-Running}
use jeffos.Sched.Preempt.{preempt_loop-endless}
use jeffos.Sched.Listed.{IsBounded, queue-IsBounded}

only_zero : (e : ℕ) → e < 1 → e ≡ 0
only_zero e h = omega arith

ps_switch_task-Running_example :
    (m' : Machine) × (ps_switch_task (machine 7) ≡ ok m') × Running (tick (machine 7)) 3 m'
unfolding tick
ps_switch_task-Running_example =
    ps_switch_task-Running (machine 7) 1 (omega arith) (omega arith) refl
      (λ e lt. ap (λ x. may_take (tick (machine 7)) ((1 + 1 + x) % 1024)) (only_zero e lt) ∙ refl)

-- A list with one task, and another task that is on none.
abbrev lonely : Machine
lonely = record (machine 7) { task_list = queued 0x1000 ∷ [] }

not_there : (i : ℕ) → slot lonely.task_list i ≢ 0x5000
not_there zero e = absurd (omega arith)
not_there (suc i) e = absurd (omega arith)

preempt_loop-endless_example : preempt_loop 5000 lonely 0x5000 ≡ Outcome.out_of_fuel
preempt_loop-endless_example = preempt_loop-endless 5000 lonely 0x5000 not_there

slot-replicate : (n i : ℕ) → slot (replicate n no_task) i ≡ 0
slot-replicate zero i = refl
slot-replicate (suc n) zero = refl
slot-replicate (suc n) (suc i) = slot-replicate n i

machine-IsBounded : (timer : ℕ) → IsBounded (machine timer)
machine-IsBounded timer = record { word = omega arith; within = within }
  where
    within : (j : ℕ) → slot (machine timer).task_list j ≢ 0 → j ≤ 3
    within zero h = omega arith
    within (suc zero) h = omega arith
    within (suc (suc zero)) h = omega arith
    within (suc (suc (suc zero))) h = omega arith
    within (suc (suc (suc (suc j)))) h = absurd (h (slot-replicate 1020 j))

queue-IsBounded_example :
    IsBounded (ps_add_task_to_queue (machine 7) 0x5000 2).0
    × IsBounded (ps_remove_task_from_queue (machine 7) 0x5000).0
queue-IsBounded_example = queue-IsBounded (machine 7) 0x5000 2 refl (machine-IsBounded 7)

-- A page table with a page in its second entry.
abbrev one_page : List ℕ
one_page = 0 ∷ 0x5007 ∷ 0x6007 ∷ []

in_range : (j : ℕ) → 0 ≤ j → j < 0 + 2 → get_or one_page j 0 / 4096 < 16384
in_range zero p q = omega arith
in_range (suc zero) p q = omega arith
in_range (suc (suc j)) p q = absurd (omega arith)
