-- ===== src/Interrupts/Dispatch.antt =====
-- An interrupt and the task that waits for it, `irq_dispatch` of kernel/int.c.
use jeffos.Base.{
  ℕ, ◌+◌, ◌%◌, ◌<◌, ◌≡◌, ◌≢◌, refl, ◌∙◌, true, false, inl, inr, arith, ◌==◌, if◌then◌else◌, ltb,
  Bool-cases, ==_refl,
}
use jeffos.Status.{ok}
use jeffos.Sched.{t_ready, t_running, t_sleep_irq, slot}
use jeffos.Sched.Preempt.{ps_preempt_task-Running}
use jeffos.Interrupts.{Board, handler, with_state, current, mask_irq, irq_dispatch}
use jeffos.Interrupts.Mask.{masked, IsBoard, masked-mask_irq}

mask_irq-kernel : (b : Board) (irq : ℕ) → (mask_irq b irq).kernel ≡ b.kernel
unfolding mask_irq
mask_irq-kernel b irq = elim (Bool-cases (ltb irq 8)) [ inl e ↦ rw e refl | inr e ↦ rw e refl ]

-- Interrupt `number` of the 16 comes, and its handler sleeps for it: a task that is in a slot with no
-- nearer slot of its own behind the current one. Then `irq_dispatch` ends, the handler is the running
-- task, and this line is masked and every other as before.
pub irq_dispatch-wakes :
    (b : Board) (number t dist : ℕ)
    → IsBoard b
    → number < 16
    → handler b number ≡ t
    → 0 < t
    → (b.kernel.machine.task t).state ≡ t_sleep_irq
    → b.kernel.machine.current_num < 1024
    → dist < 1024
    → slot b.kernel.machine.task_list ((b.kernel.machine.current_num + 1 + dist) % 1024) ≡ t
    → ((e : ℕ)
        → e < dist
        → slot b.kernel.machine.task_list ((b.kernel.machine.current_num + 1 + e) % 1024) ≢ t)
    → (b' : Board) × (irq_dispatch b number ≡ ok b')
      × (current b' ≡ t)
      × ((b'.kernel.machine.task t).state ≡ t_running)
      × ((j : ℕ) → j < 16 → masked b' j ≡ (if number == j then true else masked b j))
unfolding irq_dispatch
irq_dispatch-wakes b number t dist v low mine pos asleep within near at nearest =
    let some_task : (t == 0) ≡ false = ground arith in
    let sleeps : ((b.kernel.machine.task t).state == t_sleep_irq) ≡ true = ground (arith, asleep) in
    let m = (with_state b.kernel t t_ready).machine in
    let (m', ran, r) = ps_preempt_task-Running m t dist within pos near at nearest in
    (
      record (mask_irq b number) { kernel = record b.kernel { machine = m' } },
      rw (mine, some_task, sleeps, ran) refl,
      r.current ∙ at,
      rw (r.tasks, at, ==_refl t) refl,
      λ j low'. masked-mask_irq b number j v low low',
    )

-- Without a handler, or with one that does not sleep for the interrupt, `irq_dispatch` only masks the
-- line.
pub irq_dispatch-ignores :
    (b : Board) (number : ℕ)
    → (handler b number ≢ 0 → (b.kernel.machine.task (handler b number)).state ≢ t_sleep_irq)
    → irq_dispatch b number ≡ ok (mask_irq b number)
unfolding irq_dispatch
irq_dispatch-ignores b number other = elim (Bool-cases (handler b number == 0)) [
  | inl e ↦ rw e refl
  | inr e ↦
      let awake : ((b.kernel.machine.task (handler b number)).state == t_sleep_irq) ≡ false =
        ground (arith, other (λ z. ground arith)) in
      rw (e, awake) refl
]
