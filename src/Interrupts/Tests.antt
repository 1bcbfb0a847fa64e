-- ===== src/Interrupts/Tests.antt =====
-- A task that waits for the keyboard's interrupt.
use jeffos.Base.{
  ℕ, ◌+◌, ◌%◌, ◌<◌, ◌≡◌, ◌∙◌, refl, sym, ap, true, [], ◌∷◌, arith, ◌==◌, if◌then◌else◌,
}
use jeffos.Status.{ok}
use jeffos.KMem.Sample.{one_taken32}
use jeffos.Sched.{t_running, slot}
use jeffos.Sched.Sample.{in_state}
use jeffos.Kernel.Sample.{kernel_on}
use jeffos.Interrupts.{Board, current, irq_dispatch}
use jeffos.Interrupts.Mask.{masked}
use jeffos.Interrupts.Dispatch.{irq_dispatch-wakes}

abbrev waiting : Board
waiting = record {
  kernel = record (kernel_on one_taken32.0) {
    machine = record (kernel_on one_taken32.0).machine { task = λ a. in_state 4 4 };
    irq_task_map = 0 ∷ 0x4000 ∷ [];
  };
  mask0 = 0xFC;
  mask1 = 0xFF;
  kernel_timer = 5;
}

only_zero : (e : ℕ) → e < 1 → e ≡ 0
only_zero e h = omega arith

irq_dispatch-wakes_example :
    (b' : Board) × (irq_dispatch waiting 1 ≡ ok b')
    × (current b' ≡ 0x4000)
    × ((b'.kernel.machine.task 0x4000).state ≡ t_running)
    × ((j : ℕ) → j < 16 → masked b' j ≡ (if 1 == j then true else masked waiting j))
irq_dispatch-wakes_example =
    irq_dispatch-wakes waiting 1 0x4000 1 (record { byte0 = omega arith; byte1 = omega arith })
      (omega arith) refl (omega arith) refl (omega arith) (omega arith) refl
      (λ e lt same. absurd (
        omega (
          arith,
          sym (
                ap (λ x. slot waiting.kernel.machine.task_list ((1 + 1 + x) % 1024))
                  (only_zero e lt))
              ∙ same,
        )))
