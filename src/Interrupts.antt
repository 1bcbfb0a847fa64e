-- ===== src/Interrupts.antt =====
-- Hardware interrupts and the tasks that handle them: kernel/int.c, kernel/i386.c and the calls of
-- kernel/syscall.c on interrupts.
pub mod Mask
pub mod Dispatch
mod Tests
use jeffos.Base.{
  ℕ, ◌+◌, ◌-◌, ◌%◌, ◌^◌, bit_and, bit_or, ◌&&◌, not, ◌==◌, ltb, if◌then◌else◌, get_or, set,
}
use jeffos.Status.{Outcome, ok, ◌>>=◌}
use jeffos.Sched.{t_ready, t_sleep_irq, ps_switch_task, ps_preempt_task}
use jeffos.Kernel.{Kernel, with_machine, with_task, err_none, err_permission}

-- The kernel, the mask bytes of the two controllers, and `kernel_timer`.
pub record Board : Type 0 where
  pub kernel : Kernel
  pub mask0 : ℕ
  pub mask1 : ℕ
  pub kernel_timer : ℕ

unfoldable pub mask_irq : Board → ℕ → Board
mask_irq b irq =
    if ltb irq 8
    then record b { mask0 = bit_or b.mask0 (2 ^ irq) % 256 }
    else record b { mask1 = bit_or b.mask1 (2 ^ (irq - 8)) % 256 }

-- `~` is that of 32 bits.
unfoldable pub unmask_irq : Board → ℕ → Board
unmask_irq b irq =
    if ltb irq 8
    then record b { mask0 = bit_and b.mask0 (2 ^ 32 - 1 - 2 ^ irq) % 256 }
    else record b { mask1 = bit_and b.mask1 (2 ^ 32 - 1 - 2 ^ (irq - 8)) % 256 }

abbrev pub handler : Board → ℕ → ℕ
handler b irq = get_or b.kernel.irq_task_map irq 0

abbrev pub with_state : Kernel → ℕ → ℕ → Kernel
with_state k t s = with_task k t (record (k.machine.task t) { state = s })

unfoldable pub irq_dispatch : Board → ℕ → Outcome Board
unfolding mask_irq
irq_dispatch b number =
    let b' = mask_irq b number in
    let t = handler b number in
    let k = with_state b.kernel t t_ready in
    let wakes = (do
      m ← ps_preempt_task k.machine t
      ok (record b' { kernel = with_machine k m })) in
    if t == 0
    then ok b'
    else if (b.kernel.machine.task t).state == t_sleep_irq
    then wakes
    else ok b'

-- `PsSwitchTask` of the board's kernel.
abbrev pub switch : Board → Outcome Board
switch b = do
  m ← ps_switch_task b.kernel.machine
  ok (record b { kernel = with_machine b.kernel m })

-- The mark on the screen is left out.
unfoldable pub timer_irq : Board → Outcome Board
timer_irq b = switch (record b { kernel_timer = (b.kernel_timer + 1) % 2 ^ 32 })

abbrev pub current : Board → ℕ
current b = b.kernel.machine.current_task

abbrev pub with_handler : Kernel → ℕ → ℕ → Kernel
with_handler k irq t = record k { irq_task_map = set k.irq_task_map irq t }

-- The flags of the processor are left out of the three calls.
unfoldable pub sc_handle_irq : Board → ℕ → Outcome Board
sc_handle_irq b irq =
    let t = current b in
    let k = with_task b.kernel t (record (b.kernel.machine.task t) { irq = irq }) in
    switch (if ltb 0 irq && ltb irq 16 then record b { kernel = with_handler k irq t } else b)

unfoldable pub sc_un_handle_irq : Board → ℕ → Board × ℕ
sc_un_handle_irq b irq =
    if ltb 0 irq && ltb irq 16
    then if not ((b.kernel.machine.task (current b)).irq == irq)
      then (b, err_permission)
      else (record b { kernel = with_handler b.kernel irq 0 }, err_none)
    else (b, err_none)

unfoldable pub sc_sleep_irq : Board → Outcome Board
unfolding unmask_irq
sc_sleep_irq b =
    let t = current b in
    let irq = (b.kernel.machine.task t).irq in
    let asleep = unmask_irq (record b { kernel = with_state b.kernel t t_sleep_irq }) irq in
    switch (if irq == 0 then b else asleep)
