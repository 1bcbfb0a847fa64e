-- ===== src/Syscalls.antt =====
-- The system calls: `syscall22` of kernel/int.c, the table of kernel/kinit.c, and the handlers of
-- kernel/syscall.c that pass a call on.
pub mod Table
pub mod Stubs
mod Tests
use jeffos.Base.{ℕ, zero, suc, ◌+◌, ◌%◌, List, [], ◌∷◌, ◌==◌, if◌then◌else◌, get_or, set, replicate}
use jeffos.Status.{Outcome, ok, halted, status_success, status_general_error, ◌>>=◌}
use jeffos.Pages.Space.{brk}
use jeffos.Sched.{Machine, t_dead, t_sleep_timer}
use jeffos.Kernel.{Kernel, with_task}
use jeffos.Semaphore.{sem_create, sem_destroy, sem_acquire, sem_release}
use jeffos.Port.{
  MsgHdr, Receipt, received, asleep, port_create, port_destroy, port_option, port_send, port_recv,
}
use jeffos.Shared.{
  current_process, space_address, with_memory, with_space, sm_create_seg, sm_attach_seg,
  sm_close_seg,
}
use jeffos.Create.{ps_create_new_task}
use jeffos.Interrupts.{
  Board, switch, current, with_state, sc_handle_irq, sc_un_handle_irq, sc_sleep_irq,
}

-- The registers that a handler reads.
pub record Regs : Type 0 where
  pub eax : ℕ
  pub ebx : ℕ
  pub ecx : ℕ
  pub edx : ℕ

-- What a call depends on besides the state: the message header at an address of the task's memory, the
-- value of a variable that is not set, and the address of the variable `mem` of `ScAttachSegment`. The
-- debugger, and the part of `ScCreateThread` that is not finished, are what they do to the board.
pub record Context : Type 0 where
  pub header : ℕ → MsgHdr
  pub stale : ℕ
  pub mem_address : ℕ
  pub debugger : Board → Outcome Board
  pub fork : Board → Outcome Board

-- A call comes back with a status, and perhaps with a header; or its task waits for a message.
pub data Reply : Type 0 where
  returned : Board → ℕ → Reply
  received_at : Board → MsgHdr → ℕ → Reply
  waiting : Board → Reply

-- `no_handler` is the NULL that an entry of `SysCallTable` holds before `kinit_syscall`.
pub data Handler : Type 0 where
  no_handler : Handler
  null_sys_call : Handler
  sc_os_console : Handler
  sc_os_debug : Handler
  sc_create_port : Handler
  sc_read_port : Handler
  sc_send_port : Handler
  sc_close_port : Handler
  sc_set_port_options : Handler
  sc_handle : Handler
  sc_sleep_for : Handler
  sc_create_thread : Handler
  sc_terminate_process : Handler
  sc_sleep : Handler
  sc_wait : Handler
  sc_os_brk : Handler
  sc_create_segment : Handler
  sc_attach_segment : Handler
  sc_close_segment : Handler
  sc_create_semaphore : Handler
  sc_acquire_semaphore : Handler
  sc_release_semaphore : Handler
  sc_destroy_semaphore : Handler

-- `SysCallTable[n] = h;` in the order of the code.
abbrev pub registered : List (ℕ × Handler)
registered =
    (1, sc_os_console)
    ∷ (3, sc_os_debug)
    ∷ (10, sc_create_port)
    ∷ (11, sc_read_port)
    ∷ (12, sc_send_port)
    ∷ (13, sc_close_port)
    ∷ (14, sc_set_port_options)
    ∷ (21, sc_handle)
    ∷ (23, sc_sleep_for)
    ∷ (50, sc_create_thread)
    ∷ (51, sc_terminate_process)
    ∷ (55, sc_sleep)
    ∷ (58, sc_wait)
    ∷ (90, sc_os_brk)
    ∷ (91, sc_create_segment)
    ∷ (92, sc_attach_segment)
    ∷ (93, sc_close_segment)
    ∷ (94, sc_create_semaphore)
    ∷ (95, sc_acquire_semaphore)
    ∷ (96, sc_release_semaphore)
    ∷ (97, sc_destroy_semaphore)
    ∷ []

unfoldable pub install : List (ℕ × Handler) → List Handler → List Handler
install [] table = table
install ((n, h) ∷ rest) table = install rest (set table n h)

-- `for(i = 0; i < 256; i++) SysCallTable[i] = NullSysCall;` from `i` on.
unfoldable pub fill : ℕ → ℕ → List Handler → List Handler
fill zero i table = table
fill (suc k) i table = fill k (i + 1) (set table i null_sys_call)

unfoldable pub kinit_syscall : List Handler
unfolding install fill
kinit_syscall = install registered (fill 256 0 (replicate 256 no_handler))

abbrev pub reply_of : Board → Outcome (Kernel × ℕ) → Outcome Reply
reply_of b r = do (k, n) ← r; ok (returned (record b { kernel = k }) n)

abbrev pub after : Outcome Board → ℕ → Outcome Reply
after r n = do b ← r; ok (returned b n)

unfoldable pub run_sleep : Board → ℕ → Outcome Reply
run_sleep b time =
    let k = b.kernel in
    let t = current b in
    after
      (switch (record b {
        kernel = with_task k t (record (k.machine.task t) { state = t_sleep_timer; timer = time });
      }))
      time

-- The call of the task with the id 0 changes nothing.
unfoldable pub run_terminate : Board → Outcome Reply
run_terminate b =
    let dies = after (switch (record b { kernel = with_state b.kernel (current b) t_dead })) 0 in
    if (b.kernel.machine.task (current b)).tid == 0 then ok (returned b 0) else dies

unfoldable pub run_brk : Board → ℕ → Outcome Reply
run_brk b address = do
  let k = b.kernel
  let a = space_address k
  (m, n) ← brk (record k.machine.kernel { space = k.machine.aspace a }) address
  let k' = with_space (with_memory k (record k.machine.kernel { pmat = m.pmat })) a m.space
  ok (returned (record b { kernel = k' }) n)

-- What `ScCreateSegment` answers is the key, and what `ScAttachSegment` answers is the address.
unfoldable pub run_create_segment : Board → ℕ → Outcome Reply
run_create_segment b size = do
  (k, key, status) ← sm_create_seg b.kernel size
  ok (returned (record b { kernel = k }) key)

unfoldable pub run_attach_segment : Context → Board → ℕ → Outcome Reply
run_attach_segment c b key = do
  (k, address, status) ← sm_attach_seg c.stale b.kernel key c.mem_address
  ok (returned (record b { kernel = k }) address)

receipt_reply : Board → Receipt → Reply
receipt_reply b (received k h n) = received_at (record b { kernel = k }) h n
receipt_reply b (asleep k) = waiting (record b { kernel = k })

unfoldable pub run_read_port : Board → ℕ → MsgHdr → Outcome Reply
unfolding receipt_reply
run_read_port b mh h = do r ← port_recv b.kernel mh h; ok (receipt_reply b r)

-- The status of the new task is not looked at.
unfoldable pub run_create_thread : Context → Board → ℕ → Outcome Reply
run_create_thread c b kind =
    let made = (do
      (k, status) ← ps_create_new_task c.stale b.kernel (current_process b.kernel)
      ok (returned (record b { kernel = k }) 0)) in
    let forked = after (c.fork b) 0 in
    if kind == 0 then made else if kind == 1 then forked else ok (returned b 0)

abbrev pub pair_reply : Board → Kernel × ℕ → Reply
pair_reply b (k, n) = returned (record b { kernel = k }) n

unfoldable pub handle : Handler → Context → Board → Regs → Outcome Reply
unfolding run_sleep run_terminate run_brk run_create_segment run_attach_segment run_read_port
    run_create_thread
handle no_handler c b r = halted
handle null_sys_call c b r = ok (returned b status_general_error)
handle sc_os_console c b r = ok (returned b status_success)
handle sc_os_debug c b r = after (c.debugger b) status_success
handle sc_create_port c b r = reply_of b (port_create b.kernel r.ecx)
handle sc_read_port c b r = run_read_port b r.ebx (c.header r.ebx)
handle sc_send_port c b r = reply_of b (port_send b.kernel r.ebx (c.header r.ebx))
handle sc_close_port c b r = reply_of b (port_destroy b.kernel r.ecx)
handle sc_set_port_options c b r = reply_of b (port_option b.kernel r.ecx r.ebx r.edx)
handle sc_handle c b r = after (sc_handle_irq b r.ebx) c.stale
handle sc_sleep_for c b r = after (sc_sleep_irq b) c.stale
handle sc_create_thread c b r = run_create_thread c b r.ecx
handle sc_terminate_process c b r = run_terminate b
handle sc_sleep c b r = run_sleep b r.ebx
handle sc_wait c b r = after (switch b) c.stale
handle sc_os_brk c b r = run_brk b r.ebx
handle sc_create_segment c b r = run_create_segment b r.ebx
handle sc_attach_segment c b r = run_attach_segment c b r.ebx
handle sc_close_segment c b r = ok (pair_reply b (sm_close_seg b.kernel r.ebx))
handle sc_create_semaphore c b r = reply_of b (sem_create b.kernel r.ebx)
handle sc_acquire_semaphore c b r = reply_of b (sem_acquire b.kernel r.ebx)
handle sc_release_semaphore c b r = reply_of b (sem_release b.kernel r.ebx)
handle sc_destroy_semaphore c b r = ok (pair_reply b (sem_destroy c.stale b.kernel r.ebx))

-- The reply's number goes to the task in `eax`.
unfoldable pub syscall22 : List Handler → Context → Board → Regs → Outcome Reply
unfolding handle
syscall22 table c b r = handle (get_or table (r.eax % 256) no_handler) c b r
