-- ===== src/Syscalls/Tests.antt =====
-- The registers of a call that closes port 2.
use jeffos.Base.{◌≡◌}
use jeffos.Status.{ok}
use jeffos.KMem.Sample.{one_taken32}
use jeffos.Kernel.Sample.{kernel_on}
use jeffos.Interrupts.{Board}
use jeffos.Semaphore.{sem_create}
use jeffos.Syscalls.{Context, Regs, kinit_syscall, reply_of, syscall22}
use jeffos.Syscalls.Stubs.{os_destroy_sem, trap, served, syscall22-served}

abbrev board : Board
board = record { kernel = kernel_on one_taken32.0; mask0 = 0; mask1 = 0; kernel_timer = 0 }

abbrev context : Context
context = record {
  header = λ a. record { flags = 0; src = 2; dst = 3; size = 8; pid = 0; body = 0x300000 };
  stale = 7;
  mem_address = 0x80009FF0;
  debugger = λ b. ok b;
  fork = λ b. ok b;
}

-- Only the lowest byte of `eax` counts.
abbrev close_port : Regs
close_port = record { eax = 0x10D; ebx = 0; ecx = 2; edx = 0 }

-- `os_DestroySem(5)` makes a semaphore of 5 credits.
destroys :
    syscall22 kinit_syscall context board (trap (os_destroy_sem 5) close_port)
    ≡ reply_of board (sem_create board.kernel 5)
unfolding served
destroys = (syscall22-served context board close_port).0 (os_destroy_sem 5)
