-- ===== src/Syscalls/Stubs.antt =====
-- The system calls from the other side: lib/syscall.c, and the operation that each reaches.
use jeffos.Base.{
  ℕ, ◌+◌, ◌*◌, ◌/◌, ◌%◌, ◌≡◌, refl, ◌∙◌, ap, none, some, List, [], ◌∷◌, arith, ◌==◌, has, true,
  false, inl, inr, ◌⊎◌, Bool-cases,
}
use jeffos.Status.{Outcome, ok, status_success, status_general_error}
use jeffos.Semaphore.{sem_create, sem_acquire, sem_release}
use jeffos.Port.{port_create, port_destroy, port_option, port_send}
use jeffos.Shared.{sm_close_seg}
use jeffos.Interrupts.{Board, switch, sc_handle_irq, sc_sleep_irq}
use jeffos.Syscalls.{
  Context, Regs, Reply, returned, Handler, registered, kinit_syscall, reply_of, pair_reply, after,
  handle, run_sleep, run_terminate, run_brk, run_create_segment, run_attach_segment, run_read_port,
  run_create_thread, syscall22,
}
use jeffos.Syscalls.Table.{handler_of, answer, syscall22-answer}

-- The functions of lib/syscall.c with their arguments. What they return is left out.
pub data Stub : Type 0 where
  os_sleep : (sec : ℕ) → Stub
  os_create_sem : (count : ℕ) → Stub
  os_acquire_sem : (id : ℕ) → Stub
  os_release_sem : (id : ℕ) → Stub
  os_destroy_sem : (id : ℕ) → Stub
  os_create_segment : (pages : ℕ) → Stub
  os_attach_segment : (key : ℕ) → Stub
  os_close_segment : (key : ℕ) → Stub
  os_brk : (addr : ℕ) → Stub
  os_console : (string : ℕ) → Stub
  os_sleep_irq : Stub
  os_handle_irq : (irq : ℕ) → Stub
  terminate_process : (status : ℕ) → Stub
  port_create_call : (restrict : ℕ) → Stub
  port_destroy_call : (port : ℕ) → Stub
  port_send_call : (mh : ℕ) → Stub
  port_recv_call : (mh : ℕ) → Stub
  port_option_call : (port opt arg : ℕ) → Stub
  os_thread : (addr arg : ℕ) → Stub
  os_debug : Stub
  wait : Stub

-- `mov $n, %ax` leaves the upper half of `eax`.
abbrev pub numbered : ℕ → Regs → Regs
numbered n r = record r { eax = r.eax / 65536 * 65536 + n }

abbrev pub with_ebx : ℕ → ℕ → Regs → Regs
with_ebx n x r = numbered n (record r { ebx = x })

abbrev pub with_ecx : ℕ → ℕ → Regs → Regs
with_ecx n x r = numbered n (record r { ecx = x })

-- The registers at `int $0x22`, where those before the function were `r`.
unfoldable pub trap : Stub → Regs → Regs
trap (os_sleep sec) r = with_ebx 55 sec r
trap (os_create_sem count) r = with_ebx 94 count r
trap (os_acquire_sem id) r = with_ebx 95 id r
trap (os_release_sem id) r = with_ebx 96 id r
trap (os_destroy_sem id) r = with_ebx 94 id r
trap (os_create_segment pages) r = with_ebx 91 pages r
trap (os_attach_segment key) r = with_ebx 92 key r
trap (os_close_segment key) r = with_ebx 93 key r
trap (os_brk addr) r = with_ebx 90 addr r
trap (os_console string) r = with_ebx 1 string r
trap os_sleep_irq r = with_ebx 23 0 r
trap (os_handle_irq irq) r = with_ebx 21 irq r
trap (terminate_process status) r = with_ebx 51 status r
trap (port_create_call restrict) r = with_ecx 10 restrict r
trap (port_destroy_call port) r = with_ecx 13 port r
trap (port_send_call mh) r = with_ebx 12 mh r
trap (port_recv_call mh) r = with_ebx 11 mh r
trap (port_option_call port opt arg) r = numbered 14 (record r { ebx = arg; ecx = port; edx = opt })
trap (os_thread addr arg) r = numbered 50 (record r { ebx = addr; ecx = arg })
trap os_debug r = with_ebx 3 0 r
trap wait r = with_ebx 58 0 r

-- What the kernel does for each: the operation on the arguments. `os_DestroySem` has the number of
-- the call that makes a semaphore.
unfoldable pub served : Stub → Context → Board → Outcome Reply
served (os_sleep sec) c b = run_sleep b sec
served (os_create_sem count) c b = reply_of b (sem_create b.kernel count)
served (os_acquire_sem id) c b = reply_of b (sem_acquire b.kernel id)
served (os_release_sem id) c b = reply_of b (sem_release b.kernel id)
served (os_destroy_sem id) c b = reply_of b (sem_create b.kernel id)
served (os_create_segment pages) c b = run_create_segment b pages
served (os_attach_segment key) c b = run_attach_segment c b key
served (os_close_segment key) c b = ok (pair_reply b (sm_close_seg b.kernel key))
served (os_brk addr) c b = run_brk b addr
served (os_console string) c b = ok (returned b status_success)
served os_sleep_irq c b = after (sc_sleep_irq b) c.stale
served (os_handle_irq irq) c b = after (sc_handle_irq b irq) c.stale
served (terminate_process status) c b = run_terminate b
served (port_create_call restrict) c b = reply_of b (port_create b.kernel restrict)
served (port_destroy_call port) c b = reply_of b (port_destroy b.kernel port)
served (port_send_call mh) c b = reply_of b (port_send b.kernel mh (c.header mh))
served (port_recv_call mh) c b = run_read_port b mh (c.header mh)
served (port_option_call port opt arg) c b = reply_of b (port_option b.kernel port arg opt)
served (os_thread addr arg) c b = run_create_thread c b arg
served os_debug c b = after (c.debugger b) status_success
served wait c b = after (switch b) c.stale

-- The call of a number whose handler is known.
reaches :
    (c : Context) (b : Board) (r : Regs) (n : ℕ) (h : Handler)
    → r.eax % 256 ≡ n
    → handler_of n registered ≡ some h
    → syscall22 kinit_syscall c b r ≡ handle h c b r
unfolding answer
reaches c b r n h at there =
    syscall22-answer c b r ∙ ap (λ o. answer o c b r) (ap (λ m. handler_of m registered) at ∙ there)

stub_lem :
    (s : Stub) (c : Context) (b : Board) (r : Regs)
    → syscall22 kinit_syscall c b (trap s r) ≡ served s c b
unfolding trap served handle handler_of
stub_lem (os_sleep sec) c b r = reaches c b _ 55 _ (omega arith) refl
stub_lem (os_create_sem count) c b r = reaches c b _ 94 _ (omega arith) refl
stub_lem (os_acquire_sem id) c b r = reaches c b _ 95 _ (omega arith) refl
stub_lem (os_release_sem id) c b r = reaches c b _ 96 _ (omega arith) refl
stub_lem (os_destroy_sem id) c b r = reaches c b _ 94 _ (omega arith) refl
stub_lem (os_create_segment pages) c b r = reaches c b _ 91 _ (omega arith) refl
stub_lem (os_attach_segment key) c b r = reaches c b _ 92 _ (omega arith) refl
stub_lem (os_close_segment key) c b r = reaches c b _ 93 _ (omega arith) refl
stub_lem (os_brk addr) c b r = reaches c b _ 90 _ (omega arith) refl
stub_lem (os_console string) c b r = reaches c b _ 1 _ (omega arith) refl
stub_lem os_sleep_irq c b r = reaches c b _ 23 _ (omega arith) refl
stub_lem (os_handle_irq irq) c b r = reaches c b _ 21 _ (omega arith) refl
stub_lem (terminate_process status) c b r = reaches c b _ 51 _ (omega arith) refl
stub_lem (port_create_call restrict) c b r = reaches c b _ 10 _ (omega arith) refl
stub_lem (port_destroy_call port) c b r = reaches c b _ 13 _ (omega arith) refl
stub_lem (port_send_call mh) c b r = reaches c b _ 12 _ (omega arith) refl
stub_lem (port_recv_call mh) c b r = reaches c b _ 11 _ (omega arith) refl
stub_lem (port_option_call port opt arg) c b r = reaches c b _ 14 _ (omega arith) refl
stub_lem (os_thread addr arg) c b r = reaches c b _ 50 _ (omega arith) refl
stub_lem os_debug c b r = reaches c b _ 3 _ (omega arith) refl
stub_lem wait c b r = reaches c b _ 58 _ (omega arith) refl

-- The numbers that the functions use, and 97, which none does.
abbrev pub numbers : List ℕ
numbers =
    1 ∷ 3 ∷ 10 ∷ 11 ∷ 12 ∷ 13 ∷ 14 ∷ 21 ∷ 23 ∷ 50 ∷ 51 ∷ 55 ∷ 58 ∷ 90 ∷ 91 ∷ 92 ∷ 93 ∷ 94 ∷ 95 ∷ 96
    ∷ 97 ∷ []

numbers_of : List (ℕ × Handler) → List ℕ
numbers_of [] = []
numbers_of ((n, h) ∷ rest) = n ∷ numbers_of rest

handler_of-none :
    (n : ℕ) (ps : List (ℕ × Handler)) → has n (numbers_of ps) ≡ false → handler_of n ps ≡ none
unfolding handler_of numbers_of
handler_of-none n [] e = refl
handler_of-none n ((m, h) ∷ rest) e =
    let other : (n == m) ≡ false = ground (arith, e) in
    rw other (handler_of-none n rest (ground (arith, e)))

unknown_lem :
    (c : Context) (b : Board) (r : Regs)
    → has (r.eax % 256) numbers ≡ false
    → syscall22 kinit_syscall c b r ≡ ok (returned b status_general_error)
unfolding answer numbers_of
unknown_lem c b r e =
    syscall22-answer c b r ∙ ap (λ o. answer o c b r) (handler_of-none (r.eax % 256) registered e)

pub syscall22-served :
    (c : Context) (b : Board) (r : Regs)
    → ((s : Stub) → syscall22 kinit_syscall c b (trap s r) ≡ served s c b)
      × ((syscall22 kinit_syscall c b r ≡ ok (returned b status_general_error))
          ⊎ (has (r.eax % 256) numbers ≡ true))
syscall22-served c b r = (
  λ s. stub_lem s c b r,
  elim (Bool-cases (has (r.eax % 256) numbers)) [
    | inl e ↦ inr e
    | inr e ↦ inl (unknown_lem c b r e)
  ],
)
