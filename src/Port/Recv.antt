-- ===== src/Port/Recv.antt =====
-- `port_recv` of kernel/port.c: its checks, its sleep, and what it has of a message that was sent.
use jeffos.Base.{ℕ, ◌<◌, ◌≤◌, ◌≡◌, ◌≢◌, List, [], ◌∷◌}
use Prim.Native.Nat.{min}
use jeffos.Status.{Outcome, ok, ◌>>=◌}
use jeffos.Sched.{t_sleep_port, ps_switch_task}
use jeffos.Kernel.{
  Message, Kernel, with_machine, with_task, err_permission, err_memory, err_recvport,
}
use jeffos.Port.{MsgHdr, find_port, Receipt, received, asleep}
use jeffos.Port.Take.{Taken}

-- The task may receive on the port.
pub record MayReceive (k : Kernel) (mh : ℕ) (h : MsgHdr) : Type 0 where
  pub header_low : mh ≤ 0x400000
  pub port : find_port k h.dst ≢ 0
  pub owner : (k.port (find_port k h.dst)).owner ≡ k.machine.current_task
  pub body_low : h.body ≤ 0x400000

abbrev pub slept : Kernel → MsgHdr → Kernel
slept k h =
    let t = k.machine.current_task in
    with_task k t (record (k.machine.task t) { sleeping_on = h.dst; state = t_sleep_port })

-- Why `port_recv` refuses, with the code: the checks are made in this order.
pub data Refused (k : Kernel) (mh : ℕ) (h : MsgHdr) : ℕ → Type 0 where
  high_header : 0x400000 < mh → Refused k mh h err_memory
  no_port : mh ≤ 0x400000 → find_port k h.dst ≡ 0 → Refused k mh h err_recvport
  not_owner :
      mh ≤ 0x400000
      → find_port k h.dst ≢ 0
      → (k.port (find_port k h.dst)).owner ≢ k.machine.current_task
      → Refused k mh h err_permission
  high_buffer :
      mh ≤ 0x400000
      → find_port k h.dst ≢ 0
      → (k.port (find_port k h.dst)).owner ≡ k.machine.current_task
      → 0x400000 < h.body
      → Refused k mh h err_memory

-- How `port_recv` ends, for the messages that the port holds: with a code; with the task asleep on the
-- port and another one chosen; or with the first message.
pub data RecvEnd (k : Kernel) (mh : ℕ) (h : MsgHdr) (ms : List ℕ) : Outcome Receipt → Type 0 where
  refused : (e : ℕ) → Refused k mh h e → RecvEnd k mh h ms (ok (received k h e))
  sleeps :
      MayReceive k mh h
      → ms ≡ []
      → RecvEnd k mh h ms
          (ps_switch_task (slept k h).machine >>= λ m. ok (asleep (with_machine (slept k h) m)))
  takes :
      {k' : Kernel} {h' : MsgHdr} (m : ℕ) (rest : List ℕ)
      → MayReceive k mh h
      → ms ≡ m ∷ rest
      → h' ≡ record h {
        src = (k.message m).from_port;
        dst = (k.message m).to_port;
        pid = (k.message m).pid;
      }
      → Taken k (find_port k h.dst) h m rest k'
      → RecvEnd k mh h ms (ok (received k' h' (min h.size (k.message m).size)))

first_mail : List Message → Message
first_mail [] = record { next = 0; size = 0; from_port = 0; to_port = 0; pid = 0; body = 0 }
first_mail (v ∷ vs) = v
