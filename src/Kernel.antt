-- ===== src/Kernel.antt =====
-- The kernel's state as its system calls see it: the tasks and pages of Sched, the heap of KMem, and
-- the structures that live in its blocks, each at its address.
pub mod Sample
use jeffos.Base.{ℕ, ◌^◌, Option, none, some, List, Bool, ◌&&◌, ltb, ◌==◌, if◌then◌else◌}
use jeffos.Status.{Outcome, ok, halted, ◌>>=◌}
use jeffos.KMem.{KmMap, Heap}
use jeffos.Queue.{Queue, QNode, State}
use jeffos.Sched.{Task, Machine, write_task}
use jeffos.Objects.{KObject}
use jeffos.Resource.{Table, rsrc_new}

-- `sem` of kernel/sem.h.
pub record Sem : Type 0 where
  pub owner : ℕ
  pub queue : ℕ
  pub count : ℕ

-- `msg_port` of kernel/port.h.
pub record MsgPort : Type 0 where
  pub owner : ℕ
  pub restrict : ℕ
  pub msgcount : ℕ
  pub slaved : ℕ
  pub first : ℕ
  pub last : ℕ
  pub refcount : ℕ

-- `message` of kernel/port.h.
pub record Message : Type 0 where
  pub next : ℕ
  pub size : ℕ
  pub from_port : ℕ
  pub to_port : ℕ
  pub pid : ℕ
  pub body : ℕ

-- `shm_t` of kernel/shm.h.
pub record Shm : Type 0 where
  pub ref_count : ℕ
  pub len_in_pages : ℕ
  pub mem : ℕ

-- `byte` is the kernel's memory and `user` that of the process whose address space is at an address,
-- both as bytes. `msg_pool` and `chain` are the pages that port.c keeps, and the first word of each. The
-- handles are those of the process at an address, and `shm` is what an object of shared memory holds.
pub record Kernel : Type 0 where
  pub machine : Machine
  pub km_map : List KmMap
  pub word : ℕ → ℕ
  pub queue : ℕ → Queue
  pub node : ℕ → QNode
  pub sem : ℕ → Sem
  pub port : ℕ → MsgPort
  pub message : ℕ → Message
  pub byte : ℕ → ℕ
  pub user : ℕ → ℕ → ℕ
  pub msg_pool : ℕ
  pub chain : ℕ → ℕ
  pub shm_table : List Shm
  pub handle_list : ℕ → List ℕ
  pub object : ℕ → KObject
  pub shm : ℕ → Shm
  pub irq_task_map : List ℕ

abbrev pub heap_of : Kernel → Heap
heap_of k = record { km_map = k.km_map; word = k.word; memory = k.machine.kernel }

abbrev pub with_heap : Kernel → Heap → Kernel
with_heap k h = record k {
  machine = record k.machine { kernel = h.memory };
  km_map = h.km_map;
  word = h.word;
}

abbrev pub update {ℓ} : {A : Type ℓ} → (ℕ → A) → ℕ → A → ℕ → A
update f p v a = if a == p then v else f a

-- The queue at an address with the nodes and the heap.
abbrev pub queue_of : Kernel → ℕ → State
queue_of k q = record { queue = k.queue q; node = k.node; heap = heap_of k }

abbrev pub with_queue : Kernel → ℕ → State → Kernel
with_queue k q s = record (with_heap k s.heap) { queue = update k.queue q s.queue; node = s.node }

abbrev pub with_machine : Kernel → Machine → Kernel
with_machine k m = record k { machine = m }

abbrev pub with_table : Kernel → Table → Kernel
with_table k t = record k { machine = record k.machine { table = t } }

-- The current task's record changed.
abbrev pub with_task : Kernel → ℕ → Task → Kernel
with_task k t v = record k { machine = record k.machine { task = write_task k.machine.task t v } }

-- `rsrc_new` of the kernel's table. A read outside the map has no value and stands as a halt here.
abbrev pub or_halt {ℓ} : {A : Type ℓ} → Option A → Outcome A
or_halt none = halted
or_halt (some a) = ok a

unfoldable pub new_resource : Kernel → ℕ → ℕ → Outcome (Kernel × ℕ)
new_resource k type p = do
  (t, id) ← or_halt (rsrc_new k.machine.table type p)
  ok (with_table k t, id)

-- The codes of include/error.h, as words.
abbrev pub err_none : ℕ
err_none = 0

abbrev pub err_permission : ℕ
err_permission = 0xFFFFFFFF

abbrev pub err_resource : ℕ
err_resource = 0xFFFFFFFE

abbrev pub err_memory : ℕ
err_memory = 0xFFFFFFFD

abbrev pub err_sendport : ℕ
err_sendport = 0xFFFFFFFC

abbrev pub err_recvport : ℕ
err_recvport = 0xFFFFFFFB
