-- ===== src/Kernel/Sample.antt =====
-- A kernel on the started heap with a block of 16 or of 32 bytes taken, whose ports are all empty.
use jeffos.Base.{ℕ, ◌+◌, ◌-◌, ◌^◌, List, [], ◌∷◌, replicate}
use jeffos.KMem.{Heap}
use jeffos.KMem.Global.{put}
use jeffos.KMem.Sample.{warm_pages, block}
use jeffos.Resource.{Table, resource}
use jeffos.Sched.Sample.{machine}
use jeffos.Kernel.{Kernel}

abbrev pub only : ℕ → ℕ
only i = block i

abbrev pub one_free : ℕ → ℕ → List ℕ
one_free i = put (λ j. []) i []

abbrev pub one_live : ℕ → ℕ → List ℕ
one_live i = put (λ j. []) i (only i ∷ [])

abbrev pub one_pages : ℕ → ℕ → List ℕ
one_pages i = put warm_pages i (warm_pages i)

-- A semaphore at 0x700 whose queue is at 0x740, and two ports.
abbrev pub two_ports : Table
two_ports = record {
  rmap =
      resource 0 2
      ∷ resource 4 0x700
      ∷ resource 3 (only 1)
      ∷ resource 3 (only 1 + 32)
      ∷ resource 0 0
      ∷ [];
  rmax = 5;
  rfree = 4;
}

-- Task 0x4000 waits for the semaphore, and task 0x2000 runs.
abbrev pub kernel_on : Heap → Kernel
kernel_on h = record {
  machine = record (machine 7) { kernel = h.memory; table = two_ports };
  km_map = h.km_map;
  word = h.word;
  queue = λ a. record { count = 1; limit = 0; head = only 0; tail = only 0 };
  node = λ a. record { next = 0; prev = 0; data_ptr = 0x4000; dsize = 0 };
  sem = λ a. record { owner = 0; queue = 0x740; count = 2 ^ 32 - 1 };
  port = λ a. record {
    owner = 0x2000;
    restrict = 0;
    msgcount = 0;
    slaved = 0;
    first = 0;
    last = 0;
    refcount = 1;
  };
  message = λ a. record { next = 0; size = 0; from_port = 0; to_port = 0; pid = 0; body = 0 };
  byte = λ a. 0;
  user = λ a p. p;
  msg_pool = 0;
  chain = λ a. 0;
  shm_table =
      record { ref_count = 0; len_in_pages = 3; mem = 0x200000 }
      ∷ record { ref_count = 0; len_in_pages = 0; mem = 0 }
      ∷ [];
  handle_list = λ p. replicate 64 0;
  object = λ a. record { type = 0; refcount = 0; ptr = 0 };
  shm = λ a. record { ref_count = 0; len_in_pages = 0; mem = 0 };
  irq_task_map = [];
}
