-- ===== src/Sched/Sample.antt =====
-- A machine with four tasks: the kernel's, one that runs, a dead one, and one that is ready.
use jeffos.Base.{ℕ, [], ◌∷◌, ◌==◌, if◌then◌else◌, replicate}
use jeffos.Pages.Sample.{sample}
use jeffos.Sched.{Task, TaskQ, Machine, no_task}

abbrev pub in_state : ℕ → ℕ → Task
in_state rid state = record {
  tid = 0;
  rid = rid;
  state = state;
  sleeping_on = 0;
  timer = 9;
  irq = 0;
  parent = 0x9000;
}

abbrev pub tasks : ℕ → Task
tasks a =
    if a == 0x1000
    then in_state 1 0
    else if a == 0x2000
    then in_state 2 1
    else if a == 0x3000
    then in_state 3 5
    else in_state 4 2

abbrev pub queued : ℕ → TaskQ
queued t = record { t = t; prior = 0 }

abbrev pub machine : ℕ → Machine
machine timer = record {
  task_list =
      queued 0x1000 ∷ queued 0x2000 ∷ queued 0x3000 ∷ queued 0x4000 ∷ replicate 1020 no_task;
  current_task = 0x2000;
  current_num = 1;
  max_used = 3;
  system_timer = timer;
  task = tasks;
  process_addr = λ p. 0xA000;
  aspace = λ a. record { pdir = []; refcount = 1; ptab = []; high = [] };
  kernel = sample;
  table = record { rmap = []; rmax = 0; rfree = 0 };
}
