-- ===== src/Sched.antt =====
-- Tasks and their scheduler, kernel/task.c: the task list, the choice of the next task, and the
-- clean-up of a dead one.
pub mod Dead
pub mod Switch
pub mod Calm
pub mod Preempt
pub mod Listed
pub mod Timer
pub mod Reclaim
pub mod Sample
mod Tests
use jeffos.Base.{
  ℕ, zero, suc, ◌+◌, ◌-◌, ◌*◌, ◌/◌, ◌%◌, ◌^◌, List, Bool, not, ◌&&◌, ◌||◌, ◌==◌, ltb, if◌then◌else◌,
  get_or, set,
}
use jeffos.Status.{Outcome, ok, status_success, status_general_error}
use jeffos.Pages.Bitmap.{Pmat, kunset_page_bit}
use jeffos.Pages.Tables.{Aspace}
use jeffos.Pages.Alloc.{Memory, mm_free_pages}
use jeffos.Resource.{Table, rsrc_del}

abbrev pub t_kernel : ℕ
t_kernel = 0

abbrev pub t_running : ℕ
t_running = 1

abbrev pub t_ready : ℕ
t_ready = 2

abbrev pub t_dead : ℕ
t_dead = 5

abbrev pub t_sleep_port : ℕ
t_sleep_port = 3

abbrev pub t_sleep_irq : ℕ
t_sleep_irq = 4

abbrev pub t_sleep_sem : ℕ
t_sleep_sem = 6

abbrev pub t_sleep_timer : ℕ
t_sleep_timer = 7

abbrev pub max_proc : ℕ
max_proc = 1024

-- `task` without its registers and its I/O map.
pub record Task : Type 0 where
  pub tid : ℕ
  pub rid : ℕ
  pub state : ℕ
  pub sleeping_on : ℕ
  pub timer : ℕ
  pub irq : ℕ
  pub parent : ℕ

pub record TaskQ : Type 0 where
  pub t : ℕ
  pub prior : ℕ

abbrev pub no_task : TaskQ
no_task = record { t = 0; prior = 0 }

-- The variables of task.c; the tasks, processes and address spaces by their addresses; the bitmap with
-- the kernel's page table; and the resource table. Of a process only its address space is read.
pub record Machine : Type 0 where
  pub task_list : List TaskQ
  pub current_task : ℕ
  pub current_num : ℕ
  pub max_used : ℕ
  pub system_timer : ℕ
  pub task : ℕ → Task
  pub process_addr : ℕ → ℕ
  pub aspace : ℕ → Aspace
  pub kernel : Memory
  pub table : Table

-- The slot of a task, and the list without it.
abbrev pub slot : List TaskQ → ℕ → ℕ
slot tasks i = (get_or tasks i no_task).t

abbrev pub write_task : (ℕ → Task) → ℕ → Task → ℕ → Task
write_task task p v a = if a == p then v else task a

abbrev pub set_state : (ℕ → Task) → ℕ → ℕ → ℕ → Task
set_state task p s = write_task task p (record (task p) { state = s })

-- The loop of `PsAddTaskToQueue` from `i` on, `k` rounds left.
unfoldable pub add_loop : ℕ → ℕ → Machine → ℕ → ℕ → Machine × ℕ
add_loop zero i m t prior = (m, status_general_error)
add_loop (suc k) i m t prior =
    let rest = add_loop k (i + 1) m t prior in
    if slot m.task_list i == 0
    then (
      record m {
        task_list = set m.task_list i (record { t = t; prior = prior });
        task = write_task m.task t (record (m.task t) { tid = i });
        max_used = if ltb m.max_used i then i else m.max_used;
      },
      status_success,
    )
    else rest

unfoldable pub ps_add_task_to_queue : Machine → ℕ → ℕ → Machine × ℕ
unfolding add_loop
ps_add_task_to_queue m t prior = add_loop max_proc 0 m t prior

-- The loop of `PsRemoveTaskFromQueue`.
unfoldable pub remove_loop : ℕ → ℕ → Machine → ℕ → Machine × ℕ
remove_loop zero i m t = (m, status_general_error)
remove_loop (suc k) i m t =
    let rest = remove_loop k (i + 1) m t in
    if slot m.task_list i == t
    then (
      record m {
        task_list = set m.task_list i (record (get_or m.task_list i no_task) { t = 0 });
        max_used = if i == m.max_used then (m.max_used + 2 ^ 32 - 1) % 2 ^ 32 else m.max_used;
      },
      status_success,
    )
    else rest

unfoldable pub ps_remove_task_from_queue : Machine → ℕ → Machine × ℕ
unfolding remove_loop
ps_remove_task_from_queue m t = remove_loop max_proc 0 m t

-- `for(i = 0xB0; i < 0xC2; i++) ptab[i] = 0;` from `i` on.
unfoldable pub clear_run : ℕ → ℕ → List ℕ → List ℕ
clear_run zero i ptab = ptab
clear_run (suc k) i ptab = clear_run k (i + 1) (set ptab i 0)

-- The loop over the entries of a page table that unmarks the page of each.
unfoldable pub free_entries : ℕ → ℕ → Pmat → List ℕ → Pmat × List ℕ
free_entries zero i pmat ptab = (pmat, ptab)
free_entries (suc k) i pmat ptab =
    let entry = get_or ptab i 0 in
    let pmat' = if entry == 0 then pmat else kunset_page_bit pmat (entry / 4096) in
    let ptab' = if entry == 0 then ptab else set ptab i 0 in free_entries k (i + 1) pmat' ptab'

-- The part of `PsCleanUpTask` for the last thread of an address space, at address `a`.
unfoldable pub destroy_space : Machine → ℕ → ℕ → Machine
unfolding clear_run free_entries
destroy_space m t a =
    let (pmat, ptab) = free_entries 1024 0 m.kernel.pmat (clear_run 18 0xB0 (m.aspace a).ptab) in
    let (kernel', _) = mm_free_pages (record m.kernel { pmat = pmat }) a 2 in
    let (kernel'', _) = mm_free_pages kernel' t 1 in
    record m {
      aspace = λ p. if p == a then record (m.aspace a) { ptab = ptab } else m.aspace p;
      kernel = kernel'';
    }

-- `PsCleanUpTask` once the task is off the list.
unfoldable pub release : Machine → ℕ → Machine
unfolding destroy_space
release m t =
    let a = m.process_addr (m.task t).parent in
    let threads = ((m.aspace a).refcount + 2 ^ 32 - 1) % 2 ^ 32 in
    let m' = record m {
      table = rsrc_del m.table (m.task t).rid;
      aspace = λ p. if p == a then record (m.aspace a) { refcount = threads } else m.aspace p;
    } in
    if threads == 0 then destroy_space m' t a else m'

unfoldable pub ps_clean_up_task : Machine → ℕ → Machine
unfolding release
ps_clean_up_task m t = release (ps_remove_task_from_queue m t).0 t

-- The step round the list.
abbrev pub next_num : ℕ → ℕ
next_num i = if i == max_proc - 1 then 0 else i + 1

-- `if(CurrentTask->state == tRUNNING) CurrentTask->state = tREADY;`
abbrev pub demoted : (ℕ → Task) → ℕ → ℕ → Task
demoted task current =
    if (task current).state == t_running then set_state task current t_ready else task

unfoldable pub demote : Machine → Machine
demote m = record m { task = demoted m.task m.current_task }

-- `CurrentTask = t; CurrentTask->state = tRUNNING;`, after which the processor switches to the task.
unfoldable pub run : Machine → ℕ → Machine
run m t = record m { current_task = t; task = set_state m.task t t_running }

-- From `Again` on in `PsPreemptTask`.
unfoldable pub preempt_loop : ℕ → Machine → ℕ → Outcome Machine
unfolding demote run
preempt_loop zero m t = Outcome.out_of_fuel
preempt_loop (suc fuel) m t =
    let m₁ = record m { current_num = next_num m.current_num } in
    let again = preempt_loop fuel m₁ t in
    let here = slot m₁.task_list m₁.current_num in
    if here == 0 then again else if here == t then ok (run (demote m₁) t) else again

unfoldable pub ps_preempt_task : Machine → ℕ → Outcome Machine
unfolding preempt_loop
ps_preempt_task m t = preempt_loop max_proc m t

-- The loop of `PsSwitchTask` that wakes the tasks that sleep on a timer.
unfoldable pub wake_loop : ℕ → ℕ → Machine → Machine
wake_loop zero x m = m
wake_loop (suc k) x m =
    let t = slot m.task_list x in
    let woken = write_task m.task t (record (m.task t) { state = t_ready; timer = 0 }) in
    wake_loop k (x + 1)
      (record m { task = if (m.task t).state == t_sleep_timer then woken else m.task })

unfoldable pub tick : Machine → Machine
unfolding wake_loop
tick m =
    let m₁ = record m { system_timer = 0 } in
    if ltb 100 (m.system_timer + 1)
    then wake_loop ((m.max_used + 1) % 2 ^ 32) 0 m₁
    else record m { system_timer = m.system_timer + 1 }

-- `tREADY` or `tKERNEL`
abbrev pub may_run : ℕ → Bool
may_run s = (s == t_ready) || (s == t_kernel)

-- A dead task is cleaned up, and its slot is emptied.
unfoldable pub bury : Machine → ℕ → Machine
unfolding ps_clean_up_task
bury m t =
    let m₁ = ps_clean_up_task m t in
    record m₁ {
      task_list =
          set m₁.task_list m₁.current_num
            (record (get_or m₁.task_list m₁.current_num no_task) { t = 0 });
    }

-- From `Again` on in `PsSwitchTask`.
unfoldable pub switch_loop : ℕ → Machine → Outcome Machine
unfolding demote run bury
switch_loop zero m = Outcome.out_of_fuel
switch_loop (suc fuel) m =
    let m₁ = demote (record m { current_num = next_num m.current_num }) in
    let t = slot m₁.task_list m₁.current_num in
    let s = (m₁.task t).state in
    let again = switch_loop fuel (if not (t == 0) && (s == t_dead) then bury m₁ t else m₁) in
    if t == 0
    then again
    else if s == t_dead
    then again
    else if may_run s
    then ok (run m₁ t)
    else again

unfoldable pub ps_switch_task : Machine → Outcome Machine
unfolding tick switch_loop
ps_switch_task m = switch_loop max_proc (tick m)

-- `PsTerminateTask`
unfoldable pub ps_terminate_task : Machine → ℕ → Outcome Machine
ps_terminate_task m t = ps_switch_task (record m { task = set_state m.task t t_dead })
