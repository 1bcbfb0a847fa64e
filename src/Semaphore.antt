-- ===== src/Semaphore.antt =====
-- Semaphores, kernel/sem.c: a count, and a queue of the tasks that wait.
pub mod Fifo
pub mod Acquire
pub mod Release
pub mod Sleep
mod Tests
use jeffos.Base.{
  positive, ℕ, ◌+◌, ◌-◌, ◌%◌, ◌^◌, Option, none, some, Bool, ◌&&◌, ◌==◌, ltb, if◌then◌else◌,
}
use jeffos.Status.{Outcome, ok, ◌>>=◌}
use jeffos.KMem.{kmalloc}
use jeffos.Queue.{km16, queue_new, queue_add_tail, queue_remove_head}
use jeffos.Sched.{t_ready, t_sleep_sem, ps_switch_task, ps_preempt_task}
use jeffos.Resource.{rsrc_find}
use jeffos.Kernel.{
  Sem, Kernel, heap_of, with_heap, update, queue_of, with_queue, with_machine, with_task,
  new_resource, err_none, err_resource,
}

abbrev pub rsrc_sem : ℕ
rsrc_sem = 4

-- The owner keeps what the block held.
unfoldable pub sem_create : Kernel → ℕ → Outcome (Kernel × ℕ)
unfolding queue_new new_resource
sem_create k count = do
  (h, s) ← kmalloc (heap_of k) km16
  (h', q, queue) ← queue_new h 0
  let k' = with_heap k h'
  let v = record (k.sem s) { queue = q; count = count }
  new_resource (record k' { queue = update k.queue q queue; sem = update k.sem s v }) rsrc_sem s

-- The body is empty, and what it answers is not defined: `stale` is that word.
unfoldable pub sem_destroy : ℕ → Kernel → ℕ → Kernel × ℕ
sem_destroy stale k id = (k, stale)

-- `s->count--` and `s->count++`
abbrev pub count_down : Kernel → ℕ → Kernel
count_down k s = record k {
  sem = update k.sem s (record (k.sem s) { count = ((k.sem s).count + 2 ^ 32 - 1) % 2 ^ 32 });
}

abbrev pub count_up : Kernel → ℕ → Kernel
count_up k s = record k {
  sem = update k.sem s (record (k.sem s) { count = ((k.sem s).count + 1) % 2 ^ 32 });
}

-- The current task goes to sleep on the semaphore.
abbrev pub sleeping : Kernel → ℕ → Kernel
sleeping k id =
    let t = k.machine.current_task in
    with_task k t (record (k.machine.task t) { sleeping_on = id; state = t_sleep_sem })

-- The other branch of `sem_acquire`: the task goes on the queue and sleeps.
unfoldable pub wait_on : Kernel → ℕ → ℕ → Outcome Kernel
wait_on k s id = do
  let q = (k.sem s).queue
  qs ← queue_add_tail (queue_of (count_down k s) q) k.machine.current_task 0
  ok (sleeping (with_queue (count_down k s) q qs) id)

-- The answer is what the task gets when it runs again.
unfoldable pub sem_acquire : Kernel → ℕ → Outcome (Kernel × ℕ)
unfolding wait_on
sem_acquire k id =
    let s = rsrc_find k.machine.table rsrc_sem id in
    let waits = (do
      k' ← wait_on k s id
      m ← ps_switch_task k'.machine
      ok (with_machine k' m, err_none)) in
    if s == 0
    then ok (k, err_resource)
    else if positive (k.sem s).count
    then ok (count_down k s, err_none)
    else waits

-- The task that `queue_removeHead` gave, if there is one.
unfoldable pub wake : Kernel → Option (ℕ × ℕ) → Outcome (Kernel × ℕ)
wake k none = ok (k, err_none)
wake k (some (t, size)) =
    let k' = with_task k t (record (k.machine.task t) { state = t_ready }) in
    let preempt = (do m ← ps_preempt_task k'.machine t; ok (with_machine k' m, err_none)) in
    if t == 0 then ok (k, err_none) else preempt

unfoldable pub sem_release : Kernel → ℕ → Outcome (Kernel × ℕ)
unfolding wake
sem_release k id =
    let s = rsrc_find k.machine.table rsrc_sem id in
    let released = (do
      let q = (k.sem s).queue
      (qs, taken) ← queue_remove_head (queue_of (count_up k s) q)
      wake (with_queue (count_up k s) q qs) taken) in
    if s == 0 then ok (k, err_resource) else released
