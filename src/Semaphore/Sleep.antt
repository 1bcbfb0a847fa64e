-- ===== src/Semaphore/Sleep.antt =====
-- `sem_acquire` of kernel/sem.c without a credit, to the end of the switch.
use jeffos.Base.{
  ℕ, ◌+◌, ◌%◌, ◌^◌, ◌<◌, ◌≡◌, refl, sym, ◌∙◌, ap, inl, inr, ◌⊎◌, true, false, List, arith, ◌==◌,
  length,
}
use mathlib.Core.Path.{subst}
use jeffos.Status.{Outcome, ok, halted, ◌>>=◌}
use jeffos.Pages.Tables.Map.{NoneFree}
use jeffos.Pages.Alloc.Allocated.{NoPages}
use jeffos.Queue.Ops.{queue_add_tail-AddEnd}
use jeffos.Sched.{Machine, slot, tick, ps_switch_task}
use jeffos.Sched.Calm.{IsCalm, CanSwitch, tick-kernel, ps_switch_task-calm}
use jeffos.Resource.{rsrc_find}
use jeffos.Kernel.{Kernel, queue_of, with_machine, err_none}
use jeffos.Semaphore.{rsrc_sem, count_down, sleeping, wait_on, sem_acquire}
use jeffos.Semaphore.Fifo.{Fifo, acquired, Stands}
use jeffos.Semaphore.Acquire.{WaitEnd, wait_end, positive-stands}
use jeffos.Semaphore.Release.{switched}

-- The machine whose current task sleeps on the semaphore.
abbrev pub dozing : Kernel → ℕ → Machine
dozing k id = (sleeping k id).machine

-- The task in the slot `dist` behind the next one runs, and the semaphore stands for `f`.
abbrev pub Slept : Kernel → ℕ → Fifo → ℕ → Machine → Outcome (Kernel × ℕ) → Type 0
Slept k s f dist m r =
    (k' : Kernel) × (r ≡ ok (k', err_none))
    × (k'.machine.current_task ≡ slot m.task_list ((m.current_num + 1 + dist) % 1024))
    × (ns : List ℕ) × (free live pages : ℕ → List ℕ) × Stands k' s f ns free live pages

module _ (k : Kernel) (s id : ℕ) (f : Fifo) (dist : ℕ) (calm : IsCalm (dozing k id))
    (can : CanSwitch (tick (dozing k id)) dist) where
  sleep_end :
      (r : Outcome Kernel)
      → WaitEnd k s id f r
      → Slept k s
          (acquired f k.machine.current_task)
          dist
          (tick (dozing k id))
          (do k' ← r; m ← ps_switch_task k'.machine; ok (with_machine k' m, err_none))
        ⊎ (NoPages k.machine.kernel.pmat 1 ⊎ NoneFree k.machine.kernel.space.high 1)
  sleep_end (ok k') (WaitEnd.waits ns free live pages w state on same) =
      let ticked : tick k'.machine ≡ record (tick (dozing k id)) { kernel = k'.machine.kernel } =
        ap tick same ∙ tick-kernel (dozing k id) k'.machine.kernel in
      let (m, e, r, kept) =
        ps_switch_task-calm k'.machine dist (subst IsCalm (sym same) calm)
          (subst (λ m. CanSwitch m dist) (sym ticked) can) in
      inl (
        with_machine k' m,
        rw e refl,
        r.current ∙ ap (λ m. slot m.task_list ((m.current_num + 1 + dist) % 1024)) ticked,
        ns,
        free,
        live,
        pages,
        switched k' s _ ns free live pages m kept w,
      )
  sleep_end (ok k') (WaitEnd.starved none_left) = inr (inl none_left)
  sleep_end halted (WaitEnd.no_entry none_free) = inr (inr none_free)
  sleep_end Outcome.out_of_fuel e = elim e [ ]

-- A semaphore without a credit, that stands for a FIFO semaphore and is found in the resource table,
-- with fewer than 2^31 - 1 tasks on it. Once the calling task is put asleep, no slot of the list has a
-- dead task, and behind the timer's tick the slot `dist` behind the next one is the nearest with a task
-- that can be taken. Then `sem_acquire` ends with ERR_NONE, that task is the current one, and the
-- semaphore stands for the FIFO semaphore with the calling task behind the others that wait. Or the
-- kernel has no page left, or no entry in its page table, for the node of the queue.
pub sem_acquire-Slept :
    (k : Kernel) (s id : ℕ) (f : Fifo) (dist : ℕ) (ns : List ℕ) (free live pages : ℕ → List ℕ)
    → Stands k s f ns free live pages
    → rsrc_find k.machine.table rsrc_sem id ≡ s
    → 0 < s
    → length f.waiters + 1 < 2 ^ 31
    → f.credits ≡ 0
    → IsCalm (dozing k id)
    → CanSwitch (tick (dozing k id)) dist
    → Slept k s (acquired f k.machine.current_task) dist (tick (dozing k id)) (sem_acquire k id)
      ⊎ (NoPages k.machine.kernel.pmat 1 ⊎ NoneFree k.machine.kernel.space.high 1)
unfolding sem_acquire wait_on
sem_acquire-Slept k s id f dist ns free live pages v here pos few empty calm can =
    let there : (s == 0) ≡ false = ground arith in
    let none : (f.credits == 0) ≡ true = ground arith in
    let signed = positive-stands k s id f ns free live pages v in
    rw (here, there, signed, none)
      (sleep_end k s id f dist calm can _ (
        wait_end k s id f ns free live pages v few empty _ (
          queue_add_tail-AddEnd (queue_of (count_down k s) (k.sem s).queue) ns free live pages
            v.state k.machine.current_task 0)))
