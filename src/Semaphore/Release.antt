-- ===== src/Semaphore/Release.antt =====
-- `sem_release` of kernel/sem.c against the FIFO semaphore.
use jeffos.Base.{
  ℕ, ◌+◌, ◌%◌, ◌^◌, ◌<◌, ◌≡◌, ◌≢◌, refl, ◌∙◌, ap, List, [], ◌∷◌, arith, false, ◌==◌, length,
  ==_refl, inl, inr, Bool-cases, has,
}
use mathlib.Core.Path.{subst}
use jeffos.Status.{ok, ◌>>=◌}
use jeffos.KMem.Give.{without}
use jeffos.KMem.Global.{put}
use jeffos.Queue.{km16}
use jeffos.Queue.Links.{contents}
use jeffos.Queue.Ops.{queue_remove_head-Removed}
use jeffos.Sched.{Machine, t_ready, slot, ps_preempt_task}
use jeffos.Sched.Preempt.{ps_preempt_task-Running, Kept, IfEnds, preempt_loop-Kept}
use jeffos.Resource.{rsrc_find}
use jeffos.Kernel.{Kernel, queue_of, with_queue, with_machine, with_task, err_none}
use jeffos.Semaphore.{rsrc_sem, count_up, wake, sem_release}
use jeffos.Semaphore.Fifo.{Fifo, given_back, Stands}

-- Where `sem_release` ends for the tasks `ts` that waited: with a credit more; or with the first of
-- them ready, off the queue, and switched to.
abbrev pub Released :
    Kernel → ℕ → ℕ → ℕ → List ℕ → List ℕ → (ℕ → List ℕ) → (ℕ → List ℕ) → (ℕ → List ℕ) → Type 0
Released k s id credits [] ns free live pages =
    (k' : Kernel) × (sem_release k id ≡ ok (k', err_none))
    × (k'.machine ≡ k.machine)
    × Stands k' s (given_back credits []) ns free live pages
Released k s id credits (t ∷ ts) ns free live pages =
    (k' : Kernel) × (sem_release k id
      ≡ (ps_preempt_task k'.machine t >>= λ m. ok (with_machine k' m, err_none)))
    × (k'.machine.task_list ≡ k.machine.task_list)
    × (k'.machine.current_num ≡ k.machine.current_num)
    × ((k'.machine.task t).state ≡ t_ready)
    × (ns' : List ℕ) × (free' : ℕ → List ℕ) × (live' : ℕ → List ℕ) × Stands k' s
        (given_back credits (t ∷ ts)) ns' free' live' pages

first_of : List (ℕ × ℕ) → ℕ
first_of [] = 0
first_of ((a, b) ∷ xs) = a

rest_of : List (ℕ × ℕ) → List (ℕ × ℕ)
rest_of [] = []
rest_of (x ∷ xs) = xs

module _ (k : Kernel) (s id : ℕ) (here : rsrc_find k.machine.table rsrc_sem id ≡ s)
    (pos : 0 < s) where
  release-Released :
      (credits : ℕ) (ts ns : List ℕ) (free live pages : ℕ → List ℕ)
      → Stands k s (record { credits = credits; waiters = ts }) ns free live pages
      → has 0 ts ≡ false
      → credits + 1 < 2 ^ 31
      → Released k s id credits ts ns free live pages
  unfolding sem_release wake contents first_of rest_of
  release-Released credits [] [] free live pages v some_task few =
      let there : (s == 0) ≡ false = ground arith in
      let q = (k.sem s).queue in
      let e = queue_remove_head-Removed (queue_of (count_up k s) q) [] free live pages v.state in
      (
        with_queue (count_up k s) q (queue_of (count_up k s) q),
        rw (here, there, e) refl,
        refl,
        record {
          count = rw (==_refl s) (omega (arith, v.count));
          few_credits = few;
          few_waiters = v.few_waiters;
          either = λ h. refl;
          state = rw (==_refl s, ==_refl q) v.state;
          held = v.held;
        },
      )
  release-Released credits [] (n ∷ ns) free live pages v some_task few =
      absurd (ground (arith, ap length v.held))
  release-Released credits (t ∷ ts) [] free live pages v some_task few =
      absurd (ground (arith, ap length v.held))
  release-Released credits (t ∷ ts) (n ∷ ns) free live pages v some_task few =
      let there : (s == 0) ≡ false = ground arith in
      let q = (k.sem s).queue in
      let (qs, e, w, kept) =
        queue_remove_head-Removed (queue_of (count_up k s) q) (n ∷ ns) free live pages v.state in
      let named : (k.node n).data_ptr ≡ t = ap first_of v.held in
      let task : (t == 0) ≡ false = ground arith in
      let none : credits ≡ 0 = elim (Bool-cases (credits == 0)) [
        | inl z ↦ ground arith
        | inr z ↦ absurd (ground (arith, ap length (v.either (λ h. ground arith))))
      ] in
      (
        with_task (with_queue (count_up k s) q qs) t
            (record (k.machine.task t) { state = t_ready }),
        rw (here, there, e, named, task) refl,
        refl,
        refl,
        rw (==_refl t) refl,
        ns,
        put free km16 (n ∷ free km16),
        put live km16 (without n (live km16)),
        record {
          count = rw (==_refl s) (omega (arith, v.count, none, v.few_waiters));
          few_credits = v.few_credits;
          few_waiters = omega (arith, v.few_waiters);
          either = λ h. absurd (h none);
          state = rw (==_refl s, ==_refl q) w;
          held = kept ∙ ap rest_of v.held;
        },
      )

-- A semaphore that stands for a FIFO semaphore, found in the resource table, with room for one more
-- credit and no NULL among the tasks that wait: after `sem_release` it stands for the semaphore with
-- the credit given back. When nobody waits, nothing of the machine has changed; else the first that
-- waits is ready and off the queue, and the call ends with the switch to it.
pub sem_release-Released :
    (k : Kernel) (s id : ℕ) (f : Fifo) (ns : List ℕ) (free live pages : ℕ → List ℕ)
    → Stands k s f ns free live pages
    → rsrc_find k.machine.table rsrc_sem id ≡ s
    → 0 < s
    → has 0 f.waiters ≡ false
    → f.credits + 1 < 2 ^ 31
    → Released k s id f.credits f.waiters ns free live pages
sem_release-Released k s id f ns free live pages v here pos some_task few =
    release-Released k s id here pos f.credits f.waiters ns free live pages v some_task few

pub switched :
    (k : Kernel) (s : ℕ) (f : Fifo) (ns : List ℕ) (free live pages : ℕ → List ℕ) (m' : Machine)
    → Kept k.machine.kernel k.machine.table m'
    → Stands k s f ns free live pages
    → Stands (with_machine k m') s f ns free live pages
switched k s f ns free live pages m' kept v = record {
  count = v.count;
  few_credits = v.few_credits;
  few_waiters = v.few_waiters;
  either = v.either;
  state = rw kept.kernel v.state;
  held = v.held;
}

-- The same when `t` waits first, in a slot of the task list with no nearer slot that holds it behind
-- the current one: `sem_release` succeeds, `t` is the running task, and the semaphore stands for the
-- one without it.
pub sem_release-runs :
    (k : Kernel) (s id t dist credits : ℕ) (ts ns : List ℕ) (free live pages : ℕ → List ℕ)
    → Stands k s (record { credits = credits; waiters = t ∷ ts }) ns free live pages
    → rsrc_find k.machine.table rsrc_sem id ≡ s
    → 0 < s
    → has 0 (t ∷ ts) ≡ false
    → credits + 1 < 2 ^ 31
    → k.machine.current_num < 1024
    → dist < 1024
    → slot k.machine.task_list ((k.machine.current_num + 1 + dist) % 1024) ≡ t
    → ((e : ℕ) → e < dist → slot k.machine.task_list ((k.machine.current_num + 1 + e) % 1024) ≢ t)
    → (k' : Kernel) × (sem_release k id ≡ ok (k', err_none))
      × (k'.machine.current_task ≡ t)
      × (ns' : List ℕ) × (free' : ℕ → List ℕ) × (live' : ℕ → List ℕ) × Stands k' s
          (record { credits = credits; waiters = ts })
          ns'
          free'
          live'
          pages
unfolding ps_preempt_task
sem_release-runs k s id t dist credits ts ns free live pages v here pos some_task few low near at
      nearest =
    let (k', e, same_list, same_num, ready, ns', free', live', w) =
      release-Released k s id here pos credits (t ∷ ts) ns free live pages v some_task few in
    let (m', ran, r) =
      ps_preempt_task-Running k'.machine t dist (rw same_num low) (ground arith) near
        (rw (same_list, same_num) at) (λ d lt. rw (same_list, same_num) (nearest d lt)) in
    let kept : Kept k'.machine.kernel k'.machine.table m' =
      subst (IfEnds (Kept k'.machine.kernel k'.machine.table)) ran
        (preempt_loop-Kept 1024 k'.machine t) in
    (
      with_machine k' m',
      e ∙ rw ran refl,
      r.current ∙ rw (same_list, same_num) at,
      ns',
      free',
      live',
      switched k' s _ ns' free' live' pages m' kept w,
    )
