-- ===== src/Semaphore/Acquire.antt =====
-- `sem_acquire` of kernel/sem.c against the FIFO semaphore.
use jeffos.Base.{
  positive, ℕ, ◌+◌, ◌-◌, ◌%◌, ◌^◌, ◌<◌, ◌≡◌, ◌≢◌, refl, sym, ◌∙◌, ap, inl, inr, true, false, List,
  [], ◌∷◌, ◌++◌, arith, ◌==◌, if◌then◌else◌, length, length-append, Bool-cases, ==_refl,
}
use mathlib.Core.Path.{subst}
use jeffos.Status.{Outcome, ok, halted, ◌>>=◌}
use jeffos.Pages.Tables.Map.{NoneFree}
use jeffos.Pages.Alloc.Allocated.{NoPages}
use jeffos.Queue.{State}
use jeffos.Queue.Links.{contents}
use jeffos.Queue.Ops.{IsState, AddEnd, queue_add_tail-AddEnd}
use jeffos.Sched.{t_sleep_sem, ps_switch_task}
use jeffos.Resource.{rsrc_find}
use jeffos.Kernel.{Kernel, queue_of, with_queue, with_machine, err_none}
use jeffos.Semaphore.{rsrc_sem, count_down, sleeping, wait_on, sem_acquire}
use jeffos.Semaphore.Fifo.{Fifo, acquired, entries, Stands}

entries-append : (ts : List ℕ) (t : ℕ) → entries (ts ++ t ∷ []) ≡ entries ts ++ (t, 0) ∷ []
entries-append [] t = refl
entries-append (x ∷ xs) t = ap (λ r. (x, 0) ∷ r) (entries-append xs t)

-- How the wait ends before the switch: the task sleeps on the semaphore as the last of those that
-- wait, or there was no room for it on the queue.
pub data WaitEnd (k : Kernel) (s id : ℕ) (f : Fifo) : Outcome Kernel → Type 0 where
  waits :
      {k' : Kernel} (ns : List ℕ) (free live pages : ℕ → List ℕ)
      → Stands k' s (acquired f k.machine.current_task) ns free live pages
      → (k'.machine.task k.machine.current_task).state ≡ t_sleep_sem
      → (k'.machine.task k.machine.current_task).sleeping_on ≡ id
      → k'.machine ≡ record (sleeping k id).machine { kernel = k'.machine.kernel }
      → WaitEnd k s id f (ok k')
  starved : {k' : Kernel} → NoPages k.machine.kernel.pmat 1 → WaitEnd k s id f (ok k')
  no_entry : NoneFree k.machine.kernel.space.high 1 → WaitEnd k s id f halted

positive-signed :
    (c n w : ℕ)
    → w ≡ (c + 2 ^ 32 - n) % 2 ^ 32
    → c < 2 ^ 31
    → n < 2 ^ 31
    → (c ≢ 0 → n ≡ 0)
    → positive w ≡ (if c == 0 then false else true)
positive-signed c n w e p q one = elim (Bool-cases (c == 0)) [
  | inl z ↦ ground arith
  | inr z ↦ let none : n ≡ 0 = one (λ e. absurd (ground arith)) in ground arith
]

module _ (k : Kernel) (s id : ℕ) (f : Fifo) (ns : List ℕ) (free live pages : ℕ → List ℕ)
    (v : Stands k s f ns free live pages) where
  pub positive-stands : positive (k.sem s).count ≡ (if f.credits == 0 then false else true)
  positive-stands =
      positive-signed f.credits (length f.waiters) (k.sem s).count v.count v.few_credits
        v.few_waiters (λ h. ap length (v.either h))

  -- The count and those that wait after one more.
  slept-Stands :
      (few : length f.waiters + 1 < 2 ^ 31) (empty : f.credits ≡ 0) (qs : State) (n : ℕ)
      (free' live' pages' : ℕ → List ℕ)
      → IsState qs (ns ++ n ∷ []) free' live' pages'
      → contents qs.node (ns ++ n ∷ []) ≡ contents k.node ns ++ (k.machine.current_task, 0) ∷ []
      → Stands
          (sleeping (with_queue (count_down k s) (k.sem s).queue qs) id)
          s
          (record f { waiters = f.waiters ++ k.machine.current_task ∷ [] })
          (ns ++ n ∷ [])
          free'
          live'
          pages'
  slept-Stands few empty qs n free' live' pages' w e = record {
    count = rw (==_refl s) (
        omega (
          arith,
          v.count,
          v.few_waiters,
          empty,
          length-append f.waiters (k.machine.current_task ∷ []),
        ));
    few_credits = v.few_credits;
    few_waiters = omega (arith, length-append f.waiters (k.machine.current_task ∷ []));
    either = λ h. absurd (h empty);
    state = rw (==_refl s, ==_refl (k.sem s).queue) w;
    held =
        e
        ∙ ap (λ r. r ++ (k.machine.current_task, 0) ∷ []) v.held
        ∙ sym (entries-append f.waiters k.machine.current_task);
  }

  acquired-waits :
      (t : ℕ) → f.credits ≡ 0 → acquired f t ≡ record f { waiters = f.waiters ++ t ∷ [] }
  unfolding acquired
  acquired-waits t empty =
      ap
        (λ b.
          if b
          then record f { waiters = f.waiters ++ t ∷ [] }
          else record f { credits = f.credits - 1 })
        (ap (λ c. c == 0) empty)

  pub wait_end :
      (few : length f.waiters + 1 < 2 ^ 31) (empty : f.credits ≡ 0)
      → (r : Outcome State)
      → AddEnd
          (queue_of (count_down k s) (k.sem s).queue)
          (λ n. ns ++ n ∷ [])
          (contents k.node ns ++ (k.machine.current_task, 0) ∷ [])
          live
          r
      → WaitEnd k s id f
          (r >>= λ qs. ok (sleeping (with_queue (count_down k s) (k.sem s).queue qs) id))
  wait_end few empty (ok qs) (AddEnd.added n free' live' pages' new w e) =
      WaitEnd.waits (ns ++ n ∷ []) free' live' pages'
        (subst
          (λ g.
            Stands (sleeping (with_queue (count_down k s) (k.sem s).queue qs) id) s g (ns ++ n ∷ [])
              free' live' pages')
          (sym (acquired-waits k.machine.current_task empty))
          (slept-Stands few empty qs n free' live' pages' w e))
        (rw (==_refl k.machine.current_task) refl) (rw (==_refl k.machine.current_task) refl) refl
  wait_end few empty (ok qs) (AddEnd.starved none_left) = WaitEnd.starved none_left
  wait_end few empty halted (AddEnd.no_entry none_free) = WaitEnd.no_entry none_free
  wait_end few empty Outcome.out_of_fuel e = elim e [ ]

  taken-Stands :
      f.credits ≢ 0
      → Stands (count_down k s) s (record f { credits = f.credits - 1 }) ns free live pages
  taken-Stands some_credit = record {
    count =
        rw (==_refl s)
          (omega (arith, v.count, v.few_credits, ap length (v.either some_credit), some_credit));
    few_credits = omega (arith, v.few_credits);
    few_waiters = v.few_waiters;
    either = λ h. v.either some_credit;
    state = rw (==_refl s) v.state;
    held = v.held;
  }

  acquired-takes :
      (t : ℕ) → (f.credits == 0) ≡ false → acquired f t ≡ record f { credits = f.credits - 1 }
  unfolding acquired
  acquired-takes t some_credit =
      ap
        (λ b.
          if b
          then record f { waiters = f.waiters ++ t ∷ [] }
          else record f { credits = f.credits - 1 })
        some_credit

-- How `sem_acquire` ends: with one of the credits; or with the switch from the end of the wait.
pub data Acquired (k : Kernel) (s id : ℕ) (f : Fifo) (ns : List ℕ) (free live pages : ℕ → List ℕ)
    : Outcome (Kernel × ℕ) → Type 0 where
  took :
      f.credits ≢ 0
      → Stands (count_down k s) s (acquired f k.machine.current_task) ns free live pages
      → Acquired k s id f ns free live pages (ok (count_down k s, err_none))
  queued :
      (r : Outcome Kernel)
      → f.credits ≡ 0
      → WaitEnd k s id f r
      → Acquired k s id f ns free live pages
          (do k' ← r; m ← ps_switch_task k'.machine; ok (with_machine k' m, err_none))

-- A semaphore that stands for a FIFO semaphore, found in the resource table, with fewer than 2^31 - 1
-- tasks on it: `sem_acquire` either takes one of its credits, and then it stands for the semaphore
-- with a credit less; or there is none, and the call is a switch of tasks from a state in which the
-- calling task sleeps as the last of those that wait. When the kernel has no page left for the node of
-- the queue, nothing is said of that state; with no entry in its page table the call halts.
pub sem_acquire-Acquired :
    (k : Kernel) (s id : ℕ) (f : Fifo) (ns : List ℕ) (free live pages : ℕ → List ℕ)
    → Stands k s f ns free live pages
    → rsrc_find k.machine.table rsrc_sem id ≡ s
    → 0 < s
    → length f.waiters + 1 < 2 ^ 31
    → Acquired k s id f ns free live pages (sem_acquire k id)
unfolding sem_acquire wait_on
sem_acquire-Acquired k s id f ns free live pages v here pos few =
    let there : (s == 0) ≡ false = ground arith in
    let signed = positive-stands k s id f ns free live pages v in
    elim (Bool-cases (f.credits == 0)) [
      | inl z ↦
          let empty : f.credits ≡ 0 = ground arith in
          rw (here, there, signed, z)
            (Acquired.queued _ empty (
              wait_end k s id f ns free live pages v few empty _ (
                queue_add_tail-AddEnd (queue_of (count_down k s) (k.sem s).queue) ns free live pages
                  v.state k.machine.current_task 0)))
      | inr z ↦
          let credit : f.credits ≢ 0 = λ e. ground arith in
          rw (here, there, signed, z)
            (Acquired.took credit (
              subst (λ g. Stands (count_down k s) s g ns free live pages)
                (sym (acquired-takes k s id f ns free live pages v k.machine.current_task z))
                (taken-Stands k s id f ns free live pages v credit)))
    ]
