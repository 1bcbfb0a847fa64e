-- ===== src/Semaphore/Tests.antt =====
-- A semaphore on which one task waits, on the started heap.
use jeffos.Base.{
  ℕ, ◌+◌, ◌%◌, ◌<◌, ◌≡◌, ◌∙◌, ap, sym, refl, List, [], ◌∷◌, arith, ◌==◌, ◌⊎◌, if◌then◌else◌, Bool,
  false, ◌&&◌, Bool-cases, inl, inr,
}
use jeffos.Status.{ok}
use jeffos.KMem.Sample.{one_taken}
use jeffos.Queue.Ops.{live-pos}
use jeffos.Queue.Links.{contents, last_or_null, last_from}
use jeffos.Resource.{find_in, rsrc_find}
use jeffos.Pages.Tables.Map.{NoneFree}
use jeffos.Pages.Alloc.Allocated.{NoPages}
use jeffos.Sched.{slot, tick, t_dead}
use jeffos.Sched.Calm.{IsCalm}
use jeffos.Sched.Sample.{in_state}
use jeffos.Kernel.{Kernel, err_none}
use jeffos.Kernel.Sample.{only, one_free, one_live, one_pages, kernel_on}
use jeffos.Semaphore.{sem_acquire, sem_release}
use jeffos.Semaphore.Fifo.{acquired, Stands}
use jeffos.Semaphore.Acquire.{Acquired, sem_acquire-Acquired}
use jeffos.Semaphore.Sleep.{dozing, Slept, sem_acquire-Slept}
use jeffos.Semaphore.Release.{Released, sem_release-Released, sem_release-runs}

abbrev waited_on : Kernel
waited_on = kernel_on one_taken.0

waited_on-Stands :
    Stands waited_on 0x700
      (record { credits = 0; waiters = 0x4000 ∷ [] })
      (only 0 ∷ [])
      (one_free 0)
      (one_live 0)
      (one_pages 0)
unfolding contents last_or_null last_from
waited_on-Stands = record {
  count = omega arith;
  few_credits = omega arith;
  few_waiters = omega arith;
  either = λ h. absurd (h refl);
  state = record {
    queued = record {
      first = refl;
      last = refl;
      chain = (
        live-pos one_taken.0 (one_free 0) (one_live 0) (one_pages 0) (only 0) one_taken.2
            (ground arith),
        refl,
        refl,
        tt,
      );
      first_prev = λ h. refl;
      counted = refl;
    };
    heaped = one_taken.2;
    owned = λ a h. ground arith;
  };
  held = refl;
}

found : rsrc_find waited_on.machine.table 4 1 ≡ 0x700
unfolding rsrc_find find_in
found = refl

sem_acquire-Acquired_example :
    Acquired waited_on 0x700 1
      (record { credits = 0; waiters = 0x4000 ∷ [] })
      (only 0 ∷ [])
      (one_free 0)
      (one_live 0)
      (one_pages 0)
      (sem_acquire waited_on 1)
sem_acquire-Acquired_example =
    sem_acquire-Acquired waited_on 0x700 1 (record { credits = 0; waiters = 0x4000 ∷ [] })
      (only 0 ∷ []) (one_free 0) (one_live 0) (one_pages 0) waited_on-Stands found (omega arith)
      (omega arith)

sem_release-Released_example :
    Released waited_on 0x700 1 0 (0x4000 ∷ []) (only 0 ∷ []) (one_free 0) (one_live 0) (one_pages 0)
sem_release-Released_example =
    sem_release-Released waited_on 0x700 1 (record { credits = 0; waiters = 0x4000 ∷ [] })
      (only 0 ∷ []) (one_free 0) (one_live 0) (one_pages 0) waited_on-Stands found (omega arith)
      refl (omega arith)

only_zero : (e : ℕ) → e < 1 → e ≡ 0
only_zero e h = omega arith

sem_release-runs_example :
    (k' : Kernel) × (sem_release waited_on 1 ≡ ok (k', err_none))
    × (k'.machine.current_task ≡ 0x4000)
    × (ns' : List ℕ) × (free' : ℕ → List ℕ) × (live' : ℕ → List ℕ) × Stands k' 0x700
        (record { credits = 0; waiters = [] })
        ns'
        free'
        live'
        (one_pages 0)
sem_release-runs_example =
    sem_release-runs waited_on 0x700 1 0x4000 1 0 [] (only 0 ∷ []) (one_free 0) (one_live 0)
      (one_pages 0) waited_on-Stands found (omega arith) refl (omega arith) (omega arith)
      (omega arith) refl
      (λ e lt same. absurd (
        omega (
          arith,
          sym (ap (λ x. slot waited_on.machine.task_list ((1 + 1 + x) % 1024)) (only_zero e lt))
              ∙ same,
        )))

-- The same with no dead task in the list.
abbrev healthy : Kernel
healthy = record waited_on {
  machine = record waited_on.machine {
    task = λ a. if a == 0x2000 then in_state 2 1 else in_state 4 2;
  };
}

healthy-Stands :
    Stands healthy 0x700
      (record { credits = 0; waiters = 0x4000 ∷ [] })
      (only 0 ∷ [])
      (one_free 0)
      (one_live 0)
      (one_pages 0)
healthy-Stands = record {
  count = waited_on-Stands.count;
  few_credits = waited_on-Stands.few_credits;
  few_waiters = waited_on-Stands.few_waiters;
  either = waited_on-Stands.either;
  state = waited_on-Stands.state;
  held = waited_on-Stands.held;
}

both : (b d : Bool) → d ≡ false → (b && d) ≡ false
both b d e = ground (arith, e)

alive : (t : ℕ) → (((dozing healthy 1).task t).state == t_dead) ≡ false
alive t = elim (Bool-cases (t == 0x2000)) [ inl e ↦ rw e refl | inr e ↦ rw e refl ]

healthy-IsCalm : IsCalm (dozing healthy 1)
healthy-IsCalm j = both _ _ (alive (slot waited_on.machine.task_list j))

sem_acquire-Slept_example :
    Slept healthy 0x700
      (acquired (record { credits = 0; waiters = 0x4000 ∷ [] }) 0x2000)
      0
      (tick (dozing healthy 1))
      (sem_acquire healthy 1)
    ⊎ (NoPages healthy.machine.kernel.pmat 1 ⊎ NoneFree healthy.machine.kernel.space.high 1)
unfolding tick
sem_acquire-Slept_example =
    sem_acquire-Slept healthy 0x700 1 (record { credits = 0; waiters = 0x4000 ∷ [] }) 0
      (only 0 ∷ []) (one_free 0) (one_live 0) (one_pages 0) healthy-Stands found (omega arith)
      (omega arith) refl healthy-IsCalm
      (omega arith, omega arith, refl, λ e lt. absurd (omega arith))
