-- ===== src/Shared/Object.antt =====
-- The object that stands for a segment in a process: `ObCreateObject` of kernel/object.c.
use jeffos.Base.{ℕ, ◌-◌, ◌<◌, ◌≤◌, ◌≡◌, ◌≢◌, refl, inl, inr, arith, length}
use jeffos.Status.{Outcome, ok, halted, ◌>>=◌}
use jeffos.Pages.Tables.Map.{NoneFree}
use jeffos.Pages.Alloc.{Memory, Block, mm_alloc_pages}
use jeffos.Pages.Alloc.Allocated.{IsMemory, KernelAlloc, mm_alloc_pages-KernelAlloc}
use jeffos.Objects.{Process, handle_at, max_handles}
use jeffos.Objects.Handles.{open_loop-Opened}
use jeffos.Kernel.{Kernel, update}
use jeffos.Shared.{with_memory, current_process, give_handle, ob_create_shared}

-- What the new object leaves as it was.
pub record Same (k k' : Kernel) : Type 0 where
  pub aspace : k'.machine.aspace ≡ k.machine.aspace
  pub task : k'.machine.task ≡ k.machine.task
  pub current : k'.machine.current_task ≡ k.machine.current_task
  pub process_addr : k'.machine.process_addr ≡ k.machine.process_addr
  pub segments : k'.shm_table ≡ k.shm_table

-- Why the object is not made: no room in the kernel's page table, for it or for what it holds, or no
-- free handle from where the loop starts.
pub data Fails (stale : ℕ) (k : Kernel) : Type 0 where
  no_entry : NoneFree k.machine.kernel.space.high 1 → Fails stale k
  no_second :
      (b : Block)
      → mm_alloc_pages k.machine.kernel 1 7 ≡ ok b
      → NoneFree b.memory.space.high 1
      → Fails stale k
  no_handle :
      ((y : ℕ)
        → stale ≤ y
        → y < max_handles
        → handle_at
            (record { handle_list = k.handle_list (current_process k); object = k.object })
            y
          ≢ 0)
      → Fails stale k

pub data CreateEnd (stale : ℕ) (k : Kernel) : Outcome (Kernel × ℕ) → Type 0 where
  created : {k' : Kernel} (ptr : ℕ) → Same k k' → CreateEnd stale k (ok (k', ptr))
  fails : Fails stale k → CreateEnd stale k halted

module _ (stale : ℕ) (k : Kernel) (from : stale ≤ 64)
    (handles : length (k.handle_list (current_process k)) ≡ 64) where
  give_handle-end :
      (m : Memory) (obj ptr : ℕ) → CreateEnd stale k (give_handle stale (with_memory k m) obj ptr)
  unfolding give_handle
  give_handle-end m obj ptr =
      let object' = update k.object obj (record { type = 5; refcount = 1; ptr = ptr }) in
      let v : Process = record {
        handle_list = k.handle_list (current_process k);
        object = object';
      } in
      elim (open_loop-Opened (64 - stale) stale v obj handles (omega arith)) [
        | inl (x, a, b, c, d, e, f) ↦ rw e (
            CreateEnd.created ptr (record {
              aspace = refl;
              task = refl;
              current = refl;
              process_addr = refl;
              segments = refl;
            }))
        | inr (none, e) ↦ rw e (CreateEnd.fails (Fails.no_handle (λ y a b. none y a (omega arith))))
      ]

  second-end :
      (b : Block)
      → mm_alloc_pages k.machine.kernel 1 7 ≡ ok b
      → (r : Outcome Block) → KernelAlloc b.memory 1 7 r
      → CreateEnd stale k (r >>= λ c. give_handle stale (with_memory k c.memory) b.virt c.virt)
  second-end b e (ok c) s = give_handle-end c.memory b.virt c.virt
  second-end b e halted (KernelAlloc.no_entries p first none_free) =
      CreateEnd.fails (Fails.no_second b e none_free)
  second-end b e Outcome.out_of_fuel s = elim s [ ]

  first-end :
      (r : Outcome Block)
      → mm_alloc_pages k.machine.kernel 1 7 ≡ r
      → KernelAlloc k.machine.kernel 1 7 r
      → IsMemory k.machine.kernel
      → CreateEnd stale k (
          r >>= λ b. mm_alloc_pages b.memory 1 7 >>= λ c.
          give_handle stale (with_memory k c.memory) b.virt c.virt)
  first-end (ok b) e (KernelAlloc.served p y s) w =
      second-end b e (mm_alloc_pages b.memory 1 7)
        (mm_alloc_pages-KernelAlloc b.memory 1 7 s.valid (omega arith))
  first-end (ok b) e (KernelAlloc.no_pages none same) w =
      second-end b e (mm_alloc_pages b.memory 1 7)
        (mm_alloc_pages-KernelAlloc b.memory 1 7 (rw same w) (omega arith))
  first-end halted e (KernelAlloc.no_entries p first none_free) w =
      CreateEnd.fails (Fails.no_entry none_free)
  first-end Outcome.out_of_fuel e s w = elim s [ ]

  pub ob_create_shared-end :
      IsMemory k.machine.kernel → CreateEnd stale k (ob_create_shared stale k)
  unfolding ob_create_shared
  ob_create_shared-end w =
      first-end (mm_alloc_pages k.machine.kernel 1 7) refl
        (mm_alloc_pages-KernelAlloc k.machine.kernel 1 7 w (omega arith)) w
