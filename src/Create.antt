-- ===== src/Create.antt =====
-- New tasks and processes, kernel/task.c, with the parts of `ObCreateObject` of kernel/object.c that
-- they use.
pub mod Stack
mod Tests
use jeffos.Base.{
  ℕ, zero, suc, ◌+◌, ◌-◌, ◌*◌, ◌/◌, ◌%◌, ◌^◌, Option, none, some, ◌==◌, if◌then◌else◌, get_or, set,
  replicate,
}
use jeffos.Status.{Outcome, ok, halted, status_success, status_general_error, ◌>>=◌}
use jeffos.Pages.Tables.{PageTable, Aspace, entry, kunmap_page, aspace_map}
use jeffos.Pages.Alloc.{Memory, mm_alloc_pages, mm_alloc_pages_lo}
use jeffos.Pages.Space.{mm_create_page_table}
use jeffos.Sched.{t_ready, ps_add_task_to_queue}
use jeffos.Objects.{KObject, max_handles, open_loop}
use jeffos.Kernel.{Kernel, update, with_machine, with_task, new_resource}
use jeffos.Shared.{with_memory, with_space}

abbrev pub obj_type_aspace : ℕ
obj_type_aspace = 1

abbrev pub obj_type_process : ℕ
obj_type_process = 2

abbrev pub obj_type_thread : ℕ
obj_type_thread = 3

abbrev pub rsrc_task : ℕ
rsrc_task = 1

abbrev pub stack_size : ℕ
stack_size = 2

abbrev pub new_object : Kernel → ℕ → ℕ → ℕ → Kernel
new_object k obj type ptr = record k {
  object = update k.object obj (record { type = type; refcount = 1; ptr = ptr });
}

-- `ObCreateObject` of a thread of process `p`: its page of three, or a halt without a free handle.
unfoldable pub ob_create_thread : Kernel → ℕ → Outcome (Kernel × ℕ)
unfolding open_loop
ob_create_thread k p = do
  b ← mm_alloc_pages k.machine.kernel 1 7
  c ← mm_alloc_pages b.memory 3 3
  let k' = new_object (with_memory k c.memory) b.virt obj_type_thread c.virt
  let (v, status) =
      open_loop max_handles 0 (record { handle_list = k.handle_list p; object = k'.object }) b.virt
  if status == status_success
      then ok (record k' { handle_list = update k.handle_list p v.handle_list }, c.virt)
      else halted

unfoldable pub ob_create_process : Kernel → Outcome (Kernel × ℕ)
ob_create_process k = do
  b ← mm_alloc_pages k.machine.kernel 1 7
  c ← mm_alloc_pages b.memory 1 7
  ok (new_object (with_memory k c.memory) b.virt obj_type_process c.virt, c.virt)

place_space : Option Aspace → Kernel → ℕ → Kernel × ℕ
place_space none k virt = (k, 0)
place_space (some a) k virt = (with_space k virt a, virt)

-- The block that `MmCreatePageTable` takes is where the new space is. `beyond` is what stands behind it
-- in the place of its high table.
unfoldable pub ob_create_space : ℕ → PageTable → Kernel → Outcome (Kernel × ℕ)
unfolding place_space
ob_create_space cr3 beyond k = do
  b ← mm_alloc_pages k.machine.kernel 1 7
  c ← mm_alloc_pages b.memory 2 3
  (m, a) ← mm_create_page_table b.memory cr3 beyond
  let (k', virt) = place_space a (with_memory k m) c.virt
  ok (new_object k' b.virt obj_type_aspace virt, virt)

-- The loop for the stack: `count` is `memcount`, and entry `i + 1` is looked at next where `i + 1` are
-- left. The answer 0 is the loop's end.
unfoldable pub find_stack : ℕ → PageTable → ℕ → ℕ
find_stack zero tab count = 0
find_stack (suc i) tab count =
    let rest = find_stack i tab (if entry tab (i + 1) == 0 then count + 1 else 0) in
    if (if entry tab (i + 1) == 0 then count + 1 else 0) == stack_size then i + 1 else rest

or_stale : ℕ → Option ℕ → ℕ
or_stale stale none = stale
or_stale stale (some p) = p

-- `PsCreateNewTask` once there is a place `i` for the stack and the pages at `phys` for it. The
-- registers are left out, and what the page held stays in the fields that are not set.
unfoldable pub start_task : Kernel → ℕ → ℕ → ℕ → ℕ → Outcome (Kernel × ℕ)
unfolding new_resource
start_task k t p phys i = do
  let a = k.machine.process_addr p
  let k₁ = with_space k a (aspace_map (k.machine.aspace a) (phys / 4096) i stack_size 7)
  let k₂ = with_task k₁ t (record (k.machine.task t) { state = t_ready; tid = 0; parent = p })
  (k₃, rid) ← new_resource k₂ rsrc_task t
  let k₄ = with_task k₃ t (record (k₃.machine.task t) { rid = rid })
  let (m, status) = ps_add_task_to_queue k₄.machine t 0
  ok (with_machine k₄ m, status_success)

-- `holder` is not set when no pages are free: `stale` is what it holds then.
unfoldable pub ps_create_new_task : ℕ → Kernel → ℕ → Outcome (Kernel × ℕ)
unfolding ob_create_thread find_stack or_stale start_task
ps_create_new_task stale k p = do
  let a = k.machine.process_addr p
  let v = k.machine.aspace a
  let counted = with_space k a (record v { refcount = (v.refcount + 1) % 2 ^ 32 })
  (k₁, t) ← ob_create_thread counted p
  b ← mm_alloc_pages_lo (record k₁.machine.kernel { space = k₁.machine.aspace a }) stack_size 7
  let (space, phys, status) = kunmap_page b.memory.space b.virt stack_size
  let k₂ = with_space (with_memory k₁ (record k₁.machine.kernel { pmat = b.memory.pmat })) a space
  let i = find_stack 1023 space.ptab 0
  let started = start_task k₂ t p (or_stale stale b.phys) i
  if i == 0 then ok (k₂, status_general_error) else started

-- The program at `phys` and the screen's memory in the new space. The name is left out.
unfoldable pub ps_create_process : ℕ → PageTable → Kernel → ℕ → ℕ → Outcome (Kernel × ℕ)
unfolding ob_create_process ob_create_space
ps_create_process cr3 beyond k phys len = do
  (k₁, p) ← ob_create_process k
  (k₂, a) ← ob_create_space cr3 beyond k₁
  let code = aspace_map (k₂.machine.aspace a) (phys / 4096) 0 len 7
  let k₃ = with_space k₂ a (aspace_map code 0xB0 0xB0 (0x10 + 2) 7)
  let m = k₃.machine
  ok (
    record k₃ {
      machine = record m { process_addr = update m.process_addr p a };
      handle_list = update k₃.handle_list p (replicate max_handles 0);
    },
    p,
  )
