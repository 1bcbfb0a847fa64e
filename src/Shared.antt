-- ===== src/Shared.antt =====
-- Shared memory segments, kernel/shm.c, with the part of `ObCreateObject` of kernel/object.c that they
-- use.
pub mod Object
pub mod Attach
mod Tests
use jeffos.Base.{
  ℕ, zero, suc, ◌+◌, ◌-◌, ◌%◌, ◌^◌, Option, none, some, List, [], ◌∷◌, ◌&&◌, ◌==◌, leb,
  if◌then◌else◌, get_or, set, length,
}
use jeffos.Status.{Outcome, ok, halted, status_success, status_invalid_shmseg, ◌>>=◌}
use jeffos.Pages.Tables.{Aspace, kmap_low_page, kunmap_page}
use jeffos.Pages.Alloc.{Memory, mm_alloc_pages, mm_free_pages}
use jeffos.Objects.{KObject, Process, max_handles, open_loop}
use jeffos.Kernel.{Shm, Kernel, update}

abbrev pub obj_type_shared_memory : ℕ
obj_type_shared_memory = 5

abbrev pub no_segment : Shm
no_segment = record { ref_count = 0; len_in_pages = 0; mem = 0 }

-- `ShmTable[key]`; `ShmEntries` is the length of the list.
abbrev pub segment : Kernel → ℕ → Shm
segment k key = get_or k.shm_table key no_segment

abbrev pub with_memory : Kernel → Memory → Kernel
with_memory k m = record k { machine = record k.machine { kernel = m } }

abbrev pub with_space : Kernel → ℕ → Aspace → Kernel
with_space k a v = record k { machine = record k.machine { aspace = update k.machine.aspace a v } }

-- `CurrentTask->Parent` and its address space.
abbrev pub current_process : Kernel → ℕ
current_process k = (k.machine.task k.machine.current_task).parent

abbrev pub space_address : Kernel → ℕ
space_address k = k.machine.process_addr (current_process k)

-- What `ObCreateObject` does with the new object `obj`: a handle of the current process, or a halt.
unfoldable pub give_handle : ℕ → Kernel → ℕ → ℕ → Outcome (Kernel × ℕ)
unfolding open_loop
give_handle stale k obj ptr =
    let p = current_process k in
    let object' =
      update k.object obj (record { type = obj_type_shared_memory; refcount = 1; ptr = ptr }) in
    let (v, status) =
      open_loop (max_handles - stale) stale
        (record { handle_list = k.handle_list p; object = object' }) obj in
    if status == status_success
    then ok (record k { handle_list = update k.handle_list p v.handle_list; object = object' }, ptr)
    else halted

-- `ObCreateObject` of a shared memory segment; `stale` is what its `i` holds.
unfoldable pub ob_create_shared : ℕ → Kernel → Outcome (Kernel × ℕ)
unfolding give_handle
ob_create_shared stale k = do
  b ← mm_alloc_pages k.machine.kernel 1 7
  c ← mm_alloc_pages b.memory 1 7
  give_handle stale (with_memory k c.memory) b.virt c.virt

-- The first segment that is not in use, from key `i` on.
unfoldable pub free_key : ℕ → List Shm → Option ℕ
free_key i [] = none
free_key i (v ∷ vs) = let rest = free_key (i + 1) vs in if v.mem == 0 then some i else rest

-- With the key of a free segment: the new key and the status.
create_at : Option ℕ → Kernel → ℕ → Outcome (Kernel × ℕ × ℕ)
create_at none k size = halted
create_at (some i) k size = do
  b ← mm_alloc_pages k.machine.kernel size 3
  let (a', phys, status) = kunmap_page b.memory.space b.virt size
  ok (
    record (with_memory k (record b.memory { space = a' })) {
      shm_table = set k.shm_table i (record { ref_count = 0; len_in_pages = size; mem = phys });
    },
    i,
    status_success,
  )

unfoldable pub sm_create_seg : Kernel → ℕ → Outcome (Kernel × ℕ × ℕ)
unfolding free_key create_at
sm_create_seg k size = create_at (free_key 0 k.shm_table) k size

-- `SmAttachSeg` from the new object on. `out` is the address of the variable that gets the address of
-- the memory; it is what the object keeps.
unfoldable pub attach_at : Kernel → ℕ → ℕ → ℕ → Outcome (Kernel × ℕ × ℕ)
attach_at k ptr key out = do
  let v = segment k key
  let a = space_address k
  (a', virt) ← kmap_low_page (k.machine.aspace a) v.mem v.len_in_pages 7
  ok (
    record (with_space k a a') {
      shm = update k.shm ptr (record { ref_count = key; len_in_pages = v.len_in_pages; mem = out });
      shm_table = set k.shm_table key (record v { ref_count = (v.ref_count + 1) % 2 ^ 32 });
    },
    virt,
    status_success,
  )

-- The state, the address of the memory in the task's space, and the status.
unfoldable pub sm_attach_seg : ℕ → Kernel → ℕ → ℕ → Outcome (Kernel × ℕ × ℕ)
unfolding ob_create_shared attach_at
sm_attach_seg stale k key out =
    let attached = (do (k', ptr) ← ob_create_shared stale k; attach_at k' ptr key out) in
    if leb (length k.shm_table) key
    then ok (k, 0, status_invalid_shmseg)
    else if (segment k key).mem == 0
    then ok (k, 0, status_invalid_shmseg)
    else attached

-- The loop of `SmCloseSeg` over the handles: what the first object of the segment holds. The entries
-- that are NULL are read too.
unfoldable pub find_object : Kernel → ℕ → List ℕ → Option Shm
find_object k key [] = none
find_object k key (obj ∷ handles) =
    let rest = find_object k key handles in
    let v = k.shm (k.object obj).ptr in
    if ((k.object obj).type == obj_type_shared_memory) && (v.ref_count == key) then some v else rest

close_at : Option Shm → Kernel → ℕ → Kernel × ℕ
close_at none k key = (k, status_invalid_shmseg)
close_at (some v) k key =
    let s = segment k key in
    let a = space_address k in
    let (m, freed) =
      mm_free_pages (record k.machine.kernel { space = k.machine.aspace a }) v.mem v.len_in_pages in
    let (a', phys, status) = kunmap_page (k.machine.aspace a) v.mem v.len_in_pages in
    let k₁ = with_space (with_memory k (record k.machine.kernel { pmat = m.pmat })) a m.space in
    let k₂ = with_space k a a' in
    if leb (length k.shm_table) key
    then (k, status_invalid_shmseg)
    else if s.mem == 0
    then (k, status_invalid_shmseg)
    else if s.ref_count == 0
    then (k₁, freed)
    else if status == status_success
    then (
      record k₂ { shm_table = set k.shm_table key (record s { ref_count = s.ref_count - 1 }) },
      status_success,
    )
    else (k₂, status)

unfoldable pub sm_close_seg : Kernel → ℕ → Kernel × ℕ
unfolding find_object close_at
sm_close_seg k key = close_at (find_object k key (k.handle_list (current_process k))) k key
