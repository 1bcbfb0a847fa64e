-- ===== src/Shared/Attach.antt =====
-- What a process gets of a shared memory segment: `SmAttachSeg` of kernel/shm.c.
use jeffos.Base.{
  ℕ, ◌+◌, ◌*◌, ◌%◌, ◌^◌, ◌<◌, ◌≤◌, ◌≡◌, ◌≢◌, ◌⊎◌, refl, sym, ◌∙◌, inl, inr, true, arith, ◌==◌, leb,
  ltb, length, set, get_or, get_or-set, Bool-cases, ==_iff, ==_refl,
}
use mathlib.Core.Path.{subst}
use jeffos.Status.{Outcome, ok, halted, status_success, status_invalid_shmseg, ◌>>=◌}
use jeffos.Pages.Tables.{Aspace, kmap_low_page}
use jeffos.Pages.Tables.Map.{NoneFree, FirstFree, HoldsRun, LowMapped, kmap_low_page-LowMapped}
use jeffos.Pages.Alloc.Allocated.{IsMemory}
use jeffos.Kernel.{Shm, Kernel, update}
use jeffos.Shared.{
  no_segment, with_space, segment, current_process, space_address, ob_create_shared, attach_at,
  sm_attach_seg,
}
use jeffos.Shared.Object.{Same, Fails, CreateEnd, ob_create_shared-end}

-- What the process has after the call: the segment's pages, in their order, at the first free run of
-- its low table, and nothing else of the table changed; and the segment counts one more.
pub record Attached (k : Kernel) (key y : ℕ) (k' : Kernel) : Type 0 where
  pub free : FirstFree (k.machine.aspace (space_address k)).ptab (segment k key).len_in_pages y
  pub mapped :
      HoldsRun
        (k.machine.aspace (space_address k)).ptab
        (k'.machine.aspace (space_address k)).ptab
        y
        (segment k key).len_in_pages
        (segment k key).mem
        7
  pub counted : (segment k' key).ref_count ≡ ((segment k key).ref_count + 1) % 2 ^ 32
  pub same_segment :
      ((segment k' key).mem ≡ (segment k key).mem)
      × ((segment k' key).len_in_pages ≡ (segment k key).len_in_pages)

-- How `SmAttachSeg` ends: it refuses a key that is out of range or not in use, with nothing changed;
-- or the segment is mapped, and the answer is where; or the kernel halts, for want of room for the
-- object, of a handle, or of a run of entries in the process's table.
pub data AttachEnd (stale : ℕ) (k : Kernel) (key out : ℕ) : Outcome (Kernel × ℕ × ℕ) → Type 0 where
  refused :
      (length k.shm_table ≤ key) ⊎ ((segment k key).mem ≡ 0)
      → AttachEnd stale k key out (ok (k, 0, status_invalid_shmseg))
  attached :
      {k' : Kernel} {virt : ℕ} (y ptr : ℕ)
      → key < length k.shm_table
      → (segment k key).mem ≢ 0
      → virt ≡ 4096 * y
      → Attached k key y k'
      → (k'.shm ptr).mem ≡ out
      → AttachEnd stale k key out (ok (k', virt, status_success))
  no_object : Fails stale k → AttachEnd stale k key out halted
  no_run :
      NoneFree (k.machine.aspace (space_address k)).ptab (segment k key).len_in_pages
      → AttachEnd stale k key out halted

segment-set :
    (k : Kernel) (key : ℕ) (v : Shm)
    → key < length k.shm_table
    → get_or (set k.shm_table key v) key no_segment ≡ v
segment-set k key v low =
    let inside : ltb key (length k.shm_table) ≡ true = ground arith in
    get_or-set k.shm_table key key v no_segment ∙ rw (==_refl key, inside) refl

module _ (k : Kernel) (key out ptr : ℕ) (low : key < length k.shm_table)
    (size : length (k.machine.aspace (space_address k)).ptab ≡ 1024)
    (few : (segment k key).len_in_pages ≤ 1024) where
  MapEnd : Outcome (Kernel × ℕ × ℕ) → Type 0
  MapEnd (ok (k', virt, status)) =
      (y : ℕ) × (virt ≡ 4096 * y)
      × (status ≡ status_success)
      × Attached k key y k'
      × ((k'.shm ptr).mem ≡ out)
  MapEnd halted = NoneFree (k.machine.aspace (space_address k)).ptab (segment k key).len_in_pages
  MapEnd Outcome.out_of_fuel = ⊥

  attach_at-end : MapEnd (attach_at k ptr key out)
  unfolding attach_at MapEnd
  attach_at-end =
      mapped
        (kmap_low_page (k.machine.aspace (space_address k)) (segment k key).mem
          (segment k key).len_in_pages 7)
        (kmap_low_page-LowMapped (k.machine.aspace (space_address k)) (segment k key).mem
          (segment k key).len_in_pages 7 few size)
    where
      mapped :
          (r : Outcome (Aspace × ℕ))
          → LowMapped
              (k.machine.aspace (space_address k))
              (segment k key).mem
              (segment k key).len_in_pages
              7
              r
          → MapEnd (
              r >>= λ t. ok (
                record (with_space k (space_address k) t.0) {
                  shm = update k.shm ptr (record {
                    ref_count = key;
                    len_in_pages = (segment k key).len_in_pages;
                    mem = out;
                  });
                  shm_table = set k.shm_table key (record (segment k key) {
                    ref_count = ((segment k key).ref_count + 1) % 2 ^ 32;
                  });
                },
                t.1,
                status_success,
              ))
      mapped (ok (a', virt)) (y, at, first, held, high, same) =
          let v =
            segment-set k key
              (record (segment k key) { ref_count = ((segment k key).ref_count + 1) % 2 ^ 32 })
              low in
          (
            y,
            at,
            refl,
            record {
              free = first;
              mapped = rw (==_refl (space_address k)) held;
              counted = rw v refl;
              same_segment = rw v (refl, refl);
            },
            rw (==_refl ptr) refl,
          )
      mapped halted none_free = none_free
      mapped Outcome.out_of_fuel e = elim e [ ]

-- What is mapped for the kernel with the new object is mapped for the one before it.
Attached-before :
    (k k₁ k' : Kernel) (key y : ℕ) → Same k k₁ → Attached k₁ key y k' → Attached k key y k'
Attached-before k k₁ k' key y w a = record {
  free = rw (sym w.aspace, sym w.task, sym w.current, sym w.process_addr, sym w.segments) a.free;
  mapped =
      rw (sym w.aspace, sym w.task, sym w.current, sym w.process_addr, sym w.segments) a.mapped;
  counted = rw (sym w.segments) a.counted;
  same_segment = rw (sym w.segments) a.same_segment;
}

module _ (stale : ℕ) (k : Kernel) (key out : ℕ) (from : stale ≤ 64)
    (handles : length (k.handle_list (current_process k)) ≡ 64) (w : IsMemory k.machine.kernel)
    (size : length (k.machine.aspace (space_address k)).ptab ≡ 1024)
    (few : (segment k key).len_in_pages ≤ 1024) where
  map-end :
      (k₁ : Kernel) (ptr : ℕ)
      → Same k k₁
      → (low : key < length k.shm_table) → (segment k key).mem ≢ 0
      → AttachEnd stale k key out (attach_at k₁ ptr key out)
  unfolding MapEnd
  map-end k₁ ptr s low used = go (attach_at k₁ ptr key out) (
      attach_at-end k₁ key out ptr (rw s.segments low)
        (rw (s.aspace, s.task, s.current, s.process_addr) size) (rw s.segments few))
    where
      go :
          (r : Outcome (Kernel × ℕ × ℕ))
          → MapEnd k₁ key out ptr
              (rw s.segments low)
              (rw (s.aspace, s.task, s.current, s.process_addr) size)
              (rw s.segments few)
              r
          → AttachEnd stale k key out r
      go (ok (k', virt, status)) (y, at, good, a, kept) =
          subst (λ c. AttachEnd stale k key out (ok (k', virt, c))) (sym good)
            (AttachEnd.attached y ptr low used at (Attached-before k k₁ k' key y s a) kept)
      go halted none_free = AttachEnd.no_run (
          rw (sym s.aspace, sym s.task, sym s.current, sym s.process_addr, sym s.segments)
            none_free)
      go Outcome.out_of_fuel e = elim e [ ]

  object-end :
      key < length k.shm_table
      → (segment k key).mem ≢ 0
      → (r : Outcome (Kernel × ℕ)) → CreateEnd stale k r
      → AttachEnd stale k key out (r >>= λ t. attach_at t.0 t.1 key out)
  object-end low used (ok (k₁, ptr)) (CreateEnd.created p s) = map-end k₁ ptr s low used
  object-end low used halted (CreateEnd.fails why) = AttachEnd.no_object why
  object-end low used Outcome.out_of_fuel e = elim e [ ]

  -- The kernel's memory and the process's table and handles have their sizes, the variable that
  -- `ObCreateObject` leaves unset is at most 64, and the segment has at most 1024 pages: `SmAttachSeg`
  -- refuses a key without a segment and changes nothing; or it maps the segment's pages, in their
  -- order, at the first free run of the process's table, answers where, and counts one more; or the
  -- kernel halts, for want of room for the object, of a handle, or of such a run. The new object keeps
  -- the address of the caller's variable and not the one that was mapped.
  pub sm_attach_seg-AttachEnd : AttachEnd stale k key out (sm_attach_seg stale k key out)
  unfolding sm_attach_seg
  sm_attach_seg-AttachEnd = elim (Bool-cases (leb (length k.shm_table) key)) [
    | inl a ↦ rw a (AttachEnd.refused (inl (ground arith)))
    | inr a ↦ elim (Bool-cases ((segment k key).mem == 0)) [
      | inl b ↦ rw (a, b) (AttachEnd.refused (inr ((==_iff _ _).0 b)))
      | inr b ↦
          rw (a, b)
            (object-end (ground arith) (λ z. ground arith) (ob_create_shared stale k)
              (ob_create_shared-end stale k from handles w))
    ]
  ]
