-- ===== src/Chunks.antt =====
-- The kernel's first allocator, kernel/alloc.c: chunks of memory on a list of free ones, in the order
-- of their addresses, and a list of used ones.
pub mod Fit
pub mod Endless
mod Tests
use jeffos.Base.{ℕ, zero, suc, ◌+◌, ◌-◌, ◌*◌, ◌%◌, ◌^◌, not, ◌==◌, ltb, if◌then◌else◌}
use jeffos.Status.{Outcome, ok, ◌>>=◌}
use jeffos.Pages.Alloc.{Memory, Block, mm_alloc_pages, mm_free_pages}

-- `memchunk_t`. A pointer is 0 where it is NULL.
pub record Chunk : Type 0 where
  pub start : ℕ
  pub length : ℕ
  pub prev : ℕ
  pub next : ℕ

-- The variables of alloc.c, the chunk at each address, and the kernel's memory. The lock is taken by
-- the one task that runs here.
pub record Lists : Type 0 where
  pub free_list : ℕ
  pub used_list : ℕ
  pub free_tail : ℕ
  pub used_tail : ℕ
  pub chunk : ℕ → Chunk
  pub memory : Memory

abbrev pub initial_chunk_size : ℕ
initial_chunk_size = 100

abbrev pub write_chunk : (ℕ → Chunk) → ℕ → Chunk → ℕ → Chunk
write_chunk chunk p v a = if a == p then v else chunk a

-- `p->Next = v` and `p->Prev = v`
abbrev pub set_next : (ℕ → Chunk) → ℕ → ℕ → ℕ → Chunk
set_next chunk p v = write_chunk chunk p (record (chunk p) { next = v })

abbrev pub set_prev : (ℕ → Chunk) → ℕ → ℕ → ℕ → Chunk
set_prev chunk p v = write_chunk chunk p (record (chunk p) { prev = v })

unfoldable pub allocate_chunk : Memory → Outcome Block
allocate_chunk m = mm_alloc_pages m 1 3

unfoldable pub free_chunk : Memory → ℕ → Memory
free_chunk m c = (mm_free_pages m c 1).0

unfoldable pub init_alloc : Lists → Outcome Lists
unfolding allocate_chunk
init_alloc s = do
  b ← allocate_chunk s.memory
  c ← mm_alloc_pages b.memory initial_chunk_size 3
  ok (record {
    free_list = b.virt;
    used_list = 0;
    free_tail = b.virt;
    used_tail = 0;
    chunk =
        write_chunk s.chunk b.virt
          (record { start = c.virt; length = initial_chunk_size * 4096; prev = 0; next = 0 });
    memory = c.memory;
  })

-- The loop of `GetChunk`, with fuel for the list.
unfoldable pub get_chunk_from : ℕ → (ℕ → Chunk) → ℕ → ℕ → Outcome ℕ
get_chunk_from zero chunk entry size = Outcome.out_of_fuel
get_chunk_from (suc fuel) chunk entry size =
    let rest = get_chunk_from fuel chunk (chunk entry).next size in
    if entry == 0 then ok 0 else if ltb size (chunk entry).length then ok entry else rest

unfoldable pub get_chunk : ℕ → Lists → ℕ → Outcome ℕ
unfolding get_chunk_from
get_chunk fuel s size = get_chunk_from fuel s.chunk s.free_list size

-- The first part of `PutChunkInUsedList`: the chunk leaves the free list.
unfoldable pub leave_free_list : Lists → ℕ → Lists
leave_free_list s c =
    let v = s.chunk c in
    if not (v.prev == 0)
    then record s {
      free_tail = if c == s.free_tail then v.prev else s.free_tail;
      chunk = set_next s.chunk v.prev v.next;
    }
    else record s {
      free_tail = if c == s.free_tail then 0 else s.free_tail;
      free_list = v.next;
      chunk = if not (v.next == 0) then set_prev s.chunk v.next 0 else s.chunk;
    }

-- The second: it is the first of the used list.
unfoldable pub enter_used_list : Lists → ℕ → Lists
enter_used_list s c =
    let chunk = write_chunk s.chunk c (record (s.chunk c) { next = s.used_list; prev = 0 }) in
    record s {
      used_list = c;
      chunk = if not (s.used_list == 0) then set_prev chunk s.used_list c else chunk;
    }

unfoldable pub put_chunk_in_used_list : Lists → ℕ → Lists
unfolding leave_free_list enter_used_list
put_chunk_in_used_list s c = enter_used_list (leave_free_list s c) c

unfoldable pub break_chunk : Lists → ℕ → ℕ → Outcome (Lists × ℕ)
unfolding allocate_chunk
break_chunk s c size = do
  b ← allocate_chunk s.memory
  let v = s.chunk c
  let new : Chunk = record { start = v.start; length = size; prev = v.prev; next = c }
  let chunk = write_chunk s.chunk b.virt new
  ok (
    record s {
      free_list = if c == s.free_list then b.virt else s.free_list;
      chunk = write_chunk chunk c (record (chunk c) {
        prev = b.virt;
        start = ((chunk c).start + size) % 2 ^ 32;
        length = ((chunk c).length + 2 ^ 32 - size) % 2 ^ 32;
      });
      memory = b.memory;
    },
    b.virt,
  )

-- `stale` is what `newchunk` holds where it is not set.
unfoldable pub use_chunk : ℕ → Lists → ℕ → ℕ → Outcome (Lists × ℕ)
unfolding put_chunk_in_used_list break_chunk
use_chunk stale s c size =
    let shaved = (do (s', new) ← break_chunk s c size; ok (put_chunk_in_used_list s' new, new)) in
    if (s.chunk c).length == size then ok (put_chunk_in_used_list s c, stale) else shaved

unfoldable pub find_chunk : ℕ → (ℕ → Chunk) → ℕ → ℕ → Outcome ℕ
find_chunk zero chunk tmp ptr = Outcome.out_of_fuel
find_chunk (suc fuel) chunk tmp ptr =
    let rest = find_chunk fuel chunk (chunk tmp).next ptr in
    if tmp == 0 then ok 0 else if (chunk tmp).start == ptr then ok tmp else rest

-- The first step of `MergeChunkIntoFreeList`.
unfoldable pub leave_used_list : Lists → ℕ → Lists
leave_used_list s c =
    let v = s.chunk c in
    if v.prev == 0
    then (if v.next == 0
        then record s { used_list = 0; used_tail = 0 }
        else record s { used_list = v.next; chunk = set_prev s.chunk v.next 0 })
    else record s { chunk = set_prev (set_next s.chunk v.prev v.next) v.next v.prev }

-- `while(tmp)`: the loop does not move `tmp` on.
unfoldable pub merge_loop : ℕ → Lists → ℕ → ℕ → Outcome Lists
merge_loop zero s tmp c = Outcome.out_of_fuel
merge_loop (suc fuel) s tmp c =
    let rest = merge_loop fuel s tmp c in
    let before = (s.chunk tmp).prev in
    let linked = write_chunk s.chunk c (record (s.chunk c) { prev = before; next = tmp }) in
    let chunk = set_next linked (linked tmp).prev c in
    let last = write_chunk s.chunk c (record (s.chunk c) { prev = s.free_tail; next = 0 }) in
    if tmp == 0
    then ok (record s { chunk = set_next last s.free_tail c })
    else if ltb (s.chunk c).start (s.chunk tmp).start
    then ok (record s { chunk = set_prev chunk tmp c })
    else rest

unfoldable pub merge_chunk_into_free_list : ℕ → Lists → ℕ → Outcome Lists
unfolding leave_used_list merge_loop
merge_chunk_into_free_list fuel s c =
    let tmp = s.free_list in merge_loop fuel (leave_used_list s c) tmp c

-- `free`, with the lock taken.
unfoldable pub free : ℕ → Lists → ℕ → Outcome Lists
unfolding find_chunk merge_chunk_into_free_list
free fuel s ptr = do
  c ← find_chunk fuel s.chunk s.used_list ptr
  if c == 0 then ok s else merge_chunk_into_free_list fuel s c

-- `return (void *) ptr->Start`
abbrev pub with_start : Lists × ℕ → Outcome (Lists × ℕ)
with_start (s, c) = ok (s, (s.chunk c).start)

-- The pages that are added to the tail of the free list. What they hold stands in the chunk's `Start`
-- and `Length`.
unfoldable pub grown : Lists → ℕ → Memory → Lists
grown s c m =
    let chunk = set_next s.chunk s.free_tail c in
    record s {
      chunk = write_chunk chunk c (record (chunk c) { next = 0; prev = s.free_tail });
      free_tail = c;
      memory = m;
    }

-- The part of `alloc` without a free chunk that is large enough.
unfoldable pub alloc_more : ℕ → ℕ → Lists → ℕ → Outcome (Lists × ℕ)
unfolding grown get_chunk use_chunk
alloc_more fuel stale s size = do
  b ← mm_alloc_pages s.memory initial_chunk_size 3
  let s' = grown s b.virt b.memory
  let failed = record s { chunk = set_next s.chunk s.free_tail 0; memory = b.memory }
  let again =
      (get_chunk fuel s' size >>= λ c.
      if c == 0 then ok (s', 0) else (use_chunk stale s' c size >>= with_start))
  if b.virt == 0 then ok (failed, 0) else again

-- `alloc`, with the lock taken.
unfoldable pub alloc : ℕ → ℕ → Lists → ℕ → Outcome (Lists × ℕ)
unfolding get_chunk use_chunk alloc_more
alloc fuel stale s size =
    let served =
      (get_chunk fuel s size >>= λ c.
      if c == 0 then alloc_more fuel stale s size else (use_chunk stale s c size >>= with_start)) in
    if size == 0 then ok (s, 0) else served
