-- ===== src/Pages/Space.antt =====
-- A process's address space: `brk` and `MmCreatePageTable` of kernel/mem.c.
pub mod Grow
pub mod Brk
pub mod Exhausted
pub mod Create
use jeffos.Base.{
  ℕ, zero, suc, ◌+◌, ◌-◌, ◌*◌, ◌/◌, ◌%◌, ◌^◌, bit_or, Option, none, some, List, ◌==◌, ltb,
  if◌then◌else◌, replicate, set,
}
use jeffos.Status.{Outcome, ok, ◌>>=◌}
use jeffos.Pages.Tables.{Aspace, in_use, kunmap_page, aspace_map}
use jeffos.Pages.Alloc.{Memory, Block, mm_alloc_pages, mm_alloc_pages_lo}

-- One round of the loop of `brk`: an entry that is clear gets a page. The page is first mapped
-- wherever the low table has room, and then moved to entry `i`. The answer 0 of the allocation is
-- not looked at.
unfoldable pub brk_page : Memory → ℕ → Outcome Memory
brk_page s i =
    let grown = (do
      b ← mm_alloc_pages_lo s 1 7
      let (a', phys, status) = kunmap_page b.memory.space b.virt 1
      ok (record { pmat = b.memory.pmat; space = aspace_map a' (phys / 4096) i 1 7 })) in
    if in_use s.space.ptab i then ok s else grown

-- The rounds from `i` on, `k` of them.
unfoldable pub brk_loop : ℕ → ℕ → Memory → Outcome Memory
brk_loop zero i s = ok s
brk_loop (suc k) i s = brk_page s i >>= brk_loop k (i + 1)

-- -1 as a word of 32 bits
abbrev pub minus_one : ℕ
minus_one = 2 ^ 32 - 1

unfoldable pub brk : Memory → ℕ → Outcome (Memory × ℕ)
unfolding brk_loop
brk s addr =
    if ltb 512 (addr / 4096)
    then ok (s, minus_one)
    else (brk_loop (addr / 4096 + 1) 0 s >>= λ s'. ok (s', 0))

-- The address space that `MmCreatePageTable` writes: the loop clears the 1023 directory entries, the
-- reference count behind them and the low table. The block has two pages, the directory and the low
-- table; `beyond` is what stands in the place of the high table.
unfoldable pub new_space : ℕ → ℕ → List ℕ → Aspace
new_space phys cr3 beyond = record {
  pdir =
      set (set (replicate 1023 0) 0 (bit_or ((phys + 4096) % 2 ^ 32) 7)) 512
        (bit_or ((cr3 + 2 * 4096) % 2 ^ 32) 3);
  refcount = 0;
  ptab = replicate 1024 0;
  high = beyond;
}

-- `phys` is written whenever the pointer is not NULL.
created : ℕ → ℕ → Option ℕ → List ℕ → Option Aspace
unfolding new_space
created virt cr3 none beyond = none
created virt cr3 (some phys) beyond = if virt == 0 then none else some (new_space phys cr3 beyond)

-- The kernel's address space is in `s`, and `cr3` is the variable `_cr3`. `none` is NULL.
unfoldable pub mm_create_page_table : Memory → ℕ → List ℕ → Outcome (Memory × Option Aspace)
unfolding created
mm_create_page_table s cr3 beyond = do
  b ← mm_alloc_pages s 2 3
  ok (b.memory, created b.virt cr3 b.phys beyond)
