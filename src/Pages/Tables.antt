-- ===== src/Pages/Tables.antt =====
-- Page tables: `kmap_LowPage`, `kmap_KernelPage`, `kunmap_Page`, `MmMappedToPhysical`, `aspace_map`.
pub mod Map
pub mod Unmap
use jeffos.Base.{
  ℕ, zero, suc, ◌+◌, ◌-◌, ◌*◌, ◌/◌, ◌%◌, ◌^◌, bit_and, bit_or, Bool, not, List, ◌==◌, leb,
  if◌then◌else◌, get_or, set,
}
use jeffos.Status.{Outcome, ok, halted, status_success, status_general_error}
use jeffos.Pages.Search
use jeffos.Pages.Search.{Search, found, exhausted, find_run}

abbrev pub PageTable : Type 0
PageTable = List ℕ

-- `struct _aspace`: the page directory, the low and the high table of 1024 entries each.
pub record Aspace : Type 0 where
  pub pdir : List ℕ
  pub refcount : ℕ
  pub ptab : PageTable
  pub high : PageTable

-- Entries beyond a table read as 0 here and are not written: the theorems stay within it, but for
-- the one on an unmapped address in Freed, where such an entry counts as clear.
abbrev pub entry : PageTable → ℕ → ℕ
entry tab i = get_or tab i 0

abbrev pub in_use : PageTable → ℕ → Bool
in_use tab i = not (entry tab i == 0)

-- `phys + (4096 * j) | flags`
abbrev pub entry_for : ℕ → ℕ → ℕ → ℕ
entry_for phys flags j = bit_or ((phys + 4096 * j) % 2 ^ 32) flags

-- `for(j = 0; j < npages; j++) tab[i + j] = (phys + (4096 * j)) | flags;`, with `k` rounds left.
unfoldable pub map_run : ℕ → ℕ → ℕ → ℕ → ℕ → PageTable → PageTable
map_run zero i j phys flags tab = tab
map_run (suc k) i j phys flags tab =
    map_run k i (j + 1) phys flags (set tab (i + j) (entry_for phys flags j))

-- `1024 - npages` of 32 bits
abbrev pub table_limit : ℕ → ℕ
table_limit npages = (1024 + 2 ^ 32 - npages) % 2 ^ 32

abbrev pub search_table : PageTable → ℕ → Search
search_table tab npages =
    find_run (table_limit npages + 1) (in_use tab) (table_limit npages) npages 0

unfoldable pub map_low : Search → Aspace → ℕ → ℕ → ℕ → Outcome (Aspace × ℕ)
map_low (found i) a phys npages flags =
    ok (record a { ptab = map_run npages i 0 phys flags a.ptab }, 4096 * i)
map_low exhausted a phys npages flags = halted
map_low Search.out_of_fuel a phys npages flags = Outcome.out_of_fuel

-- The new tables and `*virt`. With no room left it halts the kernel.
unfoldable pub kmap_low_page : Aspace → ℕ → ℕ → ℕ → Outcome (Aspace × ℕ)
unfolding map_low
kmap_low_page a phys npages flags = map_low (search_table a.ptab npages) a phys npages flags

abbrev pub kernel_base : ℕ
kernel_base = 0x80000000

unfoldable pub map_high : Search → Aspace → ℕ → ℕ → ℕ → Outcome (Aspace × ℕ)
map_high (found i) a phys npages flags =
    ok (record a { high = map_run npages i 0 phys flags a.high }, kernel_base + 4096 * i)
map_high exhausted a phys npages flags = halted
map_high Search.out_of_fuel a phys npages flags = Outcome.out_of_fuel

unfoldable pub kmap_kernel_page : Aspace → ℕ → ℕ → ℕ → Outcome (Aspace × ℕ)
unfolding map_high
kmap_kernel_page a phys npages flags = map_high (search_table a.high npages) a phys npages flags

-- The loop of `kunmap_Page`: it stops with an error at an entry that is 0 already.
unfoldable pub unmap_run : ℕ → ℕ → ℕ → PageTable → PageTable × ℕ
unmap_run zero i j tab = (tab, status_success)
unmap_run (suc k) i j tab =
    let rest = unmap_run k i (j + 1) (set tab (i + j) 0) in
    if entry tab (i + j) == 0 then (tab, status_general_error) else rest

-- `entry & 0xFFFFF000`
abbrev pub frame_of : ℕ → ℕ
frame_of e = bit_and e 0xFFFFF000

-- The new tables, `*phys` and the status.
unfoldable pub kunmap_page : Aspace → ℕ → ℕ → Aspace × ℕ × ℕ
kunmap_page a virt npages =
    let i = (virt - kernel_base) / 4096 in
    let k = virt / 4096 in
    let h = unmap_run npages i 0 a.high in
    let l = unmap_run npages k 0 a.ptab in
    if leb kernel_base virt
    then (record a { high = h.0 }, frame_of (entry a.high i), h.1)
    else (record a { ptab = l.0 }, frame_of (entry a.ptab k), l.1)

-- `*phys`; the status is always success.
unfoldable pub mm_mapped_to_physical : Aspace → ℕ → ℕ
mm_mapped_to_physical a virt =
    if leb kernel_base virt
    then frame_of (entry a.high ((virt - kernel_base) / 4096))
    else frame_of (entry a.ptab (virt / 4096))

-- The loop of `aspace_map`, with `k` rounds left; `phys` and `virt` are page numbers.
unfoldable pub aspace_map_loop : ℕ → ℕ → ℕ → ℕ → ℕ → PageTable → PageTable
aspace_map_loop zero i phys virt flags tab = tab
aspace_map_loop (suc k) i phys virt flags tab =
    aspace_map_loop k (i + 1) phys virt flags
      (set tab (virt + i) (bit_or (((phys + i) * 4096) % 2 ^ 32) flags))

unfoldable pub aspace_map : Aspace → ℕ → ℕ → ℕ → ℕ → Aspace
unfolding aspace_map_loop
aspace_map a phys virt len flags = record a { ptab = aspace_map_loop len 0 phys virt flags a.ptab }
