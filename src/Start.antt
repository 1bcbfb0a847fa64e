-- ===== src/Start.antt =====
-- The start of the kernel, kernel/kinit.c: the pages that are set aside.
pub mod Reserved
mod Tests
use jeffos.Base.{ℕ, ◌+◌, ◌-◌, ◌/◌, ◌%◌, ◌^◌, List, [], ◌∷◌, ◌==◌, if◌then◌else◌}
use jeffos.Pages.Bitmap.{Pmat, kset_page_bit}
use jeffos.Pages.Alloc.{mark_run}
use jeffos.Sched.{clear_run}

-- `boot_entry` of include/boot.h, as far as the kernel reads it here.
pub record BootEntry : Type 0 where
  pub offset : ℕ
  pub type : ℕ
  pub size : ℕ

-- The loop over the boot directory from an entry on, up to one of no type. The end of the list stands
-- for such an entry.
unfoldable pub mark_loaded : List BootEntry → Pmat → Pmat
unfolding mark_run
mark_loaded [] pmat = pmat
mark_loaded (e ∷ entries) pmat =
    let rest = mark_loaded entries (mark_run e.size (e.offset + 0x100) 0 pmat) in
    if e.type == 0 then pmat else rest

-- The page of the kernel's page directory; `low_entry` is `KernelPageTable[0]`.
abbrev pub directory_page : ℕ → ℕ
directory_page low_entry = ((low_entry + 2 ^ 32 - 4096) % 2 ^ 32) / 4096

-- `entries` is the boot directory from its third entry on.
unfoldable pub kinit_page : Pmat → List BootEntry → ℕ → Pmat
unfolding clear_run mark_loaded
kinit_page pmat entries low_entry =
    let pmat₁ = kset_page_bit (kset_page_bit (clear_run 2048 0 pmat) 0) 1 in
    let pmat₂ = mark_loaded entries (mark_run 96 160 0 pmat₁) in
    let d = directory_page low_entry in
    kset_page_bit (kset_page_bit (kset_page_bit pmat₂ d) (d + 1)) (d + 2)
