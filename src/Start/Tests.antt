-- ===== src/Start/Tests.antt =====
-- A boot directory with the kernel and two servers behind it.
use jeffos.Base.{ℕ, ◌≡◌, List, [], ◌∷◌, arith, replicate, length-replicate}
use jeffos.Pages.Bitmap.{IsPmat, used}
use jeffos.Start.{BootEntry, kinit_page}
use jeffos.Start.Reserved.{InMemory, reserved, used-kinit_page}

abbrev entries : List BootEntry
entries =
    record { offset = 2; type = 3; size = 40 }
    ∷ record { offset = 42; type = 3; size = 5 }
    ∷ record { offset = 0; type = 0; size = 0 }
    ∷ []

entries-InMemory : InMemory entries
unfolding InMemory
entries-InMemory = (omega arith, (omega arith, (omega arith, tt)))

used-kinit_page_example :
    IsPmat (kinit_page (replicate 2048 255) entries 0x3F0007)
    × (used (kinit_page (replicate 2048 255) entries 0x3F0007) 300 ≡ reserved entries 0x3F0007 300)
used-kinit_page_example =
    used-kinit_page (replicate 2048 255) entries 0x3F0007 300 (length-replicate {A = ℕ} 2048 255)
      entries-InMemory (omega arith)
