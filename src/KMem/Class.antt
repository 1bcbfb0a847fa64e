-- ===== src/KMem/Class.antt =====
-- One class of blocks of kernel/memory.c: its chain, its live blocks and its pages.
use jeffos.Base.{ℕ, ◌+◌, ◌-◌, ◌*◌, ◌/◌, ◌%◌, ◌≤◌, ◌<◌, ◌≡◌, true, false, List, [], ◌∷◌, length, has}
use jeffos.Pages.Tables.{Aspace, in_use, kernel_base}
use jeffos.KMem.{KmMap}

abbrev pub head_or_null : List ℕ → ℕ
head_or_null [] = 0
head_or_null (x ∷ xs) = x

-- The blocks of the list are distinct, none is NULL, and the first word of each leads to the next.
abbrev pub FreeChain : (ℕ → ℕ) → List ℕ → Type 0
FreeChain word [] = Unit
FreeChain word (x ∷ xs) =
    (0 < x) × (word x ≡ head_or_null xs) × (has x xs ≡ false) × FreeChain word xs

abbrev pub Distinct : List ℕ → Type 0
Distinct [] = Unit
Distinct (x ∷ xs) = (has x xs ≡ false) × Distinct xs

-- The page that an address lies on.
abbrev pub page_of : ℕ → ℕ
page_of b = b - b % 4096

-- A block of the class: on one of its pages, at a multiple of the block size, and on the page that
-- is being cut below the part that is still fresh.
pub record IsBlock (km : KmMap) (pages : List ℕ) (b : ℕ) : Type 0 where
  pub owned : has (page_of b) pages ≡ true
  pub aligned : b % km.size ≡ 0
  pub cut : page_of b ≡ head_or_null pages → b < km.fresh_chain

-- Page `p` is mapped in the high table.
pub record IsPage (a : Aspace) (p : ℕ) : Type 0 where
  pub high : kernel_base ≤ p
  pub whole : p % 4096 ≡ 0
  pub mapped : in_use a.high ((p - kernel_base) / 4096) ≡ true

-- `free` is the chain, `live` the blocks that are handed out, `pages` the pages of the class, the
-- newest first; blocks of the size fill a page.
pub record IsClass (km : KmMap) (word : ℕ → ℕ) (a : Aspace) (free live pages : List ℕ)
    : Type 0 where
  pub first : km.free_chain ≡ head_or_null free
  pub chain : FreeChain word free
  pub free_counted : km.free_count ≡ length free
  pub used_counted : km.used_count ≡ length live
  pub live_distinct : Distinct live
  pub apart : (x : ℕ) → has x free ≡ true → has x live ≡ false
  pub free_blocks : (x : ℕ) → has x free ≡ true → IsBlock km pages x
  pub live_blocks : (x : ℕ) → has x live ≡ true → IsBlock km pages x
  pub some_fresh : 0 < km.fresh_count
  pub some_size : 0 < km.size
  pub fills : 4096 / km.size * km.size ≡ 4096
  pub fresh_aligned : km.fresh_chain % km.size ≡ 0
  pub fresh_at : km.fresh_chain + km.fresh_count * km.size ≡ head_or_null pages + 4096
  pub few_fresh : km.fresh_count ≤ 4096 / km.size
  pub some_page : has (head_or_null pages) pages ≡ true
  pub pages_mapped : (p : ℕ) → has p pages ≡ true → IsPage a p
