-- ===== src/Resource.antt =====
-- The resource table of kernel/resource.c: ids of tasks, ports and semaphores, handed out from a
-- chain of unused entries that runs through the table itself.
pub mod Valid
pub mod Ops
pub mod Init
pub mod Capacity
pub mod History
mod Tests
use jeffos.Base.{
  ℕ, zero, suc, ◌+◌, ◌-◌, ◌/◌, ◌%◌, ◌^◌, ◌>>=◌, not, Option, none, some, List, ◌==◌, ltb,
  if◌then◌else◌, get_elem?, set,
}

-- `r` is the union of a pointer (`data`) and an index (`next`): one 32-bit word either way.
pub record Resource : Type 0 where
  pub type : ℕ
  pub r : ℕ

abbrev pub resource : ℕ → ℕ → Resource
resource t w = record { type = t; r = w }

abbrev pub rsrc_none : ℕ
rsrc_none = 0

-- The file's three static variables.
pub record Table : Type 0 where
  pub rmap : List Resource
  pub rmax : ℕ
  pub rfree : ℕ

-- The loop of `rsrc_init` from `i` on, with the rounds that are left.
unfoldable pub init_loop : ℕ → ℕ → List Resource → List Resource
init_loop zero i m = m
init_loop (suc k) i m = init_loop k (i + 1) (set m i (resource rsrc_none (i + 1)))

-- `rmap[rmax-1].r.next = 0`; `none` is a write outside the map.
end_chain : Option Resource → List Resource → ℕ → Option (List Resource)
end_chain none m i = none
end_chain (some e) m i = some (set m i (record e { r = 0 }))

-- `memory` is the map that is passed in, and `sizeof(resource)` is 8. With no room for an entry the
-- last write goes to index `rmax - 1` of 32 bits, outside any map.
unfoldable pub rsrc_init : List Resource → ℕ → Option Table
unfolding init_loop end_chain
rsrc_init memory size = do
  let rmax = size / 8
  let m = init_loop rmax 0 memory
  let i = (rmax + 2 ^ 32 - 1) % 2 ^ 32
  m' ← end_chain (get_elem? m i) m i
  some (record { rmap = m'; rmax = rmax; rfree = 1 })

unfoldable pub find_in : Option Resource → ℕ → ℕ
find_in none t = 0
find_in (some e) t = if e.type == t then e.r else 0

-- The answer 0 is `NULL`.
unfoldable pub rsrc_find : Table → ℕ → ℕ → ℕ
unfolding find_in
rsrc_find t type id = if ltb id t.rmax then find_in (get_elem? t.rmap id) type else 0

-- `none` is a read outside the map.
unfoldable pub new_at : Option Resource → Table → ℕ → ℕ → Option (Table × ℕ)
new_at none t type word = none
new_at (some e) t type word =
    some (record t { rmap = set t.rmap t.rfree (resource type word); rfree = e.r }, t.rfree)

unfoldable pub rsrc_new : Table → ℕ → ℕ → Option (Table × ℕ)
unfolding new_at
rsrc_new t type word =
    if t.rfree == 0 then some (t, 0) else new_at (get_elem? t.rmap t.rfree) t type word

unfoldable pub del_at : Option Resource → Table → ℕ → Table
del_at none t id = t
del_at (some e) t id =
    if not (e.type == rsrc_none)
    then record t { rmap = set t.rmap id (resource rsrc_none t.rfree); rfree = id }
    else t

unfoldable pub rsrc_del : Table → ℕ → Table
unfolding del_at
rsrc_del t id = if ltb id t.rmax then del_at (get_elem? t.rmap id) t id else t
