-- ===== src/Resource/Tests.antt =====
-- A table of four entries, and the theorems at it.
use jeffos.Base.{ℕ, ◌-◌, ◌≡◌, refl, ◌↔◌, List, [], ◌∷◌, none, some, arith, replicate}
use jeffos.Resource.{Resource, resource, Table, rsrc_init, rsrc_new, rsrc_find, rsrc_del}
use jeffos.Resource.Valid.{IsValid}
use jeffos.Resource.Ops.{live}
use jeffos.Resource.Init.{span, rsrc_init_lem}
use jeffos.Resource.Capacity.{live_count, rsrc_new-full_iff}
use jeffos.Resource.History.{Call, find, new, del, call, calls, Promises, calls-Promises}

abbrev memory : List Resource
memory = replicate 4 (resource 9 9)

four :
    (t : Table) × (rsrc_init memory 32 ≡ some t)
    × (t.rmax ≡ 4)
    × IsValid t (span 1 3)
    × ((j : ℕ) → live t j ≡ none)
four = rsrc_init_lem memory 32 (omega arith) (omega arith) refl

rsrc_new-full_iff_example :
    (rsrc_new four.0 3 0x5000 ≡ some (four.0, 0)) ↔ (live_count four.0 ≡ four.0.rmax - 1)
rsrc_new-full_iff_example = rsrc_new-full_iff four.0 3 0x5000 (span 1 3) four.3 (omega arith)

-- A port is made, found, not found as a task, deleted, and its id is used again for a semaphore.
abbrev story : List Call
story = new 3 0x5000 ∷ find 3 1 ∷ find 1 1 ∷ del 1 ∷ find 3 1 ∷ new 4 0x6000 ∷ []

calls-Promises_example :
    (t' : Table) × (answers free' : List ℕ) × (calls story four.0 ≡ some (t', answers))
    × IsValid t' free'
    × Promises four.0.rmax (live four.0) story answers (live t')
calls-Promises_example = calls-Promises story four.0 (span 1 3) four.3 (omega arith)

abbrev four_entries : Table
four_entries = record {
  rmap = resource 0 1 ∷ resource 0 2 ∷ resource 0 3 ∷ resource 0 0 ∷ [];
  rmax = 4;
  rfree = 1;
}

init_runs : rsrc_init memory 32 ≡ some four_entries
unfolding rsrc_init
init_runs = refl

story_runs :
    calls story four_entries
    ≡ some (
      record four_entries {
        rmap = resource 0 1 ∷ resource 4 0x6000 ∷ resource 0 3 ∷ resource 0 0 ∷ [];
        rfree = 2;
      },
      1 ∷ 0x5000 ∷ 0 ∷ 0 ∷ 0 ∷ 1 ∷ [],
    )
unfolding calls call rsrc_new rsrc_find rsrc_del
story_runs = refl
