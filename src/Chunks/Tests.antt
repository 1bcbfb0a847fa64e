-- ===== src/Chunks/Tests.antt =====
-- Two free chunks and a used one.
use jeffos.Base.{ℕ, ◌≡◌, refl, [], ◌∷◌, arith, ◌==◌, if◌then◌else◌}
use jeffos.Status.{Outcome, ok}
use jeffos.Pages.Sample.{sample}
use jeffos.Chunks.{Chunk, Lists, get_chunk, find_chunk, free}
use jeffos.Chunks.Fit.{first_longer, get_chunk_lem}
use jeffos.Chunks.Endless.{free-endless}

abbrev chunks : ℕ → Chunk
chunks a =
    if a == 0x1000
    then record { start = 0x8000; length = 64; prev = 0; next = 0x2000 }
    else if a == 0x2000
    then record { start = 0x9000; length = 512; prev = 0x1000; next = 0 }
    else record { start = 0x8800; length = 32; prev = 0; next = 0 }

abbrev lists : Lists
lists = record {
  free_list = 0x1000;
  used_list = 0x3000;
  free_tail = 0x2000;
  used_tail = 0x3000;
  chunk = chunks;
  memory = sample;
}

get_chunk_lem_example : get_chunk 3 lists 64 ≡ ok 0x2000
unfolding first_longer
get_chunk_lem_example =
    get_chunk_lem lists (0x1000 ∷ 0x2000 ∷ []) 3 64
      (omega arith, refl, refl, (omega arith, refl, refl, tt)) refl (omega arith)

used_found : find_chunk 9 chunks 0x3000 0x8800 ≡ ok 0x3000
unfolding find_chunk
used_found = refl

free-endless_example : free 9 lists 0x8800 ≡ Outcome.out_of_fuel
free-endless_example =
    free-endless 9 lists 0x8800 0x3000 used_found (omega arith) (omega arith) (omega arith)
