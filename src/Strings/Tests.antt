-- ===== src/Strings/Tests.antt =====
-- A memory with the string "ab" at 100 and at 200.
use jeffos.Base.{ℕ, zero, suc, ◌+◌, ◌<◌, ◌≢◌, refl, some, arith, ◌==◌, if◌then◌else◌}
use jeffos.Strings.{Bytes, strncmp, memmove}
use jeffos.Strings.Copy.{Copied, memmove-Copied}
use jeffos.Strings.Compare.{Terminated, SameFull, Compared, strncmp-Compared}

abbrev bytes : Bytes
bytes a =
    if a == 100
    then 97
    else if a == 101
    then 98
    else if a == 200
    then 97
    else if a == 201
    then 98
    else 0

first-Terminated : Terminated bytes 100 2
first-Terminated = record { ends = refl; before = before }
  where
    before : (i : ℕ) → i < 2 → bytes (100 + i) ≢ 0
    before zero h e = absurd (omega arith)
    before (suc zero) h e = absurd (omega arith)
    before (suc (suc i)) h e = absurd (omega arith)

strncmp-Compared_example : Compared (some (strncmp bytes 100 200 5)) (SameFull bytes 100 200 5)
strncmp-Compared_example = strncmp-Compared 5 bytes 100 200

memmove-Copied_example : Copied bytes (memmove bytes 101 100 3) 101 100 3
memmove-Copied_example = memmove-Copied bytes 101 100 3
