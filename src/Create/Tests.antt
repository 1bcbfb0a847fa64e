-- ===== src/Create/Tests.antt =====
-- A table whose highest free pair of entries is 1020 and 1021.
use jeffos.Base.{◌≡◌, refl, set, replicate}
use jeffos.Create.{find_stack}
use jeffos.Create.Stack.{HighestPair, find_stack-HighestPair}

find_stack-HighestPair_example :
    HighestPair
      (set (replicate 1024 0) 1022 7)
      1023
      (find_stack 1023 (set (replicate 1024 0) 1022 7) 0)
find_stack-HighestPair_example = find_stack-HighestPair (set (replicate 1024 0) 1022 7)

finds : find_stack 1023 (set (replicate 1024 0) 1022 7) 0 ≡ 1020
unfolding find_stack
finds = refl
