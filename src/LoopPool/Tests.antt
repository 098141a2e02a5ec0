-- ===== src/LoopPool/Tests.antt =====
-- A pool of three loops.
use chater.Common.{true, [], ◌∷◌}
use chater.LoopPool.{LoopPool}

abbrev three : LoopPool
three = record { base_loop = 1; started = true; next = 0; loops = 4 ∷ 5 ∷ 6 ∷ [] }
