-- ===== src/MemoryLog/Tests.antt =====
-- memorylog.c: two allocations, and the first is freed.
use genspark_training.Base.{◌≡◌, some, [], ◌∷◌, arith}
use genspark_training.MemoryLog.{Action, Log, init, step}
use genspark_training.MemoryLog.Tracking.{IsValid}
use genspark_training.MemoryLog.Live.{Reachable, addresses, Reachable-IsValid}

abbrev first : Action
first = Action.allocation (some 4096) 1 1 10

abbrev second : Action
second = Action.allocation (some 8192) 2 4 3

abbrev log : Log
unfolding step
log = step (Action.release 1) (step second (step first init))

log-Reachable : Reachable (8192 ∷ []) log
unfolding step
log-Reachable = Reachable.next (Action.release 1) tt (
    Reachable.next second (((omega arith, tt), omega arith), tt)
      (Reachable.next first ((tt, omega arith), tt) Reachable.start))

Reachable-IsValid_example : IsValid log × (addresses log.nodes ≡ 8192 ∷ [])
Reachable-IsValid_example = Reachable-IsValid log-Reachable
