-- ===== src/BoundedQueue/Tests.antt =====
-- bounded-producer-consumer-queue.c along concrete executions.
use genspark_training.Base.{
  ℕ, zero, suc, ◌≡◌, refl, Option, none, some, List, [], ◌∷◌, ◌++◌, arith, Option-cases, inl, inr,
}
use genspark_training.BoundedQueue.{State, Phase, Move, init, step, Run, items_to_produce}
use genspark_training.BoundedQueue.Fifo.{IsValid, Run-IsValid}
use genspark_training.BoundedQueue.Totals.{Run-finished}
use genspark_training.BoundedQueue.Wakeup.{Forgotten, Run-Forgotten}

abbrev play : List Move → State → Option State
play [] s = some s
play (m ∷ ms) s = elim (step m s) [ none ↦ none | some u ↦ play ms u ]

play-Run : (ms : List Move) (s s' : State) → play ms s ≡ some s' → Run s s'
play-Run [] s s' h = let same : s ≡ s' = ground arith in rw same Run.stop
play-Run (m ∷ ms) s s' h = elim (Option-cases (step m s)) [
  | inl e ↦ absurd (ground (arith, e))
  | inr (u, e) ↦ Run.move m e (play-Run ms u s' (ground (arith, e, h)))
]

abbrev times : ℕ → Move → List Move
times zero m = []
times (suc n) m = m ∷ times n m

abbrev result : List Move → State
result ms = elim (play ms init) [ none ↦ init | some s ↦ s ]

-- Every thread makes its rounds.
abbrev all_rounds : List Move
all_rounds =
    times 5 (Move.producer_locks 0 0)
    ++ times 5 (Move.consumer_locks 0 0)
    ++ times 5 (Move.producer_locks 1 0)
    ++ times 5 (Move.consumer_locks 1 0)

all_rounds-runs : play all_rounds init ≡ some (result all_rounds)
unfolding step init
all_rounds-runs = refl

Run-IsValid_example : IsValid (result all_rounds)
Run-IsValid_example =
    Run-IsValid (result all_rounds) (play-Run all_rounds init (result all_rounds) all_rounds-runs)

Run-finished_example :
    ((result all_rounds).shared.count ≡ 0)
    × ((result all_rounds).consumed ≡ (result all_rounds).produced)
unfolding step init
Run-finished_example =
    Run-finished (result all_rounds) (play-Run all_rounds init (result all_rounds) all_rounds-runs)
      refl refl

-- Both producers sleep; the wake of one resets the flag, and the other sleeps for good.
abbrev fill : List Move
fill =
    times 3 (Move.producer_locks 0 0)
    ++ times 2 (Move.producer_locks 1 0)
    ++ Move.producer_locks 0 0
      ∷ Move.producer_locks 1 0
      ∷ Move.producer_waits 0
      ∷ Move.producer_waits 1
      ∷ Move.consumer_locks 0 0
      ∷ []

abbrev drain : List Move
drain =
    times 4 (Move.consumer_locks 0 0)
    ++ times 2 (Move.producer_locks 0 0)
    ++ times 3 (Move.consumer_locks 1 0)
    ++ Move.consumer_waits 1 ∷ []

-- The sleepers at the end, and the rounds of the other two threads.
hangs :
    let s = result (fill ++ drain) in
    ((s.producers 1).phase ≡ Phase.asleep)
    × ((s.consumers 1).phase ≡ Phase.asleep)
    × ((s.producers 0).i ≡ items_to_produce)
    × ((s.consumers 0).i ≡ items_to_produce)
unfolding step init
hangs = (refl, refl, refl, refl)

Run-Forgotten_example : Forgotten 1 (result (fill ++ Move.consumer_locks 0 0 ∷ []))
unfolding step init
Run-Forgotten_example =
    Run-Forgotten 1
      (Run.move {s = result fill} {s' = result (fill ++ Move.consumer_locks 0 0 ∷ [])}
        (Move.consumer_locks 0 0) {u = result (fill ++ Move.consumer_locks 0 0 ∷ [])} refl Run.stop)
      (omega arith, tt) (record { sleeps = refl; unset = refl })
