-- ===== src/CondBuffer/Tests.antt =====
-- Executions of threads-buffer-w-p&c.c.
use genspark_training.Base.{ℕ, zero, suc, ◌≤◌, ◌≡◌, refl, ◌⊎◌, [], ◌∷◌}
use genspark_training.CondBuffer.{Thread, State, init, produce, consume}
use genspark_training.CondBuffer.Rounds.{Turn, Reachable, IsBalanced, Reachable-IsBalanced, IsDone}
use genspark_training.CondBuffer.Progress.{Turns, Turns-finish}

abbrev many_rounds : ℕ → State → State
many_rounds zero s = s
many_rounds (suc n) s = many_rounds n (consume (produce s))

-- Two numbers are produced before the first is consumed: the last one goes first.
last_first : (consume (consume (produce (produce init)))).printed ≡ 1 ∷ 2 ∷ []
unfolding produce consume
last_first = refl

one_at_a_time : (many_rounds 10 init).printed ≡ 10 ∷ 9 ∷ 8 ∷ 7 ∷ 6 ∷ 5 ∷ 4 ∷ 3 ∷ 2 ∷ 1 ∷ []
unfolding produce consume
one_at_a_time = refl

two-Turns : Turns 2 (consume (produce init))
unfolding produce
two-Turns = Turns.turn (Turns.turn Turns.start (Turn.produced refl)) (Turn.consumed refl)

-- The consumer waits, is woken, and takes the number.
waited : Reachable (consume (produce (consume init)))
unfolding produce consume
waited =
    Reachable.turn
      (Reachable.turn (Reachable.turn Reachable.start (Turn.consumed refl)) (Turn.produced refl))
      (Turn.consumed refl)

Reachable-IsBalanced_example : IsBalanced (consume (produce (consume init)))
Reachable-IsBalanced_example = Reachable-IsBalanced waited

Turns-finish_example :
    (2 ≤ 62)
    × (((consume (produce init)).producer ≡ Thread.active)
        ⊎ ((consume (produce init)).consumer ≡ Thread.active)
        ⊎ IsDone (consume (produce init)))
Turns-finish_example = Turns-finish two-Turns
