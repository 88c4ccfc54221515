-- ===== src/CondBuffer/Progress.antt =====
-- The threads of threads-buffer-w-p&c.c come to their ends.
use mathlib.Core.Path.{subst}
use genspark_training.Base.{
  ℕ, suc, ◌+◌, ◌-◌, ◌*◌, ◌≤◌, ◌<◌, ◌≡◌, refl, ap, ◌⊎◌, inl, inr, ◌&&◌, ltb, leb, ◌==◌, arith,
  Bool-cases,
}
use genspark_training.CondBuffer.{
  Thread, State, buffer_size, rounds, init, signal, go_on, produce, consume,
}
use genspark_training.CondBuffer.Rounds.{
  Turn, Reachable, ProducerFits, ConsumerFits, IsBalanced, Reachable-IsBalanced, IsDone, one_if,
  occurs, tally,
}

-- A thread is active, or both are at the end.
stuck_cases :
    (p c : Thread) (next taken count : ℕ)
    → ProducerFits p next count
    → ConsumerFits c taken count
    → count + taken + 1 ≡ next
    → (p ≡ Thread.active)
      ⊎ (c ≡ Thread.active)
      ⊎ ((p ≡ Thread.finished) × (c ≡ Thread.finished) × (taken ≡ rounds) × (count ≡ 0))
stuck_cases Thread.active c next taken count h k e = inl refl
stuck_cases Thread.waiting Thread.active next taken count h k e = inr (inl refl)
stuck_cases Thread.waiting Thread.waiting next taken count h k e = absurd (omega (arith, h.1, k.1))
stuck_cases Thread.waiting Thread.finished next taken count h k e =
    absurd (omega (arith, h.0, h.1, k, e))
stuck_cases Thread.finished Thread.active next taken count h k e = inr (inl refl)
stuck_cases Thread.finished Thread.waiting next taken count h k e =
    absurd (omega (arith, h, k.0, k.1, e))
stuck_cases Thread.finished Thread.finished next taken count h k e =
    inr (inr (refl, refl, k, omega (arith, h, k, e)))

done_lem :
    (s : State)
    → IsBalanced s
    → s.taken ≡ rounds
    → s.count ≡ 0
    → (v : ℕ) → 0 < v
    → v ≤ rounds
    → occurs v s.printed ≡ 1
done_lem s v t c w h k =
    let o = v.once w in
    let none_left : tally s.buffer w s.count ≡ 0 = ap (tally s.buffer w) c in
    let all : one_if (ltb 0 w && ltb w s.next) ≡ 1 = ground (arith, h, k, v.counted, t, c) in
    omega (arith, o, none_left, all)

pub never_stuck :
    (s : State)
    → IsBalanced s
    → (s.producer ≡ Thread.active) ⊎ (s.consumer ≡ Thread.active) ⊎ IsDone s
never_stuck s v =
    elim (stuck_cases s.producer s.consumer s.next s.taken s.count v.producer v.consumer
      v.counted) [
        | inl h ↦ inl h
        | inr o ↦ elim o [
          | inl h ↦ inr (inl h)
          | inr (p, c, t, n) ↦
              inr (inr (record { producer = p; consumer = c; printed = done_lem s v t n }))
        ]
      ]

abbrev weight : Thread → ℕ
weight Thread.active = 1
weight Thread.waiting = 0
weight Thread.finished = 0

-- The turns that are left at most.
abbrev work : State → ℕ
work s = 3 * (suc rounds - s.next) + 3 * (rounds - s.taken) + weight s.producer + weight s.consumer

weight-le : (t : Thread) → weight t ≤ 1
weight-le Thread.active = omega arith
weight-le Thread.waiting = omega arith
weight-le Thread.finished = omega arith

weight-signal : (t : Thread) → weight (signal t) ≤ weight t + 1
weight-signal Thread.active = omega arith
weight-signal Thread.waiting = omega arith
weight-signal Thread.finished = omega arith

work-produce :
    (s : State) → IsBalanced s → s.producer ≡ Thread.active → work (produce s) + 1 ≤ work s
unfolding produce
work-produce s v e =
    let ready : s.next ≤ rounds = subst (λ t. ProducerFits t s.next s.count) e v.producer in
    let one : weight s.producer ≡ 1 = ap weight e in
    elim (Bool-cases (s.count == buffer_size)) [
      | inl full ↦ rw full (omega (arith, one))
      | inr room ↦
          (let a = weight-le (go_on (leb (s.next + 1) rounds)) in
            let b = weight-signal s.consumer in rw room (omega (arith, a, b, one, ready)))
    ]

work-consume :
    (s : State) → IsBalanced s → s.consumer ≡ Thread.active → work (consume s) + 1 ≤ work s
unfolding consume
work-consume s v e =
    let ready : s.taken < rounds = subst (λ t. ConsumerFits t s.taken s.count) e v.consumer in
    let one : weight s.consumer ≡ 1 = ap weight e in
    elim (Bool-cases (s.count == 0)) [
      | inl empty ↦ rw empty (omega (arith, one))
      | inr some_left ↦
          (let a = weight-le (go_on (ltb (s.taken + 1) rounds)) in
            let b = weight-signal s.producer in rw some_left (omega (arith, a, b, one, ready)))
    ]

-- Turns in any order, counted, with no wake-up but by a signal.
pub data Turns : ℕ → State → Type 0 where
  start : Turns 0 init
  turn : {n : ℕ} {s s' : State} → Turns n s → Turn s s' → Turns (suc n) s'

Turns-Reachable : {n : ℕ} {s : State} → Turns n s → Reachable s
Turns-Reachable Turns.start = Reachable.start
Turns-Reachable (Turns.turn r t) = Reachable.turn (Turns-Reachable r) t

Turns-work : {n : ℕ} {s : State} → Turns n s → n + work s ≤ 62
Turns-work Turns.start = omega arith
Turns-work (Turns.turn {n} {s} r (Turn.produced e)) =
    let a = Turns-work r in
    let b = work-produce s (Reachable-IsBalanced (Turns-Reachable r)) e in omega (arith, a, b)
Turns-work (Turns.turn {n} {s} r (Turn.consumed e)) =
    let a = Turns-work r in
    let b = work-consume s (Reachable-IsBalanced (Turns-Reachable r)) e in omega (arith, a, b)

-- The threads take 62 turns at most, where they are woken by signals only. After any of them one of the
-- threads can take another turn, or both are at the end and each of the ten numbers was printed once.
pub Turns-finish :
    {n : ℕ} {s : State}
    → Turns n s
    → (n ≤ 62) × ((s.producer ≡ Thread.active) ⊎ (s.consumer ≡ Thread.active) ⊎ IsDone s)
Turns-finish {n} {s} r =
    let a = Turns-work r in
    (omega (arith, a), never_stuck s (Reachable-IsBalanced (Turns-Reachable r)))
