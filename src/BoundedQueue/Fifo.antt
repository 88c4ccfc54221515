-- ===== src/BoundedQueue/Fifo.antt =====
-- The ring buffer of bounded-producer-consumer-queue.c is a first-in first-out queue.
use genspark_training.Base.{
  ℕ, zero, suc, ◌+◌, ◌-◌, ◌%◌, ◌≤◌, ◌<◌, ◌≡◌, refl, sym, false, some, List, [], ◌∷◌, ◌++◌, length,
  update, ◌==◌, arith, Bool-cases, Option-cases, inl, inr,
}
use native.Mathlib.Numerals.{add-one}
use mathlib.Core.List.{append_assoc}
use genspark_training.BoundedQueue.{
  buffer_size, Shared, State, Phase, init, set_phase, wake_if, put_item, take_item, producer_locked,
  consumer_locked, futex_wait, Move, may_lock, may_wait, step, Run,
}

-- The items in the ring from index `o` on.
abbrev pub items : (ℕ → ℕ) → ℕ → ℕ → List ℕ
items buffer o zero = []
items buffer o (suc n) = buffer o ∷ items buffer ((o + 1) % 5) n

abbrev pub contents : Shared → List ℕ
contents q = items q.buffer q.out q.count

items-update :
    (buffer : ℕ → ℕ) (o n j x : ℕ)
    → o < 5
    → n < 5
    → j ≡ (o + n) % 5
    → items (update buffer j x) o n ≡ items buffer o n
items-update buffer o zero j x p q e = refl
items-update buffer o (suc n) j x p q e = ground (arith, items-update buffer ((o + 1) % 5) n j x)

items-append :
    (buffer : ℕ → ℕ) (o n j x : ℕ)
    → o < 5
    → n < 5
    → j ≡ (o + n) % 5
    → items (update buffer j x) o (suc n) ≡ items buffer o n ++ x ∷ []
items-append buffer o zero j x p q e = ground arith
items-append buffer o (suc n) j x p q e = ground (arith, items-append buffer ((o + 1) % 5) n j x)

items-suc :
    (buffer : ℕ → ℕ) (o n : ℕ)
    → (n == 0) ≡ false
    → items buffer o n ≡ buffer o ∷ items buffer ((o + 1) % 5) (n - 1)
items-suc buffer o zero h = absurd (ground arith)
items-suc buffer o (suc n) h = let e : suc n - 1 ≡ n = omega arith in rw e refl

pub length-items : (buffer : ℕ → ℕ) (o n : ℕ) → length (items buffer o n) ≡ n
length-items buffer o zero = refl
length-items buffer o (suc n) = omega (arith, length-items buffer ((o + 1) % 5) n)

-- The indices are in range and the items make up what was produced and not consumed.
pub record IsValid (s : State) : Type 0 where
  pub out_range : s.shared.out < buffer_size
  pub count_range : s.shared.count ≤ buffer_size
  pub in_place : s.shared.write_index ≡ (s.shared.out + s.shared.count) % buffer_size
  pub fifo : s.produced ≡ s.consumed ++ contents s.shared

put_item-IsValid :
    (item : ℕ) (s s' : State)
    → (s.shared.count == 5) ≡ false
    → s'.shared.buffer ≡ (put_item item s.shared).buffer
    → s'.shared.write_index ≡ (put_item item s.shared).write_index
    → s'.shared.out ≡ s.shared.out
    → s'.shared.count ≡ s.shared.count + 1
    → s'.produced ≡ s.produced ++ item ∷ []
    → s'.consumed ≡ s.consumed
    → IsValid s
    → IsValid s'
put_item-IsValid item s s' free eb ew eo ec ep eq v =
    let room : s.shared.count < 5 = ground (arith, v.count_range) in
    record {
      out_range = rw eo v.out_range;
      count_range = rw ec (omega (arith, room));
      in_place = rw (ew, eo, ec, v.in_place) (omega arith);
      fifo =
          rw
            (
              ep,
              eq,
              eo,
              ec,
              eb,
              v.fifo,
              add-one s.shared.count,
              items-append s.shared.buffer s.shared.out s.shared.count s.shared.write_index item
                  v.out_range room v.in_place,
            )
            (append_assoc s.consumed (contents s.shared) (item ∷ []));
    }

producer_locked-IsValid :
    (t w : ℕ) (s s' : State) → producer_locked t w s ≡ some s' → IsValid s → IsValid s'
unfolding producer_locked
producer_locked-IsValid t w s s' h v = elim (Bool-cases (s.shared.count == buffer_size)) [
  | inl full ↦
      let shape : s' ≡ record s {
        shared = record s.shared { not_full = 1 };
        producers = set_phase s.producers t Phase.calling;
      } =
        ground arith in
      rw shape (record {
        out_range = v.out_range;
        count_range = v.count_range;
        in_place = v.in_place;
        fifo = v.fifo;
      })
  | inr free ↦ elim (Option-cases (wake_if s.shared.not_empty s.consumers w)) [
    | inl e ↦ absurd (ground arith)
    | inr (p, e) ↦
        put_item-IsValid ((s.producers t).i + 1) s s' free (ground arith) (ground arith)
          (ground arith) (ground arith) (ground arith) (ground arith) v
  ]
]

-- What a consumer takes is the item that was put first.
take_item-IsValid :
    (s s' : State)
    → (s.shared.count == 0) ≡ false
    → s'.shared.buffer ≡ s.shared.buffer
    → s'.shared.write_index ≡ s.shared.write_index
    → s'.shared.out ≡ (take_item s.shared).out
    → s'.shared.count ≡ s.shared.count - 1
    → s'.produced ≡ s.produced
    → s'.consumed ≡ s.consumed ++ s.shared.buffer s.shared.out ∷ []
    → IsValid s
    → IsValid s'
take_item-IsValid s s' some_item eb ew eo ec ep eq v = record {
  out_range = rw eo (omega arith);
  count_range = rw ec (omega (arith, v.count_range));
  in_place = rw (ew, eo, ec, v.in_place) (ground (arith, v.out_range));
  fifo =
      rw
        (
          ep,
          eq,
          eo,
          ec,
          eb,
          v.fifo,
          items-suc s.shared.buffer s.shared.out s.shared.count some_item,
        )
        (sym (
          append_assoc s.consumed (s.shared.buffer s.shared.out ∷ [])
            (items s.shared.buffer ((s.shared.out + 1) % 5) (s.shared.count - 1))));
}

consumer_locked-IsValid :
    (t w : ℕ) (s s' : State) → consumer_locked t w s ≡ some s' → IsValid s → IsValid s'
unfolding consumer_locked
consumer_locked-IsValid t w s s' h v = elim (Bool-cases (s.shared.count == 0)) [
  | inl empty ↦
      let shape : s' ≡ record s {
        shared = record s.shared { not_empty = 1 };
        consumers = set_phase s.consumers t Phase.calling;
      } =
        ground arith in
      rw shape (record {
        out_range = v.out_range;
        count_range = v.count_range;
        in_place = v.in_place;
        fifo = v.fifo;
      })
  | inr some_item ↦ elim (Option-cases (wake_if s.shared.not_full s.producers w)) [
    | inl e ↦ absurd (ground arith)
    | inr (p, e) ↦
        take_item-IsValid s s' some_item (ground arith) (ground arith) (ground arith) (ground arith)
          (ground arith) (ground arith) v
  ]
]

step-IsValid : (m : Move) (s s' : State) → step m s ≡ some s' → IsValid s → IsValid s'
unfolding step
step-IsValid (Move.producer_locks t w) s s' h v = elim (Bool-cases (may_lock t (s.producers t))) [
  | inl e ↦ producer_locked-IsValid t w s s' (ground arith) v
  | inr e ↦ absurd (ground arith)
]
step-IsValid (Move.consumer_locks t w) s s' h v = elim (Bool-cases (may_lock t (s.consumers t))) [
  | inl e ↦ consumer_locked-IsValid t w s s' (ground arith) v
  | inr e ↦ absurd (ground arith)
]
step-IsValid (Move.producer_waits t) s s' h v = elim (Bool-cases (may_wait t (s.producers t))) [
  | inl e ↦
      let shape : s'
          ≡ record s { producers = set_phase s.producers t (futex_wait s.shared.not_full) } =
        ground arith in
      rw shape (record {
        out_range = v.out_range;
        count_range = v.count_range;
        in_place = v.in_place;
        fifo = v.fifo;
      })
  | inr e ↦ absurd (ground arith)
]
step-IsValid (Move.consumer_waits t) s s' h v = elim (Bool-cases (may_wait t (s.consumers t))) [
  | inl e ↦
      let shape : s'
          ≡ record s { consumers = set_phase s.consumers t (futex_wait s.shared.not_empty) } =
        ground arith in
      rw shape (record {
        out_range = v.out_range;
        count_range = v.count_range;
        in_place = v.in_place;
        fifo = v.fifo;
      })
  | inr e ↦ absurd (ground arith)
]

init-IsValid : IsValid init
unfolding init
init-IsValid = record {
  out_range = omega arith;
  count_range = omega arith;
  in_place = refl;
  fifo = refl;
}

Run-preserves : {s s' : State} → Run s s' → IsValid s → IsValid s'
Run-preserves Run.stop v = v
Run-preserves (Run.move {s} m {u} e r) v = Run-preserves r (step-IsValid m s u e v)

-- In every execution from the start the ring holds at most BUFFER_SIZE items, its indices are in range,
-- and the items printed as produced are those printed as consumed, followed by those in the ring, in
-- this order.
pub Run-IsValid : (s : State) → Run init s → IsValid s
Run-IsValid s r = Run-preserves r init-IsValid
