-- ===== src/CondBuffer.antt =====
-- The bounded buffer of threads-buffer-w-p&c.c, with one producer, one consumer and two condition
-- variables. A critical section, up to the end of its round or up to pthread_cond_wait, is one step.
pub mod Rounds
pub mod Progress
mod Tests
use genspark_training.Base.{
  ℕ, ◌+◌, ◌-◌, Bool, true, false, List, [], ◌∷◌, update, ltb, leb, ◌==◌, if◌then◌else◌,
}

-- `BUFFER_SIZE`
abbrev pub buffer_size : ℕ
buffer_size = 5

-- The number of rounds of each thread.
abbrev pub rounds : ℕ
rounds = 10

-- Where a thread is: in front of its next critical section or woken in it, in pthread_cond_wait, or at the
-- end.
pub data Thread : Type 0 where
  active waiting finished : Thread

-- The memory, the threads with their `i`, and the numbers that the consumer printed, the last one first.
pub record State : Type 0 where
  pub buffer : ℕ → ℕ
  pub count : ℕ
  pub producer : Thread
  pub next : ℕ
  pub consumer : Thread
  pub taken : ℕ
  pub printed : List ℕ

abbrev pub init : State
init = record {
  buffer = λ i. 0;
  count = 0;
  producer = Thread.active;
  next = 1;
  consumer = Thread.active;
  taken = 0;
  printed = [];
}

-- `pthread_cond_signal`, where one thread waits at most.
abbrev pub signal : Thread → Thread
signal Thread.active = Thread.active
signal Thread.waiting = Thread.active
signal Thread.finished = Thread.finished

-- The loop condition after a round.
abbrev pub go_on : Bool → Thread
go_on b = if b then Thread.active else Thread.finished

-- The critical section of `producerfunc`.
unfoldable pub produce : State → State
produce s = if s.count == buffer_size then record s { producer = Thread.waiting } else record s {
  buffer = update s.buffer s.count s.next;
  count = s.count + 1;
  consumer = signal s.consumer;
  next = s.next + 1;
  producer = go_on (leb (s.next + 1) rounds);
}

-- The critical section of `consumerfunc`.
unfoldable pub consume : State → State
consume s = if s.count == 0 then record s { consumer = Thread.waiting } else record s {
  printed = s.buffer (s.count - 1) ∷ s.printed;
  count = s.count - 1;
  producer = signal s.producer;
  taken = s.taken + 1;
  consumer = go_on (ltb (s.taken + 1) rounds);
}
