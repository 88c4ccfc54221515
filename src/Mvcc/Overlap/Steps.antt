-- ===== src/Mvcc/Overlap/Steps.antt =====
-- Commits of mvcc-in-memory-key-value.c that overlap other calls keep the invariant of the store.
use genspark_training.Base.{
  ℕ, ◌≤◌, ◌<◌, ◌≡◌, refl, sym, ap, ◌∙◌, ◌≢◌, true, arith, none, some, Bool-cases, Option-cases, inl,
  inr, Text, pos, negsuc, ◌==◌,
}
use genspark_training.Mvcc.Chain.{ulong_max}
use genspark_training.Mvcc.State.{Db, Transaction, is_active}
use genspark_training.Mvcc.Ops.{buffered, begin_tx, tx_write, tx_abort, commit_at}
use genspark_training.Mvcc.Invariant.{IsValid}
use genspark_training.Mvcc.Invariant.Steps.{
  begin_tx-IsValid, tx_abort-IsValid, chain_after, commit_at-IsValid, take_ts-IsValid,
}
use genspark_training.Mvcc.Invariant.Writes.{tx_write-IsValid}
use genspark_training.Mvcc.Overlap.{
  Busy, Turn, begins, writes, aborts, stamps, lands, stamp, land, turn, IsAllowed, Plays, stop,
  next, IsBusy,
}

-- What a call of transaction `u` outside `tx_commit` leaves: the other transactions and the versions.
record Frame (u : ℕ) (d d' : Db) : Type 0 where
  txs : (t : ℕ) → t ≢ u → d'.txs t ≡ d.txs t
  versions : (k : ℕ) → (d'.store k).versions ≡ (d.store k).versions
  clock : d.global_ts ≤ d'.global_ts

Frame-begin : (id : ℕ) (d : Db) → d.global_ts < ulong_max → Frame id d (begin_tx (pos id) d).1
unfolding begin_tx
Frame-begin id d h = record {
  txs = λ t n. ground arith;
  versions = λ k. ground arith;
  clock = ground arith;
}

Frame-write : (u : ℕ) (kname value : Text) (d : Db) → Frame u d (tx_write (some u) kname value d).1
unfolding tx_write
Frame-write u kname value d = record {
  txs = λ t n. ground arith;
  versions = λ k. ground arith;
  clock = ground arith;
}

Frame-abort : (u : ℕ) (d : Db) → Frame u d (tx_abort (some u) d)
unfolding tx_abort
Frame-abort u d = record {
  txs = λ t n. ground arith;
  versions = λ k. ground arith;
  clock = omega arith;
}

Frame-IsBusy :
    (u : ℕ) (b : Busy) (d : Db)
    → IsBusy b
    → b.stamps u ≡ none
    → Frame u b.db d
    → IsValid d
    → IsBusy (record b { db = d })
Frame-IsBusy u b d v free f w = record {
  valid = w;
  live = λ t ts e.
      ap (λ (x : Transaction). is_active x.state) (f.txs t (other t ts e)) ∙ v.live t ts e;
  early = λ t ts e. omega (arith, v.early t ts e, f.clock);
  before = λ t ts k x e h. rw (f.versions k) (
      v.before t ts k x e
        (ap (λ (y : Transaction). buffered k y.writes) (sym (f.txs t (other t ts e))) ∙ h));
}
  where
    other : (t ts : ℕ) → b.stamps t ≡ some ts → t ≢ u
    other t ts e = λ q. absurd (ground (arith, e, free))

stamp-IsBusy :
    (t : ℕ) (b : Busy)
    → IsBusy b
    → b.stamps t ≡ none
    → b.db.global_ts < ulong_max
    → IsBusy (stamp t b)
unfolding stamp
stamp-IsBusy t b v free room = elim (Bool-cases (is_active (b.db.txs t).state)) [
  | inr idle ↦ rw idle v
  | inl active ↦ rw active (record {
    valid = take_ts-IsValid b.db v.valid room;
    live = λ u ts e. ground (arith, v.live u ts);
    early = λ u ts e. ground (arith, v.early u ts);
    before = λ u ts k x e h. elim (Bool-cases (t == u)) [
      | inl here ↦
          let same : ts ≡ b.db.global_ts = ground arith in rw same (v.valid.latest t k active)
      | inr other ↦ v.before u ts k x (ground arith) h
    ];
  })
]

-- A key that another transaction has written keeps its versions: its lock is the other's.
versions-commit_at :
    (t u ts k : ℕ) (x : Text) (d : Db)
    → IsValid d
    → is_active (d.txs t).state ≡ true
    → is_active (d.txs u).state ≡ true
    → t ≢ u
    → buffered k (d.txs u).writes ≡ some x
    → ((commit_at ts t d).store k).versions ≡ (d.store k).versions
unfolding commit_at
versions-commit_at t u ts k x d v a b n e = elim (Option-cases (buffered k (d.txs t).writes)) [
  | inl f ↦ chain_after d t v a ts k ∙ rw f refl
  | inr (y, f) ↦ absurd (ground (arith, v.held t k y a f, v.held u k x b e))
]

land-IsBusy : (t : ℕ) (b : Busy) → IsBusy b → IsBusy (land t b)
unfolding land
land-IsBusy t b v = elim (Option-cases (b.stamps t)) [
  | inl e ↦ rw (e, land) v
  | inr (ts, e) ↦
      let active = v.live t ts e in
      rw (e, land)
        (record {
          valid =
              commit_at-IsValid b.db t v.valid active ts (v.early t ts e)
                (λ k x h. v.before t ts k x e h);
          live = λ u us h. unfold commit_at in ground (arith, v.live u us);
          early = λ u us h. unfold commit_at in ground (arith, v.early u us);
          before = λ u us k x h g. elim (Bool-cases (t == u)) [
            | inl here ↦ absurd (ground arith)
            | inr other ↦
                let held : b.stamps u ≡ some us = ground arith in
                let wrote : buffered k (b.db.txs u).writes ≡ some x =
                  unfold commit_at in ground arith in
                rw
                  (versions-commit_at t u ts k x b.db v.valid active (v.live u us held)
                    (λ q. ground arith) wrote)
                  (v.before u us k x held wrote)
          ];
        })
]

pub turn-IsBusy :
    (m : Turn) (b : Busy)
    → IsBusy b
    → IsAllowed m b
    → b.db.global_ts < ulong_max
    → IsBusy (turn m b)
unfolding turn
turn-IsBusy (begins (negsuc n)) b v h room = unfold begin_tx in v
turn-IsBusy (begins (pos id)) b v h room =
    Frame-IsBusy id b _ v h (Frame-begin id b.db room) (begin_tx-IsValid (pos id) b.db v.valid room)
turn-IsBusy (writes t kname value) b v h room =
    Frame-IsBusy t b _ v h (Frame-write t kname value b.db)
      (tx_write-IsValid (some t) kname value b.db v.valid)
turn-IsBusy (aborts t) b v h room =
    Frame-IsBusy t b _ v h (Frame-abort t b.db) (tx_abort-IsValid (some t) b.db v.valid)
turn-IsBusy (stamps t) b v h room = stamp-IsBusy t b v h room
turn-IsBusy (lands t) b v h room = land-IsBusy t b v

pub Plays-IsBusy : {b c : Busy} → Plays b c → IsBusy b → IsBusy c
Plays-IsBusy stop v = v
Plays-IsBusy (next {b} {c} m h room p) v = Plays-IsBusy p (turn-IsBusy m b v h room)

-- Nobody is inside `tx_commit`.
abbrev pub quiet : Db → Busy
quiet d = record { db = d; stamps = λ t. none }

pub quiet-IsBusy : (d : Db) → IsValid d → IsBusy (quiet d)
quiet-IsBusy d v = record {
  valid = v;
  live = λ t ts e. absurd (ground arith);
  early = λ t ts e. absurd (ground arith);
  before = λ t ts k x e h. absurd (ground arith);
}
