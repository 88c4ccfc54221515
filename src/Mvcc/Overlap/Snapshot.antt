-- ===== src/Mvcc/Overlap/Snapshot.antt =====
-- Snapshots of mvcc-in-memory-key-value.c while commits overlap other calls.
use genspark_training.Base.{
  ℕ, ◌≤◌, ◌<◌, ◌≡◌, ◌⊎◌, refl, ap, ◌∙◌, ◌≢◌, true, arith, some, Bool-cases, Option-cases, inl, inr,
  Text, pos, negsuc,
}
use genspark_training.Mvcc.Chain.{ulong_max, visible}
use genspark_training.Mvcc.State.{Db, Transaction, is_active, value_len}
use genspark_training.Mvcc.Ops.{buffered, begin_tx, tx_read, take_ts, commit_at}
use genspark_training.Mvcc.Invariant.{IsValid}
use genspark_training.Mvcc.Invariant.Steps.{chain_after}
use genspark_training.Mvcc.Snapshot.{
  name-install_all, SameView, SameView-refl, SameView-trans, SameView-begin, SameView-write,
  SameView-abort, tx_read-SameView, visible-committed_chain,
}
use genspark_training.Mvcc.Overlap.{
  Busy, Turn, begins, writes, aborts, stamps, lands, stamp, land, turn, Plays, stop, next, IsBusy,
}
use genspark_training.Mvcc.Overlap.Steps.{turn-IsBusy}

-- The turn is one of another transaction.
abbrev pub IsOther : ℕ → Turn → Type 0
IsOther t (begins (negsuc n)) = Unit
IsOther t (begins (pos id)) = id ≢ t
IsOther t (writes u kname value) = u ≢ t
IsOther t (aborts u) = u ≢ t
IsOther t (stamps u) = u ≢ t
IsOther t (lands u) = u ≢ t

abbrev pub AreOthers : ℕ → {b c : Busy} → Plays b c → Type 0
AreOthers t stop = Unit
AreOthers t (next m h room p) = IsOther t m × AreOthers t p

-- No commit that is under way took its timestamp before the transaction began.
abbrev pub IsLate : ℕ → Busy → Type 0
IsLate t b = (u ts : ℕ) → b.stamps u ≡ some ts → (b.db.txs t).start_ts < ts

SameView-stamp : (t u : ℕ) (b : Busy) → SameView t b.db (stamp u b).db
unfolding stamp take_ts
SameView-stamp t u b = elim (Bool-cases (is_active (b.db.txs u).state)) [
  | inr idle ↦ rw idle (SameView-refl t b.db)
  | inl active ↦ rw active (record { tx = refl; names = λ k. refl; views = λ k. refl })
]

SameView-commit_at :
    (t u ts : ℕ) (d : Db)
    → IsValid d
    → is_active (d.txs u).state ≡ true
    → (d.txs t).start_ts < ts
    → ts < ulong_max
    → u ≢ t
    → SameView t d (commit_at ts u d)
unfolding commit_at
SameView-commit_at t u ts d v live late room h = record {
  tx = ground arith;
  names = λ k. ground (arith, name-install_all ts (d.txs u).writes d.store k);
  views = λ k.
      ap (visible (d.txs t).start_ts) (chain_after d u v live ts k)
      ∙ visible-committed_chain ts (d.txs t).start_ts (buffered k (d.txs u).writes)
          (d.store k).versions (v.chains k) late room;
}

SameView-land : (t u : ℕ) (b : Busy) → IsBusy b → IsLate t b → u ≢ t → SameView t b.db (land u b).db
unfolding land
SameView-land t u b v late h = elim (Option-cases (b.stamps u)) [
  | inl e ↦ rw (e, land) (SameView-refl t b.db)
  | inr (ts, e) ↦
      rw (e, land)
        (SameView-commit_at t u ts b.db v.valid (v.live u ts e) (late u ts e)
          (omega (arith, v.early u ts e, v.valid.clock)) h)
]

SameView-turn :
    (t : ℕ) (m : Turn) (b : Busy)
    → IsBusy b
    → IsLate t b
    → IsOther t m
    → SameView t b.db (turn m b).db
unfolding turn
SameView-turn t (begins (negsuc n)) b v late h = unfold begin_tx in SameView-refl t b.db
SameView-turn t (begins (pos id)) b v late h = SameView-begin t id b.db h
SameView-turn t (writes u kname value) b v late h = SameView-write t u kname value b.db h
SameView-turn t (aborts u) b v late h = SameView-abort t u b.db h
SameView-turn t (stamps u) b v late h = SameView-stamp t u b
SameView-turn t (lands u) b v late h = SameView-land t u b v late h

stamps-turn :
    (m : Turn) (b : Busy) (u ts : ℕ)
    → (turn m b).stamps u ≡ some ts
    → (b.stamps u ≡ some ts) ⊎ (ts ≡ b.db.global_ts)
unfolding turn stamp land take_ts
stamps-turn (begins id) b u ts e = inl e
stamps-turn (writes t kname value) b u ts e = inl e
stamps-turn (aborts t) b u ts e = inl e
stamps-turn (stamps t) b u ts e = ground arith
stamps-turn (lands t) b u ts e = ground arith

IsLate-turn :
    (t : ℕ) (m : Turn) (b : Busy)
    → IsBusy b
    → is_active (b.db.txs t).state ≡ true
    → IsLate t b
    → IsOther t m
    → IsLate t (turn m b)
IsLate-turn t m b v active late h = λ u ts e.
    let same = ap (λ (x : Transaction). x.start_ts) (SameView-turn t m b v late h).tx in
    elim (stamps-turn m b u ts e) [
      | inl old ↦ omega (arith, same, late u ts old)
      | inr now ↦ omega (arith, same, now, (v.valid.started t active).1)
    ]

SameView-Plays :
    (t : ℕ) {b c : Busy} (p : Plays b c)
    → IsBusy b
    → is_active (b.db.txs t).state ≡ true
    → IsLate t b
    → AreOthers t p
    → SameView t b.db c.db
SameView-Plays t {b} stop v active late h = SameView-refl t b.db
SameView-Plays t {b} {c} (next m allowed room p) v active late h =
    let one = SameView-turn t m b v late h.0 in
    SameView-trans t b.db (turn m b).db c.db one (
      SameView-Plays t p (turn-IsBusy m b v allowed room)
        (ap (λ (x : Transaction). is_active x.state) one.tx ∙ active)
        (IsLate-turn t m b v active late h.0) h.1)

-- Snapshot reads repeat while commits overlap other calls: whatever the other transactions do, step by step, an
-- active transaction reads the same for every key, where no commit that is under way took its timestamp before
-- the transaction began. At most the 32 bytes of a value are asked for.
pub tx_read-Plays :
    (t : ℕ) {b c : Busy} (p : Plays b c) (kname : Text) (len : ℕ)
    → IsBusy b
    → is_active (b.db.txs t).state ≡ true
    → IsLate t b
    → AreOthers t p
    → len ≤ value_len
    → tx_read (some t) kname len c.db ≡ tx_read (some t) kname len b.db
tx_read-Plays t {b} {c} p kname len v active late h fits =
    tx_read-SameView t b.db c.db kname len (SameView-Plays t p v active late h)
