-- ===== src/Mvcc/Snapshot.antt =====
-- What transactions of mvcc-in-memory-key-value.c read: snapshots, their own writes, committed values.
use genspark_training.Base.{
  ℕ, zero, suc, ◌+◌, ◌≤◌, ◌<◌, ◌≡◌, refl, ◌≢◌, true, arith, Option, none, some, Bool-cases, inl,
  inr, List, [], ◌∷◌, Text, length, pos, negsuc, update, All, strncpy, ap, ◌∙◌,
}
use genspark_training.Mvcc.Chain.{
  Version, ulong_max, visible, install, visible-install_before, IsChain,
}
use genspark_training.Mvcc.State.{
  Db, is_active, KvPair, Transaction, find_key_from, find_key_index, max_keys, value_len,
}
use genspark_training.Mvcc.Ops.{
  buffered, read_found, begin_tx, tx_read, tx_write, tx_commit, tx_abort, install_all,
}
use genspark_training.Mvcc.Invariant.{IsValid, committed_chain}
use genspark_training.Mvcc.Invariant.Steps.{chain_after}
use genspark_training.Mvcc.Run.{
  Call, begin, write, commit, abort, step, run, step-IsValid, step_clock,
}

find_key_from-cong :
    (a b : ℕ → KvPair) (name : Text) (i n : ℕ)
    → ((k : ℕ) → (a k).name ≡ (b k).name)
    → find_key_from a name i n ≡ find_key_from b name i n
unfolding find_key_from
find_key_from-cong a b name i zero h = refl
find_key_from-cong a b name i (suc n) h = rw (h i, find_key_from-cong a b name (suc i) n h)

pub find_key_index-cong :
    (a b : ℕ → KvPair) (name : Text)
    → ((k : ℕ) → (a k).name ≡ (b k).name)
    → find_key_index a name ≡ find_key_index b name
unfolding find_key_index
find_key_index-cong a b name h = find_key_from-cong a b name 0 max_keys h

-- The state `d'` looks to transaction `t` like `d`.
pub record SameView (t : ℕ) (d d' : Db) : Type 0 where
  pub tx : d'.txs t ≡ d.txs t
  pub names : (k : ℕ) → (d'.store k).name ≡ (d.store k).name
  pub views :
      (k : ℕ)
      → visible (d.txs t).start_ts (d'.store k).versions
        ≡ visible (d.txs t).start_ts (d.store k).versions

read_found-SameView :
    (t : ℕ) (d d' : Db) (len : ℕ) (o : Option ℕ)
    → SameView t d d'
    → read_found (d.txs t) d'.store len o ≡ read_found (d.txs t) d.store len o
unfolding read_found
read_found-SameView t d d' len none s = refl
read_found-SameView t d d' len (some k) s = ground (arith, s.views k)

pub tx_read-SameView :
    (t : ℕ) (d d' : Db) (kname : Text) (len : ℕ)
    → SameView t d d'
    → tx_read (some t) kname len d' ≡ tx_read (some t) kname len d
unfolding tx_read
tx_read-SameView t d d' kname len s =
    rw
      (s.tx, find_key_index-cong d'.store d.store kname s.names, read_found-SameView t d d' len _ s)

pub SameView-refl : (t : ℕ) (d : Db) → SameView t d d
SameView-refl t d = record { tx = refl; names = λ k. refl; views = λ k. refl }

pub SameView-trans : (t : ℕ) (a b c : Db) → SameView t a b → SameView t b c → SameView t a c
SameView-trans t a b c p q = record {
  tx = q.tx ∙ p.tx;
  names = λ k. q.names k ∙ p.names k;
  views = λ k. (rw p.tx at (q.views k)) ∙ p.views k;
}

-- The call is one of another transaction.
abbrev pub IsOther : ℕ → Call → Type 0
IsOther t (begin (negsuc n)) = Unit
IsOther t (begin (pos id)) = id ≢ t
IsOther t (write (some u) kname value) = u ≢ t
IsOther t (commit (some u)) = u ≢ t
IsOther t (abort (some u)) = u ≢ t
IsOther t _ = Unit

pub SameView-begin : (t id : ℕ) (d : Db) → id ≢ t → SameView t d (begin_tx (pos id) d).1
unfolding begin_tx
SameView-begin t id d h = record {
  tx = ground arith;
  names = λ k. ground arith;
  views = λ k. ground arith;
}

pub SameView-abort : (t u : ℕ) (d : Db) → u ≢ t → SameView t d (tx_abort (some u) d)
unfolding tx_abort
SameView-abort t u d h = record {
  tx = ground arith;
  names = λ k. ground arith;
  views = λ k. ground arith;
}

pub SameView-write :
    (t u : ℕ) (kname value : Text) (d : Db)
    → u ≢ t
    → SameView t d (tx_write (some u) kname value d).1
unfolding tx_write
SameView-write t u kname value d h = record {
  tx = ground arith;
  names = λ k. ground arith;
  views = λ k. ground arith;
}

pub name-install_all :
    (ts : ℕ) (ws : List (ℕ × Text)) (store : ℕ → KvPair) (k : ℕ)
    → (install_all ts ws store k).name ≡ (store k).name
unfolding install_all
name-install_all ts [] store k = refl
name-install_all ts ((j, v) ∷ ws) store k = ground (
  arith,
  name-install_all ts ws
      (update store j
        (record (store j) { versions = install ts (strncpy value_len v) (store j).versions }))
      k,
)

pub visible-committed_chain :
    (ts now : ℕ) (o : Option Text) (vs : List Version)
    → IsChain ulong_max vs
    → now < ts
    → ts < ulong_max
    → visible now (committed_chain ts o vs) ≡ visible now vs
visible-committed_chain ts now none vs c h q = refl
visible-committed_chain ts now (some x) vs c h q = visible-install_before ts now _ vs c h q

SameView-commit :
    (t u : ℕ) (d : Db)
    → IsValid d
    → is_active (d.txs t).state ≡ true
    → d.global_ts < ulong_max
    → u ≢ t
    → SameView t d (tx_commit (some u) d).1
unfolding tx_commit
SameView-commit t u d v active room h = elim (Bool-cases (is_active (d.txs u).state)) [
  | inr idle ↦ rw idle (SameView-refl t d)
  | inl live ↦ rw live (record {
    tx = ground arith;
    names = λ k. ground (arith, name-install_all d.global_ts (d.txs u).writes d.store k);
    views = λ k.
        ap (visible (d.txs t).start_ts) (chain_after d u v live d.global_ts k)
        ∙ visible-committed_chain d.global_ts (d.txs t).start_ts (buffered k (d.txs u).writes)
            (d.store k).versions (v.chains k) (v.started t active).1 room;
  })
]

SameView-step :
    (t : ℕ) (c : Call) (d : Db)
    → IsValid d
    → is_active (d.txs t).state ≡ true
    → d.global_ts < ulong_max
    → IsOther t c
    → SameView t d (step c d)
unfolding step
SameView-step t (begin (negsuc n)) d v a room h = unfold begin_tx in SameView-refl t d
SameView-step t (begin (pos id)) d v a room h = SameView-begin t id d h
SameView-step t (write none k x) d v a room h = unfold tx_write in SameView-refl t d
SameView-step t (write (some u) k x) d v a room h = SameView-write t u k x d h
SameView-step t (commit none) d v a room h = unfold tx_commit in SameView-refl t d
SameView-step t (commit (some u)) d v a room h = SameView-commit t u d v a room h
SameView-step t (abort none) d v a room h = unfold tx_abort in SameView-refl t d
SameView-step t (abort (some u)) d v a room h = SameView-abort t u d h

SameView-run :
    (t : ℕ) (cs : List Call) (d : Db)
    → IsValid d
    → is_active (d.txs t).state ≡ true
    → d.global_ts + length cs ≤ ulong_max
    → All (IsOther t) cs
    → SameView t d (run cs d)
unfolding run
SameView-run t [] d v a room h = SameView-refl t d
SameView-run t (c ∷ cs) d v a room h = SameView-trans t d (step c d) (run cs (step c d)) one (
    SameView-run t cs (step c d) (step-IsValid c d v (omega arith))
      (ap (λ (x : Transaction). is_active x.state) one.tx ∙ a) (omega (arith, step_clock c d)) h.1)
  where
    one : SameView t d (step c d)
    one = SameView-step t c d v a (omega arith) h.0

-- Snapshot reads repeat: in a valid state, while timestamps are left, whatever calls on other transactions are
-- made, one after the other and in any order (begin, write, commit, abort), an active transaction reads the same
-- for every key. At most the 32 bytes of a value are asked for.
pub tx_read-run :
    (t : ℕ) (cs : List Call) (d : Db) (kname : Text) (len : ℕ)
    → IsValid d
    → is_active (d.txs t).state ≡ true
    → d.global_ts + length cs ≤ ulong_max
    → All (IsOther t) cs
    → len ≤ value_len
    → tx_read (some t) kname len (run cs d) ≡ tx_read (some t) kname len d
tx_read-run t cs d kname len v a room h fits =
    tx_read-SameView t d (run cs d) kname len (SameView-run t cs d v a room h)
