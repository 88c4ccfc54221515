-- ===== src/Mvcc/State.antt =====
-- The globals of mvcc-in-memory-key-value.c, the search for a key, and `init_store`. An `int` that is
-- an index or -1 is an `Option ℕ`; an array is a family over its indices, and a loop over the whole of it
-- is pointwise; the buffered writes are the first `write_count` entries of `write_keys` and
-- `write_values`.
use genspark_training.Base.{
  ℕ, zero, suc, ◌+◌, Bool, true, false, Option, none, some, List, [], ◌∷◌, ◌++◌, Text, bytes,
  text_eq, ◌==◌, if◌then◌else◌,
}
use genspark_training.Mvcc.Chain.{Version, ulong_max}

abbrev pub max_keys : ℕ
max_keys = 5

abbrev pub max_writes_per_tx : ℕ
max_writes_per_tx = 8

-- `sizeof(write_values[i])` and `sizeof(newv->value)`
abbrev pub value_len : ℕ
value_len = 32

pub record KvPair : Type 0 where
  pub name : Text
  pub versions : List Version
  pub locked_by : Option ℕ

pub data TxState : Type 0 where
  unused active aborted committed : TxState

pub record Transaction : Type 0 where
  pub id : ℕ
  pub state : TxState
  pub start_ts : ℕ
  pub writes : List (ℕ × Text)

-- The globals.
pub record Db : Type 0 where
  pub store : ℕ → KvPair
  pub txs : ℕ → Transaction
  pub wait_for : ℕ → ℕ → Bool
  pub global_ts : ℕ

abbrev pub is_active : TxState → Bool
is_active TxState.active = true
is_active _ = false

-- `locked_by == id`
abbrev pub owned_by : ℕ → Option ℕ → Bool
owned_by id none = false
owned_by id (some owner) = owner == id

-- The loop of `find_key_index` from `i` on, with `rounds` rounds left.
unfoldable pub find_key_from : (ℕ → KvPair) → Text → (i rounds : ℕ) → Option ℕ
find_key_from store name i zero = none
find_key_from store name i (suc k) =
    if text_eq (store i).name name then some i else find_key_from store name (suc i) k

unfoldable pub find_key_index : (ℕ → KvPair) → Text → Option ℕ
unfolding find_key_from
find_key_index store name = find_key_from store name 0 max_keys

-- `snprintf(store[i].name, KEY_NAME_LEN, "key%d", i)`; an index below `max_keys` has one digit.
abbrev pub key_name : ℕ → Text
key_name i = bytes "key" ++ (48 + i) ∷ []

unfoldable pub init_store : Db → Db
init_store d = record d {
  store = λ i. record {
    name = key_name i;
    versions = record { value = bytes "-"; begin_ts = 1; end_ts = ulong_max } ∷ [];
    locked_by = none;
  };
  txs = λ i. record (d.txs i) { id = i; state = TxState.unused; writes = [] };
  wait_for = λ u v. false;
}
