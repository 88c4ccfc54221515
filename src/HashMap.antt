-- ===== src/HashMap.antt =====
-- pthread-hash-map.c: a chained hash table with a lock for each bucket. An operation works on one
-- bucket under its lock, so the calls of several threads act in some order, one after the other.
-- `malloc` and `strdup` are taken to succeed.
pub mod Laws
mod Tests
use genspark_training.Base.{
  ℕ, suc, ◌+◌, ◌-◌, ◌*◌, ◌%◌, ◌^◌, Bool, true, false, Option, none, some, List, [], ◌∷◌, Text,
  text_eq, ℤ, pos, negsuc, update, ltb, if◌then◌else◌, bytes, ◌++◌,
}

abbrev pub table_size : ℕ
table_size = 8

-- `int c = *str++` with a signed `char`, as it is added to an `unsigned long`.
abbrev pub char_value : ℕ → ℕ
char_value b = if ltb b 128 then b else b + (2 ^ 64 - 256)

-- The loop of `hash`.
unfoldable pub hash_from : ℕ → Text → ℕ
hash_from h [] = h
hash_from h (b ∷ str) = hash_from (((h * 32 % 2 ^ 64 + h) % 2 ^ 64 + char_value b) % 2 ^ 64) str

unfoldable pub hash : Text → ℕ
unfolding hash_from
hash str = hash_from 5381 str % table_size

-- A chain of nodes, with their keys and values.
abbrev pub Chain : Type 0
Chain = List (Text × ℤ)

pub record HashMap : Type 0 where
  pub buckets : ℕ → Chain

unfoldable pub hashmap_init : HashMap
hashmap_init = record { buckets = λ i. [] }

-- The first loop of `hashmap_insert`: the node with the key gets the value, if there is one.
unfoldable pub overwrite : Text → ℤ → Chain → Option Chain
overwrite key value [] = none
overwrite key value ((k, v) ∷ chain) = elim (text_eq k key) [
  | true ↦ some ((k, value) ∷ chain)
  | false ↦ elim (overwrite key value chain) [ none ↦ none | some rest ↦ some ((k, v) ∷ rest) ]
]

unfoldable pub insert_chain : Text → ℤ → Chain → Chain
unfolding overwrite
insert_chain key value chain = elim (overwrite key value chain) [
  | some chain' ↦ chain'
  | none ↦ (key, value) ∷ chain
]

unfoldable pub hashmap_insert : HashMap → Text → ℤ → HashMap
unfolding insert_chain
hashmap_insert map key value =
    let index = hash key in
    record { buckets = update map.buckets index (insert_chain key value (map.buckets index)) }

-- The value, and what is stored to `found`.
unfoldable pub find_chain : Text → Chain → ℤ × Bool
find_chain key [] = (negsuc 0, false)
find_chain key ((k, v) ∷ chain) = if text_eq k key then (v, true) else find_chain key chain

unfoldable pub hashmap_lookup : HashMap → Text → ℤ × Bool
unfolding find_chain
hashmap_lookup map key = find_chain key (map.buckets (hash key))

-- The inserts of `worker` from key `i` on.
abbrev pub worker_key : ℕ → Text
worker_key i = bytes "key_" ++ (48 + i) ∷ []

unfoldable pub insert_all : HashMap → List (Text × ℤ) → HashMap
unfolding hashmap_insert
insert_all map [] = map
insert_all map ((key, value) ∷ calls) = insert_all (hashmap_insert map key value) calls

-- The inserts that `worker` makes, in its order.
abbrev pub worker_inserts : List (Text × ℤ)
worker_inserts =
    (worker_key 0, pos 0)
    ∷ (worker_key 1, pos 100)
    ∷ (worker_key 2, pos 200)
    ∷ (worker_key 3, pos 300)
    ∷ (worker_key 4, pos 400)
    ∷ []
