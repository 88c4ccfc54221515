-- ===== src/KvStore/Store.antt =====
-- Modularize Key-Value/kvstore_functions.c: the first `store_count` entries of the array `store`.
pub mod Laws
use genspark_training.Base.{
  ℕ, suc, Option, none, some, Bool, true, false, List, [], ◌∷◌, ◌++◌, Text, strncpy, text_eq,
  length, ltb, if◌then◌else◌,
}

abbrev pub max_entries : ℕ
max_entries = 100

-- `BUF_SIZE - 1`, with a BUF_SIZE of 256: the bytes that are copied in front of the terminator.
abbrev pub buf_len : ℕ
buf_len = 255

abbrev pub Store : Type 0
Store = List (Text × Text)

unfoldable pub kv_get : Text → Store → Option Text
kv_get key [] = none
kv_get key ((k, v) ∷ store) = if text_eq k key then some v else kv_get key store

-- The loop of `kv_set`: `none` if no entry has the key.
unfoldable pub overwrite : Text → Text → Store → Option Store
overwrite key value [] = none
overwrite key value ((k, v) ∷ store) = elim (text_eq k key) [
  | true ↦ some ((k, strncpy buf_len value) ∷ store)
  | false ↦ elim (overwrite key value store) [ none ↦ none | some rest ↦ some ((k, v) ∷ rest) ]
]

unfoldable pub kv_set : Text → Text → Store → Store
unfolding overwrite
kv_set key value store = elim (overwrite key value store) [
  | some store' ↦ store'
  | none ↦
      if ltb (length store) max_entries
      then store ++ (strncpy buf_len key, strncpy buf_len value) ∷ []
      else store
]
