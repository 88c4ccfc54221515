-- ===== src/HashMap/Tests.antt =====
-- The hash table at concrete keys: the hash, and the inserts of two workers one after the other.
use genspark_training.Base.{
  ◌≡◌, refl, inl, true, false, List, ◌++◌, Text, bytes, text_eq, ℤ, pos, negsuc, arith,
}
use genspark_training.HashMap.{
  hash, hashmap_init, hashmap_lookup, insert_all, worker_key, worker_inserts,
}
use genspark_training.HashMap.Laws.{hashmap_lookup-insert_all}

hash_a : hash (bytes "a") ≡ 6
unfolding hash
hash_a = refl

abbrev two_workers : List (Text × ℤ)
two_workers = worker_inserts ++ worker_inserts

worker_lookups :
    (hashmap_lookup (insert_all hashmap_init two_workers) (worker_key 3) ≡ (pos 300, true))
    × (hashmap_lookup (insert_all hashmap_init two_workers) (worker_key 7) ≡ (negsuc 0, false))
unfolding insert_all hashmap_lookup hashmap_init hash text_eq
worker_lookups = (refl, refl)

hashmap_lookup-insert_all_example :
    hashmap_lookup (insert_all hashmap_init worker_inserts) (worker_key 0) ≡ (pos 0, true)
hashmap_lookup-insert_all_example =
    hashmap_lookup-insert_all hashmap_init worker_inserts (worker_key 0) (pos 0)
      (
        (λ e. refl),
        (
          (λ e. ground arith),
          ((λ e. ground arith), ((λ e. ground arith), ((λ e. ground arith), tt))),
        ),
      )
      (inl refl)
