-- ===== src/KvStore/Tests.antt =====
-- The key-value servers at concrete requests.
use genspark_training.Base.{
  ℕ, zero, suc, ◌≡◌, refl, inr, none, some, true, false, [], ◌∷◌, ◌++◌, bytes, text_eq, arith,
}
use genspark_training.KvStore.Store.{Store, kv_get, kv_set}
use genspark_training.KvStore.Store.Laws.{IsValid}
use genspark_training.KvStore.Scan.{scan_set, scan_get}
use genspark_training.KvStore.Server.{serve, handle_client}
use genspark_training.KvStore.Server.Laws.{handle_client-IsValid, serve_get-serve_set}

program : Unit {0}
unfolding serve handle_client kv_get kv_set scan_set scan_get text_eq
program = tt

-- `%s` skips white space, so none is needed behind the verb.
scans :
    (scan_set (bytes "SETname  a b") ≡ some (bytes "name", bytes "a b"))
    × (scan_set (bytes "SET name") ≡ none)
    × (scan_get (bytes "GET  name tail") ≡ some (bytes "name"))
unfolding program
scans = (refl, refl, refl)

session :
    ((serve (bytes "GET a") []).0 ≡ some (bytes "NOT_FOUND" ++ 10 ∷ []))
    × ((serve (bytes "DEL a") []).0 ≡ some (bytes "ERROR" ++ 10 ∷ []))
    × (handle_client
          ((bytes "SET a 1", true) ∷ (bytes "SET b 2", false) ∷ (bytes "SET c 3", true) ∷ [])
          []
        ≡ (bytes "a", bytes "1") ∷ (bytes "b", bytes "2") ∷ [])
unfolding program
session = (refl, refl, refl)

empty-IsValid : IsValid []
empty-IsValid = record { bounded = omega arith; distinct = tt; fits = tt }

handle_client-IsValid_example : IsValid (handle_client ((bytes "SET a 1", true) ∷ []) [])
handle_client-IsValid_example =
    handle_client-IsValid ((bytes "SET a 1", true) ∷ []) [] (omega arith, tt) empty-IsValid

serve_get-serve_set_example :
    (serve (bytes "GET a") (serve (bytes "SET a 1") []).1).0 ≡ some (bytes "1" ++ 10 ∷ [])
serve_get-serve_set_example =
    serve_get-serve_set (bytes "a") (bytes "1") [] [] [] (refl, (refl, tt)) (refl, (refl, tt)) tt tt
      (refl, (refl, (refl, (refl, (refl, (refl, (refl, tt)))))))
      (refl, (refl, (refl, (refl, (refl, tt))))) (omega arith) (omega arith) (inr (omega arith))

-- A full store.
abbrev copies : ℕ → Store
copies zero = []
copies (suc n) = (bytes "k", bytes "v") ∷ copies n
