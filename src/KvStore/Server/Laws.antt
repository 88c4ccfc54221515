-- ===== src/KvStore/Server/Laws.antt =====
-- What clients of the key-value servers observe.
use genspark_training.Base.{
  ap, ◌+◌, ◌≤◌, ◌≡◌, refl, Option, length-append, none, some, Bool, false, not, List, [], ◌∷◌, ◌++◌,
  Text, bytes, length, ◌==◌, arith, Bool-cases, All, inl, inr, text_eq_refl, take_of_length-le,
}
use genspark_training.KvStore.Store.{Store, kv_get, kv_set, max_entries, buf_len}
use genspark_training.KvStore.Store.Laws.{
  HasRoom, IsValid, kv_get-kv_set, kv_set-full, kv_set-IsValid,
}
use genspark_training.KvStore.Scan.{c_string, run_of, scan_set, not_newline, not_space}
use genspark_training.KvStore.Scan.Laws.{
  IsWord, IsLine, Ends, scan_set-append, scan_get-append, length-scan_set-scan_get, length-run_of,
}
use genspark_training.KvStore.Server.{
  ok_reply, Reply, reply_get, respond_get, respond_to, respond, serve_read, serve, breaks,
  handle_client,
}

length-c_string-le : (buf : Text) → length (c_string buf) ≤ length buf
unfolding c_string
length-c_string-le buf = omega (arith, length-run_of (λ b. not (b == 0)) buf)

respond_to-IsValid :
    (o : Option (Text × Text)) (s : Text) (store : Store)
    → ((key value : Text) → o ≡ some (key, value) → length key ≤ buf_len)
    → IsValid store
    → IsValid (respond_to o s store).1
unfolding respond_to
respond_to-IsValid none s store h v = v
respond_to-IsValid (some (key, value)) s store h v =
    kv_set-IsValid key value store (h key value refl) v

respond-IsValid :
    (buf : Text) (store : Store)
    → length buf ≤ buf_len
    → IsValid store
    → IsValid (respond buf store).1
unfolding respond
respond-IsValid buf store l v =
    respond_to-IsValid (scan_set (c_string buf)) (c_string buf) store
      (λ key value e.
        omega
          (arith, (length-scan_set-scan_get (c_string buf)).0 key value e, length-c_string-le buf))
      v

-- A connection of requests of at most 255 bytes, whatever they hold and wherever it breaks off, keeps
-- the store well formed.
pub handle_client-IsValid :
    (requests : List (Text × Bool)) (store : Store)
    → All (λ r. length r.0 ≤ buf_len) requests
    → IsValid store
    → IsValid (handle_client requests store)
unfolding handle_client
handle_client-IsValid [] store h v = v
handle_client-IsValid (([], b) ∷ requests) store h v = v
handle_client-IsValid (((c ∷ buf), b) ∷ requests) store h v =
    elim (Bool-cases (breaks (respond (c ∷ buf) store).0 b)) [
      | inl stop ↦ rw stop (respond-IsValid (c ∷ buf) store h.0 v)
      | inr go ↦ rw go (
          handle_client-IsValid requests (respond (c ∷ buf) store).1 h.1
            (respond-IsValid (c ∷ buf) store h.0 v))
    ]

-- The bytes of a request have no zero.
abbrev pub IsPlain : Text → Type 0
IsPlain = All (λ b. (b == 0) ≡ false)

c_string-IsPlain : (buf : Text) → IsPlain buf → c_string buf ≡ buf
unfolding c_string run_of
c_string-IsPlain [] h = refl
c_string-IsPlain (b ∷ buf) h = ground (arith, c_string-IsPlain buf h.1)

-- Requests as a client writes them; what follows (nothing, a newline and more) does not matter.
abbrev pub set_request : Text → Text → Text → Text
set_request key value rest = bytes "SET " ++ (key ++ (32 ∷ (value ++ rest)))

abbrev pub get_request : Text → Text → Text
get_request key rest = bytes "GET " ++ (key ++ rest)

respond-set_request :
    (key value rest : Text) (store : Store)
    → IsWord key
    → IsLine value
    → Ends not_newline rest
    → IsPlain (set_request key value rest)
    → respond (set_request key value rest) store ≡ (Reply.written ok_reply, kv_set key value store)
unfolding respond respond_to
respond-set_request key value rest store k v e p =
    rw (c_string-IsPlain (set_request key value rest) p, scan_set-append key value rest k v e)

scan_set-get_request : (key rest : Text) → scan_set (get_request key rest) ≡ none
unfolding scan_set
scan_set-get_request key rest = refl

respond-get_request :
    (key rest : Text) (store : Store)
    → IsWord key
    → Ends not_space rest
    → IsPlain (get_request key rest)
    → respond (get_request key rest) store ≡ (reply_get (kv_get key store), store)
unfolding respond respond_to respond_get
respond-get_request key rest store k e p = rw (
  c_string-IsPlain (get_request key rest) p,
  scan_set-get_request key rest,
  scan_get-append key rest k e,
)

-- A request that one `read` takes whole.
serve_fits :
    (sent : Text) (store : Store) → length sent ≤ buf_len → serve sent store ≡ serve_read sent store
unfolding serve
serve_fits sent store h = ap (λ buf. serve_read buf store) (take_of_length-le buf_len sent h)

length-set_request :
    (key value rest : Text) → length key + length value + 5 ≤ length (set_request key value rest)
length-set_request key value rest =
    omega (arith, length-append key (32 ∷ (value ++ rest)), length-append value rest)

-- A GET request right after a SET request with the same key is answered with the value and a newline,
-- where the requests are well formed, each of them is at most 255 bytes long and the store has an entry
-- for the key or is not full.
pub serve_get-serve_set :
    (key value rest rest' : Text) (store : Store)
    → IsWord key
    → IsLine value
    → Ends not_newline rest
    → Ends not_space rest'
    → IsPlain (set_request key value rest)
    → IsPlain (get_request key rest')
    → length (set_request key value rest) ≤ buf_len
    → length (get_request key rest') ≤ buf_len
    → HasRoom key store
    → (serve (get_request key rest') (serve (set_request key value rest) store).1).0
      ≡ some (value ++ 10 ∷ [])
unfolding serve_read reply_get
serve_get-serve_set key value rest rest' store k v e e' p q fits fits' room =
    let parts : length key + length value + 5 ≤ buf_len =
      omega (arith, length-set_request key value rest, fits) in
    rw (
      serve_fits (set_request key value rest) store fits,
      respond-set_request key value rest store k v e p,
      serve_fits (get_request key rest') (kv_set key value store) fits',
      respond-get_request key rest' (kv_set key value store) k e' q,
      kv_get-kv_set key key value store (omega (arith, parts)) room,
      text_eq_refl key,
      take_of_length-le buf_len value (omega (arith, parts)),
    )

-- A SET request of at most 255 bytes with a new key to a full store is answered OK, and the store is what it was.
pub serve_set-full :
    (key value rest : Text) (store : Store)
    → IsWord key
    → IsLine value
    → Ends not_newline rest
    → IsPlain (set_request key value rest)
    → kv_get key store ≡ none
    → max_entries ≤ length store
    → length (set_request key value rest) ≤ buf_len
    → serve (set_request key value rest) store ≡ (some ok_reply, store)
unfolding serve_read
serve_set-full key value rest store k v e p absent full fits = rw (
  serve_fits (set_request key value rest) store fits,
  respond-set_request key value rest store k v e p,
  kv_set-full key value store absent full,
)
