-- ===== src/KvStore/Store/Laws.antt =====
-- The store of the key-value servers is a bounded map.
use genspark_training.Base.{
  suc, ◌≤◌, ◌<◌, ◌≡◌, refl, ◌≢◌, ◌⊎◌, inl, inr, none, some, [], ◌∷◌, ◌++◌, Text, strncpy, text_eq,
  text_eq_iff, length, length-append, length-take-le, take_of_length-le, ltb, if◌then◌else◌, arith,
  lt→ltb, ltb→lt, ap, Bool-cases, Option-cases, All,
}
use genspark_training.KvStore.Store.{Store, max_entries, buf_len, kv_get, overwrite, kv_set}

kv_get-overwrite :
    (key q value : Text) (store store' : Store)
    → overwrite key value store ≡ some store'
    → kv_get q store' ≡ (if text_eq key q then some (strncpy buf_len value) else kv_get q store)
unfolding overwrite kv_get
kv_get-overwrite key q value [] store' h = absurd (ground arith)
kv_get-overwrite key q value ((k, v) ∷ store) store' h =
    elim (Option-cases (overwrite key value store)) [
      | inl e ↦ ground (arith, text_eq_iff k key, text_eq_iff key q, text_eq_iff k q)
      | inr (rest, e) ↦ ground (
        arith,
        text_eq_iff k key,
        text_eq_iff key q,
        text_eq_iff k q,
        kv_get-overwrite key q value store rest e,
      )
    ]

overwrite-none :
    (key value : Text) (store : Store) → overwrite key value store ≡ none → kv_get key store ≡ none
unfolding overwrite kv_get
overwrite-none key value [] h = refl
overwrite-none key value ((k, v) ∷ store) h = ground (arith, overwrite-none key value store)

overwrite-none_of :
    (key value : Text) (store : Store) → kv_get key store ≡ none → overwrite key value store ≡ none
unfolding overwrite kv_get
overwrite-none_of key value [] h = refl
overwrite-none_of key value ((k, v) ∷ store) h = ground (arith, overwrite-none_of key value store)

kv_get-append :
    (q k v : Text) (store : Store)
    → kv_get k store ≡ none
    → kv_get q (store ++ (k, v) ∷ []) ≡ (if text_eq k q then some v else kv_get q store)
unfolding kv_get
kv_get-append q k v [] h = refl
kv_get-append q k v ((j, w) ∷ store) h =
    ground (arith, kv_get-append q k v store, text_eq_iff j k, text_eq_iff k q, text_eq_iff j q)

-- The store takes the key: it has it already, or there is a free entry.
abbrev pub HasRoom : Text → Store → Type 0
HasRoom key store = (kv_get key store ≢ none) ⊎ (length store < max_entries)

-- A get after a set gives the value, cut to 255 bytes, at that key and what it gave before at any other,
-- where the key is at most 255 bytes long and the store has an entry for it.
pub kv_get-kv_set :
    (key q value : Text) (store : Store)
    → length key ≤ buf_len
    → HasRoom key store
    → kv_get q (kv_set key value store)
      ≡ (if text_eq key q then some (strncpy buf_len value) else kv_get q store)
unfolding kv_set
kv_get-kv_set key q value store short room = elim (Option-cases (overwrite key value store)) [
  | inr (rest, e) ↦ ground (arith, kv_get-overwrite key q value store rest e)
  | inl e ↦
      let absent : kv_get key store ≡ none = overwrite-none key value store e in
      let free : length store < max_entries = elim room [
        | inl there ↦ absurd (there absent)
        | inr f ↦ f
      ] in
      rw (e, kv_set)
        (rw (lt→ltb _ _ free, take_of_length-le buf_len key short)
          (kv_get-append q key (strncpy buf_len value) store absent))
]

-- A set of a new key into a full store changes nothing.
pub kv_set-full :
    (key value : Text) (store : Store)
    → kv_get key store ≡ none
    → max_entries ≤ length store
    → kv_set key value store ≡ store
unfolding kv_set
kv_set-full key value store absent full = ground (arith, overwrite-none_of key value store absent)

abbrev pub IsDistinct : Store → Type 0
IsDistinct [] = Unit
IsDistinct ((k, v) ∷ store) = (kv_get k store ≡ none) × IsDistinct store

abbrev pub Fits : Text × Text → Type 0
Fits e = (length e.0 ≤ buf_len) × (length e.1 ≤ buf_len)

-- At most 100 entries with different keys, each string within its buffer.
pub record IsValid (store : Store) : Type 0 where
  pub bounded : length store ≤ max_entries
  pub distinct : IsDistinct store
  pub fits : All Fits store

append-IsDistinct :
    (k v : Text) (store : Store)
    → kv_get k store ≡ none
    → IsDistinct store
    → IsDistinct (store ++ (k, v) ∷ [])
unfolding kv_get
append-IsDistinct k v [] h d = (refl, tt)
append-IsDistinct k v ((j, w) ∷ store) h d = (
  ground (arith, kv_get-append j k v store, text_eq_iff j k, text_eq_iff k j),
  append-IsDistinct k v store (ground arith) d.1,
)

overwrite-IsDistinct :
    (key value : Text) (store store' : Store)
    → overwrite key value store ≡ some store'
    → IsDistinct store
    → IsDistinct store' × (length store' ≡ length store)
unfolding overwrite
overwrite-IsDistinct key value [] store' h d = absurd (ground arith)
overwrite-IsDistinct key value ((k, v) ∷ store) store' h d = elim (Bool-cases (text_eq k key)) [
  | inl here ↦
      let shape : store' ≡ (k, strncpy buf_len value) ∷ store = ground arith in rw shape (d, refl)
  | inr other ↦ elim (Option-cases (overwrite key value store)) [
    | inl e ↦ absurd (ground arith)
    | inr (rest, e) ↦
        let shape : store' ≡ (k, v) ∷ rest = ground arith in
        let (again, same) = overwrite-IsDistinct key value store rest e d.1 in
        rw shape (
          (
            ground (
              arith,
              kv_get-overwrite key k value store rest e,
              text_eq_iff k key,
              text_eq_iff key k,
            ),
            again,
          ),
          ap suc same,
        )
  ]
]

append-Fits :
    (k v : Text) (store : Store) → Fits (k, v) → All Fits store → All Fits (store ++ (k, v) ∷ [])
append-Fits k v [] h a = (h, tt)
append-Fits k v (e ∷ store) h a = (a.0, append-Fits k v store h a.1)

overwrite-Fits :
    (key value : Text) (store store' : Store)
    → overwrite key value store ≡ some store'
    → All Fits store
    → All Fits store'
unfolding overwrite
overwrite-Fits key value [] store' h a = absurd (ground arith)
overwrite-Fits key value ((k, v) ∷ store) store' h a = elim (Bool-cases (text_eq k key)) [
  | inl here ↦
      let shape : store' ≡ (k, strncpy buf_len value) ∷ store = ground arith in
      rw shape ((a.0.0, length-take-le buf_len value), a.1)
  | inr other ↦ elim (Option-cases (overwrite key value store)) [
    | inl e ↦ absurd (ground arith)
    | inr (rest, e) ↦
        let shape : store' ≡ (k, v) ∷ rest = ground arith in
        rw shape (a.0, overwrite-Fits key value store rest e a.1)
  ]
]

-- A set, of a key of at most 255 bytes, keeps the store well formed: at most 100 entries with different
-- keys, each key and value at most 255 bytes long.
pub kv_set-IsValid :
    (key value : Text) (store : Store)
    → length key ≤ buf_len
    → IsValid store
    → IsValid (kv_set key value store)
unfolding kv_set
kv_set-IsValid key value store short v = elim (Option-cases (overwrite key value store)) [
  | inr (rest, e) ↦
      let (d, same) = overwrite-IsDistinct key value store rest e v.distinct in
      rw (e, kv_set)
        (record {
          bounded = omega (arith, same, v.bounded);
          distinct = d;
          fits = overwrite-Fits key value store rest e v.fits;
        })
  | inl e ↦ elim (Bool-cases (ltb (length store) max_entries)) [
    | inr full ↦ rw (e, kv_set) (rw full v)
    | inl free ↦
        rw (e, kv_set)
          (rw (free, take_of_length-le buf_len key short)
            (record {
              bounded =
                  omega (
                    arith,
                    length-append store ((key, strncpy buf_len value) ∷ []),
                    ltb→lt _ _ free,
                  );
              distinct =
                  append-IsDistinct key (strncpy buf_len value) store
                    (overwrite-none key value store e) v.distinct;
              fits =
                  append-Fits key (strncpy buf_len value) store
                    (short, length-take-le buf_len value) v.fits;
            }))
  ]
]
