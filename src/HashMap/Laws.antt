-- ===== src/HashMap/Laws.antt =====
-- The table of pthread-hash-map.c is a map: lookup after insert, and the workers in any interleaving.
use genspark_training.Base.{
  ℕ, ◌≡◌, refl, ◌⊎◌, inl, inr, true, false, none, some, List, [], ◌∷◌, Text, text_eq, text_eq_iff,
  ℤ, ◌==◌, if◌then◌else◌, arith, Bool-cases, Option-cases, All, ◌∙◌,
}
use genspark_training.HashMap.{
  HashMap, Chain, hash, hashmap_init, overwrite, insert_chain, hashmap_insert, find_chain,
  hashmap_lookup, insert_all,
}

find_chain-overwrite :
    (key q : Text) (value : ℤ) (chain chain' : Chain)
    → overwrite key value chain ≡ some chain'
    → find_chain q chain' ≡ (if text_eq key q then (value, true) else find_chain q chain)
unfolding overwrite find_chain
find_chain-overwrite key q value [] chain' h = absurd (ground arith)
find_chain-overwrite key q value ((k, v) ∷ chain) chain' h =
    elim (Option-cases (overwrite key value chain)) [
      | inl e ↦ ground (arith, text_eq_iff k key, text_eq_iff key q, text_eq_iff k q)
      | inr (rest, e) ↦ ground (
        arith,
        text_eq_iff k key,
        text_eq_iff key q,
        text_eq_iff k q,
        find_chain-overwrite key q value chain rest e,
      )
    ]

find_chain-overwrite-none :
    (key : Text) (value : ℤ) (chain : Chain)
    → overwrite key value chain ≡ none
    → (find_chain key chain).1 ≡ false
unfolding overwrite find_chain
find_chain-overwrite-none key value [] h = refl
find_chain-overwrite-none key value ((k, v) ∷ chain) h =
    ground (arith, find_chain-overwrite-none key value chain)

find_chain-insert_chain :
    (key q : Text) (value : ℤ) (chain : Chain)
    → find_chain q (insert_chain key value chain)
      ≡ (if text_eq key q then (value, true) else find_chain q chain)
unfolding insert_chain find_chain
find_chain-insert_chain key q value chain = elim (Option-cases (overwrite key value chain)) [
  | inl e ↦ ground arith
  | inr (rest, e) ↦ ground (arith, find_chain-overwrite key q value chain rest e)
]

-- A lookup after an insert gives the inserted value at that key, and what it gave before at any other.
pub hashmap_lookup-hashmap_insert :
    (map : HashMap) (key q : Text) (value : ℤ)
    → hashmap_lookup (hashmap_insert map key value) q
      ≡ (if text_eq key q then (value, true) else hashmap_lookup map q)
unfolding hashmap_lookup hashmap_insert
hashmap_lookup-hashmap_insert map key q value =
    ground (arith, text_eq_iff key q, find_chain-insert_chain key q value (map.buckets (hash key)))

-- The chain has no key twice.
abbrev pub IsDistinct : Chain → Type 0
IsDistinct [] = Unit
IsDistinct ((k, v) ∷ chain) = ((find_chain k chain).1 ≡ false) × IsDistinct chain

-- Each key stands once, in the bucket of its hash.
pub record IsValid (map : HashMap) : Type 0 where
  pub distinct : (i : ℕ) → IsDistinct (map.buckets i)
  pub placed : (i : ℕ) (key : Text) → (find_chain key (map.buckets i)).1 ≡ true → hash key ≡ i

overwrite-IsDistinct :
    (key : Text) (value : ℤ) (chain chain' : Chain)
    → overwrite key value chain ≡ some chain'
    → IsDistinct chain
    → IsDistinct chain'
unfolding overwrite
overwrite-IsDistinct key value [] chain' h d = absurd (ground arith)
overwrite-IsDistinct key value ((k, v) ∷ chain) chain' h d = elim (Bool-cases (text_eq k key)) [
  | inl here ↦ let shape : chain' ≡ (k, value) ∷ chain = ground arith in rw shape d
  | inr other ↦ elim (Option-cases (overwrite key value chain)) [
    | inl e ↦ absurd (ground arith)
    | inr (rest, e) ↦
        let shape : chain' ≡ (k, v) ∷ rest = ground arith in
        rw shape (
          ground (
            arith,
            find_chain-overwrite key k value chain rest e,
            text_eq_iff k key,
            text_eq_iff key k,
          ),
          overwrite-IsDistinct key value chain rest e d.1,
        )
  ]
]

insert_chain-IsDistinct :
    (key : Text) (value : ℤ) (chain : Chain)
    → IsDistinct chain
    → IsDistinct (insert_chain key value chain)
unfolding insert_chain
insert_chain-IsDistinct key value chain d = elim (Option-cases (overwrite key value chain)) [
  | inl e ↦ rw (e, insert_chain) (find_chain-overwrite-none key value chain e, d)
  | inr (rest, e) ↦ rw (e, insert_chain) (overwrite-IsDistinct key value chain rest e d)
]

-- The empty table has each key at most once and in the bucket of its hash, and an insert keeps that.
pub hashmap_insert-IsValid :
    IsValid hashmap_init
    × ((map : HashMap) (key : Text) (value : ℤ)
        → IsValid map
        → IsValid (hashmap_insert map key value))
unfolding hashmap_init hashmap_insert find_chain
hashmap_insert-IsValid = (
  record { distinct = λ i. tt; placed = λ i key h. absurd (ground arith) },
  λ map key value v. record {
    distinct = λ i. elim (Bool-cases (hash key == i)) [
      | inl here ↦
          rw here
            (insert_chain-IsDistinct key value (map.buckets (hash key)) (v.distinct (hash key)))
      | inr other ↦ rw other (v.distinct i)
    ];
    placed = λ i q h. ground (
      arith,
      v.placed i q,
      find_chain-insert_chain key q value (map.buckets (hash key)),
      text_eq_iff key q,
      v.placed (hash key) q,
    );
  },
)

-- Some call of the list inserts the key.
abbrev pub Inserts : Text → List (Text × ℤ) → Type 0
Inserts q [] = ⊥
Inserts q ((k, v) ∷ calls) = (k ≡ q) ⊎ Inserts q calls

-- A call settles its key, and leaves the others as they are.
settle :
    (map : HashMap) (k q : Text) (v value : ℤ) (rest : Type 0)
    → (k ≡ q → v ≡ value)
    → ((hashmap_lookup map q ≡ (value, true)) ⊎ ((k ≡ q) ⊎ rest))
    → (hashmap_lookup (hashmap_insert map k v) q ≡ (value, true)) ⊎ rest
settle map k q v value rest h o = elim (Bool-cases (text_eq k q)) [
  | inl same ↦
      inl (hashmap_lookup-hashmap_insert map k q v ∙ rw (same, h ((text_eq_iff k q).0 same)))
  | inr other ↦ elim o [
    | inl e ↦ inl (hashmap_lookup-hashmap_insert map k q v ∙ rw other e)
    | inr c ↦ elim c [ inl e ↦ absurd (ground (arith, text_eq_iff k q)) | inr r ↦ inr r ]
  ]
]

settled :
    (map : HashMap) (calls : List (Text × ℤ)) (q : Text) (value : ℤ)
    → All (λ c. c.0 ≡ q → c.1 ≡ value) calls
    → ((hashmap_lookup map q ≡ (value, true)) ⊎ Inserts q calls)
    → hashmap_lookup (insert_all map calls) q ≡ (value, true)
unfolding insert_all
settled map [] q value h (inl e) = e
settled map [] q value h (inr i) = absurd i
settled map ((k, v) ∷ calls) q value h o =
    settled (hashmap_insert map k v) calls q value h.1
      (settle map k q v value (Inserts q calls) h.0 o)

-- Whatever the order in which threads insert, a key that is inserted with one value only, at least once,
-- has that value in the end.
pub hashmap_lookup-insert_all :
    (map : HashMap) (calls : List (Text × ℤ)) (q : Text) (value : ℤ)
    → All (λ c. c.0 ≡ q → c.1 ≡ value) calls
    → Inserts q calls
    → hashmap_lookup (insert_all map calls) q ≡ (value, true)
hashmap_lookup-insert_all map calls q value h i = settled map calls q value h (inr i)
