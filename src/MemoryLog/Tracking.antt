-- ===== src/MemoryLog/Tracking.antt =====
-- The list of memorylog.c: ids and addresses are there once, and what freeing an id does.
use genspark_training.Base.{
  ℕ, ◌+◌, ◌%◌, ◌^◌, ◌≤◌, ◌<◌, ◌≡◌, refl, ◌≢◌, inl, inr, true, Option, none, some, List, [], ◌∷◌,
  ◌++◌, All, Text, ◌==◌, if◌then◌else◌, arith, Bool-cases,
}
use genspark_training.MemoryLog.{
  Node, Log, add, remove_node, removememory, freememory, address_of, detailsofmemoryid, has_nodes,
  free_by_id,
}

-- Ids fall along the list, and addresses differ.
abbrev pub IsTracked : ℕ → List Node → Type 0
IsTracked id [] = Unit
IsTracked id (n ∷ nodes) =
    (n.memoryid < id) × All (λ m. m.address ≢ n.address) nodes × IsTracked n.memoryid nodes

pub record IsValid (log : Log) : Type 0 where
  pub tracked : IsTracked log.id log.nodes
  pub no_wrap : log.id < 2 ^ 31

weaken : (i j : ℕ) (nodes : List Node) → i ≤ j → IsTracked i nodes → IsTracked j nodes
weaken i j [] p h = tt
weaken i j (n ∷ nodes) p h = (omega (arith, h.0), h.1, h.2)

remove_node-All :
    (ptr a : ℕ) (nodes : List Node)
    → All (λ m. m.address ≢ a) nodes
    → All (λ m. m.address ≢ a) (remove_node ptr nodes)
unfolding remove_node
remove_node-All ptr a [] h = tt
remove_node-All ptr a (n ∷ nodes) h = elim (Bool-cases (n.address == ptr)) [
  | inl e ↦ rw e h.1
  | inr e ↦ rw e (h.0, remove_node-All ptr a nodes h.1)
]

remove_node-IsTracked :
    (id ptr : ℕ) (nodes : List Node) → IsTracked id nodes → IsTracked id (remove_node ptr nodes)
unfolding remove_node
remove_node-IsTracked id ptr [] h = tt
remove_node-IsTracked id ptr (n ∷ nodes) h = elim (Bool-cases (n.address == ptr)) [
  | inl e ↦ rw e (weaken n.memoryid id nodes (omega (arith, h.0)) h.2)
  | inr e ↦
      rw e (
        h.0,
        remove_node-All ptr n.address nodes h.1,
        remove_node-IsTracked n.memoryid ptr nodes h.2,
      )
]

pub add-IsValid :
    (p size : ℕ) (kind : Text) (log : Log)
    → All (λ m. m.address ≢ p) log.nodes
    → log.id + 1 < 2 ^ 31
    → IsValid log
    → IsValid (add p size kind log)
unfolding add
add-IsValid p size kind log fresh few v =
    let e : (log.id + 1) % 2 ^ 32 ≡ log.id + 1 = omega (arith, few) in
    record { tracked = rw e (omega arith, fresh, v.tracked); no_wrap = rw e few }

freememory-IsValid : (o : Option ℕ) (log : Log) → IsValid log → IsValid (freememory o log)
unfolding freememory removememory
freememory-IsValid none log v = v
freememory-IsValid (some ptr) log v = record {
  tracked = remove_node-IsTracked log.id ptr log.nodes v.tracked;
  no_wrap = v.no_wrap;
}

pub free_by_id-IsValid : (id : ℕ) (log : Log) → IsValid log → IsValid (free_by_id id log)
unfolding free_by_id
free_by_id-IsValid id log v = elim (Bool-cases (has_nodes log.nodes)) [
  | inl e ↦ rw e (freememory-IsValid (detailsofmemoryid id log) log v)
  | inr e ↦ rw e v
]

address_of-All :
    (id a x : ℕ) (nodes : List Node)
    → All (λ m. m.address ≢ x) nodes
    → address_of id nodes ≡ some a
    → a ≢ x
unfolding address_of
address_of-All id a x [] h e = absurd (ground arith)
address_of-All id a x (n ∷ nodes) h e = elim (Bool-cases (n.memoryid == id)) [
  | inl f ↦ let same : a ≡ n.address = ground arith in rw same h.0
  | inr f ↦ address_of-All id a x nodes h.1 (ground arith)
]

-- Ids at or above the bound are not there.
address_of-above :
    (id q : ℕ) (nodes : List Node) → IsTracked id nodes → id ≤ q → address_of q nodes ≡ none
unfolding address_of
address_of-above id q [] h p = refl
address_of-above id q (n ∷ nodes) h p = ground (arith, h.0, address_of-above n.memoryid q nodes h.2)

address_of-remove_node :
    (bound id a q : ℕ) (nodes : List Node)
    → IsTracked bound nodes
    → address_of id nodes ≡ some a
    → address_of q (remove_node a nodes) ≡ (if q == id then none else address_of q nodes)
unfolding address_of remove_node
address_of-remove_node bound id a q [] h e = absurd (ground arith)
address_of-remove_node bound id a q (n ∷ nodes) h e = elim (Bool-cases (n.memoryid == id)) [
  | inl f ↦
      let same : a ≡ n.address = ground arith in
      ground (arith, same, address_of-above n.memoryid q nodes h.2)
  | inr f ↦
      let rest : address_of id nodes ≡ some a = ground arith in
      ground (
        arith,
        address_of-All id a n.address nodes h.1 rest,
        address_of-remove_node n.memoryid id a q nodes h.2 rest,
      )
]

address_of-has_nodes :
    (id a : ℕ) (nodes : List Node) → address_of id nodes ≡ some a → has_nodes nodes ≡ true
unfolding address_of
address_of-has_nodes id a [] h = absurd (ground arith)
address_of-has_nodes id a (n ∷ nodes) h = refl

-- Freeing the id of a block passes its address to `free`, once, and takes that id and no other from the
-- list, where the list is well formed.
pub detailsofmemoryid-free_by_id :
    (id a : ℕ) (log : Log)
    → IsValid log
    → detailsofmemoryid id log ≡ some a
    → ((free_by_id id log).freed ≡ log.freed ++ a ∷ [])
      × ((q : ℕ)
          → detailsofmemoryid q (free_by_id id log)
            ≡ (if q == id then none else detailsofmemoryid q log))
unfolding free_by_id freememory removememory detailsofmemoryid
detailsofmemoryid-free_by_id id a log v e =
    rw (address_of-has_nodes id a log.nodes e, e)
      (refl, λ q. address_of-remove_node log.id id a q log.nodes v.tracked e)
