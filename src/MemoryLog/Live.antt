-- ===== src/MemoryLog/Live.antt =====
-- The list of memorylog.c against the blocks in use. Those are followed apart from the list: by what the
-- allocator hands out and what the program passes to `free`.
use mathlib.Core.Path.{subst}
use genspark_training.Base.{
  ℕ, ◌+◌, ◌*◌, ◌%◌, ◌^◌, ◌<◌, ◌≡◌, refl, sym, ◌≢◌, ◌⊎◌, inl, inr, Bool, true, false, ◌&&◌, ◌||◌,
  Option, none, some, List, [], ◌∷◌, ◌++◌, All, Text, bytes, ◌==◌, if◌then◌else◌, arith, Bool-cases,
  Option-cases,
}
use genspark_training.MemoryLog.{
  Node, Log, init, add, malloc_allocation, calloc_allocation, remove_node, removememory, freememory,
  detailsofmemoryid, size_of, allocate_sized, allocate, has_nodes, free_by_id, Action, step,
}
use genspark_training.MemoryLog.Tracking.{IsValid, add-IsValid, free_by_id-IsValid}

-- The addresses of the list.
abbrev pub addresses : List Node → List ℕ
addresses [] = []
addresses (n ∷ nodes) = n.address ∷ addresses nodes

abbrev delete : ℕ → List ℕ → List ℕ
delete p [] = []
delete p (x ∷ xs) = if x == p then xs else x ∷ delete p xs

abbrev delete_all : List ℕ → List ℕ → List ℕ
delete_all [] xs = xs
delete_all (p ∷ ps) xs = delete_all ps (delete p xs)

-- What a list has behind a shorter one that it starts with.
abbrev added : List ℕ → List ℕ → List ℕ
added [] ys = ys
added (x ∷ xs) [] = []
added (x ∷ xs) (y ∷ ys) = added xs ys

abbrev is_known : ℕ → Bool
is_known datatype = elim (size_of datatype) [ none ↦ false | some n ↦ true ]

-- The block that the allocator hands out in an action, if the program gets to `malloc` or `calloc`.
abbrev pub handed_out : Action → List ℕ
handed_out (Action.allocation (some p) moc datatype size) =
    if is_known datatype && (moc == 1 || moc == 2) then p ∷ [] else []
handed_out _ = []

-- The blocks in use behind an action, from those before it: without what the action passed to `free`, and with
-- what the allocator has handed out.
abbrev pub live_after : Action → Log → List ℕ → List ℕ
live_after a log live = handed_out a ++ delete_all (added log.freed (step a log).freed) live

-- The allocator hands out no block that is in use, and there are ids left.
abbrev pub Allowed : Action → List ℕ → Log → Type 0
Allowed a live log = All (λ p. All (λ x. x ≢ p) live × (log.id + 1 < 2 ^ 31)) (handed_out a)

added_refl : (xs : List ℕ) → added xs xs ≡ []
added_refl [] = refl
added_refl (x ∷ xs) = added_refl xs

added-append : (xs ys : List ℕ) → added xs (xs ++ ys) ≡ ys
added-append [] ys = refl
added-append (x ∷ xs) ys = added-append xs ys

addresses-remove_node :
    (p : ℕ) (nodes : List Node) → addresses (remove_node p nodes) ≡ delete p (addresses nodes)
unfolding remove_node
addresses-remove_node p [] = refl
addresses-remove_node p (n ∷ nodes) = ground (arith, addresses-remove_node p nodes)

fresh_nodes :
    (p : ℕ) (nodes : List Node)
    → All (λ x. x ≢ p) (addresses nodes)
    → All (λ m. m.address ≢ p) nodes
fresh_nodes p [] h = tt
fresh_nodes p (n ∷ nodes) h = (h.0, fresh_nodes p nodes h.1)

-- An allocation logs the block that was handed out, or does nothing.
allocate_cases :
    (ptr : Option ℕ) (moc datatype size : ℕ) (log : Log)
    → ((handed_out (Action.allocation ptr moc datatype size) ≡ [])
        × (allocate ptr moc datatype size log ≡ log))
      ⊎ ((p : ℕ) × (n : ℕ) × (kind : Text) × (handed_out (Action.allocation ptr moc datatype size)
            ≡ p ∷ [])
          × (allocate ptr moc datatype size log ≡ add p n kind log))
unfolding allocate allocate_sized malloc_allocation calloc_allocation
allocate_cases none moc datatype size log = inl (refl, ground arith)
allocate_cases (some p) moc datatype size log = elim (Option-cases (size_of datatype)) [
  | inl e ↦ inl (rw (e, handed_out, is_known) refl, rw (e, allocate) refl)
  | inr (unit, e) ↦ elim (Bool-cases (moc == 1)) [
    | inl f ↦ inr (
      p,
      size * unit % 2 ^ 32,
      bytes "malloc",
      rw (e, handed_out, is_known, f) refl,
      rw (e, allocate, f) refl,
    )
    | inr f ↦ elim (Bool-cases (moc == 2)) [
      | inl g ↦ inr (
        p,
        size * unit % 2 ^ 32,
        bytes "calloc",
        rw (e, handed_out, is_known, f, g) refl,
        rw (e, allocate, f, g) refl,
      )
      | inr g ↦ inl (rw (e, handed_out, is_known, f, g) refl, rw (e, allocate, f, g) refl)
    ]
  ]
]

-- Behind an action the list is well formed, and it names the blocks in use.
abbrev Keeps : Action → Log → Type 0
Keeps a log =
    IsValid (step a log) × (addresses (step a log).nodes ≡ live_after a log (addresses log.nodes))

Keeps-allocation :
    (ptr : Option ℕ) (moc datatype size : ℕ) (log : Log)
    → Allowed (Action.allocation ptr moc datatype size) (addresses log.nodes) log
    → IsValid log
    → Keeps (Action.allocation ptr moc datatype size) log
unfolding step
Keeps-allocation ptr moc datatype size log h v = elim (allocate_cases ptr moc datatype size log) [
  | inl (e, f) ↦ rw (e, f, added_refl log.freed) (v, refl)
  | inr (p, n, kind, e, f) ↦
      let allowed = subst (All _) e h in
      rw (e, f)
        (
          add-IsValid p n kind log (fresh_nodes p log.nodes allowed.0.0) allowed.0.1 v,
          (unfold add in rw (added_refl log.freed) refl),
        )
]

Keeps-release : (id : ℕ) (log : Log) → IsValid log → Keeps (Action.release id) log
unfolding step
Keeps-release id log v = (
  free_by_id-IsValid id log v,
  elim (Bool-cases (has_nodes log.nodes)) [
    | inr e ↦ unfold free_by_id in rw (e, added_refl log.freed) refl
    | inl e ↦ elim (Option-cases (detailsofmemoryid id log)) [
      | inl f ↦ unfold free_by_id freememory in rw (e, f, added_refl log.freed) refl
      | inr (p, f) ↦
          unfold free_by_id freememory removememory in
          rw (e, f, added-append log.freed (p ∷ [])) (addresses-remove_node p log.nodes)
    ]
  ],
)

step-Keeps :
    (a : Action) (log : Log) → Allowed a (addresses log.nodes) log → IsValid log → Keeps a log
step-Keeps (Action.allocation ptr moc datatype size) log h v =
    Keeps-allocation ptr moc datatype size log h v
step-Keeps Action.display log h v = unfold step in (v, rw (added_refl log.freed) refl)
step-Keeps Action.export_log log h v = unfold step in (v, rw (added_refl log.freed) refl)
step-Keeps (Action.release id) log h v = Keeps-release id log v

-- The states that the program gets to, with the blocks that are in use there.
pub data Reachable : List ℕ → Log → Type 0 where
  start : Reachable [] init
  next :
      {live : List ℕ}
      → {log : Log} → (a : Action) → Allowed a live log
      → Reachable live log
      → Reachable (live_after a log live) (step a log)

-- In every state that the program gets to, where the allocator hands out no block that is in use (handed out
-- before and not passed to `free` since) and there are fewer than 2^31 allocations, the list names exactly the
-- blocks in use, the newest first; no two nodes have the same address, and the ids fall along the list.
pub Reachable-IsValid :
    {live : List ℕ} → {log : Log} → Reachable live log → IsValid log × (addresses log.nodes ≡ live)
Reachable-IsValid Reachable.start = (record { tracked = tt; no_wrap = omega arith }, refl)
Reachable-IsValid (Reachable.next {live} {log} a h r) =
    let (v, e) = Reachable-IsValid r in
    let (w, f) = step-Keeps a log (subst (λ xs. Allowed a xs log) (sym e) h) v in
    (w, subst (λ xs. addresses (step a log).nodes ≡ live_after a log xs) e f)
