-- ===== src/MemoryLog.antt =====
-- memorylog.c: a list of the blocks that were allocated. What `malloc` and `calloc` return is an argument
-- of the calls. An `int` is kept as its value modulo 2^32. Addresses are numbers, NULL is `none`.
pub mod Tracking
pub mod Live
mod Tests
use genspark_training.Base.{
  ℕ, zero, suc, ◌+◌, ◌*◌, ◌%◌, ◌^◌, Bool, true, false, ◌||◌, Option, none, some, List, [], ◌∷◌,
  ◌++◌, Text, bytes, ltb, ◌==◌, if◌then◌else◌,
}

-- `struct m`, without the link.
pub record Node : Type 0 where
  pub memoryid : ℕ
  pub address : ℕ
  pub size : ℕ
  pub kind : Text

-- The globals `id` and `head`, and the addresses that `freememory` passed to `free`.
pub record Log : Type 0 where
  pub id : ℕ
  pub nodes : List Node
  pub freed : List ℕ

abbrev pub init : Log
init = record { id = 1; nodes = []; freed = [] }

unfoldable pub add : ℕ → ℕ → Text → Log → Log
add adr size kind log = record log {
  id = (log.id + 1) % 2 ^ 32;
  nodes = record { memoryid = log.id; address = adr; size = size; kind = kind } ∷ log.nodes;
}

unfoldable pub malloc_allocation : (ptr : Option ℕ) → ℕ → Log → Log
unfolding add
malloc_allocation none size log = log
malloc_allocation (some p) size log = add p size (bytes "malloc") log

unfoldable pub calloc_allocation : (ptr : Option ℕ) → (num size : ℕ) → Log → Log
unfolding add
calloc_allocation none num size log = log
calloc_allocation (some p) num size log = add p (num * size % 2 ^ 32) (bytes "calloc") log

-- The loop of `removememory`: the first node with the address goes.
unfoldable pub remove_node : ℕ → List Node → List Node
remove_node ptr [] = []
remove_node ptr (n ∷ nodes) = if n.address == ptr then nodes else n ∷ remove_node ptr nodes

unfoldable pub removememory : ℕ → Log → Log
unfolding remove_node
removememory ptr log = record log { nodes = remove_node ptr log.nodes }

unfoldable pub freememory : Option ℕ → Log → Log
unfolding removememory
freememory none log = log
freememory (some ptr) log =
    let log' = removememory ptr log in record log' { freed = log'.freed ++ ptr ∷ [] }

-- The loop of `detailsofmemoryid`.
unfoldable pub address_of : ℕ → List Node → Option ℕ
address_of id [] = none
address_of id (n ∷ nodes) = if n.memoryid == id then some n.address else address_of id nodes

unfoldable pub detailsofmemoryid : ℕ → Log → Option ℕ
unfolding address_of
detailsofmemoryid id log = address_of id log.nodes

-- The sizes of the data types 1 to 4; `none`: wrong option.
abbrev pub size_of : ℕ → Option ℕ
size_of datatype =
    if datatype == 1
    then some 4
    else (if datatype == 2
        then some 1
        else (if datatype == 3 then some 4 else (if datatype == 4 then some 8 else none)))

-- The branches on `moc`.
unfoldable pub allocate_sized : (ptr : Option ℕ) → (moc size unit : ℕ) → Log → Log
unfolding malloc_allocation calloc_allocation
allocate_sized ptr moc size unit log =
    if moc == 1
    then malloc_allocation ptr (size * unit % 2 ^ 32) log
    else (if moc == 2 then calloc_allocation ptr size unit log else log)

unfoldable pub allocate : (ptr : Option ℕ) → (moc datatype size : ℕ) → Log → Log
unfolding allocate_sized
allocate ptr moc datatype size log = elim (size_of datatype) [
  | none ↦ log
  | some unit ↦ allocate_sized ptr moc size unit log
]

-- `printmemory`: -1 where there is nothing to print is `false`.
abbrev pub has_nodes : List Node → Bool
has_nodes [] = false
has_nodes (n ∷ nodes) = true

-- `case 3`
unfoldable pub free_by_id : ℕ → Log → Log
unfolding freememory detailsofmemoryid
free_by_id id log = if has_nodes log.nodes then freememory (detailsofmemoryid id log) log else log

-- What the user enters, with what the allocation returns.
pub data Action : Type 0 where
  allocation : (ptr : Option ℕ) → (moc datatype size : ℕ) → Action
  display export_log : Action
  release : ℕ → Action

-- One round of the loop of `main`: input outside 1 to 4 is rejected in front of the `switch`. The first case
-- falls through to the printing of the second.
unfoldable pub step : Action → Log → Log
unfolding allocate free_by_id
step (Action.allocation ptr moc datatype size) log = allocate ptr moc datatype size log
step Action.display log = log
step Action.export_log log = log
step (Action.release id) log = free_by_id id log
