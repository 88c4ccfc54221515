-- ===== src/PageCache/Arc.antt =====
-- `simulateARC` of page_cache_simulator.c, with its lists as the lists of their pages, which are `int`s:
-- `removeLRU` gives -1 for an empty list, and the code adds that to a ghost list. `malloc` is taken to
-- succeed; the printing is left out.
pub mod Capacity
use genspark_training.Base.{
  int_eq, ℕ, zero, suc, ◌+◌, ◌-◌, ◌≤◌, ◌≡◌, Bool, true, false, ◌&&◌, ◌||◌, Option, none, some, List,
  [], ◌∷◌, ℤ, pos, negsuc, length, ltb, leb, ◌==◌, if◌then◌else◌,
}
use genspark_training.PageCache.Frames.{max_frames}

-- The globals.
pub record Arc : Type 0 where
  pub t1 : List ℤ
  pub t2 : List ℤ
  pub b1 : List ℤ
  pub b2 : List ℤ
  pub p : ℕ
  pub hits : ℕ
  pub misses : ℕ

abbrev pub init : Arc
init = record { t1 = []; t2 = []; b1 = []; b2 = []; p = 0; hits = 0; misses = 0 }

unfoldable pub contains : List ℤ → ℤ → Bool
contains [] page = false
contains (q ∷ list) page = int_eq q page || contains list page

unfoldable pub remove_node : List ℤ → ℤ → List ℤ
remove_node [] page = []
remove_node (q ∷ list) page = if int_eq q page then list else q ∷ remove_node list page

abbrev pub add_to_front : List ℤ → ℤ → List ℤ
add_to_front list page = page ∷ list

-- The page and the list without it.
unfoldable pub remove_lru : List ℤ → ℤ × List ℤ
remove_lru [] = (negsuc 0, [])
remove_lru (q ∷ []) = (q, [])
remove_lru (q ∷ r ∷ list) = let (page, rest) = remove_lru (r ∷ list) in (page, q ∷ rest)

-- The test of `replaceARC`.
unfoldable pub replaces_t1 : Arc → Bool
unfolding contains
replaces_t1 s =
    leb 1 (length s.t1)
    && (ltb s.p (length s.t1) || (contains s.b2 (pos 0) && (length s.t1 == s.p)))

unfoldable pub replace_arc : Arc → Arc
unfolding remove_lru replaces_t1
replace_arc s =
    if replaces_t1 s
    then (let (old, rest) = remove_lru s.t1 in record s { t1 = rest; b1 = add_to_front s.b1 old })
    else (let (old, rest) = remove_lru s.t2 in record s { t2 = rest; b2 = add_to_front s.b2 old })

-- The two assignments to `p`.
abbrev pub grow : Arc → ℕ
grow s =
    if ltb (s.p + (if ltb 0 (length s.b2) then 1 else 0)) max_frames then s.p + 1 else max_frames

abbrev pub shrink : Arc → ℕ
shrink s = if ltb 0 (s.p - (if ltb 0 (length s.b1) then 1 else 0)) then s.p - 1 else 0

unfoldable pub hit : ℤ → Arc → Arc
unfolding contains remove_node
hit page s =
    if contains s.t1 page
    then record s { t1 = remove_node s.t1 page; t2 = add_to_front s.t2 page; hits = s.hits + 1 }
    else record s { t2 = add_to_front (remove_node s.t2 page) page; hits = s.hits + 1 }

unfoldable pub miss_b1 : ℤ → Arc → Arc
unfolding replace_arc remove_node
miss_b1 page s =
    let r = replace_arc (record s { p = grow s }) in
    record r { b1 = remove_node r.b1 page; t2 = add_to_front r.t2 page }

unfoldable pub miss_b2 : ℤ → Arc → Arc
unfolding replace_arc remove_node
miss_b2 page s =
    let r = replace_arc (record s { p = shrink s }) in
    record r { b2 = remove_node r.b2 page; t2 = add_to_front r.t2 page }

unfoldable pub miss_new : ℤ → Arc → Arc
unfolding replace_arc
miss_new page s =
    let r = if leb max_frames (length s.t1 + length s.t2) then replace_arc s else s in
    record r { t1 = add_to_front r.t1 page }

-- One round of the loop.
unfoldable pub request : ℤ → Arc → Arc
unfolding hit miss_b1 miss_b2 miss_new
request page s =
    if contains s.t1 page || contains s.t2 page
    then hit page s
    else (let m = record s { misses = s.misses + 1 } in
        if contains m.b1 page
        then miss_b1 page m
        else if contains m.b2 page
        then miss_b2 page m
        else miss_new page m)

unfoldable pub simulate : List ℤ → Arc → Arc
unfolding request
simulate [] s = s
simulate (page ∷ pages) s = simulate pages (request page s)
