-- ===== src/Filtering.antt =====
-- filtering.c: a linear and a binary search by age. An `int` is kept as its value plus 2^31; `right`, which
-- may be -1, is kept as the index behind it. The generation of the records and `qsort` are library calls.
pub mod Search
mod Tests
use genspark_training.Base.{
  ℕ, zero, suc, ◌+◌, ◌-◌, ◌/◌, Bool, true, false, Option, none, some, List, [], ◌∷◌, Text, ltb, leb,
  if◌then◌else◌,
}

pub record Row : Type 0 where
  pub id : ℕ
  pub name : Text
  pub age : ℕ

-- The rows that `linearsearch` prints, from row `i` on with `n` rows left.
unfoldable pub linear_from : (ℕ → Row) → (i n minage : ℕ) → List Row
linear_from records i zero minage = []
linear_from records i (suc n) minage =
    let rest = linear_from records (i + 1) n minage in
    if leb minage (records i).age then records i ∷ rest else rest

unfoldable pub linearsearch : (ℕ → Row) → (n minage : ℕ) → List Row
unfolding linear_from
linearsearch records n minage = linear_from records 0 n minage

-- `left + (right - left) / 2`
abbrev pub middle : ℕ → ℕ → ℕ
middle left behind = left + (behind - 1 - left) / 2

-- The loop of `binarysearch`; the outer `none`: the fuel runs out. The inner is -1.
unfoldable pub search_loop :
    (fuel : ℕ) → (ℕ → Row) → (minage left behind : ℕ) → Option ℕ → Option (Option ℕ)
search_loop zero records minage left behind result = none
search_loop (suc fuel) records minage left behind result =
    let mid = middle left behind in
    let lower = search_loop fuel records minage left mid (some mid) in
    let upper = search_loop fuel records minage (mid + 1) behind result in
    if ltb left behind then (if leb minage (records mid).age then lower else upper) else some result

-- A round makes the range shorter.
unfoldable pub binarysearch : (ℕ → Row) → (n minage : ℕ) → Option (Option ℕ)
unfolding search_loop
binarysearch records n minage = search_loop (suc n) records minage 0 n none
