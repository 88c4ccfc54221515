-- ===== src/QueryPipeline/Laws.antt =====
-- The pipeline of qee.c prints the selected rows of the table.
use genspark_training.Base.{
  ℕ, zero, suc, ◌+◌, ◌≤◌, ◌<◌, ◌≡◌, refl, false, Option, none, some, List, [], ◌∷◌, Text,
  if◌then◌else◌, arith, Bool-cases, inl, inr,
}
use genspark_training.QueryPipeline.{
  maxrows, Row, scannext, keeps, filter_row, filtnext, projnext, query,
}

-- The selected ones of `n` rows from index `i` on.
abbrev pub selected : (ℕ → Row) → (i n : ℕ) → List (Text × ℕ)
selected table i zero = []
selected table i (suc n) =
    let rest = selected table (i + 1) n in
    if keeps (table i) then ((table i).studentname, (table i).score) ∷ rest else rest

-- A pull of the filter from row `i` on, with `n` rows left: the first selected row, if there is one.
abbrev pub Pulled : (ℕ → Row) → (i n : ℕ) → Option Row × ℕ → Type 0
Pulled table i n (none, next) = (selected table i n ≡ []) × (next ≡ maxrows)
Pulled table i n (some rec, next) =
    (m : ℕ) × (next + m ≡ maxrows)
    × (m < n)
    × (selected table i n ≡ (rec.studentname, rec.score) ∷ selected table next m)

Pulled-skip :
    (table : ℕ → Row) (i n : ℕ) (p : Option Row × ℕ)
    → keeps (table i) ≡ false
    → Pulled table (i + 1) n p
    → Pulled table i (suc n) p
Pulled-skip table i n (none, next) k (e, l) = (rw k e, l)
Pulled-skip table i n (some rec, next) k (m, l, f, e) = (m, l, omega (arith, f), rw k e)

scannext-some : (table : ℕ → Row) (i : ℕ) → i < maxrows → scannext table i ≡ (some (table i), i + 1)
unfolding scannext
scannext-some table i h = ground arith

scannext-none : (table : ℕ → Row) (i : ℕ) → maxrows ≤ i → scannext table i ≡ (none, i)
unfolding scannext
scannext-none table i h = ground arith

filtnext-Pulled :
    (fuel i n : ℕ) (table : ℕ → Row)
    → i + n ≡ maxrows
    → n < fuel
    → (p : Option Row × ℕ) × (filtnext fuel table i ≡ some p) × Pulled table i n p
unfolding filtnext filter_row
filtnext-Pulled zero i n table h f = absurd (omega arith)
filtnext-Pulled (suc fuel) i zero table h f =
    let e : i ≡ 6 = omega (arith, h) in
    ((none, i), rw (scannext-none table i (omega (arith, h)), filtnext) refl, (refl, e))
filtnext-Pulled (suc fuel) i (suc n) table h f =
    let more : scannext table i ≡ (some (table i), i + 1) =
      scannext-some table i (omega (arith, h)) in
    elim (Bool-cases (keeps (table i))) [
      | inl k ↦ (
        (some (table i), i + 1),
        rw (more, filtnext, k) refl,
        (n, omega (arith, h), omega arith, rw k refl),
      )
      | inr k ↦
          let (p, e, w) =
            filtnext-Pulled fuel (i + 1) n table (omega (arith, h)) (omega (arith, f)) in
          (p, rw (more, filtnext, k) e, Pulled-skip table i n p k w)
    ]

projnext-Pulled :
    (fuel i n : ℕ) (table : ℕ → Row) (p : Option Row × ℕ)
    → filtnext (suc maxrows) table i ≡ some p
    → Pulled table i n p
    → ((j m : ℕ)
        → j + m ≡ maxrows
        → m < n
        → projnext fuel table j ≡ some (selected table j m, maxrows))
    → projnext (suc fuel) table i ≡ some (selected table i n, maxrows)
unfolding projnext
projnext-Pulled fuel i n table (none, next) e (empty, last) h = rw (e, projnext, empty, last) refl
projnext-Pulled fuel i n table (some rec, next) e (m, l, f, chosen) h =
    rw (e, projnext, h next m l f, chosen) refl

projnext-selected :
    (fuel i n : ℕ) (table : ℕ → Row)
    → i + n ≡ maxrows
    → n < fuel
    → projnext fuel table i ≡ some (selected table i n, maxrows)
unfolding projnext
projnext-selected zero i n table h f = absurd (omega arith)
projnext-selected (suc fuel) i n table h f =
    let (p, e, w) = filtnext-Pulled (suc maxrows) i n table h (omega (arith, h)) in
    projnext-Pulled fuel i n table p e w
      (λ j m l r. projnext-selected fuel j m table l (omega (arith, f, r)))

-- The query ends, prints the names and scores of exactly the rows that pass the filter, in the order of
-- the table, and leaves the index at 0, whatever the table and the index at the start. Scores are natural numbers.
pub query-selected :
    (table : ℕ → Row) (rowindex : ℕ) → query table rowindex ≡ some (selected table 0 maxrows, 0)
unfolding query
query-selected table rowindex =
    rw (projnext-selected (suc maxrows) 0 maxrows table refl (omega arith), query) refl
