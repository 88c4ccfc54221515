-- ===== src/Filtering/Search.antt =====
-- The binary search of filtering.c finds the first row, and splits what the linear search prints.
use genspark_training.Base.{
  ℕ, zero, suc, ◌+◌, ◌-◌, ◌≤◌, ◌<◌, ◌≡◌, refl, ap, ◌∙◌, true, false, Option, none, some, List, [],
  ◌∷◌, ◌==◌, ltb, leb, if◌then◌else◌, arith, Bool-cases, inl, inr,
}
use genspark_training.Filtering.{Row, linear_from, linearsearch, middle, search_loop, binarysearch}

-- The ages do not fall among the first `n` rows.
abbrev pub IsSorted : (ℕ → Row) → ℕ → Type 0
IsSorted records n = (i j : ℕ) → i ≤ j → j < n → (records i).age ≤ (records j).age

-- The rows in front of `k` are younger, and those from `k` on are not.
pub record IsSplit (records : ℕ → Row) (n minage k : ℕ) : Type 0 where
  pub range : k ≤ n
  pub below : (i : ℕ) → i < k → (records i).age < minage
  pub above : (i : ℕ) → k ≤ i → i < n → minage ≤ (records i).age

-- -1 where there is no row.
abbrev pub found_at : (n k : ℕ) → Option ℕ
found_at n k = if k == n then none else some k

search_loop-IsSplit :
    (fuel n left behind : ℕ) (records : ℕ → Row) (minage : ℕ) (result : Option ℕ)
    → IsSorted records n
    → left ≤ behind
    → behind ≤ n
    → behind < fuel + left
    → ((i : ℕ) → i < left → (records i).age < minage)
    → ((i : ℕ) → behind ≤ i → i < n → minage ≤ (records i).age)
    → result ≡ found_at n behind
    → (k : ℕ) × (search_loop fuel records minage left behind result ≡ some (found_at n k))
      × IsSplit records n minage k
unfolding search_loop
search_loop-IsSplit zero n left behind records minage result s p q f lo hi e = absurd (omega arith)
search_loop-IsSplit (suc fuel) n left behind records minage result s p q f lo hi e =
    let mid = middle left behind in
    elim (Bool-cases (ltb left behind)) [
      | inr done ↦
          let same : behind ≡ left = ground arith in
          (
            behind,
            rw done (ap (λ r. some r) e),
            record { range = q; below = λ i h. lo i (omega (arith, same, h)); above = hi },
          )
      | inl more ↦
          let less : left < behind = ground arith in
          let inside : mid < behind = omega (arith, less) in
          elim (Bool-cases (leb minage (records mid).age)) [
            | inl old ↦
                let here : minage ≤ (records mid).age = ground arith in
                let (k, e', split) =
                  search_loop-IsSplit fuel n left mid records minage (some mid) s (omega arith)
                    (omega (arith, inside)) (omega (arith, less, f)) lo
                    (λ i h b. omega (arith, here, s mid i h b)) (ground (arith, inside)) in
                (k, rw (more, old) e', split)
            | inr young ↦
                let here : (records mid).age < minage = ground arith in
                let (k, e', split) =
                  search_loop-IsSplit fuel n (mid + 1) behind records minage result s
                    (omega (arith, inside)) q (omega (arith, less, f))
                    (λ i h. omega (arith, here, s i mid (omega (arith, h)) (omega (arith, inside))))
                    hi e in
                (k, rw (more, young) e', split)
          ]
    ]

-- On a table whose ages do not fall, the binary search ends and gives the first row that is old enough:
-- the rows in front of it are younger, those from it on are not, and it is -1 only if all are younger.
pub binarysearch-IsSplit :
    (records : ℕ → Row) (n minage : ℕ)
    → IsSorted records n
    → (k : ℕ) × (binarysearch records n minage ≡ some (found_at n k)) × IsSplit records n minage k
unfolding binarysearch
binarysearch-IsSplit records n minage s =
    search_loop-IsSplit (suc n) n 0 n records minage none s (omega arith) (omega arith)
      (omega arith) (λ i h. absurd (omega (arith, h))) (λ i h b. absurd (omega (arith, h, b)))
      (ground arith)

-- The rows from `i` on.
abbrev pub rows_from : (ℕ → Row) → (i n : ℕ) → List Row
rows_from records i zero = []
rows_from records i (suc n) = records i ∷ rows_from records (i + 1) n

linear_from-old :
    (records : ℕ → Row) (i n minage : ℕ)
    → ((j : ℕ) → i ≤ j → j < i + n → minage ≤ (records j).age)
    → linear_from records i n minage ≡ rows_from records i n
unfolding linear_from
linear_from-old records i zero minage h = refl
linear_from-old records i (suc n) minage h =
    let here : leb minage (records i).age ≡ true =
      ground (arith, h i (omega arith) (omega arith)) in
    rw here (
      ap (λ l. records i ∷ l)
        (linear_from-old records (i + 1) n minage
          (λ j a b. h j (omega (arith, a)) (omega (arith, b)))))

linear_from-IsSplit :
    (records : ℕ → Row) (i n e minage k : ℕ)
    → i + n ≡ e
    → i ≤ k
    → IsSplit records e minage k
    → linear_from records i n minage ≡ rows_from records k (e - k)
unfolding linear_from
linear_from-IsSplit records i zero e minage k p q s =
    let none_left : e - k ≡ 0 = omega (arith, p, q) in rw none_left refl
linear_from-IsSplit records i (suc n) e minage k p q s = elim (Bool-cases (i == k)) [
  | inl at ↦
      let same : i ≡ k = ground arith in
      let left : e - k ≡ suc n = omega (arith, p, same) in
      linear_from-old records i (suc n) minage
        (λ j a b. s.above j (omega (arith, a, same)) (omega (arith, b, p)))
      ∙ rw (same, left) refl
  | inr off ↦
      let front : i < k = ground arith in
      let young : leb minage (records i).age ≡ false = ground (arith, s.below i front) in
      rw young (
        linear_from-IsSplit records (i + 1) n e minage k (omega (arith, p)) (omega (arith, front))
          s)
]

-- On a table whose ages do not fall, the linear search prints the rows from the one on that the binary
-- search finds, and nothing where that gives -1.
pub linearsearch-binarysearch :
    (records : ℕ → Row) (n minage : ℕ)
    → IsSorted records n
    → (k : ℕ) × (binarysearch records n minage ≡ some (found_at n k))
      × (linearsearch records n minage ≡ rows_from records k (n - k))
unfolding linearsearch
linearsearch-binarysearch records n minage s =
    let (k, e, split) = binarysearch-IsSplit records n minage s in
    (k, e, linear_from-IsSplit records 0 n n minage k (omega arith) (omega arith) split)
