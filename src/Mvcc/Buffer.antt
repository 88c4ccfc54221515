-- ===== src/Mvcc/Buffer.antt =====
-- The write buffer of a transaction of mvcc-in-memory-key-value.c: what `tx_write` leaves in it.
use genspark_training.Base.{
  ℕ, ◌≤◌, ◌<◌, ◌≡◌, refl, Bool, true, false, update, ◌==◌, if◌then◌else◌, arith, none, some,
  Bool-cases, Option-cases, inl, inr, List, [], ◌∷◌, ◌++◌, Text, strncpy, length,
}
use genspark_training.Mvcc.State.{value_len}
use genspark_training.Mvcc.Ops.{buffered, replace, put_write}
use genspark_training.Mvcc.Deadlock.Graph.{unvisited, unvisited-update, unvisited-le}

-- No key stands twice in a write buffer.
abbrev pub IsDistinct : List (ℕ × Text) → Type 0
IsDistinct [] = Unit
IsDistinct ((k, v) ∷ ws) = (buffered k ws ≡ none) × IsDistinct ws

module _ (k : ℕ) (value : Text) where
  replace_absent : (ws : List (ℕ × Text)) → replace k value ws ≡ none → buffered k ws ≡ none
  unfolding replace buffered
  replace_absent [] h = refl
  replace_absent ((j, v) ∷ ws) h = ground (arith, replace_absent ws)

  buffered-replace :
      (ws ws' : List (ℕ × Text)) (i : ℕ)
      → replace k value ws ≡ some ws'
      → buffered i ws' ≡ (if k == i then some (strncpy value_len value) else buffered i ws)
  unfolding replace buffered
  buffered-replace [] ws' i h = absurd (ground arith)
  buffered-replace ((j, v) ∷ ws) ws' i h = elim (Bool-cases (j == k)) [
    | inl here ↦ ground arith
    | inr other ↦ elim (Option-cases (replace k value ws)) [
      | inl e ↦ absurd (ground arith)
      | inr (xs, e) ↦ ground (arith, buffered-replace ws xs i e)
    ]
  ]

  replace-IsDistinct :
      (ws ws' : List (ℕ × Text)) → replace k value ws ≡ some ws' → IsDistinct ws → IsDistinct ws'
  unfolding replace
  replace-IsDistinct [] ws' h d = absurd (ground arith)
  replace-IsDistinct ((j, v) ∷ ws) ws' h d = elim (Bool-cases (j == k)) [
    | inl here ↦ ground arith
    | inr other ↦ elim (Option-cases (replace k value ws)) [
      | inl e ↦ absurd (ground arith)
      | inr (xs, e) ↦
          let shape : ws' ≡ (j, v) ∷ xs = ground arith in
          rw shape (ground (arith, buffered-replace ws xs j e), replace-IsDistinct ws xs e d.1)
    ]
  ]

  buffered-append :
      (ws : List (ℕ × Text)) (v : Text) (i : ℕ)
      → buffered k ws ≡ none
      → buffered i (ws ++ (k, v) ∷ []) ≡ (if k == i then some v else buffered i ws)
  unfolding buffered
  buffered-append [] v i h = refl
  buffered-append ((j, x) ∷ ws) v i h = ground (arith, buffered-append ws v i)

  append-IsDistinct :
      (ws : List (ℕ × Text)) (v : Text)
      → buffered k ws ≡ none
      → IsDistinct ws
      → IsDistinct (ws ++ (k, v) ∷ [])
  unfolding buffered
  append-IsDistinct [] v h d = (refl, tt)
  append-IsDistinct ((j, x) ∷ ws) v h d =
      (ground (arith, buffered-append ws v j), append-IsDistinct ws v (ground arith) d.1)

  -- A write of a key sets that key, and leaves the others alone.
  pub buffered-put_write :
      (ws ws' : List (ℕ × Text)) (i : ℕ)
      → put_write k value ws ≡ some ws'
      → buffered i ws' ≡ (if k == i then some (strncpy value_len value) else buffered i ws)
  unfolding put_write
  buffered-put_write ws ws' i h = ground (
    arith,
    replace_absent ws,
    buffered-replace ws ws' i,
    buffered-append ws (strncpy value_len value) i,
  )

  pub put_write-IsDistinct :
      (ws ws' : List (ℕ × Text)) → put_write k value ws ≡ some ws' → IsDistinct ws → IsDistinct ws'
  unfolding put_write
  put_write-IsDistinct ws ws' h d = elim (Option-cases (replace k value ws)) [
    | inr (xs, e) ↦ replace-IsDistinct ws ws' (ground arith) d
    | inl e ↦
        let shape : ws' ≡ ws ++ (k, strncpy value_len value) ∷ [] = ground arith in
        rw shape (append-IsDistinct ws (strncpy value_len value) (replace_absent ws e) d)
  ]

-- A buffer of distinct keys below `n`, none of them in `seen`, is no longer than what is left.
length-le-unvisited :
    (n : ℕ) (seen : ℕ → Bool) (ws : List (ℕ × Text))
    → IsDistinct ws
    → ((k : ℕ) (v : Text) → buffered k ws ≡ some v → (k < n) × (seen k ≡ false))
    → length ws ≤ unvisited n seen
unfolding buffered
length-le-unvisited n seen [] d r = omega arith
length-le-unvisited n seen ((k, v) ∷ ws) d r = omega (
  arith,
  unvisited-update n k seen head.0 head.1,
  length-le-unvisited n (update seen k true) ws d.1 (λ j x e. ground (arith, r j x, d.0)),
)
  where
    head : (k < n) × (seen k ≡ false)
    head = r k v (ground arith)

pub length-le_of_IsDistinct :
    (n : ℕ) (ws : List (ℕ × Text))
    → IsDistinct ws
    → ((k : ℕ) (v : Text) → buffered k ws ≡ some v → k < n)
    → length ws ≤ n
length-le_of_IsDistinct n ws d r = omega (
  arith,
  length-le-unvisited n (λ _. false) ws d (λ k v e. (r k v e, refl)),
  unvisited-le n (λ _. false),
)

-- A buffer with room takes the write.
pub put_write_total :
    (k : ℕ) (value : Text) (ws : List (ℕ × Text))
    → length ws < 8
    → (ws' : List (ℕ × Text)) × (put_write k value ws ≡ some ws')
unfolding put_write
put_write_total k value ws h = elim (Option-cases (replace k value ws)) [
  | inr (xs, e) ↦ (xs, ground arith)
  | inl e ↦ (ws ++ (k, strncpy value_len value) ∷ [], ground arith)
]
