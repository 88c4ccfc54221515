-- ===== src/BlockCache/Lost.antt =====
-- A hit in the block cache of filesystem.c can make the next lookup of the same key miss.
use mathlib.Core.Path.{subst}
use mathlib.Core.List.{append_assoc}
use genspark_training.Base.{
  append-All, ℕ, ◌≡◌, refl, sym, ap, ◌∙◌, true, false, none, some, List, [], ◌∷◌, ◌++◌, Text,
  text_eq, All, length, length-append, arith,
}
use genspark_training.BlockCache.{Cache, hash, find_node, movetofront, cache_get}
use genspark_training.BlockCache.Lookup.{
  IsList, first, InList, from_node-append, front-Without, find_node-first, Has-middle,
}
use genspark_training.BlockCache.Recency.{SameNodes, movetofront-IsList}

-- No node has the key.
abbrev pub NoKey : (ℕ → Text) → Text → List ℕ → Type 0
NoKey keys key = All (λ a. text_eq (keys a) key ≡ false)

first-NoKey :
    (keys : ℕ → Text) (key : Text) (l : List ℕ) → NoKey keys key l → first keys key l ≡ none
first-NoKey keys key [] h = refl
first-NoKey keys key (a ∷ l) h = rw (h.0) (first-NoKey keys key l h.1)

first-append :
    (keys : ℕ → Text) (key : Text) (l : List ℕ) (a : ℕ) (m : List ℕ)
    → NoKey keys key l
    → text_eq (keys a) key ≡ true
    → first keys key (l ++ a ∷ m) ≡ some a
first-append keys key [] a m h e = rw e refl
first-append keys key (b ∷ l) a m h e = rw (h.0) (first-append keys key l a m h.1 e)

-- The list by recency is `xs`, the node `b` of the bucket of the key, `zs`, a node `a` with the key, and
-- `ws`, and no other node from `b` on has the key.
pub record Shadowed (s : Cache) (key : Text) (b a : ℕ) (xs zs ws : List ℕ) : Type 0 where
  pub list : IsList s (xs ++ b ∷ (zs ++ a ∷ ws))
  pub counted : s.count ≡ length (xs ++ b ∷ (zs ++ a ∷ ws))
  pub bucket : s.nodes (hash key) ≡ some b
  pub has_key : text_eq (s.key a) key ≡ true
  pub before : NoKey s.key key (b ∷ zs)
  pub behind : NoKey s.key key ws

-- What the lookups of the key find.
module _ (s : Cache) (key : Text) (b a : ℕ) (xs zs ws : List ℕ)
    (v : Shadowed s key b a xs zs ws) where
  all_nodes : xs ++ b ∷ (zs ++ a ∷ ws) ≡ (xs ++ b ∷ zs) ++ a ∷ ws
  all_nodes = sym (append_assoc xs (b ∷ zs) (a ∷ ws))

  rest_nodes : (xs ++ b ∷ zs) ++ ws ≡ xs ++ b ∷ (zs ++ ws)
  rest_nodes = append_assoc xs (b ∷ zs) ws

  found : find_node key s ≡ some (some a)
  found =
      let e = find_node-first key s (xs ++ b ∷ (zs ++ a ∷ ws)) v.list v.counted (
        subst (λ o. InList o (xs ++ b ∷ (zs ++ a ∷ ws))) (sym v.bucket)
          (Has-middle b xs (zs ++ a ∷ ws))) in
      let f =
        from_node-append b xs (zs ++ a ∷ ws) (front-Without b xs (zs ++ a ∷ ws) v.list.distinct) in
      e ∙ (rw (v.bucket, f, first-append s.key key (b ∷ zs) a ws v.before v.has_key) refl)

  moved :
      (s' : Cache) × (movetofront a s ≡ some s')
      × IsList s' (a ∷ (xs ++ b ∷ (zs ++ ws)))
      × SameNodes s s'
  moved =
      let (s', e, w, same) =
        movetofront-IsList a (xs ++ b ∷ zs) ws s (subst (IsList s) all_nodes v.list) in
      (s', e, subst (λ l. IsList s' (a ∷ l)) rest_nodes w, same)

  same_length : length (xs ++ b ∷ (zs ++ a ∷ ws)) ≡ length (a ∷ (xs ++ b ∷ (zs ++ ws)))
  same_length =
      let e = length-append xs (b ∷ (zs ++ a ∷ ws)) in
      let f = length-append zs (a ∷ ws) in
      let g = length-append xs (b ∷ (zs ++ ws)) in
      let h = length-append zs ws in omega (arith, e, f, g, h)

  lost :
      (s' : Cache)
      → IsList s' (a ∷ (xs ++ b ∷ (zs ++ ws)))
      → SameNodes s s'
      → find_node key s' ≡ some none
  lost s' w same =
      let bucket : s'.nodes (hash key) ≡ some b = ap (λ f. f (hash key)) same.nodes ∙ v.bucket in
      let l = a ∷ (xs ++ b ∷ (zs ++ ws)) in
      let e =
        find_node-first key s' l w (same.count ∙ (v.counted ∙ same_length))
          (subst (λ o. InList o l) (sym bucket) (Has-middle b (a ∷ xs) (zs ++ ws))) in
      let f =
        from_node-append b (a ∷ xs) (zs ++ ws) (front-Without b (a ∷ xs) (zs ++ ws) w.distinct) in
      let none_left : NoKey s'.key key (b ∷ (zs ++ ws)) =
        subst (λ k. NoKey k key (b ∷ (zs ++ ws))) (sym same.key)
          (append-All (λ c. text_eq (s.key c) key ≡ false) (b ∷ zs) ws v.before v.behind) in
      e ∙ (rw (bucket, f, first-NoKey s'.key key (b ∷ (zs ++ ws)) none_left) refl)

-- Where the node of a key stands behind the node of its bucket, a lookup hits and moves it to the front,
-- and the next lookup of the same key misses, although its node is in the cache.
pub cache_get_twice :
    (s : Cache) (key : Text) (b a : ℕ) (xs zs ws : List ℕ)
    → Shadowed s key b a xs zs ws
    → (s' : Cache) × (cache_get key s ≡ some (s.buffers a, s'))
      × IsList s' (a ∷ (xs ++ b ∷ (zs ++ ws)))
      × (cache_get key s' ≡ some (none, s'))
unfolding cache_get
cache_get_twice s key b a xs zs ws v =
    let (s', e, w, same) = moved s key b a xs zs ws v in
    (
      s',
      rw (cache_get, found s key b a xs zs ws v, e, same.buffers) refl,
      w,
      rw (cache_get, lost s key b a xs zs ws v s' w same) refl,
    )
