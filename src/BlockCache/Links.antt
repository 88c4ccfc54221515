-- ===== src/BlockCache/Links.antt =====
-- Doubly linked lists of addresses, with the fields `next` and `prev` as families: what the writes of the
-- block cache in filesystem.c do to them.
use genspark_training.Base.{
  Without, IsDistinct, Has, All-Has, Has-append, IsDistinct-append, ℕ, ◌≡◌, refl, sym, ◌∙◌, ◌≢◌,
  inl, inr, true, false, Option, none, some, List, [], ◌∷◌, ◌++◌, All, update, ◌==◌, arith,
}

abbrev pub head_of : List ℕ → Option ℕ
head_of [] = none
head_of (a ∷ l) = some a

-- The last element; `before` where there is none.
abbrev pub last_of : Option ℕ → List ℕ → Option ℕ
last_of before [] = before
last_of before (a ∷ l) = last_of (some a) l

-- The links go from each address to the one behind it, and from the last to NULL.
abbrev pub Nexts : (ℕ → Option ℕ) → List ℕ → Type 0
Nexts next [] = Unit
Nexts next (a ∷ l) = (next a ≡ head_of l) × Nexts next l

-- The links go from each address to the one in front of it, and from the first to `before`.
abbrev pub Backs : (ℕ → Option ℕ) → Option ℕ → List ℕ → Type 0
Backs prev before [] = Unit
Backs prev before (a ∷ l) = (prev a ≡ before) × Backs prev (some a) l

pub update-ne : {A : Type 0} (f : ℕ → A) (a b : ℕ) (x : A) → b ≢ a → update f a x b ≡ f b
update-ne f a b x h = let other : (a == b) ≡ false = ground (arith, h) in rw other refl

pub update_self : {A : Type 0} (f : ℕ → A) (a : ℕ) (x : A) → update f a x a ≡ x
update_self f a x = let self : (a == a) ≡ true = ground arith in rw self refl

pub update-Nexts :
    (next : ℕ → Option ℕ) (a : ℕ) (x : Option ℕ) (l : List ℕ)
    → Without a l
    → Nexts next l
    → Nexts (update next a x) l
update-Nexts next a x [] h n = tt
update-Nexts next a x (b ∷ l) h n =
    (update-ne next a b x h.0 ∙ n.0, update-Nexts next a x l h.1 n.1)

pub update-Backs :
    (prev : ℕ → Option ℕ) (a : ℕ) (x before : Option ℕ) (l : List ℕ)
    → Without a l
    → Backs prev before l
    → Backs (update prev a x) before l
update-Backs prev a x before [] h n = tt
update-Backs prev a x before (b ∷ l) h n =
    (update-ne prev a b x h.0 ∙ n.0, update-Backs prev a x (some b) l h.1 n.1)

abbrev pub last : ℕ → List ℕ → ℕ
last x [] = x
last x (y ∷ l) = last y l

pub last_of-last : (x : ℕ) (l : List ℕ) → last_of (some x) l ≡ some (last x l)
last_of-last x [] = refl
last_of-last x (y ∷ l) = last_of-last y l

pub last-append :
    (before : Option ℕ) (xs : List ℕ) (a : ℕ) (ys : List ℕ)
    → last_of before (xs ++ a ∷ ys) ≡ last_of (some a) ys
last-append before [] a ys = refl
last-append before (x ∷ xs) a ys = last-append (some x) xs a ys

pub Has-last : (x : ℕ) (l : List ℕ) → Has (last x l) (x ∷ l)
Has-last x [] = inl refl
Has-last x (y ∷ l) = inr (Has-last y l)

pub last-ne : (x y : ℕ) (xs ys : List ℕ) → Without x (y ∷ xs ++ ys) → last y xs ≢ x
last-ne x y xs ys h =
    All-Has (λ b. b ≢ x) (last y xs) (y ∷ xs ++ ys) h
      (Has-append (last y xs) (y ∷ xs) ys (Has-last y xs))

-- `p->next = a->next` for the node `p` in front of `a`.
pub unlink-Nexts :
    (next : ℕ → Option ℕ) (x a : ℕ) (xs ys : List ℕ)
    → IsDistinct (x ∷ xs ++ a ∷ ys)
    → Nexts next (x ∷ xs ++ a ∷ ys)
    → (next a ≡ head_of ys) × Nexts (update next (last x xs) (head_of ys)) (x ∷ xs ++ ys)
unlink-Nexts next x a [] ys d n =
    (n.1.0, (update_self next x (head_of ys), update-Nexts next x (head_of ys) ys d.0.1 n.1.1))
unlink-Nexts next x a (y ∷ xs) ys d n =
    let (e, m) = unlink-Nexts next y a xs ys d.1 n.1 in
    (
      e,
      (
        update-ne next (last y xs) x (head_of ys) (λ q. last-ne x y xs (a ∷ ys) d.0 (sym q)) ∙ n.0,
        m,
      ),
    )

pub Backs-append :
    (prev : ℕ → Option ℕ) (before : Option ℕ) (xs ys : List ℕ)
    → Backs prev before (xs ++ ys)
    → Backs prev before xs × Backs prev (last_of before xs) ys
Backs-append prev before [] ys h = (tt, h)
Backs-append prev before (x ∷ xs) ys h =
    let (p, q) = Backs-append prev (some x) xs ys h.1 in ((h.0, p), q)

pub append-Backs :
    (prev : ℕ → Option ℕ) (before : Option ℕ) (xs ys : List ℕ)
    → Backs prev before xs
    → Backs prev (last_of before xs) ys
    → Backs prev before (xs ++ ys)
append-Backs prev before [] ys h k = k
append-Backs prev before (x ∷ xs) ys h k = (h.0, append-Backs prev (some x) xs ys h.1 k)

-- `if (q) q->prev = v;` for the first address `q`.
abbrev pub relink : (ℕ → Option ℕ) → Option ℕ → List ℕ → ℕ → Option ℕ
relink prev v [] = prev
relink prev v (y ∷ ys) = update prev y v

pub relink-Backs :
    (prev : ℕ → Option ℕ) (before v : Option ℕ) (ys : List ℕ)
    → IsDistinct ys
    → Backs prev before ys
    → Backs (relink prev v ys) v ys
relink-Backs prev before v [] d h = tt
relink-Backs prev before v (y ∷ ys) d h =
    (update_self prev y v, update-Backs prev y v (some y) ys d.0 h.1)

relink-other :
    (prev : ℕ → Option ℕ) (v before : Option ℕ) (xs ys : List ℕ)
    → All (λ y. Without y xs) ys
    → Backs prev before xs
    → Backs (relink prev v ys) before xs
relink-other prev v before xs [] h b = b
relink-other prev v before xs (y ∷ ys) h b = update-Backs prev y v before xs h.0 b

-- `q->prev = p` for the node `q` behind `a` and the node `p` in front of it.
pub unlink-Backs :
    (prev : ℕ → Option ℕ) (x a : ℕ) (xs ys : List ℕ)
    → IsDistinct (x ∷ xs ++ a ∷ ys)
    → Backs prev none (x ∷ xs ++ a ∷ ys)
    → (prev a ≡ some (last x xs)) × Backs (relink prev (some (last x xs)) ys) none (x ∷ xs ++ ys)
unlink-Backs prev x a xs ys d h =
    let (p, q) = Backs-append prev none (x ∷ xs) (a ∷ ys) h in
    let e = last_of-last x xs in
    let (dx, dy, apart) = IsDistinct-append (x ∷ xs) (a ∷ ys) d in
    (
      q.0 ∙ e,
      append-Backs (relink prev (some (last x xs)) ys) none (x ∷ xs) ys
          (relink-other prev (some (last x xs)) none (x ∷ xs) ys apart.1 p)
          (rw e (relink-Backs prev (some a) (some (last x xs)) ys dy.1 q.1)),
    )

-- `addtofront`
pub attach-Nexts :
    (next : ℕ → Option ℕ) (a : ℕ) (l : List ℕ)
    → Without a l
    → Nexts next l
    → Nexts (update next a (head_of l)) (a ∷ l)
attach-Nexts next a l h n = (update_self next a (head_of l), update-Nexts next a (head_of l) l h n)

relink-ne :
    (prev : ℕ → Option ℕ) (v : Option ℕ) (a : ℕ) (l : List ℕ)
    → Without a l
    → relink prev v l a ≡ prev a
relink-ne prev v a [] h = refl
relink-ne prev v a (b ∷ l) h = update-ne prev b a v (λ e. h.0 (sym e))

pub attach-Backs :
    (prev : ℕ → Option ℕ) (a : ℕ) (l : List ℕ)
    → IsDistinct l
    → Without a l
    → Backs prev none l
    → Backs (relink (update prev a none) (some a) l) none (a ∷ l)
attach-Backs prev a l d h b = (
  relink-ne (update prev a none) (some a) a l h ∙ update_self prev a none,
  relink-Backs (update prev a none) none (some a) l d (update-Backs prev a none none l h b),
)
