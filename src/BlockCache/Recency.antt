-- ===== src/BlockCache/Recency.antt =====
-- What the list operations of filesystem.c do to the list by recency.
use mathlib.Core.List.{append-nil}
use genspark_training.Base.{
  Without, All-append, append-All, All-Has, Has-append, remove-IsDistinct, ℕ, ◌≡◌, refl, ◌∙◌, ◌≢◌,
  true, false, none, some, List, [], ◌∷◌, ◌++◌, update, ◌==◌, arith,
}
use genspark_training.BlockCache.{
  Cache, is_at, is_null, set_next, detach, addtofront, movetofront, remove_tail,
}
use genspark_training.BlockCache.Links.{
  head_of, last_of, last, last_of-last, last-append, Has-last, relink, unlink-Nexts, unlink-Backs,
  attach-Nexts, attach-Backs,
}
use genspark_training.BlockCache.Lookup.{IsList}

-- The links without the node `a` between `x ∷ xs` and `ys`.
abbrev pub unlinked : ℕ → List ℕ → List ℕ → Cache → Cache
unlinked x xs ys s = record s {
  next = update s.next (last x xs) (head_of ys);
  prev = relink s.prev (some (last x xs)) ys;
  tail = last_of none (x ∷ xs ++ ys);
}

module _ (x a : ℕ) (xs : List ℕ) (s : Cache) where
  last_alive : (ys : List ℕ) → IsList s (x ∷ xs ++ ys) → s.live (last x xs) ≡ true
  last_alive ys v =
      All-Has (λ b. s.live b ≡ true) (last x xs) (x ∷ xs ++ ys) v.alive
        (Has-append (last x xs) (x ∷ xs) ys (Has-last x xs))

  middle_alive : (ys : List ℕ) → IsList s (x ∷ xs ++ a ∷ ys) → s.live a ≡ true
  middle_alive ys v = (All-append (λ b. s.live b ≡ true) (x ∷ xs) (a ∷ ys) v.alive).1.0

  last-ne-middle : (ys : List ℕ) → IsList s (x ∷ xs ++ a ∷ ys) → (last x xs == a) ≡ false
  last-ne-middle ys v =
      let apart = (remove-IsDistinct (x ∷ xs) a ys v.distinct).1 in
      let ne =
        All-Has (λ b. b ≢ a) (last x xs) (x ∷ xs ++ ys) apart
          (Has-append (last x xs) (x ∷ xs) ys (Has-last x xs)) in
      ground (arith, ne)

  end_lem : last_of (some x) (xs ++ []) ≡ some (last x xs)
  end_lem = rw (append-nil xs) (last_of-last x xs)

  detach_lem : (ys : List ℕ) → IsList s (x ∷ xs ++ a ∷ ys) → detach a s ≡ some (unlinked x xs ys s)
  unfolding detach
  detach_lem [] v =
      let n = (unlink-Nexts s.next x a xs [] v.distinct v.nexts).0 in
      let b = (unlink-Backs s.prev x a xs [] v.distinct v.backs).0 in
      let t : s.tail ≡ some a = v.at_tail ∙ last-append none (x ∷ xs) a [] in
      let self : (a == a) ≡ true = ground arith in
      rw (middle_alive [] v, b, last_alive (a ∷ []) v, n, last-ne-middle [] v, t, self, b, end_lem)
        refl
  detach_lem (y ∷ ys) v =
      let n = (unlink-Nexts s.next x a xs (y ∷ ys) v.distinct v.nexts).0 in
      let b = (unlink-Backs s.prev x a xs (y ∷ ys) v.distinct v.backs).0 in
      let t : s.tail ≡ some (last y ys) =
        v.at_tail ∙ (last-append none (x ∷ xs) a (y ∷ ys) ∙ last_of-last y ys) in
      let d =
        (All-append (λ c. c ≢ a) (x ∷ xs) (y ∷ ys)
          (remove-IsDistinct (x ∷ xs) a (y ∷ ys) v.distinct).1).1 in
      let off : (last y ys == a) ≡ false =
        (let ne = All-Has (λ c. c ≢ a) (last y ys) (y ∷ ys) d (Has-last y ys) in
          ground (arith, ne)) in
      let live_y = (All-append (λ c. s.live c ≡ true) (x ∷ xs) (a ∷ (y ∷ ys)) v.alive).1.1.0 in
      rw
        (
          middle_alive (y ∷ ys) v,
          b,
          last_alive (a ∷ (y ∷ ys)) v,
          n,
          last-ne-middle (y ∷ ys) v,
          live_y,
          b,
          t,
          off,
          last-append none (x ∷ xs) y ys,
          last_of-last y ys,
        )
        refl

  pub unlinked-IsList :
      (ys : List ℕ) → IsList s (x ∷ xs ++ a ∷ ys) → IsList (unlinked x xs ys s) (x ∷ xs ++ ys)
  unlinked-IsList ys v = record {
    nexts = (unlink-Nexts s.next x a xs ys v.distinct v.nexts).1;
    backs = (unlink-Backs s.prev x a xs ys v.distinct v.backs).1;
    distinct = (remove-IsDistinct (x ∷ xs) a ys v.distinct).0;
    alive =
        (let (p, q) = All-append (λ c. s.live c ≡ true) (x ∷ xs) (a ∷ ys) v.alive in
          append-All (λ c. s.live c ≡ true) (x ∷ xs) ys p q.1);
    at_head = v.at_head;
    at_tail = refl;
  }

  pub next_of_last : IsList s (x ∷ xs ++ a ∷ []) → (unlinked x xs [] s).next a ≡ none
  next_of_last v = rw (last-ne-middle [] v) (unlink-Nexts s.next x a xs [] v.distinct v.nexts).0

  pub tail_lem : IsList s (x ∷ xs ++ a ∷ []) → s.tail ≡ some a
  tail_lem v = v.at_tail ∙ last-append none (x ∷ xs) a []

  pub remove_tail_lem : IsList s (x ∷ xs ++ a ∷ []) → remove_tail a s ≡ some (unlinked x xs [] s)
  unfolding remove_tail set_next
  remove_tail_lem v =
      let b = (unlink-Backs s.prev x a xs [] v.distinct v.backs).0 in
      rw (middle_alive [] v, b, last_alive (a ∷ []) v, b, end_lem) refl

-- The links with the node `a` in front of `l`.
abbrev pub linked : ℕ → List ℕ → Cache → Cache
linked a l s = record s {
  prev = relink (update s.prev a none) (some a) l;
  next = update s.next a (head_of l);
  head = some a;
  tail = last_of (some a) l;
}

is_null-last_of : (b : ℕ) (l : List ℕ) → is_null (last_of (some b) l) ≡ false
is_null-last_of b l = rw (last_of-last b l) refl

addtofront_lem :
    (a : ℕ) (l : List ℕ) (s : Cache)
    → s.live a ≡ true
    → IsList s l
    → addtofront a s ≡ some (linked a l s)
unfolding addtofront
addtofront_lem a [] s la v = rw (la, la, v.at_head, v.at_tail) refl
addtofront_lem a (b ∷ l) s la v =
    rw (la, la, v.at_head, v.alive.0, v.at_tail, is_null-last_of b l) refl

linked-IsList :
    (a : ℕ) (l : List ℕ) (s : Cache)
    → s.live a ≡ true
    → Without a l
    → IsList s l
    → IsList (linked a l s) (a ∷ l)
linked-IsList a l s la h v = record {
  nexts = attach-Nexts s.next a l h v.nexts;
  backs = attach-Backs s.prev a l v.distinct h v.backs;
  distinct = (h, v.distinct);
  alive = (la, v.alive);
  at_head = refl;
  at_tail = refl;
}

-- Only the links and the ends of the list differ.
pub record SameNodes (s s' : Cache) : Type 0 where
  pub live : s'.live ≡ s.live
  pub key : s'.key ≡ s.key
  pub buffers : s'.buffers ≡ s.buffers
  pub nodes : s'.nodes ≡ s.nodes
  pub count : s'.count ≡ s.count
  pub pool : s'.pool ≡ s.pool
  pub fresh : s'.fresh ≡ s.fresh

abbrev same : (s : Cache) → SameNodes s s
same s = record {
  live = refl;
  key = refl;
  buffers = refl;
  nodes = refl;
  count = refl;
  pool = refl;
  fresh = refl;
}

pub addtofront-IsList :
    (a : ℕ) (l : List ℕ) (s : Cache)
    → s.live a ≡ true
    → Without a l
    → IsList s l
    → (s' : Cache) × (addtofront a s ≡ some s') × IsList s' (a ∷ l) × SameNodes s s'
addtofront-IsList a l s la h v = (
  linked a l s,
  addtofront_lem a l s la v,
  linked-IsList a l s la h v,
  record {
    live = refl;
    key = refl;
    buffers = refl;
    nodes = refl;
    count = refl;
    pool = refl;
    fresh = refl;
  },
)

-- `movetofront` of a node of the list, without a fault: the node is in front afterwards, and the others
-- keep their order.
pub movetofront-IsList :
    (a : ℕ) (xs ys : List ℕ) (s : Cache)
    → IsList s (xs ++ a ∷ ys)
    → (s' : Cache) × (movetofront a s ≡ some s') × IsList s' (a ∷ (xs ++ ys)) × SameNodes s s'
unfolding movetofront
movetofront-IsList a [] ys s v =
    let self : (a == a) ≡ true = ground arith in (s, rw (v.at_head, self) refl, v, same s)
movetofront-IsList a (x ∷ xs) ys s v =
    let other : (x == a) ≡ false =
      (let ne = (remove-IsDistinct (x ∷ xs) a ys v.distinct).1.0 in ground (arith, ne)) in
    let off : is_at s.head a ≡ false = rw (v.at_head) other in
    let u = unlinked x xs ys s in
    let w = unlinked-IsList x a xs s ys v in
    let la = middle_alive x a xs s ys v in
    let apart = (remove-IsDistinct (x ∷ xs) a ys v.distinct).1 in
    (
      linked a (x ∷ xs ++ ys) u,
      rw (off, detach_lem x a xs s ys v) (addtofront_lem a (x ∷ xs ++ ys) u la w),
      linked-IsList a (x ∷ xs ++ ys) u la apart w,
      record {
        live = refl;
        key = refl;
        buffers = refl;
        nodes = refl;
        count = refl;
        pool = refl;
        fresh = refl;
      },
    )
