-- ===== src/Evaluator/Meaning.antt =====
-- What an expression means, and that evaluate of expression_evaluator.c computes it on the tree of the
-- expression.
use genspark_training.Base.{
  ℕ, ◌*◌, ◌<◌, ◌≡◌, refl, Bool, true, false, ◌&&◌, ◌||◌, Option, none, some, Text, bytes, text_eq,
  length, ℤ, pos, int_neg, int_add, int_by_size, int_lt, int_eq, ltb, arith, ◌>>=◌,
}
use genspark_training.Evaluator.{
  Tree, data_size, create_node, starts_with_digit, int_limit, in_range, int_of, is_true, divide,
  operate, evaluate,
}
use genspark_training.Evaluator.Decimal.{digits, atoi_from-digits, digits-starts, length-digits-le}

-- Numbers, and the results of comparisons.
pub data Sort : Type 0 where
  number truth : Sort

-- The operators, with the sorts of their arguments and of their result.
pub data Op : Sort → Sort → Type 0 where
  plus minus times over : Op Sort.number Sort.number
  greater less equal : Op Sort.number Sort.truth
  both either : Op Sort.truth Sort.truth

pub data Expr : Sort → Type 0 where
  lit : ℕ → Expr Sort.number
  op : {a b : Sort} → Op a b → Expr a → Expr a → Expr b

abbrev pub Value : Sort → Type 0
Value Sort.number = ℤ
Value Sort.truth = Bool

abbrev pub apply : {a b : Sort} → Op a b → Value a → Value a → Option (Value b)
apply Op.plus x y = in_range (int_add x y)
apply Op.minus x y = in_range (int_add x (int_neg y))
apply Op.times x y = in_range (int_by_size (λ a b. a * b) x y)
apply Op.over x y = divide x y
apply Op.greater x y = some (int_lt y x)
apply Op.less x y = some (int_lt x y)
apply Op.equal x y = some (int_eq x y)
apply Op.both x y = some (x && y)
apply Op.either x y = some (x || y)

abbrev pub meaning : {s : Sort} → Expr s → Option (Value s)
meaning (Expr.lit n) = some (pos n)
meaning (Expr.op o l r) = do x ← meaning l; y ← meaning r; apply o x y

-- The `int` of a value.
abbrev pub code : (s : Sort) → Value s → ℤ
code Sort.number x = x
code Sort.truth x = int_of x

abbrev pub text_of : {a b : Sort} → Op a b → Text
text_of Op.plus = bytes "+"
text_of Op.minus = bytes "-"
text_of Op.times = bytes "*"
text_of Op.over = bytes "/"
text_of Op.greater = bytes ">"
text_of Op.less = bytes "<"
text_of Op.equal = bytes "="
text_of Op.both = bytes "&"
text_of Op.either = bytes "|"

-- The tree that calls of `createNode` build.
abbrev pub build : {s : Sort} → Expr s → Option Tree
build (Expr.lit n) = create_node (digits 8 n) Tree.null Tree.null
build (Expr.op o l r) = do t ← build l; u ← build r; create_node (text_of o) t u

-- Literals of at most nine digits.
abbrev pub IsSmall : {s : Sort} → Expr s → Type 0
IsSmall (Expr.lit n) = n < 1000000000
IsSmall (Expr.op o l r) = IsSmall l × IsSmall r

is_true-int_of : (x : Bool) → is_true (int_of x) ≡ x
is_true-int_of true = refl
is_true-int_of false = refl

bind_some : (o : Option ℤ) → o ≡ (o >>= (λ z. some z))
bind_some none = refl
bind_some (some z) = refl

operate-apply :
    {a b : Sort} (o : Op a b) (x y : Value a)
    → operate (text_of o) (code a x) (code a y) ≡ (apply o x y >>= (λ z. some (code b z)))
unfolding operate text_eq
operate-apply Op.plus x y = bind_some (in_range (int_add x y))
operate-apply Op.minus x y = bind_some (in_range (int_add x (int_neg y)))
operate-apply Op.times x y = bind_some (in_range (int_by_size (λ a b. a * b) x y))
operate-apply Op.over x y = bind_some (divide x y)
operate-apply Op.greater x y = refl
operate-apply Op.less x y = refl
operate-apply Op.equal x y = refl
operate-apply Op.both x y = rw (is_true-int_of x, is_true-int_of y) refl
operate-apply Op.either x y = rw (is_true-int_of x, is_true-int_of y) refl

-- The text of an operator fits and is no number.
text_of-fits :
    {a b : Sort} (o : Op a b) (t u : Tree)
    → (create_node (text_of o) t u ≡ some (Tree.node (text_of o) t u))
      × (starts_with_digit (text_of o) ≡ false)
unfolding create_node starts_with_digit
text_of-fits Op.plus t u = (refl, refl)
text_of-fits Op.minus t u = (refl, refl)
text_of-fits Op.times t u = (refl, refl)
text_of-fits Op.over t u = (refl, refl)
text_of-fits Op.greater t u = (refl, refl)
text_of-fits Op.less t u = (refl, refl)
text_of-fits Op.equal t u = (refl, refl)
text_of-fits Op.both t u = (refl, refl)
text_of-fits Op.either t u = (refl, refl)

digits-fits :
    (n : ℕ)
    → create_node (digits 8 n) Tree.null Tree.null
      ≡ some (Tree.node (digits 8 n) Tree.null Tree.null)
unfolding create_node
digits-fits n =
    let h = length-digits-le 8 n in
    let fits : ltb (length (digits 8 n)) data_size ≡ true = ground (arith, h) in
    rw (create_node, fits) refl

in_range-lit : (n : ℕ) → n < 1000000000 → in_range (pos n) ≡ some (pos n)
unfolding in_range
in_range-lit n h = let small : ltb n int_limit ≡ true = ground (arith, h) in rw small refl

evaluate-lit :
    (n : ℕ) → n < 1000000000 → evaluate (Tree.node (digits 8 n) Tree.null Tree.null) ≡ some (pos n)
unfolding evaluate
evaluate-lit n h = rw (evaluate, digits-starts 8 n h, atoi_from-digits 8 n h) (in_range-lit n h)

evaluate-op :
    {a b : Sort} (o : Op a b) (t u : Tree) (x y : Option (Value a))
    → evaluate t ≡ (x >>= (λ z. some (code a z)))
    → evaluate u ≡ (y >>= (λ z. some (code a z)))
    → evaluate (Tree.node (text_of o) t u)
      ≡ ((x >>= (λ v. y >>= (λ w. apply o v w))) >>= (λ z. some (code b z)))
unfolding evaluate
evaluate-op o t u none y e f = rw (evaluate, (text_of-fits o t u).1, e) refl
evaluate-op o t u (some v) none e f = rw (evaluate, (text_of-fits o t u).1, e, f) refl
evaluate-op o t u (some v) (some w) e f =
    rw (evaluate, (text_of-fits o t u).1, e, f) (operate-apply o v w)

-- The tree of an expression with literals of at most nine digits is built without a text that does not fit,
-- and `evaluate` gives the `int` of what the expression means; where its meaning is not defined, by a division
-- by 0 or a number out of the range of `int`, neither is the result of `evaluate`.
pub evaluate-meaning :
    {s : Sort} (e : Expr s)
    → IsSmall e
    → (t : Tree) × (build e ≡ some t) × (evaluate t ≡ (meaning e >>= (λ z. some (code s z))))
evaluate-meaning (Expr.lit n) h =
    (Tree.node (digits 8 n) Tree.null Tree.null, digits-fits n, evaluate-lit n h)
evaluate-meaning (Expr.op o l r) h =
    let (t, a, e) = evaluate-meaning l h.0 in
    let (u, b, f) = evaluate-meaning r h.1 in
    (
      Tree.node (text_of o) t u,
      rw (a, b) (text_of-fits o t u).0,
      evaluate-op o t u (meaning l) (meaning r) e f,
    )
