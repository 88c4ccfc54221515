-- ===== src/Evaluator/Tests.antt =====
-- The expression of `main` in expression_evaluator.c.
use genspark_training.Base.{◌≡◌, refl, Option, none, some, bytes, text_eq, pos, arith, ◌>>=◌}
use genspark_training.Evaluator.{
  Tree, create_node, starts_with_digit, atoi_from, in_range, divide, operate, evaluate, inorder,
}
use genspark_training.Evaluator.Meaning.{
  Sort, Op, Expr, meaning, code, build, IsSmall, evaluate-meaning,
}

-- (10 + 5) > 12 & (8 < 15)
abbrev example : Expr Sort.truth
example =
    Expr.op Op.both (Expr.op Op.greater (Expr.op Op.plus (Expr.lit 10) (Expr.lit 5)) (Expr.lit 12))
      (Expr.op Op.less (Expr.lit 8) (Expr.lit 15))

abbrev tree_of : Option Tree → Tree
tree_of none = Tree.null
tree_of (some t) = t

abbrev tree : Tree
unfolding create_node
tree = tree_of (build example)

example-IsSmall : IsSmall example
example-IsSmall = (((omega arith, omega arith), omega arith), (omega arith, omega arith))

tree_lem :
    (evaluate tree ≡ some (pos 1)) × (inorder tree ≡ bytes "((( 10  +  5 ) >  12 ) & ( 8  <  15 ))")
unfolding tree evaluate starts_with_digit atoi_from in_range divide operate text_eq inorder
tree_lem = (refl, refl)

-- 1 / 0
by_zero : evaluate (tree_of (build (Expr.op Op.over (Expr.lit 1) (Expr.lit 0)))) ≡ none
unfolding create_node evaluate starts_with_digit atoi_from in_range divide operate text_eq
by_zero = refl

evaluate-meaning_example :
    (t : Tree) × (build example ≡ some t)
    × (evaluate t ≡ (meaning example >>= (λ z. some (code Sort.truth z))))
evaluate-meaning_example = evaluate-meaning example example-IsSmall
