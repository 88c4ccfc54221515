-- ===== src/Evaluator.antt =====
-- The expression trees of expression_evaluator.c: createNode, inorder and evaluate. `none` is behaviour that
-- C does not define: a text that does not fit, an `int` out of its range, a division by 0.
pub mod Decimal
pub mod Meaning
mod Tests
use genspark_training.Base.{
  ℕ, zero, suc, ◌+◌, ◌-◌, ◌*◌, ◌/◌, ◌^◌, Bool, true, false, not, ◌&&◌, ◌||◌, Option, none, some,
  List, [], ◌∷◌, ◌++◌, Text, bytes, text_eq, length, ℤ, pos, negsuc, int_neg, int_add, int_by_size,
  int_lt, int_eq, ltb, leb, ◌==◌, if◌then◌else◌, ◌>>=◌,
}

-- A pointer to a node, or NULL.
pub data Tree : Type 0 where
  null : Tree
  node : Text → Tree → Tree → Tree

-- The size of the array for the text of a node.
abbrev pub data_size : ℕ
data_size = 10

-- `createNode`, with its children assigned.
unfoldable pub create_node : Text → Tree → Tree → Option Tree
create_node data_text left right =
    if ltb (length data_text) data_size then some (Tree.node data_text left right) else none

abbrev pub is_digit : ℕ → Bool
is_digit b = leb 48 b && leb b 57

-- `isdigit(root->data[0])`
unfoldable pub starts_with_digit : Text → Bool
starts_with_digit [] = false
starts_with_digit (b ∷ text) = is_digit b

-- `atoi` from a digit on.
unfoldable pub atoi_from : ℕ → Text → ℕ
atoi_from n [] = n
atoi_from n (b ∷ text) =
    let rest = atoi_from (n * 10 + (b - 48)) text in if is_digit b then rest else n

abbrev pub int_limit : ℕ
int_limit = 2 ^ 31

-- An `int` that is in its range.
unfoldable pub in_range : ℤ → Option ℤ
in_range (pos n) = if ltb n int_limit then some (pos n) else none
in_range (negsuc n) = if ltb n int_limit then some (negsuc n) else none

abbrev pub int_of : Bool → ℤ
int_of b = pos (if b then 1 else 0)

abbrev pub is_true : ℤ → Bool
is_true x = not (int_eq x (pos 0))

unfoldable pub divide : ℤ → ℤ → Option ℤ
divide x y = if int_eq y (pos 0) then none else in_range (int_by_size (λ a b. a / b) x y)

-- The tests of the text of a node.
unfoldable pub operate : Text → ℤ → ℤ → Option ℤ
operate data_text left right =
    if text_eq data_text (bytes "+")
    then in_range (int_add left right)
    else if text_eq data_text (bytes "-")
    then in_range (int_add left (int_neg right))
    else if text_eq data_text (bytes "*")
    then in_range (int_by_size (λ a b. a * b) left right)
    else if text_eq data_text (bytes "/")
    then divide left right
    else if text_eq data_text (bytes ">")
    then some (int_of (int_lt right left))
    else if text_eq data_text (bytes "<")
    then some (int_of (int_lt left right))
    else if text_eq data_text (bytes "=")
    then some (int_of (int_eq left right))
    else if text_eq data_text (bytes "&")
    then some (int_of (is_true left && is_true right))
    else if text_eq data_text (bytes "|")
    then some (int_of (is_true left || is_true right))
    else some (pos 0)

unfoldable pub evaluate : Tree → Option ℤ
evaluate Tree.null = some (pos 0)
evaluate (Tree.node data_text left right) =
    let l = evaluate left in
    let r = evaluate right in
    if starts_with_digit data_text
    then in_range (pos (atoi_from 0 data_text))
    else (do x ← l; y ← r; operate data_text x y)

abbrev pub is_null : Tree → Bool
is_null Tree.null = true
is_null (Tree.node data_text left right) = false

-- What `inorder` prints.
unfoldable pub inorder : Tree → Text
inorder Tree.null = []
inorder (Tree.node data_text left right) =
    (if is_null left then [] else bytes "(")
    ++ (inorder left
        ++ (bytes " "
            ++ (data_text
                ++ (bytes " " ++ (inorder right ++ (if is_null right then [] else bytes ")"))))))
