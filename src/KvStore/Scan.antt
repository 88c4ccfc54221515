-- ===== src/KvStore/Scan.antt =====
-- The two `sscanf` calls of the key-value servers: `"SET %s %[^\n]"` and `"GET %s"`. The C library's
-- directives are written out as they are used: a literal byte matches itself, a blank skips white space,
-- `%s` skips white space and takes the longest run of other bytes, `%[^\n]` takes the longest run of
-- bytes other than a newline, and a run must not be empty.
pub mod Laws
use genspark_training.Base.{
  ◌>>=◌, ℕ, Option, none, some, Bool, true, false, not, ◌&&◌, ◌||◌, List, [], ◌∷◌, Text, bytes, leb,
  ◌==◌, if◌then◌else◌,
}

-- `isspace`
abbrev pub is_space : ℕ → Bool
is_space b = (b == 32) || (leb 9 b && leb b 13)

unfoldable pub skip_space : Text → Text
skip_space [] = []
skip_space (b ∷ s) = let rest = skip_space s in if is_space b then rest else b ∷ s

-- The longest run of bytes that pass the test, and what follows it.
unfoldable pub run_of : (ℕ → Bool) → Text → Text × Text
run_of test [] = ([], [])
run_of test (b ∷ s) = let (r, rest) = run_of test s in if test b then (b ∷ r, rest) else ([], b ∷ s)

-- A buffer as a string: what stands in front of the first zero byte.
unfoldable pub c_string : Text → Text
unfolding run_of
c_string buf = (run_of (λ b. not (b == 0)) buf).0

unfoldable pub literal : Text → Text → Option Text
literal [] s = some s
literal (c ∷ cs) [] = none
literal (c ∷ cs) (b ∷ s) = if c == b then literal cs s else none

abbrev pub not_space : ℕ → Bool
not_space b = not (is_space b)

abbrev pub not_newline : ℕ → Bool
not_newline b = not (b == 10)

-- A run that is empty is a failure.
abbrev pub nonempty : Text × Text → Option (Text × Text)
nonempty ([], rest) = none
nonempty (b ∷ r, rest) = some (b ∷ r, rest)

-- `%s`
unfoldable pub scan_word : Text → Option (Text × Text)
unfolding skip_space run_of
scan_word s = nonempty (run_of not_space (skip_space s))

-- `%[^\n]`
unfoldable pub scan_line : Text → Option (Text × Text)
unfolding run_of
scan_line s = nonempty (run_of not_newline s)

-- `sscanf(buf, "SET %s %[^\n]", key, value) == 2`
unfoldable pub scan_set : Text → Option (Text × Text)
unfolding literal scan_word scan_line
scan_set s = do
  rest ← literal (bytes "SET") s
  (key, rest) ← scan_word (skip_space rest)
  (value, rest) ← scan_line (skip_space rest)
  some (key, value)

-- `sscanf(buf, "GET %s", key) == 1`
unfoldable pub scan_get : Text → Option Text
unfolding literal scan_word
scan_get s = do rest ← literal (bytes "GET") s; (key, rest) ← scan_word (skip_space rest); some key
