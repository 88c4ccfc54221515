-- ===== src/Wal/Scan.antt =====
-- The reading loop of `recover_from_wal` in WAL-demo.c: `fgets`, `sscanf` as the C standard describes it,
-- and the three tests on a line. A line may overflow `current_key` and `current_value`, of 256 bytes
-- each; the model keeps the whole words. `transaction_committed` is never read and is left out.
use genspark_training.Base.{
  ℕ, ◌-◌, Bool, true, false, ◌&&◌, ◌||◌, Option, none, some, List, [], ◌∷◌, ◌++◌, Text, bytes, ℤ,
  pos, negsuc, leb, ◌==◌, if◌then◌else◌,
}
use genspark_training.KvStore.Scan.{skip_space, run_of, scan_word, c_string}

-- `MAX_LINE_LEN - 1`
abbrev pub line_len : ℕ
line_len = 511

-- The byte goes in front of the first line.
abbrev pub put_front : ℕ → List Text → List Text
put_front b [] = (b ∷ []) ∷ []
put_front b (l ∷ ls) = (b ∷ l) ∷ ls

-- What the calls of `fgets` return, with `room` bytes left for the first: a line ends behind a newline,
-- or where the buffer is full.
unfoldable pub fgets_lines : ℕ → Text → List Text
fgets_lines room [] = []
fgets_lines room (b ∷ s) =
    let ends = (b == 10) || leb room 1 in
    let rest = fgets_lines (if ends then line_len else room - 1) s in
    if ends then (b ∷ []) ∷ rest else put_front b rest

-- A directive matches and leaves the rest of the input, does not match, or the input ends.
pub data Matched : Type 0 where
  matched : Text → Matched
  mismatch input_end : Matched

unfoldable pub match_literal : Text → Text → Matched
match_literal [] s = Matched.matched s
match_literal (c ∷ cs) [] = Matched.input_end
match_literal (c ∷ cs) (b ∷ s) = if c == b then match_literal cs s else Matched.mismatch

abbrev pub is_digit : ℕ → Bool
is_digit b = leb 48 b && leb b 57

-- The digits behind a sign.
abbrev pub match_digits : Text × Text → Matched
match_digits ([], rest) = Matched.mismatch
match_digits (b ∷ r, rest) = Matched.matched rest

abbrev pub match_sign : Text → Matched
match_sign [] = Matched.input_end
match_sign (b ∷ s) =
    if (b == 43) || (b == 45)
    then match_digits (run_of is_digit s)
    else match_digits (run_of is_digit (b ∷ s))

-- `%*d`
unfoldable pub match_int : Text → Matched
unfolding skip_space run_of
match_int s = match_sign (skip_space s)

-- The result behind the one conversion, which assigns nothing: 0 however the word is met.
abbrev pub assigned : Matched → ℤ
assigned (Matched.matched s) = pos 0
assigned Matched.mismatch = pos 0
assigned Matched.input_end = pos 0

-- The result of the conversion and what follows it; EOF where the input ends before it.
abbrev pub convert_int : Text → Matched → ℤ
convert_int word (Matched.matched s) = assigned (match_literal word (skip_space s))
convert_int word Matched.mismatch = pos 0
convert_int word Matched.input_end = negsuc 0

abbrev pub after_word : Text → Matched → ℤ
after_word word (Matched.matched s) = convert_int word (match_int s)
after_word word Matched.mismatch = pos 0
after_word word Matched.input_end = negsuc 0

-- `sscanf(line, "TRANSACTION %*d ...")` with the word in place of the dots.
unfoldable pub scan_transaction : Text → Text → ℤ
unfolding match_literal match_int skip_space
scan_transaction word line = after_word word (match_literal (bytes "TRANSACTION") (c_string line))

abbrev pub is_zero : ℤ → Bool
is_zero (pos n) = n == 0
is_zero (negsuc n) = false

-- `current_key` and `current_value`
pub record Arrays : Type 0 where
  pub current_key : Text
  pub current_value : Text

-- The second `%s`, and the first.
abbrev pub scan_value : Option (Text × Text) → Arrays → Bool × Arrays
scan_value none a = (false, a)
scan_value (some (word, rest)) a = (true, record a { current_value = word })

abbrev pub scan_key : Option (Text × Text) → Arrays → Bool × Arrays
scan_key none a = (false, a)
scan_key (some (word, rest)) a =
    scan_value (scan_word (skip_space rest)) (record a { current_key = word })

abbrev pub scan_words : Matched → Arrays → Bool × Arrays
scan_words (Matched.matched s) a = scan_key (scan_word (skip_space s)) a
scan_words Matched.mismatch a = (false, a)
scan_words Matched.input_end a = (false, a)

-- `sscanf(line, "SET %s %s", current_key, current_value) == 2`, and what it stores.
unfoldable pub scan_pair : Text → Arrays → Bool × Arrays
unfolding match_literal
scan_pair line a = scan_words (match_literal (bytes "SET") (c_string line)) a

-- The locals of `recover_from_wal`, and what it has written to db.txt.
pub record Recovery : Type 0 where
  pub in_transaction : Bool
  pub arrays : Arrays
  pub db : Text

-- The body of the third test.
unfoldable pub replay : Recovery → Recovery
replay r =
    if r.in_transaction
    then record r {
      in_transaction = false;
      db = r.db ++ (r.arrays.current_key ++ (32 ∷ (r.arrays.current_value ++ 10 ∷ [])));
    }
    else r

-- The second and the third test.
unfoldable pub other_line : Text → Recovery → Recovery
unfolding scan_pair scan_transaction replay
other_line line r =
    let (two, arrays) = scan_pair line r.arrays in
    let r' = record r { arrays = arrays } in
    if two then r' else if is_zero (scan_transaction (bytes "COMMIT") line) then replay r' else r'

-- The body of the loop.
unfoldable pub recover_line : Text → Recovery → Recovery
unfolding other_line scan_transaction
recover_line line r =
    if is_zero (scan_transaction (bytes "BEGIN") line)
    then record r { in_transaction = true }
    else other_line line r

unfoldable pub recover_lines : List Text → Recovery → Recovery
unfolding recover_line
recover_lines [] r = r
recover_lines (line ∷ lines) r = recover_lines lines (recover_line line r)
