-- ===== src/KvStore/Scan/Laws.antt =====
-- What the requests of the key-value servers scan to, and how long the parts can be.
use genspark_training.Base.{
  >>=-eq-some, ℕ, ◌+◌, ◌≤◌, ◌<◌, ◌≡◌, refl, some, Bool, true, false, [], ◌∷◌, ◌++◌, Text, bytes,
  length, arith, All,
}
use genspark_training.KvStore.Scan.{
  is_space, not_space, not_newline, skip_space, run_of, literal, nonempty, scan_word, scan_line,
  scan_set, scan_get,
}

length-skip_space-le : (s : Text) → length (skip_space s) ≤ length s
unfolding skip_space
length-skip_space-le [] = omega arith
length-skip_space-le (b ∷ s) = ground (arith, length-skip_space-le s)

pub length-run_of :
    (test : ℕ → Bool) (s : Text) → length (run_of test s).0 + length (run_of test s).1 ≡ length s
unfolding run_of
length-run_of test [] = refl
length-run_of test (b ∷ s) = ground (arith, length-run_of test s)

length-literal : (p s rest : Text) → literal p s ≡ some rest → length rest + length p ≡ length s
unfolding literal
length-literal [] s rest h = ground arith
length-literal (c ∷ cs) [] rest h = absurd (ground arith)
length-literal (c ∷ cs) (b ∷ s) rest h = ground (arith, length-literal cs s rest)

length-nonempty :
    (o : Text × Text) (a rest : Text)
    → nonempty o ≡ some (a, rest)
    → (0 < length a) × (length a + length rest ≡ length o.0 + length o.1)
length-nonempty ([], r) a rest h = absurd (ground arith)
length-nonempty (b ∷ x, r) a rest h = ground arith

length-scan_word :
    (s key rest : Text)
    → scan_word s ≡ some (key, rest)
    → (0 < length key) × (length key + length rest ≤ length s)
unfolding scan_word
length-scan_word s key rest h = ground (
  arith,
  length-nonempty (run_of not_space (skip_space s)) key rest h,
  length-run_of not_space (skip_space s),
  length-skip_space-le s,
)

length-scan_line :
    (s value rest : Text)
    → scan_line s ≡ some (value, rest)
    → (0 < length value) × (length value + length rest ≤ length s)
unfolding scan_line
length-scan_line s value rest h =
    ground (arith, length-nonempty (run_of not_newline s) value rest h, length-run_of not_newline s)

-- The scanned parts of a request are not empty and shorter than the request together, so a request of
-- at most 255 bytes overflows neither `key` nor `value`.
pub length-scan_set-scan_get :
    (s : Text)
    → ((key value : Text)
        → scan_set s ≡ some (key, value)
        → (0 < length key) × (0 < length value) × (length key + length value + 3 ≤ length s))
      × ((key : Text) → scan_get s ≡ some key → (0 < length key) × (length key + 3 ≤ length s))
unfolding scan_set scan_get
length-scan_set-scan_get s = (
  λ key value h.
      let (r, er, h) = >>=-eq-some (literal (bytes "SET") s) _ h in
      let (w, ew, h) = >>=-eq-some (scan_word (skip_space r)) _ h in
      let (l, el, h) = >>=-eq-some (scan_line (skip_space w.1)) _ h in
      ground (
        arith,
        length-literal (bytes "SET") s r er,
        length-skip_space-le r,
        length-scan_word (skip_space r) w.0 w.1 ew,
        length-skip_space-le w.1,
        length-scan_line (skip_space w.1) l.0 l.1 el,
      ),
  λ key h.
      let (r, er, h) = >>=-eq-some (literal (bytes "GET") s) _ h in
      let (w, ew, h) = >>=-eq-some (scan_word (skip_space r)) _ h in
      ground (
        arith,
        length-literal (bytes "GET") s r er,
        length-skip_space-le r,
        length-scan_word (skip_space r) w.0 w.1 ew,
      ),
)

-- The byte after a run ends it.
abbrev pub Ends : (ℕ → Bool) → Text → Type 0
Ends test [] = Unit
Ends test (b ∷ s) = test b ≡ false

run_of-append :
    (test : ℕ → Bool) (a rest : Text)
    → All (λ b. test b ≡ true) a
    → Ends test rest
    → run_of test (a ++ rest) ≡ (a, rest)
unfolding run_of
run_of-append test [] [] h e = refl
run_of-append test [] (b ∷ s) h e = ground arith
run_of-append test (b ∷ a) rest h e = ground (arith, run_of-append test a rest h.1 e)

-- A string that is not empty and begins with no white space.
abbrev pub Begins : Text → Type 0
Begins [] = ⊥
Begins (b ∷ s) = is_space b ≡ false

skip_space-Begins : (a rest : Text) → Begins a → skip_space (a ++ rest) ≡ a ++ rest
unfolding skip_space
skip_space-Begins [] rest h = absurd h
skip_space-Begins (b ∷ a) rest h = ground arith

nonempty-Begins : (a rest : Text) → Begins a → nonempty (a, rest) ≡ some (a, rest)
nonempty-Begins [] rest h = absurd h
nonempty-Begins (b ∷ a) rest h = refl

abbrev pub IsWord : Text → Type 0
IsWord key = Begins key × All (λ b. not_space b ≡ true) key

abbrev pub IsLine : Text → Type 0
IsLine value = Begins value × All (λ b. not_newline b ≡ true) value

scan_word-append :
    (key rest : Text)
    → IsWord key
    → Ends not_space rest
    → scan_word (key ++ rest) ≡ some (key, rest)
unfolding scan_word
scan_word-append key rest w e =
    rw (skip_space-Begins key rest w.0, run_of-append not_space key rest w.1 e)
      (nonempty-Begins key rest w.0)

skip_space_twice-Begins : (a rest : Text) → Begins a → skip_space (32 ∷ a ++ rest) ≡ a ++ rest
unfolding skip_space
skip_space_twice-Begins a rest h = skip_space-Begins a rest h

-- A request scans to the key and the value that it was made of: the key has no white space, the value
-- no newline, neither is empty, and the value does not begin with white space.
pub scan_set-append :
    (key value rest : Text)
    → IsWord key
    → IsLine value
    → Ends not_newline rest
    → scan_set (bytes "SET " ++ (key ++ (32 ∷ (value ++ rest)))) ≡ some (key, value)
unfolding scan_set scan_line
scan_set-append key value rest k v e = rw (
  skip_space_twice-Begins key (32 ∷ (value ++ rest)) k.0,
  scan_word-append key (32 ∷ (value ++ rest)) k refl,
  skip_space_twice-Begins value rest v.0,
  run_of-append not_newline value rest v.1 e,
  nonempty-Begins value rest v.0,
)

pub scan_get-append :
    (key rest : Text)
    → IsWord key
    → Ends not_space rest
    → scan_get (bytes "GET " ++ (key ++ rest)) ≡ some key
unfolding scan_get
scan_get-append key rest k e =
    rw (skip_space_twice-Begins key rest k.0, scan_word-append key rest k e)
