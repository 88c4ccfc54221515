-- ===== src/FileCopy/Verify.antt =====
-- The verification at the end of file-copy.c.
use genspark_training.Base.{
  ℕ, ◌+◌, ◌≡◌, ◌↔◌, refl, sym, ap, ◌∙◌, inl, inr, Bool, true, false, Option, none, some, [], ◌∷◌,
  Text, length, ◌==◌, if◌then◌else◌, arith, Bool-cases,
}

-- What it prints.
pub data Verdict : Type 0 where
  size_mismatch identical : Verdict
  mismatch_at : ℕ → Verdict

-- A read of one byte: it needs a descriptor that is open for reading.
abbrev pub read_byte : (readable : Bool) → Text → Option (ℕ × Text)
read_byte false text = none
read_byte true [] = none
read_byte true (b ∷ text) = some (b, text)

-- The loop, which ends where one of the two reads does not give a byte.
unfoldable pub compare_from : (readable : Bool) → (pos : ℕ) → (src dst : Text) → Verdict
compare_from readable pos [] dst = Verdict.identical
compare_from readable pos (c1 ∷ src) dst = elim (read_byte readable dst) [
  | none ↦ Verdict.identical
  | some (c2, dst) ↦
      let rest = compare_from readable (pos + 1) src dst in
      if c1 == c2 then rest else Verdict.mismatch_at pos
]

-- `dst_fd` was opened with O_WRONLY.
abbrev pub dst_readable : Bool
dst_readable = false

unfoldable pub verify : (src dst : Text) → Verdict
verify src dst =
    if length src == length dst then compare_from dst_readable 0 src dst else Verdict.size_mismatch

compare_from-identical :
    (pos : ℕ) (src dst : Text)
    → length src ≡ length dst
    → compare_from true pos src dst ≡ Verdict.identical
    → src ≡ dst
unfolding compare_from
compare_from-identical pos [] [] h e = refl
compare_from-identical pos [] (b ∷ dst) h e = absurd (omega (arith, h))
compare_from-identical pos (a ∷ src) [] h e = absurd (omega (arith, h))
compare_from-identical pos (a ∷ src) (b ∷ dst) h e = elim (Bool-cases (a == b)) [
  | inl same ↦
      (let go : compare_from true (pos + 1) src dst ≡ Verdict.identical = ground (arith, e, same) in
        let rest = compare_from-identical (pos + 1) src dst (omega (arith, h)) go in
        let head : a ≡ b = ground (arith, same) in rw (head, rest) refl)
  | inr other ↦ absurd (ground (arith, e, other))
]

compare_from_self : (pos : ℕ) (src : Text) → compare_from true pos src src ≡ Verdict.identical
unfolding compare_from
compare_from_self pos [] = refl
compare_from_self pos (a ∷ src) =
    let self : (a == a) ≡ true = ground arith in rw self (compare_from_self (pos + 1) src)

blind : (src dst : Text) → compare_from dst_readable 0 src dst ≡ Verdict.identical
unfolding compare_from
blind [] dst = refl
blind (a ∷ src) dst = refl

-- Two files of the same size are reported as identical whatever is in them, since the copy is not open for
-- reading; the same loop with a readable copy reports that exactly if they are equal.
pub verify_blind :
    (src dst : Text)
    → length src ≡ length dst
    → (verify src dst ≡ Verdict.identical)
      × ((compare_from true 0 src dst ≡ Verdict.identical) ↔ (src ≡ dst))
unfolding verify
verify_blind src dst h =
    let same : (length src == length dst) ≡ true = ground (arith, h) in
    (
      rw (verify, same) (blind src dst),
      (
        compare_from-identical 0 src dst h,
        (λ e. ap (compare_from true 0 src) (sym e) ∙ compare_from_self 0 src),
      ),
    )
