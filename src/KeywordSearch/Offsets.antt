-- ===== src/KeywordSearch/Offsets.antt =====
-- The search of Mmap-file-search.c finds every occurrence of the keyword.
use genspark_training.Base.{
  ℕ, zero, suc, ◌+◌, ◌≤◌, ◌<◌, ◌≡◌, ◌↔◌, refl, sym, ap, ◌∙◌, inl, inr, true, false, some, List, [],
  ◌∷◌, ◌++◌, Text, All, Has, length, length-append, leb, ◌==◌, arith, Bool-cases, ℕ_discrete,
}
use genspark_training.KeywordSearch.{offset, starts, search_from, search}

-- The keyword stands in the text with `i` bytes in front of it.
abbrev pub OccursAt : Text → Text → ℕ → Type 0
OccursAt keyword file i =
    (front : Text) × (behind : Text) × (file ≡ front ++ (keyword ++ behind)) × (length front ≡ i)

starts_sound :
    (keyword text : Text)
    → starts keyword text ≡ true
    → (behind : Text) × (text ≡ keyword ++ behind)
unfolding starts
starts_sound [] text h = (text, refl)
starts_sound (k ∷ keyword) [] h = absurd (ground arith)
starts_sound (k ∷ keyword) (b ∷ text) h =
    let rest : starts keyword text ≡ true = ground (arith, h) in
    let same : k ≡ b = ground (arith, h) in
    let (behind, e) = starts_sound keyword text rest in (behind, rw (same, e) refl)

starts_complete : (keyword behind : Text) → starts keyword (keyword ++ behind) ≡ true
unfolding starts
starts_complete [] behind = refl
starts_complete (k ∷ keyword) behind =
    let self : (k == k) ≡ true = ground arith in rw (self, starts_complete keyword behind) refl

occurs_sound :
    (i : ℕ) (keyword file : Text)
    → i ≤ length file
    → starts keyword (offset i file) ≡ true
    → OccursAt keyword file i
occurs_sound zero keyword file le h =
    let (behind, e) = starts_sound keyword file h in ([], behind, e, refl)
occurs_sound (suc i) keyword [] le h = absurd (omega (arith, le))
occurs_sound (suc i) keyword (b ∷ file) le h =
    let (front, behind, e, n) = occurs_sound i keyword file (omega (arith, le)) h in
    (b ∷ front, behind, ap (λ l. b ∷ l) e, ap suc n)

offset-append : (front text : Text) → offset (length front) (front ++ text) ≡ text
offset-append [] text = refl
offset-append (b ∷ front) text = offset-append front text

occurs_complete :
    (i : ℕ) (keyword file : Text)
    → OccursAt keyword file i
    → (i + length keyword ≤ length file) × (starts keyword (offset i file) ≡ true)
occurs_complete i keyword file (front, behind, e, n) =
    let a = length-append front (keyword ++ behind) in
    let b = length-append keyword behind in
    let whole : length file ≡ length (front ++ (keyword ++ behind)) = ap length e in
    (
      omega (arith, a, b, whole, n),
      rw (e, sym n, offset-append front (keyword ++ behind)) (starts_complete keyword behind),
    )

-- The offsets that pass the tests of the loop, from `i` on.
abbrev Passes : Text → Text → ℕ → ℕ → Type 0
Passes keyword file i j =
    (i ≤ j) × (j + length keyword ≤ length file) × (starts keyword (offset j file) ≡ true)

abbrev pub IsIncreasing : List ℕ → Type 0
IsIncreasing [] = Unit
IsIncreasing (x ∷ l) = All (λ y. x < y) l × IsIncreasing l

all_of : (P : ℕ → Type 0) (l : List ℕ) → ((j : ℕ) → Has j l → P j) → All P l
all_of P [] h = tt
all_of P (x ∷ l) h = (h x (inl refl), all_of P l (λ j k. h j (inr k)))

module _ (keyword file : Text) where
  hit :
      (i : ℕ) (l : List ℕ)
      → i + length keyword ≤ length file
      → starts keyword (offset i file) ≡ true
      → ((j : ℕ) → Has j l ↔ Passes keyword file (i + 1) j)
      → (j : ℕ) → Has j (i ∷ l) ↔ Passes keyword file i j
  hit i l le e h j = (
    (λ m. elim m [
      | inl same ↦ (
        omega (arith, same),
        omega (arith, same, le),
        ap (λ k. starts keyword (offset k file)) same ∙ e,
      )
      | inr k ↦ (let (a, b, c) = (h j).0 k in (omega (arith, a), b, c))
    ]),
    (λ (a, b, c). elim (ℕ_discrete j i) [
      | yes same ↦ inl same
      | no other ↦ inr ((h j).1 (omega (arith, a, other), b, c))
    ]),
  )

  miss :
      (i : ℕ) (l : List ℕ)
      → starts keyword (offset i file) ≡ false
      → ((j : ℕ) → Has j l ↔ Passes keyword file (i + 1) j)
      → (j : ℕ) → Has j l ↔ Passes keyword file i j
  miss i l e h j = (
    (λ k. let (a, b, c) = (h j).0 k in (omega (arith, a), b, c)),
    (λ (a, b, c). elim (ℕ_discrete j i) [
      | yes same ↦
          absurd
            (let no = ap (λ k. starts keyword (offset k file)) same ∙ e in ground (arith, no, c))
      | no other ↦ (h j).1 (omega (arith, a, other), b, c)
    ]),
  )

  search_from_lem :
      (fuel i : ℕ)
      → i ≤ length file + 1
      → length file + 1 < i + fuel
      → (l : List ℕ) × (search_from fuel keyword file i ≡ some l)
        × ((j : ℕ) → Has j l ↔ Passes keyword file i j)
        × IsIncreasing l
  unfolding search_from
  search_from_lem zero i le h = absurd (omega (arith, le, h))
  search_from_lem (suc fuel) i le h = elim (Bool-cases (leb (i + length keyword) (length file))) [
    | inr e ↦ (
      [],
      rw (search_from, e) refl,
      (λ j. ((λ m. absurd m), (λ (a, b, c). absurd (ground (arith, a, b, e))))),
      tt,
    )
    | inl e ↦
        (let (l, f, iff, up) =
            search_from_lem fuel (i + 1) (ground (arith, e)) (omega (arith, h)) in
          elim (Bool-cases (starts keyword (offset i file))) [
            | inl s ↦ (
              i ∷ l,
              rw (search_from, e, f, s) refl,
              hit i l (ground (arith, e)) s iff,
              (all_of (λ y. i < y) l (λ j k. let a = ((iff j).0 k).0 in omega (arith, a)), up),
            )
            | inr s ↦ (l, rw (search_from, e, f, s) refl, miss i l s iff, up)
          ])
  ]

-- The search ends, and prints exactly the offsets where the keyword stands in the file, in their order and
-- each once.
pub search_lem :
    (keyword file : Text)
    → (offsets : List ℕ) × (search keyword file ≡ some offsets)
      × ((i : ℕ) → Has i offsets ↔ OccursAt keyword file i)
      × IsIncreasing offsets
unfolding search
search_lem keyword file =
    let (l, e, iff, up) =
      search_from_lem keyword file (suc (suc (length file))) 0 (omega arith) (omega arith) in
    (
      l,
      e,
      (λ i. (
        (λ k. let (a, b, c) = (iff i).0 k in occurs_sound i keyword file (omega (arith, b)) c),
        (λ o. let (a, b) = occurs_complete i keyword file o in (iff i).1 (omega arith, a, b)),
      )),
      up,
    )
