-- ===== src/Mvcc/Chain.antt =====
-- The version chain of one key in mvcc-in-memory-key-value.c: `Version`, the search of `tx_read`, and
-- what `tx_commit` does to the chain. Below `init_ts` no version is visible.
use genspark_training.Base.{
  ℕ, ◌-◌, ◌^◌, ◌≤◌, ◌<◌, ◌≡◌, refl, ◌&&◌, Option, none, some, List, [], ◌∷◌, Text, ltb, leb,
  if◌then◌else◌, arith, Bool-cases, inl, inr,
}

-- `ULONG_MAX`
abbrev pub ulong_max : ℕ
ulong_max = 2 ^ 64 - 1

pub record Version : Type 0 where
  pub value : Text
  pub begin_ts : ℕ
  pub end_ts : ℕ

-- The `while` of `tx_read`: the first version whose lifetime holds the timestamp.
unfoldable pub visible : ℕ → List Version → Option Text
visible ts [] = none
visible ts (v ∷ vs) = if leb v.begin_ts ts && ltb ts v.end_ts then some v.value else visible ts vs

-- `if (old) old->end_ts = commit_ts;`
unfoldable pub retire : ℕ → List Version → List Version
retire ts [] = []
retire ts (v ∷ vs) = record v { end_ts = ts } ∷ vs

-- One round of the loop of `tx_commit`.
unfoldable pub install : ℕ → Text → List Version → List Version
unfolding retire
install ts value vs = record { value = value; begin_ts = ts; end_ts = ulong_max } ∷ retire ts vs

-- The lifetimes of the versions tile the timestamps from 1 up to `end`, newest first.
abbrev pub IsChain : ℕ → List Version → Type 0
IsChain end [] = end ≡ 1
IsChain end (v ∷ vs) = (v.end_ts ≡ end) × (v.begin_ts < end) × IsChain v.begin_ts vs

-- The newest version began before `ts`.
abbrev pub IsBefore : ℕ → List Version → Type 0
IsBefore ts [] = 0 < ts
IsBefore ts (v ∷ vs) = v.begin_ts < ts

pub visible_total :
    (ts end : ℕ) (vs : List Version)
    → IsChain end vs
    → 0 < ts
    → ts < end
    → (t : Text) × (visible ts vs ≡ some t)
unfolding visible
visible_total ts end [] c p q = absurd (omega arith)
visible_total ts end (v ∷ vs) c p q = elim (Bool-cases (leb v.begin_ts ts)) [
  | inl here ↦ (v.value, ground arith)
  | inr older ↦
      let (t, e) = visible_total ts v.begin_ts vs c.2 p (ground arith) in (t, ground arith)
]

pub install-IsChain :
    (ts : ℕ) (value : Text) (vs : List Version)
    → IsChain ulong_max vs
    → IsBefore ts vs
    → ts < ulong_max
    → IsChain ulong_max (install ts value vs)
unfolding install
install-IsChain ts value [] c b h = omega arith
install-IsChain ts value (v ∷ vs) c b h = (refl, h, (refl, b, c.2))

-- A snapshot taken before a commit reads the same after it.
pub visible-install_before :
    (ts now : ℕ) (value : Text) (vs : List Version)
    → IsChain ulong_max vs
    → now < ts
    → ts < ulong_max
    → visible now (install ts value vs) ≡ visible now vs
unfolding visible install
visible-install_before ts now value [] c b h = ground arith
visible-install_before ts now value (v ∷ vs) c b h = ground arith

-- A snapshot taken at or after a commit reads what was committed.
pub visible-install_after :
    (ts now : ℕ) (value : Text) (vs : List Version)
    → ts ≤ now
    → now < ulong_max
    → visible now (install ts value vs) ≡ some value
unfolding visible install
visible-install_after ts now value vs b h = ground arith

pub install-IsBefore :
    (ts now : ℕ) (value : Text) (vs : List Version) → ts < now → IsBefore now (install ts value vs)
unfolding install
install-IsBefore ts now value vs h = h
