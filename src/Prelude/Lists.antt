-- ===== src/Prelude/Lists.antt =====
-- Lists measured by native numbers, and the small list functions that the components share.
use Prim.Native.Nat.{ℕ, zero, suc, ◌+◌}
use Prim.Native.Char.{code}
use Prim.Native.String.{String, ◌++◌ as append_text}
use mathlib.Core.Path.{◌≡◌, refl, sym, subst}
use mathlib.Core.List.{List, [], ◌∷◌, ◌++◌}
use mathlib.Core.Option.{Option, none, some}
use mathlib.Core.Bool.{Bool, true, false, false≢true, ◌||◌}
use mathlib.Core.Logic.{inl, inr}
use text.Mathlib.TextEquality.{eq_iff}
use native.Mathlib.Omega.{arith}
use frontier_long_horizon_en.Prelude.Tests.{◌==◌, Bool-cases}

module _ {ℓ} {A : Type ℓ} where
  abbrev pub length : List A → ℕ
  length [] = 0
  length (x ∷ xs) = suc (length xs)

  pub length-append : (xs ys : List A) → length (xs ++ ys) ≡ length xs + length ys
  length-append [] ys = omega arith
  length-append (x ∷ xs) ys = omega (arith, length-append xs ys)

  -- The last element, in list order.
  abbrev pub last? : List A → Option A
  last? [] = none
  last? (x ∷ xs) = elim (last? xs) [ none ↦ some x | some y ↦ some y ]

  pub last?-append : (xs : List A) (y : A) → last? (xs ++ y ∷ []) ≡ some y
  last?-append [] y = refl
  last?-append (x ∷ xs) y = ground (arith, last?-append xs y)

  abbrev pub All {κ} : (A → Type κ) → List A → Type κ
  All P [] = Unit
  All P (x ∷ xs) = P x × All P xs

  pub All-append {κ} : (P : A → Type κ) (xs ys : List A) → All P xs → All P ys → All P (xs ++ ys)
  All-append P [] ys hx hy = hy
  All-append P (x ∷ xs) ys hx hy = (hx.0, All-append P xs ys hx.1 hy)

-- The code points of a text: its bytes, if it is ASCII.
abbrev pub codes : String → List ℕ
codes String.[] = []
codes (String.◌∷◌ c s) = code c ∷ codes s

abbrev pub contains : String → List String → Bool
contains a [] = false
contains a (x ∷ xs) = a == x || contains a xs

pub All-contains {κ} :
    (P : String → Type κ) (xs : List String) (a : String) → All P xs → contains a xs ≡ true → P a
All-contains P [] a h found = absurd (false≢true found)
All-contains P (x ∷ xs) a h found = elim (Bool-cases (a == x)) [
  | inl same ↦ subst P (sym ((eq_iff a x).0 same)) h.0
  | inr other ↦ All-contains P xs a h.1 (rw other at found)
]

-- The first `n` characters of a text, as Python's `text[:n]`.
abbrev pub take_text : ℕ → String → String
take_text zero s = ""
take_text (suc n) String.[] = ""
take_text (suc n) (String.◌∷◌ c s) = String.◌∷◌ c (take_text n s)

-- The parts of a formatted text.
abbrev pub join : List String → String
join [] = ""
join (s ∷ ss) = append_text s (join ss)
