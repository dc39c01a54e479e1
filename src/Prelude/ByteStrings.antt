-- ===== src/Prelude/ByteStrings.antt =====
-- A Python `bytes` or `str` is the list of its bytes or code points, compared by `eqb`.
use Prim.Native.Nat.{ℕ, ◌<◌}
use Prim.Native.Char.{code}
use Prim.Native.String.{String}
use mathlib.Core.Path.{◌≡◌, refl}
use mathlib.Core.Logic.{◌↔◌, ◌≢◌, inl, inr}
use mathlib.Core.Bool.{Bool, true, false}
use mathlib.Core.List.{List, [], ◌∷◌}
use native.Mathlib.Omega.{arith}
use yakr.Prelude.Tests.{◌==◌, if◌then◌else◌, Bool-cases}
use yakr.Prelude.Lists.{All}

abbrev pub Bytes : Type 0
Bytes = List ℕ

abbrev pub Text : Type 0
Text = List ℕ

-- The code points of a literal. `String` has its own `[]` and `∷`.
abbrev pub codes : String → Text
codes String.[] = []
codes (String.◌∷◌ c s) = code c ∷ codes s

-- Every element is a byte.
abbrev pub IsBytes : Bytes → Type 0
IsBytes = All (λ b. b < 256)

unfoldable pub eqb : List ℕ → List ℕ → Bool
eqb [] [] = true
eqb [] (y ∷ ys) = false
eqb (x ∷ xs) [] = false
eqb (x ∷ xs) (y ∷ ys) = if x == y then eqb xs ys else false

pub eqb_iff : (xs ys : List ℕ) → (eqb xs ys ≡ true) ↔ (xs ≡ ys)
unfolding eqb
eqb_iff [] [] = ((λ _. refl), (λ _. refl))
eqb_iff [] (y ∷ ys) = ((λ h. cc), (λ h. cc))
eqb_iff (x ∷ xs) [] = ((λ h. cc), (λ h. cc))
eqb_iff (x ∷ xs) (y ∷ ys) = ground (arith, eqb_iff xs ys)

pub eqb_refl : (xs : List ℕ) → eqb xs xs ≡ true
eqb_refl xs = (eqb_iff xs xs).1 refl

pub eqb_ne : (xs ys : List ℕ) → xs ≢ ys → eqb xs ys ≡ false
eqb_ne xs ys h = ground (arith, eqb_iff xs ys)

-- `x in xs` for a list of byte strings or texts.
unfoldable pub contains : List ℕ → List (List ℕ) → Bool
contains x [] = false
contains x (y ∷ ys) = if eqb x y then true else contains x ys

-- `text.rstrip(char)`
unfoldable pub rstrip : ℕ → Text → Text
rstrip char [] = []
rstrip char (c ∷ cs) =
    let rest = rstrip char cs in
    elim rest [ [] ↦ if c == char then [] else c ∷ [] | d ∷ ds ↦ c ∷ d ∷ ds ]

-- One character before a text that is stripped.
abbrev kept_before : ℕ → ℕ → Text → Text
kept_before char c [] = if c == char then [] else c ∷ []
kept_before char c (d ∷ ds) = c ∷ d ∷ ds

rstrip-kept_before :
    (char c : ℕ) (rest : Text)
    → rstrip char rest ≡ rest
    → rstrip char (kept_before char c rest) ≡ kept_before char c rest
unfolding rstrip
rstrip-kept_before char c [] h = elim (Bool-cases (c == char)) [
  | inl same ↦ rw same refl
  | inr other ↦ rw (other, other) refl
]
rstrip-kept_before char c (d ∷ ds) h = rw (rstrip, h) refl

pub rstrip-rstrip : (char : ℕ) (t : Text) → rstrip char (rstrip char t) ≡ rstrip char t
unfolding rstrip
rstrip-rstrip char [] = refl
rstrip-rstrip char (c ∷ cs) = rstrip-kept_before char c (rstrip char cs) (rstrip-rstrip char cs)
