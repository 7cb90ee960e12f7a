-- ===== src/Base/Strings.antt =====
-- Equality of strings, as lists of bytes.
use Prim.Native.Nat.{ℕ}
use Prim.Native.Char.{code}
use Prim.Native.String.{String}
use mathlib.Core.Path.{◌≡◌, refl, sym, ap, subst, ◌∙◌}
use mathlib.Core.Logic.{inl, inr}
use mathlib.Core.Bool.{Bool, true, false, ◌&&◌}
use mathlib.Core.List.{List, [], ◌∷◌}
use qc.Base.Tests.{◌==◌, ==_iff, Bool-cases}
use native.Mathlib.Omega.{arith}

abbrev pub same : List ℕ → List ℕ → Bool
same [] [] = true
same (x ∷ xs) (y ∷ ys) = (x == y) && same xs ys
same _ _ = false

pub same_refl : (xs : List ℕ) → same xs xs ≡ true
same_refl [] = refl
same_refl (x ∷ xs) = rw (same_refl xs) (ground arith)

pub same_eq : (xs ys : List ℕ) → same xs ys ≡ true → xs ≡ ys
same_eq [] [] h = refl
same_eq [] (y ∷ ys) h = cc
same_eq (x ∷ xs) [] h = cc
same_eq (x ∷ xs) (y ∷ ys) h = elim (Bool-cases (x == y)) [
  | inl e ↦
      let tails : same xs ys ≡ true = subst (λ b. (b && same xs ys) ≡ true) e h in
      ap (λ z. z ∷ xs) ((==_iff x y).0 e) ∙ ap (λ zs. y ∷ zs) (same_eq xs ys tails)
  | inr e ↦ absurd (ground arith)
]

-- The bytes of an ASCII text.
abbrev pub codes : String → List ℕ
codes String.[] = []
codes (String.◌∷◌ c s) = code c ∷ codes s

pub same_other : (xs ys : List ℕ) → same xs ys ≡ false → same ys xs ≡ false
same_other xs ys f = elim (Bool-cases (same ys xs)) [
  | inr g ↦ g
  | inl g ↦
      absurd
        (let h : true ≡ false = sym (same_refl xs) ∙ ap (same xs) (sym (same_eq ys xs g)) ∙ f in cc)
]
