-- ===== src/Config/Converters/Insertion.antt =====
-- include/qc/config/config.h: the insertions into a container that is decoded, one after the other.
use mathlib.Core.List.{append-nil, append_assoc}
use qc.Base.{
  ℕ, ◌≡◌, refl, sym, ap, ◌∙◌, subst, Bool, true, false, Option, none, some, List, [], ◌∷◌, ◌++◌,
  map, ◌>>=◌, All,
}
use qc.Log.Manager.{lookup}
use qc.Config.Converters.{append, insert, collect}

module _ {T : Type 0} where
  unfoldable pub insert_all : (T → List T → List T) → List T → List T → List T
  insert_all ins [] out = out
  insert_all ins (x ∷ xs) out = insert_all ins xs (ins x out)

  pub insert_all-append : (xs out : List T) → insert_all append xs out ≡ out ++ xs
  unfolding insert_all
  insert_all-append [] out = sym (append-nil out)
  insert_all-append (x ∷ xs) out =
      insert_all-append xs (out ++ x ∷ []) ∙ append_assoc out (x ∷ []) xs

  -- What a decoder reads back from the encoded elements.
  pub collect-insert_all :
      {S : Type 0} (ins : T → List T → List T) (decode : S → Option T) (encode : T → S)
      → (xs out : List T) → All (λ x. decode (encode x) ≡ some x) xs
      → collect ins decode (map encode xs) out ≡ some (insert_all ins xs out)
  unfolding collect insert_all
  collect-insert_all ins decode encode [] out back = refl
  collect-insert_all ins decode encode (x ∷ xs) out back =
      ap (λ r. r >>= λ y. collect ins decode (map encode xs) (ins y out)) back.0
      ∙ collect-insert_all ins decode encode xs (ins x out) back.1

  -- A list in the order of `less`, as a std::set is gone through.
  unfoldable pub Below : (T → T → Bool) → T → List T → Type 0
  Below less x [] = Unit
  Below less x (y ∷ ys) = (less x y ≡ true) × (less y x ≡ false) × Below less x ys

  unfoldable pub Ascending : (T → T → Bool) → List T → Type 0
  unfolding Below
  Ascending less [] = Unit
  Ascending less (x ∷ xs) = Below less x xs × Ascending less xs

  -- `x` comes after a list whose members are below it.
  Below-at :
      (less : T → T → Bool) (y x : T) (ys xs : List T)
      → Below less y (ys ++ x ∷ xs)
      → (less y x ≡ true) × (less x y ≡ false)
  unfolding Below
  Below-at less y x [] xs h = (h.0, h.1)
  Below-at less y x (z ∷ ys) xs h = Below-at less y x ys xs h.2

  insert_last :
      (less : T → T → Bool) (x : T) (out xs : List T)
      → Ascending less (out ++ x ∷ xs)
      → insert less x out ≡ out ++ x ∷ []
  unfolding insert Ascending
  insert_last less x [] xs h = refl
  insert_last less x (y ∷ out) xs h =
      let (a, b) = Below-at less y x out xs h.0 in
      rw (b, a) (ap (λ r. y ∷ r) (insert_last less x out xs h.1))

  pub insert_all-insert :
      (less : T → T → Bool) (xs out : List T)
      → Ascending less (out ++ xs)
      → insert_all (insert less) xs out ≡ out ++ xs
  unfolding insert_all
  insert_all-insert less [] out h = sym (append-nil out)
  insert_all-insert less (x ∷ xs) out h =
      ap (insert_all (insert less) xs) (insert_last less x out xs h)
      ∙ insert_all-insert less xs (out ++ x ∷ [])
          (subst (Ascending less) (sym (append_assoc out (x ∷ []) xs)) h)
      ∙ append_assoc out (x ∷ []) xs

  -- No key twice.
  unfoldable pub DistinctKeys : List (List ℕ × T) → Type 0
  DistinctKeys [] = Unit
  DistinctKeys ((k, x) ∷ es) = (lookup k es ≡ none) × DistinctKeys es

-- What is read back of a container: nothing of an empty one.
abbrev pub unless_empty : {A B : Type 0} → List A → B → Option B
unless_empty [] b = none
unless_empty (x ∷ xs) b = some b
