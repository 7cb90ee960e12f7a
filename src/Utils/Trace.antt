-- ===== src/Utils/Trace.antt =====
-- src/utils.cpp: what a backtrace holds.
use qc.Base.{
  ℕ, zero, suc, ◌-◌, ◌≤◌, ◌<◌, ◌≡◌, refl, sym, ap, ◌∙◌, true, Option, none, some, List, [], ◌∷◌,
  ◌++◌, if◌then◌else◌, length, get_elem?, drop, arith, ltb,
}
use mathlib.Core.List.{append-nil, append_assoc}
use qc.Utils.{Libc, push_symbols, trace}

drop-get_elem? {ℓ} :
    {A : Type ℓ} (xs : List A) (i : ℕ)
    → i < length xs
    → (x : A) × (get_elem? xs i ≡ some x) × (drop i xs ≡ x ∷ drop (suc i) xs)
drop-get_elem? [] i h = absurd (omega arith)
drop-get_elem? (x ∷ xs) zero h = (x, refl, refl)
drop-get_elem? (x ∷ xs) (suc i) h = drop-get_elem? xs i (omega arith)

drop_all {ℓ} : {A : Type ℓ} (xs : List A) (i : ℕ) → length xs ≤ i → drop i xs ≡ []
drop_all [] zero h = refl
drop_all [] (suc i) h = refl
drop_all (x ∷ xs) zero h = absurd (omega arith)
drop_all (x ∷ xs) (suc i) h = drop_all xs i (omega arith)

push_symbols_lem :
    (n i : ℕ) (strs bt : List (List ℕ))
    → n ≡ length strs - i
    → push_symbols n i (some strs) bt ≡ some (bt ++ drop i strs)
unfolding push_symbols
push_symbols_lem zero i strs bt e =
    rw (drop_all strs i (omega (arith, e))) (ap some (sym (append-nil bt)))
push_symbols_lem (suc n) i strs bt e =
    let (x, at, split) = drop-get_elem? strs i (omega (arith, e)) in
    rw (at, split)
      (push_symbols_lem n (suc i) strs (bt ++ x ∷ []) (omega (arith, e))
        ∙ ap some (append_assoc bt (x ∷ []) (drop (suc i) strs)))

module _ (c : Libc) where
  open c use {malloc, backtrace, backtrace_symbols, symbols_length}

  -- With memory for the frames, `Backtrace` adds the symbols of all frames but the first `skip`, in
  -- order. Without symbols it reads through a null pointer, unless there are no more frames than that.
  pub trace_lem :
      (bt : List (List ℕ)) (size skip : ℕ)
      → malloc size ≡ true
      → trace c bt size skip ≡ elim (backtrace_symbols (backtrace size)) [
        | some strs ↦ some (bt ++ drop skip strs)
        | none ↦ if ltb skip (length (backtrace size)) then none else some bt
      ]
  unfolding trace push_symbols
  trace_lem bt size skip m = rw m (symbols (backtrace_symbols (backtrace size)) refl)
    where
      none_left :
          (n : ℕ)
          → n ≡ length (backtrace size) - skip
          → push_symbols n skip none bt
            ≡ (if ltb skip (length (backtrace size)) then none else some bt)
      none_left zero e = ground arith
      none_left (suc n) e = ground arith

      symbols :
          (o : Option (List (List ℕ)))
          → backtrace_symbols (backtrace size) ≡ o
          → push_symbols (length (backtrace size) - skip) skip o bt ≡ elim o [
            | some strs ↦ some (bt ++ drop skip strs)
            | none ↦ if ltb skip (length (backtrace size)) then none else some bt
          ]
      symbols (some strs) e =
          push_symbols_lem (length (backtrace size) - skip) skip strs bt
            (omega (arith, symbols_length (backtrace size) strs e))
      symbols none e = none_left (length (backtrace size) - skip) refl
