-- ===== src/Config/Registry.antt =====
-- include/qc/config/config.h, src/config/config.cpp: the map of variables, its entries and its saving.
-- A pointer to a variable of the map is what it points to; `is_type` is what the dynamic cast to the
-- type asked for says of a variable.
pub mod Saved
mod Tests
use qc.Base.{
  same, same_refl, same_eq, ℕ, ◌≡◌, refl, sym, ap, ◌∙◌, subst, Bool, true, false, not, Option, none,
  some, List, [], ◌∷◌, if◌then◌else◌, Bool-cases, Option-cases, inl, inr,
}
use qc.Config.{ConfigVar, new_var, Values, ConfigVarMap, is_empty_name, valid_name}
use qc.Config.Node.{Yaml}
use qc.Config.Variables.{NoneNamed, Distinct}

module _ {T L N : Type 0} (ops : Values T L N) where
  unfoldable pub lookup_base : List ℕ → ConfigVarMap ops → Option (ConfigVar T L)
  lookup_base name [] = none
  lookup_base name (v ∷ vars) =
      let rest = lookup_base name vars in if same v.name name then some v else rest

  unfoldable pub create :
      (ConfigVar T L → Bool)
      → List ℕ
      → T
      → ConfigVarMap ops
      → Option (ConfigVar T L) × ConfigVarMap ops
  unfolding lookup_base
  create is_type name default_value vars =
      if is_empty_name ops name
      then (none, vars)
      else if not (valid_name name)
      then (none, vars)
      else elim (lookup_base name vars) [
        | some v ↦ (if is_type v then some v else none, vars)
        | none ↦ (some (new_var name default_value), new_var name default_value ∷ vars)
      ]

  -- `Visit`, with what the callback changes.
  unfoldable pub visit : {S : Type 0} → (ConfigVar T L → S → S) → ConfigVarMap ops → S → S
  visit cb [] s = s
  visit cb (v ∷ vars) s = visit cb vars (cb v s)

  -- The names of the map are valid, not empty and distinct.
  unfoldable pub Valid : ConfigVarMap ops → Type 0
  Valid [] = Unit
  Valid (v ∷ vars) = (is_empty_name ops v.name ≡ false) × (valid_name v.name ≡ true) × Valid vars

  lookup_base-NoneNamed :
      (name : List ℕ) (vars : ConfigVarMap ops)
      → lookup_base name vars ≡ none
      → NoneNamed ops name vars
  unfolding lookup_base NoneNamed
  lookup_base-NoneNamed name [] e = tt
  lookup_base-NoneNamed name (v ∷ vars) e = elim (Bool-cases (same v.name name)) [
    | inl f ↦
        absurd (let h = subst (λ b. (if b then some v else lookup_base name vars) ≡ none) f e in cc)
    | inr f ↦ (
      f,
      lookup_base-NoneNamed name vars
          (subst (λ b. (if b then some v else lookup_base name vars) ≡ none) f e),
    )
  ]

  -- What a lookup finds after `create`, by whether the name is refused and what was there.
  abbrev pub present : Bool → List ℕ → T → Option (ConfigVar T L) → Option (ConfigVar T L)
  present true name x found = found
  present false name x none = some (new_var name x)
  present false name x (some v) = some v

  abbrev pub refused : List ℕ → Bool
  refused name = if is_empty_name ops name then true else not (valid_name name)

  -- The answer, by what was there before and what is there now.
  abbrev pub answer :
      (ConfigVar T L → Bool)
      → Bool
      → Option (ConfigVar T L)
      → Option (ConfigVar T L)
      → Option (ConfigVar T L)
  answer is_type true before now = none
  answer is_type false none now = now
  answer is_type false (some v) now = if is_type v then now else none

  -- In a map with valid and distinct names: after Create the names are still valid and distinct. An
  -- empty or invalid name is refused, and the map stays as it was. Else there is a variable of the name,
  -- the one from before or a new one with the default value, and it is what Create returns if it is new
  -- or of the type asked for. All other names have the variables that they had.
  pub create-lookup_base :
      (is_type : ConfigVar T L → Bool) (name : List ℕ) (x : T) (vars : ConfigVarMap ops)
      → Valid vars
      → Distinct ops vars
      → Valid (create is_type name x vars).1
        × Distinct ops (create is_type name x vars).1
        × ((create is_type name x vars).0
            ≡ answer is_type
                (refused name)
                (lookup_base name vars)
                (lookup_base name (create is_type name x vars).1))
        × ((k : List ℕ)
            → lookup_base k (create is_type name x vars).1 ≡ (
                if same name k
                then present (refused name) k x (lookup_base k vars)
                else lookup_base k vars))
  unfolding create Valid Distinct lookup_base
  create-lookup_base is_type name x vars w d = elim (Bool-cases (is_empty_name ops name)) [
    | inl e ↦ rw e (w, d, refl, λ k. stays k (same name k))
    | inr e ↦ elim (Bool-cases (valid_name name)) [
      | inr f ↦ rw (e, f) (w, d, refl, λ k. stays k (same name k))
      | inl f ↦ elim (Option-cases (lookup_base name vars)) [
        | inr (v, g) ↦ rw (e, f, g) (w, d, rw g refl, λ k. found v g k)
        | inl g ↦
            rw (e, f, g)
              (
                (e, f, w),
                (lookup_base-NoneNamed name vars g, d),
                rw (same_refl name) refl,
                λ k. new g k,
              )
      ]
    ]
  ]
    where
      stays :
          (k : List ℕ) (b : Bool)
          → lookup_base k vars ≡ (if b then lookup_base k vars else lookup_base k vars)
      stays k true = refl
      stays k false = refl

      found :
          (v : ConfigVar T L)
          → lookup_base name vars ≡ some v
          → (k : List ℕ)
          → lookup_base k vars
            ≡ (if same name k then present false k x (lookup_base k vars) else lookup_base k vars)
      found v g k = elim (Bool-cases (same name k)) [
        | inl q ↦
            let h : lookup_base k vars ≡ some v =
              ap (λ z. lookup_base z vars) (sym (same_eq name k q)) ∙ g in
            rw (q, h) refl
        | inr q ↦ rw q refl
      ]

      new :
          lookup_base name vars ≡ none
          → (k : List ℕ)
          → (if same name k then some (new_var name x) else lookup_base k vars)
            ≡ (if same name k then present false k x (lookup_base k vars) else lookup_base k vars)
      new g k = elim (Bool-cases (same name k)) [
        | inl q ↦
            let h : lookup_base k vars ≡ none =
              ap (λ z. lookup_base z vars) (sym (same_eq name k q)) ∙ g in
            rw (q, h) (ap (λ z. some (new_var z x)) (same_eq name k q))
        | inr q ↦ rw q refl
      ]
