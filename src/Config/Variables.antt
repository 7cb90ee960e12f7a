-- ===== src/Config/Variables.antt =====
-- src/config/config.cpp, include/qc/config/config.h: what loading a file does to the variables.
use qc.Base.{
  same, same_eq, ℕ, ◌≡◌, refl, sym, subst, ap, ◌∙◌, true, false, ◌||◌, not, Option, none, some,
  List, [], ◌∷◌, if◌then◌else◌, Bool-cases, Option-cases, inl, inr,
}
use mathlib.Core.List.{map}
use qc.Config.{
  ConfigVar, Values, ConfigVarMap, set_value, from_node, from_string, to_string, Calls, load_one,
  load_nodes, is_empty_name,
}

module _ {T L N : Type 0} (ops : Values T L N) where
  open ops use {equal, listener_throws, convert, is_null}

  -- The variable after the nodes listed under its name, in order, but the null ones.
  unfoldable pub settle_var : List (List ℕ × N) → ConfigVar T L → ConfigVar T L
  settle_var [] v = v
  settle_var ((key, node) ∷ nodes) v =
      if (is_empty_name ops key || is_null node) || not (same v.name key)
      then settle_var nodes v
      else settle_var nodes (from_node ops node v).0

  set_value-name : (x : T) (v : ConfigVar T L) → (set_value ops x v).0.name ≡ v.name
  unfolding set_value
  set_value-name x v = elim (Bool-cases (equal v.value x)) [
    | inl f ↦ rw f refl
    | inr f ↦ elim (Option-cases v.cb) [
      | inl g ↦ rw (f, g) refl
      | inr (cb, g) ↦ elim (Bool-cases (listener_throws cb v.value x)) [
        | inl k ↦ rw (f, g, k) refl
        | inr k ↦ rw (f, g, k) refl
      ]
    ]
  ]

  pub from_node-name : (node : N) (v : ConfigVar T L) → (from_node ops node v).0.name ≡ v.name
  unfolding from_node
  from_node-name node v = elim (Option-cases (convert node)) [
    | inl e ↦ rw (from_node, e) refl
    | inr (x, e) ↦ rw (from_node, e) (set_value-name x v)
  ]

  pub from_node-none :
      (node : N) (v : ConfigVar T L) → convert node ≡ none → from_node ops node v ≡ (v, [])
  unfolding from_node
  from_node-none node v e =
      ap (λ r. elim r [ none ↦ (v, []) | some x ↦ ((set_value ops x v).0, (set_value ops x v).1) ])
        e

  pub from_node-some :
      (node : N) (v : ConfigVar T L) (x : T)
      → convert node ≡ some x
      → from_node ops node v ≡ ((set_value ops x v).0, (set_value ops x v).1)
  unfolding from_node
  from_node-some node v x e =
      ap (λ r. elim r [ none ↦ (v, []) | some x ↦ ((set_value ops x v).0, (set_value ops x v).1) ])
        e

  -- Where the text of a value is read back as its node, and the node as the value: the text of one
  -- variable sets another to its value.
  pub from_string-to_string :
      (load : List ℕ → Option N) (emit : N → List ℕ) (encode : T → N) (w v : ConfigVar T L)
      → load (emit (encode w.value)) ≡ some (encode w.value)
      → convert (encode w.value) ≡ some w.value
      → from_string ops load (to_string ops emit encode w) v
        ≡ ((set_value ops w.value v).0, (set_value ops w.value v).1)
  unfolding from_string
  from_string-to_string load emit encode w v e f =
      ap
        (λ r. elim r as (λ _. ConfigVar T L × Calls ops) [
          | none ↦ (v, [])
          | some node ↦ from_node ops node v
        ])
        e
      ∙ from_node-some (encode w.value) v w.value f

  set_value_same :
      (x : T) (v : ConfigVar T L) → equal v.value x ≡ true → set_value ops x v ≡ (v, [], false)
  unfolding set_value
  set_value_same x v e = rw e refl

  set_value-equal :
      (x : T) (v : ConfigVar T L)
      → ((x : T) → equal x x ≡ true)
      → ((cb : L) (old new : T) → listener_throws cb old new ≡ false)
      → equal (set_value ops x v).0.value x ≡ true
  unfolding set_value
  set_value-equal x v same_self quiet = elim (Bool-cases (equal v.value x)) [
    | inl f ↦ rw (f, f) refl
    | inr f ↦ elim (Option-cases v.cb) [
      | inl g ↦ rw (f, g) (same_self x)
      | inr (cb, g) ↦ rw (f, g, quiet cb v.value x) (same_self x)
    ]
  ]

  -- If equality is reflexive and no listener throws, then the same node again changes nothing and calls
  -- no listener.
  pub from_node_again :
      (node : N) (v : ConfigVar T L)
      → ((x : T) → equal x x ≡ true)
      → ((cb : L) (old new : T) → listener_throws cb old new ≡ false)
      → from_node ops node (from_node ops node v).0 ≡ ((from_node ops node v).0, [])
  from_node_again node v same_self quiet = elim (Option-cases (convert node)) [
    | inl e ↦ rw (from_node-none node v e) (from_node-none node v e)
    | inr (x, e) ↦ rw (from_node-some node v x e) (
        from_node-some node (set_value ops x v).0 x e
        ∙ ap (λ r. (r.0, r.1))
            (set_value_same x (set_value ops x v).0 (set_value-equal x v same_self quiet)))
  ]

  -- No other variable of the map has the name, and names are unique.
  unfoldable pub NoneNamed : List ℕ → ConfigVarMap ops → Type 0
  NoneNamed key [] = Unit
  NoneNamed key (v ∷ vars) = (same v.name key ≡ false) × NoneNamed key vars

  unfoldable pub Distinct : ConfigVarMap ops → Type 0
  Distinct [] = Unit
  Distinct (v ∷ vars) = NoneNamed v.name vars × Distinct vars

  abbrev own_node : List ℕ → N → ConfigVar T L → ConfigVar T L
  own_node key node v = if same v.name key then (from_node ops node v).0 else v

  NoneNamed-map :
      (key : List ℕ) (node : N) (vars : ConfigVarMap ops)
      → NoneNamed key vars
      → map (own_node key node) vars ≡ vars
  unfolding NoneNamed
  NoneNamed-map key node [] h = refl
  NoneNamed-map key node (v ∷ vars) h = rw h.0 (ap (λ r. v ∷ r) (NoneNamed-map key node vars h.1))

  load_one-map :
      (key : List ℕ) (node : N) (vars : ConfigVarMap ops)
      → Distinct vars
      → (load_one ops key node vars).0 ≡ map (own_node key node) vars
  unfolding load_one Distinct
  load_one-map key node [] h = refl
  load_one-map key node (v ∷ vars) h = elim (Bool-cases (same v.name key)) [
    | inl e ↦ rw e (
        ap (λ r. (from_node ops node v).0 ∷ r)
          (sym (
            NoneNamed-map key node vars
              (subst (λ k. NoneNamed k vars) (same_eq v.name key e) h.0))))
    | inr e ↦ rw e (ap (λ r. v ∷ r) (load_one-map key node vars h.1))
  ]

  own_node-name :
      (key : List ℕ) (node : N) (v : ConfigVar T L) → (own_node key node v).name ≡ v.name
  own_node-name key node v = elim (Bool-cases (same v.name key)) [
    | inl e ↦ rw e (from_node-name node v)
    | inr e ↦ rw e refl
  ]

  map-NoneNamed :
      (name key : List ℕ) (node : N) (vars : ConfigVarMap ops)
      → NoneNamed name vars
      → NoneNamed name (map (own_node key node) vars)
  unfolding NoneNamed
  map-NoneNamed name key node [] h = tt
  map-NoneNamed name key node (v ∷ vars) h =
      (ap (λ n. same n name) (own_node-name key node v) ∙ h.0, map-NoneNamed name key node vars h.1)

  map-Distinct :
      (key : List ℕ) (node : N) (vars : ConfigVarMap ops)
      → Distinct vars
      → Distinct (map (own_node key node) vars)
  unfolding Distinct
  map-Distinct key node [] h = tt
  map-Distinct key node (v ∷ vars) h = (
    subst (λ n. NoneNamed n (map (own_node key node) vars)) (sym (own_node-name key node v))
        (map-NoneNamed v.name key node vars h.0),
    map-Distinct key node vars h.1,
  )

  map_settle :
      (nodes : List (List ℕ × N)) (key : List ℕ) (node : N) (vars : ConfigVarMap ops)
      → (is_empty_name ops key || is_null node) ≡ false
      → map (settle_var nodes) (map (own_node key node) vars)
        ≡ map (settle_var ((key, node) ∷ nodes)) vars
  unfolding settle_var
  map_settle nodes key node [] e = refl
  map_settle nodes key node (v ∷ vars) e = elim (Bool-cases (same v.name key)) [
    | inl f ↦
        rw (e, f)
          (ap (λ r. settle_var nodes (from_node ops node v).0 ∷ r)
            (map_settle nodes key node vars e))
    | inr f ↦ rw (e, f) (ap (λ r. settle_var nodes v ∷ r) (map_settle nodes key node vars e))
  ]

  map_skip :
      (nodes : List (List ℕ × N)) (key : List ℕ) (node : N) (vars : ConfigVarMap ops)
      → (is_empty_name ops key || is_null node) ≡ true
      → map (settle_var nodes) vars ≡ map (settle_var ((key, node) ∷ nodes)) vars
  unfolding settle_var
  map_skip nodes key node [] e = refl
  map_skip nodes key node (v ∷ vars) e =
      rw e (ap (λ r. settle_var nodes v ∷ r) (map_skip nodes key node vars e))

  settle_nothing : (vars : ConfigVarMap ops) → vars ≡ map (settle_var []) vars
  unfolding settle_var
  settle_nothing [] = refl
  settle_nothing (v ∷ vars) = ap (λ r. v ∷ r) (settle_nothing vars)

  -- Where names are unique, loading a list of nodes leaves every variable as the nodes under its own
  -- name, in the order of the list and without the null ones, leave it.
  pub load_nodes-settle_var :
      (nodes : List (List ℕ × N)) (vars : ConfigVarMap ops)
      → Distinct vars
      → (load_nodes ops nodes vars).0 ≡ map (settle_var nodes) vars
  unfolding load_nodes
  load_nodes-settle_var [] vars h = settle_nothing vars
  load_nodes-settle_var ((key, node) ∷ nodes) vars h =
      elim (Bool-cases (is_empty_name ops key || is_null node)) [
        | inl e ↦ rw e (load_nodes-settle_var nodes vars h ∙ map_skip nodes key node vars e)
        | inr e ↦ rw e (
            ap (λ r. (load_nodes ops nodes r).0) (load_one-map key node vars h)
            ∙ load_nodes-settle_var nodes (map (own_node key node) vars)
                (map-Distinct key node vars h)
            ∙ map_settle nodes key node vars e)
      ]
