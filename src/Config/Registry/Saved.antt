-- ===== src/Config/Registry/Saved.antt =====
-- src/config/config.cpp: a configuration that GetConfig saves and LoadFromYaml loads.
use qc.Base.{
  same, same_eq, Option-cases, same_refl, same_other, fun_ext, ℕ, suc, ◌≡◌, refl, sym, ap, ◌∙◌,
  true, false, ◌||◌, Option, none, some, List, [], ◌∷◌, ◌++◌, map, if◌then◌else◌, Bool-cases, inl,
  inr,
}
use mathlib.Core.List.{append-nil, append_assoc}
use qc.Log.Manager.{lookup}
use qc.Config.{
  ConfigVar, Values, ConfigVarMap, is_empty_name, valid_name, each, traversal_yaml, set_value,
  from_node, load_nodes,
}
use qc.Config.Node.{Yaml}
use qc.Config.Converters.{Codec, set_all}
use qc.Config.Converters.Insertion.{DistinctKeys}
use qc.Config.Converters.RoundTrip.{encode_entry, node_entries, entries-encode}
use qc.Config.Registry.{lookup_base, visit, Valid}
use qc.Config.Variables.{
  NoneNamed, Distinct, settle_var, load_nodes-settle_var, from_node-name, from_node-some,
}

module _ (yaml : Yaml) {T L : Type 0} (ops : Values T L yaml.Node) (to_node : T → yaml.Node) where
  open yaml use {Node, empty_node, set, entries}
  open ops use {equal, listener_throws, convert, is_null}

  unfoldable pub get_config : ConfigVarMap ops → Node
  unfolding visit
  get_config vars = visit ops (λ v root. set root v.name (to_node v.value)) vars empty_node

  abbrev value_codec : Codec yaml T
  value_codec = record { encode = to_node; decode = convert }

  abbrev named : ConfigVar T L → List ℕ × T
  named v = (v.name, v.value)

  abbrev saved_nodes : ConfigVarMap ops → List (List ℕ × Node)
  saved_nodes vars = map (encode_entry yaml value_codec) (map named vars)

  visit-set_all :
      (vars : ConfigVarMap ops) (n : Node)
      → visit ops (λ v root. set root v.name (to_node v.value)) vars n
        ≡ set_all yaml value_codec n (map named vars)
  unfolding visit set_all
  visit-set_all [] n = refl
  visit-set_all (v ∷ vars) n = visit-set_all vars (set n v.name (to_node v.value))

  NoneNamed-lookup :
      (k : List ℕ) (vars : ConfigVarMap ops)
      → NoneNamed ops k vars
      → lookup k (map named vars) ≡ none
  unfolding NoneNamed
  NoneNamed-lookup k [] h = refl
  NoneNamed-lookup k (v ∷ vars) h = rw (same_other v.name k h.0) (NoneNamed-lookup k vars h.1)

  Distinct-DistinctKeys :
      (vars : ConfigVarMap ops) → Distinct ops vars → DistinctKeys (map named vars)
  unfolding Distinct DistinctKeys
  Distinct-DistinctKeys [] d = tt
  Distinct-DistinctKeys (v ∷ vars) d =
      (NoneNamed-lookup v.name vars d.0, Distinct-DistinctKeys vars d.1)

  each-saved_nodes :
      (n : ℕ) (vars : ConfigVarMap ops) (nodes : List (List ℕ × Node))
      → ((x : T) → entries (to_node x) ≡ none)
      → Valid ops vars
      → each entries (traversal_yaml entries (suc n)) [] (saved_nodes vars) nodes
        ≡ some (nodes ++ saved_nodes vars)
  unfolding each traversal_yaml Valid valid_name
  each-saved_nodes n [] nodes flat w = ap some (sym (append-nil nodes))
  each-saved_nodes n (v ∷ vars) nodes flat w =
      rw (w.1, flat v.value)
        (each-saved_nodes n vars (nodes ++ (v.name, to_node v.value) ∷ []) flat w.2
          ∙ ap some (append_assoc nodes ((v.name, to_node v.value) ∷ []) (saved_nodes vars)))

  entries-get_config :
      (vars : ConfigVarMap ops)
      → Distinct ops vars
      → entries (get_config vars) ≡ node_entries yaml value_codec (map named vars)
  unfolding get_config
  entries-get_config vars d =
      ap entries (visit-set_all vars empty_node)
      ∙ entries-encode yaml value_codec (map named vars) (Distinct-DistinctKeys vars d)

  traversal_yaml-get_config :
      (n : ℕ) (vars : ConfigVarMap ops)
      → ((x : T) → entries (to_node x) ≡ none)
      → Valid ops vars
      → Distinct ops vars
      → traversal_yaml entries (suc (suc n)) [] (get_config vars) []
        ≡ some (([], get_config vars) ∷ saved_nodes vars)
  unfolding traversal_yaml valid_name
  traversal_yaml-get_config n vars flat w d = ap walk (entries-get_config vars d) ∙ walked vars w
    where
      walk : Option (List (List ℕ × Node)) → Option (List (List ℕ × Node))
      walk r = elim r [
        | none ↦ some (([], get_config vars) ∷ [])
        | some es ↦ each entries (traversal_yaml entries (suc n)) [] es (([], get_config vars) ∷ [])
      ]

      walked :
          (vs : ConfigVarMap ops)
          → Valid ops vs
          → walk (node_entries yaml value_codec (map named vs))
            ≡ some (([], get_config vars) ∷ saved_nodes vs)
      walked [] w = refl
      walked (v ∷ vs) w = each-saved_nodes n (v ∷ vs) (([], get_config vars) ∷ []) flat w

  -- What a variable becomes, by the variable of its name when the configuration was saved.
  abbrev pub restored : ConfigVar T L → Option (ConfigVar T L) → ConfigVar T L
  restored v none = v
  restored v (some s) = if is_null (to_node s.value) then v else record v { value = s.value }

  -- No listener throws, and only a value that is the same is equal.
  abbrev IsPlain : Type 0
  IsPlain =
      ((cb : L) (old new : T) → listener_throws cb old new ≡ false)
      × ((a b : T) → equal a b ≡ true → a ≡ b)

  set_value-value :
      (x : T) (v : ConfigVar T L) → IsPlain → (set_value ops x v).0 ≡ record v { value = x }
  unfolding set_value
  set_value-value x v plain = elim (Bool-cases (equal v.value x)) [
    | inl e ↦ rw e (ap (λ y. record v { value = y }) (plain.1 v.value x e))
    | inr e ↦ elim (Option-cases v.cb) [
      | inl q ↦ rw (e, q) (ap (λ c. record v { value = x; cb = c }) q)
      | inr (cb, q) ↦ rw (e, q, plain.0 cb v.value x) (ap (λ c. record v { value = x; cb = c }) q)
    ]
  ]

  settle_var-NoneNamed :
      (saved : ConfigVarMap ops) (v : ConfigVar T L) (k : List ℕ)
      → v.name ≡ k
      → NoneNamed ops k saved
      → settle_var ops (saved_nodes saved) v ≡ v
  unfolding settle_var NoneNamed
  settle_var-NoneNamed [] v k e h = refl
  settle_var-NoneNamed (s ∷ saved) v k e h =
      elim (Bool-cases (is_empty_name ops s.name || is_null (to_node s.value))) [
        | inl f ↦ rw f (settle_var-NoneNamed saved v k e h.1)
        | inr f ↦
            let g : same v.name s.name ≡ false =
              ap (λ n. same n s.name) e ∙ same_other s.name k h.0 in
            rw (f, g) (settle_var-NoneNamed saved v k e h.1)
      ]

  settle_var-restored :
      (saved : ConfigVarMap ops) (v : ConfigVar T L)
      → IsPlain
      → ((x : T) → convert (to_node x) ≡ some x)
      → Valid ops saved
      → Distinct ops saved
      → settle_var ops (saved_nodes saved) v ≡ restored v (lookup_base ops v.name saved)
  unfolding settle_var lookup_base Valid Distinct
  settle_var-restored [] v plain back w d = refl
  settle_var-restored (s ∷ saved) v plain back w d = elim (Bool-cases (same s.name v.name)) [
    | inr f ↦ elim (Bool-cases (is_null (to_node s.value))) [
      | inl g ↦ rw (w.0, g, f) (settle_var-restored saved v plain back w.2 d.1)
      | inr g ↦
          rw (w.0, g, f, same_other s.name v.name f)
            (settle_var-restored saved v plain back w.2 d.1)
    ]
    | inl f ↦
        let e : v.name ≡ s.name = sym (same_eq s.name v.name f) in
        elim (Bool-cases (is_null (to_node s.value))) [
          | inl g ↦ rw (w.0, g, f, g) (settle_var-NoneNamed saved v s.name e d.0)
          | inr g ↦
              let q : same v.name s.name ≡ true = ap (λ n. same n s.name) e ∙ same_refl s.name in
              rw (w.0, g, q, f, g)
                (settle_var-NoneNamed saved (from_node ops (to_node s.value) v).0 s.name
                    (from_node-name ops (to_node s.value) v ∙ e) d.0
                  ∙ ap (λ r. r.0) (from_node-some ops (to_node s.value) v s.value (back s.value))
                  ∙ set_value-value s.value v plain)
        ]
  ]

  -- Where no listener throws, no value is equal to another, no value is saved as a map, values are read
  -- back from their nodes, and the names of the saved variables are valid and distinct: TraversalYaml lists a saved configuration, and when it is loaded
  -- into any map with distinct names, each variable that was saved is set to its value from then, but
  -- for one that was saved as a null node, and the others stay.
  pub load_nodes-get_config :
      (n : ℕ) (saved vars : ConfigVarMap ops)
      → ((cb : L) (old new : T) → listener_throws cb old new ≡ false)
      → ((a b : T) → equal a b ≡ true → a ≡ b)
      → ((x : T) → entries (to_node x) ≡ none)
      → ((x : T) → convert (to_node x) ≡ some x)
      → Valid ops saved
      → Distinct ops saved
      → Distinct ops vars
      → (nodes : List (List ℕ × Node)) × (traversal_yaml entries
            (suc (suc n))
            []
            (get_config saved)
            []
          ≡ some nodes)
        × ((load_nodes ops nodes vars).0
            ≡ map (λ v. restored v (lookup_base ops v.name saved)) vars)
  unfolding settle_var
  load_nodes-get_config n saved vars quiet exact flat back w d u = (
    ([], get_config saved) ∷ saved_nodes saved,
    traversal_yaml-get_config n saved flat w d,
    load_nodes-settle_var ops (([], get_config saved) ∷ saved_nodes saved) vars u
        ∙ ap (λ f. map f vars) (fun_ext (λ v. settle_var-restored saved v (quiet, exact) back w d)),
  )
