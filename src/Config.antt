-- ===== src/Config.antt =====
-- src/config/config.cpp and include/qc/config/config.h: reading a tree of nodes, and variables with a
-- listener. Nodes are of the YAML library: `entries` are the keys and values of a node that is a map.
pub mod Traversal
pub mod Variables
pub mod Node
pub mod Tree
pub mod Registry
pub mod Converters
mod Tests
use qc.Base.{
  same, same_eq, ℕ, zero, suc, Bool, true, false, not, ◌&&◌, ◌||◌, Option, none, some, List, [],
  ◌∷◌, ◌++◌, ◌==◌, leb, if◌then◌else◌,
}

-- The letters, digits, point and underscore of a name.
abbrev pub valid_char : ℕ → Bool
valid_char c =
    (leb b'a' c && leb c b'z')
    || (leb b'A' c && leb c b'Z')
    || (leb b'0' c && leb c b'9')
    || (c == b'.')
    || (c == b'_')

unfoldable pub valid_name : List ℕ → Bool
valid_name [] = true
valid_name (c ∷ cs) = valid_char c && valid_name cs

abbrev pub join_key : List ℕ → List ℕ → List ℕ
join_key [] key = key
join_key (c ∷ cs) key = (c ∷ cs) ++ b'.' ∷ key

module _ {N : Type 0} (entries : N → Option (List (List ℕ × N))) where
  -- The loop of TraversalYaml over the entries of a node, for a given recursive call.
  unfoldable pub each :
      (List ℕ → N → List (List ℕ × N) → Option (List (List ℕ × N)))
      → List ℕ
      → List (List ℕ × N)
      → List (List ℕ × N)
      → Option (List (List ℕ × N))
  each go prefix [] nodes = some nodes
  each go prefix ((key, child) ∷ es) nodes = elim (go (join_key prefix key) child nodes) [
    | none ↦ none
    | some nodes' ↦ each go prefix es nodes'
  ]

  -- TraversalYaml, with fuel for the depth of the tree: `none` when it runs out.
  unfoldable pub traversal_yaml : ℕ → List ℕ → N → List (List ℕ × N) → Option (List (List ℕ × N))
  unfolding each
  traversal_yaml zero prefix node nodes = none
  traversal_yaml (suc n) prefix node nodes =
      if valid_name prefix
      then elim (entries node) [
        | none ↦ some (nodes ++ (prefix, node) ∷ [])
        | some es ↦ each (traversal_yaml n) prefix es (nodes ++ (prefix, node) ∷ [])
      ]
      else some nodes

-- A ConfigVar: `T` is the type of values, `L` that of listeners.
pub record ConfigVar (T L : Type 0) : Type 0 where
  pub name : List ℕ
  pub value : T
  pub cb : Option L

abbrev pub new_var : {T L : Type 0} → List ℕ → T → ConfigVar T L
new_var name default_value = record { name = name; value = default_value; cb = none }

abbrev pub set_listener : {T L : Type 0} → L → ConfigVar T L → ConfigVar T L
set_listener cb v = record v { cb = some cb }

abbrev pub remove_listener : {T L : Type 0} → ConfigVar T L → ConfigVar T L
remove_listener v = record v { cb = none }

-- What the type of values and the listeners do: the test of equality, what a listener throws, and the
-- conversion of a node, which throws too.
pub record Values (T L N : Type 0) : Type 0 where
  pub equal : T → T → Bool
  pub listener_throws : L → T → T → Bool
  pub convert : N → Option T
  pub is_null : N → Bool

module _ {T L N : Type 0} (ops : Values T L N) where
  open ops use {equal, listener_throws, convert, is_null}

  -- The calls of listeners, with the old value and the new one.
  abbrev pub Calls : Type 0
  Calls = List (L × T × T)

  -- `setValue`: the variable, the calls, and whether a listener threw.
  unfoldable pub set_value : T → ConfigVar T L → ConfigVar T L × Calls × Bool
  set_value x v = if equal v.value x then (v, [], false) else elim v.cb [
    | none ↦ (record v { value = x }, [], false)
    | some cb ↦
        if listener_throws cb v.value x
        then (v, (cb, v.value, x) ∷ [], true)
        else (record v { value = x }, (cb, v.value, x) ∷ [], false)
  ]

  -- `fromNode`, which catches and logs whatever is thrown.
  unfoldable pub from_node : N → ConfigVar T L → ConfigVar T L × Calls
  unfolding set_value
  from_node node v = elim (convert node) [
    | none ↦ (v, [])
    | some x ↦ ((set_value x v).0, (set_value x v).1)
  ]

  -- `fromString`, which catches too; `load` is YAML::Load, none where that throws.
  unfoldable pub from_string : (List ℕ → Option N) → List ℕ → ConfigVar T L → ConfigVar T L × Calls
  unfolding from_node
  from_string load val v = elim (load val) [ none ↦ (v, []) | some node ↦ from_node node v ]

  -- `toString`: the value as a node, and that as the stream operator of the library writes it.
  abbrev pub to_string : (N → List ℕ) → (T → N) → ConfigVar T L → List ℕ
  to_string emit encode v = emit (encode v.value)

  abbrev pub ConfigVarMap : Type 0
  ConfigVarMap = List (ConfigVar T L)

  -- `LookupBase` with `fromNode` of the variable found: names are unique in the map.
  unfoldable pub load_one : List ℕ → N → ConfigVarMap → ConfigVarMap × Calls
  unfolding from_node
  load_one key node [] = ([], [])
  load_one key node (v ∷ vars) =
      let (rest, calls) = load_one key node vars in
      if same v.name key
      then ((from_node node v).0 ∷ vars, (from_node node v).1)
      else (v ∷ rest, calls)

  abbrev pub is_empty_name : List ℕ → Bool
  is_empty_name [] = true
  is_empty_name (c ∷ cs) = false

  -- The loop of `LoadFromYaml` over the list that TraversalYaml made.
  unfoldable pub load_nodes : List (List ℕ × N) → ConfigVarMap → ConfigVarMap × Calls
  unfolding load_one
  load_nodes [] vars = (vars, [])
  load_nodes ((key, node) ∷ nodes) vars =
      if is_empty_name key || is_null node then load_nodes nodes vars else (
        (load_nodes nodes (load_one key node vars).0).0,
        (load_one key node vars).1 ++ (load_nodes nodes (load_one key node vars).0).1,
      )
