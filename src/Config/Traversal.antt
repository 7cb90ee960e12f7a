-- ===== src/Config/Traversal.antt =====
-- src/config/config.cpp: the nodes that TraversalYaml lists.
use qc.Base.{In, ℕ, ◌≡◌, ◌↔◌, ◌⊎◌, true, Option, some, List}
use qc.Config.{valid_name, join_key}

module _ {N : Type 0} (entries : N → Option (List (List ℕ × N))) where
  -- `x` is found from the node, with its name, by keys whose joined names are valid all the way.
  pub data Under : List ℕ → N → List ℕ → N → Type 0 where
    here : {prefix : List ℕ} {node : N} → valid_name prefix ≡ true → Under prefix node prefix node
    below :
        {prefix : List ℕ} {node : N} (es : List (List ℕ × N)) (key : List ℕ) (child : N)
        {name : List ℕ} {x : N}
        → valid_name prefix ≡ true
        → entries node ≡ some es
        → In (key, child) es
        → Under (join_key prefix key) child name x
        → Under prefix node name x

  abbrev Nodes : Type 0
  Nodes = List (List ℕ × N)

  -- What a call adds: the result is the list so far and what is under the node.
  abbrev Adds : (List ℕ → N → Type 0) → Nodes → Nodes → Type 0
  Adds P nodes out = (p : List ℕ) (x : N) → In (p, x) out ↔ (In (p, x) nodes ⊎ P p x)

  abbrev Lists : (List ℕ → N → Type 0) → Nodes → Option Nodes → Type 0
  Lists P nodes r = (out : Nodes) × (r ≡ some out) × Adds P nodes out

  abbrev Same : List ℕ × N → List ℕ × N → Type 0
  Same a b = a ≡ b

  -- Under one of the entries.
  abbrev UnderSome : List ℕ → Nodes → List ℕ → N → Type 0
  UnderSome prefix es p x =
      (key : List ℕ) × (child : N) × In (key, child) es × Under (join_key prefix key) child p x
