-- ===== src/Config/Node.antt =====
-- The nodes of yaml-cpp, as far as include/qc/config uses them: what the code calls, and what the
-- library documents of these calls. `none` is an exception, or an answer that a node has no such part.
use qc.Base.{ℕ, ◌<◌, ◌^◌, ◌≡◌, Option, none, some, List, [], ◌∷◌, ◌++◌}
use qc.Log.Manager.{lookup}

pub record Yaml : Type 1 where
  pub Node : Type 0
  -- `Node()`, `push_back`, and the assignment to `node[key]`
  pub empty_node : Node
  pub push_back : Node → Node → Node
  pub set : Node → List ℕ → Node → Node
  -- the items of a sequence, and the entries of a map
  pub items : Node → Option (List Node)
  pub entries : Node → Option (List (List ℕ × Node))
  -- `node[key]` of a constant node, where that does not throw: the node there, if there is one
  pub get : Node → List ℕ → Option (Option Node)
  -- scalars; a negative int is given by its 32 bits
  pub text : List ℕ → Node
  pub as_text : Node → Option (List ℕ)
  pub int : ℕ → Node
  pub as_int : Node → Option ℕ
  -- a node is a sequence from the first `push_back` on, and a map from the first assignment on
  pub items_empty : items empty_node ≡ none
  pub items_first : (x : Node) → items (push_back empty_node x) ≡ some (x ∷ [])
  pub items_push :
      (n x : Node) (xs : List Node)
      → items n ≡ some xs
      → items (push_back n x) ≡ some (xs ++ x ∷ [])
  pub entries_empty : entries empty_node ≡ none
  pub entries_first : (k : List ℕ) (x : Node) → entries (set empty_node k x) ≡ some ((k, x) ∷ [])
  pub entries_set :
      (n x : Node) (k : List ℕ) (es : List (List ℕ × Node))
      → entries n ≡ some es
      → lookup k es ≡ none
      → entries (set n k x) ≡ some (es ++ (k, x) ∷ [])
  pub get_entries :
      (n : Node) (k : List ℕ) (es : List (List ℕ × Node))
      → entries n ≡ some es
      → get n k ≡ some (lookup k es)
  pub text_back : (s : List ℕ) → as_text (text s) ≡ some s
  pub int_back : (i : ℕ) → i < 2 ^ 31 → as_int (int i) ≡ some i
