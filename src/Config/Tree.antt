-- ===== src/Config/Tree.antt =====
-- Concrete nodes, in place of the nodes of yaml-cpp.
use qc.Base.{ℕ, ◌≡◌, refl, ap, ◌>>=◌, Option, none, some, List, [], ◌∷◌, ◌++◌}
use qc.Log.Manager.{lookup}
use qc.Config.Node.{Yaml}

pub data Tree : Type 0 where
  null : Tree
  scalar : List ℕ → Tree
  number : ℕ → Tree
  push : Tree → Tree → Tree
  put : Tree → List ℕ → Tree → Tree

abbrev parts : {A : Type 0} → Option (List A) → List A
parts none = []
parts (some xs) = xs

abbrev tree_items : Tree → Option (List Tree)
tree_items (Tree.push n x) = some (parts (tree_items n) ++ x ∷ [])
tree_items _ = none

abbrev tree_entries : Tree → Option (List (List ℕ × Tree))
tree_entries (Tree.put n k x) = some (parts (tree_entries n) ++ (k, x) ∷ [])
tree_entries _ = none

-- Null has no parts, and neither a scalar nor a sequence has keys.
abbrev tree_get : Tree → List ℕ → Option (Option Tree)
tree_get Tree.null k = some none
tree_get n k = do es ← tree_entries n; some (lookup k es)

abbrev tree_text : Tree → Option (List ℕ)
tree_text (Tree.scalar s) = some s
tree_text _ = none

abbrev tree_int : Tree → Option ℕ
tree_int (Tree.number i) = some i
tree_int _ = none

pub get_entries-tree :
    (n : Tree) (k : List ℕ) (es : List (List ℕ × Tree))
    → tree_entries n ≡ some es
    → tree_get n k ≡ some (lookup k es)
get_entries-tree Tree.null k es e = cc
get_entries-tree (Tree.scalar s) k es e = cc
get_entries-tree (Tree.number i) k es e = cc
get_entries-tree (Tree.push n x) k es e = cc
get_entries-tree (Tree.put n j x) k es e = ap (λ r. r >>= λ es. some (lookup k es)) e

abbrev pub trees : Yaml
trees = record {
  Node = Tree;
  empty_node = Tree.null;
  push_back = λ n x. Tree.push n x;
  set = λ n k x. Tree.put n k x;
  items = tree_items;
  entries = tree_entries;
  get = tree_get;
  text = λ s. Tree.scalar s;
  as_text = tree_text;
  int = λ i. Tree.number i;
  as_int = tree_int;
  items_empty = refl;
  items_first = λ x. refl;
  items_push = λ n x xs e. ap (λ r. some (parts r ++ x ∷ [])) e;
  entries_empty = refl;
  entries_first = λ k x. refl;
  entries_set = λ n x k es e f. ap (λ r. some (parts r ++ (k, x) ∷ [])) e;
  get_entries = get_entries-tree;
  text_back = λ s. refl;
  int_back = λ i h. refl;
}
