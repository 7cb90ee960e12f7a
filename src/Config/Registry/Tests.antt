-- ===== src/Config/Registry/Tests.antt =====
-- The theorems about the map of variables at concrete values.
use qc.Base.{
  arith, ℕ, zero, ◌≡◌, refl, Bool, true, false, Option, none, some, List, [], ◌∷◌, map, same,
  if◌then◌else◌, ◌==◌, codes,
}
use qc.Config.{valid_name, ConfigVar, Values, new_var, set_listener, traversal_yaml, load_nodes}
use qc.Config.Tree.{Tree, trees}
use qc.Config.Registry.{create, lookup_base, Valid, present, refused, answer, create-lookup_base}
use qc.Config.Registry.Saved.{get_config, restored, load_nodes-get_config}
use qc.Config.Variables.{Distinct, NoneNamed}

-- Numbers for values and for listeners.
abbrev number_of : Tree → Option ℕ
number_of (Tree.number i) = some i
number_of n = none

abbrev is_null : Tree → Bool
is_null Tree.null = true
is_null n = false

abbrev numbers : Values ℕ ℕ Tree
numbers = record {
  equal = λ a b. a == b;
  listener_throws = λ cb old new. false;
  convert = number_of;
  is_null = is_null;
}

abbrev stack_size : ConfigVar ℕ ℕ
stack_size = new_var (codes "stack_size") 128

abbrev workers : ConfigVar ℕ ℕ
workers = set_listener 5 (new_var (codes "workers") 4)

abbrev small : ConfigVar ℕ ℕ
small = new_var (codes "stack_size") 64

abbrev any_type : ConfigVar ℕ ℕ → Bool
any_type v = true

-- A name with a character that is not allowed, and one that is there already.
bad_name : (create numbers any_type (codes "a b") 1 (stack_size ∷ [])).0 ≡ none
unfolding create valid_name
bad_name = refl

create-lookup_base_example :
    Valid numbers (create numbers any_type (codes "workers") 7 (stack_size ∷ [])).1
    × Distinct numbers (create numbers any_type (codes "workers") 7 (stack_size ∷ [])).1
    × ((create numbers any_type (codes "workers") 7 (stack_size ∷ [])).0
        ≡ answer numbers any_type
            (refused numbers (codes "workers"))
            (lookup_base numbers (codes "workers") (stack_size ∷ []))
            (lookup_base numbers
              (codes "workers")
              (create numbers any_type (codes "workers") 7 (stack_size ∷ [])).1))
    × ((k : List ℕ)
        → lookup_base numbers k (create numbers any_type (codes "workers") 7 (stack_size ∷ [])).1
          ≡ (if same (codes "workers") k
              then present numbers
                  (refused numbers (codes "workers"))
                  k
                  7
                  (lookup_base numbers k (stack_size ∷ []))
              else lookup_base numbers k (stack_size ∷ [])))
unfolding Valid valid_name Distinct NoneNamed
create-lookup_base_example =
    create-lookup_base numbers any_type (codes "workers") 7 (stack_size ∷ []) (refl, refl, tt)
      (tt, tt)

load_nodes-get_config_example :
    (nodes : List (List ℕ × Tree)) × (traversal_yaml trees.entries 2 []
        (get_config trees numbers (λ i. Tree.number i) (stack_size ∷ workers ∷ []))
        []
      ≡ some nodes)
    × ((load_nodes numbers nodes (small ∷ [])).0
        ≡ map
            (λ v.
              restored trees numbers
                (λ i. Tree.number i)
                v
                (lookup_base numbers v.name (stack_size ∷ workers ∷ [])))
            (small ∷ []))
unfolding Valid valid_name Distinct NoneNamed
load_nodes-get_config_example =
    load_nodes-get_config trees numbers (λ i. Tree.number i) zero (stack_size ∷ workers ∷ [])
      (small ∷ []) (λ cb old new. refl) (λ a b e. ground arith) (λ i. refl) (λ i. refl)
      (refl, refl, (refl, refl, tt)) ((refl, tt), (tt, tt)) (tt, tt)
