-- ===== src/Config/Tests.antt =====
-- The theorems about the configuration at concrete values.
use mathlib.Core.List.{map}
use qc.Config.Variables.{settle_var, Distinct, NoneNamed, load_nodes-settle_var}
use qc.Base.{
  true, false, ◌==◌, ltb, if◌then◌else◌, ℕ, zero, suc, ◌≡◌, refl, Option, none, some, List, [], ◌∷◌,
  arith,
}
use qc.Config.{ConfigVar, Values, new_var, set_listener, load_nodes}

-- A map under a map: nodes 2 and 1 have one entry, "a" and "b".
abbrev chain : ℕ → Option (List (List ℕ × ℕ))
chain (suc (suc zero)) = some ((b'a' ∷ [], 1) ∷ [])
chain (suc zero) = some ((b'b' ∷ [], 0) ∷ [])
chain _ = none

abbrev pair : List ℕ → ℕ → List ℕ × ℕ
pair key n = (key, n)

-- Numbers for values, nodes and listeners; the node 0 is null, and nodes from 90 on are no number.
abbrev numbers : Values ℕ ℕ ℕ
numbers = record {
  equal = λ a b. a == b;
  listener_throws = λ cb old new. false;
  convert = λ n. if ltb n 90 then some n else none;
  is_null = λ n. n == 0;
}

abbrev heard : ConfigVar ℕ ℕ
heard = set_listener 5 (new_var (b'a' ∷ []) 7)

abbrev silent : ConfigVar ℕ ℕ
silent = new_var (b'b' ∷ []) 8

self_equal : (x : ℕ) → (x == x) ≡ true
self_equal x = ground arith

abbrev listed : List (List ℕ × ℕ)
listed = ([], 1) ∷ (b'a' ∷ [], 3) ∷ (b'b' ∷ [], 0) ∷ (b'a' ∷ [], 4) ∷ (b'c' ∷ [], 9) ∷ []

load_nodes-settle_var_example :
    (load_nodes numbers listed (heard ∷ silent ∷ [])).0
    ≡ map (settle_var numbers listed) (heard ∷ silent ∷ [])
unfolding Distinct NoneNamed
load_nodes-settle_var_example =
    load_nodes-settle_var numbers listed (heard ∷ silent ∷ []) ((refl, tt), (tt, tt))
