-- ===== src/Config/Converters.antt =====
-- include/qc/config/config.h: the converters of containers. A std::set or std::map is a list in its
-- order; an unordered one is given by the order in which it is gone through.
pub mod Insertion
pub mod RoundTrip
pub mod Unordered
mod Tests
use mathlib.Core.Quot
use mathlib.Core.Quot.{Quot}
use qc.Base.{
  ℕ, ◌≡◌, Bool, true, false, Option, none, some, List, [], ◌∷◌, ◌++◌, if◌then◌else◌, ◌>>=◌,
}
use qc.Log.Manager.{lookup}
use qc.Config.Node.{Yaml}

-- The containers' insertions. A key that is there already is kept.
module _ {T : Type 0} where
  abbrev pub append : T → List T → List T
  append x xs = xs ++ x ∷ []

  unfoldable pub insert : (T → T → Bool) → T → List T → List T
  insert less x [] = x ∷ []
  insert less x (y ∷ ys) =
      let rest = insert less x ys in
      if less x y then x ∷ y ∷ ys else if less y x then y ∷ rest else y ∷ ys

  unfoldable pub contains : (T → T → Bool) → T → List T → Bool
  contains equal x [] = false
  contains equal x (y ∷ ys) = if equal y x then true else contains equal x ys

  unfoldable pub insert_unordered : (T → T → Bool) → T → List T → List T
  unfolding contains
  insert_unordered equal x ys = if contains equal x ys then ys else x ∷ ys

  -- Two lists have the same members: what an unordered container is a list up to.
  abbrev pub SameMembers : (T → T → Bool) → List T → List T → Type 0
  SameMembers equal xs ys = (x : T) → contains equal x xs ≡ contains equal x ys

  abbrev pub UnorderedSet : (T → T → Bool) → Type 0
  UnorderedSet equal = Quot (SameMembers equal)

module _ {T : Type 0} where
  -- `emplace` of an unordered map
  unfoldable pub emplace : List ℕ × T → List (List ℕ × T) → List (List ℕ × T)
  emplace (k, x) m = elim (lookup k m) [ some y ↦ m | none ↦ (k, x) ∷ m ]

  abbrev pub SameLookup : List (List ℕ × T) → List (List ℕ × T) → Type 0
  SameLookup m m' = (k : List ℕ) → lookup k m ≡ lookup k m'

abbrev pub UnorderedMap : Type 0 → Type 0
UnorderedMap T = Quot (SameLookup {T = T})

-- The loop of a `decode`: the first exception ends it.
unfoldable pub collect :
    {S T : Type 0} → (T → List T → List T) → (S → Option T) → List S → List T → Option (List T)
collect ins decode [] out = some out
collect ins decode (n ∷ ns) out = do x ← decode n; collect ins decode ns (ins x out)

module _ (yaml : Yaml) where
  open yaml use {Node, empty_node, push_back, set, items, entries}

  -- `convert<T>::encode`, and `as<T>`, which is none where it throws.
  pub record Codec (T : Type 0) : Type 0 where
    pub encode : T → Node
    pub decode : Node → Option T

  module _ {T : Type 0} (codec : Codec T) where
    open codec use {encode, decode}

    unfoldable pub push_all : Node → List T → Node
    push_all n [] = n
    push_all n (x ∷ xs) = push_all (push_back n (encode x)) xs

    unfoldable pub set_all : Node → List (List ℕ × T) → Node
    set_all n [] = n
    set_all n ((k, x) ∷ es) = set_all (set n k (encode x)) es

    abbrev pub decode_entry : List ℕ × Node → Option (List ℕ × T)
    decode_entry (k, n) = do x ← decode n; some (k, x)

    -- A decoder over the items of a sequence, and over the entries of a map.
    unfoldable pub from_items : (T → List T → List T) → Node → Option (List T)
    unfolding collect
    from_items ins n = do ns ← items n; collect ins decode ns []

    abbrev pub Entries : Type 0
    Entries = List (List ℕ × T)

    unfoldable pub from_entries : (List ℕ × T → Entries → Entries) → Node → Option Entries
    unfolding collect
    from_entries ins n = do ns ← entries n; collect ins decode_entry ns []

    abbrev pub encode_vector : List T → Node
    encode_vector vec = push_all empty_node vec

    abbrev pub decode_vector : Node → Option (List T)
    decode_vector n = from_items append n

    abbrev pub encode_list : List T → Node
    encode_list lst = push_all empty_node lst

    abbrev pub decode_list : Node → Option (List T)
    decode_list n = from_items append n

    abbrev pub encode_set : List T → Node
    encode_set s = push_all empty_node s

    abbrev pub decode_set : (T → T → Bool) → Node → Option (List T)
    decode_set less n = from_items (insert less) n

    abbrev pub encode_map : Entries → Node
    encode_map m = set_all empty_node m

    abbrev pub key_less : (List ℕ → List ℕ → Bool) → List ℕ × T → List ℕ × T → Bool
    key_less less a b = less a.0 b.0

    abbrev pub decode_map : (List ℕ → List ℕ → Bool) → Node → Option Entries
    decode_map less n = from_entries (insert (key_less less)) n

    abbrev pub encode_unordered_set : List T → Node
    encode_unordered_set s = push_all empty_node s

    abbrev pub decode_unordered_set : (equal : T → T → Bool) → Node → Option (UnorderedSet equal)
    decode_unordered_set equal n = do
      out ← from_items (insert_unordered equal) n
      some (Quot.mk out)

    abbrev pub encode_unordered_map : Entries → Node
    encode_unordered_map m = set_all empty_node m

    abbrev pub decode_unordered_map : Node → Option (UnorderedMap T)
    decode_unordered_map n = do out ← from_entries emplace n; some (Quot.mk out)
