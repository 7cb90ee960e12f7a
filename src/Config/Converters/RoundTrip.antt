-- ===== src/Config/Converters/RoundTrip.antt =====
-- include/qc/config/config.h: containers that are encoded and decoded again.
use mathlib.Core.List.{append-nil, append_assoc}
use qc.Base.{
  ℕ, ◌≡◌, refl, sym, ap, ◌∙◌, subst, Bool, false, Option, none, some, List, [], ◌∷◌, ◌++◌, map,
  ◌>>=◌, All, if◌then◌else◌, inl, inr, Bool-cases, same, same_other,
}
use qc.Log.Manager.{lookup}
use qc.Config.Node.{Yaml}
use qc.Config.Converters.{
  Codec, append, insert, collect, push_all, set_all, decode_entry, from_items, from_entries,
  key_less, encode_vector, decode_vector, encode_list, decode_list, encode_set, decode_set,
  encode_map, decode_map,
}
use qc.Config.Converters.Insertion.{
  insert_all, insert_all-append, collect-insert_all, Ascending, insert_all-insert, DistinctKeys,
  unless_empty,
}

module _ (yaml : Yaml) {T : Type 0} (codec : Codec yaml T) where
  open yaml use {
    Node, empty_node, push_back, set, items, entries, items_empty, items_first, items_push,
    entries_empty, entries_first, entries_set,
  }
  open codec use {encode, decode}

  abbrev pub encode_entry : List ℕ × T → List ℕ × Node
  encode_entry (k, x) = (k, encode x)

  items-push_all :
      (xs : List T) (n : Node) (ns : List Node)
      → items n ≡ some ns
      → items (push_all yaml codec n xs) ≡ some (ns ++ map encode xs)
  unfolding push_all
  items-push_all [] n ns e = e ∙ ap some (sym (append-nil ns))
  items-push_all (x ∷ xs) n ns e =
      items-push_all xs (push_back n (encode x)) (ns ++ encode x ∷ [])
        (items_push n (encode x) ns e)
      ∙ ap some (append_assoc ns (encode x ∷ []) (map encode xs))

  -- The node of an empty container is no sequence.
  abbrev pub node_items : List T → Option (List Node)
  node_items [] = none
  node_items (x ∷ xs) = some (map encode (x ∷ xs))

  pub items-encode : (xs : List T) → items (push_all yaml codec empty_node xs) ≡ node_items xs
  unfolding push_all
  items-encode [] = items_empty
  items-encode (x ∷ xs) =
      items-push_all xs (push_back empty_node (encode x)) (encode x ∷ []) (items_first (encode x))

  lookup-append :
      (k j : List ℕ) (n : Node) (es : List (List ℕ × Node))
      → lookup k es ≡ none
      → same k j ≡ false
      → lookup k (es ++ (j, n) ∷ []) ≡ none
  lookup-append k j n [] e f = rw f refl
  lookup-append k j n ((i, m) ∷ es) e f = elim (Bool-cases (same k i)) [
    | inl g ↦ absurd (let h = subst (λ b. (if b then some m else lookup k es) ≡ none) g e in cc)
    | inr g ↦
        rw g
          (lookup-append k j n es (subst (λ b. (if b then some m else lookup k es) ≡ none) g e) f)
  ]

  -- None of the keys of the entries is in a list of nodes.
  Apart : List (List ℕ × T) → List (List ℕ × Node) → Type 0
  Apart [] ns = Unit
  Apart ((k, x) ∷ es) ns = (lookup k ns ≡ none) × Apart es ns

  other_key :
      (k j : List ℕ) (x : T) (es : List (List ℕ × T))
      → lookup k ((j, x) ∷ es) ≡ none
      → same k j ≡ false
  other_key k j x es e = elim (Bool-cases (same k j)) [
    | inr g ↦ g
    | inl g ↦ absurd (let h = subst (λ b. (if b then some x else lookup k es) ≡ none) g e in cc)
  ]

  later_key :
      (k j : List ℕ) (x : T) (es : List (List ℕ × T))
      → lookup k ((j, x) ∷ es) ≡ none
      → lookup k es ≡ none
  later_key k j x es e =
      subst (λ b. (if b then some x else lookup k es) ≡ none) (other_key k j x es e) e

  Apart-append :
      (es : List (List ℕ × T)) (ns : List (List ℕ × Node)) (k : List ℕ) (n : Node)
      → Apart es ns
      → lookup k es ≡ none
      → Apart es (ns ++ (k, n) ∷ [])
  unfolding Apart
  Apart-append [] ns k n h e = tt
  Apart-append ((j, x) ∷ es) ns k n h e = (
    lookup-append j k n ns h.0 (same_other k j (other_key k j x es e)),
    Apart-append es ns k n h.1 (later_key k j x es e),
  )

  entries-set_all :
      (es : List (List ℕ × T)) (n : Node) (ns : List (List ℕ × Node))
      → entries n ≡ some ns
      → Apart es ns
      → DistinctKeys es
      → entries (set_all yaml codec n es) ≡ some (ns ++ map encode_entry es)
  unfolding set_all Apart DistinctKeys
  entries-set_all [] n ns e h u = e ∙ ap some (sym (append-nil ns))
  entries-set_all ((k, x) ∷ es) n ns e h u =
      entries-set_all es (set n k (encode x)) (ns ++ (k, encode x) ∷ [])
        (entries_set n (encode x) k ns e h.0) (Apart-append es ns k (encode x) h.1 u.0) u.1
      ∙ ap some (append_assoc ns ((k, encode x) ∷ []) (map encode_entry es))

  abbrev pub node_entries : List (List ℕ × T) → Option (List (List ℕ × Node))
  node_entries [] = none
  node_entries (e ∷ es) = some (map encode_entry (e ∷ es))

  Apart-first :
      (es : List (List ℕ × T)) (k : List ℕ) (n : Node) → lookup k es ≡ none → Apart es ((k, n) ∷ [])
  unfolding Apart
  Apart-first [] k n e = tt
  Apart-first ((j, x) ∷ es) k n e =
      (rw (same_other k j (other_key k j x es e)) refl, Apart-first es k n (later_key k j x es e))

  pub entries-encode :
      (es : List (List ℕ × T))
      → DistinctKeys es
      → entries (set_all yaml codec empty_node es) ≡ node_entries es
  unfolding set_all DistinctKeys
  entries-encode [] u = entries_empty
  entries-encode ((k, x) ∷ es) u =
      entries-set_all es (set empty_node k (encode x)) ((k, encode x) ∷ [])
        (entries_first k (encode x)) (Apart-first es k (encode x) u.0) u.1

  pub from_items-encode :
      (ins : T → List T → List T) (xs : List T)
      → All (λ x. decode (encode x) ≡ some x) xs
      → from_items yaml codec ins (push_all yaml codec empty_node xs)
        ≡ unless_empty xs (insert_all ins xs [])
  unfolding from_items
  from_items-encode ins [] back = ap (λ r. r >>= λ ns. collect ins decode ns []) (items-encode [])
  from_items-encode ins (x ∷ xs) back =
      ap (λ r. r >>= λ ns. collect ins decode ns []) (items-encode (x ∷ xs))
      ∙ collect-insert_all ins decode encode (x ∷ xs) [] back

  abbrev pub EntriesBack : List (List ℕ × T) → Type 0
  EntriesBack = All (λ (e : List ℕ × T). decode (encode e.1) ≡ some e.1)

  entries_back :
      (es : List (List ℕ × T))
      → EntriesBack es
      → All (λ e. decode_entry yaml codec (encode_entry e) ≡ some e) es
  entries_back [] back = tt
  entries_back ((k, x) ∷ es) back =
      (ap (λ r. r >>= λ x. some (k, x)) back.0, entries_back es back.1)

  pub from_entries-encode :
      (ins : List ℕ × T → List (List ℕ × T) → List (List ℕ × T)) (es : List (List ℕ × T))
      → EntriesBack es
      → DistinctKeys es
      → from_entries yaml codec ins (set_all yaml codec empty_node es)
        ≡ unless_empty es (insert_all ins es [])
  unfolding from_entries
  from_entries-encode ins [] back u =
      ap (λ r. r >>= λ ns. collect ins (decode_entry yaml codec) ns []) (entries-encode [] u)
  from_entries-encode ins (e ∷ es) back u =
      ap (λ r. r >>= λ ns. collect ins (decode_entry yaml codec) ns []) (entries-encode (e ∷ es) u)
      ∙ collect-insert_all ins (decode_entry yaml codec) encode_entry (e ∷ es) []
          (entries_back (e ∷ es) back)

  -- Where the elements can be read back: a vector and a list are read back as they were, but for an
  -- empty one, whose node is not a sequence, so that `decode` refuses it.
  pub decode-encode_sequence :
      (xs : List T)
      → All (λ x. decode (encode x) ≡ some x) xs
      → (decode_vector yaml codec (encode_vector yaml codec xs) ≡ unless_empty xs xs)
        × (decode_list yaml codec (encode_list yaml codec xs) ≡ unless_empty xs xs)
  decode-encode_sequence xs back =
      let e = from_items-encode append xs back ∙ ap (unless_empty xs) (insert_all-append xs []) in
      (e, e)

  -- Likewise for a set, gone through in its order, and for a map, with the order of its keys.
  pub decode-encode_ordered :
      (less : T → T → Bool) (key_order : List ℕ → List ℕ → Bool)
      → (xs : List T) → All (λ x. decode (encode x) ≡ some x) xs
      → Ascending less xs
      → (es : List (List ℕ × T)) → EntriesBack es
      → Ascending (key_less yaml codec key_order) es
      → DistinctKeys es
      → (decode_set yaml codec less (encode_set yaml codec xs) ≡ unless_empty xs xs)
        × (decode_map yaml codec key_order (encode_map yaml codec es) ≡ unless_empty es es)
  decode-encode_ordered less key_order xs back a es backs b u = (
    from_items-encode (insert less) xs back ∙ ap (unless_empty xs) (insert_all-insert less xs [] a),
    from_entries-encode (insert (key_less yaml codec key_order)) es backs u
        ∙ ap (unless_empty es) (insert_all-insert (key_less yaml codec key_order) es [] b),
  )
