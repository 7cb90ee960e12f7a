-- ===== src/Config/Converters/Unordered.antt =====
-- include/qc/config/config.h: unordered containers, up to the order in which they are gone through.
use mathlib.Core.Quot
use mathlib.Core.Quot.{Quot}
use qc.Base.{
  ℕ, ◌≡◌, ◌↔◌, refl, sym, ap, ◌∙◌, subst, Bool, true, false, Option, none, some, List, [], ◌∷◌,
  if◌then◌else◌, inl, inr, Bool-cases, Option-cases, ◌>>=◌, All, same, same_eq,
}
use qc.Log.Manager.{lookup}
use qc.Config.Node.{Yaml}
use qc.Config.Converters.{
  Codec, contains, insert_unordered, emplace, encode_unordered_set, decode_unordered_set,
  encode_unordered_map, decode_unordered_map,
}
use qc.Config.Converters.Insertion.{insert_all, DistinctKeys, unless_empty}
use qc.Config.Converters.RoundTrip.{from_items-encode, from_entries-encode, EntriesBack}

abbrev either : Bool → Bool → Bool
either a b = if a then true else b

either_assoc : (a b c : Bool) → either a (either b c) ≡ either (either b a) c
either_assoc true true c = refl
either_assoc true false c = refl
either_assoc false true c = refl
either_assoc false false c = refl

module _ {T : Type 0} where
  contains-insert :
      (equal : T → T → Bool)
      → ((x y : T) → (equal x y ≡ true) ↔ (x ≡ y))
      → (x y : T) (ys : List T)
      → contains equal x (insert_unordered equal y ys)
        ≡ (if equal y x then true else contains equal x ys)
  unfolding insert_unordered
  contains-insert equal lawful x y ys = elim (Bool-cases (contains equal y ys)) [
    | inr f ↦ rw f (unfold contains in refl)
    | inl f ↦ rw f (elim (Bool-cases (equal y x)) [
      | inl g ↦ rw g (subst (λ z. contains equal z ys ≡ true) ((lawful y x).0 g) f)
      | inr g ↦ rw g refl
    ])
  ]

  contains-insert_all :
      (equal : T → T → Bool)
      → ((x y : T) → (equal x y ≡ true) ↔ (x ≡ y))
      → (x : T) (xs out : List T)
      → contains equal x (insert_all (insert_unordered equal) xs out)
        ≡ either (contains equal x out) (contains equal x xs)
  unfolding insert_all contains
  contains-insert_all equal lawful x [] out = last (contains equal x out)
    where
      last : (b : Bool) → b ≡ either b false
      last true = refl
      last false = refl
  contains-insert_all equal lawful x (y ∷ xs) out =
      contains-insert_all equal lawful x xs (insert_unordered equal y out)
      ∙ ap (λ b. either b (contains equal x xs)) (contains-insert equal lawful x y out)
      ∙ sym (either_assoc (contains equal x out) (equal y x) (contains equal x xs))

  abbrev or_else : Option T → Option T → Option T
  or_else none b = b
  or_else (some a) b = some a

  or_else-none : (a : Option T) → a ≡ or_else a none
  or_else-none none = refl
  or_else-none (some a) = refl

  abbrev emplaced : List ℕ → T → List (List ℕ × T) → Option T → List (List ℕ × T)
  emplaced j x m r = elim r [ some y ↦ m | none ↦ (j, x) ∷ m ]

  lookup-emplace :
      (k j : List ℕ) (x : T) (m : List (List ℕ × T))
      → lookup k (emplace (j, x) m) ≡ or_else (lookup k m) (if same k j then some x else none)
  unfolding emplace
  lookup-emplace k j x m = elim (Option-cases (lookup j m)) [
    | inr (y, e) ↦ ap (λ r. lookup k (emplaced j x m r)) e ∙ there y e
    | inl e ↦ ap (λ r. lookup k (emplaced j x m r)) e ∙ new e
  ]
    where
      there :
          (y : T)
          → lookup j m ≡ some y
          → lookup k m ≡ or_else (lookup k m) (if same k j then some x else none)
      there y e = elim (Bool-cases (same k j)) [
        | inr f ↦ rw f (or_else-none (lookup k m))
        | inl f ↦
            let h : lookup k m ≡ some y = ap (λ z. lookup z m) (same_eq k j f) ∙ e in rw h refl
      ]

      new :
          lookup j m ≡ none
          → (if same k j then some x else lookup k m)
            ≡ or_else (lookup k m) (if same k j then some x else none)
      new e = elim (Bool-cases (same k j)) [
        | inr f ↦ rw f (or_else-none (lookup k m))
        | inl f ↦
            let h : lookup k m ≡ none = ap (λ z. lookup z m) (same_eq k j f) ∙ e in rw (f, h) refl
      ]

  or_else_assoc : (a b c : Option T) → or_else (or_else a b) c ≡ or_else a (or_else b c)
  or_else_assoc none b c = refl
  or_else_assoc (some a) b c = refl

  or_else_first :
      (b : Bool) (x : T) (c : Option T)
      → or_else (if b then some x else none) c ≡ (if b then some x else c)
  or_else_first true x c = refl
  or_else_first false x c = refl

  lookup-insert_all :
      (k : List ℕ) (es out : List (List ℕ × T))
      → lookup k (insert_all emplace es out) ≡ or_else (lookup k out) (lookup k es)
  unfolding insert_all
  lookup-insert_all k [] out = or_else-none (lookup k out)
  lookup-insert_all k ((j, x) ∷ es) out =
      lookup-insert_all k es (emplace (j, x) out)
      ∙ ap (λ r. or_else r (lookup k es)) (lookup-emplace k j x out)
      ∙ or_else_assoc (lookup k out) (if same k j then some x else none) (lookup k es)
      ∙ ap (or_else (lookup k out)) (or_else_first (same k j) x (lookup k es))

module _ (yaml : Yaml) {T : Type 0} (codec : Codec yaml T) where
  open codec use {encode, decode}

  view-unless_empty :
      {A B Q : Type 0} (view : A → Q) (xs : List B) (a : A)
      → (unless_empty xs a >>= λ b. some (view b)) ≡ unless_empty xs (view a)
  view-unless_empty view [] a = refl
  view-unless_empty view (x ∷ xs) a = refl

  pub decode-encode_unordered_set :
      (equal : T → T → Bool)
      → ((x y : T) → (equal x y ≡ true) ↔ (x ≡ y))
      → (xs : List T) → All (λ x. decode (encode x) ≡ some x) xs
      → decode_unordered_set yaml codec equal (encode_unordered_set yaml codec xs)
        ≡ unless_empty xs (Quot.mk xs)
  decode-encode_unordered_set equal lawful xs back =
      ap (λ r. r >>= λ out. some (Quot.mk out))
        (from_items-encode yaml codec (insert_unordered equal) xs back)
      ∙ view-unless_empty Quot.mk xs (insert_all (insert_unordered equal) xs [])
      ∙ ap (unless_empty xs)
          (Quot.sound (λ x. contains-insert_all equal lawful x xs [] ∙ unfold contains in refl))

  pub decode-encode_unordered_map :
      (es : List (List ℕ × T))
      → EntriesBack yaml codec es
      → DistinctKeys es
      → decode_unordered_map yaml codec (encode_unordered_map yaml codec es)
        ≡ unless_empty es (Quot.mk es)
  decode-encode_unordered_map es back u =
      ap (λ r. r >>= λ out. some (Quot.mk out)) (from_entries-encode yaml codec emplace es back u)
      ∙ view-unless_empty Quot.mk es (insert_all emplace es [])
      ∙ ap (unless_empty es) (Quot.sound (λ k. lookup-insert_all k es []))

  -- Where the elements can be read back, by the equality of the elements: an unordered set is read
  -- back with the same members, and an unordered map with the same entries, in whatever order they
  -- are gone through; but for an empty one, which `decode` refuses.
  pub decode-encode_unordered :
      (equal : T → T → Bool)
      → ((x y : T) → (equal x y ≡ true) ↔ (x ≡ y))
      → (xs : List T) → All (λ x. decode (encode x) ≡ some x) xs
      → (es : List (List ℕ × T)) → EntriesBack yaml codec es
      → DistinctKeys es
      → (decode_unordered_set yaml codec equal (encode_unordered_set yaml codec xs)
          ≡ unless_empty xs (Quot.mk xs))
        × (decode_unordered_map yaml codec (encode_unordered_map yaml codec es)
            ≡ unless_empty es (Quot.mk es))
  decode-encode_unordered equal lawful xs back es backs u =
      (decode-encode_unordered_set equal lawful xs back, decode-encode_unordered_map es backs u)
