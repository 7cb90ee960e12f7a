-- ===== src/Config/Converters/Tests.antt =====
-- The theorems about the converters at concrete values.
use mathlib.Core.Quot
use qc.Base.{
  ℕ, ◌≡◌, ◌↔◌, refl, Bool, true, false, none, some, List, [], ◌∷◌, same, same_refl, same_eq, ltb,
  codes, subst,
}
use qc.Config.Tree.{trees}
use qc.Config.Converters.Insertion.{DistinctKeys}
use qc.Config.Converters.{
  Codec, from_items, push_all, encode_vector, decode_vector, encode_unordered_set,
  decode_unordered_set, encode_unordered_map, decode_unordered_map,
}
use qc.Config.Converters.Unordered.{decode-encode_unordered}

abbrev texts : Codec trees (List ℕ)
texts = record { encode = trees.text; decode = trees.as_text }

abbrev word_a : List ℕ
word_a = codes "a"

abbrev word_b : List ℕ
word_b = codes "b"

abbrev words : List (List ℕ)
words = word_a ∷ word_b ∷ []

abbrev pairs : List (List ℕ × List ℕ)
pairs = (word_a, word_b) ∷ (word_b, word_b) ∷ []

-- The order of the first character.
abbrev first_less : List ℕ → List ℕ → Bool
first_less (a ∷ as') (b ∷ bs) = ltb a b
first_less _ _ = false

-- An empty container is refused.
no_words : decode_vector trees texts (encode_vector trees texts []) ≡ none
unfolding from_items push_all
no_words = refl

abbrev lawful_same : (a b : List ℕ) → (same a b ≡ true) ↔ (a ≡ b)
lawful_same a b = (same_eq a b, λ e. subst (λ x. same a x ≡ true) e (same_refl a))

decode-encode_unordered_example :
    (decode_unordered_set trees texts same (encode_unordered_set trees texts words)
      ≡ some (Quot.mk words))
    × (decode_unordered_map trees texts (encode_unordered_map trees texts pairs)
        ≡ some (Quot.mk pairs))
unfolding DistinctKeys
decode-encode_unordered_example =
    decode-encode_unordered trees texts same lawful_same words (refl, (refl, tt)) pairs
      (refl, (refl, tt)) (refl, (refl, tt))
