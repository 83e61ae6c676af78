-- ===== src/Connector/Join/Tuples.antt =====
-- connector/crosssignalconnector/join.go: the tuple of a row's key values (keyTuple) tells apart the
-- lists of texts in which the delimiter does not occur.
use opentelemetry_querier.Base.{
  String, Bool, true, false, ◌&&◌, not, Option, none, some, List, [], ◌∷◌, ◌≡◌, ◌∙◌, sym, ap, refl,
  arith, ◌==◌, ◌<>◌, all, str_eq, str_eq_iff, if◌then◌else◌, Bool_ext,
}
use Prim.Native.Char.{Char, code}
use opentelemetry_querier.Connector.Join.{key_delim, join_parts}
use opentelemetry_querier.Connector.Join.Loops.{same_tuple}

-- The delimiter does not occur in the text.
abbrev pub is_undelimited : String → Bool
is_undelimited String.[] = true
is_undelimited (String.◌∷◌ c s) = not (code c == 0) && is_undelimited s

-- A character before the first text.
push : Char → List String → List String
push c [] = String.◌∷◌ c "" ∷ []
push c (s ∷ parts) = String.◌∷◌ c s ∷ parts

-- The texts between the delimiters.
split_parts : String → List String
unfolding push
split_parts String.[] = "" ∷ []
split_parts (String.◌∷◌ c s) =
    let parts = split_parts s in if code c == 0 then "" ∷ parts else push c parts

split_last : (s : String) → is_undelimited s ≡ true → split_parts s ≡ s ∷ []
unfolding split_parts push
split_last String.[] h = refl
split_last (String.◌∷◌ c s) h = ground (arith, split_last s)

split_first :
    (s r : String)
    → is_undelimited s ≡ true
    → split_parts (s <> (key_delim <> r)) ≡ s ∷ split_parts r
unfolding split_parts push
split_first String.[] r h = refl
split_first (String.◌∷◌ c s) r h = ground (arith, split_first s r)

split_parts-join_parts :
    (s : String) (parts : List String)
    → all is_undelimited (s ∷ parts) ≡ true
    → split_parts (join_parts (s ∷ parts)) ≡ s ∷ parts
unfolding join_parts
split_parts-join_parts s [] h = split_last s (ground (arith, h))
split_parts-join_parts s (t ∷ parts) h =
    split_first s (join_parts (t ∷ parts)) (ground (arith, h))
    ∙ ap (◌∷◌ s) (split_parts-join_parts t parts (ground (arith, h)))

-- Two lists have the same texts.
abbrev pub same_texts : List String → List String → Bool
same_texts [] [] = true
same_texts (s ∷ ss) (t ∷ ts) = str_eq s t && same_texts ss ts
same_texts [] (t ∷ ts) = false
same_texts (s ∷ ss) [] = false

same_texts_refl : (ss : List String) → same_texts ss ss ≡ true
same_texts_refl [] = refl
same_texts_refl (s ∷ ss) = ground (arith, str_eq_iff s s, same_texts_refl ss)

same_texts_sound : (ss ts : List String) → same_texts ss ts ≡ true → ss ≡ ts
same_texts_sound [] [] h = refl
same_texts_sound [] (t ∷ ts) h = cc
same_texts_sound (s ∷ ss) [] h = cc
same_texts_sound (s ∷ ss) (t ∷ ts) h = ground (arith, str_eq_iff s t, same_texts_sound ss ts)

-- The tuples of texts without a delimiter are equal exactly if the texts are.
join_parts-same_texts :
    (s t : String) (ss ts : List String)
    → all is_undelimited (s ∷ ss) ≡ true
    → all is_undelimited (t ∷ ts) ≡ true
    → str_eq (join_parts (s ∷ ss)) (join_parts (t ∷ ts)) ≡ same_texts (s ∷ ss) (t ∷ ts)
join_parts-same_texts s t ss ts h k =
    Bool_ext _ _
      (λ e.
        let joined : join_parts (s ∷ ss) ≡ join_parts (t ∷ ts) = (str_eq_iff _ _).0 e in
        let same : (s ∷ ss) ≡ t ∷ ts =
          sym (split_parts-join_parts s ss h)
          ∙ ap split_parts joined
          ∙ split_parts-join_parts t ts k in
        ap (same_texts (s ∷ ss)) (sym same) ∙ same_texts_refl (s ∷ ss))
      (λ e. (str_eq_iff _ _).1 (ap join_parts (same_texts_sound (s ∷ ss) (t ∷ ts) e)))

-- Both texts are there, and they are equal.
abbrev pub same_text : Option String → Option String → Bool
same_text (some s) (some t) = str_eq s t
same_text none o = false
same_text (some s) none = false

-- A text that is there has no delimiter.
abbrev pub undelimited : Option String → Bool
undelimited none = true
undelimited (some s) = is_undelimited s

-- A text before others, if all are there.
abbrev pub also : Option String → Option (List String) → Option (List String)
also none ps = none
also (some s) none = none
also (some s) (some ss) = some (s ∷ ss)

-- The texts at the keys, if all are there.
abbrev pub gathered : (String → Option String) → List String → Option (List String)
gathered f [] = some []
gathered f (k ∷ ks) = also (f k) (gathered f ks)

abbrev all_same : Option (List String) → Option (List String) → Bool
all_same (some ss) (some ts) = same_texts ss ts
all_same none o = false
all_same (some ss) none = false

abbrev all_undelimited : Option (List String) → Bool
all_undelimited none = true
all_undelimited (some ss) = all is_undelimited ss

abbrev pub tuple_of : Option (List String) → Option String
tuple_of none = none
tuple_of (some ss) = some (join_parts ss)

str_eq_sym : (s t : String) → str_eq s t ≡ str_eq t s
str_eq_sym s t = ground (arith, str_eq_iff s t, str_eq_iff t s)

all_same-also :
    (o p : Option String) (os ps : Option (List String))
    → all_same (also o os) (also p ps) ≡ (same_text o p && all_same os ps)
all_same-also none p os ps = refl
all_same-also (some s) p none ps = ground arith
all_same-also (some s) none (some ss) ps = refl
all_same-also (some s) (some t) (some ss) none = ground arith
all_same-also (some s) (some t) (some ss) (some ts) = refl

also-undelimited :
    (o : Option String) (os : Option (List String))
    → undelimited o ≡ true
    → all_undelimited os ≡ true
    → all_undelimited (also o os) ≡ true
also-undelimited none os h hs = refl
also-undelimited (some s) none h hs = refl
also-undelimited (some s) (some ss) h hs = ground (arith, h, hs)

same_tuple-also :
    (o p : Option String) (os ps : Option (List String))
    → undelimited o ≡ true
    → undelimited p ≡ true
    → all_undelimited os ≡ true
    → all_undelimited ps ≡ true
    → same_tuple (tuple_of (also o os)) (tuple_of (also p ps)) ≡ (same_text o p && all_same os ps)
same_tuple-also none p os ps h k hs ks = refl
same_tuple-also (some s) p none ps h k hs ks = ground arith
same_tuple-also (some s) none (some ss) ps h k hs ks = ground arith
same_tuple-also (some s) (some t) (some ss) none h k hs ks = ground arith
same_tuple-also (some s) (some t) (some ss) (some ts) h k hs ks =
    str_eq_sym (join_parts (t ∷ ts)) (join_parts (s ∷ ss))
    ∙ join_parts-same_texts s t ss ts (ground (arith, h, hs)) (ground (arith, k, ks))

all_same-gathered :
    (f g : String → Option String) (ks : List String)
    → all_same (gathered f ks) (gathered g ks) ≡ all (λ k. same_text (f k) (g k)) ks
all_same-gathered f g [] = refl
all_same-gathered f g (k ∷ ks) =
    all_same-also (f k) (g k) (gathered f ks) (gathered g ks)
    ∙ ap (λ b. same_text (f k) (g k) && b) (all_same-gathered f g ks)

gathered-undelimited :
    (f : String → Option String) (ks : List String)
    → all (λ k. undelimited (f k)) ks ≡ true
    → all_undelimited (gathered f ks) ≡ true
gathered-undelimited f [] h = refl
gathered-undelimited f (k ∷ ks) h =
    also-undelimited (f k) (gathered f ks) (ground (arith, h))
      (gathered-undelimited f ks (ground (arith, h)))

-- Where no text has a delimiter, two tuples are equal exactly if at every key both texts are there
-- and equal.
pub same_tuple-gathered :
    (f g : String → Option String) (ks : List String)
    → all (λ k. undelimited (f k)) ks ≡ true
    → all (λ k. undelimited (g k)) ks ≡ true
    → same_tuple (tuple_of (gathered f ks)) (tuple_of (gathered g ks))
      ≡ all (λ k. same_text (f k) (g k)) ks
unfolding join_parts
same_tuple-gathered f g [] h h' = refl
same_tuple-gathered f g (k ∷ ks) h h' =
    same_tuple-also (f k) (g k) (gathered f ks) (gathered g ks) (ground (arith, h))
      (ground (arith, h')) (gathered-undelimited f ks (ground (arith, h)))
      (gathered-undelimited g ks (ground (arith, h')))
    ∙ ap (λ b. same_text (f k) (g k) && b) (all_same-gathered f g ks)
