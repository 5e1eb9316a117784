-- ===== src/KeyValue/RoundTrip.antt =====
-- The text of some pairs is read back by `getKeyValuePairsFromString` of src/infoLoggerUtils.cxx.
use info_logger.Base.{
  ◌≡◌, refl, sym, ap, ◌∙◌, Bool, true, false, List, [], ◌∷◌, ◌++◌, Option, none, some, map,
  if◌then◌else◌, Bool-cases, inl, inr,
}
use info_logger.CText.{Bytes, equal, equal→≡}
use info_logger.KeyValue.{Pair, trim, insert, get_key_value_pairs_from_string}
use info_logger.KeyValue.Pieces.{
  text_of_pairs, ArePlain, trimmed, insert_all, text_of_pairs-inserted,
}
use info_logger.KeyValue.Trim.{IsBlank, StartsBare, EndsBare, trim-around}

-- The value of the first entry of a key.
abbrev pub lookup : Bytes → List Pair → Option Bytes
lookup k [] = none
lookup k (p ∷ ps) = if equal p.key k then some p.value else lookup k ps

-- A pair with what stands around its key and its value.
pub record Spaced : Type 0 where
  pub before_key : Bytes
  pub pair : Pair
  pub behind_key : Bytes
  pub before_value : Bytes
  pub behind_value : Bytes

abbrev pub written : Spaced → Pair
written p = record {
  key = p.before_key ++ (p.pair.key ++ p.behind_key);
  value = p.before_value ++ (p.pair.value ++ p.behind_value);
}

abbrev pub bare : Spaced → Pair
bare p = p.pair

-- Only white space stands around the key and the value, which neither start nor end with any.
pub record IsSpaced (p : Spaced) : Type 0 where
  pub starts : IsBlank p.before_key × StartsBare p.pair.key
  pub key_ends : EndsBare p.pair.key × IsBlank p.behind_key
  pub value_starts : IsBlank p.before_value × StartsBare p.pair.value
  pub ends : EndsBare p.pair.value × IsBlank p.behind_value

abbrev pub AreSpaced : List Spaced → Type 0
AreSpaced [] = Unit
AreSpaced (p ∷ ps) = IsSpaced p × AreSpaced ps

trimmed-written : (p : Spaced) → IsSpaced p → trimmed (written p) ≡ p.pair
trimmed-written p h =
    ap (λ k. record { key = k; value = trim (written p).value })
      (trim-around p.before_key p.pair.key p.behind_key h.starts.0 h.key_ends.1 h.starts.1
        h.key_ends.0)
    ∙ ap (λ v. record { key = p.pair.key; value = v })
        (trim-around p.before_value p.pair.value p.behind_value h.value_starts.0 h.ends.1
          h.value_starts.1 h.ends.0)

abbrev or_else : Option Bytes → Option Bytes → Option Bytes
or_else none y = y
or_else (some x) y = some x

or_else_assoc : (x y z : Option Bytes) → or_else (or_else x y) z ≡ or_else x (or_else y z)
or_else_assoc none y z = refl
or_else_assoc (some x) y z = refl

or_else-none : (x : Option Bytes) → or_else x none ≡ x
or_else-none none = refl
or_else-none (some x) = refl

one_more :
    (b : Bool) (v : Bytes) (rest : Option Bytes)
    → or_else (if b then some v else none) rest ≡ (if b then some v else rest)
one_more true v rest = refl
one_more false v rest = refl

-- What a key that is there, and a new key, adds.
module _ (k : Bytes) (p : Pair) where
  abbrev single : Option Bytes
  single = if equal p.key k then some p.value else none

  lookup-insert : (out : List Pair) → lookup k (insert p out) ≡ or_else (lookup k out) single
  unfolding insert
  lookup-insert [] = refl
  lookup-insert (q ∷ qs) = elim (Bool-cases (equal q.key k)) [
    | inl e ↦ elim (Bool-cases (equal q.key p.key)) [
      | inl f ↦ rw (f, e) refl
      | inr f ↦ rw (f, e) refl
    ]
    | inr e ↦ elim (Bool-cases (equal q.key p.key)) [
      | inl f ↦
          rw (f, e) (absent (lookup k qs) (ap (λ x. equal x k) (sym (equal→≡ q.key p.key f)) ∙ e))
      | inr f ↦ rw (f, e) (lookup-insert qs)
    ]
  ]
    where
      absent : (x : Option Bytes) → equal p.key k ≡ false → x ≡ or_else x single
      absent none g = rw g refl
      absent (some x) g = refl

lookup-insert_all :
    (k : Bytes) (ps : List Spaced) (out : List Pair)
    → AreSpaced ps
    → lookup k (insert_all (map written ps) out) ≡ or_else (lookup k out) (lookup k (map bare ps))
unfolding insert_all
lookup-insert_all k [] out h = sym (or_else-none (lookup k out))
lookup-insert_all k (p ∷ ps) out h =
    let rest = lookup k (map bare ps) in
    lookup-insert_all k ps (insert (trimmed (written p)) out) h.1
    ∙ (ap (λ x. or_else x rest)
          (ap (λ q. lookup k (insert q out)) (trimmed-written p h.0) ∙ lookup-insert k p.pair out)
        ∙ (or_else_assoc (lookup k out) (single k p.pair) rest
            ∙ ap (λ x. or_else (lookup k out) x) (one_more (equal p.pair.key k) p.pair.value rest)))

-- The text of some pairs, with any white space around keys and values, is read as the map of the pairs:
-- to each key it has the value of the first pair of this key, without the white space around it, and no
-- other keys. No key has an equals sign or a comma, and no value a comma.
pub get_key_value_pairs_from_string-text_of_pairs :
    (p : Spaced) (ps : List Spaced) (k : Bytes)
    → ArePlain (map written (p ∷ ps))
    → AreSpaced (p ∷ ps)
    → lookup k (get_key_value_pairs_from_string (text_of_pairs (written p) (map written ps)))
      ≡ lookup k (map bare (p ∷ ps))
get_key_value_pairs_from_string-text_of_pairs p ps k h s =
    ap (λ out. lookup k out) (text_of_pairs-inserted (written p) (map written ps) h)
    ∙ lookup-insert_all k (p ∷ ps) [] s
