-- ===== src/KeyValue.antt =====
-- `getKeyValuePairsFromString` of src/infoLoggerUtils.cxx. A map is the list of its entries, each key
-- once.
pub mod Trim
pub mod Pieces
pub mod RoundTrip
use info_logger.Base.{
  ℕ, zero, suc, ◌+◌, ◌-◌, Bool, true, false, ◌&&◌, List, [], ◌∷◌, ◌++◌, Option, none, some, leb,
  if◌then◌else◌, length, take, drop,
}
use info_logger.CText.{Bytes, strchr, equal}
use info_logger.CText.Numbers.{is_space}

pub record Pair : Type 0 where
  pub key : Bytes
  pub value : Bytes

abbrev pub is_empty : Bytes → Bool
is_empty [] = true
is_empty (c ∷ cs) = false

-- `erase` from behind the last character that is not of `trimchars`
unfoldable pub trim_end : Bytes → Bytes
trim_end [] = []
trim_end (c ∷ cs) = let rest = trim_end cs in if is_space c && is_empty rest then [] else c ∷ rest

-- `erase` up to the first character that is not of `trimchars`
unfoldable pub trim_start : Bytes → Bytes
trim_start [] = []
trim_start (c ∷ cs) = let rest = trim_start cs in if is_space c then rest else c ∷ cs

unfoldable pub trim : Bytes → Bytes
trim s = trim_start (trim_end s)

-- `insert`, which leaves an entry that is there.
unfoldable pub insert : Pair → List Pair → List Pair
insert p [] = p ∷ []
insert p (q ∷ qs) = let rest = insert p qs in if equal q.key p.key then q ∷ qs else q ∷ rest

-- A pair at the start of the text, and the text behind the comma that ends it, if one does.
pub record Piece : Type 0 where
  pub pair : Pair
  pub rest : Option Bytes

-- The pair with the places of the '=' and of the comma, as `find` gives them.
unfoldable pub cut_piece : Bytes → Option ℕ → Option ℕ → Option Piece
cut_piece s ix1 none = none
cut_piece s none (some ix2) = some (record {
  pair = record { key = trim (take ix2 s); value = trim (drop (ix2 + 1) s) };
  rest = none;
})
cut_piece s (some ix1) (some ix2) =
    if leb ix1 ix2
    then none
    else some (record {
      pair = record {
        key = trim (take ix2 s);
        value = trim (take (ix1 - (ix2 + 1)) (drop (ix2 + 1) s));
      };
      rest = some (drop (ix1 + 1) s);
    })

-- The loop, with fuel.
unfoldable pub pairs_from : ℕ → Bytes → List Pair → List Pair
pairs_from zero s out = out
pairs_from (suc n) s out = elim (cut_piece s (strchr b',' s) (strchr b'=' s)) [
  | none ↦ out
  | some p ↦ elim p.rest [
    | none ↦ insert p.pair out
    | some s' ↦ pairs_from n s' (insert p.pair out)
  ]
]

-- `getKeyValuePairsFromString`, which returns 0; each turn takes at least a character.
unfoldable pub get_key_value_pairs_from_string : Bytes → List Pair
get_key_value_pairs_from_string s = pairs_from (suc (length s)) s []
