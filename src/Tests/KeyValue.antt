-- ===== src/Tests/KeyValue.antt =====
-- Options of the client at a concrete input.
use info_logger.Base.{◌≡◌, refl, [], ◌∷◌, List, map, arith}
use info_logger.CText.{codes}
use info_logger.CText.Numbers.{is_space}
use info_logger.KeyValue.{get_key_value_pairs_from_string}
use info_logger.KeyValue.Pieces.{text_of_pairs, ArePlain, Lacks}
use info_logger.KeyValue.RoundTrip.{
  Spaced, written, bare, lookup, AreSpaced, get_key_value_pairs_from_string-text_of_pairs,
}

abbrev mode : Spaced
mode = record {
  before_key = codes "";
  pair = record { key = codes "m"; value = codes "f g" };
  behind_key = codes " ";
  before_value = codes " ";
  behind_value = codes "";
}

abbrev mode_again : Spaced
mode_again = record {
  before_key = codes "\t";
  pair = record { key = codes "m"; value = codes "a=b" };
  behind_key = codes "";
  before_value = codes "";
  behind_value = codes " ";
}

abbrev options : List Spaced
options = mode ∷ mode_again ∷ []

options-ArePlain : ArePlain (map written options)
unfolding ArePlain Lacks
options-ArePlain = (
  (refl, (refl, refl)),
  (refl, (refl, refl)),
  (refl, (refl, (refl, (refl, refl)))),
  ((refl, (refl, refl)), (refl, (refl, refl)), (refl, (refl, (refl, (refl, refl)))), omega arith),
)

options-AreSpaced : AreSpaced options
unfolding is_space
options-AreSpaced = (
  record {
    starts = (tt, refl);
    key_ends = (refl, (refl, tt));
    value_starts = ((refl, tt), refl);
    ends = (refl, tt);
  },
  (
    record {
      starts = ((refl, tt), refl);
      key_ends = (refl, tt);
      value_starts = (tt, refl);
      ends = (refl, (refl, tt));
    },
    tt,
  ),
)

get_key_value_pairs_from_string-text_of_pairs_example :
    lookup (codes "m") (
      get_key_value_pairs_from_string
        (text_of_pairs (written mode) (map written (mode_again ∷ []))))
    ≡ lookup (codes "m") (map bare options)
get_key_value_pairs_from_string-text_of_pairs_example =
    get_key_value_pairs_from_string-text_of_pairs mode (mode_again ∷ []) (codes "m")
      options-ArePlain options-AreSpaced
