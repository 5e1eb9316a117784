-- ===== src/Message/Convert.antt =====
-- `infoLog_proto_init` and `infoLog_msg_convert` of src/infoLoggerMessage.c.
pub mod Carried
use info_logger.Base.{
  ℕ, zero, suc, ◌+◌, ◌-◌, ◌≡◌, refl, Bool, true, false, not, ◌&&◌, ◌||◌, List, [], ◌∷◌, ◌++◌, map,
  Option, none, some, ltb, leb, ◌==◌, if◌then◌else◌, ℤ, pos, negsuc, minus_one, length, replicate,
  get_or, get_elem?, set,
}
use info_logger.CText.{Bytes, equal, codes}
use info_logger.Message.{
  Real, Kind, null, string, int, double, FieldDef, Protocol, Value, Message, protocols,
  protocol_1_4, undefined, fields_max, same_kind, end_of_fields,
}

-- the loop over `k`: the index, in the first `n` fields of the reference, of one of this name and type
unfoldable pub match_field : ℕ → List FieldDef → FieldDef → ℕ → Option ℕ
match_field zero refs d k = none
match_field (suc n) [] d k = none
match_field (suc n) (ref ∷ refs) d k =
    let rest = match_field n refs d (k + 1) in
    if not (same_kind ref.kind d.kind) || not (equal ref.name d.name) then rest else some k

-- the loop over `j`: the conversion table of the first `n` fields, -1 being `none`
unfoldable pub convert_index : ℕ → List FieldDef → List (Option ℕ)
convert_index zero ds = []
convert_index (suc n) [] = []
convert_index (suc n) (d ∷ ds) =
    match_field protocol_1_4.number_of_fields protocol_1_4.fields d 0 ∷ convert_index n ds

-- the types allowed in a table
abbrev usable : FieldDef → Bool
usable d = not (same_kind d.kind null)

unfoldable pub all_usable : ℕ → List FieldDef → Bool
all_usable zero ds = true
all_usable (suc n) [] = false
all_usable (suc n) (d ∷ ds) = usable d && all_usable n ds

-- the checks of one protocol; the result is the line of the check that fails
unfoldable pub check_protocol : Protocol → Option ℕ
check_protocol p =
    if p.number_of_fields == 0
    then some 370
    else if ltb fields_max p.number_of_fields
    then some 373
    else if not (all_usable p.number_of_fields p.fields)
    then some 380
    else let last = get_or p.fields (p.number_of_fields - 1) end_of_fields in
      if not (same_kind last.kind string)
      then some 386
      else if not (equal last.name (codes "message"))
      then some 389
      else none

-- `infoLog_proto_init`: the returned code, and the conversion tables of the protocols if it is 0
unfoldable pub proto_init : List Protocol → ℤ × List (List (Option ℕ))
proto_init [] = (pos 0, [])
proto_init (p ∷ ps) = elim (check_protocol p) [
  | some line ↦ (pos line, [])
  | none ↦
      (let (code, tables) = proto_init ps in
        (code, convert_index p.number_of_fields p.fields ∷ tables))
]

module _ (r : Real) where
  -- the copy loop: each value goes to the index that the table has for it
  unfoldable pub move_values : List (Option ℕ) → List (Value r) → List (Value r) → List (Value r)
  move_values [] vs new = new
  move_values (none ∷ ix) [] new = new
  move_values (some k ∷ ix) [] new = new
  move_values (none ∷ ix) (v ∷ vs) new = move_values ix vs new
  move_values (some k ∷ ix) (v ∷ vs) new = move_values ix vs (set new k v)

  -- `infoLog_msg_convert`, given the conversion tables if `infoLog_proto_init` has run (`infolog_msg_isInit`)
  unfoldable pub convert :
      Option (List (List (Option ℕ))) → Option (Message r) → ℤ × Option (Message r)
  convert tables none = (pos 425, none)
  convert tables (some m) = elim m.protocol [
    | some zero ↦ (pos 0, some m)
    | some (suc p) ↦ elim tables [
      | none ↦ (pos 430, some m)
      | some ts ↦ (
        pos 0,
        some (record {
          values = move_values (get_or ts (suc p) []) m.values (replicate fields_max (undefined r));
          protocol = some 0;
        }),
      )
    ]
    | none ↦ elim tables [ none ↦ (pos 430, some m) | some ts ↦ (pos 433, some m) ]
  ]
