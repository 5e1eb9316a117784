-- ===== src/Message/Decode.antt =====
-- `infoLog_decode` of src/infoLoggerMessageDecode.c: the messages of a file of blobs. A blob is its
-- bytes; a string that points into it is read up to the first NUL, which the code puts at each `#`
-- and behind the end. A list of messages stands for the chain of `next` pointers, the empty one for NULL.
pub mod Fields
pub mod RoundTrip
use info_logger.Base.{
  ℕ, zero, suc, ◌+◌, ◌-◌, Bool, true, false, not, List, [], ◌∷◌, ◌++◌, Option, none, some, ltb,
  ◌==◌, if◌then◌else◌, ℤ, pos, negsuc, length, replicate, ltb_ℤ,
}
use info_logger.CText.{Bytes, c_str, equal}
use info_logger.CText.Numbers.{scan_int}
use info_logger.Message.{
  Real, Kind, null, string, int, double, FieldDef, Protocol, Value, Message, protocols, undefined,
  fields_max, same_kind,
}
use info_logger.Message.Convert.{convert}

-- The bytes before the first `#`, and those behind it; `none` if there is none before the end.
unfoldable pub until_hash : Bytes → Option (Bytes × Bytes)
until_hash [] = none
until_hash (c ∷ cs) =
    if c == b'#'
    then some ([], cs)
    else elim (until_hash cs) [ none ↦ none | some (start, rest) ↦ some (c ∷ start, rest) ]

-- the search for the protocol of a version, from index `i`
unfoldable pub find_protocol : List Protocol → Bytes → ℕ → Option (ℕ × Protocol)
find_protocol [] start i = none
find_protocol (p ∷ ps) start i =
    let rest = find_protocol ps start (i + 1) in
    if equal (c_str start) p.version then some (i, p) else rest

-- What becomes of a blob: the decoding stops there, it goes on and fails in the end, or there is a message.
pub data Parsed (A : Type 0) : Type 0 where
  stop bad : Parsed A
  good : A → Parsed A

abbrev pub is_last : List FieldDef → Bool
is_last [] = true
is_last (d ∷ ds) = same_kind d.kind null

module _ (r : Real) where
  open r use {scan_double, is_positive}

  unfoldable pub decode_string : Bytes → Value r
  decode_string start = if length start == 0 then undefined r else record (undefined r) {
    v_string = some (c_str start);
    length = length start;
    is_undefined = false;
  }

  -- negative and zero values are filtered out
  unfoldable pub decode_int : Bytes → Value r
  decode_int start = if length start == 0 then undefined r else elim (scan_int start) [
    | none ↦ undefined r
    | some v ↦
        (if ltb_ℤ (pos 0) v
          then record (undefined r) { v_int = v; is_undefined = false }
          else undefined r)
  ]

  unfoldable pub decode_double : Bytes → Value r
  decode_double start = if length start == 0 then undefined r else elim (scan_double start) [
    | none ↦ undefined r
    | some v ↦
        (if is_positive v
          then record (undefined r) { v_double = v; is_undefined = false }
          else undefined r)
  ]

  -- the switch on the type of a field, for the bytes of its value; `none` is the error of the default case
  unfoldable pub decode_value : Kind → Bytes → Option (Value r)
  decode_value string start = some (decode_string start)
  decode_value int start = some (decode_int (c_str start))
  decode_value double start = some (decode_double (c_str start))
  decode_value null start = none

  abbrev pub cons_value : Option (Value r) → Option (List (Value r)) → Option (List (Value r))
  cons_value none vs = none
  cons_value (some v) none = none
  cons_value (some v) (some vs) = some (v ∷ vs)

  -- the loop over the fields; `none` is an error. The last field takes all that is left.
  unfoldable pub decode_fields : List FieldDef → Bytes → Option (List (Value r))
  decode_fields [] text = some []
  decode_fields (d ∷ ds) text =
      if same_kind d.kind null
      then some []
      else if is_last ds
      then cons_value (decode_value d.kind (c_str text)) (some [])
      else elim (until_hash text) [
        | none ↦ none
        | some (start, rest) ↦ cons_value (decode_value d.kind start) (decode_fields ds rest)
      ]

  -- The fields behind those of the protocol are as `infoLog_msg_create` left them.
  abbrev pub padded : List (Value r) → List (Value r)
  padded vs = vs ++ replicate (fields_max - length vs) (undefined r)

  abbrev pub of_converted : Bool → ℤ × Option (Message r) → Parsed (Message r)
  of_converted failed (pos zero, some m) = if failed then bad else good m
  of_converted failed (pos zero, none) = stop
  of_converted failed (pos (suc k), m) = stop
  of_converted failed (negsuc k, m) = stop

  -- `infoLog_msg_convert` behind the field loop
  unfoldable pub parse_converted :
      Option (List (List (Option ℕ))) → Bool → Message r → Parsed (Message r)
  parse_converted tables failed m = of_converted failed (convert r tables (some m))

  -- the protocol and its fields, for the bytes behind the `#` of the version
  unfoldable pub parse_fields :
      Option (List (List (Option ℕ))) → Option (ℕ × Protocol) → Bytes → Parsed (Message r)
  parse_fields tables none text = stop
  parse_fields tables (some (k, p)) text = elim (decode_fields p.fields text) [
    | none ↦ parse_converted tables true (record { values = padded []; protocol = some k })
    | some vs ↦ parse_converted tables false (record { values = padded vs; protocol = some k })
  ]

  -- the version, behind the `*`
  unfoldable pub parse_version : Option (List (List (Option ℕ))) → Bytes → Parsed (Message r)
  parse_version tables [] = stop
  parse_version tables (c ∷ cs) = elim (until_hash (c ∷ cs)) [
    | none ↦ stop
    | some (version, text) ↦ parse_fields tables (find_protocol protocols version 0) text
  ]

  -- one round of the loop over the blobs
  unfoldable pub parse_blob : Option (List (List (Option ℕ))) → Bytes → Parsed (Message r)
  parse_blob tables [] = stop
  parse_blob tables (c ∷ cs) =
      let rest = parse_version tables cs in if c == b'*' then rest else stop

  abbrev cons_message : Message r → Option (List (Message r)) → Option (List (Message r))
  cons_message m none = none
  cons_message m (some ms) = some (m ∷ ms)

  -- the loop: the messages (`none` once `is_error` is set), and the blobs that are left in the file
  unfoldable pub parse_blobs :
      Option (List (List (Option ℕ))) → List Bytes → Option (List (Message r)) × List Bytes
  parse_blobs tables [] = (some [], [])
  parse_blobs tables (b ∷ bs) = elim (parse_blob tables b) [
    | stop ↦ (none, bs)
    | bad ↦ (none, (parse_blobs tables bs).1)
    | good m ↦ (let (ms, left) = parse_blobs tables bs in (cons_message m ms, left))
  ]

  abbrev or_null : Option (List (Message r)) → List (Message r)
  or_null none = []
  or_null (some ms) = ms

  -- `infoLog_decode`: the list of messages, and the blobs of the file that keep their data
  unfoldable pub decode :
      Option (List (List (Option ℕ))) → List Bytes → List (Message r) × List Bytes
  decode tables blobs = let (ms, left) = parse_blobs tables blobs in (or_null ms, left)
