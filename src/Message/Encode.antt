-- ===== src/Message/Encode.antt =====
-- `mysprintf` and `infoLog_msg_encode` of src/infoLoggerMessage.c. A buffer is its size and the
-- string in it; `strLength` is the length of that string, since every write closes it with a NUL at
-- `strLength`. A line number of the sources is an error code. The formats used never make vsnprintf fail.
pub mod Bounds
pub mod Held
pub mod Record
pub mod Lines
use info_logger.Base.{
  ℕ, zero, suc, ◌+◌, ◌-◌, ◌≡◌, Bool, true, false, not, ◌&&◌, ◌||◌, List, [], ◌∷◌, ◌++◌, map, Option,
  none, some, ltb, leb, ◌==◌, if◌then◌else◌, ℤ, pos, negsuc, minus_one, leb_ℤ, ltb_ℤ, length, take,
  drop, get_or, get_elem?,
}
use info_logger.CText.{Bytes, codes, strchr}
use info_logger.CText.Numbers.{print_int}
use info_logger.Message.{
  Real, Kind, null, string, int, double, FieldDef, Protocol, Value, Message, protocols,
  protocol_1_4, end_of_fields, same_kind, undefined,
}

pub record Buffer : Type 0 where
  pub size : ℕ
  pub text : Bytes
  pub is_error : Bool

-- `mysprintf_init` of a given buffer, for a positive size
abbrev pub init : ℕ → Buffer
init size = record { size = size; text = []; is_error = false }

-- `mysprintf` of a formatted text: what does not fit is cut and sets the error flag, which stops
-- all further writes.
unfoldable pub append : Buffer → Bytes → ℤ × Buffer
append s str =
    if s.is_error
    then (minus_one, s)
    else if leb s.size (length str + length s.text)
    then (minus_one, record s { text = take (s.size - 1) (s.text ++ str); is_error = true })
    else (pos 0, record s { text = s.text ++ str })

-- The bytes that must not stand in a field.
unfoldable pub replace_special : ℕ → ℕ
replace_special c = if c == b'*' || (c == b'#' || c == b'\n') then b'?' else c

-- the truncation to the end of the current line: `newl = ix + (eol - sol)`
unfoldable pub cut_line : Buffer → ℕ → Option ℕ → Buffer
cut_line s ix none = s
cut_line s ix (some eol) =
    if ltb (ix + eol) s.size
    then record s { text = take (ix + eol) s.text; is_error = false }
    else s

-- The state of the field loop: the buffer, `ix` (`none` for -1), `i` and `isError`.
pub record Progress : Type 0 where
  pub buffer : Buffer
  pub ix : Option ℕ
  pub index : ℕ
  pub code : ℤ

-- `eol`, the end of the first line, as an offset
abbrev pub first_break : Option Bytes → Option ℕ
first_break none = none
first_break (some sol) = strchr b'\n' sol

-- the string case of the switch; `eol` is given for the field that is split
unfoldable pub put_string : Buffer → Option Bytes → Option ℕ → Buffer
put_string s none eol = s
put_string s (some str) eol =
    let ix = length s.text in
    let cut = cut_line (append s str).1 ix eol in
    record cut { text = take ix cut.text ++ map replace_special (drop ix cut.text) }

module _ (r : Real) where
  open r use {print_double}

  -- the switch on the type of a defined field; `sol` and `eol` are used where the field is split
  unfoldable pub put_value : Kind → Value r → Bool → Option Bytes → Option ℕ → Progress → Progress
  put_value string v split sol eol p =
      let s = p.buffer in
      record p {
        ix = some (length s.text);
        buffer = put_string s (if split then sol else v.v_string) (if split then eol else none);
      }
  put_value int v split sol eol p = record p { buffer = (append p.buffer (print_int v.v_int)).1 }
  put_value double v split sol eol p = record p {
    buffer = (append p.buffer (print_double v.v_double)).1;
  }
  put_value null v split sol eol p = record p {
    buffer = (append p.buffer (b'?' ∷ [])).1;
    code = pos 289;
  }

  abbrev pub is_split : Option ℕ → ℕ → Bool
  is_split none i = false
  is_split (some k) i = i == k

  -- one round of the field loop
  unfoldable pub put_field :
      Option ℕ → Option Bytes → Option ℕ → FieldDef × Value r → Progress → Progress
  put_field split sol eol (d, v) p =
      let q = record p { buffer = (append p.buffer (b'#' ∷ [])).1; ix = none } in
      if v.is_undefined then q else put_value d.kind v (is_split split p.index) sol eol q

  -- the field loop, left with the index of the field at which the buffer was full
  unfoldable pub put_fields :
      Option ℕ → Option Bytes → Option ℕ → List (FieldDef × Value r) → Progress → Progress
  put_fields split sol eol [] p = p
  put_fields split sol eol (f ∷ fs) p =
      let q = put_field split sol eol f p in
      let rest = put_fields split sol eol fs (record q { index = q.index + 1 }) in
      if q.buffer.is_error then q else rest

  -- The first `n` fields of the protocol with their values.
  abbrev pub pairs : ℕ → List FieldDef → List (Value r) → List (FieldDef × Value r)
  pairs zero ds vs = []
  pairs (suc n) [] vs = []
  pairs (suc n) (d ∷ ds) [] = []
  pairs (suc n) (d ∷ ds) (v ∷ vs) = (d, v) ∷ pairs n ds vs

abbrev pub truncate_msg : Bytes
truncate_msg = codes " [...]\n"

abbrev pub is_some {ℓ} : {A : Type ℓ} → Option A → Bool
is_some none = false
is_some (some a) = true

-- where the mark goes if the last field was cut
unfoldable pub truncate_in_last : ℕ → ℕ → ℕ → Option ℕ → Option ℕ
truncate_in_last size n index none = none
truncate_in_last size n index (some ix) =
    if leb n (index + 1) then if ltb size (ix + 8) then none else some (size - 8) else none

-- where it goes behind the last good record
unfoldable pub truncate_behind : Option ℕ → Option ℕ
truncate_behind none = none
truncate_behind (some good) = some (good - 1)

-- `ix_truncateMsg`, -1 being `none`; `n` is the number of fields
unfoldable pub truncate_at : ℕ → ℕ → Progress → Option ℕ → Option ℕ
truncate_at size n p last_good = elim (truncate_in_last size n p.index p.ix) [
  | some k ↦ some k
  | none ↦ truncate_behind last_good
]

-- What a record leaves: the buffer, `isError` and `truncated`.
pub record Outcome : Type 0 where
  pub buffer : Buffer
  pub code : ℤ
  pub truncated : Bool

-- no room for the mark either
abbrev pub give_up : Buffer → Outcome
give_up s = record { buffer = s; code = if s.is_error then pos 330 else pos 320; truncated = false }

-- writes the mark at the index found, if there is one
unfoldable pub mark : Buffer → Option ℕ → ℤ → Outcome
mark s none code = give_up s
mark s (some k) code =
    let t = (append (record s { text = take k s.text; is_error = false }) truncate_msg).1 in
    if ltb s.size (k + 8)
    then give_up s
    else record { buffer = t; code = if t.is_error then pos 330 else code; truncated = true }

-- the end of a record: its line feed, and the truncation if the buffer was too small
unfoldable pub finish : ℕ → Progress → Option ℕ → Option ℕ → Outcome
finish n p eol last_good =
    let s = (append p.buffer (b'\n' ∷ [])).1 in
    if s.is_error || (is_some eol && ltb s.size (length s.text + 8))
    then mark s (truncate_at s.size n p last_good) p.code
    else record { buffer = s; code = p.code; truncated = false }

module _ (r : Real) where
  -- one round of the loop over the lines
  unfoldable pub put_record :
      Protocol → List (Value r) → Option ℕ → Option Bytes → Option ℕ → Buffer → Outcome
  put_record proto values split sol last_good s =
      let eol = first_break sol in
      let start : Progress = record {
        buffer = (append s (b'*' ∷ proto.version)).1;
        ix = none;
        index = 0;
        code = pos 0;
      } in
      finish proto.number_of_fields
        (put_fields r split sol eol (pairs r proto.number_of_fields proto.fields values) start) eol
        last_good

  -- the string behind the first line
  abbrev pub after_line : Option Bytes → Option Bytes
  after_line none = none
  after_line (some sol) = elim (strchr b'\n' sol) [ none ↦ none | some k ↦ some (drop (suc k) sol) ]

  abbrev pub failed : ℤ → Bool
  failed (pos zero) = false
  failed _ = true

  -- the loop over the lines, with fuel; `none` if that runs out
  unfoldable pub put_records :
      ℕ
      → Protocol
      → List (Value r)
      → Option ℕ
      → Option Bytes
      → Option ℕ
      → Buffer
      → Option (ℤ × Bytes)
  put_records zero proto values split sol last_good s = none
  put_records (suc f) proto values split sol last_good s =
      let o = put_record proto values split sol last_good s in
      elim (failed o.code || o.truncated) [
        | true ↦ some (if o.truncated then minus_one else o.code, o.buffer.text)
        | false ↦ elim (after_line sol) [
          | none ↦ some (o.code, o.buffer.text)
          | some rest ↦
              put_records f proto values split (some rest) (some (length o.buffer.text)) o.buffer
        ]
      ]

  -- the fuel of the loop: a line takes at least its line feed from the string
  abbrev pub line_fuel : Option Bytes → ℕ
  line_fuel none = 1
  line_fuel (some sol) = suc (length sol)

  -- the string that is split, for a message with the value `v` in that field
  abbrev pub start_of_lines : Value r → Option Bytes
  start_of_lines v = if v.is_undefined then none else v.v_string

  -- the loop, from an empty buffer
  unfoldable pub encode_lines :
      Protocol → List (Value r) → Option ℕ → Option Bytes → ℕ → Option (ℤ × Option Bytes)
  encode_lines proto values split sol size =
      elim (put_records (line_fuel sol) proto values split sol none (init size)) [
        | none ↦ none
        | some (code, text) ↦ some (code, some text)
      ]

  abbrev pub refuse : ℕ → Option (ℤ × Option Bytes)
  refuse line = some (pos line, none)

  -- the checks of `splitLinesForThisFieldIndex`
  unfoldable pub encode_split : Protocol → List (Value r) → ℤ → ℕ → Option (ℤ × Option Bytes)
  encode_split proto values (negsuc zero) size = encode_lines proto values none none size
  encode_split proto values (negsuc (suc k)) size = refuse 214
  encode_split proto values (pos k) size =
      if leb proto.number_of_fields k
      then refuse 218
      else if not (same_kind (get_or proto.fields k end_of_fields).kind string)
      then refuse 221
      else encode_lines proto values (some k) (start_of_lines (get_or values k (undefined r))) size

  -- `bufferSize <= 0`
  unfoldable pub encode_size : Protocol → List (Value r) → Bool → ℤ → ℤ → Option (ℤ × Option Bytes)
  encode_size proto values false size split = refuse 208
  encode_size proto values true (negsuc k) split = refuse 211
  encode_size proto values true (pos zero) split = refuse 211
  encode_size proto values true (pos (suc k)) split = encode_split proto values split (suc k)

  -- `infoLog_msg_encode`: the message and the buffer may be NULL. The result is the returned code with
  -- the text that the buffer then holds (`none` if it is not touched).
  unfoldable pub encode : Option (Message r) → Bool → ℤ → ℤ → Option (ℤ × Option Bytes)
  encode none has_buffer size split = refuse 202
  encode (some m) has_buffer size split = elim m.protocol [
    | none ↦ refuse 205
    | some k ↦ encode_size (get_or protocols k protocol_1_4) m.values has_buffer size split
  ]
