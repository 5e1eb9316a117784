-- ===== src/Message/Encode/Bounds.antt =====
-- `infoLog_msg_encode` of src/infoLoggerMessage.c always returns, and never writes past the buffer.
use info_logger.Base.{
  ℕ, zero, suc, ◌+◌, ◌-◌, ◌≤◌, ◌<◌, ◌≡◌, refl, ap, Bool, true, false, not, ◌&&◌, ◌||◌, List, [],
  ◌∷◌, ◌++◌, map, Option, none, some, arith, inl, inr, ltb, leb, if◌then◌else◌, ℤ, pos, negsuc,
  ◌<ℤ◌, length, take, drop, get_or, length-append, length-take, length-drop, length-map,
  length-take_le, Bool-cases, Option-cases,
}
use info_logger.CText.{Bytes, strchr, strchr-lt}
use info_logger.CText.Numbers.{print_int}
use info_logger.Message.{
  Real, Kind, null, string, int, double, FieldDef, Protocol, Value, Message, protocols,
  protocol_1_4, end_of_fields, same_kind, undefined,
}
use info_logger.Message.Encode.{
  Buffer, init, append, replace_special, cut_line, Progress, put_string, put_value, put_field,
  put_fields, pairs, is_split, truncate_msg, finish, mark, is_some, truncate_at, put_record,
  put_records, after_line, encode, encode_lines, encode_split, line_fuel, encode_size, failed,
  start_of_lines, refuse,
}

-- The buffer has its size, and the text leaves room for the closing NUL.
pub record InBuffer (n : ℕ) (s : Buffer) : Type 0 where
  pub sized : s.size ≡ n
  pub closed : length s.text < n

append-InBuffer : (n : ℕ) (s : Buffer) (str : Bytes) → InBuffer n s → InBuffer n (append s str).1
unfolding append
append-InBuffer n s str h =
    ground (arith, length-append s.text str, length-take_le (s.size - 1) (s.text ++ str))

cut_line-InBuffer :
    (n : ℕ) (s : Buffer) (ix : ℕ) (eol : Option ℕ) → InBuffer n s → InBuffer n (cut_line s ix eol)
unfolding cut_line
cut_line-InBuffer n s ix none h = h
cut_line-InBuffer n s ix (some eol) h = ground (arith, length-take_le (ix + eol) s.text)

length-replace_from :
    (ix : ℕ) (t : Bytes) → length (take ix t ++ map replace_special (drop ix t)) ≡ length t
length-replace_from ix t = omega (
  arith,
  length-append (take ix t) (map replace_special (drop ix t)),
  length-map (drop ix t) replace_special,
  length-take ix t,
  length-drop ix t,
)

put_string-InBuffer :
    (n : ℕ) (s : Buffer) (str : Option Bytes) (eol : Option ℕ)
    → InBuffer n s
    → InBuffer n (put_string s str eol)
unfolding put_string
put_string-InBuffer n s none eol h = h
put_string-InBuffer n s (some str) eol h =
    let cut = cut_line (append s str).1 (length s.text) eol in
    let kept : InBuffer n cut =
      cut_line-InBuffer n (append s str).1 (length s.text) eol (append-InBuffer n s str h) in
    record {
      sized = kept.sized;
      closed = rw (length-replace_from (length s.text) cut.text) kept.closed;
    }

mark-InBuffer :
    (n : ℕ) (s : Buffer) (at : Option ℕ) (code : ℤ)
    → InBuffer n s
    → InBuffer n (mark s at code).buffer
unfolding mark
mark-InBuffer n s none code h = h
mark-InBuffer n s (some k) code h = elim (Bool-cases (ltb s.size (k + 8))) [
  | inl e ↦ rw e h
  | inr e ↦ rw e (
      append-InBuffer n (record s { text = take k s.text; is_error = false }) truncate_msg
        (record { sized = h.sized; closed = omega (arith, h.closed, length-take k s.text) }))
]

finish-InBuffer :
    (n k : ℕ) (p : Progress) (eol last : Option ℕ)
    → InBuffer n p.buffer
    → InBuffer n (finish k p eol last).buffer
unfolding finish
finish-InBuffer n k p eol last h =
    let s = (append p.buffer (b'\n' ∷ [])).1 in
    let kept : InBuffer n s = append-InBuffer n p.buffer (b'\n' ∷ []) h in
    elim (Bool-cases (s.is_error || (is_some eol && ltb s.size (length s.text + 8)))) [
      | inl e ↦ rw e (mark-InBuffer n s (truncate_at s.size k p last) p.code kept)
      | inr e ↦ rw e kept
    ]

module _ (r : Real) where
  put_value-InBuffer :
      (n : ℕ) (k : Kind) (v : Value r) (split : Bool) (sol : Option Bytes) (eol : Option ℕ)
      (p : Progress)
      → InBuffer n p.buffer
      → InBuffer n (put_value r k v split sol eol p).buffer
  unfolding put_value
  put_value-InBuffer n string v split sol eol p h =
      put_string-InBuffer n p.buffer (if split then sol else v.v_string)
        (if split then eol else none) h
  put_value-InBuffer n int v split sol eol p h = append-InBuffer n p.buffer (print_int v.v_int) h
  put_value-InBuffer n double v split sol eol p h =
      append-InBuffer n p.buffer (r.print_double v.v_double) h
  put_value-InBuffer n null v split sol eol p h = append-InBuffer n p.buffer (b'?' ∷ []) h

  put_field-InBuffer :
      (n : ℕ) (split : Option ℕ) (sol : Option Bytes) (eol : Option ℕ) (f : FieldDef × Value r)
      (p : Progress)
      → InBuffer n p.buffer
      → InBuffer n (put_field r split sol eol f p).buffer
  unfolding put_field
  put_field-InBuffer n split sol eol (d, v) p h =
      let q : Progress = record p { buffer = (append p.buffer (b'#' ∷ [])).1; ix = none } in
      let after : InBuffer n q.buffer = append-InBuffer n p.buffer (b'#' ∷ []) h in
      elim v.is_undefined
        as (λ b.
          InBuffer n
            (if b then q else put_value r d.kind v (is_split r split p.index) sol eol q).buffer) [
              | true ↦ after
              | false ↦ put_value-InBuffer n d.kind v (is_split r split p.index) sol eol q after
            ]

  put_fields-InBuffer :
      (n : ℕ) (split : Option ℕ) (sol : Option Bytes) (eol : Option ℕ)
      (fs : List (FieldDef × Value r)) (p : Progress)
      → InBuffer n p.buffer
      → InBuffer n (put_fields r split sol eol fs p).buffer
  unfolding put_fields
  put_fields-InBuffer n split sol eol [] p h = h
  put_fields-InBuffer n split sol eol (f ∷ fs) p h =
      let q = put_field r split sol eol f p in
      let after : InBuffer n q.buffer = put_field-InBuffer n split sol eol f p h in
      elim (Bool-cases q.buffer.is_error) [
        | inl e ↦ simp e after
        | inr e ↦
            simp e (put_fields-InBuffer n split sol eol fs (record q { index = q.index + 1 }) after)
      ]

  put_record-InBuffer :
      (n : ℕ) (proto : Protocol) (values : List (Value r)) (split : Option ℕ) (sol : Option Bytes)
      (last : Option ℕ) (s : Buffer)
      → InBuffer n s
      → InBuffer n (put_record r proto values split sol last s).buffer
  unfolding put_record
  put_record-InBuffer n proto values split sol last s h =
      finish-InBuffer n proto.number_of_fields _ _ last (
        put_fields-InBuffer n split sol _ (pairs r proto.number_of_fields proto.fields values) _
          (append-InBuffer n s (b'*' ∷ proto.version) h))

  -- What a run of the encoder promises: it ends, and what it leaves in the buffer is closed by a NUL there.
  abbrev pub EndsWithin : ℕ → Option (ℤ × Bytes) → Type 0
  EndsWithin n none = ⊥
  EndsWithin n (some (c, t)) = length t < n

  pub no_fuel : (sol : Option Bytes) → ¬ (line_fuel r sol ≤ 0)
  no_fuel none = omega arith
  no_fuel (some sol) = omega arith

  -- A round of the loop takes at least the line feed from the string.
  pub after_line-lt :
      (sol : Option Bytes) (rest : Bytes)
      → after_line r sol ≡ some rest
      → line_fuel r (some rest) < line_fuel r sol
  after_line-lt none rest h = cc
  after_line-lt (some sol) rest h = elim (Option-cases (strchr b'\n' sol)) [
    | inl e ↦ cc (rw (e, after_line) at h)
    | inr (k, e) ↦
        (let same : drop (suc k) sol ≡ rest = cc (rw (e, after_line) at h) in
          omega (arith, strchr-lt b'\n' sol k e, length-drop (suc k) sol, ap length same))
  ]

  put_records-EndsWithin :
      (n f : ℕ) (proto : Protocol) (values : List (Value r)) (split : Option ℕ) (sol : Option Bytes)
      (last : Option ℕ) (s : Buffer)
      → line_fuel r sol ≤ f
      → InBuffer n s
      → EndsWithin n (put_records r f proto values split sol last s)
  unfolding put_records
  put_records-EndsWithin n zero proto values split sol last s fuel h = absurd (no_fuel sol fuel)
  put_records-EndsWithin n (suc f) proto values split sol last s fuel h =
      let o = put_record r proto values split sol last s in
      let kept : InBuffer n o.buffer = put_record-InBuffer n proto values split sol last s h in
      elim (Bool-cases (failed r o.code || o.truncated)) [
        | inl e ↦ rw (e, put_records) kept.closed
        | inr e ↦ elim (Option-cases (after_line r sol)) [
          | inl none_left ↦ rw (e, put_records, none_left) kept.closed
          | inr (rest, e') ↦
              rw (e, put_records, e')
                (put_records-EndsWithin n f proto values split (some rest)
                  (some (length o.buffer.text)) o.buffer
                  (omega (arith, fuel, after_line-lt sol rest e')) kept)
        ]
      ]

  -- The buffer is left alone, or holds a text that is closed within it.
  abbrev pub ReturnsWithin : ℤ → Option (ℤ × Option Bytes) → Type 0
  ReturnsWithin size none = ⊥
  ReturnsWithin size (some (c, none)) = pos 0 <ℤ c
  ReturnsWithin size (some (c, some t)) = pos (length t) <ℤ size

  finished :
      (n : ℕ) (o : Option (ℤ × Bytes))
      → EndsWithin n o
      → ReturnsWithin (pos n) (elim o [ none ↦ none | some (code, text) ↦ some (code, some text) ])
  finished n none h = h
  finished n (some (c, t)) h = omega arith

  encode_lines-ReturnsWithin :
      (n : ℕ) (proto : Protocol) (values : List (Value r)) (split : Option ℕ) (sol : Option Bytes)
      → 0 < n
      → ReturnsWithin (pos n) (encode_lines r proto values split sol n)
  unfolding encode_lines
  encode_lines-ReturnsWithin n proto values split sol h =
      finished n (put_records r (line_fuel r sol) proto values split sol none (init n)) (
        put_records-EndsWithin n (line_fuel r sol) proto values split sol none (init n)
          (omega arith) (record { sized = refl; closed = h }))

  encode_split-ReturnsWithin :
      (n : ℕ) (proto : Protocol) (values : List (Value r)) (split : ℤ)
      → 0 < n
      → ReturnsWithin (pos n) (encode_split r proto values split n)
  unfolding encode_split
  encode_split-ReturnsWithin n proto values (negsuc zero) h =
      encode_lines-ReturnsWithin n proto values none none h
  encode_split-ReturnsWithin n proto values (negsuc (suc k)) h = omega arith
  encode_split-ReturnsWithin n proto values (pos k) h =
      elim (Bool-cases (leb proto.number_of_fields k)) [
        | inl e ↦ rw e (omega arith)
        | inr e ↦
            elim (Bool-cases (not (same_kind (get_or proto.fields k end_of_fields).kind string))) [
              | inl e' ↦ rw (e, e') (omega arith)
              | inr e' ↦
                  rw (e, e')
                    (encode_lines-ReturnsWithin n proto values (some k)
                      (start_of_lines r (get_or values k (undefined r))) h)
            ]
      ]

  encode_size-ReturnsWithin :
      (proto : Protocol) (values : List (Value r)) (has_buffer : Bool) (size split : ℤ)
      → ReturnsWithin size (encode_size r proto values has_buffer size split)
  unfolding encode_size
  encode_size-ReturnsWithin proto values false size split = omega arith
  encode_size-ReturnsWithin proto values true (negsuc k) split = omega arith
  encode_size-ReturnsWithin proto values true (pos zero) split = omega arith
  encode_size-ReturnsWithin proto values true (pos (suc k)) split =
      encode_split-ReturnsWithin (suc k) proto values split (omega arith)

  -- For every message, buffer size and split index, the encoder ends; what it writes leaves room for
  -- the closing NUL in the buffer, and where it refuses its arguments it returns a positive code and
  -- leaves the buffer alone.
  pub encode-ReturnsWithin :
      (m : Option (Message r)) (has_buffer : Bool) (size split : ℤ)
      → ReturnsWithin size (encode r m has_buffer size split)
  unfolding encode
  encode-ReturnsWithin none has_buffer size split = omega arith
  encode-ReturnsWithin (some m) has_buffer size split =
      elim m.protocol
        as (λ k. ReturnsWithin size (elim k [
          | none ↦ refuse r 205
          | some k ↦ encode_size r (get_or protocols k protocol_1_4) m.values has_buffer size split
        ])) [
          | none ↦ omega arith
          | some k ↦
              encode_size-ReturnsWithin (get_or protocols k protocol_1_4) m.values has_buffer size
                split
        ]
