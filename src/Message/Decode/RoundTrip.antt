-- ===== src/Message/Decode/RoundTrip.antt =====
-- The transport of a message: `infoLog_msg_encode` of src/infoLoggerMessage.c, and `infoLog_decode` of
-- src/infoLoggerMessageDecode.c on the record without its line feed, which the line buffer takes off.
use info_logger.Base.{
  ℕ, zero, suc, ◌+◌, ◌≤◌, ◌<◌, ◌≡◌, refl, ap, subst, ◌∙◌, true, false, List, [], ◌∷◌, ◌++◌, map,
  Option, none, some, arith, pos, minus_one, length, drop, length-append,
}
use info_logger.CText.{Bytes, codes, c_str, equal}
use info_logger.Message.{
  Real, string, FieldDef, Protocol, Value, Message, end_of_fields, protocol_1_4,
}
use info_logger.Message.Convert.{convert}
use info_logger.Message.Encode.{pairs, encode, encode_size, encode_split}
use info_logger.Message.Encode.Record.{field_text, fields_text, record_text, Typed}
use info_logger.Message.Encode.Lines.{text_of, encode_lines-eq-text_of}
use info_logger.Message.Decode.{
  until_hash, decode_fields, find_protocol, parse_blob, parse_version, parse_fields,
  parse_converted, good, padded, parse_blobs, decode,
}
use info_logger.Message.Decode.Fields.{
  Laws, AllSendable, received, decode-body, defs-pairs, fields_text_at,
}

module _ (r : Real) (laws : Laws r) where
  abbrev pub Tables : Type 0
  Tables = Option (List (List (Option ℕ)))

  -- the fields of the default protocol, with the values of a message
  abbrev pub default_pairs : List (Value r) → List (FieldDef × Value r)
  default_pairs vs = pairs r 16 protocol_1_4.fields vs

  -- A record of the default protocol without its line feed.
  unfoldable pub line_of : List (Value r) → Bytes
  line_of vs = b'*' ∷ (protocol_1_4.version ++ fields_text r none none 0 (default_pairs vs))

  -- The message that the receiver makes of it.
  unfoldable pub received_message : List (Value r) → Message r
  received_message vs = record {
    values = padded r (map (received r laws) (default_pairs vs));
    protocol = some 0;
  }

  abbrev severity_field : FieldDef
  severity_field = record { kind = string; name = codes "severity" }

  decode_default :
      (v : Value r) (vs : List (Value r))
      → 15 ≤ length vs
      → AllSendable r laws (default_pairs (v ∷ vs))
      → decode_fields r protocol_1_4.fields (
          field_text r (severity_field, v) false none
          ++ fields_text r none none 1 (pairs r 15 (drop 1 protocol_1_4.fields) vs))
        ≡ some (map (received r laws) (default_pairs (v ∷ vs)))
  decode_default v vs long h =
      let fs = pairs r 15 (drop 1 protocol_1_4.fields) vs in
      rw (fields_text_at r laws 1 fs) (
        subst
          (λ ds.
            decode_fields r (severity_field ∷ (ds ++ end_of_fields ∷ []))
              (field_text r (severity_field, v) false none ++ fields_text r none none 0 fs)
            ≡ some (map (received r laws) ((severity_field, v) ∷ fs)))
          (defs-pairs r laws 15 (drop 1 protocol_1_4.fields) vs (omega arith) long)
          (decode-body r laws (severity_field, v) fs h))

  parse_fields-some :
      (tables : Tables) (p : Protocol) (text : Bytes) (vs : List (Value r))
      → decode_fields r p.fields text ≡ some vs
      → parse_fields r tables (some (0, p)) text
        ≡ good (record { values = padded r vs; protocol = some 0 })
  unfolding parse_fields parse_converted convert
  parse_fields-some tables p text vs e = rw (parse_fields, e) refl

  parse_blob-line_of :
      (tables : Tables) (vs : List (Value r))
      → 16 ≤ length vs
      → AllSendable r laws (default_pairs vs)
      → parse_blob r tables (line_of vs) ≡ good (received_message vs)
  unfolding parse_blob parse_version until_hash find_protocol equal c_str line_of received_message
      fields_text
  parse_blob-line_of tables [] long h = absurd (omega arith)
  parse_blob-line_of tables (v ∷ vs) long h =
      parse_fields-some tables protocol_1_4
        (field_text r (severity_field, v) false none
          ++ fields_text r none none 1 (pairs r 15 (drop 1 protocol_1_4.fields) vs))
        (map (received r laws) (default_pairs (v ∷ vs))) (decode_default v vs (omega arith) h)

  decode_one :
      (tables : Tables) (b : Bytes) (m : Message r)
      → parse_blob r tables b ≡ good m
      → decode r tables (b ∷ []) ≡ (m ∷ [], [])
  unfolding decode parse_blobs
  decode_one tables b m e = rw (decode, parse_blobs, e) refl

  line_of-record_text :
      (vs : List (Value r)) → record_text r protocol_1_4 vs none none ≡ line_of vs ++ b'\n' ∷ []
  unfolding record_text line_of
  line_of-record_text vs = ap (λ t. b'*' ∷ (protocol_1_4.version ++ t)) refl

  Typed-default :
      (n : ℕ) (ds : List FieldDef) (vs : List (Value r))
      → AllSendable r laws (pairs r n ds vs)
      → Typed r (pairs r n ds vs)
  Typed-default zero ds vs h = tt
  Typed-default (suc n) [] vs h = tt
  Typed-default (suc n) (d ∷ ds) [] h = tt
  Typed-default (suc n) (d ∷ ds) (v ∷ vs) h = (h.0.0, Typed-default n ds vs h.1)

  -- A message of the default protocol whose defined values are texts without NUL and not empty, or
  -- positive numbers, and whose record fits in the buffer: the encoder returns 0 and writes one line,
  -- and the decoder makes of that line one message, which has the same integers, the doubles as they
  -- are read back from their print, the texts with the special bytes replaced, the same fields
  -- undefined, and leaves no blob.
  pub decode-encode :
      (n : ℕ) (tables : Tables) (vs : List (Value r))
      → 16 ≤ length vs
      → AllSendable r laws (default_pairs vs)
      → length (line_of vs) + 1 < suc n
      → (encode r (some (record { values = vs; protocol = some 0 })) true (pos (suc n)) minus_one
          ≡ some (pos 0, some (line_of vs ++ b'\n' ∷ [])))
        × (decode r tables (line_of vs ∷ []) ≡ (received_message vs ∷ [], []))
  unfolding encode encode_size encode_split text_of
  decode-encode n tables vs long h room =
      let fits : length (record_text r protocol_1_4 vs none none) < suc n =
        rw (line_of-record_text vs)
          (omega (arith, room, length-append (line_of vs) (b'\n' ∷ []))) in
      (
        encode_lines-eq-text_of r (suc n) protocol_1_4 vs none none
              (Typed-default 16 protocol_1_4.fields vs h) fits (λ e. cc)
            ∙ ap (λ t. some (pos 0, some t)) (line_of-record_text vs),
        decode_one tables (line_of vs) (received_message vs) (parse_blob-line_of tables vs long h),
      )
