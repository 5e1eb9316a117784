-- ===== src/Message/Encode/Lines.antt =====
-- The loop of `infoLog_msg_encode` of src/infoLoggerMessage.c over the lines of the field that is split.
use info_logger.Base.{
  ℕ, zero, suc, ◌+◌, ◌≤◌, ◌<◌, ◌≡◌, refl, sym, ap, ◌∙◌, true, List, [], ◌∷◌, ◌++◌, Option, none,
  some, arith, inl, inr, ◌==◌, if◌then◌else◌, pos, length, take, drop, length-append, Option-cases,
  append_assoc, append-nil,
}
use info_logger.CText.{Bytes, strchr}
use info_logger.Message.{Real, Protocol, Value}
use info_logger.Message.Encode.{
  pairs, is_some, first_break, put_records, after_line, line_fuel, encode_lines,
}
use info_logger.Message.Encode.Record.{record_text, Typed, record_lem}
use info_logger.Message.Encode.Held.{holding, first_line}
use info_logger.Message.Encode.Bounds.{after_line-lt, no_fuel}

-- puts a byte in front of the first line
abbrev onto_first : ℕ → List Bytes → List Bytes
onto_first c [] = (c ∷ []) ∷ []
onto_first c (l ∷ ls) = (c ∷ l) ∷ ls

-- The lines of a text: what stands between its line feeds.
unfoldable pub split_lines : Bytes → List Bytes
split_lines [] = [] ∷ []
split_lines (c ∷ cs) = if c == b'\n' then [] ∷ split_lines cs else onto_first c (split_lines cs)

split_lines-whole : (sol : Bytes) → strchr b'\n' sol ≡ none → split_lines sol ≡ sol ∷ []
unfolding split_lines strchr
split_lines-whole [] h = refl
split_lines-whole (c ∷ cs) h = elim (Option-cases (strchr b'\n' cs)) [
  | inl e ↦ ground (arith, split_lines-whole cs e)
  | inr (j, e) ↦ ground arith
]

split_lines-cut :
    (sol : Bytes) (k : ℕ)
    → strchr b'\n' sol ≡ some k
    → split_lines sol ≡ take k sol ∷ split_lines (drop (suc k) sol)
unfolding split_lines strchr
split_lines-cut [] k h = cc
split_lines-cut (c ∷ cs) zero h = elim (Option-cases (strchr b'\n' cs)) [
  | inl e ↦ ground arith
  | inr (j, e) ↦ ground arith
]
split_lines-cut (c ∷ cs) (suc k) h = elim (Option-cases (strchr b'\n' cs)) [
  | inl e ↦ ground arith
  | inr (j, e) ↦ ground (arith, split_lines-cut cs k)
]

module _ (r : Real) where
  -- The records for a list of lines, one after the other.
  unfoldable pub records_text : Protocol → List (Value r) → Option ℕ → List Bytes → Bytes
  records_text proto values split [] = []
  records_text proto values split (l ∷ ls) =
      record_text r proto values split (some l) ++ records_text proto values split ls

  -- The records for a string, one for each line, and the single record of a field that is not set.
  unfoldable pub text_of : Protocol → List (Value r) → Option ℕ → Option Bytes → Bytes
  text_of proto values split none = record_text r proto values split none
  text_of proto values split (some sol) = records_text proto values split (split_lines sol)

  text_of-whole :
      (proto : Protocol) (values : List (Value r)) (split : Option ℕ) (sol : Option Bytes)
      → after_line r sol ≡ none
      → text_of proto values split sol ≡ record_text r proto values split (first_line sol)
  unfolding text_of records_text first_line
  text_of-whole proto values split none h = refl
  text_of-whole proto values split (some sol) h = elim (Option-cases (strchr b'\n' sol)) [
    | inl e ↦
        rw (split_lines-whole sol e, e, first_line)
          (append-nil (record_text r proto values split (some sol)))
    | inr (k, e) ↦ cc (rw (e, after_line) at h)
  ]

  text_of-cut :
      (proto : Protocol) (values : List (Value r)) (split : Option ℕ) (sol : Option Bytes)
      (rest : Bytes)
      → after_line r sol ≡ some rest
      → text_of proto values split sol
        ≡ record_text r proto values split (first_line sol)
          ++ text_of proto values split (some rest)
  unfolding text_of records_text first_line
  text_of-cut proto values split none rest h = cc
  text_of-cut proto values split (some sol) rest h = elim (Option-cases (strchr b'\n' sol)) [
    | inl e ↦ cc (rw (e, after_line) at h)
    | inr (k, e) ↦
        (let same : drop (suc k) sol ≡ rest = cc (rw (e, after_line) at h) in
          rw (split_lines-cut sol k e, e, first_line, same) refl)
  ]

  more_lines :
      (sol : Option Bytes) (rest : Bytes)
      → after_line r sol ≡ some rest
      → is_some (first_break sol) ≡ true
  more_lines none rest h = cc
  more_lines (some sol) rest h = elim (Option-cases (strchr b'\n' sol)) [
    | inl e ↦ cc (rw (e, after_line) at h)
    | inr (k, e) ↦ rw e
  ]

  put_records_lem :
      (n f : ℕ) (t : Bytes) (proto : Protocol) (values : List (Value r)) (split : Option ℕ)
      (sol : Option Bytes) (last : Option ℕ)
      → Typed r (pairs r proto.number_of_fields proto.fields values)
      → line_fuel r sol ≤ f
      → length (t ++ text_of proto values split sol) < n
      → (is_some (first_break sol) ≡ true → length (t ++ text_of proto values split sol) + 8 ≤ n)
      → put_records r f proto values split sol last (holding n t)
        ≡ some (pos 0, t ++ text_of proto values split sol)
  unfolding put_records
  put_records_lem n zero t proto values split sol last typed fuel h room =
      absurd (no_fuel r sol fuel)
  put_records_lem n (suc f) t proto values split sol last typed fuel h room =
      elim (Option-cases (after_line r sol)) [
        | inl e ↦
            (let whole = text_of-whole proto values split sol e in
              let written =
                record_lem r n t proto values split sol last typed (rw whole at h)
                  (rw whole at room) in
              rw (put_records, whole, written, e, written) refl)
        | inr (rest, e) ↦
            (let now = record_text r proto values split (first_line sol) in
              let later = text_of proto values split (some rest) in
              let cut : text_of proto values split sol ≡ now ++ later =
                text_of-cut proto values split sol rest e in
              let total = room (more_lines sol rest e) in
              let regroup : (t ++ now) ++ later ≡ t ++ text_of proto values split sol =
                append_assoc t now later ∙ sym (ap (◌++◌ t) cut) in
              let fits : length ((t ++ now) ++ later) + 8 ≤ n =
                omega (arith, total, ap length regroup) in
              let first : length (t ++ now) + 8 ≤ n =
                omega (arith, fits, length-append (t ++ now) later) in
              let written =
                record_lem r n t proto values split sol last typed (omega (arith, first))
                  (λ _. first) in
              rw (put_records, written, e, written)
                (put_records_lem n f (t ++ now) proto values split (some rest)
                    (some (length (t ++ now))) typed
                    (omega (arith, fuel, after_line-lt r sol rest e)) (omega (arith, fits))
                    (λ _. fits)
                  ∙ ap (λ u. some (pos 0, u)) regroup))
      ]

  -- If the records of all the lines fit in the buffer, with eight bytes to spare where there is more
  -- than one, the encoder returns 0 and writes just those records, in the order of the lines. A line
  -- is written whole even where the string with the lines behind it is longer than the buffer.
  pub encode_lines-eq-text_of :
      (n : ℕ) (proto : Protocol) (values : List (Value r)) (split : Option ℕ) (sol : Option Bytes)
      → Typed r (pairs r proto.number_of_fields proto.fields values)
      → length (text_of proto values split sol) < n
      → (is_some (first_break sol) ≡ true → length (text_of proto values split sol) + 8 ≤ n)
      → encode_lines r proto values split sol n
        ≡ some (pos 0, some (text_of proto values split sol))
  unfolding encode_lines
  encode_lines-eq-text_of n proto values split sol typed h room =
      rw
        (
          encode_lines,
          put_records_lem n (line_fuel r sol) [] proto values split sol none typed (omega arith) h
              room,
        )
        refl
