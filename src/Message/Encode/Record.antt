-- ===== src/Message/Encode/Record.antt =====
-- What `infoLog_msg_encode` of src/infoLoggerMessage.c writes when the buffer is large enough: one
-- record for each line of the field that is split, each with all the fields.
use info_logger.Base.{
  ℕ, suc, ◌+◌, ◌≤◌, ◌<◌, ◌≡◌, refl, sym, ap, subst, ◌∙◌, Bool, true, false, ◌&&◌, List, [], ◌∷◌,
  ◌++◌, Option, none, some, arith, ltb, if◌then◌else◌, pos, length, length-append, le→ltb_false,
  ◌≢◌, append_assoc, append-nil,
}
use info_logger.CText.{Bytes}
use info_logger.CText.Numbers.{print_int}
use info_logger.Message.{Real, Kind, null, string, int, double, FieldDef, Protocol, Value}
use info_logger.Message.Encode.{
  Buffer, append, Progress, put_value, put_field, put_fields, pairs, is_split, Outcome, finish,
  is_some, first_break, put_record,
}
use info_logger.Message.Encode.Held.{
  holding, append-holding, clean, first_line, put_string-holding, put_string-first,
}

module _ (r : Real) where
  open r use {print_double}

  -- what stands for the value of a field; `line` is the line in place of the field that is split
  unfoldable pub value_text : Kind → Value r → Bool → Option Bytes → Bytes
  value_text string v split line = clean (if split then line else v.v_string)
  value_text int v split line = print_int v.v_int
  value_text double v split line = print_double v.v_double
  value_text null v split line = b'?' ∷ []

  unfoldable pub field_text : FieldDef × Value r → Bool → Option Bytes → Bytes
  field_text (d, v) split line = if v.is_undefined then [] else value_text d.kind v split line

  -- the fields, each behind its `#`
  unfoldable pub fields_text : Option ℕ → Option Bytes → ℕ → List (FieldDef × Value r) → Bytes
  fields_text split line i [] = []
  fields_text split line i (f ∷ fs) =
      (b'#' ∷ field_text f (is_split r split i) line) ++ fields_text split line (i + 1) fs

  -- A record: `*`, the version, the fields, and a line feed.
  unfoldable pub record_text : Protocol → List (Value r) → Option ℕ → Option Bytes → Bytes
  record_text proto values split line =
      (b'*' ∷ proto.version)
      ++ (fields_text split line 0 (pairs r proto.number_of_fields proto.fields values)
          ++ b'\n' ∷ [])

  -- No field has the type that ends the table.
  abbrev pub Typed : List (FieldDef × Value r) → Type 0
  Typed [] = Unit
  Typed (f ∷ fs) = (f.0.kind ≢ null) × Typed fs

  -- The progress of the field loop where nothing went wrong.
  pub record GoesWell (n : ℕ) (t : Bytes) (i : ℕ) (p : Progress) : Type 0 where
    pub holds : p.buffer ≡ holding n t
    pub at_index : p.index ≡ i
    pub no_code : p.code ≡ pos 0

  value_lem :
      (n : ℕ) (t : Bytes) (i : ℕ) (k : Kind) (v : Value r) (split : Bool) (sol : Option Bytes)
      (p : Progress)
      → k ≢ null
      → length t + length (value_text k v split (first_line sol)) < n
      → GoesWell n t i p
      → GoesWell n
          (t ++ value_text k v split (first_line sol))
          i
          (put_value r k v split sol (first_break sol) p)
  unfolding put_value value_text
  value_lem n t i null v split sol p typed h g = absurd (typed refl)
  value_lem n t i int v split sol p typed h g = record {
    holds = rw g.holds (append-holding n t (print_int v.v_int) h);
    at_index = g.at_index;
    no_code = g.no_code;
  }
  value_lem n t i double v split sol p typed h g = record {
    holds = rw g.holds (append-holding n t (print_double v.v_double) h);
    at_index = g.at_index;
    no_code = g.no_code;
  }
  value_lem n t i string v false sol p typed h g = record {
    holds = rw g.holds (put_string-holding n t v.v_string h);
    at_index = g.at_index;
    no_code = g.no_code;
  }
  value_lem n t i string v true sol p typed h g = record {
    holds = rw g.holds (put_string-first n t sol h);
    at_index = g.at_index;
    no_code = g.no_code;
  }

  field_lem :
      (n : ℕ) (t : Bytes) (i : ℕ) (split : Option ℕ) (sol : Option Bytes) (f : FieldDef × Value r)
      (p : Progress)
      → f.0.kind ≢ null
      → length t + suc (length (field_text f (is_split r split i) (first_line sol))) < n
      → GoesWell n t i p
      → GoesWell n
          (t ++ b'#' ∷ field_text f (is_split r split i) (first_line sol))
          i
          (put_field r split sol (first_break sol) f p)
  unfolding put_field field_text
  field_lem n t i split sol (d, v) p typed h g =
      let q : Progress = record p { buffer = (append p.buffer (b'#' ∷ [])).1; ix = none } in
      let g' : GoesWell n (t ++ b'#' ∷ []) i q = record {
        holds = rw g.holds (append-holding n t (b'#' ∷ []) (omega arith));
        at_index = g.at_index;
        no_code = g.no_code;
      } in
      elim v.is_undefined
          as (λ b.
            length t
                + suc (
                    length
                      (if b then [] else value_text d.kind v (is_split r split i) (first_line sol)))
              < n
            → GoesWell n
                (t
                  ++ b'#'
                    ∷ (if b then [] else value_text d.kind v (is_split r split i) (first_line sol)))
                i
                (if b
                  then q
                  else put_value r d.kind v (is_split r split p.index) sol (first_break sol) q)) [
                    | true ↦ λ _. g'
                    | false ↦ λ room.
                        rw
                          (← append_assoc t (b'#' ∷ [])
                            (value_text d.kind v (is_split r split i) (first_line sol)))
                          (subst
                            (λ b.
                              GoesWell n
                                ((t ++ b'#' ∷ [])
                                  ++ value_text d.kind v (is_split r split i) (first_line sol))
                                i (put_value r d.kind v b sol (first_break sol) q))
                            (sym (ap (is_split r split) g.at_index))
                            (value_lem n (t ++ b'#' ∷ []) i d.kind v (is_split r split i) sol q
                              typed (omega (arith, room, length-append t (b'#' ∷ []))) g'))
                  ]
        h

  fields_lem :
      (n : ℕ) (t : Bytes) (i : ℕ) (split : Option ℕ) (sol : Option Bytes)
      (fs : List (FieldDef × Value r)) (p : Progress)
      → Typed fs
      → length t + length (fields_text split (first_line sol) i fs) < n
      → GoesWell n t i p
      → GoesWell n
          (t ++ fields_text split (first_line sol) i fs)
          (i + length fs)
          (put_fields r split sol (first_break sol) fs p)
  unfolding put_fields fields_text
  fields_lem n t i split sol [] p typed h g = record {
    holds = rw append-nil g.holds;
    at_index = omega (arith, g.at_index);
    no_code = g.no_code;
  }
  fields_lem n t i split sol (f ∷ fs) p typed h g =
      let here = b'#' ∷ field_text f (is_split r split i) (first_line sol) in
      let there = fields_text split (first_line sol) (i + 1) fs in
      let q : Progress = put_field r split sol (first_break sol) f p in
      let long : length t + (length here + length there) < n =
        omega (arith, h, length-append here there) in
      let g' : GoesWell n (t ++ here) i q =
        field_lem n t i split sol f p typed.0 (omega (arith, long)) g in
      let g'' : GoesWell n (t ++ here) (i + 1) (record q { index = q.index + 1 }) = record {
        holds = g'.holds;
        at_index = ap (λ k. k + 1) g'.at_index;
        no_code = g'.no_code;
      } in
      let rest =
        fields_lem n (t ++ here) (i + 1) split sol fs (record q { index = q.index + 1 }) typed.1
          (omega (arith, long, length-append t here)) g'' in
      subst
        (λ b. GoesWell n (t ++ (here ++ there)) (i + suc (length fs)) (
          if b
          then q
          else put_fields r split sol (first_break sol) fs (record q { index = q.index + 1 })))
        (sym (ap (λ (b : Buffer). b.is_error) g'.holds))
        (record {
          holds = rest.holds ∙ ap (holding n) (append_assoc t here there);
          at_index = rest.at_index ∙ omega arith;
          no_code = rest.no_code;
        })

  no_mark :
      (n m : ℕ) (eol : Option ℕ)
      → (is_some eol ≡ true → m + 8 ≤ n)
      → (is_some eol && ltb n (m + 8)) ≡ false
  no_mark n m none room = refl
  no_mark n m (some k) room = le→ltb_false n (m + 8) (room refl)

  abbrev pub complete : ℕ → Bytes → Outcome
  complete n t = record { buffer = holding n t; code = pos 0; truncated = false }

  finish_lem :
      (n : ℕ) (t : Bytes) (i k : ℕ) (p : Progress) (eol last : Option ℕ)
      → GoesWell n t i p
      → length t + 1 < n
      → (is_some eol ≡ true → length (t ++ b'\n' ∷ []) + 8 ≤ n)
      → finish k p eol last ≡ complete n (t ++ b'\n' ∷ [])
  unfolding finish
  finish_lem n t i k p eol last g h room = rw (
    g.holds,
    append-holding n t (b'\n' ∷ []) h,
    no_mark n (length (t ++ b'\n' ∷ [])) eol room,
    g.no_code,
  )

  -- A record that fits, with room for the mark if there is another line, is written whole.
  pub record_lem :
      (n : ℕ) (t : Bytes) (proto : Protocol) (values : List (Value r)) (split : Option ℕ)
      (sol : Option Bytes) (last : Option ℕ)
      → Typed (pairs r proto.number_of_fields proto.fields values)
      → length (t ++ record_text proto values split (first_line sol)) < n
      → (is_some (first_break sol) ≡ true
          → length (t ++ record_text proto values split (first_line sol)) + 8 ≤ n)
      → put_record r proto values split sol last (holding n t)
        ≡ complete n (t ++ record_text proto values split (first_line sol))
  unfolding put_record record_text
  record_lem n t proto values split sol last typed h room =
      let fs = pairs r proto.number_of_fields proto.fields values in
      let head = b'*' ∷ proto.version in
      let body = fields_text split (first_line sol) 0 fs in
      let start : Progress = record {
        buffer = (append (holding n t) head).1;
        ix = none;
        index = 0;
        code = pos 0;
      } in
      let regroup : ((t ++ head) ++ body) ++ b'\n' ∷ [] ≡ t ++ (head ++ (body ++ b'\n' ∷ [])) =
        append_assoc (t ++ head) body (b'\n' ∷ []) ∙ append_assoc t head (body ++ b'\n' ∷ []) in
      let long : length ((t ++ head) ++ body) + 1 < n =
        omega (arith, h, ap length regroup, length-append ((t ++ head) ++ body) (b'\n' ∷ [])) in
      let g0 : GoesWell n (t ++ head) 0 start = record {
        holds =
            append-holding n t head
              (omega (arith, long, length-append (t ++ head) body, length-append t head));
        at_index = refl;
        no_code = refl;
      } in
      let g1 =
        fields_lem n (t ++ head) 0 split sol fs start typed
          (omega (arith, long, length-append (t ++ head) body)) g0 in
      finish_lem n ((t ++ head) ++ body) (0 + length fs) proto.number_of_fields
        (put_fields r split sol (first_break sol) fs start) (first_break sol) last g1 long
        (λ more. rw regroup (room more))
      ∙ ap (complete n) regroup
