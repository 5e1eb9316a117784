-- ===== src/Message/Decode/Fields.antt =====
-- What `infoLog_decode` of src/infoLoggerMessageDecode.c reads of the fields that `infoLog_msg_encode` wrote.
use info_logger.Base.{
  ℕ, zero, suc, ◌+◌, ◌≤◌, ◌≡◌, ◌≢◌, refl, sym, ap, ◌∙◌, true, false, List, [], ◌∷◌, ◌++◌, map, none,
  some, arith, ◌==◌, if◌then◌else◌, pos, length, ltb_ℤ, Bool-cases, inl, inr, take, length-map,
  append-nil,
}
use info_logger.CText.{Bytes, c_str}
use info_logger.CText.Numbers.{
  is_digit, print_int, scan_int-digits, AllDigits, print_int-AllDigits, print_int-ne,
}
use info_logger.Message.{
  Real, Kind, null, string, int, double, FieldDef, Value, undefined, end_of_fields, same_kind,
}
use info_logger.Message.Encode.{replace_special, pairs}
use info_logger.Message.Encode.Record.{field_text, fields_text, value_text}
use info_logger.Message.Encode.Held.{clean}
use info_logger.Message.Decode.{
  until_hash, decode_string, decode_int, decode_double, decode_value, decode_fields, cons_value,
}

-- No NUL in a string.
abbrev pub NoNul : Bytes → Type 0
NoNul [] = Unit
NoNul (c ∷ cs) = ((c == 0) ≡ false) × NoNul cs

-- Neither NUL nor `#`.
abbrev pub Plain : Bytes → Type 0
Plain [] = Unit
Plain (c ∷ cs) = ((c == 0) ≡ false) × ((c == b'#') ≡ false) × Plain cs

c_str-Plain : (s : Bytes) → Plain s → c_str s ≡ s
unfolding c_str
c_str-Plain [] h = refl
c_str-Plain (c ∷ cs) h = rw (h.0, c_str-Plain cs h.2)

until_hash-Plain : (s rest : Bytes) → Plain s → until_hash (s ++ b'#' ∷ rest) ≡ some (s, rest)
unfolding until_hash
until_hash-Plain [] rest h = refl
until_hash-Plain (c ∷ cs) rest h = rw (h.1, until_hash-Plain cs rest h.2)

replace_special-plain :
    (c : ℕ)
    → (c == 0) ≡ false
    → ((replace_special c == 0) ≡ false) × ((replace_special c == b'#') ≡ false)
unfolding replace_special
replace_special-plain c h = ground arith

clean-Plain : (s : Bytes) → NoNul s → Plain (map replace_special s)
clean-Plain [] h = tt
clean-Plain (c ∷ cs) h =
    let here = replace_special-plain c h.0 in (here.0, here.1, clean-Plain cs h.1)

digit_plain : (c : ℕ) → is_digit c ≡ true → ((c == 0) ≡ false) × ((c == b'#') ≡ false)
unfolding is_digit
digit_plain c h = ground arith

pub AllDigits-Plain : (s : Bytes) → AllDigits s → Plain s
AllDigits-Plain [] h = tt
AllDigits-Plain (c ∷ cs) h =
    let here = digit_plain c h.0 in (here.0, here.1, AllDigits-Plain cs h.1)

above_zero : (n : ℕ) → ltb_ℤ (pos 0) (pos (suc n)) ≡ true
above_zero n = ground arith

not_null : (k : Kind) → k ≢ null → same_kind k null ≡ false
not_null null h = absurd (h refl)
not_null string h = refl
not_null int h = refl
not_null double h = refl

module _ (r : Real) where
  open r use {Double, print_double, scan_double, is_positive}

  -- What is documented of the conversions: what "%lf" prints is not empty and made of digits, a sign,
  -- a point or letters, and scanning it gives a double again, that of its printed decimals.
  pub record Laws : Type 0 where
    pub reread : Double → Double
    pub scan-print : (d : Double) → scan_double (print_double d) ≡ some (reread d)
    pub print_plain : (d : Double) → Plain (print_double d)
    pub print_ne : (d : Double) → (length (print_double d) == 0) ≡ false

  module _ (laws : Laws) where
    -- A value that survives the transport: text that is not empty and has no NUL, a positive number.
    abbrev pub Sendable : Kind → Value r → Type 0
    Sendable null v = ⊥
    Sendable string v = (s : Bytes) × (v.v_string ≡ some s) × ((length s == 0) ≡ false) × NoNul s
    Sendable int v = (n : ℕ) × (v.v_int ≡ pos (suc n))
    Sendable double v = is_positive (laws.reread v.v_double) ≡ true

    abbrev pub SendableField : FieldDef × Value r → Type 0
    SendableField (d, v) = (d.kind ≢ null) × (v.is_undefined ≡ false → Sendable d.kind v)

    -- What is received for a value: a text with its special bytes replaced, a number, or nothing.
    unfoldable pub received_value : Kind → Value r → Value r
    received_value string v = record (undefined r) {
      v_string = some (clean v.v_string);
      length = length (clean v.v_string);
      is_undefined = false;
    }
    received_value int v = record (undefined r) { v_int = v.v_int; is_undefined = false }
    received_value double v = record (undefined r) {
      v_double = laws.reread v.v_double;
      is_undefined = false;
    }
    received_value null v = undefined r

    unfoldable pub received : FieldDef × Value r → Value r
    received (d, v) = if v.is_undefined then undefined r else received_value d.kind v

    value_text-Plain : (k : Kind) (v : Value r) → Sendable k v → Plain (value_text r k v false none)
    unfolding value_text
    value_text-Plain null v h = absurd h
    value_text-Plain string v (s, e, ne, h) = rw e (clean-Plain s h)
    value_text-Plain int v (n, e) =
        rw e (AllDigits-Plain (print_int (pos (suc n))) (print_int-AllDigits (suc n)))
    value_text-Plain double v h = laws.print_plain v.v_double

    decode-value_text :
        (k : Kind) (v : Value r)
        → Sendable k v
        → decode_value r k (value_text r k v false none) ≡ some (received_value k v)
    unfolding value_text decode_value decode_string decode_int decode_double received_value
    decode-value_text null v h = absurd h
    decode-value_text string v (s, e, ne, h) = rw (
      e,
      decode_string,
      length-map s replace_special,
      ne,
      c_str-Plain (map replace_special s) (clean-Plain s h),
    )
    decode-value_text int v (n, e) = rw (
      e,
      c_str-Plain (print_int (pos (suc n)))
          (AllDigits-Plain (print_int (pos (suc n))) (print_int-AllDigits (suc n))),
      decode_int,
      print_int-ne (suc n),
      scan_int-digits (suc n),
      above_zero n,
    )
    decode-value_text double v h = rw (
      c_str-Plain (print_double v.v_double) (laws.print_plain v.v_double),
      laws.print_ne v.v_double,
      laws.scan-print v.v_double,
      h,
    )

    field_text-Plain :
        (f : FieldDef × Value r) → SendableField f → Plain (field_text r f false none)
    unfolding field_text
    field_text-Plain (d, v) h = elim (Bool-cases v.is_undefined) [
      | inl e ↦ simp e tt
      | inr e ↦ simp e (value_text-Plain d.kind v (h.1 e))
    ]

    decode-empty : (k : Kind) → k ≢ null → decode_value r k [] ≡ some (undefined r)
    unfolding decode_value decode_string decode_int decode_double c_str
    decode-empty null h = absurd (h refl)
    decode-empty string h = refl
    decode-empty int h = refl
    decode-empty double h = refl

    decode-field_text :
        (f : FieldDef × Value r)
        → SendableField f
        → decode_value r f.0.kind (field_text r f false none) ≡ some (received f)
    unfolding field_text received
    decode-field_text (d, v) h = elim (Bool-cases v.is_undefined) [
      | inl e ↦ simp e (decode-empty d.kind h.0)
      | inr e ↦ simp e (decode-value_text d.kind v (h.1 e))
    ]

    abbrev pub AllSendable : List (FieldDef × Value r) → Type 0
    AllSendable [] = Unit
    AllSendable (f ∷ fs) = SendableField f × AllSendable fs

    abbrev pub defs : List (FieldDef × Value r) → List FieldDef
    defs [] = []
    defs (f ∷ fs) = f.0 ∷ defs fs

    pub fields_text_at :
        (i : ℕ) (fs : List (FieldDef × Value r))
        → fields_text r none none i fs ≡ fields_text r none none 0 fs
    unfolding fields_text
    fields_text_at i [] = refl
    fields_text_at i (f ∷ fs) =
        ap (λ t. (b'#' ∷ field_text r f false none) ++ t)
          (fields_text_at (i + 1) fs ∙ sym (fields_text_at 1 fs))

    pub decode-body :
        (f : FieldDef × Value r) (fs : List (FieldDef × Value r))
        → AllSendable (f ∷ fs)
        → decode_fields r
            (f.0 ∷ (defs fs ++ end_of_fields ∷ []))
            (field_text r f false none ++ fields_text r none none 0 fs)
          ≡ some (map received (f ∷ fs))
    unfolding decode_fields fields_text
    decode-body f [] h = rw (
      not_null f.0.kind h.0.0,
      append-nil (field_text r f false none),
      c_str-Plain (field_text r f false none) (field_text-Plain f h.0),
      decode-field_text f h.0,
    )
    decode-body f (g ∷ fs) h =
        rw
          (
            not_null f.0.kind h.0.0,
            not_null g.0.kind h.1.0.0,
            until_hash-Plain (field_text r f false none)
                (field_text r g false none ++ fields_text r none none 1 fs)
                (field_text-Plain f h.0),
            decode-field_text f h.0,
            fields_text_at 1 fs,
          )
          (ap (cons_value r (some (received f))) (decode-body g fs h.1))

    pub defs-pairs :
        (n : ℕ) (ds : List FieldDef) (vs : List (Value r))
        → n ≤ length ds
        → n ≤ length vs
        → defs (pairs r n ds vs) ≡ take n ds
    defs-pairs zero ds vs h k = refl
    defs-pairs (suc n) [] vs h k = absurd (omega arith)
    defs-pairs (suc n) (d ∷ ds) [] h k = absurd (omega arith)
    defs-pairs (suc n) (d ∷ ds) (v ∷ vs) h k =
        ap (◌∷◌ d) (defs-pairs n ds vs (omega arith) (omega arith))
