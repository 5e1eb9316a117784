-- ===== src/Message/Sample.antt =====
-- A numeric type for examples: whole numbers for doubles, printed without decimals.
use info_logger.Base.{
  ℕ, ◌≡◌, refl, true, false, Option, none, some, ltb, ℤ, pos, negsuc, minus_one, set, replicate,
}
use info_logger.CText.{Bytes, codes, strchr}
use info_logger.CText.Numbers.{scan_int, print_int}
use info_logger.Message.{Real, Value, Message}
use info_logger.Message.Encode.{
  encode, encode_size, encode_split, encode_lines, put_records, put_record, finish, mark,
  truncate_at, truncate_behind, truncate_in_last, put_fields, put_field, put_value, put_string,
  cut_line, append, replace_special,
}

abbrev whole : ℤ → Option ℕ
whole (pos n) = some n
whole (negsuc n) = none

abbrev pub whole_real : Real
whole_real = record {
  Double = ℕ;
  zero_value = 0;
  print_double = λ n. print_int (pos n);
  scan_double = λ s. elim (scan_int s) [ none ↦ none | some z ↦ whole z ];
  is_positive = λ n. ltb 0 n;
}

abbrev pub text_value : Bytes → Value whole_real
text_value s = record {
  v_string = some s;
  v_int = pos 0;
  v_double = 0;
  length = 0;
  is_undefined = false;
}

abbrev pub int_value : ℕ → Value whole_real
int_value n = record {
  v_string = none;
  v_int = pos n;
  v_double = 0;
  length = 0;
  is_undefined = false;
}

abbrev blank : Value whole_real
blank = record { v_string = none; v_int = pos 0; v_double = 0; length = 0; is_undefined = true }

abbrev pub message_of : Bytes → Message whole_real
message_of s = record {
  values =
      set (set (set (replicate 18 blank) 0 (text_value (codes "I"))) 1 (int_value 11)) 15
        (text_value s);
  protocol = some 0;
}

-- the encoder with all its parts open
run_encode : Message whole_real → ℕ → ℤ → Option (ℤ × Option Bytes)
unfolding encode encode_size encode_split encode_lines put_records put_record finish mark
    truncate_at truncate_behind truncate_in_last put_fields put_field put_value put_string cut_line
    append replace_special print_int strchr
run_encode m size split = encode whole_real (some m) true (pos size) split

two_lines :
    run_encode (message_of (codes "a#b\ncd")) 100 (pos 15)
    ≡ some (pos 0, some (codes "*1.4#I#11##############a?b\n*1.4#I#11##############cd\n"))
unfolding run_encode
two_lines = refl

cut :
    run_encode (message_of (codes "abcdefghijklmnopqrst")) 40 (pos 15)
    ≡ some (minus_one, some (codes "*1.4#I#11##############abcdefghi [...]\n"))
unfolding run_encode
cut = refl
