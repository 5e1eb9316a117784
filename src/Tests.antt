-- ===== src/Tests.antt =====
-- The theorems of the library at concrete inputs.
pub mod Client
pub mod Daemon
pub mod Database
pub mod Dispatch
pub mod KeyValue
pub mod PermFifo
pub mod Transmission
pub mod Transport
use info_logger.Base.{
  ℕ, ◌+◌, ◌<◌, ◌≤◌, ◌≡◌, ◌≢◌, refl, true, false, List, [], ◌∷◌, ◌++◌, Option, none, some, arith,
  pos, minus_one, length, leb→le, get_or, replicate,
}
use info_logger.CText.{Bytes, codes}
use info_logger.CText.Numbers.{print_int, scan_int-digits, print_int-AllDigits, print_int-ne}
use info_logger.Fifo.{new}
use info_logger.Fifo.Queue
use info_logger.Fifo.Queue.{Op, write, read, read_index, is_full}
use info_logger.Fifo.Trace.{run, run-new}
use info_logger.Message.{Value, null, string, int, double, undefined, protocols, protocol_1_4}
use info_logger.Message.Sample.{whole_real, int_value, message_of}
use info_logger.Message.Encode.{encode, encode_lines, replace_special, start_of_lines, pairs}
use info_logger.Message.Encode.Bounds.{ReturnsWithin, encode-ReturnsWithin}
use info_logger.Message.Encode.Record.{Typed, record_text, fields_text, field_text, value_text}
use info_logger.Message.Encode.Lines.{text_of, split_lines, records_text, encode_lines-eq-text_of}
use info_logger.Message.Convert.{proto_init}
use info_logger.Message.Convert.Carried.{
  converted, carried, agrees, fields_of, source, table_of, default_field, convert-carried,
}
use info_logger.Message.Decode.{decode}
use info_logger.Message.Decode.Fields.{Laws, AllSendable, AllDigits-Plain}
use info_logger.Message.Decode.RoundTrip.{default_pairs, line_of, received_message, decode-encode}

abbrev queue_ops : List (Op ℕ)
queue_ops =
    write (some 7)
    ∷ write (some 8)
    ∷ write (some 9)
    ∷ is_full
    ∷ read_index 1
    ∷ read
    ∷ read
    ∷ read
    ∷ []

run-new_example :
    run (new 2 (some 0)) queue_ops ≡ Queue.run 2 (record { held = []; taken = 0 }) queue_ops
run-new_example = run-new 2 (some 0) queue_ops

encode-ReturnsWithin_example :
    ReturnsWithin whole_real
      (pos 40)
      (encode whole_real (some (message_of (codes "abcdefghijklmnopqrst"))) true (pos 40) (pos 15))
encode-ReturnsWithin_example =
    encode-ReturnsWithin whole_real (some (message_of (codes "abcdefghijklmnopqrst"))) true (pos 40)
      (pos 15)

laws : Laws whole_real
laws = record {
  reread = λ d. d;
  scan-print = λ d. rw (whole_real, scan_int-digits d) refl;
  print_plain = λ d. AllDigits-Plain (print_int (pos d)) (print_int-AllDigits d);
  print_ne = print_int-ne;
}

abbrev three_everywhere : List (Value whole_real)
three_everywhere = replicate 18 (int_value 3)

convert-carried_example :
    ((proto_init protocols).0 ≡ pos 0)
    × (agrees (default_field 15) (fields_of 1) (source 15 (table_of 1)) ≡ true)
    × (converted whole_real 1 three_everywhere 15
        ≡ carried whole_real three_everywhere (undefined whole_real) (source 15 (table_of 1)))
convert-carried_example =
    convert-carried whole_real 0 15 three_everywhere (omega arith) (omega arith) (leb→le 17 18 refl)

abbrev two_texts : List (Value whole_real)
two_texts = (message_of (codes "a#b\ncd")).values

abbrev two_lines : Option Bytes
two_lines = start_of_lines whole_real (get_or two_texts 15 (undefined whole_real))

is_string : string ≢ null
is_string e = cc

is_int : int ≢ null
is_int e = cc

is_double : double ≢ null
is_double e = cc

all_kinds :
    Typed whole_real (pairs whole_real protocol_1_4.number_of_fields protocol_1_4.fields two_texts)
all_kinds = (
  is_string,
  (
    is_int,
    (
      is_double,
      (
        is_string,
        (
          is_string,
          (
            is_int,
            (
              is_string,
              (
                is_string,
                (
                  is_string,
                  (
                    is_string,
                    (is_string, (is_int, (is_int, (is_int, (is_string, (is_string, tt)))))),
                  ),
                ),
              ),
            ),
          ),
        ),
      ),
    ),
  ),
)

two_room : length (text_of whole_real protocol_1_4 two_texts (some 15) two_lines) + 8 ≤ 200
unfolding text_of split_lines records_text record_text fields_text field_text value_text print_int
    replace_special laws
two_room =
    leb→le (length (text_of whole_real protocol_1_4 two_texts (some 15) two_lines) + 8) 200 refl

encode_lines-eq-text_of_example :
    encode_lines whole_real protocol_1_4 two_texts (some 15) two_lines 200
    ≡ some (pos 0, some (text_of whole_real protocol_1_4 two_texts (some 15) two_lines))
encode_lines-eq-text_of_example =
    encode_lines-eq-text_of whole_real 200 protocol_1_4 two_texts (some 15) two_lines all_kinds
      (omega (arith, two_room)) (λ _. two_room)

true_ne : true ≢ false
true_ne e = cc

two_sendable : AllSendable whole_real laws (default_pairs whole_real laws two_texts)
two_sendable = (
  (is_string, λ h. (codes "I", refl, refl, (refl, tt))),
  (
    (is_int, λ h. (10, refl)),
    (
      (is_double, λ h. absurd (true_ne h)),
      (
        (is_string, λ h. absurd (true_ne h)),
        (
          (is_string, λ h. absurd (true_ne h)),
          (
            (is_int, λ h. absurd (true_ne h)),
            (
              (is_string, λ h. absurd (true_ne h)),
              (
                (is_string, λ h. absurd (true_ne h)),
                (
                  (is_string, λ h. absurd (true_ne h)),
                  (
                    (is_string, λ h. absurd (true_ne h)),
                    (
                      (is_string, λ h. absurd (true_ne h)),
                      (
                        (is_int, λ h. absurd (true_ne h)),
                        (
                          (is_int, λ h. absurd (true_ne h)),
                          (
                            (is_int, λ h. absurd (true_ne h)),
                            (
                              (is_string, λ h. absurd (true_ne h)),
                              (
                                (
                                  is_string,
                                  λ h. (
                                    codes "a#b\ncd",
                                    refl,
                                    refl,
                                    (refl, (refl, (refl, (refl, (refl, (refl, tt)))))),
                                  ),
                                ),
                                tt,
                              ),
                            ),
                          ),
                        ),
                      ),
                    ),
                  ),
                ),
              ),
            ),
          ),
        ),
      ),
    ),
  ),
)

line_room : length (line_of whole_real laws two_texts) + 1 < 200
unfolding line_of record_text fields_text field_text value_text print_int replace_special laws
line_room = leb→le (length (line_of whole_real laws two_texts) + 2) 200 refl

decode-encode_example :
    (encode whole_real
        (some (record { values = two_texts; protocol = some 0 }))
        true
        (pos 200)
        minus_one
      ≡ some (pos 0, some (line_of whole_real laws two_texts ++ b'\n' ∷ [])))
    × (decode whole_real none (line_of whole_real laws two_texts ∷ [])
        ≡ (received_message whole_real laws two_texts ∷ [], []))
decode-encode_example =
    decode-encode whole_real laws 199 none two_texts (leb→le 16 18 refl) two_sendable line_room
