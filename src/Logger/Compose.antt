-- ===== src/Logger/Compose.antt =====
-- How `pushMessage` of src/InfoLogger.cxx makes a message of its options, its context and its text,
-- and `refreshDefaultMsg`. A run of the macro InfoLoggerMessageHelperSetValue is a list of settings.
pub mod Values
use info_logger.Base.{
  ℕ, zero, suc, Bool, true, false, List, [], ◌∷◌, ◌++◌, Option, none, some, ◌==◌, if◌then◌else◌, ℤ,
  pos, negsuc, length, get_or, set,
}
use info_logger.CText.{Bytes, codes}
use info_logger.Message.{Real, Value, Message, undefined, find_field}
use info_logger.Context.{Context}
use info_logger.Logger.Options.{Severity, character, MessageOption}
use info_logger.Logger.Options

abbrev pub is_minus_one : ℤ → Bool
is_minus_one (negsuc zero) = true
is_minus_one _ = false

abbrev pub is_undefined_severity : Severity → Bool
is_undefined_severity Options.undefined = true
is_undefined_severity _ = false

-- The index `ix_*` that the constructor InfoLoggerMessageHelper finds; it throws on -1.
unfoldable pub field_index : Bytes → Option ℕ
field_index name = elim (find_field (some name)) [ pos k ↦ some k | negsuc k ↦ none ]

-- What stands behind the last slash, `none` where there is no slash.
unfoldable pub behind_slash : Bytes → Option Bytes
behind_slash [] = none
behind_slash (c ∷ cs) = elim (behind_slash cs) [
  | some s ↦ some s
  | none ↦ if c == b'/' then some cs else none
]

unfoldable pub short_source : Bytes → Bytes
short_source s = elim (behind_slash s) [ none ↦ s | some t ↦ t ]

module _ (r : Real) where
  open r use {Double}

  -- What a field is set to.
  pub data Content : Type 0 where
    text : Bytes → Content
    number : ℤ → Content
    real : Double → Content

  unfoldable pub put_content : Content → Value r → Value r
  put_content (text s) v = record v { v_string = some s; is_undefined = false }
  put_content (number z) v = record v { v_int = z; is_undefined = false }
  put_content (real d) v = record v { v_double = d; is_undefined = false }

  -- `InfoLoggerMessageHelperSetValue`
  unfoldable pub set_value : Bytes → Content → Message r → Message r
  set_value name content m = elim (field_index name) [
    | none ↦ m
    | some k ↦ record m {
      values = set m.values k (put_content content (get_or m.values k (undefined r)));
    }
  ]

  unfoldable pub set_values : List (Bytes × Content) → Message r → Message r
  set_values [] m = m
  set_values ((name, content) ∷ ss) m = set_values ss (set_value name content m)

  -- a setting under the guard `length() > 0`
  abbrev pub text_setting : Bytes → Bytes → List (Bytes × Content)
  text_setting name s = if length s == 0 then [] else (name, text s) ∷ []

  -- a setting under the guard `!= -1`
  abbrev pub number_setting : Bytes → ℤ → List (Bytes × Content)
  number_setting name z = if is_minus_one z then [] else (name, number z) ∷ []

  unfoldable pub context_settings : Context → List (Bytes × Content)
  context_settings c =
      text_setting (codes "facility") c.facility
      ++ text_setting (codes "rolename") c.role
      ++ text_setting (codes "system") c.system
      ++ text_setting (codes "detector") c.detector
      ++ text_setting (codes "partition") c.partition
      ++ number_setting (codes "run") c.run
      ++ number_setting (codes "pid") c.process_id
      ++ text_setting (codes "hostname") c.host_name
      ++ text_setting (codes "username") c.user_name

  unfoldable pub option_settings : MessageOption → List (Bytes × Content)
  option_settings o =
      (if is_undefined_severity o.severity
        then []
        else (codes "severity", text (character o.severity ∷ [])) ∷ [])
      ++ number_setting (codes "level") o.level
      ++ number_setting (codes "errcode") o.error_code
      ++ elim o.source_file [ none ↦ [] | some s ↦ (codes "errsource", text (short_source s)) ∷ [] ]
      ++ number_setting (codes "errline") o.source_line

  unfoldable pub time_settings : Option Double → List (Bytes × Content)
  time_settings none = []
  time_settings (some d) = (codes "timestamp", real d) ∷ []

  -- The message that `pushMessage` makes, of the time if the clock can be read.
  unfoldable pub compose : Message r → Option Double → MessageOption → Context → Bytes → Message r
  compose default now o c body =
      set_values
        (time_settings now
          ++ (codes "message", text body) ∷ []
          ++ option_settings o
          ++ context_settings c)
        default

  abbrev reset_first : ℕ → List (Value r) → List (Value r)
  reset_first zero vs = vs
  reset_first (suc n) [] = []
  reset_first (suc n) (v ∷ vs) = undefined r ∷ reset_first n vs

  -- `refreshDefaultMsg`
  unfoldable pub refresh_default_msg : Context → Message r → Message r
  refresh_default_msg c m =
      set_values ((codes "severity", text (character Options.info ∷ [])) ∷ context_settings c)
        (record { values = reset_first 16 m.values; protocol = some 0 })
