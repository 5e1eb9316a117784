-- ===== src/Logger/Options.antt =====
-- Severities and message options: the enumerations of include/InfoLogger/InfoLogger.hxx with the
-- functions on them in src/InfoLogger.cxx.
use info_logger.Base.{
  ℕ, [], ◌∷◌, Option, none, some, ◌==◌, ◌+◌, if◌then◌else◌, ℤ, pos, minus_one, leb, ◌&&◌, length,
}
use info_logger.CText.{Bytes, codes, equal}
use info_logger.Context.{atoi}

pub data Severity : Type 0 where
  info error fatal warning debug undefined : Severity

-- The characters that the enumeration stands for.
unfoldable pub character : Severity → ℕ
character info = b'I'
character error = b'E'
character fatal = b'F'
character warning = b'W'
character debug = b'D'
character undefined = b'U'

-- `getIdFromSeverity`
unfoldable pub get_id_from_severity : Severity → ℤ
get_id_from_severity fatal = pos 1
get_id_from_severity error = pos 2
get_id_from_severity warning = pos 3
get_id_from_severity info = pos 4
get_id_from_severity debug = pos 5
get_id_from_severity undefined = pos 6

-- `getIndexFromSeverity`
unfoldable pub get_index_from_severity : Severity → ℕ
get_index_from_severity undefined = 1
get_index_from_severity info = 1
get_index_from_severity error = 2
get_index_from_severity fatal = 3
get_index_from_severity warning = 4
get_index_from_severity debug = 5

-- `tolower` on the letters of ASCII
abbrev tolower : ℕ → ℕ
tolower c = if leb b'A' c && leb c b'Z' then c + 32 else c

abbrev severity_of_letter : ℕ → Severity
severity_of_letter c =
    if c == b'i'
    then info
    else if c == b'e'
    then error
    else if c == b'f'
    then fatal
    else if c == b'w'
    then warning
    else if c == b'd'
    then debug
    else undefined

-- `getSeverityFromString`
unfoldable pub get_severity_from_string : Bytes → Severity
get_severity_from_string [] = undefined
get_severity_from_string (c ∷ cs) = severity_of_letter (tolower c)

-- `InfoLoggerMessageOption`; the source file is `none` for a null pointer.
pub record MessageOption : Type 0 where
  pub severity : Severity
  pub level : ℤ
  pub error_code : ℤ
  pub source_file : Option Bytes
  pub source_line : ℤ

abbrev pub undefined_message_option : MessageOption
undefined_message_option = record {
  severity = undefined;
  level = minus_one;
  error_code = minus_one;
  source_file = none;
  source_line = minus_one;
}

abbrev int_option : Bytes → ℤ
int_option value = if length value == 0 then minus_one else atoi value

-- `setMessageOption`: the return code with the options.
unfoldable pub set_message_option : Option Bytes → Option Bytes → MessageOption → ℤ × MessageOption
unfolding get_severity_from_string
set_message_option none value o = (minus_one, o)
set_message_option (some name) none o = (minus_one, o)
set_message_option (some name) (some value) o =
    if equal name (codes "Severity")
    then (
      pos 0,
      record o {
        severity = if length value == 0 then undefined else get_severity_from_string value;
      },
    )
    else if equal name (codes "Level")
    then (pos 0, record o { level = int_option value })
    else if equal name (codes "ErrorCode")
    then (pos 0, record o { error_code = int_option value })
    else if equal name (codes "SourceFile")
    then (pos 0, record o { source_file = if length value == 0 then none else some value })
    else if equal name (codes "SourceLine")
    then (pos 0, record o { source_line = int_option value })
    else (minus_one, o)
