-- ===== src/Message.antt =====
-- Log messages: src/infoLoggerMessage.h and the tables and helpers of src/infoLoggerMessage.c.
-- A field's union is a structure of its three members: no code reads another member than the one
-- written. Floating point is a parameter (`Real`): the sources only print, scan and compare it.
pub mod Encode
pub mod Sample
pub mod Convert
pub mod Decode
use info_logger.Base.{
  ℕ, zero, suc, ◌+◌, ◌≡◌, Bool, true, false, List, [], ◌∷◌, ◌++◌, Option, none, some, ◌==◌,
  if◌then◌else◌, ℤ, pos, minus_one, replicate, get_or,
}
use info_logger.CText.{Bytes, codes, equal}

-- `double`, with 0, printf("%lf"), sscanf("%lf") and the test `> 0`.
pub record Real : Type 1 where
  pub Double : Type 0
  pub zero_value : Double
  pub print_double : Double → Bytes
  pub scan_double : Bytes → Option Double
  pub is_positive : Double → Bool

-- The `type` of a field definition; `null` marks the end of the array.
pub data Kind : Type 0 where
  null string int double : Kind

pub record FieldDef : Type 0 where
  pub kind : Kind
  pub name : Bytes

pub record Protocol : Type 0 where
  pub version : Bytes
  pub number_of_fields : ℕ
  pub fields : List FieldDef

abbrev pub fields_max : ℕ
fields_max = 18

abbrev string_field : Bytes → FieldDef
string_field s = record { kind = string; name = s }

abbrev int_field : Bytes → FieldDef
int_field s = record { kind = int; name = s }

abbrev double_field : Bytes → FieldDef
double_field s = record { kind = double; name = s }

abbrev pub end_of_fields : FieldDef
end_of_fields = record { kind = null; name = [] }

abbrev pub protocol_1_4 : Protocol
protocol_1_4 = record {
  version = codes "1.4";
  number_of_fields = 16;
  fields =
      string_field (codes "severity")
      ∷ int_field (codes "level")
      ∷ double_field (codes "timestamp")
      ∷ string_field (codes "hostname")
      ∷ string_field (codes "rolename")
      ∷ int_field (codes "pid")
      ∷ string_field (codes "username")
      ∷ string_field (codes "system")
      ∷ string_field (codes "facility")
      ∷ string_field (codes "detector")
      ∷ string_field (codes "partition")
      ∷ int_field (codes "run")
      ∷ int_field (codes "errcode")
      ∷ int_field (codes "errline")
      ∷ string_field (codes "errsource")
      ∷ string_field (codes "message")
      ∷ end_of_fields
      ∷ [];
}

abbrev pub protocol_1_3 : Protocol
protocol_1_3 = record {
  version = codes "1.3";
  number_of_fields = 17;
  fields =
      string_field (codes "severity")
      ∷ int_field (codes "level")
      ∷ double_field (codes "timestamp")
      ∷ string_field (codes "hostname")
      ∷ string_field (codes "rolename")
      ∷ int_field (codes "pid")
      ∷ string_field (codes "username")
      ∷ string_field (codes "system")
      ∷ string_field (codes "facility")
      ∷ string_field (codes "detector")
      ∷ string_field (codes "partition")
      ∷ string_field (codes "dest")
      ∷ int_field (codes "run")
      ∷ int_field (codes "errcode")
      ∷ int_field (codes "errline")
      ∷ string_field (codes "errsource")
      ∷ string_field (codes "message")
      ∷ end_of_fields
      ∷ [];
}

abbrev pub protocol_1_2 : Protocol
protocol_1_2 = record {
  version = codes "1.2";
  number_of_fields = 11;
  fields =
      string_field (codes "severity")
      ∷ double_field (codes "timestamp")
      ∷ string_field (codes "hostname")
      ∷ string_field (codes "rolename")
      ∷ int_field (codes "pid")
      ∷ string_field (codes "username")
      ∷ string_field (codes "system")
      ∷ string_field (codes "facility")
      ∷ string_field (codes "dest")
      ∷ int_field (codes "run")
      ∷ string_field (codes "message")
      ∷ end_of_fields
      ∷ [];
}

-- The first one is the default.
abbrev pub protocols : List Protocol
protocols = protocol_1_4 ∷ protocol_1_3 ∷ protocol_1_2 ∷ []

abbrev pub same_kind : Kind → Kind → Bool
same_kind null null = true
same_kind string string = true
same_kind int int = true
same_kind double double = true
same_kind _ _ = false

-- `infoLog_msg_findField`, for a name that is not NULL: the index in the first `n` of the fields.
unfoldable pub find_in : ℕ → List FieldDef → Bytes → ℕ → ℤ
find_in zero ds s i = minus_one
find_in (suc n) [] s i = minus_one
find_in (suc n) (d ∷ ds) s i =
    let rest = find_in n ds s (i + 1) in if equal d.name s then pos i else rest

unfoldable pub find_field : Option Bytes → ℤ
unfolding find_in
find_field none = minus_one
find_field (some s) = find_in protocol_1_4.number_of_fields protocol_1_4.fields s 0

module _ (r : Real) where
  open r use {Double, zero_value}

  -- `infoLog_msgField_value_t`; `v_string` is `none` for a NULL pointer.
  pub record Value : Type 0 where
    pub v_string : Option Bytes
    pub v_int : ℤ
    pub v_double : Double
    pub length : ℕ
    pub is_undefined : Bool

  -- `infoLog_msg_t`: the values, and the protocol's index in `protocols` (`none` for NULL). The list
  -- that the `next` pointers make is a list of messages.
  pub record Message : Type 0 where
    pub values : List Value
    pub protocol : Option ℕ

  -- What the memset of `infoLog_msg_init` and its loop leave in each field.
  unfoldable pub undefined : Value
  undefined = record {
    v_string = none;
    v_int = pos 0;
    v_double = zero_value;
    length = 0;
    is_undefined = true;
  }

  -- `infoLog_msg_create`, whose malloc succeeds
  unfoldable pub create : Message
  unfolding undefined
  create = record { values = replicate fields_max undefined; protocol = none }
