-- ===== src/Context.antt =====
-- InfoLoggerContext of src/InfoLoggerContext.cxx: the fields that a process gives to all its messages.
-- The system calls that `refresh` makes are a parameter, the record `Host`.
pub mod Fields
use info_logger.Base.{
  ℕ, zero, suc, Bool, true, false, List, [], ◌∷◌, Option, none, some, ◌==◌, ◌+◌, if◌then◌else◌, ℤ,
  pos, minus_one, leb_ℤ, length, take,
}
use info_logger.CText.{Bytes, codes, c_str, strchr, equal}
use info_logger.CText.Numbers.{scan_int}

pub data FieldName : Type 0 where
  facility role system detector partition run : FieldName

pub record Context : Type 0 where
  pub facility : Bytes
  pub role : Bytes
  pub system : Bytes
  pub detector : Bytes
  pub partition : Bytes
  pub run : ℤ
  pub process_id : ℤ
  pub host_name : Bytes
  pub user_name : Bytes

-- What the process asks of the system: `getpid`, `gethostname` and `getpwuid` (`none` where they
-- fail), and `getenv` (`none` for NULL).
pub record Host : Type 0 where
  pub getpid : ℤ
  pub gethostname : Option Bytes
  pub getpwuid : Option Bytes
  pub getenv : Bytes → Option Bytes

-- `atoi`, 0 where there is no number
abbrev pub atoi : Bytes → ℤ
atoi s = elim (scan_int (c_str s)) [ none ↦ pos 0 | some z ↦ z ]

unfoldable pub reset : Context
reset = record {
  facility = [];
  role = [];
  system = [];
  detector = [];
  partition = [];
  run = minus_one;
  process_id = minus_one;
  host_name = [];
  user_name = [];
}

-- The run number of a text: `v_run <= 0` is refused.
abbrev pub positive_or_unset : ℤ → ℤ
positive_or_unset v_run = if leb_ℤ v_run (pos 0) then minus_one else v_run

-- The name up to the first dot.
unfoldable pub short_name : Bytes → Bytes
short_name s = elim (strchr b'.' s) [ none ↦ s | some k ↦ take k s ]

abbrev pub or_old : Option Bytes → Bytes → Bytes
or_old none old = old
or_old (some s) old = s

abbrev pub run_or_old : Option Bytes → ℤ → ℤ
run_or_old none old = old
run_or_old (some s) old = positive_or_unset (atoi s)

-- `refresh()`
unfoldable pub refresh : Host → Context
unfolding reset short_name
refresh h = record reset {
  process_id = h.getpid;
  host_name = elim h.gethostname [ none ↦ [] | some s ↦ short_name s ];
  user_name = or_old h.getpwuid [];
  role = or_old (h.getenv (codes "O2_ROLE")) [];
  system = or_old (h.getenv (codes "O2_SYSTEM")) [];
  detector = or_old (h.getenv (codes "O2_DETECTOR")) [];
  partition = or_old (h.getenv (codes "O2_PARTITION")) [];
  run = run_or_old (h.getenv (codes "O2_RUN")) minus_one;
}

-- `refresh(pid)`
unfoldable pub refresh_pid : Host → ℤ → Context
unfolding refresh
refresh_pid h (pos zero) = refresh h
refresh_pid h pid = record reset {
  process_id = pid;
  host_name = elim h.gethostname [ none ↦ [] | some s ↦ short_name s ];
}

abbrev pub set_run : Bytes → Context → ℤ × Context
set_run value c =
    let c' : Context = record c { run = minus_one } in
    if length value == 0
    then (pos 0, c')
    else if leb_ℤ (atoi value) (pos 0)
    then (minus_one, c')
    else (pos 0, record c { run = atoi value })

-- `setField(key, value)`
unfoldable pub set_field : FieldName → Bytes → Context → ℤ × Context
set_field facility value c = (pos 0, record c { facility = value })
set_field role value c = (pos 0, record c { role = value })
set_field system value c = (pos 0, record c { system = value })
set_field detector value c = (pos 0, record c { detector = value })
set_field partition value c = (pos 0, record c { partition = value })
set_field run value c = set_run value c

abbrev pub failure : ℤ → Bool
failure (pos zero) = false
failure _ = true

-- `setField(listOfKeyValuePairs)`: the number of errors, counted from `n`, with the context.
unfoldable pub set_fields : List (FieldName × Bytes) → ℕ → Context → ℕ × Context
unfolding set_field
set_fields [] n c = (n, c)
set_fields ((key, value) ∷ kvs) n c =
    let (e, c') = set_field key value c in set_fields kvs (if failure e then n + 1 else n) c'

-- `getFieldNameFromString`
unfoldable pub get_field_name_from_string : Bytes → Option FieldName
get_field_name_from_string input =
    let key = c_str input in
    if equal key (codes "Facility")
    then some facility
    else if equal key (codes "Role")
    then some role
    else if equal key (codes "System")
    then some system
    else if equal key (codes "Detector")
    then some detector
    else if equal key (codes "Partition")
    then some partition
    else if equal key (codes "Run")
    then some run
    else none
