-- ===== src/DispatchStats.antt =====
-- InfoLoggerDispatchStats of src/InfoLoggerDispatchStats.cxx: how many messages have which values of
-- their fields, in windows of time. The connections of the clients are left out; the text that is
-- published to them is here. A map is the list of its entries, for the windows in the order of their
-- keys, for the counts in the order in which the library goes over them.
pub mod Counts
pub mod Current
use info_logger.Base.{
  ℕ, zero, suc, ◌+◌, ◌-◌, ◌%◌, ◌^◌, Bool, true, false, ◌||◌, List, [], ◌∷◌, ◌++◌, map, Option, none,
  some, ltb, leb, ◌==◌, if◌then◌else◌, replicate, length, get_or, ℤ, pos, negsuc, minus_one,
}
use info_logger.CText.{Bytes, codes, equal}
use info_logger.CText.Numbers.{print_int}
use info_logger.Message.{
  Real, Kind, null, string, int, double, Value, Message, protocols, protocol_1_4, end_of_fields,
  undefined, find_field,
}
use info_logger.Message.Encode.{encode}

-- An entry of `CountMap`.
pub record Count : Type 0 where
  pub key : Bytes
  pub number : ℕ

-- `struct FieldStats`
pub record FieldStats : Type 0 where
  pub time_begin : ℕ
  pub time_end : ℕ
  pub field_counts : List (List Count)
  pub total_messages : ℕ

-- An entry of `ilgFieldsToIndex`.
pub record Combination : Type 0 where
  pub name : Bytes
  pub indices : List ℕ

-- The part of `InfoLoggerDispatchStatsImpl` without the sockets; `current_window` is the key of the
-- window that the pointer points to.
pub record DispatchStats : Type 0 where
  pub publish_interval : ℕ
  pub last_time_published : ℕ
  pub reset_interval : ℕ
  pub last_time_reset : ℕ
  pub max_history : ℕ
  pub windows : List (ℕ × FieldStats)
  pub current_window : Option ℕ
  pub ilg_fields_to_index : List Combination

-- The loop of `addCombination`; `none` is its return at an invalid name.
unfoldable pub find_all : List Bytes → Option (List ℕ)
find_all [] = some []
find_all (name ∷ names) = elim (find_field (some name)) [
  | negsuc n ↦ none
  | pos i ↦ elim (find_all names) [ none ↦ none | some is ↦ some (i ∷ is) ]
]

-- The names with a dash between them.
unfoldable pub dashed : List Bytes → Bytes
dashed [] = []
dashed (name ∷ []) = name
dashed (name ∷ next ∷ names) = name ++ b'-' ∷ dashed (next ∷ names)

-- `addCombination`
unfoldable pub add_combination : List Combination → List Bytes → List Combination
add_combination cs names = elim (find_all names) [
  | none ↦ cs
  | some is ↦ cs ++ record { name = dashed names; indices = is } ∷ []
]

unfoldable pub add_combinations : List Combination → List (List Bytes) → List Combination
add_combinations cs [] = cs
add_combinations cs (names ∷ rest) = add_combinations (add_combination cs names) rest

-- The combinations that the constructor adds.
abbrev pub indexed_names : List (List Bytes)
indexed_names =
    (codes "severity" ∷ [])
    ∷ (codes "level" ∷ [])
    ∷ (codes "hostname" ∷ [])
    ∷ (codes "rolename" ∷ [])
    ∷ (codes "hostname" ∷ codes "pid" ∷ [])
    ∷ (codes "system" ∷ [])
    ∷ (codes "facility" ∷ [])
    ∷ (codes "detector" ∷ [])
    ∷ (codes "partition" ∷ [])
    ∷ (codes "run" ∷ [])
    ∷ (codes "run" ∷ codes "detector" ∷ codes "severity" ∷ codes "level" ∷ [])
    ∷ (codes "run" ∷ codes "hostname" ∷ codes "severity" ∷ codes "level" ∷ [])
    ∷ (codes "run" ∷ codes "hostname" ∷ codes "facility" ∷ [])
    ∷ (codes "errcode" ∷ [])
    ∷ (codes "errsource" ∷ codes "errline" ∷ [])
    ∷ (codes "hostname" ∷ codes "pid" ∷ codes "errsource" ∷ codes "errline" ∷ [])
    ∷ []

-- The constructor, with the settings `statsPublishInterval`, `statsResetInterval` and `statsHistory`.
unfoldable pub create : ℕ → ℕ → ℕ → DispatchStats
create publish reset history = record {
  publish_interval = publish;
  last_time_published = 0;
  reset_interval = reset;
  last_time_reset = 0;
  max_history = history;
  windows = [];
  current_window = none;
  ilg_fields_to_index = add_combinations [] indexed_names;
}

-- Arithmetic of `uint64_t`.
unfoldable pub plus : ℕ → ℕ → ℕ
plus a b = (a + b) % 2 ^ 64

unfoldable pub minus : ℕ → ℕ → ℕ
minus a b = (a + 2 ^ 64 - b) % 2 ^ 64

-- `map[v]++`
unfoldable pub increment : Bytes → List Count → List Count
increment v [] = record { key = v; number = 1 } ∷ []
increment v (c ∷ cs) =
    let rest = increment v cs in
    if equal c.key v then record c { number = plus c.number 1 } ∷ cs else c ∷ rest

-- The count of a combination that is not incomplete.
abbrev pub count_value : Option Bytes → List Count → List Count
count_value none n = n
count_value (some v) n = increment v n

abbrev pub is_empty : Bytes → Bool
is_empty [] = true
is_empty (c ∷ cs) = false

module _ (r : Real) where
  open r use {print_double}

  -- The switch of `getStringValue`. No defined string is NULL.
  unfoldable pub value_text : Kind → Value r → Bytes
  value_text string v = elim v.v_string [ none ↦ [] | some s ↦ s ]
  value_text int v = print_int v.v_int
  value_text double v = print_double v.v_double
  value_text null v = []

  -- `getStringValue`, for a message with the protocol `k`.
  unfoldable pub get_string_value : ℕ → Message r → ℕ → Bytes
  get_string_value k m i =
      let v = get_or m.values i (undefined r) in
      if v.is_undefined
      then []
      else value_text (get_or (get_or protocols k protocol_1_4).fields i end_of_fields).kind v

  -- The value of a combination; `none` if it is incomplete.
  unfoldable pub join_values : ℕ → Message r → Bool → List ℕ → Bytes → Option Bytes
  join_values k m first [] v = some v
  join_values k m first (i ∷ is) v =
      let fv = get_string_value k m i in
      let rest = join_values k m false is ((if first then v else v ++ b'-' ∷ []) ++ fv) in
      if is_empty fv then none else rest

  -- The value of a combination in a message that is counted, which has a protocol.
  unfoldable pub combined : Message r → Combination → Option Bytes
  combined m c = elim m.protocol [ none ↦ none | some k ↦ join_values k m true c.indices [] ]

  -- The loop over the combinations.
  unfoldable pub count_fields : Message r → List Combination → List (List Count) → List (List Count)
  count_fields m [] counts = counts
  count_fields m (c ∷ cs) [] = []
  count_fields m (c ∷ cs) (n ∷ counts) = count_value (combined m c) n ∷ count_fields m cs counts

  -- Whether a message is counted: it can be encoded for a buffer of 32768 bytes.
  unfoldable pub can_encode : Message r → Bool
  can_encode m = elim (encode r (some m) true (pos 32768) minus_one) [
    | none ↦ false
    | some (code, text) ↦ elim code [ pos n ↦ n == 0 | negsuc n ↦ false ]
  ]

  -- One message, for the current window.
  unfoldable pub count_message : List Combination → FieldStats → Message r → FieldStats
  count_message cs w m =
      if can_encode m
      then record w {
        total_messages = plus w.total_messages 1;
        field_counts = count_fields m cs w.field_counts;
      }
      else w

  -- The loop of `customMessageProcess` over a list of messages.
  unfoldable pub count_messages : List Combination → FieldStats → List (Message r) → FieldStats
  count_messages cs w [] = w
  count_messages cs w (m ∷ ms) = count_messages cs (count_message cs w m) ms

-- A change of the window with a key.
unfoldable pub update_window :
    ℕ → (FieldStats → FieldStats) → List (ℕ × FieldStats) → List (ℕ × FieldStats)
update_window k f [] = []
update_window k f ((j, w) ∷ ws) = (j, if j == k then f w else w) ∷ update_window k f ws

unfoldable pub find_window : ℕ → List (ℕ × FieldStats) → Option FieldStats
find_window k [] = none
find_window k ((j, w) ∷ ws) = let rest = find_window k ws in if j == k then some w else rest

-- The messages go to the current window, if there is one.
unfoldable pub count_in :
    (r : Real)
    → Option ℕ
    → List Combination
    → List (Message r)
    → List (ℕ × FieldStats)
    → List (ℕ × FieldStats)
count_in r none cs ms ws = ws
count_in r (some k) cs ms ws = update_window k (λ w. count_messages r cs w ms) ws

-- `customMessageProcess`, which returns 0
unfoldable pub custom_message_process :
    (r : Real) → DispatchStats → List (Message r) → DispatchStats
custom_message_process r s ms = record s {
  windows = count_in r s.current_window s.ilg_fields_to_index ms s.windows;
}

-- `windows.emplace`, which leaves a window that is there.
unfoldable pub emplace : ℕ → FieldStats → List (ℕ × FieldStats) → List (ℕ × FieldStats)
emplace k x [] = (k, x) ∷ []
emplace k x ((j, w) ∷ ws) =
    let rest = emplace k x ws in
    if ltb k j then (k, x) ∷ (j, w) ∷ ws else if j == k then (j, w) ∷ ws else (j, w) ∷ rest

-- The loop that removes the windows that ended before a time.
unfoldable pub remove_old : ℕ → List (ℕ × FieldStats) → List (ℕ × FieldStats)
remove_old t [] = []
remove_old t ((j, w) ∷ ws) =
    let rest = remove_old t ws in if ltb w.time_end t then rest else (j, w) ∷ rest

abbrev pub close_current : Option ℕ → ℕ → List (ℕ × FieldStats) → List (ℕ × FieldStats)
close_current none now ws = ws
close_current (some k) now ws = update_window k (λ w. record w { time_end = now }) ws

-- The window that `customLoop` adds.
unfoldable pub new_window : ℕ → ℕ → ℕ → FieldStats
new_window now reset fields = record {
  time_begin = now;
  time_end = plus now reset;
  field_counts = replicate fields [];
  total_messages = 0;
}

abbrev pub is_none {ℓ} : {A : Type ℓ} → Option A → Bool
is_none none = true
is_none (some a) = false

-- `customLoop` where it makes a new window.
unfoldable pub reset_window : ℕ → DispatchStats → DispatchStats
reset_window now s =
    if leb s.reset_interval (minus now s.last_time_reset) || is_none s.current_window
    then record s {
      last_time_reset = now;
      windows = remove_old (minus now s.max_history) (
          emplace now (new_window now s.reset_interval (length s.ilg_fields_to_index))
            (close_current s.current_window now s.windows));
      current_window = some now;
    }
    else s

-- The counts of one combination in the text that is published.
unfoldable pub print_counts : List Count → Bytes
print_counts [] = []
print_counts (c ∷ []) = c.key ++ b' ' ∷ print_int (pos c.number)
print_counts (c ∷ d ∷ cs) = c.key ++ b' ' ∷ print_int (pos c.number) ++ b' ' ∷ print_counts (d ∷ cs)

unfoldable pub print_fields : List Combination → List (List Count) → Bytes
print_fields cs [] = []
print_fields [] (n ∷ counts) = []
print_fields (c ∷ cs) ([] ∷ counts) = print_fields cs counts
print_fields (c ∷ cs) ((x ∷ n) ∷ counts) =
    c.name ++ codes " {" ++ print_counts (x ∷ n) ++ codes "} " ++ print_fields cs counts

-- `toTclList`
unfoldable pub to_tcl_list : List Combination → FieldStats → Bytes
to_tcl_list cs w =
    codes "{timeBegin "
    ++ print_int (pos w.time_begin)
    ++ codes " timeEnd "
    ++ print_int (pos w.time_end)
    ++ codes " totalMessages "
    ++ print_int (pos w.total_messages)
    ++ codes " fieldCounts {"
    ++ print_fields cs w.field_counts
    ++ codes "}}"

-- The text of all windows.
unfoldable pub published : List Combination → List (ℕ × FieldStats) → Bytes
published cs [] = b'\n' ∷ []
published cs ((k, w) ∷ ws) = to_tcl_list cs w ++ published cs ws

-- `customLoop` behind the connections: what it publishes, if it does, and the new window.
unfoldable pub custom_loop : ℕ → DispatchStats → Option Bytes × DispatchStats
custom_loop now s =
    if ltb s.publish_interval (minus now s.last_time_published)
    then (
      some (published s.ilg_fields_to_index s.windows),
      reset_window now (record s { last_time_published = now }),
    )
    else (none, reset_window now s)
