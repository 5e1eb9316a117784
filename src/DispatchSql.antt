-- ===== src/DispatchSql.antt =====
-- InfoLoggerDispatchSQL of src/InfoLoggerDispatchSQL.cxx, which inserts messages into a database, and the
-- queue of src/InfoLoggerDispatch.cxx in front of it. What the database answers is an argument, by the
-- number of the call; the logs of its own and the debug output are left out.
pub mod Rows
pub mod Retry
use info_logger.Base.{
  ℕ, suc, ◌+◌, ◌%◌, ◌^◌, Bool, true, false, not, ◌&&◌, List, [], ◌∷◌, ◌++◌, Option, none, some,
  ◌==◌, ltb, leb, if◌then◌else◌, ℤ, pos, minus_one,
}
use info_logger.CText.{Bytes}

-- What an insertion meets: success, parameters that cannot be bound, the errors "data too long" and
-- "wrong value", a lost connection, or another error.
pub data Execution : Type 0 where
  inserted bind_failed too_long wrong_value server_lost other_error : Execution

-- Whether a transaction starts, and what the insertions meet.
pub record Database : Type 0 where
  pub begins : ℕ → Bool
  pub executes : ℕ → Execution

-- What the calls of a connection answer.
pub record Connecting : Type 0 where
  pub now : ℕ
  pub has_handle : Bool
  pub connects : Bool
  pub prepares : Bool

abbrev pub retry_connect : ℕ
retry_connect = 1

abbrev pub max_number_of_retries : ℕ
max_number_of_retries = 1

-- `returnDelayedMessage` and `returnDroppedMessage`, or neither.
pub data Outcome : Type 0 where
  done delayed dropped : Outcome

abbrev pub is_done : Outcome → Bool
is_done done = true
is_done _ = false

abbrev pub is_delayed : Outcome → Bool
is_delayed delayed = true
is_delayed _ = false

module _ (A : Type 0) where
  -- A message: the other fields, which are bound as they stand, and the last one, the text.
  pub record SqlMessage : Type 0 where
    pub fields : A
    pub text : Option Bytes

  -- `InfoLoggerDispatchSQLImpl`; `rows` is what was inserted, `begun` and `executed` count calls.
  pub record DispatchSql : Type 0 where
    pub db_is_connected : Bool
    pub db_last_connect_try : ℕ
    pub db_connect_trials : ℕ
    pub commit_enabled : Bool
    pub commit_number_of_msg : ℕ
    pub number_of_successive_failures : ℕ
    pub insert_count : ℕ
    pub msg_delayed_count : ℕ
    pub msg_dropped_count : ℕ
    pub begun : ℕ
    pub executed : ℕ
    pub rows : List (A × Bytes)

module _ {A : Type 0} where
  -- `disconnectDB`
  unfoldable pub disconnect_db : DispatchSql A → DispatchSql A
  disconnect_db s = record s { db_is_connected = false }

  -- The prepared statement, behind a connection.
  unfoldable pub prepare_insert : Bool → DispatchSql A → ℤ × DispatchSql A
  prepare_insert true s = (pos 0, record s { commit_number_of_msg = 0 })
  prepare_insert false s = (minus_one, disconnect_db s)

  -- `connectDB`
  unfoldable pub connect_db : Connecting → DispatchSql A → ℤ × DispatchSql A
  connect_db c s =
      let tried = record s { db_last_connect_try = c.now } in
      if s.db_is_connected
      then (pos 0, s)
      else if ltb c.now (s.db_last_connect_try + retry_connect)
      then (pos 1, s)
      else if not c.has_handle
      then (pos 1, tried)
      else if c.connects
      then prepare_insert c.prepares
          (record tried { db_is_connected = true; db_connect_trials = 0 })
      else (pos 1, record tried { db_connect_trials = s.db_connect_trials + 1 })

  -- `customLoop`, for whether the commit is due and whether it succeeds.
  unfoldable pub custom_loop : Connecting → Bool → Bool → DispatchSql A → ℤ × DispatchSql A
  custom_loop c is_timeout commits s =
      let (err, s') = connect_db c s in
      let due : Bool = elim err [ pos n ↦ n == 0 | _ ↦ false ] in
      if due && (s'.commit_enabled && (ltb 0 s'.commit_number_of_msg && is_timeout))
      then (err, record s' { commit_enabled = commits; commit_number_of_msg = 0 })
      else (err, s')

  unfoldable pub delay : DispatchSql A → Outcome × DispatchSql A
  delay s = (delayed, record s { msg_delayed_count = (s.msg_delayed_count + 1) % 2 ^ 64 })

  unfoldable pub drop_message : DispatchSql A → Outcome × DispatchSql A
  drop_message s = (dropped, record s { msg_dropped_count = (s.msg_dropped_count + 1) % 2 ^ 64 })

  -- An error that is none of the known ones: one more attempt, then the message is dropped.
  unfoldable pub unhandled : DispatchSql A → Outcome × DispatchSql A
  unhandled s =
      if leb (s.number_of_successive_failures + 1) max_number_of_retries
      then delay (
          disconnect_db
            (record s { number_of_successive_failures = s.number_of_successive_failures + 1 }))
      else drop_message (record s { number_of_successive_failures = 0 })

  -- What follows an insertion.
  unfoldable pub handle : Execution → A → Bytes → DispatchSql A → Outcome × DispatchSql A
  handle inserted fields line s = (
    done,
    record s {
      insert_count = (s.insert_count + 1) % 2 ^ 64;
      commit_number_of_msg = s.commit_number_of_msg + 1;
      rows = s.rows ++ (fields, line) ∷ [];
    },
  )
  handle bind_failed fields line s = drop_message s
  handle too_long fields line s = drop_message s
  handle wrong_value fields line s = drop_message s
  handle server_lost fields line s = delay (disconnect_db s)
  handle other_error fields line s = unhandled s

  unfoldable pub insert_line : Database → A → Bytes → DispatchSql A → Outcome × DispatchSql A
  insert_line db fields line s =
      handle (db.executes s.executed) fields line (record s { executed = s.executed + 1 })

  -- The loop over the lines of a message.
  unfoldable pub insert_lines : Database → A → List Bytes → DispatchSql A → Outcome × DispatchSql A
  insert_lines db fields [] s = (done, s)
  insert_lines db fields (l ∷ ls) s =
      let (o, s') = insert_line db fields l s in
      let rest = insert_lines db fields ls s' in if is_done o then rest else (o, s')

abbrev pub add_head : ℕ → List Bytes → List Bytes
add_head c [] = (c ∷ []) ∷ []
add_head c (l ∷ ls) = (c ∷ l) ∷ ls

-- The lines of a text: `strchr(msg, '\f')`, again and again.
unfoldable pub lines : Bytes → List Bytes
lines [] = [] ∷ []
lines (c ∷ cs) = let rest = lines cs in if c == 12 then [] ∷ rest else add_head c rest

-- The first line: what the message itself is, as soon as its first form feed is a NUL.
unfoldable pub first_line : Bytes → Bytes
first_line [] = []
first_line (c ∷ cs) = let rest = first_line cs in if c == 12 then [] else c ∷ rest

abbrev pub lines_of : Option Bytes → List Bytes
lines_of none = []
lines_of (some t) = lines t

abbrev pub cut_text : Option Bytes → Option Bytes
cut_text none = none
cut_text (some t) = some (first_line t)

module _ {A : Type 0} where
  -- The start of a transaction, if one is due: whether the message can be inserted.
  unfoldable pub begin_transaction : Database → DispatchSql A → Bool × DispatchSql A
  begin_transaction db s =
      if s.commit_enabled && s.commit_number_of_msg == 0
      then (if db.begins s.begun
          then (true, record s { begun = s.begun + 1 })
          else (false, record s { begun = s.begun + 1; commit_enabled = false }))
      else (true, s)

  -- One message, and what is left of it for a later attempt.
  unfoldable pub insert_message :
      Database → SqlMessage A → DispatchSql A → Outcome × DispatchSql A × SqlMessage A
  insert_message db m s =
      let (starts, s1) = begin_transaction db s in
      let (o, s2) = insert_lines db m.fields (lines_of m.text) s1 in
      let (d, s3) = delay s1 in
      if starts then (o, s2, record m { text = cut_text m.text }) else (d, s3, m)

  -- The loop over the messages of a list; a message that is dropped ends it.
  unfoldable pub insert_messages :
      Database → List (SqlMessage A) → DispatchSql A → Outcome × DispatchSql A × List (SqlMessage A)
  insert_messages db [] s = (done, s, [])
  insert_messages db (m ∷ ms) s =
      let (o, s', m') = insert_message db m s in
      let (o2, s'', ms') = insert_messages db ms s' in
      if is_done o then (o2, s'', m' ∷ ms') else (o, s', m' ∷ ms)

  -- `customMessageProcess`; a list that is delayed stays in the queue.
  unfoldable pub custom_message_process :
      Database → List (SqlMessage A) → DispatchSql A → Outcome × DispatchSql A × List (SqlMessage A)
  custom_message_process db ms s =
      let (d, s') = delay s in if s.db_is_connected then insert_messages db ms s else (d, s', ms)

  -- The loop of `threadCallback` of src/InfoLoggerDispatch.cxx over the queue.
  unfoldable pub dispatch_queue :
      Database
      → List (List (SqlMessage A))
      → DispatchSql A
      → List (List (SqlMessage A)) × DispatchSql A
  dispatch_queue db [] s = ([], s)
  dispatch_queue db (ms ∷ queue) s =
      let (o, s', ms') = custom_message_process db ms s in
      let rest = dispatch_queue db queue s' in if is_delayed o then (ms' ∷ queue, s') else rest
