-- ===== src/Tests/Database.antt =====
-- The insertion into the database at concrete messages.
use info_logger.Base.{ℕ, refl, true, List, [], ◌∷◌, some, arith, if◌then◌else◌, ◌==◌}
use info_logger.CText.{Bytes, codes}
use info_logger.DispatchSql.{
  Database, inserted, server_lost, other_error, SqlMessage, DispatchSql, first_line, dispatch_queue,
}
use info_logger.DispatchSql.Retry.{IsCounted, dispatch_queue-IsCounted}

abbrev fresh : DispatchSql ℕ
fresh = record {
  db_is_connected = true;
  db_last_connect_try = 0;
  db_connect_trials = 0;
  commit_enabled = true;
  commit_number_of_msg = 0;
  number_of_successive_failures = 0;
  insert_count = 0;
  msg_delayed_count = 0;
  msg_dropped_count = 0;
  begun = 0;
  executed = 0;
  rows = [];
}

abbrev two_lines : Bytes
two_lines = b'a' ∷ 12 ∷ b'b' ∷ []

abbrev long_message : SqlMessage ℕ
long_message = record { fields = 7; text = some two_lines }

abbrev cut_message : SqlMessage ℕ
cut_message = record { fields = 7; text = some (first_line two_lines) }

abbrev some_queue : List (List (SqlMessage ℕ))
some_queue =
    (long_message ∷ []) ∷ (record { fields = 8; text = some (codes "c") } ∷ long_message ∷ []) ∷ []

abbrev losing : Database
losing = record { begins = λ n. true; executes = λ n. server_lost }

abbrev failing : Database
failing = record { begins = λ n. true; executes = λ n. if n == 1 then other_error else inserted }

fresh-IsCounted : IsCounted fresh
fresh-IsCounted = record { counted = refl; patient = omega arith }

dispatch_queue-IsCounted_example : IsCounted (dispatch_queue failing some_queue fresh).1
dispatch_queue-IsCounted_example = dispatch_queue-IsCounted failing some_queue fresh fresh-IsCounted
