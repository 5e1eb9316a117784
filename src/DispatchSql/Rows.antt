-- ===== src/DispatchSql/Rows.antt =====
-- What src/InfoLoggerDispatchSQL.cxx inserts into the database.
use info_logger.Base.{◌≡◌, Bool, true, false, List, [], ◌∷◌, ◌++◌, if◌then◌else◌}
use info_logger.CText.{Bytes}
use info_logger.DispatchSql.{inserted, Database, Outcome, done, SqlMessage, DispatchSql, lines_of}

module _ {A : Type 0} where
  abbrev pub row_list : A → List Bytes → List (A × Bytes)
  row_list fields [] = []
  row_list fields (l ∷ ls) = (fields, l) ∷ row_list fields ls

  -- The rows of a message, one for each line, and of the messages of a queue.
  abbrev pub rows_of : SqlMessage A → List (A × Bytes)
  rows_of m = row_list m.fields (lines_of m.text)

  abbrev pub all_rows : List (SqlMessage A) → List (A × Bytes)
  all_rows [] = []
  all_rows (m ∷ ms) = rows_of m ++ all_rows ms

  abbrev pub queue_rows : List (List (SqlMessage A)) → List (A × Bytes)
  queue_rows [] = []
  queue_rows (ms ∷ queue) = all_rows ms ++ queue_rows queue

-- Every transaction starts, and every insertion succeeds.
abbrev pub healthy : Database
healthy = record { begins = λ n. true; executes = λ n. inserted }

pub first_of :
    {B : Type 0} (P : B → Type 0) (test : Bool) (x y : B)
    → test ≡ true
    → P x
    → P (if test then x else y)
first_of P true x y e h = h
first_of P false x y e h = cc e

pub second_of :
    {B : Type 0} (P : B → Type 0) (test : Bool) (x y : B)
    → test ≡ false
    → P y
    → P (if test then x else y)
second_of P true x y e h = cc e
second_of P false x y e h = h

module _ {A : Type 0} where
  -- An operation is done, has inserted these rows, and is still connected.
  pub record Inserts (s : DispatchSql A) (rows : List (A × Bytes)) (o : Outcome)
      (s' : DispatchSql A) : Type 0 where
    pub outcome : o ≡ done
    pub new_rows : s'.rows ≡ s.rows ++ rows
    pub still : s'.db_is_connected ≡ s.db_is_connected

  -- A transaction that starts keeps the rows and the connection.
  abbrev Started : DispatchSql A → Bool × DispatchSql A → Type 0
  Started s r = (r.0 ≡ true) × (r.1.rows ≡ s.rows) × (r.1.db_is_connected ≡ s.db_is_connected)
