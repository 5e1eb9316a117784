-- ===== src/DispatchSql/Retry.antt =====
-- What src/InfoLoggerDispatchSQL.cxx does where an insertion fails.
use info_logger.Base.{
  ◌+◌, ◌%◌, ◌^◌, ◌≤◌, ◌≡◌, sym, ap, ◌∙◌, Bool, true, false, ◌&&◌, List, [], ◌∷◌, ◌==◌, leb, inl,
  inr, Bool-cases, length, choose, length-append, arith, leb→le,
}
use native.Mathlib.Nat.{mod-add-mod}
use info_logger.CText.{Bytes}
use info_logger.DispatchSql.{
  Execution, inserted, bind_failed, too_long, wrong_value, server_lost, other_error, Database,
  Outcome, is_done, is_delayed, SqlMessage, DispatchSql, disconnect_db, delay, drop_message,
  unhandled, handle, insert_line, insert_lines, lines_of, cut_text, begin_transaction,
  insert_message, insert_messages, custom_message_process, dispatch_queue, max_number_of_retries,
}

module _ {A : Type 0} (db : Database) where
  abbrev Starts : DispatchSql A → Bool × DispatchSql A → Type 0
  Starts s r = (r.0 ≡ true) × (r.1.executed ≡ s.executed)

-- The rows are counted, and an unknown error is not met again and again.
pub record IsCounted {A : Type 0} (s : DispatchSql A) : Type 0 where
  pub counted : s.insert_count ≡ length s.rows % 2 ^ 64
  pub patient : s.number_of_successive_failures ≤ max_number_of_retries

module _ {A : Type 0} (db : Database) where
  unhandled-IsCounted : (s : DispatchSql A) → IsCounted s → IsCounted (unhandled s).1
  unfolding unhandled delay drop_message disconnect_db
  unhandled-IsCounted s h =
      elim (Bool-cases (leb (s.number_of_successive_failures + 1) max_number_of_retries)) [
        | inl e ↦ rw e (record {
          counted = h.counted;
          patient = leb→le (s.number_of_successive_failures + 1) 1 e;
        })
        | inr e ↦ rw e (record { counted = h.counted; patient = omega arith })
      ]

  handle-IsCounted :
      (x : Execution) (fields : A) (l : Bytes) (s : DispatchSql A)
      → IsCounted s
      → IsCounted (handle x fields l s).1
  unfolding handle delay drop_message disconnect_db
  handle-IsCounted inserted fields l s h = record {
    counted =
        ap (λ n. (n + 1) % 2 ^ 64) h.counted
        ∙ mod-add-mod (length s.rows) (2 ^ 64) 1
        ∙ ap (λ n. n % 2 ^ 64) (sym (length-append s.rows ((fields, l) ∷ [])));
    patient = h.patient;
  }
  handle-IsCounted bind_failed fields l s h = record { counted = h.counted; patient = h.patient }
  handle-IsCounted too_long fields l s h = record { counted = h.counted; patient = h.patient }
  handle-IsCounted wrong_value fields l s h = record { counted = h.counted; patient = h.patient }
  handle-IsCounted server_lost fields l s h = record { counted = h.counted; patient = h.patient }
  handle-IsCounted other_error fields l s h = unhandled-IsCounted s h

  insert_lines-IsCounted :
      (fields : A) (ls : List Bytes) (s : DispatchSql A)
      → IsCounted s
      → IsCounted (insert_lines db fields ls s).1
  unfolding insert_lines insert_line
  insert_lines-IsCounted fields [] s h = h
  insert_lines-IsCounted fields (l ∷ ls) s h =
      let s0 = record s { executed = s.executed + 1 } in
      let r = handle (db.executes s.executed) fields l s0 in
      let one : IsCounted r.1 =
        handle-IsCounted (db.executes s.executed) fields l s0
          (record { counted = h.counted; patient = h.patient }) in
      choose (λ (r : Outcome × DispatchSql A). IsCounted r.1) (is_done r.0)
        (insert_lines db fields ls r.1) r (insert_lines-IsCounted fields ls r.1 one) one

  delay-IsCounted : (s : DispatchSql A) → IsCounted s → IsCounted (delay s).1
  unfolding delay
  delay-IsCounted s h = record { counted = h.counted; patient = h.patient }

  begin_transaction-IsCounted :
      (s : DispatchSql A) → IsCounted s → IsCounted (begin_transaction db s).1
  unfolding begin_transaction
  begin_transaction-IsCounted s h =
      let good = λ (r : Bool × DispatchSql A). IsCounted r.1 in
      choose good (s.commit_enabled && s.commit_number_of_msg == 0) _ (true, s)
        (choose good (db.begins s.begun) (true, record s { begun = s.begun + 1 })
          (false, record s { begun = s.begun + 1; commit_enabled = false })
          (record { counted = h.counted; patient = h.patient })
          (record { counted = h.counted; patient = h.patient }))
        h

  insert_message-IsCounted :
      (m : SqlMessage A) (s : DispatchSql A) → IsCounted s → IsCounted (insert_message db m s).1
  unfolding insert_message
  insert_message-IsCounted m s h =
      let b = begin_transaction db s in
      let r = insert_lines db m.fields (lines_of m.text) b.1 in
      let started = begin_transaction-IsCounted s h in
      choose (λ (r : Outcome × DispatchSql A × SqlMessage A). IsCounted r.1) b.0
        (r.0, r.1, record m { text = cut_text m.text }) ((delay b.1).0, (delay b.1).1, m)
        (insert_lines-IsCounted m.fields (lines_of m.text) b.1 started)
        (delay-IsCounted b.1 started)

  insert_messages-IsCounted :
      (ms : List (SqlMessage A)) (s : DispatchSql A)
      → IsCounted s
      → IsCounted (insert_messages db ms s).1
  unfolding insert_messages
  insert_messages-IsCounted [] s h = h
  insert_messages-IsCounted (m ∷ ms) s h =
      let r = insert_message db m s in
      let one = insert_message-IsCounted m s h in
      let q = insert_messages db ms r.1 in
      choose (λ (r : Outcome × DispatchSql A × List (SqlMessage A)). IsCounted r.1) (is_done r.0)
        (q.0, q.1, r.2 ∷ q.2) (r.0, r.1, r.2 ∷ ms) (insert_messages-IsCounted ms r.1 one) one

  process-IsCounted :
      (ms : List (SqlMessage A)) (s : DispatchSql A)
      → IsCounted s
      → IsCounted (custom_message_process db ms s).1
  unfolding custom_message_process
  process-IsCounted ms s h =
      choose (λ (r : Outcome × DispatchSql A × List (SqlMessage A)). IsCounted r.1)
        s.db_is_connected (insert_messages db ms s) ((delay s).0, (delay s).1, ms)
        (insert_messages-IsCounted ms s h) (delay-IsCounted s h)

  -- Whatever the database answers, the counter of insertions is the number of the rows inserted, modulo
  -- 2^64, and never more than one unhandled error is on the count of failures.
  pub dispatch_queue-IsCounted :
      (queue : List (List (SqlMessage A))) (s : DispatchSql A)
      → IsCounted s
      → IsCounted (dispatch_queue db queue s).1
  unfolding dispatch_queue
  dispatch_queue-IsCounted [] s h = h
  dispatch_queue-IsCounted (ms ∷ queue) s h =
      let r = custom_message_process db ms s in
      let one = process-IsCounted ms s h in
      choose (λ (r : List (List (SqlMessage A)) × DispatchSql A). IsCounted r.1) (is_delayed r.0)
        (r.2 ∷ queue, r.1) (dispatch_queue db queue r.1) one
        (dispatch_queue-IsCounted queue r.1 one)
