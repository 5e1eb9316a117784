-- ===== src/Logger/History/Kept.antt =====
-- Which messages the history of src/InfoLogger.cxx holds, from `historyReset` on.
use info_logger.Base.{
  ℕ, zero, suc, ◌≤◌, ◌-◌, ◌≡◌, refl, sym, ap, ◌∙◌, Bool, true, false, List, [], ◌∷◌, ◌++◌, ◌&&◌,
  ◌||◌, if◌then◌else◌, ℤ, ltb, length, take, arith, Bool-cases, inl, inr, append_assoc, append-nil,
  take-append_self, length-append, ltb→lt, ltb_false→le, take-append_add, lt→ltb,
}
use info_logger.CText.{Bytes}
use info_logger.Logger.Options.{Severity, get_id_from_severity, MessageOption}
use info_logger.Logger.History.{
  History, history_reset, history_get_summary, keep_message, keep_messages, summary_of, is_kept,
  enqueue,
}

module _ (keep : ℕ) (fs fl : ℤ) (table : List (ℤ × Bytes)) where
  -- A history with these settings.
  abbrev pub hist : Bool → List Bytes → History
  hist rot ms = record {
    messages_to_keep = keep;
    rotate = rot;
    filter_severity = fs;
    filter_level = fl;
    messages = ms;
    error_codes_table = table;
  }

  -- The summaries of the messages that pass the history's filter, in order.
  unfoldable pub summaries : List (MessageOption × Bytes) → List Bytes
  summaries [] = []
  summaries ((o, body) ∷ ms) =
      let rest = summaries ms in
      if is_kept o (hist false []) then summary_of table o.error_code body ∷ rest else rest

  take-nil : (ms : List Bytes) (k : ℕ) → ms ++ take k [] ≡ ms
  take-nil ms zero = append-nil ms
  take-nil ms (suc k) = append-nil ms

  take-full :
      (ms xs : List Bytes)
      → length ms ≤ keep
      → ltb (length ms) keep ≡ false
      → take keep (ms ++ xs) ≡ ms
  take-full ms xs h e =
      let same : keep ≡ length ms = omega (arith, h, ltb_false→le (length ms) keep e) in
      ap (λ k. take k (ms ++ xs)) same ∙ take-append_self ms xs

  abbrev summary : MessageOption → Bytes → Bytes
  summary o body = summary_of table o.error_code body

  keep_message-skipped :
      (o : MessageOption) (body : Bytes) (rot : Bool) (ms : List Bytes)
      → is_kept o (hist false []) ≡ false
      → keep_message o body (hist rot ms) ≡ hist rot ms
  unfolding keep_message
  keep_message-skipped o body rot ms a = elim (Bool-cases (ltb 0 keep)) [
    | inl e ↦
        rw (e, a)
          (elim (rot || ltb (length ms) keep)
            as (λ b.
              (if b && false then hist rot (enqueue rot keep ms (summary o body)) else hist rot ms)
              ≡ hist rot ms) [ true ↦ refl | false ↦ refl ])
    | inr e ↦ rw e refl
  ]

  keep_message-full :
      (o : MessageOption) (body : Bytes) (ms : List Bytes)
      → ltb (length ms) keep ≡ false
      → keep_message o body (hist false ms) ≡ hist false ms
  unfolding keep_message
  keep_message-full o body ms e = elim (Bool-cases (ltb 0 keep)) [
    | inl f ↦ rw (f, e) refl
    | inr f ↦ rw f refl
  ]

  keep_message-taken :
      (o : MessageOption) (body : Bytes) (ms : List Bytes)
      → is_kept o (hist false []) ≡ true
      → ltb (length ms) keep ≡ true
      → keep_message o body (hist false ms) ≡ hist false (ms ++ summary o body ∷ [])
  unfolding keep_message enqueue
  keep_message-taken o body ms a e =
      let some_room : ltb 0 keep ≡ true =
        lt→ltb 0 keep (omega (arith, ltb→lt (length ms) keep e)) in
      rw (some_room, e, a) refl

  take-whole : (ms : List Bytes) → length ms ≤ keep → take keep (ms ++ []) ≡ ms
  take-whole ms h = elim (Bool-cases (ltb (length ms) keep)) [
    | inl e ↦
        take-append_add ms [] keep (keep - length ms) (omega (arith, h))
        ∙ take-nil ms (keep - length ms)
    | inr e ↦ take-full ms [] h e
  ]

  keep_messages-hist :
      (msgs : List (MessageOption × Bytes)) (ms : List Bytes)
      → length ms ≤ keep
      → keep_messages msgs (hist false ms) ≡ hist false (take keep (ms ++ summaries msgs))
  unfolding keep_messages summaries
  keep_messages-hist [] ms h = ap (hist false) (sym (take-whole ms h))
  keep_messages-hist ((o, body) ∷ msgs) ms h = elim (Bool-cases (is_kept o (hist false []))) [
    | inl a ↦ elim (Bool-cases (ltb (length ms) keep)) [
      | inl e ↦
          rw (keep_message-taken o body ms a e, a)
            (keep_messages-hist msgs (ms ++ summary o body ∷ [])
                (omega (arith, ltb→lt (length ms) keep e, length-append ms (summary o body ∷ [])))
              ∙ ap (λ xs. hist false (take keep xs))
                  (append_assoc ms (summary o body ∷ []) (summaries msgs)))
      | inr e ↦
          rw (keep_message-full o body ms e, a)
            (keep_messages-hist msgs ms h
              ∙ ap (hist false) (
                  take-full ms (summaries msgs) h e
                  ∙ sym (take-full ms (summary o body ∷ summaries msgs) h e)))
    ]
    | inr a ↦ rw (keep_message-skipped o body false ms a, a) (keep_messages-hist msgs ms h)
  ]

  keep_message-rotated :
      (o : MessageOption) (body : Bytes)
      → ltb 1 keep ≡ true
      → keep_message o body (hist true []) ≡ hist true []
  unfolding keep_message enqueue
  keep_message-rotated o body e = elim (Bool-cases (is_kept o (hist false []))) [
    | inl a ↦ rw (lt→ltb 0 keep (omega (arith, ltb→lt 1 keep e)), a, e) refl
    | inr a ↦ keep_message-skipped o body true [] a
  ]

  keep_messages-rotated :
      (msgs : List (MessageOption × Bytes))
      → ltb 1 keep ≡ true
      → keep_messages msgs (hist true []) ≡ hist true []
  unfolding keep_messages
  keep_messages-rotated [] e = refl
  keep_messages-rotated ((o, body) ∷ msgs) e =
      rw (keep_message-rotated o body e) (keep_messages-rotated msgs e)

-- Without rotation, the history that follows a reset is made of the first messages that pass its
-- filter, as many as it was told to keep; the summary returns them and leaves the history empty.
pub history_get_summary-first :
    (keep : ℕ) (severity : Severity) (level : ℤ) (h : History) (msgs : List (MessageOption × Bytes))
    → history_get_summary (keep_messages msgs (history_reset keep false severity level h)) ≡ (
      take keep (summaries keep (get_id_from_severity severity) level h.error_codes_table msgs),
      history_reset keep false severity level h,
    )
unfolding history_get_summary history_reset
history_get_summary-first keep severity level h msgs =
    rw
      (keep_messages-hist keep (get_id_from_severity severity) level h.error_codes_table msgs []
        (omega arith))
      refl

-- With rotation, a history that is to keep two messages or more is empty after every sequence of
-- messages.
pub keep_messages-rotation_empties :
    (keep : ℕ) (severity : Severity) (level : ℤ) (h : History) (msgs : List (MessageOption × Bytes))
    → 2 ≤ keep
    → (keep_messages msgs (history_reset keep true severity level h)).messages ≡ []
unfolding history_reset
keep_messages-rotation_empties keep severity level h msgs many =
    ap (λ k. k.messages)
      (keep_messages-rotated keep (get_id_from_severity severity) level h.error_codes_table msgs
        (lt→ltb 1 keep many))
