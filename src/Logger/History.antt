-- ===== src/Logger/History.antt =====
-- The history of recent messages in src/InfoLogger.cxx: historyReset, historyGetSummary,
-- registerErrorCodes, and what pushMessage does to the history.
pub mod Kept
use info_logger.Base.{
  ℕ, Bool, true, false, List, [], ◌∷◌, ◌++◌, Option, none, some, ◌==◌, ◌&&◌, ◌||◌, if◌then◌else◌, ℤ,
  pos, negsuc, minus_one, ltb, leb_ℤ, length, drop,
}
use info_logger.CText.{Bytes, codes}
use info_logger.CText.Numbers.{print_int}
use info_logger.Logger.Options.{Severity, get_id_from_severity, MessageOption}

-- The queue's front is the head of `messages`.
pub record History : Type 0 where
  pub messages_to_keep : ℕ
  pub rotate : Bool
  pub filter_severity : ℤ
  pub filter_level : ℤ
  pub messages : List Bytes
  pub error_codes_table : List (ℤ × Bytes)

-- `historyReset`
unfoldable pub history_reset : ℕ → Bool → Severity → ℤ → History → History
history_reset keep rotate filter_severity filter_level h = record h {
  messages_to_keep = keep;
  rotate = rotate;
  filter_severity = get_id_from_severity filter_severity;
  filter_level = filter_level;
  messages = [];
}

-- `historyGetSummary`: the summary with the history, whose queue it empties.
unfoldable pub history_get_summary : History → List Bytes × History
history_get_summary h = (h.messages, record h { messages = [] })

-- `registerErrorCodes`
unfoldable pub register_error_codes : List (ℤ × Bytes) → Bool → History → History
register_error_codes codes clear h = record h {
  error_codes_table = (if clear then [] else h.error_codes_table) ++ codes;
}

abbrev same_ℤ : ℤ → ℤ → Bool
same_ℤ (pos a) (pos b) = a == b
same_ℤ (negsuc a) (negsuc b) = a == b
same_ℤ _ _ = false

-- The first description of an error code, with what stands before it.
unfoldable pub describe : ℤ → List (ℤ × Bytes) → Bytes
describe code [] = []
describe code ((c, text) ∷ table) =
    let rest = describe code table in if same_ℤ c code then codes " : " ++ text else rest

unfoldable pub summary_of : List (ℤ × Bytes) → ℤ → Bytes → Bytes
summary_of table error_code body =
    codes "code "
    ++ print_int error_code
    ++ (if same_ℤ error_code minus_one then [] else describe error_code table ++ codes " - ")
    ++ body

-- The filter of the history.
abbrev pub is_kept : MessageOption → History → Bool
is_kept o h =
    leb_ℤ (get_id_from_severity o.severity) h.filter_severity && leb_ℤ o.level h.filter_level

-- The queue after one more message, whose oldest one is popped where the queue is rotated and
-- `historyMessagesToKeep > historyMessages.size()`.
unfoldable pub enqueue : Bool → ℕ → List Bytes → Bytes → List Bytes
enqueue rotate keep ms summary =
    let ms' = ms ++ summary ∷ [] in if rotate && ltb (length ms') keep then drop 1 ms' else ms'

-- "keep history" of `pushMessage`
unfoldable pub keep_message : MessageOption → Bytes → History → History
keep_message o body h =
    if ltb 0 h.messages_to_keep
      && ((h.rotate || ltb (length h.messages) h.messages_to_keep) && is_kept o h)
    then record h {
      messages =
          enqueue h.rotate h.messages_to_keep h.messages
            (summary_of h.error_codes_table o.error_code body);
    }
    else h

-- The history after a sequence of messages.
unfoldable pub keep_messages : List (MessageOption × Bytes) → History → History
keep_messages [] h = h
keep_messages ((o, body) ∷ ms) h = keep_messages ms (keep_message o body h)
