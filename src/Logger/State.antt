-- ===== src/Logger/State.antt =====
-- The state of a logger and its outputs in src/InfoLogger.cxx: filters, message counts, and what is
-- written. An event holds the message, of which the format's text is made; the list of events is
-- oldest first. Clock, `fopen` and the conversion of a time to a double are the parameter `World`.
use info_logger.Base.{
  ℕ, ◌+◌, ◌%◌, Bool, true, false, not, ◌&&◌, ◌||◌, List, [], ◌∷◌, ◌++◌, Option, leb_ℤ,
  if◌then◌else◌, ℤ, get_or, set,
}
use info_logger.CText.{Bytes}
use info_logger.Message.{Real, Message}
use info_logger.Context.{Context}
use info_logger.Logger.Options.{Severity, debug, get_index_from_severity, MessageOption}
use info_logger.Logger.Compose.{is_minus_one}
use info_logger.Logger.History.{History, keep_message}
use info_logger.Logger.Flood.{Flood, count_message}

-- `OutputMode`
pub data OutputMode : Type 0 where
  stdout file info_logger_d raw debug_mode none_mode : OutputMode

module _ (r : Real) where
  open r use {Double}

  -- `gettimeofday` at its n-th call (`none` if it fails), in microseconds; the same as a double, in
  -- seconds; `time(NULL)`, in microseconds; whether `fopen` succeeds.
  pub record World : Type 0 where
    pub clock : ℕ → Option ℕ
    pub seconds : ℕ → Double
    pub time : ℕ → ℕ
    pub opens : Bytes → Bool

  pub data Event : Type 0 where
    to_client to_raw to_debug : Message r → Event
    to_log to_discard_file : Severity → Message r → Event
    flood_file_opened : Bytes → Event
    flood_file_closed : Event
    to_flood_file : ℕ → Severity → Bytes → Bytes → Event
    to_null_file : Event

  pub record Logger : Type 0 where
    pub default_msg : Message r
    pub current_context : Context
    pub filter_discard_debug : Bool
    pub filter_discard_level : ℤ
    pub filter_discard_file_enabled : Bool
    pub filter_discard_file_ignore_debug : Bool
    pub history : History
    pub flood_protection : Bool
    pub flood : Flood
    pub message_count : List ℕ
    pub has_client : Bool
    pub mode : OutputMode
    pub ticks : ℕ
    pub out : List Event

  abbrev pub emit : List Event → Logger → Logger
  emit es l = record l { out = l.out ++ es }

  abbrev pub is_debug : Severity → Bool
  is_debug debug = true
  is_debug _ = false

  -- The filter criteria.
  unfoldable pub discards : Logger → MessageOption → Bool
  discards l o =
      (l.filter_discard_debug && is_debug o.severity)
      || (not (is_minus_one l.filter_discard_level)
          && (not (is_minus_one o.level) && leb_ℤ l.filter_discard_level o.level))

  -- A discarded message goes to the file of discarded messages, if there is one.
  unfoldable pub discard : Message r → MessageOption → Logger → Logger
  discard m o l =
      if is_debug o.severity && l.filter_discard_file_ignore_debug
      then l
      else emit (to_discard_file o.severity m ∷ []) l

  -- `++` of an unsigned long
  abbrev pub next_ulong : ℕ → ℕ
  next_ulong n = (n + 1) % 18446744073709551616

  abbrev pub count_at : ℕ → List ℕ → List ℕ
  count_at i counts = set counts i (next_ulong (get_or counts i 0))

  -- "message stats"
  unfoldable pub count_severity : Severity → List ℕ → List ℕ
  count_severity s counts = count_at (get_index_from_severity s) (count_at 0 counts)

  -- The statistics of a message that passes the filter.
  unfoldable pub accept : ℕ → MessageOption → Logger → Logger
  accept now o l = record l {
    message_count = count_severity o.severity l.message_count;
    flood = if l.flood_protection then count_message now l.flood else l.flood;
  }

  abbrev pub events : OutputMode → Severity → Message r → List Event
  events stdout s m = to_log s m ∷ []
  events file s m = to_log s m ∷ []
  events raw s m = to_raw m ∷ []
  events debug_mode s m = to_debug m ∷ []
  events info_logger_d s m = []
  events none_mode s m = []

  -- From the test of `client` to the end.
  unfoldable pub deliver : Message r → MessageOption → Bytes → Logger → Logger
  deliver m o body l = record l {
    out = l.out ++ ((if l.has_client then to_client m ∷ [] else []) ++ events l.mode o.severity m);
    history = keep_message o body l.history;
  }
