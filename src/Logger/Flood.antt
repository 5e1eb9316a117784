-- ===== src/Logger/Flood.antt =====
-- The flood protection of src/InfoLogger.cxx: its state, `floodReset` and the message statistics.
-- Times are in microseconds, for the seconds in doubles of the source.
use info_logger.Base.{ℕ, ◌+◌, ◌%◌, Bool, false, ltb, if◌then◌else◌}

-- `floodMode` 0, 1 and 2
pub data Mode : Type 0 where
  no_flood redirected dropped : Mode

-- The variables `floodStat_*`, `floodMode` and `floodFile_*`; `file_open` says that `floodFile_fp` is
-- not null.
pub record Flood : Type 0 where
  pub msgs_sec : ℕ
  pub msgs_min : ℕ
  pub msgs_lastmin : ℕ
  pub time_lastsec : ℕ
  pub time_lastmin : ℕ
  pub mode : Mode
  pub file_open : Bool
  pub file_msg : ℕ
  pub file_msg_drop : ℕ

abbrev pub flood_maxmsg_sec : ℕ
flood_maxmsg_sec = 500

abbrev pub flood_maxmsg_min : ℕ
flood_maxmsg_min = 1000

abbrev pub flood_maxmsg_file : ℕ
flood_maxmsg_file = 1000

abbrev pub flood_maxmsg_reset : ℕ
flood_maxmsg_reset = 10

-- `++` of an unsigned int
abbrev pub next_uint : ℕ → ℕ
next_uint n = (n + 1) % 4294967296

-- `floodReset`, at the two readings of the clock
unfoldable pub flood_reset : ℕ → ℕ → Flood
flood_reset t t' = record {
  msgs_sec = 0;
  msgs_min = 0;
  msgs_lastmin = flood_maxmsg_reset;
  time_lastsec = t;
  time_lastmin = t';
  mode = no_flood;
  file_open = false;
  file_msg = 0;
  file_msg_drop = 0;
}

abbrev count_second : ℕ → Flood → Flood
count_second now f =
    if ltb (f.time_lastsec + 1000000) now
    then record f { time_lastsec = now; msgs_sec = 1 }
    else record f { msgs_sec = next_uint f.msgs_sec }

abbrev count_minute : ℕ → Flood → Flood
count_minute now f =
    if ltb (f.time_lastmin + 60000000) now
    then record f { time_lastmin = now; msgs_lastmin = f.msgs_min; msgs_min = 1 }
    else record f { msgs_min = next_uint f.msgs_min }

-- "update message statistics"
unfoldable pub count_message : ℕ → Flood → Flood
count_message now f = count_minute now (count_second now f)
