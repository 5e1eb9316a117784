-- ===== src/Logger/Push.antt =====
-- `InfoLogger::Impl::pushMessage` of src/InfoLogger.cxx, with the flood protection.
pub mod Announce
pub mod FloodFile
use info_logger.Base.{
  ℕ, zero, suc, ◌+◌, ◌*◌, ◌/◌, ◌%◌, Bool, true, false, not, ◌&&◌, ◌||◌, List, [], ◌∷◌, ◌++◌, Option,
  none, some, ◌==◌, ltb, leb, leb_ℤ, if◌then◌else◌, ℤ, pos, negsuc, minus_one, length, get_or, set,
  map,
}
use info_logger.CText.{Bytes, codes}
use info_logger.CText.Numbers.{print_int}
use info_logger.Message.{Real, Message}
use info_logger.Context.{Context}
use info_logger.Logger.Options.{Severity, warning, debug, get_index_from_severity, MessageOption}
use info_logger.Logger.Compose.{compose, is_minus_one}
use info_logger.Logger.History.{History, keep_message}
use info_logger.Logger.Flood.{
  Flood, Mode, no_flood, redirected, dropped, flood_maxmsg_sec, flood_maxmsg_min, flood_maxmsg_file,
  flood_maxmsg_reset, next_uint, flood_reset, count_message,
}
use info_logger.Logger.State.{
  OutputMode, World, Event, Logger, emit, is_debug, discards, discard, next_ulong, count_at,
  count_severity, accept, events, deliver, to_client, to_raw, to_debug, to_log, to_discard_file,
  flood_file_opened, flood_file_closed, to_flood_file, to_null_file, stdout, file, info_logger_d,
  raw, debug_mode, none_mode,
}

module _ (r : Real) where
  open r use {Double}

  module _ (w : World r) where
    abbrev pub now_of : ℕ → ℕ
    now_of t = elim (w.clock t) [ none ↦ 0 | some k ↦ k ]

    -- The message of a call, whose time is the next reading of the clock.
    unfoldable pub message_of_call : MessageOption → Context → Bytes → Logger r → Message r
    message_of_call o c body l =
        compose r l.default_msg
          (elim (w.clock l.ticks) [ none ↦ none | some k ↦ some (w.seconds k) ]) o c body

    abbrev pub tick : Logger r → Logger r
    tick l = record l { ticks = l.ticks + 1 }

    -- `pushMessage` with `noFlood`
    unfoldable pub push_no_flood : MessageOption → Context → Bytes → Logger r → ℤ × Logger r
    push_no_flood o c body l =
        let m = message_of_call o c body l in
        if discards r l o
        then (pos 1, if l.filter_discard_file_enabled then discard r m o (tick l) else l)
        else (pos 0, deliver r m o body (accept r (now_of l.ticks) o (tick l)))

    -- LogWarningSupport_(code)
    abbrev pub support : ℤ → ℤ → MessageOption
    support code line = record {
      severity = warning;
      level = pos 6;
      error_code = code;
      source_file = some (codes "InfoLogger.cxx");
      source_line = line;
    }

    -- a message about the flood protection itself
    unfoldable pub announce : ℤ → ℤ → Bytes → Logger r → Logger r
    announce code line body l = (push_no_flood (support code line) l.current_context body l).1

    abbrev pub set_mode : Mode → Logger r → Logger r
    set_mode m l = record l { flood = record l.flood { mode = m } }

    abbrev pub flood_path : ℕ → Context → Bytes
    flood_path now c =
        codes "/tmp/infoLogger.flood-"
        ++ print_int c.process_id
        ++ codes "@"
        ++ c.host_name
        ++ codes "-"
        ++ print_int (pos (now / 1000000))

    -- `case 2`; true where the message goes on to the outputs
    unfoldable pub drop_message : Logger r → Bool × Logger r
    drop_message l = if ltb l.flood.msgs_lastmin flood_maxmsg_reset then (true, l) else (
      false,
      record l { flood = record l.flood { file_msg_drop = next_uint l.flood.file_msg_drop } },
    )

    abbrev pub close_file : Logger r → Logger r
    close_file l =
        if l.flood.file_open
        then emit r (flood_file_closed ∷ [])
            (record l { flood = record l.flood { file_open = false } })
        else l

    abbrev pub write_line : ℕ → MessageOption → Context → Bytes → Logger r → Logger r
    write_line now o c body l =
        emit r
          ((if l.flood.file_open
              then to_flood_file now o.severity c.facility body
              else to_null_file)
            ∷ [])
          (record l { flood = record l.flood { file_msg = next_uint l.flood.file_msg } })

    abbrev pub full_text : Bytes
    full_text =
        codes
          "Message flood - maximum entries in local file exceeded, further messages will be dropped"

    abbrev pub stored_text : Bytes → Bytes
    stored_text path =
        codes "Message flood detected - further messages will be stored locally in " ++ path

    abbrev pub failed_text : Bytes → Bytes
    failed_text path =
        codes
          "Message flood detected - further messages will be dropped (failed to create flood file "
        ++ path
        ++ codes ")"

    -- `case 1`, which goes on to `case 2` when the file is full
    unfoldable pub store_message : ℕ → MessageOption → Context → Bytes → Logger r → Bool × Logger r
    store_message now o c body l =
        if ltb l.flood.msgs_lastmin flood_maxmsg_reset
        then (true, l)
        else if leb flood_maxmsg_file l.flood.file_msg
        then drop_message
            (set_mode dropped (announce (pos 1101) (pos 754) full_text (close_file l)))
        else (false, write_line now o c body l)

    abbrev pub start_flood : Bytes → Logger r → Logger r
    start_flood path l = record l {
      flood = record l.flood { file_msg = 0; file_msg_drop = 0; file_open = w.opens path };
      out = l.out ++ (if w.opens path then flood_file_opened path ∷ [] else []);
    }

    -- `case 0`, which goes on to `case 1` or to `case 2` when a flood begins
    unfoldable pub detect_flood : ℕ → MessageOption → Context → Bytes → Logger r → Bool × Logger r
    detect_flood now o c body l =
        let path = flood_path now c in
        let begun = start_flood path l in
        if not (ltb flood_maxmsg_sec l.flood.msgs_sec || ltb flood_maxmsg_min l.flood.msgs_min)
        then (true, l)
        else if w.opens path
        then store_message now o c body
            (announce (pos 1101) (pos 739) (stored_text path) (set_mode redirected begun))
        else drop_message
            (announce (pos 1101) (pos 734) (failed_text path) (set_mode dropped begun))

    unfoldable pub flood_switch :
        Mode → ℕ → MessageOption → Context → Bytes → Logger r → Bool × Logger r
    flood_switch no_flood now o c body l = detect_flood now o c body l
    flood_switch redirected now o c body l = store_message now o c body l
    flood_switch dropped now o c body l = drop_message l

    abbrev pub resumed_text : Flood → Bytes
    resumed_text f =
        codes "Message flood - resuming normal operation: "
        ++ print_int (pos f.file_msg)
        ++ codes " messages stored locally, "
        ++ print_int (pos f.file_msg_drop)
        ++ codes " messages dropped"

    abbrev pub reset_now : Logger r → Logger r
    reset_now l = record (close_file l) {
      flood = flood_reset (w.time l.ticks) (w.time (l.ticks + 1));
      ticks = l.ticks + 2;
    }

    -- behind the switch: what `floodMode` not 0 leads to
    unfoldable pub resume : Mode → Logger r → Logger r
    resume no_flood l = l
    resume _ l = reset_now (announce (pos 1102) (pos 775) (resumed_text l.flood) l)

    abbrev pub after_switch : Message r → MessageOption → Bytes → Bool × Logger r → ℤ × Logger r
    after_switch m o body (false, l) = (pos 0, l)
    after_switch m o body (true, l) = (pos 0, deliver r m o body (resume l.flood.mode l))

    -- "message flood prevention", and what follows it
    unfoldable pub prevent_flood :
        ℕ → Message r → MessageOption → Context → Bytes → Logger r → ℤ × Logger r
    prevent_flood now m o c body l =
        if l.flood_protection
        then after_switch m o body (flood_switch l.flood.mode now o c body l)
        else (pos 0, deliver r m o body l)

    -- `pushMessage`, its text not being NULL
    unfoldable pub push : MessageOption → Context → Bytes → Logger r → ℤ × Logger r
    push o c body l =
        let m = message_of_call o c body l in
        if discards r l o
        then (pos 1, if l.filter_discard_file_enabled then discard r m o (tick l) else l)
        else prevent_flood (now_of l.ticks) m o c body (accept r (now_of l.ticks) o (tick l))
