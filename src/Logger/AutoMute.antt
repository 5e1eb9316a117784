-- ===== src/Logger/AutoMute.antt =====
-- The automatic muting of repeated messages in src/InfoLogger.cxx: AutoMuteToken and the `log` that
-- takes one. What it logs is a list of actions, in order. The steady clock is in nanoseconds and
-- does not go back.
pub mod Interval
use info_logger.Base.{
  ℕ, ◌+◌, ◌-◌, ◌/◌, ◌%◌, Bool, true, false, not, ◌&&◌, ◌||◌, List, [], ◌∷◌, ◌++◌, ◌==◌, ltb, leb,
  if◌then◌else◌, ℤ, pos, minus_one,
}
use info_logger.Logger.Flood.{next_uint}

-- The report of discarded messages, the note that it was quiet, the message itself, and the note
-- that the threshold is exceeded.
pub data Action : Type 0 where
  report : ℕ → ℕ → ℕ → Action
  quiet : Action
  message : Action
  exceeded : ℕ → ℕ → Action

pub record Token : Type 0 where
  pub max_msg : ℕ
  pub interval : ℕ
  pub count : ℕ
  pub t0 : ℕ
  pub t1 : ℕ
  pub ndiscarded : ℕ
  pub ndiscardedtotal : ℕ

-- `duration_cast<seconds>(now - t).count() >= interval`
abbrev pub has_passed : ℕ → ℕ → ℕ → Bool
has_passed interval now t = leb interval ((now - t) / 1000000000)

-- counting the message and starting the interval
unfoldable pub count_call : ℕ → Token → Token
count_call now t =
    let n = next_uint t.count in
    if n == 1 then record t { count = n; t0 = now; ndiscarded = 0 } else record t { count = n }

abbrev pub end_of_interval : ℕ → Token → Bool
end_of_interval now t = ltb 1 t.count && has_passed t.interval now t.t0

-- "no message discarded / no message at all for one period"
abbrev was_quiet : ℕ → Token → Bool
was_quiet now t = (t.ndiscarded == 0) || has_passed t.interval now t.t1

-- What an interval's end does, before the message is logged.
unfoldable pub close_interval : ℕ → Token → List Action × Token
close_interval now t =
    let first = report t.ndiscarded t.ndiscardedtotal (t.count - 1) in
    if was_quiet now t
    then (
      first ∷ (if t.ndiscarded == 0 then [] else quiet ∷ []),
      record t { count = 1; ndiscardedtotal = 0; ndiscarded = 0; t0 = now },
    )
    else (first ∷ [], record t { ndiscarded = 0; t0 = now })

-- The call behind its counting.
unfoldable pub log_counted : ℕ → Token → ℤ × List Action × Token
log_counted now t =
    let closed = close_interval now t in
    if end_of_interval now t
    then (pos 0, closed.0 ++ message ∷ [], record closed.1 { t1 = now })
    else if ltb t.max_msg t.count
    then (
      minus_one,
      [],
      record t {
        ndiscarded = next_uint t.ndiscarded;
        ndiscardedtotal = next_uint t.ndiscardedtotal;
        t1 = now;
      },
    )
    else if t.count == t.max_msg
    then (
      pos 0,
      message ∷ exceeded t.count t.interval ∷ [],
      record t { t0 = now; ndiscarded = 0; ndiscardedtotal = 0; t1 = now },
    )
    else (pos 0, message ∷ [], record t { t1 = now })

-- `log(AutoMuteToken&, ...)`, whose logging succeeds
unfoldable pub log : ℕ → Token → ℤ × List Action × Token
log now t = log_counted now (count_call now t)

-- The actions of a sequence of calls, at these times.
unfoldable pub log_all : List ℕ → Token → List Action × Token
log_all [] t = ([], t)
log_all (now ∷ times) t =
    let (code, actions, t') = log now t in
    let (more, t'') = log_all times t' in (actions ++ more, t'')
