-- ===== src/Tests/Client.antt =====
-- The theorems about the client library at concrete inputs.
use info_logger.Base.{
  ℕ, ◌+◌, ◌≡◌, refl, true, false, List, [], ◌∷◌, none, some, arith, pos, minus_one, length,
  replicate, take, min,
}
use info_logger.CText.{Bytes, codes, strchr}
use info_logger.Message.{create}
use info_logger.Message.Sample.{whole_real}
use info_logger.Context.{FieldName, role, run, Context, Host, reset, set_fields, refresh_pid}
use info_logger.Context.Fields.{
  text_in, last_text, last_run, wrong_runs, ValidRun, set_fields-last, refresh_pid-ValidRun_after,
}
use info_logger.Logger.Options
use info_logger.Logger.Options.{
  Severity, MessageOption, undefined_message_option, get_id_from_severity,
}
use info_logger.Logger.History.{History, history_reset, history_get_summary, keep_messages}
use info_logger.Logger.History.Kept.{
  summaries, history_get_summary-first, keep_messages-rotation_empties,
}
use info_logger.Logger.Flood.{flood_reset}
use info_logger.Logger.State.{World, Logger, stdout}
use info_logger.Logger.Push.FloodFile.{push_all, push_all-IsValid}
use info_logger.Logger.Push.Announce.{IsValid}
use info_logger.Logger.AutoMute.{Token, log_all}
use info_logger.Logger.AutoMute.Interval.{messages, log_all-fresh}
use info_logger.Logger.Api.{put_options, put_endm, log_v}
use info_logger.Logger.Api.Endm.{joined, put_texts, fresh, put_endm-joined}

abbrev settings : List (FieldName × Bytes)
settings = (role, codes "flp") ∷ (run, codes "12") ∷ (role, codes "epn") ∷ (run, codes "x") ∷ []

set_fields-last_example :
    ((set_fields settings 0 reset).0 ≡ 0 + wrong_runs settings)
    × (text_in role (set_fields settings 0 reset).1 ≡ last_text role settings (text_in role reset))
    × ((set_fields settings 0 reset).1.run ≡ last_run settings reset.run)
set_fields-last_example = set_fields-last settings 0 reset role

abbrev a_host : Host
a_host = record {
  getpid = pos 7;
  gethostname = some (codes "node1.cern.ch");
  getpwuid = none;
  getenv = λ name. some (codes "-5");
}

refresh_pid-ValidRun_after_example :
    ValidRun (set_fields settings 0 (refresh_pid a_host (pos 0))).1.run
    × (strchr b'.' (refresh_pid a_host (pos 0)).host_name ≡ none)
refresh_pid-ValidRun_after_example = refresh_pid-ValidRun_after a_host (pos 0) settings 0

abbrev no_history : History
no_history = record {
  messages_to_keep = 0;
  rotate = false;
  filter_severity = minus_one;
  filter_level = minus_one;
  messages = [];
  error_codes_table = (pos 3, codes "three") ∷ [];
}

abbrev an_error : MessageOption
an_error = record undefined_message_option {
  severity = Options.error;
  level = pos 1;
  error_code = pos 3;
}

abbrev three_messages : List (MessageOption × Bytes)
three_messages = (an_error, codes "a") ∷ (an_error, codes "b") ∷ (an_error, codes "c") ∷ []

history_get_summary-first_example :
    history_get_summary
      (keep_messages three_messages (history_reset 2 false Options.warning (pos 10) no_history))
    ≡ (
      take 2 (
          summaries 2
            (get_id_from_severity Options.warning)
            (pos 10)
            no_history.error_codes_table
            three_messages),
      history_reset 2 false Options.warning (pos 10) no_history,
    )
history_get_summary-first_example =
    history_get_summary-first 2 Options.warning (pos 10) no_history three_messages

keep_messages-rotation_empties_example :
    (keep_messages three_messages
      (history_reset 2 true Options.warning (pos 10) no_history)).messages
    ≡ []
keep_messages-rotation_empties_example =
    keep_messages-rotation_empties 2 Options.warning (pos 10) no_history three_messages
      (omega arith)

abbrev a_world : World whole_real
a_world = record { clock = λ n. some n; seconds = λ n. n; time = λ n. n; opens = λ path. true }

abbrev a_logger : Logger whole_real
a_logger = record {
  default_msg = create whole_real;
  current_context = reset;
  filter_discard_debug = false;
  filter_discard_level = minus_one;
  filter_discard_file_enabled = false;
  filter_discard_file_ignore_debug = false;
  history = no_history;
  flood_protection = true;
  flood = record (flood_reset 0 0) { msgs_sec = 500 };
  message_count = replicate 6 0;
  has_client = true;
  mode = stdout;
  ticks = 0;
  out = [];
}

fresh-IsValid : IsValid whole_real a_logger
unfolding flood_reset
fresh-IsValid = ((refl, omega arith), tt)

abbrev two_calls : List (MessageOption × Context × Bytes)
two_calls = (an_error, reset, codes "a") ∷ (an_error, reset, codes "b") ∷ []

push_all-IsValid_example : IsValid whole_real (push_all whole_real a_world two_calls a_logger)
push_all-IsValid_example = push_all-IsValid whole_real a_world two_calls a_logger fresh-IsValid

abbrev a_token : Token
a_token = record {
  max_msg = 2;
  interval = 5;
  count = 0;
  t0 = 0;
  t1 = 0;
  ndiscarded = 0;
  ndiscardedtotal = 0;
}

abbrev three_times : List ℕ
three_times = 100 ∷ 200 ∷ 300 ∷ []

log_all-fresh_example :
    messages (log_all three_times a_token).0 ≡ min (length three_times) a_token.max_msg
log_all-fresh_example =
    log_all-fresh three_times 100 a_token refl (omega arith)
      (omega arith, omega arith, (omega arith, omega arith, (omega arith, omega arith, tt)))

abbrev two_texts : List Bytes
two_texts = codes "a" ∷ codes "b" ∷ []

put_endm-joined_example :
    put_endm whole_real a_world 0 (
      put_texts whole_real a_world two_texts
        (put_options whole_real a_world an_error (fresh whole_real a_world a_logger [])))
    ≡ fresh whole_real a_world
        (log_v whole_real a_world an_error a_logger.current_context (joined two_texts) a_logger)
        []
put_endm-joined_example = put_endm-joined whole_real a_world 0 an_error two_texts a_logger []
