-- ===== src/Logger/Api.antt =====
-- The calls of class InfoLogger in src/InfoLogger.cxx on a logger whose magic tag is right: contexts,
-- filters, counts, logging with its formatted text, muted logging and the stream operators. A token
-- for muted messages is an index in a list of tokens with their options.
pub mod Endm
use info_logger.Base.{
  ℕ, zero, suc, ◌+◌, Bool, true, false, not, ◌&&◌, List, [], ◌∷◌, ◌++◌, Option, none, some, ◌==◌,
  if◌then◌else◌, ℤ, pos, minus_one, length, get_elem?, get_or, set, take, replicate,
}
use info_logger.CText.{Bytes, codes, c_str}
use info_logger.CText.Numbers.{print_int}
use info_logger.Message.{Real}
use info_logger.Context.{Context, reset}
use info_logger.Logger.Options
use info_logger.Logger.Options.{
  Severity, MessageOption, undefined_message_option, get_index_from_severity,
}
use info_logger.Logger.Compose.{refresh_default_msg}
use info_logger.Logger.AutoMute
use info_logger.Logger.AutoMute.{Action, report, quiet, message, exceeded, Token}
use info_logger.Logger.Push.{push}
use info_logger.Logger.State.{World, Logger}

module _ (r : Real) where
  -- `setContext`
  unfoldable pub set_context : Context → Logger r → Logger r
  set_context c l = record l {
    current_context = c;
    default_msg = refresh_default_msg r c l.default_msg;
  }

  -- `unsetContext`
  unfoldable pub unset_context : Logger r → Logger r
  unset_context l = set_context reset l

  -- the setter `filterDiscardDebug`
  unfoldable pub filter_debug : Bool → Logger r → Logger r
  filter_debug enable l = record l { filter_discard_debug = enable }

  -- the setter `filterDiscardLevel`
  unfoldable pub filter_level : ℤ → Logger r → Logger r
  filter_level exclude_level l = record l { filter_discard_level = exclude_level }

  abbrev succeeded : ℤ → Bool
  succeeded (pos zero) = true
  succeeded _ = false

  abbrev is_path : Option Bytes → Bool
  is_path none = false
  is_path (some path) = not (length (c_str path) == 0)

  -- `filterDiscardSetFile`, given the result of `setLogFile`
  unfoldable pub filter_discard_set_file : Option Bytes → Bool → ℤ → Logger r → ℤ × Logger r
  filter_discard_set_file path ignore_debug err l =
      let l' : Logger r = record l { filter_discard_file_enabled = false } in
      if succeeded err && is_path path
      then (
        err,
        record l' {
          filter_discard_file_enabled = true;
          filter_discard_file_ignore_debug =
              if ignore_debug then true else l.filter_discard_file_ignore_debug;
        },
      )
      else (err, l')

  -- `filterReset`
  unfoldable pub filter_reset : Logger r → Logger r
  filter_reset l = record l { filter_discard_debug = false; filter_discard_level = minus_one }

  abbrev count_index : Severity → ℕ
  count_index Options.undefined = 0
  count_index s = get_index_from_severity s

  -- `getMessageCount`
  unfoldable pub get_message_count : Severity → Logger r → ℕ
  get_message_count s l = get_or l.message_count (count_index s) 0

  -- `resetMessageCount`
  unfoldable pub reset_message_count : Logger r → Logger r
  reset_message_count l = record l { message_count = replicate 6 0 }

  module _ (w : World r) where
    -- `Impl::logV` with options, of the text that the format gives: the buffer has 1024 bytes.
    unfoldable pub log_v : MessageOption → Context → Bytes → Logger r → Logger r
    log_v o c text l = (push r w o c (take 1023 (c_str text)) l).1

    -- `log(message)`, with severity Info and no other option
    unfoldable pub log_info : Bytes → Logger r → Logger r
    log_info text l =
        log_v (record undefined_message_option { severity = Options.info }) l.current_context text l

    abbrev report_text : ℕ → ℕ → ℕ → Bytes
    report_text n total all =
        codes "[auto-mute] "
        ++ print_int (pos n)
        ++ codes " similar messages discarded since last sample (total: "
        ++ print_int (pos total)
        ++ codes " / "
        ++ print_int (pos all)
        ++ codes ")"

    abbrev exceeded_text : ℕ → ℕ → Bytes
    exceeded_text n interval =
        codes "[auto-mute] Verbosity threshold exceeded ("
        ++ print_int (pos n)
        ++ codes " msg < "
        ++ print_int (pos interval)
        ++ codes " s), discarding next similar messages"

    unfoldable pub act : MessageOption → Bytes → Action → Logger r → Logger r
    act o text (report n total all) l = log_info (report_text n total all) l
    act o text quiet l =
        log_v o l.current_context
          (codes
            "[auto-mute] It was quiet for a while, restoring full logging for similar messages")
          l
    act o text message l = log_v o l.current_context text l
    act o text (exceeded n interval) l = log_v o l.current_context (exceeded_text n interval) l

    unfoldable pub act_all : MessageOption → Bytes → List Action → Logger r → Logger r
    act_all o text [] l = l
    act_all o text (a ∷ more) l = act_all o text more (act o text a l)

    -- `log(AutoMuteToken&, ...)`
    unfoldable pub log_muted : ℕ → MessageOption → Bytes → Token → Logger r → ℤ × Token × Logger r
    log_muted now o text t l =
        let (code, actions, t') = AutoMute.log now t in (code, t', act_all o text actions l)

    -- The stream variables of a logger, with the tokens of the process.
    pub record Stream : Type 0 where
      pub logger : Logger r
      pub stream_message : Bytes
      pub stream_options : MessageOption
      pub stream_token : Option ℕ
      pub tokens : List (MessageOption × Token)

    -- `<<` of a text, a severity, options and a token
    unfoldable pub put_text : Bytes → Stream → Stream
    put_text text s = record s { stream_message = s.stream_message ++ text }

    unfoldable pub put_severity : Severity → Stream → Stream
    put_severity severity s = record s {
      stream_options = record s.stream_options { severity = severity };
    }

    unfoldable pub put_options : MessageOption → Stream → Stream
    put_options o s = record s { stream_options = o }

    unfoldable pub put_token : Option ℕ → Stream → Stream
    put_token k s = record s { stream_token = k }

    abbrev cleared : Stream → Stream
    cleared s = record s {
      stream_message = [];
      stream_options = undefined_message_option;
      stream_token = none;
    }

    unfoldable pub flush_muted : ℕ → ℕ → Option (MessageOption × Token) → Stream → Stream
    flush_muted now k none s = s
    flush_muted now k (some (o, t)) s =
        let (code, t', l) = log_muted now o s.stream_message t s.logger in
        record s { logger = l; tokens = set s.tokens k (o, t') }

    -- `<<` of `endm`, at this time of the steady clock
    unfoldable pub put_endm : ℕ → Stream → Stream
    put_endm now s = cleared (elim s.stream_token [
      | none ↦ record s {
        logger = log_v s.stream_options s.logger.current_context s.stream_message s.logger;
      }
      | some k ↦ flush_muted now k (get_elem? s.tokens k) s
    ])
