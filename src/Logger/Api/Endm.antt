-- ===== src/Logger/Api/Endm.antt =====
-- Messages written with the stream operators of src/InfoLogger.cxx.
use info_logger.Base.{ℕ, ◌≡◌, sym, ap, ◌∙◌, List, [], ◌∷◌, ◌++◌, none, append_assoc, append-nil}
use info_logger.CText.{Bytes}
use info_logger.Message.{Real}
use info_logger.Logger.Options.{MessageOption, undefined_message_option}
use info_logger.Logger.State.{World, Logger}
use info_logger.Logger.AutoMute.{Token}
use info_logger.Logger.Api.{Stream, put_text, put_options, put_endm, log_v}

-- The texts one behind the other.
unfoldable pub joined : List Bytes → Bytes
joined [] = []
joined (t ∷ ts) = t ++ joined ts

module _ (r : Real) (w : World r) where
  unfoldable pub put_texts : List Bytes → Stream r w → Stream r w
  put_texts [] s = s
  put_texts (t ∷ ts) s = put_texts ts (put_text r w t s)

  put_texts-joined :
      (ts : List Bytes) (s : Stream r w)
      → put_texts ts s ≡ record s { stream_message = s.stream_message ++ joined ts }
  unfolding put_texts joined put_text
  put_texts-joined [] s =
      ap (λ m. record s { stream_message = m }) (sym (append-nil s.stream_message))
  put_texts-joined (t ∷ ts) s =
      put_texts-joined ts (put_text r w t s)
      ∙ ap (λ m. record s { stream_message = m }) (append_assoc s.stream_message t (joined ts))

  -- A stream into which nothing was put.
  abbrev pub fresh : Logger r → List (MessageOption × Token) → Stream r w
  fresh l ts = record {
    logger = l;
    stream_message = [];
    stream_options = undefined_message_option;
    stream_token = none;
    tokens = ts;
  }

  -- Options, texts and `endm` streamed to a logger whose stream is fresh log one message, the texts
  -- joined, with these options and the current context, and leave the stream fresh again.
  pub put_endm-joined :
      (now : ℕ) (o : MessageOption) (texts : List Bytes) (l : Logger r)
      (ts : List (MessageOption × Token))
      → put_endm r w now (put_texts texts (put_options r w o (fresh l ts)))
        ≡ fresh (log_v r w o l.current_context (joined texts) l) ts
  unfolding put_endm put_options
  put_endm-joined now o texts l ts =
      ap (put_endm r w now) (put_texts-joined texts (put_options r w o (fresh l ts)))
