-- ===== src/Logger/Push/Announce.antt =====
-- What a message without flood protection, in `pushMessage` of src/InfoLogger.cxx, leaves of the state
-- of the flood file.
use info_logger.Base.{
  ℕ, ◌≤◌, ◌≡◌, refl, ◌∙◌, Bool, true, false, List, [], ◌∷◌, ◌++◌, ◌&&◌, if◌then◌else◌, ℤ, leb,
  arith, Bool-cases, inl, inr,
}
use info_logger.CText.{Bytes}
use info_logger.Message.{Real, Message}
use info_logger.Context.{Context}
use info_logger.Logger.Options.{Severity, MessageOption}
use info_logger.Logger.Flood.{Flood, Mode, redirected, flood_maxmsg_file, next_uint, count_message}
use info_logger.Logger.Push.{push_no_flood, announce, now_of, support, tick, message_of_call}
use info_logger.Logger.State.{
  OutputMode, World, Event, to_client, to_raw, to_debug, to_log, to_discard_file, flood_file_opened,
  flood_file_closed, to_flood_file, to_null_file, Logger, emit, discards, discard, accept, deliver,
  events, is_debug, stdout, file, info_logger_d, raw, debug_mode, none_mode,
}

abbrev pub is_redirected : Mode → Bool
is_redirected redirected = true
is_redirected _ = false

module _ (r : Real) where
  -- No line is written through a null file pointer.
  abbrev pub NoNullWrite : List (Event r) → Type 0
  NoNullWrite [] = Unit
  NoNullWrite (to_null_file ∷ es) = ⊥
  NoNullWrite (_ ∷ es) = NoNullWrite es

  -- The flood file is open just in mode 1, and has at most `flood_maxmsg_file` lines.
  abbrev pub FloodIsValid : Flood → Type 0
  FloodIsValid f = (f.file_open ≡ is_redirected f.mode) × (f.file_msg ≤ flood_maxmsg_file)

  abbrev pub IsValid : Logger r → Type 0
  IsValid l = FloodIsValid l.flood × NoNullWrite l.out

  -- The file's part of the state is the same, and nothing is written through a null pointer.
  abbrev pub Keeps : Logger r → Logger r → Type 0
  Keeps l l' =
      (l'.flood.mode ≡ l.flood.mode)
      × (l'.flood.file_open ≡ l.flood.file_open)
      × (l'.flood.file_msg ≡ l.flood.file_msg)
      × (NoNullWrite l.out → NoNullWrite l'.out)

  pub few : (n : ℕ) → leb flood_maxmsg_file n ≡ false → next_uint n ≤ flood_maxmsg_file
  few n h = ground arith

  pub NoNullWrite-append :
      (es fs : List (Event r)) → NoNullWrite es → NoNullWrite fs → NoNullWrite (es ++ fs)
  NoNullWrite-append [] fs h k = k
  NoNullWrite-append (to_client m ∷ es) fs h k = NoNullWrite-append es fs h k
  NoNullWrite-append (to_raw m ∷ es) fs h k = NoNullWrite-append es fs h k
  NoNullWrite-append (to_debug m ∷ es) fs h k = NoNullWrite-append es fs h k
  NoNullWrite-append (to_log s m ∷ es) fs h k = NoNullWrite-append es fs h k
  NoNullWrite-append (to_discard_file s m ∷ es) fs h k = NoNullWrite-append es fs h k
  NoNullWrite-append (flood_file_opened p ∷ es) fs h k = NoNullWrite-append es fs h k
  NoNullWrite-append (flood_file_closed ∷ es) fs h k = NoNullWrite-append es fs h k
  NoNullWrite-append (to_flood_file t s f b ∷ es) fs h k = NoNullWrite-append es fs h k
  NoNullWrite-append (to_null_file ∷ es) fs h k = absurd h

  count_message-lem :
      (now : ℕ) (f : Flood)
      → ((count_message now f).mode ≡ f.mode)
        × ((count_message now f).file_open ≡ f.file_open)
        × ((count_message now f).file_msg ≡ f.file_msg)
  unfolding count_message
  count_message-lem now f = ground arith

  events-NoNullWrite :
      (mode : OutputMode) (s : Severity) (m : Message r) → NoNullWrite (events r mode s m)
  events-NoNullWrite stdout s m = tt
  events-NoNullWrite file s m = tt
  events-NoNullWrite info_logger_d s m = tt
  events-NoNullWrite raw s m = tt
  events-NoNullWrite debug_mode s m = tt
  events-NoNullWrite none_mode s m = tt

  client-NoNullWrite : (b : Bool) (m : Message r) → NoNullWrite (if b then to_client m ∷ [] else [])
  client-NoNullWrite true m = tt
  client-NoNullWrite false m = tt

  Keeps-trans : (l l' l'' : Logger r) → Keeps l l' → Keeps l' l'' → Keeps l l''
  Keeps-trans l l' l'' h k = (k.0 ∙ h.0, k.1 ∙ h.1, k.2 ∙ h.2, λ n. k.3 (h.3 n))

  pub deliver-Keeps :
      (m : Message r) (o : MessageOption) (body : Bytes) (l : Logger r)
      → Keeps l (deliver r m o body l)
  unfolding deliver
  deliver-Keeps m o body l = (
    refl,
    refl,
    refl,
    λ n.
        NoNullWrite-append l.out
          ((if l.has_client then to_client m ∷ [] else []) ++ events r l.mode o.severity m) n
          (NoNullWrite-append (if l.has_client then to_client m ∷ [] else [])
            (events r l.mode o.severity m) (client-NoNullWrite l.has_client m)
            (events-NoNullWrite l.mode o.severity m)),
  )

  pub accept-Keeps : (now : ℕ) (o : MessageOption) (l : Logger r) → Keeps l (accept r now o l)
  unfolding accept
  accept-Keeps now o l =
      elim l.flood_protection
        as (λ b.
          ((if b then count_message now l.flood else l.flood).mode ≡ l.flood.mode)
          × ((if b then count_message now l.flood else l.flood).file_open ≡ l.flood.file_open)
          × ((if b then count_message now l.flood else l.flood).file_msg ≡ l.flood.file_msg)
          × (NoNullWrite l.out → NoNullWrite l.out)) [
            | true ↦ (let c = count_message-lem now l.flood in (c.0, c.1, c.2, λ n. n))
            | false ↦ (refl, refl, refl, λ n. n)
          ]

  discard-Keeps : (m : Message r) (o : MessageOption) (l : Logger r) → Keeps l (discard r m o l)
  unfolding discard
  discard-Keeps m o l =
      elim (is_debug r o.severity && l.filter_discard_file_ignore_debug)
        as (λ b. Keeps l (if b then l else emit r (to_discard_file o.severity m ∷ []) l)) [
          | true ↦ (refl, refl, refl, λ n. n)
          | false ↦ (
            refl,
            refl,
            refl,
            λ n. NoNullWrite-append l.out (to_discard_file o.severity m ∷ []) n tt,
          )
        ]

  module _ (w : World r) where
    pub refused-Keeps :
        (m : Message r) (o : MessageOption) (l : Logger r)
        → Keeps l (if l.filter_discard_file_enabled then discard r m o (tick r w l) else l)
    refused-Keeps m o l =
        elim l.filter_discard_file_enabled
          as (λ b. Keeps l (if b then discard r m o (tick r w l) else l)) [
            | true ↦ discard-Keeps m o (tick r w l)
            | false ↦ (refl, refl, refl, λ n. n)
          ]

    push_no_flood-Keeps :
        (o : MessageOption) (c : Context) (body : Bytes) (l : Logger r)
        → Keeps l (push_no_flood r w o c body l).1
    unfolding push_no_flood
    push_no_flood-Keeps o c body l = elim (Bool-cases (discards r l o)) [
      | inl e ↦ rw e (refused-Keeps (message_of_call r w o c body l) o l)
      | inr e ↦ rw e (
          Keeps-trans l (accept r (now_of r w l.ticks) o (tick r w l))
            (deliver r (message_of_call r w o c body l) o body
              (accept r (now_of r w l.ticks) o (tick r w l)))
            (accept-Keeps (now_of r w l.ticks) o (tick r w l))
            (deliver-Keeps (message_of_call r w o c body l) o body
              (accept r (now_of r w l.ticks) o (tick r w l))))
    ]

    pub announce-Keeps :
        (code line : ℤ) (body : Bytes) (l : Logger r) → Keeps l (announce r w code line body l)
    unfolding announce
    announce-Keeps code line body l =
        push_no_flood-Keeps (support r w code line) l.current_context body l
