-- ===== src/Logger/Push/FloodFile.antt =====
-- The flood file of `pushMessage` in src/InfoLogger.cxx: when it is open, and what it takes.
use info_logger.Base.{
  ℕ, ◌≤◌, ◌≡◌, refl, sym, ap, subst, ◌∙◌, Bool, true, false, List, [], ◌∷◌, ◌++◌, ◌||◌, not,
  if◌then◌else◌, ℤ, pos, ltb, leb, arith, Bool-cases, inl, inr,
}
use info_logger.CText.{Bytes}
use info_logger.Message.{Real, Message}
use info_logger.Context.{Context}
use info_logger.Logger.Options.{MessageOption}
use info_logger.Logger.Flood.{
  Mode, no_flood, redirected, dropped, flood_maxmsg_file, flood_maxmsg_reset, flood_maxmsg_sec,
  flood_maxmsg_min, flood_reset,
}
use info_logger.Logger.Push.{
  announce, drop_message, close_file, store_message, detect_flood, flood_switch, resume,
  prevent_flood, push, now_of, full_text, stored_text, failed_text, resumed_text, tick,
  message_of_call, set_mode, start_flood, write_line, after_switch, reset_now, flood_path,
}
use info_logger.Logger.State.{
  World, Event, flood_file_opened, flood_file_closed, to_flood_file, to_null_file, Logger, discards,
  discard, accept, deliver,
}
use info_logger.Logger.Push.Announce.{
  is_redirected, NoNullWrite, IsValid, Keeps, few, NoNullWrite-append, deliver-Keeps, accept-Keeps,
  refused-Keeps, announce-Keeps,
}

module _ (r : Real) where
  module _ (w : World r) where
    Keeps-IsValid : (l l' : Logger r) → Keeps r l l' → IsValid r l → IsValid r l'
    Keeps-IsValid l l' k h = (
      (
        k.1 ∙ h.0.0 ∙ ap is_redirected (sym k.0),
        subst (λ n. n ≤ flood_maxmsg_file) (sym k.2) h.0.1,
      ),
      k.3 h.1,
    )

    either :
        (b : Bool) (x y : Bool × Logger r)
        → (b ≡ true → IsValid r x.1)
        → (b ≡ false → IsValid r y.1)
        → IsValid r (if b then x else y).1
    either true x y h k = h refl
    either false x y h k = k refl

    either_code :
        (b : Bool) (x y : ℤ × Logger r)
        → (b ≡ true → IsValid r x.1)
        → (b ≡ false → IsValid r y.1)
        → IsValid r (if b then x else y).1
    either_code true x y h k = h refl
    either_code false x y h k = k refl

    drop_message-IsValid : (l : Logger r) → IsValid r l → IsValid r (drop_message r w l).1
    unfolding drop_message
    drop_message-IsValid l h = elim (Bool-cases (ltb l.flood.msgs_lastmin flood_maxmsg_reset)) [
      | inl e ↦ rw e h
      | inr e ↦ rw e h
    ]

    close_file-NoNullWrite :
        (l : Logger r) → NoNullWrite r l.out → NoNullWrite r (close_file r w l).out
    close_file-NoNullWrite l h = elim (Bool-cases l.flood.file_open) [
      | inl e ↦ rw e (NoNullWrite-append r l.out (flood_file_closed ∷ []) h tt)
      | inr e ↦ rw e h
    ]

    close_file-lem :
        (l : Logger r)
        → ((close_file r w l).flood.file_open ≡ false)
          × ((close_file r w l).flood.file_msg ≡ l.flood.file_msg)
    close_file-lem l = elim (Bool-cases l.flood.file_open) [
      | inl e ↦ rw e (refl, refl)
      | inr e ↦ rw e (refl, refl)
    ]

    dropped-IsValid :
        (l l' : Logger r)
        → l.flood.file_open ≡ false
        → l.flood.file_msg ≤ flood_maxmsg_file
        → NoNullWrite r l.out
        → Keeps r l l'
        → IsValid r (set_mode r w dropped l')
    dropped-IsValid l l' closed below good k =
        ((k.1 ∙ closed, subst (λ n. n ≤ flood_maxmsg_file) (sym k.2) below), k.3 good)

    abbrev full : Logger r → Logger r
    full l = announce r w (pos 1101) (pos 754) (full_text r w) (close_file r w l)

    write_line-IsValid :
        (now : ℕ) (o : MessageOption) (c : Context) (body : Bytes) (l : Logger r)
        → l.flood.mode ≡ redirected
        → IsValid r l
        → leb flood_maxmsg_file l.flood.file_msg ≡ false
        → IsValid r (write_line r w now o c body l)
    write_line-IsValid now o c body l m h f =
        let opened : l.flood.file_open ≡ true = h.0.0 ∙ ap is_redirected m in
        (
          (h.0.0, few r l.flood.file_msg f),
          NoNullWrite-append r l.out
              ((if l.flood.file_open
                  then to_flood_file now o.severity c.facility body
                  else to_null_file)
                ∷ [])
              h.1
              (subst
                (λ b.
                  NoNullWrite r (
                    (if b then to_flood_file now o.severity c.facility body else to_null_file)
                    ∷ []))
                (sym opened) tt),
        )

    store_message-IsValid :
        (now : ℕ) (o : MessageOption) (c : Context) (body : Bytes) (l : Logger r)
        → l.flood.mode ≡ redirected
        → IsValid r l
        → IsValid r (store_message r w now o c body l).1
    unfolding store_message
    store_message-IsValid now o c body l m h =
        elim (Bool-cases (ltb l.flood.msgs_lastmin flood_maxmsg_reset)) [
          | inl e ↦ rw e h
          | inr e ↦ elim (Bool-cases (leb flood_maxmsg_file l.flood.file_msg)) [
            | inl f ↦
                rw (e, f)
                  (drop_message-IsValid (set_mode r w dropped (full l)) (
                    dropped-IsValid (close_file r w l) (full l) (close_file-lem l).0
                      (subst (λ n. n ≤ flood_maxmsg_file) (sym (close_file-lem l).1) h.0.1)
                      (close_file-NoNullWrite l h.1)
                      (announce-Keeps r w (pos 1101) (pos 754) (full_text r w) (close_file r w l))))
            | inr f ↦ rw (e, f) (write_line-IsValid now o c body l m h f)
          ]
        ]

    abbrev stored : ℕ → Context → Logger r → Logger r
    stored now c l =
        announce r w (pos 1101) (pos 739) (stored_text r w (flood_path r w now c))
          (set_mode r w redirected (start_flood r w (flood_path r w now c) l))

    abbrev failed : ℕ → Context → Logger r → Logger r
    failed now c l =
        announce r w (pos 1101) (pos 734) (failed_text r w (flood_path r w now c))
          (set_mode r w dropped (start_flood r w (flood_path r w now c) l))

    opened-NoNullWrite :
        (b : Bool) (p : Bytes) (es : List (Event r))
        → NoNullWrite r es
        → NoNullWrite r (es ++ (if b then flood_file_opened p ∷ [] else []))
    opened-NoNullWrite true p es h = NoNullWrite-append r es (flood_file_opened p ∷ []) h tt
    opened-NoNullWrite false p es h = NoNullWrite-append r es [] h tt

    detect_flood-IsValid :
        (now : ℕ) (o : MessageOption) (c : Context) (body : Bytes) (l : Logger r)
        → IsValid r l
        → IsValid r (detect_flood r w now o c body l).1
    unfolding detect_flood
    detect_flood-IsValid now o c body l h =
        let path = flood_path r w now c in
        let begun = opened-NoNullWrite (w.opens path) path l.out h.1 in
        either
          (not (ltb flood_maxmsg_sec l.flood.msgs_sec || ltb flood_maxmsg_min l.flood.msgs_min))
          (true, l) _ (λ _. h)
          (λ _.
            either (w.opens path) (store_message r w now o c body (stored now c l))
              (drop_message r w (failed now c l))
              (λ f.
                (let k =
                    announce-Keeps r w (pos 1101) (pos 739) (stored_text r w path)
                      (set_mode r w redirected (start_flood r w path l)) in
                  store_message-IsValid now o c body (stored now c l) k.0 (
                    Keeps-IsValid (set_mode r w redirected (start_flood r w path l))
                      (stored now c l) k ((f, omega arith), begun))))
              (λ f.
                (let k =
                    announce-Keeps r w (pos 1101) (pos 734) (failed_text r w path)
                      (set_mode r w dropped (start_flood r w path l)) in
                  drop_message-IsValid (failed now c l) (
                    Keeps-IsValid (set_mode r w dropped (start_flood r w path l)) (failed now c l) k
                      ((f, omega arith), begun)))))

    flood_switch-IsValid :
        (m : Mode) (now : ℕ) (o : MessageOption) (c : Context) (body : Bytes) (l : Logger r)
        → l.flood.mode ≡ m
        → IsValid r l
        → IsValid r (flood_switch r w m now o c body l).1
    unfolding flood_switch
    flood_switch-IsValid no_flood now o c body l e h = detect_flood-IsValid now o c body l h
    flood_switch-IsValid redirected now o c body l e h = store_message-IsValid now o c body l e h
    flood_switch-IsValid dropped now o c body l e h = drop_message-IsValid l h

    reset_now-IsValid : (l : Logger r) → NoNullWrite r l.out → IsValid r (reset_now r w l)
    unfolding flood_reset
    reset_now-IsValid l h = ((refl, omega arith), close_file-NoNullWrite l h)

    resume-IsValid : (m : Mode) (l : Logger r) → IsValid r l → IsValid r (resume r w m l)
    unfolding resume
    resume-IsValid no_flood l h = h
    resume-IsValid redirected l h =
        reset_now-IsValid (announce r w (pos 1102) (pos 775) (resumed_text r w l.flood) l)
          ((announce-Keeps r w (pos 1102) (pos 775) (resumed_text r w l.flood) l).3 h.1)
    resume-IsValid dropped l h =
        reset_now-IsValid (announce r w (pos 1102) (pos 775) (resumed_text r w l.flood) l)
          ((announce-Keeps r w (pos 1102) (pos 775) (resumed_text r w l.flood) l).3 h.1)

    after_switch-IsValid :
        (m : Message r) (o : MessageOption) (body : Bytes) (s : Bool × Logger r)
        → IsValid r s.1
        → IsValid r (after_switch r w m o body s).1
    after_switch-IsValid m o body (false, l) h = h
    after_switch-IsValid m o body (true, l) h =
        Keeps-IsValid (resume r w l.flood.mode l) (deliver r m o body (resume r w l.flood.mode l))
          (deliver-Keeps r m o body (resume r w l.flood.mode l)) (resume-IsValid l.flood.mode l h)

    prevent_flood-IsValid :
        (now : ℕ) (m : Message r) (o : MessageOption) (c : Context) (body : Bytes) (l : Logger r)
        → IsValid r l
        → IsValid r (prevent_flood r w now m o c body l).1
    unfolding prevent_flood
    prevent_flood-IsValid now m o c body l h =
        either_code l.flood_protection
          (after_switch r w m o body (flood_switch r w l.flood.mode now o c body l))
          (pos 0, deliver r m o body l)
          (λ _.
            after_switch-IsValid m o body (flood_switch r w l.flood.mode now o c body l)
              (flood_switch-IsValid l.flood.mode now o c body l refl h))
          (λ _. Keeps-IsValid l (deliver r m o body l) (deliver-Keeps r m o body l) h)

    push-IsValid :
        (o : MessageOption) (c : Context) (body : Bytes) (l : Logger r)
        → IsValid r l
        → IsValid r (push r w o c body l).1
    unfolding push
    push-IsValid o c body l h =
        let accepted = accept r (now_of r w l.ticks) o (tick r w l) in
        either_code (discards r l o)
          (
            pos 1,
            if l.filter_discard_file_enabled
                then discard r (message_of_call r w o c body l) o (tick r w l)
                else l,
          )
          (prevent_flood r w (now_of r w l.ticks) (message_of_call r w o c body l) o c body
            accepted)
          (λ _.
            Keeps-IsValid l
              (if l.filter_discard_file_enabled
                then discard r (message_of_call r w o c body l) o (tick r w l)
                else l)
              (refused-Keeps r w (message_of_call r w o c body l) o l) h)
          (λ _.
            prevent_flood-IsValid (now_of r w l.ticks) (message_of_call r w o c body l) o c body
              accepted
              (Keeps-IsValid l accepted (accept-Keeps r (now_of r w l.ticks) o (tick r w l)) h))

    -- The logger after a sequence of calls.
    unfoldable pub push_all : List (MessageOption × Context × Bytes) → Logger r → Logger r
    push_all [] l = l
    push_all ((o, c, body) ∷ calls) l = push_all calls (push r w o c body l).1

    -- From a state in which the flood file is open just in mode 1 and has at most 1000 lines, every
    -- sequence of messages, under every clock and whether or not files can be opened, keeps it so,
    -- and no line is ever written through a null file pointer.
    pub push_all-IsValid :
        (calls : List (MessageOption × Context × Bytes)) (l : Logger r)
        → IsValid r l
        → IsValid r (push_all calls l)
    unfolding push_all
    push_all-IsValid [] l h = h
    push_all-IsValid ((o, c, body) ∷ calls) l h =
        push_all-IsValid calls (push r w o c body l).1 (push-IsValid o c body l h)
