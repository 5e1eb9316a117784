-- ===== src/TransportClient/Wire/Turn.antt =====
-- A turn of the loop in STATE_CONNECTED of src/transport_client.c.
use info_logger.Base.{
  choose, ◌≡◌, refl, sym, ap, ◌∙◌, Bool, true, false, ◌&&◌, ◌||◌, List, [], ◌∷◌, ◌++◌, Option, none,
  some, ◌==◌, if◌then◌else◌, length, take, minus_one, inl, inr, ◌⊎◌, Bool-cases, append_assoc,
  append-nil,
}
use info_logger.CText.{Bytes}
use info_logger.TransportFiles.{TransportFile}
use info_logger.TransportClient.{TransportClient, close_client}
use info_logger.TransportClient.Transfer.{Transfer}
use info_logger.TransportClient.Transmit.{
  Answers, next_file, take_file, is_idle, is_none, advance, check_watchdog, whole, open_file,
  read_file, read_blob, fill, left, buffer_send, Sending, sent, not_writable, poll_error,
  send_error, prepare, transmit,
}
use info_logger.TransportClient.Wire.{
  pending, opt_list, taken, opens, end_of_file, frames, Settled, IsSettled, IsClosing,
}
use info_logger.TransportClient.Wire.Fill.{
  left-empty, buffer_send-pending, watched, check_watchdog-watched, check_watchdog-fresh, with_file,
  Filled, fill-Filled,
}

-- What the choice of a file leaves, when the turn takes the files `fs`.
pub record Advanced (opened : Option Bytes) (t t' : Transfer)
    (fs : List (TransportFile × Option Bytes)) : Type 0 where
  pub same : pending t' ≡ pending t
  pub kept : t'.written ≡ t.written
  pub is_closing : IsClosing t'
  pub nothing : is_idle t' ≡ true → fs ≡ []
  pub something : is_idle t' ≡ false → opens opened t' ≡ fs
  pub unwatched : (fs ≡ []) ⊎ (t'.watchdog_last_index ≡ minus_one)

pub and_false : (b : Bool) → (b && false) ≡ false
and_false true = refl
and_false false = refl

pub Advanced-busy :
    (opened : Option Bytes) (t : Transfer) (current : Option TransportFile) (blobs : List Bytes)
    (init deinit : Bool) (fp : Option Bytes)
    → let s = with_file current blobs init deinit fp t in
      IsSettled s → is_idle s ≡ false → Advanced opened s s []
unfolding opens
Advanced-busy opened t none blobs init deinit fp h busy = record {
  same = refl;
  kept = refl;
  is_closing = refl;
  nothing = λ i. refl;
  something = λ i. rw busy refl;
  unwatched = inl refl;
}
Advanced-busy opened t (some f) blobs false deinit fp h busy = cc h.0
Advanced-busy opened t (some f) blobs true deinit fp h busy = record {
  same = refl;
  kept = refl;
  is_closing = (refl, h.1);
  nothing = λ i. refl;
  something = λ i. rw (and_false (t.send_buf.start == t.send_buf.stop)) refl;
  unwatched = inl refl;
}

pub Advanced-end :
    (opened : Option Bytes) (t : Transfer) (blobs : List Bytes) (init : Bool) (fp : Option Bytes)
    → (t.send_buf.start == t.send_buf.stop) ≡ true
    → Advanced opened
        (with_file none blobs init true fp t)
        (record (with_file none blobs init false fp t) { send_buf = whole end_of_file })
        []
unfolding opens left
Advanced-end opened t blobs init fp e = record {
  same = ap (λ xs. xs ++ end_of_file) (sym (left-empty t.send_buf e));
  kept = refl;
  is_closing = refl;
  nothing = λ i. refl;
  something = λ i. refl;
  unwatched = inl refl;
}

pub Advanced-take :
    (opened : Option Bytes) (t : Transfer) (blobs : List Bytes) (init : Bool) (fp : Option Bytes)
    (f : Option TransportFile)
    → (t.send_buf.start == t.send_buf.stop) ≡ true
    → let s = with_file none blobs init false fp t in
      Advanced opened s (take_file f s) (opt_list f opened)
unfolding opens take_file
Advanced-take opened t blobs init fp none e = record {
  same = refl;
  kept = refl;
  is_closing = refl;
  nothing = λ i. refl;
  something = λ i. (let bad : true ≡ false = sym e ∙ i in cc bad);
  unwatched = inl refl;
}
Advanced-take opened t blobs init fp (some f) e = record {
  same = refl;
  kept = refl;
  is_closing = (e, refl);
  nothing = λ i. cc i;
  something = λ i. rw e refl;
  unwatched = inr refl;
}

pub advance-Advanced :
    (a : Answers) (t : Transfer) (c : TransportClient) (current : Option TransportFile)
    (blobs : List Bytes) (init deinit : Bool) (fp : Option Bytes)
    → let s = with_file current blobs init deinit fp t in
      IsSettled s → Advanced a.opened s (advance a (s, c)).0 (taken a (s, c))
unfolding advance taken
advance-Advanced a t c (some f) blobs init deinit fp h =
    Advanced-busy a.opened t (some f) blobs init deinit fp h refl
advance-Advanced a t c none blobs init true fp h =
    elim (Bool-cases (t.send_buf.start == t.send_buf.stop)) [
      | inl e ↦ rw e (Advanced-end a.opened t blobs init fp e)
      | inr e ↦ rw e (Advanced-busy a.opened t none blobs init true fp refl e)
    ]
advance-Advanced a t c none blobs init false fp h =
    elim (Bool-cases (t.send_buf.start == t.send_buf.stop)) [
      | inl e ↦
          rw e (Advanced-take a.opened t blobs init fp (next_file a t.current_file_index c).0 e)
      | inr e ↦ rw e (Advanced-busy a.opened t none blobs init false fp refl e)
    ]

-- What was written stays, and so does the place in the queue.
abbrev pub Kept : Transfer → Transfer → Type 0
Kept t t' = (t'.written ≡ t.written) × (t'.current_file_index ≡ t.current_file_index)

read_data-Kept :
    (t : Transfer) (fp : Option Bytes) (blobs : List Bytes)
    → Kept t
        (elim fp as (λ x. Transfer) [ none ↦ read_blob blobs t | some rest ↦ read_file rest t ])
unfolding read_blob read_file
read_data-Kept t none [] = (refl, refl)
read_data-Kept t none (b ∷ bs) = (refl, refl)
read_data-Kept t (some rest) blobs =
    choose (λ (s : Transfer). Kept t s) (length (take 2500 rest) == 0) _ _ (refl, refl) (refl, refl)

open_file-Kept :
    (opened : Option Bytes) (t : Transfer) (f : Option TransportFile)
    → Kept t (elim f as (λ x. Transfer) [ none ↦ t | some g ↦ open_file opened g t ])
unfolding open_file
open_file-Kept opened t none = (refl, refl)
open_file-Kept opened t (some g) = (refl, refl)

pub fill-Kept : (opened : Option Bytes) (t : Transfer) → Kept t (fill opened t)
unfolding fill
fill-Kept opened t =
    let same = λ (s : Transfer). Kept t s in
    choose same (t.send_buf.start == t.send_buf.stop) _ _
      (choose same t.file_transfert_init _ _ (read_data-Kept t t.fp t.current_blob)
        (open_file-Kept opened t t.current_file))
      (refl, refl)

abbrev pub Prepared : Transfer → List (TransportFile × Option Bytes) → Bool → Transfer → Type 0
Prepared t fs given_up t' =
    (t'.written ≡ t.written)
    × (pending t' ≡ pending t ++ frames fs)
    × ((given_up ≡ true) ⊎ IsSettled t')

pub no_frames :
    (t : Transfer) (fs : List (TransportFile × Option Bytes))
    → fs ≡ []
    → pending t ≡ pending t ++ frames fs
no_frames t fs e = sym (ap (λ l. pending t ++ frames l) e ∙ append-nil (pending t))

-- Behind the watchdog.
pub go_on : Bool → Option Bytes → Transfer → Transfer
go_on given_up opened t = if given_up then t else fill opened t

pub go_on-Prepared :
    (opened : Option Bytes) (t : Transfer) (fs : List (TransportFile × Option Bytes))
    → IsClosing t
    → is_idle t ≡ false
    → opens opened t ≡ fs
    → (given_up : Bool) → (given_up ≡ true → fs ≡ [])
    → Prepared t fs given_up (go_on given_up opened t)
unfolding go_on
go_on-Prepared opened t fs h busy e true none_taken =
    (refl, no_frames t fs (none_taken refl), inl refl)
go_on-Prepared opened t fs h busy e false none_taken =
    let filled : Filled opened t =
      fill-Filled opened t t.current_file t.current_blob t.file_transfert_init
        t.file_transfert_deinit t.fp h busy in
    ((fill-Kept opened t).0, filled.0 ∙ ap (λ l. pending t ++ frames l) e, inr filled.1)

pub watchdog-Prepared :
    (a : Answers) (t : Transfer) (fs : List (TransportFile × Option Bytes))
    → IsClosing t
    → is_idle t ≡ false
    → opens a.opened t ≡ fs
    → ((check_watchdog a.now t).0 ≡ true → fs ≡ [])
    → Prepared t fs
        (check_watchdog a.now t).0
        (go_on (check_watchdog a.now t).0 a.opened (check_watchdog a.now t).1)
unfolding opens
watchdog-Prepared a t fs h busy e =
    check_watchdog-watched
      (λ p. (p.0 ≡ true → fs ≡ []) → Prepared t fs p.0 (go_on p.0 a.opened p.1)) a.now t
      (λ b last n timer. go_on-Prepared a.opened (watched last n timer t) fs h busy e b)

pub idle_Settled :
    (current : Option TransportFile) (init deinit empty : Bool)
    → (is_none current && empty) ≡ true
    → Settled current init deinit
idle_Settled none init deinit empty h = refl
idle_Settled (some f) init deinit empty h = cc h

pub prepare-Prepared :
    (a : Answers) (t : Transfer) (c : TransportClient) (fs : List (TransportFile × Option Bytes))
    {t0 : Transfer}
    → Advanced a.opened t0 t fs
    → Prepared t fs (prepare a (t, c)).0 (prepare a (t, c)).1
unfolding prepare go_on
prepare-Prepared a t c fs h = elim (Bool-cases (is_idle t)) [
  | inl i ↦ rw i (
    refl,
    no_frames t fs (h.nothing i),
    inr (
        idle_Settled t.current_file t.file_transfert_init t.file_transfert_deinit
          (t.send_buf.start == t.send_buf.stop) i),
  )
  | inr i ↦
      rw i (watchdog-Prepared a t fs h.is_closing i (h.something i) (given_up_none fs h.unwatched))
]
  where
    given_up_none :
        (fs : List (TransportFile × Option Bytes))
        → (fs ≡ []) ⊎ (t.watchdog_last_index ≡ minus_one)
        → (check_watchdog a.now t).0 ≡ true
        → fs ≡ []
    given_up_none fs (inl e) g = e
    given_up_none fs (inr e) g =
        (let bad : false ≡ true = sym (check_watchdog-fresh a.now t e) ∙ g in cc bad)

-- A turn writes on, and takes up the frame of the file that it takes.
abbrev pub Transmitted : Transfer → List (TransportFile × Option Bytes) → Bool → Transfer → Type 0
Transmitted t fs is_left t' =
    (t'.written ++ pending t' ≡ (t.written ++ pending t) ++ frames fs)
    × ((is_left ≡ true) ⊎ IsSettled t')

pub buffer_send-IsSettled :
    (s : Sending) (t : Transfer) → IsSettled t → IsSettled (buffer_send s t).1
unfolding buffer_send
buffer_send-IsSettled not_writable t h = h
buffer_send-IsSettled poll_error t h = h
buffer_send-IsSettled send_error t h = h
buffer_send-IsSettled (sent n) t h = h

pub choose_turn {ℓ} :
    {A S : Type ℓ} (P : A → Type 0) (given_up broken : Bool) (x y z : A)
    → (given_up ≡ true) ⊎ S
    → P x
    → P y
    → (S → P z)
    → P (if given_up then x else if broken then y else z)
choose_turn P true broken x y z s px py pz = px
choose_turn P false broken x y z (inl e) px py pz = cc e
choose_turn P false broken x y z (inr s) px py pz = choose P broken y z py (pz s)

pub transmit-Transmitted :
    (a : Answers) (t : Transfer) (c : TransportClient)
    → IsSettled t
    → Transmitted t (taken a (t, c)) (transmit a (t, c)).0 (transmit a (t, c)).1
unfolding transmit
transmit-Transmitted a t c h =
    let fs = taken a (t, c) in
    let adv : Advanced a.opened t (advance a (t, c)).0 fs =
      advance-Advanced a t c t.current_file t.current_blob t.file_transfert_init
        t.file_transfert_deinit t.fp h in
    let t1 = (advance a (t, c)).0 in
    let p = prepare a (t1, (advance a (t, c)).1) in
    let prep : Prepared t1 fs p.0 p.1 = prepare-Prepared a t1 (advance a (t, c)).1 fs adv in
    let before : p.1.written ++ pending p.1 ≡ (t.written ++ pending t) ++ frames fs =
      ap (λ xs. xs ++ pending p.1) (prep.0 ∙ adv.kept)
      ∙ (ap (λ xs. t.written ++ xs) (prep.1 ∙ ap (λ xs. xs ++ frames fs) adv.same)
          ∙ sym (append_assoc t.written (pending t) (frames fs))) in
    let sent_on = buffer_send a.sending p.1 in
    let behind_send : (buffer_send a.sending p.1).1.written ++ pending (buffer_send a.sending p.1).1
        ≡ (t.written ++ pending t) ++ frames fs =
      buffer_send-pending a.sending p.1 ∙ before in
    choose_turn (λ (r : Bool × Transfer × TransportClient). Transmitted t fs r.0 r.1) p.0
      (sent_on.0 || p.2.stop) (true, p.1, record p.2 { state = close_client })
      (true, sent_on.1, record p.2 { state = close_client }) (false, sent_on.1, p.2) prep.2
      (before, inl refl) (behind_send, inl refl)
      (λ s. (behind_send, inr (buffer_send-IsSettled a.sending p.1 s)))
