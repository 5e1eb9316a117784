-- ===== src/TransportClient/Order/Turn.antt =====
-- The file that a turn of src/transport_client.c takes from the queue.
use info_logger.Base.{
  choose, ℕ, zero, suc, ◌+◌, ◌≤◌, ◌<◌, ◌≡◌, refl, sym, ap, subst, ◌∙◌, Bool, true, false, not, ◌&&◌,
  ◌||◌, List, [], ◌∷◌, ◌++◌, Option, none, some, ◌==◌, if◌then◌else◌, length, drop, get_elem?,
  arith, map, append-nil, ℤ, length-append, lt→ltb,
}
use info_logger.CText.{Bytes}
use info_logger.Fifo.Queue
use info_logger.Fifo.Queue.{Queue}
use info_logger.TransportFiles.{TransportFile}
use info_logger.TransportClient.{TransportClient, is_full}
use info_logger.TransportClient.Transfer.{Transfer}
use info_logger.TransportClient.Transmit.{
  Answers, message_choice, choice_at, message_file, whole, Sending, sent, not_writable, poll_error,
  send_error, transmit, prepare, advance, buffer_send, fill, populate, next_file, take_file,
  is_idle,
}
use info_logger.TransportClient.Steps.{proceed}
use info_logger.TransportClient.Wire.{taken, opt_list, end_of_file}
use info_logger.TransportClient.Wire.Fill.{check_watchdog-watched, watched}
use info_logger.TransportClient.Wire.Turn.{fill-Kept}
use info_logger.TransportClient.Order.{
  waiting, IsOrdered, files_taken, enters_at, step_enters, step_passes, Ordered,
}
use info_logger.TransportClient.Order.Removal.{drop-get_elem?, drop_past}

abbrev pub SameQueues : TransportClient → TransportClient → Type 0
SameQueues c d =
    (d.input_queue ≡ c.input_queue)
    × (d.output_queue ≡ c.output_queue)
    × (d.queue_length ≡ c.queue_length)

abbrev pub Stays : Transfer × TransportClient → Transfer × TransportClient → Type 0
Stays (t, c) (u, d) = (u.current_file_index ≡ t.current_file_index) × SameQueues c d

pub prepare-Stays :
    (a : Answers) (t : Transfer) (c : TransportClient)
    → Stays (t, c) ((prepare a (t, c)).1, (prepare a (t, c)).2)
unfolding prepare
prepare-Stays a t c =
    choose (λ (r : Bool × Transfer × TransportClient). Stays (t, c) (r.1, r.2)) (is_idle t) _ _
      (
        refl,
        choose (λ (d : TransportClient). SameQueues c d) a.poll_fails _ _ (refl, refl, refl)
            (refl, refl, refl),
      )
      (
        check_watchdog-watched
            (λ p.
              (if p.0 then p.1 else fill a.opened p.1).current_file_index ≡ t.current_file_index)
            a.now t
            (λ b last n timer.
              let u = watched last n timer t in
              choose (λ (v : Transfer). v.current_file_index ≡ t.current_file_index) b u
                (fill a.opened u) refl (fill-Kept a.opened u).1),
        (refl, refl, refl),
      )

pub buffer_send-index :
    (s : Sending) (t : Transfer) → (buffer_send s t).1.current_file_index ≡ t.current_file_index
unfolding buffer_send
buffer_send-index not_writable t = refl
buffer_send-index poll_error t = refl
buffer_send-index send_error t = refl
buffer_send-index (sent n) t = refl

pub transmit-Stays :
    (a : Answers) (s : Transfer × TransportClient)
    → Stays (advance a s) ((transmit a s).1, (transmit a s).2)
unfolding transmit
transmit-Stays a s =
    let (t1, c1) = advance a s in
    let p = prepare a (t1, c1) in
    let sent_on = buffer_send a.sending p.1 in
    let stays : Stays (t1, c1) (p.1, p.2) = prepare-Stays a t1 c1 in
    let index = buffer_send-index a.sending p.1 ∙ stays.0 in
    let good = λ (r : Bool × Transfer × TransportClient). Stays (t1, c1) (r.1, r.2) in
    choose good p.0 _ _ stays
      (choose good (sent_on.0 || p.2.stop) _ _ (index, stays.1) (index, stays.1))

pub nothing_enters : (o : Option TransportFile) → enters_at o [] ≡ []
nothing_enters none = refl
nothing_enters (some f) = refl

-- A turn that takes nothing.
pub still :
    (a : Answers) (s : Transfer × TransportClient) (t : Transfer)
    → IsOrdered s
    → files_taken a s ≡ []
    → t.current_file_index ≡ s.0.current_file_index
    → Ordered (proceed a) s (t, s.1)
unfolding step_enters step_passes
still a s t h none_taken i =
    let o = get_elem? s.1.input_queue.held s.0.current_file_index in
    (
      ap (λ fs. waiting s ++ enters_at o fs) none_taken
          ∙ (ap (λ fs. waiting s ++ fs) (nothing_enters o)
              ∙ (append-nil (waiting s)
                  ∙ (ap (λ n. drop n s.1.input_queue.held) (sym i)
                      ∙ ap (λ fs. fs ++ waiting (t, s.1)) (sym none_taken)))),
      record {
        in_queue = subst (λ n. n ≤ length s.1.input_queue.held) (sym i) h.in_queue;
        fits = h.fits;
        bounded = h.bounded;
      },
    )

-- A file of the queue is taken.
pub takes_next :
    (a : Answers) (t : Transfer) (c : TransportClient) (f : TransportFile)
    → IsOrdered (t, c)
    → get_elem? c.input_queue.held t.current_file_index ≡ some f
    → files_taken a (t, c) ≡ f ∷ []
    → Ordered (proceed a) (t, c) (take_file (some f) t, c)
unfolding step_enters step_passes take_file
takes_next a t c f h e k =
    let d =
      drop-get_elem? t.current_file_index (t.current_file_index + 1) c.input_queue.held f e
        (omega arith) in
    (
      ap (λ o. waiting (t, c) ++ enters_at o (files_taken a (t, c))) e
          ∙ (append-nil (waiting (t, c))
              ∙ (d.0
                  ∙ ap (λ fs. fs ++ drop (t.current_file_index + 1) c.input_queue.held) (sym k))),
      record { in_queue = d.1; fits = h.fits; bounded = h.bounded },
    )

pub le_of_none : (xs : List TransportFile) (i : ℕ) → get_elem? xs i ≡ none → length xs ≤ i
le_of_none [] i h = omega arith
le_of_none (x ∷ xs) zero h = cc h
le_of_none (x ∷ xs) (suc i) h = omega (arith, le_of_none xs i h)

pub drop_all : (xs : List TransportFile) (n : ℕ) → length xs ≤ n → drop n xs ≡ []
drop_all [] zero h = refl
drop_all [] (suc n) h = refl
drop_all (x ∷ xs) zero h = absurd (omega arith)
drop_all (x ∷ xs) (suc n) h = drop_all xs n (omega arith)

-- A message is put into the queue and taken.
pub takes_message :
    (a : Answers) (t : Transfer) (c : TransportClient) (f : TransportFile)
    → IsOrdered (t, c)
    → get_elem? c.input_queue.held t.current_file_index ≡ none
    → files_taken a (t, c) ≡ f ∷ []
    → (q : Queue TransportFile) → q.held ≡ c.input_queue.held ++ f ∷ []
    → length c.input_queue.held < c.queue_length
    → Ordered (proceed a) (t, c) (take_file (some f) t, record c { input_queue = q })
unfolding step_enters step_passes take_file
takes_message a t c f h e k q qe room =
    let held = c.input_queue.held in
    let i = t.current_file_index in
    let past : drop i held ≡ [] = drop_past i held e in
    let at_end : i ≡ length held = omega (arith, le_of_none held i e, h.in_queue) in
    let long : length q.held ≡ length held + 1 =
      ap (λ (xs : List TransportFile). length xs) qe ∙ length-append held (f ∷ []) in
    (
      ap (λ o. waiting (t, c) ++ enters_at o (files_taken a (t, c))) e
          ∙ (ap (λ fs. fs ++ files_taken a (t, c)) past
              ∙ (sym (append-nil (files_taken a (t, c)))
                  ∙ ap (λ fs. files_taken a (t, c) ++ fs)
                      (sym (drop_all q.held (i + 1) (omega (arith, long, at_end)))))),
      record {
        in_queue = omega (arith, long, at_end);
        fits = omega (arith, long, room);
        bounded = h.bounded;
      },
    )

pub choose_eq {ℓ} :
    {A : Type ℓ} (P : A → Type 0) (test : Bool) (x y : A)
    → (test ≡ true → P x)
    → (test ≡ false → P y)
    → P (if test then x else y)
choose_eq P true x y px py = px refl
choose_eq P false x y px py = py refl

pub push_room :
    (c : TransportClient) (f : TransportFile)
    → length c.input_queue.held < c.queue_length
    → (Queue.push c.queue_length c.input_queue f).1.held ≡ c.input_queue.held ++ f ∷ []
push_room c f room = rw (lt→ltb (length c.input_queue.held) c.queue_length room) refl

pub has_room : (has full : Bool) → (has && not full) ≡ true → full ≡ false
has_room true true h = sym h
has_room true false h = refl
has_room false full h = cc h

pub room-lt : (n size : ℕ) → n ≤ size → (n == size) ≡ false → n < size
room-lt n size h e = ground arith

abbrev pub files_of : List (TransportFile × Option Bytes) → List TransportFile
files_of l = map (λ p. p.0) l

pub files_if :
    (test b : Bool) (l : List (TransportFile × Option Bytes))
    → test ≡ b
    → files_of (if test then l else []) ≡ (if b then files_of l else [])
files_if true true l h = refl
files_if false false l h = refl
files_if true false l h = cc h
files_if false true l h = cc h

pub both : {x y z : Bool} → x ≡ true → y ≡ z → (x && y) ≡ z
both {x} {y} {z} e k = ap (λ b. b && y) e ∙ k

module _ (a : Answers) (t : Transfer) (c : TransportClient) (h : IsOrdered (t, c)) where
  abbrev found : List (TransportFile × Option Bytes)
  found = opt_list (choice_at a c (get_elem? c.input_queue.held t.current_file_index)).0 a.opened

  -- The state behind the choice `r` of a file.
  abbrev Chosen : Option TransportFile × TransportClient → Type 0
  Chosen r =
      files_taken a (t, c) ≡ map (λ p. p.0) (opt_list r.0 a.opened)
      → Ordered (proceed a) (t, c) (take_file r.0 t, r.1)

  Chosen-none : Chosen (none, c)
  unfolding take_file
  Chosen-none k = still a (t, c) t h k refl

  Chosen-message :
      (m : Option (ℤ × Bytes))
      → get_elem? c.input_queue.held t.current_file_index ≡ none
      → length c.input_queue.held < c.queue_length
      → Chosen (message_choice a c m)
  unfolding message_choice
  Chosen-message none e room k = Chosen-none k
  Chosen-message (some (id, text)) e room k =
      let f = message_file a id text in
      takes_message a t c f h e k (Queue.push c.queue_length c.input_queue f).1 (push_room c f room)
        room

  Chosen-at :
      (o : Option TransportFile)
      → get_elem? c.input_queue.held t.current_file_index ≡ o
      → Chosen (choice_at a c o)
  unfolding choice_at populate is_full
  Chosen-at (some f) e k = takes_next a t c f h e k
  Chosen-at none e k =
      choose_eq Chosen (c.has_messages && not (length c.input_queue.held == c.queue_length)) _ _
        (λ y. Chosen-message a.message e (
          room-lt (length c.input_queue.held) c.queue_length h.fits
            (has_room c.has_messages (length c.input_queue.held == c.queue_length) y)))
        (λ n. Chosen-none) k

  pub advance-Ordered : Ordered (proceed a) (t, c) (advance a (t, c))
  unfolding advance taken next_file
  advance-Ordered =
      choose_eq (Ordered (proceed a) (t, c)) (is_idle t) _ _
        (λ e.
          choose_eq (Ordered (proceed a) (t, c)) t.file_transfert_deinit _ _
            (λ k.
              still a (t, c)
                (record t { file_transfert_deinit = false; send_buf = whole end_of_file }) h
                (files_if (is_idle t && not t.file_transfert_deinit) false found
                  (both e (ap (λ b. not b) k)))
                refl)
            (λ k. Chosen-at (get_elem? c.input_queue.held t.current_file_index) refl (
              files_if (is_idle t && not t.file_transfert_deinit) true found
                (both e (ap (λ b. not b) k)))))
        (λ e.
          still a (t, c) t h
            (files_if (is_idle t && not t.file_transfert_deinit) false found
              (ap (λ b. b && not t.file_transfert_deinit) e))
            refl)
