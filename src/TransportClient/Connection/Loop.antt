-- ===== src/TransportClient/Connection/Loop.antt =====
-- What the loop of STATE_CONNECTED in src/transport_client.c does to the command and to the state of
-- its client.
use info_logger.Base.{
  choose, ◌≡◌, refl, Bool, true, false, ◌&&◌, ◌||◌, not, List, [], ◌∷◌, Option, none, some,
  if◌then◌else◌, get_elem?, ℤ,
}
use info_logger.CText.{Bytes}
use info_logger.TransportFiles.{TransportFile}
use info_logger.TransportClient.{
  TransportClient, State, close_client, queue_add_file, get_last_file_sent, get_unacknowledged,
  is_full,
}
use info_logger.TransportClient.Transfer.{Transfer}
use info_logger.TransportClient.Replies.{replies, remove_acknowledged}
use info_logger.TransportClient.Transmit.{
  Answers, message_choice, choice_at, populate, next_file, is_idle, advance, prepare, buffer_send,
  transmit,
}
use info_logger.TransportClient.Steps.{
  Step, receive, proceed, add_file, last_sent, unacknowledged, request_stop, disconnected, step,
  run, leaves,
}
use info_logger.TransportClient.Order.Removal.{parse_replies-queues}

-- A predicate on whether there is a request to stop and on the state, which a request and the state
-- STATE_CLOSE_CLIENT keep.
module _ (P : Bool → State → Type 0) (closing : (b : Bool) (s : State) → P b s → P b close_client)
    (stopping : (b : Bool) (s : State) → P b s → P true s) where
  abbrev Holds : TransportClient → Type 0
  Holds c = P c.stop c.state

  message_choice-Holds :
      (a : Answers) (c : TransportClient) (m : Option (ℤ × Bytes))
      → Holds c
      → Holds (message_choice a c m).1
  unfolding message_choice
  message_choice-Holds a c none h = h
  message_choice-Holds a c (some (id, text)) h = h

  choice_at-Holds :
      (a : Answers) (c : TransportClient) (o : Option TransportFile)
      → Holds c
      → Holds (choice_at a c o).1
  unfolding choice_at populate
  choice_at-Holds a c none h =
      choose (λ (r : Option TransportFile × TransportClient). Holds r.1)
        (c.has_messages && not (is_full c.queue_length c.input_queue))
        (message_choice a c a.message) (none, c) (message_choice-Holds a c a.message h) h
  choice_at-Holds a c (some f) h = h

  advance-Holds :
      (a : Answers) (t : Transfer) (c : TransportClient) → Holds c → Holds (advance a (t, c)).1
  unfolding advance next_file
  advance-Holds a t c h =
      let good = λ (r : Transfer × TransportClient). Holds r.1 in
      choose good (is_idle t) _ _
        (choose good t.file_transfert_deinit _ _ h
          (choice_at-Holds a c (get_elem? c.input_queue.held t.current_file_index) h))
        h

  prepare-Holds :
      (a : Answers) (t : Transfer) (c : TransportClient) → Holds c → Holds (prepare a (t, c)).2
  unfolding prepare
  prepare-Holds a t c h =
      choose (λ (r : Bool × Transfer × TransportClient). Holds r.2) (is_idle t) _ _
        (choose Holds a.poll_fails _ _ (closing c.stop c.state h) h) h

  transmit-Holds :
      (a : Answers) (t : Transfer) (c : TransportClient) → Holds c → Holds (transmit a (t, c)).2
  unfolding transmit
  transmit-Holds a t c h =
      let p = prepare a (advance a (t, c)) in
      let s = prepare-Holds a (advance a (t, c)).0 (advance a (t, c)).1 (advance-Holds a t c h) in
      let closed = closing p.2.stop p.2.state s in
      let good = λ (r : Bool × Transfer × TransportClient). Holds r.2 in
      choose good p.0 _ _ closed
        (choose good ((buffer_send a.sending p.1).0 || p.2.stop) _ _ closed s)

  step-Holds : (x : Step) (s : Transfer × TransportClient) → Holds s.1 → Holds (step x s).2
  unfolding step replies remove_acknowledged queue_add_file get_last_file_sent get_unacknowledged
  step-Holds (receive lines) (t, c) h = parse_replies-queues Holds lines t c (λ b. h)
  step-Holds (proceed a) (t, c) h = transmit-Holds a t c h
  step-Holds (add_file f) (t, c) h = h
  step-Holds last_sent (t, c) h = h
  step-Holds unacknowledged (t, c) h = h
  step-Holds request_stop (t, c) h = stopping c.stop c.state h
  step-Holds disconnected (t, c) h = closing c.stop c.state h

  pub run-Holds : (xs : List Step) (s : Transfer × TransportClient) → Holds s.1 → Holds (run xs s).1
  unfolding run
  run-Holds [] s h = h
  run-Holds (x ∷ xs) s h =
      let r = step x s in
      let next = step-Holds x s h in
      choose (λ (r : Transfer × TransportClient). Holds r.1) r.0 (r.1, r.2) (run xs (r.1, r.2)) next
        (run-Holds xs (r.1, r.2) next)

-- There is a request to stop.
abbrev pub Stops : TransportClient → Type 0
Stops c = c.stop ≡ true

abbrev IsAsked : Bool → State → Type 0
IsAsked b s = b ≡ true

pub run-Stops : (xs : List Step) (s : Transfer × TransportClient) → Stops s.1 → Stops (run xs s).1
run-Stops = run-Holds IsAsked (λ b s h. h) (λ b s h. refl)

step-Stops : (x : Step) (s : Transfer × TransportClient) → Stops s.1 → Stops (step x s).2
step-Stops = step-Holds IsAsked (λ b s h. h) (λ b s h. refl)

-- Whether the thread itself comes to the end of a turn of its loop in the steps.
abbrev pub goes_round : List Step → Bool
goes_round [] = false
goes_round (proceed a ∷ xs) = true
goes_round (x ∷ xs) = goes_round xs

abbrev IsLeft : Bool × Transfer × TransportClient → Type 0
IsLeft r = r.0 ≡ true

IsLeft-at :
    (given_up broken stop : Bool) (x y z : Transfer × TransportClient)
    → stop ≡ true
    → IsLeft (
        if given_up
        then (true, x.0, x.1)
        else if broken || stop
        then (true, y.0, y.1)
        else (false, z.0, z.1))
IsLeft-at true broken stop x y z e = refl
IsLeft-at false true stop x y z e = refl
IsLeft-at false false true x y z e = refl
IsLeft-at false false false x y z e = cc e

-- In a turn that meets the request, the loop is left.
transmit-left :
    (a : Answers) (t : Transfer) (c : TransportClient) → Stops c → (transmit a (t, c)).0 ≡ true
unfolding transmit
transmit-left a t c h =
    let p = prepare a (advance a (t, c)) in
    let sent_on = buffer_send a.sending p.1 in
    IsLeft-at p.0 sent_on.0 p.2.stop (p.1, record p.2 { state = close_client })
      (sent_on.1, record p.2 { state = close_client }) (sent_on.1, p.2)
      (prepare-Holds IsAsked (λ b s h. h) (λ b s h. refl) a (advance a (t, c)).0
        (advance a (t, c)).1 (advance-Holds IsAsked (λ b s h. h) (λ b s h. refl) a t c h))

left_first : (b rest : Bool) → b ≡ true → (if b then true else rest) ≡ true
left_first true rest h = refl
left_first false rest h = cc h

left_later : (b rest : Bool) → rest ≡ true → (if b then true else rest) ≡ true
left_later true rest h = refl
left_later false rest h = h

-- A step before others.
later :
    (x : Step) (xs : List Step) (s : Transfer × TransportClient)
    → Stops s.1
    → ((s' : Transfer × TransportClient) → Stops s'.1 → goes_round xs ≡ true → leaves xs s' ≡ true)
    → goes_round xs ≡ true
    → leaves (x ∷ xs) s ≡ true
unfolding leaves
later x xs s h ih g =
    let r = step x s in left_later r.0 (leaves xs (r.1, r.2)) (ih (r.1, r.2) (step-Stops x s h) g)

-- With a request to stop, the loop is left when the thread comes to the end of a turn of it.
pub leaves-lem :
    (xs : List Step) (s : Transfer × TransportClient)
    → Stops s.1
    → goes_round xs ≡ true
    → leaves xs s ≡ true
unfolding leaves step
leaves-lem [] s h g = cc g
leaves-lem (proceed a ∷ xs) s h g =
    left_first (transmit a s).0 (leaves xs ((transmit a s).1, (transmit a s).2))
      (transmit-left a s.0 s.1 h)
leaves-lem (receive lines ∷ xs) s h g = later (receive lines) xs s h (leaves-lem xs) g
leaves-lem (add_file f ∷ xs) s h g = later (add_file f) xs s h (leaves-lem xs) g
leaves-lem (last_sent ∷ xs) s h g = later last_sent xs s h (leaves-lem xs) g
leaves-lem (unacknowledged ∷ xs) s h g = later unacknowledged xs s h (leaves-lem xs) g
leaves-lem (request_stop ∷ xs) s h g = later request_stop xs s h (leaves-lem xs) g
leaves-lem (disconnected ∷ xs) s h g = later disconnected xs s h (leaves-lem xs) g
