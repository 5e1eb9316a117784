-- ===== src/TransportClient/Order.antt =====
-- The order in which the client of src/transport_client.c takes the files of its queue.
pub mod Removal
pub mod Turn
pub mod Run
use info_logger.Base.{
  choose, ℕ, zero, suc, ◌+◌, ◌-◌, ◌≤◌, ◌<◌, ◌≡◌, refl, sym, ap, subst, ◌∙◌, Bool, true, false, not,
  ◌&&◌, ◌||◌, List, [], ◌∷◌, ◌++◌, Option, none, some, ◌==◌, ltb, leb, if◌then◌else◌, length, take,
  drop, get_elem?, arith, inl, inr, Bool-cases, map, append_assoc, append-nil, ℤ, length-append,
  lt→ltb, ltb→lt, tests, take-append_self, Option-cases,
}
use info_logger.CText.{Bytes, codes, equal}
use info_logger.Fifo.Queue
use info_logger.Fifo.Queue.{Queue}
use info_logger.TransportFiles.{TransportFile, file_id_compare}
use info_logger.TransportClient.{TransportClient, is_full, queue_add_file, get_last_file_sent}
use info_logger.TransportClient.Transfer.{Transfer, begin}
use info_logger.TransportClient.Replies.{
  Release, release, is_current, remove_acknowledged, parse_replies, parse_reply, replies,
}
use info_logger.TransportClient.Released.{Released, release-Released}
use info_logger.TransportClient.Transmit.{
  Answers, message_choice, choice_at, message_file, whole, Sending, sent, not_writable, poll_error,
  send_error, transmit, prepare, advance, buffer_send, check_watchdog, fill, populate, next_file,
  take_file, is_idle, is_none,
}
use info_logger.TransportClient.Steps.{
  Step, receive, proceed, add_file, last_sent, unacknowledged, request_stop, step, run,
}
use info_logger.TransportClient.Wire.{taken, opt_list, end_of_file}
use info_logger.TransportClient.Wire.Fill.{check_watchdog-watched, watched}
use info_logger.TransportClient.Wire.Run.{parse_replies-acks}
use info_logger.TransportClient.Wire.Turn.{Kept, fill-Kept}

-- The files behind those that were taken on this connection.
abbrev pub waiting : Transfer × TransportClient → List TransportFile
waiting (t, c) = drop t.current_file_index c.input_queue.held

-- The index is not behind the end, and the queues are not too long.
pub record IsOrdered (s : Transfer × TransportClient) : Type 0 where
  pub in_queue : s.0.current_file_index ≤ length s.1.input_queue.held
  pub fits : length s.1.input_queue.held ≤ s.1.queue_length
  pub bounded : length s.1.output_queue.held ≤ s.1.queue_length

abbrev pub files_taken : Answers → Transfer × TransportClient → List TransportFile
files_taken a s = map (λ p. p.0) (taken a s)

-- A file that is taken is new where the queue had none at the index.
abbrev pub enters_at : Option TransportFile → List TransportFile → List TransportFile
enters_at none fs = fs
enters_at (some f) fs = []

-- The files that a step puts into the queue.
unfoldable pub step_enters : Step → Transfer × TransportClient → List TransportFile
step_enters (proceed a) (t, c) =
    enters_at (get_elem? c.input_queue.held t.current_file_index) (files_taken a (t, c))
step_enters (add_file f) (t, c) =
    if ltb (length c.input_queue.held) c.queue_length then f ∷ [] else []
step_enters _ s = []

-- The files that a step takes, or removes before they were taken.
unfoldable pub step_passes : Step → Transfer × TransportClient → List TransportFile
step_passes (receive lines) (t, c) =
    let held = c.input_queue.held in
    drop t.current_file_index
      (take (length held - length (replies lines (t, c)).1.input_queue.held) held)
step_passes (proceed a) s = files_taken a s
step_passes _ s = []

-- No other thread takes files back out of the queue.
abbrev pub are_left : List Step → Bool
are_left [] = true
are_left (unacknowledged ∷ xs) = false
are_left (x ∷ xs) = are_left xs

-- A step keeps the order, and the bounds.
abbrev pub Ordered : Step → Transfer × TransportClient → Transfer × TransportClient → Type 0
Ordered x s s' = (waiting s ++ step_enters x s ≡ step_passes x s ++ waiting s') × IsOrdered s'
