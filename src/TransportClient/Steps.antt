-- ===== src/TransportClient/Steps.antt =====
-- The connected client of src/transport_client.c among the calls of other threads.
use info_logger.Base.{Bool, true, false, List, [], ◌∷◌, if◌then◌else◌}
use info_logger.CText.{Bytes}
use info_logger.TransportFiles.{TransportFile}
use info_logger.TransportClient.{
  TransportClient, close_client, queue_add_file, get_last_file_sent, get_unacknowledged,
}
use info_logger.TransportClient.Transfer.{Transfer}
use info_logger.TransportClient.Replies.{replies}
use info_logger.TransportClient.Transmit.{Answers, transmit}

-- A part of a turn, a call of another thread, a request to stop, or the end of what the server sends.
pub data Step : Type 0 where
  receive : List Bytes → Step
  proceed : Answers → Step
  add_file : TransportFile → Step
  last_sent : Step
  unacknowledged : Step
  request_stop : Step
  disconnected : Step

unfoldable pub step : Step → Transfer × TransportClient → Bool × Transfer × TransportClient
step (receive lines) s = let (t, c) = replies lines s in (false, t, c)
step (proceed a) s = transmit a s
step (add_file f) (t, c) = (false, t, (queue_add_file f c).1)
step last_sent (t, c) = (false, t, (get_last_file_sent c).1)
step unacknowledged (t, c) = (false, t, (get_unacknowledged c).1)
step request_stop (t, c) = (false, t, record c { stop = true })
step disconnected (t, c) = (true, t, record c { state = close_client })

-- Steps in any order, until the loop is left.
unfoldable pub run : List Step → Transfer × TransportClient → Transfer × TransportClient
run [] s = s
run (x ∷ xs) s =
    let r = step x s in let rest = run xs (r.1, r.2) in if r.0 then (r.1, r.2) else rest

-- Whether the loop is left in the course of the steps.
unfoldable pub leaves : List Step → Transfer × TransportClient → Bool
leaves [] s = false
leaves (x ∷ xs) s =
    let r = step x s in let rest = leaves xs (r.1, r.2) in if r.0 then true else rest
