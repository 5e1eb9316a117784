-- ===== src/TransportClient.antt =====
-- The client of src/transport_client.c: its structure and the calls of other threads. Each call is
-- what it does under its mutex; the FIFOs are the queues that Fifo.Trace shows them to be.
pub mod Transfer
pub mod Replies
pub mod Transmit
pub mod Connection
pub mod Order
pub mod Released
pub mod Steps
pub mod Wire
use info_logger.Base.{
  ℕ, ◌-◌, Bool, true, false, List, [], ◌∷◌, ◌++◌, Option, none, some, ◌==◌, if◌then◌else◌, length,
  ℤ, pos, minus_one,
}
use info_logger.CText.{Bytes}
use info_logger.Fifo.Queue
use info_logger.Fifo.Queue.{Queue}
use info_logger.TransportFiles.{TransportFile}

-- `STATE_…`
pub data State : Type 0 where
  not_connected connected open_client close_client : State

-- `struct _TR_client`. `has_messages` says that there is a message queue; `acked` is what permFIFO_ack
-- has been told; `stop` is `command == COMMAND_STOP`.
pub record TransportClient : Type 0 where
  pub queue_length : ℕ
  pub state : State
  pub stop : Bool
  pub input_queue : Queue TransportFile
  pub output_queue : Queue TransportFile
  pub has_messages : Bool
  pub acked : List ℤ
  pub server_shutdown_request : Bool

abbrev no_files : Queue TransportFile
no_files = record { held = []; taken = 0 }

-- `TR_client_start`, for the length of the queues and whether there is a message queue.
unfoldable pub start : ℕ → Bool → TransportClient
start queue_length has_messages = record {
  queue_length = queue_length;
  state = not_connected;
  stop = false;
  input_queue = no_files;
  output_queue = no_files;
  has_messages = has_messages;
  acked = [];
  server_shutdown_request = false;
}

-- `TR_client_queueAddFile`
unfoldable pub queue_add_file : TransportFile → TransportClient → ℤ × TransportClient
queue_add_file f c =
    let (r, q) = Queue.push c.queue_length c.input_queue f in (r, record c { input_queue = q })

-- `TR_client_getLastFileSent`
unfoldable pub get_last_file_sent : TransportClient → Option TransportFile × TransportClient
get_last_file_sent c =
    let (f, q) = Queue.pop c.output_queue.taken c.output_queue.held in
    (f, record c { output_queue = q })

-- `TR_client_get_unacknowledged`
unfoldable pub get_unacknowledged : TransportClient → Option TransportFile × TransportClient
get_unacknowledged c =
    let (f, q) = Queue.pop c.input_queue.taken c.input_queue.held in
    (f, record c { input_queue = q })

unfoldable pub is_full : ℕ → Queue TransportFile → Bool
is_full size q = length q.held == size

-- `TR_client_queueIsFull`
unfoldable pub queue_is_full : TransportClient → Bool
queue_is_full c = is_full c.queue_length c.input_queue

-- `TR_client_queueGetSpaceLeft`
unfoldable pub queue_get_space_left : TransportClient → ℤ
queue_get_space_left c = pos (c.queue_length - length c.input_queue.held)

-- `TR_client_isConnected`, for a handle that may be NULL.
unfoldable pub is_connected : Option TransportClient → ℤ
is_connected none = minus_one
is_connected (some c) = elim c.state [ connected ↦ pos 1 | _ ↦ pos 0 ]
