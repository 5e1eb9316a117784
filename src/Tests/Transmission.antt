-- ===== src/Tests/Transmission.antt =====
-- The client of the transport at concrete inputs.
use info_logger.Base.{◌≡◌, refl, true, false, List, [], ◌∷◌, ◌++◌, none, some, arith, pos}
use info_logger.CText.{codes}
use info_logger.Fifo.Queue.{Queue}
use info_logger.TransportFiles.{TransportFile}
use info_logger.TransportClient.{TransportClient, start, connected}
use info_logger.TransportClient.Transfer.{begin}
use info_logger.TransportClient.Replies.{release}
use info_logger.TransportClient.Released.{Released, release-Released}
use info_logger.TransportClient.Transmit.{Answers, sent}
use info_logger.TransportClient.Steps.{Step, receive, proceed, add_file, run}
use info_logger.TransportClient.Wire.{pending, frames}
use info_logger.TransportClient.Wire.Run.{takes, run-begin}
use info_logger.TransportClient.Order.{waiting, IsOrdered}
use info_logger.TransportClient.Order.Run.{enters, passes, run-Ordered}
use info_logger.TransportClient.Connection.{Machine, Turn, init, run_machine}
use info_logger.TransportClient.Connection.Pace.{IsPaced, run_machine-IsPaced}
use info_logger.TransportClient.Connection.Shutdown.{IsEnded, run_machine-IsEnded}

abbrev file_one : TransportFile
file_one = record {
  address = 1;
  id = record { source = some (codes "a"); maj_id = pos 1; min_id = pos 1 };
  blobs = codes "hello" ∷ [];
  size = pos 5;
  path = none;
}

abbrev file_two : TransportFile
file_two = record file_one {
  address = 2;
  id = record { source = none; maj_id = pos 1; min_id = pos 2 };
}

abbrev writes_nine : Answers
writes_nine = record {
  message = none;
  address = 3;
  opened = none;
  client_name = codes "a";
  poll_fails = false;
  now = 0;
  sending = sent 8;
}

abbrev some_steps : List Step
some_steps =
    add_file file_one
    ∷ add_file file_two
    ∷ proceed writes_nine
    ∷ receive (codes "ACK 1 1" ∷ [])
    ∷ proceed writes_nine
    ∷ proceed writes_nine
    ∷ []

abbrev client_two : TransportClient
client_two = start 2 false

run-begin_example :
    (run some_steps (begin (pos 0) (pos 0), client_two)).0.written
      ++ pending (run some_steps (begin (pos 0) (pos 0), client_two)).0
    ≡ frames (takes some_steps (begin (pos 0) (pos 0), client_two))
run-begin_example = run-begin some_steps (pos 0) (pos 0) client_two

begin-IsOrdered : IsOrdered (begin (pos 0) (pos 0), client_two)
unfolding begin start
begin-IsOrdered = record { in_queue = omega arith; fits = omega arith; bounded = omega arith }

run-Ordered_example :
    (waiting (begin (pos 0) (pos 0), client_two)
        ++ enters some_steps (begin (pos 0) (pos 0), client_two)
      ≡ passes some_steps (begin (pos 0) (pos 0), client_two)
        ++ waiting (run some_steps (begin (pos 0) (pos 0), client_two)))
    × IsOrdered (run some_steps (begin (pos 0) (pos 0), client_two))
run-Ordered_example =
    run-Ordered some_steps (begin (pos 0) (pos 0), client_two) begin-IsOrdered refl

abbrev no_output : Queue TransportFile
no_output = record { held = []; taken = 0 }

release-Released_example :
    Released 2 true none
      (pos 1)
      (pos 1)
      (file_one ∷ file_two ∷ [])
      no_output
      []
      0
      (release 2 true none (pos 1) (pos 1) (file_one ∷ file_two ∷ []) no_output [] 0)
release-Released_example =
    release-Released 2 none (pos 1) (pos 1) true (file_one ∷ file_two ∷ []) no_output [] 0
      (omega arith)

abbrev failing : Turn
failing = record { connects = false; reads = []; steps = [] }

abbrev dialogue_turn : Turn
dialogue_turn = record {
  connects = true;
  reads = (codes "NODE_ID 7" ∷ codes "READY" ∷ []) ∷ [];
  steps = some_steps;
}

run_machine-IsPaced_example :
    IsPaced
      (run_machine (failing ∷ failing ∷ dialogue_turn ∷ []) (init client_two (codes "a") (pos 0))).1
run_machine-IsPaced_example =
    run_machine-IsPaced (failing ∷ failing ∷ dialogue_turn ∷ []) client_two (codes "a") (pos 0)

abbrev stopping : Machine
stopping = record (init client_two (codes "a") (pos 0)) {
  client = record client_two { stop = true; state = connected };
}

stopping_stop : stopping.client.stop ≡ true
stopping_stop = refl

run_machine-IsEnded_example : IsEnded (run_machine (dialogue_turn ∷ failing ∷ []) stopping)
run_machine-IsEnded_example =
    run_machine-IsEnded dialogue_turn failing [] stopping stopping_stop refl
