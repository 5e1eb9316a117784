-- ===== src/TransportClient/Connection.antt =====
-- TR_client_state_machine of src/transport_client.c around STATE_CONNECTED: connection, retries, the
-- opening dialogue, shutdown. What the system calls answer is an argument of a turn; the calls of the
-- message queue's flush and of sleep are left out.
pub mod Loop
pub mod Pace
pub mod Shutdown
use info_logger.Base.{
  ℕ, zero, suc, ◌+◌, ◌-◌, ◌*◌, Bool, true, false, not, ◌&&◌, ◌||◌, List, [], ◌∷◌, ◌++◌, Option,
  none, some, ◌==◌, ltb, if◌then◌else◌, length, take, drop, min, ℤ, pos, minus_one,
}
use info_logger.CText.{Bytes, codes, equal}
use info_logger.CText.Numbers.{print_int, scan_int, is_space}
use info_logger.TransportClient.{
  TransportClient, State, not_connected, connected, open_client, close_client,
}
use info_logger.TransportClient.Transfer.{Transfer, begin}
use info_logger.TransportClient.Steps.{Step, run, leaves}

abbrev pub max_retry_time : ℕ
max_retry_time = 300

abbrev pub reconnection_wait_time : ℕ
reconnection_wait_time = 10

abbrev pub connection_timeout : ℕ
connection_timeout = 10

abbrev pub max_proxy_retry : ℕ
max_proxy_retry = 5

abbrev pub has_proxy : Option Bytes → Bool
has_proxy none = false
has_proxy (some name) = true

-- The variables of the state machine. `proxies` are the ports of the proxies
-- that were started, `greeted` what was sent to introduce the client.
pub record Machine : Type 0 where
  pub client : TransportClient
  pub wait_count : ℕ
  pub wait_time : ℕ
  pub n_retry : ℕ
  pub proxy_name : Option Bytes
  pub proxy_port : ℤ
  pub client_id : ℤ
  pub proxies : List ℤ
  pub ack_maj : ℤ
  pub ack_min : ℤ
  pub client_name : Bytes
  pub proxy_state : ℤ
  pub greeted : List Bytes

-- The head of the state machine, for a client that has just been started, with its name and its
-- status.
unfoldable pub init : TransportClient → Bytes → ℤ → Machine
init c client_name proxy_state = record {
  client = record c { state = not_connected };
  wait_count = 0;
  wait_time = 1;
  n_retry = 0;
  proxy_name = none;
  proxy_port = pos 0;
  client_id = minus_one;
  proxies = [];
  ack_maj = pos 0;
  ack_min = pos 0;
  client_name = client_name;
  proxy_state = proxy_state;
  greeted = [];
}

unfoldable pub set_state : State → Machine → Machine
set_state s m = record m { client = record m.client { state = s } }

-- A connection that fails: a longer wait, or the main server in place of the proxy.
unfoldable pub connect_fails : Machine → Machine
connect_fails m =
    if ltb max_proxy_retry (m.n_retry + 1) && has_proxy m.proxy_name
    then record m { proxy_name = none; n_retry = 0; wait_count = 0; wait_time = 1 }
    else record m {
      wait_count = m.wait_time;
      wait_time = min (m.wait_time * 2) max_retry_time;
      n_retry = m.n_retry + 1;
    }

-- STATE_NOT_CONNECTED, with the answer of transport_TCP_connect.
unfoldable pub try_connect : Bool → Machine → Machine
try_connect succeeds m =
    if m.wait_count == 0
    then (if succeeds then set_state open_client m else connect_fails m)
    else record m { wait_count = m.wait_count - 1 }

skip_spaces : Bytes → Bytes
skip_spaces [] = []
skip_spaces (c ∷ cs) = let rest = skip_spaces cs in if is_space c then rest else c ∷ cs

-- The bytes before the first white space, and the rest.
cut_word : Bytes → Bytes × Bytes
cut_word [] = ([], [])
cut_word (c ∷ cs) =
    let (w, rest) = cut_word cs in if is_space c then ([], c ∷ cs) else (c ∷ w, rest)

-- "name port" behind a command, if there is a number. Where no white space follows the name, the code
-- reads on behind the line; what it would find is left out.
unfoldable pub read_proxy : Bytes → Option (Bytes × ℤ)
unfolding skip_spaces cut_word
read_proxy text =
    let (name, rest) = cut_word (skip_spaces text) in
    elim (scan_int rest) [ none ↦ none | some port ↦ some (name, port) ]

-- What a line of the server leads to: the parsing goes on, or stops.
pub data Dialogue : Type 0 where
  next_line : Machine → Dialogue
  stop_parsing : Machine → Dialogue

-- Only one proxy is started.
unfoldable pub start_proxy : List ℤ → ℤ → Machine → Machine
start_proxy [] port m = record m { proxies = port ∷ [] }
start_proxy (p ∷ ps) port m = m

unfoldable pub be_proxy : Option (Bytes × ℤ) → Machine → Machine
be_proxy none m = m
be_proxy (some (name, port)) m = start_proxy m.proxies port m

unfoldable pub use_proxy : Option (Bytes × ℤ) → Machine → Dialogue
use_proxy none m = next_line m
use_proxy (some (name, port)) m =
    stop_parsing (set_state close_client (record m { proxy_name = some name; proxy_port = port }))

-- The commands behind READY and NODE_ID; anything else closes the connection, but is no end of the
-- parsing.
unfoldable pub other_line : Bytes → Machine → Dialogue
other_line line m =
    if equal (take 8 line) (codes "BE_PROXY")
    then next_line (be_proxy (read_proxy (drop 8 line)) m)
    else if equal (take 9 line) (codes "USE_PROXY")
    then use_proxy (read_proxy (drop 9 line)) m
    else next_line (set_state close_client m)

unfoldable pub node_id : Option ℤ → Bytes → Machine → Dialogue
node_id none line m = other_line line m
node_id (some n) line m = next_line (record m { client_id = n })

unfoldable pub open_line : Bytes → Machine → Dialogue
open_line line m =
    if equal line (codes "READY")
    then stop_parsing (set_state connected m)
    else if equal (take 7 line) (codes "NODE_ID")
    then node_id (scan_int (drop 7 line)) line m
    else other_line line m

unfoldable pub open_lines : List Bytes → Machine → Machine
open_lines [] m = m
open_lines (l ∷ ls) m = elim (open_line l m) [
  | next_line m' ↦ open_lines ls m'
  | stop_parsing m' ↦ m'
]

-- "INI name status"
unfoldable pub greet : Bool → Machine → Machine
greet false m = m
greet true m = record m {
  greeted =
      m.greeted
      ++ take 2499 (
          codes "INI " ++ (m.client_name ++ (codes " " ++ (print_int m.proxy_state ++ codes "\n"))))
        ∷ [];
}

abbrev pub is_open : State → Bool
is_open open_client = true
is_open _ = false

-- `while (state == STATE_OPEN_CLIENT && command != COMMAND_STOP)`, with the lines that each read gives;
-- behind the last one the server is silent until the timeout. `fresh` says that the step of the
-- dialogue is a new one, which resets the timeout.
unfoldable pub dialogue : Bool → Bool → List (List Bytes) → Machine → Machine
dialogue greets fresh [] m =
    if is_open m.client.state && not m.client.stop
    then set_state close_client (greet greets m)
    else m
dialogue greets fresh (ls ∷ reads) m =
    let n = (if fresh then connection_timeout else m.wait_count) in
    let m' = open_lines ls (greet greets (record m { wait_count = n })) in
    let rest = dialogue false greets reads (record m' { wait_count = m'.wait_count - 1 }) in
    if is_open m.client.state && not m.client.stop
    then (if n == 0 then set_state close_client (record m { wait_count = n }) else rest)
    else m

-- STATE_CLOSE_CLIENT
unfoldable pub disconnect : Machine → Machine
disconnect m =
    set_state not_connected
      (record m { wait_count = reconnection_wait_time; wait_time = 1; n_retry = 0 })

-- STATE_CONNECTED with the steps of its loop, and whether the loop is left in their course.
unfoldable pub transfer : List Step → Machine → Bool × Machine
transfer steps m =
    let s : Transfer × TransportClient = (begin m.ack_maj m.ack_min, m.client) in
    let r = run steps s in
    let m' = record m { client = r.1; ack_maj = r.0.ack_maj; ack_min = r.0.ack_min } in
    if leaves steps s then (true, set_state close_client m') else (false, m')

-- What happens in a turn of the state machine.
pub record Turn : Type 0 where
  pub connects : Bool
  pub reads : List (List Bytes)
  pub steps : List Step

-- The part of a turn for the state, and whether it comes to its end.
unfoldable pub at_state : State → Turn → Machine → Bool × Machine
at_state not_connected a m = (true, try_connect a.connects m)
at_state open_client a m = (true, dialogue (not (has_proxy m.proxy_name)) true a.reads m)
at_state close_client a m = (true, disconnect m)
at_state connected a m = transfer a.steps m

abbrev pub is_disconnected : State → Bool
is_disconnected not_connected = true
is_disconnected _ = false

-- Where the thread is: it has ended, it goes on to the next turn, or it is still in the loop of
-- STATE_CONNECTED.
pub data Course : Type 0 where
  ended going_on in_loop : Course

-- "Shutdown request : disconnect first"
unfoldable pub check_stop : Machine → Course × Machine
check_stop m =
    if m.client.stop
    then (if is_disconnected m.client.state
        then (ended, record m { client = record m.client { stop = false } })
        else (going_on, set_state close_client m))
    else (going_on, m)

-- A turn of the state machine. What is behind the loop of STATE_CONNECTED is reached only when it is
-- left.
unfoldable pub turn : Turn → Machine → Course × Machine
turn a m =
    let r = at_state m.client.state a m in
    let checked = check_stop r.1 in if r.0 then checked else (in_loop, r.1)

abbrev pub goes_on : Course → Bool
goes_on going_on = true
goes_on _ = false

-- Turns, until the thread ends, or as far as it comes.
unfoldable pub run_machine : List Turn → Machine → Course × Machine
run_machine [] m = (going_on, m)
run_machine (a ∷ as') m =
    let r = turn a m in let rest = run_machine as' r.1 in if goes_on r.0 then rest else r
