-- ===== src/InfoLoggerDaemon.antt =====
-- `InfoLoggerD::doLoop` of src/infoLoggerD.cxx: the daemon reads what its clients send and forwards each
-- line to the server. What poll, read and accept answer are arguments; writing to the local log is
-- left out.
pub mod Clients
pub mod Lines
use info_logger.Base.{
  ℕ, zero, suc, ◌+◌, ◌%◌, ◌^◌, ◌&&◌, Bool, true, false, List, [], ◌∷◌, ◌++◌, Option, none, some,
  ltb, leb, ◌==◌, if◌then◌else◌, length,
}
use info_logger.CText.{Bytes, c_str}

-- `t_clientConnection` without the index for poll.
pub record ClientConnection : Type 0 where
  pub socket : ℕ
  pub buffer : Bytes

-- A client's buffer, the messages sent to the server, and `numberOfMessagesReceived`.
pub record Receiver : Type 0 where
  pub buffer : Bytes
  pub sent : List Bytes
  pub received : ℕ

-- A whole line is in the buffer.
unfoldable pub forward : Bool → Receiver → Receiver
forward to_server r = record {
  buffer = [];
  sent = if to_server then r.sent ++ c_str r.buffer ∷ [] else r.sent;
  received = (r.received + 1) % 2 ^ 64;
}

abbrev pub is_empty : Bytes → Bool
is_empty [] = true
is_empty (c ∷ cs) = false

-- A byte that ends a line. `slice` is what stands between `ix` and the byte; with nothing there, nothing
-- is pushed and `ix` stays.
unfoldable pub end_line : Bool → Bytes → Receiver → Bytes × Receiver
end_line to_server slice r =
    if is_empty slice
    then (b'\n' ∷ [], r)
    else ([], forward to_server (record r { buffer = r.buffer ++ slice }))

-- The loop over the bytes that were read.
unfoldable pub split_data : Bool → Bytes → Bytes → Receiver → Receiver
split_data to_server [] slice r = r
split_data to_server (b ∷ []) slice r =
    if b == b'\n'
    then (end_line to_server slice r).1
    else record r { buffer = r.buffer ++ slice ++ b ∷ [] }
split_data to_server (b ∷ c ∷ bs) slice r =
    let (slice', r') = (if b == b'\n' then end_line to_server slice r else (slice ++ b ∷ [], r)) in
    split_data to_server (c ∷ bs) slice' r'

-- What read answers for a client: no event, data, or an end or error, which drops the partial line.
pub data Incoming : Type 0 where
  no_event : Incoming
  data_read : Bytes → Incoming
  closed : Incoming

-- The messages sent and their number.
pub record Traffic : Type 0 where
  pub sent : List Bytes
  pub received : ℕ

-- One client: whether it stays, and the traffic.
unfoldable pub serve_client :
    Bool → Incoming → ClientConnection → Traffic → Option ClientConnection × Traffic
serve_client to_server no_event c t = (some c, t)
serve_client to_server closed c t = (none, t)
serve_client to_server (data_read bs) c t =
    let r =
      split_data to_server bs []
        (record { buffer = c.buffer; sent = t.sent; received = t.received }) in
    (some (record c { buffer = r.buffer }), record { sent = r.sent; received = r.received })

abbrev pub add_client : Option ClientConnection → List ClientConnection → List ClientConnection
add_client none cs = cs
add_client (some c) cs = c ∷ cs

-- The loop over the clients with the cleanup behind it; the answers go by the socket.
unfoldable pub serve_clients :
    Bool → (ℕ → Incoming) → List ClientConnection → Traffic → List ClientConnection × Traffic
serve_clients to_server incoming [] t = ([], t)
serve_clients to_server incoming (c ∷ cs) t =
    let (o, t') = serve_client to_server (incoming c.socket) c t in
    let (cs', t'') = serve_clients to_server incoming cs t' in (add_client o cs', t'')

-- A connection request: none, a failure of accept, or a socket.
unfoldable pub accept_client : ℕ → Option ℕ → List ClientConnection → List ClientConnection
accept_client max none cs = cs
accept_client max (some sock) cs =
    if leb max (length cs) && ltb 0 max
    then cs
    else cs ++ record { socket = sock; buffer = [] } ∷ []

-- `doLoop` where poll finds something, for `rxMaxConnections` and `outputToServer`.
unfoldable pub do_loop :
    ℕ
    → Bool
    → (ℕ → Incoming)
    → Option ℕ
    → List ClientConnection × Traffic
    → List ClientConnection × Traffic
do_loop max to_server incoming request (cs, t) =
    let (cs', t') = serve_clients to_server incoming cs t in (accept_client max request cs', t')
