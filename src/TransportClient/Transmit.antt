-- ===== src/TransportClient/Transmit.antt =====
-- The second part of a turn of the loop in STATE_CONNECTED of src/transport_client.c: the file to
-- transmit, and what goes to the socket. What the system calls answer is in the arguments.
use info_logger.Base.{
  ℕ, ◌+◌, ◌-◌, ◌%◌, Bool, true, false, not, ◌&&◌, ◌||◌, List, [], ◌∷◌, ◌++◌, Option, none, some,
  ◌==◌, ltb, leb_ℤ, if◌then◌else◌, length, take, drop, get_elem?, min, ℤ, pos, minus_one,
}
use info_logger.CText.{Bytes, codes}
use info_logger.CText.Numbers.{print_int}
use info_logger.Fifo.Queue
use info_logger.Fifo.Queue.{Queue}
use info_logger.TransportFiles.{TransportFile, file_new}
use info_logger.TransportClient.{TransportClient, close_client, is_full}
use info_logger.TransportClient.Transfer.{Buffer, Transfer}

-- `TR_BUFFER_SIZE`
abbrev buffer_size : ℕ
buffer_size = 2500

-- What `TR_buffer_send` meets: poll finds nothing, an error, or send answers.
pub data Sending : Type 0 where
  not_writable poll_error send_error : Sending
  sent : ℕ → Sending

-- What the calls in the second part of a turn answer.
pub record Answers : Type 0 where
  pub message : Option (ℤ × Bytes)
  pub address : ℕ
  pub opened : Option Bytes
  pub client_name : Bytes
  pub poll_fails : Bool
  pub now : ℕ
  pub sending : Sending

-- The file for an item of the message queue.
unfoldable pub message_file : Answers → ℤ → Bytes → TransportFile
message_file a id text = record (file_new a.address) {
  id = record { source = some a.client_name; maj_id = pos 1; min_id = id };
  blobs = text ∷ [];
  size = pos (length text);
}

-- What permFIFO_read gives goes into the queue.
unfoldable pub message_choice :
    Answers → TransportClient → Option (ℤ × Bytes) → Option TransportFile × TransportClient
message_choice a c none = (none, c)
message_choice a c (some (id, text)) =
    let f = message_file a id text in
    (some f, record c { input_queue = (Queue.push c.queue_length c.input_queue f).1 })

-- Nothing is at the index: a message, if one is there and the queue has room.
unfoldable pub populate : Answers → TransportClient → Option TransportFile × TransportClient
populate a c =
    if c.has_messages && not (is_full c.queue_length c.input_queue)
    then message_choice a c a.message
    else (none, c)

unfoldable pub choice_at :
    Answers → TransportClient → Option TransportFile → Option TransportFile × TransportClient
choice_at a c none = populate a c
choice_at a c (some f) = (some f, c)

-- The file to transmit next.
unfoldable pub next_file : Answers → ℕ → TransportClient → Option TransportFile × TransportClient
next_file a index c = choice_at a c (get_elem? c.input_queue.held index)

unfoldable pub take_file : Option TransportFile → Transfer → Transfer
take_file none t = t
take_file (some f) t = record t {
  current_file = some f;
  current_file_index = t.current_file_index + 1;
  file_transfert_init = false;
  file_transfert_deinit = true;
  watchdog_last_index = minus_one;
  watchdog_count = 0;
}

abbrev pub is_none {ℓ} : {A : Type ℓ} → Option A → Bool
is_none none = true
is_none (some a) = false

abbrev pub is_idle : Transfer → Bool
is_idle t = is_none t.current_file && t.send_buf.start == t.send_buf.stop

-- "where are we in transmission ?"
unfoldable pub advance : Answers → Transfer × TransportClient → Transfer × TransportClient
advance a (t, c) =
    if is_idle t
    then (if t.file_transfert_deinit
        then (
          record t {
            file_transfert_deinit = false;
            send_buf = record { value = codes "END\n"; start = 0; stop = 4 };
          },
          c,
        )
        else let (f, c') = next_file a t.current_file_index c in (take_file f t, c'))
    else (t, c)

-- "check watchdog": whether the connection is given up.
unfoldable pub check_watchdog : ℕ → Transfer → Bool × Transfer
check_watchdog now t =
    let n = t.watchdog_count + 1 in
    let same =
      leb_ℤ t.watchdog_last_index (pos t.send_buf.start)
      && leb_ℤ (pos t.send_buf.start) t.watchdog_last_index in
    if same
    then (if n == 10
        then (false, record t { watchdog_count = n; watchdog_timer = now })
        else if n % 10 == 0
        then (ltb (t.watchdog_timer + 30) now, record t { watchdog_count = n })
        else (false, record t { watchdog_count = n }))
    else (false, record t { watchdog_last_index = pos t.send_buf.start; watchdog_count = 0 })

-- "File source minId majId size"; a source that is not there is "Unknown", which the code also keeps
-- in the file.
unfoldable pub header : TransportFile → Bytes
header f =
    let source : Bytes = elim f.id.source [ none ↦ codes "Unknown" | some s ↦ s ] in
    take (buffer_size - 1) (
      codes "File "
      ++ (source
          ++ (codes " "
              ++ (print_int f.id.min_id
                  ++ (codes " "
                      ++ (print_int f.id.maj_id
                          ++ (codes " " ++ (print_int f.size ++ codes "\n"))))))))

abbrev pub whole : Bytes → Buffer
whole bs = record { value = bs; start = 0; stop = length bs }

-- The header of a file, and where its data come from.
unfoldable pub open_file : Option Bytes → TransportFile → Transfer → Transfer
open_file opened f t = record t {
  send_buf = whole (header f);
  fp = elim f.path [ none ↦ none | some p ↦ opened ];
  current_blob = elim f.path [ none ↦ f.blobs | some p ↦ [] ];
  file_transfert_init = true;
}

-- fread, with what is left of the file.
unfoldable pub read_file : Bytes → Transfer → Transfer
read_file rest t =
    if length (take buffer_size rest) == 0
    then record t {
      current_file = none;
      fp = none;
      send_buf = record t.send_buf { start = 0; stop = 0 };
    }
    else record t { send_buf = whole (take buffer_size rest); fp = some (drop buffer_size rest) }

unfoldable pub read_blob : List Bytes → Transfer → Transfer
read_blob [] t = record t { current_file = none }
read_blob (b ∷ bs) t = record t { send_buf = whole b; current_blob = bs }

-- The last buffer has been sent: new data for it. The buffer is empty only with a file at hand.
unfoldable pub fill : Option Bytes → Transfer → Transfer
fill opened t =
    if t.send_buf.start == t.send_buf.stop
    then (if t.file_transfert_init
        then elim t.fp [ none ↦ read_blob t.current_blob t | some rest ↦ read_file rest t ]
        else elim t.current_file [ none ↦ t | some f ↦ open_file opened f t ])
    else t

-- `&buf->value[buf->start]`, as many bytes as are left
unfoldable pub left : Buffer → Bytes
left b = take (b.stop - b.start) (drop b.start b.value)

-- `TR_buffer_send`: whether it returns -1. send takes one byte or more, and not more than are left.
unfoldable pub buffer_send : Sending → Transfer → Bool × Transfer
buffer_send not_writable t = (false, t)
buffer_send poll_error t = (true, t)
buffer_send send_error t = (ltb t.send_buf.start t.send_buf.stop, t)
buffer_send (sent n) t =
    let k = min (n + 1) (t.send_buf.stop - t.send_buf.start) in
    (
      false,
      record t {
        send_buf = record t.send_buf { start = t.send_buf.start + k };
        written = t.written ++ take k (left t.send_buf);
      },
    )

-- Nothing to transmit: a wait for incoming traffic; or the watchdog and new data. Whether the loop is
-- left.
unfoldable pub prepare : Answers → Transfer × TransportClient → Bool × Transfer × TransportClient
prepare a (t, c) =
    if is_idle t
    then (false, t, if a.poll_fails then record c { state = close_client } else c)
    else let (given_up, t') = check_watchdog a.now t in
      (given_up, if given_up then t' else fill a.opened t', c)

-- The second part of a turn, and whether the loop is left.
unfoldable pub transmit : Answers → Transfer × TransportClient → Bool × Transfer × TransportClient
transmit a s =
    let (given_up, t, c) = prepare a (advance a s) in
    let (broken, t') = buffer_send a.sending t in
    if given_up
    then (true, t, record c { state = close_client })
    else if broken || c.stop
    then (true, t', record c { state = close_client })
    else (false, t', c)
