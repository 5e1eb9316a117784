-- ===== src/TransportClient/Replies.antt =====
-- The first part of a turn of the loop in STATE_CONNECTED of src/transport_client.c: what the server
-- sends, and the files that it has acknowledged. Other threads may call between the parts.
use info_logger.Base.{
  ℕ, ◌-◌, Bool, true, false, ◌||◌, List, [], ◌∷◌, ◌++◌, Option, none, some, ◌==◌, if◌then◌else◌,
  take, drop, min, ℤ,
}
use info_logger.CText.{Bytes, codes, equal}
use info_logger.CText.Numbers.{scan_int, is_space, is_digit}
use info_logger.Fifo.Queue
use info_logger.Fifo.Queue.{Queue}
use info_logger.TransportFiles.{TransportFile, file_id_compare}
use info_logger.TransportClient.{TransportClient, is_full}
use info_logger.TransportClient.Transfer.{Transfer}

drop_spaces : Bytes → Bytes
drop_spaces [] = []
drop_spaces (c ∷ cs) = let rest = drop_spaces cs in if is_space c then rest else c ∷ cs

drop_digits : Bytes → Bytes
drop_digits [] = []
drop_digits (c ∷ cs) = let rest = drop_digits cs in if is_digit c then rest else c ∷ cs

drop_sign : Bytes → Bytes
drop_sign [] = []
drop_sign (c ∷ cs) = if c == b'-' || c == b'+' then cs else c ∷ cs

-- `sscanf(s, " %d %d", …)`: the numbers where it returns 2.
unfoldable pub scan_ids : Bytes → Option (ℤ × ℤ)
unfolding drop_spaces drop_digits drop_sign
scan_ids s = elim (scan_int s) [
  | none ↦ none
  | some a ↦ elim (scan_int (drop_digits (drop_sign (drop_spaces s)))) [
    | none ↦ none
    | some b ↦ some (a, b)
  ]
]

unfoldable pub acknowledge : Option (ℤ × ℤ) → Transfer → Transfer
acknowledge none t = t
acknowledge (some (min_id, maj_id)) t = record t { ack_maj = maj_id; ack_min = min_id }

-- A line from the server: "ACK min maj" or "CLOSE", of which the first four letters count.
unfoldable pub parse_reply : Bytes → Transfer × TransportClient → Transfer × TransportClient
parse_reply line (t, c) = (
  if equal (take 4 line) (codes "ACK ") then acknowledge (scan_ids (drop 4 line)) t else t,
  if equal (take 4 line) (codes "CLOS") then record c { server_shutdown_request = true } else c,
)

unfoldable pub parse_replies : List Bytes → Transfer × TransportClient → Transfer × TransportClient
parse_replies [] s = s
parse_replies (l ∷ ls) s = parse_replies ls (parse_reply l s)

abbrev pub is_current : Option TransportFile → TransportFile → Bool
is_current none f = false
is_current (some g) f = f.address == g.address

-- What the loop that removes acknowledged files changes.
pub record Release : Type 0 where
  pub held : List TransportFile
  pub output : Queue TransportFile
  pub acked : List ℤ
  pub index : ℕ

-- The loop that removes acknowledged files. The index stops at 0, as the adjustment behind the loop
-- makes it do.
unfoldable pub release :
    ℕ
    → Bool
    → Option TransportFile
    → ℤ
    → ℤ
    → List TransportFile
    → Queue TransportFile
    → List ℤ
    → ℕ
    → Release
release size has_messages current maj min [] output acked index = record {
  held = [];
  output = output;
  acked = acked;
  index = index;
}
release size has_messages current maj min (f ∷ fs) output acked index =
    let stays : Release = record { held = f ∷ fs; output = output; acked = acked; index = index } in
    let next =
      release size has_messages current maj min fs output (acked ++ f.id.min_id ∷ []) (index - 1) in
    let moved =
      release size has_messages current maj min fs (Queue.push size output f).1 acked (index - 1) in
    if is_current current f
    then stays
    else if file_id_compare f.id.maj_id f.id.min_id maj min
    then stays
    else if has_messages
    then next
    else if is_full size output
    then stays
    else moved

unfoldable pub remove_acknowledged : Transfer × TransportClient → Transfer × TransportClient
remove_acknowledged (t, c) =
    let r =
      release c.queue_length c.has_messages t.current_file t.ack_maj t.ack_min c.input_queue.held
        c.output_queue c.acked t.current_file_index in
    (
      record t { current_file_index = r.index },
      record c {
        input_queue = record { held = r.held; taken = c.input_queue.taken };
        output_queue = r.output;
        acked = r.acked;
      },
    )

-- The first part of a turn, with the lines that the line buffer gives.
unfoldable pub replies : List Bytes → Transfer × TransportClient → Transfer × TransportClient
replies lines s = remove_acknowledged (parse_replies lines s)
