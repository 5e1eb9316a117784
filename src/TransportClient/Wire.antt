-- ===== src/TransportClient/Wire.antt =====
-- What the client of src/transport_client.c is to write to its socket while it is connected: the files
-- that it takes, each as a frame.
pub mod Fill
pub mod Turn
pub mod Run
use info_logger.Base.{
  ℕ, zero, suc, ◌+◌, ◌-◌, ◌≤◌, ◌≡◌, ◌≢◌, refl, sym, ap, ◌∙◌, Bool, true, false, not, ◌&&◌, ◌||◌,
  List, [], ◌∷◌, ◌++◌, Option, none, some, ◌==◌, if◌then◌else◌, length, take, drop, min, arith, ◌%◌,
  ℤ, pos, minus_one, inl, inr, ◌⊎◌, Bool-cases, map, append_assoc, append-nil, take-append-drop,
  ==_iff, tests,
}
use info_logger.CText.{Bytes, codes}
use info_logger.TransportFiles.{TransportFile}
use info_logger.TransportClient.{TransportClient, close_client}
use info_logger.TransportClient.Transfer.{Buffer, Transfer, begin}
use info_logger.TransportClient.Transmit.{
  Answers, next_file, take_file, is_idle, is_none, advance, check_watchdog, header, whole,
  open_file, read_file, read_blob, fill, left, buffer_send, Sending, sent, not_writable, poll_error,
  send_error, prepare, transmit,
}

abbrev pub joined : List Bytes → Bytes
joined [] = []
joined (b ∷ bs) = b ++ joined bs

abbrev pub end_of_file : Bytes
end_of_file = codes "END\n"

-- The data of a file, which is on disk if it has a path.
abbrev pub content : TransportFile → Option Bytes → Bytes
content f opened = elim f.path [
  | none ↦ joined f.blobs
  | some p ↦ elim opened [ none ↦ [] | some d ↦ d ]
]

-- A file on the wire.
abbrev pub frame : TransportFile × Option Bytes → Bytes
frame (f, opened) = header f ++ (content f opened ++ end_of_file)

-- What is left of the data of the current file.
abbrev pub body : Option TransportFile → Option Bytes → List Bytes → Bytes
body none fp blobs = []
body (some f) none blobs = joined blobs
body (some f) (some rest) blobs = rest

abbrev pub closing : Bool → Bytes
closing false = []
closing true = end_of_file

-- What follows the buffer; nothing as long as the header has not been made.
abbrev pub behind : Option TransportFile → Bool → Bool → Option Bytes → List Bytes → Bytes
behind none init deinit fp blobs = closing deinit
behind (some f) false deinit fp blobs = []
behind (some f) true deinit fp blobs = body (some f) fp blobs ++ closing deinit

abbrev pub rest_of : Transfer → Bytes
rest_of t = behind t.current_file t.file_transfert_init t.file_transfert_deinit t.fp t.current_blob

-- What is still to be written of the files that were taken.
abbrev pub pending : Transfer → Bytes
pending t = left t.send_buf ++ rest_of t

-- The file that a turn takes, with what fopen would give.
abbrev pub opt_list : Option TransportFile → Option Bytes → List (TransportFile × Option Bytes)
opt_list none opened = []
opt_list (some f) opened = (f, opened) ∷ []

unfoldable pub taken : Answers → Transfer × TransportClient → List (TransportFile × Option Bytes)
taken a (t, c) =
    if is_idle t && not t.file_transfert_deinit
    then opt_list (next_file a t.current_file_index c).0 a.opened
    else []

-- A header is made in this turn.
unfoldable pub opens : Option Bytes → Transfer → List (TransportFile × Option Bytes)
opens opened t =
    if t.send_buf.start == t.send_buf.stop && not t.file_transfert_init
    then opt_list t.current_file opened
    else []

abbrev pub frames : List (TransportFile × Option Bytes) → Bytes
frames fs = joined (map (λ p. frame p) fs)

-- At the start of a turn: a file at hand has been opened, and its end is to be sent.
abbrev pub Settled : Option TransportFile → Bool → Bool → Type 0
Settled none init deinit = true ≡ true
Settled (some f) init deinit = (init ≡ true) × (deinit ≡ true)

abbrev pub IsSettled : Transfer → Type 0
IsSettled t = Settled t.current_file t.file_transfert_init t.file_transfert_deinit

-- In the middle of a turn: a file that is not opened has an empty buffer.
abbrev pub Closing : Option TransportFile → Bool → Bool → Bool → Type 0
Closing none init deinit empty = true ≡ true
Closing (some f) init deinit empty = ((init || empty) ≡ true) × (deinit ≡ true)

abbrev pub IsClosing : Transfer → Type 0
IsClosing t =
    Closing t.current_file t.file_transfert_init t.file_transfert_deinit
      (t.send_buf.start == t.send_buf.stop)
