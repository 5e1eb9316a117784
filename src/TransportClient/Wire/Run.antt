-- ===== src/TransportClient/Wire/Run.antt =====
-- The bytes that go to the socket in src/transport_client.c, from the start of a connection on.
use info_logger.Base.{
  choose, ◌≡◌, refl, sym, ap, ◌∙◌, Bool, true, false, List, [], ◌∷◌, ◌++◌, Option, none, some,
  if◌then◌else◌, take, drop, ℤ, inl, inr, append_assoc, append-nil,
}
use info_logger.CText.{Bytes, codes, equal}
use info_logger.TransportFiles.{TransportFile}
use info_logger.TransportClient.{TransportClient}
use info_logger.TransportClient.Transfer.{Transfer, begin}
use info_logger.TransportClient.Transmit.{left}
use info_logger.TransportClient.Wire.{frame, pending, taken, frames, IsSettled}
use info_logger.TransportClient.Wire.Turn.{transmit-Transmitted, Transmitted}
use info_logger.TransportClient.Steps.{
  Step, receive, proceed, add_file, last_sent, unacknowledged, request_stop, disconnected, step,
  run,
}
use info_logger.TransportClient.Replies.{
  replies, scan_ids, acknowledge, parse_reply, parse_replies, remove_acknowledged,
}

-- The files that a step takes.
unfoldable pub step_takes : Step → Transfer × TransportClient → List (TransportFile × Option Bytes)
step_takes (proceed a) s = taken a s
step_takes _ s = []

-- The files that are taken while the steps run.
unfoldable pub takes : List Step → Transfer × TransportClient → List (TransportFile × Option Bytes)
takes [] s = []
takes (x ∷ xs) s =
    let r = step x s in
    let rest = takes xs (r.1, r.2) in step_takes x s ++ (if r.0 then [] else rest)

acknowledge-acks :
    (P : Transfer → Type 0) (ids : Option (ℤ × ℤ)) (t : Transfer)
    → ((maj min : ℤ) → P (record t { ack_maj = maj; ack_min = min }))
    → (maj min : ℤ) → P (record (acknowledge ids t) { ack_maj = maj; ack_min = min })
unfolding acknowledge
acknowledge-acks P none t h = h
acknowledge-acks P (some (min_id, maj_id)) t h = h

-- The acknowledgements that are read change nothing else of a transfer.
pub parse_replies-acks :
    (P : Transfer → Type 0) (lines : List Bytes) (t : Transfer) (c : TransportClient)
    → ((maj min : ℤ) → P (record t { ack_maj = maj; ack_min = min }))
    → P (parse_replies lines (t, c)).0
unfolding parse_replies parse_reply
parse_replies-acks P [] t c h = h t.ack_maj t.ack_min
parse_replies-acks P (l ∷ ls) t c h =
    parse_replies-acks P ls (parse_reply l (t, c)).0 (parse_reply l (t, c)).1 (
      choose (λ (u : Transfer). (maj min : ℤ) → P (record u { ack_maj = maj; ack_min = min }))
        (equal (take 4 l) (codes "ACK ")) _ _ (acknowledge-acks P (scan_ids (drop 4 l)) t h) h)

step-Transmitted :
    (x : Step) (s : Transfer × TransportClient)
    → IsSettled s.0
    → Transmitted s.0 (step_takes x s) (step x s).0 (step x s).1
unfolding step step_takes replies remove_acknowledged
step-Transmitted (receive lines) (t, c) h =
    parse_replies-acks
      (λ u.
        Transmitted t [] false
          (record u { current_file_index = (replies lines (t, c)).0.current_file_index }))
      lines t c (λ maj min. (sym (append-nil (t.written ++ pending t)), inr h))
step-Transmitted (proceed a) (t, c) h = transmit-Transmitted a t c h
step-Transmitted (add_file f) (t, c) h = (sym (append-nil (t.written ++ pending t)), inr h)
step-Transmitted last_sent (t, c) h = (sym (append-nil (t.written ++ pending t)), inr h)
step-Transmitted unacknowledged (t, c) h = (sym (append-nil (t.written ++ pending t)), inr h)
step-Transmitted request_stop (t, c) h = (sym (append-nil (t.written ++ pending t)), inr h)
step-Transmitted disconnected (t, c) h = (sym (append-nil (t.written ++ pending t)), inr h)

frames-append :
    (xs ys : List (TransportFile × Option Bytes)) → frames (xs ++ ys) ≡ frames xs ++ frames ys
frames-append [] ys = refl
frames-append (x ∷ xs) ys =
    ap (λ zs. frame x ++ zs) (frames-append xs ys)
    ∙ sym (append_assoc (frame x) (frames xs) (frames ys))

-- A step, and what is run behind it.
frames_step :
    (is_left : Bool) (t : Transfer) (s s' : Transfer × TransportClient)
    (fs gs : List (TransportFile × Option Bytes))
    → Transmitted t fs is_left s.0
    → (IsSettled s.0 → s'.0.written ++ pending s'.0 ≡ (s.0.written ++ pending s.0) ++ frames gs)
    → (if is_left then s else s').0.written ++ pending (if is_left then s else s').0
      ≡ (t.written ++ pending t) ++ frames (fs ++ (if is_left then [] else gs))
frames_step true t s s' fs gs h rest =
    h.0 ∙ ap (λ l. (t.written ++ pending t) ++ frames l) (sym (append-nil fs))
frames_step false t s s' fs gs (e, inl bad) rest = cc bad
frames_step false t s s' fs gs (e, inr settled) rest =
    rest settled
    ∙ (ap (λ xs. xs ++ frames gs) e
        ∙ (append_assoc (t.written ++ pending t) (frames fs) (frames gs)
            ∙ ap (λ xs. (t.written ++ pending t) ++ xs) (sym (frames-append fs gs))))

run-frames :
    (xs : List Step) (s : Transfer × TransportClient)
    → IsSettled s.0
    → (run xs s).0.written ++ pending (run xs s).0
      ≡ (s.0.written ++ pending s.0) ++ frames (takes xs s)
unfolding run takes
run-frames [] s h = sym (append-nil (s.0.written ++ pending s.0))
run-frames (x ∷ xs) s h =
    let r = step x s in
    frames_step r.0 s.0 (r.1, r.2) (run xs (r.1, r.2)) (step_takes x s) (takes xs (r.1, r.2))
      (step-Transmitted x s h) (run-frames xs (r.1, r.2))

-- From the start of a connection on, whatever the server answers, however many bytes each send takes,
-- and whatever other threads do: what has been written, with what is still to be written of the files
-- at hand, is the frames of the files that were taken, one behind the other: for each a header, its
-- data and "END".
pub run-begin :
    (xs : List Step) (ack_maj ack_min : ℤ) (c : TransportClient)
    → (run xs (begin ack_maj ack_min, c)).0.written ++ pending (run xs (begin ack_maj ack_min, c)).0
      ≡ frames (takes xs (begin ack_maj ack_min, c))
unfolding begin left
run-begin xs ack_maj ack_min c = run-frames xs (begin ack_maj ack_min, c) refl
