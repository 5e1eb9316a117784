-- ===== src/TransportClient/Order/Run.antt =====
-- The queue of the client of src/transport_client.c while it is connected.
use info_logger.Base.{
  ℕ, ◌≤◌, ◌≡◌, refl, sym, ap, ◌∙◌, Bool, true, false, List, [], ◌∷◌, ◌++◌, ltb, if◌then◌else◌,
  length, drop, arith, inl, inr, Bool-cases, append_assoc, append-nil, length-append, ltb→lt,
}
use info_logger.Fifo.Queue
use info_logger.Fifo.Queue.{Queue}
use info_logger.TransportFiles.{TransportFile}
use info_logger.TransportClient.{TransportClient, queue_add_file, get_last_file_sent}
use info_logger.TransportClient.Transfer.{Transfer}
use info_logger.TransportClient.Transmit.{transmit, advance}
use info_logger.TransportClient.Steps.{
  Step, receive, proceed, add_file, last_sent, unacknowledged, request_stop, disconnected, step,
  run,
}
use info_logger.TransportClient.Order.{
  waiting, IsOrdered, are_left, step_enters, step_passes, Ordered,
}
use info_logger.TransportClient.Order.Removal.{drop-concat, replies-Removed}
use info_logger.TransportClient.Order.Turn.{advance-Ordered, transmit-Stays, Stays}

Stays-Ordered :
    (x : Step) (s : Transfer × TransportClient) (t u : Transfer) (c d : TransportClient)
    → Ordered x s (t, c)
    → Stays (t, c) (u, d)
    → Ordered x s (u, d)
Stays-Ordered x s t u c d h (index, (input, output, size)) =
    let same : drop u.current_file_index d.input_queue.held ≡ waiting (t, c) =
      ap (λ n. drop n d.input_queue.held) index
      ∙ ap (λ (q : Queue TransportFile). drop t.current_file_index q.held) input in
    let held = ap (λ (q : Queue TransportFile). length q.held) input in
    let sent_files = ap (λ (q : Queue TransportFile). length q.held) output in
    (
      h.0 ∙ ap (λ fs. step_passes x s ++ fs) (sym same),
      record {
        in_queue = omega (arith, h.1.in_queue, held, index);
        fits = omega (arith, h.1.fits, held, size);
        bounded = omega (arith, h.1.bounded, sent_files, size);
      },
    )

push-fits :
    (n size : ℕ) (q : Queue TransportFile) (f : TransportFile)
    → n ≤ length q.held
    → length q.held ≤ size
    → (drop n q.held ++ (if ltb (length q.held) size then f ∷ [] else [])
        ≡ drop n (Queue.push size q f).1.held)
      × (length (Queue.push size q f).1.held ≤ size)
      × (n ≤ length (Queue.push size q f).1.held)
push-fits n size q f h k =
    let grown = length-append q.held (f ∷ []) in
    elim (Bool-cases (ltb (length q.held) size)) [
      | inl e ↦ rw e (
        sym (drop-concat n q.held (f ∷ []) h),
        omega (arith, grown, ltb→lt (length q.held) size e),
        omega (arith, grown, h),
      )
      | inr e ↦ rw e (append-nil (drop n q.held), k, h)
    ]

pop-shrinks : (n : ℕ) (xs : List TransportFile) → length (Queue.pop n xs).1.held ≤ length xs
pop-shrinks n [] = omega arith
pop-shrinks n (x ∷ xs) = omega arith

step-Ordered :
    (x : Step) (s : Transfer × TransportClient)
    → IsOrdered s
    → are_left (x ∷ []) ≡ true
    → Ordered x s ((step x s).1, (step x s).2)
unfolding step step_enters step_passes queue_add_file get_last_file_sent
step-Ordered (receive lines) (t, c) h q =
    let r = replies-Removed lines t c h in (append-nil (waiting (t, c)) ∙ r.0, r.1)
step-Ordered (proceed a) (t, c) h q =
    Stays-Ordered (proceed a) (t, c) (advance a (t, c)).0 (transmit a (t, c)).1 (advance a (t, c)).1
      (transmit a (t, c)).2 (advance-Ordered a t c h) (transmit-Stays a (t, c))
step-Ordered (add_file f) (t, c) h q =
    let r = push-fits t.current_file_index c.queue_length c.input_queue f h.in_queue h.fits in
    (r.0, record { in_queue = r.2; fits = r.1; bounded = h.bounded })
step-Ordered last_sent (t, c) h q = (
  append-nil (waiting (t, c)),
  record {
    in_queue = h.in_queue;
    fits = h.fits;
    bounded = omega (arith, h.bounded, pop-shrinks c.output_queue.taken c.output_queue.held);
  },
)
step-Ordered unacknowledged (t, c) h q = cc q
step-Ordered request_stop (t, c) h q = (
  append-nil (waiting (t, c)),
  record { in_queue = h.in_queue; fits = h.fits; bounded = h.bounded },
)
step-Ordered disconnected (t, c) h q = (
  append-nil (waiting (t, c)),
  record { in_queue = h.in_queue; fits = h.fits; bounded = h.bounded },
)

are_left-head :
    (x : Step) (xs : List Step)
    → are_left (x ∷ xs) ≡ true
    → (are_left (x ∷ []) ≡ true) × (are_left xs ≡ true)
are_left-head (receive lines) xs q = (refl, q)
are_left-head (proceed a) xs q = (refl, q)
are_left-head (add_file f) xs q = (refl, q)
are_left-head last_sent xs q = (refl, q)
are_left-head unacknowledged xs q = cc q
are_left-head request_stop xs q = (refl, q)
are_left-head disconnected xs q = (refl, q)

-- The files that enter the queue while the steps run.
unfoldable pub enters : List Step → Transfer × TransportClient → List TransportFile
enters [] s = []
enters (x ∷ xs) s =
    let r = step x s in
    let rest = enters xs (r.1, r.2) in step_enters x s ++ (if r.0 then [] else rest)

-- The files that are taken, or removed before they were taken, while the steps run.
unfoldable pub passes : List Step → Transfer × TransportClient → List TransportFile
passes [] s = []
passes (x ∷ xs) s =
    let r = step x s in
    let rest = passes xs (r.1, r.2) in step_passes x s ++ (if r.0 then [] else rest)

-- A step, and what is run behind it.
queue_step :
    (is_left : Bool) (w e p e' p' : List TransportFile) (s s' : Transfer × TransportClient)
    → w ++ e ≡ p ++ waiting s
    → IsOrdered s
    → (waiting s ++ e' ≡ p' ++ waiting s') × IsOrdered s'
    → (w ++ (e ++ (if is_left then [] else e'))
        ≡ (p ++ (if is_left then [] else p')) ++ waiting (if is_left then s else s'))
      × IsOrdered (if is_left then s else s')
queue_step true w e p e' p' s s' h o r =
    (ap (λ l. w ++ l) (append-nil e) ∙ (h ∙ ap (λ l. l ++ waiting s) (sym (append-nil p))), o)
queue_step false w e p e' p' s s' h o r = (
  sym (append_assoc w e e')
      ∙ (ap (λ l. l ++ e') h
          ∙ (append_assoc p (waiting s) e'
              ∙ (ap (λ l. p ++ l) r.0 ∙ sym (append_assoc p p' (waiting s'))))),
  r.1,
)

-- Whatever the server answers, and as long as no other thread takes files back out of the queue with
-- TR_client_get_unacknowledged, whatever else other threads do: the files that wait, with those that enter the
-- queue, are those that are taken or removed, and then those that still wait, in one order: none is
-- passed over or taken twice. The queues stay within their bounds.
pub run-Ordered :
    (xs : List Step) (s : Transfer × TransportClient)
    → IsOrdered s
    → are_left xs ≡ true
    → (waiting s ++ enters xs s ≡ passes xs s ++ waiting (run xs s)) × IsOrdered (run xs s)
unfolding run enters passes
run-Ordered [] s h q = (append-nil (waiting s), h)
run-Ordered (x ∷ xs) s h q =
    let r = step x s in
    let o : Ordered x s (r.1, r.2) = step-Ordered x s h (are_left-head x xs q).0 in
    queue_step r.0 (waiting s) (step_enters x s) (step_passes x s) (enters xs (r.1, r.2))
      (passes xs (r.1, r.2)) (r.1, r.2) (run xs (r.1, r.2)) o.0 o.1
      (run-Ordered xs (r.1, r.2) o.1 (are_left-head x xs q).1)
