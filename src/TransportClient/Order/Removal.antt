-- ===== src/TransportClient/Order/Removal.antt =====
-- What the removal of acknowledged files in src/transport_client.c leaves in the queue.
use info_logger.Base.{
  choose, ℕ, zero, suc, ◌+◌, ◌-◌, ◌≤◌, ◌≡◌, refl, sym, ap, ◌∙◌, Bool, List, [], ◌∷◌, ◌++◌, none,
  some, length, take, drop, get_elem?, arith, length-append, take-append_self,
}
use info_logger.CText.{Bytes, codes, equal}
use info_logger.TransportFiles.{TransportFile}
use info_logger.TransportClient.{TransportClient}
use info_logger.TransportClient.Transfer.{Transfer}
use info_logger.TransportClient.Replies.{
  release, remove_acknowledged, parse_replies, parse_reply, replies,
}
use info_logger.TransportClient.Released.{Released, release-Released}
use info_logger.TransportClient.Wire.Run.{parse_replies-acks}
use info_logger.TransportClient.Order.{waiting, IsOrdered}

pub drop-concat :
    (i : ℕ) (xs ys : List TransportFile) → i ≤ length xs → drop i (xs ++ ys) ≡ drop i xs ++ ys
drop-concat zero xs ys h = refl
drop-concat (suc i) [] ys h = absurd (omega arith)
drop-concat (suc i) (x ∷ xs) ys h = drop-concat i xs ys (omega arith)

pub drop-removed :
    (i k : ℕ) (gone held : List TransportFile)
    → k ≡ i - length gone
    → drop i (gone ++ held) ≡ drop i gone ++ drop k held
drop-removed zero k gone held h =
    let e : 0 ≡ k = omega (arith, h) in ap (λ n. gone ++ drop n held) e
drop-removed (suc i) k [] held h = let e : suc i ≡ k = omega (arith, h) in ap (λ n. drop n held) e
drop-removed (suc i) k (x ∷ gone) held h = drop-removed i k gone held (omega (arith, h))

pub drop-get_elem? :
    (i k : ℕ) (xs : List TransportFile) (x : TransportFile)
    → get_elem? xs i ≡ some x
    → k ≡ i + 1
    → (drop i xs ≡ x ∷ drop k xs) × (k ≤ length xs)
drop-get_elem? i k [] x h e = cc h
drop-get_elem? zero k (y ∷ ys) x h e = (ap (λ l. l) (ground arith), omega arith)
drop-get_elem? (suc i) zero (y ∷ ys) x h e = absurd (omega arith)
drop-get_elem? (suc i) (suc k) (y ∷ ys) x h e =
    let r = drop-get_elem? i k ys x h (omega arith) in (r.0, omega (arith, r.1))

pub drop_past : (i : ℕ) (xs : List TransportFile) → get_elem? xs i ≡ none → drop i xs ≡ []
drop_past zero [] h = refl
drop_past (suc i) [] h = refl
drop_past zero (x ∷ xs) h = cc h
drop_past (suc i) (x ∷ xs) h = drop_past i xs h

pub parse_replies-queues :
    (P : TransportClient → Type 0) (lines : List Bytes) (t : Transfer) (c : TransportClient)
    → ((b : Bool) → P (record c { server_shutdown_request = b }))
    → P (parse_replies lines (t, c)).1
unfolding parse_replies parse_reply
parse_replies-queues P [] t c h = h c.server_shutdown_request
parse_replies-queues P (l ∷ ls) t c h =
    parse_replies-queues P ls (parse_reply l (t, c)).0 (parse_reply l (t, c)).1 (
      choose (λ (d : TransportClient). (b : Bool) → P (record d { server_shutdown_request = b }))
        (equal (take 4 l) (codes "CLOS")) _ _ (λ b. h b) h)

-- What the removal of acknowledged files does to the files that are waiting.
abbrev pub Removed : Transfer × TransportClient → Transfer × TransportClient → Type 0
Removed (t, c) (t', c') =
    (waiting (t, c)
      ≡ drop t.current_file_index
          (take (length c.input_queue.held - length c'.input_queue.held) c.input_queue.held)
        ++ waiting (t', c'))
    × IsOrdered (t', c')

pub remove_acknowledged-Removed :
    (t : Transfer) (c : TransportClient)
    → IsOrdered (t, c)
    → Removed (t, c) (remove_acknowledged (t, c))
unfolding remove_acknowledged
remove_acknowledged-Removed t c h =
    let held = c.input_queue.held in
    let i = t.current_file_index in
    let r =
      release c.queue_length c.has_messages t.current_file t.ack_maj t.ack_min held c.output_queue
        c.acked i in
    let R : Released c.queue_length c.has_messages t.current_file t.ack_maj t.ack_min held
        c.output_queue c.acked i r =
      release-Released c.queue_length t.current_file t.ack_maj t.ack_min c.has_messages held
        c.output_queue c.acked i h.bounded in
    let long : length held ≡ length R.gone + length r.held =
      ap (λ (xs : List TransportFile). length xs) R.in_front ∙ length-append R.gone r.held in
    let front : take (length held - length r.held) held ≡ R.gone =
      (let e : length held - length r.held ≡ length R.gone = omega (arith, long) in
        ap (λ n. take n held) e
        ∙ (ap (λ xs. take (length R.gone) xs) R.in_front ∙ take-append_self R.gone r.held)) in
    (
      ap (λ xs. drop i xs) R.in_front
          ∙ (drop-removed i r.index R.gone r.held R.counted
              ∙ ap (λ xs. drop i xs ++ drop r.index r.held) (sym front)),
      record {
        in_queue = omega (arith, R.counted, long, h.in_queue);
        fits = omega (arith, long, h.fits);
        bounded = R.bounded;
      },
    )

pub replies-Removed :
    (lines : List Bytes) (t : Transfer) (c : TransportClient)
    → IsOrdered (t, c)
    → Removed (t, c) (replies lines (t, c))
unfolding replies
replies-Removed lines t c h =
    parse_replies-queues
      (λ d. Removed (t, c) (remove_acknowledged ((parse_replies lines (t, c)).0, d))) lines t c
      (λ b.
        parse_replies-acks
          (λ u. Removed (t, c) (remove_acknowledged (u, record c { server_shutdown_request = b })))
          lines t c
          (λ maj min.
            remove_acknowledged-Removed (record t { ack_maj = maj; ack_min = min })
              (record c { server_shutdown_request = b })
              (record { in_queue = h.in_queue; fits = h.fits; bounded = h.bounded })))
