-- ===== src/TransportClient/Wire/Fill.antt =====
-- The buffer and the data of a file in src/transport_client.c: nothing is lost or sent twice.
use info_logger.Base.{
  choose, ℕ, zero, suc, ◌+◌, ◌-◌, ◌≤◌, ◌≡◌, refl, sym, ap, ◌∙◌, Bool, true, false, ◌||◌, List, [],
  ◌∷◌, ◌++◌, Option, none, some, ◌==◌, length, take, drop, min, arith, ◌%◌, ℤ, pos, minus_one, inl,
  inr, Bool-cases, append_assoc, append-nil, take-append-drop,
}
use info_logger.CText.{Bytes}
use info_logger.TransportFiles.{TransportFile}
use info_logger.TransportClient.Transfer.{Buffer, Transfer}
use info_logger.TransportClient.Transmit.{
  is_idle, check_watchdog, header, whole, open_file, read_file, read_blob, fill, left, buffer_send,
  Sending, sent, not_writable, poll_error, send_error,
}
use info_logger.TransportClient.Wire.{
  joined, frame, body, rest_of, pending, opens, end_of_file, frames, IsSettled, IsClosing,
}

pub left-empty : (b : Buffer) → (b.start == b.stop) ≡ true → left b ≡ []
unfolding left
left-empty b h = let e : b.stop - b.start ≡ 0 = ground arith in rw e refl

pub take_all : (n : ℕ) (bs : Bytes) → n ≡ length bs → take n bs ≡ bs
take_all zero [] h = refl
take_all (suc n) [] h = refl
take_all zero (c ∷ cs) h = absurd (omega arith)
take_all (suc n) (c ∷ cs) h = ap (◌∷◌ c) (take_all n cs (omega arith))

pub left-whole : (bs : Bytes) → left (whole bs) ≡ bs
unfolding left
left-whole bs = take_all (length bs - 0) bs (omega arith)

pub drop-add : (m n k : ℕ) (xs : Bytes) → k ≡ m + n → drop k xs ≡ drop n (drop m xs)
drop-add zero n k xs h = ap (λ i. drop i xs) (omega arith)
drop-add (suc m) n zero xs h = absurd (omega arith)
drop-add (suc m) zero (suc k) [] h = refl
drop-add (suc m) (suc n) (suc k) [] h = refl
drop-add (suc m) n (suc k) (x ∷ xs) h = drop-add m n k xs (omega arith)

pub take_split :
    (k m n : ℕ) (xs : Bytes) → n ≡ k + m → take k (take n xs) ++ take m (drop k xs) ≡ take n xs
take_split zero m n xs h = ap (λ i. take i xs) (omega arith)
take_split (suc k) m zero xs h = absurd (omega arith)
take_split (suc k) zero (suc n) [] h = refl
take_split (suc k) (suc m) (suc n) [] h = refl
take_split (suc k) m (suc n) (x ∷ xs) h = ap (◌∷◌ x) (take_split k m n xs (omega arith))

pub left-split :
    (k : ℕ) (b : Buffer)
    → k ≤ b.stop - b.start
    → take k (left b) ++ left (record b { start = b.start + k }) ≡ left b
unfolding left
left-split k b h =
    ap (λ xs. take k (left b) ++ take (b.stop - (b.start + k)) xs)
      (drop-add b.start k (b.start + k) b.value (omega arith))
    ∙ take_split k (b.stop - (b.start + k)) (b.stop - b.start) (drop b.start b.value) (omega arith)

-- Nothing is lost between the buffer and the socket.
pub buffer_send-pending :
    (s : Sending) (t : Transfer)
    → (buffer_send s t).1.written ++ pending (buffer_send s t).1 ≡ t.written ++ pending t
unfolding buffer_send
buffer_send-pending not_writable t = refl
buffer_send-pending poll_error t = refl
buffer_send-pending send_error t = refl
buffer_send-pending (sent n) t =
    let k = min (n + 1) (t.send_buf.stop - t.send_buf.start) in
    let after = left (record t.send_buf { start = t.send_buf.start + k }) in
    append_assoc t.written (take k (left t.send_buf)) (after ++ rest_of t)
    ∙ ap (λ xs. t.written ++ xs)
        (sym (append_assoc (take k (left t.send_buf)) after (rest_of t))
          ∙ ap (λ xs. xs ++ rest_of t) (left-split k t.send_buf (omega arith)))

-- A transfer with other variables of the watchdog.
abbrev pub watched : ℤ → ℕ → ℕ → Transfer → Transfer
watched last n timer t = record t {
  watchdog_last_index = last;
  watchdog_count = n;
  watchdog_timer = timer;
}

pub check_watchdog-watched :
    (P : Bool × Transfer → Type 0) (now : ℕ) (t : Transfer)
    → ((b : Bool) (last : ℤ) (n timer : ℕ) → P (b, watched last n timer t))
    → P (check_watchdog now t)
unfolding check_watchdog
check_watchdog-watched P now t h =
    let n = t.watchdog_count + 1 in
    choose P _ _ _
      (choose P (n == 10) _ _ (h false t.watchdog_last_index n now) (
        choose P (n % 10 == 0) _ _ (h _ t.watchdog_last_index n t.watchdog_timer)
          (h false t.watchdog_last_index n t.watchdog_timer)))
      (h false (pos t.send_buf.start) 0 t.watchdog_timer)

pub check_watchdog-fresh :
    (now : ℕ) (t : Transfer) → t.watchdog_last_index ≡ minus_one → (check_watchdog now t).0 ≡ false
unfolding check_watchdog
check_watchdog-fresh now t h = rw h (ground arith)

-- The data of a file that has just been opened.
pub body-content :
    (f : TransportFile) (p : Option Bytes) (blobs : List Bytes) (opened : Option Bytes)
    → body
        (some f)
        (elim p [ none ↦ none | some q ↦ opened ])
        (elim p [ none ↦ blobs | some q ↦ [] ])
      ≡ elim p [ none ↦ joined blobs | some q ↦ elim opened [ none ↦ [] | some d ↦ d ] ]
body-content f none blobs opened = refl
body-content f (some q) blobs none = refl
body-content f (some q) blobs (some d) = refl

-- The same with a file at hand.
abbrev pub at_file : TransportFile → List Bytes → Bool → Option Bytes → Transfer → Transfer
at_file f blobs init fp t = record t {
  current_file = some f;
  current_blob = blobs;
  file_transfert_init = init;
  file_transfert_deinit = true;
  fp = fp;
}

module _ (opened : Option Bytes) (t : Transfer)
    (sent_all : (t.send_buf.start == t.send_buf.stop) ≡ true) where
  gone : left t.send_buf ≡ []
  gone = left-empty t.send_buf sent_all

  unchanged : (xs : Bytes) → xs ≡ (left t.send_buf ++ xs) ++ []
  unchanged xs = ap (λ ys. ys ++ xs) (sym gone) ∙ sym (append-nil (left t.send_buf ++ xs))

  read_file-pending :
      (f : TransportFile) (blobs : List Bytes) (rest : Bytes)
      → pending (read_file rest (at_file f blobs true (some rest) t)) ≡ rest ++ end_of_file
  unfolding read_file
  read_file-pending f blobs [] =
      ap (λ xs. xs ++ end_of_file) (left-empty (record t.send_buf { start = 0; stop = 0 }) refl)
  read_file-pending f blobs (c ∷ cs) =
      let bs = take 2500 (c ∷ cs) in
      let more : (length bs == 0) ≡ false = ground arith in
      rw more (
        ap (λ xs. xs ++ (drop 2500 (c ∷ cs) ++ end_of_file)) (left-whole bs)
        ∙ (sym (append_assoc bs (drop 2500 (c ∷ cs)) end_of_file)
            ∙ ap (λ xs. xs ++ end_of_file) (take-append-drop 2500 (c ∷ cs))))

  fill-frames :
      (f : TransportFile) (blobs : List Bytes) (init : Bool) (fp : Option Bytes)
      → let s = at_file f blobs init fp t in
        pending (fill opened s) ≡ pending s ++ frames (opens opened s)
  unfolding fill opens open_file read_blob
  fill-frames f blobs false fp =
      rw (sent_all, gone)
        (ap
            (λ xs.
              xs
              ++ (body (some f) (elim f.path [ none ↦ none | some p ↦ opened ])
                    (elim f.path [ none ↦ f.blobs | some p ↦ [] ])
                  ++ end_of_file))
            (left-whole (header f))
          ∙ ap (λ xs. header f ++ (xs ++ end_of_file)) (body-content f f.path f.blobs opened)
          ∙ sym (append-nil (frame (f, opened))))
  fill-frames f [] true none = rw (sent_all, gone)
  fill-frames f (b ∷ bs) true none = rw sent_all (
      ap (λ xs. xs ++ (joined bs ++ end_of_file)) (left-whole b)
      ∙ (sym (append_assoc b (joined bs) end_of_file)
          ∙ unchanged ((b ++ joined bs) ++ end_of_file)))
  fill-frames f blobs true (some rest) =
      rw sent_all (read_file-pending f blobs rest ∙ unchanged (rest ++ end_of_file))

  fill-IsSettled :
      (f : TransportFile) (blobs : List Bytes) (init : Bool) (fp : Option Bytes)
      → IsSettled (fill opened (at_file f blobs init fp t))
  unfolding fill open_file read_blob read_file
  fill-IsSettled f blobs false fp = rw sent_all (refl, refl)
  fill-IsSettled f [] true none = rw sent_all refl
  fill-IsSettled f (b ∷ bs) true none = rw sent_all (refl, refl)
  fill-IsSettled f blobs true (some rest) =
      rw sent_all (choose (λ s. IsSettled s) (length (take 2500 rest) == 0) _ _ refl (refl, refl))

-- A transfer with these variables.
abbrev pub with_file :
    Option TransportFile → List Bytes → Bool → Bool → Option Bytes → Transfer → Transfer
with_file current blobs init deinit fp t = record t {
  current_file = current;
  current_blob = blobs;
  file_transfert_init = init;
  file_transfert_deinit = deinit;
  fp = fp;
}

abbrev pub Filled : Option Bytes → Transfer → Type 0
Filled opened t =
    (pending (fill opened t) ≡ pending t ++ frames (opens opened t)) × IsSettled (fill opened t)

pub fill-rest :
    (opened : Option Bytes) (t : Transfer)
    → (t.send_buf.start == t.send_buf.stop) ≡ false
    → IsSettled t
    → Filled opened t
unfolding fill opens
fill-rest opened t more s = rw more (sym (append-nil (pending t)), s)

pub opened_before : (init : Bool) → (init || false) ≡ true → init ≡ true
opened_before true h = refl
opened_before false h = h

pub fill-Filled :
    (opened : Option Bytes) (t : Transfer) (current : Option TransportFile) (blobs : List Bytes)
    (init deinit : Bool) (fp : Option Bytes)
    → let s = with_file current blobs init deinit fp t in
      IsClosing s → is_idle s ≡ false → Filled opened s
fill-Filled opened t none blobs init deinit fp h busy =
    fill-rest opened (with_file none blobs init deinit fp t) busy refl
fill-Filled opened t (some f) blobs init false fp h busy = cc h.1
fill-Filled opened t (some f) blobs init true fp h busy =
    elim (Bool-cases (t.send_buf.start == t.send_buf.stop)) [
      | inl e ↦ (fill-frames opened t e f blobs init fp, fill-IsSettled opened t e f blobs init fp)
      | inr e ↦
          fill-rest opened (at_file f blobs init fp t) e ((opened_before init (rw e at h.0), refl))
    ]
