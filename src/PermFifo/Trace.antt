-- ===== src/PermFifo/Trace.antt =====
-- Every sequence of calls of a FIFO of src/permanentFIFO.c answers as the queue of PermFifo/Queue.antt.
use info_logger.Base.{
  ℕ, zero, suc, ◌+◌, ◌≤◌, ◌<◌, ◌≡◌, refl, sym, ap, subst, ◌∙◌, true, false, Option, List, [], ◌∷◌,
  ◌++◌, some, none, arith, inl, inr, leb, if◌then◌else◌, length, ℤ, pos, negsuc, Bool-cases, ◌^◌,
  length-concat, length-append, lt→ltb, le→ltb_false,
}
use info_logger.CText.{Bytes}
use info_logger.CircularTable.{Item, empty_item, succeeded}
use info_logger.CircularTable.Holds.{take_first-nil}
use info_logger.PermFifo.{
  PermFifo, Store, read, read_item, fetch, write, ack, flush, flush_store, with_store,
  save_tabledisk,
}
use info_logger.PermFifo.Queue
use info_logger.PermFifo.Queue.{Op, Reply, done, nothing, item, failed, Queue}
use info_logger.PermFifo.Stored.{Stored, Stored-store, save_tabledisk-Stored}
use info_logger.PermFifo.Acks.{ack-Stored}
use info_logger.PermFifo.Append.{Appended, write-Appended}
use info_logger.PermFifo.Entries.{item_of}
use info_logger.PermFifo.Writes.{entry}
use info_logger.PermFifo.Reads.{Fetched, fetch-client, fetch-store}
use info_logger.PermFifo.ReadFile.{fetch-pending}

-- What a caller sees of a read.
abbrev seen : ℤ → Item → Reply
seen (pos zero) x = elim x.payload [ none ↦ failed | some b ↦ item x.id b ]
seen (pos (suc n)) x = nothing
seen (negsuc n) x = failed

abbrev seen_code : ℤ → Reply
seen_code code = if succeeded code then done else failed

abbrev flushed : PermFifo → Option (ℤ × PermFifo) → Reply × PermFifo
flushed f none = (failed, f)
flushed f (some (code, g)) = (seen_code code, g)

abbrev shown : ℤ × Item × PermFifo → Reply × PermFifo
shown (code, x, g) = (seen code x, g)

-- One call under the mutex, a read being one that does not wait.
unfoldable pub step : PermFifo → Op → Reply × PermFifo
step f (Op.write b now) =
    let (code, g) = write f (some b) (pos (length b)) now in (seen_code code, g)
step f Op.read = shown (read f (pos 0) (false, f))
step f (Op.flush timeout now) = flushed f (flush f timeout now)
step f (Op.ack id) = let (code, g) = ack f id in (seen_code code, g)

unfoldable pub run : PermFifo → List Op → List Reply
unfolding step
run f [] = []
run f (o ∷ os) = let (r, g) = step f o in r ∷ run g os

-- The calls that a client may make from a queue on: it writes at least one byte, and it acknowledges
-- what it has read. At most `budget` items are written.
unfoldable pub AreAllowed : ℕ → Queue → List Op → Type 0
unfolding Queue.step
AreAllowed budget q [] = budget ≡ budget
AreAllowed zero q (Op.write b now ∷ os) = 0 < 0
AreAllowed (suc budget) q (Op.write b now ∷ os) =
    (0 < length b) × AreAllowed budget (Queue.step q (Op.write b now)).1 os
AreAllowed budget q (Op.read ∷ os) = AreAllowed budget (Queue.step q Op.read).1 os
AreAllowed budget q (Op.flush timeout now ∷ os) = AreAllowed budget q os
AreAllowed budget q (Op.ack id ∷ os) = (id ≤ q.taken) × AreAllowed budget q os

-- The FIFO stands for the queue.
pub record Agrees (f : PermFifo) (q : Queue) : Type 0 where
  pub s : Store
  pub c : List Bytes
  pub r : List Bytes
  pub has_store : f.store ≡ some s
  pub stored : Stored f s q.taken c r f.current_id
  pub parts : q.pending ≡ c ++ r
  pub counted : f.current_id ≡ q.taken + length q.pending

-- What a call does to both sides.
record Steps (f : PermFifo) (q : Queue) (o : Op) : Type 0 where
  reply : (step f o).0 ≡ (Queue.step q o).0
  agrees : Agrees (step f o).1 (Queue.step q o).1

write-Steps :
    (f : PermFifo) (q : Queue) (b : Bytes) (now : ℕ)
    → Agrees f q
    → 0 < length b
    → f.current_id + 2 < 2 ^ 32
    → Steps f q (Op.write b now)
unfolding step Queue.step
write-Steps f q b now h nonempty w =
    let at : f.current_id ≡ q.taken + length h.c + length h.r =
      omega (arith, h.counted, ap (λ ys. length ys) h.parts, length-append h.c h.r) in
    let a : Appended q.taken h.c h.r f.current_id b (write f (some b) (pos (length b)) now) =
      write-Appended f h.s q.taken h.c h.r f.current_id b now h.stored h.has_store refl at nonempty
        (omega arith) in
    record {
      reply = ap (λ (res : ℤ × PermFifo). seen_code res.0) a.result;
      agrees =
          subst (λ (res : ℤ × PermFifo). Agrees res.1 (record q { pending = q.pending ++ b ∷ [] }))
            (sym a.result)
            (record {
              s = a.store;
              c = a.c';
              r = a.r';
              has_store = refl;
              stored =
                  subst (λ k. Stored (with_store (a.fifo, a.store)) a.store q.taken a.c' a.r' k)
                    (sym a.current)
                    (Stored-store a.fifo a.store a.store q.taken a.c' a.r' (suc f.current_id)
                      a.stored);
              parts = ap (λ ys. ys ++ b ∷ []) h.parts ∙ sym a.parts;
              counted = a.current ∙ omega (arith, h.counted, length-concat q.pending b);
            });
    }

ack-Steps : (f : PermFifo) (q : Queue) (id : ℕ) → Agrees f q → id ≤ q.taken → Steps f q (Op.ack id)
unfolding step Queue.step
ack-Steps f q id h le =
    let (p, e, (st, current)) =
      ack-Stored id f h.s q.taken h.c h.r f.current_id h.has_store h.stored le in
    record {
      reply = ap (λ (res : ℤ × PermFifo). seen_code res.0) e;
      agrees =
          subst (λ (res : ℤ × PermFifo). Agrees res.1 q) (sym e)
            (record {
              s = p.1;
              c = h.c;
              r = h.r;
              has_store = refl;
              stored =
                  subst (λ k. Stored (with_store p) p.1 q.taken h.c h.r k) (sym current)
                    (Stored-store p.0 p.1 p.1 q.taken h.c h.r f.current_id st);
              parts = h.parts;
              counted = current ∙ h.counted;
            });
    }

flush-some :
    (f : PermFifo) (s : Store) (timeout now : ℕ)
    → f.store ≡ some s
    → leb (f.last_flush + timeout) now ≡ true
    → flush f timeout now ≡ some (pos 0, with_store (save_tabledisk now f s))
unfolding flush flush_store
flush-some f s timeout now e h = rw h (ap (λ o. flush_store now f o) e)

flush-later :
    (f : PermFifo) (timeout now : ℕ)
    → leb (f.last_flush + timeout) now ≡ false
    → flush f timeout now ≡ some (pos 0, f)
unfolding flush
flush-later f timeout now h = rw h refl

Steps-to :
    (f : PermFifo) (q : Queue) (o : Op) (p : Reply × PermFifo)
    → step f o ≡ p
    → p.0 ≡ (Queue.step q o).0
    → Agrees p.1 (Queue.step q o).1
    → Steps f q o
Steps-to f q o p e r a = record {
  reply = ap (λ (x : Reply × PermFifo). x.0) e ∙ r;
  agrees = subst (λ (x : Reply × PermFifo). Agrees x.1 (Queue.step q o).1) (sym e) a;
}

flush-Steps :
    (f : PermFifo) (q : Queue) (timeout now : ℕ) → Agrees f q → Steps f q (Op.flush timeout now)
unfolding step Queue.step
flush-Steps f q timeout now h = elim (Bool-cases (leb (f.last_flush + timeout) now)) [
  | inl on ↦
      let p = save_tabledisk now f h.s in
      let (st, empty, current) =
        save_tabledisk-Stored now f h.s q.taken h.c h.r f.current_id h.stored in
      Steps-to f q (Op.flush timeout now) (done, with_store p)
        (ap (flushed f) (flush-some f h.s timeout now h.has_store on)) refl
        (record {
          s = p.1;
          c = h.c;
          r = h.r;
          has_store = refl;
          stored =
              subst (λ k. Stored (with_store p) p.1 q.taken h.c h.r k) (sym current)
                (Stored-store p.0 p.1 p.1 q.taken h.c h.r f.current_id st);
          parts = h.parts;
          counted = current ∙ h.counted;
        })
  | inr off ↦
      Steps-to f q (Op.flush timeout now) (done, f) (ap (flushed f) (flush-later f timeout now off))
        refl h
]

-- The first pending item is found, if there is one.
fetch-Fetched :
    (f : PermFifo) (s : Store) (n : ℕ) (c r : List Bytes) (top : ℕ)
    → Stored f s n c r top
    → f.store ≡ some s
    → 0 < length c + length r
    → suc n + length r < 2 ^ 32
    → Fetched f s n c r top (fetch f)
fetch-Fetched f s n (b ∷ c) r top st e h w = fetch-client f s n b c r top st
fetch-Fetched f s n [] [] top st e h w = absurd (omega arith)
fetch-Fetched f s n [] (b ∷ r) top st e h w =
    subst (λ res. Fetched f s n [] (b ∷ r) top res)
      (sym (fetch-store f s (take_first-nil f.table_client st.client) e))
      (fetch-pending f s n b r top st w)

read-fetch :
    (f : PermFifo) (x : Item) (g : PermFifo)
    → f.last_id_out < f.current_id
    → fetch f ≡ (pos 0, x, g)
    → read f (pos 0) (false, f) ≡ (pos 0, x, record g { last_id_out = x.id })
unfolding read read_item
read-fetch f x g h e = rw (lt→ltb f.last_id_out f.current_id h) (
    rw
      (
        read_item,
        ap (λ (p : ℤ × Item × PermFifo). p.0) e,
        ap (λ (p : ℤ × Item × PermFifo). p.1) e,
        ap (λ (p : ℤ × Item × PermFifo). p.2) e,
      )
      refl)

read-nothing :
    (f : PermFifo)
    → f.current_id ≤ f.last_id_out
    → read f (pos 0) (false, f) ≡ (pos 1, empty_item, f)
unfolding read
read-nothing f h = rw (le→ltb_false f.last_id_out f.current_id h) refl

-- A read of a FIFO with pending items, and of an empty one.
read_item-Steps :
    (f : PermFifo) (q : Queue) (h : Agrees f q)
    → f.last_id_out < f.current_id
    → Fetched f h.s q.taken h.c h.r f.current_id (fetch f)
    → Steps f q Op.read
unfolding step Queue.step Queue.pull
read_item-Steps f q h le a =
    let front : q.pending ≡ a.first ∷ a.c' ++ a.r' = h.parts ∙ a.parts in
    let g = record a.fifo { last_id_out = suc q.taken } in
    Steps-to f q Op.read (item (suc q.taken) a.first, g)
      (ap shown (read-fetch f (item_of (entry q.taken a.first)) a.fifo le a.result))
      (ap (λ ys. (Queue.pull q.taken ys).0) (sym front))
      (subst (λ ys. Agrees g (Queue.pull q.taken ys).1) (sym front)
        (record {
          s = h.s;
          c = a.c';
          r = a.r';
          has_store = a.same_store ∙ h.has_store;
          stored =
              subst (λ k. Stored g h.s (suc q.taken) a.c' a.r' k) (sym a.same_current) a.stored;
          parts = refl;
          counted = a.same_current ∙ (h.counted ∙ omega (arith, ap (λ ys. length ys) front));
        }))

read_nothing-Steps :
    (f : PermFifo) (n : ℕ)
    → Agrees f (record { taken = n; pending = [] })
    → f.current_id ≤ f.last_id_out
    → Steps f (record { taken = n; pending = [] }) Op.read
unfolding step Queue.step Queue.pull
read_nothing-Steps f n h le =
    Steps-to f (record { taken = n; pending = [] }) Op.read (nothing, f)
      (ap shown (read-nothing f le)) refl h

pending_length :
    (f : PermFifo) (q : Queue) (h : Agrees f q) → length q.pending ≡ length h.c + length h.r
pending_length f q h = ap (λ ys. length ys) h.parts ∙ length-append h.c h.r

read-Steps :
    (f : PermFifo) (n : ℕ) (bs : List Bytes)
    → Agrees f (record { taken = n; pending = bs })
    → f.current_id + 2 < 2 ^ 32
    → Steps f (record { taken = n; pending = bs }) Op.read
read-Steps f n [] h w = read_nothing-Steps f n h (omega (arith, h.counted, h.stored.last_out))
read-Steps f n (b ∷ bs) h w =
    let q : Queue = record { taken = n; pending = b ∷ bs } in
    let l = pending_length f q h in
    read_item-Steps f q h (omega (arith, h.counted, h.stored.last_out)) (
      fetch-Fetched f h.s n h.c h.r f.current_id h.stored h.has_store (omega (arith, l))
        (omega (arith, l, h.counted)))

-- A first call, and then the others.
run-cons :
    (f : PermFifo) (q : Queue) (o : Op) (os : List Op)
    → Steps f q o
    → run (step f o).1 os ≡ Queue.run (Queue.step q o).1 os
    → run f (o ∷ os) ≡ Queue.run q (o ∷ os)
unfolding run Queue.run
run-cons f q o os s e =
    ap (λ r. r ∷ run (step f o).1 os) s.reply ∙ ap (λ rs. (Queue.step q o).0 ∷ rs) e

pull-total :
    (n : ℕ) (bs : List Bytes)
    → (Queue.pull n bs).1.taken + length (Queue.pull n bs).1.pending ≡ n + length bs
unfolding Queue.pull
pull-total n [] = refl
pull-total n (b ∷ bs) = omega arith

-- A run from a state that stands for a queue, with `budget` writes at most.
pub run-Agrees :
    (os : List Op) (budget : ℕ) (f : PermFifo) (q : Queue)
    → Agrees f q
    → AreAllowed budget q os
    → q.taken + length q.pending + budget + 2 < 2 ^ 32
    → run f os ≡ Queue.run q os
unfolding AreAllowed Queue.step run Queue.run
run-Agrees [] budget f q h a w = refl
run-Agrees (Op.write b now ∷ os) zero f q h a w = absurd (omega arith)
run-Agrees (Op.write b now ∷ os) (suc budget) f q h (nonempty, a) w =
    let s = write-Steps f q b now h nonempty (omega (arith, h.counted)) in
    run-cons f q (Op.write b now) os s (
      run-Agrees os budget (step f (Op.write b now)).1 (record q { pending = q.pending ++ b ∷ [] })
        s.agrees a (omega (arith, length-concat q.pending b)))
run-Agrees (Op.read ∷ os) budget f q h a w =
    let s = read-Steps f q.taken q.pending h (omega (arith, h.counted)) in
    run-cons f q Op.read os s (
      run-Agrees os budget (step f Op.read).1 (Queue.pull q.taken q.pending).1 s.agrees a
        (omega (arith, pull-total q.taken q.pending)))
run-Agrees (Op.flush timeout now ∷ os) budget f q h a w =
    let s = flush-Steps f q timeout now h in
    run-cons f q (Op.flush timeout now) os s
      (run-Agrees os budget (step f (Op.flush timeout now)).1 q s.agrees a w)
run-Agrees (Op.ack id ∷ os) budget f q h (le, a) w =
    let s = ack-Steps f q id h le in
    run-cons f q (Op.ack id) os s (run-Agrees os budget (step f (Op.ack id)).1 q s.agrees a w)
