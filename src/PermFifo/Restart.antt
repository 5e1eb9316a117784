-- ===== src/PermFifo/Restart.antt =====
-- `permFIFO_new` of src/permanentFIFO.c: a FIFO with a path starts with what its file holds and was
-- not acknowledged.
use info_logger.Base.{
  ℕ, zero, suc, ◌+◌, ◌-◌, ◌≤◌, ◌<◌, ◌≡◌, refl, ap, ◌∙◌, false, not, Option, List, [], ◌∷◌, ◌++◌,
  map, some, none, arith, inl, inr, ltb, ◌==◌, if◌then◌else◌, length, ℤ, pos, Bool-cases, ◌^◌,
  append-nil, append_assoc, ltb→lt,
}
use info_logger.CText.{Bytes}
use info_logger.CircularTable.{ct_new}
use info_logger.CircularTable.Holds.{fresh, fresh-Holds}
use info_logger.FifoFile.{Block, Header, FifoFile, default_main_header, good}
use info_logger.FifoFile.Clean.{
  Disk, Content, fifo, file_clean, retry, clean_named, clean_old, clean_content, clean_file,
  copy_file, start_new, copy_items, number_new, replace_file, healthy, all_written, start_blank,
  copy_blocks, skip_acked, found, done,
}
use info_logger.PermFifo.{
  PermFifo, new, new_with, make_on, clean_twice, open_fifo, fresh_fifo, all_healthy,
}
use info_logger.PermFifo.Queue
use info_logger.PermFifo.Queue.{Op, Reply, Queue}
use info_logger.PermFifo.Entries.{
  Entry, block_of, keep, numbered, AllFit, keep-numbered, AllFit-nil,
}
use info_logger.PermFifo.Tables.{not_empty}
use info_logger.PermFifo.Trace.{run, AreAllowed, Agrees, run-Agrees}

-- No item is empty, as `permFIFO_write` makes them.
unfoldable pub AreNonempty : List Bytes → Type 0
AreNonempty [] = 0 ≤ 0
AreNonempty (b ∷ bs) = (0 < length b) × AreNonempty bs

AllFit-numbered :
    (m k : ℕ) (bs : List Bytes) → AreNonempty bs → k + length bs ≤ suc m → AllFit m (numbered k bs)
unfolding AllFit AreNonempty
AllFit-numbered m k [] h le = refl
AllFit-numbered m k (b ∷ bs) (h, hs) le =
    (omega arith, h, AllFit-numbered m (suc k) bs hs (omega arith))

-- A FIFO file with the items `bs` numbered from 1.
abbrev file_of : ℕ → List Bytes → FifoFile
file_of ack bs = record {
  header = record { last_ack_id = ack; current_id = length bs };
  blocks = map block_of (numbered 1 bs);
}

abbrev pub opened : ℕ → FifoFile → ℕ → PermFifo
opened n file now =
    record (fresh_fifo (fresh n) (some (record { table = fresh n; file = file })) now) {
      current_id = file.header.current_id;
      last_id_on_disk = file.header.current_id;
      ack_on_disk = not (file.header.current_id == 0);
    }

opened-Agrees :
    (n now ack : ℕ) (bs : List Bytes)
    → AreNonempty bs
    → Agrees (opened n (file_of ack bs) now) (record { taken = 0; pending = bs })
opened-Agrees n now ack bs h = record {
  s = record { table = fresh n; file = file_of ack bs };
  c = [];
  r = bs;
  has_store = refl;
  stored = record {
    d = [];
    e = numbered 1 bs;
    client = fresh-Holds n;
    disk = fresh-Holds n;
    file = refl;
    last_out = refl;
    rest = ap (λ xs. keep 0 xs) (append-nil (numbered 1 bs)) ∙ keep-numbered 0 1 bs (omega arith);
    offset = omega arith;
    next_eq = inr refl;
    on_file = AllFit-numbered (length bs) 1 bs h (omega arith);
    on_disk = omega arith;
    in_table = AllFit-nil (length bs);
    newest = refl;
  };
  parts = refl;
  counted = omega arith;
}

-- The search skips the acknowledged items.
skip_acked-keep :
    (ack k : ℕ) (bs : List Bytes)
    → skip_acked (map block_of (numbered k bs)) ack
      ≡ found (map block_of (keep ack (numbered k bs)))
unfolding skip_acked
skip_acked-keep ack k [] = refl
skip_acked-keep ack k (b ∷ bs) = elim (Bool-cases (ltb ack k)) [
  | inl e ↦ rw (e, keep-numbered ack (suc k) bs (omega (arith, ltb→lt ack k e))) refl
  | inr e ↦ rw e (skip_acked-keep ack (suc k) bs)
]

abbrev pub bytes_of : List Entry → List Bytes
bytes_of [] = []
bytes_of (x ∷ xs) = x.bytes ∷ bytes_of xs

-- The copy numbers the items from 1 on.
copy_blocks-numbered :
    (es : List Entry) (id : ℕ) (out : List Block)
    → copy_blocks (λ id'. all_written) (map block_of es) id out
      ≡ (pos 0, id + length (bytes_of es), out ++ map block_of (numbered (suc id) (bytes_of es)))
unfolding copy_blocks
copy_blocks-numbered [] id out = let e : id + 0 ≡ id = omega arith in rw (e, append-nil out) refl
copy_blocks-numbered (x ∷ es) id out =
    let e : id + 1 + length (bytes_of es) ≡ id + suc (length (bytes_of es)) = omega arith in
    let one : id + 1 ≡ suc id = omega arith in
    copy_blocks-numbered es (id + 1) (out ++ good (id + 1) x.bytes ∷ [])
    ∙ (ap
          (λ i. (
            pos 0,
            i,
            (out ++ good (id + 1) x.bytes ∷ [])
                ++ map block_of (numbered (suc (id + 1)) (bytes_of es)),
          ))
          e
        ∙ ap (λ bs. (pos 0, id + suc (length (bytes_of es)), bs))
            (append_assoc out (good (id + 1) x.bytes ∷ [])
                (map block_of (numbered (suc (id + 1)) (bytes_of es)))
              ∙ ap (λ j. out ++ good j x.bytes ∷ map block_of (numbered (suc j) (bytes_of es)))
                  one))

bytes_of-AreNonempty :
    (ack k : ℕ) (bs : List Bytes)
    → AreNonempty bs
    → AreNonempty (bytes_of (keep ack (numbered k bs)))
unfolding AreNonempty
bytes_of-AreNonempty ack k [] h = h
bytes_of-AreNonempty ack k (b ∷ bs) (h, hs) = elim (Bool-cases (ltb ack k)) [
  | inl e ↦ rw e (h, bytes_of-AreNonempty ack (suc k) bs hs)
  | inr e ↦ rw e (bytes_of-AreNonempty ack (suc k) bs hs)
]

header_of :
    (k : ℕ)
    → (if k == 0 then default_main_header else record default_main_header { current_id = k })
      ≡ record { last_ack_id = 0; current_id = k }
header_of zero = refl
header_of (suc k) = rw (not_empty (suc k) k refl) refl

length-kept :
    (ack k : ℕ) (bs : List Bytes) → length (bytes_of (keep ack (numbered k bs))) ≤ length bs
length-kept ack k [] = omega arith
length-kept ack k (b ∷ bs) = elim (Bool-cases (ltb ack k)) [
  | inl e ↦ rw e (omega (arith, length-kept ack (suc k) bs))
  | inr e ↦ rw e (omega (arith, length-kept ack (suc k) bs))
]

-- The disk behind a start that found the unacknowledged items `bs`.
abbrev cleaned : Disk → List Bytes → Disk
cleaned d bs = record d { current = some (fifo (file_of 0 bs)); old = none; new_ = none }

copy_file-cleaned :
    (d : Disk) (es : List Entry)
    → copy_file healthy (map block_of es) d ≡ done (pos 0) (cleaned d (bytes_of es))
unfolding copy_file start_new copy_items number_new replace_file
copy_file-cleaned d es =
    let e = copy_blocks-numbered es 0 [] in
    let z : 0 + length (bytes_of es) ≡ length (bytes_of es) = omega arith in
    rw
      (
        ap (λ (r : ℤ × ℕ × List Block). r.0) e,
        ap (λ (r : ℤ × ℕ × List Block). r.1) e,
        ap (λ (r : ℤ × ℕ × List Block). r.2) e,
        z,
      )
      (ap
        (λ h. done (pos 0) (record d {
          current =
              some (fifo (record { header = h; blocks = map block_of (numbered 1 (bytes_of es)) }));
          old = none;
          new_ = none;
        }))
        (header_of (length (bytes_of es))))

clean_file-cleaned :
    (d : Disk) (header : Header) (k : ℕ) (bs : List Bytes)
    → 0 < header.last_ack_id
    → clean_file healthy (record { header = header; blocks = map block_of (numbered k bs) }) d
      ≡ done (pos 0) (cleaned d (bytes_of (keep header.last_ack_id (numbered k bs))))
unfolding clean_file
clean_file-cleaned d header k bs h =
    rw
      (
        not_empty header.last_ack_id (header.last_ack_id - 1) (omega arith),
        skip_acked-keep header.last_ack_id k bs,
      )
      (copy_file-cleaned d (keep header.last_ack_id (numbered k bs)))

-- One turn of the retry loop is enough.
file_clean-cleaned :
    (d d' : Disk) (file : FifoFile)
    → d.current ≡ some (fifo file)
    → clean_file healthy file (record d { old = none; new_ = none }) ≡ done (pos 0) d'
    → file_clean all_healthy d false ≡ (pos 0, d')
unfolding file_clean retry clean_named clean_content
file_clean-cleaned d d' file e h = rw (retry, ap (λ o. clean_named healthy o d) e ∙ h) refl

new-cleaned :
    (n now : ℕ) (d d' : Disk) (file : FifoFile)
    → file_clean all_healthy d false ≡ (pos 0, d')
    → d'.current ≡ some (fifo file)
    → new (pos (suc n)) (some d) now ≡ (some (opened n file now), some d')
unfolding new new_with make_on clean_twice ct_new open_fifo
new-cleaned n now d d' file e h =
    rw (ap (λ (r : ℤ × Disk). r.0) e, ap (λ (r : ℤ × Disk). r.1) e, h) refl

-- Disks without a current and an old file; a new one may have been left.
abbrev pub empty_disk : Option Content → List Content → Disk
empty_disk left backups = record { current = none; old = none; new_ = left; backups = backups }

file_clean-blank :
    (left : Option Content) (backups : List Content)
    → file_clean all_healthy (empty_disk left backups) false
      ≡ (pos 0, record (empty_disk left backups) { current = some (fifo (file_of 0 [])) })
unfolding file_clean retry clean_named clean_old start_blank
file_clean-blank left backups = refl

no_items : AreNonempty []
unfolding AreNonempty
no_items = omega arith

-- Where the system calls succeed: a FIFO made on the file of an earlier one, of which items up to an id
-- were acknowledged. Every
-- sequence of calls is answered as by a queue that holds the other items, with ids from 1 on.
pub new-restart :
    (n now k budget : ℕ) (d : Disk) (header : Header) (bs : List Bytes) (os : List Op)
    → d.current ≡ some (fifo (record { header = header; blocks = map block_of (numbered k bs) }))
    → 0 < header.last_ack_id
    → AreNonempty bs
    → AreAllowed budget
        (record { taken = 0; pending = bytes_of (keep header.last_ack_id (numbered k bs)) })
        os
    → length bs + budget + 2 < 2 ^ 32
    → (f : PermFifo) × ((new (pos (suc n)) (some d) now).0 ≡ some f)
      × (run f os
          ≡ Queue.run
              (record { taken = 0; pending = bytes_of (keep header.last_ack_id (numbered k bs)) })
              os)
new-restart n now k budget d header bs os e h nonempty allowed w =
    let left = bytes_of (keep header.last_ack_id (numbered k bs)) in
    let d1 = record d { old = none; new_ = none } in
    let made =
      new-cleaned n now d (cleaned d1 left) (file_of 0 left)
        (file_clean-cleaned d (cleaned d1 left) _ e (clean_file-cleaned d1 header k bs h)) refl in
    (
      opened n (file_of 0 left) now,
      ap (λ (r : Option PermFifo × Option Disk). r.0) made,
      run-Agrees os budget (opened n (file_of 0 left) now) (record { taken = 0; pending = left })
          (opened-Agrees n now 0 left (bytes_of-AreNonempty header.last_ack_id k bs nonempty))
          allowed (omega (arith, length-kept header.last_ack_id k bs)),
    )

-- Where the system calls succeed: a FIFO made where there is no current and no old file answers every
-- sequence of calls as a queue without bound that is empty at first. The items are not empty and fewer
-- than 2 ^ 32.
pub new-blank :
    (n now budget : ℕ) (left : Option Content) (backups : List Content) (os : List Op)
    → AreAllowed budget (record { taken = 0; pending = [] }) os
    → budget + 2 < 2 ^ 32
    → (f : PermFifo) × ((new (pos (suc n)) (some (empty_disk left backups)) now).0 ≡ some f)
      × (run f os ≡ Queue.run (record { taken = 0; pending = [] }) os)
new-blank n now budget left backups os allowed w =
    let d' = record (empty_disk left backups) { current = some (fifo (file_of 0 [])) } in
    let made =
      new-cleaned n now (empty_disk left backups) d' (file_of 0 []) (file_clean-blank left backups)
        refl in
    (
      opened n (file_of 0 []) now,
      ap (λ (r : Option PermFifo × Option Disk). r.0) made,
      run-Agrees os budget (opened n (file_of 0 []) now) (record { taken = 0; pending = [] })
          (opened-Agrees n now 0 [] no_items) allowed (omega arith),
    )
