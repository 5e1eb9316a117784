-- ===== src/Tests/PermFifo.antt =====
-- Runs of the FIFO of src/permanentFIFO.c.
use info_logger.Base.{ℕ, ◌≡◌, refl, false, List, [], ◌∷◌, none, some, arith, pos}
use info_logger.FifoFile.{good}
use info_logger.FifoFile.Clean.{
  Disk, fifo, Calls, healthy, file_clean, retry, clean_named, clean_content, clean_file, skip_acked,
  copy_file, start_new, copy_items, copy_blocks, number_new, replace_file,
}
use info_logger.PermFifo.{PermFifo, new}
use info_logger.PermFifo.Queue
use info_logger.PermFifo.Queue.{Op, Queue}
use info_logger.PermFifo.Trace.{run, AreAllowed}
use info_logger.PermFifo.Restart.{AreNonempty, empty_disk, new-blank, new-restart}

-- With tables of one place: the second and third items go through the file.
abbrev calls : List Op
calls =
    Op.write (104 ∷ []) 5
    ∷ Op.write (105 ∷ 106 ∷ []) 6
    ∷ Op.write (107 ∷ []) 7
    ∷ Op.read
    ∷ Op.ack 1
    ∷ Op.read
    ∷ Op.flush 10 30
    ∷ Op.read
    ∷ Op.read
    ∷ Op.ack 3
    ∷ []

calls-AreAllowed : AreAllowed 3 (record { taken = 0; pending = [] }) calls
unfolding AreAllowed Queue.step Queue.pull
calls-AreAllowed = (omega arith, (omega arith, (omega arith, (omega arith, (omega arith, refl)))))

new-blank_example :
    (f : PermFifo) × ((new (pos 1) (some (empty_disk none [])) 0).0 ≡ some f)
    × (run f calls ≡ Queue.run (record { taken = 0; pending = [] }) calls)
new-blank_example = new-blank 0 0 3 none [] calls calls-AreAllowed (omega arith)

-- A file with the items 4 to 6, of which the first was acknowledged.
abbrev left_behind : List (List ℕ)
left_behind = (104 ∷ []) ∷ (105 ∷ []) ∷ (106 ∷ []) ∷ []

abbrev used_disk : Disk
used_disk = record {
  current = some (
      fifo (record {
        header = record { last_ack_id = 4; current_id = 6 };
        blocks = good 4 (104 ∷ []) ∷ good 5 (105 ∷ []) ∷ good 6 (106 ∷ []) ∷ [];
      }));
  old = none;
  new_ = none;
  backups = [];
}

abbrev reads : List Op
reads = Op.read ∷ Op.write (107 ∷ []) 7 ∷ Op.read ∷ Op.read ∷ Op.read ∷ []

reads-AreAllowed : AreAllowed 1 (record { taken = 0; pending = (105 ∷ []) ∷ (106 ∷ []) ∷ [] }) reads
unfolding AreAllowed Queue.step Queue.pull
reads-AreAllowed = (omega arith, refl)

left_behind-AreNonempty : AreNonempty left_behind
unfolding AreNonempty
left_behind-AreNonempty = (omega arith, (omega arith, (omega arith, omega arith)))

new-restart_example :
    (f : PermFifo) × ((new (pos 1) (some used_disk) 0).0 ≡ some f)
    × (run f reads ≡ Queue.run (record { taken = 0; pending = (105 ∷ []) ∷ (106 ∷ []) ∷ [] }) reads)
new-restart_example =
    new-restart 0 0 4 1 used_disk (record { last_ack_id = 4; current_id = 6 }) left_behind reads
      refl (omega arith) left_behind-AreNonempty reads-AreAllowed (omega arith)

-- A first cleaning whose new file cannot be renamed, and a second one that has no trouble.
abbrev cut_short : ℕ → Calls
cut_short n = record healthy { moves_new = false }

cut_short-code : (file_clean cut_short used_disk false).0 ≡ pos 16
unfolding file_clean retry clean_named clean_content clean_file skip_acked copy_file start_new
    copy_items copy_blocks number_new replace_file
cut_short-code = refl
