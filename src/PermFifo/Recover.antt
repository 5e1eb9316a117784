-- ===== src/PermFifo/Recover.antt =====
-- `permFIFO_new` of src/permanentFIFO.c makes a FIFO whatever it finds on the disk, and though its calls fail.
use info_logger.Base.{ℕ, suc, ◌≡◌, true, [], ◌++◌, some, none, ℤ, pos}
use info_logger.FifoFile.{FifoFile}
use info_logger.FifoFile.Clean.{Disk, fifo, renamed, Calls, whole}
use info_logger.PermFifo.{PermFifo, make_on}

-- The second attempt, on names that were all renamed away, leaves an empty file.
abbrev pub emptied : Disk → Disk
emptied d = record {
  current =
      some (fifo (record { header = record { last_ack_id = 0; current_id = 0 }; blocks = [] }));
  old = none;
  new_ = none;
  backups = renamed d.current ++ renamed d.old ++ renamed d.new_ ++ d.backups;
}

-- In the first turn of the second attempt a file is made, and all of its header written.
pub record IsMade (sys : ℕ → Calls) : Type 0 where
  pub creates : (sys 2).creates ≡ true
  pub writes : (sys 2).writes_main ≡ whole

-- A FIFO is made on what the cleaning leaves.
abbrev Makes : ℕ → ℕ → ℤ × Disk → Type 0
Makes n now r = (f : PermFifo) × ((make_on true (pos (suc n)) now r).0 ≡ some f)
