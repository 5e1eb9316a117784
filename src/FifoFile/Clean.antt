-- ===== src/FifoFile/Clean.antt =====
-- `permFIFO_file_clean` of src/permanentFIFO.c, with what the system calls answer whose failure makes it
-- return. Reads, `lseek` and the calls whose answer it does not look at do what they are to do.
use info_logger.Base.{
  ℕ, zero, suc, ◌+◌, Bool, true, false, List, [], ◌∷◌, ◌++◌, Option, none, some, ltb, ◌==◌,
  if◌then◌else◌, ℤ, pos,
}
use info_logger.CircularTable.{succeeded}
use info_logger.FifoFile.{
  Block, good, short_data, bad_tag, short_header, default_main_header, FifoFile,
}

-- What a file at one of the names holds: nothing, less than a main header, a main header without
-- the tag, or a FIFO file.
pub data Content : Type 0 where
  no_bytes : Content
  short_main : Content
  bad_main : Content
  fifo : FifoFile → Content

-- The files at the three names of `permFIFO_getFileName`, and those renamed away.
pub record Disk : Type 0 where
  pub current : Option Content
  pub old : Option Content
  pub new_ : Option Content
  pub backups : List Content

-- What a `write` of a main header to an empty file leaves: all of it, nothing, or a part.
pub data Written : Type 0 where
  whole nothing a_part : Written

-- What a `write` of a main header over another one leaves: all of it, or as `currentId` some other
-- number.
pub data Rewritten : Type 0 where
  renewed : Rewritten
  spoilt : ℕ → Rewritten

-- What the two `write`s of an item leave: all of it, nothing, a part of the sub header, or the sub header
-- with a part of the data.
pub data ItemWritten : Type 0 where
  all_written header_missing header_cut data_cut : ItemWritten

-- What the system calls answer in a turn of the retry loop; those on the current file, on the old one,
-- and on the new one. An item that is written is named by its new id.
pub record Calls : Type 0 where
  pub creates : Bool
  pub writes_main : Written
  pub renames_old : Bool
  pub opens : Bool
  pub renumbers : Rewritten
  pub creates_new : Bool
  pub writes_new_main : Written
  pub writes_item : ℕ → ItemWritten
  pub renumbers_new : Rewritten
  pub moves_away : Bool
  pub moves_new : Bool
  pub removes_old : Bool

-- All of them succeed.
abbrev pub healthy : Calls
healthy = record {
  creates = true;
  writes_main = whole;
  renames_old = true;
  opens = true;
  renumbers = renewed;
  creates_new = true;
  writes_new_main = whole;
  writes_item = λ id. all_written;
  renumbers_new = renewed;
  moves_away = true;
  moves_new = true;
  removes_old = true;
}

-- How a loop over the blocks ends: `failed` is an early return.
pub data Scan {ℓ} (A : Type ℓ) : Type ℓ where
  failed : ℤ → Scan A
  found : A → Scan A

-- The loop that looks for the last id in the file.
unfoldable pub last_id : List Block → ℕ → Scan ℕ
last_id [] id = found id
last_id (good k b ∷ bs) id = last_id bs k
last_id (short_data k ∷ bs) id = last_id bs k
last_id (bad_tag ∷ bs) id = failed (pos 32)
last_id (short_header ∷ bs) id = failed (pos 31)

-- The loop that skips the acknowledged items: the blocks from the first other one on.
unfoldable pub skip_acked : List Block → ℕ → Scan (List Block)
skip_acked [] ack = found []
skip_acked (good k b ∷ bs) ack = if ltb ack k then found (good k b ∷ bs) else skip_acked bs ack
skip_acked (short_data k ∷ bs) ack =
    if ltb ack k then found (short_data k ∷ bs) else skip_acked bs ack
skip_acked (bad_tag ∷ bs) ack = failed (pos 51)
skip_acked (short_header ∷ bs) ack = failed (pos 50)

-- The loop that copies: the code, 0 at the end of the file, the last id given, the blocks written.
unfoldable pub copy_blocks : (ℕ → ItemWritten) → List Block → ℕ → List Block → ℤ × ℕ × List Block
copy_blocks w [] id out = (pos 0, id, out)
copy_blocks w (good k b ∷ bs) id out = elim (w (id + 1)) [
  | all_written ↦ copy_blocks w bs (id + 1) (out ++ good (id + 1) b ∷ [])
  | header_missing ↦ (pos 13, id + 1, out)
  | header_cut ↦ (pos 13, id + 1, out ++ short_header ∷ [])
  | data_cut ↦ (pos 14, id + 1, out ++ short_data (id + 1) ∷ [])
]
copy_blocks w (short_data k ∷ bs) id out = (pos 12, id, out)
copy_blocks w (bad_tag ∷ bs) id out = (pos 11, id, out)
copy_blocks w (short_header ∷ bs) id out = (pos 10, id, out)

-- How a turn of the retry loop ends.
pub data Turn : Type 0 where
  again : Disk → Turn
  done : ℤ → Disk → Turn

-- The new file takes the place of the current one.
unfoldable pub replace_file : Calls → FifoFile → Disk → Turn
replace_file c f d =
    if c.moves_away
    then (if c.moves_new
        then (if c.removes_old
            then done (pos 0) (record d { current = some (fifo f); old = none; new_ = none })
            else done (pos 17) (record d { current = some (fifo f); old = d.current; new_ = none }))
        else done (pos 16) (record d { current = none; old = d.current; new_ = some (fifo f) }))
    else done (pos 15) (record d { new_ = some (fifo f) })

-- The last id given, if there is one, is written into the header of the new file.
unfoldable pub number_new : Rewritten → Calls → ℕ → List Block → Disk → Turn
number_new renewed c id out d =
    replace_file c
      (record {
        header =
            if id == 0 then default_main_header else record default_main_header { current_id = id };
        blocks = out;
      })
      d
number_new (spoilt k) c id out d =
    if id == 0
    then replace_file c (record { header = default_main_header; blocks = out }) d
    else done (pos 42) (record d {
      new_ =
          some (
            fifo (record { header = record default_main_header { current_id = k }; blocks = out }));
    })

-- The copy into the new file, behind its main header.
unfoldable pub copy_items : Calls → List Block → Disk → Turn
copy_items c bs d =
    let (code, id, out) = copy_blocks c.writes_item bs 0 [] in
    if succeeded code
    then number_new c.renumbers_new c id out d
    else done code
        (record d { new_ = some (fifo (record { header = default_main_header; blocks = out })) })

-- The main header of the new file.
unfoldable pub start_new : Written → Calls → List Block → Disk → Turn
start_new whole c bs d = copy_items c bs d
start_new nothing c bs d = done (pos 8) (record d { new_ = some no_bytes })
start_new a_part c bs d = done (pos 8) (record d { new_ = some short_main })

-- The rest of a turn, once the blocks to keep are known: they are copied to the new file, which then
-- takes the place of the current one.
unfoldable pub copy_file : Calls → List Block → Disk → Turn
copy_file c bs d = if c.creates_new then start_new c.writes_new_main c bs d else done (pos 7) d

-- The disk with the last id, if there is one, in the header of the file.
abbrev pub numbered_disk : FifoFile → Disk → ℕ → Disk
numbered_disk f d id = if id == 0 then d else record d {
  current = some (fifo (record f { header = record f.header { current_id = id } }));
}

-- The last id is written into the header of the file.
unfoldable pub number_file : Rewritten → FifoFile → Disk → ℕ → Turn
number_file renewed f d id = done (pos 0) (numbered_disk f d id)
number_file (spoilt k) f d id =
    if id == 0
    then done (pos 0) d
    else done (pos 36) (record d {
      current = some (fifo (record f { header = record f.header { current_id = k } }));
    })

-- A turn on a file whose header was read.
unfoldable pub clean_file : Calls → FifoFile → Disk → Turn
clean_file c f d =
    if f.header.last_ack_id == 0
    then (elim (last_id f.blocks 0) [
      | failed code ↦ done code d
      | found id ↦ number_file c.renumbers f d id
    ])
    else (elim (skip_acked f.blocks f.header.last_ack_id) [
      | failed code ↦ done code d
      | found bs ↦ copy_file c bs d
    ])

-- A turn on the current file that was opened, the other two being removed.
unfoldable pub clean_content : Calls → Content → Disk → Turn
clean_content c no_bytes d = again (record d { current = none; old = none; new_ = none })
clean_content c short_main d = done (pos 5) (record d { old = none; new_ = none })
clean_content c bad_main d = done (pos 6) (record d { old = none; new_ = none })
clean_content c (fifo f) d = clean_file c f (record d { old = none; new_ = none })

-- The main header of a blank file.
unfoldable pub start_blank : Written → Disk → Turn
start_blank whole d =
    done (pos 0)
      (record d { current = some (fifo (record { header = default_main_header; blocks = [] })) })
start_blank nothing d = done (pos 2) (record d { current = some no_bytes })
start_blank a_part d = done (pos 2) (record d { current = some short_main })

-- One turn of the retry loop without the file, with what is at the old name.
unfoldable pub clean_old : Calls → Option Content → Disk → Turn
clean_old c none d = if c.creates then start_blank c.writes_main d else done (pos 1) d
clean_old c (some x) d =
    if c.renames_old then again (record d { current = some x; old = none }) else done (pos 3) d

-- One turn of the retry loop, with what is at the name of the file.
unfoldable pub clean_named : Calls → Option Content → Disk → Turn
clean_named c (some x) d = if c.opens then clean_content c x d else done (pos 4) d
clean_named c none d = clean_old c d.old d

abbrev pub clean_turn : Calls → Disk → Turn
clean_turn c d = clean_named c d.current d

-- The loop, with the turns that are left, by which the answers of the calls are named.
unfoldable pub retry : (ℕ → Calls) → ℕ → Disk → ℤ × Disk
retry sys zero d = (pos 0, d)
retry sys (suc n) d = elim (clean_turn (sys n) d) [
  | done code d' ↦ (code, d')
  | again d' ↦ retry sys n d'
]

-- The file renamed to a name with the time.
abbrev pub renamed : Option Content → List Content
renamed none = []
renamed (some c) = c ∷ []

-- `permFIFO_file_clean`
unfoldable pub file_clean : (ℕ → Calls) → Disk → Bool → ℤ × Disk
file_clean sys d false = retry sys 3 d
file_clean sys d true = retry sys 3 (record {
  current = none;
  old = none;
  new_ = none;
  backups = renamed d.current ++ renamed d.old ++ renamed d.new_ ++ d.backups;
})
