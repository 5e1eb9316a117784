-- ===== src/FifoFile.antt =====
-- The FIFO file of src/permanentFIFO.c. After the main header come the blocks, each a sub header
-- with the bytes of an item; an offset into the file is the number of blocks passed. Reads and
-- writes of a file in use and `lseek` are taken to succeed; what fails when a file is cleaned is in
-- FifoFile.Clean.
pub mod Clean
use info_logger.Base.{
  ℕ, zero, suc, ◌+◌, ◌&&◌, not, List, [], ◌∷◌, ◌++◌, Option, none, some, ltb, ◌==◌, if◌then◌else◌,
  take, length, ℤ, pos, negsuc,
}
use info_logger.CText.{Bytes}
use info_logger.CircularTable.{Item, CircularTable, put, take_first, succeeded}

-- What a read finds at a block: an item; a sub header with fewer bytes behind it than its `size`
-- says; a sub header without the tag; fewer bytes than a sub header has.
pub data Block : Type 0 where
  good : ℕ → Bytes → Block
  short_data : ℕ → Block
  bad_tag : Block
  short_header : Block

-- `struct FIFO_file_main_header` without its tag
pub record Header : Type 0 where
  pub last_ack_id : ℕ
  pub current_id : ℕ

-- `FIFOFILE_DEFAULT_MAIN_HEADER`
abbrev pub default_main_header : Header
default_main_header = record { last_ack_id = 0; current_id = 0 }

-- A file with its main header.
pub record FifoFile : Type 0 where
  pub header : Header
  pub blocks : List Block

-- One turn of the loop of `ct_save`: what it appends for an item.
unfoldable pub saved_block : Item → List Block
saved_block item = elim item.payload [
  | none ↦ []
  | some b ↦ if item.size == 0 then [] else good item.id (take item.size b) ∷ []
]

-- The loop of `ct_save`, for at most `n` items.
unfoldable pub save_items : ℕ → List Block → CircularTable → List Block × CircularTable
save_items zero bs t = (bs, t)
save_items (suc n) bs t = elim (take_first t).0 [
  | none ↦ (bs, t)
  | some item ↦ save_items n (bs ++ saved_block item) (take_first t).1
]

-- `ct_save`: the blocks of the file, and the table, of which no more than `n_items` can be read.
unfoldable pub ct_save : List Block → CircularTable → ℤ × List Block × CircularTable
ct_save bs t = let (bs', t') = save_items t.n_items bs t in (pos 0, bs', t')

-- What `ct_load` does at a block: it goes on with a table, or it returns.
pub data Loading : Type 0 where
  more : CircularTable → Loading
  stop : ℤ → Loading

-- One turn of the loop of `ct_load`, for a table that is not full.
unfoldable pub load_block : Block → CircularTable → ℕ → Loading
load_block short_header t id = stop (pos 4)
load_block bad_tag t id = stop (pos 5)
load_block (short_data k) t id = if not (id == 0) && ltb k id then more t else stop (pos 6)
load_block (good k b) t id =
    if not (id == 0) && ltb k id
    then more t
    else (let (code, t') = put t (record { size = length b; payload = some b; id = k }) in
        if succeeded code then more t' else stop (pos 0))

-- `ct_load` on the blocks behind an offset: the code, the offset behind the last block read, the table.
unfoldable pub ct_load : List Block → CircularTable → ℕ → ℕ → ℤ × ℕ × CircularTable
ct_load [] t id at = if t.n_items == t.size then (negsuc 2, at, t) else (pos 0, at, t)
ct_load (b ∷ bs) t id at =
    if t.n_items == t.size then (negsuc 2, at, t) else elim (load_block b t id) [
      | stop code ↦ (code, at + 1, t)
      | more t' ↦ ct_load bs t' id (at + 1)
    ]
