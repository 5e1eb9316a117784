-- ===== src/PermFifo.antt =====
-- `struct permFIFO` of src/permanentFIFO.c: a FIFO whose items go to a client table as long as it has
-- room, and to a second table that is saved to a file. A call is what it does while it holds the
-- mutex. `time(NULL)` is an argument, and so is what a wait on the condition ends with.
pub mod Queue
pub mod Entries
pub mod Tables
pub mod Lookup
pub mod Load
pub mod Stored
pub mod Acks
pub mod Writes
pub mod Append
pub mod Reads
pub mod ReadStore
pub mod ReadFile
pub mod Trace
pub mod Restart
pub mod Cleaning
pub mod Recover
use info_logger.Base.{
  ℕ, zero, suc, ◌+◌, ◌-◌, ◌%◌, ◌^◌, Bool, true, false, not, ◌&&◌, List, [], ◌∷◌, ◌++◌, map, Option,
  none, some, ltb, leb, ◌==◌, if◌then◌else◌, length, take, drop, get_or, ℤ, pos, negsuc, minus_one,
}
use info_logger.CText.{Bytes, c_str}
use info_logger.Ring.{slot}
use info_logger.CircularTable.{
  Item, empty_item, CircularTable, ct_new, put, take_first, popped, live_from, succeeded,
}
use info_logger.FifoFile.{Block, FifoFile, Header, ct_save, ct_load}
use info_logger.FifoFile.Clean.{Content, fifo, Disk, Calls, healthy, file_clean}

-- What a FIFO with a path has: the table to be saved, and the file.
pub record Store : Type 0 where
  pub table : CircularTable
  pub file : FifoFile

-- `struct permFIFO`; `store` is `none` without a path.
pub record PermFifo : Type 0 where
  pub table_client : CircularTable
  pub store : Option Store
  pub current_id : ℕ
  pub last_id_out : ℕ
  pub last_out_offset : ℕ
  pub next_id_in_client_table : ℕ
  pub last_id_on_disk : ℕ
  pub ack_on_disk : Bool
  pub last_flush : ℕ

-- An addition to an `unsigned long`, and to an `unsigned int`.
unfoldable pub add_u64 : ℕ → ℕ → ℕ
add_u64 a b = (a + b) % 2 ^ 64

unfoldable pub add_u32 : ℕ → ℕ → ℕ
add_u32 a b = (a + b) % 2 ^ 32

-- The last item of a table that has one.
abbrev pub last_item : CircularTable → Item
last_item t = get_or t.items (slot t.size t.index_first (t.n_items - 1)) empty_item

-- `permFIFO_save_tabledisk`, which returns 0
unfoldable pub save_tabledisk : ℕ → PermFifo → Store → PermFifo × Store
save_tabledisk now f s =
    if s.table.n_items == 0
    then (record f { last_flush = now }, s)
    else (let (code, bs, t) = ct_save s.file.blocks s.table in
        (
          record f {
            last_id_on_disk = (last_item s.table).id;
            ack_on_disk = true;
            last_flush = now;
          },
          record { table = t; file = record s.file { blocks = bs } },
        ))

-- The struct with its store put back.
abbrev pub with_store : PermFifo × Store → PermFifo
with_store (f, s) = record f { store = some s }

-- The copy that is made of an item: `memcpy` of `size` bytes.
abbrev pub copy_item : Item → Item
copy_item x = record x { payload = elim x.payload [ none ↦ none | some b ↦ some (take x.size b) ] }

-- The variables of the loop of `permFIFO_read` over the disk table: `k`, `*item`, and two fields.
pub record Gathered : Type 0 where
  pub k : ℕ
  pub item : Item
  pub client : CircularTable
  pub next_id : ℕ

-- What a turn of that loop does.
pub data Turn : Type 0 where
  skip : Turn
  halt : Turn
  take_it : Gathered → Turn

unfoldable pub gather_item : Item → ℕ → Gathered → Turn
gather_item x nextid g =
    if ltb x.id nextid
    then skip
    else if not (x.id == nextid)
    then halt
    else if g.k == 0
    then take_it (record g { k = g.k + 1; item = copy_item x; next_id = add_u64 x.id 1 })
    else (let (code, t) = put g.client (copy_item x) in
        if succeeded code
        then take_it (record g { k = g.k + 1; client = t; next_id = add_u64 x.id 1 })
        else halt)

-- The loop of `permFIFO_read` over the items of the disk table.
unfoldable pub gather : List Item → ℕ → Gathered → Gathered
gather [] nextid g = g
gather (x ∷ xs) nextid g = elim (gather_item x nextid g) [
  | halt ↦ g
  | skip ↦ gather xs nextid g
  | take_it g' ↦ gather xs (add_u32 nextid 1) g'
]

-- `ct_read` into `*item`
unfoldable pub read_client : PermFifo → ℤ × Item × PermFifo
read_client f =
    let (o, t) = take_first f.table_client in
    elim o [
      | none ↦ (minus_one, empty_item, f)
      | some x ↦ (pos 0, x, record f { table_client = t })
    ]

-- `permFIFO_read` behind the load of the client table from the file.
unfoldable pub take_loaded : PermFifo → ℤ × ℕ × CircularTable → ℤ × Item × PermFifo
take_loaded f (code, at, t) = read_client (record f {
  table_client = t;
  last_out_offset = if succeeded code then at else f.last_out_offset;
  next_id_in_client_table =
      if t.n_items == 0 then f.next_id_in_client_table else add_u64 (last_item t).id 1;
})

-- `permFIFO_read` where it loads the client table from the file.
unfoldable pub load_from_file : PermFifo → Store → ℤ × Item × PermFifo
load_from_file f s = take_loaded f (
    ct_load (drop f.last_out_offset s.file.blocks) f.table_client (add_u64 f.last_id_out 1)
      f.last_out_offset)

-- `permFIFO_read` where the client table has no item.
unfoldable pub read_store : PermFifo → Store → ℤ × Item × PermFifo
read_store f s =
    let g = gather (live_from s.table.n_items 0 s.table) (add_u32 f.last_id_out 1) (record {
      k = 0;
      item = empty_item;
      client = f.table_client;
      next_id = f.next_id_in_client_table;
    }) in
    if g.k == 0
    then load_from_file f s
    else (pos 0, g.item, record f { table_client = g.client; next_id_in_client_table = g.next_id })

-- `permFIFO_read` behind the wait, before the id is kept
unfoldable pub fetch : PermFifo → ℤ × Item × PermFifo
fetch f =
    let (o, t) = take_first f.table_client in
    elim o [
      | some x ↦ (pos 0, x, record f { table_client = t })
      | none ↦ elim f.store [ none ↦ (pos 1, empty_item, f) | some s ↦ read_store f s ]
    ]

-- `permFIFO_read` behind the wait
unfoldable pub read_item : PermFifo → ℤ × Item × PermFifo
read_item f =
    let (code, item, g) = fetch f in
    (code, item, if succeeded code then record g { last_id_out = item.id } else g)

-- `permFIFO_read`: the code, `*item` and the struct. A wait ends with whether it timed out, and with
-- what the other threads made of the struct.
unfoldable pub read : PermFifo → ℤ → Bool × PermFifo → ℤ × Item × PermFifo
read f timeout (timed_out, woken) =
    if ltb f.last_id_out f.current_id then read_item f else elim timeout [
      | pos n ↦
          if n == 0
          then (pos 1, empty_item, f)
          else if timed_out
          then (pos 1, empty_item, woken)
          else if ltb woken.last_id_out woken.current_id
          then read_item woken
          else (pos 1, empty_item, woken)
      | negsuc n ↦
          if ltb woken.last_id_out woken.current_id
          then read_item woken
          else (pos 1, empty_item, woken)
    ]

-- `permFIFO_write` where it tries the client table: whether the item is there (`do_copy`).
unfoldable pub offer : Item → ℕ → PermFifo → Store → Bool × PermFifo × Store
offer item now f s =
    if item.id == f.next_id_in_client_table
    then (let (code, t) = put f.table_client item in
        if succeeded code
        then (
          true,
          record f {
            table_client = t;
            next_id_in_client_table = add_u64 f.next_id_in_client_table 1;
          },
          s,
        )
        else (let (g, s') = save_tabledisk now (record f { next_id_in_client_table = 0 }) s in
            (false, g, s')))
    else (false, f, s)

-- `permFIFO_write` where it writes to the disk table, once more after a save.
unfoldable pub write_disk : Item → Bool → ℕ → PermFifo → Store → ℤ × PermFifo
write_disk item do_copy now f s =
    let copy = if do_copy then copy_item item else item in
    let (code, t) = put s.table copy in
    if succeeded code
    then (pos 0, with_store (f, record s { table = t }))
    else (let (g, s') = save_tabledisk now f s in
        let (code', t') = put s'.table copy in
        if succeeded code' then (pos 0, with_store (g, record s' { table = t' })) else (
          code',
          with_store (
            (if do_copy
                then record g {
                  table_client = record g.table_client { n_items = g.table_client.n_items - 1 };
                }
                else g),
            s',
          ),
        ))

-- `permFIFO_write` of an item with its id, with the store of the FIFO.
unfoldable pub write_to : Item → ℕ → PermFifo → Option Store → ℤ × PermFifo
write_to item now f none =
    let (code, t) = put f.table_client item in (code, record f { table_client = t })
write_to item now f (some s) =
    let (do_copy, g, s') = offer item now f s in write_disk item do_copy now g s'

-- `permFIFO_write` of an item, under the mutex.
unfoldable pub write_item : Item → ℕ → PermFifo → ℤ × PermFifo
write_item x now f =
    let id = add_u64 f.current_id 1 in
    write_to (record x { id = id }) now (record f { current_id = id }) f.store

-- `permFIFO_write`; with size 0 the data is a string, of which a copy is made.
unfoldable pub write : PermFifo → Option Bytes → ℤ → ℕ → ℤ × PermFifo
write f none size now = (minus_one, f)
write f (some b) (negsuc n) now = (minus_one, f)
write f (some b) (pos n) now =
    write_item
      (if n == 0
        then record { size = length (c_str b) + 1; payload = some (c_str b ++ 0 ∷ []); id = 0 }
        else record { size = n; payload = some b; id = 0 })
      now f

-- The loop of `permFIFO_ack` over the disk table.
unfoldable pub drop_acked : ℕ → ℕ → CircularTable → CircularTable
drop_acked zero id t = t
drop_acked (suc n) id t =
    if ltb id (get_or t.items t.index_first empty_item).id then t else drop_acked n id (popped t)

-- `permFIFO_ack` where there is data on disk: the file is cut if all of it is acknowledged.
unfoldable pub ack_file : ℕ → PermFifo → Store → PermFifo × Store
ack_file id f s =
    let header : Header = record { last_ack_id = id; current_id = f.last_id_on_disk } in
    if leb f.last_id_on_disk id
    then (
      record f { last_out_offset = 0; ack_on_disk = false },
      record s { file = record { header = header; blocks = [] } },
    )
    else (f, record s { file = record s.file { header = header } })

-- `permFIFO_ack`
unfoldable pub ack : PermFifo → ℕ → ℤ × PermFifo
ack f id = elim f.store [
  | none ↦ (minus_one, f)
  | some s ↦
      let s' = record s { table = drop_acked s.table.n_items id s.table } in
      (pos 0, with_store (if f.ack_on_disk then ack_file id f s' else (f, s')))
]

-- `permFIFO_flush` when the time has come; `none` is an access through NULL, without a path.
unfoldable pub flush_store : ℕ → PermFifo → Option Store → Option (ℤ × PermFifo)
flush_store now f none = none
flush_store now f (some s) = some (pos 0, with_store (save_tabledisk now f s))

-- `permFIFO_flush`
unfoldable pub flush : PermFifo → ℕ → ℕ → Option (ℤ × PermFifo)
flush f timeout now =
    if leb (f.last_flush + timeout) now then flush_store now f f.store else some (pos 0, f)

-- `permFIFO_new` before the header of the file is read
abbrev pub fresh_fifo : CircularTable → Option Store → ℕ → PermFifo
fresh_fifo t s now = record {
  table_client = t;
  store = s;
  current_id = 0;
  last_id_out = 0;
  last_out_offset = 0;
  next_id_in_client_table = 1;
  last_id_on_disk = 0;
  ack_on_disk = false;
  last_flush = now;
}

-- `permFIFO_new` on the file that it opens.
unfoldable pub open_fifo : CircularTable → Option Content → ℕ → Option PermFifo
open_fifo t (some (fifo file)) now =
    some (record (fresh_fifo t (some (record { table = t; file = file })) now) {
      current_id = file.header.current_id;
      last_id_on_disk = file.header.current_id;
      ack_on_disk = not (file.header.current_id == 0);
    })
open_fifo t _ now = none

-- `permFIFO_new` where it cleans the file, once more with a backup after an error.
unfoldable pub clean_twice : (ℕ → Calls) → (ℕ → Calls) → Disk → ℤ × Disk
clean_twice first second d =
    let (err, d1) = file_clean first d false in
    if succeeded err then (err, d1) else file_clean second d1 true

-- `permFIFO_new` behind the cleaning; `opens` says whether the file can be opened.
unfoldable pub make_on : Bool → ℤ → ℕ → ℤ × Disk → Option PermFifo × Option Disk
make_on opens size now (err, d) = (
  (if succeeded err && opens
      then (elim (ct_new size) [ none ↦ none | some t ↦ open_fifo t d.current now ])
      else none),
  some d,
)

-- `permFIFO_new` for a size that is positive, with what the system calls of the two cleanings and the
-- `open` behind them answer; without a path the disk is `none`.
unfoldable pub new_with :
    (ℕ → Calls) → (ℕ → Calls) → Bool → ℤ → Option Disk → ℕ → Option PermFifo × Option Disk
new_with first second opens size none now =
    (elim (ct_new size) [ none ↦ none | some t ↦ some (fresh_fifo t none now) ], none)
new_with first second opens size (some d) now = make_on opens size now (clean_twice first second d)

abbrev pub all_healthy : ℕ → Calls
all_healthy n = healthy

-- `permFIFO_new` where the system calls succeed.
unfoldable pub new : ℤ → Option Disk → ℕ → Option PermFifo × Option Disk
new size o now = new_with all_healthy all_healthy true size o now

-- `permFIFO_destroy`: the file that is left.
unfoldable pub destroy : PermFifo → ℕ → Option FifoFile
destroy f now = elim f.store [
  | none ↦ none
  | some s ↦ let (g, s') = save_tabledisk now f s in some s'.file
]
