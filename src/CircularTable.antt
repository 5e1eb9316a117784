-- ===== src/CircularTable.antt =====
-- The circular table of src/permanentFIFO.c, the part of which its FIFOs are made. A pointer is an
-- `Option`, `none` being NULL. Memory is always given.
pub mod Holds
use info_logger.Base.{
  ℕ, zero, suc, ◌+◌, ◌-◌, Bool, true, false, ◌||◌, List, [], ◌∷◌, Option, none, some, ◌==◌,
  if◌then◌else◌, get_or, set, replicate, ℤ, pos, negsuc, minus_one,
}
use info_logger.CText.{Bytes}
use info_logger.Ring.{slot}

-- `struct FIFO_item`
pub record Item : Type 0 where
  pub size : ℕ
  pub payload : Option Bytes
  pub id : ℕ

-- `EMPTY_FIFO_ITEM`
abbrev pub empty_item : Item
empty_item = record { size = 0; payload = none; id = 0 }

-- `struct circular_table`
pub record CircularTable : Type 0 where
  pub size : ℕ
  pub index_first : ℕ
  pub n_items : ℕ
  pub items : List Item

-- `ct_new`
unfoldable pub ct_new : ℤ → Option CircularTable
ct_new (negsuc n) = none
ct_new (pos zero) = none
ct_new (pos (suc n)) =
    some
      (record { size = suc n; index_first = 0; n_items = 0; items = replicate (suc n) empty_item })

abbrev pub is_null {ℓ} : {A : Type ℓ} → Option A → Bool
is_null none = true
is_null (some a) = false

-- A call returned 0.
abbrev pub succeeded : ℤ → Bool
succeeded (pos zero) = true
succeeded _ = false

-- `ct_write` on a table
unfoldable pub put : CircularTable → Item → ℤ × CircularTable
put t item = if t.size == t.n_items || is_null item.payload then (minus_one, t) else (
  pos 0,
  record t {
    n_items = t.n_items + 1;
    items = set t.items (slot t.size t.index_first t.n_items) item;
  },
)

-- `ct_write`
unfoldable pub ct_write : Option CircularTable → Option Item → ℤ × Option CircularTable
ct_write none item = (minus_one, none)
ct_write (some t) none = (minus_one, some t)
ct_write (some t) (some item) = let (code, t') = put t item in (code, some t')

-- The table without its first item.
abbrev pub popped : CircularTable → CircularTable
popped t = record t {
  items = set t.items t.index_first empty_item;
  n_items = t.n_items - 1;
  index_first = slot t.size t.index_first 1;
}

-- `ct_read` on a table: the item, if there is one.
unfoldable pub take_first : CircularTable → Option Item × CircularTable
take_first t =
    if t.n_items == 0 then (none, t) else (some (get_or t.items t.index_first empty_item), popped t)

-- `ct_read`, with whether there is a place for the item: the item that is put there.
unfoldable pub ct_read : Option CircularTable → Bool → Option Item × Option CircularTable
ct_read none place = (none, none)
ct_read (some t) false = (none, some t)
ct_read (some t) true = let (item, t') = take_first t in (item, some t')

-- The items of a loop over the table, `n` of them from the `i`-th on.
unfoldable pub live_from : ℕ → ℕ → CircularTable → List Item
live_from zero i t = []
live_from (suc n) i t =
    get_or t.items (slot t.size t.index_first i) empty_item ∷ live_from n (i + 1) t
