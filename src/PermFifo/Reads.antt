-- ===== src/PermFifo/Reads.antt =====
-- `permFIFO_read` of src/permanentFIFO.c takes the first pending item, wherever it is.
use info_logger.Base.{
  ℕ, suc, ◌+◌, ◌-◌, ◌<◌, ◌≡◌, ◌⊎◌, refl, ap, subst, ◌∙◌, Option, List, ◌∷◌, ◌++◌, map, some, none,
  arith, length, drop, ℤ, pos, ◌^◌,
}
use info_logger.CText.{Bytes}
use info_logger.CircularTable.{Item, empty_item, CircularTable, take_first, popped, live_from}
use info_logger.CircularTable.Holds.{Holds, popped-Holds, take_first-cons}
use info_logger.PermFifo.{
  PermFifo, Store, fetch, read_store, load_from_file, gather, Gathered, add_u32,
}
use info_logger.PermFifo.Entries.{Entry, item_of, keep, numbered}
use info_logger.PermFifo.Tables.{live_from-Holds, not_empty}
use info_logger.PermFifo.Lookup.{add_u32-small}
use info_logger.PermFifo.Stored.{Stored}
use info_logger.PermFifo.Writes.{entry}

-- How the search for an item ends: the first pending one is found.
pub record Fetched (f : PermFifo) (s : Store) (n : ℕ) (c r : List Bytes) (top : ℕ)
    (res : ℤ × Item × PermFifo) : Type 0 where
  pub fifo : PermFifo
  pub first : Bytes
  pub c' : List Bytes
  pub r' : List Bytes
  pub result : res ≡ (pos 0, item_of (entry n first), fifo)
  pub stored : Stored (record fifo { last_id_out = suc n }) s (suc n) c' r' top
  pub parts : c ++ r ≡ first ∷ c' ++ r'
  pub same_store : fifo.store ≡ f.store
  pub same_current : fifo.current_id ≡ f.current_id

fetch-table :
    (f : PermFifo) (x : Item) (t : CircularTable)
    → take_first f.table_client ≡ (some x, t)
    → fetch f ≡ (pos 0, x, record f { table_client = t })
unfolding fetch
fetch-table f x t e =
    rw
      (
        fetch,
        ap (λ (p : Option Item × CircularTable). p.0) e,
        ap (λ (p : Option Item × CircularTable). p.1) e,
      )
      refl

pub fetch-store :
    (f : PermFifo) (s : Store)
    → take_first f.table_client ≡ (none, f.table_client)
    → f.store ≡ some s
    → fetch f ≡ read_store f s
unfolding fetch
fetch-store f s e h =
    rw (fetch, ap (λ (p : Option Item × CircularTable). p.0) e) (store_some f.store h)
  where
    store_some :
        (o : Option Store)
        → o ≡ some s
        → (elim o as (λ o. ℤ × Item × PermFifo) [
          | none ↦ (pos 1, empty_item, f)
          | some s ↦ read_store f s
        ])
          ≡ read_store f s
    store_some o h = rw h refl

-- The client table has an item.
pub fetch-client :
    (f : PermFifo) (s : Store) (n : ℕ) (b : Bytes) (c r : List Bytes) (top : ℕ)
    → Stored f s n (b ∷ c) r top
    → Fetched f s n (b ∷ c) r top (fetch f)
fetch-client f s n b c r top st =
    let x = item_of (entry n b) in
    let q = map item_of (numbered (suc (suc n)) c) in
    let count : n + suc (length c) ≡ suc n + length c = omega arith in
    record {
      fifo = record f { table_client = popped f.table_client };
      first = b;
      c' = c;
      r' = r;
      result =
          fetch-table f x (popped f.table_client) (take_first-cons f.table_client x q st.client);
      stored = record {
        d = st.d;
        e = st.e;
        client = popped-Holds f.table_client x q st.client;
        disk = st.disk;
        file = st.file;
        last_out = refl;
        rest =
            subst (λ k. keep k (drop f.last_out_offset st.e ++ st.d) ≡ numbered (suc k) r) count
              st.rest;
        offset = st.offset;
        next_eq =
            subst (λ k. (f.next_id_in_client_table ≡ 0) ⊎ (f.next_id_in_client_table ≡ suc k)) count
              st.next_eq;
        on_file = st.on_file;
        on_disk = st.on_disk;
        in_table = st.in_table;
        newest = st.newest;
      };
      parts = refl;
      same_store = refl;
      same_current = refl;
    }

-- The start of the loop over the disk table.
abbrev pub start : PermFifo → Gathered
start f = record {
  k = 0;
  item = empty_item;
  client = f.table_client;
  next_id = f.next_id_in_client_table;
}

pub read_store-gather :
    (f : PermFifo) (s : Store) (n : ℕ) (d : List Entry)
    → f.last_id_out ≡ n
    → n + 1 < 2 ^ 32
    → Holds s.table (map item_of d)
    → gather (live_from s.table.n_items 0 s.table) (add_u32 f.last_id_out 1) (start f)
      ≡ gather (map item_of d) (suc n) (start f)
read_store-gather f s n d h w st =
    ap (λ q. gather q (add_u32 f.last_id_out 1) (start f))
      (live_from-Holds s.table (map item_of d) st)
    ∙ ap (λ k. gather (map item_of d) k (start f)) (ap (λ k. add_u32 k 1) h ∙ add_u32-small n w)

pub read_store-found :
    (f : PermFifo) (s : Store) (g : Gathered)
    → gather (live_from s.table.n_items 0 s.table) (add_u32 f.last_id_out 1) (start f) ≡ g
    → 0 < g.k
    → read_store f s
      ≡ (pos 0, g.item, record f { table_client = g.client; next_id_in_client_table = g.next_id })
unfolding read_store
read_store-found f s g e h = rw (e, not_empty g.k (g.k - 1) (omega arith)) refl

pub read_store-missing :
    (f : PermFifo) (s : Store)
    → gather (live_from s.table.n_items 0 s.table) (add_u32 f.last_id_out 1) (start f) ≡ start f
    → read_store f s ≡ load_from_file f s
unfolding read_store
read_store-missing f s e = rw e refl
