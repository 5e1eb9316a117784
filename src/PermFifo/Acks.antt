-- ===== src/PermFifo/Acks.antt =====
-- `permFIFO_ack` of src/permanentFIFO.c keeps what the tables and the file hold, if it is called for
-- an item that was read.
use info_logger.Base.{
  ℕ, ◌+◌, ◌≤◌, ◌≡◌, refl, sym, ap, subst, ◌∙◌, false, List, [], ◌++◌, map, some, arith, inl, inr,
  leb, length, drop, length-map, pos, Bool-cases, leb→le,
}
use info_logger.CText.{Bytes}
use info_logger.CircularTable.Holds.{Holds}
use info_logger.FifoFile.{Header}
use info_logger.PermFifo.{PermFifo, Store, ack, ack_file, drop_acked, with_store}
use info_logger.PermFifo.Entries.{item_of, keep, keep-append, keep-none, AllFit-drop, AllFit-nil}
use info_logger.PermFifo.Tables.{drop_acked-prefix}
use info_logger.PermFifo.Stored.{Stored}

-- The disk table behind the loop.
abbrev acked : ℕ → Store → Store
acked id s = record s { table = drop_acked s.table.n_items id s.table }

acked-Stored :
    (id : ℕ) (f : PermFifo) (s : Store) (n : ℕ) (c r : List Bytes) (top : ℕ)
    → Stored f s n c r top
    → id ≤ n
    → Stored f (acked id s) n c r top
acked-Stored id f s n c r top st le =
    let (d', h, fit, new, same) =
      drop_acked-prefix id top st.d s.table st.in_table st.newest st.disk in
    let count : length st.d ≡ s.table.n_items = sym (length-map st.d item_of) ∙ sym st.disk.count in
    let kept : keep (n + length c) (drop f.last_out_offset st.e ++ d')
        ≡ keep (n + length c) (drop f.last_out_offset st.e ++ st.d) =
      keep-append (n + length c) (drop f.last_out_offset st.e) d'
      ∙ (ap (λ xs. keep (n + length c) (drop f.last_out_offset st.e) ++ xs)
            (same (n + length c) (omega arith))
          ∙ sym (keep-append (n + length c) (drop f.last_out_offset st.e) st.d)) in
    record {
      d = d';
      e = st.e;
      client = st.client;
      disk = subst (λ k. Holds (drop_acked k id s.table) (map item_of d')) count h;
      file = st.file;
      last_out = st.last_out;
      rest = kept ∙ st.rest;
      offset = st.offset;
      next_eq = st.next_eq;
      on_file = st.on_file;
      on_disk = st.on_disk;
      in_table = fit;
      newest = new;
    }

-- The file is cut when nothing in it is wanted any more.
cut-Stored :
    (f : PermFifo) (s : Store) (n : ℕ) (c r : List Bytes) (top : ℕ) (header : Header)
    → Stored f s n c r top
    → f.last_id_on_disk ≤ n
    → Stored
        (record f { last_out_offset = 0; ack_on_disk = false })
        (record s { file = record { header = header; blocks = [] } })
        n
        c
        r
        top
cut-Stored f s n c r top header st le =
    let gone : keep (n + length c) (drop f.last_out_offset st.e) ≡ [] =
      keep-none (n + length c) f.last_id_on_disk (drop f.last_out_offset st.e)
        (AllFit-drop f.last_id_on_disk f.last_out_offset st.e st.on_file) (omega arith) in
    record {
      d = st.d;
      e = [];
      client = st.client;
      disk = st.disk;
      file = refl;
      last_out = st.last_out;
      rest =
          sym (
            keep-append (n + length c) (drop f.last_out_offset st.e) st.d
            ∙ ap (λ xs. xs ++ keep (n + length c) st.d) gone)
          ∙ st.rest;
      offset = omega arith;
      next_eq = st.next_eq;
      on_file = AllFit-nil f.last_id_on_disk;
      on_disk = st.on_disk;
      in_table = st.in_table;
      newest = st.newest;
    }

header-Stored :
    (f : PermFifo) (s : Store) (n : ℕ) (c r : List Bytes) (top : ℕ) (header : Header)
    → Stored f s n c r top
    → Stored f (record s { file = record s.file { header = header } }) n c r top
header-Stored f s n c r top header st = record {
  d = st.d;
  e = st.e;
  client = st.client;
  disk = st.disk;
  file = st.file;
  last_out = st.last_out;
  rest = st.rest;
  offset = st.offset;
  next_eq = st.next_eq;
  on_file = st.on_file;
  on_disk = st.on_disk;
  in_table = st.in_table;
  newest = st.newest;
}

-- A struct and a store that hold the same.
abbrev pub Kept : ℕ → List Bytes → List Bytes → ℕ → ℕ → PermFifo × Store → Type 0
Kept n c r top current p = Stored p.0 p.1 n c r top × (p.0.current_id ≡ current)

ack_file-Kept :
    (id : ℕ) (f : PermFifo) (s : Store) (n : ℕ) (c r : List Bytes) (top : ℕ)
    → Stored f s n c r top
    → id ≤ n
    → Kept n c r top f.current_id (ack_file id f s)
unfolding ack_file
ack_file-Kept id f s n c r top st le = elim (Bool-cases (leb f.last_id_on_disk id)) [
  | inl e ↦
      rw e (cut-Stored f s n c r top _ st (omega (arith, leb→le f.last_id_on_disk id e)), refl)
  | inr e ↦ rw e (header-Stored f s n c r top _ st, refl)
]

pub ack-Stored :
    (id : ℕ) (f : PermFifo) (s : Store) (n : ℕ) (c r : List Bytes) (top : ℕ)
    → f.store ≡ some s
    → Stored f s n c r top
    → id ≤ n
    → (p : PermFifo × Store) × (ack f id ≡ (pos 0, with_store p)) × Kept n c r top f.current_id p
unfolding ack
ack-Stored id f s n c r top e st le = elim (Bool-cases f.ack_on_disk) [
  | inl on ↦ (
    ack_file id f (acked id s),
    rw (e, on) refl,
    ack_file-Kept id f (acked id s) n c r top (acked-Stored id f s n c r top st le) le,
  )
  | inr off ↦ ((f, acked id s), rw (e, off) refl, (acked-Stored id f s n c r top st le, refl))
]
