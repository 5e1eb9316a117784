-- ===== src/PermFifo/Stored.antt =====
-- What the tables and the file of a FIFO of src/permanentFIFO.c hold together, and that saving and
-- acknowledging keep it.
use info_logger.Base.{
  ℕ, zero, suc, ◌+◌, ◌≤◌, ◌≡◌, ◌⊎◌, refl, sym, ap, subst, ◌∙◌, Bool, true, List, [], ◌∷◌, ◌++◌, map,
  some, arith, inl, inr, length, drop, map-append, append-nil, length-append, ℤ, pos,
}
use info_logger.CText.{Bytes}
use info_logger.CircularTable.{CircularTable}
use info_logger.CircularTable.Holds.{Holds}
use info_logger.FifoFile.{Block, ct_save}
use info_logger.PermFifo.{PermFifo, Store, save_tabledisk, last_item}
use info_logger.PermFifo.Entries.{
  Entry, item_of, block_of, keep, numbered, AllFit, newest_of, AllFit-weaken, AllFit-append,
  AllFit-nil,
}
use info_logger.PermFifo.Tables.{ct_save-Holds, last_item-Holds, not_empty}

-- `n` items were taken; the client table holds `c`; `r` is what follows in the file and in the disk
-- table, above the ids of `c`. No id is above `top`, the id of the last item in the disk table.
pub record Stored (f : PermFifo) (s : Store) (n : ℕ) (c r : List Bytes) (top : ℕ) : Type 0 where
  pub d : List Entry
  pub e : List Entry
  pub client : Holds f.table_client (map item_of (numbered (suc n) c))
  pub disk : Holds s.table (map item_of d)
  pub file : s.file.blocks ≡ map block_of e
  pub last_out : f.last_id_out ≡ n
  pub rest : keep (n + length c) (drop f.last_out_offset e ++ d) ≡ numbered (suc (n + length c)) r
  pub offset : f.last_out_offset ≤ length e
  pub next_eq : (f.next_id_in_client_table ≡ 0) ⊎ (f.next_id_in_client_table ≡ suc (n + length c))
  pub on_file : AllFit f.last_id_on_disk e
  pub on_disk : f.last_id_on_disk ≤ top
  pub in_table : AllFit top d
  pub newest : newest_of top d ≡ top

pub drop-append {ℓ} :
    {A : Type ℓ} (k : ℕ) (xs ys : List A) → k ≤ length xs → drop k (xs ++ ys) ≡ drop k xs ++ ys
drop-append zero xs ys h = refl
drop-append (suc k) [] ys h = absurd (omega arith)
drop-append (suc k) (x ∷ xs) ys h = drop-append k xs ys (omega arith)

module _ (now : ℕ) (f : PermFifo) (s : Store) where
  save-nothing : s.table.n_items ≡ 0 → save_tabledisk now f s ≡ (record f { last_flush = now }, s)
  unfolding save_tabledisk
  save-nothing h = rw h refl

  -- A FIFO behind a save of what the disk table holds.
  abbrev saved_fifo : ℕ → PermFifo
  saved_fifo top = record f { last_id_on_disk = top; ack_on_disk = true; last_flush = now }

  save-some :
      (k : ℕ) (top : ℕ) (bs : List Block) (t : CircularTable)
      → s.table.n_items ≡ suc k
      → (last_item s.table).id ≡ top
      → ct_save s.file.blocks s.table ≡ (pos 0, bs, t)
      → save_tabledisk now f s
        ≡ (saved_fifo top, record { table = t; file = record s.file { blocks = bs } })
  unfolding save_tabledisk
  save-some k top bs t h i e =
      rw
        (
          not_empty s.table.n_items k h,
          i,
          ap (λ (r : ℤ × List Block × CircularTable). r.1) e,
          ap (λ (r : ℤ × List Block × CircularTable). r.2) e,
        )
        refl

pub List-cases : (xs : List Entry) → (xs ≡ []) ⊎ ((x : Entry) × (ys : List Entry) × (xs ≡ x ∷ ys))
List-cases [] = inl refl
List-cases (x ∷ xs) = inr (x, xs, refl)

-- Other fields do not matter.
pub Stored-flags :
    (f : PermFifo) (s : Store) (n : ℕ) (c r : List Bytes) (top now current next_id : ℕ)
    (flag : Bool)
    → Stored f s n c r top
    → (next_id ≡ 0) ⊎ (next_id ≡ suc (n + length c))
    → Stored
        (record f {
          last_flush = now;
          current_id = current;
          next_id_in_client_table = next_id;
          ack_on_disk = flag;
        })
        s
        n
        c
        r
        top
Stored-flags f s n c r top now current next_id flag st h = record {
  d = st.d;
  e = st.e;
  client = st.client;
  disk = st.disk;
  file = st.file;
  last_out = st.last_out;
  rest = st.rest;
  offset = st.offset;
  next_eq = h;
  on_file = st.on_file;
  on_disk = st.on_disk;
  in_table = st.in_table;
  newest = st.newest;
}

pub Stored-store :
    (f : PermFifo) (s s' : Store) (n : ℕ) (c r : List Bytes) (top : ℕ)
    → Stored f s n c r top
    → Stored (record f { store = some s' }) s n c r top
Stored-store f s s' n c r top st = record {
  d = st.d;
  e = st.e;
  client = st.client;
  disk = st.disk;
  file = st.file;
  last_out = st.last_out;
  rest = st.rest;
  offset = st.offset;
  next_eq = st.next_eq;
  on_file = st.on_file;
  on_disk = st.on_disk;
  in_table = st.in_table;
  newest = st.newest;
}

-- A pair of struct and store that holds the same as before, with nothing left to save.
abbrev pub Saved : ℕ → List Bytes → List Bytes → ℕ → ℕ → PermFifo × Store → Type 0
Saved n c r top current p =
    Stored p.0 p.1 n c r top × Holds p.1.table [] × (p.0.current_id ≡ current)

Saved-entries :
    (now : ℕ) (f : PermFifo) (s : Store) (n : ℕ) (c r : List Bytes) (top : ℕ)
    (st : Stored f s n c r top) (x : Entry) (d : List Entry)
    → st.d ≡ x ∷ d
    → Saved n c r top f.current_id (save_tabledisk now f s)
Saved-entries now f s n c r top st x d de =
    let h : Holds s.table (map item_of (x ∷ d)) = rw de at st.disk in
    let fit : AllFit top (x ∷ d) = rw de at st.in_table in
    let new : newest_of top (x ∷ d) ≡ top = rw de at st.newest in
    let (t, done, empty, same_size) = ct_save-Holds top (x ∷ d) s.file.blocks s.table fit h in
    let both : save_tabledisk now f s ≡ (
      saved_fifo now f s top,
      record { table = t; file = record s.file { blocks = s.file.blocks ++ map block_of (x ∷ d) } },
    ) =
      save-some now f s (length (map item_of d)) top (s.file.blocks ++ map block_of (x ∷ d)) t
        h.count (last_item-Holds s.table top x d h ∙ new) done in
    let moved : drop f.last_out_offset (st.e ++ x ∷ d) ++ [] ≡ drop f.last_out_offset st.e ++ st.d =
      append-nil (drop f.last_out_offset (st.e ++ x ∷ d))
      ∙ (drop-append f.last_out_offset st.e (x ∷ d) st.offset
          ∙ ap (λ xs. drop f.last_out_offset st.e ++ xs) (sym de)) in
    subst (λ p. Saved n c r top f.current_id p) (sym both)
      (
        record {
          d = [];
          e = st.e ++ x ∷ d;
          client = st.client;
          disk = empty;
          file =
              ap (λ bs. bs ++ map block_of (x ∷ d)) st.file
              ∙ sym (map-append block_of st.e (x ∷ d));
          last_out = st.last_out;
          rest = ap (λ xs. keep (n + length c) xs) moved ∙ st.rest;
          offset = omega (arith, length-append st.e (x ∷ d), st.offset);
          next_eq = st.next_eq;
          on_file =
              AllFit-append top st.e (x ∷ d)
                (AllFit-weaken f.last_id_on_disk top st.e st.on_disk st.on_file) fit;
          on_disk = omega arith;
          in_table = AllFit-nil top;
          newest = refl;
        },
        empty,
        refl,
      )

pub save_tabledisk-Stored :
    (now : ℕ) (f : PermFifo) (s : Store) (n : ℕ) (c r : List Bytes) (top : ℕ)
    → Stored f s n c r top
    → Saved n c r top f.current_id (save_tabledisk now f s)
save_tabledisk-Stored now f s n c r top st = elim (List-cases st.d) [
  | inr (x, d, de) ↦ Saved-entries now f s n c r top st x d de
  | inl de ↦
      let h : Holds s.table [] = rw de at st.disk in
      subst (λ p. Saved n c r top f.current_id p) (sym (save-nothing now f s h.count))
        (
          Stored-flags f s n c r top now f.current_id f.next_id_in_client_table f.ack_on_disk st
              st.next_eq,
          h,
          refl,
        )
]
