-- ===== src/PermFifo/Writes.antt =====
-- `permFIFO_write` of src/permanentFIFO.c appends to what the tables and the file hold.
use info_logger.Base.{
  ℕ, suc, ◌+◌, ◌<◌, ◌≡◌, refl, sym, ap, subst, ◌∙◌, Bool, true, false, List, [], ◌∷◌, ◌++◌, map,
  some, arith, inl, inr, if◌then◌else◌, length, drop, ℤ, pos, append_assoc,
}
use info_logger.CText.{Bytes}
use info_logger.CircularTable.{Item}
use info_logger.CircularTable.Holds.{Holds, put-room, put-full, filled, filled-Holds}
use info_logger.PermFifo.{PermFifo, Store, write_disk, save_tabledisk, with_store, copy_item}
use info_logger.PermFifo.Entries.{
  Entry, item_of, keep, numbered, keep-append, AllFit-weaken, AllFit-append, AllFit-one,
  newest_of-concat,
}
use info_logger.PermFifo.Tables.{take-all}
use info_logger.PermFifo.Lookup.{room_or_full}
use info_logger.PermFifo.Stored.{Stored, save_tabledisk-Stored}
use info_logger.PermFifo.Acks.{Kept}

-- The next entry.
abbrev pub entry : ℕ → Bytes → Entry
entry top b = record { id = suc top; bytes = b }

-- An entry at the end of the disk table.
appended-Stored :
    (f : PermFifo) (s : Store) (n : ℕ) (c r r' : List Bytes) (top : ℕ) (b : Bytes)
    → Stored f s n c r top
    → 0 < length b
    → s.table.n_items < s.table.size
    → numbered (suc (n + length c)) r ++ keep (n + length c) (entry top b ∷ [])
      ≡ numbered (suc (n + length c)) r'
    → Stored f (record s { table = filled s.table (item_of (entry top b)) }) n c r' (suc top)
appended-Stored f s n c r r' top b st nonempty room grown =
    let x = entry top b in
    let file_part = drop f.last_out_offset st.e in
    record {
      d = st.d ++ x ∷ [];
      e = st.e;
      client = st.client;
      disk =
          subst (λ q. Holds (filled s.table (item_of x)) q) (map_concat st.d x)
            (filled-Holds s.table (map item_of st.d) (item_of x) st.disk
              (omega (arith, st.disk.count)));
      file = st.file;
      last_out = st.last_out;
      rest =
          ap (λ xs. keep (n + length c) xs) (sym (append_assoc file_part st.d (x ∷ [])))
          ∙ (keep-append (n + length c) (file_part ++ st.d) (x ∷ [])
              ∙ (ap (λ xs. xs ++ keep (n + length c) (x ∷ [])) st.rest ∙ grown));
      offset = st.offset;
      next_eq = st.next_eq;
      on_file = st.on_file;
      on_disk = omega (arith, st.on_disk);
      in_table =
          AllFit-append (suc top) st.d (x ∷ [])
            (AllFit-weaken top (suc top) st.d (omega arith) st.in_table)
            (AllFit-one (suc top) x (omega arith) nonempty);
      newest = newest_of-concat (suc top) st.d x;
    }
  where
    map_concat :
        (d : List Entry) (x : Entry) → map item_of d ++ item_of x ∷ [] ≡ map item_of (d ++ x ∷ [])
    map_concat [] x = refl
    map_concat (y ∷ d) x = ap (◌∷◌ (item_of y)) (map_concat d x)

abbrev copied : Bool → Item → Item
copied b x = if b then copy_item x else x

copied-item_of : (b : Bool) (x : Entry) → copied b (item_of x) ≡ item_of x
copied-item_of true x =
    ap (λ bs. record { size = length x.bytes; payload = some bs; id = x.id }) (take-all x.bytes)
copied-item_of false x = refl

-- How a write to the disk table ends.
abbrev pub Ends : ℕ → List Bytes → List Bytes → ℕ → ℕ → ℤ × PermFifo → Type 0
Ends n c r top current res =
    (p : PermFifo × Store) × (res ≡ (pos 0, with_store p)) × Kept n c r top current p

write_disk-room :
    (x : Entry) (do_copy : Bool) (now : ℕ) (f : PermFifo) (s : Store) (q : List Item)
    → Holds s.table q
    → length q < s.table.size
    → write_disk (item_of x) do_copy now f s
      ≡ (pos 0, with_store (f, record s { table = filled s.table (item_of x) }))
unfolding write_disk
write_disk-room x do_copy now f s q h room =
    rw (copied-item_of do_copy x, put-room s.table q (item_of x) x.bytes h refl room) refl

write_disk-full :
    (x : Entry) (do_copy : Bool) (now : ℕ) (f : PermFifo) (s : Store) (q : List Item) (g : PermFifo)
    (s' : Store)
    → Holds s.table q
    → length q ≡ s.table.size
    → save_tabledisk now f s ≡ (g, s')
    → Holds s'.table []
    → write_disk (item_of x) do_copy now f s
      ≡ (pos 0, with_store (g, record s' { table = filled s'.table (item_of x) }))
unfolding write_disk
write_disk-full x do_copy now f s q g s' h full saved empty =
    rw
      (
        copied-item_of do_copy x,
        put-full s.table q (item_of x) h full,
        ap (λ (p : PermFifo × Store). p.0) saved,
        ap (λ (p : PermFifo × Store). p.1) saved,
        put-room s'.table [] (item_of x) x.bytes empty refl (omega (arith, empty.first_lt)),
      )
      refl

pub write_disk-Stored :
    (now : ℕ) (do_copy : Bool) (f : PermFifo) (s : Store) (n : ℕ) (c r r' : List Bytes) (top : ℕ)
    (b : Bytes)
    → Stored f s n c r top
    → 0 < length b
    → numbered (suc (n + length c)) r ++ keep (n + length c) (entry top b ∷ [])
      ≡ numbered (suc (n + length c)) r'
    → Ends n c r' (suc top) f.current_id (write_disk (item_of (entry top b)) do_copy now f s)
write_disk-Stored now do_copy f s n c r r' top b st nonempty grown =
    let x = entry top b in
    let q = map item_of st.d in
    elim (room_or_full (length q) s.table.size st.disk.fits) [
      | inl room ↦ (
        (f, record s { table = filled s.table (item_of x) }),
        write_disk-room x do_copy now f s q st.disk room,
        (appended-Stored f s n c r r' top b st nonempty (omega (arith, st.disk.count)) grown, refl),
      )
      | inr full ↦
          let p = save_tabledisk now f s in
          let (st', empty, current) = save_tabledisk-Stored now f s n c r top st in
          (
            (p.0, record p.1 { table = filled p.1.table (item_of x) }),
            write_disk-full x do_copy now f s q p.0 p.1 st.disk full refl empty,
            (
              appended-Stored p.0 p.1 n c r r' top b st' nonempty
                  (omega (arith, empty.count, empty.first_lt)) grown,
              current,
            ),
          )
    ]
