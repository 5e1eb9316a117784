-- ===== src/PermFifo/Append.antt =====
-- `permFIFO_write` of src/permanentFIFO.c as a whole: the item goes to the end of what is pending.
use info_logger.Base.{
  ℕ, suc, ◌+◌, ◌-◌, ◌≤◌, ◌<◌, ◌≡◌, ◌⊎◌, refl, sym, ap, subst, ◌∙◌, Bool, true, false, List, [], ◌∷◌,
  ◌++◌, map, some, arith, inl, inr, ◌==◌, length, drop, length-map, length-concat, ℤ, pos,
  Bool-cases, ==_iff, ◌^◌, append_assoc, append-nil, lt→ltb, le→ltb_false,
}
use info_logger.CText.{Bytes}
use info_logger.CircularTable.{Item}
use info_logger.CircularTable.Holds.{Holds, put-room, put-full, filled, filled-Holds}
use info_logger.PermFifo.{
  PermFifo, Store, write, write_item, write_to, write_disk, offer, save_tabledisk, with_store,
  add_u64,
}
use info_logger.PermFifo.Entries.{
  Entry, item_of, keep, numbered, keep-keep, numbered-append, length-numbered,
}
use info_logger.PermFifo.Tables.{not_empty}
use info_logger.PermFifo.Lookup.{add_u64-small, numbered-concat, room_or_full}
use info_logger.PermFifo.Stored.{Stored, Stored-flags, save_tabledisk-Stored}
use info_logger.PermFifo.Writes.{entry, write_disk-Stored}

-- What is behind the client table gets one more.
grown_rest :
    (m : ℕ) (r : List Bytes) (top : ℕ) (b : Bytes)
    → top ≡ m + length r
    → numbered (suc m) r ++ keep m (entry top b ∷ []) ≡ numbered (suc m) (r ++ b ∷ [])
grown_rest m r top b h = rw (lt→ltb m (suc top) (omega arith)) (
    ap (λ i. numbered (suc m) r ++ record { id = i; bytes = b } ∷ []) (omega arith)
    ∙ sym (numbered-append (suc m) r (b ∷ [])))

-- What is in the client table already does not count as behind it.
grown_none :
    (m top : ℕ) (b : Bytes)
    → suc top ≤ m
    → numbered (suc m) [] ++ keep m (entry top b ∷ []) ≡ numbered (suc m) []
grown_none m top b h = rw (le→ltb_false m (suc top) h) refl

-- The item is put in the client table.
offered-Stored :
    (f : PermFifo) (s : Store) (n : ℕ) (c : List Bytes) (top : ℕ) (b : Bytes)
    → Stored f s n c [] top
    → top ≡ n + length c
    → length c < f.table_client.size
    → Stored
        (record f {
          table_client = filled f.table_client (item_of (entry top b));
          next_id_in_client_table = suc (suc top);
        })
        s
        n
        (c ++ b ∷ [])
        []
        top
offered-Stored f s n c top b st at room =
    let all = drop f.last_out_offset st.e ++ st.d in
    let more : n + length (c ++ b ∷ []) ≡ suc (n + length c) = omega (arith, length-concat c b) in
    record {
      d = st.d;
      e = st.e;
      client =
          subst (λ q. Holds (filled f.table_client (item_of (entry top b))) q)
            (numbered-concat (suc n) (suc top) c b (omega arith))
            (filled-Holds f.table_client (map item_of (numbered (suc n) c)) (item_of (entry top b))
              st.client
              (omega (arith, length-map (numbered (suc n) c) item_of, length-numbered (suc n) c)));
      disk = st.disk;
      file = st.file;
      last_out = st.last_out;
      rest =
          subst (λ k. keep k all ≡ []) (sym more)
            (sym (keep-keep (n + length c) (suc (n + length c)) all (omega arith))
              ∙ ap (λ xs. keep (suc (n + length c)) xs) st.rest);
      offset = st.offset;
      next_eq = inr (omega arith);
      on_file = st.on_file;
      on_disk = st.on_disk;
      in_table = st.in_table;
      newest = st.newest;
    }

-- The pending items behind a write.
pub record Appended (n : ℕ) (c r : List Bytes) (top : ℕ) (b : Bytes) (res : ℤ × PermFifo)
    : Type 0 where
  pub fifo : PermFifo
  pub store : Store
  pub c' : List Bytes
  pub r' : List Bytes
  pub result : res ≡ (pos 0, with_store (fifo, store))
  pub stored : Stored fifo store n c' r' (suc top)
  pub parts : c' ++ r' ≡ (c ++ r) ++ b ∷ []
  pub current : fifo.current_id ≡ suc top

-- The item goes to the disk table only.
behind :
    (now : ℕ) (f : PermFifo) (s : Store) (n : ℕ) (c r : List Bytes) (top : ℕ) (b : Bytes)
    → Stored f s n c r top
    → 0 < length b
    → top ≡ n + length c + length r
    → f.current_id ≡ suc top
    → Appended n c r top b (write_disk (item_of (entry top b)) false now f s)
behind now f s n c r top b st nonempty at cur =
    let (p, e, (st', current)) =
      write_disk-Stored now false f s n c r (r ++ b ∷ []) top b st nonempty
        (grown_rest (n + length c) r top b at) in
    record {
      fifo = p.0;
      store = p.1;
      c' = c;
      r' = r ++ b ∷ [];
      result = e;
      stored = st';
      parts = sym (append_assoc c r (b ∷ []));
      current = current ∙ cur;
    }

-- The item goes to both tables.
in_both :
    (now : ℕ) (f : PermFifo) (s : Store) (n : ℕ) (c : List Bytes) (top : ℕ) (b : Bytes)
    → Stored f s n c [] top
    → 0 < length b
    → top ≡ n + length c
    → f.current_id ≡ suc top
    → length c < f.table_client.size
    → Appended n c [] top b (
        write_disk
          (item_of (entry top b))
          true
          now
          (record f {
            table_client = filled f.table_client (item_of (entry top b));
            next_id_in_client_table = suc (suc top);
          })
          s)
in_both now f s n c top b st nonempty at cur room =
    let g = record f {
      table_client = filled f.table_client (item_of (entry top b));
      next_id_in_client_table = suc (suc top);
    } in
    let (p, e, (st', current)) =
      write_disk-Stored now true g s n (c ++ b ∷ []) [] [] top b
        (offered-Stored f s n c top b st at room) nonempty
        (grown_none (n + length (c ++ b ∷ [])) top b (omega (arith, length-concat c b))) in
    record {
      fifo = p.0;
      store = p.1;
      c' = c ++ b ∷ [];
      r' = [];
      result = e;
      stored = st';
      parts = append-nil (c ++ b ∷ []) ∙ ap (λ xs. xs ++ b ∷ []) (sym (append-nil c));
      current = current ∙ cur;
    }

-- The three ways of the attempt at the client table.
offer-other :
    (x : Item) (now : ℕ) (f : PermFifo) (s : Store)
    → (x.id == f.next_id_in_client_table) ≡ false
    → offer x now f s ≡ (false, f, s)
unfolding offer
offer-other x now f s e = rw e refl

offer-room :
    (x : Entry) (now : ℕ) (f : PermFifo) (s : Store) (q : List Item)
    → (x.id == f.next_id_in_client_table) ≡ true
    → x.id + 1 < 2 ^ 32
    → Holds f.table_client q
    → length q < f.table_client.size
    → offer (item_of x) now f s ≡ (
      true,
      record f {
        table_client = filled f.table_client (item_of x);
        next_id_in_client_table = suc x.id;
      },
      s,
    )
unfolding offer
offer-room x now f s q e w h room =
    rw
      (
        e,
        put-room f.table_client q (item_of x) x.bytes h refl room,
        sym ((==_iff x.id f.next_id_in_client_table).0 e),
        add_u64-small x.id w,
      )
      refl

offer-full :
    (x : Item) (now : ℕ) (f : PermFifo) (s : Store) (q : List Item)
    → (x.id == f.next_id_in_client_table) ≡ true
    → Holds f.table_client q
    → length q ≡ f.table_client.size
    → offer x now f s ≡ (
        let p = save_tabledisk now (record f { next_id_in_client_table = 0 }) s in
        (false, p.0, p.1))
unfolding offer
offer-full x now f s q e h full = rw (e, put-full f.table_client q x h full) refl

-- A call with data of its size, up to the attempt at the client table.
write-offer :
    (f : PermFifo) (s : Store) (b : Bytes) (now top : ℕ) (do_copy : Bool) (g : PermFifo)
    (s' : Store)
    → f.store ≡ some s
    → 0 < length b
    → f.current_id ≡ top
    → top + 1 < 2 ^ 32
    → offer (item_of (entry top b)) now (record f { current_id = suc top }) s ≡ (do_copy, g, s')
    → write f (some b) (pos (length b)) now ≡ write_disk (item_of (entry top b)) do_copy now g s'
unfolding write write_item write_to
write-offer f s b now top do_copy g s' e nonempty at w o =
    rw (not_empty (length b) (length b - 1) (omega arith), next_id)
      (ap (λ y. write_to (item_of (entry top b)) now (record f { current_id = suc top }) y) e
        ∙ ap (λ (p : Bool × PermFifo × Store). write_disk (item_of (entry top b)) p.0 now p.1 p.2)
            o)
  where
    next_id : add_u64 f.current_id 1 ≡ suc top
    next_id = rw at (add_u64-small top w)

no_rest : (r : List Bytes) → length r ≡ 0 → r ≡ []
no_rest [] h = refl
no_rest (b ∷ r) h = absurd (omega arith)

-- The item is the next one for the client table.
write-next :
    (f : PermFifo) (s : Store) (n : ℕ) (c : List Bytes) (top : ℕ) (b : Bytes) (now : ℕ)
    → Stored f s n c [] top
    → f.store ≡ some s
    → f.current_id ≡ top
    → top ≡ n + length c
    → 0 < length b
    → suc top + 1 < 2 ^ 32
    → (suc top == f.next_id_in_client_table) ≡ true
    → Appended n c [] top b (write f (some b) (pos (length b)) now)
write-next f s n c top b now st e cur at nonempty w same =
    let x = entry top b in
    let f' = record f { current_id = suc top } in
    let q = map item_of (numbered (suc n) c) in
    let l : length q ≡ length c =
      length-map (numbered (suc n) c) item_of ∙ length-numbered (suc n) c in
    elim (room_or_full (length q) f.table_client.size st.client.fits) [
      | inl room ↦
          let st' : Stored f' s n c [] top =
            Stored-flags f s n c [] top f.last_flush (suc top) f.next_id_in_client_table
              f.ack_on_disk st st.next_eq in
          subst (λ res. Appended n c [] top b res)
            (sym (
              write-offer f s b now top true _ s e nonempty cur (omega arith)
                (offer-room x now f' s q same w st.client room)))
            (in_both now f' s n c top b st' nonempty at refl (omega arith))
      | inr full ↦
          let f0 = record f' { next_id_in_client_table = 0 } in
          let p = save_tabledisk now f0 s in
          let (st', empty, current) =
            save_tabledisk-Stored now f0 s n c [] top
              (Stored-flags f s n c [] top f.last_flush (suc top) 0 f.ack_on_disk st (inl refl)) in
          subst (λ res. Appended n c [] top b res)
            (sym (
              write-offer f s b now top false p.0 p.1 e nonempty cur (omega arith)
                (offer-full (item_of x) now f' s q same st.client full)))
            (behind now p.0 p.1 n c [] top b st' nonempty (omega arith) current)
    ]

pub write-Appended :
    (f : PermFifo) (s : Store) (n : ℕ) (c r : List Bytes) (top : ℕ) (b : Bytes) (now : ℕ)
    → Stored f s n c r top
    → f.store ≡ some s
    → f.current_id ≡ top
    → top ≡ n + length c + length r
    → 0 < length b
    → suc top + 1 < 2 ^ 32
    → Appended n c r top b (write f (some b) (pos (length b)) now)
write-Appended f s n c r top b now st e cur at nonempty w =
    let x = entry top b in
    let f' = record f { current_id = suc top } in
    let st' : Stored f' s n c r top =
      Stored-flags f s n c r top f.last_flush (suc top) f.next_id_in_client_table f.ack_on_disk st
        st.next_eq in
    elim (Bool-cases (suc top == f.next_id_in_client_table)) [
      | inr other ↦
          subst (λ res. Appended n c r top b res)
            (sym (
              write-offer f s b now top false f' s e nonempty cur (omega arith)
                (offer-other (item_of x) now f' s other)))
            (behind now f' s n c r top b st' nonempty at refl)
      | inl same ↦
          let last : r ≡ [] = no_rest r (
            at_end f.next_id_in_client_table st.next_eq
              ((==_iff (suc top) f.next_id_in_client_table).0 same)) in
          subst (λ ys. Appended n c ys top b (write f (some b) (pos (length b)) now)) (sym last)
            (write-next f s n c top b now (subst (λ ys. Stored f s n c ys top) last st) e cur
              (omega (arith, ap (λ ys. length ys) last)) nonempty w same)
    ]
  where
    at_end : (k : ℕ) → (k ≡ 0) ⊎ (k ≡ suc (n + length c)) → suc top ≡ k → length r ≡ 0
    at_end k (inl h) i = absurd (omega arith)
    at_end k (inr h) i = omega arith
