-- ===== src/PermFifo/ReadStore.antt =====
-- `permFIFO_read` of src/permanentFIFO.c with an empty client table: the pending items in the disk
-- table, and those that are loaded from the file.
use info_logger.Base.{
  ℕ, zero, suc, ◌+◌, ◌≤◌, ◌<◌, ◌≡◌, refl, sym, ap, subst, ◌∙◌, Option, List, [], ◌∷◌, ◌++◌, map,
  some, arith, inr, ◌==◌, if◌then◌else◌, length, drop, ℤ, pos, ◌^◌,
}
use info_logger.CText.{Bytes}
use info_logger.CircularTable.{Item, CircularTable, take_first, popped, succeeded}
use info_logger.CircularTable.Holds.{Holds, popped-Holds, take_first-cons}
use info_logger.PermFifo.{
  PermFifo, Store, read_store, load_from_file, take_loaded, gather, add_u64, last_item, read_client,
}
use info_logger.PermFifo.Entries.{Entry, item_of, keep, numbered, newest_of, keep-beyond}
use info_logger.PermFifo.Tables.{last_item-Holds, not_empty}
use info_logger.PermFifo.Lookup.{add_u64-small, gather-found, Ran, first_of, rest_of}
use info_logger.PermFifo.Stored.{Stored}
use info_logger.PermFifo.Writes.{entry}
use info_logger.PermFifo.Reads.{Fetched, start, read_store-gather, read_store-found}

plus_zero : (n : ℕ) → n + 0 ≡ n
plus_zero n = omega arith

-- What is pending, when the client table is empty.
pub pending-keep :
    (f : PermFifo) (s : Store) (n : ℕ) (r : List Bytes) (top : ℕ) (st : Stored f s n [] r top)
    → keep n (drop f.last_out_offset st.e ++ st.d) ≡ numbered (suc n) r
pending-keep f s n r top st =
    subst (λ k. keep k (drop f.last_out_offset st.e ++ st.d) ≡ numbered (suc k) r) (plus_zero n)
      st.rest

-- All that is pending is in the disk table.
pub fetch-found :
    (f : PermFifo) (s : Store) (n : ℕ) (b : Bytes) (r : List Bytes) (top : ℕ)
    (st : Stored f s n [] (b ∷ r) top)
    → suc n + length (b ∷ r) < 2 ^ 32
    → keep n st.d ≡ numbered (suc n) (b ∷ r)
    → Fetched f s n [] (b ∷ r) top (read_store f s)
fetch-found f s n b r top st w k =
    let g = gather (map item_of st.d) (suc n) (start f) in
    let ran : Ran (suc n) (suc (suc n)) [] r (item_of (entry n b)) g =
      gather-found st.d n b r (start f) k w st.client refl in
    let all = drop f.last_out_offset st.e ++ st.d in
    let count : n + suc (length ran.in_) ≡ suc n + length ran.in_ = omega arith in
    let later : keep (n + suc (length ran.in_)) all
        ≡ numbered (suc (n + suc (length ran.in_))) ran.left =
      keep-beyond n all (b ∷ ran.in_) ran.left
        (pending-keep f s n (b ∷ r) top st ∙ ap (λ ys. numbered (suc n) (b ∷ ys)) ran.parts) in
    record {
      fifo = record f { table_client = g.client; next_id_in_client_table = g.next_id };
      first = b;
      c' = ran.in_;
      r' = ran.left;
      result =
          read_store-found f s g (read_store-gather f s n st.d st.last_out (omega arith) st.disk)
            ran.some_found
          ∙ ap
              (λ x. (
                pos 0,
                x,
                record f { table_client = g.client; next_id_in_client_table = g.next_id },
              ))
              ran.item_eq;
      stored = record {
        d = st.d;
        e = st.e;
        client = ran.client;
        disk = st.disk;
        file = st.file;
        last_out = refl;
        rest = subst (λ j. keep j all ≡ numbered (suc j) ran.left) count later;
        offset = st.offset;
        next_eq = inr (omega (arith, ran.next_eq));
        on_file = st.on_file;
        on_disk = st.on_disk;
        in_table = st.in_table;
        newest = st.newest;
      };
      parts = ap (◌∷◌ b) ran.parts;
      same_store = refl;
      same_current = refl;
    }

-- A run in two parts is two runs.
pub numbered-split :
    (k : ℕ) (r : List Bytes) (xs ys : List Entry)
    → xs ++ ys ≡ numbered k r
    → (r1 : List Bytes) × (r2 : List Bytes) × (r ≡ r1 ++ r2)
      × (xs ≡ numbered k r1)
      × (ys ≡ numbered (k + length r1) r2)
numbered-split k r [] ys h = ([], r, refl, refl, h ∙ ap (λ j. numbered j r) (sym (plus_zero k)))
numbered-split k [] (x ∷ xs) ys h = absurd cc
numbered-split k (b ∷ r) (x ∷ xs) ys h =
    let (r1, r2, e, h1, h2) = numbered-split (suc k) r xs ys (ap rest_of h) in
    let xe : x ≡ record { id = k; bytes = b } = ap (λ l. first_of x l) h in
    (
      b ∷ r1,
      r2,
      ap (◌∷◌ b) e,
      ap (λ z. z ∷ xs) xe ∙ ap (◌∷◌ (record { id = k; bytes = b })) h1,
      h2 ∙ ap (λ j. numbered j r2) (omega arith),
    )

newest_of-numbered :
    (k m : ℕ) (b : Bytes) (bs : List Bytes) → newest_of k (numbered m (b ∷ bs)) ≡ m + length bs
newest_of-numbered k m b [] = omega arith
newest_of-numbered k m b (c ∷ bs) = newest_of-numbered m (suc m) c bs ∙ omega arith

pub drop-map {ℓ κ} :
    {A : Type ℓ} {B : Type κ} (g : A → B) (k : ℕ) (xs : List A)
    → drop k (map g xs) ≡ map g (drop k xs)
drop-map g zero xs = refl
drop-map g (suc k) [] = refl
drop-map g (suc k) (x ∷ xs) = drop-map g k xs

-- The struct behind a load that ended with a table, before the item is taken from it.
abbrev pub behind_load : PermFifo → ℕ → ℕ → CircularTable → PermFifo
behind_load f offset next_id t = record f {
  table_client = t;
  last_out_offset = offset;
  next_id_in_client_table = next_id;
}

read_client-taken :
    (f : PermFifo) (x : Item) (t : CircularTable)
    → take_first f.table_client ≡ (some x, t)
    → read_client f ≡ (pos 0, x, record f { table_client = t })
unfolding read_client
read_client-taken f x t e =
    rw
      (
        read_client,
        ap (λ (p : Option Item × CircularTable). p.0) e,
        ap (λ (p : Option Item × CircularTable). p.1) e,
      )
      refl

pub take_loaded-taken :
    (f : PermFifo) (n : ℕ) (b : Bytes) (bs : List Bytes) (code : ℤ) (at_ : ℕ) (t : CircularTable)
    → suc n + length bs + 1 < 2 ^ 32
    → Holds t (map item_of (numbered (suc n) (b ∷ bs)))
    → take_loaded f (code, at_, t) ≡ (
      pos 0,
      item_of (entry n b),
      behind_load f
          (if succeeded code then at_ else f.last_out_offset)
          (suc (suc n + length bs))
          (popped t),
    )
unfolding take_loaded
take_loaded-taken f n b bs code at_ t w h =
    let newest : (last_item t).id ≡ suc n + length bs =
      last_item-Holds t 0 (entry n b) (numbered (suc (suc n)) bs) h
      ∙ newest_of-numbered 0 (suc n) b bs in
    let next : add_u64 (last_item t).id 1 ≡ suc (suc n + length bs) =
      ap (λ k. add_u64 k 1) newest ∙ add_u64-small (suc n + length bs) w in
    let g =
      behind_load f (if succeeded code then at_ else f.last_out_offset)
        (if t.n_items == 0 then f.next_id_in_client_table else add_u64 (last_item t).id 1) t in
    read_client-taken g (item_of (entry n b)) (popped t)
      (take_first-cons t (item_of (entry n b)) (map item_of (numbered (suc (suc n)) bs)) h)
    ∙ ap
        (λ k. (
          pos 0,
          item_of (entry n b),
          behind_load f (if succeeded code then at_ else f.last_out_offset) k (popped t),
        ))
        (rw (not_empty t.n_items (length (map item_of (numbered (suc (suc n)) bs))) h.count) next)

-- The state that is left, when what is behind the new offset is what is wanted.
pub load-Fetched :
    (f : PermFifo) (s : Store) (n : ℕ) (b : Bytes) (bs left : List Bytes) (r : List Bytes)
    (top offset : ℕ) (t : CircularTable)
    → (st : Stored f s n [] r top) → r ≡ (b ∷ bs) ++ left
    → Holds t (map item_of (numbered (suc n) (b ∷ bs)))
    → keep (n + suc (length bs)) (drop offset st.e ++ st.d)
      ≡ numbered (suc (n + suc (length bs))) left
    → offset ≤ length st.e
    → load_from_file f s
      ≡ (pos 0, item_of (entry n b), behind_load f offset (suc (suc n + length bs)) (popped t))
    → Fetched f s n [] r top (load_from_file f s)
load-Fetched f s n b bs left r top offset t st parts h rest fits result =
    let count : n + suc (length bs) ≡ suc n + length bs = omega arith in
    record {
      fifo = behind_load f offset (suc (suc n + length bs)) (popped t);
      first = b;
      c' = bs;
      r' = left;
      result = result;
      stored = record {
        d = st.d;
        e = st.e;
        client = popped-Holds t (item_of (entry n b)) (map item_of (numbered (suc (suc n)) bs)) h;
        disk = st.disk;
        file = st.file;
        last_out = refl;
        rest = subst (λ k. keep k (drop offset st.e ++ st.d) ≡ numbered (suc k) left) count rest;
        offset = fits;
        next_eq = inr refl;
        on_file = st.on_file;
        on_disk = st.on_disk;
        in_table = st.in_table;
        newest = st.newest;
      };
      parts = parts;
      same_store = refl;
      same_current = refl;
    }
