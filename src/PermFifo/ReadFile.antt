-- ===== src/PermFifo/ReadFile.antt =====
-- `permFIFO_read` of src/permanentFIFO.c with an empty client table finds the first pending item: the
-- load from the file, and the choice between it and the disk table.
use info_logger.Base.{
  ℕ, suc, ◌+◌, ◌<◌, ◌≡◌, ◌⊎◌, refl, sym, ap, subst, ◌∙◌, List, [], ◌∷◌, ◌++◌, map, arith, inl, inr,
  length, drop, length-drop, length-append, ℤ, pos, negsuc, ◌^◌, append_assoc,
}
use info_logger.CText.{Bytes}
use info_logger.CircularTable.{CircularTable, popped}
use info_logger.CircularTable.Holds.{Holds}
use info_logger.FifoFile.{ct_load}
use info_logger.PermFifo.{PermFifo, Store, read_store, load_from_file, take_loaded, add_u64}
use info_logger.PermFifo.Entries.{
  Entry, item_of, block_of, keep, numbered, keep-append, keep-beyond,
}
use info_logger.PermFifo.Lookup.{add_u64-small, gather-beyond}
use info_logger.PermFifo.Load.{Loaded, ct_load-Loads}
use info_logger.PermFifo.Stored.{Stored, List-cases}
use info_logger.PermFifo.Writes.{entry}
use info_logger.PermFifo.Reads.{Fetched, start, read_store-gather, read_store-missing}
use info_logger.PermFifo.ReadStore.{
  pending-keep, fetch-found, numbered-split, drop-map, take_loaded-taken, load-Fetched, behind_load,
}

drop-all {ℓ} : {A : Type ℓ} (xs : List A) → drop (length xs) xs ≡ []
drop-all [] = refl
drop-all (x ∷ xs) = drop-all xs

-- The load ended with the part `b ∷ bs` of what is in the file.
loaded-Fetched :
    (f : PermFifo) (s : Store) (n : ℕ) (b : Bytes) (bs left r2 r : List Bytes) (top : ℕ) (code : ℤ)
    (at_ : ℕ) (t : CircularTable)
    → (st : Stored f s n [] r top) → r ≡ (b ∷ bs) ++ (left ++ r2)
    → suc n + length r < 2 ^ 32
    → keep n (drop f.last_out_offset st.e) ≡ numbered (suc n) ((b ∷ bs) ++ left)
    → Holds t (map item_of (numbered (suc n) (b ∷ bs)))
    → ((code ≡ pos 0) × (at_ ≡ length st.e) × (left ≡ [])) ⊎ (code ≡ negsuc 2)
    → load_from_file f s ≡ take_loaded f (code, at_, t)
    → Fetched f s n [] r top (load_from_file f s)
loaded-Fetched f s n b bs left r2 r top code at_ t st parts w kf h ending le =
    let file_part = drop f.last_out_offset st.e in
    let m = n + suc (length bs) in
    let behind : keep m (file_part ++ st.d) ≡ numbered (suc m) (left ++ r2) =
      keep-beyond n (file_part ++ st.d) (b ∷ bs) (left ++ r2)
        (pending-keep f s n r top st ∙ ap (λ ys. numbered (suc n) ys) parts) in
    let size : suc n + length bs + 1 < 2 ^ 32 =
      omega (arith, ap (λ ys. length ys) parts, length-append bs (left ++ r2)) in
    let result = le ∙ take_loaded-taken f n b bs code at_ t size h in
    elim ending [
      | inl (ok, end, all) ↦
          let none_left : keep m file_part ≡ [] =
            keep-beyond n file_part (b ∷ bs) left kf ∙ ap (λ ys. numbered (suc m) ys) all in
          let rest : keep m (drop (length st.e) st.e ++ st.d) ≡ numbered (suc m) (left ++ r2) =
            ap (λ xs. keep m (xs ++ st.d)) (drop-all st.e)
            ∙ (ap (λ xs. xs ++ keep m st.d) (sym none_left)
                ∙ (sym (keep-append m file_part st.d) ∙ behind)) in
          load-Fetched f s n b bs (left ++ r2) r top (length st.e) t st parts h rest (omega arith) (
            result
            ∙ ap
                (λ k. (
                  pos 0,
                  item_of (entry n b),
                  behind_load f k (suc (suc n + length bs)) (popped t),
                ))
                (rw (ok, end) refl))
      | inr full ↦
          load-Fetched f s n b bs (left ++ r2) r top f.last_out_offset t st parts h behind st.offset
            (result
              ∙ ap
                  (λ k. (
                    pos 0,
                    item_of (entry n b),
                    behind_load f k (suc (suc n + length bs)) (popped t),
                  ))
                  (rw full refl))
    ]

-- The first entry is loaded, as the client table has room for it.
loaded-some :
    (f : PermFifo) (s : Store) (n : ℕ) (r1 r2 r : List Bytes) (b : Bytes) (top : ℕ)
    (res : ℤ × ℕ × CircularTable)
    → (st : Stored f s n [] r top) → r ≡ (b ∷ r1) ++ r2
    → suc n + length r < 2 ^ 32
    → keep n (drop f.last_out_offset st.e) ≡ numbered (suc n) (b ∷ r1)
    → (in_ left : List Bytes) → b ∷ r1 ≡ in_ ++ left
    → Holds res.2 (map item_of (numbered (suc n) in_))
    → ((res.0 ≡ pos 0) × (res.1 ≡ length st.e) × (left ≡ []))
      ⊎ ((res.0 ≡ negsuc 2) × (length in_ ≡ f.table_client.size))
    → load_from_file f s ≡ take_loaded f res
    → Fetched f s n [] r top (load_from_file f s)
loaded-some f s n r1 r2 r b top res st parts w kf [] left split h (inl (ok, end, all)) le =
    absurd cc
loaded-some f s n r1 r2 r b top res st parts w kf [] left split h (inr (code, full)) le =
    absurd (omega (arith, full, st.client.first_lt))
loaded-some f s n r1 r2 r b top res st parts w kf (x ∷ bs) left split h ending le =
    loaded-Fetched f s n x bs left r2 r top res.0 res.1 res.2 st
      (parts ∙ (ap (λ ys. ys ++ r2) split ∙ append_assoc (x ∷ bs) left r2)) w
      (kf ∙ ap (λ ys. numbered (suc n) ys) split) h
      (elim ending [ inl h ↦ inl h | inr h ↦ inr h.0 ]) le

load_from_file-eq :
    (f : PermFifo) (s : Store)
    → load_from_file f s
      ≡ take_loaded f (
          ct_load
            (drop f.last_out_offset s.file.blocks)
            f.table_client
            (add_u64 f.last_id_out 1)
            f.last_out_offset)
unfolding load_from_file
load_from_file-eq f s = refl

-- The load from the file, which holds the part `b ∷ r1` of what is pending.
fetch-loaded :
    (f : PermFifo) (s : Store) (n : ℕ) (b : Bytes) (r1 r2 r : List Bytes) (top : ℕ)
    (st : Stored f s n [] r top)
    → r ≡ (b ∷ r1) ++ r2
    → suc n + length r < 2 ^ 32
    → keep n (drop f.last_out_offset st.e) ≡ numbered (suc n) (b ∷ r1)
    → Fetched f s n [] r top (load_from_file f s)
fetch-loaded f s n b r1 r2 r top st parts w kf =
    let file_part = drop f.last_out_offset st.e in
    let res = ct_load (map block_of file_part) f.table_client (suc n) f.last_out_offset in
    let at_end : length st.e ≡ f.last_out_offset + length file_part =
      omega (arith, st.offset, length-drop f.last_out_offset st.e) in
    let l : Loaded (suc n) f.table_client.size (length st.e) [] (b ∷ r1) res =
      ct_load-Loads file_part n n (suc n) (length st.e) f.last_out_offset [] (b ∷ r1) f.table_client
        kf (omega arith) (omega arith) st.client at_end in
    let blocks : drop f.last_out_offset s.file.blocks ≡ map block_of file_part =
      ap (λ bs. drop f.last_out_offset bs) st.file ∙ drop-map block_of f.last_out_offset st.e in
    let id : add_u64 f.last_id_out 1 ≡ suc n =
      ap (λ k. add_u64 k 1) st.last_out ∙ add_u64-small n (omega arith) in
    loaded-some f s n r1 r2 r b top res st parts w kf l.in_ l.left l.parts l.table l.ending (
      load_from_file-eq f s
      ∙ (ap
            (λ bs.
              take_loaded f (ct_load bs f.table_client (add_u64 f.last_id_out 1) f.last_out_offset))
            blocks
          ∙ ap
              (λ k.
                take_loaded f (ct_load (map block_of file_part) f.table_client k f.last_out_offset))
              id))

fetch-split :
    (f : PermFifo) (s : Store) (n : ℕ) (r1 r2 r : List Bytes) (top : ℕ) (st : Stored f s n [] r top)
    (y : Entry) (ys : List Entry)
    → r ≡ r1 ++ r2
    → suc n + length r < 2 ^ 32
    → keep n (drop f.last_out_offset st.e) ≡ y ∷ ys
    → keep n (drop f.last_out_offset st.e) ≡ numbered (suc n) r1
    → keep n st.d ≡ numbered (suc n + length r1) r2
    → Fetched f s n [] r top (read_store f s)
fetch-split f s n [] r2 r top st y ys parts w some_ kf kd = absurd cc
fetch-split f s n (b ∷ r1) r2 r top st y ys parts w some_ kf kd =
    subst (λ res. Fetched f s n [] r top res)
      (sym (
        read_store-missing f s (
          read_store-gather f s n st.d st.last_out (omega arith) st.disk
          ∙ gather-beyond n (suc n + suc (length r1)) st.d r2 (start f) kd (omega arith))))
      (fetch-loaded f s n b r1 r2 r top st parts w kf)

-- With an empty client table, the first pending item is found.
pub fetch-pending :
    (f : PermFifo) (s : Store) (n : ℕ) (b : Bytes) (r : List Bytes) (top : ℕ)
    (st : Stored f s n [] (b ∷ r) top)
    → suc n + length (b ∷ r) < 2 ^ 32
    → Fetched f s n [] (b ∷ r) top (read_store f s)
fetch-pending f s n b r top st w =
    let file_part = drop f.last_out_offset st.e in
    let both : keep n file_part ++ keep n st.d ≡ numbered (suc n) (b ∷ r) =
      sym (keep-append n file_part st.d) ∙ pending-keep f s n (b ∷ r) top st in
    elim (List-cases (keep n file_part)) [
      | inl none_ ↦ fetch-found f s n b r top st w (ap (λ xs. xs ++ keep n st.d) (sym none_) ∙ both)
      | inr (y, ys, some_) ↦
          let (r1, r2, e, h1, h2) =
            numbered-split (suc n) (b ∷ r) (keep n file_part) (keep n st.d) both in
          fetch-split f s n r1 r2 (b ∷ r) top st y ys e w some_ h1 h2
    ]
