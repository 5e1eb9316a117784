-- ===== src/PermFifo/Lookup.antt =====
-- Where `permFIFO_read` of src/permanentFIFO.c finds the next items: in the disk table, and else in
-- the file.
use info_logger.Base.{
  ℕ, suc, ◌+◌, ◌≤◌, ◌<◌, ◌≡◌, ◌⊎◌, refl, sym, ap, subst, ◌∙◌, true, false, List, [], ◌∷◌, ◌++◌, map,
  arith, inl, inr, ltb, ◌==◌, length, length-concat, Bool-cases, ltb_false→le, ltb→lt, lt→ltb,
  le→ltb_false, ◌^◌, append-nil, append_assoc,
}
use info_logger.CText.{Bytes}
use info_logger.CircularTable.{Item}
use info_logger.CircularTable.Holds.{Holds, put-room, put-full, filled, filled-Holds}
use info_logger.PermFifo.{Gathered, skip, halt, take_it, gather, gather_item, add_u32, add_u64}
use info_logger.PermFifo.Entries.{Entry, item_of, keep, numbered, keep-keep, keep-numbered}
use info_logger.PermFifo.Tables.{take-all}

pub add_u32-small : (n : ℕ) → n + 1 < 2 ^ 32 → add_u32 n 1 ≡ suc n
unfolding add_u32
add_u32-small n h = omega arith

pub add_u64-small : (n : ℕ) → n + 1 < 2 ^ 32 → add_u64 n 1 ≡ suc n
unfolding add_u64
add_u64-small n h = omega arith

abbrev pub first_of : Entry → List Entry → Entry
first_of x [] = x
first_of x (y ∷ ys) = y

abbrev pub rest_of : List Entry → List Entry
rest_of [] = []
rest_of (y ∷ ys) = ys

abbrev first_id : ℕ → List Entry → ℕ
first_id k [] = k
first_id k (x ∷ xs) = x.id

-- A run starts with its first number.
head_id :
    (x : Entry) (xs : List Entry) (k : ℕ) (bs : List Bytes) → x ∷ xs ≡ numbered k bs → x.id ≡ k
head_id x xs k [] h = ap (λ l. first_id k l) h
head_id x xs k (b ∷ bs) h = ap (λ l. first_id k l) h

pub differ : (a b : ℕ) → b < a → (a == b) ≡ false
differ a b h = ground arith

not_zero : (n : ℕ) → 0 < n → (n == 0) ≡ false
not_zero n h = ground arith

pub same : (a b : ℕ) → a ≡ b → (a == b) ≡ true
same a b h = ground arith

-- The turns of the loop over the disk table.
gather_item-skip : (x : Item) (n : ℕ) (g : Gathered) → x.id < n → gather_item x n g ≡ skip
unfolding gather_item
gather_item-skip x n g h = rw (lt→ltb x.id n h) refl

gather_item-halt : (x : Item) (n : ℕ) (g : Gathered) → n < x.id → gather_item x n g ≡ halt
unfolding gather_item
gather_item-halt x n g h = rw (le→ltb_false x.id n (omega arith), differ x.id n h) refl

abbrev first_found : Entry → Gathered → Gathered
first_found x g = record g { k = g.k + 1; item = item_of x; next_id = suc x.id }

gather_item-first :
    (x : Entry) (n : ℕ) (g : Gathered)
    → x.id ≡ n
    → n + 1 < 2 ^ 32
    → g.k ≡ 0
    → gather_item (item_of x) n g ≡ take_it (first_found x g)
unfolding gather_item
gather_item-first x n g h b z =
    rw
      (
        le→ltb_false x.id n (omega arith),
        same x.id n h,
        same g.k 0 z,
        add_u64-small x.id (omega arith),
        take-all x.bytes,
      )
      refl

gather_item-next :
    (x : Entry) (n : ℕ) (g : Gathered)
    → x.id ≡ n
    → n + 1 < 2 ^ 32
    → 0 < g.k
    → (q : List Item) → Holds g.client q
    → length q < g.client.size
    → gather_item (item_of x) n g
      ≡ take_it (record g { k = g.k + 1; client = filled g.client (item_of x); next_id = suc x.id })
unfolding gather_item
gather_item-next x n g h b z q c room =
    rw
      (
        le→ltb_false x.id n (omega arith),
        same x.id n h,
        not_zero g.k z,
        take-all x.bytes,
        put-room g.client q (item_of x) x.bytes c refl room,
        add_u64-small x.id (omega arith),
      )
      refl

gather_item-full :
    (x : Entry) (n : ℕ) (g : Gathered)
    → x.id ≡ n
    → 0 < g.k
    → (q : List Item) → Holds g.client q
    → length q ≡ g.client.size
    → gather_item (item_of x) n g ≡ halt
unfolding gather_item
gather_item-full x n g h z q c full =
    rw
      (
        le→ltb_false x.id n (omega arith),
        same x.id n h,
        not_zero g.k z,
        take-all x.bytes,
        put-full g.client q (item_of x) c full,
      )
      refl

gather-nil : (n : ℕ) (g : Gathered) → gather [] n g ≡ g
unfolding gather
gather-nil n g = refl

module _ (x : Item) (xs : List Item) (n : ℕ) (g : Gathered) where
  gather-skip : gather_item x n g ≡ skip → gather (x ∷ xs) n g ≡ gather xs n g
  unfolding gather
  gather-skip e = rw (gather, e) refl

  gather-halt : gather_item x n g ≡ halt → gather (x ∷ xs) n g ≡ g
  unfolding gather
  gather-halt e = rw (gather, e) refl

  gather-take_it :
      (g' : Gathered)
      → n + 1 < 2 ^ 32
      → gather_item x n g ≡ take_it g'
      → gather (x ∷ xs) n g ≡ gather xs (suc n) g'
  unfolding gather
  gather-take_it g' b e = rw (gather, e) (ap (λ k. gather xs k g') (add_u32-small n b))

-- A run that starts beyond the wanted id is left alone.
pub gather-beyond :
    (m k : ℕ) (d : List Entry) (bs : List Bytes) (g : Gathered)
    → keep m d ≡ numbered k bs
    → suc m < k
    → gather (map item_of d) (suc m) g ≡ g
gather-beyond m k [] bs g h le = gather-nil (suc m) g
gather-beyond m k (x ∷ d) bs g h le = elim (Bool-cases (ltb m x.id)) [
  | inr e ↦
      gather-skip (item_of x) (map item_of d) (suc m) g
        (gather_item-skip (item_of x) (suc m) g (omega (arith, ltb_false→le m x.id e)))
      ∙ gather-beyond m k d bs g (rw e at h) le
  | inl e ↦
      let i : x.id ≡ k = head_id x (keep m d) k bs (rw e at h) in
      gather-halt (item_of x) (map item_of d) (suc m) g
        (gather_item-halt (item_of x) (suc m) g (omega arith))
]

-- Behind a run's first entry the rest of the run is wanted.
pub keep-suc :
    (m : ℕ) (d : List Entry) (r : List Bytes)
    → keep m d ≡ numbered (suc (suc m)) r
    → keep (suc m) d ≡ numbered (suc (suc m)) r
keep-suc m d r h =
    sym (keep-keep m (suc m) d (omega arith))
    ∙ (ap (λ xs. keep (suc m) xs) h ∙ keep-numbered (suc m) (suc (suc m)) r (omega arith))

pub numbered-concat :
    (k j : ℕ) (bs : List Bytes) (b : Bytes)
    → k + length bs ≡ j
    → map item_of (numbered k bs) ++ item_of (record { id = j; bytes = b }) ∷ []
      ≡ map item_of (numbered k (bs ++ b ∷ []))
numbered-concat k j [] b h =
    let e : k ≡ j = omega arith in ap (λ i. item_of (record { id = i; bytes = b }) ∷ []) (sym e)
numbered-concat k j (c ∷ bs) b h =
    ap (◌∷◌ (item_of (record { id = k; bytes = c }))) (numbered-concat (suc k) j bs b (omega arith))

-- How the loop over the disk table ends, from a client table that holds `cs` with ids from `base` on.
pub record Ran (m base : ℕ) (cs r : List Bytes) (first : Item) (g : Gathered) : Type 0 where
  pub in_ : List Bytes
  pub left : List Bytes
  pub parts : r ≡ in_ ++ left
  pub client : Holds g.client (map item_of (numbered base (cs ++ in_)))
  pub next_eq : g.next_id ≡ suc m + length in_
  pub some_found : 0 < g.k
  pub item_eq : g.item ≡ first

-- The loop stops where it is.
Ran-stop :
    (m base : ℕ) (cs r : List Bytes) (g : Gathered)
    → Holds g.client (map item_of (numbered base cs))
    → g.next_id ≡ suc m
    → 0 < g.k
    → Ran m base cs r g.item g
Ran-stop m base cs r g c n k = record {
  in_ = [];
  left = r;
  parts = refl;
  client = subst (λ ys. Holds g.client (map item_of (numbered base ys))) (sym (append-nil cs)) c;
  next_eq = omega (arith, n);
  some_found = k;
  item_eq = refl;
}

-- A first turn that takes an item, before the others.
Ran-cons :
    (m base : ℕ) (cs r : List Bytes) (b : Bytes) (first : Item) (g : Gathered)
    → Ran (suc m) base (cs ++ b ∷ []) r first g
    → Ran m base cs (b ∷ r) first g
Ran-cons m base cs r b first g t = record {
  in_ = b ∷ t.in_;
  left = t.left;
  parts = ap (◌∷◌ b) t.parts;
  client =
      subst (λ ys. Holds g.client (map item_of (numbered base ys))) (append_assoc cs (b ∷ []) t.in_)
        t.client;
  next_eq = omega (arith, t.next_eq);
  some_found = t.some_found;
  item_eq = t.item_eq;
}

pub room_or_full : (k n : ℕ) → k ≤ n → (k < n) ⊎ (k ≡ n)
room_or_full k n h = elim (Bool-cases (ltb k n)) [
  | inl e ↦ inl (ltb→lt k n e)
  | inr e ↦ inr (omega (arith, ltb_false→le k n e))
]

-- The statement for lists that start with the entry `x`, from the one for what is behind it.
abbrev pub Goes : List Entry → Type 0
Goes d =
    (m base : ℕ) (cs r : List Bytes) (g : Gathered)
    → keep m d ≡ numbered (suc m) r
    → base + length cs ≡ suc m
    → suc m + length r < 2 ^ 32
    → Holds g.client (map item_of (numbered base cs))
    → g.next_id ≡ suc m
    → 0 < g.k
    → Ran m base cs r g.item (gather (map item_of d) (suc m) g)

gather-Ran-head :
    (d : List Entry)
    → Goes d
    → (m base : ℕ) (x : Entry) (cs r : List Bytes) (g : Gathered)
    → x ∷ keep m d ≡ numbered (suc m) r
    → base + length cs ≡ suc m
    → suc m + length r < 2 ^ 32
    → Holds g.client (map item_of (numbered base cs))
    → g.next_id ≡ suc m
    → 0 < g.k
    → Ran m base cs r g.item (gather (item_of x ∷ map item_of d) (suc m) g)
gather-Ran-head d go m base x cs [] g h b w c n k = absurd cc
gather-Ran-head d go m base x cs (y ∷ r) g h b w c n k =
    let q = map item_of (numbered base cs) in
    let xe : x ≡ record { id = suc m; bytes = y } = ap (λ l. first_of x l) h in
    let i : x.id ≡ suc m = ap (λ (z : Entry). z.id) xe in
    let grown : (room : length q < g.client.size)
        → Holds (filled g.client (item_of x)) (map item_of (numbered base (cs ++ y ∷ []))) =
      λ room.
        subst (λ l. Holds (filled g.client (item_of x)) l)
          (ap (λ z. q ++ item_of z ∷ []) xe ∙ numbered-concat base (suc m) cs y b)
          (filled-Holds g.client q (item_of x) c room) in
    elim (room_or_full (length q) g.client.size c.fits) [
      | inl room ↦
          let g' : Gathered = record g {
            k = g.k + 1;
            client = filled g.client (item_of x);
            next_id = suc x.id;
          } in
          subst (λ z. Ran m base cs (y ∷ r) g.item z)
            (sym (
              gather-take_it (item_of x) (map item_of d) (suc m) g g' (omega arith)
                (gather_item-next x (suc m) g i (omega arith) k q c room)))
            (Ran-cons m base cs r y g.item (gather (map item_of d) (suc (suc m)) g') (
              go (suc m) base (cs ++ y ∷ []) r g' (keep-suc m d r (ap rest_of h))
                (omega (arith, length-concat cs y)) (omega arith) (grown room) (omega arith)
                (omega arith)))
      | inr full ↦
          subst (λ z. Ran m base cs (y ∷ r) g.item z)
            (sym (
              gather-halt (item_of x) (map item_of d) (suc m) g
                (gather_item-full x (suc m) g i k q c full)))
            (Ran-stop m base cs (y ∷ r) g c n k)
    ]

pub gather-Ran : (d : List Entry) → Goes d
gather-Ran [] m base cs r g h b w c n k =
    subst (λ y. Ran m base cs r g.item y) (sym (gather-nil (suc m) g))
      (Ran-stop m base cs r g c n k)
gather-Ran (x ∷ d) m base cs r g h b w c n k = elim (Bool-cases (ltb m x.id)) [
  | inr e ↦
      subst (λ y. Ran m base cs r g.item y)
        (sym (
          gather-skip (item_of x) (map item_of d) (suc m) g
            (gather_item-skip (item_of x) (suc m) g (omega (arith, ltb_false→le m x.id e)))))
        (gather-Ran d m base cs r g (rw e at h) b w c n k)
  | inl e ↦ gather-Ran-head d (gather-Ran d) m base x cs r g (rw e at h) b w c n k
]

-- The loop from its start, if the wanted entry is in the table.
pub gather-found :
    (d : List Entry) (m : ℕ) (b : Bytes) (r : List Bytes) (g : Gathered)
    → keep m d ≡ numbered (suc m) (b ∷ r)
    → suc m + length (b ∷ r) < 2 ^ 32
    → Holds g.client []
    → g.k ≡ 0
    → Ran
        (suc m)
        (suc (suc m))
        []
        r
        (item_of (record { id = suc m; bytes = b }))
        (gather (map item_of d) (suc m) g)
gather-found [] m b r g h w c z = absurd cc
gather-found (x ∷ d) m b r g h w c z = elim (Bool-cases (ltb m x.id)) [
  | inr e ↦
      subst (λ y. Ran (suc m) (suc (suc m)) [] r (item_of (record { id = suc m; bytes = b })) y)
        (sym (
          gather-skip (item_of x) (map item_of d) (suc m) g
            (gather_item-skip (item_of x) (suc m) g (omega (arith, ltb_false→le m x.id e)))))
        (gather-found d m b r g (rw e at h) w c z)
  | inl e ↦
      let h' : x ∷ keep m d ≡ numbered (suc m) (b ∷ r) = rw e at h in
      let xe : x ≡ record { id = suc m; bytes = b } = ap (λ l. first_of x l) h' in
      let i : x.id ≡ suc m = ap (λ (y : Entry). y.id) xe in
      subst
        (λ y. Ran (suc m) (suc (suc m)) [] r (item_of y) (gather (map item_of (x ∷ d)) (suc m) g))
        xe
        (subst (λ y. Ran (suc m) (suc (suc m)) [] r (item_of x) y)
          (sym (
            gather-take_it (item_of x) (map item_of d) (suc m) g (first_found x g) (omega arith)
              (gather_item-first x (suc m) g i (omega arith) z)))
          (gather-Ran d (suc m) (suc (suc m)) [] r (first_found x g)
            (keep-suc m d r (ap rest_of h')) (omega arith) (omega arith) c (omega arith)
            (omega arith)))
]
