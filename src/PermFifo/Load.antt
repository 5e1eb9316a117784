-- ===== src/PermFifo/Load.antt =====
-- `ct_load` of src/permanentFIFO.c on blocks that are whole.
use info_logger.Base.{
  ℕ, suc, ◌+◌, ◌≤◌, ◌<◌, ◌≡◌, ◌⊎◌, refl, sym, ap, subst, ◌∙◌, true, false, List, [], ◌∷◌, ◌++◌, map,
  arith, inl, inr, ltb, ◌==◌, length, Bool-cases, ltb_false→le, ltb→lt, lt→ltb, le→ltb_false,
  append-nil, append_assoc, length-map, ℤ, pos, negsuc, length-concat,
}
use info_logger.CText.{Bytes}
use info_logger.CircularTable.{Item, CircularTable}
use info_logger.CircularTable.Holds.{Holds, put-room, filled, filled-Holds}
use info_logger.FifoFile.{Block, ct_load, load_block, more}
use info_logger.PermFifo.Entries.{Entry, item_of, block_of, keep, numbered, length-numbered}
use info_logger.PermFifo.Lookup.{first_of, rest_of, numbered-concat, room_or_full, same, differ}

-- How `ct_load` ends on a table that holds `cs` with ids from `base` on: it has read a part of the
-- wanted entries, which is all of them at the end of the file, and else fills the table.
pub record Loaded (base size last : ℕ) (cs r : List Bytes) (res : ℤ × ℕ × CircularTable)
    : Type 0 where
  pub in_ : List Bytes
  pub left : List Bytes
  pub parts : r ≡ in_ ++ left
  pub table : Holds res.2 (map item_of (numbered base (cs ++ in_)))
  pub size_eq : res.2.size ≡ size
  pub ending :
      ((res.0 ≡ pos 0) × (res.1 ≡ last) × (left ≡ []))
      ⊎ ((res.0 ≡ negsuc 2) × (length (cs ++ in_) ≡ size))

load_block-skip :
    (x : Entry) (t : CircularTable) (n : ℕ)
    → ltb n x.id ≡ false
    → load_block (block_of x) t (suc n) ≡ more t
unfolding load_block
load_block-skip x t n e =
    rw (lt→ltb x.id (suc n) (omega (arith, ltb_false→le n x.id e)), differ (suc n) 0 (omega arith))
      refl

load_block-take :
    (x : Entry) (q : List Item) (t : CircularTable) (n : ℕ)
    → ltb n x.id ≡ true
    → Holds t q
    → length q < t.size
    → load_block (block_of x) t (suc n) ≡ more (filled t (item_of x))
unfolding load_block
load_block-take x q t n e h room =
    rw
      (
        le→ltb_false x.id (suc n) (omega (arith, ltb→lt n x.id e)),
        differ (suc n) 0 (omega arith),
        put-room t q (item_of x) x.bytes h refl room,
      )
      refl

load-full :
    (bs : List Block) (t : CircularTable) (id at_ : ℕ)
    → t.n_items ≡ t.size
    → ct_load bs t id at_ ≡ (negsuc 2, at_, t)
unfolding ct_load
load-full [] t id at_ e = rw (same t.n_items t.size e) refl
load-full (b ∷ bs) t id at_ e = rw (same t.n_items t.size e) refl

not_same : (a b : ℕ) → a < b → (a == b) ≡ false
not_same a b h = ground arith

load-end :
    (t : CircularTable) (id at_ : ℕ) → t.n_items < t.size → ct_load [] t id at_ ≡ (pos 0, at_, t)
unfolding ct_load
load-end t id at_ h = rw (not_same t.n_items t.size h) refl

load-more :
    (b : Block) (bs : List Block) (t t' : CircularTable) (id at_ : ℕ)
    → t.n_items < t.size
    → load_block b t id ≡ more t'
    → ct_load (b ∷ bs) t id at_ ≡ ct_load bs t' id (at_ + 1)
unfolding ct_load
load-more b bs t t' id at_ h e = rw (ct_load, not_same t.n_items t.size h, e) refl

-- No more of the entries are read.
Loaded-none :
    (base size last : ℕ) (cs r : List Bytes) (res : ℤ × ℕ × CircularTable)
    → Holds res.2 (map item_of (numbered base cs))
    → res.2.size ≡ size
    → ((res.0 ≡ pos 0) × (res.1 ≡ last) × (r ≡ [])) ⊎ ((res.0 ≡ negsuc 2) × (length cs ≡ size))
    → Loaded base size last cs r res
Loaded-none base size last cs r res h s e =
    let nothing : cs ++ [] ≡ cs = append-nil cs in
    record {
      in_ = [];
      left = r;
      parts = refl;
      table = subst (λ ys. Holds res.2 (map item_of (numbered base ys))) (sym nothing) h;
      size_eq = s;
      ending =
          subst
            (λ ys.
              ((res.0 ≡ pos 0) × (res.1 ≡ last) × (r ≡ []))
              ⊎ ((res.0 ≡ negsuc 2) × (length ys ≡ size)))
            (sym nothing) e;
    }

Loaded-cons :
    (base size last : ℕ) (cs r : List Bytes) (b : Bytes) (res : ℤ × ℕ × CircularTable)
    → Loaded base size last (cs ++ b ∷ []) r res
    → Loaded base size last cs (b ∷ r) res
Loaded-cons base size last cs r b res l =
    let e : (cs ++ b ∷ []) ++ l.in_ ≡ cs ++ b ∷ l.in_ = append_assoc cs (b ∷ []) l.in_ in
    record {
      in_ = b ∷ l.in_;
      left = l.left;
      parts = ap (◌∷◌ b) l.parts;
      table = subst (λ ys. Holds res.2 (map item_of (numbered base ys))) e l.table;
      size_eq = l.size_eq;
      ending =
          subst
            (λ ys.
              ((res.0 ≡ pos 0) × (res.1 ≡ last) × (l.left ≡ []))
              ⊎ ((res.0 ≡ negsuc 2) × (length ys ≡ size)))
            e l.ending;
    }

-- The statement for a list of entries, from the `m`-th id on.
abbrev pub Loads : List Entry → Type 0
Loads d =
    (n m base last at_ : ℕ) (cs r : List Bytes) (t : CircularTable)
    → keep n d ≡ numbered (suc m) r
    → n ≤ m
    → base + length cs ≡ suc m
    → Holds t (map item_of (numbered base cs))
    → last ≡ at_ + length d
    → Loaded base t.size last cs r (ct_load (map block_of d) t (suc n) at_)

-- The loop on a full table, and on one with room at the end of the file.
Loads-full :
    (d : List Entry) (n m base last at_ : ℕ) (cs r : List Bytes) (t : CircularTable)
    → Holds t (map item_of (numbered base cs))
    → t.n_items ≡ t.size
    → Loaded base t.size last cs r (ct_load (map block_of d) t (suc n) at_)
Loads-full d n m base last at_ cs r t c full =
    subst (λ y. Loaded base t.size last cs r y)
      (sym (load-full (map block_of d) t (suc n) at_ full))
      (Loaded-none base t.size last cs r (negsuc 2, at_, t) c refl
        (inr (
          refl,
          omega (arith, c.count, length-map (numbered base cs) item_of, length-numbered base cs),
        )))

empty_run : (k : ℕ) (r : List Bytes) → [] ≡ numbered k r → r ≡ []
empty_run k [] h = refl
empty_run k (b ∷ r) h = absurd cc

Loads-take :
    (x : Entry) (d : List Entry)
    → Loads d
    → (n m base last at_ : ℕ) (cs r : List Bytes) (t : CircularTable) → ltb n x.id ≡ true
    → x ∷ keep n d ≡ numbered (suc m) r
    → n ≤ m
    → base + length cs ≡ suc m
    → Holds t (map item_of (numbered base cs))
    → last ≡ at_ + suc (length d)
    → t.n_items < t.size
    → Loaded base t.size last cs r (ct_load (block_of x ∷ map block_of d) t (suc n) at_)
Loads-take x d go n m base last at_ cs [] t e h le b c la room = absurd cc
Loads-take x d go n m base last at_ cs (y ∷ r) t e h le b c la room =
    let q = map item_of (numbered base cs) in
    let xe : x ≡ record { id = suc m; bytes = y } = ap (λ l. first_of x l) h in
    let fits : length q < t.size = omega (arith, c.count) in
    let grown : Holds (filled t (item_of x)) (map item_of (numbered base (cs ++ y ∷ []))) =
      subst (λ l. Holds (filled t (item_of x)) l)
        (ap (λ z. q ++ item_of z ∷ []) xe ∙ numbered-concat base (suc m) cs y b)
        (filled-Holds t q (item_of x) c fits) in
    subst (λ z. Loaded base t.size last cs (y ∷ r) z)
      (sym (
        load-more (block_of x) (map block_of d) t (filled t (item_of x)) (suc n) at_ room
          (load_block-take x q t n e c fits)))
      (Loaded-cons base t.size last cs r y
        (ct_load (map block_of d) (filled t (item_of x)) (suc n) (at_ + 1))
        (go n (suc m) base last (at_ + 1) (cs ++ y ∷ []) r (filled t (item_of x)) (ap rest_of h)
          (omega arith) (omega (arith, length-concat cs y)) grown (omega arith)))

pub ct_load-Loads : (d : List Entry) → Loads d
ct_load-Loads [] n m base last at_ cs r t h le b c la =
    elim (room_or_full t.n_items t.size (omega (arith, c.count, c.fits))) [
      | inr full ↦ Loads-full [] n m base last at_ cs r t c full
      | inl room ↦
          subst (λ y. Loaded base t.size last cs r y) (sym (load-end t (suc n) at_ room))
            (Loaded-none base t.size last cs r (pos 0, at_, t) c refl
              (inl (refl, omega arith, empty_run (suc m) r h)))
    ]
ct_load-Loads (x ∷ d) n m base last at_ cs r t h le b c la =
    elim (room_or_full t.n_items t.size (omega (arith, c.count, c.fits))) [
      | inr full ↦ Loads-full (x ∷ d) n m base last at_ cs r t c full
      | inl room ↦ elim (Bool-cases (ltb n x.id)) [
        | inr e ↦
            subst (λ y. Loaded base t.size last cs r y)
              (sym (
                load-more (block_of x) (map block_of d) t t (suc n) at_ room
                  (load_block-skip x t n e)))
              (ct_load-Loads d n m base last (at_ + 1) cs r t (rw e at h) le b c (omega arith))
        | inl e ↦
            Loads-take x d (ct_load-Loads d) n m base last at_ cs r t e (rw e at h) le b c
              (omega arith) room
      ]
    ]
