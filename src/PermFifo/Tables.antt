-- ===== src/PermFifo/Tables.antt =====
-- The loops of src/permanentFIFO.c over a table that holds a list of entries: what `permFIFO_read`
-- finds in the disk table, what `ct_save` writes, and what `permFIFO_ack` leaves.
use info_logger.Base.{
  ℕ, suc, ◌+◌, ◌-◌, ◌≤◌, ◌<◌, ◌≡◌, refl, sym, ap, subst, ◌∙◌, false, List, [], ◌∷◌, ◌++◌, map,
  Option, some, arith, inl, inr, ltb, ◌==◌, length, take, get_elem?, get_or, get_or_of_get_elem?,
  Bool-cases, ltb_false→le, le→ltb_false, append-nil, append_assoc, length-map, pos,
}
use info_logger.Ring.{slot}
use info_logger.CircularTable.{Item, empty_item, CircularTable, take_first, popped, live_from}
use info_logger.CircularTable.Holds.{Holds, popped-Holds, take_first-cons, head-Holds}
use info_logger.FifoFile.{Block, good, saved_block, save_items, ct_save}
use info_logger.PermFifo.{last_item, drop_acked}
use info_logger.PermFifo.Entries.{Entry, item_of, block_of, keep, AllFit, newest_of, newest_of-tail}

-- The loop over a table visits what it holds.
live_from-window :
    (t : CircularTable) (q : List Item) (i : ℕ)
    → ((k : ℕ) (x : Item)
        → get_elem? q k ≡ some x
        → get_elem? t.items (slot t.size t.index_first (i + k)) ≡ some x)
    → live_from (length q) i t ≡ q
unfolding live_from
live_from-window t [] i w = refl
live_from-window t (x ∷ q) i w =
    rw
      (
        get_or_of_get_elem? t.items (slot t.size t.index_first i) x empty_item (
            let e : i + 0 ≡ i = omega arith in
            subst (λ j. get_elem? t.items (slot t.size t.index_first j) ≡ some x) e (w 0 x refl)),
        live_from-window t q (i + 1) (λ k y h.
            let e : i + suc k ≡ i + 1 + k = omega arith in
            subst (λ j. get_elem? t.items (slot t.size t.index_first j) ≡ some y) e
              (w (suc k) y h)),
      )
      refl

pub live_from-Holds : (t : CircularTable) (q : List Item) → Holds t q → live_from t.n_items 0 t ≡ q
live_from-Holds t q h =
    subst (λ n. live_from n 0 t ≡ q) (sym h.count)
      (live_from-window t q 0 (λ k x e.
        let z : 0 + k ≡ k = omega arith in
        subst (λ j. get_elem? t.items (slot t.size t.index_first j) ≡ some x) (sym z)
          (h.window k x e)))

-- The last item of a table is the newest one.
newest_at :
    (k : ℕ) (x : Entry) (xs : List Entry)
    → (y : Entry) × (get_elem? (map item_of (x ∷ xs)) (length xs) ≡ some (item_of y))
      × (y.id ≡ newest_of k (x ∷ xs))
newest_at k x [] = (x, refl, refl)
newest_at k x (y ∷ ys) = newest_at k y ys

pub last_item-Holds :
    (t : CircularTable) (k : ℕ) (x : Entry) (xs : List Entry)
    → Holds t (map item_of (x ∷ xs))
    → (last_item t).id ≡ newest_of k (x ∷ xs)
last_item-Holds t k x xs h =
    let (y, at, e) = newest_at k x xs in
    let n : t.n_items - 1 ≡ length xs = omega (arith, h.count, length-map xs item_of) in
    ap (λ (i : Item). i.id)
      (get_or_of_get_elem? t.items (slot t.size t.index_first (t.n_items - 1)) (item_of y)
        empty_item (rw n (h.window (length xs) (item_of y) at)))
    ∙ e

pub not_empty : (n k : ℕ) → n ≡ suc k → (n == 0) ≡ false
not_empty n k h = ground arith

pub take-all {ℓ} : {A : Type ℓ} (xs : List A) → take (length xs) xs ≡ xs
take-all [] = refl
take-all (x ∷ xs) = ap (◌∷◌ x) (take-all xs)

nonzero_test : (n : ℕ) → 0 < n → (n == 0) ≡ false
nonzero_test n h = ground arith

saved_block-item_of : (x : Entry) → 0 < length x.bytes → saved_block (item_of x) ≡ block_of x ∷ []
unfolding saved_block
saved_block-item_of x h =
    rw (nonzero_test (length x.bytes) h) (ap (λ b. good x.id b ∷ []) (take-all x.bytes))

save_items-next :
    (n : ℕ) (bs : List Block) (t t' : CircularTable) (x : Item)
    → take_first t ≡ (some x, t')
    → save_items (suc n) bs t ≡ save_items n (bs ++ saved_block x) t'
unfolding save_items
save_items-next n bs t t' x e =
    rw
      (
        save_items,
        ap (λ (r : Option Item × CircularTable). r.0) e,
        ap (λ (r : Option Item × CircularTable). r.1) e,
      )
      refl

-- `ct_save` appends the entries of the table to the file and leaves the table empty.
save_items-Holds :
    (m : ℕ) (d : List Entry) (bs : List Block) (t : CircularTable)
    → AllFit m d
    → Holds t (map item_of d)
    → (t' : CircularTable) × (save_items (length d) bs t ≡ (bs ++ map block_of d, t'))
      × Holds t' []
      × (t'.size ≡ t.size)
unfolding save_items AllFit
save_items-Holds m [] bs t a h = (t, ap (λ x. (x, t)) (sym (append-nil bs)), h, refl)
save_items-Holds m (x ∷ d) bs t (i, b, a) h =
    let (t', e, h', s) =
      save_items-Holds m d (bs ++ block_of x ∷ []) (popped t) a
        (popped-Holds t (item_of x) (map item_of d) h) in
    let one : save_items (suc (length d)) bs t
        ≡ save_items (length d) (bs ++ block_of x ∷ []) (popped t) =
      save_items-next (length d) bs t (popped t) (item_of x)
        (take_first-cons t (item_of x) (map item_of d) h)
      ∙ ap (λ y. save_items (length d) (bs ++ y) (popped t)) (saved_block-item_of x b) in
    (t', one ∙ (e ∙ ap (λ y. (y, t')) (append_assoc bs (block_of x ∷ []) (map block_of d))), h', s)

pub ct_save-Holds :
    (m : ℕ) (d : List Entry) (bs : List Block) (t : CircularTable)
    → AllFit m d
    → Holds t (map item_of d)
    → (t' : CircularTable) × (ct_save bs t ≡ (pos 0, bs ++ map block_of d, t'))
      × Holds t' []
      × (t'.size ≡ t.size)
unfolding ct_save
ct_save-Holds m d bs t a h =
    let (t', e, h', s) = save_items-Holds m d bs t a h in
    let n : t.n_items ≡ length d = h.count ∙ length-map d item_of in
    (
      t',
      ap (λ (r : List Block × CircularTable). (pos 0, r.0, r.1))
          (ap (λ k. save_items k bs t) n ∙ e),
      h',
      s,
    )

-- `permFIFO_ack` removes entries up to the id, from the front.
pub drop_acked-prefix :
    (id top : ℕ) (d : List Entry) (t : CircularTable)
    → AllFit top d
    → newest_of top d ≡ top
    → Holds t (map item_of d)
    → (d' : List Entry) × Holds (drop_acked (length d) id t) (map item_of d')
      × AllFit top d'
      × (newest_of top d' ≡ top)
      × ((m : ℕ) → id ≤ m → keep m d' ≡ keep m d)
unfolding drop_acked AllFit
drop_acked-prefix id top [] t a w h = ([], h, a, w, λ m le. refl)
drop_acked-prefix id top (x ∷ d) t (i, b, a) w h =
    let head : get_or t.items t.index_first empty_item ≡ item_of x =
      head-Holds t (item_of x) (map item_of d) h in
    elim (Bool-cases (ltb id x.id)) [
      | inl e ↦ (x ∷ d, rw (head, e) h, (i, b, a), w, λ m le. refl)
      | inr e ↦
          let (d', h', a', w', k) =
            drop_acked-prefix id top d (popped t) a (newest_of-tail top x d w)
              (popped-Holds t (item_of x) (map item_of d) h) in
          (
            d',
            rw (head, e) h',
            a',
            w',
            λ m le. rw (le→ltb_false m x.id (omega (arith, ltb_false→le id x.id e))) (k m le),
          )
    ]
