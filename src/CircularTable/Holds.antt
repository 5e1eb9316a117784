-- ===== src/CircularTable/Holds.antt =====
-- The circular table of src/permanentFIFO.c stands for a list, and each function acts on it as on a list.
use info_logger.Base.{
  ℕ, suc, ◌+◌, ◌≤◌, ◌<◌, ◌≡◌, refl, ap, ◌∙◌, true, false, List, [], ◌∷◌, ◌++◌, none, some, arith,
  ◌==◌, length, get_or, set, replicate, pos, minus_one, length-set, length-replicate, length-concat,
  get_or_of_get_elem?,
}
use info_logger.CText.{Bytes}
use info_logger.Ring.{next, slot, slot_lt, Window, Window-push, Window-pop, Window-head}
use info_logger.CircularTable.{Item, empty_item, CircularTable, put, popped, take_first}

-- The indices are in range and the slots from `index_first` on hold the items `q`.
pub record Holds (t : CircularTable) (q : List Item) : Type 0 where
  pub first_lt : t.index_first < t.size
  pub fits : length q ≤ t.size
  pub count : t.n_items ≡ length q
  pub slots : length t.items ≡ t.size
  pub window : Window t.size t.items t.index_first q

abbrev pub fresh : ℕ → CircularTable
fresh n = record {
  size = suc n;
  index_first = 0;
  n_items = 0;
  items = replicate (suc n) empty_item;
}

pub fresh-Holds : (n : ℕ) → Holds (fresh n) []
fresh-Holds n = record {
  first_lt = omega arith;
  fits = omega arith;
  count = refl;
  slots = length-replicate (suc n) empty_item;
  window = λ k x e. cc;
}

slot-one : (n s : ℕ) → s < n → slot n s 1 ≡ next n s
slot-one n s h = ground arith

-- The table behind a successful write.
abbrev pub filled : CircularTable → Item → CircularTable
filled t x = record t {
  n_items = t.n_items + 1;
  items = set t.items (slot t.size t.index_first t.n_items) x;
}

pub filled-Holds :
    (t : CircularTable) (q : List Item) (x : Item)
    → Holds t q
    → length q < t.size
    → Holds (filled t x) (q ++ x ∷ [])
filled-Holds t q x h room = record {
  first_lt = h.first_lt;
  fits = omega (arith, length-concat q x);
  count = omega (arith, h.count, length-concat q x);
  slots = length-set t.items (slot t.size t.index_first t.n_items) x ∙ h.slots;
  window =
      rw h.count (Window-push t.size t.items t.index_first q x h.slots h.first_lt room h.window);
}

pub popped-Holds :
    (t : CircularTable) (x : Item) (q : List Item) → Holds t (x ∷ q) → Holds (popped t) q
popped-Holds t x q h = record {
  first_lt = slot_lt t.size t.index_first 1 h.first_lt (omega (arith, h.fits));
  fits = omega (arith, h.fits);
  count = omega (arith, h.count);
  slots = length-set t.items t.index_first empty_item ∙ h.slots;
  window = rw (slot-one t.size t.index_first h.first_lt) (
      Window-pop t.size t.items t.index_first x q empty_item h.first_lt (omega (arith, h.fits))
        h.window);
}

-- What a write does to a table that holds `q`: it succeeds just if there is room.
pub put-room :
    (t : CircularTable) (q : List Item) (x : Item) (b : Bytes)
    → Holds t q
    → x.payload ≡ some b
    → length q < t.size
    → put t x ≡ (pos 0, filled t x)
unfolding put
put-room t q x b h e room = rw (e, not_full t.size t.n_items (omega (arith, h.count, room))) refl
  where
    not_full : (n k : ℕ) → k < n → (n == k) ≡ false
    not_full n k h = ground arith

pub put-full :
    (t : CircularTable) (q : List Item) (x : Item)
    → Holds t q
    → length q ≡ t.size
    → put t x ≡ (minus_one, t)
unfolding put
put-full t q x h e = rw (full t.size t.n_items (omega (arith, h.count, e))) refl
  where
    full : (n k : ℕ) → n ≡ k → (n == k) ≡ true
    full n k h = ground arith

pub take_first-nil : (t : CircularTable) → Holds t [] → take_first t ≡ (none, t)
unfolding take_first
take_first-nil t h = rw h.count refl

pub head-Holds :
    (t : CircularTable) (x : Item) (q : List Item)
    → Holds t (x ∷ q)
    → get_or t.items t.index_first empty_item ≡ x
head-Holds t x q h =
    get_or_of_get_elem? t.items t.index_first x empty_item
      (Window-head t.size t.items t.index_first x q h.first_lt h.window)

pub take_first-cons :
    (t : CircularTable) (x : Item) (q : List Item)
    → Holds t (x ∷ q)
    → take_first t ≡ (some x, popped t)
unfolding take_first
take_first-cons t x q h =
    rw (some_items t.n_items (length q) h.count) (ap (λ y. (some y, popped t)) (head-Holds t x q h))
  where
    some_items : (n k : ℕ) → n ≡ suc k → (n == 0) ≡ false
    some_items n k h = ground arith
