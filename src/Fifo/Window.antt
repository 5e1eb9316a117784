-- ===== src/Fifo/Window.antt =====
-- The state of the FIFO of src/utility.c stands for a queue, and each function acts on it as on a queue.
use info_logger.Base.{
  ℕ, ◌+◌, ◌≤◌, ◌<◌, ◌≡◌, sym, ◌∙◌, List, [], ◌∷◌, ◌++◌, map, Option, none, some, arith, ◌==◌,
  length, get_or, set, replicate, length-append, length-set, length-replicate, get_or_of_get_elem?,
  length-concat, map-concat, length-map-some,
}
use info_logger.Ring.{
  end_meets_start, next_end_meets_start, slot-next, next, slot, Window, Window-push, Window-pop,
  Window-head, next-slot,
}
use info_logger.Fifo.{Fifo, new}

module _ {ℓ} {A : Type ℓ} where
  -- The indices are in range and the slots from `index_start` on hold the queue `q`.
  pub record Holds (f : Fifo A) (q : List A) : Type ℓ where
    pub start_lt : f.index_start < f.size + 1
    pub fits : length q ≤ f.size
    pub end_eq : f.index_end ≡ slot (f.size + 1) f.index_start (length q)
    pub slots : length f.items ≡ f.size + 1
    pub window : Window (f.size + 1) f.items f.index_start (map some q)

  pub full_test :
      {f : Fifo A} {q : List A}
      → Holds f q
      → (next (f.size + 1) f.index_end == f.index_start) ≡ (length q == f.size)
  full_test {f} {q} h =
      rw h.end_eq (next_end_meets_start f.size f.index_start (length q) h.start_lt h.fits)

  pub empty_test :
      {f : Fifo A} {q : List A} → Holds f q → (f.index_start == f.index_end) ≡ (length q == 0)
  empty_test {f} {q} h =
      rw h.end_eq
        (end_meets_start (f.size + 1) f.index_start (length q) h.start_lt (omega (arith, h.fits)))

  pub new-Holds : (size : ℕ) (unset : Option A) → Holds (new size unset) []
  unfolding new
  new-Holds size unset = record {
    start_lt = omega arith;
    fits = omega arith;
    end_eq = ground arith;
    slots = omega (
      arith,
      length-append (replicate size none) (unset ∷ []),
      length-replicate {A = Option A} size none,
    );
    window = λ k x e. cc;
  }

  -- the state behind a successful write, and behind a successful read
  abbrev pub written : Fifo A → A → Fifo A
  written f x = record f {
    items = set f.items f.index_end (some x);
    index_end = next (f.size + 1) f.index_end;
    total_files = f.total_files + 1;
  }

  abbrev pub taken_from : Fifo A → Fifo A
  taken_from f = record f {
    items = set f.items f.index_start none;
    index_start = next (f.size + 1) f.index_start;
  }

  pub written-Holds :
      (f : Fifo A) (q : List A) (x : A)
      → Holds f q
      → length q < f.size
      → Holds (written f x) (q ++ x ∷ [])
  written-Holds f q x h room = record {
    start_lt = h.start_lt;
    fits = omega (arith, length-append q (x ∷ []));
    end_eq =
        rw (h.end_eq, length-concat q x)
          (next-slot (f.size + 1) f.index_start (length q) h.start_lt (omega (arith, h.fits)));
    slots = length-set f.items f.index_end (some x) ∙ h.slots;
    window =
        rw (h.end_eq, map-concat (λ (a : A). some a) q x, ← length-map-some q)
          (Window-push (f.size + 1) f.items f.index_start (map some q) (some x) h.slots h.start_lt
            (omega (arith, h.fits, length-map-some q)) h.window);
  }

  pub taken_from-Holds :
      (f : Fifo A) (x : A) (q : List A) → Holds f (x ∷ q) → Holds (taken_from f) q
  taken_from-Holds f x q h = record {
    start_lt = ground arith;
    fits = omega (arith, h.fits);
    end_eq =
        h.end_eq
        ∙ sym (slot-next (f.size + 1) f.index_start (length q) h.start_lt (omega (arith, h.fits)));
    slots = length-set f.items f.index_start none ∙ h.slots;
    window =
        Window-pop (f.size + 1) f.items f.index_start (some x) (map some q) none h.start_lt
          (omega (arith, h.fits, length-map-some q)) h.window;
  }

  pub head_read :
      (f : Fifo A) (x : A) (q : List A)
      → Holds f (x ∷ q)
      → get_or f.items f.index_start none ≡ some x
  head_read f x q h =
      get_or_of_get_elem? f.items f.index_start (some x) none
        (Window-head (f.size + 1) f.items f.index_start (some x) (map some q) h.start_lt h.window)
