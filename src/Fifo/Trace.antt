-- ===== src/Fifo/Trace.antt =====
-- Every sequence of calls of the FIFO of src/utility.c answers as the queue of Fifo/Queue.antt does.
use info_logger.Base.{
  ℕ, zero, suc, ◌+◌, ◌-◌, ◌≤◌, ◌<◌, ◌≡◌, refl, sym, ap, ◌∙◌, true, false, List, [], ◌∷◌, Option,
  none, some, arith, inl, inr, ltb, ◌==◌, if◌then◌else◌, length, get_elem?, get_or, get_elem?-none,
  get_elem?-some, get_elem?-map-some, get_or_of_get_elem?, pos, minus_one, sub_ℕ, Bool-cases,
  ==_iff, ltb→lt,
}
use info_logger.Ring.{slot, end_meets_slot, next-slot, slot_zero}
use info_logger.Fifo.{
  Fifo, new, read, write, is_full, is_empty, get_space_left, read_from, read_index, get_total_files,
}
use info_logger.Fifo.Queue
use info_logger.Fifo.Queue.{Op, Reply, code, item, Queue}
use info_logger.Fifo.Window.{
  Holds, full_test, empty_test, new-Holds, written, taken_from, written-Holds, taken_from-Holds,
  head_read,
}

-- The handle behind a call.
abbrev still {ℓ} : {A : Type ℓ} → Fifo A → Option (Fifo A) → Fifo A
still f none = f
still f (some g) = g

differ_lt : (k n : ℕ) → k ≤ n → (k == n) ≡ false → k < n
differ_lt k n h e = ground arith

at_bound : (k n : ℕ) → k ≤ n → ltb k n ≡ false → (k == n) ≡ true
at_bound k n h e = ground arith

below_bound : (k n : ℕ) → ltb k n ≡ true → (k == n) ≡ false
below_bound k n e = ground arith

suc_not_zero : (n : ℕ) → (suc n == 0) ≡ false
suc_not_zero n = ground arith

-- the arithmetic of `FIFO_get_space_left`
used_space :
    (n s k : ℕ)
    → s < n + 1
    → k ≤ n
    → (if ltb (slot (n + 1) s k) s
        then sub_ℕ (n + s) (slot (n + 1) s k + (n + 1))
        else sub_ℕ (n + s) (slot (n + 1) s k))
      ≡ pos (n - k)
used_space n s k hs hk = ground arith

module _ {ℓ} {A : Type ℓ} where
  -- One call of a client that holds the FIFO.
  unfoldable pub step : Fifo A → Op A → Reply A × Fifo A
  step f (Op.write i) = let (r, g) = write (some f) i in (code r, still f g)
  step f Op.read = let (r, g) = read (some f) in (item r, still f g)
  step f Op.is_full = (code (is_full (some f)), f)
  step f Op.is_empty = (code (is_empty (some f)), f)
  step f Op.get_space_left = (code (get_space_left (some f)), f)
  step f Op.get_total_files = (code (pos (get_total_files f)), f)
  step f (Op.read_index i) = (item (read_index (some f) i), f)

  unfoldable pub run : Fifo A → List (Op A) → List (Reply A)
  unfolding step
  run f [] = []
  run f (o ∷ os) = let (r, g) = step f o in r ∷ run g os

  -- The state stands for the queue, and the counter for the number of items taken in.
  pub record Agrees (f : Fifo A) (q : Queue A) : Type ℓ where
    pub holds : Holds f q.held
    pub counted : f.total_files ≡ q.taken

  -- At the `k`-th place from the start the loop finds the end, or the `k`-th item.
  place :
      (f : Fifo A) (q : List A) (k : ℕ)
      → Holds f q
      → k ≤ length q
      → (if slot (f.size + 1) f.index_start k == f.index_end
          then none
          else get_or f.items (slot (f.size + 1) f.index_start k) none)
        ≡ get_elem? q k
  place f q k h le =
      rw
        (
          h.end_eq,
          end_meets_slot (f.size + 1) f.index_start k (length q) h.start_lt le
              (omega (arith, h.fits)),
        )
        (elim (Bool-cases (k == length q)) [
          | inl e ↦ rw e (sym (get_elem?-none q k (omega (arith, (==_iff k (length q)).0 e))))
          | inr e ↦
              (let (x, there) = get_elem?-some q k (differ_lt k (length q) le e) in
                rw (e, there)
                  (get_or_of_get_elem? f.items (slot (f.size + 1) f.index_start k) (some x) none
                    (h.window k (some x) (get_elem?-map-some q k x there))))
        ])

  read_from_lem :
      (f : Fifo A) (q : List A) (n k : ℕ)
      → Holds f q
      → k ≤ length q
      → read_from f n (slot (f.size + 1) f.index_start k) ≡ get_elem? q (k + n)
  unfolding read_from
  read_from_lem f q zero k h le = place f q k h le ∙ ap (get_elem? q) (omega arith)
  read_from_lem f q (suc n) k h le = elim (Bool-cases (k == length q)) [
    | inl e ↦
        rw
          (
            h.end_eq,
            end_meets_slot (f.size + 1) f.index_start k (length q) h.start_lt le
                (omega (arith, h.fits)),
            e,
          )
          (sym (get_elem?-none q (k + suc n) (omega (arith, (==_iff k (length q)).0 e))))
    | inr e ↦
        rw
          (
            h.end_eq,
            end_meets_slot (f.size + 1) f.index_start k (length q) h.start_lt le
                (omega (arith, h.fits)),
            e,
            next-slot (f.size + 1) f.index_start k h.start_lt (omega (arith, h.fits)),
          )
          (read_from_lem f q n (k + 1) h (omega (arith, differ_lt k (length q) le e))
            ∙ ap (get_elem? q) (omega arith))
  ]

  -- `FIFO_read_index` finds the item at that place of the queue, and NULL beyond its end.
  read_index_lem :
      (f : Fifo A) (q : List A) (i : ℕ) → Holds f q → read_index (some f) i ≡ get_elem? q i
  unfolding read_index
  read_index_lem f q i h =
      ap (read_from f i) (sym (slot_zero (f.size + 1) f.index_start h.start_lt))
      ∙ read_from_lem f q i 0 h (omega arith)
      ∙ ap (get_elem? q) (omega arith)

  space_left_lem :
      (f : Fifo A) (q : List A) → Holds f q → get_space_left (some f) ≡ pos (f.size - length q)
  unfolding get_space_left
  space_left_lem f q h = rw h.end_eq (used_space f.size f.index_start (length q) h.start_lt h.fits)

  write_full :
      (f : Fifo A) (q : List A) (x : A)
      → Holds f q
      → ltb (length q) f.size ≡ false
      → write (some f) (some x) ≡ (minus_one, some f)
  unfolding write
  write_full f q x h e = rw (full_test h, at_bound (length q) f.size h.fits e)

  write_room :
      (f : Fifo A) (q : List A) (x : A)
      → Holds f q
      → ltb (length q) f.size ≡ true
      → write (some f) (some x) ≡ (pos 0, some (written f x))
  unfolding write
  write_room f q x h e = rw (full_test h, below_bound (length q) f.size e)

  read_nil : (f : Fifo A) → Holds f [] → read (some f) ≡ (none, some f)
  unfolding read
  read_nil f h = rw (empty_test h)

  read_cons :
      (f : Fifo A) (x : A) (q : List A)
      → Holds f (x ∷ q)
      → read (some f) ≡ (some x, some (taken_from f))
  unfolding read
  read_cons f x q h = rw (empty_test h, head_read f x q h, suc_not_zero (length q))

  abbrev Simulates : Fifo A → Queue A → Op A → Type ℓ
  Simulates f q o =
      ((step f o).0 ≡ (Queue.step f.size q o).0)
      × Agrees (step f o).1 (Queue.step f.size q o).1
      × ((step f o).1.size ≡ f.size)

  write-Simulates :
      (f : Fifo A) (q : Queue A) (x : A) → Agrees f q → Simulates f q (Op.write (some x))
  unfolding step Queue.step
  write-Simulates f q x h = elim (Bool-cases (ltb (length q.held) f.size)) [
    | inl e ↦
        rw (write_room f q.held x h.holds e, e)
          (
            refl,
            record {
              holds = written-Holds f q.held x h.holds (ltb→lt (length q.held) f.size e);
              counted = ap (λ t. t + 1) h.counted;
            },
            refl,
          )
    | inr e ↦ rw (write_full f q.held x h.holds e, e) (refl, h, refl)
  ]

  read-Simulates :
      (f : Fifo A) (q : List A) (t : ℕ)
      → Agrees f (record { held = q; taken = t })
      → Simulates f (record { held = q; taken = t }) Op.read
  unfolding step Queue.step
  read-Simulates f [] t h = rw (read_nil f h.holds) (refl, h, refl)
  read-Simulates f (x ∷ q) t h =
      rw (read_cons f x q h.holds)
        (refl, record { holds = taken_from-Holds f x q h.holds; counted = h.counted }, refl)

  -- A call of the code answers as a step of the queue, and the states still agree.
  step-Simulates : (f : Fifo A) (q : Queue A) (o : Op A) → Agrees f q → Simulates f q o
  unfolding step Queue.step write is_full is_empty get_total_files
  step-Simulates f q (Op.write none) h = (refl, h, refl)
  step-Simulates f q (Op.write (some x)) h = write-Simulates f q x h
  step-Simulates f q Op.read h = read-Simulates f q.held q.taken h
  step-Simulates f q Op.is_full h = (rw (full_test h.holds), h, refl)
  step-Simulates f q Op.is_empty h = (rw (empty_test h.holds), h, refl)
  step-Simulates f q Op.get_space_left h = (ap code (space_left_lem f q.held h.holds), h, refl)
  step-Simulates f q Op.get_total_files h = (ap (λ t. code (pos t)) h.counted, h, refl)
  step-Simulates f q (Op.read_index i) h = (ap item (read_index_lem f q.held i h.holds), h, refl)

  run-eq-run :
      (f : Fifo A) (q : Queue A) (os : List (Op A)) → Agrees f q → run f os ≡ Queue.run f.size q os
  unfolding run Queue.run
  run-eq-run f q [] h = refl
  run-eq-run f q (o ∷ os) h =
      let (same, agrees, size) = step-Simulates f q o h in
      let q' = (Queue.step f.size q o).1 in
      λ i. same i ∷ (run-eq-run (step f o).1 q' os agrees ∙ ap (λ n. Queue.run n q' os) size) i

  -- A fresh FIFO of any size answers every sequence of calls, writes of NULL among them, exactly as a
  -- bounded first-in first-out queue of that size does: items come out in the order they went in, a
  -- write fails exactly when the queue is full, and each observer tells the state of the queue.
  pub run-new :
      (size : ℕ) (unset : Option A) (os : List (Op A))
      → run (new size unset) os ≡ Queue.run size (record { held = []; taken = 0 }) os
  unfolding new
  run-new size unset os =
      run-eq-run (new size unset) (record { held = []; taken = 0 }) os
        (record { holds = new-Holds size unset; counted = refl })
