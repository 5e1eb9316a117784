-- ===== src/Fifo/Queue.antt =====
-- What a client of the FIFO of src/utility.c may rely on: a queue of at most `size` items, oldest
-- first, with the number of items ever taken in.
use info_logger.Base.{
  ℕ, ◌+◌, ◌-◌, List, [], ◌∷◌, ◌++◌, Option, none, some, ltb, ◌==◌, if◌then◌else◌, length, get_elem?,
  ℤ, pos, minus_one,
}

-- The calls of a client.
pub data Op {ℓ} (A : Type ℓ) : Type ℓ where
  write : Option A → Op A
  read : Op A
  is_full is_empty get_space_left get_total_files : Op A
  read_index : ℕ → Op A

-- What a call returns.
pub data Reply {ℓ} (A : Type ℓ) : Type ℓ where
  code : ℤ → Reply A
  item : Option A → Reply A

pub record Queue {ℓ} (A : Type ℓ) : Type ℓ where
  pub held : List A
  pub taken : ℕ

module _ {ℓ} {A : Type ℓ} where
  abbrev pub push : ℕ → Queue A → A → ℤ × Queue A
  push size q x =
      if ltb (length q.held) size
      then (pos 0, record { held = q.held ++ x ∷ []; taken = q.taken + 1 })
      else (minus_one, q)

  abbrev pub pop : ℕ → List A → Option A × Queue A
  pop t [] = (none, record { held = []; taken = t })
  pop t (x ∷ xs) = (some x, record { held = xs; taken = t })

  unfoldable pub step : ℕ → Queue A → Op A → Reply A × Queue A
  step size q (write none) = (code minus_one, q)
  step size q (write (some x)) = let (r, q') = push size q x in (code r, q')
  step size q read = let (r, q') = pop q.taken q.held in (item r, q')
  step size q is_full = (code (if length q.held == size then pos 1 else pos 0), q)
  step size q is_empty = (code (if length q.held == 0 then pos 1 else pos 0), q)
  step size q get_space_left = (code (pos (size - length q.held)), q)
  step size q get_total_files = (code (pos q.taken), q)
  step size q (read_index i) = (item (get_elem? q.held i), q)

  unfoldable pub run : ℕ → Queue A → List (Op A) → List (Reply A)
  unfolding step
  run size q [] = []
  run size q (o ∷ os) = let (r, q') = step size q o in r ∷ run size q' os
