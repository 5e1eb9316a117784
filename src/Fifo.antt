-- ===== src/Fifo.antt =====
-- The FIFO of src/utility.c (`struct FIFO` and the FIFO_* functions): an array of `size + 1`
-- pointers with a first and a one-past-last index. A pointer is an `Option`, NULL being `none`, and
-- so is the handle that each function checks. A function that updates `*f` returns it beside its
-- result. Allocations succeed, and the slot that FIFO_new leaves unset is an argument of `new`.
pub mod Queue
pub mod Window
pub mod Trace
use info_logger.Base.{
  ℕ, zero, suc, ◌+◌, Bool, true, false, List, [], ◌∷◌, ◌++◌, Option, none, some, ltb, ◌==◌,
  if◌then◌else◌, get_or, set, replicate, ℤ, pos, minus_one, sub_ℕ,
}
use info_logger.Ring.{next}

pub record Fifo {ℓ} (A : Type ℓ) : Type ℓ where
  pub size : ℕ
  pub index_start : ℕ
  pub index_end : ℕ
  pub items : List (Option A)
  pub total_files : ℕ

module _ {ℓ} {A : Type ℓ} where
  pub new : ℕ → Option A → Fifo A
  new size unset = record {
    size = size;
    index_start = 0;
    index_end = 0;
    items = replicate size none ++ unset ∷ [];
    total_files = 0;
  }

  pub read : Option (Fifo A) → Option A × Option (Fifo A)
  read none = (none, none)
  read (some f) = if f.index_start == f.index_end then (none, some f) else (
    get_or f.items f.index_start none,
    some (record f {
      items = set f.items f.index_start none;
      index_start = next (f.size + 1) f.index_start;
    }),
  )

  pub write : Option (Fifo A) → Option A → ℤ × Option (Fifo A)
  write none item = (minus_one, none)
  write (some f) none = (minus_one, some f)
  write (some f) (some item) =
      let new_index_end = next (f.size + 1) f.index_end in
      if new_index_end == f.index_start then (minus_one, some f) else (
        pos 0,
        some (record f {
          items = set f.items f.index_end (some item);
          index_end = new_index_end;
          total_files = f.total_files + 1;
        }),
      )

  pub is_full : Option (Fifo A) → ℤ
  is_full none = minus_one
  is_full (some f) = if next (f.size + 1) f.index_end == f.index_start then pos 1 else pos 0

  pub is_empty : Option (Fifo A) → ℤ
  is_empty none = minus_one
  is_empty (some f) = if f.index_start == f.index_end then pos 1 else pos 0

  pub get_space_left : Option (Fifo A) → ℤ
  get_space_left none = minus_one
  get_space_left (some f) =
      if ltb f.index_end f.index_start
      then sub_ℕ (f.size + f.index_start) (f.index_end + (f.size + 1))
      else sub_ℕ (f.size + f.index_start) f.index_end

  -- the loop of `read_index`, with the number of steps to go, `index - i`
  pub read_from : Fifo A → ℕ → ℕ → Option A
  read_from f zero j = if j == f.index_end then none else get_or f.items j none
  read_from f (suc n) j = if j == f.index_end then none else read_from f n (next (f.size + 1) j)

  -- for an index that is not negative
  pub read_index : Option (Fifo A) → ℕ → Option A
  unfolding read_from
  read_index none index = none
  read_index (some f) index = read_from f index f.index_start

  pub get_total_files : Fifo A → ℕ
  get_total_files f = f.total_files
