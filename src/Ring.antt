-- ===== src/Ring.antt =====
-- Circular arrays, as src/utility.c, src/permanentFIFO.c and src/transport_cache.c use them: `n`
-- slots, of which those from a start index on, taken cyclically, hold the queue.
use info_logger.Base.{
  ℕ, suc, ◌+◌, ◌-◌, ◌≤◌, ◌<◌, ◌≡◌, refl, sym, ◌∙◌, ◌≢◌, List, [], ◌∷◌, ◌++◌, some, arith, inl, inr,
  ltb, ◌==◌, if◌then◌else◌, length, get_elem?, set, get_elem?-lt, get_elem?-set_self,
  get_elem?-set_ne, get_elem?-concat_self, get_elem?-concat_ne, ==_iff, Bool-cases,
}

-- The `k`-th index after `s`, for `s < n` and `k ≤ n`.
abbrev pub slot : ℕ → ℕ → ℕ → ℕ
slot n s k = if ltb (s + k) n then s + k else s + k - n

-- `i++`, back to 0 behind the last slot.
abbrev pub next : ℕ → ℕ → ℕ
next n i = if ltb (i + 1) n then i + 1 else 0

pub next-slot : (n s k : ℕ) → s < n → k < n → next n (slot n s k) ≡ slot n s (k + 1)
next-slot n s k hs hk = ground arith

pub slot-next : (n s k : ℕ) → s < n → k < n → slot n (next n s) k ≡ slot n s (suc k)
slot-next n s k hs hk = ground arith

pub slot_lt : (n s k : ℕ) → s < n → k ≤ n → slot n s k < n
slot_lt n s k hs hk = ground arith

pub slot_zero : (n s : ℕ) → s < n → slot n s 0 ≡ s
slot_zero n s hs = ground arith

pub slot_ne : (n s j k : ℕ) → s < n → j < k → k < n → slot n s k ≢ slot n s j
slot_ne n s j k hs hj hk = ground arith

-- With one slot kept free, the end index tells the empty ring from the full one.
pub end_meets_start : (n s k : ℕ) → s < n → k < n → (s == slot n s k) ≡ (k == 0)
end_meets_start n s k hs hk = ground arith

pub end_meets_slot : (n s j k : ℕ) → s < n → j ≤ k → k < n → (slot n s j == slot n s k) ≡ (j == k)
end_meets_slot n s j k hs hj hk = ground arith

pub next_end_meets_start :
    (n s k : ℕ) → s < n + 1 → k ≤ n → (next (n + 1) (slot (n + 1) s k) == s) ≡ (k == n)
next_end_meets_start n s k hs hk = ground arith

slot-next_ne : (n s k : ℕ) → s < n → suc k < n → s ≢ slot n (next n s) k
slot-next_ne n s k hs hk = ground arith

module _ {ℓ} {S : Type ℓ} where
  -- The slots from `s` on hold `q`, in order.
  abbrev pub Window : ℕ → List S → ℕ → List S → Type ℓ
  Window n xs s q = (k : ℕ) (x : S) → get_elem? q k ≡ some x → get_elem? xs (slot n s k) ≡ some x

  pub Window-head :
      (n : ℕ) (xs : List S) (s : ℕ) (x : S) (q : List S)
      → s < n
      → Window n xs s (x ∷ q)
      → get_elem? xs s ≡ some x
  Window-head n xs s x q hs w = rw (slot_zero n s hs) at (w 0 x refl)

  -- A write to a slot that the window does not cover leaves the window as it is.
  pub Window-set :
      (n : ℕ) (xs : List S) (s : ℕ) (q : List S) (j : ℕ) (v : S)
      → s < n
      → length q ≤ j
      → j < n
      → Window n xs s q
      → Window n (set xs (slot n s j) v) s q
  Window-set n xs s q j v hs hq hj w k x e =
      get_elem?-set_ne xs (slot n s j) (slot n s k) v
        (slot_ne n s k j hs (omega (arith, get_elem?-lt q k e)) hj)
      ∙ w k x e

  pub Window-push :
      (n : ℕ) (xs : List S) (s : ℕ) (q : List S) (v : S)
      → length xs ≡ n
      → s < n
      → length q < n
      → Window n xs s q
      → Window n (set xs (slot n s (length q)) v) s (q ++ v ∷ [])
  Window-push n xs s q v hl hs hq w k x e = elim (Bool-cases (k == length q)) [
    | inl h ↦
        (let same = (==_iff k (length q)).0 h in
          rw same (
            get_elem?-set_self xs (slot n s (length q)) v
              (omega (arith, slot_lt n s (length q) hs (omega arith)))
            ∙ (sym (get_elem?-concat_self q v) ∙ (rw same at e))))
    | inr h ↦
        Window-set n xs s q (length q) v hs (omega arith) hq w k x
          (sym (get_elem?-concat_ne q v k h) ∙ e)
  ]

  pub Window-tail :
      (n : ℕ) (xs : List S) (s : ℕ) (x : S) (q : List S)
      → s < n
      → length q < n
      → Window n xs s (x ∷ q)
      → Window n xs (next n s) q
  Window-tail n xs s x q hs hq w k y e =
      rw (slot-next n s k hs (omega (arith, get_elem?-lt q k e))) (w (suc k) y e)

  -- Reading the first slot out and overwriting it.
  pub Window-pop :
      (n : ℕ) (xs : List S) (s : ℕ) (x : S) (q : List S) (v : S)
      → s < n
      → length q < n
      → Window n xs s (x ∷ q)
      → Window n (set xs s v) (next n s) q
  Window-pop n xs s x q v hs hq w k y e =
      get_elem?-set_ne xs s (slot n (next n s) k) v
        (slot-next_ne n s k hs (omega (arith, get_elem?-lt q k e)))
      ∙ Window-tail n xs s x q hs hq w k y e
