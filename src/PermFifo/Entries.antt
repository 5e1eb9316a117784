-- ===== src/PermFifo/Entries.antt =====
-- Lists of items with their ids, for src/permanentFIFO.c: those above an id, and consecutive runs.
use info_logger.Base.{
  ℕ, zero, suc, ◌+◌, ◌≤◌, ◌<◌, ◌≡◌, refl, sym, ap, subst, ◌∙◌, true, false, List, [], ◌∷◌, ◌++◌,
  arith, inl, inr, ltb, if◌then◌else◌, length, drop, some, Bool-cases, ltb_false→le, lt→ltb,
  le→ltb_false,
}
use info_logger.CText.{Bytes}
use info_logger.CircularTable.{Item}
use info_logger.FifoFile.{Block, good}

pub record Entry : Type 0 where
  pub id : ℕ
  pub bytes : Bytes

abbrev pub item_of : Entry → Item
item_of x = record { size = length x.bytes; payload = some x.bytes; id = x.id }

abbrev pub block_of : Entry → Block
block_of x = good x.id x.bytes

-- The byte strings with the ids from `k` on.
abbrev pub numbered : ℕ → List Bytes → List Entry
numbered k [] = []
numbered k (b ∷ bs) = record { id = k; bytes = b } ∷ numbered (suc k) bs

-- The entries with an id above `m`.
abbrev pub keep : ℕ → List Entry → List Entry
keep m [] = []
keep m (x ∷ xs) = if ltb m x.id then x ∷ keep m xs else keep m xs

-- The ids are at most `m` and no byte string is empty.
unfoldable pub AllFit : ℕ → List Entry → Type 0
AllFit m [] = m ≡ m
AllFit m (x ∷ xs) = (x.id ≤ m) × (0 < length x.bytes) × AllFit m xs

-- The id of the last entry, `k` if there is none.
abbrev pub newest_of : ℕ → List Entry → ℕ
newest_of k [] = k
newest_of k (x ∷ xs) = newest_of x.id xs

pub keep-append : (m : ℕ) (xs ys : List Entry) → keep m (xs ++ ys) ≡ keep m xs ++ keep m ys
keep-append m [] ys = refl
keep-append m (x ∷ xs) ys =
    elim (ltb m x.id)
      as (λ b.
        (if b then x ∷ keep m (xs ++ ys) else keep m (xs ++ ys))
        ≡ (if b then x ∷ keep m xs else keep m xs) ++ keep m ys) [
          | true ↦ ap (◌∷◌ x) (keep-append m xs ys)
          | false ↦ keep-append m xs ys
        ]

pub keep-keep : (m n : ℕ) (xs : List Entry) → m ≤ n → keep n (keep m xs) ≡ keep n xs
keep-keep m n [] h = refl
keep-keep m n (x ∷ xs) h = elim (Bool-cases (ltb m x.id)) [
  | inl e ↦ rw (e, keep-keep m n xs h) refl
  | inr e ↦
      rw (e, le→ltb_false n x.id (omega (arith, ltb_false→le m x.id e)), keep-keep m n xs h) refl
]

pub keep-numbered : (m k : ℕ) (bs : List Bytes) → m < k → keep m (numbered k bs) ≡ numbered k bs
keep-numbered m k [] h = refl
keep-numbered m k (b ∷ bs) h = rw (lt→ltb m k h, keep-numbered m (suc k) bs (omega arith)) refl

-- Of a run, the part above an id inside it.
pub keep-later :
    (m : ℕ) (bs cs : List Bytes)
    → keep (m + length bs) (numbered (suc m) (bs ++ cs)) ≡ numbered (suc (m + length bs)) cs
keep-later m [] cs =
    let e : m + 0 ≡ m = omega arith in rw e (keep-numbered m (suc m) cs (omega arith))
keep-later m (b ∷ bs) cs =
    let e : m + suc (length bs) ≡ suc m + length bs = omega arith in
    subst (λ j. keep j (numbered (suc m) ((b ∷ bs) ++ cs)) ≡ numbered (suc j) cs) (sym e)
      (rw (le→ltb_false (suc m + length bs) (suc m) (omega arith)) (keep-later (suc m) bs cs))

pub keep-beyond :
    (m : ℕ) (xs : List Entry) (bs cs : List Bytes)
    → keep m xs ≡ numbered (suc m) (bs ++ cs)
    → keep (m + length bs) xs ≡ numbered (suc (m + length bs)) cs
keep-beyond m xs bs cs h =
    sym (keep-keep m (m + length bs) xs (omega arith))
    ∙ (ap (λ ys. keep (m + length bs) ys) h ∙ keep-later m bs cs)

pub keep-none : (m n : ℕ) (xs : List Entry) → AllFit n xs → n ≤ m → keep m xs ≡ []
unfolding AllFit
keep-none m n [] h le = refl
keep-none m n (x ∷ xs) (a, b, h) le = rw (le→ltb_false m x.id (omega arith)) (keep-none m n xs h le)

pub AllFit-nil : (m : ℕ) → AllFit m []
unfolding AllFit
AllFit-nil m = refl

pub AllFit-one : (m : ℕ) (x : Entry) → x.id ≤ m → 0 < length x.bytes → AllFit m (x ∷ [])
unfolding AllFit
AllFit-one m x h k = (h, k, refl)

pub AllFit-weaken : (m n : ℕ) (xs : List Entry) → m ≤ n → AllFit m xs → AllFit n xs
unfolding AllFit
AllFit-weaken m n [] le h = refl
AllFit-weaken m n (x ∷ xs) le (a, b, h) = (omega arith, b, AllFit-weaken m n xs le h)

pub AllFit-append : (m : ℕ) (xs ys : List Entry) → AllFit m xs → AllFit m ys → AllFit m (xs ++ ys)
unfolding AllFit
AllFit-append m [] ys h k = k
AllFit-append m (x ∷ xs) ys (a, b, h) k = (a, b, AllFit-append m xs ys h k)

pub AllFit-drop : (m n : ℕ) (xs : List Entry) → AllFit m xs → AllFit m (drop n xs)
unfolding AllFit
AllFit-drop m zero xs h = h
AllFit-drop m (suc n) [] h = h
AllFit-drop m (suc n) (x ∷ xs) (a, b, h) = AllFit-drop m n xs h

pub newest_of-concat : (k : ℕ) (xs : List Entry) (x : Entry) → newest_of k (xs ++ x ∷ []) ≡ x.id
newest_of-concat k [] x = refl
newest_of-concat k (y ∷ xs) x = newest_of-concat y.id xs x

pub newest_of-tail :
    (k : ℕ) (x : Entry) (xs : List Entry) → newest_of k (x ∷ xs) ≡ k → newest_of k xs ≡ k
newest_of-tail k x [] h = refl
newest_of-tail k x (y ∷ xs) h = h

pub numbered-append :
    (k : ℕ) (bs cs : List Bytes)
    → numbered k (bs ++ cs) ≡ numbered k bs ++ numbered (k + length bs) cs
numbered-append k [] cs = let e : k + 0 ≡ k = omega arith in rw e refl
numbered-append k (b ∷ bs) cs =
    let e : k + suc (length bs) ≡ suc k + length bs = omega arith in
    rw (e, numbered-append (suc k) bs cs) refl

pub length-numbered : (k : ℕ) (bs : List Bytes) → length (numbered k bs) ≡ length bs
length-numbered k [] = refl
length-numbered k (b ∷ bs) = ap suc (length-numbered (suc k) bs)
