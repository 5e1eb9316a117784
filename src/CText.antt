-- ===== src/CText.antt =====
-- The parts of the C library that the sources use on text: a string is the list of its bytes before
-- the closing NUL, a buffer or a blob any list of bytes.
pub mod Numbers
use Prim.Native.Char.{code}
use Prim.Native.String.{String}
use info_logger.Base.{
  ℕ, zero, suc, ◌+◌, Bool, true, false, ◌&&◌, List, [], ◌∷◌, ◌++◌, Option, none, some, ◌==◌,
  if◌then◌else◌, ◌<◌, ◌≡◌, refl, arith, length, inl, inr, Option-cases, Bool-cases, ==_iff, ap, ◌∙◌,
}

abbrev pub Bytes : Type 0
Bytes = List ℕ

-- The bytes of a literal; every literal of the sources is ASCII.
abbrev pub codes : String → Bytes
codes String.[] = []
codes (String.◌∷◌ c s) = code c ∷ codes s

-- What a buffer holds when it is read as a string: the bytes before the first NUL.
unfoldable pub c_str : Bytes → Bytes
c_str [] = []
c_str (c ∷ cs) = if c == 0 then [] else c ∷ c_str cs

-- `strchr`, as an offset.
unfoldable pub strchr : ℕ → Bytes → Option ℕ
strchr b [] = none
strchr b (c ∷ cs) =
    if c == b then some 0 else elim (strchr b cs) [ none ↦ none | some k ↦ some (suc k) ]

-- `!strcmp(a, b)`
unfoldable pub equal : Bytes → Bytes → Bool
equal [] [] = true
equal (x ∷ xs) (y ∷ ys) = (x == y) && equal xs ys
equal _ _ = false

pub equal_refl : (xs : Bytes) → equal xs xs ≡ true
unfolding equal
equal_refl [] = refl
equal_refl (x ∷ xs) = ground (arith, equal_refl xs)

pub eq_of_equal : (xs ys : Bytes) → equal xs ys ≡ true → xs ≡ ys
unfolding equal
eq_of_equal [] [] h = refl
eq_of_equal [] (y ∷ ys) h = cc
eq_of_equal (x ∷ xs) [] h = cc
eq_of_equal (x ∷ xs) (y ∷ ys) h = ground (arith, eq_of_equal xs ys)

pub strchr-lt : (b : ℕ) (xs : Bytes) (k : ℕ) → strchr b xs ≡ some k → k < length xs
unfolding strchr
strchr-lt b [] k h = cc
strchr-lt b (x ∷ xs) k h = elim (Option-cases (strchr b xs)) [
  | inl e ↦ ground arith
  | inr (j, e) ↦ ground (arith, strchr-lt b xs j)
]

pub equal→≡ : (xs ys : Bytes) → equal xs ys ≡ true → xs ≡ ys
unfolding equal
equal→≡ [] [] h = refl
equal→≡ [] (y ∷ ys) h = absurd cc
equal→≡ (x ∷ xs) [] h = absurd cc
equal→≡ (x ∷ xs) (y ∷ ys) h = elim (Bool-cases (x == y)) [
  | inl e ↦ ap (λ z. z ∷ xs) ((==_iff x y).0 e) ∙ ap (◌∷◌ y) (equal→≡ xs ys (rw e at h))
  | inr e ↦ (let bad : false ≡ true = rw e at h in absurd cc)
]
