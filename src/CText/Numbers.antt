-- ===== src/CText/Numbers.antt =====
-- `printf("%d")` and `sscanf("%d")`. A number outside the range of int, for which C defines nothing,
-- is taken as it stands.
use info_logger.Base.{
  ℕ, zero, suc, ◌+◌, ◌-◌, ◌*◌, ◌/◌, ◌%◌, ◌<◌, ◌≡◌, ◌≢◌, refl, ap, ◌∙◌, Bool, true, false, ◌&&◌,
  ◌||◌, List, [], ◌∷◌, ◌++◌, Option, none, some, arith, ltb, leb, ◌==◌, if◌then◌else◌, inl, inr,
  Bool-cases, ltb→lt, ltb_false→le, ℤ, pos, negsuc, length,
}

unfoldable pub is_digit : ℕ → Bool
is_digit c = leb b'0' c && leb c b'9'

-- `isspace`
unfoldable pub is_space : ℕ → Bool
is_space c = (c == b' ') || (leb 9 c && leb c 13)

-- The decimal digits of `n`, for more fuel than `n`.
digits_fuel : ℕ → ℕ → List ℕ
digits_fuel zero n = []
digits_fuel (suc f) n =
    let rest = digits_fuel f (n / 10) in
    if ltb n 10 then (n + 48) ∷ [] else rest ++ (n % 10 + 48) ∷ []

unfoldable pub digits : ℕ → List ℕ
unfolding digits_fuel
digits n = digits_fuel (suc n) n

unfoldable pub print_int : ℤ → List ℕ
unfolding digits
print_int (pos n) = digits n
print_int (negsuc n) = b'-' ∷ digits (n + 1)

-- Reads digits while there are any.
unfoldable pub read_digits : ℕ → List ℕ → ℕ
unfolding is_digit
read_digits acc [] = acc
read_digits acc (c ∷ cs) =
    let rest = read_digits (acc * 10 + (c - 48)) cs in if is_digit c then rest else acc

read_unsigned : List ℕ → Option ℕ
unfolding read_digits is_digit
read_unsigned [] = none
read_unsigned (c ∷ cs) = if is_digit c then some (read_digits 0 (c ∷ cs)) else none

negate : ℕ → ℤ
negate zero = pos 0
negate (suc n) = negsuc n

read_signed : List ℕ → Option ℤ
unfolding read_unsigned negate
read_signed [] = none
read_signed (c ∷ cs) =
    if c == b'-'
    then elim (read_unsigned cs) [ none ↦ none | some n ↦ some (negate n) ]
    else if c == b'+'
    then elim (read_unsigned cs) [ none ↦ none | some n ↦ some (pos n) ]
    else elim (read_unsigned (c ∷ cs)) [ none ↦ none | some n ↦ some (pos n) ]

-- `sscanf(s, "%d", &v)`: `some v` where it returns 1.
unfoldable pub scan_int : List ℕ → Option ℤ
unfolding read_signed is_space
scan_int [] = none
scan_int (c ∷ cs) = let rest = scan_int cs in if is_space c then rest else read_signed (c ∷ cs)

abbrev pub AllDigits : List ℕ → Type 0
AllDigits [] = Unit
AllDigits (c ∷ cs) = (is_digit c ≡ true) × AllDigits cs

AllDigits-append : (xs ys : List ℕ) → AllDigits xs → AllDigits ys → AllDigits (xs ++ ys)
AllDigits-append [] ys h k = k
AllDigits-append (x ∷ xs) ys h k = (h.0, AllDigits-append xs ys h.1 k)

last_digit : (n : ℕ) → is_digit (n % 10 + 48) ≡ true
unfolding is_digit
last_digit n = ground arith

small_digit : (n : ℕ) → n < 10 → is_digit (n + 48) ≡ true
unfolding is_digit
small_digit n h = ground arith

digits_fuel-AllDigits : (f n : ℕ) → AllDigits (digits_fuel f n)
unfolding digits_fuel
digits_fuel-AllDigits zero n = tt
digits_fuel-AllDigits (suc f) n = elim (Bool-cases (ltb n 10)) [
  | inl h ↦ rw h (small_digit n (ltb→lt n 10 h), tt)
  | inr h ↦ rw h (
      AllDigits-append (digits_fuel f (n / 10)) ((n % 10 + 48) ∷ [])
        (digits_fuel-AllDigits f (n / 10)) (last_digit n, tt))
]

read_digits-concat :
    (xs : List ℕ) (acc c : ℕ)
    → AllDigits xs
    → is_digit c ≡ true
    → read_digits acc (xs ++ c ∷ []) ≡ read_digits acc xs * 10 + (c - 48)
unfolding read_digits
read_digits-concat [] acc c h d = rw d
read_digits-concat (x ∷ xs) acc c h d = rw h.0 (read_digits-concat xs (acc * 10 + (x - 48)) c h.1 d)

read_digits-digits_fuel : (f n : ℕ) → n < f → read_digits 0 (digits_fuel f n) ≡ n
unfolding digits_fuel
read_digits-digits_fuel zero n h = elim h [ ]
read_digits-digits_fuel (suc f) n h = elim (Bool-cases (ltb n 10)) [
  | inl e ↦ rw e (unfold read_digits in rw (small_digit n (ltb→lt n 10 e)) (omega arith))
  | inr e ↦
      rw
        (
          e,
          read_digits-concat (digits_fuel f (n / 10)) 0 (n % 10 + 48)
              (digits_fuel-AllDigits f (n / 10)) (last_digit n),
          read_digits-digits_fuel f (n / 10) (omega (arith, ltb_false→le n 10 e)),
        )
        (omega arith)
]

concat_not_nil : (xs : List ℕ) (x : ℕ) → xs ++ x ∷ [] ≢ []
concat_not_nil [] x h = cc
concat_not_nil (y ∷ xs) x h = cc

digits_fuel-ne-nil : (f n : ℕ) → digits_fuel (suc f) n ≢ []
unfolding digits_fuel
digits_fuel-ne-nil f n h = elim (Bool-cases (ltb n 10)) [
  | inl e ↦ cc (rw e at h)
  | inr e ↦ concat_not_nil (digits_fuel f (n / 10)) (n % 10 + 48) (rw e at h)
]

scan_int-AllDigits :
    (xs : List ℕ) → AllDigits xs → xs ≢ [] → scan_int xs ≡ some (pos (read_digits 0 xs))
unfolding scan_int is_digit
scan_int-AllDigits [] h ne = absurd (ne refl)
scan_int-AllDigits (c ∷ cs) h ne = ground arith

-- Printing an unsigned number and scanning the result gives the number back.
pub scan_int-digits : (n : ℕ) → scan_int (print_int (pos n)) ≡ some (pos n)
unfolding print_int digits
scan_int-digits n =
    scan_int-AllDigits (digits n) (digits_fuel-AllDigits (suc n) n) (digits_fuel-ne-nil n n)
    ∙ ap (λ k. some (pos k)) (read_digits-digits_fuel (suc n) n (omega arith))

pub print_int-AllDigits : (n : ℕ) → AllDigits (print_int (pos n))
unfolding print_int digits
print_int-AllDigits n = digits_fuel-AllDigits (suc n) n

not_nil : (xs : List ℕ) → xs ≢ [] → (length xs == 0) ≡ false
not_nil [] h = absurd (h refl)
not_nil (x ∷ xs) h = ground arith

pub print_int-ne : (n : ℕ) → (length (print_int (pos n)) == 0) ≡ false
unfolding print_int digits
print_int-ne n = not_nil (digits_fuel (suc n) n) (digits_fuel-ne-nil n n)
