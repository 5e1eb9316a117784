-- ===== src/KeyValue/Pieces.antt =====
-- The pairs that the loop of `getKeyValuePairsFromString` of src/infoLoggerUtils.cxx cuts out of a text.
use info_logger.Base.{
  ℕ, zero, suc, ◌+◌, ◌-◌, ◌≤◌, ◌<◌, ◌≡◌, refl, sym, ap, subst, ◌∙◌, false, List, [], ◌∷◌, ◌++◌,
  none, some, arith, leb, ◌==◌, ==_iff, length, take, drop, length-append, append_assoc,
  take-append_self,
}
use info_logger.CText.{Bytes, strchr}
use info_logger.KeyValue.{
  Pair, trim, insert, cut_piece, pairs_from, get_key_value_pairs_from_string,
}

-- The text of the pairs, with a comma between them.
unfoldable pub text_of_pairs : Pair → List Pair → Bytes
text_of_pairs p [] = p.key ++ b'=' ∷ p.value
text_of_pairs p (q ∷ ps) = p.key ++ b'=' ∷ (p.value ++ b',' ∷ text_of_pairs q ps)

unfoldable pub Lacks : ℕ → Bytes → Type 0
Lacks b [] = b ≡ b
Lacks b (x ∷ xs) = ((x == b) ≡ false) × Lacks b xs

-- Each key has no '=' and no comma, and each value no comma.
unfoldable pub ArePlain : List Pair → Type 0
ArePlain [] = 0 ≤ 0
ArePlain (p ∷ ps) = Lacks b'=' p.key × Lacks b',' p.key × Lacks b',' p.value × ArePlain ps

abbrev pub trimmed : Pair → Pair
trimmed p = record { key = trim p.key; value = trim p.value }

-- The pairs are inserted one after the other.
unfoldable pub insert_all : List Pair → List Pair → List Pair
insert_all [] out = out
insert_all (p ∷ ps) out = insert_all ps (insert (trimmed p) out)

strchr-here : (b : ℕ) (xs ys : Bytes) → Lacks b xs → strchr b (xs ++ b ∷ ys) ≡ some (length xs)
unfolding strchr Lacks
strchr-here b [] ys h = rw ((==_iff b b).1 refl) refl
strchr-here b (x ∷ xs) ys (e, h) = rw (e, strchr-here b xs ys h) refl

strchr-Lacks : (b : ℕ) (xs : Bytes) → Lacks b xs → strchr b xs ≡ none
unfolding strchr Lacks
strchr-Lacks b [] h = refl
strchr-Lacks b (x ∷ xs) (e, h) = rw (e, strchr-Lacks b xs h) refl

Lacks-append : (b : ℕ) (xs ys : Bytes) → Lacks b xs → Lacks b ys → Lacks b (xs ++ ys)
unfolding Lacks
Lacks-append b [] ys h k = k
Lacks-append b (x ∷ xs) ys (e, h) k = (e, Lacks-append b xs ys h k)

drop-past : (b : ℕ) (xs ys : Bytes) → drop (length xs + 1) (xs ++ b ∷ ys) ≡ ys
drop-past b [] ys = refl
drop-past b (x ∷ xs) ys =
    subst (λ n. drop n (x ∷ (xs ++ b ∷ ys)) ≡ ys) (suc_plus (length xs)) (drop-past b xs ys)
  where
    suc_plus : (n : ℕ) → suc (n + 1) ≡ suc n + 1
    suc_plus n = omega arith

drop-plus : (n m : ℕ) (xs : Bytes) → drop (n + m) xs ≡ drop m (drop n xs)
drop-plus zero m xs = let e : 0 + m ≡ m = omega arith in ap (λ k. drop k xs) e
drop-plus (suc n) m [] =
    let e : suc n + m ≡ suc (n + m) = omega arith in ap (λ k. drop k []) e ∙ sym (drop-nil m)
  where
    drop-nil : (m : ℕ) → ◌≡◌ {A = Bytes} (drop m []) []
    drop-nil zero = refl
    drop-nil (suc m) = refl
drop-plus (suc n) m (x ∷ xs) =
    let e : suc n + m ≡ suc (n + m) = omega arith in ap (λ k. drop k (x ∷ xs)) e ∙ drop-plus n m xs

-- The last pair, and a pair before others.
cut_piece-last :
    (k v : Bytes)
    → cut_piece (k ++ b'=' ∷ v) none (some (length k))
      ≡ some (record { pair = record { key = trim k; value = trim v }; rest = none })
unfolding cut_piece
cut_piece-last k v = rw (take-append_self k (b'=' ∷ v), drop-past b'=' k v) refl

module _ (k v rest : Bytes) where
  abbrev all : Bytes
  all = k ++ b'=' ∷ (v ++ b',' ∷ rest)

  drop-comma : drop (length k + 1 + length v + 1) all ≡ rest
  drop-comma =
      let e : length k + 1 + length v + 1 ≡ length k + 1 + (length v + 1) = omega arith in
      ap (λ n. drop n all) e
      ∙ (drop-plus (length k + 1) (length v + 1) all
          ∙ (ap (λ xs. drop (length v + 1) xs) (drop-past b'=' k (v ++ b',' ∷ rest))
              ∙ drop-past b',' v rest))

  value-part : take (length k + 1 + length v - (length k + 1)) (drop (length k + 1) all) ≡ v
  value-part =
      let e : length k + 1 + length v - (length k + 1) ≡ length v = omega arith in
      ap (λ n. take n (drop (length k + 1) all)) e
      ∙ (ap (λ xs. take (length v) xs) (drop-past b'=' k (v ++ b',' ∷ rest))
          ∙ take-append_self v (b',' ∷ rest))

  behind : leb (length k + 1 + length v) (length k) ≡ false
  behind = ground arith

  cut_piece-next :
      cut_piece all (some (length k + 1 + length v)) (some (length k))
      ≡ some (record { pair = record { key = trim k; value = trim v }; rest = some rest })
  unfolding cut_piece
  cut_piece-next = rw behind (
      ap
        (λ x. some (record {
          pair = record {
            key = trim x;
            value =
                trim (take (length k + 1 + length v - (length k + 1)) (drop (length k + 1) all));
          };
          rest = some (drop (length k + 1 + length v + 1) all);
        }))
        (take-append_self k (b'=' ∷ (v ++ b',' ∷ rest)))
      ∙ (ap
            (λ x. some (record {
              pair = record { key = trim k; value = trim x };
              rest = some (drop (length k + 1 + length v + 1) all);
            }))
            value-part
          ∙ ap
              (λ x. some (record { pair = record { key = trim k; value = trim v }; rest = some x }))
              drop-comma))

  -- The place of the comma.
  comma-place : Lacks b',' k → Lacks b',' v → strchr b',' all ≡ some (length k + 1 + length v)
  unfolding Lacks
  comma-place h j =
      ap (λ xs. strchr b',' xs) (sym (append_assoc k (b'=' ∷ v) (b',' ∷ rest)))
      ∙ (strchr-here b',' (k ++ b'=' ∷ v) rest (Lacks-append b',' k (b'=' ∷ v) h (refl, j))
          ∙ ap (λ n. some n) (length-append k (b'=' ∷ v) ∙ omega arith))

module _ (n : ℕ) (s : Bytes) (out : List Pair) (p : Pair) where
  pairs_from-stop :
      cut_piece s (strchr b',' s) (strchr b'=' s) ≡ some (record { pair = p; rest = none })
      → pairs_from (suc n) s out ≡ insert p out
  unfolding pairs_from
  pairs_from-stop e = rw (pairs_from, e) refl

  pairs_from-more :
      (rest : Bytes)
      → cut_piece s (strchr b',' s) (strchr b'=' s) ≡ some (record { pair = p; rest = some rest })
      → pairs_from (suc n) s out ≡ pairs_from n rest (insert p out)
  unfolding pairs_from
  pairs_from-more rest e = rw (pairs_from, e) refl

-- The pieces of a text of pairs are the pairs.
pairs_from-text :
    (p : Pair) (ps out : List Pair) (n : ℕ)
    → ArePlain (p ∷ ps)
    → length ps < n
    → pairs_from n (text_of_pairs p ps) out ≡ insert_all (p ∷ ps) out
unfolding ArePlain insert_all text_of_pairs Lacks
pairs_from-text p ps out zero h le = absurd (omega arith)
pairs_from-text p [] out (suc n) (a, b, c, h) le =
    pairs_from-stop n (p.key ++ b'=' ∷ p.value) out (trimmed p) (
      ap (λ o. cut_piece (p.key ++ b'=' ∷ p.value) o (strchr b'=' (p.key ++ b'=' ∷ p.value)))
        (strchr-Lacks b',' (p.key ++ b'=' ∷ p.value)
          (Lacks-append b',' p.key (b'=' ∷ p.value) b (refl, c)))
      ∙ (ap (λ o. cut_piece (p.key ++ b'=' ∷ p.value) none o) (strchr-here b'=' p.key p.value a)
          ∙ cut_piece-last p.key p.value))
pairs_from-text p (q ∷ ps) out (suc n) (a, b, c, h) le =
    let rest = text_of_pairs q ps in
    let s = p.key ++ b'=' ∷ (p.value ++ b',' ∷ rest) in
    pairs_from-more n s out (trimmed p) rest (
      ap (λ o. cut_piece s o (strchr b'=' s)) (comma-place p.key p.value rest b c)
      ∙ (ap (λ o. cut_piece s (some (length p.key + 1 + length p.value)) o)
            (strchr-here b'=' p.key (p.value ++ b',' ∷ rest) a)
          ∙ cut_piece-next p.key p.value rest))
    ∙ pairs_from-text q ps (insert (trimmed p) out) n h (omega arith)

length-text_of_pairs : (p : Pair) (ps : List Pair) → length ps < length (text_of_pairs p ps)
unfolding text_of_pairs
length-text_of_pairs p [] = omega (arith, length-append p.key (b'=' ∷ p.value))
length-text_of_pairs p (q ∷ ps) = omega (
  arith,
  length-text_of_pairs q ps,
  length-append p.key (b'=' ∷ (p.value ++ b',' ∷ text_of_pairs q ps)),
  length-append p.value (b',' ∷ text_of_pairs q ps),
)

-- The pairs of a text go into the map, one after the other.
pub text_of_pairs-inserted :
    (p : Pair) (ps : List Pair)
    → ArePlain (p ∷ ps)
    → get_key_value_pairs_from_string (text_of_pairs p ps) ≡ insert_all (p ∷ ps) []
unfolding get_key_value_pairs_from_string
text_of_pairs-inserted p ps h =
    pairs_from-text p ps [] (suc (length (text_of_pairs p ps))) h
      (omega (arith, length-text_of_pairs p ps))
