-- ===== src/LineBuffer/Line.antt =====
-- The line that `lineBuffer_getLine` of src/utility.c cuts off the content.
use info_logger.Base.{
  ℕ, zero, suc, ◌+◌, ◌<◌, ◌≡◌, refl, sym, ap, subst, false, [], ◌∷◌, ◌++◌, none, some, ◌==◌, length,
  take, drop, arith, Option-cases, ==_iff, Bool-cases, inl, inr,
}
use info_logger.CText.{Bytes, c_str, strchr}
use info_logger.LineBuffer.{LineBuffer, cut, get_line}

suc_of : {j k : ℕ} → some (suc j) ≡ some (suc k) → j ≡ k
suc_of h = cc

at_break :
    (c : ℕ) (cs : Bytes) (k : ℕ)
    → c ≡ b'\n'
    → some 0 ≡ some k
    → (c ∷ cs ≡ take k (c ∷ cs) ++ b'\n' ∷ drop (suc k) (c ∷ cs))
      × (strchr b'\n' (take k (c ∷ cs)) ≡ none)
      × (k < length (c ∷ cs))
unfolding strchr
at_break c cs zero e h = (ap (λ d. d ∷ cs) e, refl, omega arith)
at_break c cs (suc k) e h = cc

later :
    (c : ℕ) (cs : Bytes) (k j : ℕ)
    → (c == b'\n') ≡ false
    → (cs ≡ take j cs ++ b'\n' ∷ drop (suc j) cs)
      × (strchr b'\n' (take j cs) ≡ none)
      × (j < length cs)
    → some (suc j) ≡ some k
    → (c ∷ cs ≡ take k (c ∷ cs) ++ b'\n' ∷ drop (suc k) (c ∷ cs))
      × (strchr b'\n' (take k (c ∷ cs)) ≡ none)
      × (k < length (c ∷ cs))
unfolding strchr
later c cs zero j f h e = cc
later c cs (suc k) j f h e =
    let same : j ≡ k = suc_of e in
    subst
      (λ i.
        (c ∷ cs ≡ c ∷ take i cs ++ b'\n' ∷ drop (suc i) cs)
        × (strchr b'\n' (c ∷ take i cs) ≡ none)
        × (suc i < length (c ∷ cs)))
      same (ap (◌∷◌ c) h.0, rw (f, h.1) refl, omega (arith, h.2))

pub break-split :
    (s : Bytes) (k : ℕ)
    → strchr b'\n' (c_str s) ≡ some k
    → (s ≡ take k s ++ b'\n' ∷ drop (suc k) s) × (strchr b'\n' (take k s) ≡ none) × (k < length s)
unfolding strchr c_str
break-split [] k e = cc
break-split (c ∷ cs) k e = elim (Bool-cases (c == 0)) [
  | inl z ↦ cc (rw z at e)
  | inr z ↦ elim (Bool-cases (c == b'\n')) [
    | inl f ↦ at_break c cs k ((==_iff c b'\n').0 f) (rw (z, strchr, f) at e)
    | inr f ↦ elim (Option-cases (strchr b'\n' (c_str cs))) [
      | inl g ↦ cc (rw (z, strchr, f, g) at e)
      | inr (j, g) ↦ later c cs k j f (break-split cs j g) (rw (z, strchr, f, g) at e)
    ]
  ]
]

drop-nil : (n : ℕ) (s : Bytes) → n ≡ length s → drop n s ≡ []
drop-nil n [] h = subst (λ k. drop {A = ℕ} k [] ≡ []) (sym h) refl
drop-nil zero (c ∷ cs) h = absurd (omega (arith, h))
drop-nil (suc n) (c ∷ cs) h = drop-nil n cs (omega (arith, h))

pub cut-content :
    (k : ℕ) (b : LineBuffer) → k < length b.content → (cut k b).content ≡ drop (suc k) b.content
unfolding cut
cut-content k b h = elim (Bool-cases (k + 1 == length b.content)) [
  | inl e ↦
      rw (cut, e)
        (sym (drop-nil (suc k) b.content (omega (arith, (==_iff (k + 1) (length b.content)).0 e))))
  | inr e ↦
      (let same : k + 1 ≡ suc k = omega arith in rw (cut, e) (ap (λ n. drop n b.content) same))
]

pub nothing : (b : LineBuffer) → strchr b'\n' (c_str b.content) ≡ none → get_line b ≡ (none, b)
unfolding get_line
nothing b e = rw (get_line, e) refl

pub found :
    (b : LineBuffer) (k : ℕ)
    → strchr b'\n' (c_str b.content) ≡ some k
    → get_line b ≡ (some (take k b.content), cut k b)
unfolding get_line
found b k e = rw (get_line, e) refl
