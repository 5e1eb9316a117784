-- ===== src/KeyValue/Trim.antt =====
-- How `getKeyValuePairsFromString` of src/infoLoggerUtils.cxx removes white space around a text.
use info_logger.Base.{ℕ, ◌≡◌, refl, ap, ◌∙◌, Bool, true, false, ◌&&◌, [], ◌∷◌, ◌++◌, if◌then◌else◌}
use info_logger.CText.{Bytes}
use info_logger.CText.Numbers.{is_space}
use info_logger.KeyValue.{trim, trim_start, trim_end}

-- Only white space.
abbrev pub IsBlank : Bytes → Type 0
IsBlank [] = Unit
IsBlank (c ∷ cs) = (is_space c ≡ true) × IsBlank cs

-- No white space at the start, and at the end.
abbrev pub StartsBare : Bytes → Type 0
StartsBare [] = Unit
StartsBare (c ∷ cs) = is_space c ≡ false

abbrev pub EndsBare : Bytes → Type 0
EndsBare [] = Unit
EndsBare (c ∷ []) = is_space c ≡ false
EndsBare (c ∷ d ∷ cs) = EndsBare (d ∷ cs)

IsBlank-append : (xs ys : Bytes) → IsBlank xs → IsBlank ys → IsBlank (xs ++ ys)
IsBlank-append [] ys h k = k
IsBlank-append (c ∷ cs) ys h k = (h.0, IsBlank-append cs ys h.1 k)

trim_end-blank : (b : Bytes) → IsBlank b → trim_end b ≡ []
unfolding trim_end
trim_end-blank [] h = refl
trim_end-blank (c ∷ cs) h = rw (trim_end, trim_end-blank cs h.1, h.0) refl

-- A character before something is kept.
choose_same : (b : Bool) (c : ℕ) (rest : Bytes) → (if b && false then [] else c ∷ rest) ≡ c ∷ rest
choose_same true c rest = refl
choose_same false c rest = refl

trim_end-bare : (x b : Bytes) → EndsBare x → IsBlank b → trim_end (x ++ b) ≡ x
unfolding trim_end
trim_end-bare [] b h k = trim_end-blank b k
trim_end-bare (c ∷ []) b h k = rw (trim_end, trim_end-blank b k, h) refl
trim_end-bare (c ∷ d ∷ cs) b h k =
    rw (trim_end-bare (d ∷ cs) b h k) (choose_same (is_space c) c (d ∷ cs))

trim_end-append : (a s t : Bytes) (c : ℕ) → trim_end s ≡ c ∷ t → trim_end (a ++ s) ≡ a ++ c ∷ t
unfolding trim_end
trim_end-append [] s t c h = h
trim_end-append (x ∷ []) s t c h = rw h (choose_same (is_space x) x (c ∷ t))
trim_end-append (x ∷ y ∷ a) s t c h =
    rw (trim_end-append (y ∷ a) s t c h) (choose_same (is_space x) x (y ∷ (a ++ c ∷ t)))

trim_start-blank : (a s : Bytes) → IsBlank a → trim_start (a ++ s) ≡ trim_start s
unfolding trim_start
trim_start-blank [] s h = refl
trim_start-blank (c ∷ cs) s h = rw (h.0) (trim_start-blank cs s h.1)

trim_start-bare : (x : Bytes) → StartsBare x → trim_start x ≡ x
unfolding trim_start
trim_start-bare [] h = refl
trim_start-bare (c ∷ cs) h = rw h refl

-- White space on both sides is removed, and nothing else.
pub trim-around :
    (a x b : Bytes) → IsBlank a → IsBlank b → StartsBare x → EndsBare x → trim (a ++ (x ++ b)) ≡ x
unfolding trim trim_start
trim-around a [] b h k s e =
    ap (λ t. trim_start t) (trim_end-blank (a ++ b) (IsBlank-append a b h k))
trim-around a (c ∷ cs) b h k s e =
    ap (λ t. trim_start t) (trim_end-append a ((c ∷ cs) ++ b) cs c (trim_end-bare (c ∷ cs) b e k))
    ∙ (trim_start-blank a (c ∷ cs) h ∙ trim_start-bare (c ∷ cs) s)
