-- ===== src/Message/Convert/Carried.antt =====
-- Which value `infoLog_msg_convert` of src/infoLoggerMessage.c puts in each field, and the tables that
-- `infoLog_proto_init` builds for the protocols of that file.
use info_logger.Base.{
  ℕ, zero, suc, ◌≤◌, ◌<◌, ◌≡◌, refl, ap, ◌∙◌, Bool, true, not, ◌&&◌, List, [], ◌∷◌, Option, none,
  some, arith, inl, inr, leb, leb→le, each_lt, holds_each, ◌==◌, if◌then◌else◌, ℤ, pos, length,
  get_or, set, get_or-set, replicate, Bool-cases, Option-cases, length-set, length-replicate,
}
use info_logger.CText.{equal}
use info_logger.Message.{
  Real, FieldDef, Value, Message, protocols, protocol_1_4, undefined, fields_max, same_kind,
  end_of_fields,
}
use info_logger.Message.Convert.{
  match_field, convert_index, all_usable, check_protocol, proto_init, move_values, convert,
}

-- The place in a conversion table from which the value of field `k` comes: the last that names `k`.
unfoldable pub source : ℕ → List (Option ℕ) → Option ℕ
source k [] = none
source k (i ∷ ix) = elim (source k ix) [
  | some j ↦ some (suc j)
  | none ↦ elim i [ none ↦ none | some t ↦ if t == k then some 0 else none ]
]

module _ (r : Real) where
  abbrev pub carried : List (Value r) → Value r → Option ℕ → Value r
  carried vs old none = old
  carried vs old (some j) = get_or vs j (undefined r)

  move_values_lem :
      (ix : List (Option ℕ)) (vs new : List (Value r)) (k : ℕ)
      → length ix ≤ length vs
      → k < length new
      → get_or (move_values r ix vs new) k (undefined r)
        ≡ carried vs (get_or new k (undefined r)) (source k ix)
  unfolding move_values source
  move_values_lem [] vs new k le lt = refl
  move_values_lem (i ∷ ix) [] new k le lt = absurd (omega arith)
  move_values_lem (none ∷ ix) (v ∷ vs) new k le lt = elim (Option-cases (source k ix)) [
    | inl e ↦ move_values_lem ix vs new k (omega arith) lt ∙ rw (e, source) refl
    | inr (j, e) ↦ move_values_lem ix vs new k (omega arith) lt ∙ rw (e, source) refl
  ]
  move_values_lem (some i ∷ ix) (v ∷ vs) new k le lt =
      let later =
        move_values_lem ix vs (set new i v) k (omega arith)
          (omega (arith, lt, length-set new i v)) in
      elim (Option-cases (source k ix)) [
        | inl e ↦
            later
            ∙ rw (e, source)
                (rw (get_or-set new i k v (undefined r) lt)
                  (elim (Bool-cases (i == k)) [ inl f ↦ rw f refl | inr f ↦ rw f refl ]))
        | inr (j, e) ↦ later ∙ rw (e, source) refl
      ]

-- The conversion tables of the program.
abbrev pub tables : List (List (Option ℕ))
tables = (proto_init protocols).1

abbrev same_field : FieldDef → FieldDef → Bool
same_field a b = same_kind a.kind b.kind && equal a.name b.name

abbrev absent : FieldDef → List FieldDef → Bool
absent d [] = true
absent d (e ∷ es) = not (same_field e d) && absent d es

-- The place has the field of that name and type, and no field has them where there is no place.
abbrev pub agrees : FieldDef → List FieldDef → Option ℕ → Bool
agrees d ds none = absent d ds
agrees d ds (some j) = same_field (get_or ds j end_of_fields) d

abbrev pub default_field : ℕ → FieldDef
default_field k = get_or protocol_1_4.fields k end_of_fields

abbrev pub table_of : ℕ → List (Option ℕ)
table_of p = get_or tables p []

abbrev pub fields_of : ℕ → List FieldDef
fields_of p = (get_or protocols p protocol_1_4).fields

tables_checked :
    each_lt 2 (λ p.
      each_lt 16 (λ k. agrees (default_field k) (fields_of (suc p)) (source k (table_of (suc p)))))
    ≡ true
unfolding each_lt source proto_init check_protocol all_usable convert_index match_field equal
tables_checked = refl

tables_short : each_lt 2 (λ p. leb (length (table_of (suc p))) 17) ≡ true
unfolding each_lt proto_init check_protocol all_usable convert_index match_field equal
tables_short = refl

proto_init_succeeds : (proto_init protocols).0 ≡ pos 0
unfolding proto_init check_protocol all_usable equal
proto_init_succeeds = refl

blank_values :
    (r : Real) (n k : ℕ) → get_or (replicate n (undefined r)) k (undefined r) ≡ undefined r
blank_values r zero k = refl
blank_values r (suc n) zero = refl
blank_values r (suc n) (suc k) = blank_values r n k

module _ (r : Real) where
  -- The value that `infoLog_msg_convert` puts in field `k`.
  abbrev pub converted : ℕ → List (Value r) → ℕ → Value r
  converted p vs k =
      value_in (convert r (some tables) (some (record { values = vs; protocol = some p })))
    where
      value_in : ℤ × Option (Message r) → Value r
      value_in (c, none) = undefined r
      value_in (c, some m) = get_or m.values k (undefined r)

  -- `infoLog_proto_init` accepts the protocols of the program, and with its tables a message of either
  -- of the older ones is converted so: each field of the default protocol gets the value of the
  -- field that has its name and type in the older one, and is undefined if there is none.
  pub convert-carried :
      (p k : ℕ) (vs : List (Value r))
      → p < 2
      → k < 16
      → 17 ≤ length vs
      → ((proto_init protocols).0 ≡ pos 0)
        × (agrees (default_field k) (fields_of (suc p)) (source k (table_of (suc p))) ≡ true)
        × (converted (suc p) vs k ≡ carried r vs (undefined r) (source k (table_of (suc p))))
  unfolding convert
  convert-carried p k vs hp hk long = (
    proto_init_succeeds,
    holds_each 16 (λ k. agrees (default_field k) (fields_of (suc p)) (source k (table_of (suc p))))
        k
        (holds_each 2
          (λ p.
            each_lt 16
              (λ k. agrees (default_field k) (fields_of (suc p)) (source k (table_of (suc p)))))
          p tables_checked hp)
        hk,
    move_values_lem r (table_of (suc p)) vs (replicate fields_max (undefined r)) k
          (omega (
            arith,
            long,
            leb→le (length (table_of (suc p))) 17
                (holds_each 2 (λ p. leb (length (table_of (suc p))) 17) p tables_short hp),
          ))
          (omega (arith, hk, length-replicate fields_max (undefined r)))
        ∙ ap (λ o. carried r vs o (source k (table_of (suc p)))) (blank_values r fields_max k),
  )
