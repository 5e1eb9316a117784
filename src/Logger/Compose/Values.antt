-- ===== src/Logger/Compose/Values.antt =====
-- Which value each field of a message has that `pushMessage` of src/InfoLogger.cxx makes.
use info_logger.Base.{
  ℕ, ◌<◌, ◌≤◌, ◌≡◌, refl, ap, ◌∙◌, List, [], ◌∷◌, Option, none, some, ◌==◌, ==_iff, if◌then◌else◌,
  length, get_or, get_or-set, arith, Option-cases, Bool-cases, inl, inr, length-set,
}
use info_logger.CText.{Bytes}
use info_logger.Message.{Real, Value, Message, undefined}
use info_logger.Logger.Compose.{field_index, Content, put_content, set_value, set_values}

module _ (r : Real) where
  abbrev value_at : ℕ → Message r → Value r
  value_at k m = get_or m.values k (undefined r)

  abbrev one_setting : ℕ → Option ℕ → Content r → Value r → Value r
  one_setting k none content v = v
  one_setting k (some i) content v = if i == k then put_content r content v else v

  -- The value of field `k` after a list of settings, `v` being its old one.
  unfoldable pub settled : ℕ → List (Bytes × Content r) → Value r → Value r
  settled k [] v = v
  settled k ((name, content) ∷ ss) v = settled k ss (one_setting k (field_index name) content v)

  same_field :
      (i k : ℕ) (content : Content r) (m : Message r)
      → (if i == k then put_content r content (value_at i m) else value_at k m)
        ≡ (if i == k then put_content r content (value_at k m) else value_at k m)
  same_field i k content m = elim (Bool-cases (i == k)) [
    | inl e ↦
        ap (λ j. if i == k then put_content r content (value_at j m) else value_at k m)
          ((==_iff i k).0 e)
    | inr e ↦ rw e refl
  ]

  set_value-settled :
      (k : ℕ) (name : Bytes) (content : Content r) (m : Message r)
      → k < 16
      → 16 ≤ length m.values
      → (value_at k (set_value r name content m)
          ≡ one_setting k (field_index name) content (value_at k m))
        × (length (set_value r name content m).values ≡ length m.values)
  unfolding set_value
  set_value-settled k name content m small long = elim (Option-cases (field_index name)) [
    | inl e ↦ rw (set_value, e) (refl, refl)
    | inr (i, e) ↦
        rw (set_value, e)
          (
            get_or-set m.values i k (put_content r content (get_or m.values i (undefined r)))
                  (undefined r) (omega (arith, small, long))
                ∙ same_field i k content m,
            length-set m.values i (put_content r content (get_or m.values i (undefined r))),
          )
  ]

  -- Each field of a message with 16 values or more has, after a list of settings, the value that the
  -- settings of this field make of its old one.
  set_values-settled :
      (k : ℕ) (ss : List (Bytes × Content r)) (m : Message r)
      → k < 16
      → 16 ≤ length m.values
      → value_at k (set_values r ss m) ≡ settled k ss (value_at k m)
  unfolding set_values settled
  set_values-settled k [] m small long = refl
  set_values-settled k ((name, content) ∷ ss) m small long =
      let here = set_value-settled k name content m small long in
      set_values-settled k ss (set_value r name content m) small (omega (arith, long, here.1))
      ∙ ap (settled k ss) here.0
