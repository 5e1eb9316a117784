-- ===== src/DispatchStats/Counts.antt =====
-- What the windows of src/InfoLoggerDispatchStats.cxx count.
use info_logger.Base.{
  ℕ, zero, suc, ◌+◌, ◌≤◌, ◌<◌, ◌≡◌, refl, sym, ap, subst, ◌∙◌, ◌^◌, Bool, true, false, List, [],
  ◌∷◌, Option, none, some, arith, inl, inr, if◌then◌else◌, length, get_or, get_elem?, Bool-cases,
}
use info_logger.CText.{Bytes, equal, equal_refl, equal→≡}
use info_logger.Message.{Real, Message}
use info_logger.DispatchStats.{
  Count, FieldStats, Combination, increment, count_value, plus, combined, count_fields, can_encode,
  count_message, count_messages,
}

-- The count of a value.
abbrev pub number_of : Bytes → List Count → ℕ
number_of v [] = 0
number_of v (c ∷ cs) = if equal c.key v then c.number else number_of v cs

number_head :
    (v : Bytes) (c : Count) (cs : List Count)
    → equal c.key v ≡ true
    → number_of v (c ∷ cs) + 1 < 2 ^ 64
    → c.number + 1 < 2 ^ 64
number_head v c cs e h = rw e at h

other_head :
    (v u : Bytes) (c : Count) → equal u v ≡ false → equal c.key u ≡ true → equal c.key v ≡ false
other_head v u c h e = subst (λ k. equal k v ≡ false) (sym (equal→≡ c.key u e)) h

-- Each key stands once: with the first count changed, the later ones of the same key do not show.
increment-same :
    (v : Bytes) (cs : List Count)
    → number_of v cs + 1 < 2 ^ 64
    → number_of v (increment v cs) ≡ number_of v cs + 1
unfolding increment plus
increment-same v [] h = rw (equal_refl v) (omega arith)
increment-same v (c ∷ cs) h = elim (Bool-cases (equal c.key v)) [
  | inl e ↦ rw (e, e) (omega (arith, number_head v c cs e h))
  | inr e ↦ rw (e, e) (increment-same v cs (rw e at h))
]

increment-other :
    (v u : Bytes) (cs : List Count)
    → equal u v ≡ false
    → number_of v (increment u cs) ≡ number_of v cs
unfolding increment plus
increment-other v u [] h = rw h refl
increment-other v u (c ∷ cs) h = elim (Bool-cases (equal c.key u)) [
  | inl e ↦ rw (e, other_head v u c h e) refl
  | inr e ↦ rw e (ap (λ n. if equal c.key v then c.number else n) (increment-other v u cs h))
]

length-count_fields :
    (r : Real) (m : Message r) (cs : List Combination) (counts : List (List Count))
    → length (count_fields r m cs counts) ≡ length counts
unfolding count_fields
length-count_fields r m [] counts = refl
length-count_fields r m (c ∷ cs) [] = refl
length-count_fields r m (c ∷ cs) (n ∷ counts) = ap suc (length-count_fields r m cs counts)

-- A message changes the count of its own value only.
abbrev given : Combination → Option Combination → Combination
given c none = c
given c (some d) = d

count_fields-at :
    (r : Real) (m : Message r) (cs : List Combination) (counts : List (List Count)) (id : ℕ)
    (c : Combination)
    → get_elem? cs id ≡ some c
    → id < length counts
    → get_or (count_fields r m cs counts) id [] ≡ count_value (combined r m c) (get_or counts id [])
unfolding count_fields
count_fields-at r m [] counts id c e h = absurd cc
count_fields-at r m (d ∷ cs) [] id c e h = absurd (omega arith)
count_fields-at r m (d ∷ cs) (n ∷ counts) zero c e h =
    ap (λ o. count_value (combined r m (given c o)) n) e
count_fields-at r m (d ∷ cs) (n ∷ counts) (suc id) c e h =
    count_fields-at r m cs counts id c e (omega arith)

abbrev pub has_value : Bytes → Option Bytes → Bool
has_value v none = false
has_value v (some u) = equal u v

module _ (r : Real) where
  -- How many messages are counted, and how many of them have a value of a combination.
  unfoldable pub counted : List (Message r) → ℕ
  counted [] = 0
  counted (m ∷ ms) = (if can_encode r m then 1 else 0) + counted ms

  unfoldable pub occurrences : Combination → Bytes → List (Message r) → ℕ
  occurrences c v [] = 0
  occurrences c v (m ∷ ms) =
      (if can_encode r m then (if has_value v (combined r m c) then 1 else 0) else 0)
      + occurrences c v ms

count_value-number :
    (v : Bytes) (o : Option Bytes) (n : List Count)
    → number_of v n + 1 < 2 ^ 64
    → number_of v (count_value o n) ≡ number_of v n + (if has_value v o then 1 else 0)
count_value-number v none n h = omega arith
count_value-number v (some u) n h = elim (Bool-cases (equal u v)) [
  | inl e ↦ rw e (
      subst (λ x. number_of v (increment x n) ≡ number_of v n + 1) (sym (equal→≡ u v e))
        (increment-same v n h))
  | inr e ↦ rw e (increment-other v u n e ∙ omega arith)
]

-- One message.
count_message-number :
    (r : Real) (cs : List Combination) (w : FieldStats) (m : Message r) (id : ℕ) (c : Combination)
    (v : Bytes)
    → get_elem? cs id ≡ some c
    → id < length w.field_counts
    → number_of v (get_or w.field_counts id []) + 1 < 2 ^ 64
    → number_of v (get_or (count_message r cs w m).field_counts id [])
      ≡ number_of v (get_or w.field_counts id [])
        + (if can_encode r m then (if has_value v (combined r m c) then 1 else 0) else 0)
unfolding count_message
count_message-number r cs w m id c v e h b = elim (Bool-cases (can_encode r m)) [
  | inl ok ↦ rw ok (
      ap (λ n. number_of v n) (count_fields-at r m cs w.field_counts id c e h)
      ∙ count_value-number v (combined r m c) (get_or w.field_counts id []) b)
  | inr bad ↦ rw bad (omega arith)
]

count_message-length :
    (r : Real) (cs : List Combination) (w : FieldStats) (m : Message r)
    → length (count_message r cs w m).field_counts ≡ length w.field_counts
unfolding count_message
count_message-length r cs w m = elim (Bool-cases (can_encode r m)) [
  | inl ok ↦ rw ok (length-count_fields r m cs w.field_counts)
  | inr bad ↦ rw bad refl
]

count_message-total :
    (r : Real) (cs : List Combination) (w : FieldStats) (m : Message r)
    → w.total_messages + 1 < 2 ^ 64
    → (count_message r cs w m).total_messages ≡ w.total_messages + (if can_encode r m then 1 else 0)
unfolding count_message plus
count_message-total r cs w m h = elim (Bool-cases (can_encode r m)) [
  | inl ok ↦ rw ok (omega arith)
  | inr bad ↦ rw bad (omega arith)
]

at_most_one : (a b : Bool) → (if a then (if b then 1 else 0) else 0) ≤ 1
at_most_one a b = ground arith

-- After a list of messages, a window that had room has one more for each message that can be encoded,
-- and for each combination of fields and each value as many more as messages have this value there.
pub count_messages-occurrences :
    (r : Real) (cs : List Combination) (w : FieldStats) (ms : List (Message r)) (id : ℕ)
    (c : Combination) (v : Bytes)
    → get_elem? cs id ≡ some c
    → id < length w.field_counts
    → w.total_messages + length ms < 2 ^ 64
    → number_of v (get_or w.field_counts id []) + length ms < 2 ^ 64
    → ((count_messages r cs w ms).total_messages ≡ w.total_messages + counted r ms)
      × (number_of v (get_or (count_messages r cs w ms).field_counts id [])
          ≡ number_of v (get_or w.field_counts id []) + occurrences r c v ms)
unfolding count_messages counted occurrences
count_messages-occurrences r cs w [] id c v e h t b = (omega arith, omega arith)
count_messages-occurrences r cs w (m ∷ ms) id c v e h t b =
    let w' = count_message r cs w m in
    let one = count_message-number r cs w m id c v e h (omega arith) in
    let all = count_message-total r cs w m (omega arith) in
    let x = at_most_one (can_encode r m) (has_value v (combined r m c)) in
    let y = at_most_one (can_encode r m) true in
    let (total, number) =
      count_messages-occurrences r cs w' ms id c v e (omega (arith, count_message-length r cs w m))
        (omega (arith, all, y)) (omega (arith, one, x)) in
    (omega (arith, total, all), omega (arith, number, one))
