-- ===== src/InfoLoggerDaemon/Lines.antt =====
-- What becomes of the lines that a client of src/infoLoggerD.cxx sends.
use info_logger.Base.{
  ℕ, ◌≡◌, refl, sym, ap, subst, ◌∙◌, Bool, true, false, ◌&&◌, List, [], ◌∷◌, ◌++◌, map, inl, inr,
  ◌==◌, if◌then◌else◌, append_assoc, append-nil, map-append, Bool-cases,
}
use info_logger.CText.{Bytes, c_str}
use info_logger.InfoLoggerDaemon.{Receiver, forward, end_line, split_data}

-- The lines of a text that goes on a started line, and what is behind the last line feed.
unfoldable pub lines_of : Bytes → Bytes → List Bytes × Bytes
lines_of cur [] = ([], cur)
lines_of cur (b ∷ bs) =
    let next = lines_of [] bs in
    let more = lines_of (cur ++ b ∷ []) bs in if b == b'\n' then (cur ∷ next.0, next.1) else more

-- Each line feed has another byte of the same read between it and the line feed before.
unfoldable pub is_preceded : Bool → Bytes → Bool
is_preceded before [] = true
is_preceded before (b ∷ bs) =
    let next = is_preceded false bs in
    let more = is_preceded true bs in if b == b'\n' then before && next else more

-- The messages sent and the buffer, for the server's lines.
abbrev after : Receiver → List Bytes × Bytes → List Bytes × Bytes
after r (ls, rest) = (r.sent ++ map (λ l. c_str l) ls, rest)

abbrev shown : Receiver → List Bytes × Bytes
shown r = (r.sent, r.buffer)

abbrev pub is_filled : Bytes → Bool
is_filled [] = false
is_filled (c ∷ cs) = true

end_line-filled :
    (slice : Bytes) (r : Receiver)
    → is_filled slice ≡ true
    → end_line true slice r ≡ ([], forward true (record r { buffer = r.buffer ++ slice }))
unfolding end_line
end_line-filled [] r h = absurd cc
end_line-filled (c ∷ cs) r h = refl

both : (a b : Bool) → (a && b) ≡ true → (a ≡ true) × (b ≡ true)
both true b h = (refl, h)
both false b h = absurd cc

filled_concat : (slice : Bytes) (c : ℕ) → is_filled (slice ++ c ∷ []) ≡ true
filled_concat [] c = refl
filled_concat (d ∷ slice) c = refl

-- The loop at its last byte, and at a byte before others.
module _ (slice : Bytes) (c : ℕ) (r : Receiver) where
  abbrev line : Bytes
  line = r.buffer ++ slice

  split-last_end :
      (c == b'\n') ≡ true
      → is_filled slice ≡ true
      → split_data true (c ∷ []) slice r ≡ forward true (record r { buffer = line })
  unfolding split_data
  split-last_end e h = rw e (ap (λ (p : Bytes × Receiver). p.1) (end_line-filled slice r h))

  split-last_other :
      (c == b'\n') ≡ false
      → split_data true (c ∷ []) slice r ≡ record r { buffer = r.buffer ++ slice ++ c ∷ [] }
  unfolding split_data
  split-last_other e = rw e refl

  split-next_end :
      (d : ℕ) (bs : Bytes)
      → (c == b'\n') ≡ true
      → is_filled slice ≡ true
      → split_data true (c ∷ d ∷ bs) slice r
        ≡ split_data true (d ∷ bs) [] (forward true (record r { buffer = line }))
  unfolding split_data
  split-next_end d bs e h =
      rw e (
        ap (λ (p : Bytes × Receiver). split_data true (d ∷ bs) p.0 p.1) (end_line-filled slice r h))

  split-next_other :
      (d : ℕ) (bs : Bytes)
      → (c == b'\n') ≡ false
      → split_data true (c ∷ d ∷ bs) slice r ≡ split_data true (d ∷ bs) (slice ++ c ∷ []) r
  unfolding split_data
  split-next_other d bs e = rw e refl

-- The same for the lines and for the condition.
lines_of-nil : (cur : Bytes) → lines_of cur [] ≡ ([], cur)
unfolding lines_of
lines_of-nil cur = refl

lines_of-end :
    (cur : Bytes) (c : ℕ) (bs : Bytes)
    → (c == b'\n') ≡ true
    → lines_of cur (c ∷ bs) ≡ (cur ∷ (lines_of [] bs).0, (lines_of [] bs).1)
unfolding lines_of
lines_of-end cur c bs e = rw e refl

lines_of-other :
    (cur : Bytes) (c : ℕ) (bs : Bytes)
    → (c == b'\n') ≡ false
    → lines_of cur (c ∷ bs) ≡ lines_of (cur ++ c ∷ []) bs
unfolding lines_of
lines_of-other cur c bs e = rw e refl

is_preceded-end :
    (before : Bool) (c : ℕ) (bs : Bytes)
    → (c == b'\n') ≡ true
    → is_preceded before (c ∷ bs) ≡ true
    → (before ≡ true) × (is_preceded false bs ≡ true)
unfolding is_preceded
is_preceded-end before c bs e h = both before (is_preceded false bs) (rw e at h)

is_preceded-other :
    (before : Bool) (c : ℕ) (bs : Bytes)
    → (c == b'\n') ≡ false
    → is_preceded before (c ∷ bs) ≡ true
    → is_preceded true bs ≡ true
unfolding is_preceded
is_preceded-other before c bs e h = rw e at h

split_data-lines :
    (bs slice : Bytes) (c : ℕ) (r : Receiver)
    → is_preceded (is_filled slice) (c ∷ bs) ≡ true
    → shown (split_data true (c ∷ bs) slice r) ≡ after r (lines_of (r.buffer ++ slice) (c ∷ bs))
unfolding forward
split_data-lines [] slice c r h = elim (Bool-cases (c == b'\n')) [
  | inl e ↦
      ap shown (split-last_end slice c r e (is_preceded-end (is_filled slice) c [] e h).0)
      ∙ sym (
          ap (λ p. after r p)
            (lines_of-end (r.buffer ++ slice) c [] e
              ∙ ap (λ (p : List Bytes × Bytes). ((r.buffer ++ slice) ∷ p.0, p.1))
                  (lines_of-nil [])))
  | inr e ↦
      ap shown (split-last_other slice c r e)
      ∙ (ap (λ x. (x, (r.buffer ++ slice) ++ c ∷ [])) (sym (append-nil r.sent))
          ∙ sym (
              ap (λ p. after r p)
                (lines_of-other (r.buffer ++ slice) c [] e
                  ∙ lines_of-nil ((r.buffer ++ slice) ++ c ∷ []))))
]
split_data-lines (d ∷ bs) slice c r h = elim (Bool-cases (c == b'\n')) [
  | inl e ↦
      let (filled, rest) = is_preceded-end (is_filled slice) c (d ∷ bs) e h in
      let r' = forward true (record r { buffer = r.buffer ++ slice }) in
      let ls = lines_of [] (d ∷ bs) in
      ap shown (split-next_end slice c r d bs e filled)
      ∙ (split_data-lines bs [] d r' rest
          ∙ (ap (λ x. (x, ls.1))
                (append_assoc r.sent (c_str (r.buffer ++ slice) ∷ []) (map (λ l. c_str l) ls.0))
              ∙ sym (ap (λ p. after r p) (lines_of-end (r.buffer ++ slice) c (d ∷ bs) e))))
  | inr e ↦
      let rest = is_preceded-other (is_filled slice) c (d ∷ bs) e h in
      ap shown (split-next_other slice c r d bs e)
      ∙ (split_data-lines bs (slice ++ c ∷ []) d r
            (subst (λ x. is_preceded x (d ∷ bs) ≡ true) (sym (filled_concat slice c)) rest)
          ∙ (ap (λ cur. after r (lines_of cur (d ∷ bs)))
                (sym (append_assoc r.buffer slice (c ∷ [])))
              ∙ sym (ap (λ p. after r p) (lines_of-other (r.buffer ++ slice) c (d ∷ bs) e))))
]

-- The reads of one client, one after the other.
unfoldable pub receive : List Bytes → Receiver → Receiver
receive [] r = r
receive (bs ∷ chunks) r = receive chunks (split_data true bs [] r)

abbrev pub joined : List Bytes → Bytes
joined [] = []
joined (bs ∷ chunks) = bs ++ joined chunks

-- Each read gives something, and each line feed in it has another byte before it.
unfoldable pub ArePreceded : List Bytes → Type 0
ArePreceded [] = true ≡ true
ArePreceded (bs ∷ chunks) =
    (is_filled bs ≡ true) × (is_preceded false bs ≡ true) × ArePreceded chunks

lines_of-append :
    (cur xs ys : Bytes)
    → lines_of cur (xs ++ ys) ≡ (
      (lines_of cur xs).0 ++ (lines_of (lines_of cur xs).1 ys).0,
      (lines_of (lines_of cur xs).1 ys).1,
    )
unfolding lines_of
lines_of-append cur [] ys = refl
lines_of-append cur (x ∷ xs) ys = elim (Bool-cases (x == b'\n')) [
  | inl e ↦ rw e (ap (λ (p : List Bytes × Bytes). (cur ∷ p.0, p.1)) (lines_of-append [] xs ys))
  | inr e ↦ rw e (lines_of-append (cur ++ x ∷ []) xs ys)
]

one_read :
    (bs : Bytes) (r : Receiver)
    → is_filled bs ≡ true
    → is_preceded false bs ≡ true
    → shown (split_data true bs [] r) ≡ after r (lines_of r.buffer bs)
one_read [] r f h = absurd cc
one_read (c ∷ bs) r f h =
    split_data-lines bs [] c r h ∙ ap (λ cur. after r (lines_of cur (c ∷ bs))) (append-nil r.buffer)

reads :
    (chunks : List Bytes) (r : Receiver)
    → ArePreceded chunks
    → shown (receive chunks r) ≡ after r (lines_of r.buffer (joined chunks))
unfolding receive ArePreceded
reads [] r h =
    ap (λ x. (x, r.buffer)) (sym (append-nil r.sent))
    ∙ sym (ap (λ p. after r p) (lines_of-nil r.buffer))
reads (bs ∷ chunks) r (f, h, hs) =
    let r' = split_data true bs [] r in
    let first = one_read bs r f h in
    let sent : r'.sent ≡ r.sent ++ map (λ l. c_str l) (lines_of r.buffer bs).0 =
      ap (λ (p : List Bytes × Bytes). p.0) first in
    let left : r'.buffer ≡ (lines_of r.buffer bs).1 = ap (λ (p : List Bytes × Bytes). p.1) first in
    let ls = lines_of (lines_of r.buffer bs).1 (joined chunks) in
    reads chunks r' hs
    ∙ (ap (λ cur. after r' (lines_of cur (joined chunks))) left
        ∙ (ap (λ xs. (xs ++ map (λ l. c_str l) ls.0, ls.1)) sent
            ∙ (ap (λ xs. (xs, ls.1))
                  (append_assoc r.sent (map (λ l. c_str l) (lines_of r.buffer bs).0)
                      (map (λ l. c_str l) ls.0)
                    ∙ ap (λ xs. r.sent ++ xs)
                        (sym (map-append (λ l. c_str l) (lines_of r.buffer bs).0 ls.0)))
                ∙ sym (ap (λ p. after r p) (lines_of-append r.buffer bs (joined chunks))))))

-- However the data of a client is divided into reads, which are not empty, if no read starts with a line
-- feed and in none a line feed follows directly on another, then the server gets the lines, one message
-- for each, cut at its first NUL if it has one, and what is behind the last line feed stays in the buffer.
pub receive-lines_of :
    (chunks : List Bytes) (r : Receiver)
    → ArePreceded chunks
    → ((receive chunks r).sent ≡ r.sent ++ map (λ l. c_str l) (lines_of r.buffer (joined chunks)).0)
      × ((receive chunks r).buffer ≡ (lines_of r.buffer (joined chunks)).1)
receive-lines_of chunks r h = (
  ap (λ (p : List Bytes × Bytes). p.0) (reads chunks r h),
  ap (λ (p : List Bytes × Bytes). p.1) (reads chunks r h),
)
