-- ===== src/LineBuffer/Taken.antt =====
-- What `lineBuffer_add` and `lineBuffer_addstring` of src/utility.c put behind the content.
use info_logger.Base.{
  ℕ, ◌+◌, ◌-◌, ◌≡◌, refl, sym, ap, ◌∙◌, true, false, List, [], ◌∷◌, ◌++◌, some, ltb, if◌then◌else◌,
  ℤ, pos, length, take, arith, Option-cases, Bool-cases, inl, inr, append_assoc, append-nil,
  length-append, min, take-append_self, take-append-drop,
}
use info_logger.CText.{Bytes, c_str}
use info_logger.LineBuffer.{
  LineBuffer, Poll, select_error, not_ready, read_end, read_error, readable, make_room, take_in,
  add, read, asked, addstring, place, allocate, is_failure, buffer_max_size, buffer_chunk_size,
}

-- The buffer, and what is still in the socket.
abbrev pub Place : Type 0
Place = Bytes × LineBuffer

some_of : {b b' : LineBuffer} → some b ≡ some b' → b ≡ b'
some_of h = cc

make_room-content : (b b' : LineBuffer) → make_room b ≡ some b' → b'.content ≡ b.content
unfolding make_room
make_room-content b b' h =
    elim (Bool-cases (ltb (b.buf_size - length b.content) buffer_chunk_size)) [
      | inl e ↦ elim (Bool-cases (ltb buffer_max_size (buffer_chunk_size + b.buf_size))) [
        | inl f ↦ cc (rw (e, f) at h)
        | inr f ↦ ap (λ c. c.content) (sym (some_of (rw (e, f) at h)))
      ]
      | inr e ↦ ap (λ c. c.content) (sym (some_of (rw e at h)))
    ]

-- Bytes went from the socket into the content.
abbrev Moves : Place → Place → Type 0
Moves (socket, b) (socket', b') =
    (x : Bytes) × (b'.content ≡ b.content ++ x) × (socket ≡ x ++ socket')

still :
    (socket : Bytes) (b b' : LineBuffer) → b'.content ≡ b.content → Moves (socket, b) (socket, b')
still socket b b' h = ([], h ∙ sym (append-nil b.content), refl)

moves_more :
    (socket rest socket' : Bytes) (b b' c d : LineBuffer) (y : Bytes)
    → b'.content ≡ b.content
    → c.content ≡ b'.content ++ y
    → socket ≡ y ++ rest
    → Moves (rest, c) (socket', d)
    → Moves (socket, b) (socket', d)
moves_more socket rest socket' b b' c d y e f g (x, h, k) = (
  y ++ x,
  h ∙ ap (λ s. s ++ x) (f ∙ ap (λ s. s ++ y) e) ∙ append_assoc b.content y x,
  g ∙ (ap (λ s. y ++ s) k ∙ sym (append_assoc y x socket')),
)

pub add-Moves :
    (ps : List Poll) (socket : Bytes) (b : LineBuffer)
    → Moves (socket, b) ((add ps socket b).1, (add ps socket b).2)
unfolding add
add-Moves [] socket b = still socket b b refl
add-Moves (select_error ∷ ps) socket b = still socket b b refl
add-Moves (not_ready ∷ ps) socket b = still socket b b refl
add-Moves (read_end ∷ ps) socket b = elim (Option-cases (make_room b)) [
  | inl e ↦ rw (add, e) (still socket b b refl)
  | inr (b', e) ↦ rw (add, e) (still socket b b' (make_room-content b b' e))
]
add-Moves (read_error ∷ ps) socket b = elim (Option-cases (make_room b)) [
  | inl e ↦ rw (add, e) (still socket b b refl)
  | inr (b', e) ↦ rw (add, e) (still socket b b' (make_room-content b b' e))
]
add-Moves (readable n ∷ ps) [] b = still [] b b refl
add-Moves (readable n ∷ ps) (c ∷ cs) b = elim (Option-cases (make_room b)) [
  | inl e ↦ rw (add, e) (still (c ∷ cs) b b refl)
  | inr (b', e) ↦
      let r = read (asked b') n (c ∷ cs) in
      let d = take_in b' r.0 in
      rw (add, e)
        (moves_more (c ∷ cs) r.1 (add ps r.1 d).1 b b' d (add ps r.1 d).2 r.0
          (make_room-content b b' e) (unfold take_in in refl)
          (sym (take-append-drop (min (asked b') (n + 1)) (c ∷ cs))) (add-Moves ps r.1 d))
]

-- What is taken off the front of the socket.
pub front : (x rest : Bytes) → take (length (x ++ rest) - length rest) (x ++ rest) ≡ x
front x rest =
    let e : length (x ++ rest) - length rest ≡ length x = omega (arith, length-append x rest) in
    ap (λ n. take n (x ++ rest)) e ∙ take-append_self x rest

pub front_of :
    (x socket rest : Bytes) → socket ≡ x ++ rest → take (length socket - length rest) socket ≡ x
front_of x socket rest h = ap (λ s. take (length s - length rest) s) h ∙ front x rest

allocate-content : (b : LineBuffer) (n : ℕ) → (allocate b n).1.content ≡ b.content
unfolding allocate
allocate-content b n = elim (Bool-cases (ltb buffer_max_size (n + b.buf_size))) [
  | inl e ↦ rw e refl
  | inr e ↦ rw e refl
]

place-taken :
    (b : LineBuffer) (t : Bytes) (p : ℤ × LineBuffer)
    → p.1.content ≡ b.content
    → (place t p).1.content ≡ b.content ++ (if is_failure (place t p).0 then [] else t)
unfolding place
place-taken b t (code, b') h = elim (Bool-cases (is_failure code)) [
  | inl e ↦ rw (place, e) (h ∙ sym (append-nil b.content))
  | inr e ↦ rw (place, e) (ap (λ s. s ++ t) h)
]

pub addstring-taken :
    (b : LineBuffer) (s : Bytes)
    → (addstring b s).1.content
      ≡ b.content ++ (if is_failure (addstring b s).0 then [] else c_str s)
unfolding addstring
addstring-taken b s =
    place-taken b (c_str s)
      (if ltb (b.buf_size - length b.content) (length (c_str s) + 1)
        then allocate b (length (c_str s) + 1 - (b.buf_size - length b.content))
        else (pos 0, b))
      (elim (ltb (b.buf_size - length b.content) (length (c_str s) + 1))
        as (λ f.
          (let p : ℤ × LineBuffer =
              if f
              then allocate b (length (c_str s) + 1 - (b.buf_size - length b.content))
              else (pos 0, b) in
            p).1.content
          ≡ b.content) [
            | true ↦ allocate-content b (length (c_str s) + 1 - (b.buf_size - length b.content))
            | false ↦ refl
          ])
