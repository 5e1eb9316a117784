-- ===== src/OnlineBrowser/Delivery.antt =====
-- What the clients of src/InfoLoggerDispatchBrowser.cxx get.
use info_logger.Base.{
  ℕ, zero, suc, ◌+◌, ◌<◌, ◌≡◌, refl, ap, subst, ◌∙◌, false, List, [], ◌∷◌, ◌++◌, map, Option, none,
  some, arith, inl, inr, ◌==◌, ==_iff, if◌then◌else◌, get_elem?, length, pos, Bool-cases,
  append-nil,
}
use info_logger.CText.{Bytes}
use info_logger.Message.{Real, Message}
use info_logger.OnlineBrowser.{
  Answer, wrote, send, tag, send_to_all, text_of, send_texts, custom_message_process,
}

-- The texts that go to the client `i`.
abbrev pub only : ℕ → List (ℕ × Bytes) → List Bytes
only i [] = []
only i ((j, t) ∷ ts) = if j == i then t ∷ only i ts else only i ts

-- A client that is served alone, with its answers.
unfoldable pub serve : (ℕ → Answer) → ℕ → List (Option Bytes) → Option ℕ → List Bytes × Option ℕ
serve answers j [] c = ([], c)
serve answers j (none ∷ ts) c = serve answers (suc j) ts c
serve answers j (some t ∷ ts) c =
    let (out, c') = send t (answers j) c in
    let (outs, c'') = serve answers (suc j) ts c' in (out ++ outs, c'')

only-append : (i : ℕ) (xs ys : List (ℕ × Bytes)) → only i (xs ++ ys) ≡ only i xs ++ only i ys
only-append i [] ys = refl
only-append i ((j, t) ∷ xs) ys = elim (Bool-cases (j == i)) [
  | inl e ↦ rw e (ap (◌∷◌ t) (only-append i xs ys))
  | inr e ↦ rw e (only-append i xs ys)
]

only-tag_self : (i : ℕ) (ts : List Bytes) → only i (tag i ts) ≡ ts
only-tag_self i [] = refl
only-tag_self i (t ∷ ts) = rw ((==_iff i i).1 refl) (ap (◌∷◌ t) (only-tag_self i ts))

only-tag_ne : (i j : ℕ) (ts : List Bytes) → (j == i) ≡ false → only i (tag j ts) ≡ []
only-tag_ne i j [] h = refl
only-tag_ne i j (t ∷ ts) h = rw h (only-tag_ne i j ts h)

differ : (i j : ℕ) → i < j → (j == i) ≡ false
differ i j h = ground arith

differ_below : (i j : ℕ) → j < i → (j == i) ≡ false
differ_below i j h = ground arith

-- Nothing goes to the clients before the first one of the loop.
only-before :
    (t : Bytes) (a : ℕ → Answer) (k i : ℕ) (cs : List (Option ℕ))
    → i < k
    → only i (send_to_all t a k cs).0 ≡ []
unfolding send_to_all
only-before t a k i [] h = refl
only-before t a k i (c ∷ cs) h =
    only-append i (tag k (send t (a k) c).0) (send_to_all t a (suc k) cs).0
    ∙ rw (only-tag_ne i k (send t (a k) c).0 (differ i k h))
        (only-before t a (suc k) i cs (omega arith))

abbrev given : Option ℕ → Option (Option ℕ) → Option ℕ
given d none = d
given d (some c) = c

-- One text: each client is served by itself.
send_to_all-at :
    (t : Bytes) (a : ℕ → Answer) (k p i : ℕ) (cs : List (Option ℕ)) (c : Option ℕ)
    → get_elem? cs p ≡ some c
    → i ≡ k + p
    → (only i (send_to_all t a k cs).0 ≡ (send t (a i) c).0)
      × (get_elem? (send_to_all t a k cs).1 p ≡ some (send t (a i) c).1)
unfolding send_to_all
send_to_all-at t a k p i [] c h e = absurd cc
send_to_all-at t a k zero i (d ∷ cs) c h e =
    let same : d ≡ c = ap (λ o. given d o) h in
    let here : k ≡ i = omega arith in
    subst
      (λ x.
        (only i (send_to_all t a k (d ∷ cs)).0 ≡ (send t (a i) x).0)
        × (some (send t (a k) d).1 ≡ some (send t (a i) x).1))
      same
      (subst
        (λ j.
          (only j (send_to_all t a k (d ∷ cs)).0 ≡ (send t (a j) d).0)
          × (some (send t (a k) d).1 ≡ some (send t (a j) d).1))
        here (at_head, refl))
  where
    at_head :
        only k (tag k (send t (a k) d).0 ++ (send_to_all t a (suc k) cs).0) ≡ (send t (a k) d).0
    at_head =
        only-append k (tag k (send t (a k) d).0) (send_to_all t a (suc k) cs).0
        ∙ rw (only-tag_self k (send t (a k) d).0, only-before t a (suc k) k cs (omega arith))
            (append-nil (send t (a k) d).0)
send_to_all-at t a k (suc p) i (d ∷ cs) c h e =
    let (texts, place) = send_to_all-at t a (suc k) p i cs c h (omega arith) in
    (
      only-append i (tag k (send t (a k) d).0) (send_to_all t a (suc k) cs).0
          ∙ rw (only-tag_ne i k (send t (a k) d).0 (differ_below i k (omega arith))) texts,
      place,
    )

-- Each client gets what it would get alone, whatever the others do.
send_texts-serve :
    (ts : List (Option Bytes)) (answers : ℕ → ℕ → Answer) (j i : ℕ) (cs : List (Option ℕ))
    (c : Option ℕ)
    → get_elem? cs i ≡ some c
    → (only i (send_texts answers j ts cs).0 ≡ (serve (λ k. answers k i) j ts c).0)
      × (get_elem? (send_texts answers j ts cs).1 i ≡ some (serve (λ k. answers k i) j ts c).1)
unfolding send_texts serve
send_texts-serve [] answers j i cs c h = (refl, h)
send_texts-serve (none ∷ ts) answers j i cs c h = send_texts-serve ts answers (suc j) i cs c h
send_texts-serve (some t ∷ ts) answers j i cs c h =
    let (texts, place) = send_to_all-at t (answers j) 0 i i cs c h (omega arith) in
    let all = send_to_all t (answers j) 0 cs in
    let (rest, left) =
      send_texts-serve ts answers (suc j) i all.1 (send t (answers j i) c).1 place in
    (only-append i all.0 (send_texts answers (suc j) ts all.1).0 ∙ rw (texts, rest) refl, left)

-- The texts there are.
abbrev pub given_texts : List (Option Bytes) → List Bytes
given_texts [] = []
given_texts (none ∷ ts) = given_texts ts
given_texts (some t ∷ ts) = t ∷ given_texts ts

-- A client that takes each text whole.
unfoldable pub TakesAll : (ℕ → Answer) → ℕ → List (Option Bytes) → Type 0
TakesAll answers j [] = j ≡ j
TakesAll answers j (none ∷ ts) = TakesAll answers (suc j) ts
TakesAll answers j (some t ∷ ts) =
    (answers j ≡ wrote (pos (length t))) × TakesAll answers (suc j) ts

serve-TakesAll :
    (ts : List (Option Bytes)) (answers : ℕ → Answer) (j sock : ℕ)
    → TakesAll answers j ts
    → serve answers j ts (some sock) ≡ (given_texts ts, some sock)
unfolding serve TakesAll send
serve-TakesAll [] answers j sock h = refl
serve-TakesAll (none ∷ ts) answers j sock h = serve-TakesAll ts answers (suc j) sock h
serve-TakesAll (some t ∷ ts) answers j sock (a, h) =
    rw (a, (==_iff (length t) (length t)).1 refl)
      (ap (λ (p : List Bytes × Option ℕ). (t ∷ p.0, p.1))
        (serve-TakesAll ts answers (suc j) sock h))

-- The connection of a client that was closed is not written to.
serve-closed :
    (ts : List (Option Bytes)) (answers : ℕ → Answer) (j : ℕ) → serve answers j ts none ≡ ([], none)
unfolding serve send
serve-closed [] answers j = refl
serve-closed (none ∷ ts) answers j = serve-closed ts answers (suc j)
serve-closed (some t ∷ ts) answers j = serve-closed ts answers (suc j)

module _ (r : Real) (ms : List (Message r)) (answers : ℕ → ℕ → Answer) (i : ℕ)
    (cs : List (Option ℕ)) where
  alone :
      (c : Option ℕ) {out : List Bytes} {left : Option ℕ}
      → get_elem? cs i ≡ some c
      → serve (λ k. answers k i) 0 (map (text_of r) ms) c ≡ (out, left)
      → (only i (custom_message_process r answers ms cs).0 ≡ out)
        × (get_elem? (custom_message_process r answers ms cs).1 i ≡ some left)
  unfolding custom_message_process
  alone c h e =
      let (texts, place) = send_texts-serve (map (text_of r) ms) answers 0 i cs c h in
      (
        texts ∙ ap (λ (p : List Bytes × Option ℕ). p.0) e,
        place ∙ ap (λ (p : List Bytes × Option ℕ). some p.1) e,
      )

  -- Whatever happens at the other clients: a client that is connected and takes what is written to it gets
  -- the texts of all messages that can be encoded, in their order, and stays connected.
  pub custom_message_process-TakesAll :
      (sock : ℕ)
      → get_elem? cs i ≡ some (some sock)
      → TakesAll (λ k. answers k i) 0 (map (text_of r) ms)
      → (only i (custom_message_process r answers ms cs).0 ≡ given_texts (map (text_of r) ms))
        × (get_elem? (custom_message_process r answers ms cs).1 i ≡ some (some sock))
  custom_message_process-TakesAll sock h t =
      alone (some sock) h (serve-TakesAll (map (text_of r) ms) (λ k. answers k i) 0 sock t)

  -- Nothing is written for a place without a connection, and it stays free.
  pub custom_message_process-closed :
      get_elem? cs i ≡ some none
      → (only i (custom_message_process r answers ms cs).0 ≡ [])
        × (get_elem? (custom_message_process r answers ms cs).1 i ≡ some none)
  custom_message_process-closed h =
      alone none h (serve-closed (map (text_of r) ms) (λ k. answers k i) 0)
