-- ===== src/DispatchStats/Current.antt =====
-- The pointer to the current window of src/InfoLoggerDispatchStats.cxx points to a window of the map.
use info_logger.Base.{
  ℕ, ◌+◌, ◌-◌, ◌≤◌, ◌<◌, ◌≡◌, refl, sym, ap, subst, ◌∙◌, ◌^◌, true, false, ◌||◌, List, [], ◌∷◌,
  Option, none, some, arith, inl, inr, ltb, leb, ◌==◌, if◌then◌else◌, length, Bool-cases, ==_iff,
  le→ltb_false,
}
use info_logger.Message.{Real, Message}
use info_logger.DispatchStats.{
  Combination, count_in, FieldStats, DispatchStats, plus, minus, count_message, count_messages,
  can_encode, update_window, find_window, custom_message_process, emplace, remove_old,
  close_current, new_window, reset_window, custom_loop, create, is_none,
}

-- No window begins behind the time `t`, and none ends before it begins.
unfoldable pub AreTimed : ℕ → List (ℕ × FieldStats) → Type 0
AreTimed t [] = t ≡ t
AreTimed t ((k, w) ∷ ws) = (k ≤ t) × (k ≤ w.time_end) × AreTimed t ws

-- The current window is in the map.
abbrev pub Present : Option ℕ → List (ℕ × FieldStats) → Type 0
Present none ws = 0 ≤ 0
Present (some k) ws = (w : FieldStats) × (find_window k ws ≡ some w) × (k ≤ w.time_end)

pub record IsSafe (s : DispatchStats) : Type 0 where
  pub timed : AreTimed s.last_time_reset s.windows
  pub present : Present s.current_window s.windows

AreTimed-weaken : (t u : ℕ) (ws : List (ℕ × FieldStats)) → t ≤ u → AreTimed t ws → AreTimed u ws
unfolding AreTimed
AreTimed-weaken t u [] h a = refl
AreTimed-weaken t u ((k, w) ∷ ws) h (i, e, a) = (omega arith, e, AreTimed-weaken t u ws h a)

-- A change that leaves the end, or sets it to a time that is not before the windows.
AreTimed-update :
    (t k : ℕ) (f : FieldStats → FieldStats) (ws : List (ℕ × FieldStats))
    → ((w : FieldStats) (j : ℕ) → j ≤ t → j ≤ w.time_end → j ≤ (f w).time_end)
    → AreTimed t ws
    → AreTimed t (update_window k f ws)
unfolding AreTimed update_window
AreTimed-update t k f [] h a = a
AreTimed-update t k f ((j, w) ∷ ws) h (i, e, a) = (
  i,
  (elim (j == k) as (λ b. j ≤ (if b then f w else w).time_end) [ true ↦ h w j i e | false ↦ e ]),
  AreTimed-update t k f ws h a,
)

find-here :
    (k j : ℕ) (w : FieldStats) (ws : List (ℕ × FieldStats))
    → (j == k) ≡ true
    → find_window k ((j, w) ∷ ws) ≡ some w
unfolding find_window
find-here k j w ws e = rw e refl

find-next :
    (k j : ℕ) (w : FieldStats) (ws : List (ℕ × FieldStats))
    → (j == k) ≡ false
    → find_window k ((j, w) ∷ ws) ≡ find_window k ws
unfolding find_window
find-next k j w ws e = rw e refl

no_window : (k : ℕ) (w : FieldStats) → find_window k [] ≡ some w → ⊥
unfolding find_window
no_window k w h = cc

abbrev given : FieldStats → Option FieldStats → FieldStats
given w none = w
given w (some x) = x

find_window-update :
    (k : ℕ) (f : FieldStats → FieldStats) (ws : List (ℕ × FieldStats)) (w : FieldStats)
    → find_window k ws ≡ some w
    → find_window k (update_window k f ws) ≡ some (f w)
unfolding update_window
find_window-update k f [] w h = absurd (no_window k w h)
find_window-update k f ((j, x) ∷ ws) w h = elim (Bool-cases (j == k)) [
  | inl e ↦ rw e (
      find-here k j (f x) (update_window k f ws) e
      ∙ ap (λ y. some (f y)) (ap (λ o. given x o) (sym (find-here k j x ws e) ∙ h)))
  | inr e ↦ rw e (
      find-next k j x (update_window k f ws) e
      ∙ find_window-update k f ws w (sym (find-next k j x ws e) ∙ h))
]

AreTimed-emplace :
    (t k : ℕ) (x : FieldStats) (ws : List (ℕ × FieldStats))
    → k ≤ t
    → k ≤ x.time_end
    → AreTimed t ws
    → AreTimed t (emplace k x ws)
unfolding AreTimed emplace
AreTimed-emplace t k x [] i e a = (i, e, refl)
AreTimed-emplace t k x ((j, w) ∷ ws) i e (ij, ej, a) = elim (Bool-cases (ltb k j)) [
  | inl l ↦ rw l (i, e, (ij, ej, a))
  | inr l ↦ elim (Bool-cases (j == k)) [
    | inl s ↦ rw (l, s) (ij, ej, a)
    | inr s ↦ rw (l, s) (ij, ej, AreTimed-emplace t k x ws i e a)
  ]
]

-- Behind `emplace` there is a window with the key.
find_window-emplace :
    (t k : ℕ) (x : FieldStats) (ws : List (ℕ × FieldStats))
    → k ≤ x.time_end
    → AreTimed t ws
    → (w : FieldStats) × (find_window k (emplace k x ws) ≡ some w) × (k ≤ w.time_end)
unfolding AreTimed emplace
find_window-emplace t k x [] e a = (x, find-here k k x [] ((==_iff k k).1 refl), e)
find_window-emplace t k x ((j, w) ∷ ws) e (ij, ej, a) = elim (Bool-cases (ltb k j)) [
  | inl l ↦ rw l (x, find-here k k x ((j, w) ∷ ws) ((==_iff k k).1 refl), e)
  | inr l ↦ elim (Bool-cases (j == k)) [
    | inl s ↦ rw (l, s) (w, find-here k j w ws s, omega (arith, (==_iff j k).0 s))
    | inr s ↦
        let (y, at, ey) = find_window-emplace t k x ws e a in
        rw (l, s) (y, find-next k j w (emplace k x ws) s ∙ at, ey)
  ]
]

AreTimed-remove_old :
    (t u : ℕ) (ws : List (ℕ × FieldStats)) → AreTimed t ws → AreTimed t (remove_old u ws)
unfolding AreTimed remove_old
AreTimed-remove_old t u [] a = a
AreTimed-remove_old t u ((j, w) ∷ ws) (i, e, a) = elim (Bool-cases (ltb w.time_end u)) [
  | inl l ↦ rw l (AreTimed-remove_old t u ws a)
  | inr l ↦ rw l (i, e, AreTimed-remove_old t u ws a)
]

-- A window that did not end before the time stays.
find_window-remove_old :
    (k u : ℕ) (ws : List (ℕ × FieldStats)) (w : FieldStats)
    → find_window k ws ≡ some w
    → u ≤ w.time_end
    → find_window k (remove_old u ws) ≡ some w
unfolding remove_old
find_window-remove_old k u [] w h e = absurd (no_window k w h)
find_window-remove_old k u ((j, x) ∷ ws) w h e = elim (Bool-cases (j == k)) [
  | inl s ↦
      let same : x ≡ w = ap (λ o. given x o) (sym (find-here k j x ws s) ∙ h) in
      rw (le→ltb_false x.time_end u (subst (λ y. u ≤ y.time_end) (sym same) e))
        (find-here k j x (remove_old u ws) s ∙ ap (λ y. some y) same)
  | inr s ↦
      let rest = find_window-remove_old k u ws w (sym (find-next k j x ws s) ∙ h) e in
      elim (Bool-cases (ltb x.time_end u)) [
        | inl l ↦ rw l rest
        | inr l ↦ rw l (find-next k j x (remove_old u ws) s ∙ rest)
      ]
]

-- `uint64_t` arithmetic in its range.
minus-small : (a b : ℕ) → b ≤ a → a < 2 ^ 64 → minus a b ≡ a - b
unfolding minus
minus-small a b h k = omega arith

plus-small : (a b : ℕ) → a + b < 2 ^ 64 → plus a b ≡ a + b
unfolding plus
plus-small a b h = omega arith

close_current-AreTimed :
    (now t : ℕ) (o : Option ℕ) (ws : List (ℕ × FieldStats))
    → t ≤ now
    → AreTimed t ws
    → AreTimed t (close_current o now ws)
close_current-AreTimed now t none ws h a = a
close_current-AreTimed now t (some k) ws h a =
    AreTimed-update t k (λ w. record w { time_end = now }) ws (λ w j i e. omega arith) a

made-IsSafe :
    (now : ℕ) (s : DispatchStats)
    → IsSafe s
    → s.last_time_reset ≤ now
    → s.max_history ≤ now
    → now + s.reset_interval < 2 ^ 64
    → IsSafe (record s {
      last_time_reset = now;
      windows = remove_old (minus now s.max_history) (
          emplace now
            (new_window now s.reset_interval (length s.ilg_fields_to_index))
            (close_current s.current_window now s.windows));
      current_window = some now;
    })
unfolding new_window
made-IsSafe now s h le m b =
    let x = new_window now s.reset_interval (length s.ilg_fields_to_index) in
    let ws = close_current s.current_window now s.windows in
    let end : now ≤ x.time_end = omega (arith, plus-small now s.reset_interval b) in
    let timed : AreTimed now ws =
      AreTimed-weaken s.last_time_reset now ws le
        (close_current-AreTimed now s.last_time_reset s.current_window s.windows le h.timed) in
    let (w, at, late) = find_window-emplace now now x ws end timed in
    record {
      timed =
          AreTimed-remove_old now (minus now s.max_history) (emplace now x ws)
            (AreTimed-emplace now now x ws (omega arith) end timed);
      present = (
        w,
        find_window-remove_old now (minus now s.max_history) (emplace now x ws) w at
            (omega (arith, minus-small now s.max_history m (omega arith))),
        late,
      );
    }

reset_window-IsSafe :
    (now : ℕ) (s : DispatchStats)
    → IsSafe s
    → s.last_time_reset ≤ now
    → s.max_history ≤ now
    → now + s.reset_interval < 2 ^ 64
    → IsSafe (reset_window now s)
unfolding reset_window
reset_window-IsSafe now s h le m b =
    elim (Bool-cases
      (leb s.reset_interval (minus now s.last_time_reset) || is_none s.current_window)) [
        | inr e ↦ rw e h
        | inl e ↦ rw e (made-IsSafe now s h le m b)
      ]

-- What the sequence of calls leaves as it was or raises.
record Moves (now : ℕ) (s t : DispatchStats) : Type 0 where
  history : t.max_history ≡ s.max_history
  interval : t.reset_interval ≡ s.reset_interval
  reset : t.last_time_reset ≤ now

reset_window-Moves :
    (now : ℕ) (s : DispatchStats) → s.last_time_reset ≤ now → Moves now s (reset_window now s)
unfolding reset_window
reset_window-Moves now s le =
    elim (Bool-cases
      (leb s.reset_interval (minus now s.last_time_reset) || is_none s.current_window)) [
        | inr e ↦ rw e (record { history = refl; interval = refl; reset = le })
        | inl e ↦ rw e (record { history = refl; interval = refl; reset = omega arith })
      ]

custom_loop-IsSafe :
    (now : ℕ) (s : DispatchStats)
    → IsSafe s
    → s.last_time_reset ≤ now
    → s.max_history ≤ now
    → now + s.reset_interval < 2 ^ 64
    → IsSafe (custom_loop now s).1 × Moves now s (custom_loop now s).1
unfolding custom_loop
custom_loop-IsSafe now s h le m b =
    elim (Bool-cases (ltb s.publish_interval (minus now s.last_time_published))) [
      | inl e ↦
          let s' = record s { last_time_published = now } in
          let moves = reset_window-Moves now s' le in
          rw e (
            reset_window-IsSafe now s' (record { timed = h.timed; present = h.present }) le m b,
            record { history = moves.history; interval = moves.interval; reset = moves.reset },
          )
      | inr e ↦ rw e (reset_window-IsSafe now s h le m b, reset_window-Moves now s le)
    ]

module _ (r : Real) where
  count_messages-time_end :
      (w : FieldStats) (cs : List Combination) (ms : List (Message r))
      → (count_messages r cs w ms).time_end ≡ w.time_end
  unfolding count_messages count_message
  count_messages-time_end w cs [] = refl
  count_messages-time_end w cs (m ∷ ms) =
      count_messages-time_end (count_message r cs w m) cs ms
      ∙ (elim (Bool-cases (can_encode r m)) [ inl e ↦ rw e refl | inr e ↦ rw e refl ])

  count_in-AreTimed :
      (t : ℕ) (o : Option ℕ) (cs : List Combination) (ms : List (Message r))
      (ws : List (ℕ × FieldStats))
      → AreTimed t ws
      → AreTimed t (count_in r o cs ms ws)
  unfolding count_in
  count_in-AreTimed t none cs ms ws a = a
  count_in-AreTimed t (some k) cs ms ws a =
      AreTimed-update t k (λ w. count_messages r cs w ms) ws
        (λ w j i e. omega (arith, count_messages-time_end w cs ms)) a

  count_in-Present :
      (o : Option ℕ) (cs : List Combination) (ms : List (Message r)) (ws : List (ℕ × FieldStats))
      → Present o ws
      → Present o (count_in r o cs ms ws)
  unfolding count_in
  count_in-Present none cs ms ws p = p
  count_in-Present (some k) cs ms ws (w, at, e) = (
    count_messages r cs w ms,
    find_window-update k (λ w. count_messages r cs w ms) ws w at,
    omega (arith, count_messages-time_end w cs ms),
  )

  messages-IsSafe :
      (s : DispatchStats) (ms : List (Message r))
      → IsSafe s
      → IsSafe (custom_message_process r s ms)
  unfolding custom_message_process
  messages-IsSafe s ms h = record {
    timed =
        count_in-AreTimed s.last_time_reset s.current_window s.ilg_fields_to_index ms s.windows
          h.timed;
    present = count_in-Present s.current_window s.ilg_fields_to_index ms s.windows h.present;
  }

  -- What the dispatcher's thread does: it processes messages, and it turns its loop at a time.
  pub data Event : Type 0 where
    messages : List (Message r) → Event
    turn : ℕ → Event

  unfoldable pub run : DispatchStats → List Event → DispatchStats
  run s [] = s
  run s (messages ms ∷ es) = run (custom_message_process r s ms) es
  run s (turn now ∷ es) = run (custom_loop now s).1 es

  -- The clock does not go back from `t` on, it is behind the history, and the windows end in its range.
  unfoldable pub AreInOrder : ℕ → ℕ → ℕ → List Event → Type 0
  AreInOrder history interval t [] = t ≡ t
  AreInOrder history interval t (messages ms ∷ es) = AreInOrder history interval t es
  AreInOrder history interval t (turn now ∷ es) =
      (t ≤ now) × (history ≤ now) × (now + interval < 2 ^ 64) × AreInOrder history interval now es

  run-IsSafe-from :
      (es : List Event) (s : DispatchStats) (history interval t : ℕ)
      → IsSafe s
      → s.max_history ≡ history
      → s.reset_interval ≡ interval
      → s.last_time_reset ≤ t
      → AreInOrder history interval t es
      → IsSafe (run s es)
  unfolding run AreInOrder custom_message_process
  run-IsSafe-from [] s history interval t h m i le o = h
  run-IsSafe-from (messages ms ∷ es) s history interval t h m i le o =
      run-IsSafe-from es (custom_message_process r s ms) history interval t (messages-IsSafe s ms h)
        m i le o
  run-IsSafe-from (turn now ∷ es) s history interval t h m i le (a, b, c, o) =
      let (safe, moves) = custom_loop-IsSafe now s h (omega arith) (omega arith) (omega arith) in
      run-IsSafe-from es (custom_loop now s).1 history interval now safe (moves.history ∙ m)
        (moves.interval ∙ i) moves.reset o

  -- From the constructor on, whatever messages come and however often the loop turns, the pointer to the
  -- current window points to a window that is in the map, as long as the clock does not go back.
  pub run-IsSafe :
      (publish reset history : ℕ) (es : List Event)
      → AreInOrder history reset 0 es
      → IsSafe (run (create publish reset history) es)
  unfolding create AreTimed
  run-IsSafe publish reset history es o =
      run-IsSafe-from es (create publish reset history) history reset 0
        (record { timed = refl; present = omega arith }) refl refl (omega arith) o
