-- ===== src/Logger/AutoMute/Interval.antt =====
-- How many messages the automatic muting of src/InfoLogger.cxx lets through in one interval.
use info_logger.Base.{
  ℕ, suc, ◌+◌, ◌-◌, ◌*◌, ◌≤◌, ◌<◌, ◌≡◌, refl, sym, ap, subst, ◌∙◌, Bool, true, false, ◌&&◌, List,
  [], ◌∷◌, ◌++◌, ◌==◌, ltb, if◌then◌else◌, length, arith, min, Bool-cases, inl, inr,
}
use info_logger.Logger.Flood.{next_uint}
use info_logger.Logger.AutoMute.{
  Action, report, quiet, message, exceeded, Token, has_passed, count_call, end_of_interval,
  log_counted, log, log_all,
}

-- How many times the message itself is logged.
unfoldable pub messages : List Action → ℕ
messages [] = 0
messages (message ∷ acts) = messages acts + 1
messages (_ ∷ acts) = messages acts

-- All the times are in the `interval` seconds from `first` on.
abbrev pub Within : ℕ → ℕ → List ℕ → Type 0
Within first interval [] = Unit
Within first interval (now ∷ times) =
    (first ≤ now) × (now < first + interval * 1000000000) × Within first interval times

messages-append : (acts bs : List Action) → messages (acts ++ bs) ≡ messages acts + messages bs
unfolding messages
messages-append [] bs = omega arith
messages-append (message ∷ acts) bs = omega (arith, messages-append acts bs)
messages-append (report a b c ∷ acts) bs = messages-append acts bs
messages-append (quiet ∷ acts) bs = messages-append acts bs
messages-append (exceeded a b ∷ acts) bs = messages-append acts bs

not_passed :
    (interval now t first : ℕ)
    → now < first + interval * 1000000000
    → first ≤ now
    → first ≤ t
    → has_passed interval now t ≡ false
not_passed interval now t first h later le = ground arith

counted : (n : ℕ) → n < 4294967295 → next_uint n ≡ n + 1
counted n h = ground arith

-- A call in the interval, behind its counting.
log_counted-lem :
    (now first : ℕ) (t : Token)
    → end_of_interval now t ≡ false
    → first ≤ t.t0
    → first ≤ now
    → (messages (log_counted now t).1 ≡ (if ltb t.max_msg t.count then 0 else 1))
      × ((log_counted now t).2.count ≡ t.count)
      × ((log_counted now t).2.interval ≡ t.interval)
      × ((log_counted now t).2.max_msg ≡ t.max_msg)
      × (first ≤ (log_counted now t).2.t0)
unfolding log_counted messages
log_counted-lem now first t open_yet begun later = elim (Bool-cases (ltb t.max_msg t.count)) [
  | inl e ↦ rw (open_yet, e) (refl, refl, refl, refl, begun)
  | inr e ↦ elim (Bool-cases (t.count == t.max_msg)) [
    | inl f ↦ rw (open_yet, e, f) (refl, refl, refl, refl, later)
    | inr f ↦ rw (open_yet, e, f) (refl, refl, refl, refl, begun)
  ]
]

count_call-lem :
    (now first : ℕ) (t : Token)
    → t.count < 4294967295
    → (0 < t.count → first ≤ t.t0)
    → first ≤ now
    → ((count_call now t).count ≡ t.count + 1)
      × ((count_call now t).interval ≡ t.interval)
      × ((count_call now t).max_msg ≡ t.max_msg)
      × (first ≤ (count_call now t).t0)
unfolding count_call
count_call-lem now first t small begun later = rw (counted t.count small) (ground arith)

open_interval :
    (now first : ℕ) (t : Token)
    → now < first + t.interval * 1000000000
    → first ≤ now
    → first ≤ t.t0
    → end_of_interval now t ≡ false
open_interval now first t h later begun =
    rw (not_passed t.interval now t.t0 first h later begun) (both (ltb 1 t.count))
  where
    both : (b : Bool) → (b && false) ≡ false
    both true = refl
    both false = refl

one_more :
    (n m k : ℕ) → (if ltb m (k + 1) then 0 else 1) + min n (m - (k + 1)) ≡ min (suc n) (m - k)
one_more n m k = ground arith

log_all-lem :
    (times : List ℕ) (first : ℕ) (t : Token)
    → t.count + length times ≤ 4294967295
    → (0 < t.count → first ≤ t.t0)
    → Within first t.interval times
    → messages (log_all times t).0 ≡ min (length times) (t.max_msg - t.count)
unfolding log_all log
log_all-lem [] first t small begun within = unfold messages in omega arith
log_all-lem (now ∷ times) first t small begun within =
    let called = count_call-lem now first t (omega (arith, small)) begun within.0 in
    let t' : Token = count_call now t in
    let still =
      open_interval now first t' (subst (λ k. now < first + k * 1000000000) (sym called.1) within.1)
        within.0 called.3 in
    let logged = log_counted-lem now first t' still called.3 within.0 in
    let after : Token = (log_counted now t').2 in
    let same_interval : after.interval ≡ t.interval = logged.2 ∙ called.1 in
    let same_max : after.max_msg ≡ t.max_msg = logged.3 ∙ called.2 in
    let one : after.count ≡ t.count + 1 = logged.1 ∙ called.0 in
    let rest =
      log_all-lem times first after (omega (arith, one, small)) (λ _. logged.4)
        (subst (λ k. Within first k times) (sym same_interval) within.2) in
    let now_logged : messages (log_counted now t').1
        ≡ (if ltb t.max_msg (t.count + 1) then 0 else 1) =
      logged.0
      ∙ ap (λ m. if ltb m t'.count then 0 else 1) called.2
      ∙ ap (λ n. if ltb t.max_msg n then 0 else 1) called.0 in
    let then_logged : messages (log_all times after).0
        ≡ min (length times) (t.max_msg - (t.count + 1)) =
      rest
      ∙ ap (λ m. min (length times) (m - after.count)) same_max
      ∙ ap (λ n. min (length times) (t.max_msg - n)) one in
    messages-append (log_counted now t').1 (log_all times after).0
    ∙ ap (λ n. n + messages (log_all times after).0) now_logged
    ∙ ap (λ n. (if ltb t.max_msg (t.count + 1) then 0 else 1) + n) then_logged
    ∙ one_more (length times) t.max_msg t.count

-- A fresh token lets through just the first `max_msg` of the messages that come within `interval`
-- seconds of the first one, when there are fewer than 2 ^ 32 of them.
pub log_all-fresh :
    (times : List ℕ) (first : ℕ) (t : Token)
    → t.count ≡ 0
    → length times < 4294967296
    → Within first t.interval times
    → messages (log_all times t).0 ≡ min (length times) t.max_msg
log_all-fresh times first t fresh few within =
    log_all-lem times first t (omega (arith, fresh, few)) (λ h. absurd (omega (arith, fresh, h)))
      within
    ∙ omega (arith, fresh)
