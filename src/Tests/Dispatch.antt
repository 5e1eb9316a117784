-- ===== src/Tests/Dispatch.antt =====
-- The dispatchers at concrete inputs.
use info_logger.Base.{
  ℕ, zero, suc, Option, some, none, ◌+◌, ◌≡◌, refl, List, [], ◌∷◌, map, arith, get_or, get_elem?,
  length, pos, if◌then◌else◌, ◌==◌,
}
use info_logger.CText.{Bytes, codes}
use info_logger.Message.{Message}
use info_logger.Message.Sample.{whole_real, message_of}
use info_logger.OnlineBrowser.{Answer, wrote, timeout, text_of, custom_message_process}
use info_logger.OnlineBrowser.Delivery.{
  only, given_texts, TakesAll, custom_message_process-TakesAll, custom_message_process-closed,
}
use info_logger.DispatchStats.{FieldStats, Combination, count_messages, create}
use info_logger.DispatchStats.Counts.{number_of, counted, occurrences, count_messages-occurrences}
use info_logger.DispatchStats.Current.{Event, messages, turn, run, AreInOrder, IsSafe, run-IsSafe}

abbrev two_messages : List (Message whole_real)
two_messages = message_of (codes "a") ∷ message_of (codes "b") ∷ []

abbrev by_message : Combination
by_message = record { name = codes "message"; indices = 15 ∷ [] }

abbrev a_window : FieldStats
a_window = record { time_begin = 10; time_end = 40; field_counts = [] ∷ []; total_messages = 3 }

count_messages-occurrences_example :
    ((count_messages whole_real (by_message ∷ []) a_window two_messages).total_messages
      ≡ 3 + counted whole_real two_messages)
    × (number_of (codes "a") (
          get_or
            (count_messages whole_real (by_message ∷ []) a_window two_messages).field_counts
            0
            [])
        ≡ 0 + occurrences whole_real by_message (codes "a") two_messages)
count_messages-occurrences_example =
    count_messages-occurrences whole_real (by_message ∷ []) a_window two_messages 0 by_message
      (codes "a") refl (omega arith) (omega arith) (omega arith)

abbrev events : List (Event whole_real)
events =
    turn 1000
    ∷ messages two_messages
    ∷ turn 1005
    ∷ turn 1031
    ∷ messages two_messages
    ∷ turn 1700
    ∷ []

events-AreInOrder : AreInOrder whole_real 600 30 0 events
unfolding AreInOrder
events-AreInOrder = (
  omega arith,
  omega arith,
  omega arith,
  (
    omega arith,
    omega arith,
    omega arith,
    (omega arith, omega arith, omega arith, (omega arith, omega arith, omega arith, refl)),
  ),
)

run-IsSafe_example : IsSafe (run whole_real (create 5 30 600) events)
run-IsSafe_example = run-IsSafe whole_real 5 30 600 events events-AreInOrder

-- The second client takes all texts, the first is not connected and the third breaks off.
abbrev three_clients : List (Option ℕ)
three_clients = none ∷ some 7 ∷ some 8 ∷ []

abbrev text_or_nothing : Option Bytes → Bytes
text_or_nothing none = []
text_or_nothing (some t) = t

abbrev text_at : Option Bytes → Option Bytes → ℕ → Bytes
text_at o p zero = text_or_nothing o
text_at o p (suc k) = text_or_nothing p

abbrev answers : ℕ → ℕ → Answer
answers k i =
    if i == 1
    then wrote (
        pos (
          length (
            text_at (text_of whole_real (message_of (codes "a")))
              (text_of whole_real (message_of (codes "b"))) k)))
    else timeout

both-TakesAll :
    (o p : Option Bytes) → TakesAll (λ k. wrote (pos (length (text_at o p k)))) 0 (o ∷ p ∷ [])
unfolding TakesAll
both-TakesAll none none = refl
both-TakesAll none (some t) = (refl, refl)
both-TakesAll (some t) none = (refl, refl)
both-TakesAll (some t) (some u) = (refl, (refl, refl))

two_messages-TakesAll : TakesAll (λ k. answers k 1) 0 (map (text_of whole_real) two_messages)
two_messages-TakesAll =
    both-TakesAll (text_of whole_real (message_of (codes "a")))
      (text_of whole_real (message_of (codes "b")))

custom_message_process-TakesAll_example :
    (only 1 (custom_message_process whole_real answers two_messages three_clients).0
      ≡ given_texts (map (text_of whole_real) two_messages))
    × (get_elem? (custom_message_process whole_real answers two_messages three_clients).1 1
        ≡ some (some 7))
custom_message_process-TakesAll_example =
    custom_message_process-TakesAll whole_real two_messages answers 1 three_clients 7 refl
      two_messages-TakesAll

custom_message_process-closed_example :
    (only 0 (custom_message_process whole_real answers two_messages three_clients).0 ≡ [])
    × (get_elem? (custom_message_process whole_real answers two_messages three_clients).1 0
        ≡ some none)
custom_message_process-closed_example =
    custom_message_process-closed whole_real two_messages answers 0 three_clients refl
