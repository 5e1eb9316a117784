-- ===== src/OnlineBrowser.antt =====
-- InfoLoggerDispatchOnlineBrowser of src/InfoLoggerDispatchBrowser.cxx: the connected clients and what
-- is written to them. A client is its socket, `none` standing for -1. What the system calls answer
-- are arguments; a socket that accept gives can be made non blocking, or it is closed.
pub mod Delivery
use info_logger.Base.{
  ℕ, zero, suc, ◌+◌, Bool, true, false, List, [], ◌∷◌, ◌++◌, map, Option, none, some, ◌==◌,
  if◌then◌else◌, replicate, length, ℤ, pos, negsuc, minus_one,
}
use info_logger.CText.{Bytes, c_str}
use info_logger.Message.{Real, Message}
use info_logger.Message.Encode.{encode}

-- The constructor's table of clients, for `maxClientsTx`.
unfoldable pub no_clients : ℕ → List (Option ℕ)
no_clients n = replicate n none

-- What happens at a client that is to be written to: it is not writable within three seconds, or write
-- answers with a number of bytes or an error.
pub data Answer : Type 0 where
  timeout : Answer
  wrote : ℤ → Answer

-- What is done with a client: the text that is passed to `write`, if it is, and the client behind it.
unfoldable pub send : Bytes → Answer → Option ℕ → List Bytes × Option ℕ
send text answer none = ([], none)
send text timeout (some sock) = ([], none)
send text (wrote (negsuc n)) (some sock) = (text ∷ [], none)
send text (wrote (pos n)) (some sock) = (text ∷ [], if n == length text then some sock else none)

abbrev pub tag : ℕ → List Bytes → List (ℕ × Bytes)
tag i [] = []
tag i (t ∷ ts) = (i, t) ∷ tag i ts

-- The loop over the clients from the `i`-th on, with the answers for each: the texts go with the index
-- of the client.
unfoldable pub send_to_all :
    Bytes → (ℕ → Answer) → ℕ → List (Option ℕ) → List (ℕ × Bytes) × List (Option ℕ)
send_to_all text answers i [] = ([], [])
send_to_all text answers i (c ∷ cs) =
    let (out, c') = send text (answers i) c in
    let (outs, cs') = send_to_all text answers (suc i) cs in (tag i out ++ outs, c' ∷ cs')

-- The text of a message that can be encoded.
unfoldable pub text_of : (r : Real) → Message r → Option Bytes
text_of r m = elim (encode r (some m) true (pos 32768) minus_one) [
  | none ↦ none
  | some (code, text) ↦ elim code [ negsuc n ↦ none | pos n ↦ if n == 0 then text else none ]
]

-- The loop of `customMessageProcess` over the messages, with their texts and the answers for each.
unfoldable pub send_texts :
    (ℕ → ℕ → Answer)
    → ℕ
    → List (Option Bytes)
    → List (Option ℕ)
    → List (ℕ × Bytes) × List (Option ℕ)
send_texts answers j [] cs = ([], cs)
send_texts answers j (none ∷ ts) cs = send_texts answers (suc j) ts cs
send_texts answers j (some text ∷ ts) cs =
    let (out, cs') = send_to_all text (answers j) 0 cs in
    let (outs, cs'') = send_texts answers (suc j) ts cs' in (out ++ outs, cs'')

-- `customMessageProcess`, which returns 0
unfoldable pub custom_message_process :
    (r : Real)
    → (ℕ → ℕ → Answer)
    → List (Message r)
    → List (Option ℕ)
    → List (ℕ × Bytes) × List (Option ℕ)
custom_message_process r answers ms cs = send_texts answers 0 (map (text_of r) ms) cs

-- What `customLoop` hears of a client: nothing, input, or an error or the end of the input.
pub data Heard : Type 0 where
  silent input gone : Heard

unfoldable pub hear : Heard → Option ℕ → Option ℕ
hear gone c = none
hear silent c = c
hear input c = c

unfoldable pub hear_all : (ℕ → Heard) → ℕ → List (Option ℕ) → List (Option ℕ)
hear_all heard i [] = []
hear_all heard i (c ∷ cs) = hear (heard i) c ∷ hear_all heard (suc i) cs

-- What the listening socket gives: no connection or an error, or a socket and whether it can be made
-- non blocking.
pub data Incoming : Type 0 where
  nobody : Incoming
  connection : ℕ → Bool → Incoming

-- The first free place takes the socket, if there is one.
unfoldable pub assign : ℕ → List (Option ℕ) → List (Option ℕ)
assign sock [] = []
assign sock (none ∷ cs) = some sock ∷ cs
assign sock (some s ∷ cs) = some s ∷ assign sock cs

unfoldable pub accept : Incoming → List (Option ℕ) → List (Option ℕ)
accept nobody cs = cs
accept (connection sock false) cs = cs
accept (connection sock true) cs = assign sock cs

-- `customLoop` where `select` finds something.
unfoldable pub custom_loop : (ℕ → Heard) → Incoming → List (Option ℕ) → List (Option ℕ)
custom_loop heard incoming cs = accept incoming (hear_all heard 0 cs)
