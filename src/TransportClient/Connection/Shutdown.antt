-- ===== src/TransportClient/Connection/Shutdown.antt =====
-- The shutdown of the client of src/transport_client.c.
use info_logger.Base.{
  choose, ◌+◌, ◌≡◌, refl, sym, ap, ◌∙◌, Bool, true, false, not, ◌&&◌, List, [], ◌∷◌, ◌==◌,
  if◌then◌else◌, inl, inr, ◌⊎◌, subst, ltb,
}
use info_logger.CText.{Bytes}
use info_logger.TransportClient.{
  TransportClient, State, not_connected, connected, open_client, close_client,
}
use info_logger.TransportClient.Transfer.{Transfer, begin}
use info_logger.TransportClient.Steps.{leaves}
use info_logger.TransportClient.Connection.{
  Machine, max_proxy_retry, set_state, connect_fails, try_connect, is_open, dialogue, disconnect,
  transfer, Turn, at_state, is_disconnected, check_stop, turn, run_machine, has_proxy, Course,
  ended, going_on, in_loop, goes_on,
}
use info_logger.TransportClient.Connection.Loop.{Stops, run-Stops, goes_round, leaves-lem}

closed_loop : (s : State) (stop : Bool) → stop ≡ true → (is_open s && not stop) ≡ false
closed_loop open_client true h = refl
closed_loop open_client false h = cc h
closed_loop not_connected stop h = refl
closed_loop connected stop h = refl
closed_loop close_client stop h = refl

dialogue_stopped :
    (greets fresh : Bool) (reads : List (List Bytes)) (m : Machine)
    → Stops m.client
    → dialogue greets fresh reads m ≡ m
unfolding dialogue
dialogue_stopped greets fresh [] m h = rw (closed_loop m.client.state m.client.stop h) refl
dialogue_stopped greets fresh (ls ∷ reads) m h =
    rw (closed_loop m.client.state m.client.stop h) refl

try_connect-Stops : (b : Bool) (m : Machine) → Stops m.client → Stops (try_connect b m).client
unfolding try_connect connect_fails set_state
try_connect-Stops b m h =
    let good = λ (n : Machine). Stops n.client in
    choose good (m.wait_count == 0) _ _
      (choose good b (set_state open_client m) (connect_fails m) h
        (choose good (ltb max_proxy_retry (m.n_retry + 1) && has_proxy m.proxy_name) _ _ h h))
      h

-- The part of a turn for the state comes to its end, and the request is still there.
abbrev Completes : Bool × Machine → Type 0
Completes r = (r.0 ≡ true) × Stops r.1.client

choose_first {ℓ} :
    {A : Type ℓ} (P : A → Type 0) (test : Bool) (x y : A)
    → test ≡ true
    → P x
    → P (if test then x else y)
choose_first P true x y h px = px
choose_first P false x y h px = cc h

choose_second {ℓ} :
    {A : Type ℓ} (P : A → Type 0) (test : Bool) (x y : A)
    → test ≡ false
    → P y
    → P (if test then x else y)
choose_second P true x y h py = cc h
choose_second P false x y h py = py

at_state-Completes :
    (s : State) (a : Turn) (m : Machine)
    → Stops m.client
    → goes_round a.steps ≡ true
    → Completes (at_state s a m)
unfolding at_state disconnect transfer set_state
at_state-Completes not_connected a m h g = (refl, try_connect-Stops a.connects m h)
at_state-Completes open_client a m h g = (
  refl,
  ap (λ (n : Machine). n.client.stop)
        (dialogue_stopped (not (has_proxy m.proxy_name)) true a.reads m h)
      ∙ h,
)
at_state-Completes close_client a m h g = (refl, h)
at_state-Completes connected a m h g =
    let s : Transfer × TransportClient = (begin m.ack_maj m.ack_min, m.client) in
    choose_first Completes (leaves a.steps s) _ _ (leaves-lem a.steps s h g)
      (refl, run-Stops a.steps s h)

-- The thread has ended, and the client is disconnected.
pub record IsEnded (r : Course × Machine) : Type 0 where
  pub at_end : r.0 ≡ ended
  pub closed : r.1.client.state ≡ not_connected

-- Behind a turn: the thread has ended, or the client is to be closed in the next one.
abbrev Ends : Course × Machine → Type 0
Ends r = IsEnded r ⊎ ((r.0 ≡ going_on) × (r.1.client.state ≡ close_client) × Stops r.1.client)

choose_stop {ℓ} :
    {A : Type ℓ} (P : A → Type 0) (stop away : Bool) (x y z : A)
    → stop ≡ true
    → (away ≡ true → P x)
    → (away ≡ false → P y)
    → P (if stop then (if away then x else y) else z)
choose_stop P true true x y z h px py = px refl
choose_stop P true false x y z h px py = py refl
choose_stop P false away x y z h px py = cc h

not_connected_of : (s : State) → is_disconnected s ≡ true → s ≡ not_connected
not_connected_of not_connected h = refl
not_connected_of connected h = cc h
not_connected_of open_client h = cc h
not_connected_of close_client h = cc h

check_stop-Ends : (m : Machine) → Stops m.client → Ends (check_stop m)
unfolding check_stop set_state
check_stop-Ends m h =
    choose_stop Ends m.client.stop (is_disconnected m.client.state)
      (ended, record m { client = record m.client { stop = false } })
      (going_on, set_state close_client m) (going_on, m) h
      (λ d. inl (record { at_end = refl; closed = not_connected_of m.client.state d }))
      (λ d. inr (refl, refl, h))

check_stop-disconnect : (m : Machine) → Stops m.client → IsEnded (check_stop (disconnect m))
unfolding check_stop disconnect set_state
check_stop-disconnect m h =
    choose_stop IsEnded m.client.stop true
      (ended, record (disconnect m) { client = record (disconnect m).client { stop = false } })
      (going_on, set_state close_client (disconnect m)) (going_on, disconnect m) h
      (λ d. record { at_end = refl; closed = refl }) (λ d. cc d)

-- What follows a turn.
goes_on-ended : (p : Course) → p ≡ ended → goes_on p ≡ false
goes_on-ended p h = ap (λ q. goes_on q) h

goes_on-going_on : (p : Course) → p ≡ going_on → goes_on p ≡ true
goes_on-going_on p h = ap (λ q. goes_on q) h

-- A client that is to close ends with the next turn.
run_machine-closing :
    (a : Turn) (as' : List Turn) (m : Machine)
    → m.client.state ≡ close_client
    → Stops m.client
    → IsEnded (run_machine (a ∷ as') m)
unfolding run_machine turn at_state
run_machine-closing a as' m e h =
    let is_ended : IsEnded (turn a m) =
      subst
        (λ s. IsEnded (
          if (at_state s a m).0
          then check_stop (at_state s a m).1
          else (in_loop, (at_state s a m).1)))
        (sym e) (check_stop-disconnect m h) in
    choose_second IsEnded (goes_on (turn a m).0) (run_machine as' (turn a m).1) (turn a m)
      (goes_on-ended (turn a m).0 is_ended.at_end) is_ended

turn-Ends : (a : Turn) (m : Machine) → Stops m.client → goes_round a.steps ≡ true → Ends (turn a m)
unfolding turn
turn-Ends a m h g =
    let r = at_state m.client.state a m in
    let c = at_state-Completes m.client.state a m h g in
    choose_first Ends r.0 (check_stop r.1) (in_loop, r.1) c.0 (check_stop-Ends r.1 c.1)

-- A client that has been told to stop, in whatever state it is, is disconnected, and its thread ends,
-- with the second turn of the state machine at the latest. Where it is in the loop of STATE_CONNECTED,
-- the thread must come to the end of a turn of this loop; nothing else is asked of what happens.
pub run_machine-IsEnded :
    (a b : Turn) (as' : List Turn) (m : Machine)
    → m.client.stop ≡ true
    → goes_round a.steps ≡ true
    → IsEnded (run_machine (a ∷ b ∷ as') m)
unfolding run_machine
run_machine-IsEnded a b as' m h g = elim (turn-Ends a m h g) [
  | inl e ↦
      choose_second IsEnded (goes_on (turn a m).0) (run_machine (b ∷ as') (turn a m).1) (turn a m)
        (goes_on-ended (turn a m).0 e.at_end) e
  | inr (f, e, s) ↦
      choose_first IsEnded (goes_on (turn a m).0) (run_machine (b ∷ as') (turn a m).1) (turn a m)
        (goes_on-going_on (turn a m).0 f) (run_machine-closing b as' (turn a m).1 e s)
]
