-- ===== src/TransportClient/Connection/Pace.antt =====
-- How long the state machine of src/transport_client.c waits between two attempts to connect.
use info_logger.Base.{
  choose, ℕ, ◌+◌, ◌-◌, ◌≤◌, ◌≡◌, refl, sym, ap, ◌∙◌, Bool, true, false, not, ◌&&◌, List, [], ◌∷◌,
  Option, none, some, ◌==◌, ltb, arith, if◌then◌else◌, take, drop, ℤ, inl, inr, Bool-cases,
}
use info_logger.CText.{Bytes, codes, equal}
use info_logger.CText.Numbers.{scan_int}
use info_logger.TransportClient.{
  TransportClient, State, not_connected, connected, open_client, close_client,
}
use info_logger.TransportClient.Transfer.{Transfer, begin}
use info_logger.TransportClient.Steps.{run, leaves}
use info_logger.TransportClient.Connection.Loop.{run-Holds}
use info_logger.TransportClient.Connection.{
  Machine, max_retry_time, max_proxy_retry, init, set_state, connect_fails, try_connect, read_proxy,
  Dialogue, next_line, stop_parsing, be_proxy, start_proxy, use_proxy, other_line, node_id,
  open_line, open_lines, greet, is_open, dialogue, disconnect, transfer, Turn, at_state,
  is_disconnected, check_stop, turn, run_machine, has_proxy, Course, goes_on, in_loop,
}

-- The waits are bounded.
pub record Bounds (wait_count wait_time : ℕ) : Type 0 where
  pub counting : wait_count ≤ max_retry_time
  pub positive : 1 ≤ wait_time
  pub bounded : wait_time ≤ max_retry_time

-- The client is not disconnected.
pub record IsSteady (m : Machine) : Type 0 where
  pub bounds : Bounds m.wait_count m.wait_time
  pub away : is_disconnected m.client.state ≡ false

-- While the client is disconnected, a proxy has failed five times at most.
pub record IsPaced (m : Machine) : Type 0 where
  pub bounds : Bounds m.wait_count m.wait_time
  pub patient :
      is_disconnected m.client.state ≡ true
      → has_proxy m.proxy_name ≡ true
      → m.n_retry ≤ max_proxy_retry

abbrev After : Dialogue → Type 0
After (next_line m) = IsSteady m
After (stop_parsing m) = IsSteady m

start_proxy-IsSteady :
    (ps : List ℤ) (port : ℤ) (m : Machine) → IsSteady m → IsSteady (start_proxy ps port m)
unfolding start_proxy
start_proxy-IsSteady [] port m h = record { bounds = h.bounds; away = h.away }
start_proxy-IsSteady (p ∷ ps) port m h = h

be_proxy-IsSteady : (p : Option (Bytes × ℤ)) (m : Machine) → IsSteady m → IsSteady (be_proxy p m)
unfolding be_proxy
be_proxy-IsSteady none m h = h
be_proxy-IsSteady (some (name, port)) m h = start_proxy-IsSteady m.proxies port m h

use_proxy-After : (p : Option (Bytes × ℤ)) (m : Machine) → IsSteady m → After (use_proxy p m)
unfolding use_proxy set_state
use_proxy-After none m h = h
use_proxy-After (some (name, port)) m h = record { bounds = h.bounds; away = refl }

other_line-After : (l : Bytes) (m : Machine) → IsSteady m → After (other_line l m)
unfolding other_line set_state
other_line-After l m h =
    choose After (equal (take 8 l) (codes "BE_PROXY")) _ _
      (be_proxy-IsSteady (read_proxy (drop 8 l)) m h)
      (choose After (equal (take 9 l) (codes "USE_PROXY")) _ _
        (use_proxy-After (read_proxy (drop 9 l)) m h) (record { bounds = h.bounds; away = refl }))

node_id-After : (n : Option ℤ) (l : Bytes) (m : Machine) → IsSteady m → After (node_id n l m)
unfolding node_id
node_id-After none l m h = other_line-After l m h
node_id-After (some n) l m h = record { bounds = h.bounds; away = h.away }

open_line-After : (l : Bytes) (m : Machine) → IsSteady m → After (open_line l m)
unfolding open_line set_state
open_line-After l m h =
    choose After (equal l (codes "READY")) _ _ (record { bounds = h.bounds; away = refl })
      (choose After (equal (take 7 l) (codes "NODE_ID")) _ _
        (node_id-After (scan_int (drop 7 l)) l m h) (other_line-After l m h))

goes_on-IsSteady :
    (ls : List Bytes) (d : Dialogue)
    → After d
    → ((m : Machine) → IsSteady m → IsSteady (open_lines ls m))
    → IsSteady (elim d as (λ x. Machine) [ next_line m' ↦ open_lines ls m' | stop_parsing m' ↦ m' ])
goes_on-IsSteady ls (next_line m) h rest = rest m h
goes_on-IsSteady ls (stop_parsing m) h rest = h

open_lines-IsSteady : (ls : List Bytes) (m : Machine) → IsSteady m → IsSteady (open_lines ls m)
unfolding open_lines
open_lines-IsSteady [] m h = h
open_lines-IsSteady (l ∷ ls) m h =
    goes_on-IsSteady ls (open_line l m) (open_line-After l m h) (open_lines-IsSteady ls)

greet-IsSteady : (b : Bool) (m : Machine) → IsSteady m → IsSteady (greet b m)
unfolding greet
greet-IsSteady true m h = record { bounds = h.bounds; away = h.away }
greet-IsSteady false m h = h

dialogue-IsSteady :
    (greets fresh : Bool) (reads : List (List Bytes)) (m : Machine)
    → IsSteady m
    → IsSteady (dialogue greets fresh reads m)
unfolding dialogue set_state
dialogue-IsSteady greets fresh [] m h =
    choose IsSteady (is_open m.client.state && not m.client.stop)
      (set_state close_client (greet greets m)) m
      (record { bounds = (greet-IsSteady greets m h).bounds; away = refl }) h
dialogue-IsSteady greets fresh (ls ∷ reads) m h =
    let n : ℕ = (if fresh then 10 else m.wait_count) in
    let m0 = record m { wait_count = n } in
    let short : n ≤ max_retry_time =
      choose (λ k. k ≤ max_retry_time) fresh 10 m.wait_count (omega arith) h.bounds.counting in
    let counted : IsSteady m0 = record {
      bounds = record {
        counting = short;
        positive = h.bounds.positive;
        bounded = h.bounds.bounded;
      };
      away = h.away;
    } in
    let m1 = open_lines ls (greet greets m0) in
    let lines = open_lines-IsSteady ls (greet greets m0) (greet-IsSteady greets m0 counted) in
    let m2 = record m1 { wait_count = m1.wait_count - 1 } in
    let given_up = set_state close_client m0 in
    choose IsSteady (is_open m.client.state && not m.client.stop)
      (if n == 0 then given_up else dialogue false greets reads m2) m
      (choose IsSteady (n == 0) given_up (dialogue false greets reads m2)
        (record { bounds = counted.bounds; away = refl })
        (dialogue-IsSteady false greets reads m2 (record {
          bounds = record {
            counting = omega (arith, lines.bounds.counting);
            positive = lines.bounds.positive;
            bounded = lines.bounds.bounded;
          };
          away = lines.away;
        })))
      h

IsPaced-of : (m : Machine) → IsSteady m → IsPaced m
IsPaced-of m h = record {
  bounds = h.bounds;
  patient = λ e. (let bad : false ≡ true = sym h.away ∙ e in cc bad);
}

few : (b : Bool) (n : ℕ) → (ltb 5 (n + 1) && b) ≡ false → b ≡ true → n + 1 ≤ 5
few true n e h = ground arith
few false n e h = cc h

connect_fails-IsPaced :
    (m : Machine)
    → Bounds m.wait_count m.wait_time
    → (has_proxy m.proxy_name ≡ true → m.n_retry ≤ max_proxy_retry)
    → IsPaced (connect_fails m)
unfolding connect_fails
connect_fails-IsPaced m h p =
    elim (Bool-cases (ltb max_proxy_retry (m.n_retry + 1) && has_proxy m.proxy_name)) [
      | inl e ↦ rw e (record {
        bounds = record { counting = omega arith; positive = omega arith; bounded = omega arith };
        patient = λ a b. omega arith;
      })
      | inr e ↦ rw e (record {
        bounds = record {
          counting = h.bounded;
          positive = omega (arith, h.positive);
          bounded = omega arith;
        };
        patient = λ a b. few (has_proxy m.proxy_name) m.n_retry e b;
      })
    ]

try_connect-IsPaced :
    (b : Bool) (m : Machine)
    → IsPaced m
    → is_disconnected m.client.state ≡ true
    → IsPaced (try_connect b m)
unfolding try_connect set_state
try_connect-IsPaced b m h d =
    choose IsPaced (m.wait_count == 0) _ _
      (choose IsPaced b _ _ (IsPaced-of _ (record { bounds = h.bounds; away = refl }))
        (connect_fails-IsPaced m h.bounds (h.patient d)))
      (record {
        bounds = record {
          counting = omega (arith, h.bounds.counting);
          positive = h.bounds.positive;
          bounded = h.bounds.bounded;
        };
        patient = h.patient;
      })

at_state-IsPaced :
    (s : State) (a : Turn) (m : Machine)
    → m.client.state ≡ s
    → IsPaced m
    → IsPaced (at_state s a m).1
unfolding at_state disconnect transfer set_state
at_state-IsPaced not_connected a m e h =
    try_connect-IsPaced a.connects m h (ap (λ s. is_disconnected s) e)
at_state-IsPaced open_client a m e h = IsPaced-of _ (
    dialogue-IsSteady (not (has_proxy m.proxy_name)) true a.reads m
      (record { bounds = h.bounds; away = ap (λ s. is_disconnected s) e }))
at_state-IsPaced close_client a m e h = record {
  bounds = record { counting = omega arith; positive = omega arith; bounded = omega arith };
  patient = λ d p. omega arith;
}
at_state-IsPaced connected a m e h =
    let s : Transfer × TransportClient = (begin m.ack_maj m.ack_min, m.client) in
    let r = run a.steps s in
    choose (λ (r : Bool × Machine). IsPaced r.1) (leaves a.steps s) _ _
      (IsPaced-of _ (record { bounds = h.bounds; away = refl }))
      (IsPaced-of _ (record {
        bounds = h.bounds;
        away =
            run-Holds (λ b s. is_disconnected s ≡ false) (λ b s k. refl) (λ b s k. k) a.steps s
              (ap (λ s. is_disconnected s) e);
      }))

check_stop-IsPaced : (m : Machine) → IsPaced m → IsPaced (check_stop m).1
unfolding check_stop set_state
check_stop-IsPaced m h =
    let good = λ (r : Course × Machine). IsPaced r.1 in
    choose good m.client.stop _ _
      (choose good (is_disconnected m.client.state) _ _
        (record { bounds = h.bounds; patient = h.patient })
        (IsPaced-of _ (record { bounds = h.bounds; away = refl })))
      h

turn-IsPaced : (a : Turn) (m : Machine) → IsPaced m → IsPaced (turn a m).1
unfolding turn
turn-IsPaced a m h =
    let r = at_state m.client.state a m in
    let paced = at_state-IsPaced m.client.state a m refl h in
    choose (λ (r : Course × Machine). IsPaced r.1) r.0 (check_stop r.1) (in_loop, r.1)
      (check_stop-IsPaced r.1 paced) paced

run_machine-IsPaced_from :
    (as' : List Turn) (m : Machine) → IsPaced m → IsPaced (run_machine as' m).1
unfolding run_machine
run_machine-IsPaced_from [] m h = h
run_machine-IsPaced_from (a ∷ as') m h =
    let next = turn-IsPaced a m h in
    choose (λ (r : Course × Machine). IsPaced r.1) (goes_on (turn a m).0) _ _
      (run_machine-IsPaced_from as' (turn a m).1 next) next

-- Whatever happens in the turns of the state machine: it never waits longer than 300 turns of a second
-- before it tries to connect, the next wait is of 1 to 300 turns, and a proxy is not tried again after
-- its sixth failure in a row.
pub run_machine-IsPaced :
    (as' : List Turn) (c : TransportClient) (client_name : Bytes) (proxy_state : ℤ)
    → IsPaced (run_machine as' (init c client_name proxy_state)).1
unfolding init
run_machine-IsPaced as' c client_name proxy_state =
    run_machine-IsPaced_from as' (init c client_name proxy_state) (record {
      bounds = record { counting = omega arith; positive = omega arith; bounded = omega arith };
      patient = λ d p. omega arith;
    })
