-- ===== src/InfoLoggerDaemon/Clients.antt =====
-- The number of clients of infoLoggerD.
use info_logger.Base.{
  ℕ, ◌+◌, ◌<◌, ◌≤◌, ◌≡◌, Bool, true, false, List, [], ◌∷◌, ◌++◌, Option, none, some, leb, ◌==◌,
  if◌then◌else◌, length, arith, length-append, Bool-cases, inl, inr, lt→ltb, ltb_false→le, tests,
  subst, sym, ap, ◌∙◌, ◌%◌, ◌^◌,
}
use native.Mathlib.Nat.{mod-add-mod}
use info_logger.CText.{Bytes, c_str}
use info_logger.InfoLoggerDaemon.{
  Receiver, forward, end_line, split_data, ClientConnection, Incoming, no_event, data_read, closed,
  Traffic, serve_client, serve_clients, accept_client, add_client, do_loop,
}

-- What a turn of the daemon finds.
pub record Turn : Type 0 where
  pub incoming : ℕ → Incoming
  pub request : Option ℕ

-- Turns of the daemon, one after the other.
unfoldable pub run :
    ℕ → Bool → List Turn → List ClientConnection × Traffic → List ClientConnection × Traffic
run max to_server [] s = s
run max to_server (t ∷ ts) s = run max to_server ts (do_loop max to_server t.incoming t.request s)

length-add_client :
    (o : Option ClientConnection) (cs : List ClientConnection)
    → length (add_client o cs) ≤ length cs + 1
length-add_client none cs = omega arith
length-add_client (some c) cs = omega arith

length-serve_clients :
    (to_server : Bool) (incoming : ℕ → Incoming) (cs : List ClientConnection) (t : Traffic)
    → length (serve_clients to_server incoming cs t).0 ≤ length cs
unfolding serve_clients
length-serve_clients to_server incoming [] t = omega arith
length-serve_clients to_server incoming (c ∷ cs) t =
    let next = serve_client to_server (incoming c.socket) c t in
    let rest = length-serve_clients to_server incoming cs next.1 in
    let one = length-add_client next.0 (serve_clients to_server incoming cs next.1).0 in
    omega (arith, rest, one)

length-accept_client :
    (max : ℕ) (request : Option ℕ) (cs : List ClientConnection)
    → 0 < max
    → length cs ≤ max
    → length (accept_client max request cs) ≤ max
unfolding accept_client
length-accept_client max none cs p h = h
length-accept_client max (some sock) cs p h = elim (Bool-cases (leb max (length cs))) [
  | inl e ↦ rw (e, lt→ltb 0 max p) h
  | inr e ↦
      let room = ltb_false→le (length cs) max in
      rw e (
        subst (λ n. n ≤ max) (sym (length-append cs (record { socket = sock; buffer = [] } ∷ [])))
          (grind (arith, tests)))
]

-- The counter is the number of messages that were sent.
unfoldable pub IsCounted : ℕ → List Bytes → Type 0
IsCounted received sent = received ≡ length sent % 2 ^ 64

forward-IsCounted :
    (r : Receiver)
    → IsCounted r.received r.sent
    → IsCounted (forward true r).received (forward true r).sent
unfolding IsCounted forward
forward-IsCounted r h =
    ap (λ n. (n + 1) % 2 ^ 64) h
    ∙ mod-add-mod (length r.sent) (2 ^ 64) 1
    ∙ ap (λ n. n % 2 ^ 64) (sym (length-append r.sent (c_str r.buffer ∷ [])))

abbrev Counts : Receiver → Type 0
Counts r = IsCounted r.received r.sent

end_line-IsCounted : (slice : Bytes) (r : Receiver) → Counts r → Counts (end_line true slice r).1
unfolding end_line
end_line-IsCounted [] r h = h
end_line-IsCounted (c ∷ cs) r h = forward-IsCounted (record r { buffer = r.buffer ++ c ∷ cs }) h

choose-IsCounted :
    (test : Bool) (p q : Bytes × Receiver)
    → Counts p.1
    → Counts q.1
    → Counts (if test then p else q).1
choose-IsCounted true p q hp hq = hp
choose-IsCounted false p q hp hq = hq

split_data-IsCounted :
    (bs slice : Bytes) (r : Receiver) → Counts r → Counts (split_data true bs slice r)
unfolding split_data
split_data-IsCounted [] slice r h = h
split_data-IsCounted (b ∷ []) slice r h = elim (Bool-cases (b == b'\n')) [
  | inl e ↦ rw e (end_line-IsCounted slice r h)
  | inr e ↦ rw e h
]
split_data-IsCounted (b ∷ c ∷ bs) slice r h =
    let next = (if b == b'\n' then end_line true slice r else (slice ++ b ∷ [], r)) in
    split_data-IsCounted (c ∷ bs) next.0 next.1 (
      choose-IsCounted (b == b'\n') (end_line true slice r) (slice ++ b ∷ [], r)
        (end_line-IsCounted slice r h) h)

abbrev Sent : Traffic → Type 0
Sent t = IsCounted t.received t.sent

serve_client-IsCounted :
    (i : Incoming) (c : ClientConnection) (t : Traffic) → Sent t → Sent (serve_client true i c t).1
unfolding serve_client
serve_client-IsCounted no_event c t h = h
serve_client-IsCounted closed c t h = h
serve_client-IsCounted (data_read bs) c t h =
    let r : Receiver = record { buffer = c.buffer; sent = t.sent; received = t.received } in
    split_data-IsCounted bs [] r h

serve_clients-IsCounted :
    (incoming : ℕ → Incoming) (cs : List ClientConnection) (t : Traffic)
    → Sent t
    → Sent (serve_clients true incoming cs t).1
unfolding serve_clients
serve_clients-IsCounted incoming [] t h = h
serve_clients-IsCounted incoming (c ∷ cs) t h =
    serve_clients-IsCounted incoming cs (serve_client true (incoming c.socket) c t).1
      (serve_client-IsCounted (incoming c.socket) c t h)

-- At most `max` clients, and as many messages counted as were sent.
unfoldable pub IsServed : ℕ → List ClientConnection × Traffic → Type 0
IsServed max s = (length s.0 ≤ max) × IsCounted s.1.received s.1.sent

do_loop-IsServed :
    (max : ℕ) (t : Turn) (s : List ClientConnection × Traffic)
    → 0 < max
    → IsServed max s
    → IsServed max (do_loop max true t.incoming t.request s)
unfolding do_loop IsServed
do_loop-IsServed max t s p h =
    let fewer = length-serve_clients true t.incoming s.0 s.1 in
    let most = h.0 in
    (
      length-accept_client max t.request (serve_clients true t.incoming s.0 s.1).0 p
          (omega (arith, fewer, most)),
      serve_clients-IsCounted t.incoming s.0 s.1 h.1,
    )

-- When the daemon has a limit on its clients and sends to the server, then whatever its clients do and
-- whoever wants to connect, there are never more clients than the limit, and the counter of messages is
-- the number of messages sent to the server, modulo 2^64.
pub run-IsServed :
    (max : ℕ) (turns : List Turn) (s : List ClientConnection × Traffic)
    → 0 < max
    → IsServed max s
    → IsServed max (run max true turns s)
unfolding run
run-IsServed max [] s p h = h
run-IsServed max (t ∷ turns) s p h =
    run-IsServed max turns (do_loop max true t.incoming t.request s) p
      (do_loop-IsServed max t s p h)
