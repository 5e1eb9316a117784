-- ===== src/Tests/Daemon.antt =====
-- The data of a client of infoLoggerD at concrete reads.
use info_logger.Base.{◌≡◌, refl, List, [], ◌∷◌, ◌++◌, map, true, some, arith}
use info_logger.CText.{Bytes, codes, c_str}
use info_logger.InfoLoggerDaemon.{
  Receiver, forward, end_line, split_data, ClientConnection, Traffic, no_event, data_read,
}
use info_logger.InfoLoggerDaemon.Clients.{Turn, run, IsServed, IsCounted, run-IsServed}
use info_logger.InfoLoggerDaemon.Lines.{
  lines_of, is_preceded, receive, joined, ArePreceded, receive-lines_of,
}

abbrev fresh : Receiver
fresh = record { buffer = []; sent = []; received = 0 }

abbrev two_reads : List Bytes
two_reads = codes "ab" ∷ codes "c\nde\nf" ∷ []

two_reads-ArePreceded : ArePreceded two_reads
unfolding ArePreceded is_preceded
two_reads-ArePreceded = (refl, refl, (refl, refl, refl))

receive-lines_of_example :
    ((receive two_reads fresh).sent ≡ [] ++ map (λ l. c_str l) (lines_of [] (joined two_reads)).0)
    × ((receive two_reads fresh).buffer ≡ (lines_of [] (joined two_reads)).1)
receive-lines_of_example = receive-lines_of two_reads fresh two_reads-ArePreceded

-- A line feed that begins a read does not end the line.
joined_test :
    (split_data true (codes "\ncd\n") [] (split_data true (codes "ab") [] fresh)).sent
    ≡ codes "ab\ncd" ∷ []
unfolding split_data end_line forward c_str
joined_test = refl

-- A client sends a line; others connect.
abbrev two_turns : List Turn
two_turns =
    record { incoming = λ _. no_event; request = some 5 }
    ∷ record { incoming = λ _. data_read (codes "ab\nc"); request = some 6 }
    ∷ []

abbrev started : List ClientConnection × Traffic
started = ([], record { sent = []; received = 0 })

started-IsServed : IsServed 1 started
unfolding IsServed IsCounted
started-IsServed = (omega arith, refl)

run-IsServed_example : IsServed 1 (run 1 true two_turns started)
run-IsServed_example = run-IsServed 1 two_turns started (omega arith) started-IsServed
