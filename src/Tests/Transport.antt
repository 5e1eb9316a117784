-- ===== src/Tests/Transport.antt =====
-- The theorems about the transport at concrete inputs.
use info_logger.Base.{List, [], ◌∷◌}
use info_logger.CText.{Bytes, codes}
use info_logger.LineBuffer.{new, readable, not_ready}
use info_logger.LineBuffer.Conserved.{Call, receive, write, line, Conserves, run-fresh}

abbrev in_socket : Bytes
in_socket = codes "*1.4#a\n*1.4#b"

abbrev pieces : List Call
pieces =
    receive (readable 8 ∷ readable 3 ∷ not_ready ∷ [])
    ∷ line
    ∷ write (codes "c\n")
    ∷ line
    ∷ line
    ∷ []

run-fresh_example : Conserves pieces (in_socket, new)
run-fresh_example = run-fresh pieces in_socket
