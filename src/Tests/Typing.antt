-- ===== src/Tests/Typing.antt =====
-- A line that a player types, through src/server.rs and src/connection.rs.
use havok_rust.Base.{◌≡◌, refl, codes, Bytes, List, [], ◌∷◌, ◌++◌, map, some, ok, arith}
use havok_rust.Base.HashMap.{get}
use havok_rust.Net.{NetworkMessage}
use havok_rust.Connection.Telnet.Grammar.{Item, char, simple, negotiation}
use havok_rust.Connection.Lines.Scan.{find}
use havok_rust.Connection.Receive.Chunks.{message_of}
use havok_rust.Connection.Session.{to_user, waiting, do_rx_process_thread}
use havok_rust.Server.{queue_up}
use havok_rust.Server.Reader.{do_read_thread}
use havok_rust.Server.Thread.{receive, run}
use havok_rust.Server.Thread.Lines.{reads, lines_arrive}
use havok_rust.Tests.Samples.{crates, home}
use havok_rust.Tests.Running.{sockets, player, busy_thread}

-- "gp" with an IAC NOP, then a backspace, "o", the line end with a negotiation and the beginning of the
-- next line.
abbrev chunks : List (List Item)
chunks =
    (char b'g' ∷ simple 0xF1 ∷ char b'p' ∷ [])
    ∷ (char 8 ∷ char b'o' ∷ char 13 ∷ char 10 ∷ negotiation 0xFD 1 ∷ char b'x' ∷ [])
    ∷ []

-- The line without its telnet commands.
abbrev line : Bytes
line = codes "gp" ++ (8 ∷ codes "o")

lines_arrive_example :
    (messages : List NetworkMessage) × (do_read_thread home (reads chunks) ≡ (messages, waiting))
    × (run crates sockets busy_thread (map receive messages)
        ≡ ok (busy_thread, map (queue_up 7) messages))
    × (do_rx_process_thread crates (player home) [] (map some messages)
        ≡ (map to_user (map (message_of crates.from_utf8_lossy) (line ∷ [])), waiting))
unfolding get find
lines_arrive_example =
    lines_arrive crates sockets busy_thread (player home) (player home) 7 chunks (line ∷ [])
      (codes "x") ((omega arith, λ e. cc), ((omega arith, λ e. cc), tt)) refl (omega arith) refl
      refl refl refl
