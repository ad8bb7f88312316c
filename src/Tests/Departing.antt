-- ===== src/Tests/Departing.antt =====
-- src/connection.rs and src/server.rs: what is sent to a player, to the end.
use havok_rust.Base.{◌≡◌, refl, codes, List, [], ◌∷◌, ◌++◌, map, some, none, Ensures, arith}
use havok_rust.Base.HashMap.{get}
use havok_rust.Net.{NetworkMessage}
use havok_rust.Settings.{shutdown}
use havok_rust.Connection.Session.{to_network, finished, do_tx_process_thread, by_kind, send_raw}
use havok_rust.Connection.Session.Sends.{one, none_left}
use havok_rust.Server.{Action}
use havok_rust.Server.Reader.{message_for}
use havok_rust.Server.Thread.{Event, Thread, control, accepted, transmit, enqueued, run}
use havok_rust.Server.Thread.Book.Queues.{addressed, written_to}
use havok_rust.Server.Thread.Departs.{payload_of, messages_depart}
use havok_rust.Tests.Samples.{crates, home, away}
use havok_rust.Tests.Running.{sockets, player, visitor, busy_thread}
use havok_rust.Tests.Channels.{far, only_home}
use havok_rust.Tests.Sessions.{beep, bye}

abbrev outs : List NetworkMessage
outs = message_for home (7 ∷ []) ∷ message_for home (7 ∷ []) ∷ []

-- One beep is written, and one waits, when the server is shut down.
abbrev evening : List Event
evening =
    enqueued (message_for away (codes "dark"))
    ∷ enqueued (message_for home (7 ∷ []))
    ∷ accepted (some (record visitor { addr = far; wr_half = 21 }))
    ∷ transmit
    ∷ transmit
    ∷ enqueued (message_for home (7 ∷ []))
    ∷ control shutdown
    ∷ []

messages_depart_example :
    (do_tx_process_thread crates (player home) (some beep ∷ some beep ∷ some bye ∷ none ∷ [])
      ≡ (map to_network outs, finished))
    × Ensures
        (λ (r : Thread crates × List Action).
          written_to 11 r.1 ++ addressed home r.0.txqueue ≡ map payload_of outs)
        (run crates sockets busy_thread evening)
unfolding get by_kind send_raw
messages_depart_example =
    messages_depart crates sockets busy_thread (player home) 11 (beep ∷ beep ∷ []) outs bye
      (none ∷ []) evening (one refl (one refl none_left)) (refl, refl, refl)
      ((λ e. cc), ((λ e. cc), tt)) refl only_home (tt, (tt, (tt, (tt, (tt, (tt, (tt, tt)))))))
      (tt, (tt, ((refl, (λ e. omega (arith, e))), (tt, (tt, (tt, (tt, tt))))))) refl
