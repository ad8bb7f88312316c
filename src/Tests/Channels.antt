-- ===== src/Tests/Channels.antt =====
-- The bounded channels of src/server.rs and src/logging.rs.
use havok_rust.Base.{ℕ, zero, suc, ◌+◌, ◌≡◌, ◌≢◌, refl, ap, codes, List, [], ◌∷◌, length, ok, arith}
use mathlib.Core.List.{Permᴰ}
use havok_rust.Base.{All, false, Ensures, Bytes, ◌++◌, ◌-◌, some}
use havok_rust.Net.{SocketAddr, NetworkMessage, addr_eq, eq_addr_iff}
use havok_rust.Settings.{reconfigure, shutdown}
use havok_rust.Base.HashMap.{get}
use havok_rust.Logging.{Level, LogMessage, info, trace, run_log_tasks}
use havok_rust.Logging.Levels.{messages}
use havok_rust.Logging.Tasks.{run_log_tasks-Perm}
use havok_rust.Ansi.Colors.{fg_colors}
use havok_rust.Server.{Action, shut_down}
use havok_rust.Ansi.Convert.{parts_of}
use havok_rust.Server.Reader.{message_for}
use havok_rust.Server.Thread.{
  Event, Thread, control, receive, accepted, enqueued, transmit, run, disconnect_all,
}
use havok_rust.Server.Thread.Book.{book, book_run}
use havok_rust.Server.Thread.Book.Steps.{written}
use havok_rust.Server.Thread.Book.Kept.{run-book}
use havok_rust.Server.Channel.{Turn, turns}
use havok_rust.Server.Thread.Capacity.{close_down_hangs}
use havok_rust.Server.Thread.Orphans.{IsElsewhere, run_orphans}
use havok_rust.Server.Thread.Book.Queues.{addressed, written_to, sent_in}
use havok_rust.Server.Thread.Book.Writes.{run_writes}
use havok_rust.Tests.Samples.{crates, term_keeps, home, away}
use havok_rust.Tests.Running.{sockets, conf, moved, visitor, busy_thread}
use havok_rust.Tests.Others.{ready, calls, detail}

-- Messages that wait to be written.
abbrev pub backlog : ℕ → List NetworkMessage
backlog zero = []
backlog (suc n) = message_for home (codes "x") ∷ backlog n

pub length-backlog : (n : ℕ) → length (backlog n) ≡ n
length-backlog zero = refl
length-backlog (suc n) = ap suc (length-backlog n)

abbrev pub slow_thread : ℕ → Thread crates
slow_thread n = record busy_thread { txqueue = backlog n }

close_down_hangs_example :
    (farewells : List NetworkMessage) × (disconnect_all crates sockets
        busy_thread.server.connections
      ≡ ok farewells)
    × ((ts : List Turn) → (turns (backlog 2046, farewells) ts).1 ≢ [])
unfolding parts_of
close_down_hangs_example =
    close_down_hangs crates sockets term_keeps tt (slow_thread 2046)
      ((refl, refl), ((refl, refl), tt)) refl (omega (arith, length-backlog 2046))
      (omega (arith, length-backlog 2046))

-- A player types on behind the reconfiguration, another comes, and the first one leaves.
abbrev moving : List Event
moving =
    receive (message_for home (codes "look"))
    ∷ accepted (some (record visitor { rx = 17 }))
    ∷ receive (message_for home [])
    ∷ []

run_orphans_example :
    Ensures
      (λ (r : Thread crates × List Action). All (IsElsewhere 7) r.1)
      (run crates sockets busy_thread (control (reconfigure moved) ∷ moving))
run_orphans_example =
    run_orphans crates sockets 7 moved busy_thread moving
      (record { no_connections = refl; no_wr_streams = refl; no_rd_streams = refl }) refl
      (tt, ((λ e. cc), (tt, tt)))

-- The player's streams are shut down, and nothing is queued.
moving_runs :
    (t : Thread crates) × (run crates sockets busy_thread (control (reconfigure moved) ∷ moving)
      ≡ ok (t, shut_down 11 ∷ shut_down 12 ∷ []))
unfolding run fg_colors
moving_runs = (_, refl)

-- The second task runs first.
abbrev swapped : List (Level × Bytes)
swapped = (trace, codes "detail") ∷ (info, codes "hello") ∷ []

run_log_tasks-Perm_example :
    (lost : List LogMessage) × (run_log_tasks ready (detail ∷ []) swapped ++ lost
      ≡ detail ∷ messages swapped)
    × Permᴰ (detail ∷ messages calls) (run_log_tasks ready (detail ∷ []) swapped ++ lost)
    × (length lost ≡ 1 + 2 - 256)
run_log_tasks-Perm_example =
    run_log_tasks-Perm ready calls swapped (detail ∷ []) 3 refl (omega arith) (Permᴰ.swap refl refl)

-- One player types, another comes from a new address, and the first one's next line is written.
abbrev evening : List Event
evening =
    receive (message_for home (codes "look"))
    ∷ control (reconfigure conf)
    ∷ accepted (some (record visitor { rx = 17 }))
    ∷ enqueued (message_for home (codes "dark"))
    ∷ transmit
    ∷ enqueued (message_for home [])
    ∷ transmit
    ∷ transmit
    ∷ []

run-book_example :
    written crates sockets (run crates sockets busy_thread evening)
    ≡ book_run crates (book crates busy_thread) evening
run-book_example =
    run-book crates sockets busy_thread evening
      (tt, ((refl, refl), (tt, (tt, (tt, (tt, (tt, (tt, tt))))))))

abbrev pub far : SocketAddr
far = record away { port = 4002 }

-- Both players are written to, and another connection comes, and goes.
abbrev night : List Event
night =
    enqueued (message_for home (codes "dark"))
    ∷ enqueued (message_for away (codes "bright"))
    ∷ transmit
    ∷ accepted (some (record visitor { addr = far; wr_half = 21 }))
    ∷ enqueued (message_for home (codes "cold"))
    ∷ transmit
    ∷ transmit
    ∷ transmit
    ∷ control shutdown
    ∷ enqueued (message_for home (codes "late"))
    ∷ []

pub only_home : (b : SocketAddr) → get b busy_thread.server.wr_streams ≡ some 11 → b ≡ home
unfolding get
only_home b h = ground (arith, eq_addr_iff home b)

run_writes_example :
    Ensures
      (λ (r : Thread crates × List Action).
        written_to 11 r.1 ++ addressed home r.0.txqueue
        ≡ addressed home (busy_thread.txqueue ++ sent_in busy_thread.is_shutdown night))
      (run crates sockets busy_thread night)
unfolding get
run_writes_example =
    run_writes crates sockets busy_thread night home 11 refl only_home
      (tt, (tt, (tt, (tt, (tt, (tt, (tt, (tt, (tt, (tt, tt))))))))))
      (tt, (tt, (tt, ((refl, (λ e. omega (arith, e))), (tt, (tt, (tt, (tt, (tt, (tt, tt))))))))))
      ((λ e. cc), ((λ e. cc), tt))

night_writes : addressed home (sent_in false night) ≡ codes "dark" ∷ codes "cold" ∷ []
night_writes = refl
