-- ===== src/Tests/Bounded.antt =====
-- src/server.rs: the server thread with its bounded transmit channel, and its listener.
use havok_rust.Base.{
  ◌≡◌, refl, ap, leb, arith, true, inr, codes, List, [], ◌∷◌, ok, none, some, Ensures,
}
use havok_rust.Net.{NetworkMessage}
use havok_rust.Settings.{reconfigure, shutdown}
use havok_rust.Ansi.Colors.{fg_colors}
use havok_rust.Ansi.Convert.{parts_of}
use havok_rust.Server.{Action, server_static, start_server, initialize}
use havok_rust.Server.Table.{has}
use havok_rust.Server.Reader.{message_for}
use havok_rust.Server.Thread.{
  Event, Thread, control, accepted, enqueued, transmit, receive, step, run, accept_connection,
  on_accepted, disconnect_all, apply_settings, wait_settings,
}
use havok_rust.Server.Thread.Listening.{run-IsListening}
use havok_rust.Server.Thread.Bounded.{at_select, sending, Move, event, go_on, taken, bounded_run}
use havok_rust.Server.Thread.Bounded.Full.{accepted_hangs}
use havok_rust.Server.Thread.Bounded.Complete.{Fits, bounded_run_complete}
use havok_rust.Server.Thread.Bounded.Sound.{bounded_run_sound}
use havok_rust.Tests.Samples.{crates, term_keeps, home}
use havok_rust.Tests.Running.{sockets, conf, moved, visitor, empty_thread, busy_thread}
use havok_rust.Tests.Channels.{slow_thread, length-backlog}

abbrev new_thread : Thread crates
new_thread = record empty_thread { server = server_static crates; static = server_static crates }

-- A visitor comes, is greeted, and the server moves to another port.
abbrev events : List Event
events = accepted (some visitor) ∷ transmit ∷ control (reconfigure moved) ∷ []

abbrev started : Thread crates
started = empty_thread

waits : wait_settings crates sockets new_thread (some (reconfigure conf) ∷ []) ≡ ok (started, true)
unfolding wait_settings initialize start_server
waits = refl

run-IsListening_example :
    Ensures
      (λ (r : Thread crates × List Action). has r.0.listener ≡ true)
      (run crates sockets started events)
run-IsListening_example =
    run-IsListening crates sockets new_thread started (some (reconfigure conf) ∷ []) events refl
      waits

-- The channel is full when a visitor comes. A message of another task waits, and no round reads the channel.
abbrev later : List Move
later = event transmit ∷ go_on ∷ event (enqueued (message_for home (codes "dark"))) ∷ go_on ∷ []

accepted_hangs_example :
    (t' : Thread crates) × (greeting : NetworkMessage) × (bounded_run crates sockets
        (slow_thread 2048, at_select)
        (event (accepted (some visitor)) ∷ later)
      ≡ ok ((t', sending (greeting ∷ []) none), []))
    × (t'.txqueue ≡ (slow_thread 2048).txqueue)
unfolding parts_of
accepted_hangs_example =
    accepted_hangs crates sockets tt term_keeps visitor (slow_thread 2048) conf 9 later refl
      (inr refl) refl tt refl refl (ap (leb 2048) (length-backlog 2048))

-- A visitor comes, and before his greeting is sent, another task sends a line; then the server moves.
abbrev evening : List Move
evening =
    event (accepted (some visitor))
    ∷ event (enqueued (message_for home (codes "dark")))
    ∷ go_on
    ∷ go_on
    ∷ event transmit
    ∷ event transmit
    ∷ taken
    ∷ event (control (reconfigure moved))
    ∷ go_on
    ∷ go_on
    ∷ go_on
    ∷ go_on
    ∷ go_on
    ∷ go_on
    ∷ go_on
    ∷ []

evening_runs :
    (t' : Thread crates) × (done : List Action) × (bounded_run crates sockets
        (busy_thread, at_select)
        evening
      ≡ ok ((t', at_select), done))
unfolding bounded_run fg_colors start_server accept_connection on_accepted disconnect_all
    apply_settings
evening_runs = (_, _, refl)

bounded_run_sound_example :
    (events : List Event) × (run crates sockets busy_thread events
      ≡ ok (evening_runs.0, evening_runs.1))
bounded_run_sound_example =
    bounded_run_sound crates sockets busy_thread evening_runs.0 evening evening_runs.1
      evening_runs.2

-- The same without waiting.
abbrev day : List Event
day =
    receive (message_for home (codes "look"))
    ∷ accepted (some visitor)
    ∷ enqueued (message_for home (codes "dark"))
    ∷ transmit
    ∷ control (reconfigure moved)
    ∷ control shutdown
    ∷ []

day_runs :
    (t' : Thread crates) × (done : List Action) × (run crates sockets busy_thread day
      ≡ ok (t', done))
unfolding run fg_colors start_server
day_runs = (_, _, refl)

day-Fits : Fits crates sockets busy_thread day
unfolding step fg_colors start_server
day-Fits =
    (omega arith, (omega arith, (omega arith, (omega arith, (omega arith, (omega arith, tt))))))

bounded_run_complete_example :
    (ms : List Move) × (bounded_run crates sockets (busy_thread, at_select) ms
      ≡ ok ((day_runs.0, at_select), day_runs.1))
bounded_run_complete_example =
    bounded_run_complete crates sockets busy_thread day_runs.0 day day_runs.1 day-Fits day_runs.2
