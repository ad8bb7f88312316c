-- ===== src/Server/Reader.antt =====
-- src/server.rs, `do_read_thread`: the task that reads from one connection. Its sends on the queue of the
-- server are a list of messages.
use mathlib.Core.List.{map}
use havok_rust.Base.{◌≡◌, ◌≢◌, refl, ap, Bytes, List, [], ◌∷◌, ◌++◌, Option, none, some, All}
use havok_rust.Net.{SocketAddr, NetworkMessage}
use havok_rust.Settings.{ControlSignal, reconfigure, shutdown}
use havok_rust.Connection.Session.{Status, waiting, finished, panicked}

-- What a branch of the `select!` gives: a control signal, `none` if the channel fails, or the bytes that
-- were read, `none` if reading fails.
pub data ReadEvent : Type 0 where
  control : Option ControlSignal → ReadEvent
  read_buf : Option Bytes → ReadEvent

abbrev pub Reading : Type 0
Reading = List NetworkMessage × Status

-- The empty message behind the loop.
abbrev pub ended : SocketAddr → Reading
ended addr = (record { dest = addr; payload = [] } ∷ [], finished)

abbrev pub send_first : NetworkMessage → Reading → Reading
send_first message (later, status) = (message ∷ later, status)

unfoldable pub do_read_thread : SocketAddr → List ReadEvent → Reading
do_read_thread addr [] = ([], waiting)
do_read_thread addr (control none ∷ events) = ([], panicked)
do_read_thread addr (control (some shutdown) ∷ events) = ended addr
do_read_thread addr (control (some (reconfigure conf)) ∷ events) = do_read_thread addr events
do_read_thread addr (read_buf none ∷ events) = ended addr
do_read_thread addr (read_buf (some []) ∷ events) = ended addr
do_read_thread addr (read_buf (some (b ∷ bytes)) ∷ events) =
    send_first (record { dest = addr; payload = b ∷ bytes }) (do_read_thread addr events)

abbrev pub message_for : SocketAddr → Bytes → NetworkMessage
message_for addr bytes = record { dest = addr; payload = bytes }

-- The messages of a task: non-empty ones, and an empty one as the last exactly if it has finished.
abbrev pub Shaped : SocketAddr → Reading → Type 0
Shaped addr (messages, finished) =
    (chunks : List Bytes) × All (λ c. c ≢ []) chunks
    × (messages ≡ map (message_for addr) chunks ++ (message_for addr [] ∷ []))
Shaped addr (messages, _) =
    (chunks : List Bytes) × All (λ c. c ≢ []) chunks × (messages ≡ map (message_for addr) chunks)

Shaped-send_first :
    (addr : SocketAddr) (bytes : Bytes) (r : Reading)
    → bytes ≢ []
    → Shaped addr r
    → Shaped addr (send_first (message_for addr bytes) r)
Shaped-send_first addr bytes (ms, finished) ne s =
    (bytes ∷ s.0, (ne, s.1), ap (◌∷◌ (message_for addr bytes)) s.2)
Shaped-send_first addr bytes (ms, _) ne s =
    (bytes ∷ s.0, (ne, s.1), ap (◌∷◌ (message_for addr bytes)) s.2)

-- Whatever the events are, the task sends non-empty messages for its own address only, and an empty one
-- exactly once and last if it finishes, so that the connection is closed once and after all its data.
pub do_read_thread-Shaped :
    (addr : SocketAddr) (events : List ReadEvent) → Shaped addr (do_read_thread addr events)
unfolding do_read_thread
do_read_thread-Shaped addr [] = ([], tt, refl)
do_read_thread-Shaped addr (control none ∷ events) = ([], tt, refl)
do_read_thread-Shaped addr (control (some shutdown) ∷ events) = ([], tt, refl)
do_read_thread-Shaped addr (control (some (reconfigure conf)) ∷ events) =
    do_read_thread-Shaped addr events
do_read_thread-Shaped addr (read_buf none ∷ events) = ([], tt, refl)
do_read_thread-Shaped addr (read_buf (some []) ∷ events) = ([], tt, refl)
do_read_thread-Shaped addr (read_buf (some (b ∷ bytes)) ∷ events) =
    Shaped-send_first addr (b ∷ bytes) (do_read_thread addr events) (λ e. cc)
      (do_read_thread-Shaped addr events)
