-- ===== src/Server/Thread/Lines.antt =====
-- The way of a player's lines: the reading task, the server's receive queue, and the receive task of the
-- connection, up to the user channel.
use havok_rust.Base.{
  ℕ, ◌≡◌, ◌≢◌, refl, ap, ◌∙◌, Bytes, false, List, [], ◌∷◌, ◌++◌, map, none, some, ok, All, Free,
}
use havok_rust.Base.HashMap.{get}
use havok_rust.Net.{SocketAddr, addr_eq, NetworkMessage}
use havok_rust.Connection.Telnet.Grammar.{Item, encode}
use havok_rust.Connection.Lines.{cr}
use havok_rust.Connection.Lines.Scan.{find, seek}
use havok_rust.Connection.Receive.Chunks.{message_of, with_crlf}
use havok_rust.Connection.Session.{Crates, Connection, to_user, waiting, do_rx_process_thread}
use havok_rust.Connection.Session.Stream.{all_texts, arrive}
use havok_rust.Connection.Session.Typed.{IsPart, do_rx_process_thread-typed}
use havok_rust.Server.{Action, queue_up, Sockets}
use havok_rust.Server.Reader.{ReadEvent, read_buf, do_read_thread, message_for, send_first}
use havok_rust.Server.Thread.{Thread, Event, receive, step, run}
use havok_rust.Server.Thread.HangUp.{receive_message_known}
use havok_rust.Server.Thread.Rounds.{run_going}

-- The bytes of the chunks arrive, one chunk in a read.
abbrev pub reads : List (List Item) → List ReadEvent
reads [] = []
reads (chunk ∷ chunks) = read_buf (some (encode chunk)) ∷ reads chunks

read_chunk :
    (addr : SocketAddr) (bytes : Bytes) (events : List ReadEvent)
    → bytes ≢ []
    → do_read_thread addr (read_buf (some bytes) ∷ events)
      ≡ send_first (message_for addr bytes) (do_read_thread addr events)
unfolding do_read_thread
read_chunk addr [] events ne = absurd (ne refl)
read_chunk addr (b ∷ bytes) events ne = refl

read_chunks :
    (addr : SocketAddr) (chunks : List (List Item))
    → All IsPart chunks
    → do_read_thread addr (reads chunks) ≡ (map (message_for addr) (map encode chunks), waiting)
unfolding do_read_thread
read_chunks addr [] h = refl
read_chunks addr (chunk ∷ chunks) h =
    read_chunk addr (encode chunk) (reads chunks) h.0.1
    ∙ ap (send_first (message_for addr (encode chunk))) (read_chunks addr chunks h.1)

arrive-map :
    (addr : SocketAddr) (chunks : List (List Item))
    → map some (map (message_for addr) (map encode chunks)) ≡ arrive addr chunks
arrive-map addr [] = refl
arrive-map addr (chunk ∷ chunks) =
    ap (◌∷◌ (some (message_for addr (encode chunk)))) (arrive-map addr chunks)

module _ (crates : Crates) (sockets : Sockets) where
  receive_step :
      (t : Thread crates) (c : Connection crates) (rx : ℕ) (payload : Bytes)
      → get c.addr t.server.connections ≡ some c
      → c.rxsender ≡ some rx
      → step crates sockets t (receive (message_for c.addr payload))
        ≡ ok (t, queue_up rx (message_for c.addr payload) ∷ [])
  unfolding step
  receive_step t c rx payload there sender =
      ap (λ (actions : List Action). ok (t, actions))
        (receive_message_known crates sockets t.server (message_for c.addr payload) c rx there
          sender)

  -- A round that leaves the thread as it is.
  run_quiet :
      (t : Thread crates) (event : Event) (events : List Event) (now more : List Action)
      → t.is_shutdown ≡ false
      → step crates sockets t event ≡ ok (t, now)
      → run crates sockets t events ≡ ok (t, more)
      → run crates sockets t (event ∷ events) ≡ ok (t, now ++ more)
  run_quiet t event events now more going s m =
      run_going crates sockets t event events going ∙ rw (s, m) refl

  receives :
      (t : Thread crates) (c : Connection crates) (rx : ℕ) (payloads : List Bytes)
      → get c.addr t.server.connections ≡ some c
      → c.rxsender ≡ some rx
      → t.is_shutdown ≡ false
      → run crates sockets t (map receive (map (message_for c.addr) payloads))
        ≡ ok (t, map (queue_up rx) (map (message_for c.addr) payloads))
  unfolding run
  receives t c rx [] there sender going = refl
  receives t c rx (p ∷ ps) there sender going =
      run_quiet t (receive (message_for c.addr p)) (map receive (map (message_for c.addr) ps))
        (queue_up rx (message_for c.addr p) ∷ []) (map (queue_up rx) (map (message_for c.addr) ps))
        going (receive_step t c rx p there sender) (receives t c rx ps there sender going)

  -- Let the reading task of a connection that is in the table read chunks of a telnet stream, none empty,
  -- that carry lines without CR, each with CR LF behind it, and a tail without a complete line. It sends a
  -- message for each chunk. The server thread, while it runs, receives them without a change to its state,
  -- and queues each for the receive task; that task, with its buffer empty at first, sends to the user
  -- channel one message for each line, in order, with the line's backspaces carried out, sends nothing else,
  -- and waits for more. So it does however the lines are cut into chunks, between a letter and the
  -- backspace that takes it back too.
  pub lines_arrive :
      (t : Thread crates) (c receiver : Connection crates) (rx : ℕ) (chunks : List (List Item))
      (lines : List Bytes) (tail : Bytes)
      → All IsPart chunks
      → all_texts chunks ≡ with_crlf crates.from_utf8_lossy lines tail
      → All (Free cr) lines
      → find seek 0 tail ≡ none
      → get c.addr t.server.connections ≡ some c
      → c.rxsender ≡ some rx
      → t.is_shutdown ≡ false
      → (messages : List NetworkMessage) × (do_read_thread c.addr (reads chunks)
          ≡ (messages, waiting))
        × (run crates sockets t (map receive messages) ≡ ok (t, map (queue_up rx) messages))
        × (do_rx_process_thread crates receiver [] (map some messages)
            ≡ (map to_user (map (message_of crates.from_utf8_lossy) lines), waiting))
  unfolding find
  lines_arrive t c receiver rx chunks lines tail cut carry free open_tail there sender going = (
    map (message_for c.addr) (map encode chunks),
    read_chunks c.addr chunks cut,
    receives t c rx (map encode chunks) there sender going,
    rw (arrive-map c.addr chunks) (
        do_rx_process_thread-typed crates receiver chunks lines tail [] c.addr cut free open_tail
          refl carry),
  )
