-- ===== src/Server/Thread/HangUp.antt =====
-- The way of a closed connection through its tasks and the server: the reading task, the server's receive
-- queue, the receive task of the connection, and the server's transmit queue.
use mathlib.Core.List.{Sublist, eq-nil_of_sublist-nil}
use havok_rust.Base.{
  ℕ, ◌≡◌, ◌≢◌, refl, Bytes, codes, true, false, List, [], ◌∷◌, ◌++◌, map, none, some, ok, ◌∙◌,
  append-nil,
}
use havok_rust.Base.HashMap.{get}
use havok_rust.Net.{addr_eq, NetworkMessage}
use havok_rust.Ansi.Colors.{filled}
use havok_rust.Ansi.Convert.{parts_of}
use havok_rust.Connection.Session.{Crates, Connection, to_network, finished, do_rx_process_thread}
use havok_rust.Connection.Session.Sends.{disconnect_sends}
use havok_rust.Connection.Session.Stream.{do_rx_process_thread_empty}
use havok_rust.Server.{
  Server, queue_up, write_all, shut_down, Sockets, send_message, receive_message,
}
use havok_rust.Server.Reader.{ReadEvent, read_buf, do_read_thread, message_for}
use havok_rust.Server.Table.{InSync, send_message_data, send_message_disconnect}
use havok_rust.Server.Thread.{Thread, receive, enqueued, transmit, run}
use havok_rust.Server.Thread.Shutdown.{send_message_closes, has-some}

crlf_held : (line : Bytes) → Sublist (codes "\r\n") line → line ≢ []
crlf_held [] h e = cc (eq-nil_of_sublist-nil h)
crlf_held (b ∷ line) h e = cc

module _ (crates : Crates) (sockets : Sockets) where
  -- The thread in its loop, with nothing to send.
  abbrev pub idle : Thread crates → Thread crates
  idle t = record t { txqueue = []; is_shutdown = false }

  pub receive_message_known :
      (s : Server crates) (message : NetworkMessage) (c : Connection crates) (rx : ℕ)
      → get message.dest s.connections ≡ some c
      → c.rxsender ≡ some rx
      → receive_message crates s message ≡ queue_up rx message ∷ []
  unfolding receive_message
  receive_message_known s message c rx there sender = rw (there, receive_message, sender)

  module _
      (keeps : (style : crates.term.Style) (text : Bytes)
        → Sublist text (crates.term.paint style text))
      (regex : crates.re.Regex) where
    -- What the receive task of a connection sends when its stream is closed.
    hang_up_rx :
        (c : Connection crates) (buffer : Bytes) (msg : NetworkMessage)
        → (c.ansi_mode ≡ true) × (c.ansi_colors ≡ filled crates.term crates.re regex)
        → parts_of (crates.re.captures_iter regex (codes "\r\n")) ≡ []
        → msg.payload ≡ []
        → (line : Bytes) × (line ≢ [])
          × (do_rx_process_thread crates c buffer (some msg ∷ []) ≡ (
            to_network (message_for c.addr line) ∷ to_network (message_for c.addr []) ∷ [],
            finished,
          ))
    hang_up_rx c buffer msg colored unmatched e =
        let (line, told, sub) =
          disconnect_sends crates keeps regex c [] colored.0 colored.1 unmatched in
        (
          line,
          crlf_held line sub,
          do_rx_process_thread_empty crates c buffer msg [] e ∙ rw told refl,
        )

  -- The rounds of the server thread for the closed stream of `c`.
  hang_up_run :
      (t : Thread crates) (c : Connection crates) (rx item : ℕ) (line : Bytes)
      → line ≢ []
      → get c.addr t.server.connections ≡ some c
      → c.rxsender ≡ some rx
      → get c.addr t.server.wr_streams ≡ some item
      → run crates sockets (idle t) (
          receive (message_for c.addr [])
          ∷ enqueued (message_for c.addr line)
          ∷ enqueued (message_for c.addr [])
          ∷ transmit
          ∷ transmit
          ∷ [])
        ≡ ok (
          record (idle t) { server = (send_message crates t.server (message_for c.addr [])).0 },
          queue_up rx (message_for c.addr [])
              ∷ write_all item line
              ∷ (send_message crates t.server (message_for c.addr [])).1,
        )
  unfolding run
  hang_up_run t c rx item line ne there sender stream =
      rw
        (
          receive_message_known t.server (message_for c.addr []) c rx there sender,
          send_message_data crates t.server (message_for c.addr line) ne,
          stream,
          append-nil (send_message crates t.server (message_for c.addr [])).1,
        )
        refl

  -- Let painting keep the text, and let the connection `c` stand in the tables of a server thread that has
  -- nothing to send, with its receive queue, ANSI mode and filled colour tables, in which the pattern does
  -- not match a line end. At the end of its input the reading task sends one message. On that message the
  -- receive task, whatever is in its buffer, sends a line and an empty message and ends. When the server
  -- thread receives the one and transmits the others it does not panic: it queues the message for the
  -- receive task, writes the line to the stream that the table has for the address of the connection and
  -- shuts that stream down, and the connection is gone from its table.
  pub hang_up :
      (keeps : (style : crates.term.Style) (text : Bytes)
        → Sublist text (crates.term.paint style text))
      (regex : crates.re.Regex) (t : Thread crates) (c : Connection crates) (rx : ℕ)
      (buffer : Bytes) (events : List ReadEvent)
      → parts_of (crates.re.captures_iter regex (codes "\r\n")) ≡ []
      → InSync crates t.server
      → (c.ansi_mode ≡ true) × (c.ansi_colors ≡ filled crates.term crates.re regex)
      → get c.addr t.server.connections ≡ some c
      → c.rxsender ≡ some rx
      → (item : ℕ) × (line : Bytes) × (t' : Thread crates) × (do_rx_process_thread crates c buffer
            (map some (do_read_thread c.addr (read_buf (some []) ∷ events)).0)
          ≡ (
            to_network (message_for c.addr line) ∷ to_network (message_for c.addr []) ∷ [],
            finished,
          ))
        × (run crates sockets (idle t) (
              map receive (do_read_thread c.addr (read_buf (some []) ∷ events)).0
              ++ (enqueued (message_for c.addr line)
                  ∷ enqueued (message_for c.addr [])
                  ∷ transmit
                  ∷ transmit
                  ∷ []))
            ≡ ok (
              t',
              queue_up rx (message_for c.addr []) ∷ write_all item line ∷ shut_down item ∷ [],
            ))
        × (get c.addr t.server.wr_streams ≡ some item)
        × (get c.addr t'.server.connections ≡ none)
  unfolding do_read_thread
  hang_up keeps regex t c rx buffer events unmatched v colored there sender =
      let (line, ne, heard) =
        hang_up_rx keeps regex c buffer (message_for c.addr []) colored unmatched refl in
      let (item, stream) =
        has-some crates (get c.addr t.server.wr_streams) (v.writable c.addr (rw there)) in
      let shut =
        (send_message_disconnect crates t.server (message_for c.addr []) item stream refl).0 in
      (
        item,
        line,
        record (idle t) { server = (send_message crates t.server (message_for c.addr [])).0 },
        heard,
        hang_up_run t c rx item line ne there sender stream ∙ rw shut refl,
        stream,
        send_message_closes crates t.server (message_for c.addr []) c.addr v refl refl,
      )
