-- ===== src/Tests/Servers.antt =====
-- src/server.rs with two connections.
use mathlib.Core.List.{Sublist}
use havok_rust.Base.{
  inr, ℕ, map, ok, ◌≡◌, refl, Bytes, codes, List, [], ◌∷◌, ◌++◌, none, some, Ensures, if◌then◌else◌,
  nat_eq, list_eq,
}
use havok_rust.Base.HashMap.{get}
use havok_rust.Net.{SocketAddr, NetworkMessage, eq_addr, addr_eq}
use havok_rust.Settings.{reconfigure, shutdown}
use havok_rust.Ansi.Colors.{fg_colors, bg_colors, style_table}
use havok_rust.Ansi.Convert.{parts_of}
use havok_rust.Ansi.Convert.Plain.{visible_or}
use havok_rust.Connection.Session.{Connection, do_rx_process_thread, to_network, finished}
use havok_rust.Server.{
  server_static, Server, Action, shut_down, write_all, queue_up, send_message, get_server,
  start_server,
}
use havok_rust.Server.Table.{send_message_disconnect, send_message_data, writes}
use havok_rust.Server.Reader.{read_buf, message_for, do_read_thread, Shaped, do_read_thread-Shaped}
use havok_rust.Server.Thread.{
  Event, control, accepted, transmit, receive, enqueued, Thread, on_reconfigure, on_accepted,
  welcome, run, close_down, dropped,
}
use havok_rust.Server.Thread.Invariant.{Inv, run-Inv}
use havok_rust.Server.Thread.Address.{Settled, run-Settled, on_reconfigure_ignored}
use havok_rust.Server.Thread.HangUp.{idle, hang_up}
use havok_rust.Server.Thread.Welcome.{connected, on_accepted_enters}
use havok_rust.Server.Channel.{own_turns}
use havok_rust.Tests.Samples.{term_keeps, re, crates, home, away}
use havok_rust.Tests.Running.{
  sockets, conf, moved, player, empty_server, busy_server, empty_thread, busy_thread, visitor,
  busy_InSync, busy_Inv, busy_Settled,
}

abbrev new_thread : Thread crates
new_thread = record empty_thread { server = server_static crates; static = server_static crates }

-- A visitor comes, is greeted, and the server is shut down.
abbrev events : List Event
events = accepted (some visitor) ∷ transmit ∷ control (reconfigure moved) ∷ control shutdown ∷ []

run-Inv_example : Ensures (λ (t, actions). Inv crates t) (run crates sockets busy_thread events)
run-Inv_example = run-Inv crates sockets busy_thread events busy_Inv

run-Settled_example :
    Ensures
      (λ (t, actions). Settled crates sockets empty_server t)
      (run crates sockets busy_thread events)
run-Settled_example = run-Settled crates sockets empty_server busy_thread events busy_Settled

-- The streams of the two players, which are shut down.
abbrev closed : List Action
closed = shut_down 11 ∷ shut_down 12 ∷ []

abbrev back_thread : Thread crates
back_thread = record empty_thread { txsender = 1 }

on_reconfigure_ignored_example :
    Settled crates sockets empty_server back_thread
    × (back_thread.server ≡ empty_server)
    × (back_thread.txqueue ≡ [])
    × (closed ≡ dropped crates sockets busy_server.wr_streams)
unfolding on_reconfigure get_server start_server fg_colors
on_reconfigure_ignored_example =
    on_reconfigure_ignored crates sockets empty_server moved busy_thread back_thread closed
      busy_Settled refl refl

abbrev goodbye : NetworkMessage
goodbye = record { dest = home; payload = [] }

abbrev news : NetworkMessage
news = record { dest = away; payload = codes "news" }

disconnect_runs : send_message crates busy_server goodbye ≡ (
  record busy_server {
    connections = (away, player away) ∷ [];
    wr_streams = (away, 12) ∷ [];
    rd_streams = (away, 14) ∷ [];
  },
  shut_down 11 ∷ [],
)
unfolding send_message
disconnect_runs = refl

send_message_disconnect_example :
    let (s', actions) = send_message crates busy_server goodbye in
    (actions ≡ shut_down 11 ∷ [])
    × ((a : SocketAddr)
        → get a s'.connections ≡ (if eq_addr home a then none else get a busy_server.connections))
    × ((a : SocketAddr)
        → get a s'.wr_streams ≡ (if eq_addr home a then none else get a busy_server.wr_streams))
    × ((a : SocketAddr)
        → get a s'.rd_streams ≡ (if eq_addr home a then none else get a busy_server.rd_streams))
    × (s'.rd_handles ≡ busy_server.rd_handles)
unfolding get
send_message_disconnect_example = send_message_disconnect crates busy_server goodbye 11 refl refl

news_is_written :
    send_message crates busy_server news
    ≡ (busy_server, writes crates (get away busy_server.wr_streams) (codes "news"))
news_is_written = send_message_data crates busy_server news (λ e. cc)

abbrev closed_server : Server crates
closed_server = record busy_server { connections = []; wr_streams = []; rd_streams = [] }

abbrev farewell : Bytes
farewell = (27 ∷ 37 ∷ 40 ∷ codes "Server shutting down\r\n") ++ (27 ∷ [])

abbrev farewells : List Action
farewells = write_all 11 farewell ∷ shut_down 11 ∷ write_all 12 farewell ∷ shut_down 12 ∷ []

close_down_runs :
    close_down crates sockets busy_thread (own_turns 4) ≡ ok (closed_server, farewells)
unfolding close_down fg_colors bg_colors style_table
close_down_runs = refl

hang_up_example :
    (item : ℕ) × (line : Bytes) × (t' : Thread crates) × (do_rx_process_thread crates
        (player home)
        (codes "unfinished")
        (map some (do_read_thread home (read_buf (some []) ∷ [])).0)
      ≡ (to_network (message_for home line) ∷ to_network (message_for home []) ∷ [], finished))
    × (run crates sockets (idle crates sockets busy_thread) (
          map receive (do_read_thread home (read_buf (some []) ∷ [])).0
          ++ (enqueued (message_for home line)
              ∷ enqueued (message_for home [])
              ∷ transmit
              ∷ transmit
              ∷ []))
        ≡ ok (t', queue_up 7 (message_for home []) ∷ write_all item line ∷ shut_down item ∷ []))
    × (get home busy_thread.server.wr_streams ≡ some item)
    × (get home t'.server.connections ≡ none)
unfolding parts_of get
hang_up_example =
    hang_up crates sockets term_keeps tt busy_thread (player home) 7 (codes "unfinished") [] refl
      busy_InSync (refl, refl) refl refl

abbrev greeted : Bytes
greeted = welcome (codes "Havok") ++ codes "\r\n"

abbrev visiting : Connection crates
visiting = connected crates sockets tt empty_thread visitor

on_accepted_enters_example :
    (t' : Thread crates) × (line : Bytes) × (on_accepted crates sockets visitor empty_thread
      ≡ ok (t', []))
    × ((j : SocketAddr)
        → get j t'.server.connections
          ≡ (if eq_addr away j then some visiting else get j empty_server.connections))
    × ((j : SocketAddr)
        → get j t'.server.wr_streams
          ≡ (if eq_addr away j then some 12 else get j empty_server.wr_streams))
    × ((j : SocketAddr)
        → get j t'.server.rd_streams
          ≡ (if eq_addr away j then some 14 else get j empty_server.rd_streams))
    × (visiting.addr ≡ away)
    × (visiting.rxsender ≡ some 7)
    × (t'.txqueue ≡ [] ++ (record { dest = away; payload = line } ∷ []))
    × Sublist (visible_or greeted (parts_of (re.captures_iter tt greeted))) line
unfolding parts_of
on_accepted_enters_example =
    on_accepted_enters crates sockets tt term_keeps visitor empty_thread conf refl (inr refl) refl
      refl tt

reading_ends :
    Shaped home (do_read_thread home (read_buf (some (codes "hi")) ∷ read_buf (some []) ∷ []))
reading_ends = do_read_thread-Shaped home (read_buf (some (codes "hi")) ∷ read_buf (some []) ∷ [])
