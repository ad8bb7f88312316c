-- ===== src/Server/Thread.antt =====
-- src/server.rs, `do_server_thread`: the wait for settings, the rounds of its `select!` loop, and the
-- shutdown. A round is one step here, in which no other task sends; a `send` of the thread itself that finds
-- the transmit channel full waits for ever, which is `out_of_fuel`. That another task waits is not seen here.
pub mod Rounds
pub mod Invariant
pub mod Address
pub mod Shutdown
pub mod Farewell
pub mod HangUp
pub mod Startup
pub mod Welcome
pub mod Lines
pub mod Capacity
pub mod Ending
pub mod Orphans
pub mod Book
pub mod Listening
pub mod Departs
pub mod Bounded
use havok_rust.Base.{
  ℕ, suc, Bytes, codes, Bool, true, false, not, ◌||◌, List, [], ◌∷◌, ◌++◌, Option, none, some,
  Outcome, ok, panic, out_of_fuel, ◌>>=◌, if◌then◌else◌, ◌==◌, equal, nat_eq, list_eq,
}
use havok_rust.Base.HashMap.{HashMap, insert}
use havok_rust.Net.{SocketAddr, addr_eq, NetworkMessage}
use havok_rust.Settings.{Settings, ControlSignal, reconfigure, shutdown}
use havok_rust.Ansi.Code.{unwrap}
use havok_rust.Ansi.Colors.{AnsiColors, get_colors}
use havok_rust.Connection.Session.{Crates, Connection, new, send_line, disconnect, start_processing}
use havok_rust.Server.Channel.{Sending, Turn, is_full, turns}
use havok_rust.Server.{
  shut_down, Server, Action, Sockets, get_server, get_settings, start_server, send_message,
  receive_message,
}

-- What `accept` gave, and the numbers of the new streams, tasks and channels.
pub record Accepted : Type 0 where
  pub addr : SocketAddr
  pub rd_half : ℕ
  pub wr_half : ℕ
  pub rd_handle : ℕ
  pub rx : ℕ
  pub usertx : ℕ
  pub userrx : ℕ
  pub rxtask : ℕ
  pub txtask : ℕ
  pub dnsresult : Option (Option (List Bytes))

-- A branch of the `select!`, and a message that another task puts on the transmit channel. `lagged` is an
-- error of the control channel, as when more than its four signals were sent and not read.
pub data Event : Type 0 where
  control : ControlSignal → Event
  accepted : Option Accepted → Event
  transmit : Event
  receive : NetworkMessage → Event
  enqueued : NetworkMessage → Event
  lagged : Event

-- The variables of the thread, with the statics `SERVER` and `ANSI_PARSER`.
pub record Thread (crates : Crates) : Type 0 where
  pub server : Server crates
  pub static : Server crates
  pub parser : AnsiColors crates.term crates.re
  pub listener : Option ℕ
  pub txsender : ℕ
  pub txqueue : List NetworkMessage
  pub is_shutdown : Bool

abbrev pub reason : Bytes
reason = codes "Server shutting down"

-- "Hi! ... Welcome ... to ..." with the name of the game.
abbrev pub welcome : Bytes → Bytes
welcome name = codes "Hi! $c020PWelcome$c0007 to $c000b" ++ name

module _ (crates : Crates) (sockets : Sockets) where
  abbrev pub Step : Type 0
  Step = Outcome (Thread crates × List Action)

  -- The loops that disconnect every connection: what they send.
  unfoldable pub disconnect_all :
      HashMap SocketAddr (Connection crates) → Outcome (List NetworkMessage)
  unfolding disconnect
  disconnect_all [] = ok []
  disconnect_all ((addr, connection) ∷ rest) = do
    (_, sent) ← disconnect crates connection reason
    later ← disconnect_all rest
    ok (sent ++ later)

  -- `Server::get(Some(new_settings))`, a clone of it, and `start_server`.
  unfoldable pub apply_settings : Settings → Thread crates → Outcome (Thread crates)
  unfolding get_server start_server
  apply_settings conf t = do
    let static = get_server crates (some conf) t.static
    listener ← start_server crates sockets static
    ok (record t { static = static; server = static; listener = listener })

  -- `while !initialized`: the thread behind the signals so far, and whether it is initialized. `none` is an
  -- error of the control channel.
  unfoldable pub wait_settings :
      Thread crates → List (Option ControlSignal) → Outcome (Thread crates × Bool)
  unfolding apply_settings
  wait_settings t [] = ok (t, false)
  wait_settings t (none ∷ signals) = panic
  wait_settings t (some shutdown ∷ signals) =
      wait_settings (record t { is_shutdown = true }) signals
  wait_settings t (some (reconfigure conf) ∷ signals) = do t' ← apply_settings conf t; ok (t', true)

  abbrev pub moves : Settings → Thread crates → Bool
  moves conf t =
      not (equal conf.mud.bind_ip t.server.bind_ip) || not (conf.mud.port == t.server.port)

  -- Behind an old channel, which was emptied and dropped, a new one.
  abbrev pub renewed : Thread crates → Thread crates
  renewed t = record t { txqueue = []; txsender = suc t.txsender }

  -- A write half that is dropped shuts its stream down.
  abbrev pub dropped : HashMap SocketAddr ℕ → List Action
  dropped [] = []
  dropped ((addr, item) ∷ rest) = shut_down item ∷ dropped rest

  -- `Reconfigure` in the main loop. The farewells go on the old channel, which has room for them here; the
  -- old server goes with its streams.
  unfoldable pub on_reconfigure : Settings → Thread crates → Step
  unfolding disconnect_all apply_settings
  on_reconfigure conf t =
      if moves conf t
      then (do
        farewells ← disconnect_all t.server.connections
        t' ← apply_settings conf (renewed t)
        ok (t', dropped t.server.wr_streams))
      else ok (t, [])

  -- The thread with the streams, the reading task and the connection of `a` in its tables, and the
  -- greeting on its way.
  abbrev pub enter :
      Accepted
      → AnsiColors crates.term crates.re
      → Connection crates
      → NetworkMessage
      → Thread crates
      → Thread crates
  enter a colors connection greeting t = record t {
    server = record t.server {
      rd_streams = insert a.addr a.rd_half t.server.rd_streams;
      wr_streams = insert a.addr a.wr_half t.server.wr_streams;
      rd_handles = insert a.addr a.rd_handle t.server.rd_handles;
      connections = insert a.addr connection t.server.connections;
    };
    parser = colors;
    txqueue = t.txqueue ++ (greeting ∷ []);
  }

  abbrev pub greeted_if : Bool → Thread crates → Step
  greeted_if true t = out_of_fuel
  greeted_if false t = ok (t, [])

  -- A new connection: its streams, its reading task, its own tasks, and the welcome, for which the thread
  -- waits if the channel is full, and only the thread reads that.
  unfoldable pub on_accepted : Accepted → Thread crates → Step
  unfolding insert get_colors new send_line start_processing
  on_accepted a t = do
    colors ← get_colors crates.term crates.re t.parser
    let started =
        start_processing crates (new crates t.txsender a.addr colors) a.rx a.usertx a.userrx
          a.rxtask a.txtask a.dnsresult
    conf ← unwrap (get_settings crates t.server)
    greeting ← send_line crates started.connection (welcome conf.mud.name)
    greeted_if (is_full t.txqueue) (enter a colors started.connection greeting t)

  -- `accept_connection`: without a listener it panics.
  unfoldable pub accept_connection : Option ℕ → Option Accepted → Outcome (Option Accepted)
  accept_connection none result = panic
  accept_connection (some listener) result = ok result

  -- `v.unwrap()` of what it gave, and the connection.
  abbrev pub on_incoming : Option Accepted → Thread crates → Step
  on_incoming result t = do r ← accept_connection t.listener result; a ← unwrap r; on_accepted a t

  -- The next message of the transmit channel, if there is one.
  unfoldable pub on_transmit : List NetworkMessage → Thread crates → Step
  unfolding send_message
  on_transmit [] t = ok (t, [])
  on_transmit (message ∷ queue) t =
      let (server, actions) = send_message crates t.server message in
      ok (record t { server = server; txqueue = queue }, actions)

  unfoldable pub step : Thread crates → Event → Step
  unfolding on_reconfigure on_accepted accept_connection on_transmit receive_message
  step t (control shutdown) = ok (record t { is_shutdown = true }, [])
  step t (control (reconfigure conf)) = on_reconfigure conf t
  step t (accepted result) = on_incoming result t
  step t transmit = on_transmit t.txqueue t
  step t (receive message) = ok (t, receive_message crates t.server message)
  step t lagged = panic
  step t (enqueued message) = ok (record t { txqueue = t.txqueue ++ (message ∷ []) }, [])

  -- `while !shutdown`.
  unfoldable pub run : Thread crates → List Event → Step
  unfolding step
  run t [] = ok (t, [])
  run t (event ∷ events) =
      let rest = (do
        (t', actions) ← step t event
        (t'', more) ← run t' events
        ok (t'', actions ++ more)) in
      if t.is_shutdown then ok (t, []) else rest

  -- The closed transmit channel is read to its end.
  unfoldable pub drain_queue : Server crates → List NetworkMessage → Server crates × List Action
  unfolding send_message
  drain_queue s [] = (s, [])
  drain_queue s (message ∷ queue) =
      let (s', actions) = send_message crates s message in
      let (s'', more) = drain_queue s' queue in (s'', actions ++ more)

  abbrev pub drain_if : Thread crates → Sending → Outcome (Server crates × List Action)
  drain_if t (queue, []) = ok (drain_queue t.server queue)
  drain_if t (queue, message ∷ left) = out_of_fuel

  -- Behind the main loop: the farewells are sent, in turns with what other tasks send. The closed channel is
  -- read only behind the last of them.
  unfoldable pub close_down : Thread crates → List Turn → Outcome (Server crates × List Action)
  unfolding disconnect_all drain_queue turns
  close_down t ts = do
    farewells ← disconnect_all t.server.connections
    drain_if t (turns (t.txqueue, farewells) ts)
