-- ===== src/Server/Thread/Book.antt =====
-- What the server thread promises, as a book of connections: two partial functions of the address, which
-- know of no order, and of no reading tasks.
pub mod Steps
pub mod Kept
pub mod Queues
pub mod Delivers
pub mod Rounds
pub mod Writes
use havok_rust.Base.{
  ℕ, ◌≡◌, refl, sym, ap, ◌∙◌, Bytes, Bool, true, false, List, [], ◌∷◌, ◌++◌, Option, none, some,
  Outcome, ok, panic, out_of_fuel, ◌>>=◌, if◌then◌else◌, All, Option-cases, inl, inr, Bool-cases,
}
use havok_rust.Base.HashMap.{HashMap, get, insert, remove, get-insert, get-remove}
use havok_rust.Net.{SocketAddr, addr_eq, eq_addr, NetworkMessage}
use havok_rust.Settings.{Settings, reconfigure, shutdown}
use havok_rust.Ansi.Code.{unwrap}
use havok_rust.Ansi.Colors.{AnsiColors, get_colors}
use havok_rust.Connection.Session.{Crates, Connection, new, send_line, start_processing}
use havok_rust.Server.{
  Server, Action, shut_down, write_all, Sockets, send_to, send_message, receive_message, queue_on,
}
use havok_rust.Server.Channel.{is_full}
use havok_rust.Server.Table.{has}
use havok_rust.Server.Thread.{
  Accepted, Event, control, accepted, transmit, receive, enqueued, lagged, Thread, moves,
  on_reconfigure, on_accepted, on_transmit, step, run, welcome, enter,
}

abbrev pub put {ℓ} : {V : Type ℓ} → SocketAddr → V → (SocketAddr → Option V) → SocketAddr → Option V
put a v f b = if eq_addr a b then some v else f b

abbrev pub forget {ℓ} : {V : Type ℓ} → SocketAddr → (SocketAddr → Option V) → SocketAddr → Option V
forget a f b = if eq_addr a b then none else f b

module _ (crates : Crates) where
  pub record Book : Type 0 where
    pub connections : SocketAddr → Option (Connection crates)
    pub streams : SocketAddr → Option ℕ
    pub bind_ip : Bytes
    pub port : ℕ
    pub settings : Option Settings
    pub parser : AnsiColors crates.term crates.re
    pub is_listening : Bool
    pub txsender : ℕ
    pub txqueue : List NetworkMessage
    pub is_shutdown : Bool

  -- The book that a thread keeps.
  abbrev pub book : Thread crates → Book
  book t = record {
    connections = λ a. get a t.server.connections;
    streams = λ a. get a t.server.wr_streams;
    bind_ip = t.server.bind_ip;
    port = t.server.port;
    settings = t.server.settings;
    parser = t.parser;
    is_listening = has t.listener;
    txsender = t.txsender;
    txqueue = t.txqueue;
    is_shutdown = t.is_shutdown;
  }

  abbrev pub Entry : Type 0
  Entry = Outcome (Book × List Action)

  -- Without room for a greeting there is no end of the wait.
  abbrev pub greeted_entry : Bool → Book → Entry
  greeted_entry true b = out_of_fuel
  greeted_entry false b = ok (b, [])

  -- A new connection is entered with its stream, and greeted.
  abbrev pub admit : Accepted → Book → Entry
  admit a b = do
    colors ← get_colors crates.term crates.re b.parser
    let c =
        (start_processing crates (new crates b.txsender a.addr colors) a.rx a.usertx a.userrx
          a.rxtask a.txtask a.dnsresult).connection
    conf ← unwrap b.settings
    greeting ← send_line crates c (welcome conf.mud.name)
    greeted_entry (is_full b.txqueue) (record b {
      connections = put a.addr c b.connections;
      streams = put a.addr a.wr_half b.streams;
      parser = colors;
      txqueue = b.txqueue ++ (greeting ∷ []);
    })

  -- Without a listener, or with an error from it, there is a panic.
  abbrev pub admit_next : Bool → Option Accepted → Book → Entry
  admit_next false result b = panic
  admit_next true none b = panic
  admit_next true (some a) b = admit a b

  -- A message to a stream: the empty one closes it.
  abbrev pub deliver : SocketAddr → Option ℕ → Bytes → Book → Book × List Action
  deliver a none payload b = (b, [])
  deliver a (some item) [] b = (
    record b { connections = forget a b.connections; streams = forget a b.streams },
    shut_down item ∷ [],
  )
  deliver a (some item) (c ∷ payload) b = (b, write_all item (c ∷ payload) ∷ [])

  abbrev pub send_next : List NetworkMessage → Book → Book × List Action
  send_next [] b = (b, [])
  send_next (message ∷ queue) b =
      deliver message.dest (b.streams message.dest) message.payload (record b { txqueue = queue })

  abbrev pub pass_on : Option (Connection crates) → NetworkMessage → List Action
  pass_on none message = []
  pass_on (some c) message = queue_on crates c.rxsender message

  -- An event, which does not move the server.
  abbrev pub book_step : Book → Event → Entry
  book_step b (control shutdown) = ok (record b { is_shutdown = true }, [])
  book_step b (control (reconfigure conf)) = ok (b, [])
  book_step b (accepted result) = admit_next b.is_listening result b
  book_step b transmit = ok (send_next b.txqueue b)
  book_step b (receive message) = ok (b, pass_on (b.connections message.dest) message)
  book_step b lagged = panic
  book_step b (enqueued message) = ok (record b { txqueue = b.txqueue ++ (message ∷ []) }, [])

  abbrev pub book_run : Book → List Event → Entry
  book_run b [] = ok (b, [])
  book_run b (event ∷ events) =
      let rest = (do
        (b', actions) ← book_step b event
        (b'', more) ← book_run b' events
        ok (b'', actions ++ more)) in
      if b.is_shutdown then ok (b, []) else rest
