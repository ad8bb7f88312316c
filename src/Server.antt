-- ===== src/Server.antt =====
-- src/server.rs: the table of connections and its operations. Streams, tasks and channels of tokio go by
-- numbers, and what the server does with them is a list of actions.
pub mod Thread
pub mod Reader
pub mod Channel
pub mod Table
use havok_rust.Base.{
  ℕ, ◌+◌, ◌/◌, ◌%◌, zero, suc, Bytes, codes, Bool, true, false, List, [], ◌∷◌, ◌++◌, Option, none,
  some, Outcome, ok, panic, ◌>>=◌, if◌then◌else◌, ◌==◌,
}
use havok_rust.Base.HashMap.{HashMap, get, insert, remove}
use havok_rust.Net.{IpAddr, v4, v6, SocketAddr, addr_eq, NetworkMessage}
use havok_rust.Settings.{Settings}
use havok_rust.Connection.Session.{Crates, Connection}
use havok_rust.Ansi.Code.{unwrap}

-- `struct Server`.
pub record Server (crates : Crates) : Type 0 where
  pub initialized : Bool
  pub bind_ip : Bytes
  pub port : ℕ
  pub wizlocked : Bool
  pub wizlock_reason : Bytes
  pub settings : Option Settings
  pub connections : HashMap SocketAddr (Connection crates)
  pub wr_streams : HashMap SocketAddr ℕ
  pub rd_streams : HashMap SocketAddr ℕ
  pub rd_handles : HashMap SocketAddr ℕ

-- `stream.shutdown()`, `stream.write_all(data)`, and a send on a connection's receive queue.
pub data Action : Type 0 where
  shut_down : ℕ → Action
  write_all : ℕ → Bytes → Action
  queue_up : ℕ → NetworkMessage → Action

-- `socket2` behind tokio, and `parse` of an address; `none` is an error.
pub record Sockets : Type 1 where
  pub Socket : Type 0
  pub parse_addr : Bytes → Option SocketAddr
  pub new_v4 : Option Socket
  pub new_v6 : Option Socket
  pub bind : Socket → SocketAddr → Socket
  pub listen : Socket → ℕ → Option ℕ

-- The decimal digits of a number, in front of `rest`.
unfoldable pub decimal_onto : ℕ → ℕ → Bytes → Bytes
decimal_onto zero n rest = rest
decimal_onto (suc fuel) n rest =
    let digit = b'0' + n % 10 in
    let more = decimal_onto fuel (n / 10) (digit ∷ rest) in
    if n / 10 == 0 then digit ∷ rest else more

-- A `u16` has five digits at most.
unfoldable pub decimal : ℕ → Bytes
unfolding decimal_onto
decimal n = decimal_onto 5 n []

module _ (crates : Crates) where
  -- The initial value of the static `SERVER`.
  abbrev pub server_static : Server crates
  server_static = record {
    initialized = false;
    bind_ip = [];
    port = 0;
    wizlocked = false;
    wizlock_reason = [];
    settings = none;
    connections = [];
    wr_streams = [];
    rd_streams = [];
    rd_handles = [];
  }

  unfoldable pub initialize : Server crates → Option Settings → Server crates
  initialize s none = s
  initialize s (some conf) = record s {
    bind_ip = conf.mud.bind_ip;
    port = conf.mud.port;
    wizlocked = conf.mud.wizlocked;
    wizlock_reason = conf.mud.wizlock_reason;
    settings = some conf;
    connections = [];
    wr_streams = [];
    rd_streams = [];
    rd_handles = [];
    initialized = true;
  }

  -- `Server::get`: what `SERVER` holds afterwards. The callers clone it.
  unfoldable pub get_server : Option Settings → Server crates → Server crates
  unfolding initialize
  get_server settings s = if s.initialized then s else initialize s settings

  unfoldable pub new_socket : (sockets : Sockets) → IpAddr → Outcome sockets.Socket
  new_socket sockets (v4 _) = unwrap sockets.new_v4
  new_socket sockets (v6 _) = unwrap sockets.new_v6

  -- Without settings there is no listener. A failure to bind is not looked at.
  unfoldable pub start_server : Sockets → Server crates → Outcome (Option ℕ)
  unfolding new_socket decimal
  start_server sockets s = elim s.settings [
    | none ↦ ok none
    | some _ ↦ do
      bind_addr ← unwrap (sockets.parse_addr (s.bind_ip ++ (codes ":" ++ decimal s.port)))
      socket ← new_socket sockets bind_addr.ip
      listener ← unwrap (sockets.listen (sockets.bind socket bind_addr) 1024)
      ok (some listener)
  ]

  -- Behind `wr_streams.get_mut`, which gave the stream `item`.
  unfoldable pub send_to : Server crates → SocketAddr → ℕ → Bytes → Server crates × List Action
  unfolding remove
  send_to s addr item [] = (
    record s {
      wr_streams = remove addr s.wr_streams;
      rd_streams = remove addr s.rd_streams;
      connections = remove addr s.connections;
    },
    shut_down item ∷ [],
  )
  send_to s addr item (b ∷ msgdata) = (s, write_all item (b ∷ msgdata) ∷ [])

  unfoldable pub send_message : Server crates → NetworkMessage → Server crates × List Action
  unfolding send_to get
  send_message s message = elim (get message.dest s.wr_streams) [
    | none ↦ (s, [])
    | some item ↦ send_to s message.dest item message.payload
  ]

  abbrev pub queue_on : Option ℕ → NetworkMessage → List Action
  queue_on none message = []
  queue_on (some sender) message = queue_up sender message ∷ []

  abbrev pub get_settings : Server crates → Option Settings
  get_settings s = s.settings

  unfoldable pub receive_message : Server crates → NetworkMessage → List Action
  unfolding get
  receive_message s message = elim (get message.dest s.connections) [
    | none ↦ []
    | some item ↦ queue_on item.rxsender message
  ]
