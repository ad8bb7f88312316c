-- ===== src/Tests/Running.antt =====
-- A server of src/server.rs with two connections.
use havok_rust.Base.{◌≡◌, refl, codes, true, false, [], ◌∷◌, none, some, nat_eq, list_eq, arith}
use havok_rust.Base.HashMap.{get}
use havok_rust.Net.{SocketAddr, addr_eq}
use havok_rust.Settings.{Settings}
use havok_rust.Ansi.Colors.{filled}
use havok_rust.Connection.Session.{Connection}
use havok_rust.Server.{Server, Sockets, server_static, initialize, get_server, decimal}
use havok_rust.Server.Table.{InSync}
use havok_rust.Server.Thread.{Accepted, Thread}
use havok_rust.Server.Thread.Invariant.{Inv}
use havok_rust.Server.Thread.Address.{Settled}
use havok_rust.Tests.Samples.{term, re, crates, home, away}

abbrev pub sockets : Sockets
sockets = record {
  Socket = SocketAddr;
  parse_addr = λ text. some home;
  new_v4 = some home;
  new_v6 = some home;
  bind = λ socket addr. addr;
  listen = λ socket backlog. some 9;
}

abbrev pub conf : Settings
conf = record {
  debug = false;
  global = record { config_dir = []; data_dir = []; log_file = []; run_mode = [] };
  mud = record {
    hostname = [];
    bind_ip = codes "::";
    port = 4000;
    name = codes "Havok";
    wizlocked = false;
    wizlock_reason = [];
    aws_region = [];
    aws_profile = [];
  };
  dynamodb = record { endpoint = []; use_ssl = false };
  redis = record { host = []; port = 0 };
  encryption = record { endpoint = []; use_ssl = false };
  email = record { mocked = true; domain = []; admin = []; endpoint = []; use_ssl = false };
}

-- The same on another port.
abbrev pub moved : Settings
moved = record conf { mud = record conf.mud { port = 5000 } }

abbrev pub player : SocketAddr → Connection crates
player addr = record {
  txqueue = 0;
  addr = addr;
  ansi_mode = true;
  ansi_colors = filled term re tt;
  rx_process_handle = some 1;
  tx_process_handle = some 2;
  disconnected = false;
  rxsender = some 7;
  usertxsender = some 8;
  userrxsender = some 9;
  hostnames = none;
}

abbrev pub empty_server : Server crates
empty_server = record {
  initialized = true;
  bind_ip = codes "::";
  port = 4000;
  wizlocked = false;
  wizlock_reason = [];
  settings = some conf;
  connections = [];
  wr_streams = [];
  rd_streams = [];
  rd_handles = [];
}

abbrev pub busy_server : Server crates
busy_server = record empty_server {
  connections = (home, player home) ∷ (away, player away) ∷ [];
  wr_streams = (home, 11) ∷ (away, 12) ∷ [];
  rd_streams = (home, 13) ∷ (away, 14) ∷ [];
  rd_handles = (home, 15) ∷ (away, 16) ∷ [];
}

abbrev pub empty_thread : Thread crates
empty_thread = record {
  server = empty_server;
  static = empty_server;
  parser = filled term re tt;
  listener = some 9;
  txsender = 0;
  txqueue = [];
  is_shutdown = false;
}

abbrev pub busy_thread : Thread crates
busy_thread = record empty_thread { server = busy_server }

abbrev pub visitor : Accepted
visitor = record {
  addr = away;
  rd_half = 14;
  wr_half = 12;
  rd_handle = 16;
  rx = 7;
  usertx = 8;
  userrx = 9;
  rxtask = 1;
  txtask = 2;
  dnsresult = none;
}

initialize_runs : get_server crates (some conf) (server_static crates) ≡ empty_server
unfolding get_server initialize
initialize_runs = refl

decimal_runs : decimal 4000 ≡ codes "4000"
unfolding decimal
decimal_runs = refl

pub busy_InSync : InSync crates busy_server
unfolding get
busy_InSync = record { writable = λ a h. ground arith; paired = λ a. ground arith }

pub busy_Inv : Inv crates busy_thread
busy_Inv = record {
  in_sync = busy_InSync;
  filed = (refl, (refl, tt));
  static_empty = record { no_connections = refl; no_wr_streams = refl; no_rd_streams = refl };
}

pub busy_Settled : Settled crates sockets empty_server busy_thread
busy_Settled = record {
  initialized = refl;
  static_is = refl;
  ip_is = refl;
  port_is = refl;
  settings_is = refl;
}
