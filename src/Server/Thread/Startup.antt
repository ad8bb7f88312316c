-- ===== src/Server/Thread/Startup.antt =====
-- The start of the server thread: the wait for its settings.
use havok_rust.Base.{ℕ, zero, suc, Bool, true, List, [], ◌∷◌, Option, some}
use havok_rust.Settings.{Settings, ControlSignal, shutdown}
use havok_rust.Connection.Session.{Crates}
use havok_rust.Server.{Server, Sockets, server_static, initialize}
use havok_rust.Server.Thread.{Thread}

abbrev pub shutdowns : ℕ → List (Option ControlSignal)
shutdowns zero = []
shutdowns (suc n) = some shutdown ∷ shutdowns n

-- Whether one of them was seen.
abbrev pub seen : ℕ → Bool → Bool
seen zero before = before
seen (suc n) before = seen n true

module _ (crates : Crates) (sockets : Sockets) (conf : Settings) where
  -- The server of the first settings.
  abbrev pub first_server : Server crates
  first_server = initialize crates (server_static crates) (some conf)

  -- The thread with the first settings applied.
  abbrev pub started : Thread crates → Option ℕ → Bool → Thread crates
  started t listener flag = record t {
    static = first_server;
    server = first_server;
    listener = listener;
    is_shutdown = flag;
  }
