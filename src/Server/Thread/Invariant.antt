-- ===== src/Server/Thread/Invariant.antt =====
-- What holds of the server thread between two rounds of its loop.
use havok_rust.Base.{
  ℕ, ◌≡◌, refl, inl, inr, Bool, true, false, List, [], ◌∷◌, Option, some, if◌then◌else◌, arith, All,
  ok, Ensures, Ensures-bind, Ensures-ok,
}
use havok_rust.Base.HashMap.{get, insert, remove-All, insert-All}
use havok_rust.Net.{SocketAddr, addr_eq, eq_addr, NetworkMessage}
use havok_rust.Settings.{Settings, reconfigure, shutdown}
use havok_rust.Ansi.Colors.{AnsiColors}
use havok_rust.Connection.Session.{Crates, Connection, new, start_processing}
use havok_rust.Server.{Server, Action, Sockets, initialize, get_server, start_server, send_message}
use havok_rust.Server.Table.{InSync, has-insert, send_message_table, send_message-InSync}
use havok_rust.Server.Thread.{
  Accepted, Event, control, accepted, transmit, receive, enqueued, lagged, Thread, apply_settings,
  on_reconfigure, on_accepted, on_transmit, step, run, renewed, enter,
}
use havok_rust.Server.Thread.Rounds.{
  made, on_accepted-Ensures, on_incoming-Ensures, on_reconfigure-Ensures, run-Ensures,
}

module _ (crates : Crates) where
  -- A connection is filed under its own address.
  abbrev pub Filed : SocketAddr × Connection crates → Type 0
  Filed entry = entry.1.addr ≡ entry.0

  -- A server of which nothing has been accepted.
  pub record IsEmpty (s : Server crates) : Type 0 where
    pub no_connections : s.connections ≡ []
    pub no_wr_streams : s.wr_streams ≡ []
    pub no_rd_streams : s.rd_streams ≡ []

  pub record Inv (t : Thread crates) : Type 0 where
    pub in_sync : InSync crates t.server
    pub filed : All Filed t.server.connections
    pub static_empty : IsEmpty t.static

  pub IsEmpty-InSync : (s : Server crates) → IsEmpty s → InSync crates s
  unfolding get
  IsEmpty-InSync s e = record {
    writable = λ a h. cc (rw (e.no_connections, get) at h);
    paired = λ a. rw (e.no_wr_streams, e.no_rd_streams);
  }

  pub get_server-IsEmpty :
      (conf : Option Settings) (s : Server crates) → IsEmpty s → IsEmpty (get_server crates conf s)
  unfolding get_server initialize
  get_server-IsEmpty conf s e = ground arith

  send_message-Filed :
      (s : Server crates) (message : NetworkMessage)
      → All Filed s.connections
      → All Filed (send_message crates s message).0.connections
  send_message-Filed s message h = elim (send_message_table crates s message) [
    | inl e ↦ rw e h
    | inr e ↦ rw e (remove-All Filed message.dest s.connections h)
  ]

  accepted-InSync :
      (s : Server crates) (a : SocketAddr) (rd wr handle : ℕ) (c : Connection crates)
      → InSync crates s
      → InSync crates (record s {
        rd_streams = insert a rd s.rd_streams;
        wr_streams = insert a wr s.wr_streams;
        rd_handles = insert a handle s.rd_handles;
        connections = insert a c s.connections;
      })
  accepted-InSync s a rd wr handle c v = record {
    writable = λ b h.
        rw (has-insert a b wr s.wr_streams)
          (both (eq_addr a b) _ _ (v.writable b) (rw (has-insert a b c s.connections) at h));
    paired = λ b. rw (has-insert a b wr s.wr_streams, has-insert a b rd s.rd_streams, v.paired b);
  }
    where
      both :
          (x y z : Bool)
          → (y ≡ true → z ≡ true)
          → (if x then true else y) ≡ true
          → (if x then true else z) ≡ true
      both true y z f h = refl
      both false y z f h = f h

module _ (crates : Crates) (sockets : Sockets) where
  abbrev Keeps : Thread crates × List Action → Type 0
  Keeps (t, actions) = Inv crates t

  apply_settings-Inv :
      (conf : Settings) (t : Thread crates)
      → IsEmpty crates t.static
      → Ensures (Inv crates) (apply_settings crates sockets conf t)
  unfolding apply_settings
  apply_settings-Inv conf t e =
      let static = get_server crates (some conf) t.static in
      let empty = get_server-IsEmpty crates (some conf) t.static e in
      Ensures-bind (Inv crates) (start_server crates sockets static)
        (λ listener. ok (record t { static = static; server = static; listener = listener }))
        (λ listener _. record {
          in_sync = IsEmpty-InSync crates static empty;
          filed = rw empty.no_connections tt;
          static_empty = empty;
        })

  on_reconfigure-Inv :
      (conf : Settings) (t : Thread crates)
      → Inv crates t
      → Ensures Keeps (on_reconfigure crates sockets conf t)
  on_reconfigure-Inv conf t v = on_reconfigure-Ensures crates sockets Keeps conf t v (λ u e.
      Ensures-ok (Inv crates) (apply_settings crates sockets conf (renewed crates sockets t))
        (apply_settings-Inv conf (renewed crates sockets t) v.static_empty) e)

  enter-Inv :
      (a : Accepted) (colors : AnsiColors crates.term crates.re) (c : Connection crates)
      (greeting : NetworkMessage) (t : Thread crates)
      → c.addr ≡ a.addr
      → Inv crates t
      → Inv crates (enter crates sockets a colors c greeting t)
  enter-Inv a colors c greeting t e v = record {
    in_sync = accepted-InSync crates t.server a.addr a.rd_half a.wr_half a.rd_handle c v.in_sync;
    filed = insert-All (Filed crates) a.addr c t.server.connections e v.filed;
    static_empty = v.static_empty;
  }

  on_accepted-Inv :
      (a : Accepted) (t : Thread crates)
      → Inv crates t
      → Ensures Keeps (on_accepted crates sockets a t)
  unfolding start_processing new
  on_accepted-Inv a t v =
      on_accepted-Ensures crates sockets Keeps a t
        (λ colors greeting. enter-Inv a colors (made crates sockets t a colors) greeting t refl v)

  on_transmit-Inv :
      (queue : List NetworkMessage) (t : Thread crates)
      → Inv crates t
      → Ensures Keeps (on_transmit crates sockets queue t)
  unfolding on_transmit
  on_transmit-Inv [] t v = v
  on_transmit-Inv (message ∷ queue) t v = record {
    in_sync = send_message-InSync crates t.server message v.in_sync;
    filed = send_message-Filed crates t.server message v.filed;
    static_empty = v.static_empty;
  }

  -- Every event that does not panic keeps the invariant: connections have both their streams, are filed
  -- under their own addresses, and the static server stays without connections.
  pub step-Inv :
      (t : Thread crates) (event : Event)
      → Inv crates t
      → Ensures Keeps (step crates sockets t event)
  unfolding step
  step-Inv t (control shutdown) v = record {
    in_sync = v.in_sync;
    filed = v.filed;
    static_empty = v.static_empty;
  }
  step-Inv t (control (reconfigure conf)) v = on_reconfigure-Inv conf t v
  step-Inv t (accepted result) v =
      on_incoming-Ensures crates sockets Keeps result t (λ a _. on_accepted-Inv a t v)
  step-Inv t transmit v = on_transmit-Inv t.txqueue t v
  step-Inv t (receive message) v = v
  step-Inv t lagged v = tt
  step-Inv t (enqueued message) v = record {
    in_sync = v.in_sync;
    filed = v.filed;
    static_empty = v.static_empty;
  }

  -- From a thread whose connections all have both their streams and are filed under their own addresses,
  -- with no connection in the static server, any events lead to such a thread again, where no step panics
  -- or waits for ever.
  pub run-Inv :
      (t : Thread crates) (events : List Event)
      → Inv crates t
      → Ensures Keeps (run crates sockets t events)
  run-Inv = run-Ensures crates sockets (Inv crates) step-Inv
