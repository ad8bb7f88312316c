-- ===== src/Server/Thread/Orphans.antt =====
-- The receive tasks of connections that the server thread has dropped from its table.
use havok_rust.Base.{
  ℕ, ◌≡◌, ◌≢◌, refl, inl, inr, true, List, [], ◌∷◌, Option, none, some, ok, All, All-append,
  Ensures, Ensures-bind, Ensures-ok, Ensures-if, Option-cases,
}
use havok_rust.Base.HashMap.{HashMap, get, remove-All, insert-All, get-All}
use havok_rust.Net.{SocketAddr, addr_eq, NetworkMessage}
use havok_rust.Settings.{Settings, reconfigure, shutdown}
use havok_rust.Connection.Session.{Crates, Connection, new, start_processing}
use havok_rust.Server.{
  Server, Action, queue_up, Sockets, get_server, start_server, send_message, send_to,
  receive_message, queue_on,
}
use havok_rust.Server.Table.{send_message_table}
use havok_rust.Server.Thread.{
  Accepted, Event, control, accepted, transmit, receive, enqueued, lagged, Thread, apply_settings,
  moves, on_accepted, on_transmit, step, run, renewed, dropped,
}
use havok_rust.Server.Thread.Invariant.{IsEmpty, get_server-IsEmpty}
use havok_rust.Server.Thread.Rounds.{
  made, on_accepted-Ensures, on_incoming-Ensures, on_reconfigure_moved, on_reconfigure-Ensures,
}

-- An action other than to queue for a given receive task.
abbrev pub IsElsewhere : ℕ → Action → Type 0
IsElsewhere rx (queue_up sender message) = sender ≢ rx
IsElsewhere rx _ = Unit

-- An event that does not make a connection with a given receive queue.
abbrev pub IsOther : ℕ → Event → Type 0
IsOther rx (accepted (some a)) = a.rx ≢ rx
IsOther rx _ = Unit

module _ (crates : Crates) (sockets : Sockets) (rx : ℕ) where
  -- A connection with another receive queue, or without one.
  abbrev IsApart : SocketAddr × Connection crates → Type 0
  IsApart entry = entry.1.rxsender ≢ some rx

  queue_on-IsElsewhere :
      (sender : Option ℕ) (message : NetworkMessage)
      → sender ≢ some rx
      → All (IsElsewhere rx) (queue_on crates sender message)
  queue_on-IsElsewhere none message h = tt
  queue_on-IsElsewhere (some sender) message h = ((λ e. h (rw e refl)), tt)

  receive_message-IsElsewhere :
      (s : Server crates) (message : NetworkMessage)
      → All IsApart s.connections
      → All (IsElsewhere rx) (receive_message crates s message)
  unfolding receive_message
  receive_message-IsElsewhere s message h = elim (Option-cases (get message.dest s.connections)) [
    | inl e ↦ rw (e, receive_message) tt
    | inr (c, e) ↦
        rw (e, receive_message)
          (queue_on-IsElsewhere c.rxsender message (get-All IsApart message.dest s.connections h e))
  ]

  send_to-IsElsewhere :
      (s : Server crates) (a : SocketAddr) (item : ℕ) (payload : List ℕ)
      → All (IsElsewhere rx) (send_to crates s a item payload).1
  unfolding send_to
  send_to-IsElsewhere s a item [] = (tt, tt)
  send_to-IsElsewhere s a item (b ∷ payload) = (tt, tt)

  send_message-IsElsewhere :
      (s : Server crates) (message : NetworkMessage)
      → All (IsElsewhere rx) (send_message crates s message).1
  unfolding send_message
  send_message-IsElsewhere s message = elim (Option-cases (get message.dest s.wr_streams)) [
    | inl e ↦ rw (e, send_message) tt
    | inr (item, e) ↦ rw (e, send_message) (send_to-IsElsewhere s message.dest item message.payload)
  ]

  send_message-IsApart :
      (s : Server crates) (message : NetworkMessage)
      → All IsApart s.connections
      → All IsApart (send_message crates s message).0.connections
  send_message-IsApart s message h = elim (send_message_table crates s message) [
    | inl e ↦ rw e h
    | inr e ↦ rw e (remove-All IsApart message.dest s.connections h)
  ]

  -- No connection of the table has the receive queue, and the static server has no connections.
  pub record Apart (t : Thread crates) : Type 0 where
    pub none_has : All IsApart t.server.connections
    pub static_empty : IsEmpty crates t.static

  abbrev Elsewhere : Thread crates × List Action → Type 0
  Elsewhere (t, actions) = Apart t × All (IsElsewhere rx) actions

  apply_settings-Apart :
      (conf : Settings) (t : Thread crates)
      → IsEmpty crates t.static
      → Ensures Apart (apply_settings crates sockets conf t)
  unfolding apply_settings
  apply_settings-Apart conf t e =
      let static = get_server crates (some conf) t.static in
      let empty = get_server-IsEmpty crates (some conf) t.static e in
      Ensures-bind Apart (start_server crates sockets static)
        (λ listener. ok (record t { static = static; server = static; listener = listener }))
        (λ listener _. record { none_has = rw empty.no_connections tt; static_empty = empty })

  dropped-IsElsewhere :
      (streams : HashMap SocketAddr ℕ) → All (IsElsewhere rx) (dropped crates sockets streams)
  dropped-IsElsewhere [] = tt
  dropped-IsElsewhere (entry ∷ streams) = (tt, dropped-IsElsewhere streams)

  applied-Elsewhere :
      (conf : Settings) (t u : Thread crates)
      → IsEmpty crates t.static
      → apply_settings crates sockets conf (renewed crates sockets t) ≡ ok u
      → Elsewhere (u, dropped crates sockets t.server.wr_streams)
  applied-Elsewhere conf t u empty e = (
    Ensures-ok Apart (apply_settings crates sockets conf (renewed crates sockets t))
        (apply_settings-Apart conf (renewed crates sockets t) empty) e,
    dropped-IsElsewhere t.server.wr_streams,
  )

  on_accepted-Elsewhere :
      (a : Accepted) (t : Thread crates)
      → a.rx ≢ rx
      → Apart t
      → Ensures Elsewhere (on_accepted crates sockets a t)
  unfolding start_processing new
  on_accepted-Elsewhere a t other v =
      on_accepted-Ensures crates sockets Elsewhere a t (λ colors greeting. (
        record {
          none_has =
              insert-All IsApart a.addr (made crates sockets t a colors) t.server.connections
                (λ e. other cc) v.none_has;
          static_empty = v.static_empty;
        },
        tt,
      ))

  on_transmit-Elsewhere :
      (queue : List NetworkMessage) (t : Thread crates)
      → Apart t
      → Ensures Elsewhere (on_transmit crates sockets queue t)
  unfolding on_transmit
  on_transmit-Elsewhere [] t v = (v, tt)
  on_transmit-Elsewhere (message ∷ queue) t v = (
    record {
      none_has = send_message-IsApart t.server message v.none_has;
      static_empty = v.static_empty;
    },
    send_message-IsElsewhere t.server message,
  )

  step-Elsewhere :
      (t : Thread crates) (event : Event)
      → IsOther rx event
      → Apart t
      → Ensures Elsewhere (step crates sockets t event)
  unfolding step
  step-Elsewhere t (control shutdown) h v =
      (record { none_has = v.none_has; static_empty = v.static_empty }, tt)
  step-Elsewhere t (control (reconfigure conf)) h v =
      on_reconfigure-Ensures crates sockets Elsewhere conf t (v, tt)
        (λ u e. applied-Elsewhere conf t u v.static_empty e)
  step-Elsewhere t (accepted result) h v =
      on_incoming-Ensures crates sockets Elsewhere result t
        (λ a e. on_accepted-Elsewhere a t (rw e at h) v)
  step-Elsewhere t transmit h v = on_transmit-Elsewhere t.txqueue t v
  step-Elsewhere t (receive message) h v =
      (v, receive_message-IsElsewhere t.server message v.none_has)
  step-Elsewhere t lagged h v = tt
  step-Elsewhere t (enqueued message) h v =
      (record { none_has = v.none_has; static_empty = v.static_empty }, tt)

  abbrev Quiet : Thread crates × List Action → Type 0
  Quiet (t, actions) = All (IsElsewhere rx) actions

  -- One round, and the rounds behind it.
  run_round :
      (t : Thread crates) (event : Event) (events : List Event)
      → Ensures Elsewhere (step crates sockets t event)
      → ((t' : Thread crates) → Apart t' → Ensures Quiet (run crates sockets t' events))
      → Ensures Quiet (run crates sockets t (event ∷ events))
  unfolding run
  run_round t event events now later = Ensures-if Quiet t.is_shutdown _ _ tt (
      Ensures-bind Quiet (step crates sockets t event) _ (λ r s.
        let (apart, first) = Ensures-ok Elsewhere (step crates sockets t event) now s in
        Ensures-bind Quiet (run crates sockets r.0 events) _ (λ r' s'.
          All-append (IsElsewhere rx) r.1 r'.1 first
            (Ensures-ok Quiet (run crates sockets r.0 events) (later r.0 apart) s'))))

  run-Apart :
      (t : Thread crates) (events : List Event)
      → All (IsOther rx) events
      → Apart t
      → Ensures Quiet (run crates sockets t events)
  unfolding run
  run-Apart t [] h v = tt
  run-Apart t (event ∷ events) h v =
      run_round t event events (step-Elsewhere t event h.0 v) (λ t' v'. run-Apart t' events h.1 v')

  -- Let a server thread, whose static server has no connections, get a reconfiguration that moves it to
  -- another address or port, and then any events, of which none gives a new connection the receive queue
  -- `rx`. If no round panics or waits for ever, then none of these rounds queues a message on `rx`,
  -- whichever connection had it before.
  pub run_orphans :
      (conf : Settings) (t : Thread crates) (events : List Event)
      → IsEmpty crates t.static
      → moves crates sockets conf t ≡ true
      → All (IsOther rx) events
      → Ensures
          (λ (r : Thread crates × List Action). All (IsElsewhere rx) r.1)
          (run crates sockets t (control (reconfigure conf) ∷ events))
  unfolding step
  run_orphans conf t events empty e h =
      run_round t (control (reconfigure conf)) events
        (on_reconfigure_moved crates sockets Elsewhere conf t e
          (λ u e'. applied-Elsewhere conf t u empty e'))
        (λ t' v. run-Apart t' events h v)
