-- ===== src/Server/Thread/Address.antt =====
-- What a reconfiguration does to the address that the server listens on.
use havok_rust.Base.{
  ◌≡◌, refl, ap, ◌∙◌, Bool, true, List, [], ◌∷◌, Option, some, ok, Ensures, Ensures-bind,
  Ensures-ok, bind-eq-ok, if◌then◌else◌, inl, inr,
}
use havok_rust.Settings.{Settings, reconfigure, shutdown}
use havok_rust.Net.{NetworkMessage}
use havok_rust.Connection.Session.{Crates}
use havok_rust.Server.{Server, Action, Sockets, initialize, get_server, start_server, send_message}
use havok_rust.Server.Table.{without, send_message_table}
use havok_rust.Server.Thread.{
  Accepted, Event, control, accepted, transmit, receive, enqueued, lagged, Thread, disconnect_all,
  apply_settings, moves, on_reconfigure, on_accepted, on_transmit, step, run, renewed, dropped,
  enter,
}
use havok_rust.Server.Thread.Rounds.{
  made, on_accepted-Ensures, on_incoming-Ensures, on_reconfigure-Ensures, run-Ensures,
}

module _ (crates : Crates) (sockets : Sockets) where
  -- `SERVER` is initialized as `first`, and the thread's copy agrees with it but for its tables.
  pub record Settled (first : Server crates) (t : Thread crates) : Type 0 where
    pub initialized : first.initialized ≡ true
    pub static_is : t.static ≡ first
    pub ip_is : t.server.bind_ip ≡ first.bind_ip
    pub port_is : t.server.port ≡ first.port
    pub settings_is : t.server.settings ≡ first.settings

  -- Once it is initialized, `Server::get` does not look at the settings that it is given.
  pub get_server_again :
      (s : Server crates) (conf : Option Settings)
      → s.initialized ≡ true
      → get_server crates conf s ≡ s
  unfolding get_server
  get_server_again s conf e = ap (λ (b : Bool). if b then s else initialize crates s conf) e

  module _ (first : Server crates) where
    abbrev Keeps : Thread crates × List Action → Type 0
    Keeps (t, actions) = Settled first t

    -- Settings that are applied again put the first ones back.
    apply_settings_again :
        (conf : Settings) (t : Thread crates)
        → Settled first t
        → Ensures
            (λ t'. Settled first t' × (t'.server ≡ first) × (t'.txqueue ≡ t.txqueue))
            (apply_settings crates sockets conf t)
    unfolding apply_settings
    apply_settings_again conf t v =
        let static = get_server crates (some conf) t.static in
        let same : static ≡ first =
          get_server_again t.static (some conf)
            (ap (λ (s : Server crates). s.initialized) v.static_is ∙ v.initialized)
          ∙ v.static_is in
        Ensures-bind (λ t'. Settled first t' × (t'.server ≡ first) × (t'.txqueue ≡ t.txqueue))
          (start_server crates sockets static)
          (λ listener. ok (record t { static = static; server = static; listener = listener }))
          (λ listener _. (
            record {
              initialized = v.initialized;
              static_is = same;
              ip_is = ap (λ (s : Server crates). s.bind_ip) same;
              port_is = ap (λ (s : Server crates). s.port) same;
              settings_is = ap (λ (s : Server crates). s.settings) same;
            },
            same,
            refl,
          ))

    -- On a running server, settings with another address or port are not taken over: where the round comes
    -- to its end, the thread goes back to the first server as it was, with its address, and its transmit
    -- channel is empty. All that is done to the streams is that each that the thread had is shut down;
    -- nothing is written, and so no farewell.
    pub on_reconfigure_ignored :
        (conf : Settings) (t t' : Thread crates) (actions : List Action)
        → Settled first t
        → moves crates sockets conf t ≡ true
        → on_reconfigure crates sockets conf t ≡ ok (t', actions)
        → Settled first t'
          × (t'.server ≡ first)
          × (t'.txqueue ≡ [])
          × (actions ≡ dropped crates sockets t.server.wr_streams)
    unfolding on_reconfigure
    on_reconfigure_ignored conf t t' actions v m e =
        let (_, _, applied) =
          bind-eq-ok (disconnect_all crates sockets t.server.connections) _ (rw m at e) in
        let (u, applied', last) =
          bind-eq-ok (apply_settings crates sockets conf (renewed crates sockets t)) _ applied in
        let kept : Settled first u × (u.server ≡ first) × (u.txqueue ≡ []) =
          Ensures-ok _ (apply_settings crates sockets conf (renewed crates sockets t))
            (apply_settings_again conf (renewed crates sockets t) (record {
              initialized = v.initialized;
              static_is = v.static_is;
              ip_is = v.ip_is;
              port_is = v.port_is;
              settings_is = v.settings_is;
            }))
            applied' in
        let same : u ≡ t' = cc in
        let only_shut : actions ≡ dropped crates sockets t.server.wr_streams = cc in
        (rw (← same) kept.0, rw (← same) kept.1, rw (← same) kept.2, only_shut)

    send_message-Settled :
        (t : Thread crates) (message : NetworkMessage) (queue : List NetworkMessage)
        → Settled first t
        → Settled first
            (record t { server = (send_message crates t.server message).0; txqueue = queue })
    send_message-Settled t message queue v = elim (send_message_table crates t.server message) [
      | inl e ↦ after t.server e v.ip_is v.port_is v.settings_is
      | inr e ↦ after (without crates message.dest t.server) e v.ip_is v.port_is v.settings_is
    ]
      where
        after :
            (s : Server crates)
            → (send_message crates t.server message).0 ≡ s
            → s.bind_ip ≡ first.bind_ip
            → s.port ≡ first.port
            → s.settings ≡ first.settings
            → Settled first
                (record t { server = (send_message crates t.server message).0; txqueue = queue })
        after s e i p c = record {
          initialized = v.initialized;
          static_is = v.static_is;
          ip_is = ap (λ (r : Server crates). r.bind_ip) e ∙ i;
          port_is = ap (λ (r : Server crates). r.port) e ∙ p;
          settings_is = ap (λ (r : Server crates). r.settings) e ∙ c;
        }

    -- A thread with other tables, queue or flag is settled as before.
    same_server :
        (t u : Thread crates)
        → Settled first t
        → u.static ≡ t.static
        → u.server.bind_ip ≡ t.server.bind_ip
        → u.server.port ≡ t.server.port
        → u.server.settings ≡ t.server.settings
        → Settled first u
    same_server t u v s i p c = record {
      initialized = v.initialized;
      static_is = s ∙ v.static_is;
      ip_is = i ∙ v.ip_is;
      port_is = p ∙ v.port_is;
      settings_is = c ∙ v.settings_is;
    }

    on_reconfigure-Settled :
        (conf : Settings) (t : Thread crates)
        → Settled first t
        → Ensures Keeps (on_reconfigure crates sockets conf t)
    on_reconfigure-Settled conf t v =
        let empty = renewed crates sockets t in
        on_reconfigure-Ensures crates sockets Keeps conf t v (λ u e.
          (Ensures-ok _ (apply_settings crates sockets conf empty)
            (apply_settings_again conf empty (same_server t empty v refl refl refl refl)) e).0)

    on_accepted-Settled :
        (a : Accepted) (t : Thread crates)
        → Settled first t
        → Ensures Keeps (on_accepted crates sockets a t)
    on_accepted-Settled a t v = on_accepted-Ensures crates sockets Keeps a t (λ colors greeting.
        same_server t (enter crates sockets a colors (made crates sockets t a colors) greeting t) v
          refl refl refl refl)

    on_transmit-Settled :
        (queue : List NetworkMessage) (t : Thread crates)
        → Settled first t
        → Ensures Keeps (on_transmit crates sockets queue t)
    unfolding on_transmit
    on_transmit-Settled [] t v = v
    on_transmit-Settled (message ∷ queue) t v = send_message-Settled t message queue v

    step-Settled :
        (t : Thread crates) (event : Event)
        → Settled first t
        → Ensures Keeps (step crates sockets t event)
    unfolding step
    step-Settled t (control shutdown) v = same_server t _ v refl refl refl refl
    step-Settled t (control (reconfigure conf)) v = on_reconfigure-Settled conf t v
    step-Settled t (accepted result) v =
        on_incoming-Ensures crates sockets Keeps result t (λ a _. on_accepted-Settled a t v)
    step-Settled t transmit v = on_transmit-Settled t.txqueue t v
    step-Settled t (receive message) v = v
    step-Settled t lagged v = tt
    step-Settled t (enqueued message) v = same_server t _ v refl refl refl refl

    -- From an initialized server, through any events, the reconfigurations among them too, it keeps the
    -- address, the port and the settings that it was first initialized with, where no step panics or
    -- waits for ever.
    pub run-Settled :
        (t : Thread crates) (events : List Event)
        → Settled first t
        → Ensures Keeps (run crates sockets t events)
    run-Settled = run-Ensures crates sockets (Settled first) step-Settled
