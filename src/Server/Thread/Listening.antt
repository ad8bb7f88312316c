-- ===== src/Server/Thread/Listening.antt =====
-- The listener of the server thread, which `accept_connection` unwraps.
use havok_rust.Base.{
  ℕ, ◌≡◌, ◌∙◌, arith, refl, ap, Bool, true, List, [], ◌∷◌, Option, none, some, ok, Ensures,
  Ensures-bind, Ensures-ok, Ensures-weaker, codes, ◌++◌, Option-cases, inl, inr,
}
use havok_rust.Net.{NetworkMessage}
use havok_rust.Settings.{Settings, ControlSignal, reconfigure, shutdown}
use havok_rust.Ansi.Code.{unwrap}
use havok_rust.Connection.Session.{Crates}
use havok_rust.Server.{
  Server, Action, Sockets, server_static, initialize, get_server, start_server, new_socket, decimal,
}
use havok_rust.Server.Table.{has}
use havok_rust.Server.Thread.{
  Event, control, accepted, transmit, receive, enqueued, lagged, Thread, apply_settings,
  wait_settings, on_transmit, step, run, renewed, enter,
}
use havok_rust.Server.Thread.Rounds.{
  made, on_accepted-Ensures, on_incoming-Ensures, on_reconfigure-Ensures, run-Ensures,
}

module _ (crates : Crates) (sockets : Sockets) where
  -- A server that is initialized has its settings.
  abbrev pub HasSettings : Server crates → Type 0
  HasSettings s = s.initialized ≡ true → has s.settings ≡ true

  pub record IsListening (t : Thread crates) : Type 0 where
    pub listening : has t.listener ≡ true
    pub static_has : HasSettings t.static

  abbrev IsOn : Option ℕ → Type 0
  IsOn listener = has listener ≡ true

  start_server-listens :
      (s : Server crates) → has s.settings ≡ true → Ensures IsOn (start_server crates sockets s)
  unfolding start_server
  start_server-listens s h = elim (Option-cases s.settings) [
    | inl e ↦ cc
    | inr (conf, e) ↦
        rw (start_server, e)
          (Ensures-bind IsOn
            (unwrap (sockets.parse_addr (s.bind_ip ++ (codes ":" ++ decimal s.port)))) _
            (λ addr _. Ensures-bind IsOn (new_socket crates sockets addr.ip) _ (λ socket _.
              Ensures-bind IsOn (unwrap (sockets.listen (sockets.bind socket addr) 1024)) _
                (λ listener _. refl))))
  ]

  get_server-HasSettings :
      (conf : Settings) (s : Server crates)
      → HasSettings s
      → (has (get_server crates (some conf) s).settings ≡ true)
  unfolding get_server initialize
  get_server-HasSettings conf s h = ground arith

  abbrev Keeps : Thread crates × List Action → Type 0
  Keeps (t, actions) = IsListening t

  apply_settings-IsListening :
      (conf : Settings) (t : Thread crates)
      → HasSettings t.static
      → Ensures IsListening (apply_settings crates sockets conf t)
  unfolding apply_settings
  apply_settings-IsListening conf t h =
      let static = get_server crates (some conf) t.static in
      let there = get_server-HasSettings conf t.static h in
      Ensures-bind IsListening (start_server crates sockets static)
        (λ listener. ok (record t { static = static; server = static; listener = listener }))
        (λ listener e. record {
          listening =
              Ensures-ok IsOn (start_server crates sockets static)
                (start_server-listens static there) e;
          static_has = λ _. there;
        })

  wait_settings-IsListening :
      (t : Thread crates) (signals : List (Option ControlSignal))
      → HasSettings t.static
      → Ensures
          (λ (r : Thread crates × Bool). r.1 ≡ true → IsListening r.0)
          (wait_settings crates sockets t signals)
  unfolding wait_settings
  wait_settings-IsListening t [] h = λ e. cc
  wait_settings-IsListening t (none ∷ signals) h = tt
  wait_settings-IsListening t (some shutdown ∷ signals) h =
      wait_settings-IsListening (record t { is_shutdown = true }) signals h
  wait_settings-IsListening t (some (reconfigure conf) ∷ signals) h =
      Ensures-bind (λ (r : Thread crates × Bool). r.1 ≡ true → IsListening r.0)
        (apply_settings crates sockets conf t) _
        (λ t' e _.
          Ensures-ok IsListening (apply_settings crates sockets conf t)
            (apply_settings-IsListening conf t h) e)

  -- A thread with another server, queue, parser or flag has its listener as before.
  same_listener :
      (t u : Thread crates)
      → IsListening t
      → u.listener ≡ t.listener
      → u.static ≡ t.static
      → IsListening u
  same_listener t u v l s = record {
    listening = ap has l ∙ v.listening;
    static_has = rw s v.static_has;
  }

  on_transmit-IsListening :
      (queue : List NetworkMessage) (t : Thread crates)
      → IsListening t
      → Ensures Keeps (on_transmit crates sockets queue t)
  unfolding on_transmit
  on_transmit-IsListening [] t v = v
  on_transmit-IsListening (message ∷ queue) t v = same_listener t _ v refl refl

  step-IsListening :
      (t : Thread crates) (event : Event)
      → IsListening t
      → Ensures Keeps (step crates sockets t event)
  unfolding step
  step-IsListening t (control shutdown) v = same_listener t _ v refl refl
  step-IsListening t (control (reconfigure conf)) v =
      on_reconfigure-Ensures crates sockets Keeps conf t v (λ u e.
        Ensures-ok IsListening (apply_settings crates sockets conf (renewed crates sockets t))
          (apply_settings-IsListening conf (renewed crates sockets t) v.static_has) e)
  step-IsListening t (accepted result) v = on_incoming-Ensures crates sockets Keeps result t (λ a _.
      on_accepted-Ensures crates sockets Keeps a t (λ colors greeting.
        same_listener t (enter crates sockets a colors (made crates sockets t a colors) greeting t)
          v refl refl))
  step-IsListening t transmit v = on_transmit-IsListening t.txqueue t v
  step-IsListening t (receive message) v = v
  step-IsListening t lagged v = tt
  step-IsListening t (enqueued message) v = same_listener t _ v refl refl

  -- Let a server thread, with the static server as at the start, end its wait for settings, after any signals.
  -- Through any events behind that, as far as no round panics or waits for ever, it has a listener: so
  -- `accept_connection` always finds the one that it unwraps.
  pub run-IsListening :
      (t t' : Thread crates) (signals : List (Option ControlSignal)) (events : List Event)
      → t.static ≡ server_static crates
      → wait_settings crates sockets t signals ≡ ok (t', true)
      → Ensures
          (λ (r : Thread crates × List Action). has r.0.listener ≡ true)
          (run crates sockets t' events)
  run-IsListening t t' signals events fresh waited =
      let ready =
        Ensures-ok (λ (r : Thread crates × Bool). r.1 ≡ true → IsListening r.0)
          (wait_settings crates sockets t signals)
          (wait_settings-IsListening t signals (rw fresh (λ e. cc))) waited refl in
      Ensures-weaker (λ (r : Thread crates × List Action). IsListening r.0)
        (λ (r : Thread crates × List Action). has r.0.listener ≡ true)
        (run crates sockets t' events) (λ r v. v.listening)
        (run-Ensures crates sockets IsListening step-IsListening t' events ready)
