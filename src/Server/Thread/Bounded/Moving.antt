-- ===== src/Server/Thread/Bounded/Moving.antt =====
-- The round of a reconfiguration that moves the server, in the loop with the bounded transmit channel.
use havok_rust.Base.{
  ◌+◌, ◌≤◌, ◌≡◌, refl, ap, ◌∙◌, true, false, List, [], ◌++◌, some, Outcome, ok, ◌>>=◌, bind-eq-ok,
  ok-pair, length,
}
use havok_rust.Net.{NetworkMessage}
use havok_rust.Settings.{Settings, reconfigure}
use havok_rust.Connection.Session.{Crates}
use havok_rust.Server.{Action, Sockets}
use havok_rust.Server.Thread.{
  renewed, dropped, control, Thread, disconnect_all, apply_settings, moves, on_reconfigure,
}
use havok_rust.Server.Channel.{transmit_capacity}
use havok_rust.Server.Thread.Bounded.{
  at_select, sending, event, go_on, State, drained, begin_reconfigure, begin_round, end_round, move,
}
use havok_rust.Server.Thread.Bounded.Greeting.{with_queue}
use havok_rust.Server.Thread.Bounded.Plays.{Leads, first-Leads, send-Leads}

module _ (crates : Crates) (sockets : Sockets) where
  pub reconfigured :
      (conf : Settings) (t t' : Thread crates) (actions : List Action)
      → moves crates sockets conf t ≡ true
      → on_reconfigure crates sockets conf t ≡ ok (t', actions)
      → (farewells : List NetworkMessage) × (disconnect_all crates sockets t.server.connections
          ≡ ok farewells)
        × (apply_settings crates sockets conf (renewed crates sockets t) ≡ ok t')
        × (dropped crates sockets t.server.wr_streams ≡ actions)
  unfolding on_reconfigure
  reconfigured conf t t' actions moving e =
      let e' = rw moving at e in
      let (farewells, told, rest) =
        bind-eq-ok (disconnect_all crates sockets t.server.connections) _ e' in
      let (u, applied, last) =
        bind-eq-ok (apply_settings crates sockets conf (renewed crates sockets t)) _ rest in
      let (same, quiet) = ok-pair last in (farewells, told, applied ∙ ap ok same, quiet)

  pub unmoved :
      (conf : Settings) (t t' : Thread crates) (actions : List Action)
      → moves crates sockets conf t ≡ false
      → on_reconfigure crates sockets conf t ≡ ok (t', actions)
      → (t ≡ t') × ([] ≡ actions)
  unfolding on_reconfigure
  unmoved conf t t' actions staying e = let e' = rw staying at e in ok-pair e'

  end_round_applied :
      (conf : Settings) (t t' : Thread crates) (queue : List NetworkMessage)
      → apply_settings crates sockets conf (renewed crates sockets t) ≡ ok t'
      → end_round crates sockets
          (some conf)
          (with_queue crates sockets queue (drained crates sockets t))
        ≡ ok ((t', at_select), dropped crates sockets t.server.wr_streams)
  unfolding apply_settings
  end_round_applied conf t t' queue applied =
      ap
        (λ (m : Outcome (Thread crates)).
          m >>= λ u. ok ((u, at_select), dropped crates sockets t.server.wr_streams))
        applied

  begun :
      (conf : Settings) (t : Thread crates) (farewells : List NetworkMessage)
      → moves crates sockets conf t ≡ true
      → disconnect_all crates sockets t.server.connections ≡ ok farewells
      → begin_reconfigure crates sockets conf t
        ≡ ok ((drained crates sockets t, sending farewells (some conf)), [])
  begun conf t farewells moving told = rw (moving, told) refl

  pub moved-Leads :
      (conf : Settings) (t t' : Thread crates) (farewells : List NetworkMessage)
      (s' : State crates sockets) (done : List Action)
      → t.is_shutdown ≡ false
      → length t.txqueue + length farewells ≤ transmit_capacity
      → moves crates sockets conf t ≡ true
      → disconnect_all crates sockets t.server.connections ≡ ok farewells
      → apply_settings crates sockets conf (renewed crates sockets t) ≡ ok t'
      → Leads crates sockets (t', at_select) s' done
      → Leads crates sockets (t, at_select) s' (dropped crates sockets t.server.wr_streams ++ done)
  unfolding move begin_round
  moved-Leads conf t t' farewells s' done going fits moving told applied h =
      let u : Thread crates = drained crates sockets t in
      let queue : List NetworkMessage = t.txqueue ++ farewells in
      let gone : List Action = dropped crates sockets t.server.wr_streams in
      first-Leads crates sockets (t, at_select) (u, sending farewells (some conf)) s'
        (event (control (reconfigure conf))) [] (gone ++ done) going
        (begun conf t farewells moving told)
        (send-Leads crates sockets u farewells (some conf) s' (gone ++ done) fits (
          first-Leads crates sockets (with_queue crates sockets queue u, sending [] (some conf))
            (t', at_select) s' go_on gone done refl (end_round_applied conf t t' queue applied) h))

  pub stays_put :
      (conf : Settings) (t : Thread crates)
      → moves crates sockets conf t ≡ false
      → begin_reconfigure crates sockets conf t ≡ ok ((t, at_select), [])
  stays_put conf t staying = rw staying refl
