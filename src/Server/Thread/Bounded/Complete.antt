-- ===== src/Server/Thread/Bounded/Complete.antt =====
-- The rounds of the server thread in the loop with the bounded transmit channel, where that has room.
use havok_rust.Base.{
  ℕ, ◌+◌, ◌≤◌, ◌≡◌, refl, ap, sym, ◌∙◌, false, Bool-cases, inl, inr, List, [], ◌∷◌, ◌++◌, Option,
  none, Outcome, ok, panic, out_of_fuel, ◌>>=◌, bind-eq-ok, ok-pair, if◌then◌else◌, length, arith,
  Ensures, Ensures-ok,
}
use havok_rust.Net.{NetworkMessage}
use havok_rust.Settings.{Settings, shutdown, reconfigure}
use havok_rust.Connection.Session.{Crates}
use havok_rust.Server.{Action, Sockets}
use havok_rust.Server.Thread.{
  Accepted, Event, control, accepted, transmit, receive, enqueued, lagged, Thread, disconnect_all,
  moves, on_reconfigure, on_incoming, step, run,
}
use havok_rust.Server.Thread.Rounds.{run_going, run_over}
use havok_rust.Server.Channel.{transmit_capacity}
use havok_rust.Server.Thread.Bounded.{
  at_select, sending, await, Move, event, go_on, State, Moved, begin_round, move, bounded_run,
}
use havok_rust.Server.Thread.Bounded.Greeting.{with_queue, on_incoming-Greeting}
use havok_rust.Server.Thread.Bounded.Plays.{Leads, first-Leads, act-Leads, send-Leads, push_room}
use havok_rust.Server.Thread.Bounded.Moving.{reconfigured, unmoved, moved-Leads, stays_put}

module _ (crates : Crates) (sockets : Sockets) where
  abbrev length_of : Outcome (List NetworkMessage) → ℕ
  length_of (ok messages) = length messages
  length_of panic = 0
  length_of out_of_fuel = 0

  -- How many messages a round puts on the transmit channel.
  abbrev pub needs : Thread crates → Event → ℕ
  needs t (control (reconfigure conf)) =
      if moves crates sockets conf t
      then length_of (disconnect_all crates sockets t.server.connections)
      else 0
  needs t (accepted result) = 1
  needs t (enqueued message) = 1
  needs t e = 0

  -- At each event in turn the channel has room for what its round puts there.
  abbrev pub Fits : Thread crates → List Event → Type 0
  Fits t [] = Unit
  Fits t (e ∷ events) =
      (length t.txqueue + needs t e ≤ transmit_capacity)
      × Ensures (λ (r : Thread crates × List Action). Fits r.0 events) (step crates sockets t e)

  reconfigure-Leads :
      (conf : Settings) (t t' : Thread crates) (actions : List Action) (s' : State crates sockets)
      (done : List Action)
      → t.is_shutdown ≡ false
      → length t.txqueue + needs t (control (reconfigure conf)) ≤ transmit_capacity
      → on_reconfigure crates sockets conf t ≡ ok (t', actions)
      → Leads crates sockets (t', at_select) s' done
      → Leads crates sockets (t, at_select) s' (actions ++ done)
  unfolding move begin_round
  reconfigure-Leads conf t t' actions s' done going fits e h =
      elim (Bool-cases (moves crates sockets conf t)) [
        | inl moving ↦
            let (farewells, told, applied, quiet) =
              reconfigured crates sockets conf t t' actions moving e in
            rw (← quiet) (
              moved-Leads crates sockets conf t t' farewells s' done going
                (rw (moving, told) at fits) moving told applied h)
        | inr staying ↦
            let (same, quiet) = unmoved crates sockets conf t t' actions staying e in
            rw (← quiet) (
              first-Leads crates sockets (t, at_select) (t', at_select) s'
                (event (control (reconfigure conf))) [] done going
                (stays_put crates sockets conf t staying
                  ∙ ap (λ (u : Thread crates). ok ((u, at_select), [])) same)
                h)
      ]

  -- The thread behind what comes before the greeting.
  abbrev greeted : Thread crates → Thread crates × List Action → Moved crates sockets
  greeted t (t1, actions) =
      ok ((record t1 { txqueue = t.txqueue }, sending t1.txqueue none), actions)

  accepted-Leads :
      (result : Option Accepted) (t t' : Thread crates) (actions : List Action)
      (s' : State crates sockets) (done : List Action)
      → t.is_shutdown ≡ false
      → length t.txqueue + 1 ≤ transmit_capacity
      → on_incoming crates sockets result t ≡ ok (t', actions)
      → Leads crates sockets (t', at_select) s' done
      → Leads crates sockets (t, at_select) s' (actions ++ done)
  unfolding move begin_round
  accepted-Leads result t t' actions s' done going fits e h =
      let g = on_incoming-Greeting crates sockets t.txqueue result t t' actions e in
      let left : List NetworkMessage = g.greeting ∷ [] in
      let u : Thread crates = with_queue crates sockets t.txqueue t' in
      let sent : Thread crates = with_queue crates sockets (t.txqueue ++ left) t' in
      let same : t' ≡ sent =
        ap (λ (q : List NetworkMessage). with_queue crates sockets q t') g.only in
      rw g.quiet (
        first-Leads crates sockets (t, at_select) (u, sending left none) s'
          (event (accepted result)) [] done going
          (ap (λ (m : Outcome (Thread crates × List Action)). m >>= greeted t) (g.on_any [] refl))
          (send-Leads crates sockets u left none s' done fits (
            first-Leads crates sockets (sent, sending [] none) (t', at_select) s' go_on [] done refl
              (ap (λ (v : Thread crates). ok ((v, at_select), [])) (sym same)) h)))

  -- A round with what it does on the sockets and the queues.
  stepped-Leads :
      (e : Event) (t t' : Thread crates) (actions : List Action) (s' : State crates sockets)
      (done : List Action)
      → t.is_shutdown ≡ false
      → move crates sockets (t, at_select) (event e) ≡ ok (await crates sockets t' actions, [])
      → Leads crates sockets (t', at_select) s' done
      → Leads crates sockets (t, at_select) s' (actions ++ done)
  stepped-Leads e t t' actions s' done going moved h =
      first-Leads crates sockets (t, at_select) (await crates sockets t' actions) s' (event e) []
        (actions ++ done) going moved (act-Leads crates sockets t' actions s' done h)

  abbrev awaiting : Thread crates × List Action → Moved crates sockets
  awaiting (t, actions) = ok (await crates sockets t actions, [])

  event-Leads :
      (e : Event) (t t' : Thread crates) (actions : List Action) (s' : State crates sockets)
      (done : List Action)
      → t.is_shutdown ≡ false
      → length t.txqueue + needs t e ≤ transmit_capacity
      → step crates sockets t e ≡ ok (t', actions)
      → Leads crates sockets (t', at_select) s' done
      → Leads crates sockets (t, at_select) s' (actions ++ done)
  unfolding move begin_round step
  event-Leads (control (reconfigure conf)) t t' actions s' done going fits e h =
      reconfigure-Leads conf t t' actions s' done going fits e h
  event-Leads (accepted result) t t' actions s' done going fits e h =
      accepted-Leads result t t' actions s' done going fits e h
  event-Leads (enqueued message) t t' actions s' done going fits e h =
      stepped-Leads (enqueued message) t t' actions s' done going
        (ap (λ (u : Thread crates). awaiting (u, []))
            (push_room crates sockets message t (ground arith))
          ∙ ap (λ (m : Outcome (Thread crates × List Action)). m >>= awaiting) e)
        h
  event-Leads (control shutdown) t t' actions s' done going fits e h =
      stepped-Leads (control shutdown) t t' actions s' done going
        (ap (λ (m : Outcome (Thread crates × List Action)). m >>= awaiting) e) h
  event-Leads lagged t t' actions s' done going fits e h = cc
  event-Leads transmit t t' actions s' done going fits e h =
      stepped-Leads transmit t t' actions s' done going
        (ap (λ (m : Outcome (Thread crates × List Action)). m >>= awaiting) e) h
  event-Leads (receive message) t t' actions s' done going fits e h =
      stepped-Leads (receive message) t t' actions s' done going
        (ap (λ (m : Outcome (Thread crates × List Action)). m >>= awaiting) e) h

  abbrev at_rest : Thread crates × List Action → Moved crates sockets
  at_rest (t, actions) = ok ((t, at_select), actions)

  -- Let the channel, at each of some events in turn, have room for what its round puts there. What the loop
  -- of whole rounds does in them, where each comes to its end, the loop with its waits does as well: some
  -- moves lead it to the same thread, which waits for an event again, with the same done on the sockets.
  pub bounded_run_complete :
      (t t' : Thread crates) (events : List Event) (done : List Action)
      → Fits t events
      → run crates sockets t events ≡ ok (t', done)
      → (ms : List Move) × (bounded_run crates sockets (t, at_select) ms
          ≡ ok ((t', at_select), done))
  unfolding run bounded_run
  bounded_run_complete t t' [] done fits e =
      ([], ap (λ (m : Outcome (Thread crates × List Action)). m >>= at_rest) e)
  bounded_run_complete t t' (first ∷ events) done fits e = elim (Bool-cases t.is_shutdown) [
    | inl over ↦ (
      [],
      ap (λ (m : Outcome (Thread crates × List Action)). m >>= at_rest)
          (sym (run_over crates sockets t first events over) ∙ e),
    )
    | inr going ↦
        let (r, s, later) =
          bind-eq-ok (step crates sockets t first) _
            (sym (run_going crates sockets t first events going) ∙ e) in
        let (r', ran, last) = bind-eq-ok (run crates sockets r.0 events) _ later in
        let (same, all_done) = ok-pair last in
        let fit =
          Ensures-ok (λ (x : Thread crates × List Action). Fits x.0 events)
            (step crates sockets t first) fits.1 s in
        let (ms, played) =
          event-Leads first t r.0 r.1 (t', at_select) r'.1 going fits.0 s
            (bounded_run_complete r.0 t' events r'.1 fit
              (ran ∙ ap (λ (u : Thread crates). ok (u, r'.1)) same)) in
        (ms, played ∙ ap (λ (a : List Action). ok ((t', at_select), a)) all_done)
  ]
