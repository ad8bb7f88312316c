-- ===== src/Server/Thread/Bounded/Events.antt =====
-- The thread with its waits beside the one of whole rounds, behind an event.
use havok_rust.Base.{
  ◌≡◌, refl, ap, ◌∙◌, true, false, Bool-cases, inl, inr, List, [], ◌∷◌, ◌++◌, Option, none, ok,
  ◌>>=◌, append-nil, Ensures, Ensures-bind, Ensures-ok,
}
use havok_rust.Net.{NetworkMessage}
use havok_rust.Settings.{Settings, shutdown, reconfigure}
use havok_rust.Connection.Session.{Crates}
use havok_rust.Server.{Action, Sockets}
use havok_rust.Server.Thread.{
  Accepted, Event, control, accepted, transmit, receive, enqueued, lagged, Thread, disconnect_all,
  moves, on_incoming, on_transmit, step,
}
use havok_rust.Server.Thread.Rounds.{emptied}
use havok_rust.Server.Channel.{is_full}
use havok_rust.Server.Thread.Bounded.{
  at_select, sending, await, State, push, begin_reconfigure, begin_accepted, begin_round,
}
use havok_rust.Server.Thread.Bounded.Greeting.{with_queue, on_incoming-Greeting}
use havok_rust.Server.Thread.Bounded.Sim.{Reached, Greets, Sim, quiet, one_more, pushed-Reached}

module _ (crates : Crates) (sockets : Sockets) (t0 : Thread crates) where
  at-Greets :
      (t : Thread crates) (queue : List NetworkMessage) (greeting : NetworkMessage)
      (done : List Action)
      → queue ≡ greeting ∷ []
      → Greets crates sockets t0 t greeting done
      → Sim crates sockets t0 (t, sending queue none) done
  at-Greets t queue greeting done e g = rw e g

  abbrev pub After : List Action → State crates sockets × List Action → Type 0
  After done r = Sim crates sockets t0 r.0 (done ++ r.1)

  begin_accepted-Sim :
      (result : Option Accepted) (t : Thread crates) (done : List Action)
      → Reached crates sockets t0 t done
      → t.is_shutdown ≡ false
      → Ensures (After done) (begin_accepted crates sockets result t)
  begin_accepted-Sim result t done reached going =
      Ensures-bind (After done) (on_incoming crates sockets result (emptied crates sockets t)) _
        (λ r e.
          let g = on_incoming-Greeting crates sockets [] result t r.0 r.1 e in
          let nothing : done ++ r.1 ≡ done =
            ap (λ (a : List Action). done ++ a) g.quiet ∙ append-nil done in
          at-Greets (with_queue crates sockets t.txqueue r.0) r.0.txqueue g.greeting (done ++ r.1)
            g.only
            (rw nothing (record {
              before = t;
              reached = reached;
              going = going;
              same_queue = refl;
              result = result;
              on_any = g.on_any;
              still_going = g.same_flag ∙ going;
            })))

  begin_reconfigure-Sim :
      (conf : Settings) (t : Thread crates) (done : List Action)
      → Reached crates sockets t0 t done
      → t.is_shutdown ≡ false
      → Ensures (After done) (begin_reconfigure crates sockets conf t)
  begin_reconfigure-Sim conf t done reached going =
      elim (Bool-cases (moves crates sockets conf t)) [
        | inl e ↦ rw e (
            Ensures-bind (After done) (disconnect_all crates sockets t.server.connections) _
              (λ farewells told. rw (append-nil done) (record {
                before = t;
                reached = reached;
                going = going;
                moving = e;
                farewells = farewells;
                told = told;
                same = refl;
              })))
        | inr e ↦ rw e (quiet crates sockets t0 (t, at_select) done reached)
      ]

  pub await-Sim :
      (t : Thread crates) (actions done : List Action)
      → Reached crates sockets t0 t (done ++ actions)
      → t.is_shutdown ≡ false
      → Sim crates sockets t0 (await crates sockets t actions) done
  await-Sim t [] done reached going = rw (append-nil done) at reached
  await-Sim t (action ∷ actions) done reached going = (reached, going)

  on_transmit-going :
      (queue : List NetworkMessage) (t : Thread crates)
      → t.is_shutdown ≡ false
      → Ensures
          (λ (r : Thread crates × List Action). r.0.is_shutdown ≡ false)
          (on_transmit crates sockets queue t)
  unfolding on_transmit
  on_transmit-going [] t going = going
  on_transmit-going (message ∷ queue) t going = going

  -- A round that begins with what the thread of whole rounds does.
  awaited-Sim :
      (t : Thread crates) (e : Event) (done : List Action)
      → Reached crates sockets t0 t done
      → t.is_shutdown ≡ false
      → Ensures
          (λ (r : Thread crates × List Action). r.0.is_shutdown ≡ false)
          (step crates sockets t e)
      → Ensures
          (After done)
          (step crates sockets t e >>= λ (t', actions). ok (await crates sockets t' actions, []))
  awaited-Sim t e done reached going keeps =
      Ensures-bind (After done) (step crates sockets t e) _ (λ r s.
        quiet crates sockets t0 (await crates sockets r.0 r.1) done (
          await-Sim r.0 r.1 done (one_more crates sockets t0 t r.0 e done r.1 reached going s) (
            Ensures-ok (λ (r : Thread crates × List Action). r.0.is_shutdown ≡ false)
              (step crates sockets t e) keeps s)))

  pub begin_round-Sim :
      (e : Event) (t : Thread crates) (done : List Action)
      → Reached crates sockets t0 t done
      → t.is_shutdown ≡ false
      → Ensures (After done) (begin_round crates sockets e t)
  unfolding begin_round step
  begin_round-Sim (control (reconfigure conf)) t done reached going =
      begin_reconfigure-Sim conf t done reached going
  begin_round-Sim (accepted result) t done reached going =
      begin_accepted-Sim result t done reached going
  begin_round-Sim (enqueued message) t done reached going =
      quiet crates sockets t0 (push crates sockets message t, at_select) done
        (pushed-Reached crates sockets t0 (is_full t.txqueue) message t done reached going).0
  begin_round-Sim (control shutdown) t done reached going =
      one_more crates sockets t0 t (record t { is_shutdown = true }) (control shutdown) done []
        reached going refl
  begin_round-Sim lagged t done reached going = tt
  begin_round-Sim transmit t done reached going =
      awaited-Sim t transmit done reached going (on_transmit-going t.txqueue t going)
  begin_round-Sim (receive message) t done reached going =
      awaited-Sim t (receive message) done reached going going
