-- ===== src/Server/Thread/Bounded/Sound.antt =====
-- The `select!` loop with its waits for room in the transmit channel, beside the loop of whole rounds.
use havok_rust.Base.{
  ◌≡◌, refl, ap, sym, ◌∙◌, Bool, true, false, Bool-cases, inl, inr, List, [], ◌∷◌, ◌++◌, Option,
  none, some, ok, if◌then◌else◌, append_assoc, Ensures, Ensures-bind, Ensures-ok,
}
use havok_rust.Net.{NetworkMessage}
use havok_rust.Settings.{Settings, reconfigure}
use havok_rust.Connection.Session.{Crates}
use havok_rust.Server.{Action, Sockets}
use havok_rust.Server.Thread.{
  Event, renewed, dropped, control, accepted, enqueued, Thread, disconnect_all, apply_settings,
  moves, on_reconfigure, step, run,
}
use havok_rust.Server.Channel.{is_full}
use havok_rust.Server.Thread.Bounded.{
  at_select, sending, acting, taken, await, Move, event, go_on, State, push, drained, end_round,
  move, is_over, bounded_run,
}
use havok_rust.Server.Thread.Bounded.Greeting.{with_queue}
use havok_rust.Server.Thread.Bounded.Sim.{
  Greets, Sim, quiet, one_more, one_quiet, pushed, pushed-Reached, pushed-Greets, pushed-Leaves,
}
use havok_rust.Server.Thread.Bounded.Events.{After, await-Sim, begin_round-Sim}

module _ (crates : Crates) (sockets : Sockets) (t0 : Thread crates) where
  apply_settings_drained :
      (conf : Settings) (t u : Thread crates)
      → t ≡ with_queue crates sockets t.txqueue (drained crates sockets u)
      → apply_settings crates sockets conf (renewed crates sockets t)
        ≡ apply_settings crates sockets conf (renewed crates sockets u)
  unfolding apply_settings
  apply_settings_drained conf t u same =
      ap (λ (x : Thread crates). apply_settings crates sockets conf (renewed crates sockets x)) same

  reconfigured :
      (conf : Settings) (u t : Thread crates) (farewells : List NetworkMessage)
      → moves crates sockets conf u ≡ true
      → disconnect_all crates sockets u.server.connections ≡ ok farewells
      → apply_settings crates sockets conf (renewed crates sockets u) ≡ ok t
      → step crates sockets u (control (reconfigure conf))
        ≡ ok (t, dropped crates sockets u.server.wr_streams)
  unfolding step on_reconfigure
  reconfigured conf u t farewells moving told applied = rw (moving, told, applied) refl

  end_round-Sim :
      (next : Option Settings) (t : Thread crates) (done : List Action)
      → Sim crates sockets t0 (t, sending [] next) done
      → Ensures (After crates sockets t0 done) (end_round crates sockets next t)
  end_round-Sim none t done h = quiet crates sockets t0 (t, at_select) done h.0
  end_round-Sim (some conf) t done l =
      Ensures-bind (After crates sockets t0 done)
        (apply_settings crates sockets conf (renewed crates sockets t)) _
        (λ t' e.
          one_more crates sockets t0 l.before t' (control (reconfigure conf)) done
            (dropped crates sockets t.server.wr_streams) l.reached l.going
            (reconfigured conf l.before t' l.farewells l.moving l.told
                (sym (apply_settings_drained conf t l.before l.same) ∙ e)
              ∙ ap (λ (x : Thread crates). ok (t', dropped crates sockets x.server.wr_streams))
                  (sym l.same)))

  -- The greeting goes into the channel.
  greeted-Sim :
      (t : Thread crates) (greeting : NetworkMessage) (done : List Action)
      → is_full t.txqueue ≡ false
      → Greets crates sockets t0 t greeting done
      → Sim crates sockets t0 (pushed crates sockets t0 false greeting t, sending [] none) done
  unfolding step
  greeted-Sim t greeting done room g = (
    one_quiet crates sockets t0 g.before (pushed crates sockets t0 false greeting t)
        (accepted g.result) done g.reached g.going
        (g.on_any g.before.txqueue (ap is_full g.same_queue ∙ room)
          ∙ ap
              (λ (q : List NetworkMessage).
                ok (with_queue crates sockets (q ++ (greeting ∷ [])) t, []))
              g.same_queue),
    g.still_going,
  )

  sent_own :
      (waits : Bool) (message : NetworkMessage) (left : List NetworkMessage)
      (next : Option Settings) (t : Thread crates) (done : List Action)
      → is_full t.txqueue ≡ waits
      → Sim crates sockets t0 (t, sending (message ∷ left) next) done
      → Ensures (After crates sockets t0 done) (
          if waits
          then ok ((t, sending (message ∷ left) next), [])
          else ok ((pushed crates sockets t0 waits message t, sending left next), []))
  sent_own true message left next t done room h =
      quiet crates sockets t0 (t, sending (message ∷ left) next) done h
  sent_own false message left (some conf) t done room h =
      quiet crates sockets t0 (pushed crates sockets t0 false message t, sending left (some conf))
        done (pushed-Leaves crates sockets t0 false message t conf done h)
  sent_own false message [] none t done room h =
      quiet crates sockets t0 (pushed crates sockets t0 false message t, sending [] none) done
        (greeted-Sim t message done room h)
  sent_own false message (_ ∷ _) none t done room h = absurd h

  others_send :
      (waits : Bool) (message : NetworkMessage) (left : List NetworkMessage)
      (next : Option Settings) (t : Thread crates) (done : List Action)
      → Sim crates sockets t0 (t, sending left next) done
      → Sim crates sockets t0 (pushed crates sockets t0 waits message t, sending left next) done
  others_send waits message left (some conf) t done h =
      pushed-Leaves crates sockets t0 waits message t conf done h
  others_send waits message [] none t done h =
      pushed-Reached crates sockets t0 waits message t done h.0 h.1
  others_send waits message (greeting ∷ []) none t done h =
      pushed-Greets crates sockets t0 waits message greeting t done h
  others_send waits message (_ ∷ _ ∷ _) none t done h = absurd h

  -- The socket or the queue takes the first of what is to do.
  taken-Sim :
      (t : Thread crates) (action : Action) (actions done : List Action)
      → Sim crates sockets t0 (t, acting action actions) done
      → Sim crates sockets t0 (await crates sockets t actions) (done ++ (action ∷ []))
  taken-Sim t action actions done (reached, going) =
      await-Sim crates sockets t0 t actions (done ++ (action ∷ []))
        (rw (sym (append_assoc done (action ∷ []) actions)) at reached) going

  move-Sim :
      (s : State crates sockets) (m : Move) (done : List Action)
      → is_over crates sockets s ≡ false
      → Sim crates sockets t0 s done
      → Ensures (After crates sockets t0 done) (move crates sockets s m)
  unfolding move
  move-Sim (t, at_select) (event e) done going h =
      begin_round-Sim crates sockets t0 e t done h going
  move-Sim (t, at_select) go_on done going h = quiet crates sockets t0 (t, at_select) done h
  move-Sim (t, at_select) taken done going h = quiet crates sockets t0 (t, at_select) done h
  move-Sim (t, sending left next) (event (enqueued message)) done going h =
      quiet crates sockets t0 (push crates sockets message t, sending left next) done
        (others_send (is_full t.txqueue) message left next t done h)
  move-Sim (t, sending left next) (event _) done going h =
      quiet crates sockets t0 (t, sending left next) done h
  move-Sim (t, sending [] next) go_on done going h = end_round-Sim next t done h
  move-Sim (t, sending (message ∷ left) next) go_on done going h =
      sent_own (is_full t.txqueue) message left next t done refl h
  move-Sim (t, sending left next) taken done going h =
      quiet crates sockets t0 (t, sending left next) done h
  move-Sim (t, acting action actions) (event (enqueued message)) done going h =
      quiet crates sockets t0 (push crates sockets message t, acting action actions) done
        (pushed-Reached crates sockets t0 (is_full t.txqueue) message t (done ++ (action ∷ actions))
          h.0 h.1)
  move-Sim (t, acting action actions) (event _) done going h =
      quiet crates sockets t0 (t, acting action actions) done h
  move-Sim (t, acting action actions) go_on done going h =
      quiet crates sockets t0 (t, acting action actions) done h
  move-Sim (t, acting action actions) taken done going h = taken-Sim t action actions done h

  bounded_run-Sim :
      (s : State crates sockets) (ms : List Move) (done : List Action)
      → Sim crates sockets t0 s done
      → Ensures (After crates sockets t0 done) (bounded_run crates sockets s ms)
  unfolding bounded_run
  bounded_run-Sim s [] done h = quiet crates sockets t0 s done h
  bounded_run-Sim s (m ∷ ms) done h = elim (Bool-cases (is_over crates sockets s)) [
    | inl over ↦ rw over (quiet crates sockets t0 s done h)
    | inr going ↦ rw going (
        Ensures-bind (After crates sockets t0 done) (move crates sockets s m) _ (λ r e.
          let h' =
            Ensures-ok (After crates sockets t0 done) (move crates sockets s m)
              (move-Sim s m done going h) e in
          Ensures-bind (After crates sockets t0 done) (bounded_run crates sockets r.0 ms) _
            (λ r' e'. rw (sym (append_assoc done r.1 r'.1)) (
              Ensures-ok (After crates sockets t0 (done ++ r.1)) (bounded_run crates sockets r.0 ms)
                (bounded_run-Sim r.0 ms (done ++ r.1) h') e'))))
  ]

-- Let the thread wait for an event. When the loop with the bound is behind any events and any waits for
-- room, and waits for an event again, then the loop of whole rounds comes, behind some events, to the same
-- thread, with the same message in its channel, having done the same on the sockets.
pub bounded_run_sound :
    (crates : Crates) (sockets : Sockets) (t t' : Thread crates) (ms : List Move)
    (done : List Action)
    → bounded_run crates sockets (t, at_select) ms ≡ ok ((t', at_select), done)
    → (events : List Event) × (run crates sockets t events ≡ ok (t', done))
unfolding run
bounded_run_sound crates sockets t t' ms done e =
    Ensures-ok (After crates sockets t []) (bounded_run crates sockets (t, at_select) ms)
      (bounded_run-Sim crates sockets t (t, at_select) ms [] ([], refl)) e
