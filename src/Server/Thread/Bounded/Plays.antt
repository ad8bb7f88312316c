-- ===== src/Server/Thread/Bounded/Plays.antt =====
-- Runs of the bounded thread, put together.
use havok_rust.Base.{
  ◌+◌, ◌≤◌, ◌≡◌, refl, ap, ◌∙◌, Bool, false, List, [], ◌∷◌, ◌++◌, Option, ok, ◌>>=◌, if◌then◌else◌,
  append-nil, append_assoc, length, length-append, arith,
}
use havok_rust.Net.{NetworkMessage}
use havok_rust.Settings.{Settings}
use havok_rust.Connection.Session.{Crates}
use havok_rust.Server.{Action, Sockets}
use havok_rust.Server.Thread.{Thread}
use havok_rust.Server.Channel.{transmit_capacity, is_full}
use havok_rust.Server.Thread.Bounded.{
  at_select, sending, acting, taken, await, Move, go_on, State, Moved, push, move, is_over,
  bounded_run, send_own,
}
use havok_rust.Server.Thread.Bounded.Greeting.{with_queue}

module _ (crates : Crates) (sockets : Sockets) where
  abbrev pub Plays : State crates sockets → List Move → State crates sockets → List Action → Type 0
  Plays s ms s' done = bounded_run crates sockets s ms ≡ ok (s', done)

  abbrev first_then : State crates sockets → Move → List Move → Moved crates sockets
  first_then s m ms = move crates sockets s m >>= λ r.
      bounded_run crates sockets r.0 ms >>= λ r'. ok (r'.0, r.1 ++ r'.1)

  abbrev one_or_other : State crates sockets → Move → List Move → Bool → Moved crates sockets
  one_or_other s m ms over =
      let stop : Moved crates sockets = ok (s, []) in if over then stop else first_then s m ms

  bounded_run_going :
      (s : State crates sockets) (m : Move) (ms : List Move)
      → is_over crates sockets s ≡ false
      → bounded_run crates sockets s (m ∷ ms) ≡ first_then s m ms
  unfolding bounded_run
  bounded_run_going s m ms going = ap (one_or_other s m ms) going

  -- Some moves lead from the one state to the other.
  abbrev pub Leads : State crates sockets → State crates sockets → List Action → Type 0
  Leads s s' done = (ms : List Move) × (bounded_run crates sockets s ms ≡ ok (s', done))

  pub first-Leads :
      (s u s' : State crates sockets) (m : Move) (now done : List Action)
      → is_over crates sockets s ≡ false
      → move crates sockets s m ≡ ok (u, now)
      → Leads u s' done
      → Leads s s' (now ++ done)
  first-Leads s u s' m now done going moved (ms, later) =
      (m ∷ ms, bounded_run_going s m ms going ∙ rw (moved, later) refl)

  pub act-Leads :
      (t : Thread crates) (actions : List Action) (s' : State crates sockets) (done : List Action)
      → Leads (t, at_select) s' done
      → Leads (await crates sockets t actions) s' (actions ++ done)
  unfolding move
  act-Leads t [] s' done h = h
  act-Leads t (action ∷ actions) s' done h =
      first-Leads (t, acting action actions) (await crates sockets t actions) s' taken (action ∷ [])
        (actions ++ done) refl refl (act-Leads t actions s' done h)

  pub push_room :
      (message : NetworkMessage) (t : Thread crates)
      → is_full t.txqueue ≡ false
      → push crates sockets message t ≡ with_queue crates sockets (t.txqueue ++ (message ∷ [])) t
  push_room message t room =
      ap (λ (b : Bool). if b then t else record t { txqueue = t.txqueue ++ (message ∷ []) }) room

  send_own_room :
      (message : NetworkMessage) (left : List NetworkMessage) (next : Option Settings)
      (t : Thread crates)
      → is_full t.txqueue ≡ false
      → send_own crates sockets message left next t
        ≡ ok ((with_queue crates sockets (t.txqueue ++ (message ∷ [])) t, sending left next), [])
  send_own_room message left next t room =
      ap
        (λ (b : Bool).
          if b
          then ok ((t, sending (message ∷ left) next), [])
          else ok ((push crates sockets message t, sending left next), []))
        room
      ∙ ap (λ (u : Thread crates). ok ((u, sending left next), [])) (push_room message t room)

  -- With room for them, the thread sends its messages.
  pub send-Leads :
      (t : Thread crates) (left : List NetworkMessage) (next : Option Settings)
      (s' : State crates sockets) (done : List Action)
      → length t.txqueue + length left ≤ transmit_capacity
      → Leads (with_queue crates sockets (t.txqueue ++ left) t, sending [] next) s' done
      → Leads (t, sending left next) s' done
  unfolding move
  send-Leads t [] next s' done fits h = rw (append-nil t.txqueue) at h
  send-Leads t (message ∷ left) next s' done fits h =
      let queue : List NetworkMessage = t.txqueue ++ (message ∷ []) in
      first-Leads (t, sending (message ∷ left) next)
        (with_queue crates sockets queue t, sending left next) s' go_on [] done refl
        (send_own_room message left next t (ground arith))
        (send-Leads (with_queue crates sockets queue t) left next s' done
          (omega (arith, length-append t.txqueue (message ∷ [])))
          (rw (append_assoc t.txqueue (message ∷ []) left) h))
