-- ===== src/Server/Thread/Bounded/Sim.antt =====
-- The thread with its waits beside the one of whole rounds: what a state of the first says of runs of the
-- second.
use havok_rust.Base.{
  ◌≡◌, refl, ap, Bool, true, false, List, [], ◌∷◌, ◌++◌, Option, none, some, ok, if◌then◌else◌,
  append-nil,
}
use havok_rust.Net.{NetworkMessage}
use havok_rust.Settings.{Settings}
use havok_rust.Connection.Session.{Crates}
use havok_rust.Server.{Action, Sockets}
use havok_rust.Server.Thread.{
  Accepted, Event, enqueued, Thread, disconnect_all, moves, on_incoming, step, run,
}
use havok_rust.Server.Channel.{is_full}
use havok_rust.Server.Thread.Rounds.{run-snoc}
use havok_rust.Server.Thread.Bounded.{at_select, sending, acting, State, drained}
use havok_rust.Server.Thread.Bounded.Greeting.{with_queue}

module _ (crates : Crates) (sockets : Sockets) (t0 : Thread crates) where
  -- A run of whole rounds that comes to this thread and has done this.
  abbrev pub Reached : Thread crates → List Action → Type 0
  Reached t done = (events : List Event) × (run crates sockets t0 events ≡ ok (t, done))

  -- Before the greeting is sent: it is what is left of a round for which the run is ready.
  pub record Greets (t : Thread crates) (greeting : NetworkMessage) (done : List Action)
      : Type 0 where
    pub before : Thread crates
    pub reached : Reached before done
    pub going : before.is_shutdown ≡ false
    pub same_queue : before.txqueue ≡ t.txqueue
    pub result : Option Accepted
    pub on_any :
        (queue : List NetworkMessage)
        → is_full queue ≡ false
        → on_incoming crates sockets result (with_queue crates sockets queue before)
          ≡ ok (with_queue crates sockets (queue ++ (greeting ∷ [])) t, [])
    pub still_going : t.is_shutdown ≡ false

  -- While farewells are sent: what is in the channel will be thrown away.
  pub record Leaves (t : Thread crates) (conf : Settings) (done : List Action) : Type 0 where
    pub before : Thread crates
    pub reached : Reached before done
    pub going : before.is_shutdown ≡ false
    pub moving : moves crates sockets conf before ≡ true
    pub farewells : List NetworkMessage
    pub told : disconnect_all crates sockets before.server.connections ≡ ok farewells
    pub same : t ≡ with_queue crates sockets t.txqueue (drained crates sockets before)

  abbrev pub Sim : State crates sockets → List Action → Type 0
  Sim (t, at_select) done = Reached t done
  Sim (t, sending left (some conf)) done = Leaves t conf done
  Sim (t, sending [] none) done = Reached t done × (t.is_shutdown ≡ false)
  Sim (t, sending (greeting ∷ []) none) done = Greets t greeting done
  Sim (t, sending (_ ∷ _ ∷ _) none) done = ⊥
  Sim (t, acting action actions) done =
      Reached t (done ++ (action ∷ actions)) × (t.is_shutdown ≡ false)

  pub quiet : (s : State crates sockets) (done : List Action) → Sim s done → Sim s (done ++ [])
  quiet s done h = rw (append-nil done) h

  pub one_more :
      (u t : Thread crates) (e : Event) (done now : List Action)
      → Reached u done
      → u.is_shutdown ≡ false
      → step crates sockets u e ≡ ok (t, now)
      → Reached t (done ++ now)
  one_more u t e done now (events, ran) going s =
      (events ++ (e ∷ []), run-snoc crates sockets t0 u t events e done now ran going s)

  pub one_quiet :
      (u t : Thread crates) (e : Event) (done : List Action)
      → Reached u done
      → u.is_shutdown ≡ false
      → step crates sockets u e ≡ ok (t, [])
      → Reached t done
  one_quiet u t e done reached going s =
      rw (append-nil done) at (one_more u t e done [] reached going s)

  -- The thread behind a `send` of another task, which went in or waits.
  abbrev pub pushed : Bool → NetworkMessage → Thread crates → Thread crates
  pushed waits message t = if waits then t else record t { txqueue = t.txqueue ++ (message ∷ []) }

  pub pushed-Reached :
      (waits : Bool) (message : NetworkMessage) (t : Thread crates) (done : List Action)
      → Reached t done
      → t.is_shutdown ≡ false
      → Reached (pushed waits message t) done × ((pushed waits message t).is_shutdown ≡ false)
  unfolding step
  pushed-Reached true message t done reached going = (reached, going)
  pushed-Reached false message t done reached going =
      (one_quiet t (pushed false message t) (enqueued message) done reached going refl, going)

  pub pushed-Greets :
      (waits : Bool) (message greeting : NetworkMessage) (t : Thread crates) (done : List Action)
      → Greets t greeting done
      → Greets (pushed waits message t) greeting done
  unfolding step
  pushed-Greets true message greeting t done g = g
  pushed-Greets false message greeting t done g = record {
    before = pushed false message g.before;
    reached = (pushed-Reached false message g.before done g.reached g.going).0;
    going = g.going;
    same_queue = ap (λ (q : List NetworkMessage). q ++ (message ∷ [])) g.same_queue;
    result = g.result;
    on_any = g.on_any;
    still_going = g.still_going;
  }

  pub pushed-Leaves :
      (waits : Bool) (message : NetworkMessage) (t : Thread crates) (conf : Settings)
      (done : List Action)
      → Leaves t conf done
      → Leaves (pushed waits message t) conf done
  pushed-Leaves true message t conf done l = l
  pushed-Leaves false message t conf done l = record {
    before = l.before;
    reached = l.reached;
    going = l.going;
    moving = l.moving;
    farewells = l.farewells;
    told = l.told;
    same = ap (with_queue crates sockets (t.txqueue ++ (message ∷ []))) l.same;
  }
