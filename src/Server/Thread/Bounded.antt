-- ===== src/Server/Thread/Bounded.antt =====
-- src/server.rs, the `select!` loop of `do_server_thread` with the bound of its transmit channel. The thread
-- is the only receiver of that channel, and sends to it itself: the greeting of a new connection, and the
-- farewells of a reconfiguration. It also waits for the sockets that it writes to and for the bounded queues of
-- the receive tasks. While it waits, it looks at no event.
pub mod Greeting
pub mod Plays
pub mod Sim
pub mod Events
pub mod Sound
pub mod Moving
pub mod Complete
pub mod Full
use havok_rust.Base.{
  Bool, true, false, List, [], ◌∷◌, ◌++◌, Option, none, some, Outcome, ok, panic, ◌>>=◌,
  if◌then◌else◌, leb, length,
}
use havok_rust.Net.{NetworkMessage}
use havok_rust.Settings.{Settings, reconfigure, shutdown}
use havok_rust.Connection.Session.{Crates}
use havok_rust.Server.{Server, Action, Sockets, receive_message}
use havok_rust.Server.Thread.{
  Accepted, Event, control, accepted, transmit, receive, enqueued, lagged, renewed, dropped, Thread,
  disconnect_all, apply_settings, moves, on_incoming, on_transmit,
}
use havok_rust.Server.Thread.Rounds.{emptied}
use havok_rust.Server.Channel.{is_full}

-- The thread waits for an event, or it is in a round: with these messages still to send, and then these
-- settings, if any, to apply; or with these things still to do on the sockets and the queues of the receive
-- tasks, for the first of which it waits.
pub data Place : Type 0 where
  at_select : Place
  sending : List NetworkMessage → Option Settings → Place
  acting : Action → List Action → Place

-- What happens: an event, which another task may bring about at any time; the thread goes on; or the socket
-- or the queue takes what the thread waits to give it.
pub data Move : Type 0 where
  event : Event → Move
  go_on : Move
  taken : Move

module _ (crates : Crates) (sockets : Sockets) where
  abbrev pub State : Type 0
  State = Thread crates × Place

  abbrev pub Moved : Type 0
  Moved = Outcome (State × List Action)

  -- Another task's `send`, which waits while the channel is full.
  abbrev pub push : NetworkMessage → Thread crates → Thread crates
  push message t =
      if is_full t.txqueue then t else record t { txqueue = t.txqueue ++ (message ∷ []) }

  -- The thread with the connections drained from its table.
  abbrev pub drained : Thread crates → Thread crates
  drained t = record t { server = record t.server { connections = [] } }

  -- `Reconfigure`: what comes before the farewells are sent.
  abbrev pub begin_reconfigure : Settings → Thread crates → Moved
  begin_reconfigure conf t =
      if moves crates sockets conf t
      then (do
        farewells ← disconnect_all crates sockets t.server.connections
        ok ((drained t, sending farewells (some conf)), []))
      else ok ((t, at_select), [])

  -- A new connection, up to its greeting: what it sends is what an empty channel would hold.
  abbrev pub begin_accepted : Option Accepted → Thread crates → Moved
  begin_accepted result t = do
    (t', actions) ← on_incoming crates sockets result (emptied crates sockets t)
    ok ((record t' { txqueue = t.txqueue }, sending t'.txqueue none), actions)

  -- With this to do, a round goes on.
  abbrev pub await : Thread crates → List Action → State
  await t [] = (t, at_select)
  await t (action ∷ actions) = (t, acting action actions)

  unfoldable pub begin_round : Event → Thread crates → Moved
  unfolding on_transmit receive_message
  begin_round (control shutdown) t = ok ((record t { is_shutdown = true }, at_select), [])
  begin_round (control (reconfigure conf)) t = begin_reconfigure conf t
  begin_round (accepted result) t = begin_accepted result t
  begin_round transmit t = do
    (t', actions) ← on_transmit crates sockets t.txqueue t
    ok (await t' actions, [])
  begin_round (receive message) t = ok (await t (receive_message crates t.server message), [])
  begin_round lagged t = panic
  begin_round (enqueued message) t = ok ((push message t, at_select), [])

  -- Behind the last message the round ends, and with it the old server.
  abbrev pub end_round : Option Settings → Thread crates → Moved
  end_round none t = ok ((t, at_select), [])
  end_round (some conf) t = do
    t' ← apply_settings crates sockets conf (renewed crates sockets t)
    ok ((t', at_select), dropped crates sockets t.server.wr_streams)

  abbrev pub send_own :
      NetworkMessage → List NetworkMessage → Option Settings → Thread crates → Moved
  send_own message left next t =
      if is_full t.txqueue
      then ok ((t, sending (message ∷ left) next), [])
      else ok ((push message t, sending left next), [])

  unfoldable pub move : State → Move → Moved
  unfolding begin_round
  move (t, at_select) (event e) = begin_round e t
  move (t, at_select) m = ok ((t, at_select), [])
  move (t, place) (event (enqueued message)) = ok ((push message t, place), [])
  move (t, place) (event e) = ok ((t, place), [])
  move (t, sending [] next) go_on = end_round next t
  move (t, sending (message ∷ left) next) go_on = send_own message left next t
  move (t, acting action actions) taken = ok (await t actions, action ∷ [])
  move (t, place) m = ok ((t, place), [])

  -- `while !shutdown` is looked at between two rounds.
  abbrev pub is_over : State → Bool
  is_over (t, at_select) = t.is_shutdown
  is_over (t, place) = false

  unfoldable pub bounded_run : State → List Move → Moved
  unfolding move
  bounded_run s [] = ok (s, [])
  bounded_run s (m ∷ ms) =
      let rest = (do
        (s', actions) ← move s m
        (s'', more) ← bounded_run s' ms
        ok (s'', actions ++ more)) in
      if is_over s then ok (s, []) else rest
