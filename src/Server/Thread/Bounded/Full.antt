-- ===== src/Server/Thread/Bounded/Full.antt =====
-- The server thread on a full transmit channel.
use havok_rust.Base.{
  ℕ, ◌≡◌, refl, ap, ◌∙◌, Bool, true, false, List, [], ◌∷◌, ◌++◌, Option, none, some, Outcome, ok,
  codes, Bytes, All, ◌>>=◌, if◌then◌else◌,
}
use havok_rust.Net.{NetworkMessage}
use havok_rust.Settings.{Settings}
use havok_rust.Connection.Session.{Crates}
use havok_rust.Server.{Action, Sockets}
use havok_rust.Server.Thread.{Accepted, Event, accepted, enqueued, Thread, on_accepted}
use havok_rust.Server.Thread.Rounds.{emptied}
use havok_rust.Server.Channel.{is_full}
use havok_rust.Server.Thread.Bounded.{
  at_select, sending, Move, event, go_on, taken, State, push, begin_round, move, bounded_run,
}
use havok_rust.Ansi.Code.{unwrap}
use havok_rust.Ansi.Colors.{color_pattern}
use havok_rust.Ansi.Convert.{parts_of}
use havok_rust.Ansi.Convert.Keeps.{HasCode}
use havok_rust.Server.Thread.{welcome, accept_connection}
use havok_rust.Server.Thread.Welcome.{CanColor, on_accepted_enters}
use mathlib.Core.List.{Sublist}

module _ (crates : Crates) (sockets : Sockets) where
  push_full :
      (message : NetworkMessage) (t : Thread crates)
      → is_full t.txqueue ≡ true
      → push crates sockets message t ≡ t
  push_full message t full =
      ap (λ (b : Bool). if b then t else record t { txqueue = t.txqueue ++ (message ∷ []) }) full

  abbrev stopped :
      Thread crates
      → List NetworkMessage
      → Option Settings
      → Outcome (State crates sockets × List Action)
  stopped t left next = ok ((t, sending left next), [])

  -- Nothing that happens gets the thread on.
  move_full :
      (t : Thread crates) (message : NetworkMessage) (left : List NetworkMessage)
      (next : Option Settings) (m : Move)
      → is_full t.txqueue ≡ true
      → move crates sockets (t, sending (message ∷ left) next) m
        ≡ ok ((t, sending (message ∷ left) next), [])
  unfolding move
  move_full t message left next (event (enqueued other)) full = rw (push_full other t full) refl
  move_full t message left next (event _) full = refl
  move_full t message left next taken full = refl
  move_full t message left next go_on full =
      ap
        (λ (b : Bool).
          if b
          then stopped t (message ∷ left) next
          else ok ((push crates sockets message t, sending left next), []))
        full

  bounded_run_full :
      (t : Thread crates) (message : NetworkMessage) (left : List NetworkMessage)
      (next : Option Settings) (ms : List Move)
      → is_full t.txqueue ≡ true
      → bounded_run crates sockets (t, sending (message ∷ left) next) ms
        ≡ stopped t (message ∷ left) next
  unfolding bounded_run
  bounded_run_full t message left next [] full = refl
  bounded_run_full t message left next (m ∷ ms) full =
      rw (move_full t message left next m full, bounded_run_full t message left next ms full) refl

  first_move :
      (t : Thread crates) (e : Event) (s : State crates sockets) (ms : List Move)
      → t.is_shutdown ≡ false
      → move crates sockets (t, at_select) (event e) ≡ ok (s, [])
      → bounded_run crates sockets s ms ≡ ok (s, [])
      → bounded_run crates sockets (t, at_select) (event e ∷ ms) ≡ ok (s, [])
  unfolding bounded_run
  first_move t e s ms going moved stays =
      let over : Outcome (State crates sockets × List Action) = ok ((t, at_select), []) in
      ap
        (λ (b : Bool).
          if b
          then over
          else (move crates sockets (t, at_select) (event e) >>= λ r.
              bounded_run crates sockets r.0 ms >>= λ r'. ok (r'.0, r.1 ++ r'.1)))
        going
      ∙ rw (moved, stays) refl

  -- The thread behind what comes before the greeting.
  abbrev greeted :
      Thread crates → Thread crates × List Action → Outcome (State crates sockets × List Action)
  greeted t (t1, actions) =
      ok ((record t1 { txqueue = t.txqueue }, sending t1.txqueue none), actions)

  accepted-sends :
      (a : Accepted) (t t1 : Thread crates) (listener : ℕ) (queue : List NetworkMessage)
      → t.listener ≡ some listener
      → on_accepted crates sockets a (emptied crates sockets t) ≡ ok (t1, [])
      → t1.txqueue ≡ queue
      → move crates sockets (t, at_select) (event (accepted (some a)))
        ≡ ok ((record t1 { txqueue = t.txqueue }, sending queue none), [])
  unfolding move begin_round accept_connection
  accepted-sends a t t1 listener queue on entered sent =
      ap
        (λ (l : Option ℕ).
          (accept_connection crates sockets l (some a) >>= λ r.
          unwrap r >>= λ b. on_accepted crates sockets b (emptied crates sockets t))
          >>= greeted t)
        on
      ∙ ap (λ (m : Outcome (Thread crates × List Action)). m >>= greeted t) entered
      ∙ ap (λ (q : List NetworkMessage). stopped (record t1 { txqueue = t.txqueue }) q none) sent

  module _ (regex : crates.re.Regex)
      (keeps : (style : crates.term.Style) (text : Bytes)
        → Sublist text (crates.term.paint style text)) where
    -- Let painting keep the text, let the colour pattern compile and match only well-formed codes in the
    -- welcome line, and let the thread run, listen and have its settings. If its transmit channel is full when
    -- it accepts a connection, then it never sends its greeting: whatever else happens, it stays in this round
    -- and does nothing more.
    pub accepted_hangs :
        (a : Accepted) (t : Thread crates) (conf : Settings) (listener : ℕ) (ms : List Move)
        → crates.re.build color_pattern ≡ some regex
        → CanColor crates sockets regex t.parser
        → t.server.settings ≡ some conf
        → All HasCode
            (parts_of (crates.re.captures_iter regex (welcome conf.mud.name ++ codes "\r\n")))
        → t.listener ≡ some listener
        → t.is_shutdown ≡ false
        → is_full t.txqueue ≡ true
        → (t' : Thread crates) × (greeting : NetworkMessage) × (bounded_run crates sockets
              (t, at_select)
              (event (accepted (some a)) ∷ ms)
            ≡ ok ((t', sending (greeting ∷ []) none), []))
          × (t'.txqueue ≡ t.txqueue)
    accepted_hangs a t conf listener ms built can set codes_in on going full =
        let (t1, line, entered, _, _, _, _, _, queue, _) =
          on_accepted_enters crates sockets regex keeps a (emptied crates sockets t) conf built can
            set refl codes_in in
        let t' : Thread crates = record t1 { txqueue = t.txqueue } in
        let greeting : NetworkMessage = record { dest = a.addr; payload = line } in
        (
          t',
          greeting,
          first_move t (accepted (some a)) (t', sending (greeting ∷ []) none) ms going
              (accepted-sends a t t1 listener (greeting ∷ []) on entered queue)
              (bounded_run_full t' greeting [] none ms full),
          refl,
        )
