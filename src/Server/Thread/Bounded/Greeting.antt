-- ===== src/Server/Thread/Bounded/Greeting.antt =====
-- What a round with a new connection sends, whatever is in the transmit channel.
use havok_rust.Base.{
  Bool, true, false, ◌≡◌, ap, sym, ◌∙◌, List, [], ◌∷◌, ◌++◌, Option, ok, bind-eq-ok, ok-pair,
}
use havok_rust.Net.{NetworkMessage}
use havok_rust.Settings.{Settings}
use havok_rust.Ansi.Code.{unwrap}
use havok_rust.Ansi.Colors.{AnsiColors, get_colors}
use havok_rust.Connection.Session.{Crates, send_line}
use havok_rust.Server.{Action, Sockets}
use havok_rust.Server.Channel.{is_full}
use havok_rust.Server.Thread.{
  Accepted, Thread, on_accepted, accept_connection, on_incoming, enter, welcome, greeted_if,
}
use havok_rust.Server.Thread.Rounds.{made}

module _ (crates : Crates) (sockets : Sockets) where
  abbrev pub with_queue : List NetworkMessage → Thread crates → Thread crates
  with_queue queue t = record t { txqueue = queue }

  -- A connection that is accepted on one channel is accepted on any, with one message more at its end.
  pub record Greeting (before : List NetworkMessage) (result : Option Accepted)
      (t t' : Thread crates) (actions : List Action) : Type 0 where
    pub greeting : NetworkMessage
    pub only : t'.txqueue ≡ before ++ (greeting ∷ [])
    pub quiet : actions ≡ []
    pub same_flag : t'.is_shutdown ≡ t.is_shutdown
    pub on_any :
        (queue : List NetworkMessage)
        → is_full queue ≡ false
        → on_incoming crates sockets result (with_queue queue t)
          ≡ ok (with_queue (queue ++ (greeting ∷ [])) t', [])

  greeted_if-ok :
      (full : Bool) (t : Thread crates) {t' : Thread crates} {actions : List Action}
      → greeted_if crates sockets full t ≡ ok (t', actions)
      → (t ≡ t') × ([] ≡ actions)
  greeted_if-ok true t e = cc
  greeted_if-ok false t e = ok-pair e

  on_incoming-enter :
      (result : Option Accepted) (t : Thread crates) (r : Option Accepted) (a : Accepted)
      (colors : AnsiColors crates.term crates.re) (conf : Settings) (greeting : NetworkMessage)
      → accept_connection crates sockets t.listener result ≡ ok r
      → unwrap r ≡ ok a
      → get_colors crates.term crates.re t.parser ≡ ok colors
      → unwrap t.server.settings ≡ ok conf
      → send_line crates (made crates sockets t a colors) (welcome conf.mud.name) ≡ ok greeting
      → is_full t.txqueue ≡ false
      → on_incoming crates sockets result t
        ≡ ok (enter crates sockets a colors (made crates sockets t a colors) greeting t, [])
  unfolding on_accepted
  on_incoming-enter result t r a colors conf greeting e1 e2 e3 e4 e5 room =
      rw (e1, e2, e3, e4, e5)
        (ap
          (λ b.
            greeted_if crates sockets b
              (enter crates sockets a colors (made crates sockets t a colors) greeting t))
          room)

  pub on_incoming-Greeting :
      (before : List NetworkMessage) (result : Option Accepted) (t t' : Thread crates)
      (actions : List Action)
      → on_incoming crates sockets result (with_queue before t) ≡ ok (t', actions)
      → Greeting before result t t' actions
  unfolding on_accepted
  on_incoming-Greeting before result t t' actions e =
      let (r, e1, rest1) = bind-eq-ok (accept_connection crates sockets t.listener result) _ e in
      let (a, e2, rest2) = bind-eq-ok (unwrap r) _ rest1 in
      let (colors, e3, rest3) = bind-eq-ok (get_colors crates.term crates.re t.parser) _ rest2 in
      let (conf, e4, rest4) = bind-eq-ok (unwrap t.server.settings) _ rest3 in
      let c = made crates sockets t a colors in
      let (greeting, e5, rest5) = bind-eq-ok (send_line crates c (welcome conf.mud.name)) _ rest4 in
      let (same, quiet) = greeted_if-ok (is_full before) _ rest5 in
      record {
        greeting = greeting;
        only = ap (λ (u : Thread crates). u.txqueue) (sym same);
        quiet = sym quiet;
        same_flag = ap (λ (u : Thread crates). u.is_shutdown) (sym same);
        on_any = λ queue room.
            on_incoming-enter result (with_queue queue t) r a colors conf greeting e1 e2 e3 e4 e5
              room
            ∙ ap (λ (u : Thread crates). ok (with_queue (queue ++ (greeting ∷ [])) u, [])) same;
      }
