-- ===== src/Server/Thread/Book/Kept.antt =====
-- The server thread keeps its book.
use havok_rust.Base.{
  ℕ, ◌≡◌, refl, sym, ap, ◌∙◌, Bytes, Bool, true, false, List, [], ◌∷◌, ◌++◌, Option, none, some,
  Outcome, ok, panic, out_of_fuel, ◌>>=◌, if◌then◌else◌, All, Ensures, Ensures-bind, Ensures-ok,
  nat_eq, list_eq,
}
use havok_rust.Net.{SocketAddr, addr_eq, NetworkMessage}
use havok_rust.Settings.{reconfigure, shutdown}
use havok_rust.Ansi.Code.{unwrap}
use havok_rust.Ansi.Colors.{get_colors}
use havok_rust.Connection.Session.{Crates, Connection, new, send_line, start_processing}
use havok_rust.Server.{Action, Sockets}
use havok_rust.Server.Channel.{is_full}
use havok_rust.Server.Thread.{
  Accepted, Event, control, accepted, transmit, receive, enqueued, lagged, Thread, step, run,
  welcome,
}
use havok_rust.Server.Thread.Book.{
  Book, book, Entry, greeted_entry, admit_next, deliver, send_next, book_step, book_run,
}
use havok_rust.Server.Thread.Book.Steps.{IsStay, written, step-book}

module _ (crates : Crates) (sockets : Sockets) where
  -- What is done behind a step does not matter to how it is written.
  written-then :
      (m : Outcome (Thread crates × List Action)) (now : List Action)
      → written crates sockets (m >>= λ r. ok (r.0, now ++ r.1))
        ≡ (written crates sockets m >>= λ r. ok (r.0, now ++ r.1))
  written-then (ok r) now = refl
  written-then panic now = refl
  written-then out_of_fuel now = refl

  -- The first round, where the rounds behind it keep the book.
  round-book :
      (m : Outcome (Thread crates × List Action)) (events : List Event)
      → ((r : Thread crates × List Action)
          → m ≡ ok r
          → written crates sockets (run crates sockets r.0 events)
            ≡ book_run crates (book crates r.0) events)
      → written crates sockets
          (m >>= λ r. run crates sockets r.0 events >>= λ r'. ok (r'.0, r.1 ++ r'.1))
        ≡ (written crates sockets m >>= λ r.
            book_run crates r.0 events >>= λ r'. ok (r'.0, r.1 ++ r'.1))
  round-book (ok r) events h = written-then (run crates sockets r.0 events) r.1 ∙ rw (h r refl) refl
  round-book panic events h = refl
  round-book out_of_fuel events h = refl

  written-if :
      (b : Bool) (x y : Outcome (Thread crates × List Action)) (x' y' : Entry crates)
      → written crates sockets x ≡ x'
      → written crates sockets y ≡ y'
      → written crates sockets (if b then x else y) ≡ (if b then x' else y')
  written-if true x y x' y' h k = h
  written-if false x y x' y' h k = k

  abbrev AtHome : Book crates → Book crates × List Action → Type 0
  AtHome b r = (r.0.bind_ip ≡ b.bind_ip) × (r.0.port ≡ b.port)

  deliver-AtHome :
      (a : SocketAddr) (stream : Option ℕ) (payload : Bytes) (b : Book crates)
      → AtHome b (deliver crates a stream payload b)
  deliver-AtHome a none payload b = (refl, refl)
  deliver-AtHome a (some item) [] b = (refl, refl)
  deliver-AtHome a (some item) (c ∷ payload) b = (refl, refl)

  send_next-AtHome :
      (queue : List NetworkMessage) (b : Book crates) → AtHome b (send_next crates queue b)
  send_next-AtHome [] b = (refl, refl)
  send_next-AtHome (message ∷ queue) b =
      deliver-AtHome message.dest (b.streams message.dest) message.payload
        (record b { txqueue = queue })

  greeted-AtHome :
      (full : Bool) (b b' : Book crates)
      → AtHome b (b', [])
      → Ensures (AtHome b) (greeted_entry crates full b')
  greeted-AtHome true b b' h = tt
  greeted-AtHome false b b' h = h

  admit_next-AtHome :
      (listening : Bool) (result : Option Accepted) (b : Book crates)
      → Ensures (AtHome b) (admit_next crates listening result b)
  admit_next-AtHome false result b = tt
  admit_next-AtHome true none b = tt
  admit_next-AtHome true (some a) b =
      Ensures-bind (AtHome b) (get_colors crates.term crates.re b.parser) _ (λ colors _.
        let c : Connection crates =
          (start_processing crates (new crates b.txsender a.addr colors) a.rx a.usertx a.userrx
            a.rxtask a.txtask a.dnsresult).connection in
        Ensures-bind (AtHome b) (unwrap b.settings) _ (λ conf _.
          Ensures-bind (AtHome b) (send_line crates c (welcome conf.mud.name)) _
            (λ greeting _. greeted-AtHome (is_full b.txqueue) b _ (refl, refl))))

  -- A book keeps its address.
  book_step-AtHome :
      (b : Book crates) (event : Event) → Ensures (AtHome b) (book_step crates b event)
  book_step-AtHome b (control shutdown) = (refl, refl)
  book_step-AtHome b (control (reconfigure conf)) = (refl, refl)
  book_step-AtHome b (accepted result) = admit_next-AtHome b.is_listening result b
  book_step-AtHome b transmit = send_next-AtHome b.txqueue b
  book_step-AtHome b (receive message) = (refl, refl)
  book_step-AtHome b lagged = tt
  book_step-AtHome b (enqueued message) = (refl, refl)

  -- Let a server thread get any events of which no reconfiguration moves it. What it does, and whether it
  -- panics or waits for ever, is what its book does: new connections are entered, greeted and told apart by
  -- their addresses; a message is written to the stream of its address, passed on to its receive queue, or
  -- dropped; an empty one crosses the address out.
  pub run-book :
      (t : Thread crates) (events : List Event)
      → All (IsStay t.server.bind_ip t.server.port) events
      → written crates sockets (run crates sockets t events)
        ≡ book_run crates (book crates t) events
  unfolding run
  run-book t [] h = refl
  run-book t (event ∷ events) h = written-if t.is_shutdown _ _ _ _ refl (
      round-book (step crates sockets t event) events (λ r e.
        let in_book : book_step crates (book crates t) event ≡ ok (book crates r.0, r.1) =
          sym (step-book crates sockets t event h.0) ∙ ap (written crates sockets) e in
        let (ip, port) =
          Ensures-ok (AtHome (book crates t)) (book_step crates (book crates t) event)
            (book_step-AtHome (book crates t) event) in_book in
        run-book r.0 events (rw (ip, port) h.1))
      ∙ ap
          (λ (m : Entry crates).
            m >>= λ r. book_run crates r.0 events >>= λ r'. ok (r'.0, r.1 ++ r'.1))
          (step-book crates sockets t event h.0))
