-- ===== src/Server/Thread/Book/Writes.antt =====
-- What is written to the stream of one connection, among all that the server thread does.
use havok_rust.Base.{
  All-front, All-back, ℕ, ◌≡◌, refl, sym, ap, ◌∙◌, Bytes, Bool, true, false, List, [], ◌∷◌, ◌++◌,
  some, Outcome, ok, panic, out_of_fuel, if◌then◌else◌, All, Ensures, Ensures-bind, Ensures-ok,
  append-nil, append_assoc, nat_eq, list_eq,
}
use havok_rust.Base.HashMap.{get}
use havok_rust.Net.{SocketAddr, addr_eq}
use havok_rust.Connection.Session.{Crates}
use havok_rust.Server.{Action, Sockets}
use havok_rust.Server.Thread.{Event, Thread, run}
use havok_rust.Server.Thread.Book.{Book, book, Entry, book_step, book_run}
use havok_rust.Server.Thread.Book.Steps.{IsStay, written}
use havok_rust.Server.Thread.Book.Kept.{run-book}
use havok_rust.Server.Thread.Book.Queues.{
  addressed, written_to, sent_by, ends_loop, sent_in, IsText, addressed-append, written-then,
}
use havok_rust.Server.Thread.Book.Delivers.{Owns}
use havok_rust.Server.Thread.Book.Rounds.{Round, IsApart, book_step-Round}

module _ (crates : Crates) (a : SocketAddr) (item : ℕ) where
  -- In order, what was written and what waits, behind events.
  abbrev Conserved : Bool → Book crates → List Event → Book crates × List Action → Type 0
  Conserved over b events r =
      written_to item r.1 ++ addressed a r.0.txqueue
      ≡ addressed a b.txqueue ++ addressed a (sent_in over events)

  Ensures-over :
      (P : Book crates × List Action → Type 0) (over : Bool) (x y : Entry crates)
      → over ≡ true
      → Ensures P x
      → Ensures P (if over then x else y)
  Ensures-over P true x y e h = h
  Ensures-over P false x y e h = cc

  Ensures-going :
      (P : Book crates × List Action → Type 0) (over : Bool) (x y : Entry crates)
      → over ≡ false
      → Ensures P y
      → Ensures P (if over then x else y)
  Ensures-going P true x y e h = cc
  Ensures-going P false x y e h = h

  -- The first round, and then the others.
  first_round :
      (b : Book crates) (event : Event) (events : List Event) (r : Book crates × List Action)
      → Round crates a item b (sent_by event) (ends_loop event) r
      → written_to item r.1
          ++ (addressed a r.0.txqueue ++ addressed a (sent_in (ends_loop event) events))
        ≡ addressed a b.txqueue ++ addressed a (sent_in false (event ∷ events))
  first_round b event events r round =
      let later : List Bytes = addressed a (sent_in (ends_loop event) events) in
      sym (append_assoc (written_to item r.1) (addressed a r.0.txqueue) later)
      ∙ ap (λ (front : List Bytes). front ++ later) round.in_order
      ∙ append_assoc (addressed a b.txqueue) (addressed a (sent_by event)) later
      ∙ ap (λ (back : List Bytes). addressed a b.txqueue ++ back)
          (sym (addressed-append a (sent_by event) (sent_in (ends_loop event) events)))

  book_run-Conserved :
      (over : Bool) (b : Book crates) (events : List Event)
      → b.is_shutdown ≡ over
      → Owns crates a item b.streams
      → All IsText (addressed a b.txqueue ++ addressed a (sent_in over events))
      → All (IsApart crates a item) events
      → Ensures (Conserved over b events) (book_run crates b events)
  book_run-Conserved true b [] flag o text apart = sym (append-nil (addressed a b.txqueue))
  book_run-Conserved false b [] flag o text apart = sym (append-nil (addressed a b.txqueue))
  book_run-Conserved true b (event ∷ events) flag o text apart =
      Ensures-over (Conserved true b (event ∷ events)) b.is_shutdown _ _ flag
        (sym (append-nil (addressed a b.txqueue)))
  book_run-Conserved false b (event ∷ events) flag o text apart =
      let P = Conserved false b (event ∷ events) in
      Ensures-going P b.is_shutdown _ _ flag (
        Ensures-bind P (book_step crates b event) _ (λ r e.
          let round =
            Ensures-ok (Round crates a item b (sent_by event) (ends_loop event))
              (book_step crates b event)
              (book_step-Round crates a item b event o flag
                (All-front IsText (addressed a b.txqueue) _ text) apart.0)
              e in
          let first = first_round b event events r round in
          let text' = All-back IsText (written_to item r.1) _ (rw (sym first) at text) in
          Ensures-bind P (book_run crates r.0 events) _ (λ r' e'.
            written-then item r.1 r'.1 (addressed a r'.0.txqueue)
            ∙ ap (λ (back : List Bytes). written_to item r.1 ++ back)
                (Ensures-ok (Conserved (ends_loop event) r.0 events) (book_run crates r.0 events)
                  (book_run-Conserved (ends_loop event) r.0 events round.flag round.owns text'
                    apart.1)
                  e')
            ∙ first)))

module _ (crates : Crates) (sockets : Sockets) where
  Ensures-written :
      (P : Book crates × List Action → Type 0) (m : Outcome (Thread crates × List Action))
      → Ensures P (written crates sockets m)
      → Ensures (λ (r : Thread crates × List Action). P (book crates r.0, r.1)) m
  Ensures-written P (ok r) h = h
  Ensures-written P panic h = tt
  Ensures-written P out_of_fuel h = tt

  -- Let a stream be that of one address in the tables of a server thread, and of no other. Let the thread
  -- get any events of which none moves the server and none is a new connection from that address or on that
  -- stream, and let no empty message for the address be in the transmit channel or come. Then, as far as no
  -- round panics or waits for ever, what is written to the stream, and behind it what still waits in the
  -- channel for the address, is exactly what waited for it at first, and behind it what other tasks sent to
  -- it before a shutdown: nothing is lost, doubled, reordered or written to another stream in place of this
  -- one.
  pub run_writes :
      (t : Thread crates) (events : List Event) (a : SocketAddr) (item : ℕ)
      → get a t.server.wr_streams ≡ some item
      → ((b : SocketAddr) → get b t.server.wr_streams ≡ some item → b ≡ a)
      → All (IsStay t.server.bind_ip t.server.port) events
      → All (IsApart crates a item) events
      → All IsText (addressed a (t.txqueue ++ sent_in t.is_shutdown events))
      → Ensures
          (λ (r : Thread crates × List Action).
            written_to item r.1 ++ addressed a r.0.txqueue
            ≡ addressed a (t.txqueue ++ sent_in t.is_shutdown events))
          (run crates sockets t events)
  run_writes t events a item mine only stay apart text =
      let split = addressed-append a t.txqueue (sent_in t.is_shutdown events) in
      let o : Owns crates a item (λ b. get b t.server.wr_streams) = record {
        mine = mine;
        only = only;
      } in
      rw split (
        Ensures-written (Conserved crates a item t.is_shutdown (book crates t) events)
          (run crates sockets t events)
          (rw (run-book crates sockets t events stay) (
            book_run-Conserved crates a item t.is_shutdown (book crates t) events refl o
              (rw split at text) apart)))
