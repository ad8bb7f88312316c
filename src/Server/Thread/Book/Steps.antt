-- ===== src/Server/Thread/Book/Steps.antt =====
-- Each step of the server thread against its book.
use mathlib.Core.Path.{fun_ext}
use havok_rust.Base.{
  ℕ, ◌≡◌, refl, sym, ap, Bytes, Bool, true, false, List, [], ◌∷◌, ◌++◌, Option, none, some, Outcome,
  ok, panic, out_of_fuel, ◌>>=◌, Option-cases, inl, inr, equal_iff, nat_eq, list_eq, ==_iff,
}
use havok_rust.Base.HashMap.{HashMap, get, insert, remove, get-insert, get-remove}
use havok_rust.Net.{SocketAddr, addr_eq, NetworkMessage}
use havok_rust.Settings.{Settings, reconfigure, shutdown}
use havok_rust.Ansi.Code.{unwrap}
use havok_rust.Ansi.Colors.{AnsiColors, get_colors}
use havok_rust.Connection.Session.{Crates, Connection, new, send_line, start_processing}
use havok_rust.Server.{Action, shut_down, Sockets, send_to, send_message, receive_message}
use havok_rust.Server.Channel.{is_full}
use havok_rust.Server.Table.{has}
use havok_rust.Server.Thread.{
  Accepted, Event, control, accepted, transmit, receive, enqueued, lagged, greeted_if, Thread,
  moves, on_reconfigure, on_accepted, accept_connection, on_transmit, step, welcome, enter,
}
use havok_rust.Server.Thread.Book.{
  put, forget, Book, book, Entry, greeted_entry, admit, admit_next, deliver, send_next, pass_on,
  book_step,
}

-- An event other than a reconfiguration to another address or port.
abbrev pub IsStay : Bytes → ℕ → Event → Type 0
IsStay ip port (control (reconfigure conf)) = (conf.mud.bind_ip ≡ ip) × (conf.mud.port ≡ port)
IsStay ip port _ = Unit

module _ (crates : Crates) (sockets : Sockets) where
  -- What an outcome of the thread is in the book.
  abbrev pub written : Outcome (Thread crates × List Action) → Outcome (Book crates × List Action)
  written m = m >>= λ r. ok (book crates r.0, r.1)

  forget-remove {ℓ} :
      {V : Type ℓ} (a : SocketAddr) (m : HashMap SocketAddr V)
      → forget a (λ b. get b m) ≡ (λ b. get b (remove a m))
  forget-remove a m = fun_ext (λ b. sym (get-remove a b m))

  put-insert {ℓ} :
      {V : Type ℓ} (a : SocketAddr) (v : V) (m : HashMap SocketAddr V)
      → put a v (λ b. get b m) ≡ (λ b. get b (insert a v m))
  put-insert a v m = fun_ext (λ b. sym (get-insert a b v m))

  stays :
      (conf : Settings) (t : Thread crates)
      → conf.mud.bind_ip ≡ t.server.bind_ip
      → conf.mud.port ≡ t.server.port
      → moves crates sockets conf t ≡ false
  stays conf t ip port =
      rw
        (
          (equal_iff conf.mud.bind_ip t.server.bind_ip).1 ip,
          (==_iff conf.mud.port t.server.port).1 port,
        )
        refl

  same_book :
      {f g : SocketAddr → Option (Connection crates)} {s r : SocketAddr → Option ℕ}
      (b : Book crates)
      → f ≡ g
      → s ≡ r
      → record b { connections = f; streams = s } ≡ record b { connections = g; streams = r }
  same_book b p q = rw (p, q) refl

  send_to-book :
      (t : Thread crates) (queue : List NetworkMessage) (a : SocketAddr) (item : ℕ)
      (payload : Bytes)
      → deliver crates a (some item) payload (record (book crates t) { txqueue = queue }) ≡ (
        book crates
            (record t { server = (send_to crates t.server a item payload).0; txqueue = queue }),
        (send_to crates t.server a item payload).1,
      )
  unfolding send_to
  send_to-book t queue a item [] =
      ap (λ (b : Book crates). (b, shut_down item ∷ []))
        (same_book (record (book crates t) { txqueue = queue })
          (forget-remove a t.server.connections) (forget-remove a t.server.wr_streams))
  send_to-book t queue a item (b ∷ payload) = refl

  on_transmit-book :
      (queue : List NetworkMessage) (t : Thread crates)
      → t.txqueue ≡ queue
      → written (on_transmit crates sockets queue t) ≡ ok (send_next crates queue (book crates t))
  unfolding on_transmit send_message
  on_transmit-book [] t e = refl
  on_transmit-book (message ∷ queue) t e =
      elim (Option-cases (get message.dest t.server.wr_streams)) [
        | inl gone ↦ rw (send_message, gone) refl
        | inr (item, found) ↦
            rw (send_message, found)
              (ap ok (sym (send_to-book t queue message.dest item message.payload)))
      ]

  receive-book :
      (t : Thread crates) (message : NetworkMessage)
      → receive_message crates t.server message
        ≡ pass_on crates (get message.dest t.server.connections) message
  unfolding receive_message
  receive-book t message = elim (Option-cases (get message.dest t.server.connections)) [
    | inl gone ↦ rw (receive_message, gone) refl
    | inr (c, found) ↦ rw (receive_message, found) refl
  ]

  written-bind {ℓ} :
      {A : Type ℓ} (m : Outcome A) (f : A → Outcome (Thread crates × List Action))
      (g : A → Entry crates)
      → ((x : A) → written (f x) ≡ g x)
      → written (m >>= f) ≡ (m >>= g)
  written-bind (ok x) f g h = h x
  written-bind panic f g h = refl
  written-bind out_of_fuel f g h = refl

  enter-book :
      (a : Accepted) (colors : AnsiColors crates.term crates.re) (c : Connection crates)
      (greeting : NetworkMessage) (t : Thread crates)
      → book crates (enter crates sockets a colors c greeting t) ≡ record (book crates t) {
        connections = put a.addr c (book crates t).connections;
        streams = put a.addr a.wr_half (book crates t).streams;
        parser = colors;
        txqueue = t.txqueue ++ (greeting ∷ []);
      }
  enter-book a colors c greeting t = sym (
      same_book (record (book crates t) { parser = colors; txqueue = t.txqueue ++ (greeting ∷ []) })
        (put-insert a.addr c t.server.connections)
        (put-insert a.addr a.wr_half t.server.wr_streams))

  greeted-book :
      (full : Bool) (t : Thread crates) (b : Book crates)
      → book crates t ≡ b
      → written (greeted_if crates sockets full t) ≡ greeted_entry crates full b
  greeted-book true t b e = refl
  greeted-book false t b e = ap (λ (x : Book crates). ok (x, [])) e

  on_accepted-book :
      (a : Accepted) (t : Thread crates)
      → written (on_accepted crates sockets a t) ≡ admit crates a (book crates t)
  unfolding on_accepted
  on_accepted-book a t = written-bind (get_colors crates.term crates.re t.parser) _ _ (λ colors.
      let c : Connection crates =
        (start_processing crates (new crates t.txsender a.addr colors) a.rx a.usertx a.userrx
          a.rxtask a.txtask a.dnsresult).connection in
      written-bind (unwrap t.server.settings) _ _ (λ conf.
        written-bind (send_line crates c (welcome conf.mud.name)) _ _ (λ greeting.
          greeted-book (is_full t.txqueue) (enter crates sockets a colors c greeting t) _
            (enter-book a colors c greeting t))))

  taken-book :
      (t : Thread crates) (listener : Option ℕ) (result : Option Accepted)
      → written (
          accept_connection crates sockets listener result >>= λ r.
          unwrap r >>= λ a. on_accepted crates sockets a t)
        ≡ admit_next crates (has listener) result (book crates t)
  unfolding accept_connection
  taken-book t none result = refl
  taken-book t (some l) none = refl
  taken-book t (some l) (some a) = on_accepted-book a t

  pub step-book :
      (t : Thread crates) (event : Event)
      → IsStay t.server.bind_ip t.server.port event
      → written (step crates sockets t event) ≡ book_step crates (book crates t) event
  unfolding step on_reconfigure
  step-book t (control shutdown) h = refl
  step-book t (control (reconfigure conf)) h = rw (stays conf t h.0 h.1) refl
  step-book t (accepted result) h = taken-book t t.listener result
  step-book t transmit h = on_transmit-book t.txqueue t refl
  step-book t (receive message) h = rw (receive-book t message) refl
  step-book t lagged h = refl
  step-book t (enqueued message) h = refl
