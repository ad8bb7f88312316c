-- ===== src/Server/Thread/Departs.antt =====
-- The way of the messages to a player: the transmit task of the connection, the server's transmit channel,
-- and the stream.
use havok_rust.Base.{
  ℕ, ◌≡◌, refl, sym, ap, ◌∙◌, Bytes, Bool, true, List, [], ◌∷◌, ◌++◌, map, Option, none, some, All,
  Ensures, Ensures-bind, Ensures-ok, eq_self, nat_eq, list_eq,
}
use havok_rust.Base.HashMap.{HashMap, get}
use havok_rust.Net.{SocketAddr, addr_eq, eq_addr, NetworkMessage, UserMessage}
use havok_rust.Ansi.Convert.{convert_string}
use havok_rust.Connection.Session.{
  Crates, Connection, send_raw, send_string, jinja_process, by_kind, to_network, finished,
  do_tx_process_thread,
}
use havok_rust.Connection.Session.Sends.{
  Sends, one, none_left, IsGoodbye, do_tx_process_thread_goodbye,
}
use havok_rust.Server.{Action, Sockets}
use havok_rust.Server.Thread.{Thread, Event, run}
use havok_rust.Server.Thread.Book.Steps.{IsStay}
use havok_rust.Server.Thread.Book.Queues.{addressed, written_to, sent_in, IsText, if_cons}
use havok_rust.Server.Thread.Book.Rounds.{IsApart}
use havok_rust.Server.Thread.Book.Writes.{run_writes}

abbrev pub payload_of : NetworkMessage → Bytes
payload_of message = message.payload

module _ (crates : Crates) where
  abbrev GoesTo : SocketAddr → Option NetworkMessage → Type 0
  GoesTo a none = Unit
  GoesTo a (some message) = message.dest ≡ a

  send_string-dest :
      (c : Connection crates) (text : Bytes)
      → Ensures (λ (m : NetworkMessage). m.dest ≡ c.addr) (send_string crates c text)
  unfolding send_string send_raw
  send_string-dest c text =
      Ensures-bind (λ (m : NetworkMessage). m.dest ≡ c.addr)
        (convert_string crates.term crates.re c.ansi_colors text c.ansi_mode) _ (λ line _. refl)

  by_kind-GoesTo :
      (c : Connection crates) (jinja : Option (HashMap Bytes Bytes)) (bytes string : Bytes)
      → Ensures (GoesTo c.addr) (by_kind crates c jinja bytes string)
  unfolding by_kind send_raw
  by_kind-GoesTo c (some jinjamap) bytes string =
      Ensures-bind (GoesTo c.addr) (jinja_process crates jinjamap) _ (λ text _.
        Ensures-bind (GoesTo c.addr) (send_string crates c text) _ (λ message e.
          Ensures-ok (λ (m : NetworkMessage). m.dest ≡ c.addr) (send_string crates c text)
            (send_string-dest c text) e))
  by_kind-GoesTo c none [] [] = tt
  by_kind-GoesTo c none (b ∷ bytes) string = refl
  by_kind-GoesTo c none [] (b ∷ string) =
      Ensures-bind (GoesTo c.addr) (send_string crates c (b ∷ string)) _ (λ message e.
        Ensures-ok (λ (m : NetworkMessage). m.dest ≡ c.addr) (send_string crates c (b ∷ string))
          (send_string-dest c (b ∷ string)) e)

  -- All that the transmit task sends goes to the address of its connection.
  Sends-addressed :
      (c : Connection crates) (msgs : List UserMessage) (outs : List NetworkMessage)
      → Sends crates c msgs outs
      → addressed c.addr outs ≡ map payload_of outs
  Sends-addressed c msgs outs none_left = refl
  Sends-addressed c msgs outs (one {msg = msg} {out = out} {msgs = msgs'} {outs = outs'} e sends) =
      let dest : out.dest ≡ c.addr =
        Ensures-ok (GoesTo c.addr) (by_kind crates c msg.jinja msg.bytes msg.string)
          (by_kind-GoesTo c msg.jinja msg.bytes msg.string) e in
      let here : eq_addr out.dest c.addr ≡ true =
        ap (λ (d : SocketAddr). eq_addr d c.addr) dest ∙ eq_self c.addr in
      ap (λ (t : Bool). if_cons t out.payload (addressed c.addr outs')) here
      ∙ ap (◌∷◌ out.payload) (Sends-addressed c msgs' outs' sends)

module _ (crates : Crates) (sockets : Sockets) where
  -- Let the transmit task of a connection make messages, none empty, of those of its user channel, up to a
  -- goodbye. Let the connection's stream be that of its address in the tables of the server thread, and of
  -- no other, and let the thread get any events of which none moves it and none is a new connection from
  -- that address or on that stream, and in which, for the address, exactly those messages go through the
  -- transmit channel. Then the task sends them, one for each user message and in order, and ends; and, as
  -- far as no round of the thread panics or waits for ever, their bytes are written to the stream, in
  -- order, up to those that still wait in the channel.
  pub messages_depart :
      (t : Thread crates) (c : Connection crates) (item : ℕ) (msgs : List UserMessage)
      (outs : List NetworkMessage) (bye : UserMessage) (later : List (Option UserMessage))
      (events : List Event)
      → Sends crates c msgs outs
      → IsGoodbye crates bye
      → All IsText (map payload_of outs)
      → get c.addr t.server.wr_streams ≡ some item
      → ((b : SocketAddr) → get b t.server.wr_streams ≡ some item → b ≡ c.addr)
      → All (IsStay t.server.bind_ip t.server.port) events
      → All (IsApart crates c.addr item) events
      → addressed c.addr (t.txqueue ++ sent_in t.is_shutdown events) ≡ addressed c.addr outs
      → (do_tx_process_thread crates c (map some msgs ++ (some bye ∷ later))
          ≡ (map to_network outs, finished))
        × Ensures
            (λ (r : Thread crates × List Action).
              written_to item r.1 ++ addressed c.addr r.0.txqueue ≡ map payload_of outs)
            (run crates sockets t events)
  messages_depart t c item msgs outs bye later events sends ends text mine only stay apart through =
      let all_there = through ∙ Sends-addressed crates c msgs outs sends in
      (
        do_tx_process_thread_goodbye crates c msgs outs bye later sends ends,
        rw (sym all_there) (
            run_writes crates sockets t events c.addr item mine only stay apart
              (rw (sym all_there) at text)),
      )
